-- ===== src/Buffer/Ends.antt =====
-- Both ends of the list of buffers of network/src/nw_buf.c: a buffer behind the tail, and the head
-- taken away.
use viabtc_future.Prelude.{
  ℕ, ◌≡◌, refl, ap, sym, ◌∙◌, false, Bool-cases, inl, inr, ◌⊎◌, List, [], ◌∷◌, ◌++◌, arith, length,
  take, ltb,
}
use mathlib.Core.List.{append-nil}
use viabtc_future.Buffer.{
  Buf, Pool, BufList, nw_buf_write, nw_buf_alloc, nw_buf_free, is_full, nw_buf_list_append,
  nw_buf_list_shift,
}
use viabtc_future.Buffer.Fifo.{
  IsList, unread, content, link_tail-IsList, link_tail-content, alloc-new_buf,
}

take_all : (xs : List ℕ) → take (length xs) xs ≡ xs
take_all [] = refl
take_all (x ∷ xs) = ap (◌∷◌ x) (take_all xs)

free-size : (buf : Buf) (pool : Pool) → (nw_buf_free buf pool).size ≡ pool.size
unfolding nw_buf_free
free-size buf pool = ground arith

-- Data that fits a buffer is written as a whole.
write_whole :
    (bs : List ℕ) (pool : Pool)
    → ltb (nw_buf_alloc pool).0.size (length bs) ≡ false
    → take (nw_buf_write bs (nw_buf_alloc pool).0).0 bs ≡ bs
unfolding nw_buf_write
write_whole bs pool h =
    let new = (alloc-new_buf pool).0 in
    let all : (nw_buf_write bs (nw_buf_alloc pool).0).0 ≡ length bs =
      ground (arith, h, ap (λ (x : Buf). x.wpos) new) in
    ap (λ n. take n bs) all ∙ take_all bs

-- All of the data, or nothing.
abbrev pub Appends : List ℕ → BufList → ℕ × BufList → Type 0
Appends bs list r =
    IsList r.1
    × ((r.0 ≡ length bs) × (content r.1.bufs ≡ content list.bufs ++ bs)
        ⊎ (r.0 ≡ 0) × (content r.1.bufs ≡ content list.bufs))

append-Appends :
    (bs : List ℕ) (list : BufList) → IsList list → Appends bs list (nw_buf_list_append bs list)
unfolding nw_buf_list_append
append-Appends bs list h =
    let (buf, pool) = nw_buf_alloc list.pool in
    elim (Bool-cases (is_full list)) [
      | inl full ↦ rw (nw_buf_list_append, full) (h, inr (refl, refl))
      | inr room ↦ elim (Bool-cases (ltb buf.size (length bs))) [
        | inl long ↦
            let size = free-size buf pool ∙ (alloc-new_buf list.pool).1 in
            rw (nw_buf_list_append, room, long)
              (
                record {
                  bufs = h.bufs;
                  counted = h.counted;
                  sized = omega (arith, size, h.sized);
                  limited = h.limited;
                },
                inr (refl, refl),
              )
        | inr fits ↦
            rw (nw_buf_list_append, room, fits)
              (
                link_tail-IsList bs list h room,
                inl (
                  refl,
                  link_tail-content bs list
                      ∙ ap (◌++◌ (content list.bufs)) (write_whole bs list.pool fits),
                ),
              )
      ]
    ]

-- The head goes, with what is unread in it.
abbrev pub Shifts : BufList → BufList → Type 0
Shifts list list' =
    IsList list' × (content list.bufs ≡ content (take 1 list.bufs) ++ content list'.bufs)

pub shift-Shifts :
    (pool : Pool) (count limit : ℕ) (bufs : List Buf)
    → let list : BufList = record { pool = pool; count = count; limit = limit; bufs = bufs } in
      IsList list → Shifts list (nw_buf_list_shift list)
unfolding nw_buf_list_shift
shift-Shifts pool count limit [] h = (h, refl)
shift-Shifts pool count limit (buf ∷ bufs) h = (
  record {
    bufs = h.bufs.1;
    counted = omega (arith, h.counted);
    sized = omega (arith, free-size buf pool, h.sized);
    limited = ground (arith, h.limited);
  },
  ap (λ xs. xs ++ content bufs) (sym (append-nil (unread buf))),
)

-- Appending puts all of the data, in a buffer of its own, behind the unread bytes, or changes
-- nothing of them; shifting takes away what is unread in the head. After both no buffer holds more
-- than its size, and the list no more buffers than its limit. The buffers of the pool are not of
-- size 0.
append-shift :
    (bs : List ℕ) (list : BufList)
    → IsList list
    → Appends bs list (nw_buf_list_append bs list) × Shifts list (nw_buf_list_shift list)
append-shift bs list h =
    (append-Appends bs list h, shift-Shifts list.pool list.count list.limit list.bufs h)
