-- ===== src/Buffer/Writes.antt =====
-- Writing to the list of buffers of network/src/nw_buf.c, and taking buffers from it.
use viabtc_future.Prelude.{
  ℕ, zero, suc, ◌-◌, ◌≤◌, ◌<◌, ◌≡◌, refl, ap, sym, ◌∙◌, true, Bool-cases, inl, inr, ◌⊎◌, Option,
  some, List, [], ◌∷◌, ◌++◌, arith, length, length-append, take, drop,
}
use mathlib.Core.List.{append_assoc, append-nil}
use viabtc_future.Buffer.{
  Buf, Pool, BufList, nw_buf_write, nw_buf_alloc, is_full, link_tail, fill, write_tail,
  nw_buf_list_write,
}
use viabtc_future.Buffer.Fifo.{
  IsList, content, Writes, write_tail-Writes, link_tail-IsList, link_tail-content, alloc-new_buf,
  take-drop_append,
}

length-drop : (n : ℕ) (xs : List ℕ) → length (drop n xs) ≡ length xs - n
length-drop zero xs = omega arith
length-drop (suc n) [] = omega arith
length-drop (suc n) (x ∷ xs) = omega (arith, length-drop n xs)

-- A new buffer takes at least one byte.
write_new_pos :
    (b : ℕ) (bs : List ℕ) (pool : Pool)
    → 0 < pool.size
    → 0 < (nw_buf_write (b ∷ bs) (nw_buf_alloc pool).0).0
unfolding nw_buf_write
write_new_pos b bs pool h =
    let new = (alloc-new_buf pool).0 in
    ground (arith, h, ap (λ (x : Buf). x.size) new, ap (λ (x : Buf). x.wpos) new)

-- What the loop leaves.
abbrev Fills : List ℕ → BufList → Option (List ℕ × BufList) → Type 0
Fills bs list r =
    (left : List ℕ) × (list' : BufList) × (r ≡ some (left, list'))
    × IsList list'
    × Writes (content list.bufs) bs (content list'.bufs) left
    × ((left ≡ []) ⊎ (is_full list' ≡ true))

fill-Fills :
    (fuel : ℕ) (bs : List ℕ) (list : BufList)
    → IsList list
    → length bs ≤ fuel
    → Fills bs list (fill fuel bs list)
unfolding fill
fill-Fills fuel [] list h enough =
    ([], list, refl, h, ([], refl, sym (append-nil (content list.bufs))), inl refl)
fill-Fills zero (b ∷ bs) list h enough = absurd (omega arith)
fill-Fills (suc fuel) (b ∷ bs) list h enough =
    let all = b ∷ bs in
    let (buf, pool) = nw_buf_alloc list.pool in
    let (ret, buf') = nw_buf_write all buf in
    elim (Bool-cases (is_full list)) [
      | inl full ↦
          (all, list, rw full, h, ([], refl, sym (append-nil (content list.bufs))), inr full)
      | inr room ↦
          let fewer : length (drop ret all) ≤ fuel =
            omega (arith, length-drop ret all, write_new_pos b bs list.pool h.sized) in
          let (left, list', filled, good, (ws, split, written), whole) =
            fill-Fills fuel (drop ret all) (link_tail buf' pool list)
              (link_tail-IsList all list h room) fewer in
          (
            left,
            list',
            rw room filled,
            good,
            (
              take ret all ++ ws,
              sym (take-drop_append ret all)
                  ∙ ap (◌++◌ (take ret all)) split
                  ∙ sym (append_assoc (take ret all) ws left),
              written
                  ∙ ap (λ xs. xs ++ ws) (link_tail-content all list)
                  ∙ append_assoc (content list.bufs) (take ret all) ws,
            ),
            whole,
          )
    ]

-- A list whose buffers, if it has any, are written up to the tail.
write_tail-IsList :
    (bs : List ℕ) (list : BufList)
    → IsList list
    → IsList (record list { bufs = (write_tail bs list.bufs).1 })
write_tail-IsList bs list h =
    let (good, same, _) = write_tail-Writes bs list.bufs h.bufs in
    record { bufs = good; counted = h.counted ∙ sym same; sized = h.sized; limited = h.limited }

-- With as much fuel as there are bytes, nw_buf_list_write returns. The bytes that it counts, a first
-- part of the data, stand behind the unread bytes of the list in their order, and it counts all of
-- them unless the list has become full. No buffer holds more than its size, and the list no more
-- buffers than its limit. The buffers of the pool are not of size 0.
pub nw_buf_list_write-Fifo :
    (fuel : ℕ) (bs : List ℕ) (list : BufList)
    → IsList list
    → length bs ≤ fuel
    → (n : ℕ) × (list' : BufList) × (left : List ℕ) × (nw_buf_list_write fuel bs list
        ≡ some (n, list'))
      × IsList list'
      × ((ws : List ℕ) × (bs ≡ ws ++ left)
          × (n ≡ length ws)
          × (content list'.bufs ≡ content list.bufs ++ ws))
      × ((left ≡ []) ⊎ (is_full list' ≡ true))
unfolding nw_buf_list_write
nw_buf_list_write-Fifo fuel bs list h enough =
    let (rest, bufs) = write_tail bs list.bufs in
    let tail = record list { bufs = bufs } in
    let (_, _, (us, split, written)) = write_tail-Writes bs list.bufs h.bufs in
    let fits : length rest ≤ fuel = omega (arith, ap length split, length-append us rest) in
    let (left, list', filled, good, (ws, split', written'), whole) =
      fill-Fills fuel rest tail (write_tail-IsList bs list h) fits in
    let parts : bs ≡ us ++ ws ++ left =
      split ∙ ap (◌++◌ us) split' ∙ sym (append_assoc us ws left) in
    (
      length bs - length left,
      list',
      left,
      rw (nw_buf_list_write, filled),
      good,
      (
        us ++ ws,
        parts,
        omega (arith, ap length parts, length-append (us ++ ws) left),
        written' ∙ ap (λ xs. xs ++ ws) written ∙ append_assoc (content list.bufs) us ws,
      ),
      whole,
    )
