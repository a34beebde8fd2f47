-- ===== src/Buffer/Fifo.antt =====
-- The list of buffers of network/src/nw_buf.c as one queue of bytes.
use viabtc_future.Prelude.{
  ℕ, zero, suc, ◌+◌, ◌≤◌, ◌<◌, ◌≡◌, refl, ap, sym, ◌∙◌, false, Bool-cases, inl, inr, ◌⊎◌, List, [],
  ◌∷◌, ◌++◌, arith, All, length, length-append, take, drop, drop-append_le, ◌==◌,
}
use mathlib.Core.Path.{subst}
use mathlib.Core.List.{append_assoc, append-nil}
use viabtc_future.Buffer.{
  Buf, Pool, BufList, nw_buf_write, nw_buf_avail, nw_buf_alloc, is_full, link_tail, write_tail,
  new_buf,
}

-- No position is past the end.
pub record IsBuf (buf : Buf) : Type 0 where
  pub read : buf.rpos ≤ buf.wpos
  pub fits : buf.wpos ≤ buf.size
  pub filled : length buf.bytes ≡ buf.wpos

pub record IsList (list : BufList) : Type 0 where
  pub bufs : All IsBuf list.bufs
  pub counted : list.count ≡ length list.bufs
  pub sized : 0 < list.pool.size
  pub limited : list.limit ≡ 0 ⊎ list.count ≤ list.limit

-- The bytes that are written and not read.
abbrev pub unread : Buf → List ℕ
unread buf = drop buf.rpos buf.bytes

abbrev pub content : List Buf → List ℕ
content [] = []
content (buf ∷ bufs) = unread buf ++ content bufs

pub take-drop_append : (n : ℕ) (xs : List ℕ) → take n xs ++ drop n xs ≡ xs
take-drop_append zero xs = refl
take-drop_append (suc n) [] = refl
take-drop_append (suc n) (x ∷ xs) = ap (◌∷◌ x) (take-drop_append n xs)

length-take : (n : ℕ) (xs : List ℕ) → n ≤ length xs → length (take n xs) ≡ n
length-take zero xs h = refl
length-take (suc n) [] h = absurd (omega arith)
length-take (suc n) (x ∷ xs) h = omega (arith, length-take n xs (omega arith))

-- A write puts the first bytes behind the unread ones.
pub write-IsBuf : (bs : List ℕ) (buf : Buf) → IsBuf buf → IsBuf (nw_buf_write bs buf).1
unfolding nw_buf_write
write-IsBuf bs buf h =
    let (ret, _) = nw_buf_write bs buf in
    let short : ret ≤ length bs = ground arith in
    record {
      read = ground (arith, h.read);
      fits = ground (arith, h.fits);
      filled =
          ground (arith, length-append buf.bytes (take ret bs), length-take ret bs short, h.filled);
    }

write-unread :
    (bs : List ℕ) (buf : Buf)
    → IsBuf buf
    → unread (nw_buf_write bs buf).1 ≡ unread buf ++ take (nw_buf_write bs buf).0 bs
unfolding nw_buf_write
write-unread bs buf h =
    drop-append_le buf.rpos buf.bytes (take (nw_buf_write bs buf).0 bs)
      (omega (arith, h.read, h.filled))

-- A buffer of the pool is as good as new.
pub alloc-new_buf :
    (pool : Pool)
    → ((nw_buf_alloc pool).0 ≡ new_buf pool.size) × ((nw_buf_alloc pool).1.size ≡ pool.size)
unfolding nw_buf_alloc
alloc-new_buf pool = (ground arith, ground arith)

pub new_buf-IsBuf : (size : ℕ) → IsBuf (new_buf size)
new_buf-IsBuf size = record { read = omega arith; fits = omega arith; filled = refl }

content-append : (xs ys : List Buf) → content (xs ++ ys) ≡ content xs ++ content ys
content-append [] ys = refl
content-append (x ∷ xs) ys =
    ap (◌++◌ (unread x)) (content-append xs ys)
    ∙ sym (append_assoc (unread x) (content xs) (content ys))

All-append : (xs ys : List Buf) → All IsBuf xs → All IsBuf ys → All IsBuf (xs ++ ys)
All-append [] ys h k = k
All-append (x ∷ xs) ys h k = (h.0, All-append xs ys h.1 k)

length-append_bufs : (xs ys : List Buf) → length (xs ++ ys) ≡ length xs + length ys
length-append_bufs xs ys = length-append xs ys

-- Some of the bytes are written behind the old ones, and the rest is left.
abbrev pub Writes : List ℕ → List ℕ → List ℕ → List ℕ → Type 0
Writes before bs after left = (ws : List ℕ) × (bs ≡ ws ++ left) × (after ≡ before ++ ws)

pub write_tail-Writes :
    (bs : List ℕ) (bufs : List Buf)
    → All IsBuf bufs
    → All IsBuf (write_tail bs bufs).1
      × (length (write_tail bs bufs).1 ≡ length bufs)
      × Writes (content bufs) bs (content (write_tail bs bufs).1) (write_tail bs bufs).0
unfolding write_tail
write_tail-Writes bs [] h = (tt, refl, ([], refl, refl))
write_tail-Writes bs (buf ∷ []) h =
    let (ret, buf') = nw_buf_write bs buf in
    let nothing = append-nil (unread buf) in
    elim (Bool-cases (nw_buf_avail buf == 0)) [
      | inl full ↦ rw full (h, refl, ([], refl, sym (append-nil (unread buf ++ []))))
      | inr free ↦ rw free (
        (write-IsBuf bs buf h.0, tt),
        refl,
        (
          take ret bs,
          sym (take-drop_append ret bs),
          append-nil (unread buf')
              ∙ write-unread bs buf h.0
              ∙ ap (λ xs. xs ++ take ret bs) (sym nothing),
        ),
      )
    ]
write_tail-Writes bs (buf ∷ next ∷ bufs) h =
    let (good, same, (ws, split, written)) = write_tail-Writes bs (next ∷ bufs) h.1 in
    (
      (h.0, good),
      omega (arith, same),
      (
        ws,
        split,
        ap (◌++◌ (unread buf)) written ∙ sym (append_assoc (unread buf) (content (next ∷ bufs)) ws),
      ),
    )

-- One buffer more, with the first bytes of what is left.
pub link_tail-IsList :
    (bs : List ℕ) (list : BufList)
    → IsList list
    → is_full list ≡ false
    → IsList
        (link_tail (nw_buf_write bs (nw_buf_alloc list.pool).0).1 (nw_buf_alloc list.pool).1 list)
unfolding link_tail
link_tail-IsList bs list h room =
    let (new, size) = alloc-new_buf list.pool in
    let buf' = (nw_buf_write bs (nw_buf_alloc list.pool).0).1 in
    record {
      bufs = All-append list.bufs (buf' ∷ []) h.bufs (
        write-IsBuf bs (nw_buf_alloc list.pool).0
            (subst IsBuf (sym new) (new_buf-IsBuf list.pool.size)),
        tt,
      );
      counted = omega (arith, h.counted, length-append_bufs list.bufs (buf' ∷ []));
      sized = omega (arith, h.sized, size);
      limited = ground (arith, h.limited, room);
    }

pub link_tail-content :
    (bs : List ℕ) (list : BufList)
    → let r = nw_buf_write bs (nw_buf_alloc list.pool).0 in
      content (link_tail r.1 (nw_buf_alloc list.pool).1 list).bufs
      ≡ content list.bufs ++ take r.0 bs
unfolding link_tail
link_tail-content bs list =
    let (new, _) = alloc-new_buf list.pool in
    let buf = (nw_buf_alloc list.pool).0 in
    let (ret, buf') = nw_buf_write bs buf in
    let good = subst IsBuf (sym new) (new_buf-IsBuf list.pool.size) in
    let empty : unread buf ≡ [] = ap unread new in
    content-append list.bufs (buf' ∷ [])
    ∙ ap (◌++◌ (content list.bufs))
        (append-nil (unread buf') ∙ write-unread bs buf good ∙ ap (λ xs. xs ++ take ret bs) empty)
