-- ===== src/Pack/Pushes.antt =====
-- `pack_oppush` and `unpack_oppush` of utils/src/ut_pack.c: a push of data, whose length stands in
-- the first byte or behind it.
use viabtc_future.Prelude.{
  ℕ, suc, ◌+◌, ◌%◌, ◌≤◌, ◌<◌, ◌≡◌, refl, ◌∙◌, some, List, [], ◌∷◌, ◌++◌, arith, length,
  length-append, if◌then◌else◌, leb,
}
use mathlib.Core.List.{append_assoc}
use viabtc_future.Pack.{
  Dest, write, put, get, le_bytes, pack_char, pack_uint16_le, pack_uint32_le, pack_buf, push_data,
  pack_oppush, unpack_char, unpack_uint16_le, unpack_uint32_le, unpack_len, unpack_oppush,
}
use viabtc_future.Pack.Words.{
  room, length-le_bytes, le_value-le_bytes, take-append_length, drop-append_length,
}
use viabtc_future.Pack.RoundTrip.{write_left, write_twice}

put-written : (need : ℕ) (bs : List ℕ) (o : Dest) → need ≤ o.left → (put need bs o).1 ≡ write bs o
unfolding put
put-written need bs o h = ground arith

push_data_lem :
    (before : ℕ) (head bs : List ℕ) (o : Dest)
    → before ≡ o.left
    → length head + length bs ≤ before
    → push_data before bs (write head o) ≡ (some (length (head ++ bs)), write (head ++ bs) o)
unfolding push_data pack_buf
push_data_lem before head bs o e h = ground (
  arith,
  put-written (length bs) bs (write head o),
  write_left head o,
  write_left (head ++ bs) o,
  write_twice head bs o,
  length-append head bs,
)

-- The bytes before the data.
abbrev push_head : ℕ → List ℕ
push_head len =
    if leb len 0x4b
    then len ∷ []
    else if leb len 0xff
    then 0x4c ∷ len ∷ []
    else if leb len 0xffff
    then 0x4d ∷ le_bytes 2 len
    else 0x4e ∷ le_bytes 4 len

mark-written :
    (mark need : ℕ) (bs : List ℕ) (o : Dest)
    → 1 + need ≤ o.left
    → (put need bs (pack_char mark o).1).1 ≡ write (mark % 256 ∷ bs) o
unfolding pack_char
mark-written mark need bs o h = ground (
  arith,
  put-written 1 (mark % 256 ∷ []) o,
  put-written need bs (write (mark % 256 ∷ []) o),
  write_left (mark % 256 ∷ []) o,
  write_twice (mark % 256 ∷ []) bs o,
)

-- What `pack_oppush` has written before the data.
push_head-written :
    (len : ℕ) (o : Dest)
    → len ≤ 0xffff_ffff
    → 5 + len ≤ o.left
    → (if leb len 0x4b
        then (pack_char len o).1
        else if leb len 0xff
        then (pack_char len (pack_char 0x4c o).1).1
        else if leb len 0xffff
        then (pack_uint16_le len (pack_char 0x4d o).1).1
        else (pack_uint32_le len (pack_char 0x4e o).1).1)
      ≡ write (push_head len) o
unfolding pack_char pack_uint16_le pack_uint32_le
push_head-written len o h h' =
    let low : len ≤ 0xff → len % 256 ≡ len = λ e. omega arith in
    ground (
      arith,
      low,
      put-written 1 (len % 256 ∷ []) o,
      mark-written 0x4c 1 (len % 256 ∷ []) o,
      mark-written 0x4d 4 (le_bytes 2 len) o,
      mark-written 0x4e 4 (le_bytes 4 len) o,
    )

length-push_head : (len : ℕ) → length (push_head len) ≤ 5
length-push_head len = ground (arith, length-le_bytes 2 len, length-le_bytes 4 len)

pack_oppush_lem :
    (bs : List ℕ) (o : Dest)
    → length bs ≤ 0xffff_ffff
    → 5 + length bs ≤ o.left
    → pack_oppush bs o ≡ push_data o.left bs (write (push_head (length bs)) o)
unfolding pack_oppush
pack_oppush_lem bs o h h' = ground (arith, push_head-written (length bs) o h h')

-- The bytes of a length, read again where enough follows them.
get-le_bytes :
    (need k n : ℕ) (rest : List ℕ)
    → n < room k
    → need ≤ k + length rest
    → get need k (le_bytes k n ++ rest) ≡ (some (k, n), rest)
unfolding get
get-le_bytes need k n rest h h' =
    let bs = le_bytes k n in
    ground (
      arith,
      length-append bs rest,
      length-le_bytes k n,
      le_value-le_bytes k n h,
      take-append_length k bs rest (length-le_bytes k n),
      drop-append_length k bs rest (length-le_bytes k n),
    )

-- What `unpack_oppush` does once it has the length.
unpack_oppush_lem :
    (size : ℕ) (bs rest : List ℕ)
    → length bs ≤ 0xffff_ffff
    → length bs ≤ size
    → unpack_oppush size (push_head (length bs) ++ (bs ++ rest))
      ≡ (some (length (push_head (length bs)) + length bs, bs), rest)
unfolding unpack_oppush unpack_len unpack_char unpack_uint16_le unpack_uint32_le
unpack_oppush_lem size bs rest h h' =
    let len = length bs in
    ground (
      arith,
      length-append bs rest,
      length-append (le_bytes 2 len) (bs ++ rest),
      length-append (le_bytes 4 len) (bs ++ rest),
      length-le_bytes 2 len,
      length-le_bytes 4 len,
      get-le_bytes 4 2 len (bs ++ rest),
      get-le_bytes 4 4 len (bs ++ rest),
      take-append_length len bs rest refl,
      drop-append_length len bs rest refl,
    )

-- The length of a short push is its first byte.
pub short_push :
    (size : ℕ) (bs rest : List ℕ) (o : Dest)
    → length bs ≤ 0x4b
    → length bs ≤ size
    → 5 + length bs ≤ o.left
    → (pack_oppush bs o ≡ (some (suc (length bs)), write (length bs ∷ bs) o))
      × (unpack_oppush size (length bs ∷ bs ++ rest) ≡ (some (suc (length bs), bs), rest))
short_push size bs rest o h h' r = ground (
  arith,
  unpack_oppush_lem size bs rest (omega arith) h',
  pack_oppush_lem bs o (omega arith) r,
  push_data_lem o.left (length bs ∷ []) bs o refl (omega arith),
)

-- A push of at most 2 ^ 32 - 1 bytes, packed where its length and five bytes are left, is read
-- back from the bytes written where the destination has room for it, whatever follows them, and
-- packing and unpacking count the same bytes.
pack_oppush-unpack_oppush :
    (size : ℕ) (bs rest : List ℕ) (o : Dest)
    → length bs ≤ 0xffff_ffff
    → length bs ≤ size
    → 5 + length bs ≤ o.left
    → (ws : List ℕ) × (pack_oppush bs o ≡ (some (length ws), write ws o))
      × (unpack_oppush size (ws ++ rest) ≡ (some (length ws, bs), rest))
pack_oppush-unpack_oppush size bs rest o h h' r =
    let head = push_head (length bs) in
    (
      head ++ bs,
      pack_oppush_lem bs o h r
          ∙ push_data_lem o.left head bs o refl (omega (arith, length-push_head (length bs))),
      rw (append_assoc head bs rest, unpack_oppush_lem size bs rest h h', length-append head bs),
    )
