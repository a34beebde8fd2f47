-- ===== src/Pack/Bounds.antt =====
-- The room the packers of utils/src/ut_pack.c have, and what they use of it.
use viabtc_future.Prelude.{
  ℕ, ◌+◌, ◌%◌, ◌^◌, ◌≤◌, ◌≡◌, ◌∙◌, List, [], ◌∷◌, arith, length, length-append,
}
use viabtc_future.Pack.{
  Dest, write, put, le_bytes, push_data, pack_varint_le, pack_uint16_le, pack_uint32_le, pack_buf,
  pack_char, pack_varstr, pack_oppush,
}
use viabtc_future.Pack.Words.{length-le_bytes}

-- The bytes written and the room left are together what they were.
abbrev pub Fits : Dest → Dest → Type 0
Fits o o' = length o'.written + o'.left ≡ length o.written + o.left

pub write-Fits : (bs : List ℕ) (o : Dest) → length bs ≤ o.left → Fits o (write bs o)
unfolding write
write-Fits bs o h = omega (arith, length-append o.written bs)

pub put-Fits : (need : ℕ) (bs : List ℕ) (o : Dest) → length bs ≤ need → Fits o (put need bs o).1
unfolding put
put-Fits need bs o h = ground (arith, write-Fits bs o)

pub pack_varint_le-Fits : (num : ℕ) (o : Dest) → Fits o (pack_varint_le num o).1
unfolding pack_varint_le
pack_varint_le-Fits num o = ground (
  arith,
  put-Fits 1 (num ∷ []) o,
  put-Fits 3 (0xfd ∷ le_bytes 2 (num % 2 ^ 16)) o,
  put-Fits 5 (0xfe ∷ le_bytes 4 (num % 2 ^ 32)) o,
  put-Fits 9 (0xff ∷ le_bytes 8 num) o,
  length-le_bytes 2 (num % 2 ^ 16),
  length-le_bytes 4 (num % 2 ^ 32),
  length-le_bytes 8 num,
)

pub pack_varstr-Fits : (str : List ℕ) (o : Dest) → Fits o (pack_varstr str o).1
unfolding pack_varstr
pack_varstr-Fits str o =
    let o' = (pack_varint_le (length str) o).1 in
    ground (arith, pack_varint_le-Fits (length str) o, write-Fits str o')

pub push_data-Fits : (before : ℕ) (bs : List ℕ) (o : Dest) → Fits o (push_data before bs o).1
unfolding push_data pack_buf
push_data-Fits before bs o = put-Fits (length bs) bs o (omega arith)

pub pack_char-Fits : (c : ℕ) (o : Dest) → Fits o (pack_char c o).1
unfolding pack_char
pack_char-Fits c o = put-Fits 1 (c % 256 ∷ []) o (omega arith)

pub pack_uint16_le-Fits : (n : ℕ) (o : Dest) → Fits o (pack_uint16_le n o).1
unfolding pack_uint16_le
pack_uint16_le-Fits n o = put-Fits 4 (le_bytes 2 n) o (omega (arith, length-le_bytes 2 n))

pub pack_uint32_le-Fits : (n : ℕ) (o : Dest) → Fits o (pack_uint32_le n o).1
unfolding pack_uint32_le
pack_uint32_le-Fits n o = put-Fits 4 (le_bytes 4 n) o (omega (arith, length-le_bytes 4 n))

-- A prefix and the data behind it.
push_data-Fits_after :
    (before : ℕ) (bs : List ℕ) (o o' : Dest) → Fits o o' → Fits o (push_data before bs o').1
push_data-Fits_after before bs o o' h = push_data-Fits before bs o' ∙ h

pub pack_oppush-Fits : (bs : List ℕ) (o : Dest) → Fits o (pack_oppush bs o).1
unfolding pack_oppush
pack_oppush-Fits bs o =
    let len = length bs in
    let mark1 = (pack_char 0x4c o).1 in
    let mark2 = (pack_char 0x4d o).1 in
    let mark4 = (pack_char 0x4e o).1 in
    ground (
      arith,
      push_data-Fits_after o.left bs o (pack_char len o).1 (pack_char-Fits len o),
      push_data-Fits_after o.left bs o (pack_char len mark1).1
          (pack_char-Fits len mark1 ∙ pack_char-Fits 0x4c o),
      push_data-Fits_after o.left bs o (pack_uint16_le len mark2).1
          (pack_uint16_le-Fits len mark2 ∙ pack_char-Fits 0x4d o),
      push_data-Fits_after o.left bs o (pack_uint32_le len mark4).1
          (pack_uint32_le-Fits len mark4 ∙ pack_char-Fits 0x4e o),
    )
