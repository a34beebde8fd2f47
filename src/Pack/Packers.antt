-- ===== src/Pack/Packers.antt =====
-- All the packers of utils/src/ut_pack.c, and the room they have.
use viabtc_future.Prelude.{ℕ, ◌+◌, zero, suc, true, false, List, arith, length}
use viabtc_future.Prelude.Int.{ℤ, pos, negsuc}
use viabtc_future.Pack.{
  Dest, le_bytes, pack_varint_le, pack_uint16_le, pack_uint32_le, pack_uint64_le, pack_buf,
  pack_char, pack_varstr, pack_oppush,
}
use viabtc_future.Pack.Words.{length-le_bytes}
use viabtc_future.Pack.Bounds.{
  Fits, put-Fits, pack_varint_le-Fits, pack_uint16_le-Fits, pack_uint32_le-Fits, pack_char-Fits,
  pack_varstr-Fits, pack_oppush-Fits,
}
use viabtc_future.Pack.Integers.{digits, put_sign, pack_oppushint_le}

pack_oppushint_le-Fits : (n : ℤ) (o : Dest) → Fits o (pack_oppushint_le n o).1
unfolding pack_oppushint_le
pack_oppushint_le-Fits (negsuc zero) o = pack_char-Fits 0x4f o
pack_oppushint_le-Fits (negsuc (suc n)) o =
    ground (arith, pack_oppush-Fits (put_sign true (digits 8 (suc (suc n)))) o)
pack_oppushint_le-Fits (pos n) o = ground (
  arith,
  pack_char-Fits 0x00 o,
  pack_char-Fits (0x50 + n) o,
  pack_oppush-Fits (put_sign false (digits 8 n)) o,
)

-- No packer writes past the room it has, whether it succeeds or fails: the bytes written and the
-- room left are together what they were before the call.
pub packers-Fits :
    (num : ℕ) (n : ℤ) (bs : List ℕ) (o : Dest)
    → Fits o (pack_varint_le num o).1
      × Fits o (pack_uint16_le num o).1
      × Fits o (pack_uint32_le num o).1
      × Fits o (pack_uint64_le num o).1
      × Fits o (pack_char num o).1
      × Fits o (pack_buf bs o).1
      × Fits o (pack_varstr bs o).1
      × Fits o (pack_oppush bs o).1
      × Fits o (pack_oppushint_le n o).1
unfolding pack_uint64_le pack_buf
packers-Fits num n bs o = (
  pack_varint_le-Fits num o,
  pack_uint16_le-Fits num o,
  pack_uint32_le-Fits num o,
  put-Fits 8 (le_bytes 8 num) o (omega (arith, length-le_bytes 8 num)),
  pack_char-Fits num o,
  put-Fits (length bs) bs o (omega arith),
  pack_varstr-Fits bs o,
  pack_oppush-Fits bs o,
  pack_oppushint_le-Fits n o,
)
