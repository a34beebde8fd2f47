-- ===== src/Tests/Packing.antt =====
-- Packed and unpacked values (utils/src/ut_pack.c).
use viabtc_future.Prelude.{ℕ, ◌≡◌, refl, none, some, List, [], ◌∷◌, ◌++◌, length, arith}
use viabtc_future.Prelude.Int.{negsuc}
use viabtc_future.Pack.{
  Dest, write, put, le_bytes, pack_varint_le, pack_uint16_le, pack_uint32_le, pack_uint64_le,
  pack_char, pack_buf, pack_varstr, pack_oppush, push_data,
}
use viabtc_future.Pack.Integers.{pack_oppushint_le, unpack_oppushint_le, put_sign, digits}
use viabtc_future.Pack.Integers.{pack_oppushint_le-unpack_oppushint_le}
use viabtc_future.Pack.Bounds.{Fits}
use viabtc_future.Pack.Packers.{packers-Fits}

-- Forty bytes are left behind one that is written.
abbrev dest : Dest
dest = record { written = 7 ∷ []; left = 40 }

-- Three bytes are left.
abbrev tight : Dest
tight = record { written = []; left = 3 }

packed : (pack_oppushint_le (negsuc 299) dest).1.written ≡ 7 ∷ 2 ∷ 44 ∷ 129 ∷ []
unfolding pack_oppushint_le put_sign digits pack_oppush pack_char pack_buf put write push_data
packed = refl

-- Two bytes, for which there is room, are refused.
refused : pack_uint16_le 258 tight ≡ (none, tight)
unfolding pack_uint16_le put le_bytes
refused = refl

pack_oppushint_le-unpack_oppushint_le_example :
    (ws : List ℕ) × (pack_oppushint_le (negsuc 299) dest ≡ (some (length ws), write ws dest))
    × (unpack_oppushint_le (ws ++ 9 ∷ []) ≡ (some (length ws, negsuc 299), 9 ∷ []))
pack_oppushint_le-unpack_oppushint_le_example =
    pack_oppushint_le-unpack_oppushint_le (negsuc 299) (9 ∷ []) dest (omega arith) (omega arith)
      (omega arith)

packers-Fits_example :
    Fits tight (pack_varint_le 300 tight).1
    × Fits tight (pack_uint16_le 300 tight).1
    × Fits tight (pack_uint32_le 300 tight).1
    × Fits tight (pack_uint64_le 300 tight).1
    × Fits tight (pack_char 300 tight).1
    × Fits tight (pack_buf (5 ∷ []) tight).1
    × Fits tight (pack_varstr (5 ∷ []) tight).1
    × Fits tight (pack_oppush (5 ∷ []) tight).1
    × Fits tight (pack_oppushint_le (negsuc 299) tight).1
packers-Fits_example = packers-Fits 300 (negsuc 299) (5 ∷ []) tight
