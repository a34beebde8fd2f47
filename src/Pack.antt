-- ===== src/Pack.antt =====
-- utils/src/ut_pack.c: integers, byte strings and script pushes in little-endian bytes. A packer
-- moves `*dest` forward and `*left` down, and an unpacker `*src`, which has `*left` bytes; both
-- return the number of bytes, or -1. That number fits an `int`, the length of a string its machine
-- word, and `malloc`
-- behind `sdscatlen` does not fail.
pub mod Words
pub mod Bounds
pub mod RoundTrip
pub mod Pushes
pub mod Integers
pub mod Packers
use viabtc_future.Prelude.{
  ℕ, zero, suc, ◌+◌, ◌-◌, ◌*◌, ◌/◌, ◌%◌, ◌^◌, Bool, true, false, Option, none, some, List, [], ◌∷◌,
  ◌++◌, if◌then◌else◌, ltb, leb, ◌==◌, length, take, drop, ◌&&◌,
}
use viabtc_future.Prelude.Int.{ℤ, pos, negsuc}

-- `*dest` with the bytes before it, and `*left`.
pub record Dest : Type 0 where
  pub written : List ℕ
  pub left : ℕ

-- A copy of bytes to `*dest`, which the code makes only where `*left` allows it.
unfoldable pub write : List ℕ → Dest → Dest
write bs o = record { written = o.written ++ bs; left = o.left - length bs }

-- `htole16`, `htole32` and `htole64`: the lowest `k` bytes of a number, the lowest first.
unfoldable pub le_bytes : ℕ → ℕ → List ℕ
le_bytes zero n = []
le_bytes (suc k) n = n % 256 ∷ le_bytes k (n / 256)

-- `le16toh`, `le32toh` and `le64toh`.
unfoldable pub le_value : List ℕ → ℕ
le_value [] = 0
le_value (b ∷ bs) = b + 256 * le_value bs

-- `k` bytes if there is room for `need`.
unfoldable pub put : ℕ → List ℕ → Dest → Option ℕ × Dest
put need bs o = if ltb o.left need then (none, o) else (some (length bs), write bs o)

unfoldable pub pack_varint_le : ℕ → Dest → Option ℕ × Dest
pack_varint_le num =
    if ltb num 0xfd
    then put 1 (num ∷ [])
    else if ltb num 0xffff
    then put 3 (0xfd ∷ le_bytes 2 (num % 2 ^ 16))
    else if ltb num 0xffff_ffff
    then put 5 (0xfe ∷ le_bytes 4 (num % 2 ^ 32))
    else put 9 (0xff ∷ le_bytes 8 num)

unfoldable pub pack_uint16_le : ℕ → Dest → Option ℕ × Dest
pack_uint16_le num = put 4 (le_bytes 2 num)

unfoldable pub pack_uint32_le : ℕ → Dest → Option ℕ × Dest
pack_uint32_le num = put 4 (le_bytes 4 num)

unfoldable pub pack_uint64_le : ℕ → Dest → Option ℕ × Dest
pack_uint64_le num = put 8 (le_bytes 8 num)

unfoldable pub pack_buf : List ℕ → Dest → Option ℕ × Dest
pack_buf bs = put (length bs) bs

unfoldable pub pack_char : ℕ → Dest → Option ℕ × Dest
pack_char c = put 1 (c % 256 ∷ [])

unfoldable pub pack_varstr : List ℕ → Dest → Option ℕ × Dest
pack_varstr str o =
    let (ret, o') = pack_varint_le (length str) o in
    elim ret [
      | none ↦ (none, o')
      | some n ↦
          if ltb o'.left (length str) then (none, o') else (some (n + length str), write str o')
    ]

-- The end of `pack_oppush`, where `*left` was `before`.
unfoldable pub push_data : ℕ → List ℕ → Dest → Option ℕ × Dest
push_data before bs o = let o' = (pack_buf bs o).1 in (some (before - o'.left), o')

-- The results of the calls are not looked at.
unfoldable pub pack_oppush : List ℕ → Dest → Option ℕ × Dest
pack_oppush bs o =
    let len = length bs in
    if leb len 0x4b
    then if ltb o.left (1 + len) then (none, o) else push_data o.left bs (pack_char len o).1
    else if leb len 0xff
    then if ltb o.left (2 + len)
      then (none, o)
      else push_data o.left bs (pack_char len (pack_char 0x4c o).1).1
    else if leb len 0xffff
    then if ltb o.left (3 + len)
      then (none, o)
      else push_data o.left bs (pack_uint16_le len (pack_char 0x4d o).1).1
    else if leb len 0xffff_ffff
    then if ltb o.left (5 + len)
      then (none, o)
      else push_data o.left bs (pack_uint32_le len (pack_char 0x4e o).1).1
    else (none, o)

-- An unpacker gives the number of bytes and the value, and the bytes that are left.
abbrev pub Unpacked : Type 0 → Type 0
Unpacked A = Option (ℕ × A) × List ℕ

unfoldable pub get : ℕ → ℕ → List ℕ → Unpacked ℕ
get need k src =
    if ltb (length src) need then (none, src) else (some (k, le_value (take k src)), drop k src)

-- A number of `k` bytes behind the mark.
unfoldable pub get_marked : ℕ → List ℕ → List ℕ → Unpacked ℕ
get_marked k rest src =
    if ltb (length src) (1 + k)
    then (none, src)
    else (some (1 + k, le_value (take k rest)), drop k rest)

unfoldable pub unpack_varint_le : List ℕ → Unpacked ℕ
unpack_varint_le [] = (none, [])
unpack_varint_le (mark ∷ rest) =
    if ltb mark 0xfd
    then (some (1, mark), rest)
    else if mark == 0xfd
    then get_marked 2 rest (mark ∷ rest)
    else if mark == 0xfe
    then get_marked 4 rest (mark ∷ rest)
    else get_marked 8 rest (mark ∷ rest)

unfoldable pub unpack_uint16_le : List ℕ → Unpacked ℕ
unpack_uint16_le = get 4 2

unfoldable pub unpack_uint32_le : List ℕ → Unpacked ℕ
unpack_uint32_le = get 4 4

unfoldable pub unpack_uint64_le : List ℕ → Unpacked ℕ
unpack_uint64_le = get 8 8

unfoldable pub unpack_buf : ℕ → List ℕ → Unpacked (List ℕ)
unpack_buf len src =
    if ltb (length src) len then (none, src) else (some (len, take len src), drop len src)

unfoldable pub unpack_char : List ℕ → Unpacked ℕ
unpack_char [] = (none, [])
unpack_char (c ∷ src) = (some (1, c), src)

unfoldable pub unpack_varstr : List ℕ → Unpacked (List ℕ)
unpack_varstr src =
    let (ret, src') = unpack_varint_le src in
    elim ret [
      | none ↦ (none, src')
      | some (n, len) ↦
          if ltb (length src') len
          then (none, src')
          else (some (n + len, take len src'), drop len src')
    ]

-- The length behind the first byte of a push.
unfoldable pub unpack_len : ℕ → List ℕ → Unpacked ℕ
unpack_len op src =
    if leb op 0x4b
    then (some (0, op), src)
    else if op == 0x4c
    then unpack_char src
    else if op == 0x4d
    then unpack_uint16_le src
    else if op == 0x4e
    then unpack_uint32_le src
    else (none, src)

-- `size` is the room at `dest`.
unfoldable pub unpack_oppush : ℕ → List ℕ → Unpacked (List ℕ)
unpack_oppush size [] = (none, [])
unpack_oppush size (op ∷ src) =
    let (ret, src') = unpack_len op src in
    elim ret [
      | none ↦ (none, src')
      | some (n, len) ↦
          if ltb (length src') len
          then (none, src')
          else if ltb size len
          then (none, src')
          else (some (1 + length src - length (drop len src'), take len src'), drop len src')
    ]
