-- ===== src/Pack/RoundTrip.antt =====
-- What the packers of utils/src/ut_pack.c write, read again by the unpackers.
use viabtc_future.Prelude.{
  ℕ, ◌+◌, ◌-◌, ◌%◌, ◌^◌, ◌≤◌, ◌<◌, ◌≡◌, refl, ◌∙◌, none, some, List, [], ◌∷◌, ◌++◌, arith, length,
  length-append, if◌then◌else◌, ltb,
}
use mathlib.Core.List.{append_assoc}
use viabtc_future.Pack.{
  Dest, write, put, le_bytes, le_value, pack_varint_le, unpack_varint_le, get_marked, pack_varstr,
  unpack_varstr,
}
use viabtc_future.Pack.Words.{
  room, length-le_bytes, le_value-le_bytes, take-append_length, drop-append_length,
}

pub write_left : (bs : List ℕ) (o : Dest) → (write bs o).left ≡ o.left - length bs
unfolding write
write_left bs o = refl

-- The bytes of a variable-length integer.
abbrev varint_bytes : ℕ → List ℕ
varint_bytes num =
    if ltb num 0xfd
    then num ∷ []
    else if ltb num 0xffff
    then 0xfd ∷ le_bytes 2 num
    else if ltb num 0xffff_ffff
    then 0xfe ∷ le_bytes 4 num
    else 0xff ∷ le_bytes 8 num

get_marked_lem :
    (k mark : ℕ) (bs rest : List ℕ)
    → length bs ≡ k
    → get_marked k (bs ++ rest) (mark ∷ bs ++ rest) ≡ (some (1 + k, le_value bs), rest)
unfolding get_marked
get_marked_lem k mark bs rest h =
    ground
      (arith, length-append bs rest, take-append_length k bs rest h, drop-append_length k bs rest h)

read_marked :
    (k mark n : ℕ) (rest : List ℕ)
    → n < room k
    → get_marked k (le_bytes k n ++ rest) (mark ∷ le_bytes k n ++ rest) ≡ (some (1 + k, n), rest)
read_marked k mark n rest h =
    rw (get_marked_lem k mark (le_bytes k n) rest (length-le_bytes k n), le_value-le_bytes k n h)

read_varint :
    (num : ℕ) (rest : List ℕ)
    → num < 2 ^ 64
    → unpack_varint_le (varint_bytes num ++ rest) ≡ (some (length (varint_bytes num), num), rest)
unfolding unpack_varint_le
read_varint num rest h = ground (
  arith,
  read_marked 2 0xfd num rest,
  read_marked 4 0xfe num rest,
  read_marked 8 0xff num rest,
  length-le_bytes 2 num,
  length-le_bytes 4 num,
  length-le_bytes 8 num,
)

-- Packing succeeds exactly if there is room, and writes the bytes of the number.
pack_varint_le_lem :
    (num : ℕ) (o : Dest)
    → pack_varint_le num o ≡ (
        if ltb o.left (length (varint_bytes num))
        then (none, o)
        else (some (length (varint_bytes num)), write (varint_bytes num) o))
unfolding pack_varint_le put
pack_varint_le_lem num o =
    let low : num < 0xffff → num % 2 ^ 16 ≡ num = λ h. omega arith in
    let high : num < 0xffff_ffff → num % 2 ^ 32 ≡ num = λ h. omega arith in
    ground (arith, length-le_bytes 2 num, length-le_bytes 4 num, length-le_bytes 8 num, low, high)

length-varint_bytes : (num : ℕ) → length (varint_bytes num) ≤ 9
length-varint_bytes num =
    ground (arith, length-le_bytes 2 num, length-le_bytes 4 num, length-le_bytes 8 num)

pack_varint_le-room :
    (num : ℕ) (o : Dest)
    → 9 ≤ o.left
    → pack_varint_le num o ≡ (some (length (varint_bytes num)), write (varint_bytes num) o)
pack_varint_le-room num o h = pack_varint_le_lem num o ∙ ground (arith, length-varint_bytes num)

unpack_varstr_lem :
    (str rest : List ℕ)
    → length str < 2 ^ 64
    → unpack_varstr (varint_bytes (length str) ++ (str ++ rest))
      ≡ (some (length (varint_bytes (length str)) + length str, str), rest)
unfolding unpack_varstr
unpack_varstr_lem str rest h = ground (
  arith,
  read_varint (length str) (str ++ rest) h,
  take-append_length (length str) str rest refl,
  drop-append_length (length str) str rest refl,
  length-append str rest,
)

abbrev varstr_bytes : List ℕ → List ℕ
varstr_bytes str = varint_bytes (length str) ++ str

pub write_twice : (bs cs : List ℕ) (o : Dest) → write cs (write bs o) ≡ write (bs ++ cs) o
unfolding write
write_twice bs cs o =
    let room : o.left - length bs - length cs ≡ o.left - length (bs ++ cs) =
      omega (arith, length-append bs cs) in
    rw (append_assoc o.written bs cs, room)

pack_varstr_lem :
    (str : List ℕ) (o : Dest)
    → 9 + length str ≤ o.left
    → pack_varstr str o ≡ (some (length (varstr_bytes str)), write (varstr_bytes str) o)
unfolding pack_varstr
pack_varstr_lem str o h =
    let bs = varint_bytes (length str) in
    ground (
      arith,
      pack_varint_le-room (length str) o (omega arith),
      length-append bs str,
      length-varint_bytes (length str),
      write_left bs o,
      write_twice bs str o,
    )

-- A string, packed where its length and nine bytes are left, is read back from the bytes written,
-- whatever follows them, and packing and unpacking count the same bytes. Its length is below 2 ^ 64.
pack_varstr-unpack_varstr :
    (str rest : List ℕ) (o : Dest)
    → length str < 2 ^ 64
    → 9 + length str ≤ o.left
    → (bs : List ℕ) × (pack_varstr str o ≡ (some (length bs), write bs o))
      × (unpack_varstr (bs ++ rest) ≡ (some (length bs, str), rest))
pack_varstr-unpack_varstr str rest o h h' =
    let bs = varint_bytes (length str) in
    (
      varstr_bytes str,
      pack_varstr_lem str o h',
      rw (append_assoc bs str rest, unpack_varstr_lem str rest h, length-append bs str),
    )
