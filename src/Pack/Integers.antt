-- ===== src/Pack/Integers.antt =====
-- `pack_oppushint_le` and `unpack_oppushint_le` of utils/src/ut_pack.c: a signed integer as its
-- magnitude, the lowest byte first, with the sign in the highest bit of the last byte.
use viabtc_future.Prelude.{
  ℕ, zero, suc, ◌+◌, ◌-◌, ◌*◌, ◌/◌, ◌%◌, ◌^◌, ◌≤◌, ◌<◌, ◌≡◌, refl, sym, ◌∙◌, Bool, true, false,
  Bool-cases, Option, none, some, List, [], ◌∷◌, ◌++◌, arith, length, All, if◌then◌else◌, ltb, leb,
  ◌==◌, ◌&&◌, inl, inr,
}
use viabtc_future.Prelude.Int.{ℤ, pos, negsuc, pos_part, neg_part}
use viabtc_future.Pack.{Dest, write, put, le_value, pack_char, pack_oppush, Unpacked, unpack_oppush}
use viabtc_future.Pack.Words.{room, IsByte}
use viabtc_future.Pack.Pushes.{short_push}

-- The loop over `absvalue`, on fuel: the bytes of `buf`. `buf` has room for eight.
unfoldable pub digits : ℕ → ℕ → List ℕ
digits zero n = []
digits (suc fuel) n = if n == 0 then [] else n % 256 ∷ digits fuel (n / 256)

-- The sign, put into the last byte or behind it.
unfoldable pub put_sign : Bool → List ℕ → List ℕ
put_sign neg [] = []
put_sign neg (b ∷ []) =
    if leb 0x80 b
    then b ∷ (if neg then 0x80 else 0x00) ∷ []
    else if neg
    then (b + 0x80) ∷ []
    else b ∷ []
put_sign neg (b ∷ c ∷ bs) = b ∷ put_sign neg (c ∷ bs)

unfoldable pub pack_oppushint_le : ℤ → Dest → Option ℕ × Dest
pack_oppushint_le (negsuc zero) o = pack_char 0x4f o
pack_oppushint_le (negsuc (suc n)) o =
    if suc n == 2 ^ 63 - 1
    then (none, o)
    else pack_oppush (put_sign true (digits 8 (suc (suc n)))) o
pack_oppushint_le (pos n) o =
    if n == 0
    then pack_char 0x00 o
    else if leb n 16
    then pack_char (0x50 + n) o
    else pack_oppush (put_sign false (digits 8 n)) o

-- The highest bit of `buf[len - 1]`, and `buf` without it.
unfoldable pub take_sign : List ℕ → Bool × List ℕ
take_sign [] = (false, [])
take_sign (b ∷ []) = (leb 0x80 b, b % 0x80 ∷ [])
take_sign (b ∷ c ∷ bs) = let rest = take_sign (c ∷ bs) in (rest.0, b ∷ rest.1)

unfoldable pub signed : Bool → ℕ → ℤ
signed neg zero = pos 0
signed neg (suc n) = if neg then negsuc n else pos (suc n)

unfoldable pub unpack_oppushint_le : List ℕ → Unpacked ℤ
unpack_oppushint_le [] = (none, [])
unpack_oppushint_le (op ∷ src) =
    if op == 0x00
    then (some (1, pos 0), src)
    else if op == 0x4f
    then (some (1, negsuc 0), src)
    else if ltb 0x50 op && leb op 0x60
    then (some (1, pos (op - 0x50)), src)
    else if ltb 8 op
    then (none, op ∷ src)
    else let (ret, src') = unpack_oppush 8 (op ∷ src) in
      elim ret [
        | none ↦ (none, src')
        | some (space, buf) ↦
            let (neg, mag) = take_sign buf in (some (space, signed neg (le_value mag)), src')
      ]

take_sign-cons :
    (neg : Bool) (b c : ℕ) (bs : List ℕ)
    → take_sign (b ∷ put_sign neg (c ∷ bs))
      ≡ ((take_sign (put_sign neg (c ∷ bs))).0, b ∷ (take_sign (put_sign neg (c ∷ bs))).1)
unfolding take_sign put_sign
take_sign-cons neg b c [] = ground arith
take_sign-cons neg b c (d ∷ bs) = refl

take_sign-put_sign :
    (neg : Bool) (b : ℕ) (bs : List ℕ)
    → All IsByte (b ∷ bs)
    → ((take_sign (put_sign neg (b ∷ bs))).0 ≡ neg)
      × (le_value (take_sign (put_sign neg (b ∷ bs))).1 ≡ le_value (b ∷ bs))
unfolding take_sign put_sign le_value
take_sign-put_sign neg b [] h = ground arith
take_sign-put_sign neg b (c ∷ bs) h =
    let rest = take_sign-put_sign neg c bs h.1 in
    rw (take_sign-cons neg b c bs, rest.0, rest.1) (refl, refl)

le_value-digits : (k n : ℕ) → n < room k → le_value (digits k n) ≡ n
unfolding le_value digits
le_value-digits zero n h = omega arith
le_value-digits (suc k) n h = ground (arith, le_value-digits k (n / 256))

digits-IsByte : (k n : ℕ) → All IsByte (digits k n)
unfolding digits
digits-IsByte zero n = tt
digits-IsByte (suc k) n = ground (arith, digits-IsByte k (n / 256))

length-put_sign :
    (k n : ℕ) (neg : Bool) → n < 128 * room k → length (put_sign neg (digits (suc k) n)) ≤ suc k
unfolding put_sign digits
length-put_sign zero n neg h = ground arith
length-put_sign (suc k) n neg h = ground (arith, length-put_sign k (n / 256) neg)

length-put_sign_pos : (neg : Bool) (b : ℕ) (bs : List ℕ) → 0 < length (put_sign neg (b ∷ bs))
unfolding put_sign
length-put_sign_pos neg b [] = ground arith
length-put_sign_pos neg b (c ∷ bs) = omega arith

-- The bytes of a magnitude with its sign.
abbrev signed_bytes : Bool → ℕ → List ℕ
signed_bytes neg n = put_sign neg (digits 8 n)

digits_suc : (n : ℕ) → 0 < n → digits 8 n ≡ n % 256 ∷ digits 7 (n / 256)
unfolding digits
digits_suc n h = ground arith

take_sign-signed_bytes :
    (neg : Bool) (n : ℕ)
    → 0 < n
    → n < room 8
    → ((take_sign (signed_bytes neg n)).0 ≡ neg)
      × (le_value (take_sign (signed_bytes neg n)).1 ≡ n)
      × (0 < length (signed_bytes neg n))
take_sign-signed_bytes neg n h h' =
    let e = digits_suc n h in
    let value : le_value (n % 256 ∷ digits 7 (n / 256)) ≡ n = rw (sym e, le_value-digits 8 n h') in
    let known =
      take_sign-put_sign neg (n % 256) (digits 7 (n / 256))
        (omega arith, digits-IsByte 7 (n / 256)) in
    rw (e) (known.0, known.1 ∙ value, length-put_sign_pos neg (n % 256) (digits 7 (n / 256)))

-- A magnitude that needs its own bytes, packed and read again.
big_lem :
    (neg : Bool) (n : ℕ) (rest : List ℕ) (o : Dest)
    → 0 < n
    → n < 2 ^ 63
    → 13 ≤ o.left
    → (ws : List ℕ) × (pack_oppush (signed_bytes neg n) o ≡ (some (length ws), write ws o))
      × (unpack_oppushint_le (ws ++ rest) ≡ (some (length ws, signed neg n), rest))
unfolding unpack_oppushint_le
big_lem neg n rest o h h' r =
    let buf = signed_bytes neg n in
    let short = length-put_sign 7 n neg h' in
    let known = take_sign-signed_bytes neg n h (omega arith) in
    let push = short_push 8 buf rest o (omega (arith, short)) short (omega (arith, short)) in
    (length buf ∷ buf, push.0, ground (arith, push.1, known.0, known.1, known.2, short))

-- A number that is its first byte.
char_lem : (c : ℕ) (o : Dest) → c < 256 → 1 ≤ o.left → pack_char c o ≡ (some 1, write (c ∷ []) o)
unfolding pack_char put
char_lem c o h h' = let e : c % 256 ≡ c = omega arith in ground (arith, e)

unpack_small :
    (n : ℕ) (rest : List ℕ)
    → 0 < n
    → n ≤ 16
    → unpack_oppushint_le ((0x50 + n) ∷ rest) ≡ (some (1, pos n), rest)
unfolding unpack_oppushint_le
unpack_small n rest h h' = ground arith

unpack_zero : (rest : List ℕ) → unpack_oppushint_le (0x00 ∷ rest) ≡ (some (1, pos 0), rest)
unfolding unpack_oppushint_le
unpack_zero rest = refl

unpack_minus_one : (rest : List ℕ) → unpack_oppushint_le (0x4f ∷ rest) ≡ (some (1, negsuc 0), rest)
unfolding unpack_oppushint_le
unpack_minus_one rest = refl

signed-suc : (n : ℕ) → (signed true (suc n) ≡ negsuc n) × (signed false (suc n) ≡ pos (suc n))
unfolding signed
signed-suc n = (refl, refl)

-- A 64-bit signed integer other than the least one, packed where 13 bytes are left, is read back
-- from the bytes written, whatever follows them, and packing and unpacking count the same bytes.
pub pack_oppushint_le-unpack_oppushint_le :
    (z : ℤ) (rest : List ℕ) (o : Dest)
    → pos_part z < 2 ^ 63
    → neg_part z < 2 ^ 63
    → 13 ≤ o.left
    → (ws : List ℕ) × (pack_oppushint_le z o ≡ (some (length ws), write ws o))
      × (unpack_oppushint_le (ws ++ rest) ≡ (some (length ws, z), rest))
unfolding pack_oppushint_le
pack_oppushint_le-unpack_oppushint_le (pos zero) rest o h h' r =
    (0x00 ∷ [], char_lem 0x00 o (omega arith) (omega arith), unpack_zero rest)
pack_oppushint_le-unpack_oppushint_le (pos (suc n)) rest o h h' r =
    elim (Bool-cases (leb (suc n) 16)) [
      | inl e ↦
          let low : suc n ≤ 16 = ground (arith, e) in
          (
            (0x50 + suc n) ∷ [],
            ground (arith, char_lem (0x50 + suc n) o (omega (arith, low)) (omega arith), e),
            unpack_small (suc n) rest (omega arith) low,
          )
      | inr e ↦
          let (ws, packed, read) = big_lem false (suc n) rest o (omega arith) h r in
          let nonzero : (suc n == 0) ≡ false = ground arith in
          (ws, rw (nonzero, e, packed), read ∙ rw ((signed-suc n).1))
    ]
pack_oppushint_le-unpack_oppushint_le (negsuc zero) rest o h h' r =
    (0x4f ∷ [], char_lem 0x4f o (omega arith) (omega arith), unpack_minus_one rest)
pack_oppushint_le-unpack_oppushint_le (negsuc (suc n)) rest o h h' r =
    let (ws, packed, read) = big_lem true (suc (suc n)) rest o (omega arith) h' r in
    let big : (suc n == 2 ^ 63 - 1) ≡ false = ground arith in
    (ws, rw (big, packed), read ∙ rw ((signed-suc (suc n)).0))
