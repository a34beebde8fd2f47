-- ===== src/Pack/Words.antt =====
-- Little-endian bytes (utils/src/ut_pack.c): numbers that fit, against their bytes.
use viabtc_future.Prelude.{
  ℕ, zero, suc, ◌+◌, ◌*◌, ◌/◌, ◌%◌, ◌<◌, ◌≡◌, refl, ap, List, [], ◌∷◌, ◌++◌, arith, length, take,
  drop, All,
}
use viabtc_future.Pack.{le_bytes, le_value}

-- The first number that `k` bytes do not hold.
abbrev pub room : ℕ → ℕ
room zero = 1
room (suc k) = 256 * room k

abbrev pub IsByte : ℕ → Type 0
IsByte b = b < 256

pub length-le_bytes : (k n : ℕ) → length (le_bytes k n) ≡ k
unfolding le_bytes
length-le_bytes zero n = refl
length-le_bytes (suc k) n = omega (arith, length-le_bytes k (n / 256))

pub le_bytes-IsByte : (k n : ℕ) → All IsByte (le_bytes k n)
unfolding le_bytes
le_bytes-IsByte zero n = tt
le_bytes-IsByte (suc k) n = (omega arith, le_bytes-IsByte k (n / 256))

pub le_value-le_bytes : (k n : ℕ) → n < room k → le_value (le_bytes k n) ≡ n
unfolding le_bytes le_value
le_value-le_bytes zero n h = omega arith
le_value-le_bytes (suc k) n h = omega (arith, le_value-le_bytes k (n / 256) (omega arith))

pub le_value-lt : (bs : List ℕ) → All IsByte bs → le_value bs < room (length bs)
unfolding le_value
le_value-lt [] h = omega arith
le_value-lt (b ∷ bs) h = omega (arith, le_value-lt bs h.1)

pub le_bytes-le_value : (bs : List ℕ) → All IsByte bs → le_bytes (length bs) (le_value bs) ≡ bs
unfolding le_bytes le_value
le_bytes-le_value [] h = refl
le_bytes-le_value (b ∷ bs) h =
    let low : (b + 256 * le_value bs) % 256 ≡ b = omega arith in
    let high : (b + 256 * le_value bs) / 256 ≡ le_value bs = omega arith in
    rw (low, high, le_bytes-le_value bs h.1)

pub take-append_length : (k : ℕ) (xs ys : List ℕ) → length xs ≡ k → take k (xs ++ ys) ≡ xs
take-append_length zero [] ys h = refl
take-append_length zero (x ∷ xs) ys h = absurd (omega arith)
take-append_length (suc k) [] ys h = absurd (omega arith)
take-append_length (suc k) (x ∷ xs) ys h = ap (◌∷◌ x) (take-append_length k xs ys (omega arith))

pub drop-append_length : (k : ℕ) (xs ys : List ℕ) → length xs ≡ k → drop k (xs ++ ys) ≡ ys
drop-append_length zero [] ys h = refl
drop-append_length zero (x ∷ xs) ys h = absurd (omega arith)
drop-append_length (suc k) [] ys h = absurd (omega arith)
drop-append_length (suc k) (x ∷ xs) ys h = drop-append_length k xs ys (omega arith)
