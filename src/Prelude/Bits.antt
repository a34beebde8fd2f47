-- ===== src/Prelude/Bits.antt =====
-- Exclusive or of native numbers: `xor_step` gives its lowest digit, and the laws follow by halving.
use Prim.Native.Nat.{
  ℕ, zero, suc, ◌+◌, ◌*◌, ◌/◌, ◌%◌, ◌^◌, ◌≤◌, ◌<◌, bit_xor, digits, differ, bit_xor-bitwise,
}
use mathlib.Core.Path.{◌≡◌, refl, ap, sym, ◌∙◌}
use native.Mathlib.Omega.{arith}
use native.Mathlib.Decide.{dec_lt}
use native.Mathlib.Nat.{pow-suc}

module _ (z : ℕ → ℕ) (f : ℕ → ℕ → ℕ) where
  -- A digit more than the number has.
  digits_more : (n a b : ℕ) → a ≤ n → digits z f (suc n) a b ≡ digits z f n a b
  digits_more zero zero b h = refl
  digits_more zero (suc a) b h = absurd (omega arith)
  digits_more (suc n) zero b h = refl
  digits_more (suc n) (suc a) b h = rw (digits_more n (suc a / 2) (b / 2) (omega arith))

  -- As many digits as the number, which is more than it has, are enough.
  digits_enough : (n a b : ℕ) → a ≤ n → digits z f n a b ≡ digits z f a a b
  digits_enough zero a b h = ap (λ m. digits z f m a b) {x = 0} {y = a} (omega arith)
  digits_enough (suc n) a b h = elim (dec_lt n a) [
    | yes all ↦ ap (λ m. digits z f m a b) {x = suc n} {y = a} (omega arith)
    | no fewer ↦ digits_more n a b (omega arith) ∙ digits_enough n a b (omega arith)
  ]

zero-xor : (b : ℕ) → bit_xor 0 b ≡ b
zero-xor b = bit_xor-bitwise 0 b

differ_lem : (x y : ℕ) → x < 2 → y < 2 → differ x y ≡ (x + y) % 2
differ_lem zero y h k = omega arith
differ_lem (suc zero) zero h k = refl
differ_lem (suc zero) (suc zero) h k = refl
differ_lem x (suc (suc y)) h k = absurd (omega arith)
differ_lem (suc (suc x)) y h k = absurd (omega arith)

pub xor_step : (a b : ℕ) → bit_xor a b ≡ bit_xor (a / 2) (b / 2) * 2 + (a + b) % 2
xor_step zero b = omega (arith, zero-xor b, zero-xor (b / 2))
xor_step (suc a) b = omega (
  arith,
  bit_xor-bitwise (suc a) b,
  bit_xor-bitwise (suc a / 2) (b / 2),
  digits_enough (λ y. y) differ a (suc a / 2) (b / 2) (omega arith),
  differ_lem (suc a % 2) (b % 2) (omega arith) (omega arith),
)

pub xor-half : (a b : ℕ) → bit_xor a b / 2 ≡ bit_xor (a / 2) (b / 2)
xor-half a b = omega (arith, xor_step a b)

pub xor-parity : (a b : ℕ) → bit_xor a b % 2 ≡ (a + b) % 2
xor-parity a b = omega (arith, xor_step a b)

-- Induction: numbers whose halves are equal and that are both even or both odd are equal.
xor_comm_below : (n a b : ℕ) → a + b ≤ n → bit_xor a b ≡ bit_xor b a
xor_comm_below zero zero zero h = refl
xor_comm_below zero (suc a) b h = absurd (omega arith)
xor_comm_below zero zero (suc b) h = absurd (omega arith)
xor_comm_below (suc n) a b h =
    omega (arith, xor_step a b, xor_step b a, xor_comm_below n (a / 2) (b / 2) (omega arith))

pub xor_comm : (a b : ℕ) → bit_xor a b ≡ bit_xor b a
xor_comm a b = xor_comm_below (a + b) a b (omega arith)

xor_assoc_below : (n a b c : ℕ) → a + b + c ≤ n → bit_xor (bit_xor a b) c ≡ bit_xor a (bit_xor b c)
xor_assoc_below zero zero zero zero h = refl
xor_assoc_below zero (suc a) b c h = absurd (omega arith)
xor_assoc_below zero zero (suc b) c h = absurd (omega arith)
xor_assoc_below zero zero zero (suc c) h = absurd (omega arith)
xor_assoc_below (suc n) a b c h = omega (
  arith,
  xor_step (bit_xor a b) c,
  xor_step a (bit_xor b c),
  xor-parity a b,
  xor-parity b c,
  ap (λ m. bit_xor m (c / 2)) (xor-half a b),
  ap (bit_xor (a / 2)) (xor-half b c),
  xor_assoc_below n (a / 2) (b / 2) (c / 2) (omega arith),
)

pub xor_assoc : (a b c : ℕ) → bit_xor (bit_xor a b) c ≡ bit_xor a (bit_xor b c)
xor_assoc a b c = xor_assoc_below (a + b + c) a b c (omega arith)

xor_self_below : (n a : ℕ) → a ≤ n → bit_xor a a ≡ 0
xor_self_below zero zero h = refl
xor_self_below zero (suc a) h = absurd (omega arith)
xor_self_below (suc n) a h = omega (arith, xor_step a a, xor_self_below n (a / 2) (omega arith))

pub xor_self : (a : ℕ) → bit_xor a a ≡ 0
xor_self a = xor_self_below a a (omega arith)

pub xor-zero : (a : ℕ) → bit_xor a 0 ≡ a
xor-zero a = xor_comm a 0 ∙ zero-xor a

-- What is added twice is gone.
pub xor_twice : (a b : ℕ) → bit_xor (bit_xor a b) b ≡ a
xor_twice a b = xor_assoc a b b ∙ ap (bit_xor a) (xor_self b) ∙ xor-zero a

pub xor_cancel : (a b c : ℕ) → bit_xor a c ≡ bit_xor b c → a ≡ b
xor_cancel a b c h = sym (xor_twice a c) ∙ ap (λ m. bit_xor m c) h ∙ xor_twice b c

pub double_mul : (q k : ℕ) → q * 2 ^ suc k ≡ 2 * (q * 2 ^ k)
double_mul q k = omega (arith, ap (λ (m : ℕ). q * m) (pow-suc 2 k))

-- The low `k` digits and the others are apart.
pub xor_fields :
    (k p q r s : ℕ)
    → r < 2 ^ k
    → s < 2 ^ k
    → bit_xor (p * 2 ^ k + r) (q * 2 ^ k + s) ≡ bit_xor p q * 2 ^ k + bit_xor r s
xor_fields zero p q r s h j =
    let none : (m n : ℕ) → n < 1 → m * 2 ^ 0 + n ≡ m = λ m n small. omega arith in
    let both : bit_xor r s ≡ 0 = ap (bit_xor r) {x = s} {y = r} (omega arith) ∙ xor_self r in
    rw (none p r h, none q s j) (omega (arith, both))
xor_fields (suc k) p q r s h j =
    let half : (m n : ℕ) → (m * 2 ^ suc k + n) / 2 ≡ m * 2 ^ k + n / 2 =
      λ m n. omega (arith, double_mul m k) in
    omega (
      arith,
      xor_step (p * 2 ^ suc k + r) (q * 2 ^ suc k + s),
      xor_step r s,
      double_mul p k,
      double_mul q k,
      double_mul (bit_xor p q) k,
      ap (λ m. bit_xor m ((q * 2 ^ suc k + s) / 2)) (half p r),
      ap (bit_xor (p * 2 ^ k + r / 2)) (half q s),
      xor_fields k p q (r / 2) (s / 2) (omega (arith, pow-suc 2 k)) (omega (arith, pow-suc 2 k)),
    )

pub xor-lt : (k a b : ℕ) → a < 2 ^ k → b < 2 ^ k → bit_xor a b < 2 ^ k
xor-lt zero a b h j = omega (arith, ap (bit_xor a) {x = b} {y = a} (omega arith), xor_self a)
xor-lt (suc k) a b h j =
    let low = pow-suc 2 k in
    omega
      (arith, low, xor_step a b, xor-lt k (a / 2) (b / 2) (omega (arith, low)) (omega (arith, low)))
