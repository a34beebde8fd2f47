-- ===== src/Decimal.antt =====
-- The decimal arithmetic of libmpdec as `utils/src/ut_decimal.c` sets it up: IEEE decimal128,
-- rounding toward zero. Every finite decimal128 is a whole multiple of the least quantum
-- 10 ^ -6176, so a number is that multiple, an integer, and `mpd_cmp` is the order of integers.
-- The rounding of a result to 34 digits, the product, the quotient and the rescaling are the
-- library's, and come as parameters. Special values (NaN, infinities) are not modelled.
use viabtc_future.Prelude.Int.{ℤ, pos, ◌+ℤ◌, ◌-ℤ◌, ◌≤ℤ◌}
use viabtc_future.Prelude.{Bool, ◌≡◌}

pub record Decimal : Type 0 where
  -- The rounding of an exact sum or difference to the context's precision.
  pub round : ℤ → ℤ
  -- `mpd_mul`, `mpd_div`, and the integral quotient of `mpd_divmod`.
  pub mul : ℤ → ℤ → ℤ
  pub div : ℤ → ℤ → ℤ
  -- `rescale e x` is `mpd_rescale(_, x, e)`.
  pub rescale : ℤ → ℤ → ℤ
  -- `mpd_one`, and `mpd_isinteger`.
  pub one : ℤ
  pub is_integer : ℤ → Bool

module _ (d : Decimal) where
  -- `mpd_add` and `mpd_sub`: the exact result, rounded.
  abbrev pub add : ℤ → ℤ → ℤ
  add a b = d.round (a +ℤ b)

  abbrev pub sub : ℤ → ℤ → ℤ
  sub a b = d.round (a -ℤ b)

  -- Rounding toward zero keeps a number that is not negative so.
  pub record RoundsDown : Type 0 where
    pub round_nonneg : (x : ℤ) → pos 0 ≤ℤ x → pos 0 ≤ℤ d.round x
    pub rescale_nonneg : (x e : ℤ) → pos 0 ≤ℤ x → pos 0 ≤ℤ d.rescale e x
    pub round_le : (x : ℤ) → pos 0 ≤ℤ x → d.round x ≤ℤ x
    pub rescale_le : (x e : ℤ) → pos 0 ≤ℤ x → d.rescale e x ≤ℤ x

  -- `x` needs no rounding: it has at most 34 digits and no digit below the exponent `e`.
  pub record IsExact (e x : ℤ) : Type 0 where
    pub rounded : d.round x ≡ x
    pub rescaled : d.rescale e x ≡ x
