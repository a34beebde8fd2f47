-- ===== src/Market/Pnl/Laws.antt =====
-- How the profits of matchengine/src/me_market.c go together, for longs and shorts.
use viabtc_future.Prelude.{◌≡◌, ap, arith}
use viabtc_future.Prelude.Int.{ℤ, pos, ◌+ℤ◌, ◌-ℤ◌, +ℤ_parts, -ℤ_parts, eq_of_parts, int_laws}
use viabtc_future.Decimal.{Decimal, add, sub}
use viabtc_future.Market.Defs.{Position, bull, bear}
use viabtc_future.Market.Pnl.{get_pnl, get_part_pnl}

-- Arithmetic that does not depend on the sign: `-x` is treated as `x`, with the sign put back.
-- Rounding toward zero, the product and the quotient do this.
pub record SignBlind (d : Decimal) : Type 0 where
  pub round_neg : (x : ℤ) → d.round (pos 0 -ℤ x) ≡ pos 0 -ℤ d.round x
  pub mul_neg : (x y : ℤ) → d.mul (pos 0 -ℤ x) y ≡ pos 0 -ℤ d.mul x y
  pub div_neg : (x y : ℤ) → d.div (pos 0 -ℤ x) y ≡ pos 0 -ℤ d.div x y

neg_sub : (a b : ℤ) → pos 0 -ℤ (a -ℤ b) ≡ b -ℤ a
neg_sub a b = omega int_laws

sub_neg : (a b : ℤ) → a -ℤ (pos 0 -ℤ b) ≡ b +ℤ a
sub_neg a b = omega int_laws

-- The gain of a position when the price goes from `from` to `to`.
abbrev gain : Decimal → ℤ → ℤ → ℤ → ℤ → ℤ
gain d from to price size = d.mul (d.div (sub d to from) price) size

gain_back :
    (d : Decimal)
    → SignBlind d
    → (from to price size : ℤ) → gain d to from price size ≡ pos 0 -ℤ gain d from to price size
gain_back d blind from to price size = cc (
  neg_sub to from,
  blind.round_neg (to -ℤ from),
  blind.div_neg (sub d to from) price,
  blind.mul_neg (d.div (sub d to from) price) size,
)

-- Both branches of `getPNL` are one formula: the margin and the signed profit of the whole
-- position, rounded once, for a long and for a short alike. The arithmetic is blind to signs.
pub get_pnl_signed :
    (d : Decimal) (p : Position) (latest : ℤ)
    → SignBlind d
    → get_pnl d p latest ≡ add d (get_part_pnl d p (add d p.position p.frozen) latest) p.principal
unfolding get_pnl get_part_pnl
get_pnl_signed d p latest blind =
    let size = add d p.position p.frozen in
    ground (
      arith,
      gain_back d blind p.price latest p.price size,
      gain_back d blind latest p.price p.price size,
      sub_neg p.principal (gain d p.price latest p.price size),
      sub_neg p.principal (gain d latest p.price p.price size),
    )

-- A long and a short of the same size and entry price are zero-sum: what one gains in part the
-- other loses. The arithmetic is blind to signs.
get_part_pnl_zero_sum :
    (d : Decimal) (long short : Position) (amount latest : ℤ)
    → SignBlind d
    → long.side ≡ bull
    → short.side ≡ bear
    → long.price ≡ short.price
    → get_part_pnl d long amount latest +ℤ get_part_pnl d short amount latest ≡ pos 0
unfolding get_part_pnl
get_part_pnl_zero_sum d long short amount latest blind sl ss same =
    let here = gain d long.price latest long.price amount in
    ground (
      arith,
      gain_back d blind long.price latest long.price amount,
      +ℤ_parts here (pos 0 -ℤ here),
      -ℤ_parts (pos 0) here,
      eq_of_parts (here +ℤ (pos 0 -ℤ here)) (pos 0),
      ap (λ x. gain d latest x x amount) same,
    )
