-- ===== src/Market/Requests/Refusals.antt =====
-- Requests that `market_put_order_common` of matchengine/src/me_market.c does not carry out.
use viabtc_future.Prelude.{ℕ, ◌≡◌, ◌≢◌, ap, sym, Bool, true, Option-cases, inl, inr, arith}
use viabtc_future.Prelude.Int.{ℤ, eqb_ℤ}
use mathlib.Core.Path.{subst}
use viabtc_future.Decimal.{Decimal}
use viabtc_future.Market.Defs.{Engine}
use viabtc_future.Market.Put.{Args, Reply, put_order}
use viabtc_future.Market.Put.Refused.{Untouched, Untouched-refl, put_order_refused}
use viabtc_future.Market.Liquidation.Forced.{Outcome, left}
use viabtc_future.Market.Requests.{price_error, follow_up, market_put_order_common}

eqb_ℤ_same : (a b : ℤ) → a ≡ b → eqb_ℤ a b ≡ true
eqb_ℤ_same a b h = ground (arith, h)

here :
    {e₀ e' : Engine} {ret₀ ret : Reply}
    → ◌≡◌ {A = Outcome (Reply × Engine)} (left (ret₀, e₀)) (left (ret, e'))
    → e₀ ≡ e'
here h = cc

module _ (d : Decimal) (rounds : ℕ) (fee_rate maintenance_rate : ℤ) (fuel : ℕ) where
  follow_up_refused :
      (user : ℕ) (real : Bool) (ret₀ ret : Reply) (e e₀ e' : Engine)
      → (ret₀ ≢ Reply.done → Untouched user e e₀)
      → ret ≢ Reply.done
      → follow_up d rounds fee_rate maintenance_rate fuel e.market.latest_price real ret₀ e₀
        ≡ left (ret, e')
      → Untouched user e e'
  unfolding follow_up
  follow_up_refused user real Reply.done ret e e₀ e' u h same = absurd (h (ground arith))
  follow_up_refused user real (Reply.refused n) ret e e₀ e' u h same =
      let untouched = u (λ p. cc) in
      let price =
        eqb_ℤ_same e.market.latest_price e₀.market.latest_price
          (ap (λ m. m.latest_price) (sym untouched.market)) in
      subst (Untouched user e) (here (rw price at same)) untouched
  follow_up_refused user real Reply.crashed ret e e₀ e' u h same =
      subst (Untouched user e) (here same) (u (λ p. cc))

  -- A request that market_put_order_common answers otherwise than with 0, and answers, leaves the
  -- balances, the positions, the market with its books and its price, the users' orders, the other
  -- users' position modes and the messages as they were: no waiting order and no position is looked at.
  pub market_put_order_common_refused :
      (opens : Bool) (a : Args) (e e' : Engine) (ret : Reply)
      → ret ≢ Reply.done
      → market_put_order_common d rounds fee_rate maintenance_rate fuel opens a e ≡ left (ret, e')
      → Untouched a.user_id e e'
  unfolding market_put_order_common
  market_put_order_common_refused opens a e e' ret h same = elim (Option-cases (price_error a)) [
    | inl fine ↦
        follow_up_refused a.user_id a.real (put_order d opens a e).0 ret e (put_order d opens a e).1
          e' (put_order_refused d opens a e) h (rw (fine, market_put_order_common) at same)
    | inr (code, bad) ↦
        subst (Untouched a.user_id e) (here (rw (bad, market_put_order_common) at same))
          (Untouched-refl a.user_id e)
  ]
