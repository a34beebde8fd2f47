-- ===== src/Market/Requests.antt =====
-- `market_put_order_common` of matchengine/src/me_market.c: the checks of a request, the request
-- itself, and what a new price sets off. A price that is not given is 0. The planner and the
-- liquidation look at the engine's market alone.
pub mod Refusals
use viabtc_future.Prelude.{ℕ, Bool, true, false, not, ◌&&◌, Option, some, none, if◌then◌else◌, ◌==◌}
use viabtc_future.Prelude.Int.{ℤ, pos, leb_ℤ, eqb_ℤ}
use viabtc_future.Decimal.{Decimal}
use viabtc_future.Market.Defs.{Engine}
use viabtc_future.Market.Put.{Args, Reply, put_order}
use viabtc_future.Market.Planner.{on_planner}
use viabtc_future.Market.Liquidation.Forced.{
  Outcome, left, going, freed, elsewhere, force_liquidation,
}

-- The checks of the prices that the type of the order needs.
abbrev pub price_error : Args → Option ℕ
price_error a =
    if a.type == 1 && leb_ℤ a.entrust_price (pos 0)
    then some 1
    else if a.type == 2 && leb_ℤ a.trigger_price (pos 0)
    then some 2
    else if a.type == 3 && (leb_ℤ a.tp_price (pos 0) && leb_ℤ a.sl_price (pos 0))
    then some 3
    else none

module _ (d : Decimal) (rounds : ℕ) (fee_rate maintenance_rate : ℤ) (fuel : ℕ) where
  -- What follows a request: if it has changed the price, the waiting orders and the positions are
  -- looked at. A read through a NULL pointer ends the process.
  unfoldable pub follow_up : ℤ → Bool → Reply → Engine → Outcome (Reply × Engine)
  follow_up latest real Reply.crashed e = left (Reply.crashed, e)
  follow_up latest real ret e =
      if eqb_ℤ latest e.market.latest_price
      then left (ret, e)
      else elim (force_liquidation d rounds fee_rate maintenance_rate fuel real
          (on_planner d real e)) [
            | left e' ↦ left (ret, e')
            | going ↦ going
            | freed ↦ freed
            | elsewhere ↦ elsewhere
          ]

  unfoldable pub market_put_order_common : Bool → Args → Engine → Outcome (Reply × Engine)
  market_put_order_common opens a e = elim (price_error a) [
    | some code ↦ left (Reply.refused code, e)
    | none ↦ let (ret, e') = put_order d opens a e in follow_up e.market.latest_price a.real ret e'
  ]
