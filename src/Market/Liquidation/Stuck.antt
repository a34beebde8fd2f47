-- ===== src/Market/Liquidation/Stuck.antt =====
-- The cancelling loop of matchengine/src/me_liquidation.c on an order that it cannot cancel.
use viabtc_future.Prelude.{
  ℕ, zero, suc, ◌≡◌, refl, ap, ◌∙◌, Bool, true, false, inl, inr, none, some, is_some, arith,
}
use viabtc_future.Prelude.Int.{ℤ, pos, leb_ℤ, ltb_ℤ, ◌<ℤ◌, ◌≤ℤ◌}
use viabtc_future.Decimal.{Decimal}
use viabtc_future.Balance.{key_eq, freeze_type, balance_unfreeze}
use viabtc_future.Balance.Moves.{covers, freeze_accepts}
use viabtc_future.Market.Defs.{Order, Engine, Position}
use viabtc_future.Market.Match.{market_cancel_order}
use viabtc_future.Market.Liquidation.{
  Run, market_get_order_list, scan, cancel_orders, cross_cancel, cross_condition,
}

module _ (d : Decimal) where
  unfreeze_refused :
      (o : Order) (e : Engine)
      → covers o.user_id freeze_type e.market.money o.freeze e.balances ≡ false
      → balance_unfreeze d o.user_id e.market.money o.freeze e.balances ≡ (none, e.balances)
  unfreeze_refused o e short =
      let (_, accepted, _, kept) = freeze_accepts d o.user_id e.market.money o.freeze e.balances in
      let refused : is_some (balance_unfreeze d o.user_id e.market.money o.freeze e.balances).0
          ≡ false =
        accepted ∙ rw short (ground arith) in
      elim kept [
        | inl done ↦ ground (arith, done, refused)
        | inr (failed, same) ↦ ground (arith, failed, same)
      ]

  -- A cancellation that is refused leaves the market and the balances.
  refused_cancel :
      (real : Bool) (o : Order) (e : Engine)
      → o.oper_type ≡ 1
      → ltb_ℤ (pos 0) o.freeze ≡ true
      → covers o.user_id freeze_type e.market.money o.freeze e.balances ≡ false
      → ((market_cancel_order d real o e).1.market ≡ e.market)
        × ((market_cancel_order d real o e).1.balances ≡ e.balances)
  unfolding market_cancel_order
  refused_cancel true o e opens frozen short =
      ground (arith, opens, frozen, unfreeze_refused o e short)
  refused_cancel false o e opens frozen short =
      ground (arith, opens, frozen, unfreeze_refused o e short)

  cancel_orders_stuck :
      (fuel : ℕ) (wanted : Order → Bool) (user : ℕ) (real : Bool) (o : Order) (e : Engine)
      → scan wanted (market_get_order_list user e.market) e.market ≡ Run.ended (some o)
      → o.oper_type ≡ 1
      → ltb_ℤ (pos 0) o.freeze ≡ true
      → covers o.user_id freeze_type e.market.money o.freeze e.balances ≡ false
      → cancel_orders d fuel wanted user real e ≡ Run.running
  unfolding cancel_orders
  cancel_orders_stuck zero wanted user real o e next opens frozen short = refl
  cancel_orders_stuck (suc fuel) wanted user real o e next opens frozen short =
      let (market, balances) = refused_cancel real o e opens frozen short in
      rw (cancel_orders, next)
        (cancel_orders_stuck fuel wanted user real o (market_cancel_order d real o e).1
          (ap (λ m. scan wanted (market_get_order_list user m) m) market ∙ next) opens frozen
          (ap
              (λ m.
                covers o.user_id freeze_type m.money o.freeze
                  (market_cancel_order d real o e).1.balances)
              market
            ∙ ap (λ b. covers o.user_id freeze_type e.market.money o.freeze b) balances
            ∙ short))

  -- A cross-margin position is to be closed, and the first order of the user opens a position and has
  -- more frozen for it than the user's frozen balance. Then the loop that cancels the user's orders
  -- never ends: balance_unfreeze refuses, the order stays where it is, and the loop starts again.
  pub cross_cancel_stuck :
      (fee_rate maintenance_rate : ℤ) (fuel : ℕ) (real : Bool) (p : Position) (o : Order)
      (e : Engine)
      → pos 0 <ℤ e.market.latest_price
      → cross_condition d fee_rate maintenance_rate p.user_id e ≤ℤ pos 0
      → scan (λ x. true) (market_get_order_list p.user_id e.market) e.market ≡ Run.ended (some o)
      → o.oper_type ≡ 1
      → pos 0 <ℤ o.freeze
      → covers o.user_id freeze_type e.market.money o.freeze e.balances ≡ false
      → cross_cancel d fee_rate maintenance_rate fuel real p e ≡ Run.running
  unfolding cross_cancel
  cross_cancel_stuck fee_rate maintenance_rate fuel real p o e priced blown next opens frozen
        short =
      let loop =
        cancel_orders_stuck fuel (λ x. true) p.user_id real o e next opens (ground (arith, frozen))
          short in
      let first : leb_ℤ e.market.latest_price (pos 0) ≡ false = ground (arith, priced) in
      let second : leb_ℤ (cross_condition d fee_rate maintenance_rate p.user_id e) (pos 0) ≡ true =
        ground (arith, blown) in
      rw (cross_cancel, first, second, loop)
