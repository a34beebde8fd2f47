-- ===== src/Market/Liquidation.antt =====
-- matchengine/src/me_liquidation.c: an isolated position whose margin is used up is closed at the
-- market, and the conditions and the cancelling of a cross-margin liquidation. The position's market
-- is the engine's. The rates 0.0001 and 0.0003 that the code reads by `decimal` are parameters.
pub mod Lists
pub mod Cancels
pub mod Ends
pub mod Stuck
pub mod Sound
pub mod Forced
use viabtc_future.Prelude.{
  ℕ, zero, suc, ◌+◌, ◌%◌, ◌^◌, Bool, true, false, ◌&&◌, Option, none, some, List, [], ◌∷◌,
  if◌then◌else◌, ◌==◌,
}
use viabtc_future.Prelude.Int.{ℤ, pos, leb_ℤ}
use viabtc_future.Decimal.{Decimal}
use viabtc_future.Decimal
use viabtc_future.Dict
use viabtc_future.Dict.{nat_eq}
use viabtc_future.Balance.{key_eq, available_type, freeze_type, balance_get}
use viabtc_future.Market.Defs.{Order, Position, Market, Engine}
use viabtc_future.Market.Book.{Side, asks, bids, plan_asks, plan_bids, book}
use viabtc_future.Market.Pnl.{
  get_position, write_position, position_key_eq, get_pnl, get_sum_pnl, get_sum_close_fee,
  get_sum_maintenance,
}
use viabtc_future.Market.Match.{execute_order, market_cancel_order}

-- A loop on fuel ends, goes on, or follows a pointer to an order that is in no book.
pub data Run (A : Type 0) : Type 0 where
  ended : A → Run A
  running : Run A
  dangling : Run A

-- The order behind an id of an index.
abbrev pub find_id : ℕ → List Order → Option Order
find_id i [] = none
find_id i (o ∷ l) = if o.id == i then some o else find_id i l

abbrev pub first_of : Option Order → Option Order → Option Order
first_of none b = b
first_of (some o) b = some o

unfoldable pub order_of : ℕ → Market → Option Order
order_of i m =
    first_of (find_id i m.asks)
      (first_of (find_id i m.bids) (first_of (find_id i m.plan_asks) (find_id i m.plan_bids)))

-- `market_get_order_list`: no list is an empty one.
unfoldable pub market_get_order_list : ℕ → Market → List ℕ
market_get_order_list user m = elim (Dict.find user m.users) [ none ↦ [] | some l ↦ l ]

-- The first order of the list that the loop wants to cancel.
unfoldable pub scan : (Order → Bool) → List ℕ → Market → Run (Option Order)
scan wanted [] m = Run.ended none
scan wanted (i ∷ l) m =
    let rest = scan wanted l m in
    elim (order_of i m) [
      | none ↦ Run.dangling
      | some o ↦ if wanted o then Run.ended (some o) else rest
    ]

module _ (d : Decimal) where
  -- The `while (flag)` loop of both liquidations, on fuel.
  unfoldable pub cancel_orders : ℕ → (Order → Bool) → ℕ → Bool → Engine → Run Engine
  cancel_orders zero wanted user real e = Run.running
  cancel_orders (suc fuel) wanted user real e =
      elim (scan wanted (market_get_order_list user e.market) e.market) [
        | Run.dangling ↦ Run.dangling
        | Run.running ↦ Run.running
        | Run.ended none ↦ Run.ended e
        | Run.ended (some o) ↦
            cancel_orders fuel wanted user real (market_cancel_order d real o e).1
      ]

  -- `initOrder` of the liquidation: all of the position, at the market. The pointers to the
  -- take-profit and the stop-loss are left as `malloc` gave them; they are 0 here.
  unfoldable pub blast_order : ℤ → Position → Engine → Order × Engine
  blast_order fee_rate p e =
      let id = (e.order_id_start + 1) % 2 ^ 64 in
      let amount = Decimal.add d p.position p.frozen in
      (
        record {
          id = id;
          type = 0;
          isblast = true;
          side = p.side;
          pattern = p.pattern;
          oper_type = 2;
          user_id = p.user_id;
          market = p.market;
          relate_order = 0;
          price = pos 0;
          amount = amount;
          leverage = p.leverage;
          trigger = pos 0;
          current_price = pos 0;
          taker_fee = fee_rate;
          maker_fee = fee_rate;
          tp_price = pos 0;
          tp_amount = pos 0;
          sl_price = pos 0;
          sl_amount = pos 0;
          left = amount;
          freeze = pos 0;
          deal_stock = pos 0;
          deal_money = pos 0;
          pnl = pos 0;
          deal_fee = pos 0;
          mm = 0;
        },
        record e { order_id_start = id },
      )

  -- What is left of the margin behind the profit, the fee and the maintenance.
  unfoldable pub isolated_condition : ℤ → ℤ → Position → ℤ → ℤ
  isolated_condition fee_rate maintenance_rate p latest =
      let total = Decimal.add d p.position p.frozen in
      Decimal.sub d (Decimal.sub d (get_pnl d p latest) (d.mul total fee_rate))
        (d.mul total maintenance_rate)

  -- The orders that close the position.
  abbrev pub closes : ℕ → Order → Bool
  closes side o = o.side == side && o.oper_type == 2

  -- All of the position is frozen, and an order for it is matched.
  unfoldable pub blast : ℤ → Bool → Position → Engine → Engine
  blast fee_rate real p e =
      let (o, e') = blast_order fee_rate p e in
      let frozen = Decimal.add d p.frozen p.position in
      execute_order d real o.side o (
        write_position p.user_id p.market p.side (record p { frozen = frozen; position = pos 0 })
          e')

  -- The position as it is once the orders are cancelled: `position` points into the dictionary.
  unfoldable pub blast_now : ℤ → Bool → Position → Engine → ℕ × Engine
  blast_now fee_rate real p e = elim (get_position p.user_id p.market p.side e) [
    | none ↦ (1, e)
    | some p' ↦ (1, blast fee_rate real p' e)
  ]

  -- `isolated_liquidation`, with what it returns.
  unfoldable pub isolated_liquidation : ℤ → ℤ → ℕ → Bool → Position → Engine → Run (ℕ × Engine)
  isolated_liquidation fee_rate maintenance_rate fuel real p e =
      let latest = e.market.latest_price in
      let cancelled = cancel_orders fuel (closes p.side) p.user_id real e in
      if leb_ℤ latest (pos 0)
      then Run.ended (0, e)
      else if leb_ℤ (isolated_condition fee_rate maintenance_rate p latest) (pos 0)
      then elim cancelled [
        | Run.dangling ↦ Run.dangling
        | Run.running ↦ Run.running
        | Run.ended e' ↦ Run.ended (blast_now fee_rate real p e')
      ]
      else Run.ended (0, e)

  abbrev pub add_money : Option ℤ → ℤ → ℤ
  add_money none total = total
  add_money (some balance) total = Decimal.add d total balance

  -- What is left of all the user's money and margins in the asset of the market.
  unfoldable pub cross_condition : ℤ → ℤ → ℕ → Engine → ℤ
  cross_condition fee_rate maintenance_rate user e =
      let balance = balance_get user available_type e.market.money e.balances in
      let frozen = balance_get user freeze_type e.market.money e.balances in
      let money = add_money frozen (add_money balance (pos 0)) in
      Decimal.sub d
        (Decimal.sub d (Decimal.add d money (get_sum_pnl d user e))
          (get_sum_close_fee d fee_rate user e))
        (get_sum_maintenance d maintenance_rate user e)

  -- The orders that a cross-margin liquidation cancels before it takes the money: all of them.
  unfoldable pub cross_cancel : ℤ → ℤ → ℕ → Bool → Position → Engine → Run Engine
  cross_cancel fee_rate maintenance_rate fuel real p e =
      let cancelled = cancel_orders fuel (λ o. true) p.user_id real e in
      if leb_ℤ e.market.latest_price (pos 0)
      then Run.ended e
      else if leb_ℤ (cross_condition fee_rate maintenance_rate p.user_id e) (pos 0)
      then cancelled
      else Run.ended e
