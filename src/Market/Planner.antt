-- ===== src/Market/Planner.antt =====
-- The orders that wait for a price: matchengine/src/me_planner.c. The handlers for the two sides
-- are the same code with other directions, so a handler is one definition over the directions
-- that it passes to `execute_order`.
pub mod Triggers
pub mod Uncrossed
use viabtc_future.Prelude.{
  ℕ, ◌+◌, ◌%◌, ◌^◌, Bool, true, false, not, ◌&&◌, ◌||◌, Option, none, some, List, [], ◌∷◌,
  if◌then◌else◌, ◌==◌,
}
use viabtc_future.Prelude.Int.{ℤ, pos, leb_ℤ, eqb_ℤ}
use viabtc_future.Decimal.{Decimal}
use viabtc_future.Decimal
use viabtc_future.Dict.{nat_eq}
use viabtc_future.Balance.{key_eq, available_type, balance_get, balance_freeze}
use viabtc_future.Market.Defs.{
  Order, Position, Engine, OrderEvent, order_message, bear, bull, plan_type,
}
use viabtc_future.Market.Book.{emit, order_finish_future, book, Side, plan_asks, plan_bids}
use viabtc_future.Market.Pnl.{get_position, write_position, position_key_eq, check_pri_and_fee}
use viabtc_future.Market.Match.{execute_order}

-- `checkConditionAsk` and `checkConditionBid`: 1 for the take-profit, 2 for the stop-loss. The
-- pointers that they test are never NULL.
abbrev pub check_condition_ask : Order → ℤ → ℕ
check_condition_ask o latest =
    if leb_ℤ o.tp_price latest then 1 else if leb_ℤ latest o.sl_price then 2 else 0

abbrev pub check_condition_bid : Order → ℤ → ℕ
check_condition_bid o latest =
    if leb_ℤ latest o.tp_price then 1 else if leb_ℤ o.sl_price latest then 2 else 0

-- The trigger lies between the price when the order was made and the latest price.
abbrev pub is_triggered : Order → ℤ → Bool
is_triggered o latest =
    (leb_ℤ o.trigger o.current_price && leb_ℤ latest o.trigger)
    || (leb_ℤ o.current_price o.trigger && leb_ℤ o.trigger latest)

-- `copyOrder`, with the new type and id: an order without a price becomes a market order.
abbrev pub copy_order : Order → Engine → Order × Engine
copy_order old e =
    let id = (e.order_id_start + 1) % 2 ^ 64 in
    (
      record old { id = id; type = if eqb_ℤ old.price (pos 0) then 0 else 1; pnl = pos 0 },
      record e { order_id_start = id },
    )

module _ (d : Decimal) (real : Bool) where
  -- The new order is matched, and the old one is done.
  abbrev pub replace_old : ℕ → Order → Order → Engine → Engine
  replace_old direction old o e =
      let e' = execute_order d real direction o e in
      order_finish_future real old (emit real (order_message OrderEvent.finish old) e')

  -- A closing order freezes its part of the position first; without a position nothing happens.
  abbrev pub close_triggered : ℕ → Order → Order → Engine → Engine
  close_triggered direction old o e = elim (get_position o.user_id o.market o.side e) [
    | none ↦ e
    | some p ↦ replace_old direction old o (
        write_position o.user_id o.market o.side
          (record p {
            frozen = Decimal.add d p.frozen o.left;
            position = Decimal.sub d p.position o.left;
          })
          e)
  ]

  -- An opening order passes the check of the margin, and a limit order freezes it.
  abbrev pub open_triggered : ℕ → Order → Order → Engine → Engine
  open_triggered direction old o e =
      let need = d.div o.left o.leverage in
      let balance = balance_get o.user_id available_type e.market.money e.balances in
      if check_pri_and_fee d o.pattern o.user_id balance need e
      then if o.type == 1
        then (let (frozen, b) = balance_freeze d o.user_id e.market.money need e.balances in
            elim frozen [
              | none ↦ record e { balances = b }
              | some _ ↦
                  replace_old direction old (record o { freeze = need }) (record e { balances = b })
            ])
        else replace_old direction old o e
      else e

  -- `on_PannerAsk` and `on_PannerBid`: `opening` and `closing` are the directions passed on.
  unfoldable pub on_panner : ℕ → ℕ → Order → Engine → Engine
  on_panner opening closing old e =
      if is_triggered old e.market.latest_price
      then (let (o, e') = copy_order old e in
          if o.oper_type == 1
          then open_triggered opening old o e'
          else close_triggered closing old o e')
      else e

  -- `on_tpslPlannerAsk` and `on_tpslPlannerBid`, by what the condition says.
  unfoldable pub on_tpsl_planner : ℕ → ℕ → Order → Engine → Engine
  on_tpsl_planner condition closing old e =
      if condition == 0
      then e
      else (let (o, e') = copy_order old e in
          let amount = if condition == 1 then o.tp_amount else o.sl_amount in
          close_triggered closing old (record o { amount = amount; left = amount }) e')

  abbrev pub plan_ask : Order → Engine → Engine
  plan_ask old e =
      if old.type == plan_type
      then on_panner bear bull old e
      else on_tpsl_planner (check_condition_ask old e.market.latest_price) bull old e

  abbrev pub plan_bid : Order → Engine → Engine
  plan_bid old e =
      if old.type == plan_type
      then on_panner bull bear old e
      else on_tpsl_planner (check_condition_bid old e.market.latest_price) bear old e

  -- The selling orders wait in `plan_asks`, the others in `plan_bids`.
  abbrev pub plan_side : Bool → Order → Engine → Engine
  plan_side true = plan_ask
  plan_side false = plan_bid

  abbrev pub for_each : (Order → Engine → Engine) → List Order → Engine → Engine
  for_each f [] e = e
  for_each f (o ∷ l) e = for_each f l (f o e)

  -- One round of the loop of `on_planner`, for one market. Each loop runs over the orders that the
  -- plan book holds when it starts.
  unfoldable pub on_planner : Engine → Engine
  on_planner e =
      let e' = for_each (plan_side true) (book plan_asks e.market) e in
      for_each (plan_side false) (book plan_bids e'.market) e'
