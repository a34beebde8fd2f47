-- ===== src/Market/Match.antt =====
-- Matching and cancelling: `execute_order` and `market_cancel_order` of
-- matchengine/src/me_market.c. The loop runs over the orders that the book holds when it starts:
-- the code keeps the next node before it unlinks the current one, and changes no order of the book
-- before its turn.
pub mod Loop
pub mod Rounds
pub mod Exhausts
pub mod Uncrossed
pub mod Books
pub mod Kept
pub mod Preserved
pub mod Closing
use viabtc_future.Prelude.{
  ℕ, Bool, true, false, ◌&&◌, Option, none, some, List, [], ◌∷◌, map, if◌then◌else◌, ◌==◌,
}
use viabtc_future.Prelude.Int.{ℤ, pos, ltb_ℤ, leb_ℤ, eqb_ℤ}
use viabtc_future.Decimal.{Decimal}
use viabtc_future.Decimal
use viabtc_future.Balance.{Balances, balance_unfreeze}
use viabtc_future.Market.Defs.{
  Order, Position, Market, Engine, OrderEvent, order_message, limit_type, market_type,
}
use viabtc_future.Market.Book.{
  Side, asks, bids, book, set_book, same_order, emit, order_put_future, order_finish_future,
}
use viabtc_future.Market.Pnl.{get_position, write_position}
use viabtc_future.Market.Deal.{Terms, execute_order_open_imp, with_balances}

-- What the price tests of the loop decide: `continue`, `break`, or a deal at a price.
pub data Decision : Type 0 where
  pass stop : Decision
  deal_at : ℤ → Decision

-- A seller takes from the bids, a buyer from the asks.
abbrev pub sells_now : ℕ → ℕ → Bool
sells_now oper_type direction = if oper_type == 1 then direction == 1 else direction == 2

abbrev pub matched_side : Bool → Side
matched_side true = bids
matched_side false = asks

-- A price that the code leaves as `initDeal` made it is 0 here. Books hold limit orders alone, and
-- a taker is of type 0 or 1, so this does not arise.
unfoldable pub decide : Bool → Order → Order → Decision
decide sell taker maker =
    if taker.type == 0
    then if maker.type == 0
      then pass
      else if maker.type == 1
      then deal_at maker.price
      else deal_at (pos 0)
    else if taker.type == 1
    then if maker.type == 0
      then deal_at taker.price
      else if maker.type == 1
      then if (if sell then leb_ℤ taker.price maker.price else leb_ℤ maker.price taker.price)
        then deal_at maker.price
        else stop
      else deal_at (pos 0)
    else deal_at (pos 0)

-- Writes through the pointer to an order of the book.
abbrev pub replace_order : Order → List Order → List Order
replace_order o [] = []
replace_order o (x ∷ l) = (if same_order x o then o else x) ∷ replace_order o l

abbrev pub is_finished : Order → Bool
is_finished o = eqb_ℤ o.left (pos 0)

abbrev pub event_of : Order → OrderEvent
event_of o = if is_finished o then OrderEvent.finish else OrderEvent.update

abbrev pub set_market : Market → Engine → Engine
set_market m e = record e { market = m }

module _ (d : Decimal) where
  -- The smaller of what the two orders have left.
  abbrev pub deal_amount : Order → Order → ℤ
  deal_amount taker maker = if ltb_ℤ taker.left maker.left then taker.left else maker.left

  abbrev pub terms : Bool → Order → Order → ℤ → Terms
  terms real taker maker price =
      let amount = deal_amount taker maker in
      record { real = real; amount = amount; price = price; deal = d.mul price amount }

  -- One round of the loop up to the clean-up of the maker.
  unfoldable pub trade : Bool → Bool → Order → Order → ℤ → Engine → Order × Engine
  trade real sell taker maker price e =
      let e₀ = set_market (record (e.market) { latest_price = price }) e in
      let (taker', maker', e₁) =
        execute_order_open_imp d (terms real taker maker price) taker maker e₀ in
      let e₂ = emit real (order_message (event_of taker') taker') e₁ in
      let e₃ = emit real (order_message (event_of maker') maker') e₂ in
      let side = matched_side sell in
      let e₄ =
        set_market (set_book side (replace_order maker' (book side e₃.market)) e₃.market) e₃ in
      (taker', if is_finished maker' then order_finish_future real maker' e₄ else e₄)

  -- The taker that is left over, if it is not used up.
  unfoldable pub match_loop : Bool → Bool → List Order → Order → Engine → Option Order × Engine
  match_loop real sell [] taker e = (some taker, e)
  match_loop real sell (maker ∷ rest) taker e = elim (is_finished taker) [
    | true ↦ (some taker, e)
    | false ↦ elim (decide sell taker maker) [
      | pass ↦ match_loop real sell rest taker e
      | stop ↦ (some taker, e)
      | deal_at price ↦
          let (taker', e') = trade real sell taker maker price e in
          elim (is_finished taker') [
            | true ↦ (none, order_finish_future real taker' e')
            | false ↦ match_loop real sell rest taker' e'
          ]
    ]
  ]

  -- The frozen part of a position, given back; a NULL position, which the code would
  -- dereference, changes nothing.
  abbrev pub release_position : Order → Engine → Engine
  release_position o e = elim (get_position o.user_id o.market o.side e) [
    | none ↦ e
    | some p ↦
        write_position o.user_id o.market o.side
          (record p {
            frozen = Decimal.sub d p.frozen o.left;
            position = Decimal.add d p.position o.left;
          })
          e
  ]

  -- The two halves of `market_cancel_order`.
  abbrev pub unfreeze_order : Order → Engine → Option ℤ × Balances
  unfreeze_order o e =
      if o.oper_type == 1 && ltb_ℤ (pos 0) o.freeze
      then balance_unfreeze d o.user_id e.market.money o.freeze e.balances
      else (some (pos 0), e.balances)

  abbrev pub finish_cancel : Bool → Order → Option ℤ → Engine → Bool × Engine
  finish_cancel real o none e = (false, e)
  finish_cancel real o (some _) e = (
    true,
    order_finish_future real o
        (if o.oper_type == 2 && ltb_ℤ (pos 0) o.left then release_position o e else e),
  )

  -- `market_cancel_order`: `false` for a negative line number.
  unfoldable pub market_cancel_order : Bool → Order → Engine → Bool × Engine
  market_cancel_order real o e =
      let e₁ = emit real (order_message OrderEvent.finish o) e in
      let (unfrozen, balances) = unfreeze_order o e₁ in
      finish_cancel real o unfrozen (record e₁ { balances = balances })

  -- What `execute_order` does with the taker behind the loop.
  unfoldable pub settle_taker : Bool → Option Order → Engine → Engine
  settle_taker real none e = e
  settle_taker real (some taker) e =
      if taker.type == limit_type
      then (order_put_future taker (emit real (order_message OrderEvent.put taker) e)).1
      else if taker.type == market_type
      then (market_cancel_order real taker e).1
      else e

  -- `execute_order`, which always returns 0.
  unfoldable pub execute_order : Bool → ℕ → Order → Engine → Engine
  execute_order real direction taker e =
      let sell = sells_now taker.oper_type direction in
      let (left_over, e') = match_loop real sell (book (matched_side sell) e.market) taker e in
      settle_taker real left_over e'
