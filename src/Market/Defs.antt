-- ===== src/Market/Defs.antt =====
-- The data of the futures engine: orders, positions and markets (matchengine/inc/me_market.h,
-- me_position.h and me_deal.h), and the global state that one call works on.
-- Times, the text of `source` and the fields that hold asset and market names only for display
-- are left out; names are numbers. An order that is put in a book is owned by that book: `orders`,
-- `users` and `user_orders` hold ids in place of pointers to it.
use viabtc_future.Prelude.{ℕ, Bool, Option, List, ◌||◌, ◌&&◌, ◌==◌}
use viabtc_future.Prelude.Int.{ℤ}
use viabtc_future.Dict.{Dict}
use viabtc_future.Balance.{Balances}

-- `MARKET_ORDER_TYPE_MARKET`, `_LIMIT` and `_PLAN`. A take-profit and stop-loss order has type 3.
abbrev pub market_type : ℕ
market_type = 0

abbrev pub limit_type : ℕ
limit_type = 1

abbrev pub plan_type : ℕ
plan_type = 2

-- The sides of me_args.h.
abbrev pub bear : ℕ
bear = 1

abbrev pub bull : ℕ
bull = 2

pub record Order : Type 0 where
  pub id : ℕ
  pub type : ℕ
  pub isblast : Bool
  pub side : ℕ
  pub pattern : ℕ
  pub oper_type : ℕ
  pub user_id : ℕ
  pub market : ℕ
  pub relate_order : ℕ
  pub price : ℤ
  pub amount : ℤ
  pub leverage : ℤ
  pub trigger : ℤ
  pub current_price : ℤ
  pub taker_fee : ℤ
  pub maker_fee : ℤ
  pub tp_price : ℤ
  pub tp_amount : ℤ
  pub sl_price : ℤ
  pub sl_amount : ℤ
  pub left : ℤ
  pub freeze : ℤ
  pub deal_stock : ℤ
  pub deal_money : ℤ
  pub pnl : ℤ
  pub deal_fee : ℤ
  pub mm : ℕ

pub record Position : Type 0 where
  pub id : ℕ
  pub user_id : ℕ
  pub market : ℕ
  pub side : ℕ
  pub pattern : ℕ
  pub leverage : ℤ
  pub position : ℤ
  pub frozen : ℤ
  pub price : ℤ
  pub principal : ℤ

pub record PositionKey : Type 0 where
  pub user_id : ℕ
  pub market : ℕ
  pub side : ℕ

pub record PositionMode : Type 0 where
  pub user_id : ℕ
  pub pattern : ℕ
  pub leverage : ℤ

pub record PositionModeKey : Type 0 where
  pub user_id : ℕ
  pub market : ℕ

-- `market_t`. The four books are skip lists of orders.
pub record Market : Type 0 where
  pub name : ℕ
  pub stock : ℕ
  pub money : ℕ
  pub stock_prec : ℤ
  pub money_prec : ℤ
  pub fee_prec : ℤ
  pub min_amount : ℤ
  pub latest_price : ℤ
  pub orders : List ℕ
  pub users : Dict ℕ (List ℕ)
  pub asks : List Order
  pub bids : List Order
  pub plan_asks : List Order
  pub plan_bids : List Order

pub data OrderEvent : Type 0 where
  put update finish : OrderEvent

-- What is pushed to the message queue or appended to the history, in the order of the calls.
pub data Event : Type 0 where
  order_message : OrderEvent → Order → Event
  -- Seller's and buyer's order, price, amount, taker's and maker's fee, deal id.
  deal_message : Order → Order → ℤ → ℤ → ℤ → ℤ → ℕ → Event
  -- The same, with the sum of money and the two profits, where there are any.
  deal_history : Order → Order → ℤ → ℤ → ℤ → ℤ → ℤ → Option ℤ → Option ℤ → ℕ → Event
  order_history : Order → Event
  -- User, asset, change.
  balance_history : ℕ → ℕ → ℤ → Event
  position_message : Position → Event

-- The globals of the engine, with the market that the call works on. `configured` are the names
-- of `settings.markets`, and `other_price` gives `latestPrice` of the markets that stand still.
pub record Engine : Type 0 where
  pub balances : Balances
  pub positions : Dict PositionKey Position
  pub modes : Dict PositionModeKey PositionMode
  pub user_orders : Dict ℕ (List ℕ)
  pub market : Market
  pub configured : List ℕ
  pub other_price : ℕ → ℤ
  pub order_id_start : ℕ
  pub deals_id_start : ℕ
  pub position_id_start : ℕ
  pub events : List Event

-- The test that stands in `order_match_compare`, `order_put_future`, `order_finish_future` and
-- `execute_order_open_imp`: opening a short or closing a long sells.
unfoldable pub sells : Order → Bool
sells o = (o.side == 1 && o.oper_type == 1) || (o.side == 2 && o.oper_type == 2)
