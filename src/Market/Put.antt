-- ===== src/Market/Put.antt =====
-- Putting an order: `check_position_order_mode`, `initOrder`, `market_put_order_open` and
-- `market_put_order_close` of matchengine/src/me_market.c, over the struct of
-- matchengine/inc/me_args.h. The numbers of a request are never NULL: `initOpenArgs` and
-- `initCloseArgs` refuse a request where one is.
pub mod Refused
pub mod Sound
pub mod Modes
pub mod Released
use viabtc_future.Prelude.{
  ℕ, ◌+◌, ◌%◌, ◌^◌, Bool, true, false, not, ◌&&◌, ◌||◌, Option, none, some, List, [], ◌∷◌,
  if◌then◌else◌, ◌==◌, is_some,
}
use viabtc_future.Prelude.Int.{ℤ, pos, ltb_ℤ, leb_ℤ}
use viabtc_future.Decimal.{Decimal}
use viabtc_future.Decimal
use viabtc_future.Dict
use viabtc_future.Dict.{nat_eq}
use viabtc_future.Balance.{Balances, key_eq, available_type, balance_get, balance_freeze}
use viabtc_future.Market.Defs.{
  Order, Position, PositionMode, Market, Engine, OrderEvent, order_message, bear, bull,
}
use viabtc_future.Market.Book.{emit, order_put_future}
use viabtc_future.Market.Pnl.{
  get_position, write_position, get_position_mode, add_position_mode, mode_key, mode_key_eq,
  position_key_eq, check_pri_and_fee,
}
use viabtc_future.Market.Match.{execute_order}

-- `args_t` without the fields that only carry results, and without `market`, which is the
-- engine's.
pub record Args : Type 0 where
  pub user_id : ℕ
  pub direction : ℕ
  pub type : ℕ
  pub pattern : ℕ
  pub trigger_price : ℤ
  pub entrust_price : ℤ
  pub leverage : ℤ
  pub volume : ℤ
  pub taker_fee_rate : ℤ
  pub maker_fee_rate : ℤ
  pub real : Bool
  pub tp_price : ℤ
  pub tp_amount : ℤ
  pub sl_price : ℤ
  pub sl_amount : ℤ

-- 0, a negative number -n, or a read through a NULL pointer.
pub data Reply : Type 0 where
  done : Reply
  refused : ℕ → Reply
  crashed : Reply

-- `check_position_order_mode`: `true` for 0.
abbrev pub check_position_order_mode : ℕ → Engine → Bool
check_position_order_mode user e =
    let no_order : Bool = elim (Dict.find user e.market.users) [
      | none ↦ true
      | some [] ↦ true
      | some (_ ∷ _) ↦ false
    ] in
    no_order
    && not (is_some (get_position user e.market.name bull e))
    && not (is_some (get_position user e.market.name bear e))

-- Writes through the pointer that `get_position_mode` returned.
abbrev pub write_mode : ℕ → ℕ → PositionMode → Engine → Engine
write_mode user market mode e = record e { modes = Dict.assign (mode_key user market) mode e.modes }

-- `initOrder` with the `oper_type` that the caller sets next. Ids are 64 bits wide.
abbrev pub init_order : ℕ → Args → Engine → Order × Engine
init_order oper_type a e =
    let id = (e.order_id_start + 1) % 2 ^ 64 in
    (
      record {
        id = id;
        type = a.type;
        isblast = false;
        side = a.direction;
        pattern = a.pattern;
        oper_type = oper_type;
        user_id = a.user_id;
        market = e.market.name;
        relate_order = 0;
        price = a.entrust_price;
        amount = a.volume;
        leverage = a.leverage;
        trigger = a.trigger_price;
        current_price = e.market.latest_price;
        taker_fee = a.taker_fee_rate;
        maker_fee = a.maker_fee_rate;
        tp_price = a.tp_price;
        tp_amount = a.tp_amount;
        sl_price = a.sl_price;
        sl_amount = a.sl_amount;
        left = a.volume;
        freeze = pos 0;
        deal_stock = pos 0;
        deal_money = pos 0;
        pnl = pos 0;
        deal_fee = pos 0;
        mm = 0;
      },
      record e { order_id_start = id },
    )

-- The position whose leverage an opening order takes over.
abbrev pub held_position : ℕ → Engine → Option Position
held_position user e = elim (get_position user e.market.name bull e) [
  | some p ↦ some p
  | none ↦ get_position user e.market.name bear e
]

-- The mode of a user without a position: made, changed, or left.
abbrev pub settle_mode : Args → Engine → Engine
settle_mode a e = elim (get_position_mode a.user_id e.market.name e) [
  | none ↦ add_position_mode a.user_id e.market.name a.pattern a.leverage e
  | some mode ↦
      if check_position_order_mode a.user_id e
      then write_mode a.user_id e.market.name
          (record mode { pattern = a.pattern; leverage = a.leverage }) e
      else e
]

module _ (d : Decimal) where
  -- The order is matched at once, or waits for its trigger.
  abbrev pub route : Args → Order → Engine → Engine
  route a o e =
      if a.type == 1 || a.type == 0
      then execute_order d a.real a.direction o e
      else (order_put_future o (emit a.real (order_message OrderEvent.put o) e)).1

  -- The end of `market_put_order_open`, once the checks are passed: `pri` is the margin.
  abbrev pub open_order : Args → ℤ → Engine → Reply × Engine
  open_order a pri e =
      let (o, e') = init_order 1 a e in
      if a.type == 1
      then (let (frozen, b) = balance_freeze d o.user_id e'.market.money pri e'.balances in
          let e'' = record e' { balances = b } in
          elim frozen [
            | none ↦ (Reply.refused 2294, e'')
            | some _ ↦ (Reply.done, route a (record o { freeze = pri }) e'')
          ])
      else (Reply.done, route a o e')

  -- The tests behind the choice of the mode.
  abbrev pub check_open : Args → ℤ → ℤ → Option PositionMode → Engine → Reply × Engine
  check_open a balance pri none e = (Reply.crashed, e)
  check_open a balance pri (some mode) e =
      if mode.pattern == a.pattern
      then if check_pri_and_fee d a.pattern a.user_id (some balance) pri e
        then open_order a pri e
        else (Reply.refused 1, e)
      else (Reply.refused 1, e)

  -- The margin by the position's leverage, or else by the mode's.
  abbrev pub margin_open : Args → ℤ → Option Position → Engine → Reply × Engine
  margin_open a balance (some p) e =
      check_open (record a { leverage = p.leverage }) balance (d.div a.volume p.leverage)
        (get_position_mode a.user_id e.market.name e) e
  margin_open a balance none e =
      let e' = settle_mode a e in
      elim (get_position_mode a.user_id e'.market.name e') [
        | none ↦ (Reply.crashed, e')
        | some mode ↦ check_open a balance (d.div a.volume mode.leverage) (some mode) e'
      ]

  abbrev pub volume_error : Args → Bool
  volume_error a = ltb_ℤ a.volume d.one || not (d.is_integer a.volume)

  -- `market_put_order_open`.
  unfoldable pub market_put_order_open : Args → Engine → Reply × Engine
  market_put_order_open a e =
      elim (balance_get a.user_id available_type e.market.money e.balances) [
        | none ↦ (Reply.refused 1, e)
        | some balance ↦
            if leb_ℤ balance (pos 0)
            then (Reply.refused 1, e)
            else if volume_error a
            then (Reply.refused 1, e)
            else margin_open a balance (held_position a.user_id e) e
      ]

  -- The checks of `market_put_order_close` on the request alone.
  abbrev pub positive : ℤ → Bool
  positive x = ltb_ℤ (pos 0) x

  abbrev pub close_error : Args → ℤ → Option ℕ
  close_error a latest =
      if not (a.type == 3)
      then if volume_error a then some 3 else none
      else if positive a.tp_price && leb_ℤ a.tp_amount (pos 0)
      then some 4
      else if positive a.sl_price && leb_ℤ a.sl_amount (pos 0)
      then some 5
      else if a.direction == bull
      then if positive a.tp_price && ltb_ℤ a.tp_price latest
        then some 4
        else if positive a.sl_price && ltb_ℤ latest a.sl_price
        then some 5
        else none
      else if positive a.tp_price && ltb_ℤ latest a.tp_price
      then some 4
      else if positive a.sl_price && ltb_ℤ a.sl_price latest
      then some 5
      else none

  -- What a limit or market order closes is frozen in the position first.
  abbrev pub freeze_position : Args → Position → Engine → Engine
  freeze_position a p e =
      if a.type == 1 || a.type == 0
      then write_position a.user_id e.market.name a.direction
          (record p {
            frozen = Decimal.add d p.frozen a.volume;
            position = Decimal.sub d p.position a.volume;
          })
          e
      else e

  -- `market_put_order_close`.
  unfoldable pub market_put_order_close : Args → Engine → Reply × Engine
  market_put_order_close a e = elim (close_error a e.market.latest_price) [
    | some code ↦ (Reply.refused code, e)
    | none ↦ elim (get_position a.user_id e.market.name a.direction e) [
      | none ↦ (Reply.refused 4, e)
      | some p ↦
          if not (a.type == 3) && ltb_ℤ p.position a.volume
          then (Reply.refused 5, e)
          else let a' = record a { leverage = p.leverage } in
            let (o, e') = init_order 2 a' (freeze_position a p e) in (Reply.done, route a' o e')
    ]
  ]

  -- The choice by `bOpen` in `market_put_order_common`.
  abbrev pub put_order : Bool → Args → Engine → Reply × Engine
  put_order true = market_put_order_open
  put_order false = market_put_order_close
