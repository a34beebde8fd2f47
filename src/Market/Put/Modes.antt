-- ===== src/Market/Put/Modes.antt =====
-- When `market_put_order_open` of matchengine/src/me_market.c reads through a NULL position mode.
use viabtc_future.Prelude.{
  Bool, true, false, ◌≡◌, refl, Option, none, some, Option-cases, inl, inr, arith, is_some, not,
  ◌&&◌,
}
use viabtc_future.Prelude.Int.{ℤ, leb_ℤ, pos}
use viabtc_future.Decimal.{Decimal}
use viabtc_future.Dict.{nat_eq}
use viabtc_future.Dict.Laws.{find-assign}
use viabtc_future.Balance.{key_eq, available_type, balance_get, balance_freeze}
use viabtc_future.Market.Defs.{Engine, Position, PositionMode}
use viabtc_future.Market.Pnl.{mode_key_eq, position_key_eq, get_position_mode, mode_key}
use viabtc_future.Prelude.{ap}
use viabtc_future.Market.Defs.{Market}
use viabtc_future.Market.Put.Refused.{settle_mode-Untouched}
use viabtc_future.Market.Put.{
  Args, Reply, market_put_order_open, held_position, settle_mode, open_order, check_open,
  margin_open, volume_error,
}

-- After the choice of the mode there is one.
settle_mode-found :
    (a : Args) (e : Engine)
    → is_some (get_position_mode a.user_id e.market.name (settle_mode a e)) ≡ true
settle_mode-found a e = elim (Option-cases (get_position_mode a.user_id e.market.name e)) [
  | inl absent ↦ ground arith
  | inr (mode, present) ↦
      let k = mode_key a.user_id e.market.name in
      ground (
        arith,
        find-assign k k (record mode { pattern = a.pattern; leverage = a.leverage }) e.modes,
      )
]

abbrev pub has_crashed : Reply → Bool
has_crashed Reply.crashed = true
has_crashed _ = false

-- There is an available balance, and it is positive.
abbrev pub in_money : Args → Engine → Bool
in_money a e = elim (balance_get a.user_id available_type e.market.money e.balances) [
  | none ↦ false
  | some balance ↦ not (leb_ℤ balance (pos 0))
]

module _ (d : Decimal) where
  open_order-safe : (a : Args) (pri : ℤ) (e : Engine) → has_crashed (open_order d a pri e).0 ≡ false
  open_order-safe a pri e =
      elim (Option-cases (balance_freeze d a.user_id e.market.money pri e.balances).0) [
        | inl bad ↦ ground arith
        | inr (c, ok) ↦ ground arith
      ]

  check_open-crashes :
      (a : Args) (balance pri : ℤ) (mode : Option PositionMode) (e : Engine)
      → has_crashed (check_open d a balance pri mode e).0 ≡ not (is_some mode)
  check_open-crashes a balance pri none e = refl
  check_open-crashes a balance pri (some mode) e = ground (arith, open_order-safe a pri e)

  margin_open-crashes :
      (a : Args) (balance : ℤ) (p : Option Position) (e : Engine)
      → has_crashed (margin_open d a balance p e).0
        ≡ (is_some p && not (is_some (get_position_mode a.user_id e.market.name e)))
  margin_open-crashes a balance (some p) e =
      check_open-crashes (record a { leverage = p.leverage }) balance (d.div a.volume p.leverage)
        (get_position_mode a.user_id e.market.name e) e
  margin_open-crashes a balance none e =
      let e' = settle_mode a e in
      let name : e'.market.name ≡ e.market.name =
        ap (λ (m : Market). m.name) (settle_mode-Untouched a e).market in
      elim (Option-cases (get_position_mode a.user_id e'.market.name e')) [
        | inl absent ↦ absurd (ground (arith, settle_mode-found a e, name))
        | inr (mode, present) ↦
            ground
              (arith, check_open-crashes a balance (d.div a.volume mode.leverage) (some mode) e')
      ]

-- `market_put_order_open` reads through a NULL position mode exactly when the available balance is
-- positive, the volume is accepted, and the user has a position in the market but no mode.
pub put_open_crashes :
    (d : Decimal) (a : Args) (e : Engine)
    → has_crashed (market_put_order_open d a e).0 ≡ (
        in_money a e
        && not (volume_error d a)
        && is_some (held_position a.user_id e)
        && not (is_some (get_position_mode a.user_id e.market.name e)))
unfolding market_put_order_open
put_open_crashes d a e =
    elim (Option-cases (balance_get a.user_id available_type e.market.money e.balances)) [
      | inl absent ↦ ground arith
      | inr (balance, present) ↦
          ground (arith, margin_open-crashes d a balance (held_position a.user_id e) e)
    ]
