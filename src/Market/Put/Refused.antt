-- ===== src/Market/Put/Refused.antt =====
-- What `market_put_order_open` and `market_put_order_close` of matchengine/src/me_market.c leave
-- alone when they refuse.
use viabtc_future.Prelude.{
  ℕ, ◌≡◌, ◌≢◌, ◌⊎◌, ap, ◌∷◌, refl, ◌∙◌, Option, none, some, Option-cases, inl, inr, arith,
}
use viabtc_future.Prelude.{Bool, true, false, Bool-cases, sym}
use mathlib.Core.Path.{subst}
use viabtc_future.Prelude.Int.{ℤ}
use viabtc_future.Decimal.{Decimal}
use viabtc_future.Dict.{Dict, nat_eq}
use viabtc_future.Dict
use viabtc_future.Dict.Laws.{find-assign}
use viabtc_future.Balance.{key_eq, available_type, balance_get, balance_freeze}
use viabtc_future.Balance.Moves.{balance_freeze_refused}
use viabtc_future.Market.Defs.{Engine, Market, PositionMode, PositionModeKey, Position}
use viabtc_future.Market.Pnl.{
  mode_key_eq, mode_key, mode_key_beq, mode_key_beq_iff, position_key_eq, get_position_mode,
  get_position,
}
use viabtc_future.Market.Put.{
  Args, Reply, check_position_order_mode, market_put_order_open, market_put_order_close, put_order,
  held_position, settle_mode, open_order, check_open, margin_open, close_error, init_order,
}

-- All but the position modes and the counter of order ids is as it was, and of the modes all but the
-- user's in the market.
pub record Untouched (user : ℕ) (e e' : Engine) : Type 0 where
  pub balances : e'.balances ≡ e.balances
  pub positions : e'.positions ≡ e.positions
  pub user_orders : e'.user_orders ≡ e.user_orders
  pub market : e'.market ≡ e.market
  pub events : e'.events ≡ e.events
  pub configured : e'.configured ≡ e.configured
  pub other_price : e'.other_price ≡ e.other_price
  pub deals_id_start : e'.deals_id_start ≡ e.deals_id_start
  pub position_id_start : e'.position_id_start ≡ e.position_id_start
  pub modes :
      (k : PositionModeKey)
      → (k ≡ mode_key user e.market.name) ⊎ (Dict.find k e'.modes ≡ Dict.find k e.modes)

pub Untouched-refl : (user : ℕ) (e : Engine) → Untouched user e e
Untouched-refl user e = record {
  balances = refl;
  positions = refl;
  user_orders = refl;
  market = refl;
  events = refl;
  configured = refl;
  other_price = refl;
  deals_id_start = refl;
  position_id_start = refl;
  modes = λ k. inr refl;
}

Untouched-trans :
    {user : ℕ} {a b c : Engine} → Untouched user a b → Untouched user b c → Untouched user a c
Untouched-trans {user = user} h k = record {
  balances = k.balances ∙ h.balances;
  positions = k.positions ∙ h.positions;
  user_orders = k.user_orders ∙ h.user_orders;
  market = k.market ∙ h.market;
  events = k.events ∙ h.events;
  configured = k.configured ∙ h.configured;
  other_price = k.other_price ∙ h.other_price;
  deals_id_start = k.deals_id_start ∙ h.deals_id_start;
  position_id_start = k.position_id_start ∙ h.position_id_start;
  modes = λ i. elim (k.modes i) [
    | inl own ↦ inl (own ∙ ap (λ (m : Market). mode_key user m.name) h.market)
    | inr kept ↦ elim (h.modes i) [ inl own ↦ inl own | inr kept' ↦ inr (kept ∙ kept') ]
  ];
}

-- What differs in the modes alone, and there in the user's alone.
modes-Untouched :
    (user : ℕ) (e : Engine) (modes : Dict PositionModeKey PositionMode)
    → ((k : PositionModeKey)
        → (k ≡ mode_key user e.market.name) ⊎ (Dict.find k modes ≡ Dict.find k e.modes))
    → Untouched user e (record e { modes = modes })
modes-Untouched user e modes h = record {
  balances = refl;
  positions = refl;
  user_orders = refl;
  market = refl;
  events = refl;
  configured = refl;
  other_price = refl;
  deals_id_start = refl;
  position_id_start = refl;
  modes = h;
}

-- A write to one key.
elsewhere_same :
    (j k : PositionModeKey) (mode : PositionMode) (modes : Dict PositionModeKey PositionMode)
    → ((k ≡ j) ⊎ (Dict.find k ((j, mode) ∷ modes) ≡ Dict.find k modes))
      × ((k ≡ j) ⊎ (Dict.find k (Dict.assign j mode modes) ≡ Dict.find k modes))
elsewhere_same j k mode modes = elim (Bool-cases (mode_key_beq j k)) [
  | inl same ↦ let own : k ≡ j = sym ((mode_key_beq_iff j k).0 same) in (inl own, inl own)
  | inr other ↦
      (inr (ground (arith, other)), inr (ground (arith, other, find-assign k j mode modes)))
]

pub settle_mode-Untouched : (a : Args) (e : Engine) → Untouched a.user_id e (settle_mode a e)
settle_mode-Untouched a e =
    let key = mode_key a.user_id e.market.name in
    let made : PositionMode = record {
      user_id = a.user_id;
      pattern = a.pattern;
      leverage = a.leverage;
    } in
    elim (Option-cases (get_position_mode a.user_id e.market.name e)) [
      | inl absent ↦
          let modes = (key, made) ∷ e.modes in
          let added : settle_mode a e ≡ record e { modes = modes } = ground (arith, absent) in
          subst (Untouched a.user_id e) (sym added)
            (modes-Untouched a.user_id e modes λ k. (elsewhere_same key k made e.modes).0)
      | inr (mode, present) ↦
          let changed = record mode { pattern = a.pattern; leverage = a.leverage } in
          let modes = Dict.assign key changed e.modes in
          elim (Bool-cases (check_position_order_mode a.user_id e)) [
            | inl free ↦
                let written : settle_mode a e ≡ record e { modes = modes } =
                  ground (arith, present, free) in
                subst (Untouched a.user_id e) (sym written)
                  (modes-Untouched a.user_id e modes λ k. (elsewhere_same key k changed e.modes).1)
            | inr bound ↦
                let kept : settle_mode a e ≡ e = ground (arith, present, bound) in
                subst (Untouched a.user_id e) (sym kept) (Untouched-refl a.user_id e)
          ]
    ]

module _ (d : Decimal) where
  open_order_refused :
      (a : Args) (pri : ℤ) (e : Engine)
      → (open_order d a pri e).0 ≢ Reply.done
      → Untouched a.user_id e (open_order d a pri e).1
  open_order_refused a pri e h =
      let e' = (init_order 1 a e).1 in
      let kept = balance_freeze_refused d a.user_id e.market.money pri e.balances in
      elim (Option-cases (balance_freeze d a.user_id e.market.money pri e.balances).0) [
        | inl bad ↦ ground (arith, kept)
        | inr (c, ok) ↦ ground arith
      ]

  check_open_refused :
      (a : Args) (balance pri : ℤ) (mode : Option PositionMode) (e : Engine)
      → (check_open d a balance pri mode e).0 ≢ Reply.done
      → Untouched a.user_id e (check_open d a balance pri mode e).1
  check_open_refused a balance pri none e h = Untouched-refl a.user_id e
  check_open_refused a balance pri (some mode) e h =
      ground (arith, open_order_refused a pri e, Untouched-refl a.user_id e)

  margin_open_refused :
      (a : Args) (balance : ℤ) (p : Option Position) (e : Engine)
      → (margin_open d a balance p e).0 ≢ Reply.done
      → Untouched a.user_id e (margin_open d a balance p e).1
  margin_open_refused a balance (some p) e h =
      check_open_refused (record a { leverage = p.leverage }) balance (d.div a.volume p.leverage)
        (get_position_mode a.user_id e.market.name e) e h
  margin_open_refused a balance none e h =
      let e' = settle_mode a e in
      elim (Option-cases (get_position_mode a.user_id e'.market.name e')) [
        | inl absent ↦ ground (arith, settle_mode-Untouched a e)
        | inr (mode, present) ↦ Untouched-trans (settle_mode-Untouched a e) (
            ground
              (arith, check_open_refused a balance (d.div a.volume mode.leverage) (some mode) e'))
      ]

-- An opening or closing order that is not accepted, for whatever reason, leaves every balance,
-- every position, the market with its books and indexes, and the messages as they were; only the
-- user's position mode in this market and the counter of order ids may have changed.
pub put_order_refused :
    (d : Decimal) (opening : Bool) (a : Args) (e : Engine)
    → (put_order d opening a e).0 ≢ Reply.done
    → Untouched a.user_id e (put_order d opening a e).1
unfolding market_put_order_open market_put_order_close
put_order_refused d true a e h =
    elim (Option-cases (balance_get a.user_id available_type e.market.money e.balances)) [
      | inl absent ↦ ground (arith, Untouched-refl a.user_id e)
      | inr (balance, present) ↦ ground (
        arith,
        Untouched-refl a.user_id e,
        margin_open_refused d a balance (held_position a.user_id e) e,
      )
    ]
put_order_refused d false a e h = elim (Option-cases (close_error d a e.market.latest_price)) [
  | inl fine ↦ elim (Option-cases (get_position a.user_id e.market.name a.direction e)) [
    | inl absent ↦ ground (arith, Untouched-refl a.user_id e)
    | inr (p, present) ↦ ground (arith, Untouched-refl a.user_id e)
  ]
  | inr (code, bad) ↦ ground (arith, Untouched-refl a.user_id e)
]
