-- ===== src/Market/Put/Sound.antt =====
-- Sound markets under `market_put_order_open` and `market_put_order_close` of
-- matchengine/src/me_market.c.
use viabtc_future.Prelude.{
  ◌+◌, ◌%◌, ◌^◌, ◌≡◌, ◌≢◌, refl, ◌∙◌, false, ◌||◌, Option, none, some, [], ◌∷◌, Option-cases,
  Bool-cases, inl, inr, ◌⊎◌, arith, ◌==◌,
}
use viabtc_future.Prelude.Int.{ℤ, pos, ◌<ℤ◌}
use viabtc_future.Decimal.{Decimal, RoundsDown}
use viabtc_future.Dict.{nat_eq}
use viabtc_future.Balance.{key_eq, available_type, balance_get, balance_freeze}
use viabtc_future.Market.Defs.{
  Order, Engine, OrderEvent, order_message, PositionMode, Position, sells, limit_type,
}
use viabtc_future.Market.Book.{
  mem, order_put_future, put_orders, put_users, put_user_orders, put_book, emit,
}
use viabtc_future.Market.Book.Index.{
  Keeps, step_rule, put_orders-Keeps, put_users-Keeps, put_user_orders-Keeps, put_book-Keeps,
}
use viabtc_future.Market.Match.{execute_order, is_finished, sells_now}
use viabtc_future.Market.Match.Rounds.{IsTaker, emit-market}
use mathlib.Core.Path.{subst, sym}
use viabtc_future.Market.Defs.{Market}
use viabtc_future.Prelude.{Bool, true}
use viabtc_future.Market.Book.Index.{order_put_future-IsMarket}
use viabtc_future.Market.Put.{put_order}
use viabtc_future.Market.Match.Preserved.{IsWellFormed, execute_order-IsWellFormed}
use viabtc_future.Market.Match.Uncrossed.{Uncrossed, execute_order-Uncrossed}
use viabtc_future.Market.Pnl.{mode_key_eq, position_key_eq, get_position_mode, get_position}
use viabtc_future.Market.Put.{
  Args, market_put_order_open, market_put_order_close, held_position, settle_mode, open_order,
  check_open, margin_open, volume_error, close_error, init_order, route, freeze_position,
}
use viabtc_future.Market.Put.Refused.{settle_mode-Untouched}

Keeps-trans : {a b c : Engine} → Keeps a b → Keeps b c → Keeps a c
Keeps-trans h k = record { asks = k.asks ∙ h.asks; bids = k.bids ∙ h.bids }

Keeps-refl : (e : Engine) → Keeps e e
Keeps-refl e = record { asks = refl; bids = refl }

-- An order that waits for its trigger is put in neither of the live books.
plan_book-Keeps :
    (o : Order) (e e' : Engine) → o.type ≢ limit_type → put_book o e ≡ some e' → Keeps e e'
plan_book-Keeps o e e' ne h = let (l', ok, after) = put_book-Keeps o e e' h in ground arith

plan-Keeps : (o : Order) (e : Engine) → o.type ≢ limit_type → Keeps e (order_put_future o e).1
unfolding order_put_future
plan-Keeps o e ne =
    step_rule (Keeps e) (put_orders o e) (put_users o ∷ put_user_orders o ∷ put_book o ∷ []) e
      (Keeps-refl e)
      λ e₁ h₁.
        let k₁ = put_orders-Keeps o e e₁ h₁ in
        step_rule (Keeps e) (put_users o e₁) (put_user_orders o ∷ put_book o ∷ []) e₁ k₁ λ e₂ h₂.
          let k₂ = Keeps-trans k₁ (put_users-Keeps o e₁ e₂ h₂) in
          step_rule (Keeps e) (put_user_orders o e₂) (put_book o ∷ []) e₂ k₂ λ e₃ h₃.
            let k₃ = Keeps-trans k₂ (put_user_orders-Keeps o e₂ e₃ h₃) in
            step_rule (Keeps e) (put_book o e₃) [] e₃ k₃
              λ e₄ h₄. Keeps-trans k₃ (plan_book-Keeps o e₃ e₄ ne h₄)

-- A market whose books are in order and do not cross.
pub record IsSound (m : Market) : Type 0 where
  pub well_formed : IsWellFormed m
  pub uncrossed : Uncrossed m

-- A waiting order goes into a plan book.
plan-IsSound :
    (o : Order) (e : Engine)
    → o.type ≢ limit_type
    → IsSound e.market
    → IsSound (order_put_future o e).1.market
plan-IsSound o e ne s =
    let k = plan-Keeps o e ne in
    record {
      well_formed = record {
        in_order = order_put_future-IsMarket o e s.well_formed.in_order;
        disjoint = rw (k.asks, k.bids) s.well_formed.disjoint;
      };
      uncrossed = rw (k.asks, k.bids) s.uncrossed;
    }

-- The direction that `execute_order` computes is that of the order.
sells_lem :
    (o : Order) → (o.oper_type ≡ 1) ⊎ (o.oper_type ≡ 2) → sells o ≡ sells_now o.oper_type o.side
unfolding sells
sells_lem o k = ground arith

module _ (d : Decimal) (down : RoundsDown d) (unit : pos 0 <ℤ d.one) where
  -- What the routing needs of the order that `initOrder` made.
  record Fits (a : Args) (o : Order) (e : Engine) : Type 0 where
    type : o.type ≡ a.type
    side : sells o ≡ sells_now o.oper_type a.direction
    new : mem o.id e.market.orders ≡ false
    left : o.left ≡ a.volume

  positive_volume :
      (a : Args) (o : Order) → volume_error d a ≡ false → o.left ≡ a.volume → is_finished o ≡ false
  positive_volume a o ok same = ground arith

  route-IsSound :
      (a : Args) (o : Order) (e : Engine)
      → Fits a o e
      → (a.type ≢ 3 → volume_error d a ≡ false)
      → IsSound e.market
      → IsSound (route d a o e).market
  route-IsSound a o e fits ok s = elim (Bool-cases (a.type == 1 || a.type == 0)) [
    | inl now_ ↦
        let kind : IsTaker o = ground (arith, fits.type) in
        let open_ = positive_volume a o (ok (λ h. ground arith)) fits.left in
        let same : route d a o e ≡ execute_order d a.real a.direction o e = ground arith in
        rw same (record {
          well_formed =
              execute_order-IsWellFormed d down a.real a.direction o e s.well_formed fits.new kind
                fits.side open_;
          uncrossed =
              execute_order-Uncrossed d down a.real a.direction o e s.well_formed.in_order
                s.uncrossed fits.new kind fits.side open_;
        })
    | inr later ↦
        let e' = emit a.real (order_message OrderEvent.put o) e in
        let quiet = emit-market a.real (order_message OrderEvent.put o) e in
        let same : route d a o e ≡ (order_put_future o e').1 = ground arith in
        rw same (plan-IsSound o e' (ground (arith, fits.type)) (subst IsSound (sym quiet) s))
  ]

  -- The books of an engine whose next order id no order has.
  record Ready (e : Engine) : Type 0 where
    sound : IsSound e.market
    new : mem ((e.order_id_start + 1) % 2 ^ 64) e.market.orders ≡ false

  Ready-same :
      (e e' : Engine)
      → e'.market ≡ e.market
      → e'.order_id_start ≡ e.order_id_start
      → Ready e
      → Ready e'
  Ready-same e e' m i r = record { sound = subst IsSound (sym m) r.sound; new = rw (m, i) r.new }

  open_order-IsSound :
      (a : Args) (pri : ℤ) (e : Engine)
      → Ready e
      → volume_error d a ≡ false
      → IsSound (open_order d a pri e).1.market
  open_order-IsSound a pri e r ok =
      let (o, e') = init_order 1 a e in
      let (x, b) = balance_freeze d o.user_id e'.market.money pri e'.balances in
      let e'' = record e' { balances = b } in
      let o' = record o { freeze = pri } in
      let fits : Fits a o e' = record {
        type = refl;
        side = sells_lem o (inl refl);
        new = r.new;
        left = refl;
      } in
      let fits' : Fits a o' e'' = record {
        type = refl;
        side = sells_lem o' (inl refl);
        new = r.new;
        left = refl;
      } in
      elim (Bool-cases (a.type == 1)) [
        | inl limit ↦ elim (Option-cases x) [
          | inl bad ↦ ground (arith, r.sound)
          | inr (c, frozen) ↦ ground (arith, route-IsSound a o' e'' fits' (λ h. ok) r.sound)
        ]
        | inr other ↦ ground (arith, route-IsSound a o e' fits (λ h. ok) r.sound)
      ]

  check_open-IsSound :
      (a : Args) (balance pri : ℤ) (mode : Option PositionMode) (e : Engine)
      → Ready e
      → volume_error d a ≡ false
      → IsSound (check_open d a balance pri mode e).1.market
  check_open-IsSound a balance pri none e r ok = r.sound
  check_open-IsSound a balance pri (some mode) e r ok =
      ground (arith, open_order-IsSound a pri e r ok, r.sound)

  settle_mode-Ready : (a : Args) (e : Engine) → Ready e → Ready (settle_mode a e)
  settle_mode-Ready a e r =
      Ready-same e (settle_mode a e) (settle_mode-Untouched a e).market
        (elim (Option-cases (get_position_mode a.user_id e.market.name e)) [
          | inl absent ↦ ground arith
          | inr (mode, present) ↦ ground arith
        ])
        r

  margin_open-IsSound :
      (a : Args) (balance : ℤ) (p : Option Position) (e : Engine)
      → Ready e
      → volume_error d a ≡ false
      → IsSound (margin_open d a balance p e).1.market
  margin_open-IsSound a balance (some p) e r ok =
      check_open-IsSound (record a { leverage = p.leverage }) balance (d.div a.volume p.leverage)
        (get_position_mode a.user_id e.market.name e) e r ok
  margin_open-IsSound a balance none e r ok =
      let e' = settle_mode a e in
      let r' = settle_mode-Ready a e r in
      elim (Option-cases (get_position_mode a.user_id e'.market.name e')) [
        | inl absent ↦ ground (arith, r'.sound)
        | inr (mode, present) ↦ ground (
          arith,
          check_open-IsSound a balance (d.div a.volume mode.leverage) (some mode) e' r' ok,
        )
      ]

  close-IsSound :
      (a : Args) (p : Position) (e : Engine)
      → Ready e
      → close_error d a e.market.latest_price ≡ none
      → let (o, e') = init_order 2 (record a { leverage = p.leverage }) (freeze_position d a p e) in
        IsSound (route d (record a { leverage = p.leverage }) o e').market
  close-IsSound a p e r fine =
      let a' = record a { leverage = p.leverage } in
      let e₁ = freeze_position d a p e in
      let (o, e') = init_order 2 a' e₁ in
      let same : e₁.market ≡ e.market = ground arith in
      let count : e₁.order_id_start ≡ e.order_id_start = ground arith in
      let r' = Ready-same e e₁ same count r in
      route-IsSound a' o e'
        (record { type = refl; side = sells_lem o (inr refl); new = r'.new; left = refl })
        (λ h. ground arith) r'.sound

-- An opening or closing order of any type, accepted or refused, leaves the market sound, if it was
-- so: both live books in price-time priority, with limit orders of the right direction alone, all
-- in `orders` and none in both, and no bid at or above an ask. The next order id is new, rounding
-- goes toward zero, and the constant one is positive.
pub put_order-IsSound :
    (d : Decimal)
    → RoundsDown d
    → pos 0 <ℤ d.one
    → (opening : Bool) (a : Args) (e : Engine) → IsSound e.market
    → mem ((e.order_id_start + 1) % 2 ^ 64) e.market.orders ≡ false
    → IsSound (put_order d opening a e).1.market
unfolding market_put_order_open market_put_order_close
put_order-IsSound d down unit true a e sound new =
    let r : Ready d down unit e = record { sound = sound; new = new } in
    elim (Option-cases (balance_get a.user_id available_type e.market.money e.balances)) [
      | inl absent ↦ ground (arith, sound)
      | inr (balance, present) ↦
          ground (
            arith,
            margin_open-IsSound d down unit a balance (held_position a.user_id e) e r,
            sound,
          )
    ]
put_order-IsSound d down unit false a e sound new =
    let r : Ready d down unit e = record { sound = sound; new = new } in
    elim (Option-cases (close_error d a e.market.latest_price)) [
      | inl fine ↦ elim (Option-cases (get_position a.user_id e.market.name a.direction e)) [
        | inl absent ↦ ground (arith, sound)
        | inr (p, present) ↦ ground (arith, sound, close-IsSound d down unit a p e r fine)
      ]
      | inr (code, bad) ↦ ground (arith, sound)
    ]
