-- ===== src/Market/Planner/Uncrossed.antt =====
-- Crossed books and the handlers of matchengine/src/me_planner.c.
use viabtc_future.Prelude.{
  ℕ, ◌+◌, ◌%◌, ◌^◌, ◌≡◌, ◌≢◌, Bool, true, false, Option, none, some, List, [], ◌∷◌, All,
  Option-cases, Bool-cases, inl, inr, ◌⊎◌, arith, if◌then◌else◌, ◌==◌,
}
use viabtc_future.Prelude.Int.{ℤ, pos, ◌<ℤ◌, eqb_ℤ}
use viabtc_future.Decimal.{Decimal, RoundsDown, add, sub}
use viabtc_future.Dict.{nat_eq}
use viabtc_future.Skiplist.{find, delete, remove}
use viabtc_future.Balance.{key_eq, balance_freeze}
use viabtc_future.Market.Defs.{
  Order, Market, Engine, OrderEvent, order_message, sells, plan_type, bull, bear,
}
use viabtc_future.Market.Book.{
  mem, order_match_compare, same_order, Side, asks, bids, plan_asks, plan_bids, book, set_book,
  finish_side, emit, order_finish_future, erase, unindex_user,
}
use viabtc_future.Market.Book.Index.{IsMarket}
use viabtc_future.Market.Book.Undone.{finish-finished}
use viabtc_future.Market.Match.{execute_order, is_finished, sells_now}
use viabtc_future.Market.Match.Rounds.{IsTaker, AllPrices, emit-market}
use viabtc_future.Market.Match.Uncrossed.{Uncrossed, execute_order-Uncrossed}
use viabtc_future.Market.Pnl.{position_key_eq, get_position, write_position}
use viabtc_future.Market.Planner.{
  replace_old, close_triggered, open_triggered, on_panner, on_tpsl_planner, copy_order,
  is_triggered, plan_side, check_condition_ask, check_condition_bid,
}

delete-All :
    (Q : Order → Type 0) (o : Order) (l : List Order)
    → All Q l
    → All Q (delete order_match_compare same_order o l)
delete-All Q o [] h = tt
delete-All Q o (x ∷ l) h = grind (arith, delete-All Q o l h.1)

removed-All :
    (Q : Order → Type 0) (l : List Order) (x : Option Order)
    → All Q l
    → All Q (
        let l' : List Order = elim x [
          | none ↦ l
          | some y ↦ delete order_match_compare same_order y l
        ] in
        l')
removed-All Q l none h = h
removed-All Q l (some y) h = delete-All Q y l h

remove-All :
    (Q : Order → Type 0) (o : Order) (l : List Order)
    → All Q l
    → All Q (remove order_match_compare same_order o l)
remove-All Q o l h = removed-All Q l (find order_match_compare o l) h

remove_bids :
    (o : Order) (l bs : List Order)
    → All (λ (a : Order). AllPrices (λ p. p <ℤ a.price) bs) l
    → All
        (λ (a : Order). AllPrices (λ p. p <ℤ a.price) (remove order_match_compare same_order o bs))
        l
remove_bids o [] bs h = tt
remove_bids o (a ∷ l) bs h = (remove-All (λ b. b.price <ℤ a.price) o bs h.0, remove_bids o l bs h.1)

-- Taking an order out of one of the books lets none cross.
taken-Uncrossed :
    (s : Side) (o : Order) (ids : List ℕ) (users : _) (m : Market)
    → Uncrossed m
    → Uncrossed (
        set_book s
          (remove order_match_compare same_order o (book s m))
          (record m { orders = ids; users = users }))
taken-Uncrossed asks o ids users m u =
    remove-All (λ a. AllPrices (λ p. p <ℤ a.price) m.bids) o m.asks u
taken-Uncrossed bids o ids users m u = remove_bids o m.asks m.bids u
taken-Uncrossed plan_asks o ids users m u = u
taken-Uncrossed plan_bids o ids users m u = u

finish-Uncrossed :
    (real : Bool) (o : Order) (e : Engine)
    → Uncrossed e.market
    → Uncrossed (order_finish_future real o e).market
finish-Uncrossed real o e u = rw (finish-finished real o e) (
    taken-Uncrossed (finish_side o) o (erase o.id e.market.orders)
      (unindex_user o.user_id o.id e.market.users) e.market u)

module _ (d : Decimal) (down : RoundsDown d) (real : Bool) where
  -- What a new order needs to be matched.
  record Fits (direction : ℕ) (o : Order) (e : Engine) : Type 0 where
    good : IsMarket e.market
    uncrossed : Uncrossed e.market
    new : mem o.id e.market.orders ≡ false
    kind : IsTaker o
    dir : sells o ≡ sells_now o.oper_type direction
    open_ : is_finished o ≡ false

  replace_old-Uncrossed :
      (direction : ℕ) (old o : Order) (e : Engine)
      → Fits direction o e
      → Uncrossed (replace_old d real direction old o e).market
  replace_old-Uncrossed direction old o e f =
      let e' = execute_order d real direction o e in
      finish-Uncrossed real old (emit real (order_message OrderEvent.finish old) e') (
        rw (emit-market real (order_message OrderEvent.finish old) e') (
          execute_order-Uncrossed d down real direction o e f.good f.uncrossed f.new f.kind f.dir
            f.open_))

  close_triggered-Uncrossed :
      (direction : ℕ) (old o : Order) (e : Engine)
      → Fits direction o e
      → Uncrossed (close_triggered d real direction old o e).market
  close_triggered-Uncrossed direction old o e f =
      elim (Option-cases (get_position o.user_id o.market o.side e)) [
        | inl absent ↦ ground (arith, f.uncrossed)
        | inr (p, present) ↦
            let q = record p {
              frozen = add d p.frozen o.left;
              position = sub d p.position o.left;
            } in
            let e' = write_position o.user_id o.market o.side q e in
            ground (
              arith,
              replace_old-Uncrossed direction old o e' (record {
                good = f.good;
                uncrossed = f.uncrossed;
                new = f.new;
                kind = f.kind;
                dir = f.dir;
                open_ = f.open_;
              }),
            )
      ]

  open_triggered-Uncrossed :
      (direction : ℕ) (old o : Order) (e : Engine)
      → Fits direction o e
      → Uncrossed (open_triggered d real direction old o e).market
  unfolding sells
  open_triggered-Uncrossed direction old o e f =
      let need = d.div o.left o.leverage in
      let (x, b) = balance_freeze d o.user_id e.market.money need e.balances in
      let e' = record e { balances = b } in
      let o' = record o { freeze = need } in
      let f' : Fits direction o' e' = record {
        good = f.good;
        uncrossed = f.uncrossed;
        new = f.new;
        kind = f.kind;
        dir = f.dir;
        open_ = f.open_;
      } in
      elim (Option-cases x) [
        | inl bad ↦ ground (arith, f.uncrossed, replace_old-Uncrossed direction old o e f)
        | inr (c, ok) ↦ ground (
          arith,
          f.uncrossed,
          replace_old-Uncrossed direction old o e f,
          replace_old-Uncrossed direction old o' e' f',
        )
      ]

  -- The state before a handler runs.
  record Ready (old : Order) (e : Engine) : Type 0 where
    good : IsMarket e.market
    uncrossed : Uncrossed e.market
    new : mem ((e.order_id_start + 1) % 2 ^ 64) e.market.orders ≡ false

  copied :
      (direction : ℕ) (old : Order) (amount left : ℤ) (e : Engine)
      → Ready old e
      → sells old ≡ sells_now old.oper_type direction
      → eqb_ℤ left (pos 0) ≡ false
      → let (o, e') = copy_order old e in
        Fits direction (record o { amount = amount; left = left }) e'
  unfolding sells
  copied direction old amount left e r dir some_left = record {
    good = r.good;
    uncrossed = r.uncrossed;
    new = r.new;
    kind = ground arith;
    dir = dir;
    open_ = some_left;
  }

  on_panner-Uncrossed :
      (opening closing : ℕ) (old : Order) (e : Engine)
      → Ready old e
      → (old.oper_type ≡ 1 → sells old ≡ sells_now old.oper_type opening)
      → (old.oper_type ≢ 1 → sells old ≡ sells_now old.oper_type closing)
      → eqb_ℤ old.left (pos 0) ≡ false
      → Uncrossed (on_panner d real opening closing old e).market
  unfolding on_panner
  on_panner-Uncrossed opening closing old e r h k some_left =
      let (o, e') = copy_order old e in
      elim (Bool-cases (is_triggered old e.market.latest_price)) [
        | inl now_ ↦ elim (Bool-cases (old.oper_type == 1)) [
          | inl opens ↦ ground (
            arith,
            open_triggered-Uncrossed opening old o e'
                (copied opening old old.amount old.left e r (h (ground arith)) some_left),
          )
          | inr closes ↦ ground (
            arith,
            close_triggered-Uncrossed closing old o e'
                (copied closing old old.amount old.left e r (k (λ x. ground arith)) some_left),
          )
        ]
        | inr later ↦ ground (arith, r.uncrossed)
      ]

  on_tpsl_planner-Uncrossed :
      (condition closing : ℕ) (old : Order) (e : Engine)
      → Ready old e
      → sells old ≡ sells_now old.oper_type closing
      → (condition ≢ 0
          → eqb_ℤ (if condition == 1 then old.tp_amount else old.sl_amount) (pos 0) ≡ false)
      → Uncrossed (on_tpsl_planner d real condition closing old e).market
  unfolding on_tpsl_planner
  on_tpsl_planner-Uncrossed condition closing old e r dir some_left =
      let (o, e') = copy_order old e in
      let amount = if condition == 1 then old.tp_amount else old.sl_amount in
      elim (Bool-cases (condition == 0)) [
        | inl off ↦ ground (arith, r.uncrossed)
        | inr on ↦ ground (
          arith,
          close_triggered-Uncrossed closing old (record o { amount = amount; left = amount }) e'
              (copied closing old amount amount e r dir (some_left (λ x. ground arith))),
        )
      ]

-- What sets off a take-profit and stop-loss order, by the side of its book: 1 or 2.
abbrev pub condition : Bool → Order → ℤ → ℕ
condition true = check_condition_ask
condition false = check_condition_bid

-- A waiting order that a price change sets off, by its trigger, its take-profit or its stop-loss,
-- leaves no bid at or above an ask, if the books were in order and did not cross, the next order
-- id is new, the order opens or closes, and closes if it is no plan order, and rounding goes toward
-- zero. What it trades is not zero: what a plan order has left, the amount of the take-profit
-- where that is reached, and the amount of the stop-loss where that is.
pub plan_side-Uncrossed :
    (d : Decimal)
    → RoundsDown d
    → (real sell : Bool) (old : Order) (e : Engine) → IsMarket e.market
    → Uncrossed e.market
    → mem ((e.order_id_start + 1) % 2 ^ 64) e.market.orders ≡ false
    → sells old ≡ sell
    → (old.oper_type ≡ 1) ⊎ (old.oper_type ≡ 2)
    → (old.type ≢ plan_type → old.oper_type ≡ 2)
    → (old.type ≡ plan_type → eqb_ℤ old.left (pos 0) ≡ false)
    → (old.type ≢ plan_type
        → condition sell old e.market.latest_price ≡ 1
        → eqb_ℤ old.tp_amount (pos 0) ≡ false)
    → (old.type ≢ plan_type
        → condition sell old e.market.latest_price ≡ 2
        → eqb_ℤ old.sl_amount (pos 0) ≡ false)
    → Uncrossed (plan_side d real sell old e).market
plan_side-Uncrossed d down real true old e good uncrossed new dir op closes l tp sl =
    let r : Ready d down real old e = record { good = good; uncrossed = uncrossed; new = new } in
    let latest = e.market.latest_price in
    elim (Bool-cases (old.type == plan_type)) [
      | inl plan ↦ ground (
        arith,
        on_panner-Uncrossed d down real bear bull old e r (λ h. ground arith) (λ h. ground arith)
            (l (ground (arith, plan))),
      )
      | inr other ↦
          let not_plan : old.type ≢ plan_type = λ h. ground (arith, other, h) in
          let two : old.oper_type ≡ 2 = closes not_plan in
          ground (
            arith,
            on_tpsl_planner-Uncrossed d down real (check_condition_ask old latest) bull old e r
                (ground arith) (λ h. ground (arith, tp not_plan, sl not_plan)),
          )
    ]
plan_side-Uncrossed d down real false old e good uncrossed new dir op closes l tp sl =
    let r : Ready d down real old e = record { good = good; uncrossed = uncrossed; new = new } in
    let latest = e.market.latest_price in
    elim (Bool-cases (old.type == plan_type)) [
      | inl plan ↦ ground (
        arith,
        on_panner-Uncrossed d down real bull bear old e r (λ h. ground arith) (λ h. ground arith)
            (l (ground (arith, plan))),
      )
      | inr other ↦
          let not_plan : old.type ≢ plan_type = λ h. ground (arith, other, h) in
          let two : old.oper_type ≡ 2 = closes not_plan in
          ground (
            arith,
            on_tpsl_planner-Uncrossed d down real (check_condition_bid old latest) bear old e r
                (ground arith) (λ h. ground (arith, tp not_plan, sl not_plan)),
          )
    ]
