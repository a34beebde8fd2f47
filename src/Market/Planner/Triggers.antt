-- ===== src/Market/Planner/Triggers.antt =====
-- A stop-loss alone, from the request (`market_put_order_close` of matchengine/src/me_market.c) to the
-- planner (matchengine/src/me_planner.c).
use viabtc_future.Prelude.{
  ℕ, ◌+◌, ◌%◌, ◌^◌, ◌≡◌, refl, ap, ◌∙◌, Bool, true, none, some, List, [], ◌∷◌, arith,
}
use viabtc_future.Prelude.Int.{ℤ, pos, ◌≤ℤ◌, ◌<ℤ◌, ◌+ℤ◌, ◌-ℤ◌, int_laws}
use viabtc_future.Decimal.{Decimal, add, sub}
use viabtc_future.Dict.{nat_eq, Dict, find, assign}
use viabtc_future.Dict.Laws.{find-assign}
use viabtc_future.Market.Defs.{
  Order, Engine, Position, PositionKey, OrderEvent, order_message, bull,
}
use viabtc_future.Market.Book.{
  book, emit, erase, order_finish_future, finish_side, order_match_compare, same_order,
  unindex_user,
}
use viabtc_future.Market.Book.Undone.{finish-finished, set_book-orders}
use viabtc_future.Skiplist.{remove}
use viabtc_future.Market.Pnl.{
  position_key_eq, position_key_beq_iff, get_position, position_key, write_position,
}
use viabtc_future.Market.Match.{
  is_finished, sells_now, matched_side, match_loop, settle_taker, execute_order,
  market_cancel_order,
}
use viabtc_future.Market.Match.Rounds.{emit-market}
use viabtc_future.Market.Match.Closing.{emit-positions, finish-positions}
use viabtc_future.Market.Put.{Args, Reply, close_error, market_put_order_close}
use viabtc_future.Market.Put.Released.{closing_order}
use viabtc_future.Market.Planner.{
  check_condition_ask, copy_order, replace_old, on_tpsl_planner, plan_side,
}

finish-orders :
    (real : Bool) (o : Order) (e : Engine)
    → (order_finish_future real o e).market.orders ≡ erase o.id e.market.orders
finish-orders real o e =
    let side = finish_side o in
    let m = e.market in
    ap (λ m. m.orders) (finish-finished real o e)
    ∙ set_book-orders side (remove order_match_compare same_order o (book side m))
        (record m { orders = erase o.id m.orders; users = unindex_user o.user_id o.id m.users })

module _ (d : Decimal) (real : Bool) where
  match_loop_finished :
      (sell : Bool) (l : List Order) (o : Order) (e : Engine)
      → is_finished o ≡ true
      → match_loop d real sell l o e ≡ (some o, e)
  unfolding match_loop
  match_loop_finished sell [] o e h = refl
  match_loop_finished sell (x ∷ l) o e h = ground (arith, h)

  -- A market order that closes nothing is cancelled at once.
  execute_empty :
      (direction : ℕ) (o : Order) (e : Engine)
      → o.type ≡ 0
      → o.oper_type ≡ 2
      → o.left ≡ pos 0
      → execute_order d real direction o e
        ≡ order_finish_future real o (emit real (order_message OrderEvent.finish o) e)
  unfolding execute_order settle_taker market_cancel_order
  execute_empty direction o e market closes nothing =
      let sell = sells_now o.oper_type direction in
      let done : is_finished o ≡ true = ground (arith, nothing) in
      ground (
        arith,
        match_loop_finished sell (book (matched_side sell) e.market) o e done,
        market,
        closes,
        nothing,
      )

  -- What is left of a state when an old order is replaced by one that closes nothing.
  replace_empty :
      (direction : ℕ) (old o : Order) (e : Engine)
      → o.type ≡ 0
      → o.oper_type ≡ 2
      → o.left ≡ pos 0
      → ((replace_old d real direction old o e).positions ≡ e.positions)
        × ((replace_old d real direction old o e).market.orders
            ≡ erase old.id (erase o.id e.market.orders))
  replace_empty direction old o e market closes nothing =
      let ended = order_message OrderEvent.finish old in
      let mid = execute_order d real direction o e in
      let same = execute_empty direction o e market closes nothing in
      let first = emit real (order_message OrderEvent.finish o) e in
      (
        finish-positions real old (emit real ended mid)
            ∙ emit-positions real ended mid
            ∙ ap (λ x. x.positions) same
            ∙ finish-positions real o first
            ∙ emit-positions real (order_message OrderEvent.finish o) e,
        finish-orders real old (emit real ended mid)
            ∙ ap (λ m. erase old.id m.orders) (emit-market real ended mid)
            ∙ ap (λ x. erase old.id x.market.orders) same
            ∙ ap (erase old.id) (
                finish-orders real o first
                ∙ ap (λ m. erase o.id m.orders)
                    (emit-market real (order_message OrderEvent.finish o) e)),
      )

same_value :
    (k j : PositionKey) (q : Position) (l : Dict PositionKey Position)
    → find j l ≡ some q
    → find k (assign j q l) ≡ find k l
same_value k j q l h = ground (arith, find-assign k j q l, h, position_key_beq_iff j k)

plus_nothing : (d : Decimal) (w z : ℤ) → z ≡ pos 0 → d.round w ≡ w → add d w z ≡ w
plus_nothing d w z h exact =
    let none_more : w +ℤ pos 0 ≡ w = omega int_laws in
    ap (λ v. d.round (w +ℤ v)) h ∙ ap d.round none_more ∙ exact

minus_nothing : (d : Decimal) (w z : ℤ) → z ≡ pos 0 → d.round w ≡ w → sub d w z ≡ w
minus_nothing d w z h exact =
    let none_less : w -ℤ pos 0 ≡ w = omega int_laws in
    ap (λ v. d.round (w -ℤ v)) h ∙ ap d.round none_less ∙ exact

-- A request to close a long by a stop-loss alone, without a price and with nothing for the
-- take-profit, is accepted at a price above the stop-loss. At the next look of the planner the order
-- goes off, at every price that is not negative, also far above the stop-loss: nothing is closed, as
-- every position is looked up as before, and the order and the one that replaces it are erased from
-- `orders`. The user still has a long, whose two sizes need no rounding.
pub stop_loss_alone :
    (d : Decimal) (real : Bool) (a : Args) (p q : Position) (e x : Engine)
    → get_position a.user_id e.market.name a.direction e ≡ some p
    → a.type ≡ 3
    → a.direction ≡ bull
    → a.tp_price ≡ pos 0
    → a.tp_amount ≡ pos 0
    → a.entrust_price ≡ pos 0
    → pos 0 <ℤ a.sl_amount
    → a.sl_price ≤ℤ e.market.latest_price
    → pos 0 ≤ℤ x.market.latest_price
    → get_position a.user_id e.market.name a.direction x ≡ some q
    → d.round q.frozen ≡ q.frozen
    → d.round q.position ≡ q.position
    → (k : PositionKey)
    → let o = closing_order a p e in
      let y = plan_side d real true o x in
      ((market_put_order_close d a e).0 ≡ Reply.done)
      × (find k y.positions ≡ find k x.positions)
      × (y.market.orders ≡ erase o.id (erase ((x.order_id_start + 1) % 2 ^ 64) x.market.orders))
unfolding market_put_order_close on_tpsl_planner
stop_loss_alone d real a p q e x held type dir tp ta price sa sl up held' e1 e2 k =
    let o = closing_order a p e in
    let t = record ((copy_order o x).0) { amount = a.tp_amount; left = a.tp_amount } in
    let x₁ = (copy_order o x).1 in
    let q' = record q { frozen = add d q.frozen t.left; position = sub d q.position t.left } in
    let z = write_position o.user_id o.market o.side q' x₁ in
    let j : PositionKey = position_key a.user_id e.market.name a.direction in
    let fine : close_error d a e.market.latest_price ≡ none =
      ground (arith, type, dir, tp, sa, sl) in
    let fires : check_condition_ask o x.market.latest_price ≡ 1 = ground (arith, tp, up) in
    let runs : plan_side d real true o x ≡ replace_old d real bull o t z =
      ground (arith, type, fires, held') in
    let market : t.type ≡ 0 = ground (arith, price) in
    let unchanged : q' ≡ q = λ i. record q {
      frozen = plus_nothing d q.frozen t.left ta e1 i;
      position = minus_nothing d q.position t.left ta e2 i;
    } in
    let done = replace_empty d real bull o t z market refl ta in
    (
      ground (arith, fine, held, type),
      ap (λ (y : Engine). find k y.positions) runs
          ∙ ap (find k) (done.0 ∙ ap (λ r. assign j r x.positions) unchanged)
          ∙ same_value k j q x.positions held',
      ap (λ (y : Engine). y.market.orders) runs ∙ done.1,
    )
