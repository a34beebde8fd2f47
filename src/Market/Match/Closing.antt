-- ===== src/Market/Match/Closing.antt =====
-- Closing orders and the positions that they close: `market_cancel_order`, `order_put_future` and
-- `order_finish_future` of matchengine/src/me_market.c.
use viabtc_future.Prelude.{
  ℕ, ◌≡◌, refl, ◌∙◌, Bool, true, some, [], ◌∷◌, arith, Option-cases, inl, inr,
}
use viabtc_future.Prelude.Int.{pos, ltb_ℤ}
use viabtc_future.Decimal.{Decimal}
use viabtc_future.Dict.{nat_eq}
use viabtc_future.Market.Defs.{Order, Engine, Event, OrderEvent, order_message, limit_type}
use viabtc_future.Market.Book.{
  book, emit, put_orders, put_users, put_user_orders, put_book, index_user, put_side,
  order_match_compare, order_put_future, order_finish_future,
}
use viabtc_future.Skiplist.{insert}
use viabtc_future.Market.Book.Index.{step_rule}
use viabtc_future.Market.Match.{
  sells_now, matched_side, match_loop, settle_taker, execute_order, market_cancel_order,
  release_position,
}

pub emit-positions :
    (real : Bool) (ev : Event) (x : Engine) → (emit real ev x).positions ≡ x.positions
emit-positions real ev x = ground arith

pub finish-positions :
    (real : Bool) (o : Order) (e : Engine) → (order_finish_future real o e).positions ≡ e.positions
unfolding order_finish_future
finish-positions real o e = ground arith

put_users-positions :
    (o : Order) (e e' : Engine) → put_users o e ≡ some e' → e'.positions ≡ e.positions
put_users-positions o e e' h = elim (Option-cases (index_user o.user_id o.id e.market.users)) [
  | inl bad ↦ ground arith
  | inr (d, ok) ↦ ground arith
]

put_user_orders-positions :
    (o : Order) (e e' : Engine) → put_user_orders o e ≡ some e' → e'.positions ≡ e.positions
put_user_orders-positions o e e' h = elim (Option-cases (index_user o.user_id o.id e.user_orders)) [
  | inl bad ↦ ground arith
  | inr (d, ok) ↦ ground arith
]

put_book-positions :
    (o : Order) (e e' : Engine) → put_book o e ≡ some e' → e'.positions ≡ e.positions
put_book-positions o e e' h =
    elim (Option-cases (insert order_match_compare o (book (put_side o) e.market))) [
      | inl bad ↦ ground arith
      | inr (l, ok) ↦ ground arith
    ]

pub put-positions : (o : Order) (e : Engine) → (order_put_future o e).1.positions ≡ e.positions
unfolding order_put_future
put-positions o e =
    let P = λ (x : Engine). x.positions ≡ e.positions in
    step_rule P (put_orders o e) (put_users o ∷ put_user_orders o ∷ put_book o ∷ []) e refl λ e₁ h₁.
      let k₁ : e₁.positions ≡ e.positions = ground (arith, h₁) in
      step_rule P (put_users o e₁) (put_user_orders o ∷ put_book o ∷ []) e₁ k₁ λ e₂ h₂.
        let k₂ = put_users-positions o e₁ e₂ h₂ ∙ k₁ in
        step_rule P (put_user_orders o e₂) (put_book o ∷ []) e₂ k₂ λ e₃ h₃.
          let k₃ = put_user_orders-positions o e₂ e₃ h₃ ∙ k₂ in
          step_rule P (put_book o e₃) [] e₃ k₃ λ e₄ h₄. put_book-positions o e₃ e₄ h₄ ∙ k₃

module _ (d : Decimal) where
  -- A closing order that has something left gives its part of the position back when it is cancelled.
  pub cancel_closing :
      (real : Bool) (o : Order) (e : Engine)
      → o.oper_type ≡ 2
      → ltb_ℤ (pos 0) o.left ≡ true
      → market_cancel_order d real o e ≡ (
        true,
        order_finish_future real o
            (release_position d o (emit real (order_message OrderEvent.finish o) e)),
      )
  unfolding market_cancel_order
  cancel_closing real o e closes some_left = ground arith

  -- A limit order that finds an empty book is put in its own.
  pub execute_waiting :
      (real : Bool) (direction : ℕ) (o : Order) (e : Engine)
      → o.type ≡ limit_type
      → book (matched_side (sells_now o.oper_type direction)) e.market ≡ []
      → execute_order d real direction o e
        ≡ (order_put_future o (emit real (order_message OrderEvent.put o) e)).1
  unfolding execute_order match_loop settle_taker
  execute_waiting real direction o e limit empty = ground arith
