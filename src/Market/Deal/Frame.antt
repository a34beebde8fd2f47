-- ===== src/Market/Deal/Frame.antt =====
-- One deal of matchengine/src/me_market.c, as the matching sees it: the orders and the market.
use viabtc_future.Prelude.{◌+◌, ◌%◌, ◌^◌, ◌≡◌, refl, ◌∙◌, Bool, true, not, arith}
use viabtc_future.Prelude.Int.{ℤ}
use viabtc_future.Decimal.{Decimal, sub}
use viabtc_future.Market.Defs.{Order, Position, Engine}
use viabtc_future.Market.Pnl.{position_key_eq}
use viabtc_future.Market.Deal.{
  Terms, Party, new_party, adjust_order, adjust_position, adjust_balance, settle_position,
  execute_order_open_imp, record_deal, shrink,
}

-- `b` is `a` after some of it has traded.
pub record Traded (a b : Order) : Type 0 where
  pub id : b.id ≡ a.id
  pub type : b.type ≡ a.type
  pub price : b.price ≡ a.price
  pub side : b.side ≡ a.side
  pub oper_type : b.oper_type ≡ a.oper_type
  pub user_id : b.user_id ≡ a.user_id

module _ (d : Decimal) (t : Terms) where
  adjust_order-Traded : (rate : ℤ) (s : Party) → Traded s.order (adjust_order d t rate s).order
  unfolding adjust_order
  adjust_order-Traded rate s = ground arith

  adjust_order-left :
      (rate : ℤ) (s : Party) → (adjust_order d t rate s).order.left ≡ sub d s.order.left t.amount
  unfolding adjust_order
  adjust_order-left rate s = refl

  settle_position-market :
      (real : Bool) (p : Position) (e : Engine) → (settle_position d real p e).market ≡ e.market
  settle_position-market real p e = ground arith

  record Half (o : Order) (e : Engine) (r : Party × Engine) : Type 0 where
    traded : Traded o r.0.order
    left : r.0.order.left ≡ o.left
    market : r.1.market ≡ e.market

  adjust_position-Half : (s : Party) (e : Engine) → Half s.order e (adjust_position d t s e)
  unfolding adjust_position shrink
  adjust_position-Half s e = ground arith

  adjust_balance-Half :
      (paid : Bool) (s : Party) (e : Engine) → Half s.order e (adjust_balance d t paid s e)
  unfolding adjust_balance
  adjust_balance-Half paid s e = ground arith

  record_deal-market :
      (taker maker : Party) (e : Engine) → (record_deal d t taker maker e).market ≡ e.market
  record_deal-market taker maker e = ground arith

pub Traded-trans : {a b c : Order} → Traded a b → Traded b c → Traded a c
Traded-trans h k = record {
  id = k.id ∙ h.id;
  type = k.type ∙ h.type;
  price = k.price ∙ h.price;
  side = k.side ∙ h.side;
  oper_type = k.oper_type ∙ h.oper_type;
  user_id = k.user_id ∙ h.user_id;
}

-- After a deal both orders have its amount less to fill, keep their id, type, price, side, operation
-- and user, and the market is as it was.
pub execute_order_open_imp-Traded :
    (d : Decimal) (t : Terms) (taker maker : Order) (e : Engine)
    → let (taker', maker', e') = execute_order_open_imp d t taker maker e in
      Traded taker taker'
      × Traded maker maker'
      × (taker'.left ≡ sub d taker.left t.amount)
      × (maker'.left ≡ sub d maker.left t.amount)
      × (e'.market ≡ e.market)
unfolding execute_order_open_imp
execute_order_open_imp-Traded d t taker maker e =
    let t₁ = adjust_order d t taker.taker_fee (new_party taker) in
    let m₁ = adjust_order d t maker.maker_fee (new_party maker) in
    let (t₂, e₁) = adjust_position d t t₁ e in
    let (m₂, e₂) = adjust_position d t m₁ e₁ in
    let (t₃, e₃) = adjust_balance d t (not taker.isblast) t₂ e₂ in
    let (m₃, e₄) = adjust_balance d t true m₂ e₃ in
    let h₁ = adjust_position-Half d t t₁ e in
    let h₂ = adjust_position-Half d t m₁ e₁ in
    let h₃ = adjust_balance-Half d t (not taker.isblast) t₂ e₂ in
    let h₄ = adjust_balance-Half d t true m₂ e₃ in
    (
      Traded-trans (adjust_order-Traded d t taker.taker_fee (new_party taker))
          (Traded-trans h₁.traded h₃.traded),
      Traded-trans (adjust_order-Traded d t maker.maker_fee (new_party maker))
          (Traded-trans h₂.traded h₄.traded),
      h₃.left ∙ h₁.left ∙ adjust_order-left d t taker.taker_fee (new_party taker),
      h₄.left ∙ h₂.left ∙ adjust_order-left d t maker.maker_fee (new_party maker),
      record_deal-market d t t₃ m₃ (record e₄ { deals_id_start = (e₄.deals_id_start + 1) % 2 ^ 64 })
          ∙ h₄.market
          ∙ h₃.market
          ∙ h₂.market
          ∙ h₁.market,
    )
