-- ===== src/Market/Match/Preserved.antt =====
-- Well-formed markets under `execute_order` of matchengine/src/me_market.c.
use viabtc_future.Prelude.{
  ℕ, Bool, true, false, not, ◌≡◌, ◌≢◌, ◌⊎◌, inl, inr, refl, ap, ◌∙◌, Option, none, some, List, All,
  arith, if◌then◌else◌, ◌==◌, ◌&&◌,
}
use viabtc_future.Prelude.Int.{ℤ, pos, ltb_ℤ}
use viabtc_future.Decimal.{Decimal, RoundsDown}
use viabtc_future.Skiplist.Laws.{place}
use viabtc_future.Market.Defs.{Order, Market, Engine, OrderEvent, order_message, sells, limit_type}
use viabtc_future.Market.Book.{order_match_compare, mem, emit, order_put_future}
use viabtc_future.Market.Book.Index.{IsMarket, Known-Fresh, order_put_future-IsMarket}
use viabtc_future.Market.Book.Put.{order_put_future-Put}
use viabtc_future.Market.Match.{
  is_finished, match_loop, execute_order, settle_taker, sells_now, market_cancel_order,
  finish_cancel, unfreeze_order, release_position,
}
use viabtc_future.Market.Match.Loop.{Traded-sells}
use viabtc_future.Market.Match.Rounds.{matched, matched_market, emit-market, IsTaker}
use viabtc_future.Market.Match.Uncrossed.{release_position-market, settle_limit, settle_market}
use viabtc_future.Market.Match.Books.{Disjoint-flip, placed-Disjoint, unknown-All, Disjoint}
use viabtc_future.Market.Match.Kept.{Live, same-Books, Outcome, finish-Live, match_loop-Outcome}

-- A market is well formed: its live books are in order, and no id stands in both.
pub record IsWellFormed (m : Market) : Type 0 where
  pub in_order : IsMarket m
  pub disjoint : Disjoint m.asks m.bids

Live-IsWellFormed : (sell : Bool) (e : Engine) → Live sell e → IsWellFormed e.market
Live-IsWellFormed true e b = record {
  in_order = record { asks_book = b.own_book; bids_book = b.matched_book };
  disjoint = Disjoint-flip e.market.bids e.market.asks b.apart;
}
Live-IsWellFormed false e b = record {
  in_order = record { asks_book = b.matched_book; bids_book = b.own_book };
  disjoint = b.apart;
}

IsWellFormed-Live : (sell : Bool) (e : Engine) → IsWellFormed e.market → Live sell e
IsWellFormed-Live true e w = record {
  matched_book = w.in_order.bids_book;
  own_book = w.in_order.asks_book;
  apart = Disjoint-flip e.market.asks e.market.bids w.disjoint;
}
IsWellFormed-Live false e w = record {
  matched_book = w.in_order.asks_book;
  own_book = w.in_order.bids_book;
  apart = w.disjoint;
}

put-Disjoint :
    (t : Order) (l l' k k' : List Order)
    → All (λ (x : Order). x.id ≢ t.id) l
    → (k' ≡ k) ⊎ (k' ≡ place order_match_compare t k)
    → l' ≡ l
    → Disjoint l k
    → Disjoint l' k'
put-Disjoint t l l' k k' new (inl same) same' s = rw (same, same') s
put-Disjoint t l l' k k' new (inr put_) same' s = rw (put_, same') (placed-Disjoint t l k new s)

put-Live :
    (sell : Bool) (t : Order) (e : Engine)
    → Live sell e
    → sells t ≡ sell
    → t.type ≡ limit_type
    → mem t.id e.market.orders ≡ false
    → IsWellFormed (order_put_future t e).1.market
put-Live true t e b dir live new =
    let w = Live-IsWellFormed true e b in
    let ids = e.market.orders in
    let p =
      order_put_future-Put t true dir live e
        (Known-Fresh t ids e.market.asks new b.own_book.known) in
    record {
      in_order = order_put_future-IsMarket t e w.in_order;
      disjoint = Disjoint-flip _ _ (
          put-Disjoint t e.market.bids _ e.market.asks _
            (unknown-All t.id ids e.market.bids new b.matched_book.known) p.own p.other b.apart);
    }
put-Live false t e b dir live new =
    let w = Live-IsWellFormed false e b in
    let ids = e.market.orders in
    let p =
      order_put_future-Put t false dir live e
        (Known-Fresh t ids e.market.bids new b.own_book.known) in
    record {
      in_order = order_put_future-IsMarket t e w.in_order;
      disjoint =
          put-Disjoint t e.market.asks _ e.market.bids _
            (unknown-All t.id ids e.market.asks new b.matched_book.known) p.own p.other b.apart;
    }

market-Live : (sell : Bool) (e e' : Engine) → e'.market ≡ e.market → Live sell e → Live sell e'
market-Live sell e e' same b =
    same-Books (ap (λ (m : Market). m.orders) same) (matched_market sell e' e same)
      (matched_market (not sell) e' e same) b

module _ (d : Decimal) (down : RoundsDown d) (real sell : Bool) where
  finish_cancel-Live :
      (o : Order) (x : Option ℤ) (e : Engine)
      → Live sell e
      → IsTaker o
      → sells o ≡ sell
      → mem o.id e.market.orders ≡ false
      → Live sell (finish_cancel d real o x e).1
  finish_cancel-Live o none e b kind dir new = b
  finish_cancel-Live o (some x) e b kind dir new =
      let e' = (if o.oper_type == 2 && ltb_ℤ (pos 0) o.left then release_position d o e else e) in
      let same : e'.market ≡ e.market = ground (arith, release_position-market d o e) in
      finish-Live d down real sell o e' (market-Live sell e e' same b) kind dir
        (ap (λ (m : Market). mem o.id m.orders) same ∙ new)

  cancel-Live :
      (o : Order) (e : Engine)
      → Live sell e
      → IsTaker o
      → sells o ≡ sell
      → mem o.id e.market.orders ≡ false
      → Live sell (market_cancel_order d real o e).1
  unfolding market_cancel_order
  cancel-Live o e b kind dir new =
      let e₁ = emit real (order_message OrderEvent.finish o) e in
      let u = unfreeze_order d o e₁ in
      let e₂ = record e₁ { balances = u.1 } in
      let same : e₂.market ≡ e.market = emit-market real (order_message OrderEvent.finish o) e in
      finish_cancel-Live o u.0 e₂ (market-Live sell e e₂ same b) kind dir
        (ap (λ (m : Market). mem o.id m.orders) same ∙ new)

  settle-IsWellFormed :
      (t : Order) (e : Engine)
      → Live sell e
      → IsTaker t
      → sells t ≡ sell
      → mem t.id e.market.orders ≡ false
      → IsWellFormed (settle_taker d real (some t) e).market
  settle-IsWellFormed t e b (inl limit) dir new =
      let e' = emit real (order_message OrderEvent.put t) e in
      let same = emit-market real (order_message OrderEvent.put t) e in
      rw (settle_limit d real t e limit) (
        put-Live sell t e' (market-Live sell e e' same b) dir limit
          (ap (λ (m : Market). mem t.id m.orders) same ∙ new))
  settle-IsWellFormed t e b (inr now_) dir new = rw (settle_market d real t e now_) (
      Live-IsWellFormed sell (market_cancel_order d real t e).1
        (cancel-Live t e b (inr now_) dir new))

  settled-IsWellFormed :
      (taker : Order) (o : Option Order) (e : Engine)
      → Outcome d down real sell taker (o, e)
      → IsTaker taker
      → sells taker ≡ sell
      → IsWellFormed (settle_taker d real o e).market
  unfolding settle_taker
  settled-IsWellFormed taker none e h kind dir = Live-IsWellFormed sell e h.live
  settled-IsWellFormed taker (some t) e h kind dir =
      let (traded, new) = h.left_over t refl in
      settle-IsWellFormed t e h.live (ground (arith, traded.type)) (Traded-sells traded ∙ dir) new

-- A limit or market order that has something left and that the market does not know, run by
-- `execute_order` in its own direction on a market whose books are in price-time priority with no
-- id in both, leaves such a market: each order that a book still holds is in orders, is a limit
-- order of the book's direction, and stands in its place. Rounding goes toward zero.
pub execute_order-IsWellFormed :
    (d : Decimal)
    → RoundsDown d
    → (real : Bool) (direction : ℕ) (taker : Order) (e : Engine) → IsWellFormed e.market
    → mem taker.id e.market.orders ≡ false
    → IsTaker taker
    → sells taker ≡ sells_now taker.oper_type direction
    → is_finished taker ≡ false
    → IsWellFormed (execute_order d real direction taker e).market
unfolding execute_order
execute_order-IsWellFormed d down real direction taker e w new kind dir open_ =
    let s = sells_now taker.oper_type direction in
    let r = match_loop d real s (matched s e) taker e in
    settled-IsWellFormed d down real s taker r.0 r.1
      (match_loop-Outcome d down real s (matched s e) taker e refl (IsWellFormed-Live s e w) kind
        dir open_ new)
      kind dir
