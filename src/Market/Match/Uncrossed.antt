-- ===== src/Market/Match/Uncrossed.antt =====
-- Crossed books and `execute_order` of matchengine/src/me_market.c: the prices of the one book
-- against those of the other, through the loop and behind it.
use viabtc_future.Prelude.{
  ℕ, ◌≡◌, refl, sym, ◌∙◌, Bool, true, false, not, Option, none, some, List, [], ◌∷◌, All, ◌⊎◌, inl,
  inr, arith,
}
use mathlib.Core.Path.{subst}
use viabtc_future.Prelude.Int.{ℤ, ◌<ℤ◌}
use viabtc_future.Decimal.{Decimal, RoundsDown}
use viabtc_future.Skiplist.Laws.{Fresh, place, place-All}
use viabtc_future.Market.Defs.{
  Order, Market, Engine, OrderEvent, order_message, sells, limit_type, market_type,
}
use viabtc_future.Market.Book.{
  order_match_compare, order_finish_future, order_put_future, emit, mem,
}
use viabtc_future.Market.Pnl.{get_position, position_key_eq}
use viabtc_future.Market.Match.{release_position, unfreeze_order, finish_cancel}
use viabtc_future.Market.Match.Rounds.{matched_market}
use viabtc_future.Dict.{nat_eq}
use viabtc_future.Balance.{key_eq}
use viabtc_future.Prelude.{Option-cases, if◌then◌else◌, ◌==◌, ◌&&◌}
use viabtc_future.Prelude.Int.{pos, ltb_ℤ}
use viabtc_future.Market.Book.Index.{IsMarket, IsBook, Known-Fresh}
use viabtc_future.Market.Book.Put.{order_put_future-Put}
use viabtc_future.Market.Match.{
  is_finished, match_loop, execute_order, settle_taker, sells_now, market_cancel_order,
}
use viabtc_future.Market.Match.Rounds.{
  matched, IsTaker, AllPrices, Worse, Fresh-Traded, finish-Fresh, emit-market,
}
use viabtc_future.Market.Match.Loop.{Traded-sells}
use viabtc_future.Market.Match.Exhausts.{Done, match_loop-Done}

-- Every bid is below every ask.
abbrev pub Uncrossed : Market → Type 0
Uncrossed m = All (λ (a : Order). AllPrices (λ p. p <ℤ a.price) m.bids) m.asks

-- No order of `own` could trade with one of `others`.
abbrev Apart : Bool → List Order → List Order → Type 0
Apart sell own others = All (λ (o : Order). AllPrices (Worse sell o.price) others) own

abbrev Swapped : Bool → List Order → ℤ → Type 0
Swapped sell own p = All (λ (o : Order). Worse sell o.price p) own

Apart-nil : (sell : Bool) (own : List Order) → Apart sell own []
Apart-nil sell [] = tt
Apart-nil sell (o ∷ own) = (tt, Apart-nil sell own)

Apart-heads :
    (sell : Bool) (own : List Order) (x : Order) (l : List Order)
    → Apart sell own (x ∷ l)
    → Swapped sell own x.price × Apart sell own l
Apart-heads sell [] x l h = (tt, tt)
Apart-heads sell (o ∷ own) x l h =
    let (a, b) = Apart-heads sell own x l h.1 in ((h.0.0, a), (h.0.1, b))

Apart-swap : (sell : Bool) (own l : List Order) → Apart sell own l → AllPrices (Swapped sell own) l
Apart-swap sell own [] h = tt
Apart-swap sell own (x ∷ l) h =
    let (a, b) = Apart-heads sell own x l h in (a, Apart-swap sell own l b)

Apart-cons :
    (sell : Bool) (own : List Order) (x : Order) (l : List Order)
    → Swapped sell own x.price
    → Apart sell own l
    → Apart sell own (x ∷ l)
Apart-cons sell [] x l a b = tt
Apart-cons sell (o ∷ own) x l a b = ((a.0, b.0), Apart-cons sell own x l a.1 b.1)

Apart-back : (sell : Bool) (own l : List Order) → AllPrices (Swapped sell own) l → Apart sell own l
Apart-back sell own [] h = Apart-nil sell own
Apart-back sell own (x ∷ l) h = Apart-cons sell own x l h.0 (Apart-back sell own l h.1)

-- A limit order that is left over is put among orders that cannot trade with the other book.
grown_Apart :
    (sell : Bool) (t : Order) (own own' others others' : List Order)
    → (own' ≡ own) ⊎ (own' ≡ place order_match_compare t own)
    → others' ≡ others
    → AllPrices (Worse sell t.price) others
    → Apart sell own others
    → Apart sell own' others'
grown_Apart sell t own own' others others' (inl same) same' w h = rw (same, same') h
grown_Apart sell t own own' others others' (inr put_) same' w h =
    rw (put_, same')
      (place-All order_match_compare (λ (o : Order). AllPrices (Worse sell o.price) others) t own w
        h)

put_Apart :
    (sell : Bool) (t : Order) (e : Engine)
    → sells t ≡ sell
    → t.type ≡ limit_type
    → Fresh order_match_compare t (matched (not sell) e)
    → AllPrices (Worse sell t.price) (matched sell e)
    → Apart sell (matched (not sell) e) (matched sell e)
    → Apart sell
        (matched (not sell) (order_put_future t e).1)
        (matched sell (order_put_future t e).1)
put_Apart true t e dir live f w h =
    let p = order_put_future-Put t true dir live e f in
    grown_Apart true t e.market.asks _ e.market.bids _ p.own p.other w h
put_Apart false t e dir live f w h =
    let p = order_put_future-Put t false dir live e f in
    grown_Apart false t e.market.bids _ e.market.asks _ p.own p.other w h

quiet_finish :
    (real sell : Bool) (o : Order) (e e' : Engine)
    → e'.market ≡ e.market
    → IsTaker o
    → sells o ≡ sell
    → Fresh order_match_compare o (matched (not sell) e)
    → (s : Bool) → matched s (order_finish_future real o e') ≡ matched s e
quiet_finish real sell o e e' same kind dir f s =
    finish-Fresh real sell o e' kind dir
      (subst (Fresh order_match_compare o) (sym (matched_market (not sell) e' e same)) f) s
    ∙ matched_market s e' e same

pub release_position-market :
    (d : Decimal) (o : Order) (e : Engine) → (release_position d o e).market ≡ e.market
release_position-market d o e = elim (Option-cases (get_position o.user_id o.market o.side e)) [
  | inl none_ ↦ ground arith
  | inr (p, some_) ↦ ground arith
]

finish_cancel-Fresh :
    (d : Decimal) (real sell : Bool) (o : Order) (x : Option ℤ) (e : Engine)
    → IsTaker o
    → sells o ≡ sell
    → Fresh order_match_compare o (matched (not sell) e)
    → (s : Bool) → matched s (finish_cancel d real o x e).1 ≡ matched s e
finish_cancel-Fresh d real sell o none e kind dir f s = refl
finish_cancel-Fresh d real sell o (some x) e kind dir f s =
    quiet_finish real sell o e
      (if o.oper_type == 2 && ltb_ℤ (pos 0) o.left then release_position d o e else e)
      (ground (arith, release_position-market d o e)) kind dir f s

-- Cancelling an order that no book holds leaves both live books.
cancel-Fresh :
    (d : Decimal) (real sell : Bool) (o : Order) (e : Engine)
    → IsTaker o
    → sells o ≡ sell
    → Fresh order_match_compare o (matched (not sell) e)
    → (s : Bool) → matched s (market_cancel_order d real o e).1 ≡ matched s e
unfolding market_cancel_order
cancel-Fresh d real sell o e kind dir f s =
    let e₁ = emit real (order_message OrderEvent.finish o) e in
    let u = unfreeze_order d o e₁ in
    let e₂ = record e₁ { balances = u.1 } in
    let same : e₂.market ≡ e.market = emit-market real (order_message OrderEvent.finish o) e in
    finish_cancel-Fresh d real sell o u.0 e₂ kind dir
      (subst (Fresh order_match_compare o) (sym (matched_market (not sell) e₂ e same)) f) s
    ∙ matched_market s e₂ e same

module _ (d : Decimal) (real : Bool) (t : Order) (e : Engine) where
  pub settle_limit :
      t.type ≡ limit_type
      → settle_taker d real (some t) e
        ≡ (order_put_future t (emit real (order_message OrderEvent.put t) e)).1
  unfolding settle_taker
  settle_limit live = ground arith

  pub settle_market :
      t.type ≡ market_type → settle_taker d real (some t) e ≡ (market_cancel_order d real t e).1
  unfolding settle_taker
  settle_market now_ = ground arith

settle_Apart :
    (d : Decimal) (real sell : Bool) (t : Order) (e : Engine)
    → IsTaker t
    → sells t ≡ sell
    → Fresh order_match_compare t (matched (not sell) e)
    → AllPrices (Worse sell t.price) (matched sell e)
    → Apart sell (matched (not sell) e) (matched sell e)
    → Apart sell
        (matched (not sell) (settle_taker d real (some t) e))
        (matched sell (settle_taker d real (some t) e))
settle_Apart d real sell t e (inl live) dir f w h =
    let e' = emit real (order_message OrderEvent.put t) e in
    let same =
      λ (s : Bool). matched_market s e' e (emit-market real (order_message OrderEvent.put t) e) in
    rw (settle_limit d real t e live) (
      put_Apart sell t e' dir live (rw (same (not sell)) f) (rw (same sell) w)
        (rw (same sell, same (not sell)) h))
settle_Apart d real sell t e (inr now_) dir f w h =
    let quiet = cancel-Fresh d real sell t e (inr now_) dir f in
    rw (settle_market d real t e now_) (rw (quiet sell, quiet (not sell)) h)

Apart-Uncrossed :
    (sell : Bool) (e : Engine)
    → Apart sell (matched (not sell) e) (matched sell e)
    → Uncrossed e.market
Apart-Uncrossed true e h = h
Apart-Uncrossed false e h = Apart-swap false e.market.bids e.market.asks h

Uncrossed-Apart :
    (sell : Bool) (e : Engine)
    → Uncrossed e.market
    → Apart sell (matched (not sell) e) (matched sell e)
Uncrossed-Apart true e h = h
Uncrossed-Apart false e h = Apart-back false e.market.bids e.market.asks h

module _ (d : Decimal) (down : RoundsDown d) (real : Bool) (direction : ℕ) (taker : Order)
    (e : Engine) (ok : IsMarket e.market) (uncrossed : Uncrossed e.market)
    (unknown : mem taker.id e.market.orders ≡ false) (kind : IsTaker taker)
    (dir : sells taker ≡ sells_now taker.oper_type direction)
    (open_ : is_finished taker ≡ false) where
  abbrev sell : Bool
  sell = sells_now taker.oper_type direction

  own-Fresh : (s : Bool) → Fresh order_match_compare taker (matched s e)
  own-Fresh true = Known-Fresh taker e.market.orders e.market.bids unknown ok.bids_book.known
  own-Fresh false = Known-Fresh taker e.market.orders e.market.asks unknown ok.asks_book.known

  matched-IsBook : (s : Bool) → IsBook (not s) e.market.orders (matched s e)
  matched-IsBook true = ok.bids_book
  matched-IsBook false = ok.asks_book

  abbrev own : List Order
  own = matched (not sell) e

  loop-Done :
      Done d down real sell
        (Swapped sell own)
        taker
        e
        (match_loop d real sell (matched sell e) taker e)
  loop-Done =
      match_loop-Done d down real sell (Swapped sell own) (matched sell e) taker e refl
        (matched-IsBook sell).in_book (matched-IsBook sell).sorted
        (Apart-swap sell own (matched sell e) (Uncrossed-Apart sell e uncrossed)) kind dir open_
        (own-Fresh (not sell))

  settled :
      (o : Option Order) (e' : Engine)
      → Done d down real sell (Swapped sell own) taker e (o, e')
      → Apart sell
          (matched (not sell) (settle_taker d real o e'))
          (matched sell (settle_taker d real o e'))
  unfolding settle_taker
  settled none e' h = rw h.other (Apart-back sell own (matched sell e') h.prices)
  settled (some t) e' h =
      let (traded, w) = h.left_over in
      let kind' : IsTaker t = ground (arith, traded.type) in
      let f : Fresh order_match_compare t (matched (not sell) e') =
        rw h.other (Fresh-Traded taker t own traded (own-Fresh (not sell))) in
      settle_Apart d real sell t e' kind' (Traded-sells traded ∙ dir) f w
        (rw h.other (Apart-back sell own (matched sell e') h.prices))

-- A limit or market order that has something left and that the market does not know, run by
-- `execute_order` in its own direction on a market whose books are in order and do not cross,
-- leaves books that do not cross: every bid is below every ask, also once what is left of a limit
-- order is put in its book. Rounding goes toward zero.
pub execute_order-Uncrossed :
    (d : Decimal)
    → RoundsDown d
    → (real : Bool) (direction : ℕ) (taker : Order) (e : Engine) → IsMarket e.market
    → Uncrossed e.market
    → mem taker.id e.market.orders ≡ false
    → IsTaker taker
    → sells taker ≡ sells_now taker.oper_type direction
    → is_finished taker ≡ false
    → Uncrossed (execute_order d real direction taker e).market
unfolding execute_order
execute_order-Uncrossed d down real direction taker e ok uncrossed unknown kind dir open_ =
    let s = sells_now taker.oper_type direction in
    let r = match_loop d real s (matched s e) taker e in
    Apart-Uncrossed s (settle_taker d real r.0 r.1) (
      settled d down real direction taker e ok uncrossed unknown kind dir open_ r.0 r.1
        (loop-Done d down real direction taker e ok uncrossed unknown kind dir open_))
