-- ===== src/Market/Book/Put.antt =====
-- What `order_put_future` (matchengine/src/me_market.c) does to the two live books with a limit
-- order that compares equal to none of them.
use viabtc_future.Prelude.{
  Bool, true, false, not, ◌≡◌, ◌⊎◌, inl, inr, refl, sym, ◌∙◌, List, [], ◌∷◌, arith, some,
  Bool-cases,
}
use viabtc_future.Skiplist.{insert}
use viabtc_future.Skiplist.Laws.{Fresh, place, insert-place}
use viabtc_future.Market.Defs.{Order, Engine, sells, limit_type}
use viabtc_future.Market.Book.{
  order_match_compare, Side, asks, bids, book, put_orders, put_users, put_user_orders, put_book,
  order_put_future,
}
use viabtc_future.Market.Book.Index.{
  Keeps, put_orders-Keeps, put_users-Keeps, put_user_orders-Keeps, put_book-Keeps, step_rule,
  some_inj,
}

-- The live book that an order of this direction rests in.
abbrev pub own_side : Bool → Side
own_side true = asks
own_side false = bids

placed :
    (o : Order) (l l' : List Order)
    → Fresh order_match_compare o l
    → insert order_match_compare o l ≡ some l'
    → l' ≡ place order_match_compare o l
placed o l l' f h = sym (some_inj (sym (insert-place order_match_compare o l f) ∙ h))

module _ (o : Order) (sell : Bool) (dir : sells o ≡ sell) (live : o.type ≡ limit_type) (e : Engine)
    (f : Fresh order_match_compare o (book (own_side sell) e.market)) where
  -- The order is in its place, or nowhere, and the other book is as it was.
  pub record Put (e' : Engine) : Type 0 where
    pub own :
        (book (own_side sell) e'.market ≡ book (own_side sell) e.market)
        ⊎ (book (own_side sell) e'.market
            ≡ place order_match_compare o (book (own_side sell) e.market))
    pub other : book (own_side (not sell)) e'.market ≡ book (own_side (not sell)) e.market

  record Same (e' : Engine) : Type 0 where
    asks : e'.market.asks ≡ e.market.asks
    bids : e'.market.bids ≡ e.market.bids

  Same-Put : (e' : Engine) → Same e' → Put e'
  Same-Put e' s = elim (Bool-cases sell) [
    | inl yes_ ↦ record { own = inl (ground arith); other = ground arith }
    | inr no_ ↦ record { own = inl (ground arith); other = ground arith }
  ]

  Keeps-Same : (a b : Engine) → Keeps a b → Same a → Same b
  Keeps-Same a b k s = record { asks = k.asks ∙ s.asks; bids = k.bids ∙ s.bids }

  put_book-Put : (a b : Engine) → Same a → put_book o a ≡ some b → Put b
  put_book-Put a b s h =
      let (l', ok, after) = put_book-Keeps o a b h in
      let put_at : (insert order_match_compare o (book (own_side sell) e.market) ≡ some l')
          → l' ≡ place order_match_compare o (book (own_side sell) e.market) =
        placed o (book (own_side sell) e.market) l' f in
      elim (Bool-cases sell) [
        | inl yes_ ↦ record {
          own = inr (ground (arith, put_at, s.asks, ok));
          other = ground (arith, s.bids);
        }
        | inr no_ ↦ record {
          own = inr (ground (arith, put_at, s.bids, ok));
          other = ground (arith, s.asks);
        }
      ]

  pub order_put_future-Put : Put (order_put_future o e).1
  unfolding order_put_future
  order_put_future-Put =
      step_rule Put (put_orders o e) (put_users o ∷ put_user_orders o ∷ put_book o ∷ []) e
        (Same-Put e (record { asks = refl; bids = refl }))
        λ a ha.
          let sa =
            Keeps-Same e a (put_orders-Keeps o e a ha) (record { asks = refl; bids = refl }) in
          step_rule Put (put_users o a) (put_user_orders o ∷ put_book o ∷ []) a (Same-Put a sa)
            λ b hb.
              let sb = Keeps-Same a b (put_users-Keeps o a b hb) sa in
              step_rule Put (put_user_orders o b) (put_book o ∷ []) b (Same-Put b sb) λ c hc.
                let sc = Keeps-Same b c (put_user_orders-Keeps o b c hc) sb in
                step_rule Put (put_book o c) [] c (Same-Put c sc) λ g hg. put_book-Put c g sc hg
