-- ===== src/Market/Book/Index.antt =====
-- What `order_put_future` and `order_finish_future` of matchengine/src/me_market.c do to the books
-- and to the indexes of a market.
use viabtc_future.Prelude.{
  ℕ, Bool, true, false, ◌≡◌, inl, inr, refl, sym, ◌∙◌, List, [], ◌∷◌, All, arith, Option, none,
  some, Option-cases,
}
use viabtc_future.Dict.{nat_eq}
use viabtc_future.Skiplist.{insert}
use viabtc_future.Skiplist.Laws.{IsSorted, Fresh, place, place-IsSorted, insert-place, place-All}
use viabtc_future.Market.Defs.{Order, Market, Engine, limit_type}
use viabtc_future.Market.Book.{
  order_match_compare, mem, book, Side, asks, bids, plan_asks, plan_bids, set_book, put_side,
  put_orders, put_users, put_user_orders, put_book, run_steps, order_put_future, index_user,
}
use viabtc_future.Market.Book.Priority.{InBook, book-Orders}

abbrev pub Known : List ℕ → Order → Type 0
Known ids o = mem o.id ids ≡ true

-- A live book: limit orders of one direction, in price-time priority, all in `orders`.
pub record IsBook (s : Bool) (ids : List ℕ) (l : List Order) : Type 0 where
  pub in_book : All (InBook limit_type s) l
  pub sorted : IsSorted order_match_compare l
  pub known : All (Known ids) l

pub record IsMarket (m : Market) : Type 0 where
  pub asks_book : IsBook true m.orders m.asks
  pub bids_book : IsBook false m.orders m.bids

-- An order that `orders` does not know compares equal to none that it knows.
pub Known-Fresh :
    (o : Order) (ids : List ℕ) (l : List Order)
    → mem o.id ids ≡ false
    → All (Known ids) l
    → Fresh order_match_compare o l
Known-Fresh o ids [] h k = tt
Known-Fresh o ids (x ∷ l) h k = (λ e. ground arith, Known-Fresh o ids l h k.1)

Known-grown : (i : ℕ) (ids : List ℕ) (l : List Order) → All (Known ids) l → All (Known (i ∷ ids)) l
Known-grown i ids [] k = tt
Known-grown i ids (x ∷ l) k = (ground arith, Known-grown i ids l k.1)

IsBook-grown :
    (i : ℕ) (s : Bool) (ids : List ℕ) (l : List Order) → IsBook s ids l → IsBook s (i ∷ ids) l
IsBook-grown i s ids l b = record {
  in_book = b.in_book;
  sorted = b.sorted;
  known = Known-grown i ids l b.known;
}

place-IsBook :
    (s : Bool) (o : Order) (ids : List ℕ) (l : List Order)
    → InBook limit_type s o
    → mem o.id ids ≡ false
    → IsBook s ids l
    → IsBook s (o.id ∷ ids) (place order_match_compare o l)
place-IsBook s o ids l io fresh b =
    let f = Known-Fresh o ids l fresh b.known in
    record {
      in_book = place-All order_match_compare (InBook limit_type s) o l io b.in_book;
      sorted =
          place-IsSorted order_match_compare (InBook limit_type s) (book-Orders limit_type s) o l io
            b.in_book f b.sorted;
      known =
          place-All order_match_compare (Known (o.id ∷ ids)) o l (ground arith)
            (Known-grown o.id ids l b.known);
    }

pub some_inj : {A : Type 0} {a b : A} → some a ≡ some b → a ≡ b
some_inj h = cc

-- What the side that `put_side` chooses says of the order.
abbrev Chosen : Order → Side → Type 0
Chosen o asks = InBook limit_type true o
Chosen o bids = InBook limit_type false o
Chosen o _ = Unit

put_side-Chosen : (o : Order) → Chosen o (put_side o)
put_side-Chosen o = ground arith

module _ (o : Order) (ids : List ℕ) (m : Market) (fresh : mem o.id ids ≡ false)
    (grown : m.orders ≡ o.id ∷ ids) (a : IsBook true ids m.asks) (b : IsBook false ids m.bids) where
  inserted :
      (s : Bool) (l l' : List Order)
      → IsBook s ids l
      → InBook limit_type s o
      → insert order_match_compare o l ≡ some l'
      → IsBook s m.orders l'
  inserted s l l' bk io e =
      let f = Known-Fresh o ids l fresh bk.known in
      let same = some_inj (sym (insert-place order_match_compare o l f) ∙ e) in
      rw (grown, ← same) (place-IsBook s o ids l io fresh bk)

  grown_asks : IsBook true m.orders m.asks
  grown_asks = rw grown (IsBook-grown o.id true ids m.asks a)

  grown_bids : IsBook false m.orders m.bids
  grown_bids = rw grown (IsBook-grown o.id false ids m.bids b)

  set_book-IsMarket :
      (side : Side) (l' : List Order)
      → Chosen o side
      → insert order_match_compare o (book side m) ≡ some l'
      → IsMarket (set_book side l' m)
  set_book-IsMarket asks l' c e = record {
    asks_book = inserted true m.asks l' a c e;
    bids_book = grown_bids;
  }
  set_book-IsMarket bids l' c e = record {
    asks_book = grown_asks;
    bids_book = inserted false m.bids l' b c e;
  }
  set_book-IsMarket plan_asks l' c e = record { asks_book = grown_asks; bids_book = grown_bids }
  set_book-IsMarket plan_bids l' c e = record { asks_book = grown_asks; bids_book = grown_bids }

-- A step that is taken leads to the next, and one that returns early leaves the state.
pub step_rule :
    (I : Engine → Type 0) (r : Option Engine) (steps : List (Engine → Option Engine)) (e : Engine)
    → I e
    → ((e' : Engine) → r ≡ some e' → I (run_steps steps e').1)
    → I
        (let next : Bool × Engine = elim r [ none ↦ (false, e) | some e' ↦ run_steps steps e' ] in
          next).1
step_rule I none steps e here next = here
step_rule I (some e') steps e here next = next e' refl

-- What the indexing steps leave alone.
pub record Keeps (e e' : Engine) : Type 0 where
  pub asks : e'.market.asks ≡ e.market.asks
  pub bids : e'.market.bids ≡ e.market.bids

pub put_orders-Keeps : (o : Order) (e e' : Engine) → put_orders o e ≡ some e' → Keeps e e'
put_orders-Keeps o e e' h = ground arith

put_users-orders :
    (o : Order) (e e' : Engine) → put_users o e ≡ some e' → e'.market.orders ≡ e.market.orders
put_users-orders o e e' h = elim (Option-cases (index_user o.user_id o.id e.market.users)) [
  | inl bad ↦ ground arith
  | inr (d, ok) ↦ ground arith
]

put_user_orders-orders :
    (o : Order) (e e' : Engine) → put_user_orders o e ≡ some e' → e'.market.orders ≡ e.market.orders
put_user_orders-orders o e e' h = elim (Option-cases (index_user o.user_id o.id e.user_orders)) [
  | inl bad ↦ ground arith
  | inr (d, ok) ↦ ground arith
]

pub put_users-Keeps : (o : Order) (e e' : Engine) → put_users o e ≡ some e' → Keeps e e'
put_users-Keeps o e e' h = elim (Option-cases (index_user o.user_id o.id e.market.users)) [
  | inl bad ↦ ground arith
  | inr (d, ok) ↦ ground arith
]

pub put_user_orders-Keeps : (o : Order) (e e' : Engine) → put_user_orders o e ≡ some e' → Keeps e e'
put_user_orders-Keeps o e e' h = elim (Option-cases (index_user o.user_id o.id e.user_orders)) [
  | inl bad ↦ ground arith
  | inr (d, ok) ↦ ground arith
]

pub put_book-Keeps :
    (o : Order) (e e' : Engine)
    → put_book o e ≡ some e'
    → (l' : List Order) × (insert order_match_compare o (book (put_side o) e.market) ≡ some l')
      × (e'.market ≡ set_book (put_side o) l' e.market)
put_book-Keeps o e e' h =
    elim (Option-cases (insert order_match_compare o (book (put_side o) e.market))) [
      | inl bad ↦ absurd (ground arith)
      | inr (l', ok) ↦ (l', ok, ground arith)
    ]

-- The id is in `orders`, and the live books are as they were before.
record Ready (o : Order) (ids : List ℕ) (e : Engine) : Type 0 where
  orders : e.market.orders ≡ o.id ∷ ids
  asks : IsBook true ids e.market.asks
  bids : IsBook false ids e.market.bids

Keeps-Ready :
    (o : Order) (ids : List ℕ) (e e' : Engine)
    → e'.market.orders ≡ e.market.orders
    → Keeps e e'
    → Ready o ids e
    → Ready o ids e'
Keeps-Ready o ids e e' same k r = record {
  orders = same ∙ r.orders;
  asks = rw k.asks r.asks;
  bids = rw k.bids r.bids;
}

put_orders-Ready :
    (o : Order) (e e' : Engine)
    → IsMarket e.market
    → put_orders o e ≡ some e'
    → Ready o e.market.orders e' × (mem o.id e.market.orders ≡ false)
put_orders-Ready o e e' ok h =
    let same : e'.market.asks ≡ e.market.asks = ground arith in
    let same' : e'.market.bids ≡ e.market.bids = ground arith in
    (
      record {
        orders = ground arith;
        asks = rw same (ok.asks_book);
        bids = rw same' (ok.bids_book);
      },
      ground arith,
    )

module _ (o : Order) (ids : List ℕ) (fresh : mem o.id ids ≡ false) where
  Ready-IsMarket : (e : Engine) → Ready o ids e → IsMarket e.market
  Ready-IsMarket e r = record {
    asks_book = grown_asks o ids e.market fresh r.orders r.asks r.bids;
    bids_book = grown_bids o ids e.market fresh r.orders r.asks r.bids;
  }

  put_book-Ready : (e e' : Engine) → Ready o ids e → put_book o e ≡ some e' → IsMarket e'.market
  put_book-Ready e e' r h =
      let (l', ok, after) = put_book-Keeps o e e' h in
      rw after (
        set_book-IsMarket o ids e.market fresh r.orders r.asks r.bids (put_side o) l'
          (put_side-Chosen o) ok)

abbrev Marketed : Engine → Type 0
Marketed e = IsMarket e.market

-- Whatever it returns, `order_put_future` keeps both live books in price-time priority, with limit
-- orders of the right direction alone, all of them in `orders`.
pub order_put_future-IsMarket :
    (o : Order) (e : Engine) → IsMarket e.market → IsMarket (order_put_future o e).1.market
unfolding order_put_future
order_put_future-IsMarket o e ok =
    step_rule Marketed (put_orders o e) (put_users o ∷ put_user_orders o ∷ put_book o ∷ []) e ok
      λ e₁ h₁.
        let (r₁, fresh) = put_orders-Ready o e e₁ ok h₁ in
        step_rule Marketed (put_users o e₁) (put_user_orders o ∷ put_book o ∷ []) e₁
          (Ready-IsMarket o e.market.orders fresh e₁ r₁)
          λ e₂ h₂.
            let r₂ =
              Keeps-Ready o e.market.orders e₁ e₂ (put_users-orders o e₁ e₂ h₂)
                (put_users-Keeps o e₁ e₂ h₂) r₁ in
            step_rule Marketed (put_user_orders o e₂) (put_book o ∷ []) e₂
              (Ready-IsMarket o e.market.orders fresh e₂ r₂)
              λ e₃ h₃.
                let r₃ =
                  Keeps-Ready o e.market.orders e₂ e₃ (put_user_orders-orders o e₂ e₃ h₃)
                    (put_user_orders-Keeps o e₂ e₃ h₃) r₂ in
                step_rule Marketed (put_book o e₃) [] e₃
                  (Ready-IsMarket o e.market.orders fresh e₃ r₃)
                  λ e₄ h₄. put_book-Ready o e.market.orders fresh e₃ e₄ r₃ h₄
