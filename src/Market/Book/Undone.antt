-- ===== src/Market/Book/Undone.antt =====
-- `order_finish_future` after `order_put_future` (matchengine/src/me_market.c), on the books and the
-- orders of the market.
use viabtc_future.Prelude.{
  ℕ, Bool, true, false, ◌≡◌, ◌≢◌, ◌⊎◌, inl, inr, refl, sym, ap, ◌∙◌, List, [], ◌∷◌, arith, Option,
  none, some, Option-cases,
}
use mathlib.Core.Path.{subst}
use viabtc_future.Dict.{nat_eq}
use viabtc_future.Skiplist.{insert, remove}
use viabtc_future.Skiplist.Laws.{Fresh, place, insert-place, remove-place, remove-Fresh}
use viabtc_future.Market.Defs.{Order, Market, Engine, limit_type, plan_type}
use viabtc_future.Market.Book.{
  order_match_compare, same_order, mem, erase, Side, asks, bids, plan_asks, plan_bids, book,
  set_book, put_side, finish_side, put_orders, put_users, put_user_orders, put_book, index_user,
  unindex_user, run_steps, order_put_future, order_finish_future,
}
use viabtc_future.Market.Book.Index.{step_rule, some_inj, put_book-Keeps}

-- The books and the orders of a market, without the indexes by user.
pub record Same (m m' : Market) : Type 0 where
  pub orders : m'.orders ≡ m.orders
  pub books : (s : Side) → book s m' ≡ book s m

pub erase_absent : (i : ℕ) (l : List ℕ) → mem i l ≡ false → erase i l ≡ l
erase_absent i [] h = refl
erase_absent i (j ∷ l) h = ground (arith, erase_absent i l)

book-set_book_here : (s : Side) (l : List Order) (m : Market) → book s (set_book s l m) ≡ l
book-set_book_here asks l m = refl
book-set_book_here bids l m = refl
book-set_book_here plan_asks l m = refl
book-set_book_here plan_bids l m = refl

book-set_book :
    (s t : Side) (l : List Order) (m : Market) → (s ≡ t) ⊎ (book s (set_book t l m) ≡ book s m)
book-set_book asks asks l m = inl refl
book-set_book asks bids l m = inr refl
book-set_book asks plan_asks l m = inr refl
book-set_book asks plan_bids l m = inr refl
book-set_book bids asks l m = inr refl
book-set_book bids bids l m = inl refl
book-set_book bids plan_asks l m = inr refl
book-set_book bids plan_bids l m = inr refl
book-set_book plan_asks asks l m = inr refl
book-set_book plan_asks bids l m = inr refl
book-set_book plan_asks plan_asks l m = inl refl
book-set_book plan_asks plan_bids l m = inr refl
book-set_book plan_bids asks l m = inr refl
book-set_book plan_bids bids l m = inr refl
book-set_book plan_bids plan_asks l m = inr refl
book-set_book plan_bids plan_bids l m = inl refl

pub set_book-orders : (t : Side) (l : List Order) (m : Market) → (set_book t l m).orders ≡ m.orders
set_book-orders asks l m = refl
set_book-orders bids l m = refl
set_book-orders plan_asks l m = refl
set_book-orders plan_bids l m = refl

book_indexes :
    (s : Side) (m : Market) (ids : List ℕ) (users : _)
    → book s (record m { orders = ids; users = users }) ≡ book s m
book_indexes asks m ids users = refl
book_indexes bids m ids users = refl
book_indexes plan_asks m ids users = refl
book_indexes plan_bids m ids users = refl

-- The id is in `orders`, and the books are as they were.
record Indexed (o : Order) (m m' : Market) : Type 0 where
  orders : m'.orders ≡ o.id ∷ m.orders
  books : (s : Side) → book s m' ≡ book s m

put_orders-Indexed :
    (o : Order) (e e' : Engine) → put_orders o e ≡ some e' → Indexed o e.market e'.market
put_orders-Indexed o e e' h =
    let same : e'.market ≡ record (e.market) { orders = o.id ∷ e.market.orders } = ground arith in
    record {
      orders = ap (λ (m : Market). m.orders) same;
      books =
          λ s. ap (book s) same ∙ book_indexes s e.market (o.id ∷ e.market.orders) e.market.users;
    }

put_users-Same : (o : Order) (e e' : Engine) → put_users o e ≡ some e' → Same e.market e'.market
put_users-Same o e e' h = elim (Option-cases (index_user o.user_id o.id e.market.users)) [
  | inl bad ↦ absurd (ground arith)
  | inr (d, ok) ↦
      let same : e'.market ≡ record (e.market) { users = d } = ground arith in
      record {
        orders = ap (λ (m : Market). m.orders) same;
        books = λ s. ap (book s) same ∙ book_indexes s e.market e.market.orders d;
      }
]

put_user_orders-Same :
    (o : Order) (e e' : Engine) → put_user_orders o e ≡ some e' → e'.market ≡ e.market
put_user_orders-Same o e e' h = elim (Option-cases (index_user o.user_id o.id e.user_orders)) [
  | inl bad ↦ ground arith
  | inr (d, ok) ↦ ground arith
]

module _ (o : Order) (m : Market) where
  -- Whatever `order_put_future` returned, once the id is in `orders`.
  record Placed (m' : Market) : Type 0 where
    orders : m'.orders ≡ o.id ∷ m.orders
    own :
        (book (put_side o) m' ≡ book (put_side o) m)
        ⊎ (book (put_side o) m' ≡ place order_match_compare o (book (put_side o) m))
    others : (s : Side) → (s ≡ put_side o) ⊎ (book s m' ≡ book s m)

  Indexed-Placed : (m' : Market) → Indexed o m m' → Placed m'
  Indexed-Placed m' i = record {
    orders = i.orders;
    own = inl (i.books (put_side o));
    others = λ s. inr (i.books s);
  }

  -- The order stands in its place.
  put_book-own :
      (e e' : Engine)
      → Fresh order_match_compare o (book (put_side o) m)
      → Indexed o m e.market
      → put_book o e ≡ some e'
      → book (put_side o) e'.market ≡ place order_match_compare o (book (put_side o) m)
  put_book-own e e' f i h =
      let (l', ok, after) = put_book-Keeps o e e' h in
      let side = put_side o in
      let inserted : l' ≡ place order_match_compare o (book side m) = sym (
        some_inj (
          sym (insert-place order_match_compare o (book side m) f)
          ∙ ap (insert order_match_compare o) (sym (i.books side))
          ∙ ok)) in
      ap (book side) after ∙ book-set_book_here side l' e.market ∙ inserted

  put_book-Placed :
      (e e' : Engine)
      → Fresh order_match_compare o (book (put_side o) m)
      → Indexed o m e.market
      → put_book o e ≡ some e'
      → Placed e'.market
  put_book-Placed e e' f i h =
      let (l', ok, after) = put_book-Keeps o e e' h in
      let side = put_side o in
      record {
        orders = ap (λ (x : Market). x.orders) after ∙ set_book-orders side l' e.market ∙ i.orders;
        own = inr (put_book-own e e' f i h);
        others = λ s. elim (book-set_book s side l' e.market) [
          | inl here ↦ inl here
          | inr away ↦ inr (ap (book s) after ∙ away ∙ i.books s)
        ];
      }

-- What `run_steps` does behind a step.
abbrev next_steps : List (Engine → Option Engine) → Engine → Option Engine → Bool × Engine
next_steps steps e none = (false, e)
next_steps steps e (some e') = run_steps steps e'

put_Placed :
    (o : Order) (e : Engine)
    → mem o.id e.market.orders ≡ false
    → Fresh order_match_compare o (book (put_side o) e.market)
    → Placed o e.market (order_put_future o e).1.market
unfolding order_put_future
put_Placed o e new f =
    let m = e.market in
    let P = λ (x : Engine). Placed o m x.market in
    let e₁ = record e { market = record m { orders = o.id ∷ m.orders } } in
    let first : put_orders o e ≡ some e₁ = ground arith in
    let i₁ = put_orders-Indexed o e e₁ first in
    let start : order_put_future o e
        ≡ run_steps (put_users o ∷ put_user_orders o ∷ put_book o ∷ []) e₁ =
      ap (λ (x : Option Engine). next_steps (put_users o ∷ put_user_orders o ∷ put_book o ∷ []) e x)
        first in
    subst (λ (r : Bool × Engine). P r.1) (sym start)
      (step_rule P (put_users o e₁) (put_user_orders o ∷ put_book o ∷ []) e₁
        (Indexed-Placed o m e₁.market i₁)
        λ e₂ h₂.
          let k₂ = put_users-Same o e₁ e₂ h₂ in
          let i₂ : Indexed o m e₂.market = record {
            orders = k₂.orders ∙ i₁.orders;
            books = λ s. k₂.books s ∙ i₁.books s;
          } in
          step_rule P (put_user_orders o e₂) (put_book o ∷ []) e₂ (Indexed-Placed o m e₂.market i₂)
            λ e₃ h₃.
              let i₃ : Indexed o m e₃.market = rw (put_user_orders-Same o e₂ e₃ h₃) i₂ in
              step_rule P (put_book o e₃) [] e₃ (Indexed-Placed o m e₃.market i₃)
                λ e₄ h₄. put_book-Placed o m e₃ e₄ f i₃ h₄)

-- The market that `order_finish_future` leaves.
abbrev pub finished : Order → Market → Market
finished o m =
    let side = finish_side o in
    set_book side (remove order_match_compare same_order o (book side m))
      (record m { orders = erase o.id m.orders; users = unindex_user o.user_id o.id m.users })

pub finish-finished :
    (real : Bool) (o : Order) (e : Engine)
    → (order_finish_future real o e).market ≡ finished o e.market
unfolding order_finish_future
finish-finished real o e = ground arith

module _ (o : Order) (m m' : Market) (new : mem o.id m.orders ≡ false)
    (f : Fresh order_match_compare o (book (put_side o) m)) (p : Placed o m m') where
  finished-orders : (finished o m').orders ≡ m.orders
  finished-orders =
      set_book-orders (finish_side o)
        (remove order_match_compare same_order o (book (finish_side o) m'))
        (record m' { orders = erase o.id m'.orders; users = unindex_user o.user_id o.id m'.users })
      ∙ ap (erase o.id) p.orders
      ∙ ground (arith, erase_absent o.id m.orders new)

  removed : remove order_match_compare same_order o (book (put_side o) m') ≡ book (put_side o) m
  removed = elim p.own [
    | inl same ↦
        rw same (remove-Fresh order_match_compare same_order o (ground arith) (ground arith) _ f)
    | inr put_ ↦
        rw put_ (remove-place order_match_compare same_order o (ground arith) (ground arith) _ f)
  ]

  finished_own :
      finish_side o ≡ put_side o → book (put_side o) (finished o m') ≡ book (put_side o) m
  finished_own same =
      let side = finish_side o in
      let l = remove order_match_compare same_order o (book side m') in
      let m₁ = record m' {
        orders = erase o.id m'.orders;
        users = unindex_user o.user_id o.id m'.users;
      } in
      ap (λ s. book s (set_book side l m₁)) (sym same)
      ∙ book-set_book_here side l m₁
      ∙ ap (λ s. remove order_match_compare same_order o (book s m')) same
      ∙ removed

  finished_other : (s : Side) → (s ≡ finish_side o) ⊎ (book s (finished o m') ≡ book s m')
  finished_other s =
      let side = finish_side o in
      let l = remove order_match_compare same_order o (book side m') in
      let m₁ = record m' {
        orders = erase o.id m'.orders;
        users = unindex_user o.user_id o.id m'.users;
      } in
      elim (book-set_book s side l m₁) [
        | inl here ↦ inl here
        | inr away ↦
            inr (
              away
              ∙ book_indexes s m' (erase o.id m'.orders) (unindex_user o.user_id o.id m'.users))
      ]

  finished-Same : finish_side o ≡ put_side o → Same m (finished o m')
  finished-Same same = record {
    orders = finished-orders;
    books = λ s. elim (p.others s) [
      | inl here ↦ subst (λ x. book x (finished o m') ≡ book x m) (sym here) (finished_own same)
      | inr away ↦ elim (finished_other s) [
        | inl here ↦
            subst (λ x. book x (finished o m') ≡ book x m) (sym (here ∙ same)) (finished_own same)
        | inr kept ↦ kept ∙ away
      ]
    ];
  }

-- Finishing a limit or plan order that was just put leaves the four books and `orders` as they were
-- before it was put, whatever `order_put_future` returned; the order's id is new, and it compares
-- equal to none of its book.
pub finish-put :
    (real : Bool) (o : Order) (e : Engine)
    → (o.type ≡ limit_type) ⊎ (o.type ≡ plan_type)
    → mem o.id e.market.orders ≡ false
    → Fresh order_match_compare o (book (put_side o) e.market)
    → Same e.market (order_finish_future real o (order_put_future o e).1).market
finish-put real o e kind new f =
    let e' = (order_put_future o e).1 in
    rw (finish-finished real o e')
      (finished-Same o e.market e'.market new f (put_Placed o e new f) (ground arith))

step_done :
    (r : Option Engine) (steps : List (Engine → Option Engine)) (e : Engine)
    → (next_steps steps e r).0 ≡ true
    → (e' : Engine) × (r ≡ some e') × (next_steps steps e r ≡ run_steps steps e')
step_done none steps e h = ground (arith, h)
step_done (some e') steps e h = (e', refl, refl)

-- An order that is put stands in its book and in `orders`.
put_done :
    (o : Order) (e : Engine)
    → Fresh order_match_compare o (book (put_side o) e.market)
    → (order_put_future o e).0 ≡ true
    → let m' = (order_put_future o e).1.market in
      Placed o e.market m'
      × (book (put_side o) m' ≡ place order_match_compare o (book (put_side o) e.market))
      × (mem o.id e.market.orders ≡ false)
unfolding order_put_future
put_done o e f done =
    let m = e.market in
    let (e₁, h₁, r₁) =
      step_done (put_orders o e) (put_users o ∷ put_user_orders o ∷ put_book o ∷ []) e done in
    let done₁ = ap (λ (x : Bool × Engine). x.0) (sym r₁) ∙ done in
    let (e₂, h₂, r₂) = step_done (put_users o e₁) (put_user_orders o ∷ put_book o ∷ []) e₁ done₁ in
    let done₂ = ap (λ (x : Bool × Engine). x.0) (sym r₂) ∙ done₁ in
    let (e₃, h₃, r₃) = step_done (put_user_orders o e₂) (put_book o ∷ []) e₂ done₂ in
    let done₃ = ap (λ (x : Bool × Engine). x.0) (sym r₃) ∙ done₂ in
    let (e₄, h₄, r₄) = step_done (put_book o e₃) [] e₃ done₃ in
    let i₁ = put_orders-Indexed o e e₁ h₁ in
    let k₂ = put_users-Same o e₁ e₂ h₂ in
    let i₂ : Indexed o m e₂.market = record {
      orders = k₂.orders ∙ i₁.orders;
      books = λ s. k₂.books s ∙ i₁.books s;
    } in
    let i₃ : Indexed o m e₃.market = rw (put_user_orders-Same o e₂ e₃ h₃) i₂ in
    let last = ap (λ (x : Bool × Engine). x.1.market) (r₁ ∙ r₂ ∙ r₃ ∙ r₄) in
    (
      subst (Placed o m) (sym last) (put_book-Placed o m e₃ e₄ f i₃ h₄),
      ap (book (put_side o)) last ∙ put_book-own o m e₃ e₄ f i₃ h₄,
      ground (arith, h₁),
    )

-- An order that is neither a limit nor a plan order, such as one of type 3, and that
-- `order_put_future` accepts goes into a plan book. Once it is finished, `orders` is as it was before,
-- but the order still stands in its place in that book. It compares equal to none of the book.
pub finish_leaves :
    (real : Bool) (o : Order) (e : Engine)
    → o.type ≢ limit_type
    → o.type ≢ plan_type
    → Fresh order_match_compare o (book (put_side o) e.market)
    → (order_put_future o e).0 ≡ true
    → let m' = (order_finish_future real o (order_put_future o e).1).market in
      ((put_side o ≡ plan_asks) ⊎ (put_side o ≡ plan_bids))
      × (m'.orders ≡ e.market.orders)
      × (book (put_side o) m' ≡ place order_match_compare o (book (put_side o) e.market))
finish_leaves real o e nl np f done =
    let e' = (order_put_future o e).1 in
    let (p, own, new) = put_done o e f done in
    let same = finish-finished real o e' in
    (
      ground arith,
      ap (λ (m : Market). m.orders) same ∙ finished-orders o e.market e'.market new f p,
      ap (book (put_side o)) same
          ∙ elim (finished_other o e.market e'.market new f p (put_side o)) [
            | inl here ↦ absurd (ground (arith, here, nl, np))
            | inr away ↦ away ∙ own
          ],
    )
