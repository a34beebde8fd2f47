-- ===== src/Market/Book.antt =====
-- The order book: `order_match_compare`, `order_id_compare`, `order_put_future` and
-- `order_finish_future` of matchengine/src/me_market.c.
pub mod Priority
pub mod Index
pub mod Put
pub mod Undone
use Prim.Native.Nat.{Ordering, compare}
use viabtc_future.Prelude.{
  ℕ, Bool, true, false, Option, none, some, List, [], ◌∷◌, ◌++◌, ◌||◌, ◌&&◌, ◌==◌, ltb, ◌+◌,
  if◌then◌else◌,
}
use viabtc_future.Prelude.Int.{ℤ, pos, pos_part, neg_part, ltb_ℤ}
use viabtc_future.Dict.{nat_eq, Dict, assign}
use viabtc_future.Dict
use viabtc_future.Skiplist.{insert, remove}
use viabtc_future.Market.Defs.{
  Order, Market, Engine, Event, sells, limit_type, plan_type, order_history,
}

-- `mpd_cmp`.
abbrev pub cmp_ℤ : ℤ → ℤ → Ordering
cmp_ℤ a b = compare (pos_part a + neg_part b) (pos_part b + neg_part a)

abbrev pub or_else : Ordering → Ordering → Ordering
or_else Ordering.eq b = b
or_else a b = a

-- `order_match_compare`: the cheaper seller and the dearer buyer first, then the older order.
abbrev pub order_match_compare : Order → Order → Ordering
order_match_compare o₁ o₂ =
    if o₁.id == o₂.id
    then Ordering.eq
    else if o₁.type == o₂.type
    then or_else (if sells o₁ then cmp_ℤ o₁.price o₂.price else cmp_ℤ o₂.price o₁.price)
        (if ltb o₂.id o₁.id then Ordering.gt else Ordering.lt)
    else Ordering.gt

-- `order_id_compare`, on ids: the newest first.
abbrev pub order_id_compare : ℕ → ℕ → Ordering
order_id_compare i j = if i == j then Ordering.eq else if ltb j i then Ordering.lt else Ordering.gt

abbrev pub same_order : Order → Order → Bool
same_order a b = a.id == b.id

abbrev pub mem : ℕ → List ℕ → Bool
mem i [] = false
mem i (j ∷ l) = (j == i) || mem i l

abbrev pub erase : ℕ → List ℕ → List ℕ
erase i [] = []
erase i (j ∷ l) = if j == i then erase i l else j ∷ erase i l

-- The list of a user gets the order; a new list is made for a user that has none.
abbrev pub index_user : ℕ → ℕ → Dict ℕ (List ℕ) → Option (Dict ℕ (List ℕ))
index_user user id d = elim (Dict.find user d) [
  | some l ↦ elim (insert order_id_compare id l) [ none ↦ none | some l' ↦ some (assign user l' d) ]
  | none ↦ some ((user, id ∷ []) ∷ d)
]

abbrev pub unindex_user : ℕ → ℕ → Dict ℕ (List ℕ) → Dict ℕ (List ℕ)
unindex_user user id d = elim (Dict.find user d) [
  | some l ↦ assign user (remove order_id_compare ◌==◌ id l) d
  | none ↦ d
]

-- The four parts of `order_put_future`; `none` is an early `return -__LINE__`.
abbrev pub put_orders : Order → Engine → Option Engine
put_orders o e =
    if mem o.id e.market.orders
    then none
    else some (record e { market = record (e.market) { orders = o.id ∷ e.market.orders } })

abbrev pub put_users : Order → Engine → Option Engine
put_users o e = elim (index_user o.user_id o.id e.market.users) [
  | none ↦ none
  | some d ↦ some (record e { market = record (e.market) { users = d } })
]

abbrev pub put_user_orders : Order → Engine → Option Engine
put_user_orders o e =
    if o.mm == 0
    then elim (index_user o.user_id o.id e.user_orders) [
      | none ↦ none
      | some d ↦ some (record e { user_orders = d })
    ]
    else some e

-- The four books by the tests of `order_put_future` and of `order_finish_future`.
pub data Side : Type 0 where
  asks bids plan_asks plan_bids : Side

abbrev pub put_side : Order → Side
put_side o =
    if sells o
    then if o.type == limit_type then asks else plan_asks
    else if o.type == limit_type
    then bids
    else plan_bids

abbrev pub finish_side : Order → Side
finish_side o =
    if sells o
    then if o.type == plan_type then plan_asks else asks
    else if o.type == plan_type
    then plan_bids
    else bids

abbrev pub book : Side → Market → List Order
book asks m = m.asks
book bids m = m.bids
book plan_asks m = m.plan_asks
book plan_bids m = m.plan_bids

abbrev pub set_book : Side → List Order → Market → Market
set_book asks l m = record m { asks = l }
set_book bids l m = record m { bids = l }
set_book plan_asks l m = record m { plan_asks = l }
set_book plan_bids l m = record m { plan_bids = l }

abbrev pub put_book : Order → Engine → Option Engine
put_book o e = elim (insert order_match_compare o (book (put_side o) e.market)) [
  | none ↦ none
  | some l ↦ some (record e { market = set_book (put_side o) l e.market })
]

-- Steps until the first that returns, which leaves what the others have done.
abbrev pub run_steps : List (Engine → Option Engine) → Engine → Bool × Engine
run_steps [] e = (true, e)
run_steps (step ∷ steps) e = elim (step e) [ none ↦ (false, e) | some e' ↦ run_steps steps e' ]

-- `order_put_future`: `true` for 0, `false` for a negative line number.
unfoldable pub order_put_future : Order → Engine → Bool × Engine
order_put_future o = run_steps (put_orders o ∷ put_users o ∷ put_user_orders o ∷ put_book o ∷ [])

abbrev pub emit : Bool → Event → Engine → Engine
emit real ev e = if real then record e { events = e.events ++ ev ∷ [] } else e

-- `order_finish_future`, which takes the order out of every index and frees it.
unfoldable pub order_finish_future : Bool → Order → Engine → Engine
order_finish_future real o e =
    let side = finish_side o in
    let m = e.market in
    let m' =
      set_book side (remove order_match_compare same_order o (book side m))
        (record m { orders = erase o.id m.orders; users = unindex_user o.user_id o.id m.users }) in
    let e' = record e { market = m'; user_orders = unindex_user o.user_id o.id e.user_orders } in
    emit (real && ltb_ℤ (pos 0) o.deal_stock && o.mm == 0) (order_history o) e'
