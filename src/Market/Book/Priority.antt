-- ===== src/Market/Book/Priority.antt =====
-- `order_match_compare` of matchengine/src/me_market.c on the orders of one book. It is no order
-- across types, which shows in the plan books.
use Prim.Native.Nat.{Ordering}
use viabtc_future.Prelude.{ℕ, Bool, true, false, ◌≡◌, ◌≢◌, ◌<◌, ◌⊎◌, ◌↔◌, arith}
use viabtc_future.Prelude.Int.{◌<ℤ◌, eq_of_parts}
use viabtc_future.Skiplist.Laws.{Orders}
use viabtc_future.Market.Defs.{Order, sells}
use viabtc_future.Market.Book.{order_match_compare}

-- The orders of one book: one type, and one direction.
abbrev pub InBook : ℕ → Bool → Order → Type 0
InBook t s o = (o.type ≡ t) × (sells o ≡ s)

-- `a` trades before `b`: at a better price, or at the same price with an older id.
abbrev pub Before : Bool → Order → Order → Type 0
Before true a b = (a.price <ℤ b.price) ⊎ ((a.price ≡ b.price) × (a.id < b.id))
Before false a b = (b.price <ℤ a.price) ⊎ ((a.price ≡ b.price) × (a.id < b.id))

module _ (t : ℕ) (s : Bool) where
  compare_refl : (a : Order) → order_match_compare a a ≡ Ordering.eq
  compare_refl a = ground arith

  compare_flip :
      (a b : Order)
      → InBook t s a
      → InBook t s b
      → order_match_compare a b ≡ Ordering.gt
      → order_match_compare b a ≡ Ordering.lt
  compare_flip a b ia ib h = ground arith

  compare_asym :
      (a b : Order)
      → InBook t s a
      → InBook t s b
      → order_match_compare a b ≡ Ordering.lt
      → order_match_compare b a ≡ Ordering.gt
  compare_asym a b ia ib h = ground arith

  compare_trans :
      (a b c : Order)
      → InBook t s a
      → InBook t s b
      → InBook t s c
      → order_match_compare c a ≢ Ordering.eq
      → order_match_compare a b ≡ Ordering.lt
      → order_match_compare b c ≡ Ordering.lt
      → order_match_compare a c ≡ Ordering.lt
  compare_trans a b c ia ib ic ne h k = ground arith

  pub book-Orders : Orders (InBook t s) order_match_compare
  book-Orders = record {
    cmp_refl = compare_refl;
    cmp_flip = compare_flip;
    cmp_trans = compare_trans;
    cmp_asym = compare_asym;
  }

-- Between different orders of one book the comparison is exactly price-time priority: the better
-- price first, and at one price the smaller id.
pub compare-Before :
    (t : ℕ) (s : Bool) (a b : Order)
    → InBook t s a
    → InBook t s b
    → a.id ≢ b.id
    → (order_match_compare a b ≡ Ordering.lt) ↔ Before s a b
compare-Before t true a b ia ib ne =
    (λ h. ground (arith, eq_of_parts a.price b.price), λ h. ground arith)
compare-Before t false a b ia ib ne =
    (λ h. ground (arith, eq_of_parts a.price b.price), λ h. ground arith)
