-- ===== src/Skiplist/Laws.antt =====
-- The list that a skip list of utils/src/ut_skiplist.c keeps: its order under the comparison, and
-- insertion against removal.
use Prim.Native.Nat.{Ordering}
use viabtc_future.Prelude.{
  ◌≡◌, ◌≢◌, refl, Bool, true, false, Option, none, some, List, [], ◌∷◌, All, arith,
}
use viabtc_future.Skiplist.{insert_from, insert, find_from, delete, remove, hit}

-- The comparison orders the values that `P` admits.
pub record Orders {A : Type 0} (P : A → Type 0) (cmp : A → A → Ordering) : Type 0 where
  pub cmp_refl : (x : A) → cmp x x ≡ Ordering.eq
  pub cmp_flip : (x y : A) → P x → P y → cmp x y ≡ Ordering.gt → cmp y x ≡ Ordering.lt
  pub cmp_trans :
      (x y z : A)
      → P x
      → P y
      → P z
      → cmp z x ≢ Ordering.eq
      → cmp x y ≡ Ordering.lt
      → cmp y z ≡ Ordering.lt
      → cmp x z ≡ Ordering.lt
  pub cmp_asym : (x y : A) → P x → P y → cmp x y ≡ Ordering.lt → cmp y x ≡ Ordering.gt

module _ {A : Type 0} (cmp : A → A → Ordering) where
  -- Each value is below all that follow.
  abbrev pub IsSorted : List A → Type 0
  IsSorted [] = Unit
  IsSorted (x ∷ l) = All (λ y. cmp x y ≡ Ordering.lt) l × IsSorted l

  -- No value of the list compares equal to `v`.
  abbrev pub Fresh : A → List A → Type 0
  Fresh v l = All (λ y. cmp y v ≢ Ordering.eq) l

  -- The list with `v` put before the first value that is above it.
  abbrev pub place : A → List A → List A
  place v [] = v ∷ []
  place v (x ∷ l) = elim (cmp x v) [ Ordering.gt ↦ v ∷ x ∷ l | _ ↦ x ∷ place v l ]

  insert_from-place :
      (last : Option A) (v : A) (l : List A)
      → hit cmp last v ≡ false
      → Fresh v l
      → insert_from cmp last v l ≡ some (place v l)
  insert_from-place last v [] h f = rw h
  insert_from-place last v (x ∷ l) h f = ground (arith, insert_from-place (some x) v l)

  -- A value that equals none in the list is put in its place.
  pub insert-place : (v : A) (l : List A) → Fresh v l → insert cmp v l ≡ some (place v l)
  insert-place v l f = insert_from-place none v l refl f

  pub place-All : (Q : A → Type 0) (v : A) (l : List A) → Q v → All Q l → All Q (place v l)
  place-All Q v [] q h = (q, tt)
  place-All Q v (x ∷ l) q h = ground (arith, place-All Q v l q h.1)

  module _ (P : A → Type 0) (laws : Orders P cmp) where
    open laws use {cmp_flip, cmp_trans, cmp_asym}

    All-below :
        (x y : A) (l : List A)
        → P x
        → P y
        → All P l
        → Fresh x l
        → cmp x y ≡ Ordering.lt
        → All (λ z. cmp y z ≡ Ordering.lt) l
        → All (λ z. cmp x z ≡ Ordering.lt) l
    All-below x y [] px py pl f h b = tt
    All-below x y (z ∷ l) px py pl f h b =
        (cmp_trans x y z px py pl.0 f.0 h b.0, All-below x y l px py pl.1 f.1 h b.1)

    -- An insertion keeps the list sorted.
    pub place-IsSorted :
        (v : A) (l : List A) → P v → All P l → Fresh v l → IsSorted l → IsSorted (place v l)
    place-IsSorted v [] pv pl f s = (tt, tt)
    place-IsSorted v (x ∷ l) pv pl f s = ground (
      arith,
      cmp_flip x v pl.0 pv,
      All-below v x l pv pl.0 pl.1 f.1,
      place-All (λ y. cmp x y ≡ Ordering.lt) v l,
      place-IsSorted v l pv pl.1 f.1 s.1,
    )

  module _ (same : A → A → Bool) (v : A) (self : cmp v v ≡ Ordering.eq) (is : same v v ≡ true) where
    find_from-Fresh :
        (last : Option A) (l : List A)
        → hit cmp last v ≡ false
        → Fresh v l
        → find_from cmp last v l ≡ none
    find_from-Fresh last [] h f = rw h
    find_from-Fresh last (x ∷ l) h f = ground (arith, find_from-Fresh (some x) l)

    find_from-place : (last : Option A) (l : List A) → find_from cmp last v (place v l) ≡ some v
    find_from-place last [] = rw (self, self)
    find_from-place last (x ∷ l) = ground (arith, find_from-place (some x) l)

    delete-place : (l : List A) → Fresh v l → delete cmp same v (place v l) ≡ l
    delete-place [] f = rw (self, is)
    delete-place (x ∷ l) f = ground (arith, delete-place l f.1)

    -- Removing what was just inserted gives the list back.
    pub remove-place : (l : List A) → Fresh v l → remove cmp same v (place v l) ≡ l
    remove-place l f = ground (arith, find_from-place none l, delete-place l f)

    -- The head of a sorted list is found and unlinked.
    pub remove_head :
        (l : List A) → All (λ y. cmp y v ≡ Ordering.gt) l → remove cmp same v (v ∷ l) ≡ l
    remove_head [] above = ground arith
    remove_head (x ∷ l) above = ground arith

    -- A value that is not in the list takes nothing out.
    pub remove-Fresh : (l : List A) → Fresh v l → remove cmp same v l ≡ l
    remove-Fresh l f = ground (arith, find_from-Fresh none l refl f)
