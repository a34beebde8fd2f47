-- ===== src/Skiplist.antt =====
-- utils/src/ut_skiplist.c on its bottom level, where the nodes form one list: `skiplist_insert`,
-- `skiplist_find` and `skiplist_delete` walk past the nodes that compare low enough, and look at
-- the node where the walk ended. The upper levels are left out: they hold some of these nodes, in
-- the same order, and a walk over them stops at a node that compares low enough.
pub mod Laws
use Prim.Native.Nat.{Ordering}
use viabtc_future.Prelude.{Bool, true, false, Option, none, some, List, [], ◌∷◌, if◌then◌else◌}

abbrev pub is_eq : Ordering → Bool
is_eq Ordering.eq = true
is_eq _ = false

abbrev pub map_option : {A B : Type 0} → (A → B) → Option A → Option B
map_option f none = none
map_option f (some a) = some (f a)

module _ {A : Type 0} (cmp : A → A → Ordering) where
  -- The node where the walk ended, `none` for the header, compares equal to `v`.
  abbrev pub hit : Option A → A → Bool
  hit none v = false
  hit (some x) v = is_eq (cmp x v)

  -- The walk goes on while the next node compares at most `v`.
  abbrev pub insert_from : Option A → A → List A → Option (List A)
  insert_from last v [] = if hit last v then none else some (v ∷ [])
  insert_from last v (x ∷ l) = elim (cmp x v) [
    | Ordering.gt ↦ if hit last v then none else some (v ∷ x ∷ l)
    | _ ↦ map_option (◌∷◌ x) (insert_from (some x) v l)
  ]

  -- `skiplist_insert`: `none` for NULL.
  abbrev pub insert : A → List A → Option (List A)
  insert v l = insert_from none v l

  abbrev pub find_from : Option A → A → List A → Option A
  find_from last v [] = if hit last v then last else none
  find_from last v (x ∷ l) = elim (cmp x v) [
    | Ordering.gt ↦ if hit last v then last else none
    | _ ↦ find_from (some x) v l
  ]

  -- `skiplist_find`.
  abbrev pub find : A → List A → Option A
  find v l = find_from none v l

  -- `skiplist_delete`: the walk stops before the first node that is not below `x`, and unlinks it
  -- only if it is the node `x` itself.
  abbrev pub delete : (A → A → Bool) → A → List A → List A
  delete same x [] = []
  delete same x (y ∷ l) = elim (cmp y x) [
    | Ordering.lt ↦ y ∷ delete same x l
    | _ ↦ if same y x then l else y ∷ l
  ]

  -- The pair that every caller in the matching engine makes: find the node, and delete it if it
  -- is there.
  abbrev pub remove : (A → A → Bool) → A → List A → List A
  remove same v l = elim (find v l) [ none ↦ l | some x ↦ delete same x l ]
