-- ===== src/Market/Liquidation/Lists.antt =====
-- Lists of ids, newest first, and books in which orders are looked up by id
-- (matchengine/src/me_market.c).
use Prim.Native.Nat.{Ordering}
use viabtc_future.Prelude.{
  ℕ, ◌≤◌, ◌<◌, ◌≡◌, ◌≢◌, refl, ap, sym, ◌∙◌, true, false, Bool-cases, Option-cases, inl, inr, ◌==◌,
  ==_iff, Option, none, some, List, [], ◌∷◌, All, arith, length,
}
use viabtc_future.Skiplist.{find, find_from, delete, remove}
use viabtc_future.Skiplist.Laws.{IsSorted}
use viabtc_future.Market.Defs.{Order}
use viabtc_future.Market.Book.{order_match_compare, order_id_compare, same_order, mem, erase}
use viabtc_future.Market.Book.Undone.{erase_absent}
use viabtc_future.Market.Liquidation.{find_id}

abbrev pub Newest : List ℕ → Type 0
Newest = IsSorted order_id_compare

-- An id that the comparison puts first is larger.
compare-lt : (i j : ℕ) → order_id_compare i j ≡ Ordering.lt → j < i
compare-lt i j h = ground arith

last_hit :
    (i : ℕ) (l : List ℕ)
    → All (λ j. order_id_compare i j ≡ Ordering.lt) l
    → find_from order_id_compare (some i) i l ≡ some i
last_hit i [] h = ground (arith, ==_iff i i)
last_hit i (j ∷ l) h = ground (arith, h.0, ==_iff i i, ==_iff j i)

mem-below :
    (i x : ℕ) (l : List ℕ)
    → All (λ j. order_id_compare x j ≡ Ordering.lt) l
    → mem i l ≡ true
    → order_id_compare x i ≡ Ordering.lt
mem-below i x [] h m = ground arith
mem-below i x (j ∷ l) h m = ground (arith, h.0, mem-below i x l h.1, ==_iff j i)

find_from-mem :
    (last : Option ℕ) (i : ℕ) (l : List ℕ)
    → Newest l
    → mem i l ≡ true
    → find_from order_id_compare last i l ≡ some i
find_from-mem last i [] s m = ground arith
find_from-mem last i (x ∷ l) s m = ground (
  arith,
  ==_iff x i,
  last_hit i l,
  mem-below i x l s.0,
  find_from-mem (some x) i l s.1,
  ap (λ y. All (λ j. order_id_compare y j ≡ Ordering.lt) l) {x = x} {y = i},
)

mem-above : (x : ℕ) (l : List ℕ) → All (λ j. order_id_compare x j ≡ Ordering.lt) l → mem x l ≡ false
mem-above x [] h = refl
mem-above x (j ∷ l) h = ground (arith, h.0, mem-above x l h.1)

delete-erase :
    (i : ℕ) (l : List ℕ) → Newest l → mem i l ≡ true → delete order_id_compare ◌==◌ i l ≡ erase i l
delete-erase i [] s m = refl
delete-erase i (x ∷ l) s m =
    let absent : x ≡ i → erase i l ≡ l =
      λ same. erase_absent i l (ap (λ y. mem y l) (sym same) ∙ mem-above x l s.0) in
    ground (arith, ==_iff x i, delete-erase i l s.1, mem-below i x l s.0, absent)

-- An id that is in the list is found and taken out.
pub remove-erase :
    (i : ℕ) (l : List ℕ) → Newest l → mem i l ≡ true → remove order_id_compare ◌==◌ i l ≡ erase i l
remove-erase i l s m = ground (arith, find_from-mem none i l s m, delete-erase i l s m)

pub All-erase : (P : ℕ → Type 0) (i : ℕ) (l : List ℕ) → All P l → All P (erase i l)
All-erase P i [] h = tt
All-erase P i (x ∷ l) h = elim (Bool-cases (x == i)) [
  | inl same ↦ rw same (All-erase P i l h.1)
  | inr other ↦ rw other (h.0, All-erase P i l h.1)
]

pub erase-Newest : (i : ℕ) (l : List ℕ) → Newest l → Newest (erase i l)
erase-Newest i [] s = tt
erase-Newest i (x ∷ l) s = elim (Bool-cases (x == i)) [
  | inl same ↦ rw same (erase-Newest i l s.1)
  | inr other ↦
      rw other (All-erase (λ j. order_id_compare x j ≡ Ordering.lt) i l s.0, erase-Newest i l s.1)
]

length-erase_le : (i : ℕ) (l : List ℕ) → length (erase i l) ≤ length l
length-erase_le i [] = omega arith
length-erase_le i (x ∷ l) = ground (arith, length-erase_le i l)

pub length-erase : (i : ℕ) (l : List ℕ) → mem i l ≡ true → length (erase i l) < length l
length-erase i [] m = ground arith
length-erase i (x ∷ l) m = ground (arith, length-erase i l, length-erase_le i l)

-- A value found by a walk compares equal.
find_from-hit :
    {A : Type 0} (cmp : A → A → Ordering) (last : Option A) (v x : A) (l : List A)
    → find_from cmp last v l ≡ some x
    → cmp x v ≡ Ordering.eq
find_from-hit cmp none v x [] h = ground arith
find_from-hit cmp (some y) v x [] h = ground arith
find_from-hit cmp none v x (y ∷ l) h = ground (arith, find_from-hit cmp (some y) v x l)
find_from-hit cmp (some z) v x (y ∷ l) h = ground (arith, find_from-hit cmp (some y) v x l)

compare-eq : (x o : Order) → order_match_compare x o ≡ Ordering.eq → x.id ≡ o.id
compare-eq x o h = ground arith

find_id-delete :
    (cmp : Order → Order → Ordering) (j : ℕ) (x : Order) (l : List Order)
    → x.id ≢ j
    → find_id j (delete cmp same_order x l) ≡ find_id j l
find_id-delete cmp j x [] h = refl
find_id-delete cmp j x (y ∷ l) h =
    ground (arith, find_id-delete cmp j x l h, ==_iff y.id x.id, ==_iff y.id j)

find_id-remove_any :
    (cmp : Order → Order → Ordering) (j : ℕ) (o : Order) (l : List Order)
    → ((x : Order) → find cmp o l ≡ some x → x.id ≢ j)
    → find_id j (remove cmp same_order o l) ≡ find_id j l
find_id-remove_any cmp j o l h = elim (Option-cases (find cmp o l)) [
  | inl absent ↦ ground (arith, absent)
  | inr (x, found) ↦ ground (arith, found, find_id-delete cmp j x l (h x found))
]

-- Taking out an order changes no other lookup.
pub find_id-remove :
    (j : ℕ) (o : Order) (l : List Order)
    → o.id ≢ j
    → find_id j (remove order_match_compare same_order o l) ≡ find_id j l
find_id-remove j o l h =
    find_id-remove_any order_match_compare j o l (λ x found e.
      h (sym (compare-eq x o (find_from-hit order_match_compare none o x l found)) ∙ e))
