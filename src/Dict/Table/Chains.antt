-- ===== src/Dict/Table/Chains.antt =====
-- Chains of the hash table (utils/src/ut_dict.c): lookups among the entries that a test keeps.
use viabtc_future.Prelude.{
  ℕ, suc, ◌+◌, ◌-◌, ◌≤◌, ◌≡◌, refl, Bool, Option, none, some, List, [], ◌∷◌, arith, length,
  if◌then◌else◌, leb,
}
use viabtc_future.Dict.{Eq}
use viabtc_future.Dict.Table.{Entry, clear_chain, find_entry, write_val, unlink}

-- The first of two lookups that finds something.
abbrev pub or_else : {A : Type 0} → Option A → Option A → Option A
or_else none b = b
or_else (some a) b = some a

module _ {K V : Type 0} where
  abbrev pub filter : (Entry K V → Bool) → List (Entry K V) → List (Entry K V)
  filter p [] = []
  filter p (x ∷ xs) = if p x then x ∷ filter p xs else filter p xs

  -- The entries that `dict_mark_clear` has left.
  abbrev pub live : ℕ → Entry K V → Bool
  live id_clear x = leb id_clear x.id

  abbrev pub value : Option (Entry K V) → Option V
  value none = none
  value (some x) = some x.val

  -- An entry that is found, if the test keeps it.
  abbrev pub kept : (Entry K V → Bool) → Option (Entry K V) → Option (Entry K V)
  kept p none = none
  kept p (some x) = if p x then some x else none

  -- An entry that is found, with another value.
  abbrev pub written : V → Option (Entry K V) → Option (Entry K V)
  written v none = none
  written v (some x) = some record x { val = v }

  pub clear_chain-filter :
      (c : ℕ) (xs : List (Entry K V)) (used : ℕ)
      → length xs ≤ used
      → ((clear_chain c xs used).0 ≡ filter (live c) xs)
        × ((clear_chain c xs used).1 + length xs ≡ used + length (filter (live c) xs))
  unfolding clear_chain
  clear_chain-filter c [] used h = (refl, refl)
  clear_chain-filter c (x ∷ xs) used h =
      ground (arith, clear_chain-filter c xs used, clear_chain-filter c xs (used - 1))

  pub clear_chain-used :
      (c : ℕ) (xs : List (Entry K V)) (used : ℕ) → (clear_chain c xs used).1 ≤ used
  unfolding clear_chain
  clear_chain-used c [] used = omega arith
  clear_chain-used c (x ∷ xs) used =
      ground (arith, clear_chain-used c xs used, clear_chain-used c xs (used - 1))

  module _ ⦃e : Eq K⦄ where
    -- No key stands twice.
    abbrev pub Distinct : List (Entry K V) → Type 0
    Distinct [] = Unit
    Distinct (x ∷ xs) = (find_entry x.key xs ≡ none) × Distinct xs

    pub find_entry-filter :
        (p : Entry K V → Bool) (k : K) (xs : List (Entry K V))
        → find_entry k xs ≡ none
        → find_entry k (filter p xs) ≡ none
    unfolding find_entry
    find_entry-filter p k [] h = refl
    find_entry-filter p k (x ∷ xs) h = ground (arith, find_entry-filter p k xs)

    pub filter-Distinct :
        (p : Entry K V → Bool) (xs : List (Entry K V)) → Distinct xs → Distinct (filter p xs)
    filter-Distinct p [] h = tt
    filter-Distinct p (x ∷ xs) h =
        ground (arith, filter-Distinct p xs h.1, find_entry-filter p x.key xs h.0)

    -- In a chain of distinct keys a lookup behind a filter is a lookup and a test.
    pub find_entry-filter_kept :
        (p : Entry K V → Bool) (k : K) (xs : List (Entry K V))
        → Distinct xs
        → find_entry k (filter p xs) ≡ kept p (find_entry k xs)
    unfolding find_entry
    find_entry-filter_kept p k [] h = refl
    find_entry-filter_kept p k (x ∷ xs) h = ground (
      arith,
      find_entry-filter_kept p k xs h.1,
      find_entry-filter p x.key xs h.0,
      e.beq_iff k x.key,
    )

    pub find_entry-unlink :
        (j k : K) (xs : List (Entry K V))
        → Distinct xs
        → find_entry j (unlink k xs) ≡ (if e.beq k j then none else find_entry j xs)
    unfolding find_entry unlink
    find_entry-unlink j k [] h = ground arith
    find_entry-unlink j k (x ∷ xs) h =
        ground
          (arith, find_entry-unlink j k xs h.1, e.beq_iff x.key k, e.beq_iff k j, e.beq_iff j x.key)

    pub unlink-Distinct : (k : K) (xs : List (Entry K V)) → Distinct xs → Distinct (unlink k xs)
    unfolding unlink
    unlink-Distinct k [] h = tt
    unlink-Distinct k (x ∷ xs) h =
        ground (arith, unlink-Distinct k xs h.1, find_entry-unlink x.key k xs h.1)

    pub find_entry-write_val :
        (j k : K) (v : V) (xs : List (Entry K V))
        → find_entry j (write_val k v xs)
          ≡ (if e.beq k j then written v (find_entry j xs) else find_entry j xs)
    unfolding find_entry write_val
    find_entry-write_val j k v [] = ground arith
    find_entry-write_val j k v (x ∷ xs) =
        ground (
          arith,
          find_entry-write_val j k v xs,
          e.beq_iff k x.key,
          e.beq_iff k j,
          e.beq_iff j x.key,
        )

    pub write_val-Distinct :
        (k : K) (v : V) (xs : List (Entry K V)) → Distinct xs → Distinct (write_val k v xs)
    unfolding write_val
    write_val-Distinct k v [] h = tt
    write_val-Distinct k v (x ∷ xs) h =
        ground (arith, write_val-Distinct k v xs h.1, find_entry-write_val x.key k v xs)

    pub length-write_val :
        (k : K) (v : V) (xs : List (Entry K V)) → length (write_val k v xs) ≡ length xs
    unfolding write_val
    length-write_val k v [] = refl
    length-write_val k v (x ∷ xs) = ground (arith, length-write_val k v xs)

    pub length-unlink :
        (k : K) (x : Entry K V) (xs : List (Entry K V))
        → find_entry k xs ≡ some x
        → suc (length (unlink k xs)) ≡ length xs
    unfolding unlink find_entry
    length-unlink k y [] h = ground arith
    length-unlink k y (x ∷ xs) h =
        ground (arith, length-unlink k y xs, e.beq_iff x.key k, e.beq_iff k x.key)
