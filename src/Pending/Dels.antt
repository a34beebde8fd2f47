-- ===== src/Pending/Dels.antt =====
-- A request that no longer waits (`nw_state_del` of network/src/nw_state.c).
use viabtc_future.Prelude.{
  ℕ, suc, ◌+◌, ◌%◌, ◌<◌, ◌≡◌, refl, ap, none, some, List, [], ◌∷◌, arith, length, if◌then◌else◌,
  ◌==◌, ==_iff, is_some, inl, inr, Option-cases,
}
use viabtc_future.Pending.{
  StateEntry, NwState, get_from, nw_state_get, unlink_entry, write_slot, state_remove, nw_state_del,
}
use viabtc_future.Pending.Chains.{Apart, total-write_slot}
use viabtc_future.Pending.Grow.{IsState}

module _ {D : Type 0} where
  get_from-unlink_entry :
      (id j : ℕ) (xs : List (StateEntry D))
      → Apart xs
      → get_from j (unlink_entry id xs) ≡ (if id == j then none else get_from j xs)
  unfolding get_from unlink_entry
  get_from-unlink_entry id j [] h = ground arith
  get_from-unlink_entry id j (x ∷ xs) h =
      ground
        (arith, get_from-unlink_entry id j xs h.1, ==_iff x.id id, ==_iff x.id j, ==_iff id j, h.0)

  unlink_entry-Apart : (id : ℕ) (xs : List (StateEntry D)) → Apart xs → Apart (unlink_entry id xs)
  unfolding unlink_entry
  unlink_entry-Apart id [] h = tt
  unlink_entry-Apart id (x ∷ xs) h =
      ground (arith, unlink_entry-Apart id xs h.1, get_from-unlink_entry id x.id xs h.1)

  length-unlink_entry :
      (id : ℕ) (x : StateEntry D) (xs : List (StateEntry D))
      → get_from id xs ≡ some x
      → suc (length (unlink_entry id xs)) ≡ length xs
  unfolding get_from unlink_entry
  length-unlink_entry id y [] h = ground (arith, h)
  length-unlink_entry id y (x ∷ xs) h = ground (arith, length-unlink_entry id y xs, h)

  -- The state has no entry of an id, and every other id as before.
  pub record Removed (id : ℕ) (before after : NwState D) : Type 0 where
    pub sound : IsState after
    pub one_less : after.used + (if is_some (nw_state_get id before) then 1 else 0) ≡ before.used
    pub gets : (j : ℕ) → nw_state_get j after ≡ (if id == j then none else nw_state_get j before)

  found-Removed :
      (id : ℕ) (x : StateEntry D) (context : NwState D)
      → IsState context
      → nw_state_get id context ≡ some x
      → Removed id context (state_remove id context)
  unfolding state_remove nw_state_get write_slot
  found-Removed id x context h found =
      let size = context.table_size in
      let table = context.table in
      let index = id % size in
      let inside : index < size = omega (arith, h.some_slot) in
      let chain = unlink_entry id (table index) in
      let shorter = length-unlink_entry id x (table index) found in
      let counts = total-write_slot size 0 index chain table in
      rw found (record {
        sound = record {
          placed = (
            λ i.
                ground
                  (arith, unlink_entry-Apart id (table index) (h.placed.0 index), h.placed.0 i),
            λ i j other. ground (
              arith,
              get_from-unlink_entry id j (table index) (h.placed.0 index),
              ==_iff i index,
              h.placed.1 i j other,
              h.placed.1 index j,
              other,
            ),
          );
          counted = ground (arith, h.counted, counts, shorter, inside);
          some_slot = h.some_slot;
          small = h.small;
          in_range = h.in_range;
        };
        one_less = ground (arith, h.counted, counts, shorter, inside);
        gets = λ j. ground (
          arith,
          get_from-unlink_entry id j (table index) (h.placed.0 index),
          h.placed.1 index j,
          ==_iff id j,
          ==_iff (j % size) index,
          ap (λ i. i % size) {x = id} {y = j},
          ap table {x = j % size} {y = index},
        );
      })

  absent-Removed :
      (id : ℕ) (context : NwState D)
      → IsState context
      → nw_state_get id context ≡ none
      → Removed id context context
  absent-Removed id context h absent = record {
    sound = h;
    one_less = ground (arith, absent);
    gets =
        λ j. ground (arith, absent, ==_iff id j, ap (λ i. nw_state_get i context) {x = id} {y = j});
  }

  state_remove-Removed :
      (id : ℕ) (context : NwState D)
      → IsState context
      → Removed id context (state_remove id context)
  unfolding state_remove nw_state_get
  state_remove-Removed id context h = elim (Option-cases (nw_state_get id context)) [
    | inl absent ↦ rw absent (absent-Removed id context h absent)
    | inr (x, found) ↦ found-Removed id x context h found
  ]

  -- The answer of `nw_state_del` says whether the id was in use. Then it is free, and every other id
  -- is looked up as before.
  pub nw_state_del-Removed :
      (id : ℕ) (context : NwState D)
      → IsState context
      → ((nw_state_del id context).0 ≡ is_some (nw_state_get id context))
        × Removed id context (nw_state_del id context).1
  unfolding nw_state_del
  nw_state_del-Removed id context h = elim (Option-cases (nw_state_get id context)) [
    | inl absent ↦ rw absent (refl, absent-Removed id context h absent)
    | inr (x, found) ↦ rw found (refl, state_remove-Removed id context h)
  ]
