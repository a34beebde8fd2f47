-- ===== src/Pending/Adds.antt =====
-- A request that starts to wait (`nw_state_add` of network/src/nw_state.c).
use viabtc_future.Prelude.{
  ℕ, ◌+◌, ◌-◌, ◌^◌, ◌<◌, ◌≡◌, ◌≢◌, ◌⊎◌, refl, ◌∙◌, true, false, Option, none, some, arith,
  if◌then◌else◌, ◌==◌, is_some, inl, inr, Bool-cases, Option-cases,
}
use viabtc_future.Pending.{
  StateEntry, NwState, nw_state_get, available_from, get_available_id, add_entry, nw_state_add,
  expand_if_needed,
}
use viabtc_future.Pending.Chains.{link_entry-InPlace, look-link_entry, total-link_entry}
use viabtc_future.Pending.Grow.{IsState, expand_if_needed-Grown}
use viabtc_future.Pending.Ids.{available_from_ends, available_from-free}

module _ {D : Type 0} where
  -- The state has one entry more, and every other id as before.
  pub record Added (entry : StateEntry D) (before after : NwState D) : Type 0 where
    pub sound : IsState after
    pub one_more : after.used ≡ before.used + 1
    pub gets :
        (id : ℕ)
        → nw_state_get id after ≡ (if entry.id == id then some entry else nw_state_get id before)

  pub add_entry-Added :
      (id timeout : ℕ) (zeros : D) (context : NwState D)
      → IsState context
      → context.used < 2 ^ 30
      → nw_state_get id context ≡ none
      → Added
          record { id = id; timeout = timeout; content = zeros }
          context
          (add_entry id timeout zeros context)
  unfolding add_entry nw_state_get
  add_entry-Added id timeout zeros context h low fresh =
      let entry : StateEntry D = record { id = id; timeout = timeout; content = zeros } in
      let larger = expand_if_needed context in
      let g = expand_if_needed-Grown context h low in
      let size = larger.table_size in
      record {
        sound = record {
          placed =
              link_entry-InPlace size entry larger.table g.sound.placed (g.same_get id ∙ fresh);
          counted =
              omega (
                arith,
                g.sound.counted,
                total-link_entry size entry larger.table g.sound.some_slot,
              );
          some_slot = g.sound.some_slot;
          small = g.sound.small;
          in_range = g.sound.in_range;
        };
        one_more = omega (arith, g.same_used);
        gets = λ id'. ground (arith, look-link_entry size entry larger.table id', g.same_get id');
      }

  -- What `nw_state_add` answers: an id is refused as it is in use, or the entry has an id that was free.
  abbrev pub Adds : ℕ → ℕ → D → NwState D → Option (Option ℕ × NwState D) → Type 0
  Adds timeout id zeros before result =
      ((id ≢ 0) × (is_some (nw_state_get id before) ≡ true) × (result ≡ some (none, before)))
      ⊎ ((id' : ℕ) × (after : NwState D) × (result ≡ some (some id', after))
          × ((id ≡ 0) ⊎ (id' ≡ id))
          × (id' ≢ 0)
          × (nw_state_get id' before ≡ none)
          × Added record { id = id'; timeout = timeout; content = zeros } before after)

  -- In a sound state of fewer than 2^30 entries, a call with an id in use is refused and changes nothing;
  -- any other call adds one entry, under the id that is asked for or, for 0, under a free one that
  -- is not 0. The new state is sound, and every other id is looked up as before.
  pub nw_state_add-Adds :
      (timeout id : ℕ) (zeros : D) (context : NwState D)
      → IsState context
      → context.used < 2 ^ 30
      → Adds timeout id zeros context (nw_state_add timeout id zeros context)
  unfolding nw_state_add get_available_id nw_state_get
  nw_state_add-Adds timeout id zeros context h low =
      let room : (context.used == 2 ^ 32 - 1) ≡ false = ground (arith, low) in
      elim (Bool-cases (id == 0)) [
        | inl any ↦ elim (Option-cases (available_from (2 ^ 32) context.id_start context)) [
          | inl fails ↦
              elim (available_from_ends context.id_start context h low h.in_range fails) [ ]
          | inr (id', found) ↦
              let free = available_from-free (2 ^ 32) context.id_start context id' found in
              let moved = record context { id_start = id' } in
              let h' : IsState moved = record {
                placed = h.placed;
                counted = h.counted;
                some_slot = h.some_slot;
                small = h.small;
                in_range = free.2;
              } in
              let a = add_entry-Added id' timeout zeros moved h' low free.0 in
              inr (
                id',
                add_entry id' timeout zeros moved,
                rw (any, room, found) refl,
                inl (ground (arith, any)),
                free.1,
                free.0,
                record { sound = a.sound; one_more = a.one_more; gets = a.gets },
              )
        ]
        | inr given ↦ elim (Option-cases (nw_state_get id context)) [
          | inl fresh ↦ inr (
            id,
            add_entry id timeout zeros context,
            rw (given, room, fresh) refl,
            inr refl,
            ground (arith, given),
            fresh,
            add_entry-Added id timeout zeros context h low fresh,
          )
          | inr (x, found) ↦ inl (ground (arith, given), rw found refl, rw (given, found) refl)
        ]
      ]
