-- ===== src/Pending/Grow.antt =====
-- The table of waiting requests (network/src/nw_state.c), when it grows.
use viabtc_future.Prelude.{
  ℕ, zero, suc, ◌*◌, ◌%◌, ◌^◌, ◌<◌, ◌≡◌, refl, sym, [], arith, ltb, inl, inr, Bool-cases,
}
use viabtc_future.Pending.{
  NwState, get_from, nw_state_get, nw_state_create, expand_if_needed, move_table,
}
use viabtc_future.Pending.Chains.{
  total, InPlace, look-move_table, move_table-InPlace, total-move_table,
}

total-empty : (D : Type 0) (slots i : ℕ) → total {D = D} slots i (λ i. []) ≡ 0
total-empty D zero i = refl
total-empty D (suc slots) i = omega (arith, total-empty D slots (suc i))

module _ {D : Type 0} where
  -- Each id stands once, in its slot, and `used` counts the entries. A table of fewer than 2^30 slots
  -- can grow four times as large.
  pub record IsState (context : NwState D) : Type 0 where
    pub placed : InPlace context.table_size context.table
    pub counted : context.used ≡ total context.table_size 0 context.table
    pub some_slot : 0 < context.table_size
    pub small : context.table_size < 2 ^ 30
    pub in_range : context.id_start < 2 ^ 32

  empty-InPlace : (size : ℕ) → InPlace {D = D} size (λ i. [])
  unfolding get_from
  empty-InPlace size = (λ i. tt, λ i id h. refl)

  pub nw_state_create-IsState : IsState (nw_state_create {D = D})
  unfolding nw_state_create
  nw_state_create-IsState = record {
    placed = empty-InPlace 64;
    counted = sym (total-empty D 64 0);
    some_slot = omega arith;
    small = omega arith;
    in_range = omega arith;
  }

  pub record Grown (before after : NwState D) : Type 0 where
    pub sound : IsState after
    pub same_used : after.used ≡ before.used
    pub same_get : (id : ℕ) → nw_state_get id after ≡ nw_state_get id before

  larger-Grown :
      (context : NwState D) (size : ℕ)
      → IsState context
      → 0 < size
      → size < 2 ^ 30
      → Grown context record context {
        table = move_table size context.table_size 0 context.table (λ i. []);
        table_size = size;
      }
  unfolding nw_state_get get_from
  larger-Grown context size h pos low =
      let old = context.table_size in
      record {
        sound = record {
          placed =
              move_table-InPlace old context.table h.placed size old 0 (λ i. [])
                (empty-InPlace size) (λ id i. refl);
          counted = omega (
            arith,
            h.counted,
            total-move_table old context.table h.placed size old 0 (λ i. []) pos,
            total-empty D size 0,
          );
          some_slot = pos;
          small = low;
          in_range = h.in_range;
        };
        same_used = refl;
        same_get = λ id.
            let inside : id % old < old = omega (arith, h.some_slot) in
            ground
              (arith, look-move_table old context.table h.placed size old 0 (λ i. []) id, inside);
      }

  pub expand_if_needed-Grown :
      (context : NwState D)
      → IsState context
      → context.used < 2 ^ 30
      → Grown context (expand_if_needed context)
  unfolding expand_if_needed
  expand_if_needed-Grown context h low =
      let size = context.table_size * 4 % 2 ^ 32 in
      let exact : size ≡ context.table_size * 4 = omega (arith, h.small) in
      elim (Bool-cases (ltb context.used size)) [
        | inl fits ↦ rw fits (record { sound = h; same_used = refl; same_get = λ id. refl })
        | inr full ↦ rw full (
            larger-Grown context size h (omega (arith, exact, h.some_slot))
              (ground (arith, full, low)))
      ]
