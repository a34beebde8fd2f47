-- ===== src/Dict/Table.antt =====
-- The hash table of utils/src/ut_dict.c: chains of entries in an array whose size is a power of
-- two, which grows by four, and which `dict_mark_clear` empties by the ids of the entries.
-- `hash_function` is a parameter; the array is a function, and `hash & mask` is the remainder by the
-- size. The failure of `malloc` and `calloc` is left out.
pub mod Chains
pub mod Powers
pub mod Grow
pub mod Invariant
pub mod Refines
pub mod Removes
pub mod Replaces
pub mod Iterate
use viabtc_future.Prelude.{
  ℕ, zero, suc, ◌+◌, ◌-◌, ◌*◌, ◌%◌, ◌^◌, Bool, true, false, Option, none, some, List, [], ◌∷◌,
  if◌then◌else◌, ltb, leb, ◌==◌,
}
use viabtc_future.Prelude.Int.{ℤ, pos, negsuc}
use viabtc_future.Dict.{Eq}

pub record Entry (K V : Type 0) : Type 0 where
  pub key : K
  pub val : V
  pub id : ℕ

-- `dict_t`, whose `mask` is `size - 1`.
pub record Table (K V : Type 0) : Type 0 where
  pub table : ℕ → List (Entry K V)
  pub size : ℕ
  pub used : ℕ
  pub id_start : ℕ
  pub id_clear : ℕ

-- The loop of `dict_next_power`, on fuel: 32-bit sizes double until one is large enough.
unfoldable pub next_power_from : ℕ → ℕ → ℕ → Option ℕ
next_power_from zero size realsize = none
next_power_from (suc fuel) size realsize =
    let rest = next_power_from fuel size (realsize * 2 % 2 ^ 32) in
    if leb size realsize then some realsize else rest

-- Thirty rounds reach 2 ^ 31; one more makes the size 0.
unfoldable pub dict_next_power : ℕ → Option ℕ
dict_next_power size = next_power_from 30 size 4

module _ {K V : Type 0} where
  -- A write to the array.
  unfoldable pub set_slot : ℕ → List (Entry K V) → (ℕ → List (Entry K V)) → ℕ → List (Entry K V)
  set_slot i es table j = if j == i then es else table j

  -- `none` where `dict_next_power` does not return.
  unfoldable pub dict_create : ℕ → Option (Table K V)
  dict_create init_size = elim (dict_next_power init_size) [
    | none ↦ none
    | some size ↦ some record { table = λ i. []; size = size; used = 0; id_start = 0; id_clear = 0 }
  ]

  -- The loop of `check_clear`: the entries that stay, and `used`.
  unfoldable pub clear_chain : ℕ → List (Entry K V) → ℕ → List (Entry K V) × ℕ
  clear_chain id_clear [] used = ([], used)
  clear_chain id_clear (entry ∷ next) used =
      let cleared = clear_chain id_clear next (used - 1) in
      let kept = clear_chain id_clear next used in
      if ltb entry.id id_clear then cleared else (entry ∷ kept.0, kept.1)

  unfoldable pub check_clear : ℕ → Table K V → Table K V
  check_clear index dt =
      let (chain, used) = clear_chain dt.id_clear (dt.table index) dt.used in
      record dt { table = set_slot index chain dt.table; used = used }

  unfoldable pub dict_mark_clear : Table K V → Table K V
  dict_mark_clear dt = record dt { id_clear = dt.id_start; id_start = (dt.id_start + 1) % 2 ^ 64 }

  module _ ⦃e : Eq K⦄ where
    unfoldable pub find_entry : K → List (Entry K V) → Option (Entry K V)
    find_entry key [] = none
    find_entry key (entry ∷ next) = if e.beq key entry.key then some entry else find_entry key next

    -- A write to the first entry with the key.
    unfoldable pub write_val : K → V → List (Entry K V) → List (Entry K V)
    write_val key val [] = []
    write_val key val (entry ∷ next) =
        if e.beq key entry.key
        then record entry { val = val } ∷ next
        else entry ∷ write_val key val next

    unfoldable pub unlink : K → List (Entry K V) → List (Entry K V)
    unlink key [] = []
    unlink key (entry ∷ next) = if e.beq entry.key key then next else entry ∷ unlink key next

    module _ (hash : K → ℕ) where
      -- An entry, put at the head of its chain.
      unfoldable pub push : ℕ → Entry K V → (ℕ → List (Entry K V)) → ℕ → List (Entry K V)
      push size entry table =
          let index = hash entry.key % size in set_slot index (entry ∷ table index) table

      -- The inner loop of `dict_expand`, and `dt->used`, which it counts down.
      unfoldable pub move_chain :
          ℕ → List (Entry K V) → ℕ → (ℕ → List (Entry K V)) → ℕ × (ℕ → List (Entry K V))
      move_chain size [] used new = (used, new)
      move_chain size (entry ∷ next) used new =
          move_chain size next (used - 1) (push size entry new)

      -- The outer loop, with the number of slots to go and the next one.
      unfoldable pub move_slots :
          ℕ → ℕ → ℕ → (ℕ → List (Entry K V)) → ℕ → (ℕ → List (Entry K V)) → ℕ → List (Entry K V)
      move_slots size zero i table used new = new
      move_slots size (suc slots) i table used new =
          let moved = move_chain size (table i) used new in
          let rest = move_slots size slots (suc i) table moved.0 moved.1 in
          if used == 0 then new else rest

      unfoldable pub dict_expand : ℕ → Table K V → Option (Table K V)
      dict_expand size dt = elim (dict_next_power size) [
        | none ↦ none
        | some size' ↦ some (record dt {
          size = size';
          table = move_slots size' dt.size 0 dt.table dt.used (λ i. []);
        })
      ]

      unfoldable pub dict_expand_if_needed : Table K V → Option (Table K V)
      dict_expand_if_needed dt =
          let size = dt.size * 4 % 2 ^ 32 in
          if leb size dt.used then dict_expand size dt else some dt

      unfoldable pub dict_find : K → Table K V → Option (Entry K V) × Table K V
      dict_find key dt =
          let index = hash key % dt.size in
          let dt' = if ltb 0 dt.id_clear then check_clear index dt else dt in
          (find_entry key (dt'.table index), dt')

      -- The new entry.
      unfoldable pub link : K → V → Table K V → Table K V
      link key val dt =
          let entry : Entry K V = record { key = key; val = val; id = dt.id_start } in
          record dt {
            id_start = (dt.id_start + 1) % 2 ^ 64;
            table = push dt.size entry dt.table;
            used = (dt.used + 1) % 2 ^ 32;
          }

      -- Whether it returns an entry.
      unfoldable pub dict_add : K → V → Table K V → Option (Bool × Table K V)
      dict_add key val dt =
          let (found, dt') = dict_find key dt in
          elim found [
            | some _ ↦ some (false, dt')
            | none ↦ elim (dict_expand_if_needed dt') [
              | none ↦ none
              | some dt'' ↦ some (true, link key val dt'')
            ]
          ]

      -- 0 for a value that is replaced, 1 for a new key, -1 where it is not added.
      unfoldable pub dict_replace : K → V → Table K V → Option (ℤ × Table K V)
      dict_replace key val dt =
          let (found, dt') = dict_find key dt in
          elim found [
            | none ↦ elim (dict_add key val dt') [
              | none ↦ none
              | some (added, dt'') ↦ some (if added then pos 1 else negsuc 0, dt'')
            ]
            | some _ ↦
                let index = hash key % dt'.size in
                some (
                  pos 0,
                  record dt' {
                    table = set_slot index (write_val key val (dt'.table index)) dt'.table;
                  },
                )
          ]

      unfoldable pub dict_delete : K → Table K V → ℕ × Table K V
      dict_delete key dt =
          let index = hash key % dt.size in
          elim (find_entry key (dt.table index)) [
            | none ↦ (0, dt)
            | some _ ↦ (
              1,
              record dt {
                table = set_slot index (unlink key (dt.table index)) dt.table;
                used = dt.used - 1;
              },
            )
          ]
