-- ===== src/Pending.antt =====
-- network/src/nw_state.c: the requests that wait for an answer, in a hash table by their ids. The
-- array is a function, and `id & mask` is the remainder by the size; a timer is the timeout that it
-- is set to. `malloc` and `calloc` do not fail.
pub mod Chains
pub mod Grow
pub mod Ids
pub mod Adds
pub mod Dels
use viabtc_future.Prelude.{
  ℕ, zero, suc, ◌+◌, ◌-◌, ◌*◌, ◌%◌, ◌^◌, Bool, true, false, not, ◌&&◌, Option, none, some, List, [],
  ◌∷◌, if◌then◌else◌, ltb, ◌==◌, is_some,
}

-- `nw_state_entry`; `content` is the user's data.
pub record StateEntry (D : Type 0) : Type 0 where
  pub id : ℕ
  pub timeout : ℕ
  pub content : D

-- `nw_state`, whose mask is `table_size - 1`.
pub record NwState (D : Type 0) : Type 0 where
  pub table : ℕ → List (StateEntry D)
  pub table_size : ℕ
  pub used : ℕ
  pub id_start : ℕ

-- The id that is tried after one.
unfoldable pub next_id : ℕ → ℕ
next_id id = let id' = (id + 1) % 2 ^ 32 in if id' == 0 then 1 else id'

module _ {D : Type 0} where
  unfoldable pub nw_state_create : NwState D
  nw_state_create = record { table = λ i. []; table_size = 64; used = 0; id_start = 0 }

  -- The entry of an id in a chain.
  unfoldable pub get_from : ℕ → List (StateEntry D) → Option (StateEntry D)
  get_from id [] = none
  get_from id (entry ∷ next) = if entry.id == id then some entry else get_from id next

  unfoldable pub nw_state_get : ℕ → NwState D → Option (StateEntry D)
  nw_state_get id context = get_from id (context.table (id % context.table_size))

  -- A write to the array.
  unfoldable pub write_slot :
      ℕ → List (StateEntry D) → (ℕ → List (StateEntry D)) → ℕ → List (StateEntry D)
  write_slot i chain table j = if j == i then chain else table j

  -- An entry, put at the head of its chain.
  unfoldable pub link_entry : ℕ → StateEntry D → (ℕ → List (StateEntry D)) → ℕ → List (StateEntry D)
  link_entry size entry table =
      let index = entry.id % size in write_slot index (entry ∷ table index) table

  -- The two loops of `expand_if_needed`.
  unfoldable pub move_entries :
      ℕ → List (StateEntry D) → (ℕ → List (StateEntry D)) → ℕ → List (StateEntry D)
  move_entries size [] new_table = new_table
  move_entries size (entry ∷ next) new_table =
      move_entries size next (link_entry size entry new_table)

  unfoldable pub move_table :
      ℕ → ℕ → ℕ → (ℕ → List (StateEntry D)) → (ℕ → List (StateEntry D)) → ℕ → List (StateEntry D)
  move_table size zero i table new_table = new_table
  move_table size (suc slots) i table new_table =
      move_table size slots (suc i) table (move_entries size (table i) new_table)

  -- The sizes are 32 bits wide.
  unfoldable pub expand_if_needed : NwState D → NwState D
  expand_if_needed context =
      let new_size = context.table_size * 4 % 2 ^ 32 in
      if ltb context.used new_size then context else record context {
        table = move_table new_size context.table_size 0 context.table (λ i. []);
        table_size = new_size;
      }

  unfoldable pub unlink_entry : ℕ → List (StateEntry D) → List (StateEntry D)
  unlink_entry id [] = []
  unlink_entry id (entry ∷ next) = if entry.id == id then next else entry ∷ unlink_entry id next

  unfoldable pub state_remove : ℕ → NwState D → NwState D
  state_remove id context =
      let index = id % context.table_size in
      let chain = context.table index in
      if is_some (get_from id chain)
      then record context {
        table = write_slot index (unlink_entry id chain) context.table;
        used = context.used - 1;
      }
      else context

  -- The loop of `get_available_id`, on fuel.
  unfoldable pub available_from : ℕ → ℕ → NwState D → Option ℕ
  available_from zero id context = none
  available_from (suc fuel) id context = elim (nw_state_get (next_id id) context) [
    | none ↦ some (next_id id)
    | some entry ↦ available_from fuel (next_id id) context
  ]

  -- As many rounds as there are ids.
  unfoldable pub get_available_id : NwState D → Option (ℕ × NwState D)
  get_available_id context = elim (available_from (2 ^ 32) context.id_start context) [
    | none ↦ none
    | some id ↦ some (id, record context { id_start = id })
  ]

  -- The end of `nw_state_add`. The data is filled with zeros.
  unfoldable pub add_entry : ℕ → ℕ → D → NwState D → NwState D
  add_entry id timeout zeros context =
      let context' = expand_if_needed context in
      let entry : StateEntry D = record { id = id; timeout = timeout; content = zeros } in
      record context' {
        table = link_entry context'.table_size entry context'.table;
        used = context'.used + 1;
      }

  -- `nw_state_add`: the id of the entry, or `none` for NULL. Where the loop over the ids does not end,
  -- there is no result.
  unfoldable pub nw_state_add : ℕ → ℕ → D → NwState D → Option (Option ℕ × NwState D)
  nw_state_add timeout id zeros context =
      if not (id == 0) && is_some (nw_state_get id context)
      then some (none, context)
      else if context.used == 2 ^ 32 - 1
      then some (none, context)
      else if not (id == 0)
      then some (some id, add_entry id timeout zeros context)
      else elim (get_available_id context) [
        | none ↦ none
        | some (id', context') ↦ some (some id', add_entry id' timeout zeros context')
      ]

  unfoldable pub set_timeout : ℕ → ℕ → List (StateEntry D) → List (StateEntry D)
  set_timeout id timeout [] = []
  set_timeout id timeout (entry ∷ next) =
      if entry.id == id
      then record entry { timeout = timeout } ∷ next
      else entry ∷ set_timeout id timeout next

  -- `nw_state_mod` and `nw_state_del`: `false` for -1.
  unfoldable pub nw_state_mod : ℕ → ℕ → NwState D → Bool × NwState D
  nw_state_mod id timeout context =
      let index = id % context.table_size in
      if is_some (nw_state_get id context)
      then (
        true,
        record context {
          table = write_slot index (set_timeout id timeout (context.table index)) context.table;
        },
      )
      else (false, context)

  unfoldable pub nw_state_del : ℕ → NwState D → Bool × NwState D
  nw_state_del id context =
      if is_some (nw_state_get id context)
      then (true, state_remove id context)
      else (false, context)

  -- What the loop calls when the timer of an entry runs out; the user's handler is a parameter.
  unfoldable pub on_timeout :
      (StateEntry D → NwState D → NwState D) → StateEntry D → NwState D → NwState D
  on_timeout handler entry context = state_remove entry.id (handler entry context)

  unfoldable pub nw_state_count : NwState D → ℕ
  nw_state_count context = context.used
