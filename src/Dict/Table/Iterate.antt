-- ===== src/Dict/Table/Iterate.antt =====
-- The iterator and `dict_clear` of utils/src/ut_dict.c.
pub mod Clears
use viabtc_future.Prelude.{ℕ, zero, suc, ◌+◌, ◌-◌, Option, none, some, List, [], ◌∷◌}
use viabtc_future.Dict.{Eq}
use viabtc_future.Dict.Table.{Entry, Table, dict_delete}

-- `dict_iterator`: the slot after the one that `index` names, and the chain from `next_entry` on.
pub record Iterator (K V : Type 0) : Type 0 where
  pub slot : ℕ
  pub chain : List (Entry K V)

module _ {K V : Type 0} where
  unfoldable pub dict_get_iterator : Iterator K V
  dict_get_iterator = record { slot = 0; chain = [] }

  -- The loop of `dict_next` where the chain has ended, with the number of slots to go.
  unfoldable pub next_slot : ℕ → ℕ → (ℕ → List (Entry K V)) → Option (Entry K V × Iterator K V)
  next_slot zero slot table = none
  next_slot (suc slots) slot table = elim (table slot) [
    | [] ↦ next_slot slots (suc slot) table
    | entry ∷ chain ↦ some (entry, record { slot = suc slot; chain = chain })
  ]

  -- `dict_next`: `none` for NULL.
  unfoldable pub dict_next : Table K V → Iterator K V → Option (Entry K V × Iterator K V)
  dict_next dt iter = elim (iter.chain) [
    | [] ↦ next_slot (dt.size - iter.slot) iter.slot dt.table
    | entry ∷ chain ↦ some (entry, record iter { chain = chain })
  ]

  module _ ⦃e : Eq K⦄ (hash : K → ℕ) where
    -- The loop of `dict_clear`, on fuel.
    unfoldable pub clear_from : ℕ → Iterator K V → Table K V → Option (Table K V)
    clear_from zero iter dt = none
    clear_from (suc fuel) iter dt = elim (dict_next dt iter) [
      | none ↦ some dt
      | some (entry, iter') ↦ clear_from fuel iter' (dict_delete hash entry.key dt).1
    ]

    -- An entry is deleted in each round, and one more round finds none.
    unfoldable pub dict_clear : Table K V → Option (Table K V)
    dict_clear dt = clear_from (suc dt.used) dict_get_iterator dt
