-- ===== src/Tests/Tables.antt =====
-- Hash tables (utils/src/ut_dict.c) with few entries.
use viabtc_future.Prelude.{ℕ, ◌≡◌, refl, some, [], ◌∷◌, arith}
use viabtc_future.Dict.{Dict, nat_eq, find, delete}
use viabtc_future.Dict.Table.{
  Table, link, find_entry, dict_find, dict_add, dict_replace, dict_delete,
}
use viabtc_future.Dict.Table.Chains.{value}
use viabtc_future.Dict.Table.Powers.{four-Sizes}
use viabtc_future.Dict.Table.Invariant.{IsTable, Refines, link_lem}
use viabtc_future.Dict.Table.Refines.{Adds, dict_find-Refines, dict_add-Refines}
use viabtc_future.Dict.Table.Replaces.{Replaces, dict_replace-Refines}
use viabtc_future.Dict.Table.Iterate.{dict_clear}
use viabtc_future.Dict.Table.Iterate.Clears.{dict_clear_ends}
use viabtc_future.Dict.Table.Removes.{dict_delete-Refines, empty-IsTable}

-- Keys 3 and 7 share a slot of four.
abbrev same_hash : ℕ → ℕ
same_hash k = k

abbrev empty : Table ℕ ℕ
empty = record { table = λ i. []; size = 4; used = 0; id_start = 0; id_clear = 0 }

abbrev items : Dict ℕ ℕ
items = (3, 8) ∷ []

abbrev one : Table ℕ ℕ
one = link same_hash 3 8 empty

one_lem : IsTable same_hash one × Refines same_hash one items
unfolding find_entry link
one_lem =
    let linked =
      link_lem same_hash empty 3 8 (empty-IsTable same_hash 4 (30, four-Sizes)) refl (omega arith)
        (omega arith) in
    (linked.0, λ k. ground (arith, linked.1 k))

dict_find-Refines_example :
    (value (dict_find same_hash 3 one).0 ≡ find 3 items)
    × IsTable same_hash (dict_find same_hash 3 one).1
    × Refines same_hash (dict_find same_hash 3 one).1 items
dict_find-Refines_example = dict_find-Refines same_hash one items 3 one_lem.0 one_lem.1

dict_add-Refines_example : Adds same_hash 7 9 items (dict_add same_hash 7 9 one)
unfolding link
dict_add-Refines_example =
    dict_add-Refines same_hash one items 7 9 one_lem.0 one_lem.1 (omega arith) (omega arith)

dict_replace-Refines_example : Replaces same_hash 3 9 items (dict_replace same_hash 3 9 one)
unfolding link
dict_replace-Refines_example =
    dict_replace-Refines same_hash one items 3 9 one_lem.0 one_lem.1 (omega arith) (omega arith)

dict_delete-Refines_example :
    IsTable same_hash (dict_delete same_hash 3 one).1
    × Refines same_hash (dict_delete same_hash 3 one).1 (delete 3 items)
dict_delete-Refines_example = dict_delete-Refines same_hash one items 3 one_lem.0 one_lem.1

dict_clear_ends_example :
    (t' : Table ℕ ℕ) × (dict_clear same_hash one ≡ some t')
    × IsTable same_hash t'
    × (t'.used ≡ 0)
    × Refines same_hash t' []
dict_clear_ends_example = dict_clear_ends same_hash one one_lem.0
