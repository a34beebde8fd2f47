-- ===== src/Dict/Table/Removes.antt =====
-- What deleting, `dict_mark_clear` and `dict_create` of utils/src/ut_dict.c are to the dictionary.
use viabtc_future.Prelude.{
  ℕ, ◌+◌, ◌-◌, ◌%◌, ◌^◌, ◌≤◌, ◌<◌, ◌≡◌, refl, ap, sym, ◌∙◌, Option-cases, inl, inr, Option, none,
  some, [], arith, length, if◌then◌else◌, ==_iff,
}
use viabtc_future.Dict.{Eq, Dict, delete}
use viabtc_future.Dict.Laws.{find-delete}
use viabtc_future.Dict.Table.{
  Entry, Table, set_slot, find_entry, unlink, dict_create, dict_find, dict_delete, dict_mark_clear,
}
use viabtc_future.Dict.Table.Chains.{live, kept, find_entry-unlink, unlink-Distinct, length-unlink}
use viabtc_future.Dict.Table.Powers.{IsSize, size_pos, dict_next_power_terminates}
use viabtc_future.Dict.Table.Grow.{total_empty_table, total-set_slot}
use viabtc_future.Dict.Table.Invariant.{
  stored, IsTable, value_at, Refines, stored-set_slot, empty-IsPlaced, set_slot-IsTable,
  dict_find-Looked,
}

module _ {K V : Type 0} ⦃e : Eq K⦄ (hash : K → ℕ) where
  dict_delete-none :
      (t : Table K V) (k : K) → stored hash t k ≡ none → dict_delete hash k t ≡ (0, t)
  unfolding dict_delete
  dict_delete-none t k absent = rw (dict_delete, absent)

  pub dict_delete-some :
      (t : Table K V) (k : K) (x : Entry K V)
      → stored hash t k ≡ some x
      → let i = hash k % t.size in
        dict_delete hash k t
        ≡ (1, record t { table = set_slot i (unlink k (t.table i)) t.table; used = t.used - 1 })
  unfolding dict_delete
  dict_delete-some t k x present = rw (dict_delete, present)

  pub delete_stored :
      (t : Table K V) (k : K) (x : Entry K V)
      → IsTable hash t
      → stored hash t k ≡ some x
      → IsTable hash (dict_delete hash k t).1
        × ((j : K)
            → value_at hash (dict_delete hash k t).1 j
              ≡ (if e.beq k j then none else value_at hash t j))
  delete_stored t k x h present =
      let i = hash k % t.size in
      let xs = t.table i in
      let inside : i < t.size = omega (arith, size_pos h.sized.1) in
      let count = length-unlink k x xs present in
      let fits : length xs ≤ t.used =
        ground (arith, total-set_slot t.size 0 i [] t.table, h.counted, inside) in
      let unlinked : (j : K)
          → find_entry j (unlink k xs) ≡ (if e.beq k j then none else find_entry j xs) =
        λ j. find_entry-unlink j k xs (h.placed.0 i) in
      let there : (j : K) → hash j % t.size ≡ i → find_entry j xs ≡ stored hash t j =
        λ j same. ap (λ n. find_entry j (t.table n)) (sym same) in
      rw (dict_delete-some t k x present) (
        set_slot-IsTable hash t i (unlink k xs) (t.used - 1) h inside
            (unlink-Distinct k xs (h.placed.0 i)) (λ j absent. ground (arith, unlinked j, absent))
            (λ j y same got. ground (arith, unlinked j, there j same, h.ids j y, got))
            (omega (arith, count, fits)),
        λ j. ground (
          arith,
          stored-set_slot hash t i (unlink k xs) j,
          unlinked j,
          there j,
          ==_iff (hash j % t.size) i,
          e.beq_iff k j,
          ap hash {x = k} {y = j},
        ),
      )

  -- After dict_delete the table is well-formed and its clients find what they find in the
  -- dictionary without the key.
  pub dict_delete-Refines :
      (t : Table K V) (d : Dict K V) (k : K)
      → IsTable hash t
      → Refines hash t d
      → IsTable hash (dict_delete hash k t).1 × Refines hash (dict_delete hash k t).1 (delete k d)
  dict_delete-Refines t d k h r = elim (Option-cases (stored hash t k)) [
    | inl absent ↦
        rw (dict_delete-none t k absent)
          (h, λ j. ground (arith, r j, find-delete j k d, e.beq_iff k j, absent, r k))
    | inr (x, present) ↦
        let (is_table, gone) = delete_stored t k x h present in
        (is_table, λ j. ground (arith, gone j, r j, find-delete j k d))
  ]

  -- An entry from before the clearing is passed.
  kept_passed :
      (c : ℕ) (o : Option (Entry K V))
      → ((x : Entry K V) → o ≡ some x → x.id < c)
      → kept (live c) o ≡ none
  kept_passed c none h = refl
  kept_passed c (some x) h = ground (arith, h x refl)

  -- After dict_mark_clear, which leaves every entry where it is, the table is well-formed and its
  -- clients find nothing in it. The next id does not wrap.
  dict_mark_clear-Refines :
      (t : Table K V)
      → IsTable hash t
      → t.id_start + 1 < 2 ^ 64
      → IsTable hash (dict_mark_clear t) × Refines hash (dict_mark_clear t) []
  unfolding dict_mark_clear
  dict_mark_clear-Refines t h more =
      let next : (t.id_start + 1) % 2 ^ 64 ≡ t.id_start + 1 = omega arith in
      (
        record {
          sized = h.sized;
          counted = h.counted;
          placed = h.placed;
          ids = λ k x found. omega (arith, next, h.ids k x found);
          cleared = omega (arith, next);
        },
        λ k. rw (kept_passed t.id_start (stored hash t k) (h.ids k)),
      )

  -- An entry that dict_mark_clear has passed is not found, but dict_delete does not look at ids: it
  -- takes the entry out and returns 1.
  delete_passed :
      (t : Table K V) (k : K) (x : Entry K V)
      → IsTable hash t
      → stored hash t k ≡ some x
      → x.id < t.id_clear
      → ((dict_find hash k t).0 ≡ none) × ((dict_delete hash k t).0 ≡ 1)
  delete_passed t k x h present passed =
      let found = (dict_find-Looked hash t k h).0 in
      (
        found
            ∙ kept_passed t.id_clear (stored hash t k)
                (λ y same. ground (arith, present, same, passed)),
        rw (dict_delete-some t k x present),
      )

  pub empty-IsTable :
      (size : ℕ)
      → IsSize size
      → IsTable {V = V} hash
          (record { table = λ i. []; size = size; used = 0; id_start = 0; id_clear = 0 })
  unfolding find_entry
  empty-IsTable size is_size = record {
    sized = is_size;
    counted = sym (total_empty_table {K = K} {V = V} size 0 (λ i. []) (λ i. refl));
    placed = empty-IsPlaced hash size;
    ids = λ k x found. ground (arith, found);
    cleared = omega arith;
  }

  pub dict_create-Refines :
      (init_size : ℕ)
      → init_size ≤ 2 ^ 31
      → (t : Table K V) × (dict_create init_size ≡ some t) × IsTable hash t × Refines hash t []
  unfolding dict_create find_entry
  dict_create-Refines init_size small =
      let (size, returned, is_size, _, _) = dict_next_power_terminates init_size small in
      (
        record { table = λ i. []; size = size; used = 0; id_start = 0; id_clear = 0 },
        rw (dict_create, returned),
        empty-IsTable size is_size,
        λ k. refl,
      )
