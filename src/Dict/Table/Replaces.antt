-- ===== src/Dict/Table/Replaces.antt =====
-- `dict_replace` of utils/src/ut_dict.c, which adds or writes, against the dictionary.
use viabtc_future.Prelude.{
  ℕ, ◌+◌, ◌%◌, ◌^◌, ◌<◌, ◌≡◌, refl, ap, sym, ◌∙◌, true, Option-cases, inl, inr, Option, none, some,
  arith, if◌then◌else◌, ==_iff, is_some,
}
use viabtc_future.Prelude.Int.{ℤ, pos}
use viabtc_future.Dict.{Eq, Dict, find, add, assign}
use viabtc_future.Dict.Laws.{find-assign}
use viabtc_future.Dict.Table.{
  Entry, Table, set_slot, find_entry, write_val, dict_find, dict_add, dict_replace,
}
use viabtc_future.Dict.Table.Chains.{
  value, live, kept, written, find_entry-write_val, write_val-Distinct, length-write_val,
}
use viabtc_future.Dict.Table.Powers.{size_pos}
use viabtc_future.Dict.Table.Refines.{dict_find-Refines, dict_add-Refines}
use viabtc_future.Dict.Table.Invariant.{
  stored, IsTable, Refines, stored-set_slot, set_slot-IsTable, dict_find-Looked,
}

module _ {K V : Type 0} ⦃e : Eq K⦄ (hash : K → ℕ) where
  -- A value that is written keeps the id.
  written_id :
      (v : V) (o : Option (Entry K V)) (y : Entry K V) (c : ℕ)
      → ((x : Entry K V) → o ≡ some x → x.id < c)
      → written v o ≡ some y
      → y.id < c
  written_id v none y c h w = ground arith
  written_id v (some x) y c h w = ground (arith, h x refl)

  value-written :
      (v : V) (c : ℕ) (o : Option (Entry K V))
      → value (kept (live c) (written v o))
        ≡ elim (value (kept (live c) o)) [ none ↦ none | some _ ↦ some v ]
  value-written v c none = refl
  value-written v c (some x) = ground arith

  write_lem :
      (t : Table K V) (k : K) (v : V) (x : Entry K V)
      → IsTable hash t
      → stored hash t k ≡ some x
      → let i = hash k % t.size in
        let t' = record t { table = set_slot i (write_val k v (t.table i)) t.table } in
        IsTable hash t'
        × ((j : K)
            → stored hash t' j
              ≡ (if e.beq k j then written v (stored hash t j) else stored hash t j))
  write_lem t k v x h present =
      let i = hash k % t.size in
      let xs = t.table i in
      let inside : i < t.size = omega (arith, size_pos h.sized.1) in
      let there : (j : K) → hash j % t.size ≡ i → find_entry j xs ≡ stored hash t j =
        λ j same. ap (λ n. find_entry j (t.table n)) (sym same) in
      (
        set_slot-IsTable hash t i (write_val k v xs) t.used h inside
            (write_val-Distinct k v xs (h.placed.0 i))
            (λ j absent. ground (arith, find_entry-write_val j k v xs, absent))
            (λ j y same got. ground (
              arith,
              written_id v (stored hash t j) y t.id_start (h.ids j),
              find_entry-write_val j k v xs,
              there j same,
              h.ids j y,
              got,
            ))
            (omega (arith, length-write_val k v xs)),
        λ j. ground (
          arith,
          stored-set_slot hash t i (write_val k v xs) j,
          find_entry-write_val j k v xs,
          there j,
          ==_iff (hash j % t.size) i,
          e.beq_iff k j,
          ap hash {x = k} {y = j},
        ),
      )

  replace_new :
      (t g : Table K V) (k : K) (v : V)
      → (dict_find hash k t).0 ≡ none
      → dict_add hash k v (dict_find hash k t).1 ≡ some (true, g)
      → dict_replace hash k v t ≡ some (pos 1, g)
  unfolding dict_replace
  replace_new t g k v absent added = rw (dict_replace, absent, added)

  replace_old :
      (t : Table K V) (k : K) (v : V) (x : Entry K V)
      → (dict_find hash k t).0 ≡ some x
      → let t' = (dict_find hash k t).1 in
        let i = hash k % t'.size in
        dict_replace hash k v t
        ≡ some (pos 0, record t' { table = set_slot i (write_val k v (t'.table i)) t'.table })
  unfolding dict_replace
  replace_old t k v x present = rw (dict_replace, present)

  -- `dict_replace`: an old value is replaced, a new key is entered.
  abbrev pub Replaces : K → V → Dict K V → Option (ℤ × Table K V) → Type 0
  Replaces k v d result =
      (t' : Table K V) × (result ≡ some (if is_some (find k d) then pos 0 else pos 1, t'))
      × IsTable hash t'
      × Refines hash t' (elim (add k v d) [ none ↦ assign k v d | some d' ↦ d' ])

  -- dict_replace returns 0 and writes the value if the dictionary has the key, and 1 if it adds it;
  -- the table is well-formed, and its clients find what they find in the dictionary with the value
  -- written or added. The numbers of entries and of ids do not wrap.
  pub dict_replace-Refines :
      (t : Table K V) (d : Dict K V) (k : K) (v : V)
      → IsTable hash t
      → Refines hash t d
      → t.used + 1 < 2 ^ 32
      → t.id_start + 1 < 2 ^ 64
      → Replaces k v d (dict_replace hash k v t)
  dict_replace-Refines t d k v h r room more =
      let (found, there, _, _, _, start, used) = dict_find-Looked hash t k h in
      let t' = (dict_find hash k t).1 in
      let (is, is_table, view) = dict_find-Refines hash t d k h r in
      elim (Option-cases (dict_find hash k t).0) [
        | inl absent ↦
            let unknown : find k d ≡ none = sym is ∙ ap value absent in
            let (g, added, is_table', view') =
              dict_add-Refines hash t' d k v is_table view (omega (arith, used))
                (omega (arith, start)) in
            (
              g,
              rw unknown (replace_new t g k v absent (added ∙ rw unknown)),
              is_table',
              λ j. view' j ∙ rw unknown,
            )
        | inr (x, present) ↦
            let known : find k d ≡ some x.val = sym is ∙ ap value present in
            let (written_table, written_view) = write_lem t' k v x is_table (there ∙ present) in
            (
              _,
              rw known (replace_old t k v x present),
              written_table,
              λ j. rw known (
                  ground (
                    arith,
                    written_view j,
                    value-written v t'.id_clear (stored hash t' j),
                    view j,
                    find-assign j k v d,
                    known,
                  )),
            )
      ]
