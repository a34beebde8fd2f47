-- ===== src/Dict/Table/Refines.antt =====
-- The hash table of utils/src/ut_dict.c as its clients see it: the dictionary of `Dict`.
use viabtc_future.Prelude.{
  ℕ, ◌+◌, ◌*◌, ◌%◌, ◌^◌, ◌<◌, ◌≡◌, refl, ap, sym, ◌∙◌, Bool, true, false, not, Bool-cases,
  Option-cases, inl, inr, Option, none, some, arith, if◌then◌else◌, leb, is_some,
}
use viabtc_future.Dict.{Eq, Dict, find, add}
use viabtc_future.Dict.Table.{Entry, Table, dict_expand_if_needed, dict_find, dict_add, link}
use viabtc_future.Dict.Table.Chains.{value}
use viabtc_future.Dict.Table.Powers.{four_times_le}
use viabtc_future.Dict.Table.Invariant.{
  stored, IsTable, value_at, Refines, dict_expand_lem, dict_find-Looked, link_lem,
}

module _ {K V : Type 0} ⦃e : Eq K⦄ (hash : K → ℕ) where
  expand_lem :
      (t : Table K V)
      → IsTable hash t
      → (t' : Table K V) × (dict_expand_if_needed hash t ≡ some t')
        × IsTable hash t'
        × ((k : K) → stored hash t' k ≡ stored hash t k)
        × (t'.id_clear ≡ t.id_clear)
        × (t'.used ≡ t.used)
        × (t'.id_start ≡ t.id_start)
  unfolding dict_expand_if_needed
  expand_lem t h = elim (Bool-cases (leb (t.size * 4 % 2 ^ 32) t.used)) [
    | inl full ↦
        let (t', grown, a, b, c, d, f) =
          dict_expand_lem hash t (t.size * 4 % 2 ^ 32) h (four_times_le h.sized.1) in
        (t', rw (full) grown, a, b, c, d, f)
    | inr free ↦ (t, rw (free) refl, h, λ k. refl, refl, refl, refl)
  ]

  -- A key that the table does not have at all is entered.
  enter_lem :
      (t : Table K V) (k : K) (v : V)
      → IsTable hash t
      → stored hash t k ≡ none
      → t.used + 1 < 2 ^ 32
      → t.id_start + 1 < 2 ^ 64
      → (g : Table K V) × (dict_expand_if_needed hash t ≡ some g)
        × IsTable hash (link hash k v g)
        × ((j : K)
            → value_at hash (link hash k v g) j ≡ (if e.beq j k then some v else value_at hash t j))
  unfolding link
  enter_lem t k v h fresh room more =
      let (g, grown, is_table, same, clear, used, start) = expand_lem t h in
      let linked =
        link_lem hash g k v is_table (same k ∙ fresh) (omega (arith, used))
          (omega (arith, start)) in
      (g, grown, linked.0, λ j. ground (arith, linked.1 j, same j, clear, start, h.cleared))

  -- dict_find returns what the dictionary has for the key, and the table it leaves, which may have
  -- lost entries that dict_mark_clear has passed, is well-formed and has the same view.
  pub dict_find-Refines :
      (t : Table K V) (d : Dict K V) (k : K)
      → IsTable hash t
      → Refines hash t d
      → (value (dict_find hash k t).0 ≡ find k d)
        × IsTable hash (dict_find hash k t).1
        × Refines hash (dict_find hash k t).1 d
  dict_find-Refines t d k h r =
      let (found, there, is_table, same, clear, start, used) = dict_find-Looked hash t k h in
      (ap value found ∙ r k, is_table, λ j. rw (clear) (ap value (same j)) ∙ r j)

  -- `dict_add` on a table with room, and `Dict.add`.
  abbrev pub Adds : K → V → Dict K V → Option (Bool × Table K V) → Type 0
  Adds k v d result =
      (t' : Table K V) × (result ≡ some (not (is_some (find k d)), t'))
      × IsTable hash t'
      × Refines hash t' (elim (add k v d) [ none ↦ d | some d' ↦ d' ])

  dict_add_new :
      (t g : Table K V) (k : K) (v : V)
      → (dict_find hash k t).0 ≡ none
      → dict_expand_if_needed hash (dict_find hash k t).1 ≡ some g
      → dict_add hash k v t ≡ some (true, link hash k v g)
  unfolding dict_add
  dict_add_new t g k v absent grown = rw (dict_add, absent, grown)

  dict_add_known :
      (t : Table K V) (k : K) (v : V) (x : Entry K V)
      → (dict_find hash k t).0 ≡ some x
      → dict_add hash k v t ≡ some (false, (dict_find hash k t).1)
  unfolding dict_add
  dict_add_known t k v x present = rw (dict_add, present)

  -- dict_add returns, and adds an entry exactly if the dictionary does not have the key; the table,
  -- which may have grown, is well-formed, and its clients find what they find in the dictionary with
  -- the key added. The numbers of entries and of ids do not wrap.
  pub dict_add-Refines :
      (t : Table K V) (d : Dict K V) (k : K) (v : V)
      → IsTable hash t
      → Refines hash t d
      → t.used + 1 < 2 ^ 32
      → t.id_start + 1 < 2 ^ 64
      → Adds k v d (dict_add hash k v t)
  dict_add-Refines t d k v h r room more =
      let (found, there, _, _, _, start, used) = dict_find-Looked hash t k h in
      let t' = (dict_find hash k t).1 in
      let (is, is_table, view) = dict_find-Refines t d k h r in
      elim (Option-cases (dict_find hash k t).0) [
        | inl absent ↦
            let unknown : find k d ≡ none = sym is ∙ ap value absent in
            let (g, grown, linked, added) =
              enter_lem t' k v is_table (there ∙ absent) (omega (arith, used))
                (omega (arith, start)) in
            (
              link hash k v g,
              rw unknown (dict_add_new t g k v absent grown),
              linked,
              λ j. rw unknown (ground (arith, added j, view j, e.beq_iff j k, e.beq_iff k j)),
            )
        | inr (x, present) ↦
            let known : find k d ≡ some x.val = sym is ∙ ap value present in
            (t', rw known (dict_add_known t k v x present), is_table, λ j. rw known (view j))
      ]
