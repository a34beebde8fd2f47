-- ===== src/Dict/Table/Iterate/Clears.antt =====
-- `dict_clear` of utils/src/ut_dict.c ends, and leaves nothing.
use viabtc_future.Prelude.{
  ℕ, zero, suc, ◌+◌, ◌-◌, ◌%◌, ◌≤◌, ◌<◌, ◌≡◌, refl, ap, sym, ◌∙◌, false, Bool-cases, inl, inr, ◌⊎◌,
  Option, none, some, List, [], ◌∷◌, arith, length, ◌==◌, ==_iff,
}
use mathlib.Core.Path.{subst}
use viabtc_future.Dict.{Eq}
use viabtc_future.Dict.Table.{Entry, Table, unlink, find_entry, dict_delete}
use viabtc_future.Dict.Table.Chains.{Distinct, find_entry-unlink}
use viabtc_future.Dict.Table.Powers.{size_pos}
use viabtc_future.Dict.Table.Grow.{total, total_empty, total-set_slot}
use viabtc_future.Dict.Table.Invariant.{stored, IsTable, Refines, stored-set_slot}
use viabtc_future.Dict.Table.Removes.{delete_stored, dict_delete-some}
use viabtc_future.Dict.Table.Iterate.{
  Iterator, dict_get_iterator, next_slot, dict_next, clear_from, dict_clear,
}

module _ {K V : Type 0} ⦃e : Eq K⦄ (hash : K → ℕ) where
  -- The iterator's chain holds entries of slots before its slot, and with the slots from there on it
  -- holds all entries.
  record Going (t : Table K V) (i : Iterator K V) : Type 0 where
    table : IsTable hash t
    slot : i.slot ≤ t.size
    distinct : Distinct i.chain
    there : (k : K) (x : Entry K V) → find_entry k i.chain ≡ some x → stored hash t k ≡ some x
    behind : (k : K) (x : Entry K V) → find_entry k i.chain ≡ some x → hash k % t.size < i.slot
    counted : t.used ≡ length i.chain + total (t.size - i.slot) i.slot t.table

  -- Deleting an entry before a slot leaves what is counted from there on.
  delete-total :
      (t : Table K V) (k : K) (x : Entry K V) (slots i : ℕ)
      → stored hash t k ≡ some x
      → hash k % t.size < i
      → total slots i (dict_delete hash k t).1.table ≡ total slots i t.table
  delete-total t k x slots i present before =
      let j = hash k % t.size in
      rw (dict_delete-some hash t k x present)
        (ground (arith, total-set_slot slots i j (unlink k (t.table j)) t.table, before))

  -- What the next entry is.
  abbrev Next : Table K V → Option (Entry K V × Iterator K V) → Type 0
  Next t r =
      ((r ≡ none) × (t.used ≡ 0))
      ⊎ ((x : Entry K V) × (i : Iterator K V) × (r ≡ some (x, i))
          × Going t (record { slot = i.slot; chain = x ∷ i.chain }))

  -- An entry of a slot is stored, and its hash names the slot.
  slot_entry :
      (t : Table K V) (s : ℕ) (k : K) (x : Entry K V)
      → IsTable hash t
      → find_entry k (t.table s) ≡ some x
      → (hash k % t.size ≡ s) × (stored hash t k ≡ some x)
  slot_entry t s k x h found =
      let here : hash k % t.size ≡ s = elim (Bool-cases (hash k % t.size == s)) [
        | inl same ↦ ground (arith, same)
        | inr other ↦ absurd (ground (arith, h.placed.1 s k, other, found))
      ] in
      (here, ap (λ n. find_entry k (t.table n)) here ∙ found)

  enter_slot :
      (slots : ℕ) (t : Table K V) (s : ℕ) (chain : List (Entry K V))
      → suc slots + s ≡ t.size
      → Going t (record { slot = s; chain = [] })
      → t.table s ≡ chain
      → Going t (record { slot = suc s; chain = chain })
  enter_slot slots t s chain h g at =
      let count : t.size - s ≡ suc slots = omega (arith, h) in
      let rest : t.size - suc s ≡ slots = omega (arith, h) in
      let entry : (k : K) (x : Entry K V)
          → find_entry k chain ≡ some x
          → (hash k % t.size ≡ s) × (stored hash t k ≡ some x) =
        λ k x found. slot_entry t s k x g.table (ap (find_entry k) at ∙ found) in
      record {
        table = g.table;
        slot = omega (arith, h);
        distinct = subst Distinct at (g.table.placed.0 s);
        there = λ k x found. (entry k x found).1;
        behind = λ k x found. omega (arith, (entry k x found).0);
        counted =
            g.counted
            ∙ ap (λ n. 0 + total n s t.table) count
            ∙ omega (arith, ap length at, ap (λ n. total n (suc s) t.table) rest);
      }

  next_slot-Next :
      (slots : ℕ) (t : Table K V) (s : ℕ)
      → slots + s ≡ t.size
      → Going t (record { slot = s; chain = [] })
      → Next t (next_slot slots s t.table)
  unfolding next_slot
  next_slot-Next zero t s h g =
      let none_left : t.size - s ≡ 0 = omega (arith, h) in
      inl (refl, g.counted ∙ ap (λ n. 0 + total n s t.table) none_left ∙ omega arith)
  next_slot-Next (suc slots) t s h g =
      found_in (t.table s) refl
        (λ at. next_slot-Next slots t (suc s) (omega (arith, h)) (enter_slot slots t s [] h g at))
    where
      found_in :
          (chain : List (Entry K V))
          → t.table s ≡ chain
          → (t.table s ≡ [] → Next t (next_slot slots (suc s) t.table))
          → Next t (elim chain [
            | [] ↦ next_slot slots (suc s) t.table
            | entry ∷ rest ↦ some (entry, record { slot = suc s; chain = rest })
          ])
      found_in [] at again = again at
      found_in (x ∷ rest) at again =
          inr
            (x, record { slot = suc s; chain = rest }, refl, enter_slot slots t s (x ∷ rest) h g at)

  dict_next-Next :
      (t : Table K V) (slot : ℕ) (chain : List (Entry K V))
      → Going t (record { slot = slot; chain = chain })
      → Next t (dict_next t (record { slot = slot; chain = chain }))
  unfolding dict_next
  dict_next-Next t slot [] g = next_slot-Next (t.size - slot) t slot (omega (arith, g.slot)) g
  dict_next-Next t slot (x ∷ chain) g = inr (x, record { slot = slot; chain = chain }, refl, g)

  -- Deleting a key leaves what is stored under the others.
  delete_other :
      (t : Table K V) (k : K) (x : Entry K V) (j : K)
      → IsTable hash t
      → stored hash t k ≡ some x
      → e.beq k j ≡ false
      → stored hash (dict_delete hash k t).1 j ≡ stored hash t j
  delete_other t k x j h present other =
      let i = hash k % t.size in
      rw (dict_delete-some hash t k x present) (
        ground (
          arith,
          stored-set_slot hash t i (unlink k (t.table i)) j,
          find_entry-unlink j k (t.table i) (h.placed.0 i),
          other,
          ==_iff (hash j % t.size) i,
          ap (λ n. find_entry j (t.table n)) {x = hash j % t.size} {y = i},
        ))

  -- A key of the rest of a chain is not the first entry's.
  later_key :
      (x : Entry K V) (chain : List (Entry K V)) (k : K) (y : Entry K V)
      → Distinct (x ∷ chain)
      → find_entry k chain ≡ some y
      → (e.beq x.key k ≡ false) × (find_entry k (x ∷ chain) ≡ some y)
  unfolding find_entry
  later_key x chain k y d found =
      let other : e.beq x.key k ≡ false = elim (Bool-cases (e.beq x.key k)) [
        | inl same ↦
            absurd (
              ground (arith, found, d.0, ap (λ j. find_entry j chain) ((e.beq_iff x.key k).0 same)))
        | inr other ↦ other
      ] in
      (other, ground (arith, other, found, e.beq_iff x.key k, e.beq_iff k x.key))

  first_key : (x : Entry K V) (chain : List (Entry K V)) → find_entry x.key (x ∷ chain) ≡ some x
  unfolding find_entry
  first_key x chain = ground (arith, e.beq_iff x.key x.key)

  -- Deleting the entry leaves the iterator going.
  delete-Going :
      (t : Table K V) (x : Entry K V) (slot : ℕ) (chain : List (Entry K V))
      → Going t (record { slot = slot; chain = x ∷ chain })
      → Going (dict_delete hash x.key t).1 (record { slot = slot; chain = chain })
        × (suc (dict_delete hash x.key t).1.used ≡ t.used)
  delete-Going t x slot chain g =
      let t' = (dict_delete hash x.key t).1 in
      let present = g.there x.key x (first_key x chain) in
      let before = g.behind x.key x (first_key x chain) in
      let deleted = dict_delete-some hash t x.key x present in
      let size : t'.size ≡ t.size = ap (λ (r : ℕ × Table K V). r.1.size) deleted in
      let used : t'.used ≡ t.used - 1 = ap (λ (r : ℕ × Table K V). r.1.used) deleted in
      (
        record {
          table = (delete_stored hash t x.key x g.table present).0;
          slot = omega (arith, g.slot, size);
          distinct = g.distinct.1;
          there = λ k y found.
              let (other, entry) = later_key x chain k y g.distinct found in
              delete_other t x.key x k g.table present other ∙ g.there k y entry;
          behind = λ k y found.
              subst (λ n. hash k % n < slot) (sym size)
                (g.behind k y (later_key x chain k y g.distinct found).1);
          counted = omega (
            arith,
            used,
            g.counted,
            delete-total t x.key x (t.size - slot) slot present before,
            ap (λ n. total (n - slot) slot t'.table) size,
          );
        },
        omega (arith, used, g.counted),
      )

  -- A table with nothing in it is the empty dictionary.
  unused-Refines : (t : Table K V) → IsTable hash t → t.used ≡ 0 → Refines hash t []
  unfolding find_entry
  unused-Refines t h unused = λ k.
      let at =
        total_empty t.size 0 (hash k % t.size) t.table (omega (arith, unused, h.counted))
          (omega arith) (omega (arith, size_pos h.sized.1)) in
      rw (at)

  none_found : (k : K) (x : Entry K V) → find_entry k [] ≡ some x → ⊥
  unfolding find_entry
  none_found k x found = ground (arith, found)

  clear_from_lem :
      (fuel : ℕ) (t : Table K V) (slot : ℕ) (chain : List (Entry K V))
      → t.used < fuel
      → Going t (record { slot = slot; chain = chain })
      → (t' : Table K V) × (clear_from hash fuel (record { slot = slot; chain = chain }) t
          ≡ some t')
        × IsTable hash t'
        × (t'.used ≡ 0)
  unfolding clear_from
  clear_from_lem zero t slot chain h g = absurd (omega (arith, h))
  clear_from_lem (suc fuel) t slot chain h g = elim (dict_next-Next t slot chain g) [
    | inl (ended, unused) ↦ (t, rw (clear_from, ended), g.table, unused)
    | inr (x, i, got, going) ↦
        let (less, count) = delete-Going t x i.slot i.chain going in
        let (t', cleared, is_table, unused) =
          clear_from_lem fuel (dict_delete hash x.key t).1 i.slot i.chain (omega (arith, h, count))
            less in
        (t', rw (clear_from, got, cleared), is_table, unused)
  ]

  -- The loop of dict_clear, which deletes the entry that the iterator has just passed, ends: it
  -- leaves a well-formed table without entries, in which its clients find nothing.
  pub dict_clear_ends :
      (t : Table K V)
      → IsTable hash t
      → (t' : Table K V) × (dict_clear hash t ≡ some t')
        × IsTable hash t'
        × (t'.used ≡ 0)
        × Refines hash t' []
  unfolding dict_clear dict_get_iterator
  dict_clear_ends t h =
      let start : Going t (record { slot = 0; chain = [] }) = record {
        table = h;
        slot = omega arith;
        distinct = tt;
        there = λ k x found. absurd (none_found k x found);
        behind = λ k x found. absurd (none_found k x found);
        counted =
            h.counted
            ∙ omega
                (arith, ap (λ n. total n 0 t.table) {x = t.size} {y = t.size - 0} (omega arith));
      } in
      let (t', cleared, is_table, unused) =
        clear_from_lem (suc t.used) t 0 [] (omega arith) start in
      (t', cleared, is_table, unused, unused-Refines t' is_table unused)
