-- ===== src/Dict/Table/Invariant.antt =====
-- What holds of a hash table of utils/src/ut_dict.c between the calls, and one step of each call.
use viabtc_future.Prelude.{
  ℕ, ◌+◌, ◌%◌, ◌^◌, ◌≤◌, ◌<◌, ◌≡◌, refl, ap, sym, ◌∙◌, Bool, Bool-cases, inl, inr, Option, none,
  some, List, [], arith, length, if◌then◌else◌, ltb, ◌==◌, ==_iff,
}
use viabtc_future.Dict.{Eq, Dict, find}
use viabtc_future.Dict.Table.{
  Entry, Table, set_slot, move_slots, find_entry, clear_chain, check_clear, dict_expand, dict_find,
  link,
}
use viabtc_future.Dict.Table.Chains.{
  value, filter, live, kept, Distinct, clear_chain-filter, clear_chain-used, find_entry-filter_kept,
  filter-Distinct,
}
use viabtc_future.Dict.Table.Powers.{IsSize, size_pos, dict_next_power_terminates}
use viabtc_future.Dict.Table.Grow.{
  total, total_empty_table, look, IsPlaced, total-set_slot, look-push, push-IsPlaced, total-push,
  look-move_slots, move_slots-IsPlaced, total-move_slots,
}

module _ {K V : Type 0} ⦃e : Eq K⦄ (hash : K → ℕ) where
  -- An entry that is kept was there.
  kept_some :
      (p : Entry K V → Bool) (o : Option (Entry K V)) (x : Entry K V)
      → kept p o ≡ some x
      → o ≡ some x
  kept_some p none x h = ground arith
  kept_some p (some y) x h = ground arith

  -- The entry that the table has for a key, marked or not.
  abbrev pub stored : Table K V → K → Option (Entry K V)
  stored t = look hash t.size t.table

  -- The size is a power of two, `used` counts the entries, each key stands once and in its slot,
  -- and the ids are below the next one.
  pub record IsTable (t : Table K V) : Type 0 where
    pub sized : IsSize t.size
    pub counted : t.used ≡ total t.size 0 t.table
    pub placed : IsPlaced hash t.size t.table
    pub ids : (k : K) (x : Entry K V) → stored t k ≡ some x → x.id < t.id_start
    pub cleared : t.id_clear ≤ t.id_start

  -- What a client finds under a key: the entries that `dict_mark_clear` has passed are gone.
  abbrev pub value_at : Table K V → K → Option V
  value_at t k = value (kept (live t.id_clear) (stored t k))

  abbrev pub Refines : Table K V → Dict K V → Type 0
  Refines t d = (k : K) → value_at t k ≡ find k d

  -- Another slot's entries are as they were, and the slot's are those of `xs`.
  pub stored-set_slot :
      (t : Table K V) (i : ℕ) (xs : List (Entry K V)) (k : K)
      → look hash t.size (set_slot i xs t.table) k
        ≡ (if hash k % t.size == i then find_entry k xs else stored t k)
  unfolding set_slot
  stored-set_slot t i xs k = ground arith

  pub empty-IsPlaced : (size : ℕ) → IsPlaced {V = V} hash size (λ i. [])
  unfolding find_entry
  empty-IsPlaced size = (λ i. tt, λ i k h. refl)

  -- A growth, which ends, keeps every entry.
  pub dict_expand_lem :
      (t : Table K V) (size : ℕ)
      → IsTable t
      → size ≤ 2 ^ 31
      → (t' : Table K V) × (dict_expand hash size t ≡ some t')
        × IsTable t'
        × ((k : K) → stored t' k ≡ stored t k)
        × (t'.id_clear ≡ t.id_clear)
        × (t'.used ≡ t.used)
        × (t'.id_start ≡ t.id_start)
  unfolding dict_expand find_entry
  dict_expand_lem t size h small =
      let (size', returned, is_size, enough, least) = dict_next_power_terminates size small in
      let table' = move_slots hash size' t.size 0 t.table t.used (λ i. []) in
      let same : (k : K) → look hash size' table' k ≡ stored t k = λ k.
        let inside : hash k % t.size < t.size = omega (arith, size_pos h.sized.1) in
        ground (
          arith,
          look-move_slots hash t.size t.table h.placed size' t.size 0 t.used (λ i. []) k h.counted,
          inside,
        ) in
      (
        record t { size = size'; table = table' },
        rw (dict_expand, returned),
        record {
          sized = is_size;
          counted = omega (
            arith,
            total-move_slots hash t.size t.table h.placed size' t.size 0 t.used (λ i. [])
                (size_pos is_size.1) h.counted,
            total_empty_table {K = K} {V = V} size' 0 (λ i. []) (λ i. refl),
          );
          placed =
              move_slots-IsPlaced hash t.size t.table h.placed size' t.size 0 t.used (λ i. [])
                h.counted (empty-IsPlaced size') (λ k a. refl);
          ids = λ k x found. h.ids k x (sym (same k) ∙ found);
          cleared = h.cleared;
        },
        same,
        refl,
        refl,
        refl,
      )

  -- A slot whose entries change, and lose their keys at most.
  pub set_slot-IsTable :
      (t : Table K V) (i : ℕ) (xs : List (Entry K V)) (used : ℕ)
      → IsTable t
      → i < t.size
      → Distinct xs
      → ((k : K) → find_entry k (t.table i) ≡ none → find_entry k xs ≡ none)
      → ((k : K) (x : Entry K V)
          → hash k % t.size ≡ i
          → find_entry k xs ≡ some x
          → x.id < t.id_start)
      → used + length (t.table i) ≡ t.used + length xs
      → IsTable (record t { table = set_slot i xs t.table; used = used })
  unfolding set_slot
  set_slot-IsTable t i xs used h inside distinct known ids count = record {
    sized = h.sized;
    counted = ground (arith, total-set_slot t.size 0 i xs t.table, h.counted, inside, count);
    placed = (
      λ j. ground (arith, h.placed.0 j, distinct),
      λ j k other. ground (arith, h.placed.1 j k other, known k, ==_iff j i),
    );
    ids = λ k x found.
        ground
          (arith, ids k x, h.ids k x, found, ==_iff (hash k % t.size) i, stored-set_slot t i xs k);
    cleared = h.cleared;
  }

  -- `check_clear` drops the entries of the slot that `dict_mark_clear` has passed.
  check_clear_lem :
      (t : Table K V) (i : ℕ)
      → IsTable t
      → i < t.size
      → IsTable (check_clear i t)
        × ((k : K)
            → stored (check_clear i t) k
              ≡ (if hash k % t.size == i then kept (live t.id_clear) (stored t k) else stored t k))
  unfolding check_clear
  check_clear_lem t i h inside =
      let xs = t.table i in
      let cleared = filter (live t.id_clear) xs in
      let at : (k : K)
          → hash k % t.size ≡ i
          → find_entry k cleared ≡ kept (live t.id_clear) (stored t k) =
        λ k same.
          find_entry-filter_kept (live t.id_clear) k xs (h.placed.0 i)
          ∙ ap (λ j. kept (live t.id_clear) (find_entry k (t.table j))) (sym same) in
      let enough : length xs ≤ t.used =
        ground (arith, total-set_slot t.size 0 i [] t.table, h.counted, inside) in
      let counts = clear_chain-filter t.id_clear xs t.used enough in
      let clear = kept_some (live t.id_clear) in
      (
        rw (counts.0) (
            set_slot-IsTable t i cleared (clear_chain t.id_clear xs t.used).1 h inside
              (filter-Distinct (live t.id_clear) xs (h.placed.0 i))
              (λ k absent.
                ground
                  (arith, find_entry-filter_kept (live t.id_clear) k xs (h.placed.0 i), absent))
              (λ k x same found. h.ids k x (clear (stored t k) x (sym (at k same) ∙ found)))
              counts.1),
        λ k.
            ground
              (arith, at k, counts.0, ==_iff (hash k % t.size) i, stored-set_slot t i cleared k),
      )

  -- What a lookup may return: the entry, if it is not passed, and a table with the same view, which
  -- has that entry and no other for the key.
  abbrev pub Looked : Table K V → K → Option (Entry K V) × Table K V → Type 0
  Looked t k r =
      (r.0 ≡ kept (live t.id_clear) (stored t k))
      × (stored r.1 k ≡ r.0)
      × IsTable r.1
      × ((j : K) → kept (live t.id_clear) (stored r.1 j) ≡ kept (live t.id_clear) (stored t j))
      × (r.1.id_clear ≡ t.id_clear)
      × (r.1.id_start ≡ t.id_start)
      × (r.1.used ≤ t.used)

  kept_twice : (p : Entry K V → Bool) (o : Option (Entry K V)) → kept p (kept p o) ≡ kept p o
  kept_twice p none = refl
  kept_twice p (some x) = ground arith

  check_clear-Looked :
      (t : Table K V) (k : K)
      → IsTable t
      → let i = hash k % t.size in
        Looked t k (find_entry k ((check_clear i t).table i), check_clear i t)
  unfolding check_clear
  check_clear-Looked t k h =
      let i = hash k % t.size in
      let (is_table, same) = check_clear_lem t i h (omega (arith, size_pos h.sized.1)) in
      let here = same k in
      (
        ground (arith, here, ==_iff i i),
        refl,
        is_table,
        λ j. ground (arith, same j, kept_twice (live t.id_clear) (stored t j)),
        refl,
        refl,
        clear_chain-used t.id_clear (t.table i) t.used,
      )

  pub dict_find-Looked : (t : Table K V) (k : K) → IsTable t → Looked t k (dict_find hash k t)
  unfolding dict_find
  dict_find-Looked t k h = elim (Bool-cases (ltb 0 t.id_clear)) [
    | inl on ↦ rw (on) (check_clear-Looked t k h)
    | inr off ↦
        let never : t.id_clear ≡ 0 = ground (arith, off) in
        rw (off) (ground (arith, never), refl, h, λ j. refl, refl, refl, omega arith)
  ]

  pub link_lem :
      (t : Table K V) (k : K) (v : V)
      → IsTable t
      → stored t k ≡ none
      → t.used + 1 < 2 ^ 32
      → t.id_start + 1 < 2 ^ 64
      → IsTable (link hash k v t)
        × ((j : K)
            → stored (link hash k v t) j ≡ (
                if e.beq j k
                then some (record { key = k; val = v; id = t.id_start })
                else stored t j))
  unfolding link
  link_lem t k v h fresh room more =
      let x : Entry K V = record { key = k; val = v; id = t.id_start } in
      let next : (t.id_start + 1) % 2 ^ 64 ≡ t.id_start + 1 = omega arith in
      (
        record {
          sized = h.sized;
          counted = omega (arith, total-push hash t.size x t.table (size_pos h.sized.1), h.counted);
          placed = push-IsPlaced hash t.size x t.table h.placed fresh;
          ids = λ j y found.
              ground (arith, look-push hash t.size x t.table j, h.ids j y, found, next);
          cleared = omega (arith, next, h.cleared);
        },
        look-push hash t.size x t.table,
      )
