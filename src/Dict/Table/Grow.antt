-- ===== src/Dict/Table/Grow.antt =====
-- `dict_expand` of utils/src/ut_dict.c: what the moved entries are looked up as.
use viabtc_future.Prelude.{
  ℕ, zero, suc, ◌+◌, ◌-◌, ◌%◌, ◌≤◌, ◌<◌, ◌≡◌, ◌≢◌, refl, ap, true, Bool-cases, inl, inr, Option,
  none, some, List, [], ◌∷◌, arith, length, if◌then◌else◌, ltb, leb, ◌==◌, ==_iff, ◌&&◌,
}
use viabtc_future.Dict.{Eq}
use viabtc_future.Dict.Table.{Entry, set_slot, push, move_chain, move_slots, find_entry}
use viabtc_future.Dict.Table.Chains.{Distinct, or_else}

module _ {K V : Type 0} where
  -- The entries in `slots` slots from `i` on.
  abbrev pub total : ℕ → ℕ → (ℕ → List (Entry K V)) → ℕ
  total zero i table = 0
  total (suc slots) i table = length (table i) + total slots (suc i) table

  pub total-set_slot :
      (slots i j : ℕ) (xs : List (Entry K V)) (table : ℕ → List (Entry K V))
      → total slots i (set_slot j xs table)
          + (if leb i j then if ltb j (i + slots) then length (table j) else 0 else 0)
        ≡ total slots i table + (if leb i j then if ltb j (i + slots) then length xs else 0 else 0)
  unfolding set_slot
  total-set_slot zero i j xs table = ground arith
  total-set_slot (suc slots) i j xs table =
      let at : (i == j) ≡ true → table i ≡ table j = λ h. ground (arith, ==_iff i j) in
      ground (arith, total-set_slot slots (suc i) j xs table, ==_iff i j, at)

  pub total_empty_table :
      (slots i : ℕ) (table : ℕ → List (Entry K V))
      → ((j : ℕ) → table j ≡ [])
      → total slots i table ≡ 0
  total_empty_table zero i table h = refl
  total_empty_table (suc slots) i table h =
      ground (arith, h i, total_empty_table slots (suc i) table h)

  pub total_empty :
      (slots i j : ℕ) (table : ℕ → List (Entry K V))
      → total slots i table ≡ 0
      → i ≤ j
      → j < i + slots
      → table j ≡ []
  total_empty zero i j table h a b = absurd (omega arith)
  total_empty (suc slots) i j table h a b = elim (Bool-cases (i == j)) [
    | inl now ↦ ground (arith, ==_iff i j, now)
    | inr later ↦
        let apart : i ≢ j = λ same. ground (arith, ==_iff i j, later, same) in
        total_empty slots (suc i) j table (omega arith) (omega (arith, apart)) (omega arith)
  ]

  module _ ⦃e : Eq K⦄ (hash : K → ℕ) where
    -- The entry of a key in a table of some size.
    abbrev pub look : ℕ → (ℕ → List (Entry K V)) → K → Option (Entry K V)
    look size table k = find_entry k (table (hash k % size))

    -- Each key stands once, in its own slot.
    abbrev pub IsPlaced : ℕ → (ℕ → List (Entry K V)) → Type 0
    IsPlaced size table =
        ((i : ℕ) → Distinct (table i))
        × ((i : ℕ) (k : K) → hash k % size ≢ i → find_entry k (table i) ≡ none)

    pub look-push :
        (size : ℕ) (x : Entry K V) (table : ℕ → List (Entry K V)) (k : K)
        → look size (push hash size x table) k
          ≡ (if e.beq k x.key then some x else look size table k)
    unfolding push set_slot find_entry
    look-push size x table k = ground (arith, e.beq_iff k x.key)

    pub push-IsPlaced :
        (size : ℕ) (x : Entry K V) (table : ℕ → List (Entry K V))
        → IsPlaced size table
        → look size table x.key ≡ none
        → IsPlaced size (push hash size x table)
    unfolding push set_slot find_entry
    push-IsPlaced size x table h fresh =
        let index = hash x.key % size in
        (
          λ i. ground (arith, h.0 i, h.0 index, fresh),
          λ i k other.
              ground (arith, h.1 i k other, ==_iff i index, e.beq_iff k x.key, h.1 index k, other),
        )

    look-move_chain :
        (size : ℕ) (xs : List (Entry K V)) (used : ℕ) (table : ℕ → List (Entry K V)) (k : K)
        → Distinct xs
        → look size (move_chain hash size xs used table).1 k
          ≡ or_else (find_entry k xs) (look size table k)
    unfolding move_chain find_entry
    look-move_chain size [] used table k h = refl
    look-move_chain size (x ∷ xs) used table k h = ground (
      arith,
      look-move_chain size xs (used - 1) (push hash size x table) k h.1,
      look-push size x table k,
      e.beq_iff k x.key,
    )

    move_chain-used :
        (size : ℕ) (xs : List (Entry K V)) (used : ℕ) (table : ℕ → List (Entry K V))
        → (move_chain hash size xs used table).0 ≡ used - length xs
    unfolding move_chain
    move_chain-used size [] used table = omega arith
    move_chain-used size (x ∷ xs) used table =
        omega (arith, move_chain-used size xs (used - 1) (push hash size x table))

    move_chain-IsPlaced :
        (size : ℕ) (xs : List (Entry K V)) (used : ℕ) (table : ℕ → List (Entry K V))
        → IsPlaced size table
        → Distinct xs
        → ((k : K) (x : Entry K V) → find_entry k xs ≡ some x → look size table k ≡ none)
        → IsPlaced size (move_chain hash size xs used table).1
    unfolding move_chain find_entry
    move_chain-IsPlaced size [] used table h d fresh = h
    move_chain-IsPlaced size (x ∷ xs) used table h d fresh =
        let same : e.beq x.key x.key ≡ true = ground (arith, e.beq_iff x.key x.key) in
        let new = fresh x.key x (rw same) in
        move_chain-IsPlaced size xs (used - 1) (push hash size x table)
          (push-IsPlaced size x table h new) d.1
          (λ k y found.
            ground (arith, look-push size x table k, e.beq_iff k x.key, d.0, found, fresh k y))

    pub total-push :
        (size : ℕ) (x : Entry K V) (table : ℕ → List (Entry K V))
        → 0 < size
        → total size 0 (push hash size x table) ≡ suc (total size 0 table)
    unfolding push
    total-push size x table h =
        let index = hash x.key % size in
        let inside : index < size = omega arith in
        ground (arith, total-set_slot size 0 index (x ∷ table index) table, inside)

    total-move_chain :
        (size : ℕ) (xs : List (Entry K V)) (used : ℕ) (table : ℕ → List (Entry K V))
        → 0 < size
        → total size 0 (move_chain hash size xs used table).1 ≡ length xs + total size 0 table
    unfolding move_chain
    total-move_chain size [] used table h = omega arith
    total-move_chain size (x ∷ xs) used table h = omega (
      arith,
      total-move_chain size xs (used - 1) (push hash size x table) h,
      total-push size x table h,
    )

    -- The slots that are moved are those of an old table.
    module _ (old : ℕ) (table : ℕ → List (Entry K V)) (placed : IsPlaced old table) (size : ℕ) where
      pub look-move_slots :
          (slots i used : ℕ) (new : ℕ → List (Entry K V)) (k : K)
          → used ≡ total slots i table
          → look size (move_slots hash size slots i table used new) k ≡ (
              if leb i (hash k % old) && ltb (hash k % old) (i + slots)
              then or_else (look old table k) (look size new k)
              else look size new k)
      unfolding move_slots find_entry
      look-move_slots zero i used new k h = ground arith
      look-move_slots (suc slots) i used new k h =
          let moved = move_chain hash size (table i) used new in
          let index = hash k % old in
          let at : index ≡ i → table index ≡ table i = ap table in
          ground (
            arith,
            look-move_slots slots (suc i) moved.0 moved.1 k,
            move_chain-used size (table i) used new,
            look-move_chain size (table i) used new k (placed.0 i),
            placed.1 i k,
            at,
            total_empty (suc slots) i index table,
          )

      pub move_slots-IsPlaced :
          (slots i used : ℕ) (new : ℕ → List (Entry K V))
          → used ≡ total slots i table
          → IsPlaced size new
          → ((k : K) → i ≤ hash k % old → look size new k ≡ none)
          → IsPlaced size (move_slots hash size slots i table used new)
      unfolding move_slots
      move_slots-IsPlaced zero i used new h p fresh = p
      move_slots-IsPlaced (suc slots) i used new h p fresh =
          let moved = move_chain hash size (table i) used new in
          let here : (k : K) (x : Entry K V)
              → find_entry k (table i) ≡ some x
              → look size new k ≡ none =
            λ k x found. fresh k (ground (arith, placed.1 i k, found)) in
          let rest =
            move_slots-IsPlaced slots (suc i) moved.0 moved.1
              (omega (arith, move_chain-used size (table i) used new))
              (move_chain-IsPlaced size (table i) used new p (placed.0 i) here)
              (λ k later. ground (
                arith,
                look-move_chain size (table i) used new k (placed.0 i),
                placed.1 i k,
                fresh k,
                later,
              )) in
          elim (Bool-cases (used == 0)) [ inl done ↦ rw (done) p | inr more ↦ rw (more) rest ]

      pub total-move_slots :
          (slots i used : ℕ) (new : ℕ → List (Entry K V))
          → 0 < size
          → used ≡ total slots i table
          → total size 0 (move_slots hash size slots i table used new) ≡ used + total size 0 new
      unfolding move_slots
      total-move_slots zero i used new h u = omega arith
      total-move_slots (suc slots) i used new h u =
          let moved = move_chain hash size (table i) used new in
          ground (
            arith,
            total-move_slots slots (suc i) moved.0 moved.1 h,
            move_chain-used size (table i) used new,
            total-move_chain size (table i) used new h,
          )
