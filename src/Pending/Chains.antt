-- ===== src/Pending/Chains.antt =====
-- Chains of waiting requests (network/src/nw_state.c), and how a larger table keeps them.
use viabtc_future.Prelude.{
  ℕ, zero, suc, ◌+◌, ◌%◌, ◌≤◌, ◌<◌, ◌≡◌, ◌≢◌, refl, ap, true, ◌&&◌, Option, none, some, List, [],
  ◌∷◌, arith, length, if◌then◌else◌, ltb, leb, ◌==◌, ==_iff,
}
use viabtc_future.Pending.{StateEntry, get_from, write_slot, link_entry, move_entries, move_table}

module _ {D : Type 0} where
  -- No id stands twice in a chain.
  abbrev pub Apart : List (StateEntry D) → Type 0
  Apart [] = Unit
  Apart (x ∷ xs) = (get_from x.id xs ≡ none) × Apart xs

  abbrev pub first_of : Option (StateEntry D) → Option (StateEntry D) → Option (StateEntry D)
  first_of none b = b
  first_of (some a) b = some a

  abbrev pub look : ℕ → (ℕ → List (StateEntry D)) → ℕ → Option (StateEntry D)
  look size table id = get_from id (table (id % size))

  -- Each id stands once, in its own slot.
  abbrev pub InPlace : ℕ → (ℕ → List (StateEntry D)) → Type 0
  InPlace size table =
      ((i : ℕ) → Apart (table i)) × ((i id : ℕ) → id % size ≢ i → get_from id (table i) ≡ none)

  -- The entries of some slots from one on.
  abbrev pub total : ℕ → ℕ → (ℕ → List (StateEntry D)) → ℕ
  total zero i table = 0
  total (suc slots) i table = length (table i) + total slots (suc i) table

  pub get_from_is :
      (id : ℕ) (x : StateEntry D) (xs : List (StateEntry D)) → get_from id xs ≡ some x → x.id ≡ id
  unfolding get_from
  get_from_is id x [] h = ground (arith, h)
  get_from_is id x (y ∷ xs) h = ground (arith, get_from_is id x xs, ==_iff y.id id)

  pub look-link_entry :
      (size : ℕ) (x : StateEntry D) (table : ℕ → List (StateEntry D)) (id : ℕ)
      → look size (link_entry size x table) id ≡ (if x.id == id then some x else look size table id)
  unfolding link_entry write_slot get_from
  look-link_entry size x table id =
      ground (arith, ==_iff x.id id, ap (λ n. n % size) {x = x.id} {y = id})

  pub link_entry-InPlace :
      (size : ℕ) (x : StateEntry D) (table : ℕ → List (StateEntry D))
      → InPlace size table
      → look size table x.id ≡ none
      → InPlace size (link_entry size x table)
  unfolding link_entry write_slot get_from
  link_entry-InPlace size x table h fresh =
      let index = x.id % size in
      (
        λ i. ground (arith, h.0 i, h.0 index, fresh),
        λ i id other.
            ground (arith, h.1 i id other, ==_iff i index, ==_iff x.id id, h.1 index id, other),
      )

  pub total-write_slot :
      (slots i j : ℕ) (chain : List (StateEntry D)) (table : ℕ → List (StateEntry D))
      → total slots i (write_slot j chain table)
          + (if leb i j then if ltb j (i + slots) then length (table j) else 0 else 0)
        ≡ total slots i table
          + (if leb i j then if ltb j (i + slots) then length chain else 0 else 0)
  unfolding write_slot
  total-write_slot zero i j chain table = ground arith
  total-write_slot (suc slots) i j chain table =
      let at : i ≡ j → table i ≡ table j = ap table in
      ground (arith, total-write_slot slots (suc i) j chain table, ==_iff i j, at)

  pub total-link_entry :
      (size : ℕ) (x : StateEntry D) (table : ℕ → List (StateEntry D))
      → 0 < size
      → total size 0 (link_entry size x table) ≡ suc (total size 0 table)
  unfolding link_entry
  total-link_entry size x table h =
      let index = x.id % size in
      let inside : index < size = omega arith in
      ground (arith, total-write_slot size 0 index (x ∷ table index) table, inside)

  look-move_entries :
      (size : ℕ) (xs : List (StateEntry D)) (table : ℕ → List (StateEntry D)) (id : ℕ)
      → Apart xs
      → look size (move_entries size xs table) id ≡ first_of (get_from id xs) (look size table id)
  unfolding move_entries get_from
  look-move_entries size [] table id h = refl
  look-move_entries size (x ∷ xs) table id h = ground (
    arith,
    look-move_entries size xs (link_entry size x table) id h.1,
    look-link_entry size x table id,
    ==_iff x.id id,
  )

  move_entries-InPlace :
      (size : ℕ) (xs : List (StateEntry D)) (table : ℕ → List (StateEntry D))
      → InPlace size table
      → Apart xs
      → ((id : ℕ) (x : StateEntry D) → get_from id xs ≡ some x → look size table id ≡ none)
      → InPlace size (move_entries size xs table)
  unfolding move_entries get_from
  move_entries-InPlace size [] table h d fresh = h
  move_entries-InPlace size (x ∷ xs) table h d fresh =
      let same : (x.id == x.id) ≡ true = ground (arith, ==_iff x.id x.id) in
      let new = fresh x.id x (rw same) in
      move_entries-InPlace size xs (link_entry size x table) (link_entry-InPlace size x table h new)
        d.1
        (λ id y found.
          ground (arith, look-link_entry size x table id, ==_iff x.id id, d.0, found, fresh id y))

  total-move_entries :
      (size : ℕ) (xs : List (StateEntry D)) (table : ℕ → List (StateEntry D))
      → 0 < size
      → total size 0 (move_entries size xs table) ≡ length xs + total size 0 table
  unfolding move_entries
  total-move_entries size [] table h = omega arith
  total-move_entries size (x ∷ xs) table h = omega (
    arith,
    total-move_entries size xs (link_entry size x table) h,
    total-link_entry size x table h,
  )

  -- The slots that are moved are those of an old table.
  module _ (old : ℕ) (table : ℕ → List (StateEntry D)) (placed : InPlace old table) (size : ℕ) where
    pub look-move_table :
        (slots i : ℕ) (new : ℕ → List (StateEntry D)) (id : ℕ)
        → look size (move_table size slots i table new) id ≡ (
            if leb i (id % old) && ltb (id % old) (i + slots)
            then first_of (look old table id) (look size new id)
            else look size new id)
    unfolding move_table get_from
    look-move_table zero i new id = ground arith
    look-move_table (suc slots) i new id =
        let moved = move_entries size (table i) new in
        let index = id % old in
        let at : index ≡ i → table index ≡ table i = ap table in
        ground (
          arith,
          look-move_table slots (suc i) moved id,
          look-move_entries size (table i) new id (placed.0 i),
          placed.1 i id,
          at,
        )

    pub move_table-InPlace :
        (slots i : ℕ) (new : ℕ → List (StateEntry D))
        → InPlace size new
        → ((id : ℕ) → i ≤ id % old → look size new id ≡ none)
        → InPlace size (move_table size slots i table new)
    unfolding move_table
    move_table-InPlace zero i new p fresh = p
    move_table-InPlace (suc slots) i new p fresh =
        let moved = move_entries size (table i) new in
        let here : (id : ℕ) (x : StateEntry D)
            → get_from id (table i) ≡ some x
            → look size new id ≡ none =
          λ id x found. fresh id (ground (arith, placed.1 i id, found)) in
        move_table-InPlace slots (suc i) moved
          (move_entries-InPlace size (table i) new p (placed.0 i) here)
          (λ id later. ground (
            arith,
            look-move_entries size (table i) new id (placed.0 i),
            placed.1 i id,
            fresh id,
            later,
          ))

    pub total-move_table :
        (slots i : ℕ) (new : ℕ → List (StateEntry D))
        → 0 < size
        → total size 0 (move_table size slots i table new) ≡ total slots i table + total size 0 new
    unfolding move_table
    total-move_table zero i new h = omega arith
    total-move_table (suc slots) i new h =
        let moved = move_entries size (table i) new in
        omega
          (arith, total-move_table slots (suc i) moved h, total-move_entries size (table i) new h)
