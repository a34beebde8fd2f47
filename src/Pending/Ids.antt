-- ===== src/Pending/Ids.antt =====
-- The search for an id that no waiting request has (network/src/nw_state.c): it ends.
use viabtc_future.Prelude.{
  ℕ, zero, suc, ◌+◌, ◌-◌, ◌%◌, ◌^◌, ◌≤◌, ◌<◌, ◌≡◌, ◌≢◌, refl, ap, true, none, some, List, [], ◌∷◌,
  arith, length, if◌then◌else◌, leb, ltb, ◌==◌, ==_iff, is_some, inl, inr, Bool-cases,
}
use viabtc_future.Pending.{StateEntry, NwState, get_from, nw_state_get, next_id, available_from}
use viabtc_future.Pending.Chains.{look, total}
use viabtc_future.Pending.Grow.{IsState}

-- A sum over the ids after one.
abbrev sum : ℕ → ℕ → (ℕ → ℕ) → ℕ
sum zero a f = 0
sum (suc n) a f = f (suc a) + sum n (suc a) f

sum_mono : (n a : ℕ) (f g : ℕ → ℕ) → ((id : ℕ) → f id ≤ g id) → sum n a f ≤ sum n a g
sum_mono zero a f g h = omega arith
sum_mono (suc n) a f g h = omega (arith, sum_mono n (suc a) f g h, h (suc a))

sum-add : (n a : ℕ) (f g : ℕ → ℕ) → sum n a (λ id. f id + g id) ≡ sum n a f + sum n a g
sum-add zero a f g = refl
sum-add (suc n) a f g = omega (arith, sum-add n (suc a) f g)

sum-zero : (n a : ℕ) → sum n a (λ id. 0) ≡ 0
sum-zero zero a = refl
sum-zero (suc n) a = omega (arith, sum-zero n (suc a))

abbrev here : ℕ → ℕ → ℕ
here x id = if x == id then 1 else 0

sum-here : (n a x : ℕ) → sum n a (here x) ≤ (if leb x a then 0 else 1)
sum-here zero a x = ground arith
sum-here (suc n) a x = ground (arith, sum-here n (suc a) x, ==_iff x (suc a))

sum_low : (n a : ℕ) (f : ℕ → ℕ) → ((k : ℕ) → a < k → k ≤ a + n → 1 ≤ f k) → n ≤ sum n a f
sum_low zero a f h = omega arith
sum_low (suc n) a f h = omega (
  arith,
  sum_low n (suc a) f (λ k low high. h k (omega (arith, low)) (omega (arith, high))),
  h (suc a) (omega arith) (omega arith),
)

module _ {D : Type 0} where
  abbrev in_chain : ℕ → List (StateEntry D) → ℕ
  in_chain id xs = if is_some (get_from id xs) then 1 else 0

  abbrev in_slots : ℕ → ℕ → (ℕ → List (StateEntry D)) → ℕ → ℕ
  in_slots zero i table id = 0
  in_slots (suc slots) i table id = in_chain id (table i) + in_slots slots (suc i) table id

  in_chain-cons :
      (id : ℕ) (x : StateEntry D) (xs : List (StateEntry D))
      → in_chain id (x ∷ xs) ≤ here x.id id + in_chain id xs
  unfolding get_from
  in_chain-cons id x xs = ground (arith, ==_iff x.id id)

  sum-in_chain : (n a : ℕ) (xs : List (StateEntry D)) → sum n a (λ id. in_chain id xs) ≤ length xs
  unfolding get_from
  sum-in_chain n a [] = omega (arith, sum-zero n a)
  sum-in_chain n a (x ∷ xs) =
      let step =
        sum_mono n a (λ id. in_chain id (x ∷ xs)) (λ id. here x.id id + in_chain id xs)
          (λ id. in_chain-cons id x xs) in
      ground (
        arith,
        step,
        sum-add n a (here x.id) (λ id. in_chain id xs),
        sum-here n a x.id,
        sum-in_chain n a xs,
      )

  sum-in_slots :
      (n a slots i : ℕ) (table : ℕ → List (StateEntry D))
      → sum n a (in_slots slots i table) ≤ total slots i table
  sum-in_slots n a zero i table = omega (arith, sum-zero n a)
  sum-in_slots n a (suc slots) i table = omega (
    arith,
    sum-add n a (λ id. in_chain id (table i)) (in_slots slots (suc i) table),
    sum-in_chain n a (table i),
    sum-in_slots n a slots (suc i) table,
  )

  in_slots-at :
      (slots i j id : ℕ) (table : ℕ → List (StateEntry D))
      → i ≤ j
      → j < i + slots
      → in_chain id (table j) ≤ in_slots slots i table id
  in_slots-at zero i j id table low high = omega (arith, low, high)
  in_slots-at (suc slots) i j id table low high =
      let at : i ≡ j → table i ≡ table j = ap table in
      ground (arith, in_slots-at slots (suc i) j id table, low, high, at)

  -- A table has an entry for each id in use.
  in_use_total :
      (n a size : ℕ) (table : ℕ → List (StateEntry D))
      → 0 < size
      → ((k : ℕ) → a < k → k ≤ a + n → is_some (look size table k) ≡ true)
      → n ≤ total size 0 table
  in_use_total n a size table h used = omega (
    arith,
    sum_low n a (in_slots size 0 table) (λ k low high.
        let inside : k % size < size = omega (arith, h) in
        ground (arith, in_slots-at size 0 (k % size) k table, used k low high, inside)),
    sum-in_slots n a size 0 table,
  )

  -- A search that fails has met ids in use only.
  available_from-all :
      (n a : ℕ) (context : NwState D)
      → a + n < 2 ^ 32
      → available_from n a context ≡ none
      → (k : ℕ) → a < k
      → k ≤ a + n
      → is_some (nw_state_get k context) ≡ true
  unfolding available_from next_id
  available_from-all zero a context h fails k low high = ground (arith, low, high)
  available_from-all (suc n) a context h fails k low high =
      let one : next_id a ≡ suc a = ground (arith, h) in
      elim (Bool-cases (k == suc a)) [
        | inl first ↦ ground (
          arith,
          fails,
          first,
          ap (λ i. nw_state_get i context) one,
          ap (λ i. nw_state_get i context) {x = k} {y = suc a},
        )
        | inr next ↦
            available_from-all n (suc a) context (omega (arith, h))
              (ground (arith, fails, ap (λ i. available_from n i context) one)) k
              (ground (arith, low, next)) (omega (arith, high))
      ]

  -- A search that fails fails when it is resumed at the first id, and with fewer rounds.
  available_from-later :
      (n m rounds a : ℕ) (context : NwState D)
      → a + n ≡ 2 ^ 32 - 1
      → rounds ≡ n + suc m
      → available_from rounds a context ≡ none
      → available_from m 1 context ≡ none
  unfolding available_from next_id
  available_from-later n m zero a context h r fails = ground (arith, r)
  available_from-later zero m (suc rounds) a context h r fails =
      let same : rounds ≡ m = omega (arith, r) in
      let one : next_id a ≡ 1 = ground (arith, h) in
      ground (
        arith,
        fails,
        ap (λ i. available_from rounds i context) one,
        ap (λ i. available_from i 1 context) same,
      )
  available_from-later (suc n) m (suc rounds) a context h r fails =
      let one : next_id a ≡ suc a = ground (arith, h) in
      ground (
        arith,
        available_from-later n m rounds (suc a) context (omega (arith, h)) (omega (arith, r)),
        fails,
        ap (λ i. available_from rounds i context) one,
      )

  available_from-shorter :
      (n rounds a : ℕ) (context : NwState D)
      → n ≤ rounds
      → available_from rounds a context ≡ none
      → available_from n a context ≡ none
  unfolding available_from
  available_from-shorter zero rounds a context h fails = refl
  available_from-shorter (suc n) zero a context h fails = ground (arith, h)
  available_from-shorter (suc n) (suc rounds) a context h fails =
      ground (arith, available_from-shorter n rounds (next_id a) context, h, fails)

  pub available_from-free :
      (n a : ℕ) (context : NwState D) (id : ℕ)
      → available_from n a context ≡ some id
      → (nw_state_get id context ≡ none) × (id ≢ 0) × (id < 2 ^ 32)
  unfolding available_from next_id
  available_from-free zero a context id h = ground (arith, h)
  available_from-free (suc n) a context id h =
      ground (arith, available_from-free n (next_id a) context id, h)

  -- While fewer than 2^30 ids are in use, the search finds one.
  pub available_from_ends :
      (a : ℕ) (context : NwState D)
      → IsState context
      → context.used < 2 ^ 30
      → a < 2 ^ 32
      → available_from (2 ^ 32) a context ≢ none
  unfolding nw_state_get
  available_from_ends a context h low range fails =
      let enough : (b : ℕ) → b + 2 ^ 30 < 2 ^ 32 → available_from (2 ^ 30) b context ≢ none =
        λ b room none_left.
          let many =
            in_use_total (2 ^ 30) b context.table_size context.table h.some_slot
              (available_from-all (2 ^ 30) b context room none_left) in
          omega (arith, many, h.counted, low) in
      elim (Bool-cases (ltb (a + 2 ^ 30) (2 ^ 32))) [
        | inl direct ↦
            enough a (ground (arith, direct))
              (available_from-shorter (2 ^ 30) (2 ^ 32) a context (omega arith) fails)
        | inr wraps ↦ enough 1 (omega arith) (
            available_from-shorter (2 ^ 30) a 1 context (ground (arith, wraps)) (
              available_from-later (2 ^ 32 - 1 - a) a (2 ^ 32) a context (omega (arith, range))
                (omega (arith, range)) fails))
      ]
