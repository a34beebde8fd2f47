-- ===== src/Dict/Table/Powers.antt =====
-- The sizes of the table (utils/src/ut_dict.c): the powers of two up to 2 ^ 31.
use viabtc_future.Prelude.{
  ℕ, zero, suc, ◌*◌, ◌%◌, ◌^◌, ◌≤◌, ◌<◌, ◌≡◌, refl, Bool-cases, Option, none, some, arith, leb, inl,
  inr, ◌⊎◌,
}
use viabtc_future.Dict.Table.{next_power_from, dict_next_power}

-- `Sizes n p`: the loop reaches 2 ^ 31 from p in n - 1 doublings.
pub data Sizes : ℕ → ℕ → Type 0 where
  last : {p : ℕ} → p ≡ 2 ^ 31 → Sizes 1 p
  more : {n p : ℕ} → Sizes n (2 * p) → Sizes (suc n) p

abbrev pub IsSize : ℕ → Type 0
IsSize p = (n : ℕ) × Sizes n p

pub size_le : {n p : ℕ} → Sizes n p → p ≤ 2 ^ 31
size_le (last e) = omega arith
size_le (more h) = omega (arith, size_le h)

pub size_pos : {n p : ℕ} → Sizes n p → 0 < p
size_pos (last e) = omega arith
size_pos (more h) = omega (arith, size_pos h)

-- Four times a size, in 32 bits.
pub four_times_le : {n p : ℕ} → Sizes n p → p * 4 % 2 ^ 32 ≤ 2 ^ 31
four_times_le (last e) = omega arith
four_times_le (more (last e)) = omega arith
four_times_le (more (more h)) = omega (arith, size_le h)

pub four-Sizes : Sizes 30 4
four-Sizes = more (
    more (
      more (
        more (
          more (
            more (
              more (
                more (
                  more (
                    more (
                      more (
                        more (
                          more (
                            more (
                              more (
                                more (
                                  more (
                                    more (
                                      more (
                                        more (
                                          more (
                                            more (
                                              more (
                                                more (
                                                  more (
                                                    more (
                                                      more (
                                                        more (
                                                          more
                                                            (last refl)))))))))))))))))))))))))))))

-- The loop ends on a size that is large enough, and on the first one.
abbrev Found : ℕ → ℕ → Option ℕ → Type 0
Found size start r = (p : ℕ) × (r ≡ some p) × IsSize p × (size ≤ p) × ((p ≡ start) ⊎ (p < 2 * size))

next_power_from-Found :
    (n p size : ℕ) → Sizes n p → size ≤ 2 ^ 31 → Found size p (next_power_from n size p)
unfolding next_power_from
next_power_from-Found n p size (last e) h = (p, ground arith, (1, last e), omega arith, inl refl)
next_power_from-Found n p size (more g) h =
    let doubled : p * 2 % 2 ^ 32 ≡ 2 * p = omega (arith, size_le g) in
    let (q, returned, is_size, enough, least) = next_power_from-Found _ (2 * p) size g h in
    elim (Bool-cases (leb size p)) [
      | inl now ↦ (p, rw now, (_, more g), ground (arith, now), inl refl)
      | inr later ↦
          (q, rw (later, doubled, returned), is_size, enough, inr (ground (arith, least, later)))
    ]

-- The round after the last size makes the size 0, which stays.
next_power_from_zero : (fuel size : ℕ) → 2 ^ 31 < size → next_power_from fuel size 0 ≡ none
unfolding next_power_from
next_power_from_zero zero size h = refl
next_power_from_zero (suc fuel) size h = ground (arith, next_power_from_zero fuel size h)

next_power_from-none :
    (fuel n p size : ℕ) → Sizes n p → 2 ^ 31 < size → next_power_from fuel size p ≡ none
unfolding next_power_from
next_power_from-none zero n p size g h = refl
next_power_from-none (suc fuel) n p size (last e) h =
    ground (arith, next_power_from_zero fuel size h)
next_power_from-none (suc fuel) n p size (more g) h =
    let doubled : p * 2 % 2 ^ 32 ≡ 2 * p = omega (arith, size_le g) in
    let small : p ≤ 2 ^ 31 = size_le (more g) in
    ground (arith, doubled, next_power_from-none fuel _ (2 * p) size g h)

-- For a size of at most 2 ^ 31 the loop of dict_next_power ends, with a size of the table that is
-- large enough, and is 4 or less than twice what was asked for.
pub dict_next_power_terminates :
    (size : ℕ)
    → size ≤ 2 ^ 31
    → (p : ℕ) × (dict_next_power size ≡ some p) × IsSize p × (size ≤ p) × ((p ≡ 4) ⊎ (p < 2 * size))
unfolding dict_next_power
dict_next_power_terminates size = next_power_from-Found 30 4 size four-Sizes

-- For a size above 2 ^ 31 the loop of dict_next_power has not ended after any number of rounds.
next_power_from_stuck : (size fuel : ℕ) → 2 ^ 31 < size → next_power_from fuel size 4 ≡ none
next_power_from_stuck size fuel h = next_power_from-none fuel 30 4 size four-Sizes h
