-- ===== src/Dict.antt =====
-- A dictionary as its clients use `dict_find`, `dict_add` and `dict_delete` of
-- utils/src/ut_dict.c: an association list whose keys are compared by an equality test.
pub mod Laws
pub mod Table
use viabtc_future.Prelude.{
  ℕ, ◌≡◌, ◌↔◌, Bool, Option, none, some, List, [], ◌∷◌, true, ◌==◌, ==_iff, if◌then◌else◌, is_some,
}

-- `key_compare(a, b) == 0`.
pub record Eq {ℓ} (K : Type ℓ) : Type ℓ where
  pub beq : K → K → Bool
  pub beq_iff : (a b : K) → (beq a b ≡ true) ↔ (a ≡ b)

instance abbrev pub nat_eq : Eq ℕ
nat_eq = record { beq = ◌==◌; beq_iff = ==_iff }

abbrev pub Dict : Type 0 → Type 0 → Type 0
Dict K V = List (K × V)

module _ {K : Type 0} ⦃e : Eq K⦄ {V : Type 0} where
  -- `dict_find`: the value of the entry, if there is one.
  abbrev pub find : K → Dict K V → Option V
  find k [] = none
  find k ((j, v) ∷ d) = if e.beq j k then some v else find k d

  -- A write through the entry that `dict_find` returned.
  abbrev pub assign : K → V → Dict K V → Dict K V
  assign k v [] = []
  assign k v ((j, w) ∷ d) = if e.beq j k then (j, v) ∷ d else (j, w) ∷ assign k v d

  -- `dict_add` refuses a key that is there.
  abbrev pub add : K → V → Dict K V → Option (Dict K V)
  add k v d = if is_some (find k d) then none else some ((k, v) ∷ d)

  -- `dict_delete`. Keys are distinct, so the one entry goes.
  abbrev pub delete : K → Dict K V → Dict K V
  delete k [] = []
  delete k ((j, w) ∷ d) = if e.beq j k then delete k d else (j, w) ∷ delete k d
