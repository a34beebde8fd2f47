-- ===== src/Dict/Laws.antt =====
-- Lookup after each update, distinct keys, predicates on the values and sums of them.
use viabtc_future.Prelude.{
  ◌≡◌, refl, none, some, [], ◌∷◌, if◌then◌else◌, arith, inl, inr, Bool-cases,
}
use viabtc_future.Prelude.Int.{ℤ, pos, ◌+ℤ◌, int_laws}
use viabtc_future.Dict.{Eq, Dict, find, assign, delete}

module _ {K : Type 0} ⦃e : Eq K⦄ {V : Type 0} where
  pub find-assign :
      (j k : K) (v : V) (d : Dict K V)
      → find j (assign k v d)
        ≡ (if e.beq k j then elim (find j d) [ none ↦ none | some _ ↦ some v ] else find j d)
  find-assign j k v [] = ground arith
  find-assign j k v ((i, w) ∷ d) =
      ground (arith, e.beq_iff i k, e.beq_iff i j, e.beq_iff k j, find-assign j k v d)

  pub find-delete :
      (j k : K) (d : Dict K V) → find j (delete k d) ≡ (if e.beq k j then none else find j d)
  find-delete j k [] = ground arith
  find-delete j k ((i, w) ∷ d) =
      ground (arith, e.beq_iff i k, e.beq_iff i j, e.beq_iff k j, find-delete j k d)

  -- No key is listed twice.
  abbrev pub IsDistinct : Dict K V → Type 0
  IsDistinct [] = Unit
  IsDistinct ((k, v) ∷ d) = (find k d ≡ none) × IsDistinct d

  pub assign-IsDistinct : (k : K) (v : V) (d : Dict K V) → IsDistinct d → IsDistinct (assign k v d)
  assign-IsDistinct k v [] h = tt
  assign-IsDistinct k v ((i, w) ∷ d) h =
      ground (arith, assign-IsDistinct k v d h.1, find-assign i k v d)

  pub delete-IsDistinct : (k : K) (d : Dict K V) → IsDistinct d → IsDistinct (delete k d)
  delete-IsDistinct k [] h = tt
  delete-IsDistinct k ((i, w) ∷ d) h = ground (arith, delete-IsDistinct k d h.1, find-delete i k d)

  pub delete_absent : (k : K) (d : Dict K V) → find k d ≡ none → delete k d ≡ d
  delete_absent k [] h = refl
  delete_absent k ((i, w) ∷ d) h = ground (arith, delete_absent k d)

  -- Every value satisfies `P`.
  abbrev pub Values : (V → Type 0) → Dict K V → Type 0
  Values P [] = Unit
  Values P ((k, v) ∷ d) = P v × Values P d

  module _ (P : V → Type 0) where
    pub find-Values : (k : K) (v : V) (d : Dict K V) → Values P d → find k d ≡ some v → P v
    find-Values k v [] h f = ground arith
    find-Values k v ((i, w) ∷ d) h f = elim (Bool-cases (e.beq i k)) [
      | inl same ↦ ground arith
      | inr other ↦ find-Values k v d h.1 (ground arith)
    ]

    pub assign-Values : (k : K) (v : V) (d : Dict K V) → Values P d → P v → Values P (assign k v d)
    assign-Values k v [] h p = tt
    assign-Values k v ((i, w) ∷ d) h p = ground (arith, assign-Values k v d h.1 p)

    pub delete-Values : (k : K) (d : Dict K V) → Values P d → Values P (delete k d)
    delete-Values k [] h = tt
    delete-Values k ((i, w) ∷ d) h = ground (arith, delete-Values k d h.1)

  -- The sum of the values, each weighed by its key.
  module _ (weigh : K → V → ℤ) where
    abbrev pub sum : Dict K V → ℤ
    sum [] = pos 0
    sum ((k, v) ∷ d) = weigh k v +ℤ sum d

    pub sum-assign :
        (k : K) (v old : V) (d : Dict K V)
        → find k d ≡ some old
        → sum (assign k v d) +ℤ weigh k old ≡ sum d +ℤ weigh k v
    sum-assign k v old [] h = ground arith
    sum-assign k v old ((i, w) ∷ d) h = grind (int_laws, sum-assign k v old d, e.beq_iff i k)

    pub sum-delete :
        (k : K) (old : V) (d : Dict K V)
        → IsDistinct d
        → find k d ≡ some old
        → sum (delete k d) +ℤ weigh k old ≡ sum d
    sum-delete k old [] u h = ground arith
    sum-delete k old ((i, w) ∷ d) u h =
        grind (int_laws, sum-delete k old d u.1, e.beq_iff i k, delete_absent k d)
