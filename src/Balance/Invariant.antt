-- ===== src/Balance/Invariant.antt =====
-- The well-formed balances of matchengine/src/me_balance.c, under the operations.
use viabtc_future.Prelude.{ℕ, ◌≡◌, inl, inr, some, arith, Option-cases}
use viabtc_future.Prelude.Int.{ℤ, pos, ◌≤ℤ◌, int_laws}
use viabtc_future.Decimal.{Decimal, RoundsDown}
use viabtc_future.Dict.{nat_eq}
use viabtc_future.Dict.Laws.{
  IsDistinct, Values, assign-IsDistinct, delete-IsDistinct, find-Values, assign-Values,
  delete-Values,
}
use viabtc_future.Balance.{
  BalanceKey, key_eq, Balances, AssetType, key, get_asset_type, balance_get, balance_del, store,
  balance_set, balance_add, balance_sub, balance_freeze, balance_unfreeze, take_out, transfer,
  available_type, freeze_type,
}

abbrev pub NonNegative : ℤ → Type 0
NonNegative x = pos 0 ≤ℤ x

pub record IsValid (s : Balances) : Type 0 where
  pub distinct : IsDistinct s.entries
  pub nonneg : Values NonNegative s.entries

module _ (user type asset : ℕ) where
  abbrev here : BalanceKey
  here = key user type asset

  store-IsValid :
      (x : ℤ) (s : Balances) → IsValid s → NonNegative x → IsValid (store user type asset x s)
  store-IsValid x s v p = record {
    distinct = assign-IsDistinct here x s.entries v.distinct;
    nonneg = assign-Values NonNegative here x s.entries v.nonneg p;
  }

  balance_del-IsValid : (s : Balances) → IsValid s → IsValid (balance_del user type asset s)
  balance_del-IsValid s v = record {
    distinct = delete-IsDistinct here s.entries v.distinct;
    nonneg = delete-Values NonNegative here s.entries v.nonneg;
  }

  pub balance_get_nonneg :
      (x : ℤ) (s : Balances) → IsValid s → balance_get user type asset s ≡ some x → NonNegative x
  balance_get_nonneg x s v e = find-Values NonNegative here x s.entries v.nonneg e

module _ (d : Decimal) (down : RoundsDown d) (user type asset : ℕ) where
  open down use {round_nonneg, rescale_nonneg}

  pub balance_set-IsValid :
      (amount : ℤ) (s : Balances) → IsValid s → IsValid (balance_set d user type asset amount s).1
  unfolding balance_set
  balance_set-IsValid amount s v =
      grind (
        arith,
        balance_del-IsValid user type asset s,
        store-IsValid user type asset,
        rescale_nonneg,
      )

  pub balance_add-IsValid :
      (amount : ℤ) (s : Balances) → IsValid s → IsValid (balance_add d user type asset amount s).1
  unfolding balance_add
  balance_add-IsValid amount s v = grind (
    int_laws,
    balance_set-IsValid amount s,
    balance_get_nonneg user type asset,
    store-IsValid user type asset,
    rescale_nonneg,
    round_nonneg,
  )

  take_out-IsValid :
      (at : AssetType) (old amount : ℤ) (s : Balances)
      → IsValid s
      → amount ≤ℤ old
      → IsValid (take_out d user type asset at old amount s).1
  take_out-IsValid at old amount s v le = grind (
    int_laws,
    balance_del-IsValid user type asset s,
    round_nonneg,
    rescale_nonneg,
    store-IsValid user type asset,
  )

  pub balance_sub-IsValid :
      (amount : ℤ) (s : Balances) → IsValid s → IsValid (balance_sub d user type asset amount s).1
  unfolding balance_sub
  balance_sub-IsValid amount s v = elim (Option-cases (get_asset_type asset s)) [
    | inl unknown ↦ ground arith
    | inr (at, known) ↦ elim (Option-cases (balance_get user type asset s)) [
      | inl absent ↦ ground arith
      | inr (old, present) ↦ ground (arith, take_out-IsValid at old amount s v)
    ]
  ]

module _ (d : Decimal) (down : RoundsDown d) (from to user asset : ℕ) where
  transfer-IsValid :
      (amount : ℤ) (s : Balances) → IsValid s → IsValid (transfer d from to user asset amount s).1
  transfer-IsValid amount s v = grind (
    arith,
    balance_add-IsValid d down user to asset amount s,
    take_out-IsValid d down user from asset,
  )

-- No operation that changes a balance, called with any amount and ending in any way, breaks the
-- invariant: one entry for each key, and none below zero. Rounding goes toward zero.
pub balance_ops-IsValid :
    (d : Decimal) (down : RoundsDown d) (user type asset : ℕ) (amount : ℤ) (s : Balances)
    → IsValid s
    → IsValid (balance_set d user type asset amount s).1
      × IsValid (balance_add d user type asset amount s).1
      × IsValid (balance_sub d user type asset amount s).1
      × IsValid (balance_freeze d user asset amount s).1
      × IsValid (balance_unfreeze d user asset amount s).1
unfolding balance_freeze balance_unfreeze
balance_ops-IsValid d down user type asset amount s v = (
  balance_set-IsValid d down user type asset amount s v,
  balance_add-IsValid d down user type asset amount s v,
  balance_sub-IsValid d down user type asset amount s v,
  transfer-IsValid d down available_type freeze_type user asset amount s v,
  transfer-IsValid d down freeze_type available_type user asset amount s v,
)
