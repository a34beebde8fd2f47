-- ===== src/Balance.antt =====
-- matchengine/src/me_balance.c: the assets, and the available and frozen balance of each user in
-- each asset. User ids, balance types and asset names are only compared, so they are numbers.
-- A function that returns an `mpd_t *` returns `none` for NULL, and the new state.
pub mod Invariant
pub mod Moves
pub mod Status
use viabtc_future.Prelude.{
  ℕ, ◌+◌, ◌≡◌, ◌↔◌, refl, Bool, true, ◌&&◌, Option, none, some, [], ◌∷◌, if◌then◌else◌, ◌==◌,
  is_some, arith,
}
use viabtc_future.Prelude.Int.{ℤ, pos, negsuc, ◌-ℤ◌, ltb_ℤ, eqb_ℤ}
use viabtc_future.Decimal.{Decimal}
use viabtc_future.Decimal
use viabtc_future.Dict.{Eq, nat_eq, Dict, find, assign, delete}

abbrev pub available_type : ℕ
available_type = 1

abbrev pub freeze_type : ℕ
freeze_type = 2

pub record AssetType : Type 0 where
  pub prec_save : ℤ
  pub prec_show : ℤ

pub record BalanceKey : Type 0 where
  pub user_id : ℕ
  pub type : ℕ
  pub asset : ℕ

abbrev pub key : ℕ → ℕ → ℕ → BalanceKey
key u t a = record { user_id = u; type = t; asset = a }

abbrev pub key_beq : BalanceKey → BalanceKey → Bool
key_beq j k = j.user_id == k.user_id && j.type == k.type && j.asset == k.asset

pub key_beq_iff : (j k : BalanceKey) → (key_beq j k ≡ true) ↔ (j ≡ k)
key_beq_iff j k = ground arith

instance abbrev pub key_eq : Eq BalanceKey
key_eq = record { beq = key_beq; beq_iff = key_beq_iff }

-- `dict_asset` and `dict_balance`.
pub record Balances : Type 0 where
  pub assets : Dict ℕ AssetType
  pub entries : Dict BalanceKey ℤ

-- `-at->prec_save`, the exponent that a stored balance is rescaled to.
abbrev pub exponent : AssetType → ℤ
exponent at = pos 0 -ℤ at.prec_save

-- `get_asset_type`.
abbrev pub get_asset_type : ℕ → Balances → Option AssetType
get_asset_type asset s = find asset s.assets

unfoldable pub add_balance : ℕ → ℤ → ℤ → Balances → Balances
add_balance name prec_save prec_show s =
    let at : AssetType = record { prec_save = prec_save; prec_show = prec_show } in
    elim (get_asset_type name s) [
      | some _ ↦ record s { assets = assign name at s.assets }
      | none ↦ record s { assets = (name, at) ∷ s.assets }
    ]

delete_asset_entries : ℕ → Dict BalanceKey ℤ → Dict BalanceKey ℤ
delete_asset_entries name [] = []
delete_asset_entries name ((k, v) ∷ d) =
    if name == k.asset then delete_asset_entries name d else (k, v) ∷ delete_asset_entries name d

unfoldable pub del_balance : ℕ → Balances → Balances
unfolding delete_asset_entries
del_balance name s = record {
  assets = delete name s.assets;
  entries = delete_asset_entries name s.entries;
}

unfoldable pub asset_exist : ℕ → Balances → Bool
asset_exist asset s = is_some (get_asset_type asset s)

unfoldable pub asset_prec : ℕ → Balances → ℤ
asset_prec asset s = elim (get_asset_type asset s) [ some at ↦ at.prec_save | none ↦ negsuc 0 ]

unfoldable pub asset_prec_show : ℕ → Balances → ℤ
asset_prec_show asset s = elim (get_asset_type asset s) [ some at ↦ at.prec_show | none ↦ negsuc 0 ]

abbrev pub balance_get : ℕ → ℕ → ℕ → Balances → Option ℤ
balance_get user type asset s = find (key user type asset) s.entries

abbrev pub balance_del : ℕ → ℕ → ℕ → Balances → Balances
balance_del user type asset s = record s { entries = delete (key user type asset) s.entries }

-- A write through the pointer that `balance_get` or `dict_find` returned.
abbrev pub store : ℕ → ℕ → ℕ → ℤ → Balances → Balances
store user type asset x s = record s { entries = assign (key user type asset) x s.entries }

module _ (d : Decimal) where
  unfoldable pub balance_set : ℕ → ℕ → ℕ → ℤ → Balances → Option ℤ × Balances
  balance_set user type asset amount s = elim (get_asset_type asset s) [
    | none ↦ (none, s)
    | some at ↦
        if ltb_ℤ amount (pos 0)
        then (none, s)
        else if eqb_ℤ amount (pos 0)
        then (some (pos 0), balance_del user type asset s)
        else let result = d.rescale (exponent at) amount in
          elim (balance_get user type asset s) [
            | some _ ↦ (some result, store user type asset result s)
            | none ↦ (some result, record s { entries = (key user type asset, result) ∷ s.entries })
          ]
  ]

  unfoldable pub balance_add : ℕ → ℕ → ℕ → ℤ → Balances → Option ℤ × Balances
  unfolding balance_set
  balance_add user type asset amount s = elim (get_asset_type asset s) [
    | none ↦ (none, s)
    | some at ↦ if ltb_ℤ amount (pos 0) then (none, s) else elim (balance_get user type asset s) [
      | some old ↦
          let result = d.rescale (exponent at) (Decimal.add d old amount) in
          (some result, store user type asset result s)
      | none ↦ balance_set user type asset amount s
    ]
  ]

  -- The subtraction at the end of `balance_sub`, `balance_freeze` and `balance_unfreeze`: a balance
  -- that falls to zero is deleted, any other is rescaled.
  abbrev pub take_out : ℕ → ℕ → ℕ → AssetType → ℤ → ℤ → Balances → Option ℤ × Balances
  take_out user type asset at old amount s =
      let rest = Decimal.sub d old amount in
      if eqb_ℤ rest (pos 0)
      then (some (pos 0), balance_del user type asset s)
      else let result = d.rescale (exponent at) rest in
        (some result, store user type asset result s)

  unfoldable pub balance_sub : ℕ → ℕ → ℕ → ℤ → Balances → Option ℤ × Balances
  balance_sub user type asset amount s = elim (get_asset_type asset s) [
    | none ↦ (none, s)
    | some at ↦ if ltb_ℤ amount (pos 0) then (none, s) else elim (balance_get user type asset s) [
      | none ↦ (none, s)
      | some old ↦ if ltb_ℤ old amount then (none, s) else take_out user type asset at old amount s
    ]
  ]

  -- The common body of `balance_freeze` and `balance_unfreeze`: `amount` goes from the balance of
  -- type `from` to that of type `to`. The entry of `from` is read before `to` is credited and is
  -- another entry, so the pointer to it stays good.
  abbrev pub transfer : ℕ → ℕ → ℕ → ℕ → ℤ → Balances → Option ℤ × Balances
  transfer from to user asset amount s = elim (get_asset_type asset s) [
    | none ↦ (none, s)
    | some at ↦ if ltb_ℤ amount (pos 0) then (none, s) else elim (balance_get user from asset s) [
      | none ↦ (none, s)
      | some old ↦
          if ltb_ℤ old amount
          then (none, s)
          else let (credited, s') = balance_add user to asset amount s in
            elim credited [ none ↦ (none, s') | some _ ↦ take_out user from asset at old amount s' ]
    ]
  ]

  unfoldable pub balance_freeze : ℕ → ℕ → ℤ → Balances → Option ℤ × Balances
  unfolding balance_add
  balance_freeze = transfer available_type freeze_type

  unfoldable pub balance_unfreeze : ℕ → ℕ → ℤ → Balances → Option ℤ × Balances
  unfolding balance_add
  balance_unfreeze = transfer freeze_type available_type

  unfoldable pub balance_total : ℕ → ℕ → Balances → ℤ
  balance_total user asset s =
      let start : ℤ = pos 0 in
      let with_available : ℤ = elim (balance_get user available_type asset s) [
        | none ↦ start
        | some x ↦ Decimal.add d start x
      ] in
      elim (balance_get user freeze_type asset s) [
        | none ↦ with_available
        | some x ↦ Decimal.add d with_available x
      ]
