-- ===== src/Balance/Moves.antt =====
-- Freezing and unfreezing in matchengine/src/me_balance.c: when they are accepted, what they move,
-- and how they go together.
use viabtc_future.Prelude.{
  ℕ, ◌≡◌, ◌≢◌, ap, sym, ◌∙◌, Bool, false, ◌&&◌, none, some, arith, is_some, if◌then◌else◌,
  Option-cases, ◌⊎◌, inl, inr,
}
use viabtc_future.Prelude.{Option, true}
use mathlib.Core.Path.{subst}
use viabtc_future.Prelude.Int.{
  ℤ, pos, ◌+ℤ◌, ◌-ℤ◌, ◌≤ℤ◌, ◌<ℤ◌, leb_ℤ, +ℤ_parts, eq_of_parts, int_laws, sub_add_cancel,
  add_sub_cancel,
}
use viabtc_future.Decimal.{Decimal, IsExact}
use viabtc_future.Dict.{nat_eq, find}
use viabtc_future.Dict.Laws.{find-assign, find-delete}
use viabtc_future.Balance.{
  BalanceKey, key_eq, key_beq, key_beq_iff, Balances, AssetType, key, get_asset_type, asset_exist,
  balance_get, exponent, balance_set, balance_add, balance_freeze, balance_unfreeze, take_out,
  transfer, available_type, freeze_type,
}

-- A balance that is not there is zero.
abbrev pub held : BalanceKey → Balances → ℤ
held k s = elim (find k s.entries) [ none ↦ pos 0 | some x ↦ x ]

-- There is a balance, and it is `amount` at least.
abbrev pub covers : ℕ → ℕ → ℕ → ℤ → Balances → Bool
covers user type asset amount s = elim (balance_get user type asset s) [
  | none ↦ false
  | some x ↦ leb_ℤ amount x
]

module _ (d : Decimal) (user asset : ℕ) (amount : ℤ) (s : Balances) where
  -- `balance_add` refuses an unknown asset and a negative amount, and nothing else.
  pub balance_add_accepts :
      (type : ℕ)
      → is_some (balance_add d user type asset amount s).0
        ≡ (asset_exist asset s && leb_ℤ (pos 0) amount)
  unfolding balance_add balance_set asset_exist
  balance_add_accepts type = ground arith

  transfer_accepts :
      (from to : ℕ)
      → is_some (transfer d from to user asset amount s).0
        ≡ (asset_exist asset s && leb_ℤ (pos 0) amount && covers user from asset amount s)
  unfolding asset_exist
  transfer_accepts from to = ground (arith, balance_add_accepts to)

  transfer_refused :
      (from to : ℕ)
      → (transfer d from to user asset amount s).0 ≡ none
      → (transfer d from to user asset amount s).1 ≡ s
  unfolding asset_exist
  transfer_refused from to = ground (arith, balance_add_accepts to)

pub balance_freeze_refused :
    (d : Decimal) (user asset : ℕ) (amount : ℤ) (s : Balances)
    → (balance_freeze d user asset amount s).0 ≡ none
    → (balance_freeze d user asset amount s).1 ≡ s
unfolding balance_freeze
balance_freeze_refused d user asset amount s =
    transfer_refused d user asset amount s available_type freeze_type

-- It succeeded, or it changed nothing.
abbrev pub Refuses : Balances → Option ℤ × Balances → Type 0
Refuses s r = (is_some r.0 ≡ true) ⊎ ((r.0 ≡ none) × (r.1 ≡ s))

Refuses-of : (s : Balances) (r : Option ℤ × Balances) → (r.0 ≡ none → r.1 ≡ s) → Refuses s r
Refuses-of s r h = elim (Option-cases r.0) [
  | inl failed ↦ inr (failed, h failed)
  | inr (x, ok) ↦ inl (ground arith)
]

-- Freezing and unfreezing succeed exactly when the asset is known, the amount is not negative and
-- the balance that it is taken from is there and covers it; a refusal changes nothing.
pub freeze_accepts :
    (d : Decimal) (user asset : ℕ) (amount : ℤ) (s : Balances)
    → (is_some (balance_freeze d user asset amount s).0 ≡ (
        asset_exist asset s && leb_ℤ (pos 0) amount && covers user available_type asset amount s))
      × (is_some (balance_unfreeze d user asset amount s).0
          ≡ (asset_exist asset s && leb_ℤ (pos 0) amount && covers user freeze_type asset amount s))
      × Refuses s (balance_freeze d user asset amount s)
      × Refuses s (balance_unfreeze d user asset amount s)
unfolding balance_freeze balance_unfreeze
freeze_accepts d user asset amount s = (
  transfer_accepts d user asset amount s available_type freeze_type,
  transfer_accepts d user asset amount s freeze_type available_type,
  Refuses-of s (transfer d available_type freeze_type user asset amount s)
      (transfer_refused d user asset amount s available_type freeze_type),
  Refuses-of s (transfer d freeze_type available_type user asset amount s)
      (transfer_refused d user asset amount s freeze_type available_type),
)

module _ (d : Decimal) (user asset : ℕ) (at : AssetType) (amount : ℤ) (s : Balances)
    (known : get_asset_type asset s ≡ some at) (sign : pos 0 ≤ℤ amount) where
  -- A credit that needs no rounding adds the amount to one balance, and touches no other.
  pub balance_add_moves :
      (type : ℕ) (k : BalanceKey)
      → IsExact d (exponent at) (held (key user type asset) s +ℤ amount)
      → held k (balance_add d user type asset amount s).1
        ≡ (if key_beq (key user type asset) k then held k s +ℤ amount else held k s)
  unfolding balance_add balance_set
  balance_add_moves type k ex = elim (Option-cases (balance_get user type asset s)) [
    | inl absent ↦ ground (
      arith,
      key_beq_iff (key user type asset) k,
      ex,
      find-delete k (key user type asset) s.entries,
      +ℤ_parts (pos 0) amount,
      eq_of_parts (pos 0 +ℤ amount) amount,
    )
    | inr (old, present) ↦ ground (
      arith,
      key_beq_iff (key user type asset) k,
      ex,
      find-assign k (key user type asset) (d.rescale (exponent at) (d.round (old +ℤ amount)))
          s.entries,
    )
  ]

  balance_add_others :
      (type other : ℕ)
      → type ≢ other
      → balance_get user other asset (balance_add d user type asset amount s).1
        ≡ balance_get user other asset s
  unfolding balance_add balance_set
  balance_add_others type other ne =
      let here : BalanceKey = key user type asset in
      grind
        (arith, find-delete (key user other asset) here, find-assign (key user other asset) here)

module _ (d : Decimal) (user asset : ℕ) (at : AssetType) (amount : ℤ) (s : Balances) where
  take_out_moves :
      (type : ℕ) (old : ℤ) (k : BalanceKey)
      → balance_get user type asset s ≡ some old
      → IsExact d (exponent at) (old -ℤ amount)
      → held k (take_out d user type asset at old amount s).1
        ≡ (if key_beq (key user type asset) k then held k s -ℤ amount else held k s)
  take_out_moves type old k present ex = ground (
    arith,
    key_beq_iff (key user type asset) k,
    ex,
    eq_of_parts (old -ℤ amount) (pos 0),
    find-delete k (key user type asset) s.entries,
    find-assign k (key user type asset) (d.rescale (exponent at) (d.round (old -ℤ amount)))
        s.entries,
  )

-- A transfer that is covered and needs no rounding, as lookups of every balance.
abbrev pub Moved : BalanceKey → BalanceKey → ℤ → Balances → Balances → Type 0
Moved source target amount s s' =
    (k : BalanceKey)
    → held k s' ≡ (
        if key_beq source k
        then held k s -ℤ amount
        else if key_beq target k
        then held k s +ℤ amount
        else held k s)

module _ (d : Decimal) (user asset : ℕ) (at : AssetType) (amount : ℤ) (s : Balances)
    (known : get_asset_type asset s ≡ some at) (sign : pos 0 ≤ℤ amount) where
  transfer_moves :
      (from to : ℕ) (old : ℤ)
      → to ≢ from
      → balance_get user from asset s ≡ some old
      → amount ≤ℤ old
      → IsExact d (exponent at) (held (key user to asset) s +ℤ amount)
      → IsExact d (exponent at) (old -ℤ amount)
      → Moved
          (key user from asset)
          (key user to asset)
          amount
          s
          (transfer d from to user asset amount s).1
  unfolding asset_exist
  transfer_moves from to old ne present cover grown shrunk k =
      let s' = (balance_add d user to asset amount s).1 in
      ground (
        arith,
        balance_add_accepts d user asset amount s to,
        balance_add_moves d user asset at amount s known sign to k grown,
        balance_add_others d user asset at amount s known sign to from ne,
        take_out_moves d user asset at amount s' from old k,
        shrunk,
        key_beq_iff (key user from asset) k,
        key_beq_iff (key user to asset) k,
      )

  -- A freeze that the available balance covers moves exactly the amount from the available to the
  -- frozen balance of that user and asset; every other balance of every user keeps its value. The
  -- asset is known, the amount is not negative, and the two new balances need no rounding.
  freeze_moves :
      (available : ℤ)
      → balance_get user available_type asset s ≡ some available
      → amount ≤ℤ available
      → IsExact d (exponent at) (held (key user freeze_type asset) s +ℤ amount)
      → IsExact d (exponent at) (available -ℤ amount)
      → Moved
          (key user available_type asset)
          (key user freeze_type asset)
          amount
          s
          (balance_freeze d user asset amount s).1
  unfolding balance_freeze
  freeze_moves available present =
      transfer_moves available_type freeze_type available (omega arith) present

  unfreeze_moves :
      (frozen : ℤ)
      → balance_get user freeze_type asset s ≡ some frozen
      → amount ≤ℤ frozen
      → IsExact d (exponent at) (held (key user available_type asset) s +ℤ amount)
      → IsExact d (exponent at) (frozen -ℤ amount)
      → Moved
          (key user freeze_type asset)
          (key user available_type asset)
          amount
          s
          (balance_unfreeze d user asset amount s).1
  unfolding balance_unfreeze
  unfreeze_moves frozen present =
      transfer_moves freeze_type available_type frozen (omega arith) present

-- A balance that is not zero is there.
find_of_held :
    (k : BalanceKey) (x : ℤ) (s : Balances) → held k s ≡ x → pos 0 <ℤ x → find k s.entries ≡ some x
find_of_held k x s h p = ground arith

balance_freeze-assets :
    (d : Decimal) (user asset : ℕ) (amount : ℤ) (s : Balances)
    → (balance_freeze d user asset amount s).1.assets ≡ s.assets
unfolding balance_freeze balance_add balance_set
balance_freeze-assets d user asset amount s = ground arith

module _ (source target : BalanceKey) (amount : ℤ) (s s' : Balances)
    (moved : Moved source target amount s s') (ne : key_beq source target ≡ false) where
  Moved-source : held source s' ≡ held source s -ℤ amount
  Moved-source = ground (arith, moved source, key_beq_iff source source)

  Moved-target : held target s' ≡ held target s +ℤ amount
  Moved-target = ground (arith, moved target, key_beq_iff target target)

  -- A second transfer the other way undoes the first.
  Moved-back :
      (s'' : Balances)
      → Moved target source amount s' s''
      → (k : BalanceKey) → held k s'' ≡ held k s
  Moved-back s'' back k = ground (
    arith,
    moved k,
    back k,
    key_beq_iff source k,
    key_beq_iff target k,
    sub_add_cancel (held source s) amount,
    add_sub_cancel (held target s) amount,
  )

-- Unfreezing what was just frozen gives back every balance. The asset is known, the amount is
-- positive and covered, the frozen balance is not negative, and the balances before and after the
-- freeze need no rounding.
pub unfreeze-freeze :
    (d : Decimal) (user asset : ℕ) (at : AssetType) (amount available : ℤ) (s : Balances)
    → get_asset_type asset s ≡ some at
    → pos 0 <ℤ amount
    → balance_get user available_type asset s ≡ some available
    → amount ≤ℤ available
    → pos 0 ≤ℤ held (key user freeze_type asset) s
    → IsExact d (exponent at) (held (key user freeze_type asset) s +ℤ amount)
    → IsExact d (exponent at) (available -ℤ amount)
    → IsExact d (exponent at) (held (key user freeze_type asset) s)
    → IsExact d (exponent at) available
    → (k : BalanceKey)
    → held k (balance_unfreeze d user asset amount (balance_freeze d user asset amount s).1).1
      ≡ held k s
unfreeze-freeze d user asset at amount available s known p present cover fr_nonneg x1 x2 x3 x4 =
    let s' = (balance_freeze d user asset amount s).1 in
    let a : BalanceKey = key user available_type asset in
    let f : BalanceKey = key user freeze_type asset in
    let frozen = held f s +ℤ amount in
    let apart : key_beq a f ≡ false = ground arith in
    let moved =
      freeze_moves d user asset at amount s known (omega arith) available present cover x1 x2 in
    let at_a : held a s' ≡ available -ℤ amount =
      ground (arith, Moved-source a f amount s s' moved apart) in
    let at_f : held f s' ≡ frozen = Moved-target a f amount s s' moved apart in
    let grown : held a s' +ℤ amount ≡ available =
      ap (λ x. x +ℤ amount) at_a ∙ sub_add_cancel available amount in
    let back =
      unfreeze_moves d user asset at amount s'
        (ap (find asset) (balance_freeze-assets d user asset amount s) ∙ known) (omega arith) frozen
        (find_of_held f frozen s' at_f (omega int_laws)) (omega int_laws)
        (subst (IsExact d (exponent at)) (sym grown) x4)
        (subst (IsExact d (exponent at)) (sym (add_sub_cancel (held f s) amount)) x3) in
    Moved-back a f amount s s' moved apart (balance_unfreeze d user asset amount s').1 back
