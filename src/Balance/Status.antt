-- ===== src/Balance/Status.antt =====
-- `balance_status` of matchengine/src/me_balance.c: the sums over the users' balances of one asset.
-- The iterator runs over the entries in the order in which the dictionary lists them.
use viabtc_future.Prelude.{ℕ, ◌+◌, ◌==◌, ◌&&◌, not, ◌≡◌, ap, ◌∙◌, [], ◌∷◌, arith, if◌then◌else◌}
use viabtc_future.Prelude.Int.{ℤ, pos, ◌+ℤ◌, int_laws}
use viabtc_future.Decimal.{Decimal}
use viabtc_future.Decimal
use viabtc_future.Dict.{Dict}
use viabtc_future.Dict.Laws.{sum}
use viabtc_future.Balance.{BalanceKey, Balances, key_eq, available_type}

pub record Status : Type 0 where
  pub total : ℤ
  pub available_count : ℕ
  pub available : ℤ
  pub freeze_count : ℕ
  pub freeze : ℤ

module _ (d : Decimal) where
  -- One round of the loop.
  unfoldable pub count_entry : ℕ → BalanceKey → ℤ → Status → Status
  count_entry asset key val s =
      let total = Decimal.add d s.total val in
      if not (key.asset == asset)
      then s
      else if key.type == available_type
      then record s {
        total = total;
        available_count = s.available_count + 1;
        available = Decimal.add d s.available val;
      }
      else record s {
        total = total;
        freeze_count = s.freeze_count + 1;
        freeze = Decimal.add d s.freeze val;
      }

  unfoldable pub count_entries : ℕ → Dict BalanceKey ℤ → Status → Status
  count_entries asset [] s = s
  count_entries asset ((key, val) ∷ entries) s =
      count_entries asset entries (count_entry asset key val s)

  unfoldable pub balance_status : ℕ → Balances → Status
  balance_status asset s = count_entries asset s.entries record {
    total = pos 0;
    available_count = 0;
    available = pos 0;
    freeze_count = 0;
    freeze = pos 0;
  }

-- What an entry counts: by its asset, and by its type.
abbrev pub of_asset : ℕ → BalanceKey → ℤ → ℤ
of_asset asset key val = if key.asset == asset then val else pos 0

abbrev pub of_available : ℕ → BalanceKey → ℤ → ℤ
of_available asset key val = if key.asset == asset && key.type == available_type then val else pos 0

abbrev pub of_freeze : ℕ → BalanceKey → ℤ → ℤ
of_freeze asset key val =
    if key.asset == asset && not (key.type == available_type) then val else pos 0

add_zero : (x : ℤ) → x ≡ x +ℤ pos 0
add_zero x = omega int_laws

-- One round adds what the entry counts.
count_entry_lem :
    (d : Decimal)
    → ((x : ℤ) → d.round x ≡ x)
    → (asset : ℕ) (key : BalanceKey) (val : ℤ) (s : Status)
    → let r = count_entry d asset key val s in
      (r.total ≡ s.total +ℤ of_asset asset key val)
      × (r.available ≡ s.available +ℤ of_available asset key val)
      × (r.freeze ≡ s.freeze +ℤ of_freeze asset key val)
unfolding count_entry
count_entry_lem d exact asset key val s = (
  ground (arith, exact (s.total +ℤ val), add_zero s.total),
  ground (arith, exact (s.available +ℤ val), add_zero s.available),
  ground (arith, exact (s.freeze +ℤ val), add_zero s.freeze),
)

assoc : (b v s : ℤ) → b +ℤ v +ℤ s ≡ b +ℤ (v +ℤ s)
assoc b v s = omega int_laws

zero_add : (x : ℤ) → pos 0 +ℤ x ≡ x
zero_add x = omega int_laws

add_assoc : (r a v s b : ℤ) → r ≡ a +ℤ s → a ≡ b +ℤ v → r ≡ b +ℤ (v +ℤ s)
add_assoc r a v s b h k = h ∙ ap (λ x. x +ℤ s) k ∙ assoc b v s

sum_parts :
    (asset : ℕ) (entries : Dict BalanceKey ℤ)
    → sum (of_asset asset) entries
      ≡ sum (of_available asset) entries +ℤ sum (of_freeze asset) entries
sum_parts asset [] = omega int_laws
sum_parts asset ((key, val) ∷ entries) = grind (int_laws, sum_parts asset entries)

count_entries_lem :
    (d : Decimal)
    → ((x : ℤ) → d.round x ≡ x)
    → (asset : ℕ) (entries : Dict BalanceKey ℤ) (s : Status)
    → let r = count_entries d asset entries s in
      (r.total ≡ s.total +ℤ sum (of_asset asset) entries)
      × (r.available ≡ s.available +ℤ sum (of_available asset) entries)
      × (r.freeze ≡ s.freeze +ℤ sum (of_freeze asset) entries)
unfolding count_entries count_entry
count_entries_lem d exact asset [] s = (omega int_laws, omega int_laws, omega int_laws)
count_entries_lem d exact asset ((key, val) ∷ entries) s =
    let rest = count_entries_lem d exact asset entries (count_entry d asset key val s) in
    let step = count_entry_lem d exact asset key val s in
    (
      add_assoc _ _ (of_asset asset key val) _ s.total rest.0 step.0,
      add_assoc _ _ (of_available asset key val) _ s.available rest.1 step.1,
      add_assoc _ _ (of_freeze asset key val) _ s.freeze rest.2 step.2,
    )

-- The total that balance_status counts is the sum of all balances of the asset, the available amount
-- and the frozen amount are the sums of those of their type, and the two make up the total. No sum
-- needs rounding.
balance_status-sum :
    (d : Decimal)
    → ((x : ℤ) → d.round x ≡ x)
    → (asset : ℕ) (s : Balances)
    → let r = balance_status d asset s in
      (r.total ≡ sum (of_asset asset) s.entries)
      × (r.available ≡ sum (of_available asset) s.entries)
      × (r.freeze ≡ sum (of_freeze asset) s.entries)
      × (r.total ≡ r.available +ℤ r.freeze)
unfolding balance_status
balance_status-sum d exact asset s =
    let zero_status : Status = record {
      total = pos 0;
      available_count = 0;
      available = pos 0;
      freeze_count = 0;
      freeze = pos 0;
    } in
    let (total, available, freeze) = count_entries_lem d exact asset s.entries zero_status in
    let all = total ∙ zero_add (sum (of_asset asset) s.entries) in
    let free = available ∙ zero_add (sum (of_available asset) s.entries) in
    let frozen = freeze ∙ zero_add (sum (of_freeze asset) s.entries) in
    (all, free, frozen, rw (all, free, frozen, sum_parts asset s.entries))
