-- ===== src/Market/Liquidation/Cancels.antt =====
-- The loop of matchengine/src/me_liquidation.c that cancels a user's orders one by one: it takes an
-- id out of the user's list in each round.
use viabtc_future.Prelude.{
  ℕ, ◌≡◌, ◌≢◌, refl, ap, sym, ◌∙◌, Bool, true, false, Bool-cases, Option-cases, inl, inr, ◌⊎◌, ◌==◌,
  ==_iff, none, some, List, [], ◌∷◌, All, arith,
}
use mathlib.Core.Path.{subst}
use viabtc_future.Dict
use viabtc_future.Dict.{nat_eq}
use viabtc_future.Dict.Laws.{find-assign}
use viabtc_future.Market.Defs.{Order, Market}
use viabtc_future.Market.Book.{mem, erase, unindex_user, order_id_compare}
use viabtc_future.Skiplist.{remove}
use viabtc_future.Market.Book.Undone.{finished}
use viabtc_future.Market.Liquidation.{Run, find_id, order_of, market_get_order_list, scan}
use viabtc_future.Market.Liquidation.Lists.{Newest, remove-erase, erase-Newest, find_id-remove}

find_id_is : (i : ℕ) (o : Order) (l : List Order) → find_id i l ≡ some o → o.id ≡ i
find_id_is i o [] h = ground arith
find_id_is i o (x ∷ l) h = ground (arith, find_id_is i o l, ==_iff x.id i)

pub order_of_is : (i : ℕ) (o : Order) (m : Market) → order_of i m ≡ some o → o.id ≡ i
unfolding order_of
order_of_is i o m h = ground (
  arith,
  find_id_is i o m.asks,
  find_id_is i o m.bids,
  find_id_is i o m.plan_asks,
  find_id_is i o m.plan_bids,
)

order_of-finished :
    (j : ℕ) (o : Order) (m : Market) → o.id ≢ j → order_of j (finished o m) ≡ order_of j m
unfolding order_of
order_of-finished j o m h = ground (
  arith,
  find_id-remove j o m.asks h,
  find_id-remove j o m.bids h,
  find_id-remove j o m.plan_asks h,
  find_id-remove j o m.plan_bids h,
)

finished-users :
    (o : Order) (m : Market) → (finished o m).users ≡ unindex_user o.user_id o.id m.users
finished-users o m = ground arith

abbrev user_list : ℕ → Dict.Dict ℕ (List ℕ) → List ℕ
user_list user users = elim (Dict.find user users) [ none ↦ [] | some l ↦ l ]

user_list-unindex_user :
    (user i : ℕ) (users : Dict.Dict ℕ (List ℕ))
    → Newest (user_list user users)
    → mem i (user_list user users) ≡ true
    → user_list user (unindex_user user i users) ≡ erase i (user_list user users)
user_list-unindex_user user i users s h =
    let l = user_list user users in
    ground (
      arith,
      find-assign user user (remove order_id_compare ◌==◌ i l) users,
      remove-erase i l s h,
      h,
      ==_iff user user,
    )

pub list-finished :
    (o : Order) (m : Market)
    → Newest (market_get_order_list o.user_id m)
    → mem o.id (market_get_order_list o.user_id m) ≡ true
    → market_get_order_list o.user_id (finished o m)
      ≡ erase o.id (market_get_order_list o.user_id m)
unfolding market_get_order_list
list-finished o m s h =
    ap (user_list o.user_id) (finished-users o m)
    ∙ user_list-unindex_user o.user_id o.id m.users s h

user_list_empty :
    (user i : ℕ) (users : Dict.Dict ℕ (List ℕ))
    → user_list user users ≡ []
    → user_list user (unindex_user user i users) ≡ []
user_list_empty user i users h = elim (Option-cases (Dict.find user users)) [
  | inl absent ↦ ground (arith, absent)
  | inr (l, there) ↦
      let none_left : l ≡ [] = ground (arith, h, there) in
      ground (
        arith,
        there,
        none_left,
        find-assign user user (remove order_id_compare ◌==◌ i l) users,
        ==_iff user user,
      )
]

pub list_empty-finished :
    (o : Order) (m : Market)
    → market_get_order_list o.user_id m ≡ []
    → market_get_order_list o.user_id (finished o m) ≡ []
unfolding market_get_order_list
list_empty-finished o m h =
    ap (user_list o.user_id) (finished-users o m) ∙ user_list_empty o.user_id o.id m.users h

-- The user's orders in this market: each id stands for an order of the user, the newest first.
abbrev pub Owned : ℕ → Market → ℕ → Type 0
Owned user m i = (o : Order) × (order_of i m ≡ some o) × (o.user_id ≡ user)

pub record Indexed (user : ℕ) (m : Market) : Type 0 where
  pub newest : Newest (market_get_order_list user m)
  pub owned : All (Owned user m) (market_get_order_list user m)

-- No order of the list is wanted.
abbrev pub Unwanted : (Order → Bool) → Market → List ℕ → Type 0
Unwanted wanted m = All (λ i. (o : Order) → order_of i m ≡ some o → wanted o ≡ false)

-- What a scan finds.
abbrev pub Scanned : (Order → Bool) → ℕ → Market → List ℕ → Type 0
Scanned wanted user m l =
    ((scan wanted l m ≡ Run.ended none) × Unwanted wanted m l)
    ⊎ ((o : Order) × (scan wanted l m ≡ Run.ended (some o))
        × (wanted o ≡ true)
        × (mem o.id l ≡ true)
        × (o.user_id ≡ user))

pub scan-Scanned :
    (wanted : Order → Bool) (user : ℕ) (m : Market) (l : List ℕ)
    → All (Owned user m) l
    → Scanned wanted user m l
unfolding scan
scan-Scanned wanted user m [] h = inl (refl, tt)
scan-Scanned wanted user m (i ∷ l) h =
    let (o, at, same) = h.0 in
    let is = order_of_is i o m at in
    elim (Bool-cases (wanted o)) [
      | inl want ↦ inr (o, rw (scan, at, want), want, ground (arith, is, ==_iff i o.id), same)
      | inr other ↦ elim (scan-Scanned wanted user m l h.1) [
        | inl (none_found, others) ↦
            inl (
              rw (scan, at, other) none_found,
              ((λ o' at'. ground (arith, at, at', other)), others),
            )
        | inr (o', found, want, there, same') ↦
            inr (o', rw (scan, at, other) found, want, ground (arith, there), same')
      ]
    ]

erase-Owned :
    (user : ℕ) (o : Order) (m : Market) (l : List ℕ)
    → All (Owned user m) l
    → All (Owned user (finished o m)) (erase o.id l)
erase-Owned user o m [] h = tt
erase-Owned user o m (x ∷ l) h =
    let (o', at, same) = h.0 in
    elim (Bool-cases (x == o.id)) [
      | inl gone ↦ rw gone (erase-Owned user o m l h.1)
      | inr stays ↦
          let apart : o.id ≢ x = λ e. ground (arith, ==_iff x o.id, e, stays) in
          rw stays ((o', order_of-finished x o m apart ∙ at, same), erase-Owned user o m l h.1)
    ]

-- A cancelled order leaves the user's other orders in place.
pub finished-Indexed :
    (o : Order) (m : Market)
    → Indexed o.user_id m
    → mem o.id (market_get_order_list o.user_id m) ≡ true
    → Indexed o.user_id (finished o m)
finished-Indexed o m h there =
    let l = market_get_order_list o.user_id m in
    let left = sym (list-finished o m h.newest there) in
    record {
      newest = subst Newest left (erase-Newest o.id l h.newest);
      owned =
          subst (All (Owned o.user_id (finished o m))) left (erase-Owned o.user_id o m l h.owned);
    }
