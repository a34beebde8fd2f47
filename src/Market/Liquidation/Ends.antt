-- ===== src/Market/Liquidation/Ends.antt =====
-- The loop of matchengine/src/me_liquidation.c that cancels a user's orders ends.
use viabtc_future.Prelude.{
  ℕ, zero, suc, ◌<◌, ◌≡◌, ap, sym, ◌∙◌, Bool, true, Bool-cases, inl, inr, ==_iff, arith, length,
}
use mathlib.Core.Path.{subst}
use viabtc_future.Prelude.Int.{ℤ, pos, leb_ℤ}
use viabtc_future.Decimal.{Decimal}
use viabtc_future.Dict.{nat_eq}
use viabtc_future.Market.Defs.{Order, Market, Engine, Position}
use viabtc_future.Market.Book.{mem, erase}
use viabtc_future.Market.Book.Undone.{finished, finish-finished}
use viabtc_future.Market.Match.{market_cancel_order, release_position}
use viabtc_future.Market.Liquidation.{
  Run, market_get_order_list, cancel_orders, closes, isolated_liquidation, isolated_condition,
  blast_now,
}
use viabtc_future.Market.Liquidation.Lists.{length-erase}
use viabtc_future.Market.Defs.{OrderEvent, order_message}
use viabtc_future.Market.Book.{emit, order_finish_future}
use viabtc_future.Market.Match.Rounds.{emit-market}
use viabtc_future.Market.Liquidation.Cancels.{
  list-finished, Indexed, Unwanted, finished-Indexed, scan-Scanned,
}

-- What a cancelled order leaves of the user's list.
abbrev Fewer : ℕ → Order → Market → Market → Type 0
Fewer user o m m' =
    Indexed user m' × (market_get_order_list user m' ≡ erase o.id (market_get_order_list user m))

-- One round of the loop.
cancelled-Fewer :
    (user : ℕ) (o : Order) (m m' : Market)
    → o.user_id ≡ user
    → m' ≡ finished o m
    → Indexed user m
    → mem o.id (market_get_order_list user m) ≡ true
    → Fewer user o m m'
cancelled-Fewer user o m m' same gone =
    subst (λ u. Indexed u m → mem o.id (market_get_order_list u m) ≡ true → Fewer u o m m') same
      (subst
        (λ x.
          Indexed o.user_id m
          → mem o.id (market_get_order_list o.user_id m) ≡ true
          → Fewer o.user_id o m x)
        (sym gone) (λ h there. (finished-Indexed o m h there, list-finished o m h.newest there)))

module _ (d : Decimal) where
  pub release_position-market :
      (o : Order) (e : Engine) → (release_position d o e).market ≡ e.market
  release_position-market o e = ground arith

  -- Cancelling an order that closes a position always takes it out.
  cancel-finished :
      (real : Bool) (o : Order) (e : Engine)
      → o.oper_type ≡ 2
      → (market_cancel_order d real o e).1.market ≡ finished o e.market
  unfolding market_cancel_order
  cancel-finished real o e h =
      let e₁ = emit real (order_message OrderEvent.finish o) e in
      let market = emit-market real (order_message OrderEvent.finish o) e in
      let finish : (e₂ : Engine)
          → e₂.market ≡ e.market
          → (order_finish_future real o e₂).market ≡ finished o e.market =
        λ e₂ same. finish-finished real o e₂ ∙ ap (finished o) same in
      ground (
        arith,
        h,
        finish (release_position d o e₁) (release_position-market o e₁ ∙ market),
        finish e₁ market,
      )

  -- The loop has ended, and left no order that it wants.
  abbrev pub Ends : (Order → Bool) → ℕ → Run Engine → Type 0
  Ends wanted user r =
      (e' : Engine) × (r ≡ Run.ended e')
      × Indexed user e'.market
      × Unwanted wanted e'.market (market_get_order_list user e'.market)

  -- A user's orders stand in the index of the market, the newest first, and each belongs to the user.
  -- With more fuel than orders, the loop that cancels those it wants, all of which close a position,
  -- ends, leaves the index so, and leaves no order that it wants.
  pub cancel_orders-Ends :
      (fuel : ℕ) (wanted : Order → Bool) (user : ℕ) (real : Bool) (e : Engine)
      → ((o : Order) → wanted o ≡ true → o.oper_type ≡ 2)
      → Indexed user e.market
      → length (market_get_order_list user e.market) < fuel
      → Ends wanted user (cancel_orders d fuel wanted user real e)
  unfolding cancel_orders
  cancel_orders-Ends zero wanted user real e closing h enough = absurd (omega arith)
  cancel_orders-Ends (suc fuel) wanted user real e closing h enough =
      let l = market_get_order_list user e.market in
      elim (scan-Scanned wanted user e.market l h.owned) [
        | inl (found, others) ↦ (e, rw (cancel_orders, found), h, others)
        | inr (o, found, want, there, same) ↦
            let e' = (market_cancel_order d real o e).1 in
            let gone = cancel-finished real o e (closing o want) in
            let (indexed, list) = cancelled-Fewer user o e.market e'.market same gone h there in
            let fewer : length (market_get_order_list user e'.market) < fuel =
              omega (arith, ap length list, length-erase o.id l there) in
            let (e'', ended, still, rest) =
              cancel_orders-Ends fuel wanted user real e' closing indexed fewer in
            (e'', rw (cancel_orders, found) ended, still, rest)
      ]

  -- The isolated liquidation of a position whose user's orders stand in the index of the market ends,
  -- with more fuel than the user has orders.
  pub isolated_liquidation_ends :
      (fee_rate maintenance_rate : ℤ) (fuel : ℕ) (real : Bool) (p : Position) (e : Engine)
      → Indexed p.user_id e.market
      → length (market_get_order_list p.user_id e.market) < fuel
      → (r : ℕ × Engine) × (isolated_liquidation d fee_rate maintenance_rate fuel real p e
          ≡ Run.ended r)
  unfolding isolated_liquidation
  isolated_liquidation_ends fee_rate maintenance_rate fuel real p e h enough =
      let closing : (o : Order) → closes d p.side o ≡ true → o.oper_type ≡ 2 =
        λ o w. ground (arith, w, ==_iff o.oper_type 2) in
      let (e', ended, _, _) =
        cancel_orders-Ends fuel (closes d p.side) p.user_id real e closing h enough in
      let latest = e.market.latest_price in
      let condition = isolated_condition d fee_rate maintenance_rate p latest in
      elim (Bool-cases (leb_ℤ latest (pos 0))) [
        | inl early ↦ ((0, e), rw (isolated_liquidation, early))
        | inr priced ↦ elim (Bool-cases (leb_ℤ condition (pos 0))) [
          | inl blown ↦
              (blast_now d fee_rate real p e', rw (isolated_liquidation, priced, blown, ended))
          | inr safe ↦ ((0, e), rw (isolated_liquidation, priced, safe))
        ]
      ]
