-- ===== src/Market/Liquidation/Forced.antt =====
-- `cross_liquidation` and `force_liquidation` of matchengine/src/me_liquidation.c. What needs the book
-- of a market that is not the engine's is `elsewhere`.
pub mod Unfilled
use viabtc_future.Prelude.{
  ℕ, zero, suc, Bool, true, not, List, [], ◌∷◌, none, some, if◌then◌else◌, ◌==◌,
}
use viabtc_future.Prelude.Int.{ℤ, pos, leb_ℤ}
use viabtc_future.Decimal.{Decimal}
use viabtc_future.Balance.{available_type, freeze_type, balance_set}
use viabtc_future.Market.Defs.{Position, Engine, bear, bull}
use viabtc_future.Market.Pnl.{get_position}
use viabtc_future.Market.Liquidation.{
  Run, blast, cancel_orders, cross_condition, isolated_liquidation,
}

-- What a call leaves, or why it leaves nothing: it goes on, it follows a pointer to what was freed, or
-- it needs another market's book.
pub data Outcome (A : Type 0) : Type 0 where
  left : A → Outcome A
  going : Outcome A
  freed : Outcome A
  elsewhere : Outcome A

abbrev pub of_run : {A : Type 0} → Run A → Outcome A
of_run (Run.ended a) = left a
of_run Run.running = going
of_run Run.dangling = freed

module _ (d : Decimal) where
  -- One of the two halves of the loop of `cross_liquidation`: the position of the market and the side
  -- is looked at, but the position that the call is about is the one that is closed.
  unfoldable pub cross_side : ℤ → Bool → Position → ℕ → ℕ → ℕ × Engine → Outcome (ℕ × Engine)
  cross_side fee_rate real p name side (ret, e) = elim (get_position p.user_id name side e) [
    | none ↦ left (ret, e)
    | some tmp ↦
        if tmp.pattern == 2
        then if name == e.market.name
          then elim (get_position p.user_id p.market p.side e) [
            | none ↦ freed
            | some p' ↦ left (1, blast d fee_rate real p' e)
          ]
          else elsewhere
        else left (ret, e)
  ]

  unfoldable pub cross_markets : ℤ → Bool → Position → List ℕ → ℕ × Engine → Outcome (ℕ × Engine)
  cross_markets fee_rate real p [] r = left r
  cross_markets fee_rate real p (name ∷ names) r = elim (cross_side fee_rate real p name bear r) [
    | left r' ↦ elim (cross_side fee_rate real p name bull r') [
      | left r'' ↦ cross_markets fee_rate real p names r''
      | other ↦ other
    ]
    | other ↦ other
  ]

  -- The user's money in the asset of the market, taken.
  abbrev pub take_money : ℕ → Engine → Engine
  take_money user e =
      let taken = (balance_set d user available_type e.market.money (pos 0) e.balances).1 in
      record e { balances = (balance_set d user freeze_type e.market.money (pos 0) taken).1 }

  -- `cross_liquidation`, with what it returns. `market` is the position's.
  unfoldable pub cross_liquidation : ℤ → ℤ → ℕ → Bool → Position → Engine → Outcome (ℕ × Engine)
  cross_liquidation fee_rate maintenance_rate fuel real p e =
      let cancelled = cancel_orders d fuel (λ o. true) p.user_id real e in
      if not (p.market == e.market.name)
      then elsewhere
      else if leb_ℤ e.market.latest_price (pos 0)
      then left (0, e)
      else if leb_ℤ (cross_condition d fee_rate maintenance_rate p.user_id e) (pos 0)
      then elim (of_run cancelled) [
        | left e' ↦ cross_markets fee_rate real p e'.configured (0, take_money p.user_id e')
        | going ↦ going
        | freed ↦ freed
        | elsewhere ↦ elsewhere
      ]
      else left (0, e)

  -- The position that `force_liquidation` looks at in a round: the first of the dictionary.
  unfoldable pub liquidate_first : ℤ → ℤ → ℕ → Bool → Engine → Outcome (ℕ × Engine)
  liquidate_first fee_rate maintenance_rate fuel real e = elim (e.positions) [
    | [] ↦ left (0, e)
    | (key, p) ∷ rest ↦
        if not (p.market == e.market.name)
        then elsewhere
        else if p.pattern == 1
        then of_run (isolated_liquidation d fee_rate maintenance_rate fuel real p e)
        else cross_liquidation fee_rate maintenance_rate fuel real p e
  ]

  -- `force_liquidation`: the rounds run on fuel, and each has fuel for its own loop.
  unfoldable pub force_liquidation : ℕ → ℤ → ℤ → ℕ → Bool → Engine → Outcome Engine
  force_liquidation zero fee_rate maintenance_rate fuel real e = going
  force_liquidation (suc rounds) fee_rate maintenance_rate fuel real e =
      elim (liquidate_first fee_rate maintenance_rate fuel real e) [
        | left (zero, e') ↦ left e'
        | left (suc _, e') ↦ force_liquidation rounds fee_rate maintenance_rate fuel real e'
        | going ↦ going
        | freed ↦ freed
        | elsewhere ↦ elsewhere
      ]
