-- ===== src/Market/Liquidation/Forced/Unfilled.antt =====
-- `force_liquidation` of matchengine/src/me_liquidation.c where nobody takes the position.
use viabtc_future.Prelude.{
  ℕ, zero, suc, ◌≡◌, refl, ap, sym, ◌∙◌, Bool, true, false, ◌==◌, some, [], ◌∷◌, arith,
}
use viabtc_future.Prelude.Int.{ℤ, pos, ltb_ℤ, leb_ℤ, ◌<ℤ◌, ◌≤ℤ◌, ◌+ℤ◌, ◌-ℤ◌, int_laws}
use mathlib.Core.Path.{subst}
use viabtc_future.Market.Match.Rounds.{emit-market}
use viabtc_future.Market.Match.Closing.{cancel_closing, emit-positions, finish-positions}
use viabtc_future.Market.Liquidation.Ends.{release_position-market}
use viabtc_future.Market.Liquidation.Cancels.{list_empty-finished}
use viabtc_future.Decimal.{Decimal}
use viabtc_future.Decimal
use viabtc_future.Dict.{Dict, nat_eq}
use viabtc_future.Dict
use viabtc_future.Market.Defs.{
  Order, Position, PositionKey, Market, Engine, OrderEvent, order_message, sells,
}
use viabtc_future.Market.Book.{book, emit, order_finish_future}
use viabtc_future.Market.Book.Undone.{finished, finish-finished}
use viabtc_future.Market.Pnl.{
  get_position, write_position, position_key, position_key_eq, position_key_beq_iff,
}
use viabtc_future.Market.Match.{
  sells_now, matched_side, match_loop, settle_taker, execute_order, market_cancel_order,
  release_position,
}
use viabtc_future.Market.Liquidation.{
  Run, market_get_order_list, cancel_orders, closes, scan, blast_order, blast, blast_now,
  isolated_liquidation, isolated_condition,
}
use viabtc_future.Market.Liquidation.Forced.{
  left, going, of_run, liquidate_first, force_liquidation,
}

abbrev pub key_of : Position → PositionKey
key_of p = position_key p.user_id p.market p.side

module _ (d : Decimal) where
  -- A market order that finds an empty book is cancelled.
  execute_unfilled :
      (real : Bool) (direction : ℕ) (o : Order) (e : Engine)
      → o.type ≡ 0
      → book (matched_side (sells_now o.oper_type direction)) e.market ≡ []
      → execute_order d real direction o e ≡ (market_cancel_order d real o e).1
  unfolding execute_order match_loop settle_taker
  execute_unfilled real direction o e market empty = ground arith

  find_first :
      (k : PositionKey) (p : Position) (rest : Dict PositionKey Position)
      → Dict.find k ((k, p) ∷ rest) ≡ some p
  find_first k p rest = rw ((position_key_beq_iff k k).1 refl)

  assign_first :
      (k : PositionKey) (p p' : Position) (rest : Dict PositionKey Position)
      → Dict.assign k p' ((k, p) ∷ rest) ≡ (k, p') ∷ rest
  assign_first k p p' rest = rw ((position_key_beq_iff k k).1 refl)

  release-positions :
      (o : Order) (x : Engine) (p : Position) (rest : Dict PositionKey Position)
      → let k = position_key o.user_id o.market o.side in
        x.positions ≡ (k, p) ∷ rest
        → (release_position d o x).positions
          ≡ (
            k,
            record p {
              frozen = Decimal.sub d p.frozen o.left;
              position = Decimal.add d p.position o.left;
            },
          )
            ∷ rest
  release-positions o x p rest at =
      let k = position_key o.user_id o.market o.side in
      let p' = record p {
        frozen = Decimal.sub d p.frozen o.left;
        position = Decimal.add d p.position o.left;
      } in
      let found : Dict.find k x.positions ≡ some p = ap (Dict.find k) at ∙ find_first k p rest in
      rw (release_position, found) (ap (Dict.assign k p') at ∙ assign_first k p p' rest)

  finished_other_side :
      (o : Order) (m : Market)
      → o.type ≡ 0
      → o.oper_type ≡ 2
      → book (matched_side (o.side == 2)) (finished o m) ≡ book (matched_side (o.side == 2)) m
  unfolding sells
  finished_other_side o m market closes = ground arith

  finished-latest_price : (o : Order) (m : Market) → (finished o m).latest_price ≡ m.latest_price
  finished-latest_price o m = ground arith

  finished-name : (o : Order) (m : Market) → (finished o m).name ≡ m.name
  finished-name o m = ground arith

  no_change : (w : ℤ) → w +ℤ pos 0 ≡ w
  no_change w = omega int_laws

  no_change' : (w : ℤ) → pos 0 +ℤ w ≡ w
  no_change' w = omega int_laws

  nothing_left : (w : ℤ) → w -ℤ w ≡ pos 0
  nothing_left w = omega int_laws

  -- The position is the first of the dictionary and of the engine's market, it is to be closed, nothing of it is frozen, its user
  -- has no orders in the market, and the other side of the book is empty.
  pub record Unfilled (fee_rate maintenance_rate : ℤ) (p : Position)
      (rest : Dict PositionKey Position) (e : Engine) : Type 0 where
    pub first : e.positions ≡ (key_of p, p) ∷ rest
    pub here : (p.market == e.market.name) ≡ true
    pub priced : pos 0 <ℤ e.market.latest_price
    pub blown : isolated_condition d fee_rate maintenance_rate p e.market.latest_price ≤ℤ pos 0
    pub no_orders : market_get_order_list p.user_id e.market ≡ []
    pub no_takers : book (matched_side (p.side == 2)) e.market ≡ []
    pub isolated : p.pattern ≡ 1
    pub flat : p.frozen ≡ pos 0
    pub held : ltb_ℤ (pos 0) p.position ≡ true
    pub exact : d.round p.position ≡ p.position
    pub zero_exact : d.round (pos 0) ≡ pos 0

  module _ (fee_rate maintenance_rate : ℤ) (real : Bool) (p : Position)
      (rest : Dict PositionKey Position) (e : Engine)
      (u : Unfilled fee_rate maintenance_rate p rest e) where
    -- The order that is to close the position, and the position behind it.
    abbrev closing : Order
    closing = (blast_order d fee_rate p e).0

    left_lem : closing.left ≡ p.position
    unfolding blast_order
    left_lem = ap d.round (ap (λ z. p.position +ℤ z) u.flat ∙ no_change p.position) ∙ u.exact

    abbrev frozen_all : Position
    frozen_all = record p { frozen = Decimal.add d p.frozen p.position; position = pos 0 }

    abbrev given_back : Position
    given_back = record frozen_all {
      frozen = Decimal.sub d frozen_all.frozen closing.left;
      position = Decimal.add d frozen_all.position closing.left;
    }

    frozen_lem : frozen_all.frozen ≡ p.position
    frozen_lem = ap d.round (ap (λ z. z +ℤ p.position) u.flat ∙ no_change' p.position) ∙ u.exact

    -- The position is as it was.
    given_back_lem : given_back ≡ p
    given_back_lem =
        let frozen : given_back.frozen ≡ p.frozen =
          ap (λ z. d.round (z -ℤ closing.left)) frozen_lem
          ∙ ap (λ z. d.round (p.position -ℤ z)) left_lem
          ∙ ap d.round (nothing_left p.position)
          ∙ u.zero_exact
          ∙ sym u.flat in
        let position : given_back.position ≡ p.position =
          ap (λ z. d.round (pos 0 +ℤ z)) left_lem ∙ ap d.round (no_change' p.position) ∙ u.exact in
        λ i. record p { frozen = frozen i; position = position i }

    abbrev blasted : Engine
    blasted = blast d fee_rate real p e

    abbrev frozen_state : Engine
    frozen_state =
        write_position p.user_id p.market p.side frozen_all (blast_order d fee_rate p e).1

    blasted_lem :
        blasted
        ≡ order_finish_future real closing (
            release_position d closing
              (emit real (order_message OrderEvent.finish closing) frozen_state))
    unfolding blast blast_order
    blasted_lem =
        execute_unfilled real p.side closing frozen_state refl u.no_takers
        ∙ ap (λ r. r.1)
            (cancel_closing d real closing frozen_state refl (ap (ltb_ℤ (pos 0)) left_lem ∙ u.held))

    frozen-positions : frozen_state.positions ≡ (key_of p, frozen_all) ∷ rest
    unfolding blast_order
    frozen-positions =
        ap (Dict.assign (key_of p) frozen_all) u.first ∙ assign_first (key_of p) p frozen_all rest

    blasted-positions : blasted.positions ≡ (key_of p, p) ∷ rest
    unfolding blast_order
    blasted-positions =
        let event = order_message OrderEvent.finish closing in
        let y = release_position d closing (emit real event frozen_state) in
        ap (λ x. x.positions) blasted_lem
        ∙ finish-positions real closing y
        ∙ release-positions closing (emit real event frozen_state) frozen_all rest
            (emit-positions real event frozen_state ∙ frozen-positions)
        ∙ ap (λ x. (key_of p, x) ∷ rest) given_back_lem

    blasted-market : blasted.market ≡ finished closing e.market
    unfolding blast_order
    blasted-market =
        let event = order_message OrderEvent.finish closing in
        ap (λ x. x.market) blasted_lem
        ∙ finish-finished real closing (release_position d closing (emit real event frozen_state))
        ∙ ap (finished closing) (
            release_position-market d closing (emit real event frozen_state)
            ∙ emit-market real event frozen_state)

    -- The state behind a round is as bad as the one before.
    blasted-Unfilled : Unfilled fee_rate maintenance_rate p rest blasted
    unfolding blast_order
    blasted-Unfilled =
        let name : blasted.market.name ≡ e.market.name =
          ap (λ m. m.name) blasted-market ∙ finished-name closing e.market in
        let latest : blasted.market.latest_price ≡ e.market.latest_price =
          ap (λ m. m.latest_price) blasted-market ∙ finished-latest_price closing e.market in
        record {
          first = blasted-positions;
          here = subst (λ n. (p.market == n) ≡ true) (sym name) u.here;
          priced = subst (λ z. pos 0 <ℤ z) (sym latest) u.priced;
          blown =
              subst (λ z. isolated_condition d fee_rate maintenance_rate p z ≤ℤ pos 0) (sym latest)
                u.blown;
          no_orders =
              ap (market_get_order_list p.user_id) blasted-market
              ∙ list_empty-finished closing e.market u.no_orders;
          no_takers =
              ap (book (matched_side (p.side == 2))) blasted-market
              ∙ finished_other_side closing e.market refl refl
              ∙ u.no_takers;
          isolated = u.isolated;
          flat = u.flat;
          held = u.held;
          exact = u.exact;
          zero_exact = u.zero_exact;
        }

    cancelled_lem :
        (fuel : ℕ) → cancel_orders d (suc fuel) (closes d p.side) p.user_id real e ≡ Run.ended e
    unfolding cancel_orders scan
    cancelled_lem fuel = rw (cancel_orders, u.no_orders)

    isolated_lem :
        (fuel : ℕ)
        → isolated_liquidation d fee_rate maintenance_rate (suc fuel) real p e
          ≡ Run.ended (1, blasted)
    unfolding isolated_liquidation blast_now
    isolated_lem fuel =
        let priced : leb_ℤ e.market.latest_price (pos 0) ≡ false = ground (arith, u.priced) in
        let blown : leb_ℤ (isolated_condition d fee_rate maintenance_rate p e.market.latest_price)
              (pos 0)
            ≡ true =
          ground (arith, u.blown) in
        let found : get_position p.user_id p.market p.side e ≡ some p =
          ap (Dict.find (key_of p)) u.first ∙ find_first (key_of p) p rest in
        let now : blast_now d fee_rate real p e ≡ (1, blasted) = simp (blast_now, found) in
        rw (isolated_liquidation, priced, blown, cancelled_lem fuel) (ap Run.ended now)

    round_lem :
        (fuel : ℕ)
        → liquidate_first d fee_rate maintenance_rate (suc fuel) real e ≡ left (1, blasted)
    unfolding liquidate_first
    round_lem fuel =
        let isolated : (p.pattern == 1) ≡ true = ground (arith, u.isolated) in
        let looked : liquidate_first d fee_rate maintenance_rate (suc fuel) real e
            ≡ of_run (isolated_liquidation d fee_rate maintenance_rate (suc fuel) real p e) =
          ground (arith, u.first, u.here, isolated) in
        looked ∙ ap of_run (isolated_lem fuel)

  -- While the book has nobody on the other side, an isolated position of its market that is to be closed,
  -- the first of the dictionary, keeps force_liquidation going for ever: each round freezes it, cancels the order
  -- that was to close it, and gives it back. Its user has no orders, and nothing of it is frozen.
  pub force_liquidation_stuck :
      (rounds : ℕ) (fee_rate maintenance_rate : ℤ) (fuel : ℕ) (real : Bool) (p : Position)
      (rest : Dict PositionKey Position) (e : Engine)
      → Unfilled fee_rate maintenance_rate p rest e
      → force_liquidation d rounds fee_rate maintenance_rate (suc fuel) real e ≡ going
  unfolding force_liquidation
  force_liquidation_stuck zero fee_rate maintenance_rate fuel real p rest e u = refl
  force_liquidation_stuck (suc rounds) fee_rate maintenance_rate fuel real p rest e u =
      rw (force_liquidation, round_lem fee_rate maintenance_rate real p rest e u fuel)
        (force_liquidation_stuck rounds fee_rate maintenance_rate fuel real p rest
          (blast d fee_rate real p e) (blasted-Unfilled fee_rate maintenance_rate real p rest e u))
