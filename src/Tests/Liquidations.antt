-- ===== src/Tests/Liquidations.antt =====
-- Positions whose margin is used up (matchengine/src/me_liquidation.c).
use viabtc_future.Prelude.{ℕ, ◌≡◌, refl, true, [], ◌∷◌, arith}
use viabtc_future.Prelude.Int.{pos, negsuc, ◌+ℤ◌, ◌-ℤ◌, ◌*ℤ◌}
use viabtc_future.Dict.{nat_eq}
use viabtc_future.Balance.{key_eq}
use viabtc_future.Market.Defs.{Order, Position, Engine}
use viabtc_future.Market.Pnl.{
  position_key, position_key_eq, get_pnl, get_sum_pnl, get_sum_close_fee, get_sum_maintenance,
}
use viabtc_future.Market.Liquidation.{
  Run, order_of, market_get_order_list, scan, cancel_orders, isolated_liquidation,
  isolated_condition, cross_condition, cross_cancel, closes,
}
use viabtc_future.Market.Liquidation.Cancels.{Indexed}
use viabtc_future.Market.Liquidation.Ends.{Ends, cancel_orders-Ends, isolated_liquidation_ends}
use viabtc_future.Market.Liquidation.Stuck.{cross_cancel_stuck}
use viabtc_future.Market.Liquidation.Sound.{blast-IsSound}
use viabtc_future.Market.Put.Sound.{IsSound}
use viabtc_future.Market.Liquidation.{blast}
use viabtc_future.Tests.Books.{market-IsWellFormed}
use viabtc_future.Tests.Data.{exact-RoundsDown, exact, quotient, engine, market, bid, short}

-- User 8 has a short of 5 and 1, and a bid that closes the 1.
abbrev closing : Order
closing = record bid { side = 1; oper_type = 2; amount = pos 1; left = pos 1 }

abbrev isolated : Engine
isolated = record engine {
  market = record market { bids = closing ∷ [] };
  positions = (position_key 8 3 1, short) ∷ [];
}

used_up : isolated_condition exact (pos 0) (pos 0) short (pos 9) ≡ negsuc 11
unfolding isolated_condition get_pnl quotient ◌+ℤ◌ ◌-ℤ◌ ◌*ℤ◌
used_up = refl

isolated-Indexed : Indexed 8 isolated.market
unfolding order_of market_get_order_list
isolated-Indexed = record { newest = (tt, tt); owned = ((closing, refl, refl), tt) }

cancel_orders-Ends_example :
    Ends exact (closes exact 1) 8 (cancel_orders exact 2 (closes exact 1) 8 true isolated)
unfolding market_get_order_list
cancel_orders-Ends_example =
    cancel_orders-Ends exact 2 (closes exact 1) 8 true isolated (λ o w. ground (arith, w))
      isolated-Indexed (omega arith)

isolated_liquidation_ends_example :
    (r : ℕ × Engine) × (isolated_liquidation exact (pos 0) (pos 0) 2 true short isolated
      ≡ Run.ended r)
unfolding market_get_order_list
isolated_liquidation_ends_example =
    isolated_liquidation_ends exact (pos 0) (pos 0) 2 true short isolated isolated-Indexed
      (omega arith)

-- A short of 51 with cross margin, and a bid whose margin of 4 is not in the frozen balance.
abbrev deep : Position
deep = record short { pattern = 2; position = pos 50 }

abbrev crossed : Engine
crossed = record engine { positions = (position_key 8 3 1, deep) ∷ [] }

cross_cancel_stuck_example : cross_cancel exact (pos 0) (pos 0) 100 true deep crossed ≡ Run.running
unfolding scan order_of market_get_order_list cross_condition get_sum_pnl get_pnl get_sum_close_fee
    get_sum_maintenance quotient ◌+ℤ◌ ◌-ℤ◌ ◌*ℤ◌
cross_cancel_stuck_example =
    cross_cancel_stuck exact (pos 0) (pos 0) 100 true deep bid crossed (omega arith) (omega arith)
      refl refl (omega arith) refl

blast-IsSound_example : IsSound (blast exact (pos 0) true short engine).market
unfolding ◌+ℤ◌
blast-IsSound_example =
    blast-IsSound exact exact-RoundsDown (pos 0) true short engine
      (record { well_formed = market-IsWellFormed; uncrossed = ((omega arith, tt), tt) }) refl
      (omega arith)
