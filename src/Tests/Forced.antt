-- ===== src/Tests/Forced.antt =====
-- Forced liquidations (matchengine/src/me_liquidation.c) and refused requests of me_market.c.
use viabtc_future.Prelude.{◌≡◌, refl, true, false, [], ◌∷◌, arith}
use viabtc_future.Prelude.Int.{pos, ◌+ℤ◌, ◌-ℤ◌, ◌*ℤ◌}
use viabtc_future.Dict.{nat_eq}
use viabtc_future.Balance.{key_eq}
use viabtc_future.Market.Defs.{Position, Engine}
use viabtc_future.Market.Pnl.{position_key, position_key_eq, get_pnl}
use viabtc_future.Market.Put.{Reply, market_put_order_close}
use viabtc_future.Market.Put.Refused.{Untouched}
use viabtc_future.Market.Liquidation.{market_get_order_list, isolated_condition}
use viabtc_future.Market.Liquidation.Forced.{going, force_liquidation}
use viabtc_future.Market.Liquidation.Forced.Unfilled.{Unfilled, force_liquidation_stuck}
use viabtc_future.Market.Requests.{market_put_order_common, follow_up}
use viabtc_future.Market.Requests.Refusals.{market_put_order_common_refused}
use viabtc_future.Tests.Data.{exact, quotient, engine, market, short, request}

-- A short of 5 that has lost its margin, in a market without sellers.
abbrev lost_short : Position
lost_short = record short { position = pos 5; frozen = pos 0; pattern = 1 }

abbrev no_sellers : Engine
no_sellers = record engine {
  market = record market { asks = []; users = []; latest_price = pos 9 };
  positions = (position_key 8 3 1, lost_short) ∷ [];
}

no_sellers-Unfilled : Unfilled exact (pos 0) (pos 0) lost_short [] no_sellers
unfolding market_get_order_list isolated_condition get_pnl quotient ◌+ℤ◌ ◌-ℤ◌ ◌*ℤ◌
no_sellers-Unfilled = record {
  first = refl;
  here = refl;
  priced = omega arith;
  blown = omega arith;
  no_orders = refl;
  no_takers = refl;
  isolated = refl;
  flat = refl;
  held = refl;
  exact = refl;
  zero_exact = refl;
}

force_liquidation_stuck_example :
    force_liquidation exact 1000 (pos 0) (pos 0) 1 true no_sellers ≡ going
force_liquidation_stuck_example =
    force_liquidation_stuck exact 1000 (pos 0) (pos 0) 0 true lost_short [] no_sellers
      no_sellers-Unfilled

-- User 8 has no position to close.
market_put_order_common_refused_example : Untouched 8 engine engine
unfolding market_put_order_common market_put_order_close follow_up
market_put_order_common_refused_example =
    market_put_order_common_refused exact 1 (pos 0) (pos 0) 1 false request engine engine
      (Reply.refused 4) (λ h. ground arith) refl
