-- ===== src/Tests/Runs.antt =====
-- What the engine does with the small market, run.
use viabtc_future.Prelude.{◌≡◌, refl, [], ◌∷◌, map, List}
use viabtc_future.Prelude.Int.{ℤ, pos, ◌*ℤ◌, ◌+ℤ◌, ◌-ℤ◌}
use viabtc_future.Dict.{nat_eq}
use viabtc_future.Balance.{key_eq}
use viabtc_future.Market.Defs.{Order, sells}
use viabtc_future.Market.Book.{order_put_future, order_finish_future}
use viabtc_future.Market.Pnl.{position_key_eq, mode_key_eq, check_pri_and_fee}
use viabtc_future.Market.Match.{execute_order, match_loop, trade, decide, settle_taker}
use viabtc_future.Market.Deal.{
  execute_order_open_imp, adjust_order, adjust_position, adjust_balance, grow, shrink,
}
use viabtc_future.Balance.{balance_freeze, balance_unfreeze, balance_sub, balance_add, balance_set}
use viabtc_future.Market.Put.{market_put_order_open}
use viabtc_future.Tests.Data.{exact, quotient, engine, request}

abbrev prices : List Order → List ℤ
prices l = map (λ (o : Order). o.price) l

bids_after : prices (market_put_order_open exact request engine).1.market.bids ≡ pos 12 ∷ pos 8 ∷ []
unfolding market_put_order_open execute_order match_loop trade decide settle_taker
    execute_order_open_imp adjust_order adjust_position adjust_balance grow shrink balance_freeze
    balance_unfreeze balance_sub balance_add balance_set order_put_future order_finish_future sells
    ◌*ℤ◌ ◌+ℤ◌ ◌-ℤ◌ quotient check_pri_and_fee
bids_after = refl

asks_after : prices (market_put_order_open exact request engine).1.market.asks ≡ []
unfolding market_put_order_open execute_order match_loop trade decide settle_taker
    execute_order_open_imp adjust_order adjust_position adjust_balance grow shrink balance_freeze
    balance_unfreeze balance_sub balance_add balance_set order_put_future order_finish_future sells
    ◌*ℤ◌ ◌+ℤ◌ ◌-ℤ◌ quotient check_pri_and_fee
asks_after = refl
