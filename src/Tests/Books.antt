-- ===== src/Tests/Books.antt =====
-- The theorems on the order book and on matching in matchengine/src/me_market.c, applied to a
-- small market.
use Prim.Native.Nat.{Ordering}
use viabtc_future.Prelude.{false}
use viabtc_future.Prelude.{◌≡◌, ◌↔◌, refl, true, inl, arith}
use viabtc_future.Prelude.Int.{pos}
use viabtc_future.Decimal.{sub}
use viabtc_future.Dict.{nat_eq}
use viabtc_future.Market.Defs.{sells}
use viabtc_future.Market.Book.{order_match_compare, order_put_future}
use viabtc_future.Market.Book.Priority.{Before, compare-Before}
use viabtc_future.Market.Book.Index.{IsMarket, order_put_future-IsMarket}
use viabtc_future.Market.Deal.{execute_order_open_imp}
use viabtc_future.Market.Deal.Frame.{Traded, execute_order_open_imp-Traded}
use viabtc_future.Market.Match.{execute_order, terms}
use viabtc_future.Market.Match.Uncrossed.{Uncrossed, execute_order-Uncrossed}
use viabtc_future.Prelude.{not, ◌&&◌, is_some, ◌∷◌, []}
use viabtc_future.Balance.{key_eq}
use viabtc_future.Market.Defs.{Engine}
use viabtc_future.Tests.Data.{long}
use viabtc_future.Market.Pnl.{position_key, position_key_eq, mode_key_eq, get_position_mode}
use viabtc_future.Market.Put.Modes.{has_crashed, in_money, put_open_crashes}
use viabtc_future.Dict.{find}
use viabtc_future.Prelude.{some}
use viabtc_future.Market.Defs.{Position}
use viabtc_future.Market.Match.{market_cancel_order}
use viabtc_future.Market.Put.Released.{closing_order, cancel-close}
use viabtc_future.Market.Put.{
  Args, volume_error, held_position, market_put_order_open, put_order, market_put_order_close,
}
use viabtc_future.Market.Put.Refused.{Untouched, put_order_refused}
use viabtc_future.Market.Match.Preserved.{IsWellFormed, execute_order-IsWellFormed}
use viabtc_future.Market.Put.Sound.{IsSound, put_order-IsSound}
use viabtc_future.Tests.Data.{exact, exact-RoundsDown, ask, market, engine, ask', bid', request}

compare-Before_example : (order_match_compare ask' ask ≡ Ordering.lt) ↔ Before true ask' ask
unfolding sells
compare-Before_example = compare-Before 1 true ask' ask (refl, refl) (refl, refl) (λ e. omega arith)

pub market-IsMarket : IsMarket market
unfolding sells
market-IsMarket = record {
  asks_book = record { in_book = ((refl, refl), tt); sorted = (tt, tt); known = (refl, tt) };
  bids_book = record { in_book = ((refl, refl), tt); sorted = (tt, tt); known = (refl, tt) };
}

order_put_future-IsMarket_example : IsMarket (order_put_future ask' engine).1.market
order_put_future-IsMarket_example = order_put_future-IsMarket ask' engine market-IsMarket

execute_order_open_imp-Traded_example :
    let (taker', maker', e') =
      execute_order_open_imp exact (terms exact true bid' ask (pos 10)) bid' ask engine in
    Traded bid' taker'
    × Traded ask maker'
    × (taker'.left ≡ sub exact bid'.left (pos 5))
    × (maker'.left ≡ sub exact ask.left (pos 5))
    × (e'.market ≡ engine.market)
execute_order_open_imp-Traded_example =
    execute_order_open_imp-Traded exact (terms exact true bid' ask (pos 10)) bid' ask engine

execute_order-Uncrossed_example : Uncrossed (execute_order exact true 2 bid' engine).market
unfolding sells
execute_order-Uncrossed_example =
    execute_order-Uncrossed exact exact-RoundsDown true 2 bid' engine market-IsMarket
      ((omega arith, tt), tt) refl (inl refl) refl refl

-- User 8 has no position to close.
put_order_refused_example : Untouched 8 engine (put_order exact false request engine).1
unfolding market_put_order_close
put_order_refused_example = put_order_refused exact false request engine (λ h. ground arith)

pub market-IsWellFormed : IsWellFormed market
market-IsWellFormed = record { in_order = market-IsMarket; disjoint = ((λ e. omega arith, tt), tt) }

execute_order-IsWellFormed_example : IsWellFormed (execute_order exact true 2 bid' engine).market
unfolding sells
execute_order-IsWellFormed_example =
    execute_order-IsWellFormed exact exact-RoundsDown true 2 bid' engine market-IsWellFormed refl
      (inl refl) refl refl

put_order-IsSound_example : IsSound (put_order exact true request engine).1.market
put_order-IsSound_example =
    put_order-IsSound exact exact-RoundsDown (omega arith) true request engine
      (record { well_formed = market-IsWellFormed; uncrossed = ((omega arith, tt), tt) }) refl

abbrev long_of_8 : Position
long_of_8 = record long { user_id = 8 }

-- User 8 with a long and no position mode.
abbrev no_mode : Engine
no_mode = record engine { positions = (position_key 8 3 2, long_of_8) ∷ [] }

put_open_crashes_example : has_crashed (market_put_order_open exact request no_mode).0 ≡ (
    in_money request no_mode
    && not (volume_error exact request)
    && is_some (held_position 8 no_mode)
    && not (is_some (get_position_mode 8 3 no_mode)))
put_open_crashes_example = put_open_crashes exact request no_mode

-- User 8 closes 3 of the long by a limit order; nobody bids.
abbrev part : Args
part = record request { volume = pos 3 }

abbrev nobody_bids : Engine
nobody_bids = record no_mode { market = record market { bids = [] } }

cancel-close_example :
    let (done, e') =
      market_cancel_order exact true
        (closing_order part long_of_8 nobody_bids)
        (market_put_order_close exact part nobody_bids).1 in
    (done ≡ true) × (find (position_key 8 3 2) e'.positions ≡ some long_of_8)
unfolding market_put_order_close
cancel-close_example =
    cancel-close exact part long_of_8 nobody_bids true refl refl refl refl (omega arith) refl refl
      refl refl (position_key 8 3 2)
