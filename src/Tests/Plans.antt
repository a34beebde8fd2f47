-- ===== src/Tests/Plans.antt =====
-- The theorems on orders that wait for a price (matchengine/src/me_planner.c) and on orders that
-- are put and finished (matchengine/src/me_market.c), applied to the small market.
use viabtc_future.Prelude.{◌≡◌, ◌⊎◌, refl, some, true, false, inl, [], ◌∷◌, arith}
use viabtc_future.Prelude.Int.{pos}
use viabtc_future.Dict.{nat_eq, find}
use viabtc_future.Market.Defs.{sells, Position, Engine}
use viabtc_future.Market.Book.{
  order_put_future, order_finish_future, put_side, book, plan_asks, plan_bids,
}
use viabtc_future.Market.Book.Index.{Known-Fresh}
use viabtc_future.Market.Book.Undone.{Same, finish-put, finish_leaves}
use viabtc_future.Market.Match.Uncrossed.{Uncrossed}
use viabtc_future.Market.Planner.{plan_side}
use viabtc_future.Market.Planner.Triggers.{stop_loss_alone}
use viabtc_future.Market.Put.{Reply, market_put_order_close}
use viabtc_future.Market.Put.Released.{closing_order}
use viabtc_future.Market.Pnl.{position_key, position_key_eq}
use viabtc_future.Market.Planner.Uncrossed.{plan_side-Uncrossed}
use viabtc_future.Tests.Data.{
  long, stop_loss, exact, exact-RoundsDown, market, engine, ask, ask', waiting, take_profit,
}
use viabtc_future.Tests.Books.{market-IsMarket}

finish-put_example :
    Same market (order_finish_future true ask' (order_put_future ask' engine).1).market
unfolding sells
finish-put_example =
    finish-put true ask' engine (inl refl) refl
      (Known-Fresh ask' (1 ∷ 2 ∷ []) (ask ∷ []) refl (refl, tt))

-- A take-profit order in an empty plan book.
finish_leaves_example :
    let m' =
      (order_finish_future true take_profit (order_put_future take_profit engine).1).market in
    ((put_side take_profit ≡ plan_asks) ⊎ (put_side take_profit ≡ plan_bids))
    × (m'.orders ≡ market.orders)
    × (book (put_side take_profit) m' ≡ take_profit ∷ [])
unfolding sells order_put_future
finish_leaves_example =
    finish_leaves true take_profit engine (λ e. omega arith) (λ e. omega arith) tt refl

abbrev long_of_8 : Position
long_of_8 = record long { user_id = 8 }

-- User 8 has a long, at the price 9 and then at the price 20, when the stop-loss waits.
abbrev asked : Engine
asked = record engine { positions = (position_key 8 3 2, long_of_8) ∷ [] }

abbrev risen : Engine
risen = record asked {
  market = record market {
    latest_price = pos 20;
    orders = 3 ∷ 1 ∷ 2 ∷ [];
    plan_asks = closing_order stop_loss long_of_8 engine ∷ [];
  };
  order_id_start = 3;
}

stop_loss_alone_example :
    let y = plan_side exact true true (closing_order stop_loss long_of_8 asked) risen in
    ((market_put_order_close exact stop_loss asked).0 ≡ Reply.done)
    × (find (position_key 8 3 2) y.positions ≡ some long_of_8)
    × (y.market.orders ≡ 1 ∷ 2 ∷ [])
unfolding market_put_order_close
stop_loss_alone_example =
    stop_loss_alone exact true stop_loss long_of_8 long_of_8 asked risen refl refl refl refl refl
      refl (omega arith) (omega arith) (omega arith) refl refl refl (position_key 8 3 2)

plan_side-Uncrossed_example : Uncrossed (plan_side exact true false waiting engine).market
unfolding sells
plan_side-Uncrossed_example =
    plan_side-Uncrossed exact exact-RoundsDown true false waiting engine market-IsMarket
      ((omega arith, tt), tt) refl refl (inl refl) (λ h. absurd (h refl)) (λ h. refl)
      (λ h. absurd (h refl)) (λ h. absurd (h refl))
