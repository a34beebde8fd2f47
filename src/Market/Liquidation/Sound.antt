-- ===== src/Market/Liquidation/Sound.antt =====
-- The order of a liquidation (matchengine/src/me_liquidation.c) and the books.
use viabtc_future.Prelude.{◌+◌, ◌%◌, ◌^◌, ◌≡◌, Bool, false, arith}
use viabtc_future.Prelude.Int.{ℤ, pos, ◌<ℤ◌}
use viabtc_future.Decimal.{Decimal, RoundsDown}
use viabtc_future.Decimal
use viabtc_future.Market.Defs.{Engine, Position, sells}
use viabtc_future.Market.Book.{mem}
use viabtc_future.Market.Pnl.{position_key_eq, write_position}
use viabtc_future.Market.Match.{sells_now, is_finished}
use viabtc_future.Market.Match.Rounds.{IsTaker}
use viabtc_future.Market.Match.Uncrossed.{execute_order-Uncrossed}
use viabtc_future.Market.Match.Preserved.{execute_order-IsWellFormed}
use viabtc_future.Market.Put.Sound.{IsSound}
use viabtc_future.Market.Liquidation.{blast, blast_order}

-- Closing all of a position at the market leaves the market sound, if it was so: both live books in
-- price-time priority, with limit orders of the right direction alone, all in orders and none in
-- both, and no bid at or above an ask. The position is not empty, the next order id is new, and
-- rounding goes toward zero.
pub blast-IsSound :
    (d : Decimal)
    → RoundsDown d
    → (fee_rate : ℤ) (real : Bool) (p : Position) (e : Engine) → IsSound e.market
    → mem ((e.order_id_start + 1) % 2 ^ 64) e.market.orders ≡ false
    → pos 0 <ℤ Decimal.add d p.position p.frozen
    → IsSound (blast d fee_rate real p e).market
unfolding blast blast_order sells
blast-IsSound d down fee_rate real p e s new held =
    let (o, e') = blast_order d fee_rate p e in
    let frozen = record p { frozen = Decimal.add d p.frozen p.position; position = pos 0 } in
    let e'' = write_position p.user_id p.market p.side frozen e' in
    let kind : IsTaker o = ground arith in
    let side : sells o ≡ sells_now o.oper_type o.side = ground arith in
    let open_ : is_finished o ≡ false = ground (arith, held) in
    record {
      well_formed =
          execute_order-IsWellFormed d down real o.side o e'' s.well_formed new kind side open_;
      uncrossed =
          execute_order-Uncrossed d down real o.side o e'' s.well_formed.in_order s.uncrossed new
            kind side open_;
    }
