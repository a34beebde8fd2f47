-- ===== src/Market.antt =====
-- The futures market of the matching engine, matchengine/src/me_market.c and me_position.c.
pub mod Defs
pub mod Book
pub mod Pnl
pub mod Deal
pub mod Match
pub mod Put
pub mod Planner
pub mod Liquidation
pub mod Requests
