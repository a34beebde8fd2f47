-- ===== src/Tests.antt =====
-- Concrete inputs, and the theorems applied to them.
pub mod Data
pub mod Balances
pub mod Books
pub mod Runs
pub mod Sessions
pub mod Sends
pub mod Pendings
pub mod Plans
pub mod Packing
pub mod Tables
pub mod Liquidations
pub mod Forced
pub mod Buffers
pub mod Klines
