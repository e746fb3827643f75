-- ===== src/Examples.antt =====
-- A concrete desk, on which the theorems of the library are applied.
pub mod Desk
mod Gates
mod Trades
mod Plans
mod Runs
mod Research
mod Ledgers
mod Positions
