-- ===== src/Tests.antt =====
-- Test data and runs: each theorem of the list in Lib.antt is applied to a concrete input.
pub mod Data
mod State
mod Observer
mod Prices
mod Rows
mod Syncer
mod Store
mod Plan
pub mod Profit
mod Pull
mod Xlwms
mod Temu
