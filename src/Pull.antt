-- ===== src/Pull.antt =====
-- types.go, syncer.go and temu_sales_source.go: the pull of the orders.
pub mod Types
pub mod Letters
pub mod Matching
pub mod Longest
pub mod Suffix
pub mod Determined
pub mod TemuOrders
pub mod Lines
pub mod Run
pub mod Stored
pub mod Runs
