-- ===== src/Profit.antt =====
-- profit_types.go and profit_import.go: the profit sheets that a shop owner uploads.
pub mod Records
pub mod Errors
pub mod Numbers
pub mod Cells
pub mod Flat
pub mod EachRow
pub mod Settled
pub mod Located
pub mod Ownership
pub mod Orders
pub mod Blocks
pub mod Numbered
pub mod Kinds
pub mod Handled
pub mod Detected
pub mod Paths
pub mod Workbook
pub mod Upload
pub mod Owned
pub mod Shop
pub mod Entries
