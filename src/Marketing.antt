-- ===== src/Marketing.antt =====
-- internal/marketing: the activity tracker of the Temu shops.
pub mod Ids
pub mod State
pub mod Price
pub mod Snapshot
pub mod Observation
pub mod Observer
pub mod Effective
pub mod RowData
pub mod Rows
pub mod Retry
pub mod Syncer
