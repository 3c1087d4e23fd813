-- ===== src/OrderLines.antt =====
-- order_price_backfill.go: the order lines, the statistics and what is written.
use pangu_sales_manager.Base.{ℕ, ℤ, String, Bool, List, Option}
use pangu_sales_manager.Marketing.State.{Time}

pub record OrderPriceBackfillRequest : Type 0 where
  pub start_at : Time
  pub end_at : Time
  pub shop_key : String
  pub dry_run : Bool

pub record OrderPriceBackfillStats : Type 0 where
  pub start_at : Time
  pub end_at : Time
  pub shop_key : String
  pub dry_run : Bool
  pub order_lines : ℕ
  pub distinct_skus : ℕ
  pub exact_matches : ℕ
  pub inferred_matches : ℕ
  pub unmatched : ℕ
  pub updated : ℕ

-- A row that the first query returns; the column of the product SKU may be NULL.
pub record OrderLine : Type 0 where
  pub line_id : ℤ
  pub product_sku_id : Option ℤ
  pub occurred_at : Time
  pub occurred_at_source : String

pub record OrderLinePriceTarget : Type 0 where
  pub line_id : ℤ
  pub product_sku_id : ℤ
  pub occurred_at : Time
  pub occurred_at_source : String

-- What is written for a line: the row of temu_order_line_price_estimates, and the columns of
-- normalized_order_lines.
pub record Estimate : Type 0 where
  pub order_line_id : ℤ
  pub product_sku_id : ℤ
  pub skc_id : Option ℤ
  pub matched_interval_id : Option ℤ
  pub estimated_price : ℤ
  pub currency : String
  pub status : String
  pub price_source : String
  pub match_method : String
  pub order_time : Time
  pub order_time_source : String
  pub interval_start_at : Option Time
  pub interval_end_at : Option Time
  pub distance : ℤ
  pub reason : String

pub record LineUpdate : Type 0 where
  pub line_id : ℤ
  pub platform_product_sku_id : Option ℤ
  pub unit_price : ℤ
  pub currency : String
  pub unit_price_source : String
  pub unit_price_status : String

-- What the loop of the transaction has done: its statements, the number of updated lines, and
-- whether a statement failed.
pub record Writes : Type 0 where
  pub statements : List (Estimate × LineUpdate)
  pub updated : ℕ
  pub write_fails : Bool
