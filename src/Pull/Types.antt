-- ===== src/Pull/Types.antt =====
-- types.go: the orders, lines and stocks that the pull reads, over a type of floats.
use pangu_sales_manager.Base.{ℤ, String, Bool, Option, Text}
use pangu_sales_manager.Marketing.State.{Time}

pub record SourceOrder : Type 0 where
  pub platform : String
  pub shop_key : String
  pub order_no : Text
  pub source_status : Text
  pub normalized_status : Text
  pub occurred_at : Time
  pub occurred_at_source : String
  pub warehouse_code : Text
  pub sales_eligible : Bool
  pub first_seen_at : Time
  pub updated_at : Time
  pub raw_payload : Text

pub record SourceLine (Float : Type 0) : Type 0 where
  pub platform : String
  pub shop_key : String
  pub order_no : Text
  pub source_line_key : Text
  pub platform_sku : Text
  pub product_sku_id : ℤ
  pub suggested_sku : Text
  pub product_name : Text
  pub variant_name : Text
  pub warehouse_code : Text
  pub quantity : Float
  pub conversion_factor : Float
  pub mapping_source : String
  pub mapping_status : String
  pub unit_price : Option Float
  pub currency : Text
  pub raw_payload : Text

pub record InventoryRow (Float : Type 0) : Type 0 where
  pub warehouse_code : Text
  pub warehouse_name : Text
  pub warehouse_sku : Text
  pub total : Float
  pub available : Float
  pub locked : Float
  pub in_transit : Float
  pub statistic_date : Option Time
  pub updated_at : Option Time

pub record Warehouse : Type 0 where
  pub code : Text
  pub name : Text
  pub active : Bool
