-- ===== src/Profit/Settled.antt =====
-- profit_import.go: the sheet of settlements, parseSettledFlows.
use pangu_sales_manager.Base.{
  ℕ, suc, pos, String, codes, List, [], ◌∷◌, drop, Option, none, some, ok, ◌>>=◌, if◌then◌else◌,
  text_eq,
}
use pangu_sales_manager.Profit.Errors.{Import}
use pangu_sales_manager.Profit.Numbers.{
  Formats, parse_required_float, parse_optional_float, parse_optional_float_or_zero,
  parse_optional_int64, parse_optional_bool, parse_profit_time,
}
use pangu_sales_manager.Profit.Cells.{Row, cell, require_headers}
use pangu_sales_manager.Profit.Flat.{each_row, skipped}
use pangu_sales_manager.Profit.Records.{TemuProfitSettledFlow}

abbrev pub settled_flow_headers : List String
settled_flow_headers = "结算流水ID" ∷ "批次号" ∷ "PO单号" ∷ "单据号" ∷ "交易类型" ∷ "结算金额" ∷ []

abbrev second_is : ℕ → List Row → ℕ
second_is column [] = 1
second_is column (row ∷ rows) = if text_eq (cell row column) (codes "SKU ID") then 2 else 1

-- How many rows are headings: two, if the second one has the given column for the SKU ID.
unfoldable pub heading_rows : ℕ → List Row → ℕ
unfolding cell text_eq
heading_rows column rows = second_is column (drop 1 rows)

module _ (F : Formats) (shop_key : String) where
  open F use {Float, Location}

  unfoldable pub settled_row : Location → Row → Import (Option (TemuProfitSettledFlow Float))
  unfolding skipped cell parse_required_float parse_optional_float parse_optional_float_or_zero
      parse_optional_int64 parse_optional_bool parse_profit_time
  settled_row loc row = if skipped row then ok none else do
    amount ← parse_required_float F (cell row 5) "结算金额"
    sku_id ← parse_optional_int64 F (cell row 6)
    qty ← parse_optional_float F (cell row 9)
    declared ← parse_optional_float F (cell row 10)
    activity ← parse_optional_bool (cell row 11)
    total_declared ← parse_optional_float F (cell row 13)
    sku_coupon ← parse_optional_float_or_zero F (cell row 14)
    shop_coupon ← parse_optional_float_or_zero F (cell row 15)
    discount ← parse_optional_float_or_zero F (cell row 16)
    freight_discount ← parse_optional_float_or_zero F (cell row 17)
    received ← parse_profit_time F (cell row 18) loc
    ok (
        some (record {
          shop_key = shop_key;
          flow_id = cell row 0;
          batch_no = cell row 1;
          po_no = cell row 2;
          document_no = cell row 3;
          trade_type = cell row 4;
          settle_amount = amount;
          sku_id = sku_id;
          sku_name = cell row 7;
          sku_ext_code = cell row 8;
          quantity = qty;
          declared_price = declared;
          is_activity_price = activity;
          currency = cell row 12;
          total_declared_price = total_declared;
          sku_coupon_amount = sku_coupon;
          shop_coupon_amount = shop_coupon;
          declared_discount_amount = discount;
          activity_freight_discount_amount = freight_discount;
          received_at = received;
          remark = cell row 19;
          imported_at = pos 0;
        }))

  unfoldable pub parse_settled_flows :
      List Row → Location → Import (List (TemuProfitSettledFlow Float))
  unfolding require_headers heading_rows each_row settled_row
  parse_settled_flows rows loc = do
    _ ← require_headers rows settled_flow_headers
    let start = heading_rows 6 rows
    each_row (settled_row loc) (suc start) (drop start rows)
