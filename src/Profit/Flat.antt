-- ===== src/Profit/Flat.antt =====
-- profit_import.go: the sheets with one record to a row, but for the settlements.
use pangu_sales_manager.Base.{
  ℕ, suc, pos, String, Bool, ◌&&◌, ◌||◌, List, [], ◌∷◌, ◌++◌, drop, Option, none, some, ok, ◌>>=◌,
  wrap, if◌then◌else◌, is_empty,
}
use pangu_sales_manager.Profit.Errors.{Import, row_error}
use pangu_sales_manager.Profit.Numbers.{
  Formats, parse_required_float, parse_profit_time, parse_required_int64, parse_optional_int,
}
use pangu_sales_manager.Profit.Cells.{Row, cell, row_empty, require_headers}
use pangu_sales_manager.Profit.Records.{
  TemuProfitShippingLabelFee, TemuProfitReturnLabelFee, TemuProfitBuyerChargeback,
  TemuProfitFulfillmentViolation, TemuProfitPlatformReturnLabelFee, TemuProfitDisposalFee,
}

abbrev pub push {ℓ} : {A : Type ℓ} → Option A → List A → List A
push none items = items
push (some item) items = item ∷ items

-- The loop that the sheets share: `continue` is `none`, and an error gets the number of its row.
module _ {A : Type 0} (parse : Row → Import (Option A)) where
  unfoldable pub each_row : ℕ → List Row → Import (List A)
  each_row number [] = ok []
  each_row number (row ∷ rows) = do
    item ← wrap (row_error number) (parse row)
    items ← each_row (suc number) rows
    ok (push item items)

-- A row that has no text, or none in its first cell, is passed over.
unfoldable pub skipped : Row → Bool
unfolding row_empty cell
skipped row = row_empty row || is_empty (cell row 0)

module _ (F : Formats) (shop_key : String) where
  open F use {Float, Location}

  unfoldable pub keep_shipping :
      TemuProfitShippingLabelFee Float → Option (TemuProfitShippingLabelFee Float)
  keep_shipping item =
      if is_empty item.package_no && is_empty item.tracking_no then none else some item

  unfoldable pub shipping_row :
      String → Location → Row → Import (Option (TemuProfitShippingLabelFee Float))
  unfolding row_empty cell parse_required_float parse_profit_time keep_shipping
  shipping_row phase loc row = if row_empty row then ok none else do
    amount ← parse_required_float F (cell row 5) "运费"
    occurred ← parse_profit_time F (cell row 8) loc
    ok (
        keep_shipping (record {
          shop_key = shop_key;
          billing_phase = phase;
          package_no = cell row 0;
          tracking_no = cell row 1;
          carrier_code = cell row 2;
          bill_type = cell row 3;
          remark = cell row 4;
          freight_amount = amount;
          currency = cell row 6;
          reconcile_status = cell row 7;
          occurred_at = occurred;
          imported_at = pos 0;
        }))

  unfoldable pub parse_shipping_label_fees :
      List Row → String → Location → Import (List (TemuProfitShippingLabelFee Float))
  unfolding require_headers each_row shipping_row
  parse_shipping_label_fees rows phase loc = do
    _ ←
        require_headers rows
          ("包裹号" ∷ "运单号" ∷ "服务商code" ∷ "账单类型" ∷ "备注" ∷ "运费" ∷ "币种" ∷ "对账单状态" ∷ "支出/退款时间" ∷ [])
    each_row (shipping_row phase loc) 2 (drop 1 rows)

  unfoldable pub return_row :
      String → Location → Row → Import (Option (TemuProfitReturnLabelFee Float))
  unfolding skipped cell parse_required_float parse_profit_time
  return_row destination loc row = if skipped row then ok none else do
    amount ← parse_required_float F (cell row 6) "金额"
    occurred ← parse_profit_time F (cell row 7) loc
    ok (
        some (record {
          shop_key = shop_key;
          return_destination = destination;
          fund_bill_id = cell row 0;
          tracking_no = cell row 1;
          po_no = cell row 2;
          bill_type = cell row 3;
          currency = cell row 4;
          bill_remark = cell row 5;
          amount = amount;
          occurred_at = occurred;
          imported_at = pos 0;
        }))

  unfoldable pub parse_return_label_fees :
      List Row → String → Location → Import (List (TemuProfitReturnLabelFee Float))
  unfolding require_headers each_row return_row
  parse_return_label_fees rows destination loc = do
    _ ←
        require_headers rows
          ("账务单ID" ∷ "运单号" ∷ "PO单号" ∷ "账单类型" ∷ "币种" ∷ "账单备注" ∷ "金额" ∷ "账单支出/退款时间" ∷ [])
    each_row (return_row destination loc) 2 (drop 1 rows)

  unfoldable pub chargeback_row : Location → Row → Import (Option (TemuProfitBuyerChargeback Float))
  unfolding skipped cell parse_required_float parse_profit_time
  chargeback_row loc row = if skipped row then ok none else do
    amount ← parse_required_float F (cell row 1) "支出金额"
    accounted ← parse_profit_time F (cell row 3) loc
    ok (
        some (record {
          shop_key = shop_key;
          violation_order_no = cell row 0;
          amount = amount;
          currency = cell row 2;
          accounted_at = accounted;
          imported_at = pos 0;
        }))

  unfoldable pub parse_buyer_chargebacks :
      List Row → Location → Import (List (TemuProfitBuyerChargeback Float))
  unfolding require_headers each_row chargeback_row
  parse_buyer_chargebacks rows loc = do
    _ ← require_headers rows ("违规单号" ∷ "支出金额" ∷ "币种" ∷ "账务时间" ∷ [])
    each_row (chargeback_row loc) 2 (drop 1 rows)

  unfoldable pub violation_row :
      String → Location → Row → Import (Option (TemuProfitFulfillmentViolation Float))
  unfolding skipped cell parse_required_float parse_profit_time
  violation_row source_sheet loc row = if skipped row then ok none else do
    amount ← parse_required_float F (cell row 3) "支出金额"
    accounted ← parse_profit_time F (cell row 5) loc
    ok (
        some (record {
          shop_key = shop_key;
          source_sheet = source_sheet;
          violation_no = cell row 0;
          order_no = cell row 1;
          violation_type = cell row 2;
          amount = amount;
          currency = cell row 4;
          accounted_at = accounted;
          imported_at = pos 0;
        }))

  -- The violations so far come first. With an error the program also returns those so far, which
  -- its only caller throws away.
  unfoldable pub append_fulfillment_violations :
      List (TemuProfitFulfillmentViolation Float)
      → List Row
      → String
      → Location
      → Import (List (TemuProfitFulfillmentViolation Float))
  unfolding require_headers each_row violation_row
  append_fulfillment_violations dst rows source_sheet loc = do
    _ ← require_headers rows ("违规编号" ∷ "订单编号" ∷ "违规类型" ∷ "支出金额" ∷ "币种" ∷ "账务时间" ∷ [])
    items ← each_row (violation_row source_sheet loc) 2 (drop 1 rows)
    ok (dst ++ items)

  unfoldable pub platform_row :
      Location → Row → Import (Option (TemuProfitPlatformReturnLabelFee Float))
  unfolding skipped cell parse_required_float parse_profit_time
  platform_row loc row = if skipped row then ok none else do
    amount ← parse_required_float F (cell row 1) "收支金额"
    accounted ← parse_profit_time F (cell row 4) loc
    ok (
        some (record {
          shop_key = shop_key;
          order_no = cell row 0;
          amount = amount;
          currency = cell row 2;
          remark = cell row 3;
          accounted_at = accounted;
          imported_at = pos 0;
        }))

  unfoldable pub parse_platform_return_label_fees :
      List Row → Location → Import (List (TemuProfitPlatformReturnLabelFee Float))
  unfolding require_headers each_row platform_row
  parse_platform_return_label_fees rows loc = do
    _ ← require_headers rows ("订单编号" ∷ "收支金额" ∷ "币种" ∷ "备注" ∷ "账务时间" ∷ [])
    each_row (platform_row loc) 2 (drop 1 rows)

  unfoldable pub disposal_row : Location → Row → Import (Option (TemuProfitDisposalFee Float))
  unfolding skipped cell parse_required_float parse_profit_time parse_required_int64
      parse_optional_int
  disposal_row loc row = if skipped row then ok none else do
    sku_id ← parse_required_int64 F (cell row 0) "SKU ID"
    qty ← parse_optional_int F (cell row 3)
    returned ← parse_profit_time F (cell row 4) loc
    fee ← parse_required_float F (cell row 5) "销毁费用"
    accounted ← parse_profit_time F (cell row 7) loc
    ok (
        some (record {
          shop_key = shop_key;
          sku_id = sku_id;
          tracking_type = cell row 1;
          tracking_no = cell row 2;
          destroy_qty = qty;
          returned_at = returned;
          destroy_fee = fee;
          currency = cell row 6;
          accounted_at = accounted;
          imported_at = pos 0;
        }))

  unfoldable pub parse_disposal_fees :
      List Row → Location → Import (List (TemuProfitDisposalFee Float))
  unfolding require_headers each_row disposal_row
  parse_disposal_fees rows loc = do
    _ ←
        require_headers rows
          ("SKU ID" ∷ "运单号类型" ∷ "运单号" ∷ "销毁件数" ∷ "回仓时间" ∷ "销毁费用" ∷ "币种" ∷ "账务时间" ∷ [])
    each_row (disposal_row loc) 2 (drop 1 rows)
