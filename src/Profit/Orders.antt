-- ===== src/Profit/Orders.antt =====
-- profit_import.go: the sheets whose orders span several rows, parseSettledParentOrders and
-- parseUnsettleOrders. A row with a PO number starts an order, and one without adds an SKU to it.
use pangu_sales_manager.Base.{
  ℕ, suc, ◌+◌, pos, String, true, false, List, [], ◌∷◌, ◌++◌, drop, length, Option, none, some, ok,
  err, ◌>>=◌, wrap, if◌then◌else◌, is_empty,
}
use pangu_sales_manager.Profit.Errors.{Import, row_error, missing_po_no}
use pangu_sales_manager.Profit.Numbers.{
  Formats, parse_required_float, parse_optional_float_or_zero, parse_required_int64,
  parse_optional_bool,
}
use pangu_sales_manager.Profit.Cells.{Row, cell, row_empty, require_headers}
use pangu_sales_manager.Profit.Settled.{heading_rows}
use pangu_sales_manager.Profit.Records.{
  TemuProfitSettledParentSku, TemuProfitSettledParentOrder, TemuProfitUnsettleSku,
  TemuProfitUnsettleOrder,
}

-- `flush`: the current order, if there is one, ends the result so far.
abbrev pub flush {ℓ} : {A : Type ℓ} → Option A → List A → List A
flush none out = out
flush (some order) out = out ++ order ∷ []

-- The loop that both sheets have, over how a row starts an order and how it adds to one.
module _ {A : Type 0} (start_order : Row → Import A) (add_row : A → Row → Import A) where
  -- A row that holds some text.
  unfoldable pub next_order : Option A → Row → Import A
  unfolding cell
  next_order none row = if is_empty (cell row 0) then err missing_po_no else start_order row
  next_order (some order) row = if is_empty (cell row 0) then add_row order row else start_order row

  -- What is flushed before the row is read.
  abbrev pub flushed : Option A → Row → List A → List A
  flushed current row out = if is_empty (cell row 0) then out else flush current out

  unfoldable pub order_rows : ℕ → Option A → List A → List Row → Import (List A)
  unfolding row_empty cell next_order
  order_rows number current out [] = ok (flush current out)
  order_rows number current out (row ∷ rows) = elim (row_empty row) [
    | true ↦ order_rows (suc number) current out rows
    | false ↦ wrap (row_error number) (next_order current row) >>= λ order.
        order_rows (suc number) (some order) (flushed current row out) rows
  ]

module _ (F : Formats) (shop_key : String) where
  open F use {Float}

  unfoldable pub parse_settled_parent_sku : Row → ℕ → Import (TemuProfitSettledParentSku Float)
  unfolding cell parse_required_int64 parse_required_float parse_optional_bool
  parse_settled_parent_sku row line_no = do
    sku_id ← parse_required_int64 F (cell row 1) "SKU ID"
    qty ← parse_required_float F (cell row 4) "件数"
    declared ← parse_required_float F (cell row 5) "申报价格"
    activity ← parse_optional_bool (cell row 6)
    ok (record {
      line_no = line_no;
      sku_id = sku_id;
      sku_name = cell row 2;
      sku_ext_code = cell row 3;
      quantity = qty;
      declared_price = declared;
      is_activity_price = activity;
    })

  -- The first SKU may stand in the row of the order.
  unfoldable pub first_settled_parent_sku : Row → Import (List (TemuProfitSettledParentSku Float))
  unfolding cell parse_settled_parent_sku
  first_settled_parent_sku row =
      if is_empty (cell row 1)
      then ok []
      else do sku ← parse_settled_parent_sku row 1; ok (sku ∷ [])

  unfoldable pub parse_settled_parent_order_row : Row → Import (TemuProfitSettledParentOrder Float)
  unfolding cell parse_optional_float_or_zero first_settled_parent_sku
  parse_settled_parent_order_row row = do
    sales ← parse_optional_float_or_zero F (cell row 8)
    sales_after ← parse_optional_float_or_zero F (cell row 9)
    sales_back ← parse_optional_float_or_zero F (cell row 10)
    freight ← parse_optional_float_or_zero F (cell row 11)
    freight_after ← parse_optional_float_or_zero F (cell row 12)
    freight_back ← parse_optional_float_or_zero F (cell row 13)
    skus ← first_settled_parent_sku row
    ok (record {
      shop_key = shop_key;
      po_no = cell row 0;
      currency = cell row 7;
      sales_receipt = sales;
      sales_receipt_after_discount = sales_after;
      sales_chargeback = sales_back;
      freight_receipt = freight;
      freight_receipt_after_discount = freight_after;
      freight_chargeback = freight_back;
      skus = skus;
      imported_at = pos 0;
    })

  unfoldable pub add_settled_parent_sku :
      TemuProfitSettledParentOrder Float → Row → Import (TemuProfitSettledParentOrder Float)
  unfolding parse_settled_parent_sku
  add_settled_parent_sku order row = do
    sku ← parse_settled_parent_sku row (length order.skus + 1)
    ok (record order { skus = order.skus ++ sku ∷ [] })

  unfoldable pub parse_settled_parent_orders :
      List Row → Import (List (TemuProfitSettledParentOrder Float))
  unfolding require_headers heading_rows order_rows parse_settled_parent_order_row
      add_settled_parent_sku
  parse_settled_parent_orders rows = do
    _ ← require_headers rows ("PO单号" ∷ "商品信息" ∷ [])
    let start = heading_rows 1 rows
    order_rows parse_settled_parent_order_row add_settled_parent_sku (suc start) none []
        (drop start rows)

  unfoldable pub parse_unsettle_sku : Row → ℕ → Import (TemuProfitUnsettleSku Float)
  unfolding cell parse_required_int64 parse_required_float
  parse_unsettle_sku row line_no = do
    sku_id ← parse_required_int64 F (cell row 1) "SKU ID"
    qty ← parse_required_float F (cell row 3) "件数"
    declared ← parse_required_float F (cell row 4) "申报价格"
    ok (record {
      line_no = line_no;
      sku_id = sku_id;
      sku_name = cell row 2;
      quantity = qty;
      declared_price = declared;
    })

  unfoldable pub first_unsettle_sku : Row → Import (List (TemuProfitUnsettleSku Float))
  unfolding cell parse_unsettle_sku
  first_unsettle_sku row =
      if is_empty (cell row 1) then ok [] else do sku ← parse_unsettle_sku row 1; ok (sku ∷ [])

  unfoldable pub parse_unsettle_order_row : Row → Import (TemuProfitUnsettleOrder Float)
  unfolding cell parse_optional_float_or_zero first_unsettle_sku
  parse_unsettle_order_row row = do
    sales ← parse_optional_float_or_zero F (cell row 6)
    sales_after ← parse_optional_float_or_zero F (cell row 7)
    sales_back ← parse_optional_float_or_zero F (cell row 8)
    freight ← parse_optional_float_or_zero F (cell row 9)
    freight_back ← parse_optional_float_or_zero F (cell row 10)
    freight_after ← parse_optional_float_or_zero F (cell row 11)
    skus ← first_unsettle_sku row
    ok (record {
      shop_key = shop_key;
      po_no = cell row 0;
      currency = cell row 5;
      sales_receipt = sales;
      sales_receipt_after_discount = sales_after;
      sales_chargeback = sales_back;
      freight_receipt = freight;
      freight_chargeback = freight_back;
      freight_receipt_after_discount = freight_after;
      skus = skus;
      imported_at = pos 0;
    })

  unfoldable pub add_unsettle_sku :
      TemuProfitUnsettleOrder Float → Row → Import (TemuProfitUnsettleOrder Float)
  unfolding parse_unsettle_sku
  add_unsettle_sku order row = do
    sku ← parse_unsettle_sku row (length order.skus + 1)
    ok (record order { skus = order.skus ++ sku ∷ [] })

  unfoldable pub parse_unsettle_orders : List Row → Import (List (TemuProfitUnsettleOrder Float))
  unfolding require_headers heading_rows order_rows parse_unsettle_order_row add_unsettle_sku
  parse_unsettle_orders rows = do
    _ ← require_headers rows ("PO单号" ∷ "商品信息" ∷ [])
    let start = heading_rows 1 rows
    order_rows parse_unsettle_order_row add_unsettle_sku (suc start) none [] (drop start rows)
