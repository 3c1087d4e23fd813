-- ===== src/Tests/Profit.antt =====
-- Runs of the profit import, over whole numbers for floats and a spreadsheet with one sheet.
use pangu_sales_manager.Base.{
  ℕ, ◌*◌, ℤ, pos, pos_part, lt_ℤ, String, Text, codes, str_eq, Bool, true, false, List, [], ◌∷◌,
  drop, none, some, ok, err, All, ◌≡◌, ◌≢◌, ◌⊎◌, refl,
}
use pangu_sales_manager.Profit.Errors.{unrecognized_kind, ImportError, row_error, not_number}
use pangu_sales_manager.Profit.Numbers.{Formats, parse_int}
use pangu_sales_manager.Profit.Cells.{Row, require_headers}
use pangu_sales_manager.Profit.Settled.{
  settled_flow_headers, heading_rows, settled_row, parse_settled_flows,
}
use pangu_sales_manager.Profit.Located.{IsRowError, parse_settled_flows-IsRowError}
use pangu_sales_manager.Profit.Records.{
  TemuProfitSettledParentSku, TemuProfitSettledParentOrder, TemuProfitUnsettleSku,
  TemuProfitUnsettleOrder, ProfitImportBatch, profit_file_fund_detail, profit_file_unsettle,
}
use pangu_sales_manager.Profit.Orders.{
  parse_settled_parent_order_row, add_settled_parent_sku, parse_settled_parent_orders,
}
use pangu_sales_manager.Profit.Blocks.{Blocks, filled}
use pangu_sales_manager.Profit.Numbered.{IsSettledParent, parse_settled_parent_orders-IsRead}
use pangu_sales_manager.Profit.Kinds.{is_file_kind, detect_profit_file_kind}
use pangu_sales_manager.Profit.Detected.{detect_profit_file_kind-IsKnown}
use pangu_sales_manager.Profit.Workbook.{new_batch, parse_kind, Spreadsheets, ProfitParseOptions}
use pangu_sales_manager.Profit.Upload.{ZipFile, ZipReader, parse_profit_zip, parse_profit_upload}
use pangu_sales_manager.Profit.Owned.{IsOfShop}
use pangu_sales_manager.Profit.Entries.{
  Pairs, importable, ReadsEntry, parse_profit_zip-Pairs, parse_profit_upload-IsOfShop,
}

abbrev pub whole : Formats
whole = record {
  Float = ℤ;
  zero_float = pos 0;
  parse_float = parse_int;
  lt_float = lt_ℤ;
  mul_float = λ a b. pos (pos_part a * pos_part b);
  of_nat = pos;
  int64_of = λ a. a;
  Location = ℕ;
  fixed_zone = λ n. n;
  parse_in_location = λ layout raw loc. none;
  date = λ y m d loc. pos 0;
}

abbrev texts : List String → Row
texts [] = []
texts (s ∷ ss) = codes s ∷ texts ss

abbrev flow_heading : Row
flow_heading = texts ("结算流水ID" ∷ "批次号" ∷ "PO单号" ∷ "单据号" ∷ "交易类型" ∷ "结算金额" ∷ [])

abbrev flow_rows : List Row
flow_rows =
    flow_heading
    ∷ texts ("F1" ∷ "B1" ∷ "PO-1" ∷ "D1" ∷ "sale" ∷ "1,200" ∷ [])
    ∷ texts ("F2" ∷ "B1" ∷ "PO-2" ∷ "D2" ∷ "sale" ∷ "many" ∷ [])
    ∷ []

abbrev flow_error : ImportError
flow_error = row_error 3 (not_number "结算金额" (codes "many"))

parse_settled_flows-IsRowError_example :
    (require_headers flow_rows settled_flow_headers ≡ err flow_error)
    ⊎ IsRowError (settled_row whole "panda-homes" 0) (heading_rows 6 flow_rows) flow_rows flow_error
unfolding parse_settled_flows
parse_settled_flows-IsRowError_example =
    parse_settled_flows-IsRowError whole "panda-homes" flow_rows 0 flow_error refl

-- An order with two SKUs, the second in a row of its own, below two rows of headings.
abbrev parent_rows : List Row
parent_rows =
    texts ("PO单号" ∷ "商品信息" ∷ [])
    ∷ texts ("" ∷ "SKU ID" ∷ [])
    ∷ texts ("PO-1" ∷ "77" ∷ "lamp" ∷ "L-1" ∷ "2" ∷ "500" ∷ "是" ∷ "USD" ∷ "1,000" ∷ [])
    ∷ texts ("" ∷ "" ∷ [])
    ∷ texts ("" ∷ "78" ∷ "shade" ∷ "S-1" ∷ "1" ∷ "300" ∷ "否" ∷ [])
    ∷ []

abbrev parent_sku : ℕ → ℤ → String → String → ℤ → ℤ → Bool → TemuProfitSettledParentSku ℤ
parent_sku n sku name code q price active = record {
  line_no = n;
  sku_id = sku;
  sku_name = codes name;
  sku_ext_code = codes code;
  quantity = q;
  declared_price = price;
  is_activity_price = some active;
}

abbrev parent_order : TemuProfitSettledParentOrder ℤ
parent_order = record {
  shop_key = "panda-homes";
  po_no = codes "PO-1";
  currency = codes "USD";
  sales_receipt = pos 1000;
  sales_receipt_after_discount = pos 0;
  sales_chargeback = pos 0;
  freight_receipt = pos 0;
  freight_receipt_after_discount = pos 0;
  freight_chargeback = pos 0;
  skus =
      parent_sku 1 (pos 77) "lamp" "L-1" (pos 2) (pos 500) true
      ∷ parent_sku 2 (pos 78) "shade" "S-1" (pos 1) (pos 300) false
      ∷ [];
  imported_at = pos 0;
}

parse_settled_parent_orders-IsRead_example :
    Blocks
      (parse_settled_parent_order_row whole "panda-homes")
      (add_settled_parent_sku whole "panda-homes")
      (filled (drop (heading_rows 1 parent_rows) parent_rows))
      (parent_order ∷ [])
    × All (IsSettledParent whole "panda-homes") (parent_order ∷ [])
unfolding parse_settled_parent_orders
parse_settled_parent_orders-IsRead_example =
    parse_settled_parent_orders-IsRead whole "panda-homes" parent_rows (parent_order ∷ []) refl

-- The same order among those that are not settled.
abbrev unsettle_rows : List Row
unsettle_rows =
    texts ("PO单号" ∷ "商品信息" ∷ [])
    ∷ texts ("PO-1" ∷ "77" ∷ "lamp" ∷ "2" ∷ "500" ∷ "USD" ∷ "1,000" ∷ [])
    ∷ texts ("" ∷ "78" ∷ "shade" ∷ "1" ∷ "300" ∷ [])
    ∷ []

abbrev unsettle_sku : ℕ → ℤ → String → ℤ → ℤ → TemuProfitUnsettleSku ℤ
unsettle_sku n sku name q price = record {
  line_no = n;
  sku_id = sku;
  sku_name = codes name;
  quantity = q;
  declared_price = price;
}

abbrev unsettle_order : TemuProfitUnsettleOrder ℤ
unsettle_order = record {
  shop_key = "panda-homes";
  po_no = codes "PO-1";
  currency = codes "USD";
  sales_receipt = pos 1000;
  sales_receipt_after_discount = pos 0;
  sales_chargeback = pos 0;
  freight_receipt = pos 0;
  freight_chargeback = pos 0;
  freight_receipt_after_discount = pos 0;
  skus =
      unsettle_sku 1 (pos 77) "lamp" (pos 2) (pos 500)
      ∷ unsettle_sku 2 (pos 78) "shade" (pos 1) (pos 300)
      ∷ [];
  imported_at = pos 0;
}

abbrev fund_name : Text
fund_name = codes "8月账务明细.xlsx"

-- A spreadsheet with the sheet of orders that are not settled, whatever its bytes.
abbrev one_sheet : Spreadsheets
one_sheet = record {
  Book = ℕ;
  open_reader = λ content. ok 0;
  get_sheet_list = λ book. codes "Sheet1" ∷ [];
  get_rows = λ book name. ok unsettle_rows;
}

abbrev entry : String → ZipFile
entry name = record { name = codes name; opened = ok (ok []) }

-- Two entries, of which one is skipped.
abbrev two_entries : List ZipFile
two_entries = entry "__MACOSX/UnsettleFlow.xlsx" ∷ entry "out/UnsettleFlow.xlsx" ∷ []

abbrev reader : ZipReader
reader content = ok two_entries

abbrev options : ProfitParseOptions ℕ
options = record { shop_key = "panda-homes"; hint = ""; location = 28800 }

abbrev unsettle_batch : ProfitImportBatch ℤ
unsettle_batch = record {
  file = codes "UnsettleFlow.xlsx";
  kind = profit_file_unsettle;
  shipping = [];
  returns = [];
  chargebacks = [];
  violations = [];
  platforms = [];
  disposals = [];
  settled = [];
  parents = [];
  unsettles = unsettle_order ∷ [];
  warnings = [];
}

parse_profit_zip-Pairs_example :
    (files : List ZipFile) × (reader [] ≡ ok files)
    × Pairs (ReadsEntry whole one_sheet options) (importable files) (unsettle_batch ∷ [])
    × ((unsettle_batch ∷ []) ≢ [])
unfolding parse_profit_zip
parse_profit_zip-Pairs_example =
    parse_profit_zip-Pairs whole one_sheet options reader [] (unsettle_batch ∷ []) refl

parse_profit_upload-IsOfShop_example :
    All (IsOfShop whole "panda-homes") (unsettle_batch ∷ []) × ((unsettle_batch ∷ []) ≢ [])
unfolding parse_profit_upload
parse_profit_upload-IsOfShop_example =
    parse_profit_upload-IsOfShop whole one_sheet reader (codes "aug.zip") [] "panda-homes" "" none
      (unsettle_batch ∷ []) refl

detect_profit_file_kind-IsKnown_example :
    let batch = new_batch fund_name profit_file_fund_detail in
    (is_file_kind profit_file_fund_detail ≡ true)
    × (str_eq "" "" ≡ false → profit_file_fund_detail ≡ "")
    × (parse_kind whole options one_sheet 0 profit_file_fund_detail [] [] batch
        ≢ err unrecognized_kind)
unfolding detect_profit_file_kind
detect_profit_file_kind-IsKnown_example =
    detect_profit_file_kind-IsKnown whole options one_sheet 0 fund_name [] []
      profit_file_fund_detail (new_batch fund_name profit_file_fund_detail) refl
