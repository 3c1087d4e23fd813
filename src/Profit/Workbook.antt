-- ===== src/Profit/Workbook.antt =====
-- profit_import.go: parseProfitWorkbook and parseFundDetailWorkbook.
use pangu_sales_manager.Base.{
  ℕ, zero, suc, String, Text, codes, str_eq, List, [], ◌∷◌, ◌++◌, Result, ok, err, ◌>>=◌, wrap,
  if◌then◌else◌, text_eq,
}
use pangu_sales_manager.Profit.Errors.{
  Import, sheet_error, unreadable_sheet, no_known_sheet, unreadable_workbook, no_sheets,
  unrecognized_kind,
}
use pangu_sales_manager.Profit.Numbers.{Formats}
use pangu_sales_manager.Profit.Cells.{Row, sheet_is_empty}
use pangu_sales_manager.Profit.Flat.{
  parse_shipping_label_fees, parse_return_label_fees, parse_buyer_chargebacks,
  append_fulfillment_violations, parse_platform_return_label_fees, parse_disposal_fees,
}
use pangu_sales_manager.Profit.Settled.{parse_settled_flows}
use pangu_sales_manager.Profit.Orders.{parse_settled_parent_orders, parse_unsettle_orders}
use pangu_sales_manager.Profit.Kinds.{detect_profit_file_kind}
use pangu_sales_manager.Profit.Records.{
  ProfitImportBatch, profit_file_shipping_posted, profit_file_shipping_pending,
  profit_file_return_merchant, profit_file_return_third_party, profit_file_fund_detail,
  profit_file_settled_flow, profit_file_settled_parent, profit_file_unsettle, profit_billing_posted,
  profit_billing_pending, profit_return_merchant_warehouse, profit_return_third_party_warehouse,
  profit_violation_fulfillment_delay, profit_violation_fulfillment_false_ship,
}

-- The spreadsheet package: OpenReader on the bytes of a file, GetSheetList and GetRows.
pub record Spreadsheets : Type 1 where
  pub Book : Type 0
  pub open_reader : List ℕ → Result Text Book
  pub get_sheet_list : Book → List Text
  pub get_rows : Book → Text → Result Text (List Row)

-- The location is never nil here: parseProfitUpload sets it.
pub record ProfitParseOptions (Location : Type 0) : Type 0 where
  pub shop_key : String
  pub hint : String
  pub location : Location

unfoldable pub new_batch : {Float : Type 0} → Text → String → ProfitImportBatch Float
new_batch filename kind = record {
  file = filename;
  kind = kind;
  shipping = [];
  returns = [];
  chargebacks = [];
  violations = [];
  platforms = [];
  disposals = [];
  settled = [];
  parents = [];
  unsettles = [];
  warnings = [];
}

module _ (F : Formats) where
  open F use {Float, Location}

  module _ (opts : ProfitParseOptions Location) where
    -- One sheet of the fund details: the batch and how many sheets are known.
    unfoldable pub fund_detail_rows :
        Text → List Row → ℕ × ProfitImportBatch Float → Import (ℕ × ProfitImportBatch Float)
    unfolding text_eq parse_buyer_chargebacks append_fulfillment_violations
        parse_platform_return_label_fees parse_disposal_fees parse_settled_flows sheet_is_empty
    fund_detail_rows sheet rows (known, batch) =
        if text_eq sheet (codes "支出-买家拒付")
        then (parse_buyer_chargebacks F opts.shop_key rows opts.location >>= λ items.
            ok (suc known, record batch { chargebacks = items }))
        else if text_eq sheet (codes "支出-履约违规-1")
        then (append_fulfillment_violations F opts.shop_key batch.violations rows
              profit_violation_fulfillment_delay opts.location
            >>= λ items. ok (suc known, record batch { violations = items }))
        else if text_eq sheet (codes "支出-履约违规-2")
        then (append_fulfillment_violations F opts.shop_key batch.violations rows
              profit_violation_fulfillment_false_ship opts.location
            >>= λ items. ok (suc known, record batch { violations = items }))
        else if text_eq sheet (codes "其他-退货面单费平台承担")
        then (parse_platform_return_label_fees F opts.shop_key rows opts.location >>= λ items.
            ok (suc known, record batch { platforms = items }))
        else if text_eq sheet (codes "支出-处置费")
        then (parse_disposal_fees F opts.shop_key rows opts.location >>= λ items.
            ok (suc known, record batch { disposals = items }))
        else if text_eq sheet (codes "结算")
        then (parse_settled_flows F opts.shop_key rows opts.location >>= λ items.
            ok (suc known, record batch { settled = items }))
        else if sheet_is_empty rows
        then ok (known, batch)
        else ok
            (known, record batch { warnings = batch.warnings ++ (codes "跳过未识别工作表 " ++ sheet) ∷ [] })

    module _ (X : Spreadsheets) (book : X.Book) where
      unfoldable pub fund_detail_sheets :
          List Text → ℕ × ProfitImportBatch Float → Import (ℕ × ProfitImportBatch Float)
      unfolding fund_detail_rows
      fund_detail_sheets [] state = ok state
      fund_detail_sheets (sheet ∷ sheets) state = do
        rows ← wrap (unreadable_sheet sheet) (X.get_rows book sheet)
        state' ← wrap (sheet_error sheet) (fund_detail_rows sheet rows state)
        fund_detail_sheets sheets state'

      unfoldable pub some_known : ℕ × ProfitImportBatch Float → Import (ProfitImportBatch Float)
      some_known (zero, batch) = err no_known_sheet
      some_known (suc known, batch) = ok batch

      unfoldable pub parse_fund_detail_workbook :
          List Text → ProfitImportBatch Float → Import (ProfitImportBatch Float)
      unfolding fund_detail_sheets some_known
      parse_fund_detail_workbook sheets batch = do
        state ← fund_detail_sheets sheets (0, batch)
        some_known state

      -- The switch on the kind.
      unfoldable pub parse_kind :
          String → List Text → List Row → ProfitImportBatch Float → Import (ProfitImportBatch Float)
      unfolding parse_shipping_label_fees parse_return_label_fees parse_settled_flows
          parse_settled_parent_orders parse_unsettle_orders parse_fund_detail_workbook
      parse_kind kind sheets rows batch =
          if str_eq kind profit_file_shipping_posted
          then (parse_shipping_label_fees F opts.shop_key rows profit_billing_posted opts.location
              >>= λ items. ok (record batch { shipping = items }))
          else if str_eq kind profit_file_shipping_pending
          then (parse_shipping_label_fees F opts.shop_key rows profit_billing_pending opts.location
              >>= λ items. ok (record batch { shipping = items }))
          else if str_eq kind profit_file_return_merchant
          then (parse_return_label_fees F opts.shop_key rows profit_return_merchant_warehouse
                opts.location
              >>= λ items. ok (record batch { returns = items }))
          else if str_eq kind profit_file_return_third_party
          then (parse_return_label_fees F opts.shop_key rows profit_return_third_party_warehouse
                opts.location
              >>= λ items. ok (record batch { returns = items }))
          else if str_eq kind profit_file_settled_flow
          then (parse_settled_flows F opts.shop_key rows opts.location >>= λ items.
              ok (record batch { settled = items }))
          else if str_eq kind profit_file_settled_parent
          then (parse_settled_parent_orders F opts.shop_key rows >>= λ items.
              ok (record batch { parents = items }))
          else if str_eq kind profit_file_unsettle
          then (parse_unsettle_orders F opts.shop_key rows >>= λ items.
              ok (record batch { unsettles = items }))
          else if str_eq kind profit_file_fund_detail
          then parse_fund_detail_workbook sheets batch
          else err unrecognized_kind

    module _ (X : Spreadsheets) where
      -- On the sheets of an open workbook.
      unfoldable pub parse_sheets : Text → X.Book → List Text → Import (ProfitImportBatch Float)
      unfolding detect_profit_file_kind parse_kind new_batch
      parse_sheets filename book [] = err no_sheets
      parse_sheets filename book (first ∷ others) = do
        first_rows ← wrap (unreadable_sheet first) (X.get_rows book first)
        kind ← detect_profit_file_kind filename opts.hint (first ∷ others) first_rows
        parse_kind X book kind (first ∷ others) first_rows (new_batch filename kind)

      unfoldable pub parse_profit_workbook : Text → List ℕ → Import (ProfitImportBatch Float)
      unfolding parse_sheets
      parse_profit_workbook filename content = do
        book ← wrap unreadable_workbook (X.open_reader content)
        parse_sheets filename book (X.get_sheet_list book)
