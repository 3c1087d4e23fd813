-- ===== src/Profit/Shop.antt =====
-- Every record of an upload is of the shop that the upload is for.
use pangu_sales_manager.Base.{
  str_eq, text_eq, codes, ℕ, zero, suc, String, Text, List, [], ◌∷◌, wrap, Ensures, good, bad,
  Ensures-bind as step, Ensures-bind_of as step_of, on◌by◌otherwise◌, Ensures-of, Ensures-wrap, All,
}
use pangu_sales_manager.Profit.Errors.{sheet_error, unreadable_sheet, unreadable_workbook}
use pangu_sales_manager.Profit.Numbers.{Formats}
use pangu_sales_manager.Profit.Cells.{Row, sheet_is_empty}
use pangu_sales_manager.Profit.Kinds.{detect_profit_file_kind}
use pangu_sales_manager.Profit.Records.{
  profit_file_shipping_posted, profit_file_shipping_pending, profit_file_return_merchant,
  profit_file_return_third_party, profit_file_fund_detail, profit_file_settled_flow,
  profit_file_settled_parent, profit_file_unsettle, ProfitImportBatch,
}
use pangu_sales_manager.Profit.Ownership.{
  parse_shipping_label_fees_of_shop, parse_return_label_fees_of_shop,
  parse_buyer_chargebacks_of_shop, append_fulfillment_violations_of_shop,
  parse_platform_return_label_fees_of_shop, parse_disposal_fees_of_shop,
  parse_settled_flows_of_shop,
}
use pangu_sales_manager.Profit.Owned.{
  IsOfShop, new_batch-IsOfShop, with_warnings, with_shipping, with_returns, with_chargebacks,
  with_violations, with_platforms, with_disposals, with_settled, with_parents, with_unsettles,
}
use pangu_sales_manager.Profit.Numbered.{
  IsSettledParent, IsUnsettle, parse_settled_parent_orders-IsRead, parse_unsettle_orders-IsRead,
}
use pangu_sales_manager.Profit.Orders.{parse_settled_parent_orders, parse_unsettle_orders}
use pangu_sales_manager.Profit.Workbook.{
  Spreadsheets, ProfitParseOptions, new_batch, fund_detail_rows, fund_detail_sheets, some_known,
  parse_fund_detail_workbook, parse_kind, parse_sheets, parse_profit_workbook,
}

module _ (F : Formats) where
  open F use {Float, Location}

  module _ (opts : ProfitParseOptions Location) where
    abbrev Good : ProfitImportBatch Float → Type 0
    Good batch = IsOfShop F opts.shop_key batch

    abbrev GoodState : ℕ × ProfitImportBatch Float → Type 0
    GoodState state = Good state.1

    fund_detail_rows-Good :
        (sheet : Text) (rows : List Row) (known : ℕ) (batch : ProfitImportBatch Float)
        → Good batch
        → Ensures GoodState (fund_detail_rows F opts sheet rows (known, batch))
    unfolding fund_detail_rows
    fund_detail_rows-Good sheet rows known batch h =
        on (text_eq sheet (codes "支出-买家拒付"))
        by step_of _ _ _ _ (parse_buyer_chargebacks_of_shop F opts.shop_key rows opts.location)
            (λ items q. good (with_chargebacks F batch items h q))
        otherwise on (text_eq sheet (codes "支出-履约违规-1"))
        by step_of _ _ _ _
            (append_fulfillment_violations_of_shop F opts.shop_key batch.violations rows _
              opts.location h.violations)
            (λ items q. good (with_violations F batch items h q))
        otherwise on (text_eq sheet (codes "支出-履约违规-2"))
        by step_of _ _ _ _
            (append_fulfillment_violations_of_shop F opts.shop_key batch.violations rows _
              opts.location h.violations)
            (λ items q. good (with_violations F batch items h q))
        otherwise on (text_eq sheet (codes "其他-退货面单费平台承担"))
        by step_of _ _ _ _
            (parse_platform_return_label_fees_of_shop F opts.shop_key rows opts.location)
            (λ items q. good (with_platforms F batch items h q))
        otherwise on (text_eq sheet (codes "支出-处置费"))
        by step_of _ _ _ _ (parse_disposal_fees_of_shop F opts.shop_key rows opts.location)
            (λ items q. good (with_disposals F batch items h q))
        otherwise on (text_eq sheet (codes "结算"))
        by step_of _ _ _ _ (parse_settled_flows_of_shop F opts.shop_key rows opts.location)
            (λ items q. good (with_settled F batch items h q))
        otherwise on (sheet_is_empty rows)
        by good h
        otherwise good (with_warnings F batch _ h)

    parents_of_shop :
        (rows : List Row)
        → Ensures
            (All (IsSettledParent F opts.shop_key))
            (parse_settled_parent_orders F opts.shop_key rows)
    parents_of_shop rows =
        Ensures-of _ _
          λ orders e. (parse_settled_parent_orders-IsRead F opts.shop_key rows orders e).1

    unsettles_of_shop :
        (rows : List Row)
        → Ensures (All (IsUnsettle F opts.shop_key)) (parse_unsettle_orders F opts.shop_key rows)
    unsettles_of_shop rows =
        Ensures-of _ _ λ orders e. (parse_unsettle_orders-IsRead F opts.shop_key rows orders e).1

    module _ (X : Spreadsheets) (book : X.Book) where
      fund_detail_sheets-Good :
          (sheets : List Text) (known : ℕ) (batch : ProfitImportBatch Float)
          → Good batch
          → Ensures GoodState (fund_detail_sheets F opts X book sheets (known, batch))
      unfolding fund_detail_sheets
      fund_detail_sheets-Good [] known batch h = good h
      fund_detail_sheets-Good (sheet ∷ sheets) known batch h =
          step _ (wrap (unreadable_sheet sheet) (X.get_rows book sheet)) _ λ rows.
            step_of _ GoodState _ _
              (Ensures-wrap GoodState (sheet_error sheet)
                (fund_detail_rows-Good sheet rows known batch h))
              λ state q. fund_detail_sheets-Good sheets state.0 state.1 q

      some_known-Good :
          (known : ℕ) (batch : ProfitImportBatch Float)
          → Good batch
          → Ensures Good (some_known F opts X book (known, batch))
      unfolding some_known
      some_known-Good zero batch h = bad
      some_known-Good (suc known) batch h = good h

      parse_fund_detail_workbook-Good :
          (sheets : List Text) (batch : ProfitImportBatch Float)
          → Good batch
          → Ensures Good (parse_fund_detail_workbook F opts X book sheets batch)
      unfolding parse_fund_detail_workbook
      parse_fund_detail_workbook-Good sheets batch h =
          step_of _ GoodState _ _ (fund_detail_sheets-Good sheets 0 batch h)
            λ state q. some_known-Good state.0 state.1 q

      parse_kind-Good :
          (kind : String) (sheets : List Text) (rows : List Row) (batch : ProfitImportBatch Float)
          → Good batch
          → Ensures Good (parse_kind F opts X book kind sheets rows batch)
      unfolding parse_kind
      parse_kind-Good kind sheets rows batch h =
          on (str_eq kind profit_file_shipping_posted)
          by step_of _ _ _ _
              (parse_shipping_label_fees_of_shop F opts.shop_key rows _ opts.location)
              (λ items q. good (with_shipping F batch items h q))
          otherwise on (str_eq kind profit_file_shipping_pending)
          by step_of _ _ _ _
              (parse_shipping_label_fees_of_shop F opts.shop_key rows _ opts.location)
              (λ items q. good (with_shipping F batch items h q))
          otherwise on (str_eq kind profit_file_return_merchant)
          by step_of _ _ _ _ (parse_return_label_fees_of_shop F opts.shop_key rows _ opts.location)
              (λ items q. good (with_returns F batch items h q))
          otherwise on (str_eq kind profit_file_return_third_party)
          by step_of _ _ _ _ (parse_return_label_fees_of_shop F opts.shop_key rows _ opts.location)
              (λ items q. good (with_returns F batch items h q))
          otherwise on (str_eq kind profit_file_settled_flow)
          by step_of _ _ _ _ (parse_settled_flows_of_shop F opts.shop_key rows opts.location)
              (λ items q. good (with_settled F batch items h q))
          otherwise on (str_eq kind profit_file_settled_parent)
          by step_of _ _ _ _ (parents_of_shop rows)
              (λ items q. good (with_parents F batch items h q))
          otherwise on (str_eq kind profit_file_unsettle)
          by step_of _ _ _ _ (unsettles_of_shop rows)
              (λ items q. good (with_unsettles F batch items h q))
          otherwise on (str_eq kind profit_file_fund_detail)
          by parse_fund_detail_workbook-Good sheets batch h
          otherwise bad

    module _ (X : Spreadsheets) where
      parse_sheets-Good :
          (filename : Text) (book : X.Book) (sheets : List Text)
          → Ensures Good (parse_sheets F opts X filename book sheets)
      unfolding parse_sheets
      parse_sheets-Good filename book [] = bad
      parse_sheets-Good filename book (first ∷ others) =
          step _ (wrap (unreadable_sheet first) (X.get_rows book first)) _ λ rows.
            step _ (detect_profit_file_kind filename opts.hint (first ∷ others) rows) _ λ kind.
              parse_kind-Good X book kind (first ∷ others) rows (new_batch filename kind)
                (new_batch-IsOfShop F opts.shop_key filename kind)

      pub parse_profit_workbook-Good :
          (filename : Text) (content : List ℕ)
          → Ensures Good (parse_profit_workbook F opts X filename content)
      unfolding parse_profit_workbook
      parse_profit_workbook-Good filename content =
          step _ (wrap unreadable_workbook (X.open_reader content)) _
            λ book. parse_sheets-Good filename book (X.get_sheet_list book)
