-- ===== src/Profit/Handled.antt =====
-- parseProfitWorkbook has a case for every table: its last error is never reached for one.
use pangu_sales_manager.Base.{
  ℕ, suc, String, Text, str_eq, Bool, true, false, List, [], ◌∷◌, drop, Option, none, some, Result,
  ok, err, ◌>>=◌, wrap, codes, is_empty, not, ◌&&◌, contains_text, text_eq, if◌then◌else◌, if_rule,
  Bool-cases, inl, inr, ◌≡◌, ◌≢◌, refl, zero, arith,
}
use pangu_sales_manager.Profit.Errors.{
  ImportError, wrong_header, Import, row_error, sheet_error, unreadable_sheet, unrecognized_kind,
}
use pangu_sales_manager.Profit.Numbers.{Formats}
use pangu_sales_manager.Profit.Cells.{Row, cell, row_empty, require_headers, check_headers}
use pangu_sales_manager.Profit.Kinds.{is_file_kind}
use pangu_sales_manager.Profit.Flat.{
  each_row, shipping_row, return_row, parse_shipping_label_fees, parse_return_label_fees,
}
use pangu_sales_manager.Profit.Settled.{settled_row, heading_rows, parse_settled_flows}
use pangu_sales_manager.Profit.Orders.{
  order_rows, parse_settled_parent_order_row, add_settled_parent_sku, parse_unsettle_order_row,
  add_unsettle_sku, parse_settled_parent_orders, parse_unsettle_orders,
}
use pangu_sales_manager.Profit.Records.{
  ProfitImportBatch, profit_file_shipping_posted, profit_file_shipping_pending,
  profit_file_return_merchant, profit_file_return_third_party, profit_file_fund_detail,
  profit_file_settled_flow, profit_file_settled_parent, profit_file_unsettle,
}
use pangu_sales_manager.Profit.Workbook.{
  Spreadsheets, ProfitParseOptions, fund_detail_sheets, some_known, parse_fund_detail_workbook,
  parse_kind,
}

-- A value, or an error that is not the one for a kind without a parser.
data IsHandled {A : Type 0} : Import A → Type 0 where
  read : {a : A} → IsHandled (ok a)
  failed : {e : ImportError} → e ≢ unrecognized_kind → IsHandled (err e)

IsHandled-ne : {A : Type 0} (r : Import A) → IsHandled r → r ≢ err unrecognized_kind
IsHandled-ne (ok a) h p = cc
IsHandled-ne (err e) (failed h) p = h cc

chain-IsHandled :
    {A B : Type 0} (m : Import A) (f : A → Import B)
    → IsHandled m
    → ((a : A) → IsHandled (f a))
    → IsHandled (m >>= f)
chain-IsHandled (ok a) f h k = k a
chain-IsHandled (err e) f (failed h) k = failed h

wrap-IsHandled :
    {A E : Type 0} (f : E → ImportError) (r : Result E A)
    → ((e : E) → f e ≢ unrecognized_kind)
    → IsHandled (wrap f r)
wrap-IsHandled f (ok a) h = read
wrap-IsHandled f (err e) h = failed (h e)

if-IsHandled :
    {A : Type 0} (b : Bool) {r s : Import A}
    → IsHandled r
    → (b ≡ false → IsHandled s)
    → IsHandled (if b then r else s)
if-IsHandled true h k = h
if-IsHandled false h k = k refl

wrong-ne : (n : ℕ) (prefix : String) (got : Text) → wrong_header n prefix got ≢ unrecognized_kind
wrong-ne n prefix got p = cc

check_headers-IsHandled :
    (row : Row) (n : ℕ) (prefixes : List String) → IsHandled (check_headers row n prefixes)
unfolding check_headers
check_headers-IsHandled row n [] = read
check_headers-IsHandled row n (prefix ∷ prefixes) =
    if_rule IsHandled
      (not (is_empty (codes prefix))
        && not (contains_text (codes prefix) (cell row n))
        && not (text_eq (cell row n) (codes prefix)))
      (λ _. failed (wrong-ne (suc n) prefix (cell row n)))
      (λ _. check_headers-IsHandled row (suc n) prefixes)

require_headers-IsHandled :
    (rows : List Row) (prefixes : List String) → IsHandled (require_headers rows prefixes)
unfolding require_headers
require_headers-IsHandled [] prefixes = failed (λ p. cc)
require_headers-IsHandled (row ∷ rows) prefixes = check_headers-IsHandled row 0 prefixes

each_row-IsHandled :
    {A : Type 0} (parse : Row → Import (Option A)) (number : ℕ) (rows : List Row)
    → IsHandled (each_row parse number rows)
unfolding each_row
each_row-IsHandled parse number [] = read
each_row-IsHandled parse number (row ∷ rows) =
    chain-IsHandled _ _ (wrap-IsHandled (row_error number) (parse row) (λ e p. cc))
      λ item. chain-IsHandled _ _ (each_row-IsHandled parse (suc number) rows) λ items. read

order_rows-IsHandled :
    {A : Type 0} (start_order : Row → Import A) (add_row : A → Row → Import A) (number : ℕ)
    (current : Option A) (out : List A) (rows : List Row)
    → IsHandled (order_rows start_order add_row number current out rows)
unfolding order_rows
order_rows-IsHandled start_order add_row number current out [] = read
order_rows-IsHandled start_order add_row number current out (row ∷ rows) =
    elim (Bool-cases (row_empty row)) [
      | inl y ↦
          rw (y, order_rows)
            (order_rows-IsHandled start_order add_row (suc number) current out rows)
      | inr n ↦
          rw (n, order_rows)
            (chain-IsHandled _ _ (wrap-IsHandled (row_error number) _ (λ e p. cc))
              λ order. order_rows-IsHandled start_order add_row (suc number) (some order) _ rows)
    ]

module _ (F : Formats) where
  open F use {Float, Location}

  module _ (opts : ProfitParseOptions Location) (rows : List Row) where
    shipping-IsHandled :
        (phase : String)
        → IsHandled (parse_shipping_label_fees F opts.shop_key rows phase opts.location)
    unfolding parse_shipping_label_fees
    shipping-IsHandled phase =
        chain-IsHandled _ _ (require_headers-IsHandled rows _)
          λ u. each_row-IsHandled (shipping_row F opts.shop_key phase opts.location) 2 (drop 1 rows)

    returns-IsHandled :
        (destination : String)
        → IsHandled (parse_return_label_fees F opts.shop_key rows destination opts.location)
    unfolding parse_return_label_fees
    returns-IsHandled destination = chain-IsHandled _ _ (require_headers-IsHandled rows _) λ u.
        each_row-IsHandled (return_row F opts.shop_key destination opts.location) 2 (drop 1 rows)

    settled-IsHandled : IsHandled (parse_settled_flows F opts.shop_key rows opts.location)
    unfolding parse_settled_flows
    settled-IsHandled = chain-IsHandled _ _ (require_headers-IsHandled rows _) λ u.
        each_row-IsHandled (settled_row F opts.shop_key opts.location) (suc (heading_rows 6 rows))
          (drop (heading_rows 6 rows) rows)

    parents-IsHandled : IsHandled (parse_settled_parent_orders F opts.shop_key rows)
    unfolding parse_settled_parent_orders
    parents-IsHandled = chain-IsHandled _ _ (require_headers-IsHandled rows _) λ u.
        order_rows-IsHandled (parse_settled_parent_order_row F opts.shop_key)
          (add_settled_parent_sku F opts.shop_key) (suc (heading_rows 1 rows)) none []
          (drop (heading_rows 1 rows) rows)

    unsettles-IsHandled : IsHandled (parse_unsettle_orders F opts.shop_key rows)
    unfolding parse_unsettle_orders
    unsettles-IsHandled = chain-IsHandled _ _ (require_headers-IsHandled rows _) λ u.
        order_rows-IsHandled (parse_unsettle_order_row F opts.shop_key)
          (add_unsettle_sku F opts.shop_key) (suc (heading_rows 1 rows)) none []
          (drop (heading_rows 1 rows) rows)

  module _ (opts : ProfitParseOptions Location) (X : Spreadsheets) (book : X.Book) where
    sheets-IsHandled :
        (sheets : List Text) (state : ℕ × ProfitImportBatch Float)
        → IsHandled (fund_detail_sheets F opts X book sheets state)
    unfolding fund_detail_sheets
    sheets-IsHandled [] state = read
    sheets-IsHandled (sheet ∷ sheets) state =
        chain-IsHandled _ _
          (wrap-IsHandled (unreadable_sheet sheet) (X.get_rows book sheet) (λ e p. cc))
          λ rows.
            chain-IsHandled _ _ (wrap-IsHandled (sheet_error sheet) _ (λ e p. cc))
              λ state'. sheets-IsHandled sheets state'

    known-IsHandled :
        (state : ℕ × ProfitImportBatch Float) → IsHandled (some_known F opts X book state)
    unfolding some_known
    known-IsHandled (zero, batch) = failed (λ p. cc)
    known-IsHandled (suc n, batch) = read

    fund_detail-IsHandled :
        (sheets : List Text) (batch : ProfitImportBatch Float)
        → IsHandled (parse_fund_detail_workbook F opts X book sheets batch)
    unfolding parse_fund_detail_workbook
    fund_detail-IsHandled sheets batch =
        chain-IsHandled _ _ (sheets-IsHandled sheets (0, batch)) known-IsHandled

    kind-IsHandled :
        (kind : String) (sheets : List Text) (rows : List Row) (batch : ProfitImportBatch Float)
        → is_file_kind kind ≡ true
        → IsHandled (parse_kind F opts X book kind sheets rows batch)
    unfolding parse_kind is_file_kind
    kind-IsHandled kind sheets rows batch h =
        if-IsHandled (str_eq kind profit_file_shipping_posted)
          (chain-IsHandled _ _ (shipping-IsHandled opts rows _) λ _. read)
          λ a.
            if-IsHandled (str_eq kind profit_file_shipping_pending)
              (chain-IsHandled _ _ (shipping-IsHandled opts rows _) λ _. read)
              λ b.
                if-IsHandled (str_eq kind profit_file_return_merchant)
                  (chain-IsHandled _ _ (returns-IsHandled opts rows _) λ _. read)
                  λ c.
                    if-IsHandled (str_eq kind profit_file_return_third_party)
                      (chain-IsHandled _ _ (returns-IsHandled opts rows _) λ _. read)
                      λ d.
                        if-IsHandled (str_eq kind profit_file_settled_flow)
                          (chain-IsHandled _ _ (settled-IsHandled opts rows) λ _. read)
                          λ e.
                            if-IsHandled (str_eq kind profit_file_settled_parent)
                              (chain-IsHandled _ _ (parents-IsHandled opts rows) λ _. read)
                              λ f.
                                if-IsHandled (str_eq kind profit_file_unsettle)
                                  (chain-IsHandled _ _ (unsettles-IsHandled opts rows) λ _. read)
                                  λ g.
                                    if-IsHandled (str_eq kind profit_file_fund_detail)
                                      (fund_detail-IsHandled sheets batch)
                                      λ i. absurd (ground (arith, h, a, b, c, d, e, f, g, i))

    -- For a table the switch has a case.
    pub parse_kind_handles :
        (kind : String) (sheets : List Text) (rows : List Row) (batch : ProfitImportBatch Float)
        → is_file_kind kind ≡ true
        → parse_kind F opts X book kind sheets rows batch ≢ err unrecognized_kind
    parse_kind_handles kind sheets rows batch h =
        IsHandled-ne _ (kind-IsHandled kind sheets rows batch h)
