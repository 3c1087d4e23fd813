-- ===== src/Profit/Detected.antt =====
-- Which kinds detectProfitFileKind gives.
use pangu_sales_manager.Base.{
  codes, text_eq, contains_text, ◌&&◌, String, Text, str_eq, Bool, true, false, not, List, [], ◌∷◌,
  ok, err, Ensures, good, bad, Ensures-if, Ensures-eq, if◌then◌else◌, if_rule, Bool-cases, any, ◌≡◌,
  ◌≢◌, refl, inl, inr, All,
}
use pangu_sales_manager.Profit.Errors.{Import, unknown_kind, unrecognized_kind}
use pangu_sales_manager.Profit.Numbers.{Formats}
use pangu_sales_manager.Profit.Workbook.{Spreadsheets, ProfitParseOptions, parse_kind}
use pangu_sales_manager.Profit.Handled.{parse_kind_handles}
use pangu_sales_manager.Profit.Cells.{Row, cell, header_has, contains_any}
use pangu_sales_manager.Profit.Paths.{path_base}
use pangu_sales_manager.Profit.Records.{
  ProfitImportBatch, profit_file_shipping_posted, profit_file_shipping_pending,
  profit_file_return_merchant, profit_file_return_third_party, profit_file_fund_detail,
  profit_file_settled_flow, profit_file_settled_parent, profit_file_unsettle,
}
use pangu_sales_manager.Profit.Kinds.{
  has_parent_headings, is_file_kind, kind_from_name, detect_profit_kind_from_name,
  is_fund_detail_sheet, detect_profit_kind_from_sheets, detect_profit_kind_from_headers, first_kind,
  or_undetected, detect_profit_file_kind,
}

-- The text names a table, or it is empty.
data IsFound (kind : String) : Type 0 where
  nothing : str_eq kind "" ≡ true → IsFound kind
  table : is_file_kind kind ≡ true → IsFound kind

-- A test for a table, and what is found if it fails.
found_if :
    (b : Bool) (kind : String) {rest : String}
    → is_file_kind kind ≡ true
    → IsFound rest
    → IsFound (if b then kind else rest)
found_if b kind h k = if_rule IsFound b (λ _. table h) (λ _. k)

name_found : (base : Text) → IsFound (kind_from_name base)
unfolding kind_from_name is_file_kind
name_found base =
    (found_if (contains_any base ("SettledParentFlow" ∷ "po聚合" ∷ [])) profit_file_settled_parent
      refl
      (found_if (contains_any base ("SettledFlow" ∷ "PO明细" ∷ [])) profit_file_settled_flow refl (
        found_if (contains_any base ("UnsettleFlow" ∷ "待处理款项" ∷ [])) profit_file_unsettle refl (
          found_if (contains_any base ("FundDetail" ∷ "账务明细" ∷ [])) profit_file_fund_detail refl (
            found_if (contains_text (codes "发货面单费") base && contains_text (codes "已出账") base)
              profit_file_shipping_posted refl
              (found_if (contains_text (codes "发货面单费") base && contains_text (codes "待出账") base)
                profit_file_shipping_pending refl
                (found_if (contains_text (codes "退至商家仓") base) profit_file_return_merchant refl (
                  found_if (contains_text (codes "退至第三方仓") base) profit_file_return_third_party refl
                    (nothing refl)))))))))

sheets_found : (sheets : List Text) → IsFound (detect_profit_kind_from_sheets sheets)
unfolding detect_profit_kind_from_sheets is_file_kind
sheets_found sheets =
    found_if (any is_fund_detail_sheet sheets) profit_file_fund_detail refl (nothing refl)

headers_found : (rows : List Row) → IsFound (detect_profit_kind_from_headers rows)
unfolding detect_profit_kind_from_headers is_file_kind
headers_found [] = nothing refl
headers_found (head ∷ rows) =
    found_if (text_eq (cell head 0) (codes "结算流水ID")) profit_file_settled_flow refl (
      if_rule IsFound (not (text_eq (cell head 0) (codes "PO单号"))) (λ _. nothing refl)
        (λ _.
          (found_if (has_parent_headings rows) profit_file_settled_parent refl (
            found_if
              (text_eq (cell head 0) (codes "PO单号") && contains_any (cell head 6) ("销售回款" ∷ []))
              profit_file_unsettle refl
              (found_if (header_has head "销售回款" && not (header_has head "是否活动价"))
                profit_file_unsettle refl (nothing refl))))))

is_table : (kind : String) → str_eq kind "" ≡ false → IsFound kind → is_file_kind kind ≡ true
is_table kind e (nothing h) = cc
is_table kind e (table h) = h

first_found :
    (filename : Text) (kinds : List String)
    → All IsFound kinds
    → Ensures (λ kind. is_file_kind kind ≡ true) (or_undetected filename (first_kind kinds))
unfolding first_kind
first_found filename [] h = bad
first_found filename (kind ∷ kinds) h = elim (Bool-cases (str_eq kind "")) [
  | inl e ↦ rw e (first_found filename kinds h.1)
  | inr e ↦ rw e (good (is_table kind e h.0))
]

-- A hint is kept, or refused; without one the kind is that of a table too.
abbrev IsDetected : String → String → Type 0
IsDetected hint kind = (is_file_kind kind ≡ true) × (str_eq hint "" ≡ false → kind ≡ hint)

hinted :
    (hint : String)
    → Ensures (IsDetected hint) (if is_file_kind hint then ok hint else err (unknown_kind hint))
hinted hint = Ensures-if _ (is_file_kind hint) (λ e. good (e, λ _. refl)) (λ _. bad)

weaken :
    (hint : String) (r : Import String)
    → str_eq hint "" ≡ true
    → Ensures (λ kind. is_file_kind kind ≡ true) r
    → Ensures (IsDetected hint) r
weaken hint (ok kind) e (good h) = good (h, λ n. cc)
weaken hint (err d) e h = bad

detect-Ensures :
    (filename : Text) (hint : String) (sheets : List Text) (rows : List Row)
    → Ensures (IsDetected hint) (detect_profit_file_kind filename hint sheets rows)
unfolding detect_profit_file_kind detect_profit_kind_from_name
detect-Ensures filename hint sheets rows = elim (Bool-cases (str_eq hint "")) [
  | inl e ↦ rw e (
      weaken hint _ e (
        first_found filename
          (detect_profit_kind_from_name filename
            ∷ detect_profit_kind_from_sheets sheets
            ∷ detect_profit_kind_from_headers rows
            ∷ [])
          (name_found (path_base filename), (sheets_found sheets, (headers_found rows, tt)))))
  | inr e ↦ rw e (hinted hint)
]

module _ (F : Formats) (opts : ProfitParseOptions F.Location) (X : Spreadsheets)
    (book : X.Book) where
  -- Where detectProfitFileKind gives a kind, it is the key of a label, it is the hint if there is one,
  -- and the switch of parseProfitWorkbook has a case for it: parsing the sheets of a workbook as that
  -- kind never ends with the error for a file type that is not recognised.
  pub detect_profit_file_kind-IsKnown :
      (filename : Text) (sheets : List Text) (rows : List Row) (kind : String)
      (batch : ProfitImportBatch F.Float)
      → detect_profit_file_kind filename opts.hint sheets rows ≡ ok kind
      → (is_file_kind kind ≡ true)
        × (str_eq opts.hint "" ≡ false → kind ≡ opts.hint)
        × (parse_kind F opts X book kind sheets rows batch ≢ err unrecognized_kind)
  detect_profit_file_kind-IsKnown filename sheets rows kind batch h =
      let (known, hinted) = Ensures-eq _ _ (detect-Ensures filename opts.hint sheets rows) h in
      (known, hinted, parse_kind_handles F opts X book kind sheets rows batch known)
