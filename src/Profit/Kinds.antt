-- ===== src/Profit/Kinds.antt =====
-- profit_import.go: which sheet a file is, from the hint, its name, its sheets or its headings.
use pangu_sales_manager.Base.{
  String, Text, codes, str_eq, Bool, false, not, ◌&&◌, ◌||◌, List, [], ◌∷◌, Option, none, some, ok,
  err, if◌then◌else◌, any, text_eq, contains_text,
}
use pangu_sales_manager.Profit.Errors.{Import, unknown_kind, undetected_kind}
use pangu_sales_manager.Profit.Cells.{Row, cell, header_has, contains_any}
use pangu_sales_manager.Profit.Paths.{path_base}
use pangu_sales_manager.Profit.Records.{
  profit_file_shipping_posted, profit_file_shipping_pending, profit_file_return_merchant,
  profit_file_return_third_party, profit_file_fund_detail, profit_file_settled_flow,
  profit_file_settled_parent, profit_file_unsettle,
}

-- The keys of profitFileLabels with their labels.
abbrev pub profit_file_labels : List (String × String)
profit_file_labels =
    (profit_file_shipping_posted, "发货面单费-已出账")
    ∷ (profit_file_shipping_pending, "发货面单费-待出账")
    ∷ (profit_file_return_merchant, "退货面单费-退至商家仓")
    ∷ (profit_file_return_third_party, "退货面单费-退至第三方仓")
    ∷ (profit_file_fund_detail, "对账中心-账务明细")
    ∷ (profit_file_settled_flow, "结算数据-已到账款项-PO明细账单")
    ∷ (profit_file_settled_parent, "结算数据-已到账款项-po聚合账单")
    ∷ (profit_file_unsettle, "结算数据-待处理款项")
    ∷ []

-- Whether the map has the key.
unfoldable pub is_file_kind : String → Bool
is_file_kind kind = any (λ (e : String × String). str_eq kind e.0) profit_file_labels

unfoldable pub kind_from_name : Text → String
unfolding contains_any contains_text
kind_from_name base =
    if contains_any base ("SettledParentFlow" ∷ "po聚合" ∷ [])
    then profit_file_settled_parent
    else if contains_any base ("SettledFlow" ∷ "PO明细" ∷ [])
    then profit_file_settled_flow
    else if contains_any base ("UnsettleFlow" ∷ "待处理款项" ∷ [])
    then profit_file_unsettle
    else if contains_any base ("FundDetail" ∷ "账务明细" ∷ [])
    then profit_file_fund_detail
    else if contains_text (codes "发货面单费") base && contains_text (codes "已出账") base
    then profit_file_shipping_posted
    else if contains_text (codes "发货面单费") base && contains_text (codes "待出账") base
    then profit_file_shipping_pending
    else if contains_text (codes "退至商家仓") base
    then profit_file_return_merchant
    else if contains_text (codes "退至第三方仓") base
    then profit_file_return_third_party
    else ""

unfoldable pub detect_profit_kind_from_name : Text → String
unfolding kind_from_name path_base
detect_profit_kind_from_name name = kind_from_name (path_base name)

unfoldable pub is_fund_detail_sheet : Text → Bool
unfolding text_eq contains_text
is_fund_detail_sheet name =
    text_eq name (codes "支出-买家拒付")
    || text_eq name (codes "结算")
    || contains_text (codes "履约违规") name
    || contains_text (codes "退货面单费平台承担") name

unfoldable pub detect_profit_kind_from_sheets : List Text → String
unfolding is_fund_detail_sheet
detect_profit_kind_from_sheets sheets =
    if any is_fund_detail_sheet sheets then profit_file_fund_detail else ""

-- `len(rows) > 1 && (...)` on the rows after the first.
unfoldable pub has_parent_headings : List Row → Bool
unfolding cell text_eq
has_parent_headings [] = false
has_parent_headings (row ∷ rows) =
    text_eq (cell row 3) (codes "SKU货号") || text_eq (cell row 5) (codes "是否活动价")

unfoldable pub detect_profit_kind_from_headers : List Row → String
unfolding cell text_eq has_parent_headings contains_any header_has
detect_profit_kind_from_headers [] = ""
detect_profit_kind_from_headers (head ∷ rows) =
    if text_eq (cell head 0) (codes "结算流水ID")
    then profit_file_settled_flow
    else if not (text_eq (cell head 0) (codes "PO单号"))
    then ""
    else if has_parent_headings rows
    then profit_file_settled_parent
    else if text_eq (cell head 0) (codes "PO单号") && contains_any (cell head 6) ("销售回款" ∷ [])
    then profit_file_unsettle
    else if header_has head "销售回款" && not (header_has head "是否活动价")
    then profit_file_unsettle
    else ""

-- The first text that is not empty.
unfoldable pub first_kind : List String → Option String
first_kind [] = none
first_kind (kind ∷ kinds) =
    let rest = first_kind kinds in if str_eq kind "" then rest else some kind

abbrev pub or_undetected : Text → Option String → Import String
or_undetected filename none = err (undetected_kind filename)
or_undetected filename (some kind) = ok kind

unfoldable pub detect_profit_file_kind : Text → String → List Text → List Row → Import String
unfolding is_file_kind detect_profit_kind_from_name detect_profit_kind_from_sheets
    detect_profit_kind_from_headers first_kind
detect_profit_file_kind filename hint sheets first_rows =
    if not (str_eq hint "")
    then (if is_file_kind hint then ok hint else err (unknown_kind hint))
    else or_undetected filename (
        first_kind (
          detect_profit_kind_from_name filename
          ∷ detect_profit_kind_from_sheets sheets
          ∷ detect_profit_kind_from_headers first_rows
          ∷ []))
