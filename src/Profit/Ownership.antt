-- ===== src/Profit/Ownership.antt =====
-- Every record of a sheet with one record to a row is of the shop that the sheet is read for.
use pangu_sales_manager.Base.{
  ℕ, suc, String, List, [], ◌∷◌, drop, Option, none, some, Ensures, good, Ensures-bind as step,
  Ensures-bind_of as step_of, Ensures-if, Ensures-wrap, if_rule, is_empty, All, All-append, ◌≡◌,
  refl, ◌&&◌,
}
use pangu_sales_manager.Profit.Errors.{Import, row_error}
use pangu_sales_manager.Profit.Numbers.{
  Formats, parse_required_float, parse_optional_float, parse_optional_float_or_zero,
  parse_optional_int64, parse_optional_bool, parse_profit_time, parse_required_int64,
  parse_optional_int,
}
use pangu_sales_manager.Profit.Cells.{Row, cell, row_empty, require_headers}
use pangu_sales_manager.Profit.Flat.{
  push, each_row, skipped, keep_shipping, shipping_row, parse_shipping_label_fees, return_row,
  parse_return_label_fees, chargeback_row, parse_buyer_chargebacks, violation_row,
  append_fulfillment_violations, platform_row, parse_platform_return_label_fees, disposal_row,
  parse_disposal_fees,
}
use pangu_sales_manager.Profit.Settled.{settled_row, parse_settled_flows, heading_rows}
use pangu_sales_manager.Profit.Records.{
  TemuProfitShippingLabelFee, TemuProfitReturnLabelFee, TemuProfitBuyerChargeback,
  TemuProfitFulfillmentViolation, TemuProfitPlatformReturnLabelFee, TemuProfitDisposalFee,
  TemuProfitSettledFlow,
}

module _ {A : Type 0} where
  abbrev Holds : (A → Type 0) → Option A → Type 0
  Holds P none = Unit
  Holds P (some a) = P a

  All-push :
      (P : A → Type 0) (item : Option A) (rest : List A)
      → Holds P item
      → All P rest
      → All P (push item rest)
  All-push P none rest h k = k
  All-push P (some a) rest h k = (h, k)

  each_row-Ensures :
      (P : A → Type 0) (parse : Row → Import (Option A))
      → ((row : Row) → Ensures (Holds P) (parse row))
      → (number : ℕ) (rows : List Row) → Ensures (All P) (each_row parse number rows)
  unfolding each_row
  each_row-Ensures P parse f number [] = good tt
  each_row-Ensures P parse f number (row ∷ rows) =
      step_of _ (Holds P) _ _ (Ensures-wrap (Holds P) (row_error number) (f row)) λ item p.
        step_of _ (All P) _ _ (each_row-Ensures P parse f (suc number) rows)
          λ items q. good (All-push P item items p q)

module _ (F : Formats) (shop_key : String) where
  open F use {Float, Location}

  abbrev pub ShippingOfShop : TemuProfitShippingLabelFee Float → Type 0
  ShippingOfShop x = x.shop_key ≡ shop_key

  keep_shipping_of_shop :
      (x : TemuProfitShippingLabelFee Float)
      → ShippingOfShop x
      → Holds ShippingOfShop (keep_shipping F shop_key x)
  unfolding keep_shipping
  keep_shipping_of_shop x h =
      if_rule (Holds ShippingOfShop) (is_empty x.package_no && is_empty x.tracking_no) (λ _. tt)
        λ _. h

  shipping_row_of_shop :
      (phase : String) (loc : Location) (row : Row)
      → Ensures (Holds ShippingOfShop) (shipping_row F shop_key phase loc row)
  unfolding shipping_row
  shipping_row_of_shop phase loc row =
      Ensures-if _ (row_empty row) (λ _. good tt)
        λ _. step _ (parse_required_float F (cell row 5) "运费") _ λ _.
          step _ (parse_profit_time F (cell row 8) loc) _ λ _. good (keep_shipping_of_shop _ refl)

  pub parse_shipping_label_fees_of_shop :
      (rows : List Row) (phase : String) (loc : Location)
      → Ensures (All ShippingOfShop) (parse_shipping_label_fees F shop_key rows phase loc)
  unfolding parse_shipping_label_fees
  parse_shipping_label_fees_of_shop rows phase loc =
      step _ (require_headers rows _) _
        λ _. each_row-Ensures ShippingOfShop _ (shipping_row_of_shop phase loc) 2 (drop 1 rows)

  abbrev pub ReturnOfShop : TemuProfitReturnLabelFee Float → Type 0
  ReturnOfShop x = x.shop_key ≡ shop_key

  return_row_of_shop :
      (destination : String) (loc : Location) (row : Row)
      → Ensures (Holds ReturnOfShop) (return_row F shop_key destination loc row)
  unfolding return_row
  return_row_of_shop destination loc row =
      Ensures-if _ (skipped row) (λ _. good tt)
        λ _.
          step _ (parse_required_float F (cell row 6) "金额") _
            λ _. step _ (parse_profit_time F (cell row 7) loc) _ λ _. good refl

  pub parse_return_label_fees_of_shop :
      (rows : List Row) (destination : String) (loc : Location)
      → Ensures (All ReturnOfShop) (parse_return_label_fees F shop_key rows destination loc)
  unfolding parse_return_label_fees
  parse_return_label_fees_of_shop rows destination loc =
      step _ (require_headers rows _) _
        λ _. each_row-Ensures ReturnOfShop _ (return_row_of_shop destination loc) 2 (drop 1 rows)

  abbrev pub ChargebackOfShop : TemuProfitBuyerChargeback Float → Type 0
  ChargebackOfShop x = x.shop_key ≡ shop_key

  chargeback_row_of_shop :
      (loc : Location) (row : Row)
      → Ensures (Holds ChargebackOfShop) (chargeback_row F shop_key loc row)
  unfolding chargeback_row
  chargeback_row_of_shop loc row =
      Ensures-if _ (skipped row) (λ _. good tt)
        λ _.
          step _ (parse_required_float F (cell row 1) "支出金额") _
            λ _. step _ (parse_profit_time F (cell row 3) loc) _ λ _. good refl

  pub parse_buyer_chargebacks_of_shop :
      (rows : List Row) (loc : Location)
      → Ensures (All ChargebackOfShop) (parse_buyer_chargebacks F shop_key rows loc)
  unfolding parse_buyer_chargebacks
  parse_buyer_chargebacks_of_shop rows loc =
      step _ (require_headers rows _) _
        λ _. each_row-Ensures ChargebackOfShop _ (chargeback_row_of_shop loc) 2 (drop 1 rows)

  abbrev pub ViolationOfShop : TemuProfitFulfillmentViolation Float → Type 0
  ViolationOfShop x = x.shop_key ≡ shop_key

  violation_row_of_shop :
      (source_sheet : String) (loc : Location) (row : Row)
      → Ensures (Holds ViolationOfShop) (violation_row F shop_key source_sheet loc row)
  unfolding violation_row
  violation_row_of_shop source_sheet loc row =
      Ensures-if _ (skipped row) (λ _. good tt)
        λ _.
          step _ (parse_required_float F (cell row 3) "支出金额") _
            λ _. step _ (parse_profit_time F (cell row 5) loc) _ λ _. good refl

  pub append_fulfillment_violations_of_shop :
      (dst : List (TemuProfitFulfillmentViolation Float)) (rows : List Row) (source_sheet : String)
      (loc : Location)
      → All ViolationOfShop dst
      → Ensures
          (All ViolationOfShop)
          (append_fulfillment_violations F shop_key dst rows source_sheet loc)
  unfolding append_fulfillment_violations
  append_fulfillment_violations_of_shop dst rows source_sheet loc h =
      step _ (require_headers rows _) _ λ _.
        step_of _ _ _ _
          (each_row-Ensures ViolationOfShop _ (violation_row_of_shop source_sheet loc) 2
            (drop 1 rows))
          λ items q. good (All-append ViolationOfShop dst items h q)

  abbrev pub PlatformOfShop : TemuProfitPlatformReturnLabelFee Float → Type 0
  PlatformOfShop x = x.shop_key ≡ shop_key

  platform_row_of_shop :
      (loc : Location) (row : Row)
      → Ensures (Holds PlatformOfShop) (platform_row F shop_key loc row)
  unfolding platform_row
  platform_row_of_shop loc row =
      Ensures-if _ (skipped row) (λ _. good tt)
        λ _.
          step _ (parse_required_float F (cell row 1) "收支金额") _
            λ _. step _ (parse_profit_time F (cell row 4) loc) _ λ _. good refl

  pub parse_platform_return_label_fees_of_shop :
      (rows : List Row) (loc : Location)
      → Ensures (All PlatformOfShop) (parse_platform_return_label_fees F shop_key rows loc)
  unfolding parse_platform_return_label_fees
  parse_platform_return_label_fees_of_shop rows loc =
      step _ (require_headers rows _) _
        λ _. each_row-Ensures PlatformOfShop _ (platform_row_of_shop loc) 2 (drop 1 rows)

  abbrev pub DisposalOfShop : TemuProfitDisposalFee Float → Type 0
  DisposalOfShop x = x.shop_key ≡ shop_key

  disposal_row_of_shop :
      (loc : Location) (row : Row)
      → Ensures (Holds DisposalOfShop) (disposal_row F shop_key loc row)
  unfolding disposal_row
  disposal_row_of_shop loc row =
      Ensures-if _ (skipped row) (λ _. good tt)
        λ _. step _ (parse_required_int64 F (cell row 0) "SKU ID") _ λ _.
          step _ (parse_optional_int F (cell row 3)) _ λ _.
            step _ (parse_profit_time F (cell row 4) loc) _ λ _.
              step _ (parse_required_float F (cell row 5) "销毁费用") _
                λ _. step _ (parse_profit_time F (cell row 7) loc) _ λ _. good refl

  pub parse_disposal_fees_of_shop :
      (rows : List Row) (loc : Location)
      → Ensures (All DisposalOfShop) (parse_disposal_fees F shop_key rows loc)
  unfolding parse_disposal_fees
  parse_disposal_fees_of_shop rows loc =
      step _ (require_headers rows _) _
        λ _. each_row-Ensures DisposalOfShop _ (disposal_row_of_shop loc) 2 (drop 1 rows)

  abbrev pub SettledOfShop : TemuProfitSettledFlow Float → Type 0
  SettledOfShop x = x.shop_key ≡ shop_key

  settled_row_of_shop :
      (loc : Location) (row : Row) → Ensures (Holds SettledOfShop) (settled_row F shop_key loc row)
  unfolding settled_row
  settled_row_of_shop loc row =
      Ensures-if _ (skipped row) (λ _. good tt)
        λ _. step _ (parse_required_float F (cell row 5) "结算金额") _ λ _.
          step _ (parse_optional_int64 F (cell row 6)) _ λ _.
            step _ (parse_optional_float F (cell row 9)) _ λ _.
              step _ (parse_optional_float F (cell row 10)) _ λ _.
                step _ (parse_optional_bool (cell row 11)) _ λ _.
                  step _ (parse_optional_float F (cell row 13)) _ λ _.
                    step _ (parse_optional_float_or_zero F (cell row 14)) _ λ _.
                      step _ (parse_optional_float_or_zero F (cell row 15)) _ λ _.
                        step _ (parse_optional_float_or_zero F (cell row 16)) _ λ _.
                          step _ (parse_optional_float_or_zero F (cell row 17)) _
                            λ _. step _ (parse_profit_time F (cell row 18) loc) _ λ _. good refl

  pub parse_settled_flows_of_shop :
      (rows : List Row) (loc : Location)
      → Ensures (All SettledOfShop) (parse_settled_flows F shop_key rows loc)
  unfolding parse_settled_flows
  parse_settled_flows_of_shop rows loc = step _ (require_headers rows _) _ λ _.
      each_row-Ensures SettledOfShop _ (settled_row_of_shop loc) (suc (heading_rows 6 rows))
        (drop (heading_rows 6 rows) rows)
