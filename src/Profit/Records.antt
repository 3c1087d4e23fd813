-- ===== src/Profit/Records.antt =====
-- profit_types.go: the records that are read from the sheets, over a type of floats.
use pangu_sales_manager.Base.{ℕ, ℤ, String, Bool, List, Option, Text}
use pangu_sales_manager.Marketing.State.{Time}

abbrev pub profit_billing_posted : String
profit_billing_posted = "posted"

abbrev pub profit_billing_pending : String
profit_billing_pending = "pending"

abbrev pub profit_return_merchant_warehouse : String
profit_return_merchant_warehouse = "merchant_warehouse"

abbrev pub profit_return_third_party_warehouse : String
profit_return_third_party_warehouse = "third_party_warehouse"

abbrev pub profit_violation_fulfillment_delay : String
profit_violation_fulfillment_delay = "fulfillment_delay"

abbrev pub profit_violation_fulfillment_false_ship : String
profit_violation_fulfillment_false_ship = "fulfillment_false_ship"

abbrev pub profit_file_shipping_posted : String
profit_file_shipping_posted = "shipping_posted"

abbrev pub profit_file_shipping_pending : String
profit_file_shipping_pending = "shipping_pending"

abbrev pub profit_file_return_merchant : String
profit_file_return_merchant = "return_merchant"

abbrev pub profit_file_return_third_party : String
profit_file_return_third_party = "return_third_party"

abbrev pub profit_file_fund_detail : String
profit_file_fund_detail = "fund_detail"

abbrev pub profit_file_settled_flow : String
profit_file_settled_flow = "settled_flow"

abbrev pub profit_file_settled_parent : String
profit_file_settled_parent = "settled_parent"

abbrev pub profit_file_unsettle : String
profit_file_unsettle = "unsettle"

pub record TemuProfitShippingLabelFee (Float : Type 0) : Type 0 where
  pub shop_key : String
  pub billing_phase : String
  pub package_no : Text
  pub tracking_no : Text
  pub carrier_code : Text
  pub bill_type : Text
  pub remark : Text
  pub freight_amount : Float
  pub currency : Text
  pub reconcile_status : Text
  pub occurred_at : Option Time
  pub imported_at : Time

pub record TemuProfitReturnLabelFee (Float : Type 0) : Type 0 where
  pub shop_key : String
  pub return_destination : String
  pub fund_bill_id : Text
  pub tracking_no : Text
  pub po_no : Text
  pub bill_type : Text
  pub currency : Text
  pub bill_remark : Text
  pub amount : Float
  pub occurred_at : Option Time
  pub imported_at : Time

pub record TemuProfitBuyerChargeback (Float : Type 0) : Type 0 where
  pub shop_key : String
  pub violation_order_no : Text
  pub amount : Float
  pub currency : Text
  pub accounted_at : Option Time
  pub imported_at : Time

pub record TemuProfitFulfillmentViolation (Float : Type 0) : Type 0 where
  pub shop_key : String
  pub source_sheet : String
  pub violation_no : Text
  pub order_no : Text
  pub violation_type : Text
  pub amount : Float
  pub currency : Text
  pub accounted_at : Option Time
  pub imported_at : Time

pub record TemuProfitPlatformReturnLabelFee (Float : Type 0) : Type 0 where
  pub shop_key : String
  pub order_no : Text
  pub amount : Float
  pub currency : Text
  pub remark : Text
  pub accounted_at : Option Time
  pub imported_at : Time

pub record TemuProfitDisposalFee (Float : Type 0) : Type 0 where
  pub shop_key : String
  pub sku_id : ℤ
  pub tracking_type : Text
  pub tracking_no : Text
  pub destroy_qty : ℤ
  pub returned_at : Option Time
  pub destroy_fee : Float
  pub currency : Text
  pub accounted_at : Option Time
  pub imported_at : Time

pub record TemuProfitSettledFlow (Float : Type 0) : Type 0 where
  pub shop_key : String
  pub flow_id : Text
  pub batch_no : Text
  pub po_no : Text
  pub document_no : Text
  pub trade_type : Text
  pub settle_amount : Float
  pub sku_id : Option ℤ
  pub sku_name : Text
  pub sku_ext_code : Text
  pub quantity : Option Float
  pub declared_price : Option Float
  pub is_activity_price : Option Bool
  pub currency : Text
  pub total_declared_price : Option Float
  pub sku_coupon_amount : Float
  pub shop_coupon_amount : Float
  pub declared_discount_amount : Float
  pub activity_freight_discount_amount : Float
  pub received_at : Option Time
  pub remark : Text
  pub imported_at : Time

-- One SKU of an order. The line numbers count from 1.
pub record TemuProfitSettledParentSku (Float : Type 0) : Type 0 where
  pub line_no : ℕ
  pub sku_id : ℤ
  pub sku_name : Text
  pub sku_ext_code : Text
  pub quantity : Float
  pub declared_price : Float
  pub is_activity_price : Option Bool

pub record TemuProfitSettledParentOrder (Float : Type 0) : Type 0 where
  pub shop_key : String
  pub po_no : Text
  pub currency : Text
  pub sales_receipt : Float
  pub sales_receipt_after_discount : Float
  pub sales_chargeback : Float
  pub freight_receipt : Float
  pub freight_receipt_after_discount : Float
  pub freight_chargeback : Float
  pub skus : List (TemuProfitSettledParentSku Float)
  pub imported_at : Time

pub record TemuProfitUnsettleSku (Float : Type 0) : Type 0 where
  pub line_no : ℕ
  pub sku_id : ℤ
  pub sku_name : Text
  pub quantity : Float
  pub declared_price : Float

pub record TemuProfitUnsettleOrder (Float : Type 0) : Type 0 where
  pub shop_key : String
  pub po_no : Text
  pub currency : Text
  pub sales_receipt : Float
  pub sales_receipt_after_discount : Float
  pub sales_chargeback : Float
  pub freight_receipt : Float
  pub freight_chargeback : Float
  pub freight_receipt_after_discount : Float
  pub skus : List (TemuProfitUnsettleSku Float)
  pub imported_at : Time

pub record ProfitImportBatch (Float : Type 0) : Type 0 where
  pub file : Text
  pub kind : String
  pub shipping : List (TemuProfitShippingLabelFee Float)
  pub returns : List (TemuProfitReturnLabelFee Float)
  pub chargebacks : List (TemuProfitBuyerChargeback Float)
  pub violations : List (TemuProfitFulfillmentViolation Float)
  pub platforms : List (TemuProfitPlatformReturnLabelFee Float)
  pub disposals : List (TemuProfitDisposalFee Float)
  pub settled : List (TemuProfitSettledFlow Float)
  pub parents : List (TemuProfitSettledParentOrder Float)
  pub unsettles : List (TemuProfitUnsettleOrder Float)
  pub warnings : List Text
