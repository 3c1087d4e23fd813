-- ===== src/Profit/Owned.antt =====
-- A batch of records of one shop, and what is added to it.
use pangu_sales_manager.Base.{String, Text, List, All}
use pangu_sales_manager.Profit.Numbers.{Formats}
use pangu_sales_manager.Profit.Records.{
  TemuProfitShippingLabelFee, TemuProfitReturnLabelFee, TemuProfitBuyerChargeback,
  TemuProfitFulfillmentViolation, TemuProfitPlatformReturnLabelFee, TemuProfitDisposalFee,
  TemuProfitSettledFlow, TemuProfitSettledParentOrder, TemuProfitUnsettleOrder, ProfitImportBatch,
}
use pangu_sales_manager.Profit.Ownership.{
  ShippingOfShop, ReturnOfShop, ChargebackOfShop, ViolationOfShop, PlatformOfShop, DisposalOfShop,
  SettledOfShop,
}
use pangu_sales_manager.Profit.Numbered.{IsSettledParent, IsUnsettle}
use pangu_sales_manager.Profit.Workbook.{new_batch}

module _ (F : Formats) where
  open F use {Float}

  -- The records of all nine tables are of the shop.
  pub record IsOfShop (shop_key : String) (batch : ProfitImportBatch Float) : Type 0 where
    pub shipping : All (ShippingOfShop F shop_key) batch.shipping
    pub returns : All (ReturnOfShop F shop_key) batch.returns
    pub chargebacks : All (ChargebackOfShop F shop_key) batch.chargebacks
    pub violations : All (ViolationOfShop F shop_key) batch.violations
    pub platforms : All (PlatformOfShop F shop_key) batch.platforms
    pub disposals : All (DisposalOfShop F shop_key) batch.disposals
    pub settled : All (SettledOfShop F shop_key) batch.settled
    pub parents : All (IsSettledParent F shop_key) batch.parents
    pub unsettles : All (IsUnsettle F shop_key) batch.unsettles

  pub new_batch-IsOfShop :
      (shop_key : String) (filename : Text) (kind : String)
      → IsOfShop shop_key (new_batch filename kind)
  unfolding new_batch
  new_batch-IsOfShop shop_key filename kind = record {
    shipping = tt;
    returns = tt;
    chargebacks = tt;
    violations = tt;
    platforms = tt;
    disposals = tt;
    settled = tt;
    parents = tt;
    unsettles = tt;
  }

  module _ {shop_key : String} where
    pub with_shipping :
        (batch : ProfitImportBatch Float) (items : List (TemuProfitShippingLabelFee Float))
        → IsOfShop shop_key batch
        → All (ShippingOfShop F shop_key) items
        → IsOfShop shop_key (record batch { shipping = items })
    with_shipping batch items h q = record {
      shipping = q;
      returns = h.returns;
      chargebacks = h.chargebacks;
      violations = h.violations;
      platforms = h.platforms;
      disposals = h.disposals;
      settled = h.settled;
      parents = h.parents;
      unsettles = h.unsettles;
    }

    pub with_returns :
        (batch : ProfitImportBatch Float) (items : List (TemuProfitReturnLabelFee Float))
        → IsOfShop shop_key batch
        → All (ReturnOfShop F shop_key) items
        → IsOfShop shop_key (record batch { returns = items })
    with_returns batch items h q = record {
      shipping = h.shipping;
      returns = q;
      chargebacks = h.chargebacks;
      violations = h.violations;
      platforms = h.platforms;
      disposals = h.disposals;
      settled = h.settled;
      parents = h.parents;
      unsettles = h.unsettles;
    }

    pub with_chargebacks :
        (batch : ProfitImportBatch Float) (items : List (TemuProfitBuyerChargeback Float))
        → IsOfShop shop_key batch
        → All (ChargebackOfShop F shop_key) items
        → IsOfShop shop_key (record batch { chargebacks = items })
    with_chargebacks batch items h q = record {
      shipping = h.shipping;
      returns = h.returns;
      chargebacks = q;
      violations = h.violations;
      platforms = h.platforms;
      disposals = h.disposals;
      settled = h.settled;
      parents = h.parents;
      unsettles = h.unsettles;
    }

    pub with_violations :
        (batch : ProfitImportBatch Float) (items : List (TemuProfitFulfillmentViolation Float))
        → IsOfShop shop_key batch
        → All (ViolationOfShop F shop_key) items
        → IsOfShop shop_key (record batch { violations = items })
    with_violations batch items h q = record {
      shipping = h.shipping;
      returns = h.returns;
      chargebacks = h.chargebacks;
      violations = q;
      platforms = h.platforms;
      disposals = h.disposals;
      settled = h.settled;
      parents = h.parents;
      unsettles = h.unsettles;
    }

    pub with_platforms :
        (batch : ProfitImportBatch Float) (items : List (TemuProfitPlatformReturnLabelFee Float))
        → IsOfShop shop_key batch
        → All (PlatformOfShop F shop_key) items
        → IsOfShop shop_key (record batch { platforms = items })
    with_platforms batch items h q = record {
      shipping = h.shipping;
      returns = h.returns;
      chargebacks = h.chargebacks;
      violations = h.violations;
      platforms = q;
      disposals = h.disposals;
      settled = h.settled;
      parents = h.parents;
      unsettles = h.unsettles;
    }

    pub with_disposals :
        (batch : ProfitImportBatch Float) (items : List (TemuProfitDisposalFee Float))
        → IsOfShop shop_key batch
        → All (DisposalOfShop F shop_key) items
        → IsOfShop shop_key (record batch { disposals = items })
    with_disposals batch items h q = record {
      shipping = h.shipping;
      returns = h.returns;
      chargebacks = h.chargebacks;
      violations = h.violations;
      platforms = h.platforms;
      disposals = q;
      settled = h.settled;
      parents = h.parents;
      unsettles = h.unsettles;
    }

    pub with_settled :
        (batch : ProfitImportBatch Float) (items : List (TemuProfitSettledFlow Float))
        → IsOfShop shop_key batch
        → All (SettledOfShop F shop_key) items
        → IsOfShop shop_key (record batch { settled = items })
    with_settled batch items h q = record {
      shipping = h.shipping;
      returns = h.returns;
      chargebacks = h.chargebacks;
      violations = h.violations;
      platforms = h.platforms;
      disposals = h.disposals;
      settled = q;
      parents = h.parents;
      unsettles = h.unsettles;
    }

    pub with_parents :
        (batch : ProfitImportBatch Float) (items : List (TemuProfitSettledParentOrder Float))
        → IsOfShop shop_key batch
        → All (IsSettledParent F shop_key) items
        → IsOfShop shop_key (record batch { parents = items })
    with_parents batch items h q = record {
      shipping = h.shipping;
      returns = h.returns;
      chargebacks = h.chargebacks;
      violations = h.violations;
      platforms = h.platforms;
      disposals = h.disposals;
      settled = h.settled;
      parents = q;
      unsettles = h.unsettles;
    }

    pub with_unsettles :
        (batch : ProfitImportBatch Float) (items : List (TemuProfitUnsettleOrder Float))
        → IsOfShop shop_key batch
        → All (IsUnsettle F shop_key) items
        → IsOfShop shop_key (record batch { unsettles = items })
    with_unsettles batch items h q = record {
      shipping = h.shipping;
      returns = h.returns;
      chargebacks = h.chargebacks;
      violations = h.violations;
      platforms = h.platforms;
      disposals = h.disposals;
      settled = h.settled;
      parents = h.parents;
      unsettles = q;
    }

    pub with_warnings :
        (batch : ProfitImportBatch Float) (warnings : List Text)
        → IsOfShop shop_key batch
        → IsOfShop shop_key (record batch { warnings = warnings })
    with_warnings batch warnings h = record {
      shipping = h.shipping;
      returns = h.returns;
      chargebacks = h.chargebacks;
      violations = h.violations;
      platforms = h.platforms;
      disposals = h.disposals;
      settled = h.settled;
      parents = h.parents;
      unsettles = h.unsettles;
    }
