-- ===== src/Tests/Prices.antt =====
-- Runs of the price rules and of the effective prices.
use pangu_sales_manager.Base.{
  ℤ, pos, eq_ℤ_iff, Bool, true, false, List, [], ◌∷◌, In, here, there, ◌≡◌, refl, arith, inl, inr,
}
use pangu_sales_manager.Temu.{MarketingEnrollment}
use pangu_sales_manager.Marketing.State.{confirmed, SkcActivityState}
use pangu_sales_manager.Marketing.Price.{SkuActivityPricePoint, resolve_sku_price_state}
use pangu_sales_manager.Marketing.Price.Laws.{IsActivityPrice, Outcome, resolve_price-Outcome}
use pangu_sales_manager.Marketing.Observer.{zero_skc_state}
use pangu_sales_manager.Marketing.Effective.{EffectivePriceFilter, effective_prices}
use pangu_sales_manager.Marketing.Effective.Best.{IsLowest, items_of, effective_prices-IsLowest}
use pangu_sales_manager.Base.{All}
use pangu_sales_manager.Marketing.Effective.Covering.{offer_key}
use pangu_sales_manager.Marketing.Effective.Complete.{IsOffer, Answered, effective_prices_complete}
use pangu_sales_manager.Tests.Data.{running, price, sku, skc, enrollment, snapshot}

abbrev quote : ℤ → ℤ → SkuActivityPricePoint
quote id v = record {
  enroll_id = id;
  skc_id = pos 7;
  sku_id = pos 77;
  site_id = pos 9;
  currency = "USD";
  daily_price = pos 500;
  activity_price = v;
}

abbrev quotes_of_two : List SkuActivityPricePoint
quotes_of_two = quote (pos 1) (pos 400) ∷ quote (pos 2) (pos 350) ∷ []

abbrev sells_under_first : SkcActivityState
sells_under_first = record zero_skc_state {
  skc_id = pos 7;
  status = confirmed;
  active_enroll_id = pos 1;
  candidate_enroll_ids = pos 1 ∷ [];
  evidence_enroll_ids = pos 1 ∷ [];
}

one_price : IsActivityPrice sells_under_first quotes_of_two (pos 400)
unfolding pangu_sales_manager.Base.eq_ℤ pangu_sales_manager.Base.positive
one_price = ((refl, refl, refl), (refl, λ f h. ground (arith, eq_ℤ_iff (pos 400) f)))

resolve_price-Outcome_example :
    Outcome sells_under_first quotes_of_two
      (resolve_sku_price_state (pos 10) sells_under_first quotes_of_two)
resolve_price-Outcome_example = resolve_price-Outcome (pos 10) sells_under_first quotes_of_two

abbrev all_prices : EffectivePriceFilter
all_prices = record { skc_id = pos 0; sku_id = pos 0; site_id = pos 0 }

effective_prices-IsLowest_example :
    All
      (IsLowest (snapshot (pos 10) (pos 90)) all_prices)
      (items_of (effective_prices all_prices (snapshot (pos 10) (pos 90))))
effective_prices-IsLowest_example =
    effective_prices-IsLowest all_prices (snapshot (pos 10) (pos 90))

abbrev second_enrollment : MarketingEnrollment
second_enrollment = enrollment (pos 2) (pos 50) (pos 350)

second-IsOffer :
    IsOffer all_prices
      (snapshot (pos 10) (pos 90))
      second_enrollment
      running
      (skc (pos 350))
      (sku (pos 350))
      (price (pos 9) (pos 350))
unfolding pangu_sales_manager.Marketing.Effective.sku_on_shelf pangu_sales_manager.Base.lookup
    pangu_sales_manager.Base.eq_ℤ
second-IsOffer = record {
  enrolled = there here;
  in_sessions = here;
  in_enrollment = here;
  in_skc = here;
  listed = here;
  current = refl;
  here_site = refl;
  shelved = refl;
  skc_passes = refl;
  sku_passes = refl;
  site_passes = refl;
}

effective_prices_complete_example :
    Answered
      (offer_key second_enrollment (skc (pos 350)) (sku (pos 350)) (price (pos 9) (pos 350)))
      (pos 350)
      (items_of (effective_prices all_prices (snapshot (pos 10) (pos 90))))
unfolding pangu_sales_manager.Marketing.Snapshot.successful pangu_sales_manager.Base.eq_ℤ
effective_prices_complete_example =
    effective_prices_complete all_prices (snapshot (pos 10) (pos 90)) second_enrollment running
      (skc (pos 350)) (sku (pos 350)) (price (pos 9) (pos 350)) refl second-IsOffer
