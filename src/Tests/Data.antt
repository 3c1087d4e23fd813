-- ===== src/Tests/Data.antt =====
-- A small shop: one product with one SKC and one SKU, and two enrolments that offer it.
use pangu_sales_manager.Base.{ℤ, pos, [], ◌∷◌}
use pangu_sales_manager.Temu.{
  MarketingEnrollment, MarketingEnrollmentSession, MarketingEnrollmentSkc, MarketingEnrollmentSku,
  MarketingEnrollmentPrice, GoodsSummary,
}
use pangu_sales_manager.Marketing.Snapshot.{Snapshot}
use pangu_sales_manager.Marketing.State.{Time}

abbrev pub running : MarketingEnrollmentSession
running = record {
  session_id = pos 31;
  session_name = "June";
  session_status = pos 2;
  site_id = pos 9;
  site_name = "US";
  start_time = pos 1;
  end_time = pos 90;
  start_date = "";
  end_date = "";
  duration_days = pos 0;
}

abbrev pub finished : MarketingEnrollmentSession
finished = record running { session_id = pos 32; session_status = pos 3; site_id = pos 8 }

abbrev pub price : ℤ → ℤ → MarketingEnrollmentPrice
price site v = record { site_id = site; site_name = ""; daily_price = pos 500; activity_price = v }

abbrev pub sku : ℤ → MarketingEnrollmentSku
sku v = record {
  sku_id = pos 77;
  currency = "USD";
  site_price_list = price (pos 9) v ∷ price (pos 8) v ∷ [];
}

abbrev pub skc : ℤ → MarketingEnrollmentSkc
skc v = record { skc_id = pos 7; currency = "USD"; sku_list = sku v ∷ [] }

-- The enrolment with this id, stock left and price.
abbrev pub enrollment : ℤ → ℤ → ℤ → MarketingEnrollment
enrollment id left v = record {
  enroll_id = id;
  product_id = pos 70;
  goods_id = pos 71;
  activity_type = pos 5;
  activity_type_name = "sale";
  activity_thematic_id = pos 0;
  activity_thematic_name = "";
  currency = "USD";
  activity_stock = pos 100;
  remaining_activity_stock = left;
  enroll_status = pos 1;
  sold_status = pos 1;
  enroll_time = pos 0;
  session_start_time = pos 1;
  session_end_time = pos 90;
  assigned_sessions = running ∷ finished ∷ [];
  skc_list = skc v ∷ [];
}

abbrev pub on_shelf : GoodsSummary
on_shelf = record {
  product_id = pos 70;
  product_skc_id = pos 7;
  skc_site_status = pos 1;
  product_sku_summaries = record { product_sku_id = pos 77 } ∷ [];
}

-- The snapshot that ended at this time, with this stock left in the first enrolment.
abbrev pub snapshot : Time → ℤ → Snapshot
snapshot now left = record {
  started_at = pos 1;
  completed_at = now;
  last_error = "";
  enrollments = enrollment (pos 1) left (pos 400) ∷ enrollment (pos 2) (pos 50) (pos 350) ∷ [];
  enrollment_pages = pos 1;
  goods_by_skc = (pos 7, on_shelf) ∷ [];
  goods_pages = pos 1;
}
