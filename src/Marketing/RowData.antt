-- ===== src/Marketing/RowData.antt =====
-- internal/marketing/activity_rows.go: the rows of the table, the filter and the summary.
use pangu_sales_manager.Base.{
  ℕ, ◌+◌, ℤ, pos, is_zero, sub64, max_zero, String, str_eq, Bool, false, List, [], Option, none,
  if◌then◌else◌, fold, length, int_eq,
}
use pangu_sales_manager.Temu.{
  MarketingEnrollment, MarketingEnrollmentSession, MarketingEnrollmentPrice,
}
use pangu_sales_manager.Marketing.State.{Time}

pub record ActivityRowFilter : Type 0 where
  pub skc_id : ℤ
  pub sku_id : ℤ
  pub site_id : ℤ
  pub enroll_id : ℤ
  pub activity_type : ℤ

pub record ActivitySnapshotRow : Type 0 where
  pub enroll_id : ℤ
  pub product_id : ℤ
  pub goods_id : ℤ
  pub activity_type : ℤ
  pub activity_type_name : String
  pub activity_thematic_id : ℤ
  pub activity_thematic_name : String
  pub enroll_status : ℤ
  pub sold_status : ℤ
  pub enroll_time : ℤ
  pub activity_stock : ℤ
  pub remaining_activity_stock : ℤ
  pub consumed_activity_stock : ℤ
  pub enrollment_sku_count : ℕ
  pub skc_id : ℤ
  pub sku_id : ℤ
  pub currency : String
  pub site_id : ℤ
  pub site_name : String
  pub site_daily_price : ℤ
  pub site_activity_price : ℤ
  pub session_id : ℤ
  pub session_name : String
  pub session_status : ℤ
  pub session_start_time : ℤ
  pub session_end_time : ℤ
  pub previous_remaining_activity_stock : Option ℤ
  pub interval_consumed_stock : ℤ
  pub interval_increased_stock : ℤ
  pub skc_activity_status : String
  pub skc_active_enroll_id : ℤ
  pub skc_previous_active_enroll_id : ℤ
  pub skc_evidence_enroll_ids : List ℤ
  pub skc_state_started_at : Time
  pub skc_last_evidence_at : Option Time
  pub skc_state_carried_forward : Bool
  pub skc_state_reason : String
  pub selected_effective_activity : Bool
  pub goods_record_loaded : Bool
  pub skc_site_status : ℤ
  pub sku_listed_in_current_goods : Bool

-- The numbers of entries are lengths of lists.
pub record ActivitySnapshotSummary : Type 0 where
  pub enrollment_count : ℕ
  pub active_enrollment_count : ℕ
  pub stock_consumed_enrollment_count : ℕ
  pub total_activity_stock : ℤ
  pub total_remaining_activity_stock : ℤ
  pub enrollment_pages : ℤ
  pub goods_skc_count : ℕ
  pub goods_pages : ℤ

unfoldable pub enrollment_sku_count : MarketingEnrollment → ℕ
enrollment_sku_count enrollment =
    fold (λ count skc. count + length skc.sku_list) 0 enrollment.skc_list

unfoldable pub activity_row_with_session_and_price :
    ActivitySnapshotRow
    → MarketingEnrollmentSession
    → MarketingEnrollmentPrice
    → ActivitySnapshotRow
activity_row_with_session_and_price base session price = record base {
  session_id = session.session_id;
  session_name = session.session_name;
  session_status = session.session_status;
  session_start_time = session.start_time;
  session_end_time = session.end_time;
  site_id = if is_zero price.site_id then session.site_id else price.site_id;
  site_name = if str_eq price.site_name "" then session.site_name else price.site_name;
  site_daily_price = price.daily_price;
  site_activity_price = price.activity_price;
}

abbrev pub zero_price : MarketingEnrollmentPrice
zero_price = record { site_id = pos 0; site_name = ""; daily_price = pos 0; activity_price = pos 0 }

abbrev pub zero_session : MarketingEnrollmentSession
zero_session = record {
  session_id = pos 0;
  session_name = "";
  session_status = pos 0;
  site_id = pos 0;
  site_name = "";
  start_time = pos 0;
  end_time = pos 0;
  start_date = "";
  end_date = "";
  duration_days = pos 0;
}

unfoldable pub base_row : MarketingEnrollment → ActivitySnapshotRow
unfolding enrollment_sku_count
base_row enrollment = record {
  enroll_id = enrollment.enroll_id;
  product_id = enrollment.product_id;
  goods_id = enrollment.goods_id;
  activity_type = enrollment.activity_type;
  activity_type_name = enrollment.activity_type_name;
  activity_thematic_id = enrollment.activity_thematic_id;
  activity_thematic_name = enrollment.activity_thematic_name;
  enroll_status = enrollment.enroll_status;
  sold_status = enrollment.sold_status;
  enroll_time = enrollment.enroll_time;
  activity_stock = enrollment.activity_stock;
  remaining_activity_stock = enrollment.remaining_activity_stock;
  consumed_activity_stock =
      max_zero (sub64 enrollment.activity_stock enrollment.remaining_activity_stock);
  enrollment_sku_count = enrollment_sku_count enrollment;
  skc_id = pos 0;
  sku_id = pos 0;
  currency = enrollment.currency;
  site_id = pos 0;
  site_name = "";
  site_daily_price = pos 0;
  site_activity_price = pos 0;
  session_id = pos 0;
  session_name = "";
  session_status = pos 0;
  session_start_time = pos 0;
  session_end_time = pos 0;
  previous_remaining_activity_stock = none;
  interval_consumed_stock = pos 0;
  interval_increased_stock = pos 0;
  skc_activity_status = "";
  skc_active_enroll_id = pos 0;
  skc_previous_active_enroll_id = pos 0;
  skc_evidence_enroll_ids = [];
  skc_state_started_at = pos 0;
  skc_last_evidence_at = none;
  skc_state_carried_forward = false;
  skc_state_reason = "";
  selected_effective_activity = false;
  goods_record_loaded = false;
  skc_site_status = pos 0;
  sku_listed_in_current_goods = false;
}
