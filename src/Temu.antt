-- ===== src/Temu.antt =====
-- internal/temu/marketing.go and internal/temu/goods.go: what the Temu API returns. Ids, stocks,
-- prices and times are Go's int64; `int` has 64 bits too.
pub mod Errors
pub mod Slots
pub mod Payload
pub mod Signed
pub mod Calls
pub mod Replies
use pangu_sales_manager.Base.{ℤ, pos, String, List}

pub record MarketingEnrollmentPrice : Type 0 where
  pub site_id : ℤ
  pub site_name : String
  pub daily_price : ℤ
  pub activity_price : ℤ

pub record MarketingEnrollmentSku : Type 0 where
  pub sku_id : ℤ
  pub currency : String
  pub site_price_list : List MarketingEnrollmentPrice

pub record MarketingEnrollmentSkc : Type 0 where
  pub skc_id : ℤ
  pub currency : String
  pub sku_list : List MarketingEnrollmentSku

pub record MarketingEnrollmentSession : Type 0 where
  pub session_id : ℤ
  pub session_name : String
  pub session_status : ℤ
  pub site_id : ℤ
  pub site_name : String
  pub start_time : ℤ
  pub end_time : ℤ
  pub start_date : String
  pub end_date : String
  pub duration_days : ℤ

pub record MarketingEnrollment : Type 0 where
  pub enroll_id : ℤ
  pub product_id : ℤ
  pub goods_id : ℤ
  pub activity_type : ℤ
  pub activity_type_name : String
  pub activity_thematic_id : ℤ
  pub activity_thematic_name : String
  pub currency : String
  pub activity_stock : ℤ
  pub remaining_activity_stock : ℤ
  pub enroll_status : ℤ
  pub sold_status : ℤ
  pub enroll_time : ℤ
  pub session_start_time : ℤ
  pub session_end_time : ℤ
  pub assigned_sessions : List MarketingEnrollmentSession
  pub skc_list : List MarketingEnrollmentSkc

pub record MarketingEnrollmentListResult : Type 0 where
  pub total : ℤ
  pub items : List MarketingEnrollment

pub record GoodsSkuInfo : Type 0 where
  pub product_sku_id : ℤ

pub record GoodsSummary : Type 0 where
  pub product_id : ℤ
  pub product_skc_id : ℤ
  pub skc_site_status : ℤ
  pub product_sku_summaries : List GoodsSkuInfo

pub record GoodsListResult : Type 0 where
  pub total_count : ℤ
  pub goods : List GoodsSummary

abbrev pub current_session_status : ℤ
current_session_status = pos 2

abbrev pub skc_site_status_on_shelf : ℤ
skc_site_status_on_shelf = pos 1
