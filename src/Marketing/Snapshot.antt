-- ===== src/Marketing/Snapshot.antt =====
-- The snapshot type of internal/marketing/syncer.go: the latest complete activity pull.
use pangu_sales_manager.Base.{ℤ, is_zero, String, str_eq, Bool, not, ◌&&◌, List}
use pangu_sales_manager.Temu.{MarketingEnrollment, GoodsSummary}
use pangu_sales_manager.Marketing.State.{Time}

-- `last_error` is the text of the error, empty if there is none.
pub record Snapshot : Type 0 where
  pub started_at : Time
  pub completed_at : Time
  pub last_error : String
  pub enrollments : List MarketingEnrollment
  pub enrollment_pages : ℤ
  pub goods_by_skc : List (ℤ × GoodsSummary)
  pub goods_pages : ℤ

-- `time.Time.IsZero` is true at the zero time.
unfoldable pub successful : Snapshot → Bool
successful s = not (is_zero s.started_at) && not (is_zero s.completed_at) && str_eq s.last_error ""
