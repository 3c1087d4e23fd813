-- ===== src/Marketing/Observation.antt =====
-- internal/marketing/activity_observer.go: what the observer reports and remembers.
use pangu_sales_manager.Base.{
  ℤ, pos, eq_ℤ, eq_ℤ_iff, Bool, true, ◌&&◌, List, [], Option, Eq, int_eq, arith, ◌≡◌, ◌↔◌,
}
use pangu_sales_manager.Marketing.State.{Time, SkcActivityState}
use pangu_sales_manager.Marketing.Price.{SkuPriceState}

pub record EnrollmentObservationKey : Type 0 where
  pub enroll_id : ℤ
  pub skc_id : ℤ

abbrev pub key_beq : EnrollmentObservationKey → EnrollmentObservationKey → Bool
key_beq a b = eq_ℤ a.enroll_id b.enroll_id && eq_ℤ a.skc_id b.skc_id

pub key_beq_iff : (a b : EnrollmentObservationKey) → (key_beq a b ≡ true) ↔ (a ≡ b)
key_beq_iff a b = ground (arith, eq_ℤ_iff a.enroll_id b.enroll_id, eq_ℤ_iff a.skc_id b.skc_id)

instance abbrev pub key_eq : Eq EnrollmentObservationKey
key_eq = record { beq = key_beq; beq_iff = key_beq_iff }

pub record EnrollmentStockObservation : Type 0 where
  pub enroll_id : ℤ
  pub skc_id : ℤ
  pub activity_stock : ℤ
  pub remaining_activity_stock : ℤ
  pub previous_remaining_activity_stock : Option ℤ
  pub interval_consumed_stock : ℤ
  pub interval_increased_stock : ℤ
  pub cumulative_consumed_stock : ℤ
  pub captured_at : Time

pub record ActivityObservation : Type 0 where
  pub captured_at : Time
  pub enrollments : List (EnrollmentObservationKey × EnrollmentStockObservation)
  pub states : List (ℤ × SkcActivityState)
  pub sku_prices : List SkuPriceState

pub record ActivityObserver : Type 0 where
  pub previous_remaining : List (EnrollmentObservationKey × ℤ)
  pub states : List (ℤ × SkcActivityState)
  pub latest : ActivityObservation

unfoldable pub new_activity_observer : ActivityObserver
new_activity_observer = record {
  previous_remaining = [];
  states = [];
  latest = record { captured_at = pos 0; enrollments = []; states = []; sku_prices = [] };
}
