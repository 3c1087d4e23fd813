-- ===== src/Tests/Observer.antt =====
-- Runs of the observer over two snapshots.
use pangu_sales_manager.Base.{
  ℤ, int_eq, pos, lookup, Bool, true, false, List, [], ◌∷◌, ◌++◌, Option, none, some, flat_map,
  length, ◌≡◌, ◌≢◌, refl, arith, inl, IsCount,
}
use pangu_sales_manager.Marketing.State.{SkcActivityState, resolve_skc_activity_state}
use pangu_sales_manager.Marketing.State.WellFormed.{IsWellFormed}
use pangu_sales_manager.Marketing.Price.{SkuActivityPricePoint}
use pangu_sales_manager.Marketing.Observer.{entries, tally_all, observe, observed_stock}
use pangu_sales_manager.Marketing.Observation.{
  EnrollmentObservationKey, key_eq, ActivityObserver, new_activity_observer,
}
use pangu_sales_manager.Marketing.Observer.Stock.{IsBalanced, observed_stock_balance}
use pangu_sales_manager.Marketing.Observer.Points.{points_in, tally_all-points}
use pangu_sales_manager.Marketing.Observer.States.{
  points_of, observe_tracks, started, observed, Reached-IsWellFormed,
}
use pangu_sales_manager.Tests.Data.{enrollment, skc, snapshot}

-- The observer after a first snapshot, and after a second, in which enrolment 1 has sold 4.
abbrev first : ActivityObserver
first = (observe new_activity_observer (snapshot (pos 10) (pos 90))).0

abbrev second : ActivityObserver
second = (observe first (snapshot (pos 20) (pos 86))).0

abbrev remembered : List (EnrollmentObservationKey × ℤ)
remembered = (record { enroll_id = pos 1; skc_id = pos 7 }, pos 90) ∷ []

observed_stock_balance_example :
    IsBalanced
      (pos 90)
      (observed_stock remembered (pos 20) (enrollment (pos 1) (pos 86) (pos 400)) (skc (pos 400)))
unfolding lookup pangu_sales_manager.Base.eq_ℤ
observed_stock_balance_example =
    observed_stock_balance remembered (pos 20) (enrollment (pos 1) (pos 86) (pos 400))
      (skc (pos 400)) (pos 90) refl (refl, omega arith) (refl, omega arith)

tally_all-points_example :
    entries
      (pos 7)
      (tally_all remembered (pos 20) (snapshot (pos 20) (pos 86)).enrollments).points_by_skc
    ≡ flat_map
        (λ e. points_in remembered (pos 20) (pos 7) e e.skc_list)
        (snapshot (pos 20) (pos 86)).enrollments
tally_all-points_example =
    tally_all-points remembered (pos 20) (pos 7) (snapshot (pos 20) (pos 86)).enrollments

listed : length (entries (pos 7) (points_of new_activity_observer (snapshot (pos 10) (pos 90)))) ≡ 2
unfolding entries lookup tally_all pangu_sales_manager.Base.insert pangu_sales_manager.Base.eq_ℤ
listed = refl

nonempty_of_length {ℓ} : {A : Type ℓ} (l : List A) → length l ≡ 2 → l ≢ []
nonempty_of_length l e = λ h. ground (arith, e, h)

observe_tracks_example :
    lookup (pos 7) (observe new_activity_observer (snapshot (pos 10) (pos 90))).0.states
    ≡ some (
        resolve_skc_activity_state
          (pos 10)
          (pos 7)
          (entries (pos 7) (points_of new_activity_observer (snapshot (pos 10) (pos 90))))
          none)
unfolding lookup new_activity_observer
observe_tracks_example =
    observe_tracks new_activity_observer (snapshot (pos 10) (pos 90)) (pos 7)
      (inl (nonempty_of_length _ listed))

abbrev state_seen : SkcActivityState
state_seen =
    resolve_skc_activity_state (pos 10) (pos 7)
      (entries (pos 7) (points_of new_activity_observer (snapshot (pos 10) (pos 90)))) none

Reached-IsWellFormed_example :
    IsWellFormed state_seen
    × (pangu_sales_manager.Base.lt_ℤ (pos 10) state_seen.state_started_at ≡ false)
unfolding pangu_sales_manager.Base.lt_ℤ
Reached-IsWellFormed_example =
    Reached-IsWellFormed (pos 7) state_seen
      (observed (started (pos 0)) (snapshot (pos 10) (pos 90)) refl) observe_tracks_example

abbrev candidate : ℤ → SkuActivityPricePoint
candidate id = record {
  enroll_id = pos 1;
  skc_id = id;
  sku_id = pos 77;
  site_id = pos 9;
  currency = "USD";
  daily_price = pos 500;
  activity_price = pos 400;
}
