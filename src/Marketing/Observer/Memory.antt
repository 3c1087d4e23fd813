-- ===== src/Marketing/Observer/Memory.antt =====
-- The stock levels that `observe` remembers for the next snapshot.
use pangu_sales_manager.Base.{
  ℤ, List, [], ◌∷◌, Option, none, some, fold, lookup, lookup-insert, ◌≡◌, refl, arith,
}
use pangu_sales_manager.Temu.{MarketingEnrollment, MarketingEnrollmentSkc}
use pangu_sales_manager.Marketing.State.{Time}
use pangu_sales_manager.Marketing.Snapshot.{Snapshot}
use pangu_sales_manager.Marketing.Observer.{
  Tally, empty_tally, latest_observation, observed_stock, tally_skc, tally_enrollment, tally_all,
  observe,
}
use pangu_sales_manager.Marketing.Observation.{
  EnrollmentObservationKey, EnrollmentStockObservation, key_eq, ActivityObserver,
}

-- The stock left, of a record if there is one.
abbrev pub remaining_of : Option EnrollmentStockObservation → Option ℤ
remaining_of none = none
remaining_of (some s) = some s.remaining_activity_stock

abbrev Agrees : Tally → Type 0
Agrees t =
    (k : EnrollmentObservationKey)
    → lookup k t.current_remaining ≡ remaining_of (lookup k t.enrollments)

module _ (previous_remaining : List (EnrollmentObservationKey × ℤ)) (now : Time) where
  tally_skc-Agrees :
      (enrollment : MarketingEnrollment) (skc : MarketingEnrollmentSkc) (t : Tally)
      → Agrees t
      → Agrees (tally_skc previous_remaining now enrollment t skc)
  unfolding tally_skc
  tally_skc-Agrees enrollment skc t h k =
      let key : EnrollmentObservationKey = record {
        enroll_id = enrollment.enroll_id;
        skc_id = skc.skc_id;
      } in
      let stock = observed_stock previous_remaining now enrollment skc in
      ground (
        arith,
        h k,
        lookup-insert key k stock t.enrollments,
        lookup-insert key k stock.remaining_activity_stock t.current_remaining,
      )

  fold_skcs-Agrees :
      (enrollment : MarketingEnrollment) (skcs : List MarketingEnrollmentSkc) (t : Tally)
      → Agrees t
      → Agrees (fold (tally_skc previous_remaining now enrollment) t skcs)
  fold_skcs-Agrees enrollment [] t h = h
  fold_skcs-Agrees enrollment (skc ∷ skcs) t h =
      fold_skcs-Agrees enrollment skcs (tally_skc previous_remaining now enrollment t skc)
        (tally_skc-Agrees enrollment skc t h)

  fold_enrollments-Agrees :
      (enrollments : List MarketingEnrollment) (t : Tally)
      → Agrees t
      → Agrees (fold (tally_enrollment previous_remaining now) t enrollments)
  unfolding tally_enrollment
  fold_enrollments-Agrees [] t h = h
  fold_enrollments-Agrees (e ∷ es) t h =
      fold_enrollments-Agrees es (tally_enrollment previous_remaining now t e)
        (fold_skcs-Agrees e e.skc_list t h)

-- After a snapshot the observer remembers exactly the stock levels of the enrolments that it
-- reported, nothing of older ones, and `Latest` gives the observation that was returned.
pub observe_remembers :
    (o : ActivityObserver) (snapshot : Snapshot)
    → let (o', observation) = observe o snapshot in
      ((k : EnrollmentObservationKey)
        → lookup k o'.previous_remaining ≡ remaining_of (lookup k observation.enrollments))
      × (latest_observation o' ≡ observation)
      × (o'.states ≡ observation.states)
unfolding observe latest_observation tally_all lookup
observe_remembers o snapshot = (
  fold_enrollments-Agrees o.previous_remaining snapshot.completed_at snapshot.enrollments
      empty_tally (λ k. refl),
  refl,
  refl,
)
