-- ===== src/Marketing/Observer/Stock.antt =====
-- The stock comparison of `observe`.
use pangu_sales_manager.Base.{
  ℤ, pos, negsuc, lt_ℤ, lt_ℤ_total, ◌+ℤ◌, ◌-ℤ◌, sub64, sub64-count, IsCount, neg_part, true, List,
  some, lookup, ◌≡◌, refl, ◌⊎◌, inl, inr, arith, Bool-cases, ap,
}
use pangu_sales_manager.Temu.{MarketingEnrollment, MarketingEnrollmentSkc}
use pangu_sales_manager.Marketing.State.{Time}
use pangu_sales_manager.Marketing.Observer.{base_stock, compare_stock, observed_stock}
use pangu_sales_manager.Marketing.Observation.{
  EnrollmentObservationKey, EnrollmentStockObservation, key_eq,
}

-- The change between two stock levels, as the record reports it.
pub record IsBalanced (previous : ℤ) (s : EnrollmentStockObservation) : Type 0 where
  pub seen : s.previous_remaining_activity_stock ≡ some previous
  pub balance :
      previous +ℤ s.interval_increased_stock
      ≡ s.remaining_activity_stock +ℤ s.interval_consumed_stock
  pub one_way : (s.interval_consumed_stock ≡ pos 0) ⊎ (s.interval_increased_stock ≡ pos 0)
  pub consumed_count : neg_part s.interval_consumed_stock ≡ 0
  pub increased_count : neg_part s.interval_increased_stock ≡ 0

fall :
    (p r : ℤ)
    → IsCount p
    → IsCount r
    → lt_ℤ r p ≡ true
    → (p +ℤ pos 0 ≡ r +ℤ sub64 p r) × (neg_part (sub64 p r) ≡ 0)
unfolding lt_ℤ ◌+ℤ◌ ◌-ℤ◌
fall (pos a) (pos b) h k q = rw (sub64-count (pos a) (pos b) h k) (ground arith, ground arith)
fall (negsuc a) r h k q = absurd (omega arith)
fall (pos a) (negsuc b) h k q = absurd (omega arith)

rise :
    (p r : ℤ)
    → IsCount p
    → IsCount r
    → lt_ℤ p r ≡ true
    → (p +ℤ sub64 r p ≡ r +ℤ pos 0) × (neg_part (sub64 r p) ≡ 0)
unfolding lt_ℤ ◌+ℤ◌ ◌-ℤ◌
rise (pos a) (pos b) h k q = rw (sub64-count (pos b) (pos a) k h) (ground arith, ground arith)
rise (negsuc a) r h k q = absurd (omega arith)
rise (pos a) (negsuc b) h k q = absurd (omega arith)

compare-IsBalanced :
    (previous : ℤ) (stock : EnrollmentStockObservation)
    → stock.interval_consumed_stock ≡ pos 0
    → stock.interval_increased_stock ≡ pos 0
    → IsCount previous
    → IsCount stock.remaining_activity_stock
    → IsBalanced previous (compare_stock (some previous) stock)
unfolding compare_stock
compare-IsBalanced previous stock c i h k =
    elim (Bool-cases (lt_ℤ stock.remaining_activity_stock previous)) [
      | inl q ↦
          let f = fall previous stock.remaining_activity_stock h k q in
          rw (q, compare_stock)
            (record {
              seen = refl;
              balance = rw i f.0;
              one_way = inr i;
              consumed_count = f.1;
              increased_count = ap neg_part i;
            })
      | inr q ↦ elim (Bool-cases (lt_ℤ previous stock.remaining_activity_stock)) [
        | inl r ↦
            let f = rise previous stock.remaining_activity_stock h k r in
            rw (q, r, compare_stock)
              (record {
                seen = refl;
                balance = rw c f.0;
                one_way = inl c;
                consumed_count = ap neg_part c;
                increased_count = f.1;
              })
        | inr r ↦
            let e = lt_ℤ_total previous stock.remaining_activity_stock r q in
            rw (q, r, compare_stock)
              (record {
                seen = refl;
                balance = rw (c, i, e);
                one_way = inl c;
                consumed_count = ap neg_part c;
                increased_count = ap neg_part i;
              })
      ]
    ]

-- If the previous snapshot had the enrolment and both stock levels are counts below 2^63, the
-- record reports the change exactly: the previous level plus the increase is the new level plus
-- the consumption, neither is negative, and one of them is zero.
pub observed_stock_balance :
    (previous_remaining : List (EnrollmentObservationKey × ℤ)) (completed_at : Time)
    (enrollment : MarketingEnrollment) (skc : MarketingEnrollmentSkc) (previous : ℤ)
    → lookup (record { enroll_id = enrollment.enroll_id; skc_id = skc.skc_id }) previous_remaining
      ≡ some previous
    → IsCount previous
    → IsCount enrollment.remaining_activity_stock
    → IsBalanced previous (observed_stock previous_remaining completed_at enrollment skc)
unfolding observed_stock base_stock
observed_stock_balance m completed_at enrollment skc previous e h k =
    rw e (compare-IsBalanced previous (base_stock completed_at enrollment skc) refl refl h k)
