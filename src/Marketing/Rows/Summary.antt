-- ===== src/Marketing/Rows/Summary.antt =====
-- The counts of the summary of a snapshot.
use pangu_sales_manager.Base.{
  suc, ◌+◌, ◌≤◌, lt_ℤ, Bool, List, [], ◌∷◌, if◌then◌else◌, if_rule, keep, fold, length, ◌≡◌, refl,
  arith,
}
use pangu_sales_manager.Temu.{MarketingEnrollment}
use pangu_sales_manager.Marketing.Snapshot.{Snapshot}
use pangu_sales_manager.Marketing.Rows.{
  has_current_session, summarize_enrollment, summarize_snapshot,
}
use pangu_sales_manager.Marketing.RowData.{ActivitySnapshotSummary}

-- An enrolment part of whose stock is gone.
abbrev pub is_consumed : MarketingEnrollment → Bool
is_consumed e = lt_ℤ e.remaining_activity_stock e.activity_stock

abbrev pub is_active : MarketingEnrollment → Bool
is_active e = has_current_session e.assigned_sessions

-- The counts after the enrolments, from those before.
pub record Counts (s t : ActivitySnapshotSummary) (es : List MarketingEnrollment) : Type 0 where
  pub total : t.enrollment_count ≡ s.enrollment_count
  pub active : t.active_enrollment_count ≡ length (keep is_active es) + s.active_enrollment_count
  pub consumed :
      t.stock_consumed_enrollment_count
      ≡ length (keep is_consumed es) + s.stock_consumed_enrollment_count

length-keep_cons {ℓ} :
    {A : Type ℓ} (p : A → Bool) (x : A) (xs : List A)
    → length (keep p (x ∷ xs)) ≡ (if p x then suc (length (keep p xs)) else length (keep p xs))
length-keep_cons p x xs =
    if_rule (λ ys. length ys ≡ (if p x then suc (length (keep p xs)) else length (keep p xs))) (p x)
      (λ h. rw (h)) (λ h. rw (h))

fold-Counts :
    (es : List MarketingEnrollment) (s : ActivitySnapshotSummary)
    → Counts s (fold summarize_enrollment s es) es
unfolding summarize_enrollment
fold-Counts [] s = record { total = refl; active = omega arith; consumed = omega arith }
fold-Counts (e ∷ es) s =
    let r = fold-Counts es (summarize_enrollment s e) in
    record {
      total = r.total;
      active = ground (arith, r.active, length-keep_cons is_active e es);
      consumed = ground (arith, r.consumed, length-keep_cons is_consumed e es);
    }

length-keep_le {ℓ} : {A : Type ℓ} (p : A → Bool) (xs : List A) → length (keep p xs) ≤ length xs
length-keep_le p [] = omega arith
length-keep_le p (x ∷ xs) = ground (arith, length-keep_cons p x xs, length-keep_le p xs)

-- The summary counts the enrolments, those with a current session and those with less stock left
-- than they began with; neither of the last two counts is above the first.
pub summarize_snapshot_counts :
    (snapshot : Snapshot)
    → ((summarize_snapshot snapshot).enrollment_count ≡ length snapshot.enrollments)
      × ((summarize_snapshot snapshot).active_enrollment_count
          ≡ length (keep is_active snapshot.enrollments))
      × ((summarize_snapshot snapshot).stock_consumed_enrollment_count
          ≡ length (keep is_consumed snapshot.enrollments))
      × ((summarize_snapshot snapshot).active_enrollment_count
          ≤ (summarize_snapshot snapshot).enrollment_count)
      × ((summarize_snapshot snapshot).stock_consumed_enrollment_count
          ≤ (summarize_snapshot snapshot).enrollment_count)
unfolding summarize_snapshot
summarize_snapshot_counts snapshot =
    let r = fold-Counts snapshot.enrollments _ in
    let a = length-keep_le is_active snapshot.enrollments in
    let c = length-keep_le is_consumed snapshot.enrollments in
    (
      r.total,
      ground (arith, r.active),
      ground (arith, r.consumed),
      ground (arith, r.total, r.active, a),
      ground (arith, r.total, r.consumed, c),
    )
