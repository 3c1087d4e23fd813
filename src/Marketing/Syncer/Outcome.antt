-- ===== src/Marketing/Syncer/Outcome.antt =====
-- What `Sync` returns, and which snapshot is stored afterwards.
use pangu_sales_manager.Base.{
  ℕ, is_zero, str_eq, eq_iff, Bool, true, false, not, Option, none, some, if◌then◌else◌, ◌≡◌, refl,
  arith,
}
use pangu_sales_manager.Temu.Errors.{RequestError}
use pangu_sales_manager.Marketing.State.{Time}
use pangu_sales_manager.Marketing.Snapshot.{Snapshot, successful}
use pangu_sales_manager.Marketing.Syncer.Published.{
  IsPulled, sync_enrollments-Pulls, sync_batches-Pulls,
}
use pangu_sales_manager.Marketing.Syncer.{
  Services, Ending, all_read, page_failed, out_of_fuel, sync_batches, sync_current_goods, Result,
  finish, publish, after_sync_goods, after_sync_enrollments, sync, batches, current_skc_ids,
  goods_skc_batch_size,
}

-- A failed run: the snapshot carries the text of the error, and is stored only over one that was
-- not successful.
pub record IsFailed (stored s left : Snapshot) (e : RequestError) : Type 0 where
  pub carries_error : s.last_error ≡ e.text
  pub keeps_good : left ≡ (if successful stored then stored else s)

-- A complete run: the snapshot is successful and is the one stored.
pub record IsComplete (started : Time) (s left : Snapshot) : Type 0 where
  pub pulled : IsPulled started s
  pub is_successful : successful s ≡ true
  pub is_stored : left ≡ s

if_not {ℓ} : {A : Type ℓ} (b : Bool) (x y : A) → (if not b then x else y) ≡ (if b then y else x)
if_not true x y = refl
if_not false x y = refl

successful_of :
    (s : Snapshot)
    → is_zero s.started_at ≡ false
    → is_zero s.completed_at ≡ false
    → str_eq s.last_error "" ≡ true
    → successful s ≡ true
unfolding successful
successful_of s a b c = ground (arith, a, b, c)

module _ {W : Type 0} (services : Services W) where
  abbrev pub Outcome : Time → Snapshot → Option (Result services) → Type 0
  Outcome started stored none = Unit
  Outcome started stored (some (s, some e, left, w)) = IsFailed stored s left e
  Outcome started stored (some (s, none, left, w)) = IsComplete started s left

  finish-IsFailed :
      (started : Time) (stored s : Snapshot) (e : RequestError) (w : W)
      → Outcome started stored (some (finish services stored s e w))
  unfolding finish
  finish-IsFailed started stored s e w = record {
    carries_error = refl;
    keeps_good = if_not (successful stored) _ stored;
  }

  module _ (clock_runs : (w : W) → is_zero (services.now w).0 ≡ false) (started : Time)
      (s0 : is_zero started ≡ false) (stored : Snapshot) where
    publish-IsComplete :
        (s : Snapshot) (w : W)
        → IsPulled started s
        → Outcome started stored (some (publish services s w))
    unfolding publish successful
    publish-IsComplete s w h = record {
      pulled = record {
        start_kept = h.start_kept;
        all_current = h.all_current;
        all_filed = h.all_filed;
        no_error = h.no_error;
      };
      is_successful =
          successful_of (publish services s w).0 (rw (h.start_kept) s0) (clock_runs w)
            ((eq_iff s.last_error "").1 h.no_error);
      is_stored = refl;
    }

    goods-Outcome :
        (r : Ending × Snapshot × W)
        → IsPulled started r.1
        → Outcome started stored (after_sync_goods services stored r)
    unfolding after_sync_goods
    goods-Outcome (all_read, s, w) h = publish-IsComplete s w h
    goods-Outcome (page_failed e, s, w) h = finish-IsFailed started stored s e w
    goods-Outcome (out_of_fuel, s, w) h = tt

    enrollments-Outcome :
        (fuel : ℕ) (r : Ending × Snapshot × W)
        → IsPulled started r.1
        → Outcome started stored (after_sync_enrollments services fuel stored r)
    unfolding after_sync_enrollments sync_current_goods
    enrollments-Outcome fuel (all_read, s, w) h =
        goods-Outcome
          (sync_batches services fuel (batches (current_skc_ids s.enrollments) goods_skc_batch_size)
            s w)
          (sync_batches-Pulls services started fuel _ s w h)
    enrollments-Outcome fuel (page_failed e, s, w) h = finish-IsFailed started stored s e w
    enrollments-Outcome fuel (out_of_fuel, s, w) h = tt

  -- Where the clock does not show the zero time: a run that meets an error returns a snapshot with
  -- its text and leaves a successful stored snapshot as it is; one without returns and stores a
  -- successful snapshot, whose enrolments all are current, and whose goods stand under their own
  -- ids, none of them 0.
  pub sync-Outcome :
      (clock_runs : (w : W) → is_zero (services.now w).0 ≡ false) (fuel : ℕ) (stored : Snapshot)
      (w : W)
      → Outcome (services.now w).0 stored (sync services fuel stored w)
  unfolding sync
  sync-Outcome clock_runs fuel stored w =
      enrollments-Outcome clock_runs (services.now w).0 (clock_runs w) stored fuel _ (
        sync_enrollments-Pulls services (services.now w).0 fuel 1 _ _
          (record { start_kept = refl; all_current = tt; all_filed = tt; no_error = refl }))
