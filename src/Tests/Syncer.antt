-- ===== src/Tests/Syncer.antt =====
-- Runs of the pull: against a server that answers, one that is down, and one that is slow.
use pangu_sales_manager.Base.{
  codes, ℕ, zero, suc, subst, ap, ◌+◌, ◌*◌, ◌<◌, ℤ, pos, is_zero, lt_ℤ, Bool, true, false, List, [],
  ◌∷◌, Option, none, some, In, here, there, All, ◌≡◌, ◌≢◌, refl, arith, any,
}
use pangu_sales_manager.Temu.{MarketingEnrollmentListResult, GoodsListResult}
use pangu_sales_manager.Temu.Errors.{RequestError}
use pangu_sales_manager.Marketing.Retry.{Fallible, Attempts, retry, retry-Attempts}
use pangu_sales_manager.Marketing.Syncer.{Services, batches, current_enrollment, sync}
use pangu_sales_manager.Marketing.Syncer.Batches.{joined, Fits, joined-batches}
use pangu_sales_manager.Marketing.Syncer.Current.{Taken, current_enrollment-Taken}
use pangu_sales_manager.Marketing.Syncer.Outcome.{Outcome, sync-Outcome}
use pangu_sales_manager.Marketing.Syncer.Fuel.{IsBounded, sync_ends}
use pangu_sales_manager.Tests.Data.{enrollment, on_shelf, snapshot}

-- The state of the outside is the clock; each reading moves it on.
abbrev shop : Services ℕ
shop = record {
  enrollment_page = λ page_no size w. (
    Fallible.ok (record {
      total = pos 2;
      items = enrollment (pos 1) (pos 90) (pos 400) ∷ enrollment (pos 2) (pos 50) (pos 350) ∷ [];
    }),
    w,
  );
  goods_page = λ batch page_no size w.
      (Fallible.ok (record { total_count = pos 1; goods = on_shelf ∷ [] }), w);
  now = λ w. (pos (suc w), suc w);
  wait = λ delay w. (none, w + delay);
}

abbrev too_many : RequestError
too_many = record {
  text = "too frequent requests";
  api_error = some (record {
    api_type = [];
    status = pos 429;
    code = [];
    message = codes "Too Frequent Requests";
    temporary = false;
  });
}

-- A server that refuses until the clock shows 3, that is, twice.
abbrev busy : ℕ → Fallible ℕ × ℕ
busy zero = (Fallible.failed too_many, 0)
busy (suc zero) = (Fallible.failed too_many, 1)
busy (suc (suc w)) = (Fallible.ok w, suc (suc w))

retry-Attempts_example :
    Attempts shop.wait busy 0 0 (retry shop.wait busy 0).0 (retry shop.wait busy 0).1
retry-Attempts_example = retry-Attempts shop.wait busy 0

-- The third request succeeds, after waits of 1 and of 2.
busy_at_last : retry shop.wait busy 0 ≡ (Fallible.ok 1, 3)
unfolding retry pangu_sales_manager.Marketing.Retry.retryable pangu_sales_manager.Base.eq_ℤ
busy_at_last = refl

joined-batches_example :
    (joined (batches (pos 1 ∷ pos 2 ∷ pos 3 ∷ []) 2) ≡ pos 1 ∷ pos 2 ∷ pos 3 ∷ [])
    × All (Fits 2) (batches (pos 1 ∷ pos 2 ∷ pos 3 ∷ []) 2)
joined-batches_example = joined-batches (pos 1 ∷ pos 2 ∷ pos 3 ∷ []) 2 (omega arith)

current_enrollment-Taken_example :
    Taken
      (enrollment (pos 1) (pos 90) (pos 400))
      (current_enrollment (enrollment (pos 1) (pos 90) (pos 400)))
current_enrollment-Taken_example = current_enrollment-Taken (enrollment (pos 1) (pos 90) (pos 400))

clock_runs : (w : ℕ) → is_zero (shop.now w).0 ≡ false
unfolding pangu_sales_manager.Base.eq_ℤ
clock_runs w = ground arith

sync-Outcome_example :
    Outcome shop (pos 1) (snapshot (pos 10) (pos 90)) (sync shop 1 (snapshot (pos 10) (pos 90)) 0)
sync-Outcome_example = sync-Outcome shop clock_runs 1 (snapshot (pos 10) (pos 90)) 0

abbrev total : Fallible MarketingEnrollmentListResult × ℕ → ℤ
total (Fallible.ok page, w) = page.total
total (Fallible.failed e, w) = pos 0

abbrev total_count : Fallible GoodsListResult × ℕ → ℤ
total_count (Fallible.ok page, w) = page.total_count
total_count (Fallible.failed e, w) = pos 0

shop-IsBounded : IsBounded shop 2
unfolding lt_ℤ
shop-IsBounded = record {
  enrollments_bounded =
      λ page_no size page w v h. subst (λ t. lt_ℤ (pos 2) t ≡ false) (ap total h) refl;
  goods_bounded =
      λ batch page_no size page w v h. subst (λ t. lt_ℤ (pos 2) t ≡ false) (ap total_count h) refl;
}

sync_ends_example : sync shop 1 (snapshot (pos 10) (pos 90)) 0 ≢ none
sync_ends_example = sync_ends shop 2 shop-IsBounded 1 (snapshot (pos 10) (pos 90)) 0 (omega arith)
