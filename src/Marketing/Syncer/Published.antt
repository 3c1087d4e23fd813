-- ===== src/Marketing/Syncer/Published.antt =====
-- What `Sync` returns and stores.
use pangu_sales_manager.Base.{
  ℕ, zero, suc, ◌+◌, ◌*◌, ℤ, int_eq, pos, is_zero, lt_ℤ, ltb, length, false, not, ◌||◌, List, [],
  ◌∷◌, Option, none, some, if_rule, fold_keeps, All, All-append, All-insert_entry, ◌≡◌, refl,
}
use pangu_sales_manager.Temu.{
  MarketingEnrollment, GoodsSummary, MarketingEnrollmentListResult, GoodsListResult,
}
use pangu_sales_manager.Marketing.State.{Time}
use pangu_sales_manager.Marketing.Snapshot.{Snapshot}
use pangu_sales_manager.Marketing.Retry.{Fallible, retry}
use pangu_sales_manager.Marketing.Syncer.Current.{IsCurrent, Taken, current_enrollment-Taken}
use pangu_sales_manager.Marketing.Syncer.{
  Services, Ending, all_read, page_failed, out_of_fuel, current_enrollment, add_enrollment,
  take_enrollments, add_goods, take_goods, after_enrollments, sync_enrollments, after_goods,
  sync_batch, after_batch, sync_batches, enrollment_page_size, goods_page_size,
}

-- The record stands under the id it carries, which is not 0.
abbrev pub IsFiled : ℤ × GoodsSummary → Type 0
IsFiled (id, goods) = (goods.product_skc_id ≡ id) × (is_zero id ≡ false)

-- A snapshot that began at this time and has met no error.
pub record IsPulled (started : Time) (s : Snapshot) : Type 0 where
  pub start_kept : s.started_at ≡ started
  pub all_current : All IsCurrent s.enrollments
  pub all_filed : All IsFiled s.goods_by_skc
  pub no_error : s.last_error ≡ ""

add_enrollment-IsCurrent :
    (es : List MarketingEnrollment) (e : MarketingEnrollment) (taken : Option MarketingEnrollment)
    → Taken e taken
    → All IsCurrent es
    → All IsCurrent (add_enrollment es taken)
unfolding add_enrollment
add_enrollment-IsCurrent es e none t h = h
add_enrollment-IsCurrent es e (some r) t h = All-append IsCurrent es (r ∷ []) h (t.3, tt)

take_enrollments-IsPulled :
    (started : Time) (s : Snapshot) (page : List MarketingEnrollment)
    → IsPulled started s
    → IsPulled started (take_enrollments s page)
unfolding take_enrollments
take_enrollments-IsPulled started s page h = record {
  start_kept = h.start_kept;
  all_current =
      fold_keeps (All IsCurrent) (λ es e. add_enrollment es (current_enrollment e)) page
        s.enrollments (λ es e _ k. add_enrollment-IsCurrent es e _ (current_enrollment-Taken e) k)
        h.all_current;
  all_filed = h.all_filed;
  no_error = h.no_error;
}

add_goods-IsFiled :
    (m : List (ℤ × GoodsSummary)) (goods : GoodsSummary)
    → All IsFiled m
    → All IsFiled (add_goods m goods)
unfolding add_goods
add_goods-IsFiled m goods h =
    if_rule (All IsFiled) (is_zero goods.product_skc_id) (λ _. h)
      (λ q. All-insert_entry IsFiled goods.product_skc_id goods m (refl, q) h)

take_goods-IsPulled :
    (started : Time) (s : Snapshot) (page : List GoodsSummary)
    → IsPulled started s
    → IsPulled started (take_goods s page)
unfolding take_goods
take_goods-IsPulled started s page h = record {
  start_kept = h.start_kept;
  all_current = h.all_current;
  all_filed =
      fold_keeps (All IsFiled) add_goods page s.goods_by_skc (λ m g _ k. add_goods-IsFiled m g k)
        h.all_filed;
  no_error = h.no_error;
}

module _ {W : Type 0} (services : Services W) (started : Time) where
  -- However the loop ends.
  abbrev pub Pulls : Ending × Snapshot × W → Type 0
  Pulls r = IsPulled started r.1

  enrollments-Pulls :
      (page_no : ℕ) (next : Snapshot → W → Ending × Snapshot × W) (s : Snapshot)
      (r : Fallible MarketingEnrollmentListResult × W)
      → IsPulled started s
      → ((t : Snapshot) (w : W) → IsPulled started t → Pulls (next t w))
      → Pulls (after_enrollments services page_no next s r)
  unfolding after_enrollments
  enrollments-Pulls page_no next s (Fallible.failed e, w) h n = h
  enrollments-Pulls page_no next s (Fallible.ok page, w) h n =
      let t = take_enrollments-IsPulled started s page.items h in
      if_rule Pulls
        (not (lt_ℤ (pos (page_no * enrollment_page_size)) page.total)
          || ltb (length page.items) enrollment_page_size)
        (λ _. t) (λ _. n _ w t)

  pub sync_enrollments-Pulls :
      (fuel page_no : ℕ) (s : Snapshot) (w : W)
      → IsPulled started s
      → Pulls (sync_enrollments services fuel page_no s w)
  unfolding sync_enrollments
  sync_enrollments-Pulls zero page_no s w h = h
  sync_enrollments-Pulls (suc fuel) page_no s w h =
      enrollments-Pulls page_no (sync_enrollments services fuel (page_no + 1)) s
        (retry services.wait (services.enrollment_page page_no enrollment_page_size) w) h
        (λ t v k. sync_enrollments-Pulls fuel (page_no + 1) t v k)

  goods-Pulls :
      (next : ℕ → Snapshot → W → Ending × Snapshot × W) (received : ℕ) (s : Snapshot)
      (r : Fallible GoodsListResult × W)
      → IsPulled started s
      → ((n : ℕ) (t : Snapshot) (w : W) → IsPulled started t → Pulls (next n t w))
      → Pulls (after_goods services next received s r)
  unfolding after_goods
  goods-Pulls next received s (Fallible.failed e, w) h n = h
  goods-Pulls next received s (Fallible.ok page, w) h n =
      let t = take_goods-IsPulled started s page.goods h in
      if_rule Pulls
        (not (lt_ℤ (pos (received + length page.goods)) page.total_count)
          || ltb (length page.goods) goods_page_size)
        (λ _. t) (λ _. n _ _ w t)

  sync_batch-Pulls :
      (batch : List ℤ) (fuel page_no received : ℕ) (s : Snapshot) (w : W)
      → IsPulled started s
      → Pulls (sync_batch services batch fuel page_no received s w)
  unfolding sync_batch
  sync_batch-Pulls batch zero page_no received s w h = h
  sync_batch-Pulls batch (suc fuel) page_no received s w h =
      goods-Pulls (sync_batch services batch fuel (page_no + 1)) received s
        (retry services.wait (services.goods_page batch page_no goods_page_size) w) h
        (λ n t v k. sync_batch-Pulls batch fuel (page_no + 1) n t v k)

  batch-Pulls :
      (next : Snapshot → W → Ending × Snapshot × W) (r : Ending × Snapshot × W)
      → Pulls r
      → ((t : Snapshot) (w : W) → IsPulled started t → Pulls (next t w))
      → Pulls (after_batch services next r)
  unfolding after_batch
  batch-Pulls next (all_read, s, w) h n = n s w h
  batch-Pulls next (page_failed e, s, w) h n = h
  batch-Pulls next (out_of_fuel, s, w) h n = h

  pub sync_batches-Pulls :
      (fuel : ℕ) (bs : List (List ℤ)) (s : Snapshot) (w : W)
      → IsPulled started s
      → Pulls (sync_batches services fuel bs s w)
  unfolding sync_batches
  sync_batches-Pulls fuel [] s w h = h
  sync_batches-Pulls fuel (b ∷ bs) s w h =
      batch-Pulls (sync_batches services fuel bs) (sync_batch services b fuel 1 0 s w)
        (sync_batch-Pulls b fuel 1 0 s w h) (λ t v k. sync_batches-Pulls fuel bs t v k)
