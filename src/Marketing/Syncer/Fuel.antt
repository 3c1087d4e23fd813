-- ===== src/Marketing/Syncer/Fuel.antt =====
-- The loops over the pages end.
use pangu_sales_manager.Base.{
  ℕ, zero, suc, ◌+◌, ◌*◌, ◌≤◌, ◌<◌, ℤ, pos, lt_ℤ, ltb, length, true, false, not, ◌||◌, List, [],
  ◌∷◌, none, if_rule, ◌≡◌, ◌≢◌, refl, arith,
}
use pangu_sales_manager.Temu.{MarketingEnrollmentListResult, GoodsListResult}
use pangu_sales_manager.Marketing.Snapshot.{Snapshot}
use pangu_sales_manager.Marketing.Retry.{
  Fallible, Attempts, retry, retry-Attempts, Attempts-requested,
}
use pangu_sales_manager.Marketing.Syncer.{
  Services, Ending, all_read, page_failed, out_of_fuel, after_enrollments, sync_enrollments,
  after_goods, sync_batch, after_batch, sync_batches, sync_current_goods, after_sync_goods,
  after_sync_enrollments, first_snapshot, sync, enrollment_page_size, goods_page_size, batches,
  current_skc_ids, goods_skc_batch_size,
}

-- The totals that the server reports are at most `limit`.
pub record IsBounded {W : Type 0} (services : Services W) (limit : ℕ) : Type 0 where
  pub enrollments_bounded :
      (page_no size : ℕ) (page : MarketingEnrollmentListResult) (w v : W)
      → services.enrollment_page page_no size w ≡ (Fallible.ok page, v)
      → lt_ℤ (pos limit) page.total ≡ false
  pub goods_bounded :
      (batch : List ℤ) (page_no size : ℕ) (page : GoodsListResult) (w v : W)
      → services.goods_page batch page_no size w ≡ (Fallible.ok page, v)
      → lt_ℤ (pos limit) page.total_count ≡ false

below_limit :
    (n limit : ℕ) (total : ℤ)
    → lt_ℤ (pos n) total ≡ true
    → lt_ℤ (pos limit) total ≡ false
    → n < limit
unfolding lt_ℤ
below_limit n limit total p q = ground arith

module _ {W : Type 0} (services : Services W) (limit : ℕ) (bounded : IsBounded services limit) where
  -- The loop has an end.
  pub record Ends (r : Ending × Snapshot × W) : Type 0 where
    pub ends : r.0 ≢ out_of_fuel

  enrollments-Ends :
      (page_no : ℕ) (next : Snapshot → W → Ending × Snapshot × W) (s : Snapshot) (w : W)
      (r : Fallible MarketingEnrollmentListResult × W)
      → Attempts services.wait (services.enrollment_page page_no enrollment_page_size) 0 w r.0 r.1
      → (page_no * 50 < limit → (t : Snapshot) (v : W) → Ends (next t v))
      → Ends (after_enrollments services page_no next s r)
  unfolding after_enrollments
  enrollments-Ends page_no next s w (Fallible.failed e, v) a n = record { ends = λ h. ground arith }
  enrollments-Ends page_no next s w (Fallible.ok page, v) a n =
      let (u, h) = Attempts-requested services.wait _ a in
      let b = bounded.enrollments_bounded page_no 50 page u v h in
      if_rule Ends
        (not (lt_ℤ (pos (page_no * enrollment_page_size)) page.total)
          || ltb (length page.items) enrollment_page_size)
        (λ _. record { ends = λ h. ground arith })
        (λ q. n (below_limit (page_no * 50) limit page.total (ground arith) b) _ v)

  sync_enrollments-Ends :
      (fuel page_no : ℕ) (s : Snapshot) (w : W)
      → page_no * 50 ≤ limit + 50
      → limit + 50 < (page_no + fuel) * 50
      → Ends (sync_enrollments services fuel page_no s w)
  unfolding sync_enrollments
  sync_enrollments-Ends zero page_no s w b f = absurd (omega arith)
  sync_enrollments-Ends (suc fuel) page_no s w b f =
      enrollments-Ends page_no (sync_enrollments services fuel (page_no + 1)) s w
        (retry services.wait (services.enrollment_page page_no enrollment_page_size) w)
        (retry-Attempts services.wait (services.enrollment_page page_no enrollment_page_size) w)
        (λ c t v. sync_enrollments-Ends fuel (page_no + 1) t v (omega arith) (omega arith))

  goods-Ends :
      (batch : List ℤ) (page_no : ℕ) (next : ℕ → Snapshot → W → Ending × Snapshot × W)
      (received : ℕ) (s : Snapshot) (w : W) (r : Fallible GoodsListResult × W)
      → Attempts services.wait (services.goods_page batch page_no goods_page_size) 0 w r.0 r.1
      → ((n : ℕ) → received + 100 ≤ n → n < limit → (t : Snapshot) (v : W) → Ends (next n t v))
      → Ends (after_goods services next received s r)
  unfolding after_goods
  goods-Ends batch page_no next received s w (Fallible.failed e, v) a n = record {
    ends = λ h. ground arith;
  }
  goods-Ends batch page_no next received s w (Fallible.ok page, v) a n =
      let (u, h) = Attempts-requested services.wait _ a in
      let b = bounded.goods_bounded batch page_no 100 page u v h in
      if_rule Ends
        (not (lt_ℤ (pos (received + length page.goods)) page.total_count)
          || ltb (length page.goods) goods_page_size)
        (λ _. record { ends = λ h. ground arith })
        (λ q.
          n (received + length page.goods) (ground arith)
            (below_limit (received + length page.goods) limit page.total_count (ground arith) b) _
            v)

  sync_batch-Ends :
      (batch : List ℤ) (fuel page_no received : ℕ) (s : Snapshot) (w : W)
      → received ≤ limit
      → limit < fuel * 100 + received
      → Ends (sync_batch services batch fuel page_no received s w)
  unfolding sync_batch
  sync_batch-Ends batch zero page_no received s w b f = absurd (omega arith)
  sync_batch-Ends batch (suc fuel) page_no received s w b f =
      goods-Ends batch page_no (sync_batch services batch fuel (page_no + 1)) received s w
        (retry services.wait (services.goods_page batch page_no goods_page_size) w)
        (retry-Attempts services.wait (services.goods_page batch page_no goods_page_size) w)
        (λ n g c t v. sync_batch-Ends batch fuel (page_no + 1) n t v (omega arith) (omega arith))

  batch-Ends :
      (next : Snapshot → W → Ending × Snapshot × W) (r : Ending × Snapshot × W)
      → Ends r
      → ((t : Snapshot) (v : W) → Ends (next t v))
      → Ends (after_batch services next r)
  unfolding after_batch
  batch-Ends next (all_read, s, w) h n = n s w
  batch-Ends next (page_failed e, s, w) h n = record { ends = λ h. ground arith }
  batch-Ends next (out_of_fuel, s, w) h n = absurd (h.ends refl)

  sync_batches-Ends :
      (fuel : ℕ) (bs : List (List ℤ)) (s : Snapshot) (w : W)
      → limit < fuel * 100
      → Ends (sync_batches services fuel bs s w)
  unfolding sync_batches
  sync_batches-Ends fuel [] s w f = record { ends = λ h. ground arith }
  sync_batches-Ends fuel (b ∷ bs) s w f =
      batch-Ends (sync_batches services fuel bs) (sync_batch services b fuel 1 0 s w)
        (sync_batch-Ends b fuel 1 0 s w (omega arith) (omega arith))
        (λ t v. sync_batches-Ends fuel bs t v f)

  goods_end :
      (stored : Snapshot) (r : Ending × Snapshot × W)
      → Ends r
      → after_sync_goods services stored r ≢ none
  unfolding after_sync_goods
  goods_end stored (all_read, s, w) h = λ q. ground arith
  goods_end stored (page_failed e, s, w) h = λ q. ground arith
  goods_end stored (out_of_fuel, s, w) h = absurd (h.ends refl)

  enrollments_end :
      (fuel : ℕ) (stored : Snapshot) (r : Ending × Snapshot × W)
      → limit < fuel * 50
      → Ends r
      → after_sync_enrollments services fuel stored r ≢ none
  unfolding after_sync_enrollments sync_current_goods
  enrollments_end fuel stored (all_read, s, w) f h =
      goods_end stored
        (sync_batches services fuel (batches (current_skc_ids s.enrollments) goods_skc_batch_size) s
          w)
        (sync_batches-Ends fuel (batches (current_skc_ids s.enrollments) goods_skc_batch_size) s w
          (omega arith))
  enrollments_end fuel stored (page_failed e, s, w) f h = λ q. ground arith
  enrollments_end fuel stored (out_of_fuel, s, w) f h = absurd (h.ends refl)

  -- Where the totals that the server reports are at most `limit`, the loops of `Sync` end: each
  -- needs at most `fuel` rounds, for any `fuel` with limit < 50 fuel.
  pub sync_ends :
      (fuel : ℕ) (stored : Snapshot) (w : W)
      → limit < fuel * 50
      → sync services fuel stored w ≢ none
  unfolding sync
  sync_ends fuel stored w f =
      enrollments_end fuel stored
        (sync_enrollments services fuel 1 (first_snapshot (services.now w).0) (services.now w).1) f
        (sync_enrollments-Ends fuel 1 (first_snapshot (services.now w).0) (services.now w).1
          (omega arith) (omega arith))
