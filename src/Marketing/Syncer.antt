-- ===== src/Marketing/Syncer.antt =====
-- internal/marketing/syncer.go: the pull of the current activities and of their goods.
pub mod Current
pub mod Batches
pub mod Published
pub mod Outcome
pub mod Fuel
use pangu_sales_manager.Base.{
  ℕ, zero, suc, ◌+◌, ◌*◌, ℤ, pos, eq_ℤ, lt_ℤ, is_zero, add64, String, Bool, true, false, not, ◌||◌,
  ltb, leb, List, [], ◌∷◌, ◌++◌, Option, none, some, if◌then◌else◌, keep, map, any, fold, flat_map,
  length, take, drop, insert, int_eq,
}
use pangu_sales_manager.Temu.{
  MarketingEnrollment, MarketingEnrollmentSession, MarketingEnrollmentSkc, MarketingEnrollmentSku,
  MarketingEnrollmentPrice, MarketingEnrollmentListResult, GoodsSummary, GoodsListResult,
  current_session_status,
}
use pangu_sales_manager.Temu.Errors.{RequestError}
use pangu_sales_manager.Marketing.Ids.{contains, unique_sorted}
use pangu_sales_manager.Marketing.State.{Time}
use pangu_sales_manager.Marketing.Snapshot.{Snapshot, successful}
use pangu_sales_manager.Marketing.Retry.{Fallible, retry}

abbrev pub enrollment_page_size : ℕ
enrollment_page_size = 50

abbrev pub goods_page_size : ℕ
goods_page_size = 100

abbrev pub goods_skc_batch_size : ℕ
goods_skc_batch_size = 50

-- The Temu client, the clock and the wait, which all may change what is outside. `wait` is what
-- `Syncer.wait` does for a delay in seconds; `now` is `s.now().UTC()`.
pub record Services (W : Type 0) : Type 0 where
  pub enrollment_page : ℕ → ℕ → W → Fallible MarketingEnrollmentListResult × W
  pub goods_page : List ℤ → ℕ → ℕ → W → Fallible GoodsListResult × W
  pub now : W → Time × W
  pub wait : ℕ → W → Option RequestError × W

abbrev pub is_current : MarketingEnrollmentSession → Bool
is_current session = eq_ℤ session.session_status current_session_status

unfoldable pub current_prices : List ℤ → MarketingEnrollmentSku → MarketingEnrollmentSku
unfolding contains
current_prices active_sites sku = record sku {
  site_price_list = keep (λ p. contains active_sites p.site_id) sku.site_price_list;
}

unfoldable pub current_skus : List ℤ → MarketingEnrollmentSkc → MarketingEnrollmentSkc
unfolding current_prices
current_skus active_sites skc = record skc {
  sku_list = map (current_prices active_sites) skc.sku_list;
}

-- The enrolment with its current sessions only; `active_sites` is the keys of the set the loop
-- over the sessions fills.
with_sessions : MarketingEnrollment → List MarketingEnrollmentSession → Option MarketingEnrollment
unfolding current_skus
with_sessions enrollment [] = none
with_sessions enrollment (s ∷ sessions) = some (record enrollment {
  assigned_sessions = s ∷ sessions;
  skc_list = map (current_skus (map (λ t. t.site_id) (s ∷ sessions))) enrollment.skc_list;
})

unfoldable pub current_enrollment : MarketingEnrollment → Option MarketingEnrollment
unfolding with_sessions
current_enrollment enrollment =
    with_sessions enrollment (keep is_current enrollment.assigned_sessions)

-- The ids of the SKCs of an enrolment with a current session.
current_skcs : MarketingEnrollment → List ℤ
current_skcs enrollment =
    if any (λ s. eq_ℤ s.session_status (pos 2)) enrollment.assigned_sessions
    then keep (λ id. not (is_zero id)) (map (λ k. k.skc_id) enrollment.skc_list)
    else []

-- The ids are the keys of a map, in ascending order: each once.
unfoldable pub current_skc_ids : List MarketingEnrollment → List ℤ
unfolding current_skcs unique_sorted
current_skc_ids enrollments = unique_sorted (flat_map current_skcs enrollments)

-- The loop from `start` on, where `values` is what is left from there. One round takes at least one
-- value, so that the number of values is enough fuel.
batches_loop : ℕ → ℕ → List ℤ → List (List ℤ)
batches_loop size fuel [] = []
batches_loop size zero (v ∷ values) = []
batches_loop size (suc fuel) (v ∷ values) =
    take size (v ∷ values) ∷ batches_loop size fuel (drop size (v ∷ values))

unfoldable pub batches : List ℤ → ℕ → List (List ℤ)
unfolding batches_loop
batches values size = batches_loop size (length values) values

add_enrollment : List MarketingEnrollment → Option MarketingEnrollment → List MarketingEnrollment
add_enrollment enrollments none = enrollments
add_enrollment enrollments (some e) = enrollments ++ e ∷ []

-- What one page adds to the snapshot.
unfoldable pub take_enrollments : Snapshot → List MarketingEnrollment → Snapshot
unfolding add_enrollment current_enrollment
take_enrollments snapshot page = record snapshot {
  enrollment_pages = add64 snapshot.enrollment_pages (pos 1);
  enrollments = fold (λ es e. add_enrollment es (current_enrollment e)) snapshot.enrollments page;
}

add_goods : List (ℤ × GoodsSummary) → GoodsSummary → List (ℤ × GoodsSummary)
unfolding insert
add_goods goods_by_skc goods =
    if is_zero goods.product_skc_id
    then goods_by_skc
    else insert goods.product_skc_id goods goods_by_skc

unfoldable pub take_goods : Snapshot → List GoodsSummary → Snapshot
unfolding add_goods
take_goods snapshot page = record snapshot {
  goods_pages = add64 snapshot.goods_pages (pos 1);
  goods_by_skc = fold add_goods snapshot.goods_by_skc page;
}

-- How a loop over pages ends: it has read all, a request failed, or the fuel is used up.
pub data Ending : Type 0 where
  all_read : Ending
  page_failed : RequestError → Ending
  out_of_fuel : Ending

abbrev pub first_snapshot : Time → Snapshot
first_snapshot now = record {
  started_at = now;
  completed_at = pos 0;
  last_error = "";
  enrollments = [];
  enrollment_pages = pos 0;
  goods_by_skc = [];
  goods_pages = pos 0;
}

module _ {W : Type 0} (services : Services W) where
  -- `next` is the round for the page after this one.
  after_enrollments :
      ℕ
      → (Snapshot → W → Ending × Snapshot × W)
      → Snapshot
      → Fallible MarketingEnrollmentListResult × W
      → Ending × Snapshot × W
  unfolding take_enrollments
  after_enrollments page_no next snapshot (Fallible.failed e, w) = (page_failed e, snapshot, w)
  after_enrollments page_no next snapshot (Fallible.ok page, w) =
      if not (lt_ℤ (pos (page_no * enrollment_page_size)) page.total)
        || ltb (length page.items) enrollment_page_size
      then (all_read, take_enrollments snapshot page.items, w)
      else next (take_enrollments snapshot page.items) w

  -- `page_no` does not wrap around before page.total is reached.
  unfoldable pub sync_enrollments : ℕ → ℕ → Snapshot → W → Ending × Snapshot × W
  unfolding after_enrollments retry
  sync_enrollments zero page_no snapshot w = (out_of_fuel, snapshot, w)
  sync_enrollments (suc fuel) page_no snapshot w =
      after_enrollments page_no (sync_enrollments fuel (page_no + 1)) snapshot
        (retry services.wait (services.enrollment_page page_no enrollment_page_size) w)

  after_goods :
      (ℕ → Snapshot → W → Ending × Snapshot × W)
      → ℕ
      → Snapshot
      → Fallible GoodsListResult × W
      → Ending × Snapshot × W
  unfolding take_goods
  after_goods next received snapshot (Fallible.failed e, w) = (page_failed e, snapshot, w)
  after_goods next received snapshot (Fallible.ok page, w) =
      if not (lt_ℤ (pos (received + length page.goods)) page.total_count)
        || ltb (length page.goods) goods_page_size
      then (all_read, take_goods snapshot page.goods, w)
      else next (received + length page.goods) (take_goods snapshot page.goods) w

  unfoldable pub sync_batch : List ℤ → ℕ → ℕ → ℕ → Snapshot → W → Ending × Snapshot × W
  unfolding after_goods retry
  sync_batch batch zero page_no received snapshot w = (out_of_fuel, snapshot, w)
  sync_batch batch (suc fuel) page_no received snapshot w =
      after_goods (sync_batch batch fuel (page_no + 1)) received snapshot
        (retry services.wait (services.goods_page batch page_no goods_page_size) w)

  after_batch :
      (Snapshot → W → Ending × Snapshot × W) → Ending × Snapshot × W → Ending × Snapshot × W
  after_batch next (all_read, snapshot, w) = next snapshot w
  after_batch next (page_failed e, snapshot, w) = (page_failed e, snapshot, w)
  after_batch next (out_of_fuel, snapshot, w) = (out_of_fuel, snapshot, w)

  unfoldable pub sync_batches : ℕ → List (List ℤ) → Snapshot → W → Ending × Snapshot × W
  unfolding after_batch sync_batch
  sync_batches fuel [] snapshot w = (all_read, snapshot, w)
  sync_batches fuel (batch ∷ rest) snapshot w =
      after_batch (sync_batches fuel rest) (sync_batch batch fuel 1 0 snapshot w)

  unfoldable pub sync_current_goods : ℕ → Snapshot → W → Ending × Snapshot × W
  unfolding sync_batches batches current_skc_ids
  sync_current_goods fuel snapshot w =
      sync_batches fuel (batches (current_skc_ids snapshot.enrollments) goods_skc_batch_size)
        snapshot w

  -- `Sync` and `finish` return the snapshot and an error, and leave the stored snapshot, which is
  -- the first argument, as the third result. A clone is the same value.
  abbrev pub Result : Type 0
  Result = Snapshot × Option RequestError × Snapshot × W

  unfoldable pub finish : Snapshot → Snapshot → RequestError → W → Result
  unfolding successful
  finish stored snapshot e w =
      let (now, v) = services.now w in
      let ended = record snapshot { completed_at = now; last_error = e.text } in
      (ended, some e, if not (successful stored) then ended else stored, v)

  publish : Snapshot → W → Result
  publish snapshot w =
      let (now, v) = services.now w in
      let ended = record snapshot { completed_at = now } in (ended, none, ended, v)

  after_sync_goods : Snapshot → Ending × Snapshot × W → Option Result
  unfolding finish publish
  after_sync_goods stored (all_read, snapshot, w) = some (publish snapshot w)
  after_sync_goods stored (page_failed e, snapshot, w) = some (finish stored snapshot e w)
  after_sync_goods stored (out_of_fuel, snapshot, w) = none

  after_sync_enrollments : ℕ → Snapshot → Ending × Snapshot × W → Option Result
  unfolding finish after_sync_goods sync_current_goods
  after_sync_enrollments fuel stored (all_read, snapshot, w) =
      after_sync_goods stored (sync_current_goods fuel snapshot w)
  after_sync_enrollments fuel stored (page_failed e, snapshot, w) =
      some (finish stored snapshot e w)
  after_sync_enrollments fuel stored (out_of_fuel, snapshot, w) = none

  -- `none` is out of fuel.
  unfoldable pub sync : ℕ → Snapshot → W → Option Result
  unfolding after_sync_enrollments sync_enrollments
  sync fuel stored w =
      let (now, v) = services.now w in
      after_sync_enrollments fuel stored (sync_enrollments fuel 1 (first_snapshot now) v)
