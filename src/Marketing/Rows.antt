-- ===== src/Marketing/Rows.antt =====
-- internal/marketing/activity_rows.go: the activity snapshot as rows of a table.
pub mod Sessions
pub mod Filter
pub mod Summary
use pangu_sales_manager.Base.{
  ℕ, suc, ◌+◌, ℤ, pos, eq_ℤ, lt_ℤ, is_zero, add64, sub64, max_zero, String, str_eq, Bool, true,
  false, not, ◌&&◌, ◌||◌, List, [], ◌∷◌, ◌++◌, Option, none, some, if◌then◌else◌, keep, map, any,
  fold, flat_map, length, sort_by, lookup, int_eq, first_by,
}
use pangu_sales_manager.Temu.{
  MarketingEnrollment, MarketingEnrollmentSession, MarketingEnrollmentSkc, MarketingEnrollmentSku,
  MarketingEnrollmentPrice, GoodsSummary,
}
use pangu_sales_manager.Marketing.State.{Time}
use pangu_sales_manager.Marketing.Snapshot.{Snapshot, successful}
use pangu_sales_manager.Marketing.Observer.{first_non_empty}
use pangu_sales_manager.Marketing.RowData.{
  ActivityRowFilter, ActivitySnapshotRow, ActivitySnapshotSummary, base_row, enrollment_sku_count,
  zero_price, zero_session, activity_row_with_session_and_price,
}

-- The loop over the sessions that stops at the first current one.
unfoldable pub has_current_session : List MarketingEnrollmentSession → Bool
has_current_session sessions = any (λ s. eq_ℤ s.session_status (pos 2)) sessions

unfoldable pub summarize_enrollment :
    ActivitySnapshotSummary → MarketingEnrollment → ActivitySnapshotSummary
unfolding has_current_session
summarize_enrollment summary enrollment = record summary {
  total_activity_stock = add64 summary.total_activity_stock enrollment.activity_stock;
  total_remaining_activity_stock =
      add64 summary.total_remaining_activity_stock enrollment.remaining_activity_stock;
  stock_consumed_enrollment_count =
      if lt_ℤ enrollment.remaining_activity_stock enrollment.activity_stock
      then suc summary.stock_consumed_enrollment_count
      else summary.stock_consumed_enrollment_count;
  active_enrollment_count =
      if has_current_session enrollment.assigned_sessions
      then suc summary.active_enrollment_count
      else summary.active_enrollment_count;
}

unfoldable pub summarize_snapshot : Snapshot → ActivitySnapshotSummary
unfolding summarize_enrollment
summarize_snapshot snapshot =
    fold summarize_enrollment
      (record {
        enrollment_count = length snapshot.enrollments;
        active_enrollment_count = 0;
        stock_consumed_enrollment_count = 0;
        total_activity_stock = pos 0;
        total_remaining_activity_stock = pos 0;
        enrollment_pages = snapshot.enrollment_pages;
        goods_skc_count = length snapshot.goods_by_skc;
        goods_pages = snapshot.goods_pages;
      })
      snapshot.enrollments

lists_sku : GoodsSummary → ℤ → Bool
lists_sku goods sku_id = any (λ s. eq_ℤ s.product_sku_id sku_id) goods.product_sku_summaries

unfoldable pub sku_listed : List (ℤ × GoodsSummary) → ℤ → ℤ → Bool
unfolding lists_sku
sku_listed goods_by_skc skc_id sku_id = elim (lookup skc_id goods_by_skc) [
  | none ↦ false
  | some goods ↦ lists_sku goods sku_id
]

-- A session and a price go together, unless both name a site and the sites differ.
abbrev pub pairs : MarketingEnrollmentSession → MarketingEnrollmentPrice → Bool
pairs session price = not (
    not (is_zero session.site_id)
    && not (is_zero price.site_id)
    && not (eq_ℤ session.site_id price.site_id))

-- The rows of one session: one for each price that goes with it, or one without a price.
session_rows :
    ActivitySnapshotRow
    → List MarketingEnrollmentPrice
    → MarketingEnrollmentSession
    → List ActivitySnapshotRow
session_rows base prices session =
    if any (pairs session) prices
    then map (activity_row_with_session_and_price base session) (keep (pairs session) prices)
    else activity_row_with_session_and_price base session zero_price ∷ []

-- `matchedPrices[index]` after the loop over the sessions.
abbrev pub is_matched : List MarketingEnrollmentSession → MarketingEnrollmentPrice → Bool
is_matched sessions price = any (λ s. pairs s price) sessions

or_base : ActivitySnapshotRow → List ActivitySnapshotRow → List ActivitySnapshotRow
or_base base [] = base ∷ []
or_base base (r ∷ rs) = r ∷ rs

unfoldable pub rows_for_sessions :
    ActivitySnapshotRow
    → List MarketingEnrollmentSession
    → List MarketingEnrollmentPrice
    → List ActivitySnapshotRow
unfolding session_rows or_base activity_row_with_session_and_price
rows_for_sessions base sessions prices = or_base base (
    flat_map (session_rows base prices) sessions
    ++ map (activity_row_with_session_and_price base zero_session)
        (keep (λ p. not (is_matched sessions p)) prices))

-- A filter field that is 0 lets everything through.
abbrev pub passes : ℤ → ℤ → Bool
passes wanted actual = is_zero wanted || eq_ℤ actual wanted

unfoldable pub filtered_rows :
    List ActivitySnapshotRow → ActivityRowFilter → List ActivitySnapshotRow
filtered_rows rows filter =
    keep
      (λ row.
        passes filter.skc_id row.skc_id
        && passes filter.sku_id row.sku_id
        && passes filter.site_id row.site_id)
      rows

with_goods : Option GoodsSummary → ActivitySnapshotRow → ActivitySnapshotRow
with_goods none row = row
with_goods (some goods) row = record row {
  goods_record_loaded = true;
  skc_site_status = goods.skc_site_status;
}

unfoldable pub skc_row :
    List (ℤ × GoodsSummary) → ActivitySnapshotRow → MarketingEnrollmentSkc → ActivitySnapshotRow
unfolding with_goods
skc_row goods_by_skc base skc = with_goods (lookup skc.skc_id goods_by_skc) (record base {
  skc_id = skc.skc_id;
  currency = first_non_empty (skc.currency ∷ base.currency ∷ []);
})

unfoldable pub sku_row :
    List (ℤ × GoodsSummary)
    → ActivitySnapshotRow
    → MarketingEnrollmentSkc
    → MarketingEnrollmentSku
    → ActivitySnapshotRow
sku_row goods_by_skc base skc sku = record base {
  sku_id = sku.sku_id;
  currency = first_non_empty (sku.currency ∷ base.currency ∷ []);
  sku_listed_in_current_goods = sku_listed goods_by_skc skc.skc_id sku.sku_id;
}

module _ (snapshot : Snapshot) (enrollment : MarketingEnrollment) (filter : ActivityRowFilter) where
  sku_rows :
      ActivitySnapshotRow
      → MarketingEnrollmentSkc
      → MarketingEnrollmentSku
      → List ActivitySnapshotRow
  sku_rows row skc sku =
      if not (passes filter.sku_id sku.sku_id)
      then []
      else rows_for_sessions (sku_row snapshot.goods_by_skc row skc sku)
          enrollment.assigned_sessions sku.site_price_list

  -- `len(skc.SKUList) == 0` is the first clause.
  skc_rows_of :
      ActivitySnapshotRow
      → MarketingEnrollmentSkc
      → List MarketingEnrollmentSku
      → List ActivitySnapshotRow
  unfolding sku_rows
  skc_rows_of row skc [] = rows_for_sessions row enrollment.assigned_sessions []
  skc_rows_of row skc (sku ∷ skus) = flat_map (sku_rows row skc) (sku ∷ skus)

  skc_rows : MarketingEnrollmentSkc → List ActivitySnapshotRow
  unfolding skc_rows_of
  skc_rows skc =
      if not (passes filter.skc_id skc.skc_id)
      then []
      else skc_rows_of (skc_row snapshot.goods_by_skc (base_row enrollment) skc) skc skc.sku_list

  enrollment_rows_of : List MarketingEnrollmentSkc → List ActivitySnapshotRow
  unfolding skc_rows
  enrollment_rows_of [] =
      filtered_rows (rows_for_sessions (base_row enrollment) enrollment.assigned_sessions []) filter
  enrollment_rows_of (skc ∷ skcs) = filtered_rows (flat_map skc_rows (skc ∷ skcs)) filter

  unfoldable pub enrollment_rows : List ActivitySnapshotRow
  unfolding enrollment_rows_of
  enrollment_rows = enrollment_rows_of enrollment.skc_list

abbrev pub compare_rows : ActivitySnapshotRow → ActivitySnapshotRow → Bool
compare_rows =
    first_by (λ r. r.skc_id)
      (first_by (λ r. r.sku_id)
        (first_by (λ r. r.activity_type)
          (first_by (λ r. r.enroll_id)
            (first_by (λ r. r.site_id) (λ left right. lt_ℤ left.session_id right.session_id)))))

rows_or_skip : Snapshot → ActivityRowFilter → MarketingEnrollment → List ActivitySnapshotRow
unfolding enrollment_rows
rows_or_skip snapshot filter enrollment =
    if not (passes filter.enroll_id enrollment.enroll_id)
    then []
    else if not (passes filter.activity_type enrollment.activity_type)
    then []
    else enrollment_rows snapshot enrollment filter

-- `none` is `ErrSnapshotUnavailable`.
unfoldable pub activity_rows :
    ActivityRowFilter
    → Snapshot
    → Option (List ActivitySnapshotRow × ActivitySnapshotSummary × Snapshot)
unfolding rows_or_skip sort_by successful
activity_rows filter snapshot =
    if not (successful snapshot)
    then none
    else some (
      sort_by compare_rows (flat_map (rows_or_skip snapshot filter) snapshot.enrollments),
      summarize_snapshot snapshot,
      snapshot,
    )
