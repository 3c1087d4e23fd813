-- ===== src/Marketing/Rows/Filter.antt =====
-- Every row of the table passes the filter, and the table is sorted.
use pangu_sales_manager.Base.{
  int_eq, true, not, List, [], ◌∷◌, Option, none, some, if◌then◌else◌, if_rule, flat_map, sort_by,
  lookup, All, All-keep, All-keep_of, All-mono, All-flat_map, All-sort_by, IsOrdered,
  sort_by-IsOrdered, first_by-IsOrderTest, by-IsOrderTest, IsOrderTest, ◌≡◌, refl, ap, arith,
}
use pangu_sales_manager.Temu.{
  MarketingEnrollment, MarketingEnrollmentSession, MarketingEnrollmentSkc, MarketingEnrollmentSku,
  MarketingEnrollmentPrice, GoodsSummary,
}
use pangu_sales_manager.Marketing.Snapshot.{Snapshot, successful}
use pangu_sales_manager.Marketing.Rows.Sessions.{All-rows_for_sessions}
use pangu_sales_manager.Marketing.Rows.{
  rows_for_sessions, passes, filtered_rows, with_goods, skc_row, sku_row, sku_rows, skc_rows_of,
  skc_rows, enrollment_rows_of, enrollment_rows, compare_rows, rows_or_skip, activity_rows,
  summarize_snapshot,
}
use pangu_sales_manager.Marketing.RowData.{
  ActivityRowFilter, ActivitySnapshotRow, ActivitySnapshotSummary,
  activity_row_with_session_and_price, base_row,
}

All-both :
    {A : Type 0} {P Q R : A → Type 0} (xs : List A)
    → ((x : A) → P x → Q x → R x)
    → All P xs
    → All Q xs
    → All R xs
All-both [] f p q = tt
All-both (x ∷ xs) f (p, ps) (q, qs) = (f x p q, All-both xs f ps qs)

-- The row is one of the enrolment.
abbrev IsOf : MarketingEnrollment → ActivitySnapshotRow → Type 0
IsOf e r = (r.enroll_id ≡ e.enroll_id) × (r.activity_type ≡ e.activity_type)

sessions-IsOf :
    (e : MarketingEnrollment) (row : ActivitySnapshotRow)
    (sessions : List MarketingEnrollmentSession) (prices : List MarketingEnrollmentPrice)
    → IsOf e row
    → All (IsOf e) (rows_for_sessions row sessions prices)
unfolding activity_row_with_session_and_price
sessions-IsOf e row sessions prices h =
    All-rows_for_sessions (IsOf e) row sessions prices h (λ s p. h)

base_row-IsOf : (e : MarketingEnrollment) → IsOf e (base_row e)
unfolding base_row
base_row-IsOf e = (refl, refl)

with_goods-IsOf :
    (e : MarketingEnrollment) (goods : Option GoodsSummary) (row : ActivitySnapshotRow)
    → IsOf e row
    → IsOf e (with_goods goods row)
unfolding with_goods
with_goods-IsOf e none row h = h
with_goods-IsOf e (some goods) row h = h

module _ (snapshot : Snapshot) (e : MarketingEnrollment) (filter : ActivityRowFilter) where
  skc_row-IsOf :
      (skc : MarketingEnrollmentSkc) → IsOf e (skc_row snapshot.goods_by_skc (base_row e) skc)
  unfolding skc_row
  skc_row-IsOf skc = with_goods-IsOf e (lookup skc.skc_id snapshot.goods_by_skc) _ (base_row-IsOf e)

  skc_rows_of-IsOf :
      (row : ActivitySnapshotRow) (skc : MarketingEnrollmentSkc)
      (skus : List MarketingEnrollmentSku)
      → IsOf e row
      → All (IsOf e) (skc_rows_of snapshot e filter row skc skus)
  unfolding skc_rows_of sku_rows sku_row
  skc_rows_of-IsOf row skc [] h = sessions-IsOf e row e.assigned_sessions [] h
  skc_rows_of-IsOf row skc (sku ∷ skus) h =
      All-flat_map (IsOf e) (sku_rows snapshot e filter row skc) (sku ∷ skus) λ u _.
        if_rule (All (IsOf e)) (not (passes filter.sku_id u.sku_id)) (λ _. tt)
          (λ _. sessions-IsOf e _ e.assigned_sessions u.site_price_list h)

  skc_rows-IsOf : (skc : MarketingEnrollmentSkc) → All (IsOf e) (skc_rows snapshot e filter skc)
  unfolding skc_rows
  skc_rows-IsOf skc =
      if_rule (All (IsOf e)) (not (passes filter.skc_id skc.skc_id)) (λ _. tt)
        (λ _. skc_rows_of-IsOf _ skc skc.sku_list (skc_row-IsOf skc))

  -- The row passes the three tests of `filtered_rows`.
  abbrev IsWanted : ActivitySnapshotRow → Type 0
  IsWanted r =
      (passes filter.skc_id r.skc_id ≡ true)
      × (passes filter.sku_id r.sku_id ≡ true)
      × (passes filter.site_id r.site_id ≡ true)

  filtered :
      (rows : List ActivitySnapshotRow)
      → All (IsOf e) rows
      → All (IsOf e) (filtered_rows rows filter) × All IsWanted (filtered_rows rows filter)
  unfolding filtered_rows
  filtered rows h = (
    All-keep_of (IsOf e) _ rows h,
    All-mono _ IsWanted (filtered_rows rows filter)
        (λ r q. (ground arith, ground arith, ground arith)) (All-keep _ rows),
  )

  enrollment_rows_of-IsOf :
      (skcs : List MarketingEnrollmentSkc)
      → All (IsOf e) (enrollment_rows_of snapshot e filter skcs)
        × All IsWanted (enrollment_rows_of snapshot e filter skcs)
  unfolding enrollment_rows_of
  enrollment_rows_of-IsOf [] =
      filtered _ (sessions-IsOf e (base_row e) e.assigned_sessions [] (base_row-IsOf e))
  enrollment_rows_of-IsOf (skc ∷ skcs) =
      filtered _
        (All-flat_map (IsOf e) (skc_rows snapshot e filter) (skc ∷ skcs) (λ k _. skc_rows-IsOf k))

-- What the filter asks of a row.
pub record PassesFilter (filter : ActivityRowFilter) (r : ActivitySnapshotRow) : Type 0 where
  pub skc_passes : passes filter.skc_id r.skc_id ≡ true
  pub sku_passes : passes filter.sku_id r.sku_id ≡ true
  pub site_passes : passes filter.site_id r.site_id ≡ true
  pub enroll_passes : passes filter.enroll_id r.enroll_id ≡ true
  pub type_passes : passes filter.activity_type r.activity_type ≡ true

passes-PassesFilter :
    (filter : ActivityRowFilter) (snapshot : Snapshot) (e : MarketingEnrollment)
    (r : ActivitySnapshotRow)
    → passes filter.enroll_id e.enroll_id ≡ true
    → passes filter.activity_type e.activity_type ≡ true
    → IsOf e r
    → IsWanted snapshot e filter r
    → PassesFilter filter r
passes-PassesFilter filter snapshot e r h g (p, q) (a, b, c) = record {
  skc_passes = a;
  sku_passes = b;
  site_passes = c;
  enroll_passes = rw p h;
  type_passes = rw q g;
}

enrollment_rows-PassesFilter :
    (snapshot : Snapshot) (filter : ActivityRowFilter) (e : MarketingEnrollment)
    → passes filter.enroll_id e.enroll_id ≡ true
    → passes filter.activity_type e.activity_type ≡ true
    → All (PassesFilter filter) (enrollment_rows snapshot e filter)
unfolding enrollment_rows
enrollment_rows-PassesFilter snapshot filter e h g =
    let (own, wanted) = enrollment_rows_of-IsOf snapshot e filter e.skc_list in
    All-both (enrollment_rows_of snapshot e filter e.skc_list)
      (λ r p q. passes-PassesFilter filter snapshot e r h g p q) own wanted

rows_or_skip-PassesFilter :
    (snapshot : Snapshot) (filter : ActivityRowFilter) (e : MarketingEnrollment)
    → All (PassesFilter filter) (rows_or_skip snapshot filter e)
unfolding rows_or_skip
rows_or_skip-PassesFilter snapshot filter e =
    if_rule (All (PassesFilter filter)) (not (passes filter.enroll_id e.enroll_id)) (λ _. tt)
      (λ h.
        if_rule (All (PassesFilter filter)) (not (passes filter.activity_type e.activity_type))
          (λ _. tt)
          (λ g. enrollment_rows-PassesFilter snapshot filter e (ground arith) (ground arith)))

compare_rows-IsOrderTest : IsOrderTest compare_rows
compare_rows-IsOrderTest = first_by-IsOrderTest _ _ (
    first_by-IsOrderTest _ _ (
      first_by-IsOrderTest _ _
        (first_by-IsOrderTest _ _ (first_by-IsOrderTest _ _ (by-IsOrderTest (λ r. r.session_id))))))

-- For a successful snapshot the table is there, each of its rows passes all five fields of the
-- filter, and the rows are in the order of SKC, SKU, activity type, enrolment, site and session:
-- no row comes before an earlier one.
pub activity_rows-PassesFilter :
    (filter : ActivityRowFilter) (snapshot : Snapshot)
    → successful snapshot ≡ true
    → (rows : List ActivitySnapshotRow) × (summary : ActivitySnapshotSummary) × (activity_rows
          filter snapshot
        ≡ some (rows, summary, snapshot))
      × All (PassesFilter filter) rows
      × IsOrdered compare_rows rows
unfolding activity_rows
activity_rows-PassesFilter filter snapshot h =
    let rows = flat_map (rows_or_skip snapshot filter) snapshot.enrollments in
    (
      sort_by compare_rows rows,
      summarize_snapshot snapshot,
      ap
          (λ b.
            if not b
            then none
            else some (sort_by compare_rows rows, summarize_snapshot snapshot, snapshot))
          h,
      All-sort_by compare_rows (PassesFilter filter) rows (
          All-flat_map (PassesFilter filter) (rows_or_skip snapshot filter) snapshot.enrollments
            (λ e _. rows_or_skip-PassesFilter snapshot filter e)),
      sort_by-IsOrdered compare_rows compare_rows-IsOrderTest rows,
    )
