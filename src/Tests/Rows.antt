-- ===== src/Tests/Rows.antt =====
-- Runs of the table of activities.
use pangu_sales_manager.Base.{
  ℕ, ◌≤◌, ℤ, pos, Bool, true, false, List, [], ◌∷◌, Option, none, some, In, here, there, All, any,
  keep, length, IsOrdered, ◌≡◌, refl, arith,
}
use pangu_sales_manager.Temu.{MarketingEnrollmentSession, MarketingEnrollmentPrice}
use pangu_sales_manager.Marketing.Rows.{activity_rows, compare_rows}
use pangu_sales_manager.Marketing.RowData.{
  ActivityRowFilter, ActivitySnapshotRow, ActivitySnapshotSummary, base_row,
}
use pangu_sales_manager.Marketing.Rows.Filter.{PassesFilter, activity_rows-PassesFilter}
use pangu_sales_manager.Tests.Data.{running, finished, price, enrollment, snapshot}

abbrev row : ActivitySnapshotRow
row = base_row (enrollment (pos 1) (pos 90) (pos 400))

abbrev sessions : List MarketingEnrollmentSession
sessions = running ∷ finished ∷ []

abbrev prices : List MarketingEnrollmentPrice
prices = price (pos 9) (pos 400) ∷ price (pos 6) (pos 300) ∷ []

abbrev one_enrollment : ActivityRowFilter
one_enrollment = record {
  skc_id = pos 7;
  sku_id = pos 0;
  site_id = pos 0;
  enroll_id = pos 2;
  activity_type = pos 0;
}

activity_rows-PassesFilter_example :
    (rows : List ActivitySnapshotRow) × (summary : ActivitySnapshotSummary) × (activity_rows
        one_enrollment
        (snapshot (pos 10) (pos 90))
      ≡ some (rows, summary, snapshot (pos 10) (pos 90)))
    × All (PassesFilter one_enrollment) rows
    × IsOrdered compare_rows rows
unfolding pangu_sales_manager.Marketing.Snapshot.successful pangu_sales_manager.Base.eq_ℤ
activity_rows-PassesFilter_example =
    activity_rows-PassesFilter one_enrollment (snapshot (pos 10) (pos 90)) refl
