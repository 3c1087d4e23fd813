-- ===== src/Intervals/Steps.antt =====
-- What the statements for one state do to the open intervals.
use pangu_sales_manager.Base.{
  suc, ℤ, int_eq, pos, eq_ℤ, eq_ℤ_iff, eq_ℤ_refl, lt_ℤ, positive, eq_iff, Bool, true, false, List,
  [], ◌∷◌, ◌++◌, Option, none, some, if◌then◌else◌, map, ◌≡◌, refl, ap, ◌∙◌, arith,
}
use pangu_sales_manager.Marketing.Ids.{same_list}
use pangu_sales_manager.Marketing.State.{Time}
use pangu_sales_manager.Marketing.Price.{SkuPriceState}
use pangu_sales_manager.Intervals.{
  IntervalRow, IntervalTable, Statement, insert_interval, scan_sku_price_interval,
  nullable_positive, or_zero, is_open, extended, closed, has_open, new_row, same_sku_price_interval,
  execute, execute_all, and_then,
}
use pangu_sales_manager.Intervals.Table.{Distinct, IsTable, execute-IsTable}
use pangu_sales_manager.Intervals.Find.{
  find_open, has_open-none, found_open, Changed, find_open-Changed,
}

closed_here :
    (at : Time) (r : IntervalRow) → closed r.id at r ≡ record r { update_at = at; end_at = some at }
closed_here at r = rw (eq_ℤ_refl r.id) refl

extended_here : (at : Time) (r : IntervalRow) → extended r.id at r ≡ record r { update_at = at }
extended_here at r = rw (eq_ℤ_refl r.id) refl

pub find_open-closed :
    (at : Time) (sku : ℤ) (rows : List IntervalRow) (r : IntervalRow) (k : ℤ)
    → Distinct rows
    → find_open sku rows ≡ some r
    → find_open k (map (closed r.id at) rows) ≡ (if eq_ℤ sku k then none else find_open k rows)
unfolding Changed
find_open-closed at sku rows r k d h =
    find_open-Changed (closed r.id at) r.id sku (λ x n. rw n refl) rows r k d h refl
      (ap (λ x. x.sku_id) (closed_here at r) ∙ (found_open sku rows r h).1)
    ∙ ap (λ x. if eq_ℤ sku k then (if is_open x then some x else none) else find_open k rows)
        (closed_here at r)

pub find_open-extended :
    (at : Time) (sku : ℤ) (rows : List IntervalRow) (r : IntervalRow) (k : ℤ)
    → Distinct rows
    → find_open sku rows ≡ some r
    → find_open k (map (extended r.id at) rows)
      ≡ (if eq_ℤ sku k then some (record r { update_at = at }) else find_open k rows)
unfolding Changed
find_open-extended at sku rows r k d h =
    find_open-Changed (extended r.id at) r.id sku (λ x n. rw n refl) rows r k d h refl
      (ap (λ x. x.sku_id) (extended_here at r) ∙ (found_open sku rows r h).1)
    ∙ ap (λ x. if eq_ℤ sku k then (if is_open x then some x else none) else find_open k rows)
        (extended_here at r)
    ∙ ap
        (λ b.
          if eq_ℤ sku k
          then (if b then some (record r { update_at = at }) else none)
          else find_open k rows)
        (found_open sku rows r h).0

find_open-append :
    (rows : List IntervalRow) (x : IntervalRow) (k : ℤ)
    → is_open x ≡ true
    → has_open x.sku_id rows ≡ false
    → find_open k (rows ++ x ∷ []) ≡ (if eq_ℤ x.sku_id k then some x else find_open k rows)
unfolding find_open
find_open-append [] x k o h = ground (arith, o)
find_open-append (r ∷ rs) x k o h =
    ground (
      arith,
      find_open-append rs x k o,
      eq_ℤ_iff x.sku_id k,
      eq_ℤ_iff r.sku_id k,
      eq_ℤ_refl r.sku_id,
    )

-- The row shows the state, as of this time.
pub record Shows (at : Time) (s : SkuPriceState) (o : Option IntervalRow) : Type 0 where
  pub row : IntervalRow
  pub found : o ≡ some row
  pub same : same_sku_price_interval (scan_sku_price_interval row) s ≡ true
  pub seen : row.update_at ≡ at

same_list_refl : (xs : List ℤ) → same_list xs xs ≡ true
unfolding same_list
same_list_refl [] = refl
same_list_refl (x ∷ xs) = ground (arith, eq_ℤ_refl x, same_list_refl xs)

stored_id : (a : ℤ) → lt_ℤ a (pos 0) ≡ false → or_zero (nullable_positive a) ≡ a
unfolding or_zero nullable_positive lt_ℤ positive
stored_id a h = ground arith

new_row-same :
    (id : ℤ) (s : SkuPriceState) (at : Time)
    → lt_ℤ s.active_enroll_id (pos 0) ≡ false
    → same_sku_price_interval (scan_sku_price_interval (new_row id s at)) s ≡ true
unfolding same_sku_price_interval scan_sku_price_interval new_row
new_row-same id s at h = ground (
  arith,
  eq_ℤ_refl s.skc_id,
  (eq_iff s.status s.status).1 refl,
  stored_id s.active_enroll_id h,
  eq_ℤ_refl s.active_enroll_id,
  same_list_refl s.candidate_enroll_ids,
  (eq_iff s.currency s.currency).1 refl,
  eq_ℤ_refl s.daily_price,
  eq_ℤ_refl s.activity_price,
  eq_ℤ_refl s.resolved_price,
  (eq_iff s.price_source s.price_source).1 refl,
  (eq_iff s.reason s.reason).1 refl,
)

-- The statements run, and afterwards the SKU's open interval shows the state, and those of the
-- other SKUs are what they were.
pub record Stepped (accepts : Statement → Bool) (at : Time) (s : SkuPriceState)
    (ss : List Statement) (t : IntervalTable) : Type 0 where
  pub after : IntervalTable
  pub runs : execute_all accepts ss t ≡ some after
  pub table : IsTable after
  pub shows : Shows at s (find_open s.sku_id after.rows)
  pub others : (k : ℤ) → eq_ℤ s.sku_id k ≡ false → find_open k after.rows ≡ find_open k t.rows

module _ (accepts : Statement → Bool) (all : (s : Statement) → accepts s ≡ true) where
  pub runs_one :
      (s : Statement) (rest : List Statement) (t u : IntervalTable)
      → execute s t ≡ some u
      → execute_all accepts (s ∷ rest) t ≡ execute_all accepts rest u
  unfolding execute_all and_then
  runs_one s rest t u h = rw (all s, h) refl

  inserted : (at : Time) (s : SkuPriceState) (t : IntervalTable) → IntervalTable
  inserted at s t = record {
    rows = t.rows ++ new_row (pos t.next_id) s at ∷ [];
    next_id = suc t.next_id;
  }

  runs_insert :
      (at : Time) (s : SkuPriceState) (t : IntervalTable)
      → has_open s.sku_id t.rows ≡ false
      → execute (insert_interval s at) t ≡ some (inserted at s t)
  unfolding execute inserted
  runs_insert at s t h = rw (h) refl

  pub step_insert :
      (at : Time) (s : SkuPriceState) (t : IntervalTable)
      → IsTable t
      → lt_ℤ s.active_enroll_id (pos 0) ≡ false
      → find_open s.sku_id t.rows ≡ none
      → Stepped accepts at s (insert_interval s at ∷ []) t
  unfolding execute_all inserted new_row
  step_insert at s t w n h =
      let free = has_open-none s.sku_id t.rows h in
      let row = new_row (pos t.next_id) s at in
      let runs = runs_insert at s t free in
      let found = λ (k : ℤ). find_open-append t.rows row k refl free in
      record {
        after = inserted at s t;
        runs = runs_one (insert_interval s at) [] t (inserted at s t) runs;
        table = execute-IsTable (insert_interval s at) t (inserted at s t) w runs;
        shows = record {
          row = row;
          found = found s.sku_id ∙ rw (eq_ℤ_refl s.sku_id) refl;
          same = new_row-same (pos t.next_id) s at n;
          seen = refl;
        };
        others = λ k d. found k ∙ rw (d) refl;
      }
