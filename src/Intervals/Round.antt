-- ===== src/Intervals/Round.antt =====
-- One round of the loop over the states.
use pangu_sales_manager.Base.{
  ℤ, int_eq, pos, eq_ℤ, eq_ℤ_iff, eq_ℤ_refl, lt_ℤ, Bool, true, false, ◌&&◌, List, [], ◌∷◌, Option,
  none, some, if◌then◌else◌, if_rule, keep, map, fold, lookup, insert, lookup-insert, ◌≡◌, refl,
  ◌∙◌, subst, arith, Bool-cases, inl, inr,
}
use pangu_sales_manager.Marketing.State.{Time}
use pangu_sales_manager.Marketing.Price.{SkuPriceState}
use pangu_sales_manager.Intervals.{
  IntervalRow, IntervalTable, SkuPriceInterval, Statement, extend_interval, close_interval,
  insert_interval, scan_sku_price_interval, is_open, extended, closed, has_open,
  same_sku_price_interval, execute, execute_all, open_intervals, state_statements,
}
use pangu_sales_manager.Intervals.Table.{Distinct, IsTable, execute-IsTable}
use pangu_sales_manager.Intervals.Find.{find_open, find_open-none}
use pangu_sales_manager.Intervals.Steps.{
  find_open-closed, find_open-extended, Stepped, runs_one, step_insert,
}

-- The open interval that the program has read.
abbrev pub scanned : Option IntervalRow → Option SkuPriceInterval
scanned none = none
scanned (some r) = some (scan_sku_price_interval r)

abbrev or_found : Option SkuPriceInterval → Option SkuPriceInterval → Option SkuPriceInterval
or_found m none = m
or_found m (some r) = some r

abbrev read : List (ℤ × SkuPriceInterval) → IntervalRow → List (ℤ × SkuPriceInterval)
read m row = insert row.sku_id (scan_sku_price_interval row) m

or_found-none : (o : Option SkuPriceInterval) → or_found none o ≡ o
or_found-none none = refl
or_found-none (some x) = refl

opened :
    (m : List (ℤ × SkuPriceInterval)) (r : IntervalRow) (rs : List IntervalRow) (k : ℤ)
    → is_open r ≡ true
    → is_open r && has_open r.sku_id rs ≡ false
    → or_found (lookup k (read m r)) (scanned (find_open k rs))
      ≡ or_found (lookup k m) (scanned (if eq_ℤ r.sku_id k then some r else find_open k rs))
opened m r rs k y b = elim (Bool-cases (eq_ℤ r.sku_id k)) [
  | inl e ↦
      let free : has_open k rs ≡ false =
        subst (λ j. has_open j rs ≡ false) ((eq_ℤ_iff r.sku_id k).0 e) (ground (arith, y, b)) in
      rw (lookup-insert r.sku_id k (scan_sku_price_interval r) m, e, find_open-none k rs free) refl
  | inr n ↦ rw (lookup-insert r.sku_id k (scan_sku_price_interval r) m, n) refl
]

lookup-read :
    (rows : List IntervalRow) (m : List (ℤ × SkuPriceInterval)) (k : ℤ)
    → Distinct rows
    → lookup k (fold read m (keep is_open rows))
      ≡ or_found (lookup k m) (scanned (find_open k rows))
unfolding find_open
lookup-read [] m k d = refl
lookup-read (r ∷ rs) m k (a, b, d) = elim (Bool-cases (is_open r)) [
  | inr n ↦ rw (n) (lookup-read rs m k d)
  | inl y ↦ rw (y) (lookup-read rs (read m r) k d ∙ opened m r rs k y b)
]

-- The map has the open interval of each SKU.
pub lookup-open_intervals :
    (t : IntervalTable) (k : ℤ)
    → IsTable t
    → lookup k (open_intervals t) ≡ scanned (find_open k t.rows)
unfolding open_intervals lookup
lookup-open_intervals t k w =
    lookup-read t.rows [] k w.distinct ∙ or_found-none (scanned (find_open k t.rows))

module _ (accepts : Statement → Bool) (all : (s : Statement) → accepts s ≡ true) where
  step_extend :
      (at : Time) (s : SkuPriceState) (t : IntervalTable) (r : IntervalRow)
      → IsTable t
      → find_open s.sku_id t.rows ≡ some r
      → same_sku_price_interval (scan_sku_price_interval r) s ≡ true
      → Stepped accepts at s (extend_interval r.id at ∷ []) t
  unfolding execute execute_all same_sku_price_interval scan_sku_price_interval
  step_extend at s t r w h q =
      let u : IntervalTable = record t { rows = map (extended r.id at) t.rows } in
      let found = λ (k : ℤ). find_open-extended at s.sku_id t.rows r k w.distinct h in
      record {
        after = u;
        runs = runs_one accepts all (extend_interval r.id at) [] t u refl;
        table = execute-IsTable (extend_interval r.id at) t u w refl;
        shows = record {
          row = record r { update_at = at };
          found = found s.sku_id ∙ rw (eq_ℤ_refl s.sku_id) refl;
          same = q;
          seen = refl;
        };
        others = λ k d. found k ∙ rw (d) refl;
      }

  step_replace :
      (at : Time) (s : SkuPriceState) (t : IntervalTable) (r : IntervalRow)
      → IsTable t
      → lt_ℤ s.active_enroll_id (pos 0) ≡ false
      → find_open s.sku_id t.rows ≡ some r
      → Stepped accepts at s (close_interval r.id at ∷ insert_interval s at ∷ []) t
  unfolding execute
  step_replace at s t r w n h =
      let u : IntervalTable = record t { rows = map (closed r.id at) t.rows } in
      let found = λ (k : ℤ). find_open-closed at s.sku_id t.rows r k w.distinct h in
      let next =
        step_insert accepts all at s u (execute-IsTable (close_interval r.id at) t u w refl) n
          (found s.sku_id ∙ rw (eq_ℤ_refl s.sku_id) refl) in
      record {
        after = next.after;
        runs =
            runs_one accepts all (close_interval r.id at) (insert_interval s at ∷ []) t u refl
            ∙ next.runs;
        table = next.table;
        shows = next.shows;
        others = λ k d. next.others k d ∙ found k ∙ rw (d) refl;
      }

  pub step_state :
      (at : Time) (s : SkuPriceState) (t : IntervalTable) (o : Option IntervalRow)
      → IsTable t
      → lt_ℤ s.active_enroll_id (pos 0) ≡ false
      → find_open s.sku_id t.rows ≡ o
      → Stepped accepts at s (state_statements at s (scanned o)) t
  unfolding state_statements scan_sku_price_interval
  step_state at s t none w n h = step_insert accepts all at s t w n h
  step_state at s t (some r) w n h =
      if_rule (λ ss. Stepped accepts at s ss t)
        (same_sku_price_interval (scan_sku_price_interval r) s) (λ y. step_extend at s t r w h y)
        (λ _. step_replace at s t r w n h)
