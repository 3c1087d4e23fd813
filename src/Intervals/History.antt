-- ===== src/Intervals/History.antt =====
-- An update changes no interval that is closed.
use pangu_sales_manager.Base.{
  ℤ, int_eq, eq_ℤ, eq_ℤ_comm, Bool, false, List, [], ◌∷◌, Option, none, some, if_rule, keep, map,
  any, fold_keeps, flat_map, All-In, All-keep_of, All-mono, insert, lookup, All, All-append,
  All-flat_map, All-insert, All-lookup, In, here, there, In-map, In-append_left, ◌≡◌, refl, ◌∙◌,
  subst, arith,
}
use pangu_sales_manager.Marketing.Ids.{contains}
use pangu_sales_manager.Marketing.State.{Time}
use pangu_sales_manager.Marketing.Price.{SkuPriceState}
use pangu_sales_manager.Intervals.{
  IntervalRow, IntervalTable, SkuPriceInterval, is_open, Statement, extend_interval, close_interval,
  insert_interval, extended, closed, has_open, scan_sku_price_interval, same_sku_price_interval,
  execute, and_then, execute_all, open_intervals, without_reason, state_statements, statements_for,
  missing_statements, all_statements, committed, update_sku_price_intervals,
}
use pangu_sales_manager.Intervals.Table.{Distinct, IsTable}

module _ (r : IntervalRow) where
  -- The id is not the row's.
  abbrev Misses : ℤ → Type 0
  Misses id = eq_ℤ r.id id ≡ false

  -- The statement is not about the row.
  abbrev Spares : Statement → Type 0
  Spares (extend_interval id at) = Misses id
  Spares (close_interval id at) = Misses id
  Spares (insert_interval state at) = Unit

  -- The row is in the table, if there is one.
  abbrev Holds : Option IntervalTable → Type 0
  Holds none = Unit
  Holds (some t) = In r t.rows

  extended_spares : (id : ℤ) (at : Time) → Misses id → extended id at r ≡ r
  extended_spares id at m = rw m refl

  closed_spares : (id : ℤ) (at : Time) → Misses id → closed id at r ≡ r
  closed_spares id at m = rw m refl

  execute-Holds : (s : Statement) (t : IntervalTable) → Spares s → In r t.rows → Holds (execute s t)
  unfolding execute
  execute-Holds (extend_interval id at) t m i =
      subst (λ x. In x (map (extended id at) t.rows)) (extended_spares id at m)
        (In-map (extended id at) i)
  execute-Holds (close_interval id at) t m i =
      subst (λ x. In x (map (closed id at) t.rows)) (closed_spares id at m)
        (In-map (closed id at) i)
  execute-Holds (insert_interval state at) t m i =
      if_rule Holds (has_open state.sku_id t.rows) (λ _. tt) (λ _. In-append_left _ i)

  module _ (accepts : Statement → Bool) where
    and_then-Holds :
        (next : IntervalTable → Option IntervalTable) (o : Option IntervalTable)
        → ((u : IntervalTable) → In r u.rows → Holds (next u))
        → Holds o
        → Holds (and_then accepts next o)
    unfolding and_then
    and_then-Holds next none k h = tt
    and_then-Holds next (some u) k h = k u h

    execute_all-Holds :
        (ss : List Statement) (t : IntervalTable)
        → All Spares ss
        → In r t.rows
        → Holds (execute_all accepts ss t)
    unfolding execute_all
    execute_all-Holds [] t h i = i
    execute_all-Holds (s ∷ ss) t (p, h) i =
        if_rule Holds (accepts s)
          (λ _.
            and_then-Holds (execute_all accepts ss) (execute s t)
              (λ u k. execute_all-Holds ss u h k) (execute-Holds s t p i))
          (λ _. tt)

  none_have :
      (id : ℤ) (rows : List IntervalRow)
      → any (λ s. eq_ℤ s.id id) rows ≡ false
      → All (λ s. eq_ℤ s.id id ≡ false) rows
  none_have id [] h = tt
  none_have id (s ∷ ss) h = (ground arith, none_have id ss (ground arith))

  module _ (closed_row : is_open r ≡ false) where
    -- No open row has the id of the row.
    open_others :
        (rows : List IntervalRow)
        → Distinct rows
        → In r rows
        → All (λ s. Misses s.id) (keep is_open rows)
    open_others [] d i = elim i [ ]
    open_others (s ∷ ss) (p, q, d) here = rw closed_row (
        All-keep_of _ is_open ss
          (All-mono _ (λ x. Misses x.id) ss (λ x h. eq_ℤ_comm r.id x.id ∙ h) (none_have r.id ss p)))
    open_others (s ∷ ss) (p, q, d) (there m) =
        if_rule (All (λ x. Misses x.id)) (is_open s)
          (λ _. (All-In (λ x. eq_ℤ x.id s.id ≡ false) m (none_have s.id ss p), open_others ss d m))
          (λ _. open_others ss d m)

    abbrev Apart : List (ℤ × SkuPriceInterval) → Type 0
    Apart opened = All (λ e. Misses e.1.id) opened

    open_intervals-Apart : (t : IntervalTable) → IsTable t → In r t.rows → Apart (open_intervals t)
    unfolding open_intervals scan_sku_price_interval
    open_intervals-Apart t w i =
        fold_keeps Apart (λ m row. insert row.sku_id (scan_sku_price_interval row) m)
          (keep is_open t.rows) []
          (λ m row n h.
            All-insert (λ (v : SkuPriceInterval). Misses v.id) row.sku_id
              (scan_sku_price_interval row) m
              (All-In (λ x. Misses x.id) n (open_others t.rows w.distinct i)) h)
          tt

    state_statements-Spares :
        (at : Time) (state : SkuPriceState) (o : Option SkuPriceInterval)
        → ((v : SkuPriceInterval) → o ≡ some v → Misses v.id)
        → All Spares (state_statements at state o)
    unfolding state_statements
    state_statements-Spares at state none h = (tt, tt)
    state_statements-Spares at state (some existing) h =
        if_rule (All Spares) (same_sku_price_interval existing state) (λ _. (h existing refl, tt))
          (λ _. (h existing refl, (tt, tt)))

    statements-Spares :
        (accepts : Statement → Bool) (at : Time) (states : List SkuPriceState) (t : IntervalTable)
        → IsTable t
        → In r t.rows
        → All Spares (all_statements accepts at states t)
    unfolding all_statements statements_for missing_statements
    statements-Spares accepts at states t w i =
        let apart = open_intervals-Apart t w i in
        All-append Spares (flat_map (statements_for at (open_intervals t)) states)
          (missing_statements at states (open_intervals t))
          (All-flat_map Spares (statements_for at (open_intervals t)) states λ s m.
            state_statements-Spares at (without_reason s) (lookup s.sku_id (open_intervals t))
              λ v h.
                All-lookup (λ (v : SkuPriceInterval). Misses v.id) s.sku_id v (open_intervals t) h
                  apart)
          (All-flat_map Spares _ (open_intervals t) λ e m.
            if_rule (All Spares) (contains (map (λ s. s.sku_id) states) e.0) (λ _. tt)
              λ _. (All-In (λ (e : ℤ × SkuPriceInterval). Misses e.1.id) m apart, tt))

    -- The committed table or the old one.
    committed_keeps :
        (accepts : Statement → Bool) (t : IntervalTable) (o : Option IntervalTable)
        → In r t.rows
        → Holds o
        → In r (committed accepts t o).1.rows
    unfolding committed
    committed_keeps accepts t none i h = i
    committed_keeps accepts t (some u) i h = h

-- Where the ids and the SKUs of the open intervals are unique: an update changes no closed interval,
-- whatever the states are and whatever the database refuses. What an interval says of the past,
-- once it is closed, stays.
pub update_sku_price_intervals_keeps :
    (accepts : Statement → Bool) (at : Time) (states : List SkuPriceState) (t : IntervalTable)
    (r : IntervalRow)
    → IsTable t
    → is_open r ≡ false
    → In r t.rows
    → In r (update_sku_price_intervals accepts at states t).1.rows
unfolding update_sku_price_intervals
update_sku_price_intervals_keeps accepts at states t r w c i =
    committed_keeps r c accepts t (execute_all accepts (all_statements accepts at states t) t) i (
      execute_all-Holds r accepts (all_statements accepts at states t) t
        (statements-Spares r c accepts at states t w i) i)
