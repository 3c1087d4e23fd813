-- ===== src/Intervals/Update.antt =====
-- What an update of the price intervals keeps.
use pangu_sales_manager.Base.{
  ℤ, int_eq, eq_ℤ_refl, Bool, true, false, not, ◌&&◌, List, [], ◌∷◌, Option, none, some, flat_map,
  lookup, In, here, there, Option-cases, Bool-cases, inl, inr, ◌≡◌, refl, ap, sym, ◌∙◌, subst,
  arith,
}
use pangu_sales_manager.Marketing.Ids.{contains}
use pangu_sales_manager.Marketing.State.{Time}
use pangu_sales_manager.Marketing.Price.{SkuPriceState}
use pangu_sales_manager.Intervals.{
  IntervalRow, IntervalTable, Statement, has_open, open_intervals, without_reason, statements_for,
  missing_statements, execute_all, all_statements, committed, update_sku_price_intervals,
}
use pangu_sales_manager.Intervals.Table.{IsTable, execute_all-IsTable}
use pangu_sales_manager.Intervals.Find.{find_open, has_open-none}
use pangu_sales_manager.Intervals.Steps.{Shows}
use pangu_sales_manager.Intervals.Round.{scanned, lookup-open_intervals}
use pangu_sales_manager.Intervals.Settled.{
  sku_ids, IsStates, AllShown, Looped, all_states, runs_append,
}
use pangu_sales_manager.Intervals.Missing.{Cleared, all_missing, open_intervals-KeysDistinct}

committed-IsTable :
    (accepts : Statement → Bool) (t : IntervalTable) (o : Option IntervalTable)
    → IsTable t
    → ((u : IntervalTable) → o ≡ some u → IsTable u)
    → IsTable (committed accepts t o).1
unfolding committed
committed-IsTable accepts t none w k = w
committed-IsTable accepts t (some u) w k = k u refl

-- Whatever the states are and whatever the database refuses: ids stay unique and below the next
-- one, and no SKU gets a second open interval.
pub update_sku_price_intervals-IsTable :
    (accepts : Statement → Bool) (at : Time) (states : List SkuPriceState) (t : IntervalTable)
    → IsTable t
    → IsTable (update_sku_price_intervals accepts at states t).1
unfolding update_sku_price_intervals
update_sku_price_intervals-IsTable accepts at states t w =
    committed-IsTable accepts t (execute_all accepts (all_statements accepts at states t) t) w
      (λ u h. execute_all-IsTable accepts (all_statements accepts at states t) t u w h)

contains_sku :
    (s : SkuPriceState) (ss : List SkuPriceState) → In s ss → contains (sku_ids ss) s.sku_id ≡ true
unfolding contains
contains_sku s [] m = elim m [ ]
contains_sku s (x ∷ xs) here = ground (arith, eq_ℤ_refl s.sku_id)
contains_sku s (x ∷ xs) (there m) = ground (arith, contains_sku s xs m)

module _ (accepts : Statement → Bool) (all : (s : Statement) → accepts s ≡ true) (at : Time)
    (states : List SkuPriceState) (t : IntervalTable) (w : IsTable t) (i : IsStates states) where
  first_loop : Looped accepts all at (open_intervals t) states t
  first_loop =
      all_states accepts all at (open_intervals t) states t w i (λ k _. lookup-open_intervals t k w)

  second_loop : Cleared accepts all at states (open_intervals t) first_loop.after
  second_loop =
      all_missing accepts all at states (open_intervals t) first_loop.after first_loop.table
        (open_intervals-KeysDistinct t)
        (λ k e h c. ap scanned (first_loop.others k c) ∙ sym (lookup-open_intervals t k w) ∙ h)

  runs_all : execute_all accepts (all_statements accepts at states t) t ≡ some second_loop.after
  unfolding all_statements
  runs_all =
      runs_append accepts all (flat_map (statements_for at (open_intervals t)) states)
        (missing_statements at states (open_intervals t)) t first_loop.after first_loop.runs
      ∙ second_loop.runs

  none-scanned : (o : Option IntervalRow) → scanned o ≡ none → o ≡ none
  none-scanned none h = refl
  none-scanned (some r) h = absurd (ground arith)

  gone_after :
      (k : ℤ) → contains (sku_ids states) k ≡ false → find_open k second_loop.after.rows ≡ none
  gone_after k c = elim (Option-cases (lookup k (open_intervals t))) [
    | inl e ↦
        second_loop.unlisted k e
        ∙ first_loop.others k c
        ∙ none-scanned (find_open k t.rows) (sym (lookup-open_intervals t k w) ∙ e)
    | inr (v, e) ↦ second_loop.gone k v c e
  ]

  shown_after :
      (ss : List SkuPriceState)
      → ((s : SkuPriceState) → In s ss → contains (sku_ids states) s.sku_id ≡ true)
      → AllShown at first_loop.after ss
      → AllShown at second_loop.after ss
  shown_after [] m h = tt
  shown_after (s ∷ ss) m (p, h) = (
    subst (Shows at (without_reason s)) (sym (second_loop.kept s.sku_id (m s here))) p,
    shown_after ss (λ x n. m x (there n)) h,
  )

  -- Where the states are for different SKUs and name no negative activity, the ids and the SKUs of
  -- the open intervals are unique, and the database refuses nothing for another reason: the update is committed, and then each state is shown, as of its
  -- time, by the open interval of its SKU, and no other SKU has an open interval.
  pub update_sku_price_intervals-AllShown :
      (update_sku_price_intervals accepts at states t).0 ≡ true
      × AllShown at (update_sku_price_intervals accepts at states t).1 states
      × ((k : ℤ)
          → not (contains (sku_ids states) k)
              && has_open k (update_sku_price_intervals accepts at states t).1.rows
            ≡ false)
  unfolding update_sku_price_intervals committed
  update_sku_price_intervals-AllShown = rw (runs_all) (
    refl,
    shown_after states (λ s m. contains_sku s states m) first_loop.shown,
    λ k. elim (Bool-cases (contains (sku_ids states) k)) [
      | inl y ↦ ground (arith, y)
      | inr n ↦ ground (arith, n, has_open-none k second_loop.after.rows (gone_after k n))
    ],
  )
