-- ===== src/Intervals/Settled.antt =====
-- The loop over all the states.
use pangu_sales_manager.Base.{
  ℤ, int_eq, pos, eq_ℤ, eq_ℤ_iff, eq_ℤ_refl, lt_ℤ, str_eq, Bool, true, false, List, [], ◌∷◌, ◌++◌,
  none, some, if_rule, map, flat_map, lookup, All, ◌≡◌, refl, ap, sym, ◌∙◌, subst, arith,
  Bool-cases, Option-cases, inl, inr,
}
use pangu_sales_manager.Marketing.Ids.{contains}
use pangu_sales_manager.Marketing.State.{Time, confirmed}
use pangu_sales_manager.Marketing.Price.{SkuPriceState}
use pangu_sales_manager.Intervals.{
  IntervalTable, SkuPriceInterval, Statement, execute, execute_all, statements_for, without_reason,
}
use pangu_sales_manager.Intervals.Table.{IsTable}
use pangu_sales_manager.Intervals.Find.{find_open}
use pangu_sales_manager.Intervals.Steps.{Shows, Stepped, runs_one}
use pangu_sales_manager.Intervals.Round.{scanned, step_state}

abbrev pub sku_ids : List SkuPriceState → List ℤ
sku_ids states = map (λ s. s.sku_id) states

-- The states are for different SKUs, and no activity id is negative.
abbrev pub IsStates : List SkuPriceState → Type 0
IsStates [] = Unit
IsStates (s ∷ ss) =
    (contains (sku_ids ss) s.sku_id ≡ false)
    × (lt_ℤ s.active_enroll_id (pos 0) ≡ false)
    × IsStates ss

-- Each state is shown by the open interval of its SKU.
abbrev pub AllShown : Time → IntervalTable → List SkuPriceState → Type 0
AllShown at t states = All (λ s. Shows at (without_reason s) (find_open s.sku_id t.rows)) states

same_sku : (s : SkuPriceState) → (without_reason s).sku_id ≡ s.sku_id
unfolding without_reason
same_sku s =
    if_rule (λ (x : SkuPriceState). x.sku_id ≡ s.sku_id) (str_eq s.status confirmed) (λ _. refl)
      (λ _. refl)

same_activity : (s : SkuPriceState) → (without_reason s).active_enroll_id ≡ s.active_enroll_id
unfolding without_reason
same_activity s =
    if_rule (λ (x : SkuPriceState). x.active_enroll_id ≡ s.active_enroll_id)
      (str_eq s.status confirmed) (λ _. refl) (λ _. refl)

pub member_differs :
    (ids : List ℤ) (a k : ℤ) → contains ids a ≡ false → contains ids k ≡ true → eq_ℤ a k ≡ false
member_differs ids a k h m = elim (Bool-cases (eq_ℤ a k)) [
  | inl e ↦ absurd (ground (arith, m, subst (λ j. contains ids j ≡ false) ((eq_ℤ_iff a k).0 e) h))
  | inr n ↦ n
]

module _ (accepts : Statement → Bool) (all : (s : Statement) → accepts s ≡ true) where
  pub runs_append :
      (xs ys : List Statement) (t u : IntervalTable)
      → execute_all accepts xs t ≡ some u
      → execute_all accepts (xs ++ ys) t ≡ execute_all accepts ys u
  unfolding execute_all
  runs_append [] ys t u h =
      ap (execute_all accepts ys) (ap (λ o. elim o [ none ↦ t | some x ↦ x ]) h)
  runs_append (x ∷ xs) ys t u h = elim (Option-cases (execute x t)) [
    | inl e ↦ absurd (ground (arith, all x, e, h))
    | inr (v, e) ↦
        runs_one accepts all x (xs ++ ys) t v e
        ∙ runs_append xs ys v u (sym (runs_one accepts all x xs t v e) ∙ h)
  ]

  module _ (at : Time) (m : List (ℤ × SkuPriceInterval)) where
    pub record Looped (states : List SkuPriceState) (t : IntervalTable) : Type 0 where
      pub after : IntervalTable
      pub runs : execute_all accepts (flat_map (statements_for at m) states) t ≡ some after
      pub table : IsTable after
      pub shown : AllShown at after states
      pub others :
          (k : ℤ)
          → contains (sku_ids states) k ≡ false
          → find_open k after.rows ≡ find_open k t.rows

    one_state :
        (s : SkuPriceState) (t : IntervalTable)
        → IsTable t
        → lt_ℤ s.active_enroll_id (pos 0) ≡ false
        → lookup s.sku_id m ≡ scanned (find_open s.sku_id t.rows)
        → Stepped accepts at (without_reason s) (statements_for at m s) t
    unfolding statements_for
    one_state s t w n p = rw (p) (
        step_state accepts all at (without_reason s) t (find_open s.sku_id t.rows) w
          (rw (same_activity s) n) (ap (λ k. find_open k t.rows) (same_sku s)))

    pub all_states :
        (states : List SkuPriceState) (t : IntervalTable)
        → IsTable t
        → IsStates states
        → ((k : ℤ) → contains (sku_ids states) k ≡ true → lookup k m ≡ scanned (find_open k t.rows))
        → Looped states t
    unfolding execute_all contains
    all_states [] t w i p = record {
      after = t;
      runs = refl;
      table = w;
      shown = tt;
      others = λ k _. refl;
    }
    all_states (s ∷ ss) t w (d, n, i) p =
        let one = one_state s t w n (p s.sku_id (ground (arith, eq_ℤ_refl s.sku_id))) in
        let away : (k : ℤ)
            → eq_ℤ s.sku_id k ≡ false
            → find_open k one.after.rows ≡ find_open k t.rows =
          λ k e. one.others k (rw (same_sku s) e) in
        let rest = all_states ss one.after one.table i (λ k c.
          p k (ground (arith, c))
          ∙ ap scanned (sym (away k (member_differs (sku_ids ss) s.sku_id k d c)))) in
        record {
          after = rest.after;
          runs =
              runs_append (statements_for at m s) (flat_map (statements_for at m) ss) t one.after
                one.runs
              ∙ rest.runs;
          table = rest.table;
          shown = (
            subst (Shows at (without_reason s))
                (ap (λ k. find_open k one.after.rows) (same_sku s) ∙ sym (rest.others s.sku_id d))
                one.shows,
            rest.shown,
          );
          others = λ k c. rest.others k (ground (arith, c)) ∙ away k (ground (arith, c));
        }
