-- ===== src/Intervals/Missing.antt =====
-- The second loop of the update: the intervals of the SKUs that are gone.
use pangu_sales_manager.Base.{
  ℤ, int_eq, eq_ℤ, eq_ℤ_iff, eq_ℤ_refl, eq_ℤ_comm, Bool, true, false, List, [], ◌∷◌, ◌++◌, Option,
  none, some, if◌then◌else◌, if_rule, map, fold, keep, lookup, insert, lookup-insert, ◌≡◌, refl, ap,
  sym, ◌∙◌, subst, arith, Bool-cases, inl, inr,
}
use pangu_sales_manager.Marketing.Ids.{contains}
use pangu_sales_manager.Marketing.State.{Time}
use pangu_sales_manager.Marketing.Price.{SkuPriceState}
use pangu_sales_manager.Intervals.{
  IntervalRow, IntervalTable, SkuPriceInterval, Statement, close_interval, scan_sku_price_interval,
  is_open, closed, execute, execute_all, open_intervals, missing_statements,
}
use pangu_sales_manager.Intervals.Table.{IsTable, execute-IsTable}
use pangu_sales_manager.Intervals.Find.{find_open}
use pangu_sales_manager.Intervals.Steps.{find_open-closed, runs_one}
use pangu_sales_manager.Intervals.Round.{scanned}
use pangu_sales_manager.Intervals.Settled.{sku_ids, member_differs}

-- A map has one entry for a key.
abbrev pub KeysDistinct : List (ℤ × SkuPriceInterval) → Type 0
KeysDistinct [] = Unit
KeysDistinct ((k, v) ∷ m) = (lookup k m ≡ none) × KeysDistinct m

insert-KeysDistinct :
    (k : ℤ) (v : SkuPriceInterval) (m : List (ℤ × SkuPriceInterval))
    → KeysDistinct m
    → KeysDistinct (insert k v m)
unfolding insert lookup
insert-KeysDistinct k v [] d = (refl, tt)
insert-KeysDistinct k v ((j, w) ∷ m) (n, d) =
    if_rule KeysDistinct (eq_ℤ j k)
      (λ e. (subst (λ i. lookup i m ≡ none) ((eq_ℤ_iff j k).0 e) n, d))
      (λ e. (lookup-insert k j v m ∙ rw (eq_ℤ_comm k j, e) n, insert-KeysDistinct k v m d))

fold-KeysDistinct :
    (rows : List IntervalRow) (m : List (ℤ × SkuPriceInterval))
    → KeysDistinct m
    → KeysDistinct (fold (λ m row. insert row.sku_id (scan_sku_price_interval row) m) m rows)
fold-KeysDistinct [] m d = d
fold-KeysDistinct (r ∷ rs) m d =
    fold-KeysDistinct rs (insert r.sku_id (scan_sku_price_interval r) m)
      (insert-KeysDistinct r.sku_id (scan_sku_price_interval r) m d)

pub open_intervals-KeysDistinct : (t : IntervalTable) → KeysDistinct (open_intervals t)
unfolding open_intervals
open_intervals-KeysDistinct t = fold-KeysDistinct (keep is_open t.rows) [] tt

-- The row that was scanned.
scanned-some :
    (o : Option IntervalRow) (e : SkuPriceInterval)
    → scanned o ≡ some e
    → (r : IntervalRow) × (o ≡ some r) × (r.id ≡ e.id)
unfolding scan_sku_price_interval
scanned-some none e h = absurd (ground arith)
scanned-some (some r) e h = (r, refl, ap (λ o. elim o [ none ↦ r.id | some x ↦ x.id ]) h)

-- The entries after the first.
not_first :
    (k0 k : ℤ) (e0 : SkuPriceInterval) (es : List (ℤ × SkuPriceInterval))
    → lookup k ((k0, e0) ∷ es) ≡ none
    → (eq_ℤ k0 k ≡ false) × (lookup k es ≡ none)
unfolding lookup
not_first k0 k e0 es h = elim (Bool-cases (eq_ℤ k0 k)) [
  | inl y ↦ absurd (ground (arith, y, h))
  | inr n ↦ (n, ground (arith, n, h))
]

lookup-rest :
    (k0 k : ℤ) (e0 : SkuPriceInterval) (es : List (ℤ × SkuPriceInterval))
    → eq_ℤ k0 k ≡ false
    → lookup k ((k0, e0) ∷ es) ≡ lookup k es
unfolding lookup
lookup-rest k0 k e0 es n = rw (n) refl

lookup-first :
    (k0 : ℤ) (e0 : SkuPriceInterval) (es : List (ℤ × SkuPriceInterval))
    → lookup k0 ((k0, e0) ∷ es) ≡ some e0
unfolding lookup
lookup-first k0 e0 es = rw (eq_ℤ_refl k0) refl

found_closed :
    (at : Time) (k0 id : ℤ) (t : IntervalTable) (row : IntervalRow) (k : ℤ)
    → IsTable t
    → find_open k0 t.rows ≡ some row
    → row.id ≡ id
    → find_open k (map (closed id at) t.rows) ≡ (if eq_ℤ k0 k then none else find_open k t.rows)
found_closed at k0 id t row k w f i =
    subst
      (λ d.
        find_open k (map (closed d at) t.rows) ≡ (if eq_ℤ k0 k then none else find_open k t.rows))
      i (find_open-closed at k0 t.rows row k w.distinct f)

module _ (accepts : Statement → Bool) (all : (s : Statement) → accepts s ≡ true) (at : Time)
    (states : List SkuPriceState) where
  -- The entries of the SKUs that are not in the states are closed; nothing else changes.
  pub record Cleared (es : List (ℤ × SkuPriceInterval)) (t : IntervalTable) : Type 0 where
    pub after : IntervalTable
    pub runs : execute_all accepts (missing_statements at states es) t ≡ some after
    pub table : IsTable after
    pub kept :
        (k : ℤ) → contains (sku_ids states) k ≡ true → find_open k after.rows ≡ find_open k t.rows
    pub unlisted : (k : ℤ) → lookup k es ≡ none → find_open k after.rows ≡ find_open k t.rows
    pub gone :
        (k : ℤ) (e : SkuPriceInterval)
        → contains (sku_ids states) k ≡ false
        → lookup k es ≡ some e
        → find_open k after.rows ≡ none

  -- The entries of the SKUs that are gone show what is open.
  abbrev pub Listed : List (ℤ × SkuPriceInterval) → IntervalTable → Type 0
  Listed es t =
      (k : ℤ) (e : SkuPriceInterval)
      → lookup k es ≡ some e
      → contains (sku_ids states) k ≡ false
      → scanned (find_open k t.rows) ≡ some e

  later_listed :
      (k0 k : ℤ) (e : SkuPriceInterval) (es : List (ℤ × SkuPriceInterval))
      → lookup k0 es ≡ none
      → lookup k es ≡ some e
      → eq_ℤ k0 k ≡ false
  later_listed k0 k e es n h = elim (Bool-cases (eq_ℤ k0 k)) [
    | inl q ↦ absurd (ground (arith, h, subst (λ j. lookup j es ≡ none) ((eq_ℤ_iff k0 k).0 q) n))
    | inr q ↦ q
  ]

  member_differs_back :
      (k k0 : ℤ)
      → contains (sku_ids states) k ≡ false
      → contains (sku_ids states) k0 ≡ true
      → eq_ℤ k k0 ≡ false
  member_differs_back k k0 m c = member_differs (sku_ids states) k k0 m c

  skip_entry :
      (k0 : ℤ) (e0 : SkuPriceInterval) (es : List (ℤ × SkuPriceInterval)) (t : IntervalTable)
      → contains (sku_ids states) k0 ≡ true
      → Cleared es t
      → Cleared ((k0, e0) ∷ es) t
  unfolding missing_statements lookup
  skip_entry k0 e0 es t c r = record {
    after = r.after;
    runs =
        ap
          (λ b.
            execute_all accepts
              ((if b then [] else close_interval e0.id at ∷ []) ++ missing_statements at states es)
              t)
          c
        ∙ r.runs;
    table = r.table;
    kept = r.kept;
    unlisted = λ k n. r.unlisted k (not_first k0 k e0 es n).1;
    gone = λ k e m h.
        let other = eq_ℤ_comm k0 k ∙ member_differs_back k k0 m c in
        r.gone k e m (sym (lookup-rest k0 k e0 es other) ∙ h);
  }

  close_entry :
      (k0 : ℤ) (e0 : SkuPriceInterval) (es : List (ℤ × SkuPriceInterval)) (t : IntervalTable)
      (row : IntervalRow)
      → contains (sku_ids states) k0 ≡ false
      → IsTable t
      → find_open k0 t.rows ≡ some row
      → row.id ≡ e0.id
      → lookup k0 es ≡ none
      → Cleared es (record t { rows = map (closed e0.id at) t.rows })
      → Cleared ((k0, e0) ∷ es) t
  unfolding missing_statements lookup execute
  close_entry k0 e0 es t row c w f i n r =
      let u : IntervalTable = record t { rows = map (closed e0.id at) t.rows } in
      let found = λ (k : ℤ). found_closed at k0 e0.id t row k w f i in
      record {
        after = r.after;
        runs =
            ap
              (λ b.
                execute_all accepts
                  ((if b then [] else close_interval e0.id at ∷ [])
                    ++ missing_statements at states es)
                  t)
              c
            ∙ runs_one accepts all (close_interval e0.id at) (missing_statements at states es) t u
                refl
            ∙ r.runs;
        table = r.table;
        kept = λ k m. r.kept k m ∙ found k ∙ rw (member_differs (sku_ids states) k0 k c m) refl;
        unlisted = λ k l.
            r.unlisted k (not_first k0 k e0 es l).1
            ∙ found k
            ∙ rw ((not_first k0 k e0 es l).0) refl;
        gone = λ k e m h. elim (Bool-cases (eq_ℤ k0 k)) [
          | inl y ↦
              r.unlisted k (subst (λ j. lookup j es ≡ none) ((eq_ℤ_iff k0 k).0 y) n)
              ∙ found k
              ∙ rw (y) refl
          | inr q ↦ r.gone k e m (sym (lookup-rest k0 k e0 es q) ∙ h)
        ];
      }

  pub all_missing :
      (es : List (ℤ × SkuPriceInterval)) (t : IntervalTable)
      → IsTable t
      → KeysDistinct es
      → Listed es t
      → Cleared es t
  unfolding missing_statements execute execute_all lookup
  all_missing [] t w d l = record {
    after = t;
    runs = refl;
    table = w;
    kept = λ k _. refl;
    unlisted = λ k _. refl;
    gone = λ k e m h. absurd (ground arith);
  }
  all_missing ((k0, e0) ∷ es) t w (n, d) l = elim (Bool-cases (contains (sku_ids states) k0)) [
    | inl y ↦ skip_entry k0 e0 es t y (
        all_missing es t w d
          (λ k e h c. l k e (lookup-rest k0 k e0 es (later_listed k0 k e es n h) ∙ h) c))
    | inr q ↦
        let (row, f, i) =
          scanned-some (find_open k0 t.rows) e0 (l k0 e0 (lookup-first k0 e0 es) q) in
        let u : IntervalTable = record t { rows = map (closed e0.id at) t.rows } in
        close_entry k0 e0 es t row q w f i n (
          all_missing es u (execute-IsTable (close_interval e0.id at) t u w refl) d (λ k e h c.
            let other = later_listed k0 k e es n h in
            ap scanned (found_closed at k0 e0.id t row k w f i ∙ rw (other) refl)
            ∙ l k e (lookup-rest k0 k e0 es other ∙ h) c))
  ]
