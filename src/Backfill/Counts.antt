-- ===== src/Backfill/Counts.antt =====
-- The statistics of a run agree with what it writes.
use pangu_sales_manager.Base.{
  ℕ, suc, ◌+◌, positive, is_zero, lt_ℤ, String, str_eq, Bool, true, false, not, ◌&&◌, ◌||◌, List,
  [], ◌∷◌, Option, none, some, if◌then◌else◌, if_rule, keep, map, length, ◌≡◌, refl, arith, inl,
  inr, ap, ◌∙◌, ◌⊎◌,
}
use pangu_sales_manager.Query.{Answer, answered, refused}
use pangu_sales_manager.Questions.{SkuPriceQueryItem, SkuPriceQueryResult}
use pangu_sales_manager.Backfill.{
  BackfillResult, count_match, count_matches, is_matched, verdict, estimate_of, add_write, writes,
  finish_run, after_answer, start_stats, backfill_order_price_estimates,
}
use pangu_sales_manager.LineQueries.{
  result_for, target_of, query_items, resolve_items, result_by_target, target_indexes,
}
use pangu_sales_manager.OrderLines.{
  OrderPriceBackfillRequest, OrderPriceBackfillStats, OrderLine, OrderLinePriceTarget, Estimate,
  LineUpdate, Writes,
}

-- The number of lines that are counted.
abbrev pub counted : OrderPriceBackfillStats → ℕ
counted s = s.exact_matches + s.inferred_matches + s.unmatched

-- What one line adds to the statistics.
pub record Adds (n m : ℕ) (s t : OrderPriceBackfillStats) : Type 0 where
  pub all_counted : counted t ≡ n + counted s
  pub unmatched_counted : t.unmatched ≡ m + s.unmatched
  pub lines_kept : t.order_lines ≡ s.order_lines
  pub mode_kept : t.dry_run ≡ s.dry_run

abbrev one_if : Bool → ℕ
one_if b = if b then 1 else 0

count_match-Adds :
    (s : OrderPriceBackfillStats) (o : Option SkuPriceQueryResult)
    → Adds 1 (one_if (not (is_matched o))) s (count_match s o)
unfolding count_match is_matched
count_match-Adds s none = record {
  all_counted = omega arith;
  unmatched_counted = omega arith;
  lines_kept = refl;
  mode_kept = refl;
}
count_match-Adds s (some r) =
    if_rule (Adds 1 (one_if (not (is_matched (some r)))) s)
      (str_eq r.match_method "unmatched" || not (positive r.price))
      (λ y. record {
        all_counted = omega arith;
        unmatched_counted = ground (arith, y);
        lines_kept = refl;
        mode_kept = refl;
      })
      (λ n.
        if_rule (Adds 1 (one_if (not (is_matched (some r)))) s)
          (str_eq r.match_method "exact_interval")
          (λ _. record {
            all_counted = omega arith;
            unmatched_counted = ground (arith, n);
            lines_kept = refl;
            mode_kept = refl;
          })
          (λ _. record {
            all_counted = omega arith;
            unmatched_counted = ground (arith, n);
            lines_kept = refl;
            mode_kept = refl;
          }))

-- The number of the lines without a match, from this index on.
missed : List (ℕ × SkuPriceQueryResult) → ℕ → List OrderLinePriceTarget → ℕ
missed found index [] = 0
missed found index (target ∷ targets) =
    one_if (not (is_matched (result_for index found))) + missed found (suc index) targets

count_matches-Adds :
    (found : List (ℕ × SkuPriceQueryResult)) (index : ℕ) (targets : List OrderLinePriceTarget)
    (s : OrderPriceBackfillStats)
    → Adds (length targets) (missed found index targets) s (count_matches found index targets s)
unfolding count_matches missed
count_matches-Adds found index [] s = record {
  all_counted = omega arith;
  unmatched_counted = omega arith;
  lines_kept = refl;
  mode_kept = refl;
}
count_matches-Adds found index (target ∷ targets) s =
    let one = count_match-Adds s (result_for index found) in
    let more =
      count_matches-Adds found (suc index) targets (count_match s (result_for index found)) in
    record {
      all_counted = omega (arith, one.all_counted, more.all_counted);
      unmatched_counted = omega (arith, one.unmatched_counted, more.unmatched_counted);
      lines_kept = more.lines_kept ∙ one.lines_kept;
      mode_kept = more.mode_kept ∙ one.mode_kept;
    }

-- The number of the estimates that say that nothing was found.
abbrev pub unmatched_estimates : List (Estimate × LineUpdate) → ℕ
unmatched_estimates ws = length (keep (λ w. str_eq w.0.match_method "unmatched") ws)

unmatched-estimate_of :
    (target : OrderLinePriceTarget) (o : Option SkuPriceQueryResult)
    → str_eq (estimate_of target o).match_method "unmatched" ≡ not (is_matched o)
unfolding estimate_of verdict is_matched
unmatched-estimate_of target none = refl
unmatched-estimate_of target (some r) =
    if_rule (λ (v : String × String × String). str_eq v.1 "unmatched" ≡ not (is_matched (some r)))
      (not (str_eq r.match_method "unmatched") && positive r.price) (λ y. ground (arith, y))
      (λ n. ground (arith, n))

-- The statements agree with the lines.
record Written (found : List (ℕ × SkuPriceQueryResult)) (index : ℕ)
    (targets : List OrderLinePriceTarget) (w : Writes) : Type 0 where
  one_each : length w.statements ≡ length targets
  missing_alike : unmatched_estimates w.statements ≡ missed found index targets

writes-Written :
    (accepts : ℕ → Bool) (found : List (ℕ × SkuPriceQueryResult)) (index : ℕ)
    (targets : List OrderLinePriceTarget)
    → (writes accepts found index targets).write_fails ≡ false
    → Written found index targets (writes accepts found index targets)
unfolding writes add_write missed
writes-Written accepts found index [] = λ h. record { one_each = refl; missing_alike = refl }
writes-Written accepts found index (target ∷ targets) =
    if_rule (λ (w : Writes). w.write_fails ≡ false → Written found index (target ∷ targets) w)
      (accepts index)
      (λ _ h.
        let rest = writes-Written accepts found (suc index) targets h in
        record {
          one_each = ap suc rest.one_each;
          missing_alike =
              ground
                (arith, unmatched-estimate_of target (result_for index found), rest.missing_alike);
        })
      (λ _ h. absurd (ground arith))

-- A run without an error has counted every line once; a dry request writes nothing, and any other
-- writes one estimate for each line, as many of them without a match as the statistics say. A run
-- with an error writes nothing.
abbrev pub IsConsistent : OrderPriceBackfillRequest → List OrderLine → BackfillResult → Type 0
IsConsistent request lines (stats, some e, statements) = statements ≡ []
IsConsistent request lines (stats, none, statements) =
    (stats.dry_run ≡ request.dry_run)
    × (stats.order_lines ≡ length lines)
    × (counted stats ≡ stats.order_lines)
    × (((request.dry_run ≡ true) × (statements ≡ []))
        ⊎ ((request.dry_run ≡ false)
            × (length statements ≡ stats.order_lines)
            × (unmatched_estimates statements ≡ stats.unmatched)))

finish_run-IsConsistent :
    (accepts : ℕ → Bool) (commits : Bool) (request : OrderPriceBackfillRequest)
    (lines : List OrderLine) (targets : List OrderLinePriceTarget)
    (found : List (ℕ × SkuPriceQueryResult)) (s t : OrderPriceBackfillStats)
    → Adds (length targets) (missed found 0 targets) s t
    → counted s ≡ 0
    → s.unmatched ≡ 0
    → s.order_lines ≡ length targets
    → s.dry_run ≡ request.dry_run
    → length targets ≡ length lines
    → IsConsistent request lines (finish_run accepts commits request targets found t)
unfolding finish_run
finish_run-IsConsistent accepts commits request lines targets found s t a z u l k m =
    let lines_counted : t.order_lines ≡ length lines = a.lines_kept ∙ l ∙ m in
    let mode_kept : t.dry_run ≡ request.dry_run = a.mode_kept ∙ k in
    let all_counted : counted t ≡ t.order_lines =
      omega (arith, a.all_counted, a.lines_kept, z, l) in
    if_rule (IsConsistent request lines) request.dry_run
      (λ y. (mode_kept, lines_counted, all_counted, inl (y, refl)))
      (λ n.
        if_rule (IsConsistent request lines)
          ((writes accepts found 0 targets).write_fails || not commits) (λ _. refl)
          (λ q.
            let w = writes-Written accepts found 0 targets (ground (arith, q)) in
            (
              mode_kept,
              lines_counted,
              all_counted,
              inr (
                n,
                omega (arith, w.one_each, a.lines_kept, l),
                omega (arith, w.missing_alike, a.unmatched_counted, u),
              ),
            )))

length-map_lines : {A B : Type 0} (f : A → B) (xs : List A) → length (map f xs) ≡ length xs
length-map_lines f [] = refl
length-map_lines f (x ∷ xs) = ap suc (length-map_lines f xs)

answer-IsConsistent :
    (accepts : ℕ → Bool) (commits : Bool) (request : OrderPriceBackfillRequest)
    (lines : List OrderLine) (targets : List OrderLinePriceTarget) (s : OrderPriceBackfillStats)
    (o : Answer)
    → counted s ≡ 0
    → s.unmatched ≡ 0
    → s.order_lines ≡ length targets
    → s.dry_run ≡ request.dry_run
    → length targets ≡ length lines
    → IsConsistent request lines (after_answer accepts commits request targets s o)
unfolding after_answer
answer-IsConsistent accepts commits request lines targets s (refused e) z u l k m = refl
answer-IsConsistent accepts commits request lines targets s (answered resolved) z u l k m =
    let found = result_by_target (target_indexes 0 targets) resolved in
    finish_run-IsConsistent accepts commits request lines targets found s
      (count_matches found 0 targets s) (count_matches-Adds found 0 targets s) z u l k m

-- Whatever the queries answer and the database refuses: a run without an error has counted every
-- line once, and has written nothing if the request is dry, and otherwise one estimate for each line, as
-- many of them without a match as the statistics say; a run with an error has written nothing.
pub backfill_order_price_estimates-IsConsistent :
    (ask : List SkuPriceQueryItem → Answer) (accepts : ℕ → Bool) (commits : Bool)
    (lines : List OrderLine) (request : OrderPriceBackfillRequest)
    → IsConsistent request lines (backfill_order_price_estimates ask accepts commits lines request)
unfolding backfill_order_price_estimates start_stats
backfill_order_price_estimates-IsConsistent ask accepts commits lines request =
    if_rule (IsConsistent request lines)
      (is_zero request.start_at
        || is_zero request.end_at
        || not (lt_ℤ request.start_at request.end_at))
      (λ _. refl)
      (λ _.
        answer-IsConsistent accepts commits request lines (map target_of lines) _
          (resolve_items ask (query_items (map target_of lines))) refl refl refl refl
          (length-map_lines target_of lines))
