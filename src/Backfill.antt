-- ===== src/Backfill.antt =====
-- order_price_backfill.go: the prices of past order lines, estimated from the intervals.
pub mod Counts
use Prim.Native.String.{◌++◌ as str_append}
use pangu_sales_manager.Base.{
  ℕ, zero, suc, ◌+◌, ℤ, pos, lt_ℤ, positive, is_zero, String, str_eq, Bool, true, false, not, ◌&&◌,
  ◌||◌, ◌==◌, ltb, List, [], ◌∷◌, ◌++◌, Option, none, some, if◌then◌else◌, map, fold, length, take,
  drop,
}
use pangu_sales_manager.Marketing.Ids.{unique_sorted}
use pangu_sales_manager.Marketing.State.{Time, warning}
use pangu_sales_manager.Marketing.Observation.{ActivityObserver}
use pangu_sales_manager.Intervals.{IntervalRow, nullable_positive}
use pangu_sales_manager.Query.{QueryError, Answer, answered, refused, resolve_sku_price_queries}
use pangu_sales_manager.Questions.{
  SkuPriceQueryItem, SkuPriceQueryResult, max_sku_price_query_items, zero_result,
}
use pangu_sales_manager.OrderLines.{
  OrderPriceBackfillRequest, OrderPriceBackfillStats, OrderLine, OrderLinePriceTarget, Estimate,
  LineUpdate, Writes,
}
use pangu_sales_manager.LineQueries.{
  target_of, seen_skus, query_items, target_indexes, resolve_items, result_by_target, result_for,
}

-- `ok && result.MatchMethod != "unmatched" && result.Price > 0`
unfoldable pub is_matched : Option SkuPriceQueryResult → Bool
is_matched none = false
is_matched (some r) = not (str_eq r.match_method "unmatched") && positive r.price

count_match : OrderPriceBackfillStats → Option SkuPriceQueryResult → OrderPriceBackfillStats
count_match stats none = record stats { unmatched = suc stats.unmatched }
count_match stats (some r) =
    if str_eq r.match_method "unmatched" || not (positive r.price)
    then record stats { unmatched = suc stats.unmatched }
    else if str_eq r.match_method "exact_interval"
    then record stats { exact_matches = suc stats.exact_matches }
    else record stats { inferred_matches = suc stats.inferred_matches }

unfoldable pub count_matches :
    List (ℕ × SkuPriceQueryResult)
    → ℕ
    → List OrderLinePriceTarget
    → OrderPriceBackfillStats
    → OrderPriceBackfillStats
unfolding count_match result_for
count_matches found index [] stats = stats
count_matches found index (target ∷ targets) stats =
    count_matches found (suc index) targets (count_match stats (result_for index found))

or_none : Option SkuPriceQueryResult → SkuPriceQueryResult
unfolding zero_result
or_none none = zero_result
or_none (some r) = r

-- The texts `status`, `matchMethod` and `reason`.
unfoldable pub verdict :
    OrderLinePriceTarget → Option SkuPriceQueryResult → String × String × String
unfolding is_matched or_none
verdict target result =
    let r = or_none result in
    if is_matched result
    then (
      if str_eq r.match_method "exact_interval" then r.status else warning,
      r.match_method,
      r.reason,
    )
    else (
      "unmatched",
      "unmatched",
      if positive target.product_sku_id
          then "historical_sku_price_not_found"
          else "order_product_sku_id_missing",
    )

unfoldable pub estimate_of : OrderLinePriceTarget → Option SkuPriceQueryResult → Estimate
unfolding verdict or_none
estimate_of target result =
    let r = or_none result in
    let (status, match_method, reason) = verdict target result in
    record {
      order_line_id = target.line_id;
      product_sku_id = target.product_sku_id;
      skc_id = nullable_positive r.skc_id;
      matched_interval_id = nullable_positive r.interval_id;
      estimated_price = r.price;
      currency = r.currency;
      status = status;
      price_source = r.price_source;
      match_method = match_method;
      order_time = target.occurred_at;
      order_time_source = target.occurred_at_source;
      interval_start_at = r.interval_start_at;
      interval_end_at = r.interval_end_at;
      distance = r.distance;
      reason = reason;
    }

line_update_of : OrderLinePriceTarget → Option SkuPriceQueryResult → LineUpdate
unfolding verdict or_none
line_update_of target result =
    let r = or_none result in
    let (status, match_method, reason) = verdict target result in
    record {
      line_id = target.line_id;
      platform_product_sku_id = nullable_positive target.product_sku_id;
      unit_price = r.price;
      currency = r.currency;
      unit_price_source = str_append "temu_" match_method;
      unit_price_status = status;
    }

-- The round for a line, before the rounds after it.
add_write : OrderLinePriceTarget → Option SkuPriceQueryResult → Writes → Writes
unfolding estimate_of line_update_of or_none
add_write target result rest = record rest {
  statements = (estimate_of target result, line_update_of target result) ∷ rest.statements;
  updated = if positive (or_none result).price then suc rest.updated else rest.updated;
}

-- `accepts` tells for which lines the database takes the statements.
unfoldable pub writes :
    (ℕ → Bool) → List (ℕ × SkuPriceQueryResult) → ℕ → List OrderLinePriceTarget → Writes
unfolding add_write result_for
writes accepts found index [] = record { statements = []; updated = 0; write_fails = false }
writes accepts found index (target ∷ targets) =
    let rest = writes accepts found (suc index) targets in
    if accepts index
    then add_write target (result_for index found) rest
    else record { statements = []; updated = 0; write_fails = true }

-- Why a run ends with an error.
pub data BackfillError : Type 0 where
  bad_range : BackfillError
  query_failed : QueryError → BackfillError
  write_failed : BackfillError

-- The statistics, the error, and what was committed.
abbrev pub BackfillResult : Type 0
BackfillResult = OrderPriceBackfillStats × Option BackfillError × List (Estimate × LineUpdate)

-- `commits` tells whether the commit succeeds. After an error all is rolled back.
finish_run :
    (ℕ → Bool)
    → Bool
    → OrderPriceBackfillRequest
    → List OrderLinePriceTarget
    → List (ℕ × SkuPriceQueryResult)
    → OrderPriceBackfillStats
    → BackfillResult
unfolding writes
finish_run accepts commits request targets found stats =
    if request.dry_run
    then (stats, none, [])
    else let w = writes accepts found 0 targets in
      let ended = record stats { updated = w.updated } in
      if w.write_fails || not commits
      then (ended, some write_failed, [])
      else (ended, none, w.statements)

after_answer :
    (ℕ → Bool)
    → Bool
    → OrderPriceBackfillRequest
    → List OrderLinePriceTarget
    → OrderPriceBackfillStats
    → Answer
    → BackfillResult
unfolding finish_run count_matches result_by_target target_indexes
after_answer accepts commits request targets stats (refused e) = (stats, some (query_failed e), [])
after_answer accepts commits request targets stats (answered resolved) =
    let found = result_by_target (target_indexes 0 targets) resolved in
    finish_run accepts commits request targets found (count_matches found 0 targets stats)

start_stats : OrderPriceBackfillRequest → OrderPriceBackfillStats
start_stats request = record {
  start_at = request.start_at;
  end_at = request.end_at;
  shop_key = request.shop_key;
  dry_run = request.dry_run;
  order_lines = 0;
  distinct_skus = 0;
  exact_matches = 0;
  inferred_matches = 0;
  unmatched = 0;
  updated = 0;
}

-- `lines` is the answer of the first query.
unfoldable pub backfill_order_price_estimates :
    (List SkuPriceQueryItem → Answer)
    → (ℕ → Bool)
    → Bool
    → List OrderLine
    → OrderPriceBackfillRequest
    → BackfillResult
unfolding start_stats target_of seen_skus query_items resolve_items after_answer
backfill_order_price_estimates ask accepts commits lines request =
    let stats = start_stats request in
    if is_zero request.start_at
      || is_zero request.end_at
      || not (lt_ℤ request.start_at request.end_at)
    then (stats, some bad_range, [])
    else let targets = map target_of lines in
      after_answer accepts commits request targets
        (record stats {
          order_lines = length targets;
          distinct_skus = length (unique_sorted (seen_skus lines));
        })
        (resolve_items ask (query_items targets))

-- The run of the program: the questions go to the price query.
unfoldable pub run_backfill :
    ActivityObserver
    → List IntervalRow
    → Bool
    → (ℕ → Bool)
    → Bool
    → List OrderLine
    → OrderPriceBackfillRequest
    → BackfillResult
unfolding backfill_order_price_estimates resolve_sku_price_queries
run_backfill observer intervals db_ok accepts commits lines request =
    backfill_order_price_estimates (resolve_sku_price_queries db_ok observer intervals) accepts
      commits lines request
