-- ===== src/Query.antt =====
-- sku_price_query.go: the price of an SKU now, or at a time in the past.
pub mod Nearest
pub mod Answers
use pangu_sales_manager.Base.{
  ℕ, suc, ◌+◌, ℤ, int_eq, pos, eq_ℤ, lt_ℤ, positive, is_zero, ◌-ℤ◌, first_by, String, str_eq, Bool,
  true, false, not, ◌&&◌, ◌||◌, ltb, List, [], ◌∷◌, ◌++◌, Option, none, some, if◌then◌else◌, keep,
  map, any, fold, length, lookup, insert,
}
use pangu_sales_manager.Marketing.State.{Time, warning}
use pangu_sales_manager.Marketing.Price.{SkuPriceState, source_unresolved}
use pangu_sales_manager.Marketing.Observer.{latest_observation}
use pangu_sales_manager.Marketing.Observation.{ActivityObserver, ActivityObservation}
use pangu_sales_manager.Intervals.{IntervalRow}
use pangu_sales_manager.Questions.{
  max_sku_price_query_items, SkuPriceQueryItem, SkuPriceQueryResult, HistoricalSkuPriceRequest,
  last_seen, before_end, covers, distance_of, rank, prefers, better, nearest, matched_interval,
  match_method_of, zero_result,
}

unmatched_result : HistoricalSkuPriceRequest → SkuPriceQueryResult
unmatched_result q = record {
  index = q.request_index;
  sku_id = q.sku_id;
  skc_id = pos 0;
  requested_at = some q.requested_at;
  observed_at = none;
  status = warning;
  price = pos 0;
  currency = "";
  price_source = source_unresolved;
  active_enroll_id = pos 0;
  candidate_enroll_ids = [];
  match_method = "unmatched";
  interval_id = pos 0;
  interval_start_at = none;
  interval_end_at = none;
  distance = pos 0;
  reason = "historical_sku_price_not_found";
}

or_zero : Option ℤ → ℤ
or_zero none = pos 0
or_zero (some a) = a

-- The status and the reason of a matched row.
with_status : Time → IntervalRow → SkuPriceQueryResult → SkuPriceQueryResult
with_status at row result =
    if str_eq result.match_method "exact_interval"
    then record result {
      status = row.status;
      reason = if str_eq row.status warning then row.reason else "";
    }
    else record result { status = warning; reason = "requested_time_outside_observed_interval" }

-- The round of the loop over the rows of the answer, before the status. The distance stays in the
-- unit of the times; the program shows it in seconds.
found_result : HistoricalSkuPriceRequest → IntervalRow → SkuPriceQueryResult
unfolding unmatched_result or_zero match_method_of distance_of covers
found_result q row = record (unmatched_result q) {
  interval_id = row.id;
  skc_id = row.skc_id;
  active_enroll_id = or_zero row.active_enroll_id;
  candidate_enroll_ids = row.candidate_enroll_ids;
  currency = row.currency;
  price = row.price;
  price_source = row.price_source;
  match_method = match_method_of q.requested_at row;
  distance = if covers q.requested_at row then pos 0 else distance_of q.requested_at row;
  interval_start_at = some row.start_at;
  interval_end_at = row.end_at;
  reason = "";
}

unfoldable pub historical_result :
    HistoricalSkuPriceRequest → Option IntervalRow → SkuPriceQueryResult
unfolding unmatched_result with_status found_result
historical_result q none = unmatched_result q
historical_result q (some row) = with_status q.requested_at row (found_result q row)

-- The query in the database, which may fail: `db_ok` tells whether it does not.
unfoldable pub resolve_historical_sku_prices :
    Bool → List IntervalRow → List HistoricalSkuPriceRequest → Option (List SkuPriceQueryResult)
unfolding historical_result matched_interval
resolve_historical_sku_prices db_ok rows requests =
    if db_ok then some (map (λ q. historical_result q (matched_interval rows q)) requests) else none

-- `currentBySKU`
unfoldable pub current_by_sku : List SkuPriceState → List (ℤ × SkuPriceState)
unfolding insert
current_by_sku prices = fold (λ m price. insert price.sku_id price m) [] prices

unfoldable pub current_base : Time → ℕ → ℤ → SkuPriceQueryResult
current_base captured_at index sku_id = record {
  index = index;
  sku_id = sku_id;
  skc_id = pos 0;
  requested_at = none;
  observed_at = if is_zero captured_at then none else some captured_at;
  status = warning;
  price = pos 0;
  currency = "";
  price_source = source_unresolved;
  active_enroll_id = pos 0;
  candidate_enroll_ids = [];
  match_method = "current_memory";
  interval_id = pos 0;
  interval_start_at = none;
  interval_end_at = none;
  distance = pos 0;
  reason = "";
}

unfoldable pub current_result : SkuPriceQueryResult → Option SkuPriceState → SkuPriceQueryResult
current_result result none = record result { reason = "current_sku_not_found" }
current_result result (some price) = record result {
  skc_id = price.skc_id;
  status = price.status;
  price = price.resolved_price;
  currency = price.currency;
  price_source = price.price_source;
  active_enroll_id = price.active_enroll_id;
  candidate_enroll_ids = price.candidate_enroll_ids;
  reason = if str_eq price.status warning then price.reason else "";
}

-- The loop over the items from this index on: the results of those without a time (the others get
-- the zero value), and the requests for those with one.
unfoldable pub historical_requests : ℕ → List SkuPriceQueryItem → List HistoricalSkuPriceRequest
historical_requests index [] = []
historical_requests index (item ∷ items) =
    let rest = historical_requests (suc index) items in
    elim item.at [
      | none ↦ rest
      | some t ↦ record { request_index = index; sku_id = item.sku_id; requested_at = t } ∷ rest
    ]

unfoldable pub current_results :
    ActivityObservation → ℕ → List SkuPriceQueryItem → List SkuPriceQueryResult
unfolding current_by_sku current_base current_result zero_result lookup
current_results latest index [] = []
current_results latest index (item ∷ items) =
    let rest = current_results latest (suc index) items in
    elim item.at [
      | none ↦
          current_result (current_base latest.captured_at index item.sku_id)
            (lookup item.sku_id (current_by_sku latest.sku_prices))
          ∷ rest
      | some t ↦ zero_result ∷ rest
    ]

-- `results[i] = result`
unfoldable pub set_at {ℓ} : {A : Type ℓ} → ℕ → A → List A → List A
set_at i a [] = []
set_at ℕ.zero a (x ∷ xs) = a ∷ xs
set_at (suc i) a (x ∷ xs) = x ∷ set_at i a xs

-- The errors for bad items.
pub data QueryError : Type 0 where
  bad_count : QueryError
  bad_sku : QueryError
  database_failed : QueryError

pub data Answer : Type 0 where
  answered : List SkuPriceQueryResult → Answer
  refused : QueryError → Answer

with_historical : List SkuPriceQueryResult → Option (List SkuPriceQueryResult) → Answer
unfolding set_at
with_historical results none = refused database_failed
with_historical results (some resolved) =
    answered (fold (λ rs r. set_at r.index r rs) results resolved)

add_historical :
    Bool → List IntervalRow → List SkuPriceQueryResult → List HistoricalSkuPriceRequest → Answer
unfolding with_historical resolve_historical_sku_prices
add_historical db_ok rows results [] = answered results
add_historical db_ok rows results (q ∷ qs) =
    with_historical results (resolve_historical_sku_prices db_ok rows (q ∷ qs))

unfoldable pub resolve_sku_price_queries :
    Bool → ActivityObserver → List IntervalRow → List SkuPriceQueryItem → Answer
unfolding current_results historical_requests add_historical latest_observation
resolve_sku_price_queries db_ok observer rows items =
    if ltb (length items) 1 || ltb max_sku_price_query_items (length items)
    then refused bad_count
    else if any (λ item. not (positive item.sku_id)) items
    then refused bad_sku
    else add_historical db_ok rows (current_results (latest_observation observer) 0 items)
        (historical_requests 0 items)
