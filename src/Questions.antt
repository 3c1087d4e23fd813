-- ===== src/Questions.antt =====
-- sku_price_query.go: the questions and answers, and the choice of an interval for a time.
use pangu_sales_manager.Base.{
  ℕ, ℤ, int_eq, pos, eq_ℤ, lt_ℤ, ◌-ℤ◌, first_by, String, Bool, true, not, ◌&&◌, List, [], ◌∷◌,
  Option, none, some, if◌then◌else◌, keep,
}
use pangu_sales_manager.Marketing.State.{Time}
use pangu_sales_manager.Intervals.{IntervalRow}

abbrev pub max_sku_price_query_items : ℕ
max_sku_price_query_items = 1000

pub record SkuPriceQueryItem : Type 0 where
  pub sku_id : ℤ
  pub at : Option Time

pub record SkuPriceQueryResult : Type 0 where
  pub index : ℕ
  pub sku_id : ℤ
  pub skc_id : ℤ
  pub requested_at : Option Time
  pub observed_at : Option Time
  pub status : String
  pub price : ℤ
  pub currency : String
  pub price_source : String
  pub active_enroll_id : ℤ
  pub candidate_enroll_ids : List ℤ
  pub match_method : String
  pub interval_id : ℤ
  pub interval_start_at : Option Time
  pub interval_end_at : Option Time
  pub distance : ℤ
  pub reason : String

pub record HistoricalSkuPriceRequest : Type 0 where
  pub request_index : ℕ
  pub sku_id : ℤ
  pub requested_at : Time

-- The time at which the interval was seen last, `COALESCE(end_at,update_at)`.
abbrev pub last_seen : IntervalRow → Time
last_seen row = elim row.end_at [ none ↦ row.update_at | some t ↦ t ]

-- `at < COALESCE(end_at,'infinity')`
abbrev pub before_end : Time → IntervalRow → Bool
before_end at row = elim row.end_at [ none ↦ true | some t ↦ lt_ℤ at t ]

-- The time lies in the interval.
unfoldable pub covers : Time → IntervalRow → Bool
covers at row = not (lt_ℤ at row.start_at) && before_end at row

-- How far the time is from the interval, where it lies outside.
unfoldable pub distance_of : Time → IntervalRow → ℤ
distance_of at row = if lt_ℤ at row.start_at then row.start_at -ℤ at else at -ℤ last_seen row

-- The order of the candidates: those that cover the time first, then by the distance, then the
-- latest start.
abbrev pub rank : Time → IntervalRow → ℤ
rank at row = if covers at row then pos 0 else pos 1

abbrev pub prefers : Time → IntervalRow → IntervalRow → Bool
prefers at = first_by (rank at) (first_by (distance_of at) (λ a b. lt_ℤ b.start_at a.start_at))

-- `ORDER BY … LIMIT 1`: the first of the rows that no other comes before.
unfoldable pub better : Time → IntervalRow → Option IntervalRow → Option IntervalRow
better at r none = some r
better at r (some s) = if prefers at s r then some s else some r

unfoldable pub nearest : Time → List IntervalRow → Option IntervalRow
unfolding covers distance_of better
nearest at [] = none
nearest at (r ∷ rs) = better at r (nearest at rs)

-- The lateral join: the nearest interval of the SKU.
unfoldable pub matched_interval : List IntervalRow → HistoricalSkuPriceRequest → Option IntervalRow
unfolding nearest
matched_interval rows q = nearest q.requested_at (keep (λ r. eq_ℤ r.sku_id q.sku_id) rows)

-- The column match_method of a matched row.
unfoldable pub match_method_of : Time → IntervalRow → String
unfolding covers
match_method_of at row =
    if covers at row
    then "exact_interval"
    else if lt_ℤ at row.start_at
    then "nearest_after"
    else "nearest_before"

-- The zero value of a result, which a slot holds until it is filled.
unfoldable pub zero_result : SkuPriceQueryResult
zero_result = record {
  index = 0;
  sku_id = pos 0;
  skc_id = pos 0;
  requested_at = none;
  observed_at = none;
  status = "";
  price = pos 0;
  currency = "";
  price_source = "";
  active_enroll_id = pos 0;
  candidate_enroll_ids = [];
  match_method = "";
  interval_id = pos 0;
  interval_start_at = none;
  interval_end_at = none;
  distance = pos 0;
  reason = "";
}
