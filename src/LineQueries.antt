-- ===== src/LineQueries.antt =====
-- order_price_backfill.go: the questions for the order lines, asked in batches, and the answers by line.
use pangu_sales_manager.Base.{
  ℕ, zero, suc, ℤ, pos, positive, not, ◌==◌, ltb, List, [], ◌∷◌, ◌++◌, Option, none, some,
  if◌then◌else◌, length, take, drop,
}
use pangu_sales_manager.Query.{Answer, answered, refused}
use pangu_sales_manager.Questions.{
  SkuPriceQueryItem, SkuPriceQueryResult, max_sku_price_query_items,
}
use pangu_sales_manager.OrderLines.{OrderLine, OrderLinePriceTarget}

or_zero : Option ℤ → ℤ
or_zero none = pos 0
or_zero (some a) = a

unfoldable pub target_of : OrderLine → OrderLinePriceTarget
unfolding or_zero
target_of line = record {
  line_id = line.line_id;
  product_sku_id = or_zero line.product_sku_id;
  occurred_at = line.occurred_at;
  occurred_at_source = line.occurred_at_source;
}

-- The keys of `distinctSKUs`, each once.
unfoldable pub seen_skus : List OrderLine → List ℤ
seen_skus [] = []
seen_skus (line ∷ lines) =
    let rest = seen_skus lines in elim line.product_sku_id [ none ↦ rest | some sku ↦ sku ∷ rest ]

query_item : OrderLinePriceTarget → SkuPriceQueryItem
query_item target = record { sku_id = target.product_sku_id; at = some target.occurred_at }

-- `queryItems`
unfoldable pub query_items : List OrderLinePriceTarget → List SkuPriceQueryItem
unfolding query_item
query_items [] = []
query_items (target ∷ targets) =
    let rest = query_items targets in
    if not (positive target.product_sku_id) then rest else query_item target ∷ rest

-- `targetIndexes`, for the targets from this index on.
unfoldable pub target_indexes : ℕ → List OrderLinePriceTarget → List ℕ
target_indexes index [] = []
target_indexes index (target ∷ targets) =
    let rest = target_indexes (suc index) targets in
    if not (positive target.product_sku_id) then rest else index ∷ rest

append_answer : List SkuPriceQueryResult → Answer → Answer
append_answer batch (refused e) = refused e
append_answer batch (answered rest) = answered (batch ++ rest)

after_batch : Answer → (List SkuPriceQueryItem → Answer) → List SkuPriceQueryItem → Answer
unfolding append_answer
after_batch (refused e) next rest = refused e
after_batch (answered batch) next rest = append_answer batch (next rest)

-- The loop over the batches. Each takes at least one item, so that the number of items is enough
-- fuel.
resolve_batches : (List SkuPriceQueryItem → Answer) → ℕ → List SkuPriceQueryItem → Answer
unfolding after_batch
resolve_batches ask fuel [] = answered []
resolve_batches ask zero (item ∷ items) = answered []
resolve_batches ask (suc fuel) (item ∷ items) =
    after_batch (ask (take max_sku_price_query_items (item ∷ items))) (resolve_batches ask fuel)
      (drop max_sku_price_query_items (item ∷ items))

unfoldable pub resolve_items : (List SkuPriceQueryItem → Answer) → List SkuPriceQueryItem → Answer
unfolding resolve_batches
resolve_items ask items =
    if ltb 0 (length items)
    then if ltb max_sku_price_query_items (length items)
      then resolve_batches ask (length items) items
      else ask items
    else answered []

-- `resultByTarget`: results beyond the indexes are dropped.
unfoldable pub result_by_target : List ℕ → List SkuPriceQueryResult → List (ℕ × SkuPriceQueryResult)
result_by_target [] results = []
result_by_target (i ∷ is) [] = []
result_by_target (i ∷ is) (r ∷ rs) = (i, r) ∷ result_by_target is rs

unfoldable pub result_for : ℕ → List (ℕ × SkuPriceQueryResult) → Option SkuPriceQueryResult
result_for index [] = none
result_for index ((i, r) ∷ rest) = if i == index then some r else result_for index rest
