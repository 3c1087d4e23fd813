-- ===== src/Query/Answers.antt =====
-- Each question gets its own answer, in its place.
use pangu_sales_manager.Base.{
  ℕ, suc, ◌≤◌, ◌<◌, int_eq, positive, true, false, not, ltb, List, [], ◌∷◌, ◌++◌, append_assoc,
  Option, none, some, map, any, fold, length, lookup, ◌≡◌, refl, ap, sym, length-append, if_rule,
  str_eq, Option-cases, inl, inr, ◌∙◌, arith,
}
use pangu_sales_manager.Marketing.Observer.{latest_observation}
use pangu_sales_manager.Marketing.Observation.{ActivityObserver, ActivityObservation}
use pangu_sales_manager.Intervals.{IntervalRow}
use pangu_sales_manager.Query.{
  answered, unmatched_result, found_result, with_status, current_base, current_result,
  current_by_sku, historical_result, historical_requests, current_results, set_at, with_historical,
  add_historical, resolve_historical_sku_prices, resolve_sku_price_queries,
}
use pangu_sales_manager.Questions.{
  SkuPriceQueryItem, SkuPriceQueryResult, HistoricalSkuPriceRequest, match_method_of,
  matched_interval, zero_result,
}

index-historical_result :
    (q : HistoricalSkuPriceRequest) (o : Option IntervalRow)
    → (historical_result q o).index ≡ q.request_index
unfolding historical_result unmatched_result found_result with_status
index-historical_result q none = refl
index-historical_result q (some row) =
    if_rule (λ (s : SkuPriceQueryResult). s.index ≡ q.request_index)
      (str_eq (match_method_of q.requested_at row) "exact_interval") (λ _. refl) (λ _. refl)

module _ (latest : ActivityObservation) (rows : List IntervalRow) where
  -- The answer to one question, by itself.
  abbrev pub answer_at : ℕ → SkuPriceQueryItem → SkuPriceQueryResult
  answer_at index item = elim item.at [
    | none ↦
        current_result (current_base latest.captured_at index item.sku_id)
          (lookup item.sku_id (current_by_sku latest.sku_prices))
    | some t ↦
        let q : HistoricalSkuPriceRequest = record {
          request_index = index;
          sku_id = item.sku_id;
          requested_at = t;
        } in
        historical_result q (matched_interval rows q)
  ]

  -- The answers to the questions from this index on.
  abbrev pub answers : ℕ → List SkuPriceQueryItem → List SkuPriceQueryResult
  answers index [] = []
  answers index (item ∷ items) = answer_at index item ∷ answers (suc index) items

  abbrev resolved : List HistoricalSkuPriceRequest → List SkuPriceQueryResult
  resolved qs = map (λ q. historical_result q (matched_interval rows q)) qs

  abbrev fill : List SkuPriceQueryResult → List SkuPriceQueryResult → List SkuPriceQueryResult
  fill results found = fold (λ rs r. set_at r.index r rs) results found

  set_at-append :
      (before : List SkuPriceQueryResult) (a x : SkuPriceQueryResult)
      (after : List SkuPriceQueryResult)
      → set_at (length before) a (before ++ x ∷ after) ≡ before ++ a ∷ after
  unfolding set_at
  set_at-append [] a x after = refl
  set_at-append (b ∷ bs) a x after = ap (λ l. b ∷ l) (set_at-append bs a x after)

  length-snoc :
      (before : List SkuPriceQueryResult) (c : SkuPriceQueryResult)
      → length (before ++ c ∷ []) ≡ suc (length before)
  length-snoc before c = length-append before (c ∷ []) ∙ omega arith

  -- One more slot is done.
  one_more :
      (before : List SkuPriceQueryResult) (c : SkuPriceQueryResult)
      (after found done : List SkuPriceQueryResult)
      → fill ((before ++ c ∷ []) ++ after) found ≡ (before ++ c ∷ []) ++ done
      → fill (before ++ c ∷ after) found ≡ before ++ c ∷ done
  one_more before c after found done h =
      ap (λ l. fill l found) (sym (append_assoc before (c ∷ []) after))
      ∙ h
      ∙ append_assoc before (c ∷ []) done

  filled :
      (before : List SkuPriceQueryResult) (index : ℕ) (items : List SkuPriceQueryItem)
      → length before ≡ index
      → fill
          (before ++ current_results latest index items)
          (resolved (historical_requests index items))
        ≡ before ++ answers index items
  unfolding current_results historical_requests
  filled before index [] h = refl
  filled before index (item ∷ items) h = elim (Option-cases item.at) [
    | inl e ↦
        let c =
          current_result (current_base latest.captured_at index item.sku_id)
            (lookup item.sku_id (current_by_sku latest.sku_prices)) in
        rw e (
          one_more before c (current_results latest (suc index) items)
            (resolved (historical_requests (suc index) items)) (answers (suc index) items)
            (filled (before ++ c ∷ []) (suc index) items (length-snoc before c ∙ ap suc h)))
    | inr (t, e) ↦
        let q : HistoricalSkuPriceRequest = record {
          request_index = index;
          sku_id = item.sku_id;
          requested_at = t;
        } in
        let a = historical_result q (matched_interval rows q) in
        let rest = current_results latest (suc index) items in
        let found = resolved (historical_requests (suc index) items) in
        rw e (
          ap (λ i. fill (set_at i a (before ++ zero_result ∷ rest)) found)
            (index-historical_result q (matched_interval rows q) ∙ sym h)
          ∙ ap (λ l. fill l found) (set_at-append before a zero_result rest)
          ∙ one_more before a rest found (answers (suc index) items)
              (filled (before ++ a ∷ []) (suc index) items (length-snoc before a ∙ ap suc h)))
  ]

  added :
      (items : List SkuPriceQueryItem) (qs : List HistoricalSkuPriceRequest)
      → historical_requests 0 items ≡ qs
      → add_historical true rows (current_results latest 0 items) qs ≡ answered (answers 0 items)
  unfolding add_historical with_historical resolve_historical_sku_prices
  added items [] e = ap answered (
      ap (λ qs. fill (current_results latest 0 items) (resolved qs)) (sym e)
      ∙ filled [] 0 items refl)
  added items (q ∷ qs) e = ap answered (
      ap (λ qs. fill (current_results latest 0 items) (resolved qs)) (sym e)
      ∙ filled [] 0 items refl)

-- Between 1 and 1000 questions, all for a positive SKU, are answered if the database is up: each by
-- itself, in its place and under its index, from memory if it is about now and from the nearest
-- interval of its SKU if it is about the past.
pub resolve_sku_price_queries-answers :
    (observer : ActivityObserver) (rows : List IntervalRow) (items : List SkuPriceQueryItem)
    → 0 < length items
    → length items ≤ 1000
    → any (λ item. not (positive item.sku_id)) items ≡ false
    → resolve_sku_price_queries true observer rows items
      ≡ answered (answers (latest_observation observer) rows 0 items)
unfolding resolve_sku_price_queries
resolve_sku_price_queries-answers observer rows items a b p =
    let low : ltb (length items) 1 ≡ false = ground arith in
    let high : ltb 1000 (length items) ≡ false = ground arith in
    rw (low, high, p)
      (added (latest_observation observer) rows items (historical_requests 0 items) refl)
