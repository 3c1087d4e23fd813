-- ===== src/Tests/Store.antt =====
-- Runs of the price intervals, the price query, the backfill and the request slots.
use pangu_sales_manager.Base.{
  In, here, ℤ, pos, eq_ℤ, lt_ℤ, positive, true, false, List, [], ◌∷◌, none, some, keep, length, ◌≡◌,
  refl, arith,
}
use pangu_sales_manager.Temu.Slots.{Slots, reserve_all, IsSpaced, reserve_all-IsSpaced}
use pangu_sales_manager.Marketing.State.{confirmed}
use pangu_sales_manager.Marketing.Price.{SkuPriceState, source_activity}
use pangu_sales_manager.Marketing.Observer.{latest_observation}
use pangu_sales_manager.Marketing.Observation.{new_activity_observer}
use pangu_sales_manager.Intervals.{IntervalRow, IntervalTable, new_row, update_sku_price_intervals}
use pangu_sales_manager.Intervals.Table.{IsTable}
use pangu_sales_manager.Intervals.History.{update_sku_price_intervals_keeps}
use pangu_sales_manager.Intervals.Update.{update_sku_price_intervals-AllShown}
use pangu_sales_manager.Intervals.Settled.{sku_ids, AllShown}
use pangu_sales_manager.Marketing.Ids.{contains}
use pangu_sales_manager.Intervals.{has_open}
use pangu_sales_manager.Base.{◌&&◌, not}
use pangu_sales_manager.Query.{answered, resolve_sku_price_queries}
use pangu_sales_manager.Questions.{SkuPriceQueryItem, HistoricalSkuPriceRequest, matched_interval}
use pangu_sales_manager.Query.Nearest.{IsNearest, matched_interval-IsNearest}
use pangu_sales_manager.Query.Answers.{answers, resolve_sku_price_queries-answers}
use pangu_sales_manager.Backfill.{backfill_order_price_estimates}
use pangu_sales_manager.OrderLines.{OrderLine, OrderPriceBackfillRequest}
use pangu_sales_manager.Backfill.Counts.{IsConsistent, backfill_order_price_estimates-IsConsistent}

abbrev priced : ℤ → ℤ → SkuPriceState
priced sku v = record {
  sku_id = sku;
  skc_id = pos 7;
  status = confirmed;
  active_enroll_id = pos 1;
  candidate_enroll_ids = pos 1 ∷ [];
  currency = "USD";
  daily_price = pos 500;
  activity_price = v;
  resolved_price = v;
  price_source = source_activity;
  reason = "";
  captured_at = pos 10;
}

-- SKU 77 cost 400 from 10 on, SKU 78 cost 300.
abbrev table : IntervalTable
table = record {
  rows =
      new_row (pos 1) (priced (pos 77) (pos 400)) (pos 10)
      ∷ new_row (pos 2) (priced (pos 78) (pos 300)) (pos 10)
      ∷ [];
  next_id = 3;
}

table-IsTable : IsTable table
unfolding eq_ℤ new_row lt_ℤ
table-IsTable = record { distinct = (refl, refl, (refl, refl, tt)); below = (refl, (refl, tt)) }

-- The table with an interval of the first SKU that is closed.
abbrev past : IntervalRow
past = record (new_row (pos 1) (priced (pos 77) (pos 500)) (pos 5)) { end_at = some (pos 10) }

abbrev later_table : IntervalTable
later_table = record {
  rows = past ∷ new_row (pos 2) (priced (pos 77) (pos 400)) (pos 10) ∷ [];
  next_id = 3;
}

later_table-IsTable : IsTable later_table
unfolding eq_ℤ new_row lt_ℤ
later_table-IsTable = record {
  distinct = (refl, refl, (refl, refl, tt));
  below = (refl, (refl, tt));
}

update_sku_price_intervals_keeps_example :
    In past
      (update_sku_price_intervals
        (λ s. true)
        (pos 20)
        (priced (pos 77) (pos 350) ∷ [])
        later_table).1.rows
unfolding new_row
update_sku_price_intervals_keeps_example =
    update_sku_price_intervals_keeps (λ s. true) (pos 20) (priced (pos 77) (pos 350) ∷ [])
      later_table past later_table-IsTable refl here

update_sku_price_intervals-AllShown_example :
    let states = priced (pos 77) (pos 350) ∷ [] in
    let (ok, u) = update_sku_price_intervals (λ s. true) (pos 20) states table in
    (ok ≡ true)
    × AllShown (pos 20) u states
    × ((k : ℤ) → not (contains (sku_ids states) k) && has_open k u.rows ≡ false)
unfolding contains pangu_sales_manager.Base.lt_ℤ
update_sku_price_intervals-AllShown_example =
    update_sku_price_intervals-AllShown (λ s. true) (λ s. refl) (pos 20)
      (priced (pos 77) (pos 350) ∷ []) table table-IsTable (refl, refl, tt)

-- The changed price closes one interval and opens another, and the missing SKU's is closed.
ends_after_update :
    length
      (update_sku_price_intervals
        (λ s. true)
        (pos 20)
        (priced (pos 77) (pos 350) ∷ [])
        table).1.rows
    ≡ 3
unfolding update_sku_price_intervals eq_ℤ positive pangu_sales_manager.Marketing.Ids.contains
ends_after_update = refl

abbrev question : HistoricalSkuPriceRequest
question = record { request_index = 0; sku_id = pos 77; requested_at = pos 15 }

matched_interval-IsNearest_example :
    IsNearest
      (pos 15)
      (keep (λ r. eq_ℤ r.sku_id (pos 77)) table.rows)
      (matched_interval table.rows question)
matched_interval-IsNearest_example = matched_interval-IsNearest table.rows question

abbrev first_row : IntervalRow
first_row = new_row (pos 1) (priced (pos 77) (pos 400)) (pos 10)

abbrev items : List SkuPriceQueryItem
items =
    record { sku_id = pos 77; at = none }
    ∷ record { sku_id = pos 78; at = some (pos 15) }
    ∷ record { sku_id = pos 77; at = some (pos 5) }
    ∷ []

resolve_sku_price_queries-answers_example :
    resolve_sku_price_queries true new_activity_observer table.rows items
    ≡ answered (answers (latest_observation new_activity_observer) table.rows 0 items)
unfolding positive
resolve_sku_price_queries-answers_example =
    resolve_sku_price_queries-answers new_activity_observer table.rows items (omega arith)
      (omega arith) refl

abbrev lines : List OrderLine
lines =
    record {
      line_id = pos 1;
      product_sku_id = some (pos 77);
      occurred_at = pos 15;
      occurred_at_source = "order";
    }
    ∷ record {
      line_id = pos 2;
      product_sku_id = none;
      occurred_at = pos 16;
      occurred_at_source = "order";
    }
    ∷ []

abbrev range : OrderPriceBackfillRequest
range = record { start_at = pos 1; end_at = pos 30; shop_key = ""; dry_run = false }

backfill_order_price_estimates-IsConsistent_example : IsConsistent range lines (
    backfill_order_price_estimates
      (resolve_sku_price_queries true new_activity_observer table.rows)
      (λ i. true)
      true
      lines
      range)
backfill_order_price_estimates-IsConsistent_example =
    backfill_order_price_estimates-IsConsistent
      (resolve_sku_price_queries true new_activity_observer table.rows) (λ i. true) true lines range

abbrev every_five : Slots
every_five = record { request_interval = pos 5; next_request_at = pos 0 }

reserve_all-IsSpaced_example :
    IsSpaced
      (pos 5)
      (pos 10 ∷ pos 11 ∷ pos 30 ∷ [])
      (reserve_all (pos 10 ∷ pos 11 ∷ pos 30 ∷ []) every_five)
unfolding positive
reserve_all-IsSpaced_example = reserve_all-IsSpaced (pos 10 ∷ pos 11 ∷ pos 30 ∷ []) every_five refl
