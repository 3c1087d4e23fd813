-- ===== src/Intervals.antt =====
-- activity_store.go: the history of the SKU prices, as a table of intervals.
pub mod Table
pub mod Find
pub mod Steps
pub mod Round
pub mod Settled
pub mod Missing
pub mod History
pub mod Update
use pangu_sales_manager.Base.{
  ℕ, suc, ◌+◌, ℤ, int_eq, pos, eq_ℤ, positive, is_zero, String, str_eq, Bool, true, false, not,
  ◌&&◌, ◌||◌, List, [], ◌∷◌, ◌++◌, Option, none, some, if◌then◌else◌, keep, map, any, fold,
  flat_map, insert, lookup,
}
use pangu_sales_manager.Marketing.Ids.{contains, same_list}
use pangu_sales_manager.Marketing.State.{Time, confirmed}
use pangu_sales_manager.Marketing.Price.{SkuPriceState}

-- A row of temu_sku_price_intervals. The column active_enroll_id may be NULL.
pub record IntervalRow : Type 0 where
  pub id : ℤ
  pub sku_id : ℤ
  pub skc_id : ℤ
  pub status : String
  pub active_enroll_id : Option ℤ
  pub candidate_enroll_ids : List ℤ
  pub currency : String
  pub daily_price : ℤ
  pub activity_price : ℤ
  pub price : ℤ
  pub price_source : String
  pub reason : String
  pub start_at : Time
  pub update_at : Time
  pub end_at : Option Time

-- The table, with the next value of the identity column.
pub record IntervalTable : Type 0 where
  pub rows : List IntervalRow
  pub next_id : ℕ

-- `DurationSeconds` is left out: it is computed from the times for display.
pub record SkuPriceInterval : Type 0 where
  pub id : ℤ
  pub sku_id : ℤ
  pub skc_id : ℤ
  pub status : String
  pub active_enroll_id : ℤ
  pub candidate_enroll_ids : List ℤ
  pub currency : String
  pub daily_price : ℤ
  pub activity_price : ℤ
  pub price : ℤ
  pub price_source : String
  pub reason : String
  pub start_at : Time
  pub update_at : Time
  pub end_at : Option Time

or_zero : Option ℤ → ℤ
or_zero none = pos 0
or_zero (some a) = a

unfoldable pub scan_sku_price_interval : IntervalRow → SkuPriceInterval
unfolding or_zero
scan_sku_price_interval row = record {
  id = row.id;
  sku_id = row.sku_id;
  skc_id = row.skc_id;
  status = row.status;
  active_enroll_id = or_zero row.active_enroll_id;
  candidate_enroll_ids = row.candidate_enroll_ids;
  currency = row.currency;
  daily_price = row.daily_price;
  activity_price = row.activity_price;
  price = row.price;
  price_source = row.price_source;
  reason = row.reason;
  start_at = row.start_at;
  update_at = row.update_at;
  end_at = row.end_at;
}

-- `value <= 0` is NULL.
unfoldable pub nullable_positive : ℤ → Option ℤ
nullable_positive value = if positive value then some value else none

-- The condition `end_at IS NULL`.
abbrev pub is_open : IntervalRow → Bool
is_open row = elim row.end_at [ none ↦ true | some t ↦ false ]

unfoldable pub same_sku_price_interval : SkuPriceInterval → SkuPriceState → Bool
unfolding same_list
same_sku_price_interval existing state =
    eq_ℤ existing.skc_id state.skc_id
    && str_eq existing.status state.status
    && eq_ℤ existing.active_enroll_id state.active_enroll_id
    && same_list existing.candidate_enroll_ids state.candidate_enroll_ids
    && str_eq existing.currency state.currency
    && eq_ℤ existing.daily_price state.daily_price
    && eq_ℤ existing.activity_price state.activity_price
    && eq_ℤ existing.price state.resolved_price
    && str_eq existing.price_source state.price_source
    && str_eq existing.reason state.reason

-- The statements that the update sends.
pub data Statement : Type 0 where
  extend_interval : ℤ → Time → Statement
  close_interval : ℤ → Time → Statement
  insert_interval : SkuPriceState → Time → Statement

abbrev pub extended : ℤ → Time → IntervalRow → IntervalRow
extended id at row = if eq_ℤ row.id id then record row { update_at = at } else row

abbrev pub closed : ℤ → Time → IntervalRow → IntervalRow
closed id at row = if eq_ℤ row.id id then record row { update_at = at; end_at = some at } else row

unfoldable pub new_row : ℤ → SkuPriceState → Time → IntervalRow
unfolding nullable_positive
new_row id state at = record {
  id = id;
  sku_id = state.sku_id;
  skc_id = state.skc_id;
  status = state.status;
  active_enroll_id = nullable_positive state.active_enroll_id;
  candidate_enroll_ids = state.candidate_enroll_ids;
  currency = state.currency;
  daily_price = state.daily_price;
  activity_price = state.activity_price;
  price = state.resolved_price;
  price_source = state.price_source;
  reason = state.reason;
  start_at = at;
  update_at = at;
  end_at = none;
}

-- The unique index of schema.sql on the SKUs of the open rows.
abbrev pub has_open : ℤ → List IntervalRow → Bool
has_open sku_id rows = any (λ r. is_open r && eq_ℤ r.sku_id sku_id) rows

-- What the database does; `none` is a violation of the index.
unfoldable pub execute : Statement → IntervalTable → Option IntervalTable
unfolding new_row
execute (extend_interval id at) t = some (record t { rows = map (extended id at) t.rows })
execute (close_interval id at) t = some (record t { rows = map (closed id at) t.rows })
execute (insert_interval state at) t =
    if has_open state.sku_id t.rows
    then none
    else some
        (record { rows = t.rows ++ new_row (pos t.next_id) state at ∷ []; next_id = suc t.next_id })

-- The map `open`.
unfoldable pub open_intervals : IntervalTable → List (ℤ × SkuPriceInterval)
unfolding insert scan_sku_price_interval
open_intervals t =
    fold (λ m row. insert row.sku_id (scan_sku_price_interval row) m) [] (keep is_open t.rows)

unfoldable pub without_reason : SkuPriceState → SkuPriceState
without_reason state = if str_eq state.status confirmed then record state { reason = "" } else state

-- The round of the loop for a state, by the open interval of its SKU.
unfoldable pub state_statements : Time → SkuPriceState → Option SkuPriceInterval → List Statement
unfolding same_sku_price_interval
state_statements at state none = insert_interval state at ∷ []
state_statements at state (some existing) =
    if same_sku_price_interval existing state
    then extend_interval existing.id at ∷ []
    else close_interval existing.id at ∷ insert_interval state at ∷ []

unfoldable pub statements_for : Time → List (ℤ × SkuPriceInterval) → SkuPriceState → List Statement
unfolding state_statements without_reason lookup
statements_for at opened state =
    state_statements at (without_reason state) (lookup state.sku_id opened)

-- The second loop. The map `current` has the SKUs of the states as its keys.
unfoldable pub missing_statements :
    Time → List SkuPriceState → List (ℤ × SkuPriceInterval) → List Statement
missing_statements at states opened =
    flat_map
      (λ entry.
        if contains (map (λ s. s.sku_id) states) entry.0
        then []
        else close_interval entry.1.id at ∷ [])
      opened

-- `accepts` tells which statements the connection and the other constraints let through.
module _ (accepts : Statement → Bool) where
  unfoldable pub and_then :
      (IntervalTable → Option IntervalTable) → Option IntervalTable → Option IntervalTable
  and_then next none = none
  and_then next (some u) = next u

  unfoldable pub execute_all : List Statement → IntervalTable → Option IntervalTable
  unfolding execute and_then
  execute_all [] t = some t
  execute_all (s ∷ rest) t = if accepts s then and_then (execute_all rest) (execute s t) else none

  unfoldable pub all_statements : Time → List SkuPriceState → IntervalTable → List Statement
  unfolding open_intervals statements_for missing_statements
  all_statements at states t =
      flat_map (statements_for at (open_intervals t)) states
      ++ missing_statements at states (open_intervals t)

  -- Whether the transaction was committed, and the table afterwards: after an error it is rolled
  -- back.
  committed : IntervalTable → Option IntervalTable → Bool × IntervalTable
  committed t none = (false, t)
  committed t (some u) = (true, u)

  unfoldable pub update_sku_price_intervals :
      Time → List SkuPriceState → IntervalTable → Bool × IntervalTable
  unfolding execute_all all_statements committed
  update_sku_price_intervals at states t = committed t (execute_all (all_statements at states t) t)
