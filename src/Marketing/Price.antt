-- ===== src/Marketing/Price.antt =====
-- internal/marketing/sku_price_state.go: the price that an SKU is taken to sell at.
pub mod Quotes
pub mod Laws
use Prim.Native.String.{◌++◌ as str_append}
use pangu_sales_manager.Base.{
  ℤ, pos, eq_ℤ, positive, is_zero, String, str_eq, Bool, true, false, ◌&&◌, List, [], ◌∷◌,
  if◌then◌else◌, keep, map,
}
use pangu_sales_manager.Marketing.Ids.{unique_sorted}
use pangu_sales_manager.Marketing.State.{Time, confirmed, warning, SkcActivityState}

abbrev pub source_activity : String
source_activity = "activity"

abbrev pub source_daily : String
source_daily = "daily"

abbrev pub source_unresolved : String
source_unresolved = "unresolved"

pub record SkuActivityPricePoint : Type 0 where
  pub enroll_id : ℤ
  pub skc_id : ℤ
  pub sku_id : ℤ
  pub site_id : ℤ
  pub currency : String
  pub daily_price : ℤ
  pub activity_price : ℤ

pub record SkuPriceState : Type 0 where
  pub sku_id : ℤ
  pub skc_id : ℤ
  pub status : String
  pub active_enroll_id : ℤ
  pub candidate_enroll_ids : List ℤ
  pub currency : String
  pub daily_price : ℤ
  pub activity_price : ℤ
  pub resolved_price : ℤ
  pub price_source : String
  pub reason : String
  pub captured_at : Time

-- The price that the flag `activity` selects.
abbrev pub price_of : Bool → SkuActivityPricePoint → ℤ
price_of activity c = if activity then c.activity_price else c.daily_price

unfoldable pub unique_positive_prices : List SkuActivityPricePoint → Bool → List ℤ
unique_positive_prices candidates activity =
    unique_sorted (keep positive (map (price_of activity) candidates))

unfoldable pub price_candidate_enroll_ids : List SkuActivityPricePoint → List ℤ
price_candidate_enroll_ids candidates = unique_sorted (map (λ c. c.enroll_id) candidates)

unfoldable pub first_price_currency : List SkuActivityPricePoint → String
first_price_currency [] = ""
first_price_currency (c ∷ cs) = if str_eq c.currency "" then first_price_currency cs else c.currency

-- `if len(prices) == 1 { field = prices[0] }` for a field that is `otherwise`.
the_one : List ℤ → ℤ → ℤ
the_one [] otherwise = otherwise
the_one (p ∷ []) otherwise = p
the_one (p ∷ q ∷ rest) otherwise = otherwise

-- The end of the function: the daily price, if all candidates agree on it.
daily_fallback : SkuPriceState → List ℤ → SkuPriceState
daily_fallback state [] = record state { reason = str_append state.reason "_daily_price_missing" }
daily_fallback state (d ∷ []) = record state {
  resolved_price = d;
  price_source = source_daily;
  reason = str_append state.reason "_daily_fallback";
}
daily_fallback state (d ∷ e ∷ rest) = record state {
  reason = str_append state.reason "_daily_price_conflict";
}

-- The SKC is confirmed: `prices` are the activity prices of the selected candidates.
by_activity_price : SkuPriceState → List SkuActivityPricePoint → List ℤ → List ℤ → SkuPriceState
by_activity_price state selected daily_prices [] =
    daily_fallback (record state { reason = "confirmed_activity_price_missing" }) daily_prices
by_activity_price state selected daily_prices (p ∷ []) = record state {
  status = confirmed;
  activity_price = p;
  resolved_price = p;
  price_source = source_activity;
  reason = "confirmed_activity_price";
  daily_price =
      if is_zero state.daily_price
      then the_one (unique_positive_prices selected false) state.daily_price
      else state.daily_price;
}
by_activity_price state selected daily_prices (p ∷ q ∷ rest) =
    daily_fallback (record state { reason = "confirmed_activity_price_conflict" }) daily_prices

unfoldable pub selected_by : ℤ → List SkuActivityPricePoint → List SkuActivityPricePoint
selected_by e candidates = keep (λ c. eq_ℤ c.enroll_id e) candidates

-- The state before the price is decided.
candidate_state : Time → SkuActivityPricePoint → List SkuActivityPricePoint → SkuPriceState
unfolding the_one
candidate_state now first candidates = record {
  sku_id = first.sku_id;
  skc_id = first.skc_id;
  status = warning;
  active_enroll_id = pos 0;
  candidate_enroll_ids = price_candidate_enroll_ids candidates;
  currency = first_price_currency candidates;
  daily_price = the_one (unique_positive_prices candidates false) (pos 0);
  activity_price = pos 0;
  resolved_price = pos 0;
  price_source = source_unresolved;
  reason = "";
  captured_at = now;
}

decide_price : SkuPriceState → SkcActivityState → List SkuActivityPricePoint → SkuPriceState
unfolding by_activity_price daily_fallback
decide_price state skc_state candidates =
    if str_eq skc_state.status confirmed && positive skc_state.active_enroll_id
    then by_activity_price (record state { active_enroll_id = skc_state.active_enroll_id })
        (selected_by skc_state.active_enroll_id candidates)
        (unique_positive_prices candidates false)
        (unique_positive_prices (selected_by skc_state.active_enroll_id candidates) true)
    else daily_fallback (record state { reason = "skc_state_warning" })
        (unique_positive_prices candidates false)

unfoldable pub resolve_sku_price_state :
    Time → SkcActivityState → List SkuActivityPricePoint → SkuPriceState
unfolding candidate_state decide_price
resolve_sku_price_state now skc_state [] = record {
  sku_id = pos 0;
  skc_id = pos 0;
  status = warning;
  active_enroll_id = pos 0;
  candidate_enroll_ids = [];
  currency = "";
  daily_price = pos 0;
  activity_price = pos 0;
  resolved_price = pos 0;
  price_source = source_unresolved;
  reason = "no_price_candidates";
  captured_at = now;
}
resolve_sku_price_state now skc_state (c ∷ cs) =
    decide_price (candidate_state now c (c ∷ cs)) skc_state (c ∷ cs)
