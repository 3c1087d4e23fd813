-- ===== src/Marketing/Observer.antt =====
-- internal/marketing/activity_observer.go: what the process remembers from one snapshot to the
-- next. `observe` runs under the observer's lock, so it is one step of the state. The clones that
-- the source makes are the values themselves here.
pub mod Stock
pub mod Points
pub mod States
pub mod Prices
pub mod Memory
use pangu_sales_manager.Base.{
  ℤ, pos, eq_ℤ, eq_ℤ_iff, lt_ℤ, max_zero, sub64, String, str_eq, Bool, true, false, not, ◌&&◌, List,
  [], ◌∷◌, ◌++◌, Option, none, some, if◌then◌else◌, keep, map, fold, length, ltb, sort_by, Eq,
  int_eq, lookup, insert, keys, arith, ◌≡◌, ◌↔◌,
}
use pangu_sales_manager.Temu.{
  MarketingEnrollment, MarketingEnrollmentSkc, MarketingEnrollmentSku, MarketingEnrollmentPrice,
}
use pangu_sales_manager.Marketing.Ids.{unique_sorted}
use pangu_sales_manager.Marketing.State.{
  Time, warning, ActivityStockPoint, SkcActivityState, resolve_skc_activity_state,
}
use pangu_sales_manager.Marketing.Price.{
  SkuActivityPricePoint, SkuPriceState, resolve_sku_price_state,
}
use pangu_sales_manager.Marketing.Snapshot.{Snapshot}
use pangu_sales_manager.Marketing.Observation.{
  EnrollmentObservationKey, key_beq, key_beq_iff, key_eq, EnrollmentStockObservation,
  ActivityObservation, ActivityObserver, new_activity_observer,
}

unfoldable pub first_non_empty : List String → String
first_non_empty [] = ""
first_non_empty (v ∷ vs) = if str_eq v "" then first_non_empty vs else v

-- The stock record of an enrolment and an SKC, before it is compared with the previous one.
unfoldable pub base_stock :
    Time → MarketingEnrollment → MarketingEnrollmentSkc → EnrollmentStockObservation
base_stock completed_at enrollment skc = record {
  enroll_id = enrollment.enroll_id;
  skc_id = skc.skc_id;
  activity_stock = enrollment.activity_stock;
  remaining_activity_stock = enrollment.remaining_activity_stock;
  previous_remaining_activity_stock = none;
  interval_consumed_stock = pos 0;
  interval_increased_stock = pos 0;
  cumulative_consumed_stock =
      max_zero (sub64 enrollment.activity_stock enrollment.remaining_activity_stock);
  captured_at = completed_at;
}

-- The change since the previous snapshot, if that had the enrolment.
unfoldable pub compare_stock : Option ℤ → EnrollmentStockObservation → EnrollmentStockObservation
compare_stock none stock = stock
compare_stock (some previous) stock =
    let seen = record stock { previous_remaining_activity_stock = some previous } in
    if lt_ℤ stock.remaining_activity_stock previous
    then record seen { interval_consumed_stock = sub64 previous stock.remaining_activity_stock }
    else if lt_ℤ previous stock.remaining_activity_stock
    then record seen { interval_increased_stock = sub64 stock.remaining_activity_stock previous }
    else seen

-- The maps that the loop over the snapshot fills.
pub record Tally : Type 0 where
  pub enrollments : List (EnrollmentObservationKey × EnrollmentStockObservation)
  pub current_remaining : List (EnrollmentObservationKey × ℤ)
  pub points_by_skc : List (ℤ × List ActivityStockPoint)
  pub price_points_by_sku : List (ℤ × List SkuActivityPricePoint)

abbrev pub empty_tally : Tally
empty_tally = record {
  enrollments = [];
  current_remaining = [];
  points_by_skc = [];
  price_points_by_sku = [];
}

-- `m[k]`, where a missing key reads as the nil slice.
unfoldable pub entries {ℓ} : {A : Type ℓ} → ℤ → List (ℤ × List A) → List A
entries k m = elim (lookup k m) [ none ↦ [] | some xs ↦ xs ]

-- `m[k] = append(m[k], x)`
unfoldable pub append_entry {ℓ} : {A : Type ℓ} → ℤ → A → List (ℤ × List A) → List (ℤ × List A)
unfolding entries
append_entry k x m = insert k (entries k m ++ x ∷ []) m

unfoldable pub price_point :
    MarketingEnrollment
    → MarketingEnrollmentSkc
    → MarketingEnrollmentSku
    → MarketingEnrollmentPrice
    → SkuActivityPricePoint
unfolding first_non_empty
price_point enrollment skc sku price = record {
  enroll_id = enrollment.enroll_id;
  skc_id = skc.skc_id;
  sku_id = sku.sku_id;
  site_id = price.site_id;
  currency = first_non_empty (sku.currency ∷ skc.currency ∷ enrollment.currency ∷ []);
  daily_price = price.daily_price;
  activity_price = price.activity_price;
}

tally_prices :
    MarketingEnrollment
    → MarketingEnrollmentSkc
    → List (ℤ × List SkuActivityPricePoint)
    → MarketingEnrollmentSku
    → List (ℤ × List SkuActivityPricePoint)
unfolding append_entry price_point
tally_prices enrollment skc m sku =
    fold (λ m price. append_entry sku.sku_id (price_point enrollment skc sku price) m) m
      sku.site_price_list

unfoldable pub stock_point : EnrollmentStockObservation → ActivityStockPoint
stock_point stock = record {
  enroll_id = stock.enroll_id;
  skc_id = stock.skc_id;
  cumulative_consumed = stock.cumulative_consumed_stock;
  interval_consumed = stock.interval_consumed_stock;
}

module _ (previous_remaining : List (EnrollmentObservationKey × ℤ)) (completed_at : Time) where
  unfoldable pub observed_stock :
      MarketingEnrollment → MarketingEnrollmentSkc → EnrollmentStockObservation
  unfolding compare_stock base_stock
  observed_stock enrollment skc =
      compare_stock
        (lookup (record { enroll_id = enrollment.enroll_id; skc_id = skc.skc_id })
          previous_remaining)
        (base_stock completed_at enrollment skc)

  -- The body of the inner loop.
  tally_skc : MarketingEnrollment → Tally → MarketingEnrollmentSkc → Tally
  unfolding observed_stock tally_prices append_entry stock_point
  tally_skc enrollment tally skc =
      let key : EnrollmentObservationKey = record {
        enroll_id = enrollment.enroll_id;
        skc_id = skc.skc_id;
      } in
      let stock = observed_stock enrollment skc in
      record {
        enrollments = insert key stock tally.enrollments;
        current_remaining = insert key stock.remaining_activity_stock tally.current_remaining;
        points_by_skc = append_entry skc.skc_id (stock_point stock) tally.points_by_skc;
        price_points_by_sku =
            fold (tally_prices enrollment skc) tally.price_points_by_sku skc.sku_list;
      }

  tally_enrollment : Tally → MarketingEnrollment → Tally
  unfolding tally_skc
  tally_enrollment tally enrollment = fold (tally_skc enrollment) tally enrollment.skc_list

  unfoldable pub tally_all : List MarketingEnrollment → Tally
  unfolding tally_enrollment
  tally_all enrollments = fold tally_enrollment empty_tally enrollments

-- The SKCs that get a state: those of the snapshot, and those remembered with a current activity.
unfoldable pub state_skcs :
    List (ℤ × List ActivityStockPoint) → List (ℤ × SkcActivityState) → List ℤ
state_skcs points_by_skc old =
    keys points_by_skc ++ keys (keep (λ e. not (str_eq e.1.reason "no_current_activity")) old)

resolve_into :
    Time
    → List (ℤ × List ActivityStockPoint)
    → List (ℤ × SkcActivityState)
    → List (ℤ × SkcActivityState)
    → ℤ
    → List (ℤ × SkcActivityState)
unfolding entries
resolve_into now points_by_skc old states skc_id =
    insert skc_id
      (resolve_skc_activity_state now skc_id (entries skc_id points_by_skc) (lookup skc_id old))
      states

unfoldable pub resolve_states :
    Time
    → List (ℤ × List ActivityStockPoint)
    → List (ℤ × SkcActivityState)
    → List (ℤ × SkcActivityState)
unfolding state_skcs resolve_into
resolve_states now points_by_skc old =
    fold (resolve_into now points_by_skc old) [] (state_skcs points_by_skc old)

abbrev pub zero_skc_state : SkcActivityState
zero_skc_state = record {
  skc_id = pos 0;
  status = "";
  active_enroll_id = pos 0;
  previous_active_enroll_id = pos 0;
  candidate_enroll_ids = [];
  evidence_enroll_ids = [];
  state_started_at = pos 0;
  last_evidence_at = none;
  carried_forward = false;
  reason = "";
  captured_at = pos 0;
}

-- `states[candidates[0].SKCID]`; a missing key reads as the zero state.
state_of_first : List (ℤ × SkcActivityState) → List SkuActivityPricePoint → SkcActivityState
state_of_first states [] = zero_skc_state
state_of_first states (c ∷ cs) = elim (lookup c.skc_id states) [
  | none ↦ zero_skc_state
  | some s ↦ s
]

-- The price of one SKU. An SKU that shows under several SKCs is warned about.
unfoldable pub observe_price :
    Time → List (ℤ × SkcActivityState) → List SkuActivityPricePoint → SkuPriceState
unfolding state_of_first
observe_price now states candidates =
    if ltb 1 (length (unique_sorted (map (λ c. c.skc_id) candidates)))
    then record (resolve_sku_price_state now
        (record zero_skc_state { status = warning; reason = "sku_multiple_skc" }) candidates) {
          status = warning;
          active_enroll_id = pos 0;
          reason = "sku_multiple_skc";
        }
    else resolve_sku_price_state now (state_of_first states candidates) candidates

unfoldable pub observe_prices :
    Time → List (ℤ × SkcActivityState) → List (ℤ × List SkuActivityPricePoint) → List SkuPriceState
unfolding observe_price entries sort_by lt_ℤ
observe_prices now states m =
    map (λ sku_id. observe_price now states (entries sku_id m)) (sort_by lt_ℤ (keys m))

unfoldable pub observe : ActivityObserver → Snapshot → ActivityObserver × ActivityObservation
unfolding tally_all resolve_states observe_prices
observe o snapshot =
    let tally = tally_all o.previous_remaining snapshot.completed_at snapshot.enrollments in
    let states = resolve_states snapshot.completed_at tally.points_by_skc o.states in
    let observation : ActivityObservation = record {
      captured_at = snapshot.completed_at;
      enrollments = tally.enrollments;
      states = states;
      sku_prices = observe_prices snapshot.completed_at states tally.price_points_by_sku;
    } in
    (
      record {
        previous_remaining = tally.current_remaining;
        states = states;
        latest = observation;
      },
      observation,
    )

unfoldable pub latest_observation : ActivityObserver → ActivityObservation
latest_observation o = o.latest
