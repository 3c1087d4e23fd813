-- ===== src/Marketing/Effective.antt =====
-- internal/marketing/effective_prices.go: the lowest current activity price of each SKU and site.
-- Go ranges over a map in an order that it does not say; here it is the order of insertion.
pub mod Best
pub mod Covering
pub mod Complete
use pangu_sales_manager.Base.{
  ℤ, pos, eq_ℤ, eq_ℤ_iff, lt_ℤ, is_zero, String, Bool, true, false, not, ◌&&◌, ◌||◌, List, [], ◌∷◌,
  ◌++◌, Option, none, some, if◌then◌else◌, keep, map, any, fold, sort_by, Eq, int_eq, lookup,
  insert, values, arith, ◌≡◌, ◌↔◌,
}
use pangu_sales_manager.Temu.{
  MarketingEnrollment, MarketingEnrollmentSession, MarketingEnrollmentSkc, MarketingEnrollmentSku,
  MarketingEnrollmentPrice, GoodsSummary, skc_site_status_on_shelf,
}
use pangu_sales_manager.Marketing.Snapshot.{Snapshot, successful}
use pangu_sales_manager.Marketing.Observer.{first_non_empty}

pub record EffectivePriceFilter : Type 0 where
  pub skc_id : ℤ
  pub sku_id : ℤ
  pub site_id : ℤ

pub record ActiveActivity : Type 0 where
  pub enroll_id : ℤ
  pub activity_type : ℤ
  pub activity_type_name : String
  pub activity_thematic_id : ℤ
  pub activity_thematic_name : String
  pub session_id : ℤ
  pub session_name : String
  pub session_status : ℤ
  pub session_start_time : ℤ
  pub session_end_time : ℤ
  pub daily_price : ℤ
  pub activity_price : ℤ
  pub activity_stock : ℤ
  pub remaining_activity_stock : ℤ
  pub enroll_status : ℤ

pub record EffectiveActivityPrice : Type 0 where
  pub product_id : ℤ
  pub skc_id : ℤ
  pub sku_id : ℤ
  pub site_id : ℤ
  pub site_name : String
  pub currency : String
  pub effective_activity_price : ℤ
  pub active_activities : List ActiveActivity
  pub winning_activities : List ActiveActivity

pub record EffectivePriceKey : Type 0 where
  pub product_id : ℤ
  pub skc_id : ℤ
  pub sku_id : ℤ
  pub site_id : ℤ

abbrev pub price_key_beq : EffectivePriceKey → EffectivePriceKey → Bool
price_key_beq a b =
    eq_ℤ a.product_id b.product_id
    && eq_ℤ a.skc_id b.skc_id
    && eq_ℤ a.sku_id b.sku_id
    && eq_ℤ a.site_id b.site_id

pub price_key_beq_iff : (a b : EffectivePriceKey) → (price_key_beq a b ≡ true) ↔ (a ≡ b)
price_key_beq_iff a b = ground (
  arith,
  eq_ℤ_iff a.product_id b.product_id,
  eq_ℤ_iff a.skc_id b.skc_id,
  eq_ℤ_iff a.sku_id b.sku_id,
  eq_ℤ_iff a.site_id b.site_id,
)

instance abbrev pub price_key_eq : Eq EffectivePriceKey
price_key_eq = record { beq = price_key_beq; beq_iff = price_key_beq_iff }

-- A filter field that is 0 lets everything through.
abbrev pub passes : ℤ → ℤ → Bool
passes wanted actual = is_zero wanted || eq_ℤ actual wanted

goods_on_shelf : GoodsSummary → ℤ → Bool
goods_on_shelf goods sku_id =
    eq_ℤ goods.skc_site_status skc_site_status_on_shelf
    && any (λ s. eq_ℤ s.product_sku_id sku_id) goods.product_sku_summaries

unfoldable pub sku_on_shelf : List (ℤ × GoodsSummary) → ℤ → ℤ → Bool
unfolding goods_on_shelf
sku_on_shelf goods_by_skc skc_id sku_id = elim (lookup skc_id goods_by_skc) [
  | none ↦ false
  | some goods ↦ goods_on_shelf goods sku_id
]

unfoldable pub active_activity :
    MarketingEnrollment → MarketingEnrollmentSession → MarketingEnrollmentPrice → ActiveActivity
active_activity enrollment session site_price = record {
  enroll_id = enrollment.enroll_id;
  activity_type = enrollment.activity_type;
  activity_type_name = enrollment.activity_type_name;
  activity_thematic_id = enrollment.activity_thematic_id;
  activity_thematic_name = enrollment.activity_thematic_name;
  session_id = session.session_id;
  session_name = session.session_name;
  session_status = session.session_status;
  session_start_time = session.start_time;
  session_end_time = session.end_time;
  daily_price = site_price.daily_price;
  activity_price = site_price.activity_price;
  activity_stock = enrollment.activity_stock;
  remaining_activity_stock = enrollment.remaining_activity_stock;
  enroll_status = enrollment.enroll_status;
}

unfoldable pub compare_activities : ActiveActivity → ActiveActivity → Bool
compare_activities left right =
    if not (eq_ℤ left.activity_price right.activity_price)
    then lt_ℤ left.activity_price right.activity_price
    else if not (eq_ℤ left.activity_type right.activity_type)
    then lt_ℤ left.activity_type right.activity_type
    else if not (eq_ℤ left.session_id right.session_id)
    then lt_ℤ left.session_id right.session_id
    else lt_ℤ left.enroll_id right.enroll_id

unfoldable pub compare_items : EffectiveActivityPrice → EffectiveActivityPrice → Bool
compare_items left right =
    if not (eq_ℤ left.skc_id right.skc_id)
    then lt_ℤ left.skc_id right.skc_id
    else if not (eq_ℤ left.sku_id right.sku_id)
    then lt_ℤ left.sku_id right.sku_id
    else lt_ℤ left.site_id right.site_id

-- The map that the loop fills. The items that it points to are its values.
abbrev pub Prices : Type 0
Prices = List (EffectivePriceKey × EffectiveActivityPrice)

new_item :
    MarketingEnrollment
    → MarketingEnrollmentSkc
    → MarketingEnrollmentSku
    → MarketingEnrollmentPrice
    → EffectiveActivityPrice
new_item enrollment skc sku site_price = record {
  product_id = enrollment.product_id;
  skc_id = skc.skc_id;
  sku_id = sku.sku_id;
  site_id = site_price.site_id;
  site_name = site_price.site_name;
  currency = first_non_empty (sku.currency ∷ skc.currency ∷ enrollment.currency ∷ []);
  effective_activity_price = site_price.activity_price;
  active_activities = [];
  winning_activities = [];
}

add_activity : ActiveActivity → EffectiveActivityPrice → EffectiveActivityPrice
add_activity activity item = record item {
  active_activities = item.active_activities ++ activity ∷ [];
  effective_activity_price =
      if lt_ℤ activity.activity_price item.effective_activity_price
      then activity.activity_price
      else item.effective_activity_price;
}

module _ (goods_by_skc : List (ℤ × GoodsSummary)) (filter : EffectivePriceFilter) where
  module _ (enrollment : MarketingEnrollment) (session : MarketingEnrollmentSession) where
    -- The bodies of the loops, the innermost first. A `continue` leaves the map as it is.
    unfoldable pub add_price :
        MarketingEnrollmentSkc → MarketingEnrollmentSku → Prices → MarketingEnrollmentPrice → Prices
    unfolding new_item add_activity
    add_price skc sku prices site_price =
        let key : EffectivePriceKey = record {
          product_id = enrollment.product_id;
          skc_id = skc.skc_id;
          sku_id = sku.sku_id;
          site_id = site_price.site_id;
        } in
        let item : EffectiveActivityPrice = elim (lookup key prices) [
          | none ↦ new_item enrollment skc sku site_price
          | some item ↦ item
        ] in
        if not (eq_ℤ site_price.site_id session.site_id)
          || not (passes filter.site_id site_price.site_id)
        then prices
        else insert key (add_activity (active_activity enrollment session site_price) item) prices

    add_sku : MarketingEnrollmentSkc → Prices → MarketingEnrollmentSku → Prices
    unfolding add_price
    add_sku skc prices sku =
        if not (passes filter.sku_id sku.sku_id)
          || not (sku_on_shelf goods_by_skc skc.skc_id sku.sku_id)
        then prices
        else fold (add_price skc sku) prices sku.site_price_list

    add_skc : Prices → MarketingEnrollmentSkc → Prices
    unfolding add_sku
    add_skc prices skc =
        if not (passes filter.skc_id skc.skc_id)
        then prices
        else fold (add_sku skc) prices skc.sku_list

  add_session : MarketingEnrollment → Prices → MarketingEnrollmentSession → Prices
  unfolding add_skc
  add_session enrollment prices session =
      if not (eq_ℤ session.session_status (pos 2))
      then prices
      else fold (add_skc enrollment session) prices enrollment.skc_list

  add_enrollment : Prices → MarketingEnrollment → Prices
  unfolding add_session
  add_enrollment prices enrollment =
      fold (add_session enrollment) prices enrollment.assigned_sessions

  collect_prices : List MarketingEnrollment → Prices
  unfolding add_enrollment
  collect_prices enrollments = fold add_enrollment [] enrollments

finish_item : EffectiveActivityPrice → EffectiveActivityPrice
unfolding sort_by compare_activities
finish_item item =
    let sorted = sort_by compare_activities item.active_activities in
    record item {
      active_activities = sorted;
      winning_activities =
          item.winning_activities
          ++ keep (λ a. eq_ℤ a.activity_price item.effective_activity_price) sorted;
    }

-- The answer, or `ErrSnapshotUnavailable`, each with the snapshot.
pub data Answer {ℓ} (A : Type ℓ) : Type ℓ where
  available : A → Snapshot → Answer A
  unavailable : Snapshot → Answer A

unfoldable pub effective_prices :
    EffectivePriceFilter → Snapshot → Answer (List EffectiveActivityPrice)
unfolding collect_prices finish_item sort_by compare_items successful
effective_prices filter snapshot =
    if not (successful snapshot)
    then unavailable snapshot
    else available
        (sort_by compare_items (
          map finish_item
            (values (collect_prices snapshot.goods_by_skc filter snapshot.enrollments))))
        snapshot
