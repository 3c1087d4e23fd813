-- ===== src/Marketing/Effective/Complete.antt =====
-- No current offer is lost: each one is covered by an item of the answer.
use pangu_sales_manager.Base.{
  ℤ, pos, eq_ℤ, eq_ℤ_iff, lt_ℤ, true, false, not, ◌||◌, List, [], if_rule, map, sort_by, values, In,
  fold_keeps, fold_reaches, In-map, In-values, In-sort_by, ◌≡◌, arith,
}
use pangu_sales_manager.Temu.{
  MarketingEnrollment, MarketingEnrollmentSession, MarketingEnrollmentSkc, MarketingEnrollmentSku,
  MarketingEnrollmentPrice, GoodsSummary,
}
use pangu_sales_manager.Marketing.Snapshot.{Snapshot, successful}
use pangu_sales_manager.Marketing.Effective.Best.{items_of}
use pangu_sales_manager.Marketing.Effective.{
  EffectivePriceFilter, EffectiveActivityPrice, EffectivePriceKey, passes, sku_on_shelf,
  compare_items, Prices, add_price, add_sku, add_skc, add_session, add_enrollment, collect_prices,
  finish_item, price_key_eq, effective_prices,
}
use pangu_sales_manager.Marketing.Effective.Covering.{
  key_of, offer_key, IsKeyed, Covers, add_price-IsKeyed, add_price-Covers, add_price-Covers_here,
}

module _ (goods_by_skc : List (ℤ × GoodsSummary)) (filter : EffectivePriceFilter) where
  -- What every round of the innermost loop keeps, every round of the outer loops keeps.
  module _ (P : Prices → Type 0)
      (kept : (e : MarketingEnrollment) (s : MarketingEnrollmentSession)
          (skc : MarketingEnrollmentSkc) (sku : MarketingEnrollmentSku) (m : Prices)
          (p : MarketingEnrollmentPrice)
        → P m
        → P (add_price goods_by_skc filter e s skc sku m p)) where
    add_sku_keeps :
        (e : MarketingEnrollment) (s : MarketingEnrollmentSession) (skc : MarketingEnrollmentSkc)
        (m : Prices) (sku : MarketingEnrollmentSku)
        → P m
        → P (add_sku goods_by_skc filter e s skc m sku)
    unfolding add_sku
    add_sku_keeps e s skc m sku h =
        if_rule P
          (not (passes filter.sku_id sku.sku_id)
            || not (sku_on_shelf goods_by_skc skc.skc_id sku.sku_id))
          (λ _. h) (λ _. fold_keeps P _ sku.site_price_list m (λ n p _. kept e s skc sku n p) h)

    add_skc_keeps :
        (e : MarketingEnrollment) (s : MarketingEnrollmentSession) (m : Prices)
        (skc : MarketingEnrollmentSkc)
        → P m
        → P (add_skc goods_by_skc filter e s m skc)
    unfolding add_skc
    add_skc_keeps e s m skc h =
        if_rule P (not (passes filter.skc_id skc.skc_id)) (λ _. h)
          (λ _. fold_keeps P _ skc.sku_list m (λ n k _. add_sku_keeps e s skc n k) h)

    add_session_keeps :
        (e : MarketingEnrollment) (m : Prices) (s : MarketingEnrollmentSession)
        → P m
        → P (add_session goods_by_skc filter e m s)
    unfolding add_session
    add_session_keeps e m s h =
        if_rule P (not (eq_ℤ s.session_status (pos 2))) (λ _. h)
          (λ _. fold_keeps P _ e.skc_list m (λ n k _. add_skc_keeps e s n k) h)

    add_enrollment_keeps :
        (m : Prices) (e : MarketingEnrollment) → P m → P (add_enrollment goods_by_skc filter m e)
    unfolding add_enrollment
    add_enrollment_keeps m e h =
        fold_keeps P _ e.assigned_sessions m (λ n s _. add_session_keeps e n s) h

  -- The rounds around an offer reach it.
  module _ (e : MarketingEnrollment) (s : MarketingEnrollmentSession) (skc : MarketingEnrollmentSkc)
      (sku : MarketingEnrollmentSku) (p : MarketingEnrollmentPrice)
      (current : s.session_status ≡ pos 2) (here_site : p.site_id ≡ s.site_id)
      (shelved : sku_on_shelf goods_by_skc skc.skc_id sku.sku_id ≡ true)
      (skc_passes : passes filter.skc_id skc.skc_id ≡ true)
      (sku_passes : passes filter.sku_id sku.sku_id ≡ true)
      (site_passes : passes filter.site_id p.site_id ≡ true) (listed : In p sku.site_price_list)
      (in_skc : In sku skc.sku_list) (in_enrollment : In skc e.skc_list)
      (in_sessions : In s e.assigned_sessions) where
    abbrev Covered : Prices → Type 0
    Covered = Covers (offer_key e skc sku p) p.activity_price

    sku_reached : (m : Prices) → IsKeyed m → Covered (add_sku goods_by_skc filter e s skc m sku)
    unfolding add_sku
    sku_reached m i =
        if_rule Covered
          (not (passes filter.sku_id sku.sku_id)
            || not (sku_on_shelf goods_by_skc skc.skc_id sku.sku_id))
          (λ q. absurd (ground arith))
          λ _.
            fold_reaches IsKeyed Covered _ p sku.site_price_list m listed
              (λ n y. add_price-IsKeyed goods_by_skc filter e s skc sku n y) i
              (λ n k.
                add_price-Covers_here goods_by_skc filter e s skc sku n p here_site site_passes k)
              (λ n y. add_price-Covers goods_by_skc filter e s skc sku _ _ n y)

    covered :
        (e' : MarketingEnrollment) (s' : MarketingEnrollmentSession) (k : MarketingEnrollmentSkc)
        (u : MarketingEnrollmentSku) (m : Prices) (q : MarketingEnrollmentPrice)
        → Covered m
        → Covered (add_price goods_by_skc filter e' s' k u m q)
    covered e' s' k u m q =
        add_price-Covers goods_by_skc filter e' s' k u (offer_key e skc sku p) p.activity_price m q

    skc_reached : (m : Prices) → IsKeyed m → Covered (add_skc goods_by_skc filter e s m skc)
    unfolding add_skc
    skc_reached m i =
        if_rule Covered (not (passes filter.skc_id skc.skc_id)) (λ q. absurd (ground arith))
          λ _.
            fold_reaches IsKeyed Covered _ sku skc.sku_list m in_skc
              (λ n y. add_sku_keeps IsKeyed (add_price-IsKeyed goods_by_skc filter) e s skc n y) i
              sku_reached (λ n y. add_sku_keeps Covered covered e s skc n y)

    session_reached : (m : Prices) → IsKeyed m → Covered (add_session goods_by_skc filter e m s)
    unfolding add_session
    session_reached m i =
        if_rule Covered (not (eq_ℤ s.session_status (pos 2)))
          (λ q. absurd (ground (arith, eq_ℤ_iff s.session_status (pos 2))))
          λ _.
            fold_reaches IsKeyed Covered _ skc e.skc_list m in_enrollment
              (λ n y. add_skc_keeps IsKeyed (add_price-IsKeyed goods_by_skc filter) e s n y) i
              skc_reached (λ n y. add_skc_keeps Covered covered e s n y)

    enrollment_reached : (m : Prices) → IsKeyed m → Covered (add_enrollment goods_by_skc filter m e)
    unfolding add_enrollment
    enrollment_reached m i =
        fold_reaches IsKeyed Covered _ s e.assigned_sessions m in_sessions
          (λ n y. add_session_keeps IsKeyed (add_price-IsKeyed goods_by_skc filter) e n y) i
          session_reached (λ n y. add_session_keeps Covered covered e n y)

    collected :
        (enrollments : List MarketingEnrollment)
        → In e enrollments
        → Covered (collect_prices goods_by_skc filter enrollments)
    unfolding collect_prices
    collected enrollments m =
        fold_reaches IsKeyed Covered _ e enrollments [] m
          (λ n y. add_enrollment_keeps IsKeyed (add_price-IsKeyed goods_by_skc filter) n y) tt
          enrollment_reached (λ n y. add_enrollment_keeps Covered covered n y)

-- An offer of the snapshot that a query asks for: a site price of an SKU of an SKC of an enrolment,
-- in a current session at the price's site, with the SKU on the shelf and the filter passed.
pub record IsOffer (filter : EffectivePriceFilter) (snapshot : Snapshot) (e : MarketingEnrollment)
    (s : MarketingEnrollmentSession) (skc : MarketingEnrollmentSkc) (sku : MarketingEnrollmentSku)
    (p : MarketingEnrollmentPrice) : Type 0 where
  pub enrolled : In e snapshot.enrollments
  pub in_sessions : In s e.assigned_sessions
  pub in_enrollment : In skc e.skc_list
  pub in_skc : In sku skc.sku_list
  pub listed : In p sku.site_price_list
  pub current : s.session_status ≡ pos 2
  pub here_site : p.site_id ≡ s.site_id
  pub shelved : sku_on_shelf snapshot.goods_by_skc skc.skc_id sku.sku_id ≡ true
  pub skc_passes : passes filter.skc_id skc.skc_id ≡ true
  pub sku_passes : passes filter.sku_id sku.sku_id ≡ true
  pub site_passes : passes filter.site_id p.site_id ≡ true

-- The answer has an item for the offer's product, SKC, SKU and site, not above its price.
abbrev pub Answered : EffectivePriceKey → ℤ → List EffectiveActivityPrice → Type 0
Answered key v items =
    (i : EffectiveActivityPrice) × In i items
    × (key_of i ≡ key)
    × (lt_ℤ v i.effective_activity_price ≡ false)

Answered-of_Covers :
    (key : EffectivePriceKey) (v : ℤ) (prices : Prices)
    → Covers key v prices
    → Answered key v (sort_by compare_items (map finish_item (values prices)))
unfolding Covers finish_item
Answered-of_Covers key v prices (i, e, o, c) = (
  finish_item i,
  In-sort_by compare_items (finish_item i) (map finish_item (values prices))
      (In-map finish_item (In-values key i prices e)),
  o,
  c,
)

-- Every offer of a successful snapshot is answered: no current offer that passes the filter is
-- lost, and none is cheaper than the effective price of its item.
pub effective_prices_complete :
    (filter : EffectivePriceFilter) (snapshot : Snapshot) (e : MarketingEnrollment)
    (s : MarketingEnrollmentSession) (skc : MarketingEnrollmentSkc) (sku : MarketingEnrollmentSku)
    (p : MarketingEnrollmentPrice)
    → successful snapshot ≡ true
    → IsOffer filter snapshot e s skc sku p
    → Answered
        (offer_key e skc sku p)
        p.activity_price
        (items_of (effective_prices filter snapshot))
unfolding effective_prices
effective_prices_complete filter snapshot e s skc sku p ok o =
    if_rule (λ a. Answered (offer_key e skc sku p) p.activity_price (items_of a))
      (not (successful snapshot)) (λ q. absurd (ground arith))
      λ _.
        Answered-of_Covers (offer_key e skc sku p) p.activity_price
          (collect_prices snapshot.goods_by_skc filter snapshot.enrollments)
          (collected snapshot.goods_by_skc filter e s skc sku p o.current o.here_site o.shelved
            o.skc_passes o.sku_passes o.site_passes o.listed o.in_skc o.in_enrollment o.in_sessions
            snapshot.enrollments o.enrolled)
