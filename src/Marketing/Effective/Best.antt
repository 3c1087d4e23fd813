-- ===== src/Marketing/Effective/Best.antt =====
-- Each effective price is the lowest of the current activities that it lists.
use pangu_sales_manager.Base.{
  ℤ, pos, eq_ℤ, eq_ℤ_iff, eq_ℤ_refl, lt_ℤ, lt_ℤ_irrefl, lt_ℤ_asym, Bool, true, false, not, ◌||◌,
  List, [], ◌∷◌, ◌++◌, if_rule, keep, map, any, sort_by, lookup, values, All, fold_keeps,
  All-append, All-sort_by, All-mono, All-map, All-values, All-insert, All-lookup, any-append,
  any-sort_by, keep-nonempty, Option-cases, ◌≡◌, ◌≢◌, refl, inl, inr, arith, ◌∙◌, ap,
}
use pangu_sales_manager.Temu.{
  MarketingEnrollment, MarketingEnrollmentSession, MarketingEnrollmentSkc, MarketingEnrollmentSku,
  MarketingEnrollmentPrice, GoodsSummary,
}
use pangu_sales_manager.Marketing.Ids.Laws.{le_trans_ℤ}
use pangu_sales_manager.Marketing.Snapshot.{Snapshot, successful}
use pangu_sales_manager.Marketing.Effective.{
  EffectivePriceFilter, ActiveActivity, EffectiveActivityPrice, EffectivePriceKey, passes,
  sku_on_shelf, active_activity, compare_activities, compare_items, Prices, new_item, add_activity,
  add_price, add_sku, add_skc, add_session, add_enrollment, collect_prices, finish_item,
  price_key_eq, Answer, available, unavailable, effective_prices,
}

abbrev IsCurrent : ActiveActivity → Type 0
IsCurrent a = a.session_status ≡ pos 2

abbrev costs : ℤ → ActiveActivity → Bool
costs v a = eq_ℤ a.activity_price v

module _ (goods_by_skc : List (ℤ × GoodsSummary)) (filter : EffectivePriceFilter) where
  -- The item is for an SKU on the shelf and within the filter; its price is that of one of its
  -- activities and above that of none.
  record IsBest (i : EffectiveActivityPrice) : Type 0 where
    offered : any (costs i.effective_activity_price) i.active_activities ≡ true
    lowest : All (λ a. lt_ℤ a.activity_price i.effective_activity_price ≡ false) i.active_activities
    current : All IsCurrent i.active_activities
    shelved : sku_on_shelf goods_by_skc i.skc_id i.sku_id ≡ true
    skc_passes : passes filter.skc_id i.skc_id ≡ true
    sku_passes : passes filter.sku_id i.sku_id ≡ true
    site_passes : passes filter.site_id i.site_id ≡ true
    fresh : i.winning_activities ≡ []

  add_to_best :
      (a : ActiveActivity) (i : EffectiveActivityPrice)
      → IsCurrent a
      → IsBest i
      → IsBest (add_activity a i)
  unfolding add_activity
  add_to_best a i c b = record {
    offered = ground (
      arith,
      any-append (costs a.activity_price) i.active_activities (a ∷ []),
      any-append (costs i.effective_activity_price) i.active_activities (a ∷ []),
      eq_ℤ_refl a.activity_price,
      b.offered,
    );
    lowest =
        if_rule (λ v. All (λ z. lt_ℤ z.activity_price v ≡ false) (i.active_activities ++ a ∷ []))
          (lt_ℤ a.activity_price i.effective_activity_price)
          (λ h.
            All-append _ i.active_activities (a ∷ [])
              (All-mono _ _ i.active_activities
                (λ z q.
                  le_trans_ℤ a.activity_price i.effective_activity_price z.activity_price
                    (lt_ℤ_asym _ _ h) q)
                b.lowest)
              (lt_ℤ_irrefl a.activity_price, tt))
          (λ h. All-append _ i.active_activities (a ∷ []) b.lowest (h, tt));
    current = All-append _ i.active_activities (a ∷ []) b.current (c, tt);
    shelved = b.shelved;
    skc_passes = b.skc_passes;
    sku_passes = b.sku_passes;
    site_passes = b.site_passes;
    fresh = b.fresh;
  }

  module _ (enrollment : MarketingEnrollment) (session : MarketingEnrollmentSession)
      (skc : MarketingEnrollmentSkc) (sku : MarketingEnrollmentSku)
      (current : session.session_status ≡ pos 2)
      (shelved : sku_on_shelf goods_by_skc skc.skc_id sku.sku_id ≡ true)
      (skc_passes : passes filter.skc_id skc.skc_id ≡ true)
      (sku_passes : passes filter.sku_id sku.sku_id ≡ true) where
    add_to_new :
        (p : MarketingEnrollmentPrice)
        → passes filter.site_id p.site_id ≡ true
        → IsBest
            (add_activity (active_activity enrollment session p) (new_item enrollment skc sku p))
    unfolding add_activity new_item active_activity
    add_to_new p h = record {
      offered = ground (arith, eq_ℤ_refl p.activity_price);
      lowest = (ground (arith, lt_ℤ_irrefl p.activity_price), tt);
      current = (current, tt);
      shelved = shelved;
      skc_passes = skc_passes;
      sku_passes = sku_passes;
      site_passes = h;
      fresh = refl;
    }

    add_price-IsBest :
        (prices : Prices) (p : MarketingEnrollmentPrice)
        → All (λ e. IsBest e.1) prices
        → All (λ e. IsBest e.1) (add_price goods_by_skc filter enrollment session skc sku prices p)
    unfolding add_price active_activity
    add_price-IsBest prices p b =
        let key : EffectivePriceKey = record {
          product_id = enrollment.product_id;
          skc_id = skc.skc_id;
          sku_id = sku.sku_id;
          site_id = p.site_id;
        } in
        if_rule (All (λ e. IsBest e.1))
          (not (eq_ℤ p.site_id session.site_id) || not (passes filter.site_id p.site_id)) (λ _. b)
          λ h.
            All-insert IsBest key _ prices
              (elim (Option-cases (lookup key prices)) [
                | inl e ↦ rw e (add_to_new p (ground arith))
                | inr (i, e) ↦ rw e (
                    add_to_best (active_activity enrollment session p) i current
                      (All-lookup IsBest key i prices e b))
              ])
              b

  abbrev AllBest : Prices → Type 0
  AllBest = All (λ e. IsBest e.1)

  module _ (enrollment : MarketingEnrollment) (session : MarketingEnrollmentSession)
      (current : session.session_status ≡ pos 2) where
    add_sku-IsBest :
        (skc : MarketingEnrollmentSkc) (prices : Prices) (sku : MarketingEnrollmentSku)
        → passes filter.skc_id skc.skc_id ≡ true
        → AllBest prices
        → AllBest (add_sku goods_by_skc filter enrollment session skc prices sku)
    unfolding add_sku
    add_sku-IsBest skc prices sku h b =
        if_rule AllBest
          (not (passes filter.sku_id sku.sku_id)
            || not (sku_on_shelf goods_by_skc skc.skc_id sku.sku_id))
          (λ _. b)
          λ q.
            fold_keeps AllBest (add_price goods_by_skc filter enrollment session skc sku)
              sku.site_price_list prices
              (λ m p _.
                add_price-IsBest enrollment session skc sku current (ground arith) h (ground arith)
                  m p)
              b

    add_skc-IsBest :
        (prices : Prices) (skc : MarketingEnrollmentSkc)
        → AllBest prices
        → AllBest (add_skc goods_by_skc filter enrollment session prices skc)
    unfolding add_skc
    add_skc-IsBest prices skc b =
        if_rule AllBest (not (passes filter.skc_id skc.skc_id)) (λ _. b)
          λ q.
            fold_keeps AllBest (add_sku goods_by_skc filter enrollment session skc) skc.sku_list
              prices (λ m s _. add_sku-IsBest skc m s (ground arith)) b

  add_session-IsBest :
      (enrollment : MarketingEnrollment) (prices : Prices) (session : MarketingEnrollmentSession)
      → AllBest prices
      → AllBest (add_session goods_by_skc filter enrollment prices session)
  unfolding add_session
  add_session-IsBest enrollment prices session b =
      if_rule AllBest (not (eq_ℤ session.session_status (pos 2))) (λ _. b)
        λ q.
          fold_keeps AllBest (add_skc goods_by_skc filter enrollment session) enrollment.skc_list
            prices
            (λ m s _.
              add_skc-IsBest enrollment session
                (ground (arith, eq_ℤ_iff session.session_status (pos 2))) m s)
            b

  collect_prices-IsBest :
      (enrollments : List MarketingEnrollment)
      → AllBest (collect_prices goods_by_skc filter enrollments)
  unfolding collect_prices add_enrollment
  collect_prices-IsBest enrollments =
      fold_keeps AllBest (add_enrollment goods_by_skc filter) enrollments []
        (λ m e _ b.
          fold_keeps AllBest (add_session goods_by_skc filter e) e.assigned_sessions m
            (λ n s _. add_session-IsBest e n s) b)
        tt

-- What each item of the answer satisfies.
pub record IsLowest (snapshot : Snapshot) (filter : EffectivePriceFilter)
    (i : EffectiveActivityPrice) : Type 0 where
  pub lowest :
      All (λ a. lt_ℤ a.activity_price i.effective_activity_price ≡ false) i.active_activities
  pub current : All IsCurrent i.active_activities
  pub winners : i.winning_activities ≡ keep (costs i.effective_activity_price) i.active_activities
  pub some_winner : i.winning_activities ≢ []
  pub shelved : sku_on_shelf snapshot.goods_by_skc i.skc_id i.sku_id ≡ true
  pub skc_passes : passes filter.skc_id i.skc_id ≡ true
  pub sku_passes : passes filter.sku_id i.sku_id ≡ true
  pub site_passes : passes filter.site_id i.site_id ≡ true

finish_item-IsLowest :
    (snapshot : Snapshot) (filter : EffectivePriceFilter) (i : EffectiveActivityPrice)
    → IsBest snapshot.goods_by_skc filter i
    → IsLowest snapshot filter (finish_item i)
unfolding finish_item
finish_item-IsLowest snapshot filter i b =
    let sorted = sort_by compare_activities i.active_activities in
    record {
      lowest = All-sort_by compare_activities _ i.active_activities b.lowest;
      current = All-sort_by compare_activities IsCurrent i.active_activities b.current;
      winners = ap (λ l. l ++ keep (costs i.effective_activity_price) sorted) b.fresh;
      some_winner = rw b.fresh (
          keep-nonempty (costs i.effective_activity_price) sorted
            (any-sort_by compare_activities _ i.active_activities ∙ b.offered));
      shelved = b.shelved;
      skc_passes = b.skc_passes;
      sku_passes = b.sku_passes;
      site_passes = b.site_passes;
    }

-- The items of an answer; none, if there is no snapshot to answer from.
abbrev pub items_of : Answer (List EffectiveActivityPrice) → List EffectiveActivityPrice
items_of (available items _) = items
items_of (unavailable _) = []

-- Each item of the answer is for an SKU on the shelf that passes the filter; its activities are
-- all current, its price is above that of none of them, and its winners are those of them that
-- cost that price, at least one.
pub effective_prices-IsLowest :
    (filter : EffectivePriceFilter) (snapshot : Snapshot)
    → All (IsLowest snapshot filter) (items_of (effective_prices filter snapshot))
unfolding effective_prices
effective_prices-IsLowest filter snapshot =
    if_rule (λ a. All (IsLowest snapshot filter) (items_of a)) (not (successful snapshot)) (λ _. tt)
      λ _.
        let prices = collect_prices snapshot.goods_by_skc filter snapshot.enrollments in
        All-sort_by compare_items (IsLowest snapshot filter) (map finish_item (values prices)) (
          All-map (IsLowest snapshot filter) finish_item (values prices) (
            All-mono (IsBest snapshot.goods_by_skc filter) _ (values prices)
              (finish_item-IsLowest snapshot filter)
              (All-values (IsBest snapshot.goods_by_skc filter) prices
                (collect_prices-IsBest snapshot.goods_by_skc filter snapshot.enrollments))))
