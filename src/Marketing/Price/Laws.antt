-- ===== src/Marketing/Price/Laws.antt =====
-- What `resolve_sku_price_state` may answer, and when.
use pangu_sales_manager.Base.{
  ℤ, pos, positive, str_eq, eq_iff, Bool, true, false, ◌&&◌, List, [], ◌∷◌, if_rule, ◌≡◌, refl,
  arith,
}
use pangu_sales_manager.Marketing.Ids.{contains}
use pangu_sales_manager.Marketing.Ids.Laws.{IsAscending}
use pangu_sales_manager.Marketing.State.{Time, confirmed, warning, SkcActivityState}
use pangu_sales_manager.Marketing.State.Branches.{IsOnly, singleton_of_only, IsOnly-of_singleton}
use pangu_sales_manager.Marketing.Price.Quotes.{
  quotes, quotes_under, contains-unique_positive_prices, contains-selected_prices,
  unique_positive_prices-IsAscending,
}
use pangu_sales_manager.Marketing.Price.{
  SkuActivityPricePoint, SkuPriceState, source_activity, source_daily, source_unresolved,
  unique_positive_prices, selected_by, daily_fallback, by_activity_price, candidate_state,
  decide_price, resolve_sku_price_state,
}

-- The SKC's state names an activity.
abbrev pub Names : SkcActivityState → ℤ → Type 0
Names skc_state e =
    (skc_state.status ≡ confirmed) × (skc_state.active_enroll_id ≡ e) × (positive e ≡ true)

-- The confirmed activity quotes `v`, and no other price.
abbrev pub IsActivityPrice : SkcActivityState → List SkuActivityPricePoint → ℤ → Type 0
IsActivityPrice skc_state candidates v =
    Names skc_state skc_state.active_enroll_id
    × IsOnly (quotes_under skc_state.active_enroll_id candidates) v

-- The three answers, each with the reason that the candidates give for it.
pub data Outcome (skc_state : SkcActivityState) (candidates : List SkuActivityPricePoint)
    (s : SkuPriceState) : Type 0 where
  by_activity :
      s.status ≡ confirmed
      → s.price_source ≡ source_activity
      → s.activity_price ≡ s.resolved_price
      → IsActivityPrice skc_state candidates s.resolved_price
      → Outcome skc_state candidates s
  by_daily :
      s.status ≡ warning
      → s.price_source ≡ source_daily
      → ((v : ℤ) → ¬ IsActivityPrice skc_state candidates v)
      → IsOnly (quotes false candidates) s.resolved_price
      → Outcome skc_state candidates s
  unresolved :
      s.status ≡ warning
      → s.price_source ≡ source_unresolved
      → s.resolved_price ≡ pos 0
      → ((v : ℤ) → ¬ IsActivityPrice skc_state candidates v)
      → ((v : ℤ) → ¬ IsOnly (quotes false candidates) v)
      → Outcome skc_state candidates s

-- A list of ids that is no singleton has no sole member.
not-IsOnly_nil : (g : ℤ → Bool) (v : ℤ) → ((a : ℤ) → contains [] a ≡ g a) → ¬ IsOnly g v
unfolding contains
not-IsOnly_nil g v h o = ground (arith, h v, o.0)

not-IsOnly_cons :
    (g : ℤ → Bool) (x y : ℤ) (rest : List ℤ) (v : ℤ)
    → IsAscending (x ∷ y ∷ rest)
    → ((a : ℤ) → contains (x ∷ y ∷ rest) a ≡ g a)
    → ¬ IsOnly g v
not-IsOnly_cons g x y rest v s h o = cc (singleton_of_only (x ∷ y ∷ rest) g v s h o)

module _ (skc_state : SkcActivityState) (candidates : List SkuActivityPricePoint) where
  daily_fallback-Outcome :
      (s : SkuPriceState) (ids : List ℤ)
      → s.status ≡ warning
      → s.price_source ≡ source_unresolved
      → s.resolved_price ≡ pos 0
      → ((v : ℤ) → ¬ IsActivityPrice skc_state candidates v)
      → IsAscending ids
      → ((a : ℤ) → contains ids a ≡ quotes false candidates a)
      → Outcome skc_state candidates (daily_fallback s ids)
  unfolding daily_fallback
  daily_fallback-Outcome s [] w u z n a h =
      unresolved w u z n (λ v. not-IsOnly_nil (quotes false candidates) v h)
  daily_fallback-Outcome s (d ∷ []) w u z n a h =
      by_daily w refl n (IsOnly-of_singleton (quotes false candidates) d h)
  daily_fallback-Outcome s (d ∷ e ∷ rest) w u z n a h =
      unresolved w u z n (λ v. not-IsOnly_cons (quotes false candidates) d e rest v a h)

  by_activity_price-Outcome :
      (s : SkuPriceState) (selected : List SkuActivityPricePoint) (prices : List ℤ)
      → s.status ≡ warning
      → s.price_source ≡ source_unresolved
      → s.resolved_price ≡ pos 0
      → Names skc_state skc_state.active_enroll_id
      → IsAscending prices
      → ((a : ℤ) → contains prices a ≡ quotes_under skc_state.active_enroll_id candidates a)
      → Outcome skc_state candidates
          (by_activity_price s selected (unique_positive_prices candidates false) prices)
  unfolding by_activity_price
  by_activity_price-Outcome s selected [] w u z m a h =
      daily_fallback-Outcome (record s { reason = "confirmed_activity_price_missing" })
        (unique_positive_prices candidates false) w u z (λ v o. not-IsOnly_nil _ v h o.1)
        (unique_positive_prices-IsAscending candidates false)
        (contains-unique_positive_prices false candidates)
  by_activity_price-Outcome s selected (p ∷ []) w u z m a h =
      by_activity refl refl refl (m, IsOnly-of_singleton _ p h)
  by_activity_price-Outcome s selected (p ∷ q ∷ rest) w u z m a h =
      daily_fallback-Outcome (record s { reason = "confirmed_activity_price_conflict" })
        (unique_positive_prices candidates false) w u z
        (λ v o. not-IsOnly_cons _ p q rest v a h o.1)
        (unique_positive_prices-IsAscending candidates false)
        (contains-unique_positive_prices false candidates)

  decide_price-Outcome :
      (s : SkuPriceState)
      → s.status ≡ warning
      → s.price_source ≡ source_unresolved
      → s.resolved_price ≡ pos 0
      → Outcome skc_state candidates (decide_price s skc_state candidates)
  unfolding decide_price
  decide_price-Outcome s w u z =
      if_rule (Outcome skc_state candidates)
        (str_eq skc_state.status confirmed && positive skc_state.active_enroll_id)
        (λ b.
          by_activity_price-Outcome (record s { active_enroll_id = skc_state.active_enroll_id })
            (selected_by skc_state.active_enroll_id candidates)
            (unique_positive_prices (selected_by skc_state.active_enroll_id candidates) true) w u z
            ((eq_iff skc_state.status confirmed).0 (ground arith), refl, ground arith)
            (unique_positive_prices-IsAscending _ true)
            (contains-selected_prices skc_state.active_enroll_id candidates))
        (λ b.
          daily_fallback-Outcome (record s { reason = "skc_state_warning" })
            (unique_positive_prices candidates false) w u z
            (λ v o. ground (arith, eq_iff skc_state.status confirmed, o.0.0, o.0.2))
            (unique_positive_prices-IsAscending candidates false)
            (contains-unique_positive_prices false candidates))

-- Every answer is one of three. An activity price: the SKC is confirmed under an activity that
-- quotes exactly this one positive price. Failing that a daily price, as a warning: the
-- candidates quote exactly this one positive daily price. Failing that too, no price, as a
-- warning: neither the confirmed activity nor the candidates agree on one price.
pub resolve_price-Outcome :
    (now : Time) (skc_state : SkcActivityState) (candidates : List SkuActivityPricePoint)
    → Outcome skc_state candidates (resolve_sku_price_state now skc_state candidates)
unfolding resolve_sku_price_state candidate_state
resolve_price-Outcome now skc_state [] =
    unresolved refl refl refl (λ v o. ground (arith, o.1.0)) (λ v o. ground (arith, o.0))
resolve_price-Outcome now skc_state (c ∷ cs) =
    decide_price-Outcome skc_state (c ∷ cs) (candidate_state now c (c ∷ cs)) refl refl refl

-- If the SKC is confirmed under an activity that quotes one positive activity price for the SKU,
-- then that price is resolved, as confirmed and from the activity.
pub resolve_price_confirms :
    (now : Time) (skc_state : SkcActivityState) (candidates : List SkuActivityPricePoint) (v : ℤ)
    → IsActivityPrice skc_state candidates v
    → let s = resolve_sku_price_state now skc_state candidates in
      (s.status ≡ confirmed) × (s.resolved_price ≡ v) × (s.price_source ≡ source_activity)
resolve_price_confirms now skc_state candidates v o =
    from (resolve_price-Outcome now skc_state candidates)
  where
    from :
        {s : SkuPriceState}
        → Outcome skc_state candidates s
        → (s.status ≡ confirmed) × (s.resolved_price ≡ v) × (s.price_source ≡ source_activity)
    from (by_activity c a _ (_, only)) = (c, o.1.1 _ only.0, a)
    from (by_daily _ _ n _) = absurd (n v o)
    from (unresolved _ _ _ n _) = absurd (n v o)
