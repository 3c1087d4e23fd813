-- ===== src/Marketing/Observer/Prices.antt =====
-- The SKU prices that `observe` reports.
use pangu_sales_manager.Base.{
  ℤ, pos, eq_ℤ_iff, true, false, List, [], ◌∷◌, map, length, ltb, ◌≡◌, ◌≢◌, refl, ◌⊎◌, inl, inr,
  arith, ◌∙◌, sym,
}
use pangu_sales_manager.Marketing.Ids.{contains, unique_sorted}
use pangu_sales_manager.Marketing.Ids.Laws.{contains-unique_sorted}
use pangu_sales_manager.Marketing.State.{Time, warning, SkcActivityState}
use pangu_sales_manager.Marketing.State.WellFormed.{confirmed_ne_warning}
use pangu_sales_manager.Marketing.State.Branches.{IsOnly}
use pangu_sales_manager.Marketing.Price.{
  SkuActivityPricePoint, SkuPriceState, source_daily, source_unresolved,
}
use pangu_sales_manager.Marketing.Price.Quotes.{quotes}
use pangu_sales_manager.Marketing.Price.Laws.{
  Outcome, by_activity, by_daily, unresolved, resolve_price-Outcome,
}
use pangu_sales_manager.Marketing.Observer.{zero_skc_state, observe_price}

-- The prices that an SKU may have while no activity can be named for it.
abbrev pub IsDailyOrNone : List SkuActivityPricePoint → SkuPriceState → Type 0
IsDailyOrNone candidates s =
    ((s.price_source ≡ source_daily) × IsOnly (quotes false candidates) s.resolved_price)
    ⊎ ((s.price_source ≡ source_unresolved)
        × (s.resolved_price ≡ pos 0)
        × ((v : ℤ) → ¬ IsOnly (quotes false candidates) v))

abbrev pub skc_ids : List SkuActivityPricePoint → List ℤ
skc_ids candidates = map (λ c. c.skc_id) candidates

two_members :
    (ids : List ℤ) (a b : ℤ)
    → contains ids a ≡ true
    → contains ids b ≡ true
    → a ≢ b
    → ltb 1 (length ids) ≡ true
unfolding contains
two_members [] a b p q d = cc
two_members (x ∷ []) a b p q d = absurd (d (ground (arith, eq_ℤ_iff x a, eq_ℤ_iff x b)))
two_members (x ∷ y ∷ zs) a b p q d = ground arith

under_warning :
    (skc_state : SkcActivityState) (candidates : List SkuActivityPricePoint) (s : SkuPriceState)
    → skc_state.status ≡ warning
    → Outcome skc_state candidates s
    → IsDailyOrNone candidates s
under_warning skc_state candidates s w (by_activity _ _ _ (n, _)) =
    absurd (confirmed_ne_warning (sym n.0 ∙ w))
under_warning skc_state candidates s w (by_daily _ d _ o) = inl (d, o)
under_warning skc_state candidates s w (unresolved _ u z _ n) = inr (u, z, n)

-- An SKU that the snapshot lists under two different SKCs is a warning without an activity. Its
-- price is the one positive daily price that its candidates quote, or none if they do not agree.
pub observe_price_multiple :
    (now : Time) (states : List (ℤ × SkcActivityState)) (candidates : List SkuActivityPricePoint)
    (a b : ℤ)
    → contains (skc_ids candidates) a ≡ true
    → contains (skc_ids candidates) b ≡ true
    → a ≢ b
    → let s = observe_price now states candidates in
      (s.status ≡ warning)
      × (s.active_enroll_id ≡ pos 0)
      × (s.reason ≡ "sku_multiple_skc")
      × IsDailyOrNone candidates s
unfolding observe_price
observe_price_multiple now states candidates a b p q d =
    let many =
      two_members (unique_sorted (skc_ids candidates)) a b
        (contains-unique_sorted (skc_ids candidates) a ∙ p)
        (contains-unique_sorted (skc_ids candidates) b ∙ q) d in
    let skc_state : SkcActivityState = record zero_skc_state {
      status = warning;
      reason = "sku_multiple_skc";
    } in
    rw (many, observe_price)
      (
        refl,
        refl,
        refl,
        under_warning skc_state candidates _ refl (resolve_price-Outcome now skc_state candidates),
      )
