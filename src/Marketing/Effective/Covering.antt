-- ===== src/Marketing/Effective/Covering.antt =====
-- Which items the map of the effective prices holds, and what a round of the loop does to them.
use pangu_sales_manager.Base.{
  ℤ, eq_ℤ, eq_ℤ_iff, lt_ℤ, lt_ℤ_irrefl, lt_ℤ_asym, true, false, not, ◌||◌, List, none, some,
  if_rule, lookup, insert, lookup-insert, All, All-insert_entry, All-lookup_entry, Option-cases,
  Bool-cases, ◌≡◌, refl, ◌⊎◌, inl, inr, arith, ◌∙◌, ap,
}
use pangu_sales_manager.Temu.{
  MarketingEnrollment, MarketingEnrollmentSession, MarketingEnrollmentSkc, MarketingEnrollmentSku,
  MarketingEnrollmentPrice, GoodsSummary,
}
use pangu_sales_manager.Marketing.Ids.Laws.{le_trans_ℤ}
use pangu_sales_manager.Marketing.Effective.{
  EffectivePriceFilter, ActiveActivity, EffectiveActivityPrice, EffectivePriceKey, passes,
  active_activity, Prices, new_item, add_activity, add_price, price_key_eq, price_key_beq,
  price_key_beq_iff,
}

abbrev pub key_of : EffectiveActivityPrice → EffectivePriceKey
key_of i = record {
  product_id = i.product_id;
  skc_id = i.skc_id;
  sku_id = i.sku_id;
  site_id = i.site_id;
}

abbrev pub offer_key :
    MarketingEnrollment
    → MarketingEnrollmentSkc
    → MarketingEnrollmentSku
    → MarketingEnrollmentPrice
    → EffectivePriceKey
offer_key enrollment skc sku p = record {
  product_id = enrollment.product_id;
  skc_id = skc.skc_id;
  sku_id = sku.sku_id;
  site_id = p.site_id;
}

-- Every item stands under its own key.
abbrev pub IsKeyed : Prices → Type 0
IsKeyed = All (λ e. key_of e.1 ≡ e.0)

-- The map has an item for the key, at the price `v` or less.
unfoldable pub Covers : EffectivePriceKey → ℤ → Prices → Type 0
Covers key v prices =
    (i : EffectiveActivityPrice) × (lookup key prices ≡ some i)
    × (key_of i ≡ key)
    × (lt_ℤ v i.effective_activity_price ≡ false)

add_activity_lowers :
    (a : ActiveActivity) (i : EffectiveActivityPrice) (v : ℤ)
    → lt_ℤ v i.effective_activity_price ≡ false
    → lt_ℤ v (add_activity a i).effective_activity_price ≡ false
unfolding add_activity
add_activity_lowers a i v h =
    if_rule (λ e. lt_ℤ v e ≡ false) (lt_ℤ a.activity_price i.effective_activity_price)
      (λ q. le_trans_ℤ a.activity_price i.effective_activity_price v (lt_ℤ_asym _ _ q) h) (λ _. h)

add_activity_covers :
    (a : ActiveActivity) (i : EffectiveActivityPrice)
    → lt_ℤ a.activity_price (add_activity a i).effective_activity_price ≡ false
unfolding add_activity
add_activity_covers a i =
    if_rule (λ e. lt_ℤ a.activity_price e ≡ false)
      (lt_ℤ a.activity_price i.effective_activity_price) (λ _. lt_ℤ_irrefl a.activity_price)
      (λ h. h)

insert-Covers :
    (key k : EffectivePriceKey) (v : ℤ) (a : ActiveActivity) (i : EffectiveActivityPrice)
    (prices : Prices)
    → (lookup k prices ≡ some i) ⊎ (lookup k prices ≡ none)
    → Covers key v prices
    → Covers key v (insert k (add_activity a i) prices)
unfolding Covers add_activity
insert-Covers key k v a i prices old (j, e, o, c) = elim (Bool-cases (price_key_beq k key)) [
  | inr q ↦ (j, lookup-insert k key (add_activity a i) prices ∙ ground arith, o, c)
  | inl q ↦
      let same = (price_key_beq_iff k key).0 q in
      let kept : i ≡ j = elim old [
        | inl p ↦ ground (arith, same, ap (λ l. lookup l prices) same)
        | inr p ↦ ground (arith, same, ap (λ l. lookup l prices) same)
      ] in
      (
        add_activity a i,
        lookup-insert k key (add_activity a i) prices ∙ ground arith,
        ap key_of kept ∙ o,
        add_activity_lowers a i v (rw kept c),
      )
]

-- The round of an offer leaves an item at its price or less.
offer_covered :
    (key : EffectivePriceKey) (a : ActiveActivity) (i : EffectiveActivityPrice) (prices : Prices)
    → key_of i ≡ key
    → Covers key a.activity_price (insert key (add_activity a i) prices)
unfolding Covers add_activity
offer_covered key a i prices o = (
  add_activity a i,
  lookup-insert key key (add_activity a i) prices
      ∙ ground (arith, (price_key_beq_iff key key).1 refl),
  o,
  add_activity_covers a i,
)

module _ (goods_by_skc : List (ℤ × GoodsSummary)) (filter : EffectivePriceFilter) where
  module _ (enrollment : MarketingEnrollment) (session : MarketingEnrollmentSession)
      (skc : MarketingEnrollmentSkc) (sku : MarketingEnrollmentSku) where
    pub add_price-IsKeyed :
        (prices : Prices) (p : MarketingEnrollmentPrice)
        → IsKeyed prices
        → IsKeyed (add_price goods_by_skc filter enrollment session skc sku prices p)
    unfolding add_price add_activity new_item
    add_price-IsKeyed prices p k =
        let key = offer_key enrollment skc sku p in
        if_rule IsKeyed
          (not (eq_ℤ p.site_id session.site_id) || not (passes filter.site_id p.site_id)) (λ _. k)
          λ _.
            All-insert_entry (λ e. key_of e.1 ≡ e.0) key _ prices
              (elim (Option-cases (lookup key prices)) [
                | inl e ↦ rw e refl
                | inr (i, e) ↦ rw e (All-lookup_entry (λ e. key_of e.1 ≡ e.0) key i prices e k)
              ])
              k

    pub add_price-Covers :
        (key : EffectivePriceKey) (v : ℤ) (prices : Prices) (p : MarketingEnrollmentPrice)
        → Covers key v prices
        → Covers key v (add_price goods_by_skc filter enrollment session skc sku prices p)
    unfolding add_price
    add_price-Covers key v prices p c =
        let k = offer_key enrollment skc sku p in
        let a = active_activity enrollment session p in
        if_rule (Covers key v)
          (not (eq_ℤ p.site_id session.site_id) || not (passes filter.site_id p.site_id)) (λ _. c)
          λ _. elim (Option-cases (lookup k prices)) [
            | inl e ↦
                rw e (insert-Covers key k v a (new_item enrollment skc sku p) prices (inr e) c)
            | inr (i, e) ↦ rw e (insert-Covers key k v a i prices (inl e) c)
          ]

    -- The round of an offer covers it.
    pub add_price-Covers_here :
        (prices : Prices) (p : MarketingEnrollmentPrice)
        → p.site_id ≡ session.site_id
        → passes filter.site_id p.site_id ≡ true
        → IsKeyed prices
        → Covers
            (offer_key enrollment skc sku p)
            p.activity_price
            (add_price goods_by_skc filter enrollment session skc sku prices p)
    unfolding add_price new_item active_activity
    add_price-Covers_here prices p h w k =
        let key = offer_key enrollment skc sku p in
        let a = active_activity enrollment session p in
        if_rule (Covers key p.activity_price)
          (not (eq_ℤ p.site_id session.site_id) || not (passes filter.site_id p.site_id))
          (λ q. absurd (ground (arith, eq_ℤ_iff p.site_id session.site_id)))
          λ _. elim (Option-cases (lookup key prices)) [
            | inl e ↦ rw e (offer_covered key a (new_item enrollment skc sku p) prices new_item_key)
            | inr (i, e) ↦ rw e (
                offer_covered key a i prices
                  (All-lookup_entry (λ e. key_of e.1 ≡ e.0) key i prices e k))
          ]
      where
        new_item_key : key_of (new_item enrollment skc sku p) ≡ offer_key enrollment skc sku p
        new_item_key = refl
