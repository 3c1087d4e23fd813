-- ===== src/Marketing/Syncer/Current.antt =====
-- What an enrolment that is taken into a snapshot looks like.
use pangu_sales_manager.Base.{
  true, false, List, [], ◌∷◌, Option, none, some, keep, map, any, All, All-keep, All-map_of, ◌≡◌,
  ◌≢◌, refl, sym, subst, arith, keep-nonempty, Bool-cases, inl, inr,
}
use pangu_sales_manager.Temu.{
  MarketingEnrollment, MarketingEnrollmentSession, MarketingEnrollmentSkc, MarketingEnrollmentPrice,
}
use pangu_sales_manager.Marketing.Ids.{contains}
use pangu_sales_manager.Marketing.Syncer.{
  is_current, current_prices, current_skus, with_sessions, current_enrollment,
}

-- The site of the price is a site of one of the sessions.
abbrev pub IsOffered : List MarketingEnrollmentSession → MarketingEnrollmentPrice → Type 0
IsOffered sessions p = contains (map (λ s. s.site_id) sessions) p.site_id ≡ true

-- There is a session, all sessions are current, and each price is of a site of a session.
pub record IsCurrent (e : MarketingEnrollment) : Type 0 where
  pub has_session : e.assigned_sessions ≢ []
  pub sessions_current : All (λ s. is_current s ≡ true) e.assigned_sessions
  pub prices_offered :
      All
        (λ skc. All (λ sku. All (IsOffered e.assigned_sessions) sku.site_price_list) skc.sku_list)
        e.skc_list

skus-IsOffered :
    (sessions : List MarketingEnrollmentSession) (skcs : List MarketingEnrollmentSkc)
    → All
        (λ skc. All (λ sku. All (IsOffered sessions) sku.site_price_list) skc.sku_list)
        (map (current_skus (map (λ s. s.site_id) sessions)) skcs)
unfolding current_skus current_prices
skus-IsOffered sessions skcs = All-map_of _ _ skcs λ skc.
    All-map_of _ _ skc.sku_list
      λ sku. All-keep (λ p. contains (map (λ s. s.site_id) sessions) p.site_id) sku.site_price_list

-- What `current_enrollment` makes of an enrolment: nothing, if no session is current; otherwise one
-- with the current sessions.
abbrev pub Taken : MarketingEnrollment → Option MarketingEnrollment → Type 0
Taken e none = any is_current e.assigned_sessions ≡ false
Taken e (some r) =
    (any is_current e.assigned_sessions ≡ true)
    × (r.assigned_sessions ≡ keep is_current e.assigned_sessions)
    × (r.enroll_id ≡ e.enroll_id)
    × IsCurrent r

any-keep :
    (sessions : List MarketingEnrollmentSession)
    → keep is_current sessions ≡ []
    → any is_current sessions ≡ false
any-keep sessions h = elim (Bool-cases (any is_current sessions)) [
  | inl y ↦ absurd (keep-nonempty is_current sessions y h)
  | inr n ↦ n
]

keep-any :
    (s : MarketingEnrollmentSession) (kept sessions : List MarketingEnrollmentSession)
    → keep is_current sessions ≡ s ∷ kept
    → any is_current sessions ≡ true
keep-any s kept [] h = absurd (ground arith)
keep-any s kept (x ∷ xs) h = elim (Bool-cases (is_current x)) [
  | inl y ↦ ground (arith, y)
  | inr n ↦ ground (arith, n, keep-any s kept xs)
]

with_sessions-Taken :
    (e : MarketingEnrollment) (kept : List MarketingEnrollmentSession)
    → keep is_current e.assigned_sessions ≡ kept
    → Taken e (with_sessions e kept)
unfolding with_sessions
with_sessions-Taken e [] h = any-keep e.assigned_sessions h
with_sessions-Taken e (s ∷ kept) h = (
  keep-any s kept e.assigned_sessions h,
  sym h,
  refl,
  record {
    has_session = λ q. ground arith;
    sessions_current =
        subst (All (λ t. is_current t ≡ true)) h (All-keep is_current e.assigned_sessions);
    prices_offered = skus-IsOffered (s ∷ kept) e.skc_list;
  },
)

-- An enrolment is taken exactly if one of its sessions is current. What is taken has all the
-- current sessions, in their order, and no others, and only prices of their sites.
pub current_enrollment-Taken : (e : MarketingEnrollment) → Taken e (current_enrollment e)
unfolding current_enrollment
current_enrollment-Taken e = with_sessions-Taken e (keep is_current e.assigned_sessions) refl
