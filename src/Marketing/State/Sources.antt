-- ===== src/Marketing/State/Sources.antt =====
-- Where a confirmed state comes from: `resolve_skc_activity_state` names no activity without
-- evidence for it.
use pangu_sales_manager.Base.{
  ℤ, str_eq, eq_iff, true, ◌&&◌, List, [], ◌∷◌, Option, none, some, if_rule, ◌≡◌, refl, ◌⊎◌, inl,
  inr, arith, ap, ◌∙◌, sym,
}
use pangu_sales_manager.Marketing.Ids.{contains}
use pangu_sales_manager.Marketing.State.Evidence.{
  is_candidate, has_sold_now, has_ever_sold, contains-unique_enroll_ids, contains-consuming_ids,
  contains-positive_ids,
}
use pangu_sales_manager.Marketing.State.WellFormed.{confirmed_ne_warning}
use pangu_sales_manager.Marketing.State.Branches.{IsOnly, IsNone, IsOnly-of_singleton}
use pangu_sales_manager.Marketing.State.{
  Time, confirmed, warning, ActivityStockPoint, SkcActivityState, unique_enroll_ids, consuming_ids,
  positive_ids, fresh_state, initial_by, resolve_initial_state, no_current_activity,
  unique_consumption, multiple_consumption, carry_active, carry_conflict, carry_warning,
  still_active, still_in_conflict, still_warning, no_consumption, by_consumption,
  resolve_skc_activity_state,
}

-- The previous state was confirmed under `a`, and `a` is still a candidate.
abbrev pub IsCarried : List ActivityStockPoint → Option SkcActivityState → ℤ → Type 0
IsCarried points none a = ⊥
IsCarried points (some p) a =
    (p.status ≡ confirmed) × (p.active_enroll_id ≡ a) × (is_candidate points a ≡ true)

-- The three grounds on which an SKC may be confirmed under `a`.
abbrev pub Grounds : List ActivityStockPoint → Option SkcActivityState → ℤ → Type 0
Grounds points previous a =
    IsOnly (has_sold_now points) a
    ⊎ (IsNone (has_sold_now points) × IsCarried points previous a)
    ⊎ (IsNone (has_sold_now points) × IsOnly (has_ever_sold points) a)

-- `s` has grounds, if it is confirmed.
Justified : List ActivityStockPoint → Option SkcActivityState → SkcActivityState → Type 0
Justified points previous s = s.status ≡ confirmed → Grounds points previous s.active_enroll_id

warned :
    (points : List ActivityStockPoint) (previous : Option SkcActivityState) (s : SkcActivityState)
    → s.status ≡ warning
    → Justified points previous s
unfolding Justified
warned points previous s w h = absurd (confirmed_ne_warning (sym h ∙ w))

grounded :
    (points : List ActivityStockPoint) (previous : Option SkcActivityState) (s : SkcActivityState)
    → Grounds points previous s.active_enroll_id
    → Justified points previous s
unfolding Justified
grounded points previous s g h = g

module _ (s : SkcActivityState) (points : List ActivityStockPoint) where
  initial-Justified :
      (previous : Option SkcActivityState) (ids : List ℤ)
      → IsNone (has_sold_now points)
      → ((a : ℤ) → contains ids a ≡ has_ever_sold points a)
      → Justified points previous (initial_by s ids)
  unfolding initial_by
  initial-Justified previous [] n h = warned _ _ _ refl
  initial-Justified previous (e ∷ []) n h =
      grounded _ _ _ (inr (inr (n, IsOnly-of_singleton (has_ever_sold points) e h)))
  initial-Justified previous (e ∷ f ∷ rest) n h = warned _ _ _ refl

  carry-Justified :
      (p : SkcActivityState)
      → s.candidate_enroll_ids ≡ unique_enroll_ids points
      → IsNone (has_sold_now points)
      → still_active s p ≡ true
      → Justified points (some p) (carry_active s p)
  unfolding still_active carry_active
  carry-Justified p c n b = grounded _ _ _ (
      inr (
        inl (
          n,
          (
            (eq_iff p.status confirmed).0 (ground arith),
            refl,
            ground (
              arith,
              ap (λ l. contains l p.active_enroll_id) c,
              contains-unique_enroll_ids points p.active_enroll_id,
            ),
          ),
        )))

no_consumption-Justified :
    (s : SkcActivityState) (points : List ActivityStockPoint) (previous : Option SkcActivityState)
    → s.candidate_enroll_ids ≡ unique_enroll_ids points
    → IsNone (has_sold_now points)
    → Justified points previous (no_consumption s points previous)
unfolding no_consumption resolve_initial_state carry_conflict carry_warning
no_consumption-Justified s points none c n =
    initial-Justified s points none (positive_ids points) n (contains-positive_ids points)
no_consumption-Justified s points (some p) c n =
    let r = record s { previous_active_enroll_id = p.active_enroll_id } in
    if_rule (Justified points (some p)) (still_active r p) (carry-Justified r points p c n) λ _.
      if_rule (Justified points (some p)) (still_in_conflict r p) (λ _. warned _ _ _ refl)
        λ _.
          if_rule (Justified points (some p)) (still_warning r p) (λ _. warned _ _ _ refl)
            λ _.
              initial-Justified r points (some p) (positive_ids points) n
                (contains-positive_ids points)

by_consumption-Justified :
    (s : SkcActivityState) (points : List ActivityStockPoint) (ids : List ℤ)
    (previous : Option SkcActivityState)
    → s.candidate_enroll_ids ≡ unique_enroll_ids points
    → ((a : ℤ) → contains ids a ≡ has_sold_now points a)
    → Justified points previous (by_consumption s points ids previous)
unfolding by_consumption unique_consumption multiple_consumption contains
by_consumption-Justified s points [] previous c h =
    no_consumption-Justified s points previous c (λ f. sym (h f))
by_consumption-Justified s points (e ∷ []) none c h =
    grounded _ _ _ (inl (IsOnly-of_singleton (has_sold_now points) e h))
by_consumption-Justified s points (e ∷ []) (some p) c h =
    grounded _ _ _ (inl (IsOnly-of_singleton (has_sold_now points) e h))
by_consumption-Justified s points (e ∷ f ∷ rest) none c h = warned _ _ _ refl
by_consumption-Justified s points (e ∷ f ∷ rest) (some p) c h = warned _ _ _ refl

resolve-Justified :
    (now : Time) (skc_id : ℤ) (points : List ActivityStockPoint)
    (previous : Option SkcActivityState)
    → Justified points previous (resolve_skc_activity_state now skc_id points previous)
unfolding resolve_skc_activity_state no_current_activity fresh_state
resolve-Justified now skc_id [] none = warned [] none _ refl
resolve-Justified now skc_id [] (some p) =
    if_rule (Justified [] (some p))
      (str_eq p.status warning && str_eq p.reason "no_current_activity")
      (λ _. warned [] (some p) _ refl) (λ _. warned [] (some p) _ refl)
resolve-Justified now skc_id (q ∷ qs) previous =
    by_consumption-Justified _ (q ∷ qs) (consuming_ids (q ∷ qs)) previous refl
      (contains-consuming_ids (q ∷ qs))

-- A confirmed state has one of three grounds: its activity alone sold in the interval; or nothing
-- sold, and the SKC was confirmed under the same activity, which is still a candidate; or nothing
-- sold, and the activity is the only one that ever sold.
pub resolve-Grounds :
    (now : Time) (skc_id : ℤ) (points : List ActivityStockPoint)
    (previous : Option SkcActivityState)
    → (resolve_skc_activity_state now skc_id points previous).status ≡ confirmed
    → Grounds points previous
        (resolve_skc_activity_state now skc_id points previous).active_enroll_id
unfolding Justified
resolve-Grounds now skc_id points previous = resolve-Justified now skc_id points previous
