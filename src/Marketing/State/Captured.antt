-- ===== src/Marketing/State/Captured.antt =====
-- Each state is stamped with the time of its snapshot and the SKC that it is of.
use pangu_sales_manager.Base.{
  ℤ, str_eq, ◌&&◌, List, [], ◌∷◌, Option, none, some, if_rule, ◌≡◌, refl,
}
use pangu_sales_manager.Marketing.State.{
  Time, warning, ActivityStockPoint, SkcActivityState, fresh_state, initial_by,
  resolve_initial_state, positive_ids, consuming_ids, no_current_activity, unique_consumption,
  multiple_consumption, carry_active, carry_conflict, carry_warning, still_active,
  still_in_conflict, still_warning, no_consumption, by_consumption, resolve_skc_activity_state,
}

StampOf : Time → ℤ → SkcActivityState → Type 0
StampOf t k s = (s.captured_at ≡ t) × (s.skc_id ≡ k)

stamped :
    (t : Time) (k : ℤ) (s : SkcActivityState) → s.captured_at ≡ t → s.skc_id ≡ k → StampOf t k s
unfolding StampOf
stamped t k s c d = (c, d)

initial_by-StampOf :
    (s : SkcActivityState) (ids : List ℤ) → StampOf s.captured_at s.skc_id (initial_by s ids)
unfolding initial_by StampOf
initial_by-StampOf s [] = (refl, refl)
initial_by-StampOf s (e ∷ []) = (refl, refl)
initial_by-StampOf s (e ∷ f ∷ rest) = (refl, refl)

no_consumption-StampOf :
    (s : SkcActivityState) (points : List ActivityStockPoint) (previous : Option SkcActivityState)
    → StampOf s.captured_at s.skc_id (no_consumption s points previous)
unfolding no_consumption resolve_initial_state carry_active carry_conflict carry_warning
no_consumption-StampOf s points none = initial_by-StampOf s (positive_ids points)
no_consumption-StampOf s points (some p) =
    let r = record s { previous_active_enroll_id = p.active_enroll_id } in
    if_rule (StampOf s.captured_at s.skc_id) (still_active r p) (λ _. stamped _ _ _ refl refl)
      λ _.
        if_rule (StampOf s.captured_at s.skc_id) (still_in_conflict r p)
          (λ _. stamped _ _ _ refl refl)
          λ _.
            if_rule (StampOf s.captured_at s.skc_id) (still_warning r p)
              (λ _. stamped _ _ _ refl refl) λ _. initial_by-StampOf r (positive_ids points)

by_consumption-StampOf :
    (s : SkcActivityState) (points : List ActivityStockPoint) (ids : List ℤ)
    (previous : Option SkcActivityState)
    → StampOf s.captured_at s.skc_id (by_consumption s points ids previous)
unfolding by_consumption unique_consumption multiple_consumption StampOf
by_consumption-StampOf s points [] previous = no_consumption-StampOf s points previous
by_consumption-StampOf s points (e ∷ []) none = (refl, refl)
by_consumption-StampOf s points (e ∷ []) (some p) = (refl, refl)
by_consumption-StampOf s points (e ∷ f ∷ rest) none = (refl, refl)
by_consumption-StampOf s points (e ∷ f ∷ rest) (some p) = (refl, refl)

resolve-StampOf :
    (now : Time) (skc_id : ℤ) (points : List ActivityStockPoint)
    (previous : Option SkcActivityState)
    → StampOf now skc_id (resolve_skc_activity_state now skc_id points previous)
unfolding resolve_skc_activity_state no_current_activity fresh_state
resolve-StampOf now skc_id [] none = stamped _ _ _ refl refl
resolve-StampOf now skc_id [] (some p) =
    if_rule (StampOf now skc_id) (str_eq p.status warning && str_eq p.reason "no_current_activity")
      (λ _. stamped _ _ _ refl refl) (λ _. stamped _ _ _ refl refl)
resolve-StampOf now skc_id (q ∷ qs) previous =
    by_consumption-StampOf (fresh_state now skc_id (q ∷ qs)) (q ∷ qs) (consuming_ids (q ∷ qs))
      previous

pub captured_at-resolve :
    (now : Time) (skc_id : ℤ) (points : List ActivityStockPoint)
    (previous : Option SkcActivityState)
    → (resolve_skc_activity_state now skc_id points previous).captured_at ≡ now
unfolding StampOf
captured_at-resolve now skc_id points previous = (resolve-StampOf now skc_id points previous).0

pub skc_id-resolve :
    (now : Time) (skc_id : ℤ) (points : List ActivityStockPoint)
    (previous : Option SkcActivityState)
    → (resolve_skc_activity_state now skc_id points previous).skc_id ≡ skc_id
unfolding StampOf
skc_id-resolve now skc_id points previous = (resolve-StampOf now skc_id points previous).1
