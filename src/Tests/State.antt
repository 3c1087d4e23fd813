-- ===== src/Tests/State.antt =====
-- Runs of the tracker and of the price rules.
use pangu_sales_manager.Base.{
  ℤ, pos, eq_ℤ_iff, Bool, true, false, List, [], ◌∷◌, Option, none, some, ◌≡◌, ◌≢◌, refl, arith,
  inl,
}
use pangu_sales_manager.Marketing.Ids.{contains, unique_sorted}
use pangu_sales_manager.Marketing.State.{
  Time, confirmed, warning, ActivityStockPoint, SkcActivityState, resolve_skc_activity_state,
}
use pangu_sales_manager.Marketing.State.Evidence.{has_sold_now}
use pangu_sales_manager.Marketing.State.WellFormed.{IsWellFormed}
use pangu_sales_manager.Marketing.State.Branches.{
  IsOnly, resolve_unique, resolve_conflict, resolve-ext, start_of, active_of,
}
use pangu_sales_manager.Marketing.State.Course.{IsSame, at_first, silent, sells, Follows-IsSame}
use pangu_sales_manager.Marketing.State.Sources.{Grounds, resolve-Grounds}

abbrev point : ℤ → ℤ → ActivityStockPoint
point id sold = record {
  enroll_id = id;
  skc_id = pos 7;
  cumulative_consumed = sold;
  interval_consumed = sold;
}

abbrev first_sold : List ActivityStockPoint
first_sold = point (pos 1) (pos 4) ∷ point (pos 2) (pos 0) ∷ []

abbrev both_sold : List ActivityStockPoint
both_sold = point (pos 2) (pos 1) ∷ point (pos 1) (pos 4) ∷ []

abbrev none_sold : List ActivityStockPoint
none_sold = point (pos 1) (pos 0) ∷ point (pos 2) (pos 0) ∷ []

abbrev before : SkcActivityState
before = record {
  skc_id = pos 7;
  status = confirmed;
  active_enroll_id = pos 1;
  previous_active_enroll_id = pos 0;
  candidate_enroll_ids = pos 1 ∷ [];
  evidence_enroll_ids = pos 1 ∷ [];
  state_started_at = pos 5;
  last_evidence_at = some (pos 5);
  carried_forward = false;
  reason = "";
  captured_at = pos 6;
}

before-IsWellFormed : IsWellFormed before
unfolding pangu_sales_manager.Base.lt_ℤ
before-IsWellFormed = record {
  candidates_ascend = (tt, tt);
  evidence_ascends = (tt, tt);
  evidence_within = λ a h. h;
  decided = inl (refl, refl);
  started_before = refl;
}

first-IsOnly : IsOnly (has_sold_now first_sold) (pos 1)
unfolding pangu_sales_manager.Base.eq_ℤ pangu_sales_manager.Base.positive
first-IsOnly = (refl, λ f h. ground (arith, eq_ℤ_iff (pos 1) f))

resolve_unique_example :
    let s = resolve_skc_activity_state (pos 9) (pos 7) first_sold (some before) in
    (s.status ≡ confirmed)
    × (s.active_enroll_id ≡ pos 1)
    × (s.evidence_enroll_ids ≡ pos 1 ∷ [])
    × (s.last_evidence_at ≡ some (pos 9))
    × (s.carried_forward ≡ false)
    × (s.state_started_at ≡ start_of (pos 9) (pos 1) (some before))
    × (s.previous_active_enroll_id ≡ active_of (some before))
resolve_unique_example =
    resolve_unique (pos 9) (pos 7) first_sold (some before) (pos 1) first-IsOnly

resolve_conflict_example :
    let s = resolve_skc_activity_state (pos 9) (pos 7) both_sold (some before) in
    (s.status ≡ warning)
    × (s.active_enroll_id ≡ pos 0)
    × (s.state_started_at ≡ pos 9)
    × ((a : ℤ) → contains s.evidence_enroll_ids a ≡ has_sold_now both_sold a)
unfolding pangu_sales_manager.Base.eq_ℤ pangu_sales_manager.Base.positive
resolve_conflict_example =
    resolve_conflict (pos 9) (pos 7) both_sold (some before) (pos 1) (pos 2) refl refl
      (λ h. ground arith)

resolve-ext_example :
    resolve_skc_activity_state (pos 9) (pos 7) first_sold none
    ≡ resolve_skc_activity_state
        (pos 9)
        (pos 7)
        (point (pos 2) (pos 0) ∷ point (pos 1) (pos 4) ∷ [])
        none
resolve-ext_example =
    resolve-ext (pos 9) (pos 7) first_sold (point (pos 2) (pos 0) ∷ point (pos 1) (pos 4) ∷ []) none
      (λ e. ground arith) (λ e. ground arith) (λ e. ground arith)

resolve-Grounds_example :
    Grounds first_sold none
      (resolve_skc_activity_state (pos 9) (pos 7) first_sold none).active_enroll_id
unfolding resolve_skc_activity_state pangu_sales_manager.Marketing.State.consuming_ids unique_sorted
    pangu_sales_manager.Base.positive
resolve-Grounds_example = resolve-Grounds (pos 9) (pos 7) first_sold none refl

-- A silent snapshot, then one in which the activity sells again.
abbrev after_silence : SkcActivityState
after_silence = resolve_skc_activity_state (pos 9) (pos 7) none_sold (some before)

Follows-IsSame_example :
    IsSame
      (pos 7)
      (pos 1)
      before
      (some (pos 12))
      (resolve_skc_activity_state (pos 12) (pos 7) first_sold (some after_silence))
unfolding pangu_sales_manager.Base.eq_ℤ pangu_sales_manager.Base.positive
Follows-IsSame_example = Follows-IsSame (pos 7) (pos 1) before refl refl (
    sells (silent at_first (pos 9) none_sold (λ f. ground arith) refl) (pos 12) first_sold
      first-IsOnly)
