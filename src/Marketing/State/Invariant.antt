-- ===== src/Marketing/State/Invariant.antt =====
-- What every SKC state satisfies, and that each step of the tracker keeps it.
use pangu_sales_manager.Base.{
  ℤ, eq_ℤ, eq_ℤ_iff, lt_ℤ, str_eq, eq_iff, true, false, ◌&&◌, List, [], ◌∷◌, Option, none, some,
  if◌then◌else◌, if_rule, ◌≡◌, refl, inl, inr, arith, ◌∙◌, sym,
}
use pangu_sales_manager.Marketing.Ids.{contains, intersect_ids}
use pangu_sales_manager.Marketing.Ids.Laws.{
  IsAscending, Subset, contains-intersect_ids, intersect_ids-IsAscending, equal_ids_iff,
}
use pangu_sales_manager.Marketing.State.Evidence.{
  consuming_ids-Subset, positive_ids-Subset, consuming_ids-IsAscending, positive_ids-IsAscending,
}
use pangu_sales_manager.Marketing.State.{
  Time, confirmed, warning, ActivityStockPoint, SkcActivityState, unique_enroll_ids, consuming_ids,
  positive_ids, fresh_state, resolve_initial_state, no_current_activity, unique_consumption,
  multiple_consumption, carry_active, carry_conflict, carry_warning, still_active,
  still_in_conflict, still_warning, no_consumption, by_consumption, resolve_skc_activity_state,
}
use pangu_sales_manager.Marketing.State.WellFormed.{
  IsWellFormed, IsOpen, fresh_state-IsOpen, Subset-nil, started_now, initial_by-IsWellFormed,
  IsHistory, confirmed_evidence, Subset-singleton,
}

module _ (s : SkcActivityState) (o : IsOpen s) where
  no_current_activity-IsWellFormed :
      (previous : Option SkcActivityState)
      → IsHistory s.captured_at previous
      → IsWellFormed (no_current_activity s previous)
  unfolding no_current_activity
  no_current_activity-IsWellFormed none h = record {
    candidates_ascend = o.candidates_ascend;
    evidence_ascends = rw o.no_evidence tt;
    evidence_within = rw o.no_evidence (Subset-nil _);
    decided = inr (refl, o.no_active);
    started_before = started_now s o;
  }
  no_current_activity-IsWellFormed (some p) h =
      if_rule IsWellFormed (str_eq p.status warning && str_eq p.reason "no_current_activity")
        (λ _. record {
          candidates_ascend = o.candidates_ascend;
          evidence_ascends = rw o.no_evidence tt;
          evidence_within = rw o.no_evidence (Subset-nil _);
          decided = inr (refl, o.no_active);
          started_before = h.1;
        })
        (λ _. record {
          candidates_ascend = o.candidates_ascend;
          evidence_ascends = rw o.no_evidence tt;
          evidence_within = rw o.no_evidence (Subset-nil _);
          decided = inr (refl, o.no_active);
          started_before = started_now s o;
        })

  unique_consumption-IsWellFormed :
      (e : ℤ) (previous : Option SkcActivityState)
      → contains s.candidate_enroll_ids e ≡ true
      → IsHistory s.captured_at previous
      → IsWellFormed (unique_consumption s e previous)
  unfolding unique_consumption
  unique_consumption-IsWellFormed e none c h = record {
    candidates_ascend = o.candidates_ascend;
    evidence_ascends = (tt, tt);
    evidence_within = Subset-singleton e _ c;
    decided = inl (refl, refl);
    started_before = started_now s o;
  }
  unique_consumption-IsWellFormed e (some p) c h = record {
    candidates_ascend = o.candidates_ascend;
    evidence_ascends = (tt, tt);
    evidence_within = Subset-singleton e _ c;
    decided = inl (refl, refl);
    started_before = started;
  }
    where
      started :
          lt_ℤ s.captured_at (
            if str_eq p.status confirmed && eq_ℤ p.active_enroll_id e
            then p.state_started_at
            else s.state_started_at)
          ≡ false
      started = ground (arith, h.1, started_now s o)

  multiple_consumption-IsWellFormed :
      (ids : List ℤ) (previous : Option SkcActivityState)
      → IsAscending ids
      → Subset ids s.candidate_enroll_ids
      → IsWellFormed (multiple_consumption s ids previous)
  unfolding multiple_consumption
  multiple_consumption-IsWellFormed ids none a h = record {
    candidates_ascend = o.candidates_ascend;
    evidence_ascends = a;
    evidence_within = h;
    decided = inr (refl, o.no_active);
    started_before = started_now s o;
  }
  multiple_consumption-IsWellFormed ids (some p) a h = record {
    candidates_ascend = o.candidates_ascend;
    evidence_ascends = a;
    evidence_within = h;
    decided = inr (refl, o.no_active);
    started_before = started_now s o;
  }

  carry_active-IsWellFormed :
      (p : SkcActivityState)
      → IsHistory s.captured_at (some p)
      → still_active s p ≡ true
      → IsWellFormed (carry_active s p)
  unfolding carry_active still_active
  carry_active-IsWellFormed p (w, older) b =
      let status : p.status ≡ confirmed = (eq_iff p.status confirmed).0 (ground arith) in
      let evidence = confirmed_evidence w status in
      record {
        candidates_ascend = o.candidates_ascend;
        evidence_ascends = w.evidence_ascends;
        evidence_within = rw evidence (Subset-singleton _ _ (ground arith));
        decided = inl (refl, evidence);
        started_before = older;
      }

  carry_conflict-IsWellFormed :
      (p : SkcActivityState)
      → IsHistory s.captured_at (some p)
      → IsWellFormed
          (carry_conflict s p (intersect_ids p.evidence_enroll_ids s.candidate_enroll_ids))
  unfolding carry_conflict
  carry_conflict-IsWellFormed p (w, older) = record {
    candidates_ascend = o.candidates_ascend;
    evidence_ascends = intersect_ids-IsAscending p.evidence_enroll_ids s.candidate_enroll_ids;
    evidence_within = λ a q.
        ground (arith, contains-intersect_ids p.evidence_enroll_ids s.candidate_enroll_ids a);
    decided = inr (refl, o.no_active);
    started_before = older;
  }

  carry_warning-IsWellFormed :
      (p : SkcActivityState)
      → IsHistory s.captured_at (some p)
      → still_warning s p ≡ true
      → IsWellFormed (carry_warning s p)
  unfolding carry_warning still_warning
  carry_warning-IsWellFormed p (w, older) b =
      let same = (equal_ids_iff p.candidate_enroll_ids s.candidate_enroll_ids).0 (ground arith) in
      record {
        candidates_ascend = o.candidates_ascend;
        evidence_ascends = w.evidence_ascends;
        evidence_within = λ a q. sym (same a) ∙ w.evidence_within a q;
        decided = inr (refl, o.no_active);
        started_before = older;
      }

-- The state as `no_consumption` hands it to the branches.
remember_active : SkcActivityState → SkcActivityState → SkcActivityState
remember_active s p = record s { previous_active_enroll_id = p.active_enroll_id }

remember_active-IsOpen : (s p : SkcActivityState) → IsOpen s → IsOpen (remember_active s p)
unfolding remember_active
remember_active-IsOpen s p o = record {
  candidates_ascend = o.candidates_ascend;
  no_active = o.no_active;
  no_evidence = o.no_evidence;
  started = o.started;
}

no_consumption-IsWellFormed :
    (s : SkcActivityState) (points : List ActivityStockPoint) (previous : Option SkcActivityState)
    → IsOpen s
    → s.candidate_enroll_ids ≡ unique_enroll_ids points
    → IsHistory s.captured_at previous
    → IsWellFormed (no_consumption s points previous)
unfolding no_consumption resolve_initial_state remember_active
no_consumption-IsWellFormed s points none o c h =
    initial_by-IsWellFormed s o (positive_ids points) (positive_ids-IsAscending points)
      (rw c (positive_ids-Subset points))
no_consumption-IsWellFormed s points (some p) o c h =
    let r = remember_active s p in
    let or = remember_active-IsOpen s p o in
    if_rule IsWellFormed (still_active r p) (carry_active-IsWellFormed r or p h) λ _.
      if_rule IsWellFormed (still_in_conflict r p) (λ _. carry_conflict-IsWellFormed r or p h)
        λ _. if_rule IsWellFormed (still_warning r p) (carry_warning-IsWellFormed r or p h) λ _.
          initial_by-IsWellFormed r or (positive_ids points) (positive_ids-IsAscending points)
            (rw c (positive_ids-Subset points))

by_consumption-IsWellFormed :
    (s : SkcActivityState) (points : List ActivityStockPoint) (ids : List ℤ)
    (previous : Option SkcActivityState)
    → IsOpen s
    → s.candidate_enroll_ids ≡ unique_enroll_ids points
    → IsAscending ids
    → Subset ids s.candidate_enroll_ids
    → IsHistory s.captured_at previous
    → IsWellFormed (by_consumption s points ids previous)
unfolding by_consumption contains
by_consumption-IsWellFormed s points [] previous o c a w h =
    no_consumption-IsWellFormed s points previous o c h
by_consumption-IsWellFormed s points (e ∷ []) previous o c a w h =
    unique_consumption-IsWellFormed s o e previous (w e (ground (arith, eq_ℤ_iff e e))) h
by_consumption-IsWellFormed s points (e ∷ f ∷ rest) previous o c a w h =
    multiple_consumption-IsWellFormed s o (e ∷ f ∷ rest) previous a w

-- One step of the tracker keeps every state well formed.
pub resolve-IsWellFormed :
    (now : Time) (skc_id : ℤ) (points : List ActivityStockPoint)
    (previous : Option SkcActivityState)
    → IsHistory now previous
    → IsWellFormed (resolve_skc_activity_state now skc_id points previous)
unfolding resolve_skc_activity_state fresh_state
resolve-IsWellFormed now skc_id [] previous h =
    no_current_activity-IsWellFormed (fresh_state now skc_id []) (fresh_state-IsOpen now skc_id [])
      previous h
resolve-IsWellFormed now skc_id (q ∷ qs) previous h =
    by_consumption-IsWellFormed (fresh_state now skc_id (q ∷ qs)) (q ∷ qs) (consuming_ids (q ∷ qs))
      previous (fresh_state-IsOpen now skc_id (q ∷ qs)) refl (consuming_ids-IsAscending (q ∷ qs))
      (consuming_ids-Subset (q ∷ qs)) h
