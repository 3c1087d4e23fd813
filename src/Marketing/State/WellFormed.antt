-- ===== src/Marketing/State/WellFormed.antt =====
-- What every SKC state satisfies, and the states that no branch has finished.
use pangu_sales_manager.Base.{
  ℤ, pos, eq_ℤ_iff, lt_ℤ, lt_ℤ_irrefl, eq_iff, true, false, List, [], ◌∷◌, Option, none, some, ◌≡◌,
  refl, ◌⊎◌, inl, inr, arith, ◌∙◌, sym, subst,
}
use pangu_sales_manager.Marketing.Ids.{contains}
use pangu_sales_manager.Marketing.Ids.Laws.{IsAscending, Subset}
use pangu_sales_manager.Marketing.State.Evidence.{unique_enroll_ids-IsAscending}
use pangu_sales_manager.Marketing.State.{
  Time, confirmed, warning, ActivityStockPoint, SkcActivityState, fresh_state, initial_by,
}

-- A confirmed state rests on its one activity; a warning names none.
abbrev pub IsDecided : SkcActivityState → Type 0
IsDecided s =
    ((s.status ≡ confirmed) × (s.evidence_enroll_ids ≡ s.active_enroll_id ∷ []))
    ⊎ ((s.status ≡ warning) × (s.active_enroll_id ≡ pos 0))

pub record IsWellFormed (s : SkcActivityState) : Type 0 where
  pub candidates_ascend : IsAscending s.candidate_enroll_ids
  pub evidence_ascends : IsAscending s.evidence_enroll_ids
  pub evidence_within : Subset s.evidence_enroll_ids s.candidate_enroll_ids
  pub decided : IsDecided s
  pub started_before : lt_ℤ s.captured_at s.state_started_at ≡ false

-- A state that no branch has finished: its candidates are set, and nothing is decided.
pub record IsOpen (s : SkcActivityState) : Type 0 where
  pub candidates_ascend : IsAscending s.candidate_enroll_ids
  pub no_active : s.active_enroll_id ≡ pos 0
  pub no_evidence : s.evidence_enroll_ids ≡ []
  pub started : s.state_started_at ≡ s.captured_at

pub fresh_state-IsOpen :
    (now : Time) (skc_id : ℤ) (points : List ActivityStockPoint)
    → IsOpen (fresh_state now skc_id points)
unfolding fresh_state
fresh_state-IsOpen now skc_id points = record {
  candidates_ascend = unique_enroll_ids-IsAscending points;
  no_active = refl;
  no_evidence = refl;
  started = refl;
}

pub Subset-nil : (xs : List ℤ) → Subset [] xs
unfolding contains
Subset-nil xs a h = cc

-- Finishing with a warning that keeps the open state's start.
module _ (s : SkcActivityState) (o : IsOpen s) where
  pub started_now : lt_ℤ s.captured_at s.state_started_at ≡ false
  started_now = subst (λ t. lt_ℤ s.captured_at t ≡ false) (sym o.started) (lt_ℤ_irrefl _)

  pub initial_by-IsWellFormed :
      (ids : List ℤ)
      → IsAscending ids
      → Subset ids s.candidate_enroll_ids
      → IsWellFormed (initial_by s ids)
  unfolding initial_by
  initial_by-IsWellFormed [] a h = record {
    candidates_ascend = o.candidates_ascend;
    evidence_ascends = tt;
    evidence_within = h;
    decided = inr (refl, o.no_active);
    started_before = started_now;
  }
  initial_by-IsWellFormed (e ∷ []) a h = record {
    candidates_ascend = o.candidates_ascend;
    evidence_ascends = a;
    evidence_within = h;
    decided = inl (refl, refl);
    started_before = started_now;
  }
  initial_by-IsWellFormed (e ∷ f ∷ rest) a h = record {
    candidates_ascend = o.candidates_ascend;
    evidence_ascends = a;
    evidence_within = h;
    decided = inr (refl, o.no_active);
    started_before = started_now;
  }

-- The previous state, if there is one, is well formed and older.
abbrev pub IsHistory : Time → Option SkcActivityState → Type 0
IsHistory now none = Unit
IsHistory now (some p) = IsWellFormed p × (lt_ℤ now p.state_started_at ≡ false)

pub confirmed_ne_warning : confirmed ≡ warning → ⊥
confirmed_ne_warning h = ground (arith, eq_iff confirmed warning)

-- The evidence of a confirmed state is its activity.
pub confirmed_evidence :
    {p : SkcActivityState}
    → IsWellFormed p
    → p.status ≡ confirmed
    → p.evidence_enroll_ids ≡ p.active_enroll_id ∷ []
confirmed_evidence {p} w h = elim w.decided [
  | inl d ↦ d.1
  | inr d ↦ absurd (confirmed_ne_warning (sym h ∙ d.0))
]

pub Subset-singleton : (e : ℤ) (xs : List ℤ) → contains xs e ≡ true → Subset (e ∷ []) xs
unfolding contains
Subset-singleton e xs h a q = ground (arith, eq_ℤ_iff e a)
