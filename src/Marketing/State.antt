-- ===== src/Marketing/State.antt =====
-- internal/marketing/activity_state.go: which activity an SKC is taken to sell under.
pub mod Evidence
pub mod WellFormed
pub mod Invariant
pub mod Branches
pub mod Course
pub mod Sources
pub mod Captured
use pangu_sales_manager.Base.{
  ℤ, pos, eq_ℤ, positive, String, str_eq, Bool, true, false, ◌&&◌, List, [], ◌∷◌, Option, none,
  some, if◌then◌else◌, keep, map, length, ltb,
}
use pangu_sales_manager.Marketing.Ids.{contains, unique_sorted, intersect_ids, equal_ids}

-- A moment, as nanoseconds from Go's zero time.
abbrev pub Time : Type 0
Time = ℤ

abbrev pub confirmed : String
confirmed = "confirmed"

abbrev pub warning : String
warning = "warning"

pub record ActivityStockPoint : Type 0 where
  pub enroll_id : ℤ
  pub skc_id : ℤ
  pub cumulative_consumed : ℤ
  pub interval_consumed : ℤ

pub record SkcActivityState : Type 0 where
  pub skc_id : ℤ
  pub status : String
  pub active_enroll_id : ℤ
  pub previous_active_enroll_id : ℤ
  pub candidate_enroll_ids : List ℤ
  pub evidence_enroll_ids : List ℤ
  pub state_started_at : Time
  pub last_evidence_at : Option Time
  pub carried_forward : Bool
  pub reason : String
  pub captured_at : Time

unfoldable pub unique_enroll_ids : List ActivityStockPoint → List ℤ
unique_enroll_ids points = unique_sorted (map (λ p. p.enroll_id) points)

-- The activities whose stock fell in this interval.
unfoldable pub consuming_ids : List ActivityStockPoint → List ℤ
consuming_ids candidates =
    unique_sorted (map (λ p. p.enroll_id) (keep (λ p. positive p.interval_consumed) candidates))

-- The activities that have sold anything so far.
unfoldable pub positive_ids : List ActivityStockPoint → List ℤ
positive_ids candidates =
    unique_sorted (map (λ p. p.enroll_id) (keep (λ p. positive p.cumulative_consumed) candidates))

-- The state before any branch is taken: the zero value of what is not set.
unfoldable pub fresh_state : Time → ℤ → List ActivityStockPoint → SkcActivityState
fresh_state now skc_id candidates = record {
  skc_id = skc_id;
  status = "";
  active_enroll_id = pos 0;
  previous_active_enroll_id = pos 0;
  candidate_enroll_ids = unique_enroll_ids candidates;
  evidence_enroll_ids = [];
  state_started_at = now;
  last_evidence_at = none;
  carried_forward = false;
  reason = "";
  captured_at = now;
}

pub initial_by : SkcActivityState → List ℤ → SkcActivityState
initial_by state [] = record state {
  evidence_enroll_ids = [];
  status = warning;
  reason = "initial_no_consumption";
}
initial_by state (e ∷ []) = record state {
  evidence_enroll_ids = e ∷ [];
  status = confirmed;
  active_enroll_id = e;
  last_evidence_at = some state.captured_at;
  reason = "initial_unique_cumulative_consumption";
}
initial_by state (e ∷ f ∷ rest) = record state {
  evidence_enroll_ids = e ∷ f ∷ rest;
  status = warning;
  last_evidence_at = some state.captured_at;
  reason = "initial_multiple_cumulative_consumption";
}

unfoldable pub resolve_initial_state : SkcActivityState → List ActivityStockPoint → SkcActivityState
unfolding initial_by
resolve_initial_state state candidates = initial_by state (positive_ids candidates)

-- No candidate is left.
no_current_activity : SkcActivityState → Option SkcActivityState → SkcActivityState
no_current_activity state none = record state { status = warning; reason = "no_current_activity" }
no_current_activity state (some previous) =
    if str_eq previous.status warning && str_eq previous.reason "no_current_activity"
    then record state {
      status = warning;
      reason = "no_current_activity";
      state_started_at = previous.state_started_at;
      carried_forward = true;
    }
    else record state { status = warning; reason = "no_current_activity" }

-- One activity sold in this interval.
unique_consumption : SkcActivityState → ℤ → Option SkcActivityState → SkcActivityState
unique_consumption state e none = record state {
  status = confirmed;
  active_enroll_id = e;
  evidence_enroll_ids = e ∷ [];
  last_evidence_at = some state.captured_at;
  reason = "interval_unique_consumption";
}
unique_consumption state e (some previous) = record state {
  status = confirmed;
  active_enroll_id = e;
  evidence_enroll_ids = e ∷ [];
  last_evidence_at = some state.captured_at;
  reason = "interval_unique_consumption";
  previous_active_enroll_id = previous.active_enroll_id;
  state_started_at =
      if str_eq previous.status confirmed && eq_ℤ previous.active_enroll_id e
      then previous.state_started_at
      else state.state_started_at;
}

-- Several did.
multiple_consumption : SkcActivityState → List ℤ → Option SkcActivityState → SkcActivityState
multiple_consumption state consuming none = record state {
  status = warning;
  evidence_enroll_ids = consuming;
  reason = "interval_multiple_consumption";
}
multiple_consumption state consuming (some previous) = record state {
  status = warning;
  evidence_enroll_ids = consuming;
  reason = "interval_multiple_consumption";
  previous_active_enroll_id = previous.active_enroll_id;
}

carry_active : SkcActivityState → SkcActivityState → SkcActivityState
carry_active state previous = record state {
  status = confirmed;
  active_enroll_id = previous.active_enroll_id;
  evidence_enroll_ids = previous.evidence_enroll_ids;
  state_started_at = previous.state_started_at;
  last_evidence_at = previous.last_evidence_at;
  carried_forward = true;
  reason = "carry_forward_no_consumption";
}

carry_conflict : SkcActivityState → SkcActivityState → List ℤ → SkcActivityState
carry_conflict state previous evidence = record state {
  status = warning;
  evidence_enroll_ids = evidence;
  state_started_at = previous.state_started_at;
  last_evidence_at = previous.last_evidence_at;
  carried_forward = true;
  reason = "carry_forward_conflict";
}

carry_warning : SkcActivityState → SkcActivityState → SkcActivityState
carry_warning state previous = record state {
  status = warning;
  state_started_at = previous.state_started_at;
  evidence_enroll_ids = previous.evidence_enroll_ids;
  last_evidence_at = previous.last_evidence_at;
  carried_forward = true;
  reason = "carry_forward_warning";
}

-- The tests of the three carry branches.
still_active : SkcActivityState → SkcActivityState → Bool
still_active state previous =
    str_eq previous.status confirmed
    && contains state.candidate_enroll_ids previous.active_enroll_id

still_in_conflict : SkcActivityState → SkcActivityState → Bool
still_in_conflict state previous =
    str_eq previous.status warning
    && ltb 1 (length previous.evidence_enroll_ids)
    && ltb 1 (length (intersect_ids previous.evidence_enroll_ids state.candidate_enroll_ids))

still_warning : SkcActivityState → SkcActivityState → Bool
still_warning state previous =
    str_eq previous.status warning
    && equal_ids previous.candidate_enroll_ids state.candidate_enroll_ids

-- Nothing sold in this interval.
no_consumption :
    SkcActivityState → List ActivityStockPoint → Option SkcActivityState → SkcActivityState
unfolding still_active still_in_conflict still_warning carry_active carry_conflict carry_warning
no_consumption state candidates none = resolve_initial_state state candidates
no_consumption state candidates (some previous) =
    let state = record state { previous_active_enroll_id = previous.active_enroll_id } in
    if still_active state previous
    then carry_active state previous
    else if still_in_conflict state previous
    then carry_conflict state previous
        (intersect_ids previous.evidence_enroll_ids state.candidate_enroll_ids)
    else if still_warning state previous
    then carry_warning state previous
    else resolve_initial_state state candidates

by_consumption :
    SkcActivityState → List ActivityStockPoint → List ℤ → Option SkcActivityState → SkcActivityState
unfolding unique_consumption multiple_consumption
by_consumption state candidates [] previous = no_consumption state candidates previous
by_consumption state candidates (e ∷ []) previous = unique_consumption state e previous
by_consumption state candidates (e ∷ f ∷ rest) previous =
    multiple_consumption state (e ∷ f ∷ rest) previous

unfoldable pub resolve_skc_activity_state :
    Time → ℤ → List ActivityStockPoint → Option SkcActivityState → SkcActivityState
unfolding by_consumption no_current_activity no_consumption
resolve_skc_activity_state now skc_id [] previous =
    no_current_activity (fresh_state now skc_id []) previous
resolve_skc_activity_state now skc_id (p ∷ ps) previous =
    by_consumption (fresh_state now skc_id (p ∷ ps)) (p ∷ ps) (consuming_ids (p ∷ ps)) previous
