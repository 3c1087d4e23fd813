-- ===== src/Marketing/Observer/States.antt =====
-- The SKC states that `observe` leaves behind, and what holds of them after any run.
use pangu_sales_manager.Base.{
  ℤ, eq_ℤ, eq_ℤ_iff, lt_ℤ, str_eq, Bool, true, false, not, ◌||◌, List, [], ◌∷◌, ◌++◌, Option, none,
  some, if◌then◌else◌, keep, fold, lookup, lookup-insert, keys, int_eq, ◌≡◌, ◌≢◌, refl, ◌⊎◌, inl,
  inr, arith, ◌∙◌, ap, subst, Bool-cases, Option-cases,
}
use pangu_sales_manager.Marketing.Ids.{contains}
use pangu_sales_manager.Marketing.Ids.Laws.{le_trans_ℤ}
use pangu_sales_manager.Marketing.State.{
  Time, ActivityStockPoint, SkcActivityState, resolve_skc_activity_state,
}
use pangu_sales_manager.Marketing.State.Invariant.{resolve-IsWellFormed}
use pangu_sales_manager.Marketing.State.WellFormed.{IsWellFormed, IsHistory}
use pangu_sales_manager.Marketing.State.Captured.{captured_at-resolve}
use pangu_sales_manager.Marketing.Snapshot.{Snapshot}
use pangu_sales_manager.Marketing.Observer.{
  entries, tally_all, state_skcs, resolve_into, resolve_states, observe,
}
use pangu_sales_manager.Marketing.Observation.{ActivityObserver, new_activity_observer}

module _ (now : Time) (points : List (ℤ × List ActivityStockPoint))
    (old : List (ℤ × SkcActivityState)) where
  -- The state that an SKC gets, if it gets one.
  abbrev pub next_state : ℤ → SkcActivityState
  next_state k = resolve_skc_activity_state now k (entries k points) (lookup k old)

  lookup-resolve_fold :
      (k : ℤ) (ids : List ℤ) (acc : List (ℤ × SkcActivityState))
      → lookup k (fold (resolve_into now points old) acc ids)
        ≡ (if contains ids k then some (next_state k) else lookup k acc)
  unfolding resolve_into contains
  lookup-resolve_fold k [] acc = refl
  lookup-resolve_fold k (i ∷ is) acc = elim (Bool-cases (eq_ℤ i k)) [
    | inl e ↦
        lookup-resolve_fold k is (resolve_into now points old acc i)
        ∙ ground (arith, lookup-insert i k (next_state i) acc, ap next_state ((eq_ℤ_iff i k).0 e))
    | inr q ↦
        lookup-resolve_fold k is (resolve_into now points old acc i)
        ∙ ground (arith, lookup-insert i k (next_state i) acc, q)
  ]

  -- The new states: each SKC of `state_skcs` gets the state that the tracker resolves for it, and no
  -- other has one.
  pub lookup-resolve_states :
      (k : ℤ)
      → lookup k (resolve_states now points old)
        ≡ (if contains (state_skcs points old) k then some (next_state k) else none)
  unfolding resolve_states lookup
  lookup-resolve_states k = lookup-resolve_fold k (state_skcs points old) []

contains-append : (xs ys : List ℤ) (a : ℤ) → contains (xs ++ ys) a ≡ contains xs a || contains ys a
unfolding contains
contains-append [] ys a = refl
contains-append (x ∷ xs) ys a = ground (arith, contains-append xs ys a)

contains-keys {ℓ} :
    {V : Type ℓ} (m : List (ℤ × V)) (k : ℤ) (v : V)
    → lookup k m ≡ some v
    → contains (keys m) k ≡ true
unfolding contains lookup
contains-keys [] k v h = cc
contains-keys ((j, w) ∷ m) k v h = ground (arith, contains-keys m k v)

contains-keys-entries {ℓ} :
    {A : Type ℓ} (m : List (ℤ × List A)) (k : ℤ) → entries k m ≢ [] → contains (keys m) k ≡ true
unfolding entries
contains-keys-entries m k h = elim (Option-cases (lookup k m)) [
  | inl e ↦ absurd (h (rw (e, entries)))
  | inr (v, e) ↦ contains-keys m k v e
]

abbrev has_activity : ℤ × SkcActivityState → Bool
has_activity e = not (str_eq e.1.reason "no_current_activity")

contains-kept :
    (m : List (ℤ × SkcActivityState)) (k : ℤ) (s : SkcActivityState)
    → lookup k m ≡ some s
    → str_eq s.reason "no_current_activity" ≡ false
    → contains (keys (keep has_activity m)) k ≡ true
unfolding contains lookup
contains-kept [] k s h r = cc
contains-kept ((j, w) ∷ m) k s h r =
    ground (arith, contains-kept m k s, ap (λ (o : Option SkcActivityState). o) h)

contains-state_skcs :
    (points : List (ℤ × List ActivityStockPoint)) (old : List (ℤ × SkcActivityState)) (k : ℤ)
    → contains (state_skcs points old) k
      ≡ contains (keys points) k || contains (keys (keep has_activity old)) k
unfolding state_skcs
contains-state_skcs points old k = contains-append (keys points) _ k

abbrev pub points_of : ActivityObserver → Snapshot → List (ℤ × List ActivityStockPoint)
points_of o snapshot =
    (tally_all o.previous_remaining snapshot.completed_at snapshot.enrollments).points_by_skc

-- Every SKC that the snapshot lists gets the state that the tracker resolves from its points and
-- its previous state; so does every SKC that is remembered with a current activity, also when the
-- snapshot lists it no more.
pub observe_tracks :
    (o : ActivityObserver) (snapshot : Snapshot) (k : ℤ)
    → (entries k (points_of o snapshot) ≢ [])
      ⊎ ((s : SkcActivityState) × (lookup k o.states ≡ some s)
          × (str_eq s.reason "no_current_activity" ≡ false))
    → lookup k (observe o snapshot).0.states
      ≡ some (
          resolve_skc_activity_state snapshot.completed_at k
            (entries k (points_of o snapshot))
            (lookup k o.states))
unfolding observe
observe_tracks o snapshot k listed =
    lookup-resolve_states snapshot.completed_at (points_of o snapshot) o.states k ∙ rw tracked
  where
    tracked : contains (state_skcs (points_of o snapshot) o.states) k ≡ true
    tracked = elim listed [
      | inl h ↦ ground (
        arith,
        contains-state_skcs (points_of o snapshot) o.states k,
        contains-keys-entries (points_of o snapshot) k h,
      )
      | inr (s, e, r) ↦ ground (
        arith,
        contains-state_skcs (points_of o snapshot) o.states k,
        contains-kept o.states k s e r,
      )
    ]

-- What holds of an observer at time `t`: each state it remembers is well formed and started by then.
abbrev pub IsTracked : Time → ActivityObserver → Type 0
IsTracked t o =
    (k : ℤ) (s : SkcActivityState)
    → lookup k o.states ≡ some s
    → IsWellFormed s × (lt_ℤ t s.state_started_at ≡ false)

history :
    (t now : Time) (o : ActivityObserver) (k : ℤ)
    → IsTracked t o
    → lt_ℤ now t ≡ false
    → IsHistory now (lookup k o.states)
history t now o k h later = elim (Option-cases (lookup k o.states)) [
  | inl e ↦ rw e tt
  | inr (s, e) ↦ rw e ((h k s e).0, le_trans_ℤ s.state_started_at t now (h k s e).1 later)
]

observe-IsTracked :
    (t : Time) (o : ActivityObserver) (snapshot : Snapshot)
    → IsTracked t o
    → lt_ℤ snapshot.completed_at t ≡ false
    → IsTracked snapshot.completed_at (observe o snapshot).0
unfolding observe
observe-IsTracked t o snapshot h later k s e =
    let now = snapshot.completed_at in
    let points = points_of o snapshot in
    let w =
      resolve-IsWellFormed now k (entries k points) (lookup k o.states)
        (history t now o k h later) in
    let found : some (next_state now points o.states k) ≡ some s =
      ground (arith, lookup-resolve_states now points o.states k, e) in
    let same : next_state now points o.states k ≡ s = ground arith in
    let started =
      subst (λ c. lt_ℤ c (next_state now points o.states k).state_started_at ≡ false)
        (captured_at-resolve now k (entries k points) (lookup k o.states)) w.started_before in
    (subst IsWellFormed same w, subst (λ r. lt_ℤ now r.state_started_at ≡ false) same started)

-- The observers that a run of the process reaches, with the time of their last snapshot: each
-- snapshot is observed once, and no snapshot is older than the one before it.
pub data Reached : Time → ActivityObserver → Type 0 where
  started : (t : Time) → Reached t new_activity_observer
  observed :
      {t : Time} {o : ActivityObserver}
      → Reached t o
      → (snapshot : Snapshot) → lt_ℤ snapshot.completed_at t ≡ false
      → Reached snapshot.completed_at (observe o snapshot).0

Reached-IsTracked : {t : Time} {o : ActivityObserver} → Reached t o → IsTracked t o
unfolding new_activity_observer lookup
Reached-IsTracked (started t) = λ k s e. cc
Reached-IsTracked (observed {t} {o} r snapshot later) =
    observe-IsTracked t o snapshot (Reached-IsTracked r) later

-- After any run in which no snapshot is older than the one before it, every remembered state is well
-- formed and not started after the last snapshot: its
-- candidates and evidence ascend, its evidence lies within its candidates, and it is either
-- confirmed with its activity as the only evidence or a warning that names no activity.
pub Reached-IsWellFormed :
    {t : Time} {o : ActivityObserver} (k : ℤ) (s : SkcActivityState)
    → Reached t o
    → lookup k o.states ≡ some s
    → IsWellFormed s × (lt_ℤ t s.state_started_at ≡ false)
Reached-IsWellFormed k s r e = Reached-IsTracked r k s e
