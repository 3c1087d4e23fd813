-- ===== src/Marketing/State/Branches.antt =====
-- What `resolve_skc_activity_state` decides on each kind of interval, told from the stock points.
use pangu_sales_manager.Base.{
  ℤ, pos, eq_ℤ, eq_ℤ_iff, eq_ℤ_refl, str_eq, eq_iff, Bool, true, false, ◌&&◌, ◌||◌, List, [], ◌∷◌,
  Option, none, some, if◌then◌else◌, ◌≡◌, ◌≢◌, refl, arith, ap, ◌∙◌, sym, Bool-ext,
}
use pangu_sales_manager.Marketing.Ids.{contains}
use pangu_sales_manager.Marketing.Ids.Laws.{IsAscending, IsAscending-ext}
use pangu_sales_manager.Marketing.State.Evidence.{
  is_candidate, has_sold_now, has_ever_sold, contains-unique_enroll_ids, contains-consuming_ids,
  consuming_ids-IsAscending, consuming_ids-ext, positive_ids-ext, unique_enroll_ids-ext,
}
use pangu_sales_manager.Marketing.State.{
  Time, confirmed, warning, ActivityStockPoint, SkcActivityState, unique_enroll_ids, consuming_ids,
  positive_ids, fresh_state, initial_by, resolve_initial_state, unique_consumption,
  multiple_consumption, carry_active, still_active, no_consumption, by_consumption,
  resolve_skc_activity_state,
}

-- `e` alone passes the test.
abbrev pub IsOnly : (ℤ → Bool) → ℤ → Type 0
IsOnly g e = (g e ≡ true) × ((f : ℤ) → g f ≡ true → f ≡ e)

abbrev pub IsNone : (ℤ → Bool) → Type 0
IsNone g = (f : ℤ) → g f ≡ false

pub singleton_of_only :
    (ids : List ℤ) (g : ℤ → Bool) (e : ℤ)
    → IsAscending ids
    → ((a : ℤ) → contains ids a ≡ g a)
    → IsOnly g e
    → ids ≡ e ∷ []
unfolding contains
singleton_of_only ids g e s h o =
    IsAscending-ext ids (e ∷ []) s (tt, tt)
      λ a.
        h a
        ∙ Bool-ext (g a) (eq_ℤ e a || false) (λ q. ground (arith, eq_ℤ_iff e a, o.1 a))
            (λ q. ground (arith, eq_ℤ_iff e a, o.0))

pub IsOnly-of_singleton :
    (g : ℤ → Bool) (e : ℤ) → ((a : ℤ) → contains (e ∷ []) a ≡ g a) → IsOnly g e
unfolding contains
IsOnly-of_singleton g e h =
    (sym (h e) ∙ ground (arith, eq_ℤ_refl e), λ f q. ground (arith, h f, eq_ℤ_iff e f))

pub nil_of_none :
    (ids : List ℤ) (g : ℤ → Bool) → ((a : ℤ) → contains ids a ≡ g a) → IsNone g → ids ≡ []
unfolding contains
nil_of_none [] g h n = refl
nil_of_none (x ∷ xs) g h n = ground (arith, h x, n x, eq_ℤ_refl x)

-- With a candidate the decision goes by the ids that sold.
resolve_by :
    (now : Time) (skc_id : ℤ) (points : List ActivityStockPoint)
    (previous : Option SkcActivityState) (ids : List ℤ)
    → points ≢ []
    → consuming_ids points ≡ ids
    → resolve_skc_activity_state now skc_id points previous
      ≡ by_consumption (fresh_state now skc_id points) points ids previous
unfolding resolve_skc_activity_state
resolve_by now skc_id [] previous ids h e = absurd (h refl)
resolve_by now skc_id (q ∷ qs) previous ids h e = rw e

pub nonempty :
    (points : List ActivityStockPoint) (e : ℤ) → is_candidate points e ≡ true → points ≢ []
nonempty [] e h = λ q. cc
nonempty (q ∷ qs) e h = λ r. cc

pub nonempty_sold :
    (points : List ActivityStockPoint) (e : ℤ) → has_sold_now points e ≡ true → points ≢ []
nonempty_sold [] e h = λ q. cc
nonempty_sold (q ∷ qs) e h = λ r. cc

-- The start of a state confirmed at `e`: the previous one, if that was confirmed at `e` too.
abbrev pub start_of : Time → ℤ → Option SkcActivityState → Time
start_of now e none = now
start_of now e (some p) =
    if str_eq p.status confirmed && eq_ℤ p.active_enroll_id e then p.state_started_at else now

abbrev pub active_of : Option SkcActivityState → ℤ
active_of none = pos 0
active_of (some p) = p.active_enroll_id

-- If exactly one activity sold in the interval, the SKC is confirmed under it, whatever the
-- previous state was: the activity is the evidence, the evidence is of now, nothing is carried
-- forward, and the state's start is kept exactly if it was confirmed under the same activity.
pub resolve_unique :
    (now : Time) (skc_id : ℤ) (points : List ActivityStockPoint)
    (previous : Option SkcActivityState) (e : ℤ)
    → IsOnly (has_sold_now points) e
    → let s = resolve_skc_activity_state now skc_id points previous in
      (s.status ≡ confirmed)
      × (s.active_enroll_id ≡ e)
      × (s.evidence_enroll_ids ≡ e ∷ [])
      × (s.last_evidence_at ≡ some now)
      × (s.carried_forward ≡ false)
      × (s.state_started_at ≡ start_of now e previous)
      × (s.previous_active_enroll_id ≡ active_of previous)
unfolding by_consumption unique_consumption fresh_state
resolve_unique now skc_id points none e o =
    rw
      (resolve_by now skc_id points none (e ∷ []) (nonempty_sold points e o.0) (
        singleton_of_only _ _ e (consuming_ids-IsAscending points) (contains-consuming_ids points)
          o))
      (refl, refl, refl, refl, refl, refl, refl)
resolve_unique now skc_id points (some p) e o =
    rw
      (resolve_by now skc_id points (some p) (e ∷ []) (nonempty_sold points e o.0) (
        singleton_of_only _ _ e (consuming_ids-IsAscending points) (contains-consuming_ids points)
          o))
      (refl, refl, refl, refl, refl, refl, refl)

conflict_of_two :
    (now : Time) (skc_id : ℤ) (points : List ActivityStockPoint)
    (previous : Option SkcActivityState) (ids : List ℤ) (e f : ℤ)
    → consuming_ids points ≡ ids
    → points ≢ []
    → contains ids e ≡ true
    → contains ids f ≡ true
    → e ≢ f
    → let s = resolve_skc_activity_state now skc_id points previous in
      (s.status ≡ warning)
      × (s.active_enroll_id ≡ pos 0)
      × (s.reason ≡ "interval_multiple_consumption")
      × (s.state_started_at ≡ now)
      × (s.evidence_enroll_ids ≡ ids)
unfolding by_consumption multiple_consumption fresh_state contains
conflict_of_two now skc_id points previous [] e f q n he hf d = cc
conflict_of_two now skc_id points previous (x ∷ []) e f q n he hf d =
    absurd (d (ground (arith, eq_ℤ_iff x e, eq_ℤ_iff x f)))
conflict_of_two now skc_id points none (x ∷ y ∷ zs) e f q n he hf d =
    rw (resolve_by now skc_id points none (x ∷ y ∷ zs) n q) (refl, refl, refl, refl, refl)
conflict_of_two now skc_id points (some p) (x ∷ y ∷ zs) e f q n he hf d =
    rw (resolve_by now skc_id points (some p) (x ∷ y ∷ zs) n q) (refl, refl, refl, refl, refl)

-- If two different activities sold in the interval, the SKC is warned about from now on, no
-- activity is named, and the evidence is exactly the set of the activities that sold.
pub resolve_conflict :
    (now : Time) (skc_id : ℤ) (points : List ActivityStockPoint)
    (previous : Option SkcActivityState) (e f : ℤ)
    → has_sold_now points e ≡ true
    → has_sold_now points f ≡ true
    → e ≢ f
    → let s = resolve_skc_activity_state now skc_id points previous in
      (s.status ≡ warning)
      × (s.active_enroll_id ≡ pos 0)
      × (s.state_started_at ≡ now)
      × ((a : ℤ) → contains s.evidence_enroll_ids a ≡ has_sold_now points a)
resolve_conflict now skc_id points previous e f he hf d =
    let c =
      conflict_of_two now skc_id points previous (consuming_ids points) e f refl
        (nonempty_sold points e he) (contains-consuming_ids points e ∙ he)
        (contains-consuming_ids points f ∙ hf) d in
    (c.0, c.1, c.3, λ a. ap (λ l. contains l a) c.4 ∙ contains-consuming_ids points a)

-- If nothing sold in the interval and the SKC was confirmed under an activity that is still a
-- candidate, it stays confirmed under it, with the old start, evidence and evidence time, and is
-- marked as carried forward.
pub resolve_carries :
    (now : Time) (skc_id : ℤ) (points : List ActivityStockPoint) (p : SkcActivityState)
    → IsNone (has_sold_now points)
    → p.status ≡ confirmed
    → is_candidate points p.active_enroll_id ≡ true
    → let s = resolve_skc_activity_state now skc_id points (some p) in
      (s.status ≡ confirmed)
      × (s.active_enroll_id ≡ p.active_enroll_id)
      × (s.state_started_at ≡ p.state_started_at)
      × (s.evidence_enroll_ids ≡ p.evidence_enroll_ids)
      × (s.last_evidence_at ≡ p.last_evidence_at)
      × (s.carried_forward ≡ true)
unfolding by_consumption no_consumption still_active carry_active fresh_state
resolve_carries now skc_id points p n st c =
    rw
      (
        resolve_by now skc_id points (some p) [] (nonempty points p.active_enroll_id c)
            (nil_of_none _ _ (contains-consuming_ids points) n),
        (eq_iff p.status confirmed).1 st,
        contains-unique_enroll_ids points p.active_enroll_id,
        c,
      )
      (refl, refl, refl, refl, refl, refl)

initial-ext :
    (s : SkcActivityState) (ps qs : List ActivityStockPoint)
    → positive_ids ps ≡ positive_ids qs
    → resolve_initial_state s ps ≡ resolve_initial_state s qs
unfolding resolve_initial_state
initial-ext s ps qs e = ap (initial_by s) e

by_consumption-ext :
    (s : SkcActivityState) (ps qs : List ActivityStockPoint) (ids : List ℤ)
    (previous : Option SkcActivityState)
    → positive_ids ps ≡ positive_ids qs
    → by_consumption s ps ids previous ≡ by_consumption s qs ids previous
unfolding by_consumption no_consumption
by_consumption-ext s ps qs [] none e = initial-ext s ps qs e
by_consumption-ext s ps qs [] (some p) e =
    rw (initial-ext (record s { previous_active_enroll_id = p.active_enroll_id }) ps qs e)
by_consumption-ext s ps qs (x ∷ []) previous e = refl
by_consumption-ext s ps qs (x ∷ y ∷ zs) previous e = refl

fresh_state-ext :
    (now : Time) (skc_id : ℤ) (ps qs : List ActivityStockPoint)
    → unique_enroll_ids ps ≡ unique_enroll_ids qs
    → fresh_state now skc_id ps ≡ fresh_state now skc_id qs
unfolding fresh_state
fresh_state-ext now skc_id ps qs e = rw e

-- The decision depends on the points as a set only: two lists of points that show the same
-- candidates, the same activities selling now and the same ones ever sold give the same state.
pub resolve-ext :
    (now : Time) (skc_id : ℤ) (ps qs : List ActivityStockPoint) (previous : Option SkcActivityState)
    → ((e : ℤ) → is_candidate ps e ≡ is_candidate qs e)
    → ((e : ℤ) → has_sold_now ps e ≡ has_sold_now qs e)
    → ((e : ℤ) → has_ever_sold ps e ≡ has_ever_sold qs e)
    → resolve_skc_activity_state now skc_id ps previous
      ≡ resolve_skc_activity_state now skc_id qs previous
unfolding resolve_skc_activity_state
resolve-ext now skc_id [] [] previous c n k = refl
resolve-ext now skc_id [] (q ∷ qs) previous c n k =
    ground (arith, c q.enroll_id, eq_ℤ_refl q.enroll_id)
resolve-ext now skc_id (p ∷ ps) [] previous c n k =
    ground (arith, c p.enroll_id, eq_ℤ_refl p.enroll_id)
resolve-ext now skc_id (p ∷ ps) (q ∷ qs) previous c n k =
    rw
      (
        fresh_state-ext now skc_id (p ∷ ps) (q ∷ qs) (unique_enroll_ids-ext (p ∷ ps) (q ∷ qs) c),
        consuming_ids-ext (p ∷ ps) (q ∷ qs) n,
      )
      (by_consumption-ext (fresh_state now skc_id (q ∷ qs)) (p ∷ ps) (q ∷ qs)
        (consuming_ids (q ∷ qs)) previous (positive_ids-ext (p ∷ ps) (q ∷ qs) k))
