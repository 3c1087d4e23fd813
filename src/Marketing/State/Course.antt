-- ===== src/Marketing/State/Course.antt =====
-- A confirmed SKC over a course of snapshots.
use pangu_sales_manager.Base.{
  ℤ, eq_iff, eq_ℤ_iff, true, List, Option, some, ◌≡◌, refl, sym, ◌∙◌, subst, arith,
}
use pangu_sales_manager.Marketing.State.{
  Time, confirmed, ActivityStockPoint, SkcActivityState, resolve_skc_activity_state,
}
use pangu_sales_manager.Marketing.State.Evidence.{is_candidate, has_sold_now}
use pangu_sales_manager.Marketing.State.Branches.{
  IsNone, IsOnly, start_of, resolve_unique, resolve_carries,
}

module _ (skc_id e : ℤ) (p : SkcActivityState) where
  -- The states that follow `p` while each snapshot shows either no sale, with the activity still a
  -- candidate, or sales of the activity only; and the time of the last evidence.
  pub data Follows : Option Time → SkcActivityState → Type 0 where
    at_first : Follows p.last_evidence_at p
    silent :
        {t : Option Time} {s : SkcActivityState}
        → Follows t s
        → (now : Time) (points : List ActivityStockPoint) → IsNone (has_sold_now points)
        → is_candidate points e ≡ true
        → Follows t (resolve_skc_activity_state now skc_id points (some s))
    sells :
        {t : Option Time} {s : SkcActivityState}
        → Follows t s
        → (now : Time) (points : List ActivityStockPoint) → IsOnly (has_sold_now points) e
        → Follows (some now) (resolve_skc_activity_state now skc_id points (some s))

  -- The state is confirmed under the activity since the start of `p`, with evidence of this time.
  pub record IsSame (t : Option Time) (s : SkcActivityState) : Type 0 where
    pub is_confirmed : s.status ≡ confirmed
    pub under : s.active_enroll_id ≡ e
    pub since : s.state_started_at ≡ p.state_started_at
    pub last_sale : s.last_evidence_at ≡ t

  silent-IsSame :
      (t : Option Time) (s : SkcActivityState) (now : Time) (points : List ActivityStockPoint)
      → IsNone (has_sold_now points)
      → is_candidate points e ≡ true
      → IsSame t s
      → IsSame t (resolve_skc_activity_state now skc_id points (some s))
  silent-IsSame t s now points n c h =
      let r =
        resolve_carries now skc_id points s n h.is_confirmed
          (subst (λ a. is_candidate points a ≡ true) (sym h.under) c) in
      record {
        is_confirmed = r.0;
        under = r.1 ∙ h.under;
        since = r.2 ∙ h.since;
        last_sale = r.4 ∙ h.last_sale;
      }

  started_before :
      (t : Option Time) (s : SkcActivityState) (now : Time)
      → IsSame t s
      → start_of now e (some s) ≡ s.state_started_at
  started_before t s now h =
      ground
        (arith, eq_iff s.status confirmed, eq_ℤ_iff s.active_enroll_id e, h.is_confirmed, h.under)

  sold-IsSame :
      (t : Option Time) (s : SkcActivityState) (now : Time) (points : List ActivityStockPoint)
      → IsOnly (has_sold_now points) e
      → IsSame t s
      → IsSame (some now) (resolve_skc_activity_state now skc_id points (some s))
  sold-IsSame t s now points o h =
      let r = resolve_unique now skc_id points (some s) e o in
      record {
        is_confirmed = r.0;
        under = r.1;
        since = r.5 ∙ started_before t s now h ∙ h.since;
        last_sale = r.3;
      }

  -- From a state that is confirmed under an activity: however many snapshots follow in which nothing
  -- sells while the activity is a candidate, or in which it alone sells, in any order, the SKC stays
  -- confirmed under it since the same start, and the time of the evidence is that of the last sale.
  pub Follows-IsSame :
      p.status ≡ confirmed
      → p.active_enroll_id ≡ e
      → {t : Option Time} {s : SkcActivityState} → Follows t s
      → IsSame t s
  Follows-IsSame c a at_first = record {
    is_confirmed = c;
    under = a;
    since = refl;
    last_sale = refl;
  }
  Follows-IsSame c a (silent {t} {s} f now points n k) =
      silent-IsSame t s now points n k (Follows-IsSame c a f)
  Follows-IsSame c a (sells {t} {s} f now points o) =
      sold-IsSame t s now points o (Follows-IsSame c a f)
