-- ===== src/Marketing/Observer/Points.antt =====
-- What the loop of `observe` gathers for each SKC and each SKU, as a comprehension over the
-- snapshot.
use pangu_sales_manager.Base.{
  ℤ, eq_ℤ, eq_ℤ_iff, List, [], ◌∷◌, ◌++◌, if◌then◌else◌, fold, flat_map, lookup, insert,
  lookup-insert, int_eq, ◌≡◌, arith, ◌∙◌, ap, sym, append_assoc, append-nil,
}
use pangu_sales_manager.Temu.{MarketingEnrollment, MarketingEnrollmentSkc}
use pangu_sales_manager.Marketing.State.{Time, ActivityStockPoint}
use pangu_sales_manager.Marketing.Observer.{
  Tally, empty_tally, entries, append_entry, stock_point, observed_stock, tally_skc,
  tally_enrollment, tally_all,
}
use pangu_sales_manager.Marketing.Observation.{EnrollmentObservationKey}

pub entries-insert {ℓ} :
    {A : Type ℓ} (k j : ℤ) (xs : List A) (m : List (ℤ × List A))
    → entries j (insert k xs m) ≡ (if eq_ℤ k j then xs else entries j m)
unfolding entries
entries-insert k j xs m = rw (lookup-insert k j xs m, entries) (ground arith)

entries-append_entry {ℓ} :
    {A : Type ℓ} (k j : ℤ) (x : A) (m : List (ℤ × List A))
    → entries j (append_entry k x m) ≡ entries j m ++ (if eq_ℤ k j then x ∷ [] else [])
unfolding append_entry
entries-append_entry k j x m =
    entries-insert k j (entries k m ++ x ∷ []) m
    ∙ ground (arith, eq_ℤ_iff k j, append-nil (entries j m))

module _ (previous_remaining : List (EnrollmentObservationKey × ℤ)) (now : Time) where
  -- The stock points of one SKC in one enrolment.
  abbrev pub points_in :
      ℤ → MarketingEnrollment → List MarketingEnrollmentSkc → List ActivityStockPoint
  points_in k enrollment [] = []
  points_in k enrollment (skc ∷ skcs) =
      (if eq_ℤ skc.skc_id k
        then stock_point (observed_stock previous_remaining now enrollment skc) ∷ []
        else [])
      ++ points_in k enrollment skcs

  tally_skc-points :
      (k : ℤ) (enrollment : MarketingEnrollment) (skcs : List MarketingEnrollmentSkc) (t : Tally)
      → entries k (fold (tally_skc previous_remaining now enrollment) t skcs).points_by_skc
        ≡ entries k t.points_by_skc ++ points_in k enrollment skcs
  unfolding tally_skc
  tally_skc-points k enrollment [] t = sym (append-nil _)
  tally_skc-points k enrollment (skc ∷ skcs) t =
      tally_skc-points k enrollment skcs (tally_skc previous_remaining now enrollment t skc)
      ∙ ap (λ l. l ++ points_in k enrollment skcs)
          (entries-append_entry skc.skc_id k _ t.points_by_skc)
      ∙ append_assoc (entries k t.points_by_skc) _ _

  tally_enrollment-points :
      (k : ℤ) (enrollments : List MarketingEnrollment) (t : Tally)
      → entries k (fold (tally_enrollment previous_remaining now) t enrollments).points_by_skc
        ≡ entries k t.points_by_skc ++ flat_map (λ e. points_in k e e.skc_list) enrollments
  unfolding tally_enrollment
  tally_enrollment-points k [] t = sym (append-nil _)
  tally_enrollment-points k (e ∷ es) t =
      tally_enrollment-points k es (tally_enrollment previous_remaining now t e)
      ∙ ap (λ l. l ++ flat_map (λ e. points_in k e e.skc_list) es)
          (tally_skc-points k e e.skc_list t)
      ∙ append_assoc (entries k t.points_by_skc) _ _

  -- The stock points of an SKC are those of its listings in the snapshot, in their order, each with
  -- the stock compared to the previous snapshot.
  pub tally_all-points :
      (k : ℤ) (enrollments : List MarketingEnrollment)
      → entries k (tally_all previous_remaining now enrollments).points_by_skc
        ≡ flat_map (λ e. points_in k e e.skc_list) enrollments
  unfolding tally_all entries lookup
  tally_all-points k enrollments = tally_enrollment-points k enrollments empty_tally
