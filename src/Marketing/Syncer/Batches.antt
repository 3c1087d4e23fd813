-- ===== src/Marketing/Syncer/Batches.antt =====
-- The batches of ids, and the ids that are asked for.
use pangu_sales_manager.Base.{
  ℕ, zero, suc, ◌≤◌, ◌<◌, ℤ, pos, eq_ℤ, eq_ℤ_iff, is_zero, true, false, not, List, [], ◌∷◌, ◌++◌,
  length, take, drop, take-append-drop, length-take, length-drop, All, In, here, there, In-map,
  In-keep, In-flat_map, any, All-keep, All-flat_map, All-mono, if_rule, flat_map, keep, map, ◌≡◌,
  refl, ap, ◌∙◌, arith,
}
use pangu_sales_manager.Temu.{MarketingEnrollment, MarketingEnrollmentSkc}
use pangu_sales_manager.Marketing.Ids.{contains}
use pangu_sales_manager.Marketing.Ids.Laws.{
  IsAscending, contains-unique_sorted, unique_sorted-IsAscending,
}
use pangu_sales_manager.Marketing.Syncer.{
  is_current, current_skcs, current_skc_ids, batches_loop, batches,
}

-- All batches in a row.
abbrev pub joined : List (List ℤ) → List ℤ
joined bs = flat_map (λ b. b) bs

-- A batch that may be sent: not empty, and not above the size.
abbrev pub Fits : ℕ → List ℤ → Type 0
Fits size batch = (0 < length batch) × (length batch ≤ size)

-- The rest is shorter, since the size is positive.
rest_shorter :
    (size fuel : ℕ) (v : ℤ) (values : List ℤ)
    → 0 < size
    → length (v ∷ values) ≤ suc fuel
    → length (drop size (v ∷ values)) ≤ fuel
rest_shorter size fuel v values s h = omega (arith, length-drop size (v ∷ values))

joined-batches_loop :
    (size fuel : ℕ) (values : List ℤ)
    → 0 < size
    → length values ≤ fuel
    → joined (batches_loop size fuel values) ≡ values
unfolding batches_loop
joined-batches_loop size fuel [] s h = refl
joined-batches_loop size zero (v ∷ values) s h = absurd (omega arith)
joined-batches_loop size (suc fuel) (v ∷ values) s h =
    ap (λ r. take size (v ∷ values) ++ r)
      (joined-batches_loop size fuel (drop size (v ∷ values)) s
        (rest_shorter size fuel v values s h))
    ∙ take-append-drop size (v ∷ values)

batches_loop-Fits :
    (size fuel : ℕ) (values : List ℤ) → 0 < size → All (Fits size) (batches_loop size fuel values)
unfolding batches_loop
batches_loop-Fits size fuel [] s = tt
batches_loop-Fits size zero (v ∷ values) s = tt
batches_loop-Fits size (suc fuel) (v ∷ values) s = (
  (omega (arith, length-take size (v ∷ values)), omega (arith, length-take size (v ∷ values))),
  batches_loop-Fits size fuel (drop size (v ∷ values)) s,
)

-- For a positive size the batches in a row are the values, and each batch has at least one value
-- and at most `size` of them.
pub joined-batches :
    (values : List ℤ) (size : ℕ)
    → 0 < size
    → (joined (batches values size) ≡ values) × All (Fits size) (batches values size)
unfolding batches
joined-batches values size s = (
  joined-batches_loop size (length values) values s (omega arith),
  batches_loop-Fits size (length values) values s,
)

contains-In : (a : ℤ) (xs : List ℤ) → In a xs → contains xs a ≡ true
unfolding contains
contains-In a [] m = elim m [ ]
contains-In a (x ∷ xs) here = ground (arith, eq_ℤ_iff x x)
contains-In a (x ∷ xs) (there m) = ground (arith, contains-In a xs m)

contains-zero : (xs : List ℤ) → All (λ a. is_zero a ≡ false) xs → contains xs (pos 0) ≡ false
unfolding contains
contains-zero [] h = refl
contains-zero (x ∷ xs) (z, h) = ground (arith, contains-zero xs h, z)

current_skcs-nonzero : (e : MarketingEnrollment) → All (λ a. is_zero a ≡ false) (current_skcs e)
unfolding current_skcs
current_skcs-nonzero e =
    if_rule (All (λ a. is_zero a ≡ false))
      (any (λ s. eq_ℤ s.session_status (pos 2)) e.assigned_sessions)
      (λ _.
        let ids = map (λ k. k.skc_id) e.skc_list in
        All-mono (λ a. not (is_zero a) ≡ true) _ (keep (λ id. not (is_zero id)) ids)
          (λ a h. ground arith) (All-keep (λ id. not (is_zero id)) ids))
      (λ _. tt)

current_skcs-In :
    (e : MarketingEnrollment) (k : MarketingEnrollmentSkc)
    → any is_current e.assigned_sessions ≡ true
    → In k e.skc_list
    → is_zero k.skc_id ≡ false
    → In k.skc_id (current_skcs e)
unfolding current_skcs
current_skcs-In e k h m z =
    if_rule (In k.skc_id) (any is_current e.assigned_sessions)
      (λ _. In-keep (λ id. not (is_zero id)) (In-map (λ s. s.skc_id) m) (ap not z))
      (λ q. absurd (ground arith))

-- The ids asked for are in ascending order, each once, and none is 0.
pub current_skc_ids-IsAscending :
    (enrollments : List MarketingEnrollment)
    → IsAscending (current_skc_ids enrollments)
      × (contains (current_skc_ids enrollments) (pos 0) ≡ false)
unfolding current_skc_ids
current_skc_ids-IsAscending enrollments = (
  unique_sorted-IsAscending (flat_map current_skcs enrollments),
  contains-unique_sorted (flat_map current_skcs enrollments) (pos 0)
      ∙ contains-zero _ (
          All-flat_map (λ a. is_zero a ≡ false) current_skcs enrollments
            (λ e _. current_skcs-nonzero e)),
)

-- Every SKC of an enrolment with a current session is asked for, if its id is not 0.
pub contains-current_skc_ids :
    (enrollments : List MarketingEnrollment) (e : MarketingEnrollment) (k : MarketingEnrollmentSkc)
    → In e enrollments
    → any is_current e.assigned_sessions ≡ true
    → In k e.skc_list
    → is_zero k.skc_id ≡ false
    → contains (current_skc_ids enrollments) k.skc_id ≡ true
unfolding current_skc_ids
contains-current_skc_ids enrollments e k m h n z =
    contains-unique_sorted (flat_map current_skcs enrollments) k.skc_id
    ∙ contains-In k.skc_id (flat_map current_skcs enrollments)
        (In-flat_map current_skcs m (current_skcs-In e k h n z))
