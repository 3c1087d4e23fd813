-- ===== src/Query/Nearest.antt =====
-- The interval that answers a question about the past.
use pangu_sales_manager.Base.{
  lt_ℤ, lt_ℤ_total, lt_ℤ_trans, lt_ℤ_asym, lt_ℤ_irrefl, eq_ℤ, true, false, List, [], ◌∷◌, Option,
  none, some, Bool-cases, inl, inr, if_rule, keep, All, All-mono, In, here, there, IsOrderTest,
  first_by-IsOrderTest, ◌≡◌, refl, arith, ◌↔◌, ◌-ℤ◌, ap, sym, ◌∙◌, eq_ℤ_iff, ℤ, not, if◌then◌else◌,
  subst, str_eq, eq_iff,
}
use pangu_sales_manager.Marketing.State.{Time, confirmed, warning}
use pangu_sales_manager.Intervals.{IntervalRow}
use pangu_sales_manager.Query.{unmatched_result, with_status, historical_result, found_result}
use pangu_sales_manager.Questions.{
  HistoricalSkuPriceRequest, SkuPriceQueryResult, covers, before_end, distance_of, prefers, rank,
  better, nearest, matched_interval, match_method_of,
}

latest_first-IsOrderTest : IsOrderTest (λ (a b : IntervalRow). lt_ℤ b.start_at a.start_at)
latest_first-IsOrderTest = record {
  asym = λ a b h. lt_ℤ_asym b.start_at a.start_at h;
  le_trans = λ a b c p q. ground (
    arith,
    lt_ℤ_total a.start_at b.start_at,
    lt_ℤ_total b.start_at c.start_at,
    lt_ℤ_trans a.start_at c.start_at b.start_at,
    lt_ℤ_trans b.start_at a.start_at c.start_at,
    lt_ℤ_trans c.start_at b.start_at a.start_at,
    lt_ℤ_trans a.start_at b.start_at c.start_at,
    lt_ℤ_asym a.start_at c.start_at,
    lt_ℤ_irrefl a.start_at,
  );
}

prefers-IsOrderTest : (at : Time) → IsOrderTest (prefers at)
prefers-IsOrderTest at =
    first_by-IsOrderTest (rank at) _
      (first_by-IsOrderTest (distance_of at) _ latest_first-IsOrderTest)

-- The time lies in the interval, whose end does not belong to it and may be missing.
abbrev pub Within : Time → IntervalRow → Type 0
Within at row =
    (lt_ℤ at row.start_at ≡ false) × ((e : Time) → row.end_at ≡ some e → lt_ℤ at e ≡ true)

-- How long before its start, after its end, or, if it is open, after its last update the time is.
pub data Gap (at : Time) (row : IntervalRow) : ℤ → Type 0 where
  starts_later : lt_ℤ at row.start_at ≡ true → Gap at row (row.start_at -ℤ at)
  ended : {e : Time} → lt_ℤ at row.start_at ≡ false → row.end_at ≡ some e → Gap at row (at -ℤ e)
  still_open : lt_ℤ at row.start_at ≡ false → row.end_at ≡ none → Gap at row (at -ℤ row.update_at)

-- The first row comes before the second nowhere: if the time lies in it, it lies in the second too;
-- and where it lies in both or in neither, its gap is no smaller, and with the same gap it starts no
-- later.
pub record IsNotFirst (at : Time) (s r : IntervalRow) : Type 0 where
  pub within : Within at s → Within at r
  pub nearer : (d e : ℤ) → (Within at r → Within at s) → Gap at s d → Gap at r e → lt_ℤ d e ≡ false
  pub later :
      (d : ℤ)
      → (Within at r → Within at s)
      → Gap at s d
      → Gap at r d
      → lt_ℤ r.start_at s.start_at ≡ false

-- What the database returns: nothing only if there is no row; otherwise one of the rows, such that
-- no row comes before it.
abbrev IsFirst : Time → List IntervalRow → Option IntervalRow → Type 0
IsFirst at rows none = rows ≡ []
IsFirst at rows (some r) = In r rows × All (λ s. prefers at s r ≡ false) rows

-- The same, told from the times of the rows.
abbrev pub IsNearest : Time → List IntervalRow → Option IntervalRow → Type 0
IsNearest at rows none = rows ≡ []
IsNearest at rows (some r) = In r rows × All (λ s. IsNotFirst at s r) rows

ends_later :
    (at : Time) (row : IntervalRow) (end_at : Option Time)
    → row.end_at ≡ end_at
    → (before_end at row ≡ true) ↔ ((e : Time) → row.end_at ≡ some e → lt_ℤ at e ≡ true)
ends_later at row none p = (λ h e q. cc, λ h. rw p refl)
ends_later at row (some t) p =
    let b : before_end at row ≡ lt_ℤ at t =
      ap (λ o. elim o [ none ↦ true | some u ↦ lt_ℤ at u ]) p in
    (λ h e q. cc, λ f. b ∙ f t p)

covers-Within : (at : Time) (row : IntervalRow) → (covers at row ≡ true) ↔ Within at row
unfolding covers
covers-Within at row =
    let ends = ends_later at row row.end_at refl in
    (λ h. (ground (arith, h), ends.0 (ground (arith, h))), λ w. ground (arith, w.0, ends.1 w.1))

distance-Gap : (at : Time) (row : IntervalRow) (d : ℤ) → Gap at row d → distance_of at row ≡ d
unfolding distance_of
distance-Gap at row d (starts_later h) = rw h refl
distance-Gap at row d (ended h p) =
    rw h (ap (λ o. at -ℤ (elim o [ none ↦ row.update_at | some t ↦ t ])) p)
distance-Gap at row d (still_open h p) =
    rw h (ap (λ o. at -ℤ (elim o [ none ↦ row.update_at | some t ↦ t ])) p)

ranked :
    (at : Time) (s r : IntervalRow)
    → prefers at s r ≡ false
    → covers at s ≡ true
    → covers at r ≡ true
unfolding lt_ℤ eq_ℤ
ranked at s r h k = ground arith

same_rank :
    (at : Time) (s r : IntervalRow)
    → prefers at s r ≡ false
    → (covers at r ≡ true → covers at s ≡ true)
    → (if not (eq_ℤ (distance_of at s) (distance_of at r))
        then lt_ℤ (distance_of at s) (distance_of at r)
        else lt_ℤ r.start_at s.start_at)
      ≡ false
unfolding lt_ℤ eq_ℤ
same_rank at s r h k = ground (arith, ranked at s r h)

closer :
    (at : Time) (s r : IntervalRow) (d e : ℤ)
    → (if not (eq_ℤ d e) then lt_ℤ d e else lt_ℤ r.start_at s.start_at) ≡ false
    → lt_ℤ d e ≡ false
closer at s r d e h = ground (arith, eq_ℤ_iff d e, lt_ℤ_irrefl e)

starts_last :
    (s r : IntervalRow) (d e : ℤ)
    → d ≡ e
    → (if not (eq_ℤ d e) then lt_ℤ d e else lt_ℤ r.start_at s.start_at) ≡ false
    → lt_ℤ r.start_at s.start_at ≡ false
starts_last s r d e p h = ground (arith, eq_ℤ_iff d e)

-- The keys of the query say what the times say.
prefers-IsNotFirst : (at : Time) (s r : IntervalRow) → prefers at s r ≡ false → IsNotFirst at s r
prefers-IsNotFirst at s r h =
    let keys : (Within at r → Within at s) → _ =
      λ k. same_rank at s r h (λ c. (covers-Within at s).1 (k ((covers-Within at r).0 c))) in
    record {
      within = λ w. (covers-Within at r).0 (ranked at s r h ((covers-Within at s).1 w));
      nearer = λ d e k p q.
          closer at s r d e (rw⁻¹ (distance-Gap at s d p, distance-Gap at r e q) (keys k));
      later = λ d k p q.
          starts_last s r (distance_of at s) (distance_of at r)
            (distance-Gap at s d p ∙ sym (distance-Gap at r d q)) (keys k);
    }

prefers_irrefl : (at : Time) (r : IntervalRow) → prefers at r r ≡ false
prefers_irrefl at r = elim (Bool-cases (prefers at r r)) [
  | inl y ↦ (prefers-IsOrderTest at).asym r r y
  | inr n ↦ n
]

better-IsFirst :
    (at : Time) (r : IntervalRow) (rs : List IntervalRow) (o : Option IntervalRow)
    → IsFirst at rs o
    → IsFirst at (r ∷ rs) (better at r o)
unfolding better
better-IsFirst at r rs none h = (here, (prefers_irrefl at r, rw h tt))
better-IsFirst at r rs (some s) (m, h) =
    if_rule (IsFirst at (r ∷ rs)) (prefers at s r)
      (λ y. (there m, ((prefers-IsOrderTest at).asym s r y, h)))
      (λ n. (
        here,
        (
          prefers_irrefl at r,
          All-mono _ (λ z. prefers at z r ≡ false) rs
              (λ z k. (prefers-IsOrderTest at).le_trans r s z n k) h,
        ),
      ))

nearest-IsFirst : (at : Time) (rows : List IntervalRow) → IsFirst at rows (nearest at rows)
unfolding nearest
nearest-IsFirst at [] = refl
nearest-IsFirst at (r ∷ rs) = better-IsFirst at r rs (nearest at rs) (nearest-IsFirst at rs)

first-IsNearest :
    (at : Time) (rows : List IntervalRow) (o : Option IntervalRow)
    → IsFirst at rows o
    → IsNearest at rows o
first-IsNearest at rows none h = h
first-IsNearest at rows (some r) (m, h) =
    (m, All-mono (λ s. prefers at s r ≡ false) _ rows (λ s k. prefers-IsNotFirst at s r k) h)

-- The interval that a question is matched with is one of the SKU's. If the time lies in an interval
-- of the SKU, it lies in this one. Among the intervals in which it lies, or else among all, none has a
-- smaller gap to the time, and none with the same gap starts later. No interval is found only if the
-- SKU has none.
pub matched_interval-IsNearest :
    (rows : List IntervalRow) (q : HistoricalSkuPriceRequest)
    → IsNearest q.requested_at (keep (λ r. eq_ℤ r.sku_id q.sku_id) rows) (matched_interval rows q)
unfolding matched_interval
matched_interval-IsNearest rows q =
    first-IsNearest q.requested_at (keep (λ r. eq_ℤ r.sku_id q.sku_id) rows) _
      (nearest-IsFirst q.requested_at (keep (λ r. eq_ℤ r.sku_id q.sku_id) rows))

-- The row that was confirmed at the time.
pub record IsExact (at : Time) (o : Option IntervalRow) (s : SkuPriceQueryResult) : Type 0 where
  pub row : IntervalRow
  pub matched : o ≡ some row
  pub covered : covers at row ≡ true
  pub row_confirmed : row.status ≡ confirmed
  pub row_price : s.price ≡ row.price

confirmed_ne_warning : warning ≡ confirmed → ⊥
confirmed_ne_warning h = ground (arith, eq_iff warning confirmed)

exact_covers :
    (at : Time) (row : IntervalRow)
    → str_eq (match_method_of at row) "exact_interval" ≡ true
    → covers at row ≡ true
unfolding match_method_of
exact_covers at row =
    if_rule (λ m. str_eq m "exact_interval" ≡ true → covers at row ≡ true) (covers at row)
      (λ y _. y)
      (λ _.
        if_rule (λ m. str_eq m "exact_interval" ≡ true → covers at row ≡ true)
          (lt_ℤ at row.start_at) (λ _ e. absurd (ground arith)) (λ _ e. absurd (ground arith)))

with_status-IsExact :
    (at : Time) (row : IntervalRow) (result : SkuPriceQueryResult)
    → result.match_method ≡ match_method_of at row
    → result.price ≡ row.price
    → (with_status at row result).status ≡ confirmed
    → IsExact at (some row) (with_status at row result)
unfolding with_status
with_status-IsExact at row result m p =
    if_rule (λ (s : SkuPriceQueryResult). s.status ≡ confirmed → IsExact at (some row) s)
      (str_eq result.match_method "exact_interval")
      (λ y e. record {
        row = row;
        matched = refl;
        covered = exact_covers at row (subst (λ t. str_eq t "exact_interval" ≡ true) m y);
        row_confirmed = e;
        row_price = p;
      })
      (λ n e. absurd (confirmed_ne_warning e))

-- An answer about the past is confirmed only if an interval covers the time and was confirmed
-- itself; the price is the interval's.
pub historical_result-IsExact :
    (q : HistoricalSkuPriceRequest) (o : Option IntervalRow)
    → (historical_result q o).status ≡ confirmed
    → IsExact q.requested_at o (historical_result q o)
unfolding historical_result unmatched_result found_result
historical_result-IsExact q none h = absurd (confirmed_ne_warning h)
historical_result-IsExact q (some row) h =
    with_status-IsExact q.requested_at row (found_result q row) refl refl h
