-- ===== src/Marketing/State/Evidence.antt =====
-- The id lists that `resolve_skc_activity_state` decides by, described point by point.
use pangu_sales_manager.Base.{
  ℤ, eq_ℤ, positive, Bool, true, ◌&&◌, List, [], ◌∷◌, keep, map, any, ◌≡◌, refl, ◌∙◌, arith, sym,
}
use pangu_sales_manager.Marketing.Ids.{contains}
use pangu_sales_manager.Marketing.Ids.Laws.{
  contains-unique_sorted, unique_sorted-IsAscending, IsAscending, IsAscending-ext, Subset,
}
use pangu_sales_manager.Marketing.State.{
  ActivityStockPoint, unique_enroll_ids, consuming_ids, positive_ids,
}

-- Some point of the enrolment `e` passes the test.
abbrev pub shows : (ActivityStockPoint → Bool) → List ActivityStockPoint → ℤ → Bool
shows p points e = any (λ q. eq_ℤ q.enroll_id e && p q) points

abbrev pub is_candidate : List ActivityStockPoint → ℤ → Bool
is_candidate = shows (λ q. true)

abbrev pub has_sold_now : List ActivityStockPoint → ℤ → Bool
has_sold_now = shows (λ q. positive q.interval_consumed)

abbrev pub has_ever_sold : List ActivityStockPoint → ℤ → Bool
has_ever_sold = shows (λ q. positive q.cumulative_consumed)

contains-shows :
    (p : ActivityStockPoint → Bool) (points : List ActivityStockPoint) (e : ℤ)
    → contains (map (λ q. q.enroll_id) (keep p points)) e ≡ shows p points e
unfolding contains
contains-shows p [] e = refl
contains-shows p (q ∷ qs) e = ground (arith, contains-shows p qs e)

contains-enroll_ids :
    (points : List ActivityStockPoint) (e : ℤ)
    → contains (map (λ q. q.enroll_id) points) e ≡ is_candidate points e
unfolding contains
contains-enroll_ids [] e = refl
contains-enroll_ids (q ∷ qs) e = ground (arith, contains-enroll_ids qs e)

pub contains-unique_enroll_ids :
    (points : List ActivityStockPoint) (e : ℤ)
    → contains (unique_enroll_ids points) e ≡ is_candidate points e
unfolding unique_enroll_ids
contains-unique_enroll_ids points e = contains-unique_sorted _ e ∙ contains-enroll_ids points e

shows_candidate :
    (p : ActivityStockPoint → Bool) (points : List ActivityStockPoint) (e : ℤ)
    → shows p points e ≡ true
    → is_candidate points e ≡ true
shows_candidate p [] e h = h
shows_candidate p (q ∷ qs) e h = ground (arith, shows_candidate p qs e)

pub contains-consuming_ids :
    (points : List ActivityStockPoint) (e : ℤ)
    → contains (consuming_ids points) e ≡ has_sold_now points e
unfolding consuming_ids
contains-consuming_ids points e =
    contains-unique_sorted _ e ∙ contains-shows (λ q. positive q.interval_consumed) points e

pub contains-positive_ids :
    (points : List ActivityStockPoint) (e : ℤ)
    → contains (positive_ids points) e ≡ has_ever_sold points e
unfolding positive_ids
contains-positive_ids points e =
    contains-unique_sorted _ e ∙ contains-shows (λ q. positive q.cumulative_consumed) points e

pub consuming_ids-Subset :
    (points : List ActivityStockPoint) → Subset (consuming_ids points) (unique_enroll_ids points)
consuming_ids-Subset points e h =
    contains-unique_enroll_ids points e
    ∙ shows_candidate _ points e (sym (contains-consuming_ids points e) ∙ h)

pub positive_ids-Subset :
    (points : List ActivityStockPoint) → Subset (positive_ids points) (unique_enroll_ids points)
positive_ids-Subset points e h =
    contains-unique_enroll_ids points e
    ∙ shows_candidate _ points e (sym (contains-positive_ids points e) ∙ h)

pub consuming_ids-IsAscending :
    (points : List ActivityStockPoint) → IsAscending (consuming_ids points)
unfolding consuming_ids
consuming_ids-IsAscending points = unique_sorted-IsAscending _

pub positive_ids-IsAscending :
    (points : List ActivityStockPoint) → IsAscending (positive_ids points)
unfolding positive_ids
positive_ids-IsAscending points = unique_sorted-IsAscending _

pub unique_enroll_ids-IsAscending :
    (points : List ActivityStockPoint) → IsAscending (unique_enroll_ids points)
unfolding unique_enroll_ids
unique_enroll_ids-IsAscending points = unique_sorted-IsAscending _

-- The lists depend on which points there are, and not on their order or number.
pub consuming_ids-ext :
    (ps qs : List ActivityStockPoint)
    → ((e : ℤ) → has_sold_now ps e ≡ has_sold_now qs e)
    → consuming_ids ps ≡ consuming_ids qs
consuming_ids-ext ps qs h =
    IsAscending-ext _ _ (consuming_ids-IsAscending ps) (consuming_ids-IsAscending qs)
      λ e. contains-consuming_ids ps e ∙ h e ∙ sym (contains-consuming_ids qs e)

pub positive_ids-ext :
    (ps qs : List ActivityStockPoint)
    → ((e : ℤ) → has_ever_sold ps e ≡ has_ever_sold qs e)
    → positive_ids ps ≡ positive_ids qs
positive_ids-ext ps qs h =
    IsAscending-ext _ _ (positive_ids-IsAscending ps) (positive_ids-IsAscending qs)
      λ e. contains-positive_ids ps e ∙ h e ∙ sym (contains-positive_ids qs e)

pub unique_enroll_ids-ext :
    (ps qs : List ActivityStockPoint)
    → ((e : ℤ) → is_candidate ps e ≡ is_candidate qs e)
    → unique_enroll_ids ps ≡ unique_enroll_ids qs
unique_enroll_ids-ext ps qs h =
    IsAscending-ext _ _ (unique_enroll_ids-IsAscending ps) (unique_enroll_ids-IsAscending qs)
      λ e. contains-unique_enroll_ids ps e ∙ h e ∙ sym (contains-unique_enroll_ids qs e)
