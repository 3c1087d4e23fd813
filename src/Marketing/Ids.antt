-- ===== src/Marketing/Ids.antt =====
-- The helpers of internal/marketing/activity_state.go on lists of ids.
pub mod Laws
use pangu_sales_manager.Base.{
  ℤ, eq_ℤ, lt_ℤ, Bool, true, false, ◌&&◌, ◌||◌, List, [], ◌∷◌, if◌then◌else◌, keep, sort_by,
}

-- `slices.Contains`
unfoldable pub contains : List ℤ → ℤ → Bool
contains [] a = false
contains (x ∷ xs) a = eq_ℤ x a || contains xs a

-- `slices.Compact`: of each run of equal entries the first stays.
unfoldable pub compact : List ℤ → List ℤ
compact [] = []
compact (x ∷ []) = x ∷ []
compact (x ∷ y ∷ ys) = let rest = compact (y ∷ ys) in if eq_ℤ x y then rest else x ∷ rest

unfoldable pub unique_sorted : List ℤ → List ℤ
unfolding compact sort_by lt_ℤ eq_ℤ
unique_sorted values = compact (sort_by lt_ℤ values)

unfoldable pub intersect_ids : List ℤ → List ℤ → List ℤ
unfolding unique_sorted contains
intersect_ids left right = unique_sorted (keep (contains right) left)

-- `slices.Equal`
unfoldable pub same_list : List ℤ → List ℤ → Bool
same_list [] [] = true
same_list (x ∷ xs) (y ∷ ys) = eq_ℤ x y && same_list xs ys
same_list [] (y ∷ ys) = false
same_list (x ∷ xs) [] = false

unfoldable pub equal_ids : List ℤ → List ℤ → Bool
unfolding unique_sorted same_list
equal_ids left right = same_list (unique_sorted left) (unique_sorted right)
