-- ===== src/Marketing/Ids/Laws.antt =====
-- What the id helpers promise: `unique_sorted` is the ascending list of its input's members.
use pangu_sales_manager.Base.{
  ℤ, eq_ℤ, eq_ℤ_iff, eq_ℤ_refl, lt_ℤ, lt_ℤ_irrefl, lt_ℤ_trans, lt_ℤ_total, lt_ℤ_asym, Bool, true,
  false, ◌&&◌, ◌||◌, List, [], ◌∷◌, keep, sort_by, place, All, arith, ◌≡◌, refl, ap, sym, ◌∙◌, ◌↔◌,
  inl, inr, Bool-cases,
}
use pangu_sales_manager.Marketing.Ids.{
  contains, compact, unique_sorted, intersect_ids, same_list, equal_ids,
}

-- No entry of the list lies below `a`.
abbrev NoneBelow : ℤ → List ℤ → Type 0
NoneBelow a = All (λ x. lt_ℤ x a ≡ false)

abbrev IsSorted : List ℤ → Type 0
IsSorted [] = Unit
IsSorted (x ∷ xs) = NoneBelow x xs × IsSorted xs

abbrev AllAbove : ℤ → List ℤ → Type 0
AllAbove a = All (λ x. lt_ℤ a x ≡ true)

-- Strictly ascending, so without repetition.
abbrev pub IsAscending : List ℤ → Type 0
IsAscending [] = Unit
IsAscending (x ∷ xs) = AllAbove x xs × IsAscending xs

-- Every member of the first list is one of the second.
abbrev pub Subset : List ℤ → List ℤ → Type 0
Subset xs ys = (a : ℤ) → contains xs a ≡ true → contains ys a ≡ true

pub le_trans_ℤ : (a b c : ℤ) → lt_ℤ b a ≡ false → lt_ℤ c b ≡ false → lt_ℤ c a ≡ false
unfolding lt_ℤ
le_trans_ℤ a b c p q = ground arith

NoneBelow-mono : (a b : ℤ) (xs : List ℤ) → lt_ℤ b a ≡ false → NoneBelow b xs → NoneBelow a xs
NoneBelow-mono a b [] h n = tt
NoneBelow-mono a b (x ∷ xs) h n = (le_trans_ℤ a b x h n.0, NoneBelow-mono a b xs h n.1)

NoneBelow-place :
    (a x : ℤ) (xs : List ℤ) → lt_ℤ x a ≡ false → NoneBelow a xs → NoneBelow a (place lt_ℤ x xs)
unfolding place
NoneBelow-place a x [] h n = (h, tt)
NoneBelow-place a x (y ∷ ys) h n = ground (arith, NoneBelow-place a x ys h n.1)

place-IsSorted : (x : ℤ) (xs : List ℤ) → IsSorted xs → IsSorted (place lt_ℤ x xs)
unfolding place
place-IsSorted x [] s = (tt, tt)
place-IsSorted x (y ∷ ys) s = elim (Bool-cases (lt_ℤ y x)) [
  | inl h ↦ rw (h, place) (NoneBelow-place y x ys (lt_ℤ_asym y x h) s.0, place-IsSorted x ys s.1)
  | inr h ↦ rw (h, place) ((h, NoneBelow-mono x y ys h s.0), s)
]

sort-IsSorted : (xs : List ℤ) → IsSorted (sort_by lt_ℤ xs)
unfolding sort_by
sort-IsSorted [] = tt
sort-IsSorted (x ∷ xs) = place-IsSorted x (sort_by lt_ℤ xs) (sort-IsSorted xs)

contains-place : (a x : ℤ) (xs : List ℤ) → contains (place lt_ℤ x xs) a ≡ eq_ℤ x a || contains xs a
unfolding place contains
contains-place a x [] = refl
contains-place a x (y ∷ ys) = ground (arith, contains-place a x ys)

contains-sort : (a : ℤ) (xs : List ℤ) → contains (sort_by lt_ℤ xs) a ≡ contains xs a
unfolding sort_by contains
contains-sort a [] = refl
contains-sort a (x ∷ xs) =
    contains-place a x (sort_by lt_ℤ xs) ∙ ap (λ b. eq_ℤ x a || b) (contains-sort a xs)

contains-compact : (a : ℤ) (xs : List ℤ) → contains (compact xs) a ≡ contains xs a
unfolding compact contains
contains-compact a [] = refl
contains-compact a (x ∷ []) = refl
contains-compact a (x ∷ y ∷ ys) = ground (arith, contains-compact a (y ∷ ys), eq_ℤ_iff x y)

AllAbove-compact : (a : ℤ) (xs : List ℤ) → AllAbove a xs → AllAbove a (compact xs)
unfolding compact
AllAbove-compact a [] h = tt
AllAbove-compact a (x ∷ []) h = h
AllAbove-compact a (x ∷ y ∷ ys) h = ground (arith, AllAbove-compact a (y ∷ ys) h.1)

above_rest : (x y : ℤ) (ys : List ℤ) → lt_ℤ x y ≡ true → NoneBelow y ys → AllAbove x ys
above_rest x y [] h n = tt
above_rest x y (z ∷ zs) h n = (lt_of_lt_le z n.0, above_rest x y zs h n.1)
  where
    lt_of_lt_le : (z : ℤ) → lt_ℤ z y ≡ false → lt_ℤ x z ≡ true
    lt_of_lt_le z q = ground (arith, lt_ℤ_total x z, lt_ℤ_trans z x y)

compact-IsAscending : (xs : List ℤ) → IsSorted xs → IsAscending (compact xs)
unfolding compact
compact-IsAscending [] s = tt
compact-IsAscending (x ∷ []) s = (tt, tt)
compact-IsAscending (x ∷ y ∷ ys) s = elim (Bool-cases (eq_ℤ x y)) [
  | inl h ↦ rw (h, compact) (compact-IsAscending (y ∷ ys) s.1)
  | inr h ↦
      let below : lt_ℤ x y ≡ true = ground (arith, lt_ℤ_total x y, eq_ℤ_iff x y) in
      rw (h, compact)
        (
          AllAbove-compact x (y ∷ ys) (below, above_rest x y ys below s.1.0),
          compact-IsAscending (y ∷ ys) s.1,
        )
]

-- `unique_sorted` keeps exactly the members of its input.
pub contains-unique_sorted :
    (values : List ℤ) (a : ℤ) → contains (unique_sorted values) a ≡ contains values a
unfolding unique_sorted
contains-unique_sorted values a = contains-compact a (sort_by lt_ℤ values) ∙ contains-sort a values

pub unique_sorted-IsAscending : (values : List ℤ) → IsAscending (unique_sorted values)
unfolding unique_sorted
unique_sorted-IsAscending values = compact-IsAscending (sort_by lt_ℤ values) (sort-IsSorted values)

not-contains-above :
    (a b : ℤ) (xs : List ℤ) → lt_ℤ b a ≡ false → AllAbove b xs → contains xs a ≡ false
unfolding contains
not-contains-above a b [] h n = refl
not-contains-above a b (x ∷ xs) h n = ground (arith, eq_ℤ_iff x a, not-contains-above a b xs h n.1)

head_le :
    (x y : ℤ) (xs ys : List ℤ)
    → AllAbove y ys
    → ((a : ℤ) → contains (x ∷ xs) a ≡ contains (y ∷ ys) a)
    → lt_ℤ x y ≡ false
unfolding contains
head_le x y xs ys n h = elim (Bool-cases (lt_ℤ x y)) [
  | inr q ↦ q
  | inl p ↦ ground (
    arith,
    h x,
    eq_ℤ_refl x,
    eq_ℤ_iff y x,
    lt_ℤ_irrefl x,
    not-contains-above x y ys (lt_ℤ_asym x y p) n,
  )
]

-- Two ascending lists with the same members are one list.
pub IsAscending-ext :
    (xs ys : List ℤ)
    → IsAscending xs
    → IsAscending ys
    → ((a : ℤ) → contains xs a ≡ contains ys a)
    → xs ≡ ys
unfolding contains
IsAscending-ext [] [] s t h = refl
IsAscending-ext [] (y ∷ ys) s t h = ground (arith, h y, eq_ℤ_refl y)
IsAscending-ext (x ∷ xs) [] s t h = ground (arith, h x, eq_ℤ_refl x)
IsAscending-ext (x ∷ xs) (y ∷ ys) s t h = cc (heads, IsAscending-ext xs ys s.1 t.1 tails)
  where
    heads : x ≡ y
    heads = lt_ℤ_total x y (head_le x y xs ys t.0 h) (head_le y x ys xs s.0 (λ a. sym (h a)))

    tails : (a : ℤ) → contains xs a ≡ contains ys a
    tails a = elim (Bool-cases (eq_ℤ x a)) [
      | inl p ↦ ground (
        arith,
        heads,
        eq_ℤ_iff x a,
        not-contains-above x x xs (lt_ℤ_irrefl x) s.0,
        not-contains-above y y ys (lt_ℤ_irrefl y) t.0,
      )
      | inr q ↦ ground (arith, heads, h a)
    ]

same_list_iff : (xs ys : List ℤ) → (same_list xs ys ≡ true) ↔ (xs ≡ ys)
unfolding same_list
same_list_iff [] [] = ground arith
same_list_iff [] (y ∷ ys) = ground arith
same_list_iff (x ∷ xs) [] = ground arith
same_list_iff (x ∷ xs) (y ∷ ys) = ground (arith, eq_ℤ_iff x y, same_list_iff xs ys)

-- `unique_sorted` is the one ascending list with its input's members.
pub unique_sorted_unique :
    (values result : List ℤ)
    → IsAscending result
    → ((a : ℤ) → contains result a ≡ contains values a)
    → unique_sorted values ≡ result
unique_sorted_unique values result s h =
    IsAscending-ext _ result (unique_sorted-IsAscending values) s
      λ a. contains-unique_sorted values a ∙ sym (h a)

-- Lists with the same members have the same canonical form.
pub unique_sorted-ext :
    (xs ys : List ℤ)
    → ((a : ℤ) → contains xs a ≡ contains ys a)
    → unique_sorted xs ≡ unique_sorted ys
unique_sorted-ext xs ys h =
    unique_sorted_unique xs _ (unique_sorted-IsAscending ys)
      λ a. contains-unique_sorted ys a ∙ sym (h a)

-- `equal_ids` decides equality as sets.
pub equal_ids_iff :
    (left right : List ℤ)
    → (equal_ids left right ≡ true) ↔ ((a : ℤ) → contains left a ≡ contains right a)
unfolding equal_ids
equal_ids_iff left right = (to, from)
  where
    to :
        same_list (unique_sorted left) (unique_sorted right) ≡ true
        → (a : ℤ) → contains left a ≡ contains right a
    to e a =
        sym (contains-unique_sorted left a)
        ∙ ap (λ l. contains l a) ((same_list_iff _ _).0 e)
        ∙ contains-unique_sorted right a

    from :
        ((a : ℤ) → contains left a ≡ contains right a)
        → same_list (unique_sorted left) (unique_sorted right) ≡ true
    from h = (same_list_iff _ _).1 (unique_sorted-ext left right h)

pub contains-keep :
    (p : ℤ → Bool) (xs : List ℤ) (a : ℤ) → contains (keep p xs) a ≡ contains xs a && p a
unfolding contains
contains-keep p [] a = refl
contains-keep p (x ∷ xs) a = elim (Bool-cases (eq_ℤ x a)) [
  | inl e ↦ ground (arith, contains-keep p xs a, eq_ℤ_iff x a, ap p ((eq_ℤ_iff x a).0 e))
  | inr q ↦ ground (arith, contains-keep p xs a, q)
]

-- `intersect_ids` has the members that both lists have.
pub contains-intersect_ids :
    (left right : List ℤ) (a : ℤ)
    → contains (intersect_ids left right) a ≡ contains left a && contains right a
unfolding intersect_ids
contains-intersect_ids left right a =
    contains-unique_sorted (keep (contains right) left) a ∙ contains-keep (contains right) left a

pub intersect_ids-IsAscending : (left right : List ℤ) → IsAscending (intersect_ids left right)
unfolding intersect_ids
intersect_ids-IsAscending left right = unique_sorted-IsAscending (keep (contains right) left)

-- An ascending list is its own canonical form.
pub unique_sorted_of_IsAscending :
    (values : List ℤ) → IsAscending values → unique_sorted values ≡ values
unique_sorted_of_IsAscending values s = unique_sorted_unique values values s (λ a. refl)
