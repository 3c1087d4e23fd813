-- ===== src/Base/Sort.antt =====
-- `sort.Slice` as an insertion sort by the given test.
use mathlib.Core.Path.{◌≡◌, refl, ap, ◌∙◌}
use mathlib.Core.Bool.{Bool, true, false, not, ◌||◌}
use mathlib.Core.List.{List, [], ◌∷◌}
use native.Mathlib.Omega.{arith}
use pangu_sales_manager.Base.Tests.{if◌then◌else◌, if_rule}
use pangu_sales_manager.Base.Lists.{All, All-mono, any, In, here, there}
use pangu_sales_manager.Base.Int.{
  ℤ, eq_ℤ, eq_ℤ_iff, lt_ℤ, lt_ℤ_asym, lt_ℤ_irrefl, lt_ℤ_trans, lt_ℤ_total,
}

module _ {ℓ} {A : Type ℓ} (less : A → A → Bool) where
  unfoldable pub place : A → List A → List A
  place x [] = x ∷ []
  place x (y ∷ ys) = if less y x then y ∷ place x ys else x ∷ y ∷ ys

  unfoldable pub sort_by : List A → List A
  unfolding place
  sort_by [] = []
  sort_by (x ∷ xs) = place x (sort_by xs)

  All-place {μ} : (P : A → Type μ) (x : A) (xs : List A) → P x → All P xs → All P (place x xs)
  unfolding place
  All-place P x [] p h = (p, tt)
  All-place P x (y ∷ ys) p h =
      if_rule (All P) (less y x) (λ _. (h.0, All-place P x ys p h.1)) (λ _. (p, h))

  pub All-sort_by {μ} : (P : A → Type μ) (xs : List A) → All P xs → All P (sort_by xs)
  unfolding sort_by
  All-sort_by P [] h = tt
  All-sort_by P (x ∷ xs) h = All-place P x (sort_by xs) h.0 (All-sort_by P xs h.1)

  In-place_self : (x : A) (xs : List A) → In x (place x xs)
  unfolding place
  In-place_self x [] = here
  In-place_self x (y ∷ ys) = if_rule (In x) (less y x) (λ _. there (In-place_self x ys)) (λ _. here)

  In-place : (z x : A) (xs : List A) → In z xs → In z (place x xs)
  unfolding place
  In-place z x [] m = elim m [ ]
  In-place z x (y ∷ ys) here = if_rule (In z) (less y x) (λ _. here) (λ _. there here)
  In-place z x (y ∷ ys) (there m) =
      if_rule (In z) (less y x) (λ _. there (In-place z x ys m)) (λ _. there (there m))

  -- Sorting loses no entry and makes none up.
  pub In-sort_by : (z : A) (xs : List A) → In z xs → In z (sort_by xs)
  unfolding sort_by
  In-sort_by z [] m = elim m [ ]
  In-sort_by z (x ∷ xs) here = In-place_self z (sort_by xs)
  In-sort_by z (x ∷ xs) (there m) = In-place z x (sort_by xs) (In-sort_by z xs m)

  any-place : (p : A → Bool) (x : A) (xs : List A) → any p (place x xs) ≡ p x || any p xs
  unfolding place
  any-place p x [] = refl
  any-place p x (y ∷ ys) = ground (arith, any-place p x ys)

  pub any-sort_by : (p : A → Bool) (xs : List A) → any p (sort_by xs) ≡ any p xs
  unfolding sort_by
  any-sort_by p [] = refl
  any-sort_by p (x ∷ xs) = any-place p x (sort_by xs) ∙ ap (λ b. p x || b) (any-sort_by p xs)

  -- No later entry comes before an earlier one.
  abbrev pub IsOrdered : List A → Type 0
  IsOrdered [] = Unit
  IsOrdered (x ∷ xs) = All (λ y. less y x ≡ false) xs × IsOrdered xs

  -- An order test: what does not come before is transitive, and two entries do not both come first.
  pub record IsOrderTest : Type ℓ where
    pub asym : (a b : A) → less a b ≡ true → less b a ≡ false
    pub le_trans : (a b c : A) → less b a ≡ false → less c b ≡ false → less c a ≡ false

  place-IsOrdered : IsOrderTest → (x : A) (xs : List A) → IsOrdered xs → IsOrdered (place x xs)
  unfolding place
  place-IsOrdered o x [] s = (tt, tt)
  place-IsOrdered o x (y ∷ ys) s =
      if_rule IsOrdered (less y x)
        (λ h.
          (All-place (λ z. less z y ≡ false) x ys (o.asym y x h) s.0, place-IsOrdered o x ys s.1))
        (λ h. (
          (
            h,
            All-mono (λ z. less z y ≡ false) (λ z. less z x ≡ false) ys
                (λ z q. o.le_trans x y z h q) s.0,
          ),
          s,
        ))

  pub sort_by-IsOrdered : IsOrderTest → (xs : List A) → IsOrdered (sort_by xs)
  unfolding sort_by
  sort_by-IsOrdered o [] = tt
  sort_by-IsOrdered o (x ∷ xs) = place-IsOrdered o x (sort_by xs) (sort_by-IsOrdered o xs)

-- A lexicographic test, as the program writes it: by an integer, then by another test.
module _ {ℓ} {A : Type ℓ} where
  abbrev pub first_by : (A → ℤ) → (A → A → Bool) → A → A → Bool
  first_by f less a b = if not (eq_ℤ (f a) (f b)) then lt_ℤ (f a) (f b) else less a b

  pub first_by-IsOrderTest :
      (f : A → ℤ) (less : A → A → Bool) → IsOrderTest less → IsOrderTest (first_by f less)
  first_by-IsOrderTest f less o = record {
    asym = λ a b h.
        ground
          (arith, eq_ℤ_iff (f a) (f b), eq_ℤ_iff (f b) (f a), lt_ℤ_asym (f a) (f b), o.asym a b);
    le_trans = λ a b c p q. ground (
      arith,
      eq_ℤ_iff (f b) (f a),
      eq_ℤ_iff (f c) (f b),
      eq_ℤ_iff (f c) (f a),
      lt_ℤ_total (f a) (f b),
      lt_ℤ_total (f b) (f c),
      lt_ℤ_total (f a) (f c),
      lt_ℤ_trans (f a) (f b) (f c),
      lt_ℤ_asym (f a) (f b),
      lt_ℤ_asym (f b) (f c),
      lt_ℤ_asym (f a) (f c),
      lt_ℤ_irrefl (f a),
      o.le_trans a b c,
    );
  }

  pub by-IsOrderTest : (f : A → ℤ) → IsOrderTest (λ (a b : A). lt_ℤ (f a) (f b))
  by-IsOrderTest f = record {
    asym = λ a b h. lt_ℤ_asym (f a) (f b) h;
    le_trans = λ a b c p q. ground (
      arith,
      lt_ℤ_total (f a) (f b),
      lt_ℤ_total (f b) (f c),
      lt_ℤ_trans (f c) (f a) (f b),
      lt_ℤ_trans (f b) (f c) (f a),
      lt_ℤ_asym (f c) (f a),
      lt_ℤ_irrefl (f a),
    );
  }
