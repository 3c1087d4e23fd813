-- ===== src/Base/Lists.antt =====
-- Lists measured by native numbers, and Boolean searches as the program writes them.
use Prim.Native.Nat.{ℕ, zero, suc, ◌+◌, ◌-◌, min}
use mathlib.Core.Path.{◌≡◌, refl, ap}
use mathlib.Core.Logic.{◌≢◌}
use mathlib.Core.Bool.{Bool, true, false, ◌||◌}
use mathlib.Core.List.{List, [], ◌∷◌, ◌++◌, map}
use native.Mathlib.Omega.{arith}
use pangu_sales_manager.Base.Tests.{if◌then◌else◌, if_rule}

module _ {ℓ} {A : Type ℓ} where
  abbrev pub length : List A → ℕ
  length [] = 0
  length (x ∷ xs) = suc (length xs)

  pub length-append : (xs ys : List A) → length (xs ++ ys) ≡ length xs + length ys
  length-append [] ys = omega arith
  length-append (x ∷ xs) ys = omega (arith, length-append xs ys)

  abbrev pub take : ℕ → List A → List A
  take zero xs = []
  take (suc n) [] = []
  take (suc n) (x ∷ xs) = x ∷ take n xs

  abbrev pub drop : ℕ → List A → List A
  drop zero xs = xs
  drop (suc n) [] = []
  drop (suc n) (x ∷ xs) = drop n xs

  pub take-append-drop : (n : ℕ) (xs : List A) → take n xs ++ drop n xs ≡ xs
  take-append-drop zero xs = refl
  take-append-drop (suc n) [] = refl
  take-append-drop (suc n) (x ∷ xs) = ap (◌∷◌ x) (take-append-drop n xs)

  pub length-take : (n : ℕ) (xs : List A) → length (take n xs) ≡ min n (length xs)
  length-take zero xs = omega arith
  length-take (suc n) [] = omega arith
  length-take (suc n) (x ∷ xs) = omega (arith, length-take n xs)

  pub length-drop : (n : ℕ) (xs : List A) → length (drop n xs) ≡ length xs - n
  length-drop zero xs = omega arith
  length-drop (suc n) [] = omega arith
  length-drop (suc n) (x ∷ xs) = omega (arith, length-drop n xs)

  -- A loop that skips the entries which fail a test (`continue`) and appends the rest.
  abbrev pub keep : (A → Bool) → List A → List A
  keep p [] = []
  keep p (x ∷ xs) = let rest = keep p xs in if p x then x ∷ rest else rest

  abbrev pub any : (A → Bool) → List A → Bool
  any p [] = false
  any p (x ∷ xs) = p x || any p xs

  abbrev pub All {κ} : (A → Type κ) → List A → Type κ
  All P [] = Unit
  All P (x ∷ xs) = P x × All P xs

  -- An entry of the list, and where it stands.
  pub data In (x : A) : List A → Type ℓ where
    here : {xs : List A} → In x (x ∷ xs)
    there : {y : A} {xs : List A} → In x xs → In x (y ∷ xs)

  pub All-In {κ} : (P : A → Type κ) {x : A} {xs : List A} → In x xs → All P xs → P x
  All-In P here h = h.0
  All-In P (there m) h = All-In P m h.1

  pub All-of_In {κ} : (P : A → Type κ) (xs : List A) → ((x : A) → In x xs → P x) → All P xs
  All-of_In P [] h = tt
  All-of_In P (x ∷ xs) h = (h x here, All-of_In P xs (λ y m. h y (there m)))

  pub All-append {κ} : (P : A → Type κ) (xs ys : List A) → All P xs → All P ys → All P (xs ++ ys)
  All-append P [] ys h k = k
  All-append P (x ∷ xs) ys h k = (h.0, All-append P xs ys h.1 k)

  pub All-keep : (p : A → Bool) (xs : List A) → All (λ x. p x ≡ true) (keep p xs)
  All-keep p [] = tt
  All-keep p (x ∷ xs) = ground (arith, All-keep p xs)

  pub keep-append : (p : A → Bool) (xs ys : List A) → keep p (xs ++ ys) ≡ keep p xs ++ keep p ys
  keep-append p [] ys = refl
  keep-append p (x ∷ xs) ys = ground (arith, keep-append p xs ys)

module _ {ℓ κ} {A : Type ℓ} {B : Type κ} where
  -- A loop that appends the results of each round.
  abbrev pub flat_map : (A → List B) → List A → List B
  flat_map f [] = []
  flat_map f (x ∷ xs) = f x ++ flat_map f xs

  abbrev pub fold : (B → A → B) → B → List A → B
  fold f b [] = b
  fold f b (x ∷ xs) = fold f (f b x) xs

  pub fold-append :
      (f : B → A → B) (b : B) (xs ys : List A) → fold f b (xs ++ ys) ≡ fold f (fold f b xs) ys
  fold-append f b [] ys = refl
  fold-append f b (x ∷ xs) ys = fold-append f (f b x) xs ys

module _ {ℓ κ} {A : Type ℓ} {B : Type κ} where
  -- What each round keeps, the loop keeps.
  pub fold_keeps {μ} :
      (P : B → Type μ) (f : B → A → B) (xs : List A) (b : B)
      → ((b : B) (x : A) → In x xs → P b → P (f b x))
      → P b
      → P (fold f b xs)
  fold_keeps P f [] b k h = h
  fold_keeps P f (x ∷ xs) b k h =
      fold_keeps P f xs (f b x) (λ c y m. k c y (there m)) (k b x here h)

  -- What one round brings about, where the invariant holds, and each round keeps, the loop brings
  -- about.
  pub fold_reaches {ι μ} :
      (I : B → Type ι) (P : B → Type μ) (f : B → A → B) (x : A) (xs : List A) (b : B)
      → In x xs
      → ((b : B) (y : A) → I b → I (f b y))
      → I b
      → ((b : B) → I b → P (f b x))
      → ((b : B) (y : A) → P b → P (f b y))
      → P (fold f b xs)
  fold_reaches I P f x [] b m s i r k = elim m [ ]
  fold_reaches I P f x (y ∷ ys) b here s i r k = fold_keeps P f ys (f b x) (λ c z m. k c z) (r b i)
  fold_reaches I P f x (y ∷ ys) b (there m) s i r k =
      fold_reaches I P f x ys (f b y) m s (s b y i) r k

  pub In-map : (f : A → B) {x : A} {xs : List A} → In x xs → In (f x) (map f xs)
  In-map f here = here
  In-map f (there m) = there (In-map f m)

  pub All-map {μ} :
      (P : B → Type μ) (f : A → B) (xs : List A) → All (λ x. P (f x)) xs → All P (map f xs)
  All-map P f [] h = tt
  All-map P f (x ∷ xs) h = (h.0, All-map P f xs h.1)

module _ {ℓ} {A : Type ℓ} where
  pub In-keep : (p : A → Bool) {x : A} {xs : List A} → In x xs → p x ≡ true → In x (keep p xs)
  In-keep p {x} {xs = []} m h = elim m [ ]
  In-keep p {x} {xs = y ∷ ys} here h = rw (h, keep) here
  In-keep p {x} {xs = y ∷ ys} (there m) h =
      if_rule (In x) (p y) (λ _. there (In-keep p m h)) (λ _. In-keep p m h)

  pub All-mono {κ μ} :
      (P : A → Type κ) (Q : A → Type μ) (xs : List A) → ((x : A) → P x → Q x) → All P xs → All Q xs
  All-mono P Q [] f h = tt
  All-mono P Q (x ∷ xs) f h = (f x h.0, All-mono P Q xs f h.1)

  pub In-append_left : {x : A} {xs : List A} (ys : List A) → In x xs → In x (xs ++ ys)
  In-append_left ys here = here
  In-append_left ys (there m) = there (In-append_left ys m)

  pub In-append_right : {x : A} (xs : List A) {ys : List A} → In x ys → In x (xs ++ ys)
  In-append_right [] m = m
  In-append_right (y ∷ xs) m = there (In-append_right xs m)

  pub any-append : (p : A → Bool) (xs ys : List A) → any p (xs ++ ys) ≡ any p xs || any p ys
  any-append p [] ys = refl
  any-append p (x ∷ xs) ys = ground (arith, any-append p xs ys)

  pub any-In : (p : A → Bool) {x : A} {xs : List A} → In x xs → p x ≡ true → any p xs ≡ true
  any-In p {x} {xs = []} m h = elim m [ ]
  any-In p {x} {xs = y ∷ ys} here h = ground arith
  any-In p {x} {xs = y ∷ ys} (there m) h = ground (arith, any-In p m h)

  pub keep-nonempty : (p : A → Bool) (xs : List A) → any p xs ≡ true → keep p xs ≢ []
  keep-nonempty p [] h = λ e. cc
  keep-nonempty p (x ∷ xs) h = λ e. ground (arith, keep-nonempty p xs)

  pub All-keep_of {κ} : (P : A → Type κ) (p : A → Bool) (xs : List A) → All P xs → All P (keep p xs)
  All-keep_of P p [] h = tt
  All-keep_of P p (x ∷ xs) h =
      if_rule (All P) (p x) (λ _. (h.0, All-keep_of P p xs h.1)) (λ _. All-keep_of P p xs h.1)

module _ {ℓ κ} {A : Type ℓ} {B : Type κ} where
  pub All-flat_map {μ} :
      (P : B → Type μ) (f : A → List B) (xs : List A)
      → ((x : A) → In x xs → All P (f x))
      → All P (flat_map f xs)
  All-flat_map P f [] h = tt
  All-flat_map P f (x ∷ xs) h =
      All-append P (f x) (flat_map f xs) (h x here) (All-flat_map P f xs (λ y m. h y (there m)))

  pub In-flat_map :
      (f : A → List B) {x : A} {y : B} {xs : List A} → In x xs → In y (f x) → In y (flat_map f xs)
  In-flat_map f {xs = []} m h = elim m [ ]
  In-flat_map f {xs = z ∷ zs} here h = In-append_left (flat_map f zs) h
  In-flat_map f {xs = z ∷ zs} (there m) h = In-append_right (f z) (In-flat_map f m h)

  pub All-map_of {μ} :
      (P : B → Type μ) (f : A → B) (xs : List A) → ((x : A) → P (f x)) → All P (map f xs)
  All-map_of P f [] h = tt
  All-map_of P f (x ∷ xs) h = (h x, All-map_of P f xs h)
