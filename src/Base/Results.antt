-- ===== src/Base/Results.antt =====
-- Go's pairs of a value and an error: a call returns the one or the other.
use mathlib.Core.Path.{◌≡◌, refl, sym, subst}
use mathlib.Core.Logic.{◌⊎◌, inl, inr}
use mathlib.Core.Bool.{Bool, true, false}
use pangu_sales_manager.Base.Tests.{if◌then◌else◌}

pub data Result {ℓ κ} (E : Type ℓ) (A : Type κ) : Type (ℓ ⊔ κ) where
  ok : A → Result E A
  err : E → Result E A

infixl 5 ◌>>=◌
infix 1 on◌by◌otherwise◌
abbrev pub ◌>>=◌ {ℓ κ μ} :
    {E : Type ℓ} {A : Type κ} {B : Type μ} → Result E A → (A → Result E B) → Result E B
ok a >>= f = f a
err e >>= f = err e

-- An error is wrapped (`fmt.Errorf` with `%w`), a value passes.
abbrev pub wrap {ℓ κ μ} : {E : Type ℓ} {D : Type κ} {A : Type μ} → (E → D) → Result E A → Result D A
wrap f (ok a) = ok a
wrap f (err e) = err (f e)

module _ {ℓ κ μ} {E : Type ℓ} {A : Type κ} {B : Type μ} where
  -- A chain that succeeds succeeds at each step.
  pub chain-eq-ok :
      {b : B} (first : Result E A) (next : A → Result E B)
      → (first >>= next) ≡ ok b
      → (value : A) × (first ≡ ok value) × (next value ≡ ok b)
  chain-eq-ok (err e) next done = cc
  chain-eq-ok (ok value) next done = (value, refl, done)

  -- A chain that fails fails at its first step or after it.
  pub chain-eq-err :
      (m : Result E A) (f : A → Result E B) {e : E}
      → (m >>= f) ≡ err e
      → (m ≡ err e) ⊎ ((a : A) × (m ≡ ok a) × (f a ≡ err e))
  chain-eq-err (ok a) f h = inr (a, refl, h)
  chain-eq-err (err d) f h = inl (cc)

module _ {ℓ κ} {E : Type ℓ} {A : Type κ} where
  pub ok_injective : {a b : A} → ◌≡◌ {A = Result E A} (ok a) (ok b) → a ≡ b
  ok_injective h = cc

  pub err_injective : {d e : E} → ◌≡◌ {A = Result E A} (err d) (err e) → d ≡ e
  err_injective h = cc

module _ {ℓ κ μ} {E : Type ℓ} {D : Type κ} {A : Type μ} (f : E → D) where
  pub wrap-eq-ok : (r : Result E A) {a : A} → wrap f r ≡ ok a → r ≡ ok a
  wrap-eq-ok (ok b) h = cc
  wrap-eq-ok (err e) h = cc

  pub wrap-eq-err : (r : Result E A) {e : D} → wrap f r ≡ err e → (d : E) × (r ≡ err d) × (e ≡ f d)
  wrap-eq-err (ok b) h = cc
  wrap-eq-err (err d) h = (d, refl, sym (err_injective h))

module _ {ℓ κ μ} {E : Type ℓ} {A : Type κ} (P : A → Type μ) where
  -- What holds of the value, if there is one.
  pub data Ensures : Result E A → Type (ℓ ⊔ κ ⊔ μ) where
    good : {a : A} → P a → Ensures (ok a)
    bad : {e : E} → Ensures (err e)

  pub Ensures-ok : {a : A} → Ensures (ok a) → P a
  Ensures-ok (good p) = p

  pub Ensures-eq : (r : Result E A) {a : A} → Ensures r → r ≡ ok a → P a
  Ensures-eq r {a} h e = Ensures-ok (subst Ensures e h)

module _ {ℓ κ μ ν} {E : Type ℓ} {A : Type κ} {B : Type μ} (P : B → Type ν) where
  pub Ensures-bind :
      (m : Result E A) (f : A → Result E B) → ((a : A) → Ensures P (f a)) → Ensures P (m >>= f)
  Ensures-bind (ok a) f h = h a
  Ensures-bind (err e) f h = bad

  -- The same with a condition on what the first step gives.
  pub Ensures-bind_of {ι} :
      (Q : A → Type ι) (m : Result E A) (f : A → Result E B)
      → Ensures Q m
      → ((a : A) → Q a → Ensures P (f a))
      → Ensures P (m >>= f)
  Ensures-bind_of Q m f (good q) h = h _ q
  Ensures-bind_of Q m f bad h = bad

module _ {ℓ κ μ ν} {E : Type ℓ} {D : Type κ} {A : Type μ} (P : A → Type ν) (f : E → D) where
  pub Ensures-wrap : {r : Result E A} → Ensures P r → Ensures P (wrap f r)
  Ensures-wrap (good p) = good p
  Ensures-wrap bad = bad

module _ {ℓ κ μ} {E : Type ℓ} {A : Type κ} (P : A → Type μ) where
  pub Ensures-of : (r : Result E A) → ((a : A) → r ≡ ok a → P a) → Ensures P r
  Ensures-of (ok a) h = good (h a refl)
  Ensures-of (err e) h = bad

  pub Ensures-if :
      (b : Bool) {r s : Result E A}
      → (b ≡ true → Ensures P r)
      → (b ≡ false → Ensures P s)
      → Ensures P (if b then r else s)
  Ensures-if true t f = t refl
  Ensures-if false t f = f refl

module _ {ℓ κ μ} {E : Type ℓ} {A : Type κ} {P : A → Type μ} where
  -- The branches of a chain of tests, one after the other.
  pub on◌by◌otherwise◌ :
      (b : Bool) {r s : Result E A} → Ensures P r → Ensures P s → Ensures P (if b then r else s)
  on◌by◌otherwise◌ b t f = Ensures-if P b (λ _. t) (λ _. f)
