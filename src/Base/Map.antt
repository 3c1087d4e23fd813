-- ===== src/Base/Map.antt =====
-- Go's maps as association lists with one entry for a key. A read of a missing key is `none`.
use mathlib.Core.Path.{◌≡◌, refl, subst}
use mathlib.Core.Logic.{◌↔◌, inl, inr}
use mathlib.Core.Bool.{Bool, true}
use mathlib.Core.Option.{Option, none, some}
use mathlib.Core.List.{List, [], ◌∷◌}
use native.Mathlib.Omega.{arith}
use pangu_sales_manager.Base.Tests.{if◌then◌else◌, if_rule, Bool-cases}
use pangu_sales_manager.Base.Lists.{All, In, here, there}
use pangu_sales_manager.Base.Int.{ℤ, eq_ℤ, eq_ℤ_iff}

-- Equality of keys.
pub record Eq {ℓ} (A : Type ℓ) : Type ℓ where
  pub beq : A → A → Bool
  pub beq_iff : (a b : A) → (beq a b ≡ true) ↔ (a ≡ b)

instance abbrev pub int_eq : Eq ℤ
int_eq = record { beq = eq_ℤ; beq_iff = eq_ℤ_iff }

module _ {ℓ κ} {K : Type ℓ} {V : Type κ} ⦃e : Eq K⦄ where
  unfoldable pub lookup : K → List (K × V) → Option V
  lookup k [] = none
  lookup k ((j, v) ∷ m) = if e.beq j k then some v else lookup k m

  -- `m[k] = v`
  unfoldable pub insert : K → V → List (K × V) → List (K × V)
  insert k v [] = (k, v) ∷ []
  insert k v ((j, w) ∷ m) = if e.beq j k then (k, v) ∷ m else (j, w) ∷ insert k v m

  -- The keys, each once.
  abbrev pub keys : List (K × V) → List K
  keys [] = []
  keys ((j, v) ∷ m) = j ∷ keys m

  pub lookup-insert :
      (k j : K) (v : V) (m : List (K × V))
      → lookup j (insert k v m) ≡ (if e.beq k j then some v else lookup j m)
  unfolding lookup insert
  lookup-insert k j v [] = refl
  lookup-insert k j v ((i, w) ∷ m) =
      ground (arith, e.beq_iff k j, e.beq_iff i k, e.beq_iff i j, lookup-insert k j v m)

  pub All-insert {μ} :
      (P : V → Type μ) (k : K) (v : V) (m : List (K × V))
      → P v
      → All (λ e. P e.1) m
      → All (λ e. P e.1) (insert k v m)
  unfolding insert
  All-insert P k v [] p h = (p, tt)
  All-insert P k v ((j, w) ∷ m) p h =
      if_rule (All (λ e. P e.1)) (e.beq j k) (λ _. (p, h.1)) (λ _. (h.0, All-insert P k v m p h.1))

  pub All-lookup {μ} :
      (P : V → Type μ) (k : K) (v : V) (m : List (K × V))
      → lookup k m ≡ some v
      → All (λ e. P e.1) m
      → P v
  unfolding lookup
  All-lookup P k v [] q h = cc
  All-lookup P k v ((j, w) ∷ m) q h = elim (Bool-cases (e.beq j k)) [
    | inl t ↦ subst P (ground arith) h.0
    | inr t ↦ All-lookup P k v m (ground arith) h.1
  ]

  -- The values, one for each key.
  abbrev pub values : List (K × V) → List V
  values [] = []
  values ((j, v) ∷ m) = v ∷ values m

  pub In-values : (k : K) (v : V) (m : List (K × V)) → lookup k m ≡ some v → In v (values m)
  unfolding lookup
  In-values k v [] q = cc
  In-values k v ((j, w) ∷ m) q = elim (Bool-cases (e.beq j k)) [
    | inl t ↦ subst (λ u. In u (values ((j, w) ∷ m))) (ground arith) here
    | inr t ↦ there (In-values k v m (ground arith))
  ]

  pub All-values {μ} : (P : V → Type μ) (m : List (K × V)) → All (λ e. P e.1) m → All P (values m)
  All-values P [] h = tt
  All-values P ((j, v) ∷ m) h = (h.0, All-values P m h.1)

  -- The same for a property of an entry, key and value.
  pub All-insert_entry {μ} :
      (P : K × V → Type μ) (k : K) (v : V) (m : List (K × V))
      → P (k, v)
      → All P m
      → All P (insert k v m)
  unfolding insert
  All-insert_entry P k v [] p h = (p, tt)
  All-insert_entry P k v ((j, w) ∷ m) p h =
      if_rule (All P) (e.beq j k) (λ _. (p, h.1)) (λ _. (h.0, All-insert_entry P k v m p h.1))

  pub All-lookup_entry {μ} :
      (P : K × V → Type μ) (k : K) (v : V) (m : List (K × V))
      → lookup k m ≡ some v
      → All P m
      → P (k, v)
  unfolding lookup
  All-lookup_entry P k v [] q h = cc
  All-lookup_entry P k v ((j, w) ∷ m) q h = elim (Bool-cases (e.beq j k)) [
    | inl t ↦ subst P (ground (arith, (e.beq_iff j k).0 t)) h.0
    | inr t ↦ All-lookup_entry P k v m (ground arith) h.1
  ]
