-- ===== src/Intervals/Find.antt =====
-- The open interval of an SKU, and what each statement does to it.
use pangu_sales_manager.Base.{
  ℤ, int_eq, eq_ℤ, eq_ℤ_iff, eq_ℤ_refl, Bool, true, false, ◌&&◌, List, [], ◌∷◌, Option, none, some,
  if◌then◌else◌, map, any, ◌≡◌, refl, ap, sym, ◌∙◌, subst, arith, Bool-cases, inl, inr,
}
use pangu_sales_manager.Intervals.{IntervalRow, is_open, has_open}
use pangu_sales_manager.Intervals.Table.{Distinct}

abbrev is_open_of : ℤ → IntervalRow → Bool
is_open_of k r = is_open r && eq_ℤ r.sku_id k

unfoldable pub find_open : ℤ → List IntervalRow → Option IntervalRow
find_open k [] = none
find_open k (r ∷ rs) = if is_open_of k r then some r else find_open k rs

pub find_open-none :
    (k : ℤ) (rows : List IntervalRow) → has_open k rows ≡ false → find_open k rows ≡ none
unfolding find_open
find_open-none k [] h = refl
find_open-none k (r ∷ rs) h = ground (arith, find_open-none k rs)

pub has_open-none :
    (k : ℤ) (rows : List IntervalRow) → find_open k rows ≡ none → has_open k rows ≡ false
unfolding find_open
has_open-none k [] h = refl
has_open-none k (r ∷ rs) h = ground (arith, has_open-none k rs)

-- Rows without the id are as they were.
map_away :
    (f : IntervalRow → IntervalRow) (id : ℤ) (rows : List IntervalRow)
    → ((r : IntervalRow) → eq_ℤ r.id id ≡ false → f r ≡ r)
    → any (λ s. eq_ℤ s.id id) rows ≡ false
    → map f rows ≡ rows
map_away f id [] k h = refl
map_away f id (r ∷ rs) k h = ground (arith, k r, map_away f id rs k)

found_id :
    (k : ℤ) (rows : List IntervalRow) (r : IntervalRow)
    → find_open k rows ≡ some r
    → any (λ s. eq_ℤ s.id r.id) rows ≡ true
unfolding find_open
found_id k [] r h = absurd (ground arith)
found_id k (x ∷ xs) r h = elim (Bool-cases (is_open_of k x)) [
  | inl y ↦ ground (arith, y, h, eq_ℤ_refl r.id)
  | inr n ↦ ground (arith, n, h, found_id k xs r)
]

pub found_open :
    (k : ℤ) (rows : List IntervalRow) (r : IntervalRow)
    → find_open k rows ≡ some r
    → (is_open r ≡ true) × (r.sku_id ≡ k)
unfolding find_open
found_open k [] r h = absurd (ground arith)
found_open k (x ∷ xs) r h = elim (Bool-cases (is_open_of k x)) [
  | inl y ↦
      let e : x ≡ r = ground (arith, y, h) in
      subst (λ z. (is_open z ≡ true) × (z.sku_id ≡ k)) e
        (ground (arith, y), (eq_ℤ_iff x.sku_id k).0 (ground (arith, y)))
  | inr n ↦ found_open k xs r (ground (arith, n, h))
]

module _ {ℓ} {A : Type ℓ} where
  by_test :
      (b : Bool) {x : A} (y z : A)
      → (b ≡ true → x ≡ y)
      → (b ≡ false → x ≡ z)
      → x ≡ (if b then y else z)
  by_test true y z t f = t refl
  by_test false y z t f = f refl

  first_of_two :
      (c o : Bool) (v : A) (rest : Option A)
      → c ≡ o
      → rest ≡ none
      → (if c then some v else rest) ≡ (if o then some v else none)
  first_of_two c o v rest p q = ground (arith, p, q)

  second_of_two :
      (c d : Bool) (v w : A) (left right : Option A)
      → c ≡ false
      → d ≡ false
      → left ≡ right
      → (if c then some v else left) ≡ (if d then some w else right)
  second_of_two c d v w left right p q e = ground (arith, p, q, e)

  skip_first :
      (c : Bool) (v : A) (rest : Option A) → c ≡ false → (if c then some v else rest) ≡ rest
  skip_first c v rest p = ground (arith, p)

and_true : (a b : Bool) → b ≡ true → a && b ≡ a
and_true a b h = ground (arith, h)

and_false : (a b : Bool) → b ≡ false → a && b ≡ false
and_false a b h = ground (arith, h)

-- A change of the row with this id, where that is the open row of an SKU.
module _ (f : IntervalRow → IntervalRow) (id : ℤ) (sku : ℤ)
    (away : (r : IntervalRow) → eq_ℤ r.id id ≡ false → f r ≡ r) where
  -- What is found afterwards.
  unfoldable pub Changed : ℤ → IntervalRow → List IntervalRow → Type 0
  Changed k r rows =
      find_open k (map f rows)
      ≡ (if eq_ℤ sku k then (if is_open (f r) then some (f r) else none) else find_open k rows)

  Changed-here :
      (r : IntervalRow) (xs : List IntervalRow) (k : ℤ)
      → any (λ s. eq_ℤ s.id r.id) xs ≡ false
      → has_open sku xs ≡ false
      → is_open_of sku r ≡ true
      → r.id ≡ id
      → (f r).sku_id ≡ sku
      → Changed k r (r ∷ xs)
  unfolding find_open Changed
  Changed-here r xs k a b y i s =
      let same : map f xs ≡ xs =
        map_away f id xs away (subst (λ n. any (λ s. eq_ℤ s.id n) xs ≡ false) i a) in
      by_test (eq_ℤ sku k) _ _
        (λ e.
          let e' = (eq_ℤ_iff sku k).0 e in
          first_of_two _ (is_open (f r)) (f r) _
            (and_true _ _ (subst (λ z. eq_ℤ z k ≡ true) (sym s) e))
            (ap (find_open k) same
              ∙ subst (λ c. find_open c xs ≡ none) e' (find_open-none sku xs b)))
        (λ n.
          second_of_two _ (is_open_of k r) (f r) r _ _
            (and_false _ _ (subst (λ z. eq_ℤ z k ≡ false) (sym s) n))
            (and_false _ _ (
              subst (λ z. eq_ℤ z k ≡ false) (sym ((eq_ℤ_iff r.sku_id sku).0 (ground (arith, y))))
                n))
            (ap (find_open k) same))

  Changed-there :
      (x r : IntervalRow) (xs : List IntervalRow) (k : ℤ)
      → any (λ s. eq_ℤ s.id x.id) xs ≡ false
      → is_open_of sku x ≡ false
      → find_open sku xs ≡ some r
      → r.id ≡ id
      → Changed k r xs
      → Changed k r (x ∷ xs)
  unfolding find_open Changed
  Changed-there x r xs k a n h i c =
      let other : eq_ℤ x.id id ≡ false = elim (Bool-cases (eq_ℤ x.id id)) [
        | inl e ↦
            let q : r.id ≡ x.id = i ∙ sym ((eq_ℤ_iff x.id id).0 e) in
            absurd (
              ground
                (arith, a, subst (λ m. any (λ s. eq_ℤ s.id m) xs ≡ true) q (found_id sku xs r h)))
        | inr m ↦ m
      ] in
      let kept =
        ap (λ y. if is_open_of k y then some y else find_open k (map f xs)) (away x other) in
      kept
      ∙ by_test (eq_ℤ sku k) _ _
          (λ e.
            skip_first _ x _ (subst (λ z. is_open_of z x ≡ false) ((eq_ℤ_iff sku k).0 e) n)
            ∙ c
            ∙ ap (λ t. if t then (if is_open (f r) then some (f r) else none) else find_open k xs)
                e)
          (λ m.
            ap (λ o. if is_open_of k x then some x else o)
              (c
                ∙ ap
                    (λ t.
                      if t then (if is_open (f r) then some (f r) else none) else find_open k xs)
                    m))

  pub find_open-Changed :
      (rows : List IntervalRow) (r : IntervalRow) (k : ℤ)
      → Distinct rows
      → find_open sku rows ≡ some r
      → r.id ≡ id
      → (f r).sku_id ≡ sku
      → Changed k r rows
  unfolding find_open
  find_open-Changed [] r k d h i s = absurd (ground arith)
  find_open-Changed (x ∷ xs) r k (a, b, d) h i s = elim (Bool-cases (is_open_of sku x)) [
    | inl y ↦
        let e : x ≡ r = ground (arith, y, h) in
        let o : has_open sku xs ≡ false =
          subst (λ m. has_open m xs ≡ false) ((eq_ℤ_iff x.sku_id sku).0 (ground (arith, y)))
            (ground (arith, b, y)) in
        subst (λ z. Changed k r (z ∷ xs)) (sym e)
          (Changed-here r xs k
            (subst (λ (z : IntervalRow). any (λ s. eq_ℤ s.id z.id) xs ≡ false) e a) o
            (subst (λ z. is_open_of sku z ≡ true) e y) i s)
    | inr n ↦
        Changed-there x r xs k a n (ground (arith, n, h)) i
          (find_open-Changed xs r k d (ground (arith, n, h)) i s)
  ]
