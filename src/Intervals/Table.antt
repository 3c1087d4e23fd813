-- ===== src/Intervals/Table.antt =====
-- The table of intervals stays in order: ids are given once, and an SKU has one open interval.
use pangu_sales_manager.Base.{
  ℕ, suc, ℤ, pos, eq_ℤ, eq_ℤ_iff, lt_ℤ, lt_ℤ_irrefl, Bool, true, false, ◌&&◌, List, [], ◌∷◌, ◌++◌,
  Option, none, some, if◌then◌else◌, if_rule, map, any, any-append, eq_ℤ_comm, All, All-append,
  All-mono, ◌≡◌, refl, ap, ◌∙◌, subst, arith,
}
use pangu_sales_manager.Marketing.State.{Time}
use pangu_sales_manager.Intervals.{
  IntervalRow, IntervalTable, is_open, Statement, extend_interval, close_interval, insert_interval,
  extended, closed, new_row, has_open, execute, execute_all, and_then,
}

has_id : ℤ → List IntervalRow → Bool
has_id id rows = any (λ r. eq_ℤ r.id id) rows

-- No two rows have the same id, and no two open rows the same SKU.
abbrev pub Distinct : List IntervalRow → Type 0
Distinct [] = Unit
Distinct (r ∷ rs) =
    (any (λ s. eq_ℤ s.id r.id) rs ≡ false)
    × (is_open r && has_open r.sku_id rs ≡ false)
    × Distinct rs

-- The ids given so far are below the next one.
abbrev pub Below : ℕ → List IntervalRow → Type 0
Below n rows = All (λ r. lt_ℤ r.id (pos n) ≡ true) rows

pub record IsTable (t : IntervalTable) : Type 0 where
  pub distinct : Distinct t.rows
  pub below : Below t.next_id t.rows

some_inj {ℓ} : {A : Type ℓ} {a b : A} → some a ≡ some b → a ≡ b
some_inj {a} h = ap (λ o. elim o [ none ↦ a | some x ↦ x ]) h

-- Changes that keep the ids and the SKUs and open nothing.
pub record Narrows (f : IntervalRow → IntervalRow) : Type 0 where
  pub same_id : (r : IntervalRow) → (f r).id ≡ r.id
  pub same_sku : (r : IntervalRow) → (f r).sku_id ≡ r.sku_id
  pub opens_none : (r : IntervalRow) → is_open r ≡ false → is_open (f r) ≡ false

module _ (f : IntervalRow → IntervalRow) (n : Narrows f) where
  any_id-map :
      (id : ℤ) (rows : List IntervalRow)
      → any (λ s. eq_ℤ s.id id) (map f rows) ≡ any (λ s. eq_ℤ s.id id) rows
  any_id-map id [] = refl
  any_id-map id (r ∷ rs) = ground (arith, any_id-map id rs, n.same_id r)

  has_open-map :
      (k : ℤ) (rows : List IntervalRow) → has_open k rows ≡ false → has_open k (map f rows) ≡ false
  has_open-map k [] h = refl
  has_open-map k (r ∷ rs) h = ground (arith, has_open-map k rs, n.same_sku r, n.opens_none r)

  narrowed :
      (r : IntervalRow) (rs : List IntervalRow)
      → is_open r && has_open r.sku_id rs ≡ false
      → is_open (f r) && has_open (f r).sku_id (map f rs) ≡ false
  narrowed r rs b = rw (n.same_sku r) (ground (arith, n.opens_none r, has_open-map r.sku_id rs))

  Distinct-map : (rows : List IntervalRow) → Distinct rows → Distinct (map f rows)
  Distinct-map [] d = tt
  Distinct-map (r ∷ rs) (a, b, d) =
      (rw (n.same_id r) (any_id-map r.id rs ∙ a), narrowed r rs b, Distinct-map rs d)

  Below-map : (b : ℕ) (rows : List IntervalRow) → Below b rows → Below b (map f rows)
  Below-map b [] h = tt
  Below-map b (r ∷ rs) (p, h) = (rw (n.same_id r) p, Below-map b rs h)

pub extended-Narrows : (id : ℤ) (at : Time) → Narrows (extended id at)
extended-Narrows id at = record {
  same_id = λ r. if_rule (λ (x : IntervalRow). x.id ≡ r.id) (eq_ℤ r.id id) (λ _. refl) (λ _. refl);
  same_sku = λ r.
      if_rule (λ (x : IntervalRow). x.sku_id ≡ r.sku_id) (eq_ℤ r.id id) (λ _. refl) (λ _. refl);
  opens_none =
      λ r h. if_rule (λ (x : IntervalRow). is_open x ≡ false) (eq_ℤ r.id id) (λ _. h) (λ _. h);
}

pub closed-Narrows : (id : ℤ) (at : Time) → Narrows (closed id at)
closed-Narrows id at = record {
  same_id = λ r. if_rule (λ (x : IntervalRow). x.id ≡ r.id) (eq_ℤ r.id id) (λ _. refl) (λ _. refl);
  same_sku = λ r.
      if_rule (λ (x : IntervalRow). x.sku_id ≡ r.sku_id) (eq_ℤ r.id id) (λ _. refl) (λ _. refl);
  opens_none =
      λ r h. if_rule (λ (x : IntervalRow). is_open x ≡ false) (eq_ℤ r.id id) (λ _. refl) (λ _. h);
}

-- A new row at the end.
fresh_id :
    (b : ℕ) (rows : List IntervalRow) → Below b rows → any (λ s. eq_ℤ s.id (pos b)) rows ≡ false
fresh_id b [] h = refl
fresh_id b (r ∷ rs) (p, h) =
    ground (arith, fresh_id b rs h, eq_ℤ_iff r.id (pos b), lt_ℤ_irrefl (pos b))

Distinct-append :
    (rows : List IntervalRow) (x : IntervalRow)
    → Distinct rows
    → any (λ s. eq_ℤ s.id x.id) rows ≡ false
    → has_open x.sku_id rows ≡ false
    → Distinct (rows ++ x ∷ [])
Distinct-append [] x d a h = (refl, ground arith, tt)
Distinct-append (r ∷ rs) x (p, q, d) a h = (
  any-append (λ s. eq_ℤ s.id r.id) rs (x ∷ []) ∙ ground (arith, p, eq_ℤ_comm r.id x.id),
  ground (
    arith,
    any-append (λ s. is_open s && eq_ℤ s.sku_id r.sku_id) rs (x ∷ []),
    eq_ℤ_comm r.sku_id x.sku_id,
  ),
  Distinct-append rs x d (ground arith) (ground arith),
)

Below-suc : (b : ℕ) (rows : List IntervalRow) → Below b rows → Below (suc b) rows
unfolding lt_ℤ
Below-suc b rows h = All-mono (λ r. lt_ℤ r.id (pos b) ≡ true) _ rows (λ r p. ground arith) h

pub execute-IsTable :
    (s : Statement) (t u : IntervalTable) → IsTable t → execute s t ≡ some u → IsTable u
unfolding execute new_row lt_ℤ
execute-IsTable (extend_interval id at) t u w h = subst IsTable (some_inj h) (record {
  distinct = Distinct-map (extended id at) (extended-Narrows id at) t.rows w.distinct;
  below = Below-map (extended id at) (extended-Narrows id at) t.next_id t.rows w.below;
})
execute-IsTable (close_interval id at) t u w h = subst IsTable (some_inj h) (record {
  distinct = Distinct-map (closed id at) (closed-Narrows id at) t.rows w.distinct;
  below = Below-map (closed id at) (closed-Narrows id at) t.next_id t.rows w.below;
})
execute-IsTable (insert_interval state at) t u w h = inserted (has_open state.sku_id t.rows) refl h
  where
    inserted :
        (b : Bool)
        → has_open state.sku_id t.rows ≡ b
        → (if b
            then none
            else some (record {
              rows = t.rows ++ new_row (pos t.next_id) state at ∷ [];
              next_id = suc t.next_id;
            }))
          ≡ some u
        → IsTable u
    inserted true q e = absurd (ground arith)
    inserted false q e = subst IsTable (some_inj e) (record {
      distinct =
          Distinct-append t.rows (new_row (pos t.next_id) state at) w.distinct
            (fresh_id t.next_id t.rows w.below) q;
      below =
          All-append (λ r. lt_ℤ r.id (pos (suc t.next_id)) ≡ true) t.rows
            (new_row (pos t.next_id) state at ∷ []) (Below-suc t.next_id t.rows w.below)
            (ground arith, tt);
    })

and_then-IsTable :
    (next : IntervalTable → Option IntervalTable) (o : Option IntervalTable) (u : IntervalTable)
    → ((v : IntervalTable) → o ≡ some v → IsTable v)
    → ((v : IntervalTable) → IsTable v → next v ≡ some u → IsTable u)
    → and_then (λ s. true) next o ≡ some u
    → IsTable u
unfolding and_then
and_then-IsTable next none u w k h = absurd (ground arith)
and_then-IsTable next (some v) u w k h = k v (w v refl) h

pub execute_all-IsTable :
    (accepts : Statement → Bool) (ss : List Statement) (t u : IntervalTable)
    → IsTable t
    → execute_all accepts ss t ≡ some u
    → IsTable u
unfolding execute_all and_then
execute_all-IsTable accepts [] t u w h = subst IsTable (some_inj h) w
execute_all-IsTable accepts (s ∷ ss) t u w h =
    if_rule (λ o. o ≡ some u → IsTable u) (accepts s)
      (λ _ e.
        and_then-IsTable (execute_all accepts ss) (execute s t) u (λ v q. execute-IsTable s t v w q)
          (λ v k q. execute_all-IsTable accepts ss v u k q) e)
      (λ _ e. absurd (ground arith)) h
