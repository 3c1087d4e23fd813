-- ===== src/Profit/Blocks.antt =====
-- The loop over rows that make orders, order_rows, against a description of such sheets.
use pangu_sales_manager.Base.{
  ℕ, suc, Bool, true, false, not, List, [], ◌∷◌, ◌++◌, none, some, ok, wrap, ok_injective,
  wrap-eq-ok, chain-eq-ok, if◌then◌else◌, Bool-cases, is_empty, keep, All, append_assoc, ◌≡◌, refl,
  sym, ap, ◌∙◌, inl, inr, arith, subst,
}
use pangu_sales_manager.Profit.Errors.{Import, row_error}
use pangu_sales_manager.Profit.Cells.{Row, cell, row_empty}
use pangu_sales_manager.Profit.Orders.{flushed, next_order, order_rows}

abbrev pub starts : Row → Bool
starts row = not (is_empty (cell row 0))

-- The rows that hold some text.
abbrev pub filled : List Row → List Row
filled rows = keep (λ row. not (row_empty row)) rows

module _ {A : Type 0} (start_order : Row → Import A) (add_row : A → Row → Import A) where
  -- The rows without a number add to an order, one after the other.
  pub data Adds : A → List Row → A → Type 0 where
    stop : {a : A} → Adds a [] a
    add :
        {a b c : A} {row : Row} {rows : List Row}
        → starts row ≡ false
        → add_row a row ≡ ok b
        → Adds b rows c
        → Adds a (row ∷ rows) c

  -- Each order is a row with a number and the rows without one after it.
  pub data Blocks : List Row → List A → Type 0 where
    done : Blocks [] []
    block :
        {a b : A} {row : Row} {more rows : List Row} {orders : List A}
        → starts row ≡ true
        → start_order row ≡ ok a
        → Adds a more b
        → Blocks rows orders
        → Blocks (row ∷ more ++ rows) (b ∷ orders)

  -- What is left to read while an order is open.
  record Open (a : A) (out : List A) (rows : List Row) (orders : List A) : Type 0 where
    more : List Row
    rest : List Row
    closed : A
    later : List A
    rows_eq : rows ≡ more ++ rest
    adds : Adds a more closed
    blocks : Blocks rest later
    orders_eq : orders ≡ out ++ closed ∷ later

  starts_next :
      (a : A) (out : List A) (row : Row) (b : A) {rows : List Row} {orders : List A}
      → starts row ≡ true
      → start_order row ≡ ok b
      → Open b (out ++ a ∷ []) rows orders
      → Open a out (row ∷ rows) orders
  starts_next a out row b s p w = record {
    more = [];
    rest = row ∷ _;
    closed = a;
    later = w.closed ∷ w.later;
    rows_eq = refl;
    adds = stop;
    blocks =
        subst (λ t. Blocks (row ∷ t) (w.closed ∷ w.later)) (sym w.rows_eq)
          (block s p w.adds w.blocks);
    orders_eq = w.orders_eq ∙ append_assoc out (a ∷ []) (w.closed ∷ w.later);
  }

  adds_next :
      (a : A) (out : List A) (row : Row) (b : A) {rows : List Row} {orders : List A}
      → starts row ≡ false
      → add_row a row ≡ ok b
      → Open b out rows orders
      → Open a out (row ∷ rows) orders
  adds_next a out row b s p w = record {
    more = row ∷ w.more;
    rest = w.rest;
    closed = w.closed;
    later = w.later;
    rows_eq = ap (◌∷◌ row) w.rows_eq;
    adds = add s p w.adds;
    blocks = w.blocks;
    orders_eq = w.orders_eq;
  }

  row_next :
      (a : A) (out : List A) (row : Row) (b : A) {rows : List Row} {orders : List A}
      → next_order start_order add_row (some a) row ≡ ok b
      → Open b (flushed start_order add_row (some a) row out) rows orders
      → Open a out (row ∷ rows) orders
  unfolding next_order
  row_next a out row b {rows} {orders} p w = elim (Bool-cases (is_empty (cell row 0))) [
    | inl e ↦
        adds_next a out row b (ground arith) (ground arith)
          (subst (λ t. Open b (if t then out else out ++ a ∷ []) rows orders) e w)
    | inr e ↦
        starts_next a out row b (ground arith) (ground arith)
          (subst (λ t. Open b (if t then out else out ++ a ∷ []) rows orders) e w)
  ]

  order_rows-Open :
      (number : ℕ) (a : A) (out : List A) (rows : List Row) (orders : List A)
      → order_rows start_order add_row number (some a) out rows ≡ ok orders
      → Open a out (filled rows) orders
  unfolding order_rows
  order_rows-Open number a out [] orders h = record {
    more = [];
    rest = [];
    closed = a;
    later = [];
    rows_eq = refl;
    adds = stop;
    blocks = done;
    orders_eq = sym (ok_injective h);
  }
  order_rows-Open number a out (row ∷ rows) orders h = elim (Bool-cases (row_empty row)) [
    | inl e ↦ rw e (order_rows-Open (suc number) a out rows orders (rw (e, order_rows) at h))
    | inr e ↦
        let (b, p, q) =
          chain-eq-ok (wrap (row_error number) (next_order start_order add_row (some a) row)) _
            (rw (e, order_rows) at h) in
        rw e (
          row_next a out row b (wrap-eq-ok (row_error number) _ p) (
            order_rows-Open (suc number) b (flushed start_order add_row (some a) row out) rows
              orders q))
  ]

  first_next :
      (row : Row) (b : A) {rows : List Row} {orders : List A}
      → next_order start_order add_row none row ≡ ok b
      → Open b (flushed start_order add_row none row []) rows orders
      → Blocks (row ∷ rows) orders
  unfolding next_order
  first_next row b {rows} {orders} p w = elim (Bool-cases (is_empty (cell row 0))) [
    | inl e ↦ cc
    | inr e ↦
        let eq : orders ≡ w.closed ∷ w.later =
          subst (λ t. orders ≡ (if t then [] else []) ++ w.closed ∷ w.later) e w.orders_eq in
        subst (Blocks (row ∷ rows)) (sym eq) (
          subst (λ t. Blocks (row ∷ t) (w.closed ∷ w.later)) (sym w.rows_eq)
            (block (ground arith) (ground arith) w.adds w.blocks))
  ]

  -- The loop from its start: what is read is a list of orders as described, over the filled rows.
  pub order_rows-Blocks :
      (number : ℕ) (rows : List Row) (orders : List A)
      → order_rows start_order add_row number none [] rows ≡ ok orders
      → Blocks (filled rows) orders
  unfolding order_rows
  order_rows-Blocks number [] orders h = subst (Blocks []) (ok_injective h) done
  order_rows-Blocks number (row ∷ rows) orders h = elim (Bool-cases (row_empty row)) [
    | inl e ↦ rw e (order_rows-Blocks (suc number) rows orders (rw (e, order_rows) at h))
    | inr e ↦
        let (b, p, q) =
          chain-eq-ok (wrap (row_error number) (next_order start_order add_row none row)) _
            (rw (e, order_rows) at h) in
        rw e (
          first_next row b (wrap-eq-ok (row_error number) _ p) (
            order_rows-Open (suc number) b (flushed start_order add_row none row []) rows orders q))
  ]

  Adds-keeps {κ} :
      (P : A → Type κ)
      → ((a : A) (row : Row) (b : A) → P a → add_row a row ≡ ok b → P b)
      → {a : A} {rows : List Row} {b : A} → Adds a rows b
      → P a
      → P b
  Adds-keeps P f stop p = p
  Adds-keeps P f {a} (add {b} {row} s e r) p = Adds-keeps P f r (f a row b p e)

  -- What holds of each order that a row starts, and stays when a row adds to it, holds of all.
  pub Blocks-All {κ} :
      (P : A → Type κ)
      → ((row : Row) (a : A) → starts row ≡ true → start_order row ≡ ok a → P a)
      → ((a : A) (row : Row) (b : A) → P a → add_row a row ≡ ok b → P b)
      → {rows : List Row} {orders : List A} → Blocks rows orders
      → All P orders
  Blocks-All P f g done = tt
  Blocks-All P f g (block {a} {row} s e more later) =
      (Adds-keeps P g more (f row a s e), Blocks-All P f g later)
