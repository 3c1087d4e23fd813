-- ===== src/Profit/EachRow.antt =====
-- What the loop over the rows of a sheet, each_row, gives.
use pangu_sales_manager.Base.{
  ℕ, suc, ◌+◌, List, [], ◌∷◌, ◌++◌, Option, none, some, ok, err, wrap, ok_injective, wrap-eq-ok,
  wrap-eq-err, chain-eq-ok, chain-eq-err, All, length, ◌≡◌, refl, ap, ◌∙◌, inl, inr, arith, subst,
}
use pangu_sales_manager.Profit.Errors.{ImportError, Import, row_error}
use pangu_sales_manager.Profit.Cells.{Row}
use pangu_sales_manager.Profit.Flat.{push, each_row}

module _ {A : Type 0} (parse : Row → Import (Option A)) where
  -- A row that is read, or passed over.
  abbrev pub Reads : Row → Type 0
  Reads row = (item : Option A) × (parse row ≡ ok item)

  All-push {κ} :
      (P : A → Type κ) (item : Option A) (rest : List A)
      → ((a : A) → item ≡ some a → P a)
      → All P rest
      → All P (push item rest)
  All-push P none rest f h = h
  All-push P (some a) rest f h = (f a refl, h)

  -- The first row that is not read, what stands before it, and its error under its number.
  pub record FailsAt (number : ℕ) (rows : List Row) (e : ImportError) : Type 0 where
    pub before : List Row
    pub row : Row
    pub after : List Row
    pub reason : ImportError
    pub rows_eq : rows ≡ before ++ row ∷ after
    pub reads : All Reads before
    pub fails : parse row ≡ err reason
    pub error_eq : e ≡ row_error (number + length before) reason

  pub each_row-All {κ} :
      (P : A → Type κ)
      → ((row : Row) (a : A) → parse row ≡ ok (some a) → P a)
      → (number : ℕ) (rows : List Row) (items : List A) → each_row parse number rows ≡ ok items
      → All P items
  unfolding each_row
  each_row-All P f number [] items h = subst (All P) (ok_injective h) tt
  each_row-All P f number (row ∷ rows) items h =
      let (item, p, q) = chain-eq-ok (wrap (row_error number) (parse row)) _ h in
      let (rest, r, s) = chain-eq-ok (each_row parse (suc number) rows) _ q in
      subst (All P) (ok_injective s) (
        All-push P item rest
          (λ a e. f row a (wrap-eq-ok (row_error number) (parse row) p ∙ ap ok e))
          (each_row-All P f (suc number) rows rest r))

  here_fails :
      (number : ℕ) (row : Row) (rows : List Row) {e : ImportError}
      → (d : ImportError) × (parse row ≡ err d) × (e ≡ row_error number d)
      → FailsAt number (row ∷ rows) e
  here_fails number row rows (d, p, q) = record {
    before = [];
    row = row;
    after = rows;
    reason = d;
    rows_eq = refl;
    reads = tt;
    fails = p;
    error_eq = q ∙ ap (λ n. row_error n d) (omega arith);
  }

  later :
      (number : ℕ) (row : Row) (rows : List Row) {e : ImportError} (item : Option A)
      → parse row ≡ ok item
      → FailsAt (suc number) rows e
      → FailsAt number (row ∷ rows) e
  later number row rows item p w = record {
    before = row ∷ w.before;
    row = w.row;
    after = w.after;
    reason = w.reason;
    rows_eq = ap (◌∷◌ row) w.rows_eq;
    reads = ((item, p), w.reads);
    fails = w.fails;
    error_eq = w.error_eq ∙ ap (λ n. row_error n w.reason) (omega arith);
  }

  pub each_row_fails :
      (number : ℕ) (rows : List Row) (e : ImportError)
      → each_row parse number rows ≡ err e
      → FailsAt number rows e
  unfolding each_row
  each_row_fails number [] e h = cc
  each_row_fails number (row ∷ rows) e h =
      elim (chain-eq-err (wrap (row_error number) (parse row)) _ h) [
        | inl p ↦ here_fails number row rows (wrap-eq-err (row_error number) (parse row) p)
        | inr (item, p, q) ↦ elim (chain-eq-err (each_row parse (suc number) rows) _ q) [
          | inl r ↦
              later number row rows item (wrap-eq-ok (row_error number) (parse row) p)
                (each_row_fails (suc number) rows e r)
          | inr (rest, r, s) ↦ cc
        ]
      ]
