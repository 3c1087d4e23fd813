-- ===== src/Profit/Located.antt =====
-- Where an error of a sheet with one record to a row comes from.
use pangu_sales_manager.Base.{
  ℕ, suc, ◌≤◌, String, List, [], ◌∷◌, ◌++◌, Option, err, chain-eq-err, All, length, take, drop,
  take-append-drop, length-take, length-drop, length-append, append_assoc, ◌≡◌, refl, sym, ap, ◌∙◌,
  ◌⊎◌, inl, inr, arith, subst,
}
use pangu_sales_manager.Profit.Errors.{ImportError, Import, row_error}
use pangu_sales_manager.Profit.Numbers.{Formats}
use pangu_sales_manager.Profit.Cells.{Row, require_headers}
use pangu_sales_manager.Profit.Flat.{each_row}
use pangu_sales_manager.Profit.EachRow.{Reads, each_row_fails}
use pangu_sales_manager.Profit.Settled.{
  settled_flow_headers, heading_rows, settled_row, parse_settled_flows,
}

drop_front {ℓ} : {A : Type ℓ} (xs ys : List A) → drop (length xs) (xs ++ ys) ≡ ys
drop_front [] ys = refl
drop_front (x ∷ xs) ys = drop_front xs ys

module _ {A : Type 0} (parse : Row → Import (Option A)) (start : ℕ) (rows : List Row) where
  -- The error is that of the first row below the headings which is not read, under the number that
  -- the row has in the sheet, counted from 1.
  pub record IsRowError (e : ImportError) : Type 0 where
    pub before : List Row
    pub row : Row
    pub after : List Row
    pub reason : ImportError
    pub rows_eq : rows ≡ before ++ row ∷ after
    pub below_headings : start ≤ length before
    pub reads : All (Reads parse) (drop start before)
    pub fails : parse row ≡ err reason
    pub error_eq : e ≡ row_error (suc (length before)) reason

  enough_rows :
      (b : List Row) (r : Row) (a : List Row)
      → drop start rows ≡ b ++ r ∷ a
      → length (take start rows) ≡ start
  enough_rows b r a h = omega (
    arith,
    ap (length {0}) h,
    length-append {0} b (r ∷ a),
    length-drop {0} start rows,
    length-take {0} start rows,
  )

  pub each_row-IsRowError :
      (e : ImportError) → each_row parse (suc start) (drop start rows) ≡ err e → IsRowError e
  each_row-IsRowError e h =
      let w = each_row_fails parse (suc start) (drop start rows) e h in
      let n = enough_rows w.before w.row w.after w.rows_eq in
      record {
        before = take start rows ++ w.before;
        row = w.row;
        after = w.after;
        reason = w.reason;
        rows_eq =
            sym (take-append-drop start rows)
            ∙ ap (λ t. take start rows ++ t) w.rows_eq
            ∙ sym (append_assoc (take start rows) w.before (w.row ∷ w.after));
        below_headings = omega (arith, n, length-append {0} (take start rows) w.before);
        reads =
            subst (All (Reads parse))
              (sym (drop_front (take start rows) w.before)
                ∙ ap (λ k. drop k (take start rows ++ w.before)) n)
              w.reads;
        fails = w.fails;
        error_eq =
            w.error_eq
            ∙ ap (λ k. row_error k w.reason)
                (omega (arith, n, length-append {0} (take start rows) w.before));
      }

module _ (F : Formats) (shop_key : String) (rows : List Row) (loc : F.Location) where
  -- An error of parseSettledFlows is that of its headings, or that of the first row below them that
  -- is not read: then every row between is read, and the error holds the number of the row in the
  -- sheet, counted from 1.
  pub parse_settled_flows-IsRowError :
      (e : ImportError)
      → parse_settled_flows F shop_key rows loc ≡ err e
      → (require_headers rows settled_flow_headers ≡ err e)
        ⊎ IsRowError (settled_row F shop_key loc) (heading_rows 6 rows) rows e
  unfolding parse_settled_flows
  parse_settled_flows-IsRowError e h =
      elim (chain-eq-err (require_headers rows settled_flow_headers) _ h) [
        | inl p ↦ inl p
        | inr (u, p, q) ↦
            inr (each_row-IsRowError (settled_row F shop_key loc) (heading_rows 6 rows) rows e q)
      ]
