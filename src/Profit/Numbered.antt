-- ===== src/Profit/Numbered.antt =====
-- The orders of the two sheets: their number, their shop and the line numbers of their SKUs.
use pangu_sales_manager.Base.{
  ℕ, suc, ◌+◌, String, true, false, List, [], ◌∷◌, ◌++◌, drop, length, ok, chain-eq-ok, is_empty,
  Ensures, good, Ensures-bind as step, Ensures-bind_of as step_of, Ensures-if, Ensures-eq, All, ◌≡◌,
  refl, ◌∙◌, arith,
}
use pangu_sales_manager.Profit.Numbers.{
  Formats, parse_required_float, parse_optional_float_or_zero, parse_required_int64,
  parse_optional_bool,
}
use pangu_sales_manager.Profit.Cells.{Row, cell, require_headers}
use pangu_sales_manager.Profit.Settled.{heading_rows}
use pangu_sales_manager.Profit.Records.{
  TemuProfitSettledParentSku, TemuProfitSettledParentOrder, TemuProfitUnsettleSku,
  TemuProfitUnsettleOrder,
}
use pangu_sales_manager.Profit.Orders.{
  parse_settled_parent_sku, first_settled_parent_sku, parse_settled_parent_order_row,
  add_settled_parent_sku, parse_settled_parent_orders, parse_unsettle_sku, first_unsettle_sku,
  parse_unsettle_order_row, add_unsettle_sku, parse_unsettle_orders,
}
use pangu_sales_manager.Profit.Blocks.{starts, filled, Blocks, order_rows-Blocks, Blocks-All}

module _ {S : Type 0} (line : S → ℕ) where
  -- The line numbers count on from the given one.
  abbrev pub CountsFrom : ℕ → List S → Type 0
  CountsFrom n [] = Unit
  CountsFrom n (sku ∷ skus) = (line sku ≡ n) × CountsFrom (suc n) skus

  CountsFrom-concat :
      (n : ℕ) (skus : List S) (sku : S)
      → CountsFrom n skus
      → line sku ≡ n + length skus
      → CountsFrom n (skus ++ sku ∷ [])
  CountsFrom-concat n [] sku c h = (omega arith, tt)
  CountsFrom-concat n (s ∷ skus) sku c h =
      (c.0, CountsFrom-concat (suc n) skus sku c.1 (omega arith))

module _ (F : Formats) (shop_key : String) where
  open F use {Float}

  -- An order of the given shop, with a number, whose SKUs are numbered from 1.
  pub record IsSettledParent (order : TemuProfitSettledParentOrder Float) : Type 0 where
    pub of_shop : order.shop_key ≡ shop_key
    pub has_po_no : is_empty order.po_no ≡ false
    pub counts : CountsFrom (λ (s : TemuProfitSettledParentSku Float). s.line_no) 1 order.skus

  pub record IsUnsettle (order : TemuProfitUnsettleOrder Float) : Type 0 where
    pub of_shop : order.shop_key ≡ shop_key
    pub has_po_no : is_empty order.po_no ≡ false
    pub counts : CountsFrom (λ (s : TemuProfitUnsettleSku Float). s.line_no) 1 order.skus

  parent_sku_line :
      (row : Row) (n : ℕ)
      → Ensures
          (λ (s : TemuProfitSettledParentSku Float). s.line_no ≡ n)
          (parse_settled_parent_sku F shop_key row n)
  unfolding parse_settled_parent_sku
  parent_sku_line row n = step _ (parse_required_int64 F (cell row 1) "SKU ID") _ λ _.
      step _ (parse_required_float F (cell row 4) "件数") _ λ _.
        step _ (parse_required_float F (cell row 5) "申报价格") _
          λ _. step _ (parse_optional_bool (cell row 6)) _ λ _. good refl

  first_parent_sku_counts :
      (row : Row)
      → Ensures
          (CountsFrom (λ (s : TemuProfitSettledParentSku Float). s.line_no) 1)
          (first_settled_parent_sku F shop_key row)
  unfolding first_settled_parent_sku
  first_parent_sku_counts row =
      Ensures-if _ (is_empty (cell row 1)) (λ _. good tt)
        λ _. step_of _ _ _ _ (parent_sku_line row 1) λ sku q. good (q, tt)

  parent_starts :
      (row : Row)
      → starts row ≡ true
      → Ensures IsSettledParent (parse_settled_parent_order_row F shop_key row)
  unfolding parse_settled_parent_order_row
  parent_starts row s = step _ (parse_optional_float_or_zero F (cell row 8)) _ λ _.
      step _ (parse_optional_float_or_zero F (cell row 9)) _ λ _.
        step _ (parse_optional_float_or_zero F (cell row 10)) _ λ _.
          step _ (parse_optional_float_or_zero F (cell row 11)) _ λ _.
            step _ (parse_optional_float_or_zero F (cell row 12)) _ λ _.
              step _ (parse_optional_float_or_zero F (cell row 13)) _ λ _.
                step_of _ _ _ _ (first_parent_sku_counts row)
                  λ skus q. good (record { of_shop = refl; has_po_no = ground arith; counts = q })

  parent_adds :
      (order : TemuProfitSettledParentOrder Float) (row : Row)
      → IsSettledParent order
      → Ensures IsSettledParent (add_settled_parent_sku F shop_key order row)
  unfolding add_settled_parent_sku
  parent_adds order row p = step_of _ _ _ _ (parent_sku_line row (length order.skus + 1)) λ sku q.
      good (record {
        of_shop = p.of_shop;
        has_po_no = p.has_po_no;
        counts =
            CountsFrom-concat (λ (s : TemuProfitSettledParentSku Float). s.line_no) 1 order.skus sku
              p.counts (q ∙ omega arith);
      })

  -- Where parseSettledParentOrders succeeds: the rows with text below the headings are orders, each
  -- of a row with a PO number and the rows without one after it, in turn, and each order is read from
  -- its rows; it is of the given shop and has a number, and its SKUs are numbered from 1.
  pub parse_settled_parent_orders-IsRead :
      (rows : List Row) (orders : List (TemuProfitSettledParentOrder Float))
      → parse_settled_parent_orders F shop_key rows ≡ ok orders
      → Blocks
          (parse_settled_parent_order_row F shop_key)
          (add_settled_parent_sku F shop_key)
          (filled (drop (heading_rows 1 rows) rows))
          orders
        × All IsSettledParent orders
  unfolding parse_settled_parent_orders
  parse_settled_parent_orders-IsRead rows orders h =
      let (u, p, q) = chain-eq-ok (require_headers rows ("PO单号" ∷ "商品信息" ∷ [])) _ h in
      let b =
        order_rows-Blocks (parse_settled_parent_order_row F shop_key)
          (add_settled_parent_sku F shop_key) (suc (heading_rows 1 rows))
          (drop (heading_rows 1 rows) rows) orders q in
      (
        b,
        Blocks-All (parse_settled_parent_order_row F shop_key) (add_settled_parent_sku F shop_key)
            IsSettledParent (λ row a s e. Ensures-eq _ _ (parent_starts row s) e)
            (λ a row b p e. Ensures-eq _ _ (parent_adds a row p) e) b,
      )

  unsettle_sku_line :
      (row : Row) (n : ℕ)
      → Ensures
          (λ (s : TemuProfitUnsettleSku Float). s.line_no ≡ n)
          (parse_unsettle_sku F shop_key row n)
  unfolding parse_unsettle_sku
  unsettle_sku_line row n = step _ (parse_required_int64 F (cell row 1) "SKU ID") _ λ _.
      step _ (parse_required_float F (cell row 3) "件数") _
        λ _. step _ (parse_required_float F (cell row 4) "申报价格") _ λ _. good refl

  first_unsettle_sku_counts :
      (row : Row)
      → Ensures
          (CountsFrom (λ (s : TemuProfitUnsettleSku Float). s.line_no) 1)
          (first_unsettle_sku F shop_key row)
  unfolding first_unsettle_sku
  first_unsettle_sku_counts row =
      Ensures-if _ (is_empty (cell row 1)) (λ _. good tt)
        λ _. step_of _ _ _ _ (unsettle_sku_line row 1) λ sku q. good (q, tt)

  starts-IsUnsettle :
      (row : Row) → starts row ≡ true → Ensures IsUnsettle (parse_unsettle_order_row F shop_key row)
  unfolding parse_unsettle_order_row
  starts-IsUnsettle row s = step _ (parse_optional_float_or_zero F (cell row 6)) _ λ _.
      step _ (parse_optional_float_or_zero F (cell row 7)) _ λ _.
        step _ (parse_optional_float_or_zero F (cell row 8)) _ λ _.
          step _ (parse_optional_float_or_zero F (cell row 9)) _ λ _.
            step _ (parse_optional_float_or_zero F (cell row 10)) _ λ _.
              step _ (parse_optional_float_or_zero F (cell row 11)) _ λ _.
                step_of _ _ _ _ (first_unsettle_sku_counts row)
                  λ skus q. good (record { of_shop = refl; has_po_no = ground arith; counts = q })

  adds-IsUnsettle :
      (order : TemuProfitUnsettleOrder Float) (row : Row)
      → IsUnsettle order
      → Ensures IsUnsettle (add_unsettle_sku F shop_key order row)
  unfolding add_unsettle_sku
  adds-IsUnsettle order row p =
      step_of _ _ _ _ (unsettle_sku_line row (length order.skus + 1)) λ sku q. good (record {
        of_shop = p.of_shop;
        has_po_no = p.has_po_no;
        counts =
            CountsFrom-concat (λ (s : TemuProfitUnsettleSku Float). s.line_no) 1 order.skus sku
              p.counts (q ∙ omega arith);
      })

  -- Where parseUnsettleOrders succeeds: the rows with text below the headings are orders, each of a
  -- row with a PO number and the rows without one after it, in turn, and each order is read from its
  -- rows; it is of the given shop and has a number, and its SKUs are numbered from 1.
  pub parse_unsettle_orders-IsRead :
      (rows : List Row) (orders : List (TemuProfitUnsettleOrder Float))
      → parse_unsettle_orders F shop_key rows ≡ ok orders
      → Blocks
          (parse_unsettle_order_row F shop_key)
          (add_unsettle_sku F shop_key)
          (filled (drop (heading_rows 1 rows) rows))
          orders
        × All IsUnsettle orders
  unfolding parse_unsettle_orders
  parse_unsettle_orders-IsRead rows orders h =
      let (u, p, q) = chain-eq-ok (require_headers rows ("PO单号" ∷ "商品信息" ∷ [])) _ h in
      let b =
        order_rows-Blocks (parse_unsettle_order_row F shop_key) (add_unsettle_sku F shop_key)
          (suc (heading_rows 1 rows)) (drop (heading_rows 1 rows) rows) orders q in
      (
        b,
        Blocks-All (parse_unsettle_order_row F shop_key) (add_unsettle_sku F shop_key) IsUnsettle
            (λ row a s e. Ensures-eq _ _ (starts-IsUnsettle row s) e)
            (λ a row b p e. Ensures-eq _ _ (adds-IsUnsettle a row p) e) b,
      )
