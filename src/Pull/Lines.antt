-- ===== src/Pull/Lines.antt =====
-- What holds of an order that parseTemuSalesOrder reads.
use pangu_sales_manager.Base.{
  ◌≤◌, length, ℤ, pos, eq_ℤ, eq_ℤ_iff, Text, codes, true, false, not, ◌||◌, List, [], ◌∷◌, ◌++◌,
  map, Option, none, some, ok, wrap, Ensures, good, bad, Ensures-bind as step,
  Ensures-bind_of as step_of, Ensures-if, Ensures-eq, if_rule, any, text_eq, text_eq_iff, is_empty,
  trim_space, All, All-mono, ◌≡◌, ◌≢◌, refl, sym, ◌∙◌, ◌⊎◌, inl, inr, arith, subst,
}
use pangu_sales_manager.Profit.Numbers.{Formats}
use pangu_sales_manager.Pull.Types.{SourceOrder, SourceLine, InventoryRow}
use pangu_sales_manager.Pull.Letters.{Letters, folds_to, fold_letter}
use pangu_sales_manager.Pull.Matching.{match_warehouse_sku, temu_status}
use pangu_sales_manager.Pull.TemuOrders.{
  cause, TemuPayload, TemuLine, Decoder, with_parent, is_eligible, product_or, first_product,
  plain_line, with_match, source_line, is_invalid, check_line, source_lines, lines_of,
  parse_temu_sales_order,
}

module _ (F : Formats) (L : Letters) (D : Decoder F.Float) where
  open F use {Float, zero_float, lt_float}

  -- A line of the order: it has a key and an SKU, it sells nothing if the order does not count, and
  -- never less than nothing; its suggested SKU is inferred just if it differs in more than capitals.
  pub record IsLineOf (order : SourceOrder) (line : SourceLine Float) : Type 0 where
    pub of_order : line.order_no ≡ order.order_no
    pub of_shop : line.shop_key ≡ order.shop_key
    pub of_warehouse : line.warehouse_code ≡ order.warehouse_code
    pub has_key : is_empty line.source_line_key ≡ false
    pub has_sku : is_empty line.platform_sku ≡ false
    pub not_sold : order.sales_eligible ≡ false → line.quantity ≡ zero_float
    pub not_negative : lt_float line.quantity zero_float ≡ false
    pub mapped :
        ((folds_to L line.suggested_sku line.platform_sku ≡ true)
          × (line.mapping_status ≡ "identity"))
        ⊎ ((folds_to L line.suggested_sku line.platform_sku ≡ false)
            × (line.mapping_status ≡ "inferred"))

  -- The key is none of those seen.
  abbrev IsNew : List Text → SourceLine Float → Type 0
  IsNew seen line = any (text_eq line.source_line_key) seen ≡ false

  -- No two lines have the same key.
  abbrev pub DistinctKeys : List (SourceLine Float) → Type 0
  DistinctKeys [] = Unit
  DistinctKeys (line ∷ lines) =
      All (λ (l : SourceLine Float). text_eq l.source_line_key line.source_line_key ≡ false) lines
      × DistinctKeys lines

  folds_refl : (s : Text) → folds_to L s s ≡ true
  unfolding folds_to
  folds_refl s = (text_eq_iff (map (fold_letter L) s) (map (fold_letter L) s)).1 refl

  with_match-IsLineOf :
      (order : SourceOrder) (line : SourceLine Float) (found : Option Text)
      → IsLineOf order line
      → line.mapping_status ≡ "identity"
      → IsLineOf order (with_match F L D line found)
  unfolding with_match
  with_match-IsLineOf order line none h m = h
  with_match-IsLineOf order line (some n) h m =
      if_rule (IsLineOf order) (folds_to L n line.platform_sku)
        (λ e. record {
          of_order = h.of_order;
          of_shop = h.of_shop;
          of_warehouse = h.of_warehouse;
          has_key = h.has_key;
          has_sku = h.has_sku;
          not_sold = h.not_sold;
          not_negative = h.not_negative;
          mapped = inl (e, m);
        })
        (λ e. record {
          of_order = h.of_order;
          of_shop = h.of_shop;
          of_warehouse = h.of_warehouse;
          has_key = h.has_key;
          has_sku = h.has_sku;
          not_sold = h.not_sold;
          not_negative = h.not_negative;
          mapped = inr (e, refl);
        })

  with_match_key :
      (line : SourceLine Float) (found : Option Text)
      → (with_match F L D line found).source_line_key ≡ line.source_line_key
  unfolding with_match
  with_match_key line none = refl
  with_match_key line (some n) =
      if_rule (λ (l : SourceLine Float). l.source_line_key ≡ line.source_line_key)
        (folds_to L n line.platform_sku) (λ _. refl) (λ _. refl)

  module _ (irrefl : lt_float zero_float zero_float ≡ false) where
    plain_line-IsLineOf :
        (order : SourceOrder) (raw : Text) (v : TemuLine Float) (product : Text × ℤ)
        → is_empty v.order_sn ≡ false
        → lt_float v.quantity zero_float ≡ false
        → is_empty product.0 ≡ false
        → IsLineOf order (plain_line F L D order raw v product)
    unfolding plain_line
    plain_line-IsLineOf order raw v (sku, id) a b c = record {
      of_order = refl;
      of_shop = refl;
      of_warehouse = refl;
      has_key = a;
      has_sku = c;
      not_sold = λ e. ground arith;
      not_negative =
          if_rule (λ q. lt_float q zero_float ≡ false)
            (eq_ℤ v.status (pos 3) || not order.sales_eligible) (λ _. irrefl) (λ _. b);
      mapped = inl (folds_refl sku, refl);
    }

    -- The lines that one entry gives: one of the order with the key of the entry, or none.
    abbrev Gives : SourceOrder → TemuLine Float → List (SourceLine Float) → Type 0
    Gives order v lines =
        All (λ (l : SourceLine Float). IsLineOf order l × (l.source_line_key ≡ v.order_sn)) lines
        × (length lines ≤ 1)

    source_line-Gives :
        (order : SourceOrder) (inventory : List (InventoryRow Float)) (raw : Text)
        (v : TemuLine Float)
        → is_empty v.order_sn ≡ false
        → lt_float v.quantity zero_float ≡ false
        → Gives order v (source_line F L D order inventory raw v)
    unfolding source_line plain_line
    source_line-Gives order inventory raw v a b =
        let product = product_or (trim_space v.ext_code) (first_product v.products) in
        let line = plain_line F L D order raw v product in
        let found = match_warehouse_sku L product.0 inventory in
        if_rule (Gives order v) (is_empty product.0) (λ _. (tt, omega arith))
          (λ c. (
            (
              (
                with_match-IsLineOf order line found (plain_line-IsLineOf order raw v product a b c)
                    refl,
                with_match_key line found ∙ refl,
              ),
              tt,
            ),
            omega arith,
          ))

    -- What the lines of the rest hold, after the keys seen.
    abbrev Rest : SourceOrder → List Text → List (SourceLine Float) → Type 0
    Rest order seen lines = All (IsLineOf order) lines × All (IsNew seen) lines × DistinctKeys lines

    any-IsNew :
        (sn : Text) (seen : List Text) (l : SourceLine Float) → IsNew (sn ∷ seen) l → IsNew seen l
    any-IsNew sn seen l h = ground arith

    key_after :
        (sn : Text) (seen : List Text) (l k : SourceLine Float)
        → k.source_line_key ≡ sn
        → IsNew (sn ∷ seen) l
        → text_eq l.source_line_key k.source_line_key ≡ false
    key_after sn seen l k e h =
        subst (λ t. text_eq l.source_line_key t ≡ false) (sym e) (ground arith)

    join :
        (order : SourceOrder) (seen : List Text) (v : TemuLine Float)
        (new rest : List (SourceLine Float))
        → any (text_eq v.order_sn) seen ≡ false
        → Gives order v new
        → Rest order (v.order_sn ∷ seen) rest
        → Rest order seen (new ++ rest)
    join order seen v [] rest n g (a, b, c) =
        (a, All-mono _ _ rest (λ l h. any-IsNew v.order_sn seen l h) b, c)
    join order seen v (l ∷ []) rest n g (a, b, c) = (
      (g.0.0.0, a),
      (
        subst (λ t. any (text_eq t) seen ≡ false) (sym g.0.0.1) n,
        All-mono _ _ rest (λ l h. any-IsNew v.order_sn seen l h) b,
      ),
      (All-mono _ _ rest (λ k h. key_after v.order_sn seen k l g.0.0.1 h) b, c),
    )
    join order seen v (l ∷ m ∷ ls) rest n g r = absurd (omega (arith, g.1))

    -- What the check of a line lets through.
    abbrev Checked : List Text → TemuLine Float → Type 0
    Checked seen v =
        (is_empty v.order_sn ≡ false)
        × (any (text_eq v.order_sn) seen ≡ false)
        × (lt_float v.quantity zero_float ≡ false)

    check_line-Checked :
        (seen : List Text) (v : TemuLine Float)
        → Ensures (λ (u : Unit {0}). Checked seen v) (check_line F L D seen v)
    unfolding is_invalid
    check_line-Checked seen v =
        Ensures-if _ (is_invalid F L D seen v) (λ _. bad) (λ e. good (ground arith))

    source_lines-Rest :
        (order : SourceOrder) (inventory : List (InventoryRow Float)) (seen raws : List Text)
        → Ensures (Rest order seen) (source_lines F L D order inventory seen raws)
    unfolding source_lines
    source_lines-Rest order inventory seen [] = good (tt, tt, tt)
    source_lines-Rest order inventory seen (raw ∷ raws) =
        step _ (wrap cause (D.decode_line raw)) _ λ v.
          step_of _ (λ (u : Unit {0}). Checked seen v) _ _ (check_line-Checked seen v)
            λ u c.
              step_of _ (Rest order (v.order_sn ∷ seen)) _ _
                (source_lines-Rest order inventory (v.order_sn ∷ seen) raws)
                λ rest r. good (
                  join order seen v (source_line F L D order inventory raw v) rest c.1
                    (source_line-Gives order inventory raw v c.0 c.2) r)

    -- An order that counts is not one that was cancelled.
    eligible_status : (s : ℤ) → is_eligible s ≡ true → temu_status s ≢ codes "cancelled"
    unfolding is_eligible temu_status
    eligible_status s h e = ground (
      arith,
      eq_ℤ_iff s (pos 1),
      eq_ℤ_iff s (pos 2),
      eq_ℤ_iff s (pos 3),
      eq_ℤ_iff s (pos 4),
      eq_ℤ_iff s (pos 5),
    )

    pub record IsParsed (order parsed : SourceOrder) (lines : List (SourceLine Float))
        : Type 0 where
      pub same_order : parsed.order_no ≡ order.order_no
      pub same_shop : parsed.shop_key ≡ order.shop_key
      pub counts : parsed.sales_eligible ≡ true → parsed.normalized_status ≢ codes "cancelled"
      pub of_order : All (IsLineOf parsed) lines
      pub distinct : DistinctKeys lines

    with_parent-IsParsed :
        (order : SourceOrder) (payload : TemuPayload) (lines : List (SourceLine Float))
        → Rest (with_parent order payload) [] lines
        → IsParsed order (with_parent order payload) lines
    unfolding with_parent
    with_parent-IsParsed order payload lines r = record {
      same_order = refl;
      same_shop = refl;
      counts = eligible_status payload.status;
      of_order = r.0;
      distinct = r.2;
    }

    -- Where the zero of the floats is not below itself, an order that parseTemuSalesOrder reads keeps
    -- its number and shop and counts only if it was not cancelled; each of its lines has a key and an
    -- SKU, sells nothing if the order does not count, and never less than nothing, and says whether
    -- its SKU was inferred; and no two lines have the same key.
    pub parse_temu_sales_order-IsParsed :
        (order : SourceOrder) (inventory : List (InventoryRow Float)) (parsed : SourceOrder)
        (lines : List (SourceLine Float))
        → parse_temu_sales_order F L D order inventory ≡ ok (parsed, lines)
        → IsParsed order parsed lines
    unfolding parse_temu_sales_order
    parse_temu_sales_order-IsParsed order inventory parsed lines h =
        Ensures-eq (λ (r : SourceOrder × List (SourceLine Float)). IsParsed order r.0 r.1) _
          (step _ (wrap cause (D.decode_payload order.raw_payload)) _ λ payload.
            step _ (lines_of F L D payload payload.lines) _ λ raws.
              step_of _ (Rest (with_parent order payload) []) _ _
                (source_lines-Rest (with_parent order payload) inventory [] raws)
                λ found r. good (with_parent-IsParsed order payload found r))
          h
