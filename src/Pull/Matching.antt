-- ===== src/Pull/Matching.antt =====
-- syncer.go: matchWarehouseCode, matchWarehouseSKU, onlyDigits and temuStatus.
use pangu_sales_manager.Base.{
  text_Eq, ℕ, ℤ, pos, eq_ℤ, Text, codes, Bool, true, not, ◌&&◌, ◌||◌, List, [], ◌∷◌, ◌++◌, map,
  drop, length, fold, Option, none, some, if◌then◌else◌, ltb, leb, insert, lookup, sort_by, text_eq,
  is_empty, trim_space, starts_with, ends_with, contains_text,
}
use pangu_sales_manager.Pull.Types.{InventoryRow, Warehouse}
use pangu_sales_manager.Pull.Letters.{Letters, upper, byte_length, show_int}

abbrev pub is_digit : ℕ → Bool
is_digit c = leb 48 c && leb c 57

unfoldable pub all_digits : Text → Bool
all_digits [] = true
all_digits (c ∷ cs) = is_digit c && all_digits cs

unfoldable pub only_digits : Text → Bool
unfolding all_digits
only_digits value = all_digits value && not (is_empty value)

unfoldable pub temu_status : ℤ → Text
unfolding eq_ℤ show_int
temu_status status =
    if eq_ℤ status (pos 2)
    then codes "pending_shipping"
    else if eq_ℤ status (pos 1)
    then codes "pending_processing"
    else if eq_ℤ status (pos 3)
    then codes "cancelled"
    else if eq_ℤ status (pos 4)
    then codes "shipped"
    else if eq_ℤ status (pos 5)
    then codes "delivered"
    else codes "status_" ++ show_int status

module _ (L : Letters) where
  -- `sort.Slice`: the longer code first.
  abbrev pub longer : Text → Text → Bool
  longer a b = ltb (byte_length b) (byte_length a)

  unfoldable pub warehouse_codes : List Warehouse → List Text
  unfolding upper
  warehouse_codes warehouses = map (λ (w : Warehouse). upper L w.code) warehouses

  unfoldable pub first_contained : Text → List Text → Text
  unfolding contains_text
  first_contained normalized [] = []
  first_contained normalized (code ∷ rest) =
      let later = first_contained normalized rest in
      if contains_text code normalized then code else later

  unfoldable pub match_warehouse_code : Text → List Warehouse → Text
  unfolding upper trim_space warehouse_codes sort_by first_contained byte_length
  match_warehouse_code source warehouses =
      let normalized = upper L (trim_space source) in
      if is_empty normalized
      then []
      else first_contained normalized (sort_by longer (warehouse_codes warehouses))

  -- The key that an SKU is found by.
  unfoldable pub normalized_sku : Text → Text
  unfolding upper trim_space
  normalized_sku sku = upper L (trim_space sku)

  module _ {Float : Type 0} where
    unfoldable pub add_candidate : List (Text × Text) → InventoryRow Float → List (Text × Text)
    unfolding normalized_sku insert text_eq
    add_candidate candidates row =
        let key = normalized_sku row.warehouse_sku in
        if is_empty key then candidates else insert key row.warehouse_sku candidates

    -- The later row of a key counts.
    unfoldable pub sku_candidates : List (InventoryRow Float) → List (Text × Text)
    unfolding add_candidate
    sku_candidates inventory = fold add_candidate [] inventory

  -- What follows the key and a dash is one to four digits.
  unfoldable pub has_numbered_suffix : Text → Text → Bool
  unfolding starts_with byte_length only_digits
  has_numbered_suffix source key =
      let suffix = drop (length (key ++ codes "-")) source in
      starts_with (key ++ codes "-") source
      && not (is_empty suffix || ltb 4 (byte_length suffix) || not (only_digits suffix))

  -- One round of the walk over the candidates.
  unfoldable pub better_sku : Text → Text → Text × Text → Text
  unfolding has_numbered_suffix upper byte_length
  better_sku source best (key, original) =
      if has_numbered_suffix source key && ltb (byte_length (upper L best)) (byte_length key)
      then original
      else best

  -- The walk, in the order of the given entries.
  unfoldable pub best_sku : Text → List (Text × Text) → Text
  unfolding better_sku
  best_sku source entries = fold (better_sku source) [] entries

  abbrev pub found_text : Text → Option Text
  found_text [] = none
  found_text (c ∷ cs) = some (c ∷ cs)

  abbrev pub or_unit_or_best : Text → List (Text × Text) → Option Text → Option Text
  unfolding best_sku ends_with
  or_unit_or_best source entries (some missing_unit) =
      if ends_with (codes "C") source
      then some missing_unit
      else found_text (best_sku source entries)
  or_unit_or_best source entries none = found_text (best_sku source entries)

  abbrev pub or_exact : Text → List (Text × Text) → List (Text × Text) → Option Text → Option Text
  unfolding best_sku ends_with lookup text_eq
  or_exact source candidates entries (some exact) = some exact
  or_exact source candidates entries none =
      or_unit_or_best source entries (lookup (source ++ codes "M") candidates)

  -- The SKU and `true` are `some`; `entries` are the candidates in the order in which Go walks the map.
  unfoldable pub match_in : Text → List (Text × Text) → List (Text × Text) → Option Text
  unfolding best_sku ends_with lookup text_eq
  match_in source candidates entries =
      if is_empty source
      then none
      else or_exact source candidates entries (lookup source candidates)

  unfoldable pub match_warehouse_sku :
      {Float : Type 0} → Text → List (InventoryRow Float) → Option Text
  unfolding normalized_sku sku_candidates match_in
  match_warehouse_sku source inventory =
      let candidates = sku_candidates inventory in
      match_in (normalized_sku source) candidates candidates
