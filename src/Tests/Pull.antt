-- ===== src/Tests/Pull.antt =====
-- Runs of the order pull: an inventory of two SKUs, two warehouses and an order of two lines.
use pangu_sales_manager.Base.{
  text_Eq, ℤ, pos, String, Text, codes, true, false, List, [], ◌∷◌, Option, none, some, Result, ok,
  lookup, if◌then◌else◌, lt_ℤ_irrefl, arith, text_eq, text_eq_iff, trim_space, ◌≡◌, refl,
}
use pangu_sales_manager.Pull.Types.{SourceOrder, SourceLine, InventoryRow, Warehouse}
use pangu_sales_manager.Pull.Letters.{Letters, upper}
use pangu_sales_manager.Pull.Matching.{
  sku_candidates, normalized_sku, match_in, match_warehouse_sku, warehouse_codes,
  match_warehouse_code,
}
use pangu_sales_manager.Pull.Determined.{IsWalk, match_warehouse_sku_walk}
use pangu_sales_manager.Pull.Longest.{IsLongest, match_warehouse_code-IsLongest}
use pangu_sales_manager.Pull.TemuOrders.{TemuLine, Decoder, parse_temu_sales_order}
use pangu_sales_manager.Pull.Lines.{IsParsed, parse_temu_sales_order-IsParsed}
use pangu_sales_manager.Tests.Profit.{whole}

abbrev plain : Letters
plain = record { upper_other = λ c. c; fold_other = λ c. c }

abbrev stock : String → InventoryRow ℤ
stock sku = record {
  warehouse_code = codes "US1";
  warehouse_name = codes "West";
  warehouse_sku = codes sku;
  total = pos 5;
  available = pos 5;
  locked = pos 0;
  in_transit = pos 0;
  statistic_date = none;
  updated_at = none;
}

abbrev stocks : List (InventoryRow ℤ)
stocks = stock "Lamp-M" ∷ stock "Shade" ∷ []

-- The two candidates, the other way round.
abbrev entries : List (Text × Text)
entries = (codes "SHADE", codes "Shade") ∷ (codes "LAMP-M", codes "Lamp-M") ∷ []

-- Tests for two keys can be made in either order.
swap_tests :
    (a b k : Text) (x y z : Option Text)
    → text_eq a b ≡ false
    → (if text_eq a k then x else if text_eq b k then y else z)
      ≡ (if text_eq b k then y else if text_eq a k then x else z)
swap_tests a b k x y z h = ground (arith, text_eq_iff a k, text_eq_iff b k, text_eq_iff a b)

entries-IsWalk : IsWalk (sku_candidates plain stocks) entries
unfolding sku_candidates lookup
entries-IsWalk = record {
  distinct = ((refl, tt), (tt, tt));
  same = λ k. swap_tests (codes "SHADE") (codes "LAMP-M") k _ _ _ refl;
}

match_warehouse_sku_walk_example :
    match_in plain (normalized_sku plain (codes " shade-12 ")) (sku_candidates plain stocks) entries
    ≡ match_warehouse_sku plain (codes " shade-12 ") stocks
match_warehouse_sku_walk_example =
    match_warehouse_sku_walk plain (codes " shade-12 ") stocks entries entries-IsWalk

abbrev warehouse : String → Warehouse
warehouse code = record { code = codes code; name = []; active = true }

abbrev warehouses : List Warehouse
warehouses = warehouse "us" ∷ warehouse "us-west" ∷ []

match_warehouse_code-IsLongest_example :
    IsLongest plain
      (upper plain (trim_space (codes " xlwms us-west 2")))
      (warehouse_codes plain warehouses)
      (match_warehouse_code plain (codes " xlwms us-west 2") warehouses)
match_warehouse_code-IsLongest_example =
    match_warehouse_code-IsLongest plain (codes " xlwms us-west 2") warehouses

longest_found : match_warehouse_code plain (codes " xlwms us-west 2") warehouses ≡ codes "US-WEST"
unfolding match_warehouse_code
longest_found = refl

abbrev order_line : String → ℤ → ℤ → String → TemuLine ℤ
order_line sn status quantity sku = record {
  order_sn = codes sn;
  status = status;
  quantity = quantity;
  ext_code = codes sku;
  name = codes "lamp";
  original_name = [];
  spec = [];
  original_spec = codes "large";
  products = [];
}

-- A line is the text of its number; any other text is the order.
abbrev lines_by : Text → Result Text (TemuLine ℤ)
lines_by raw =
    if text_eq raw (codes "1")
    then ok (order_line "L1" (pos 4) (pos 2) "Shade-12")
    else ok (order_line "L2" (pos 3) (pos 1) "other")

abbrev decoder : Decoder ℤ
decoder = record {
  decode_payload = λ raw.
      ok (record { time = pos 0; status = pos 4; lines = some (codes "1" ∷ codes "2" ∷ []) });
  decode_line = lines_by;
}

abbrev stored : SourceOrder
stored = record {
  platform = "temu";
  shop_key = "panda-buy";
  order_no = codes "PO-1";
  source_status = [];
  normalized_status = [];
  occurred_at = pos 0;
  occurred_at_source = "";
  warehouse_code = codes "US1";
  sales_eligible = false;
  first_seen_at = pos 7;
  updated_at = pos 9;
  raw_payload = codes "order";
}

abbrev read_order : SourceOrder
read_order = record stored {
  source_status = codes "4";
  normalized_status = codes "shipped";
  sales_eligible = true;
  occurred_at = pos 7;
  occurred_at_source = "first_seen";
}

abbrev read_line : String → String → String → String → String → String → ℤ → SourceLine ℤ
read_line key raw sku suggested source status quantity = record {
  platform = "temu";
  shop_key = "panda-buy";
  order_no = codes "PO-1";
  source_line_key = codes key;
  platform_sku = codes sku;
  product_sku_id = pos 0;
  suggested_sku = codes suggested;
  product_name = codes "lamp";
  variant_name = codes "large";
  warehouse_code = codes "US1";
  quantity = quantity;
  conversion_factor = pos 1;
  mapping_source = source;
  mapping_status = status;
  unit_price = none;
  currency = [];
  raw_payload = codes raw;
}

abbrev read_lines : List (SourceLine ℤ)
read_lines =
    read_line "L1" "1" "Shade-12" "Shade" "xlwms_sku_normalized" "inferred" (pos 2)
    ∷ read_line "L2" "2" "other" "other" "platform_ext_code" "identity" (pos 0)
    ∷ []

parse_temu_sales_order-IsParsed_example :
    IsParsed whole plain decoder (lt_ℤ_irrefl (pos 0)) stored read_order read_lines
unfolding parse_temu_sales_order
parse_temu_sales_order-IsParsed_example =
    parse_temu_sales_order-IsParsed whole plain decoder (lt_ℤ_irrefl (pos 0)) stored stocks
      read_order read_lines refl
