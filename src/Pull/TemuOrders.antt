-- ===== src/Pull/TemuOrders.antt =====
-- temu_sales_source.go: parseTemuSalesOrder, an order and its lines from a stored snapshot.
use pangu_sales_manager.Base.{
  ◌+◌, ◌*◌, ℤ, pos, negsuc, eq_ℤ, lt_ℤ, positive, ◌+ℤ◌, Text, Bool, not, ◌||◌, List, [], ◌∷◌, ◌++◌,
  Option, none, some, Result, ok, err, ◌>>=◌, wrap, if◌then◌else◌, any, text_eq, is_empty,
  trim_space,
}
use pangu_sales_manager.Marketing.State.{Time}
use pangu_sales_manager.Profit.Numbers.{Formats}
use pangu_sales_manager.Pull.Types.{SourceOrder, SourceLine, InventoryRow}
use pangu_sales_manager.Pull.Letters.{Letters, folds_to, show_int}
use pangu_sales_manager.Pull.Matching.{temu_status, match_warehouse_sku}

pub data PullError : Type 0 where
  cause : Text → PullError
  incomplete_snapshot : PullError
  invalid_order_line : PullError

-- The fields that are read from the JSON of an order; the list of lines may be missing.
pub record TemuPayload : Type 0 where
  pub time : ℤ
  pub status : ℤ
  pub lines : Option (List Text)

pub record TemuProduct : Type 0 where
  pub sku : Text
  pub id : ℤ

pub record TemuLine (Float : Type 0) : Type 0 where
  pub order_sn : Text
  pub status : ℤ
  pub quantity : Float
  pub ext_code : Text
  pub name : Text
  pub original_name : Text
  pub spec : Text
  pub original_spec : Text
  pub products : List TemuProduct

-- `json.Unmarshal` into these.
pub record Decoder (Float : Type 0) : Type 0 where
  pub decode_payload : Text → Result Text TemuPayload
  pub decode_line : Text → Result Text (TemuLine Float)

-- `time.Unix`: seconds since 1970, which is 62,135,596,800 seconds after Go's zero time.
unfoldable pub unix_time : ℤ → Time
unfolding ◌+ℤ◌
unix_time (pos n) = pos ((62135596800 + n) * 1000000000)
unix_time (negsuc n) = pos (62135596800 * 1000000000) +ℤ negsuc (n * 1000000000 + 999999999)

unfoldable pub is_eligible : ℤ → Bool
unfolding eq_ℤ
is_eligible status =
    eq_ℤ status (pos 1) || eq_ℤ status (pos 2) || eq_ℤ status (pos 4) || eq_ℤ status (pos 5)

-- The order with its status and time.
unfoldable pub with_parent : SourceOrder → TemuPayload → SourceOrder
unfolding show_int temu_status is_eligible positive unix_time
with_parent order payload = record order {
  source_status = show_int payload.status;
  normalized_status = temu_status payload.status;
  sales_eligible = is_eligible payload.status;
  occurred_at = if positive payload.time then unix_time payload.time else order.first_seen_at;
  occurred_at_source = if positive payload.time then "platform_order_time" else "first_seen";
}

-- The first product with an SKU: the trimmed SKU and the id.
unfoldable pub first_product : List TemuProduct → Option (Text × ℤ)
unfolding trim_space
first_product [] = none
first_product (p ∷ products) =
    let rest = first_product products in
    if is_empty (trim_space p.sku) then rest else some (trim_space p.sku, p.id)

abbrev pub product_or : Text → Option (Text × ℤ) → Text × ℤ
product_or sku none = (sku, pos 0)
product_or sku (some product) = product

abbrev pub or_original : Text → Text → Text
or_original original text = if is_empty original then text else original

module _ (F : Formats) (L : Letters) (D : Decoder F.Float) where
  open F use {Float, zero_float, lt_float, of_nat}

  -- The line before the SKU is looked up in the inventory.
  unfoldable pub plain_line : SourceOrder → Text → TemuLine Float → Text × ℤ → SourceLine Float
  unfolding eq_ℤ
  plain_line order raw v (sku, product_id) = record {
    platform = "temu";
    shop_key = order.shop_key;
    order_no = order.order_no;
    source_line_key = v.order_sn;
    platform_sku = sku;
    product_sku_id = product_id;
    suggested_sku = sku;
    product_name = or_original v.original_name v.name;
    variant_name = or_original v.original_spec v.spec;
    warehouse_code = order.warehouse_code;
    quantity = if eq_ℤ v.status (pos 3) || not order.sales_eligible then zero_float else v.quantity;
    conversion_factor = of_nat 1;
    mapping_source = "platform_ext_code";
    mapping_status = "identity";
    unit_price = none;
    currency = [];
    raw_payload = raw;
  }

  unfoldable pub with_match : SourceLine Float → Option Text → SourceLine Float
  unfolding folds_to
  with_match line none = line
  with_match line (some normalized) =
      if folds_to L normalized line.platform_sku
      then record line { suggested_sku = normalized }
      else record line {
        suggested_sku = normalized;
        mapping_source = "xlwms_sku_normalized";
        mapping_status = "inferred";
      }

  -- A line without an SKU is left out.
  unfoldable pub source_line :
      SourceOrder → List (InventoryRow Float) → Text → TemuLine Float → List (SourceLine Float)
  unfolding trim_space first_product plain_line with_match match_warehouse_sku
  source_line order inventory raw v =
      let product = product_or (trim_space v.ext_code) (first_product v.products) in
      if is_empty product.0
      then []
      else with_match (plain_line order raw v product) (match_warehouse_sku L product.0 inventory)
        ∷ []

  unfoldable pub is_invalid : List Text → TemuLine Float → Bool
  unfolding text_eq
  is_invalid seen v =
      is_empty v.order_sn || any (text_eq v.order_sn) seen || lt_float v.quantity zero_float

  abbrev pub check_line : List Text → TemuLine Float → Result PullError (Unit {0})
  check_line seen v = if is_invalid seen v then err invalid_order_line else ok tt

  unfoldable pub source_lines :
      SourceOrder
      → List (InventoryRow Float)
      → List Text
      → List Text
      → Result PullError (List (SourceLine Float))
  unfolding is_invalid source_line
  source_lines order inventory seen [] = ok []
  source_lines order inventory seen (raw ∷ raws) = do
    v ← wrap cause (D.decode_line raw)
    _ ← check_line seen v
    rest ← source_lines order inventory (v.order_sn ∷ seen) raws
    ok (source_line order inventory raw v ++ rest)

  abbrev pub lines_of : TemuPayload → Option (List Text) → Result PullError (List Text)
  lines_of payload none = err incomplete_snapshot
  lines_of payload (some raws) =
      if lt_ℤ payload.status (pos 1) then err incomplete_snapshot else ok raws

  unfoldable pub parse_temu_sales_order :
      SourceOrder
      → List (InventoryRow Float)
      → Result PullError (SourceOrder × List (SourceLine Float))
  unfolding lt_ℤ with_parent source_lines
  parse_temu_sales_order order inventory = do
    payload ← wrap cause (D.decode_payload order.raw_payload)
    raws ← lines_of payload payload.lines
    let parsed = with_parent order payload
    lines ← source_lines parsed inventory [] raws
    ok (parsed, lines)
