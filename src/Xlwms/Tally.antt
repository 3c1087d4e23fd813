-- ===== src/Xlwms/Tally.antt =====
-- What a list of records comes to.
use pangu_sales_manager.Base.{
  text_Eq, ℕ, suc, ◌+◌, Text, List, [], ◌∷◌, fold, Option, none, some, if◌then◌else◌, lookup,
  lookup-insert, text_eq, ◌≡◌, refl, ap, ◌∙◌, arith,
}
use pangu_sales_manager.Xlwms.{Listed, add_items, add_record}
use pangu_sales_manager.XlwmsData.{Transport, PairingItem, Pairing, Mapping}

-- The mapping that a record is for, if it holds one item.
abbrev pub mapping_of : Text → List PairingItem → Option Mapping
mapping_of sku (item ∷ []) =
    some (record { platform_sku = sku; warehouse_sku = item.system_sku; quantity = item.quantity })
mapping_of sku [] = none
mapping_of sku (_ ∷ _ ∷ _) = none

abbrev pub or_else : Option Mapping → Option Mapping → Option Mapping
or_else (some m) o = some m
or_else none o = o

abbrev pub single_for : Text → Pairing → Option Mapping
single_for sku r = if text_eq r.platform_sku sku then mapping_of r.platform_sku r.items else none

-- The last record of one item for the SKU.
abbrev pub last_single : Text → List Pairing → Option Mapping
last_single sku [] = none
last_single sku (r ∷ rs) = or_else (last_single sku rs) (single_for sku r)

-- How many records do not hold one item.
abbrev pub bundles : List Pairing → ℕ
bundles [] = 0
bundles (r ∷ rs) = elim (mapping_of r.platform_sku r.items) [
  | some m ↦ bundles rs
  | none ↦ suc (bundles rs)
]

module _ {W : Type 0} (T : Transport W) where
  added :
      (listed : Listed T) (sku key : Text) (items : List PairingItem)
      → lookup sku (add_items T listed key items).0
        ≡ or_else (if text_eq key sku then mapping_of key items else none) (lookup sku listed.0)
  unfolding add_items
  added (m, n) sku key [] = ground arith
  added (m, n) sku key (i ∷ []) = lookup-insert key sku _ m ∙ ground arith
  added (m, n) sku key (i ∷ j ∷ is) = ground arith

  or_else_assoc : (a b c : Option Mapping) → or_else a (or_else b c) ≡ or_else (or_else a b) c
  or_else_assoc none b c = refl
  or_else_assoc (some m) b c = refl

  pub tally-lookup :
      (sku : Text) (rs : List Pairing) (listed : Listed T)
      → lookup sku (fold (add_record T) listed rs).0
        ≡ or_else (last_single sku rs) (lookup sku listed.0)
  tally-lookup sku [] listed = refl
  tally-lookup sku (r ∷ rs) listed =
      tally-lookup sku rs (add_record T listed r)
      ∙ ap (or_else (last_single sku rs)) (added listed sku r.platform_sku r.items)
      ∙ or_else_assoc (last_single sku rs) (single_for sku r) (lookup sku listed.0)

  counted :
      (listed : Listed T) (key : Text) (items : List PairingItem) (rest : ℕ)
      → (add_items T listed key items).1 + rest
        ≡ listed.1 + elim (mapping_of key items) [ some m ↦ rest | none ↦ suc rest ]
  unfolding add_items
  counted (m, n) key [] rest = omega arith
  counted (m, n) key (i ∷ []) rest = omega arith
  counted (m, n) key (i ∷ j ∷ is) rest = omega arith

  pub tally-bundles :
      (rs : List Pairing) (listed : Listed T)
      → (fold (add_record T) listed rs).1 ≡ listed.1 + bundles rs
  tally-bundles [] listed = omega arith
  tally-bundles (r ∷ rs) listed =
      tally-bundles rs (add_record T listed r) ∙ counted listed r.platform_sku r.items (bundles rs)
