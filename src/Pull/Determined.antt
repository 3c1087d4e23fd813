-- ===== src/Pull/Determined.antt =====
-- matchWarehouseSKU does not depend on the order in which Go walks its map of candidates.
use pangu_sales_manager.Base.{
  text_Eq, Text, codes, true, false, List, [], ◌∷◌, ◌++◌, fold, fold_keeps, Option, none, some,
  if◌then◌else◌, ltb, lookup, insert, All-lookup_entry, All-insert_entry, text_eq, text_eq_iff,
  is_empty, ends_with, All, All-mono, Bool-cases, ◌≡◌, ◌≢◌, refl, sym, ap, ◌∙◌, ◌⊎◌, inl, inr,
  arith, subst,
}
use pangu_sales_manager.Pull.Types.{InventoryRow}
use pangu_sales_manager.Pull.Letters.{Letters, upper, byte_length, char_bytes}
use pangu_sales_manager.Pull.Matching.{
  has_numbered_suffix, better_sku, best_sku, found_text, match_in, or_unit_or_best, or_exact,
  normalized_sku, add_candidate, sku_candidates, match_warehouse_sku,
}
use pangu_sales_manager.Pull.Suffix.{Fits, key-Fits}

-- No key stands twice.
abbrev pub Distinct : List (Text × Text) → Type 0
Distinct [] = Unit
Distinct ((k, v) ∷ m) = All (λ (e : Text × Text). text_eq k e.0 ≡ false) m × Distinct m

-- The entries are those of the map, in any order.
pub record IsWalk (candidates entries : List (Text × Text)) : Type 0 where
  pub distinct : Distinct entries
  pub same : (k : Text) → lookup k entries ≡ lookup k candidates

abbrev HasKey : Text × Text → Type 0
HasKey e = is_empty e.0 ≡ false

text_eq-ne : (j k : Text) → text_eq j k ≡ false → j ≢ k
text_eq-ne j k h e = ground (arith, text_eq_iff j k)

bytes_pos :
    (L : Letters) (k : Text)
    → is_empty k ≡ false
    → ltb (byte_length (upper L [])) (byte_length k) ≡ true
unfolding byte_length upper char_bytes
bytes_pos L [] h = cc
bytes_pos L (c ∷ cs) h = ground arith

module _ (L : Letters) (s : Text) where
  abbrev Misses : Text × Text → Type 0
  Misses e = has_numbered_suffix L s e.0 ≡ false

  fold-Misses :
      (best : Text) (m : List (Text × Text)) → All Misses m → fold (better_sku L s) best m ≡ best
  unfolding better_sku
  fold-Misses best [] h = refl
  fold-Misses best ((k, v) ∷ m) h = rw h.0 (fold-Misses best m h.1)

  none_best : (m : List (Text × Text)) → All Misses m → best_sku L s m ≡ []
  unfolding best_sku
  none_best m h = fold-Misses [] m h

  takes_first : (k v : Text) → Fits L s k → is_empty k ≡ false → better_sku L s [] (k, v) ≡ v
  unfolding better_sku
  takes_first k v h n = rw (h, bytes_pos L k n)

  others_miss :
      (k : Text) (m : List (Text × Text))
      → Fits L s k
      → All (λ (e : Text × Text). text_eq k e.0 ≡ false) m
      → All Misses m
  others_miss k m h d =
      All-mono (λ (e : Text × Text). text_eq k e.0 ≡ false) Misses m
        (λ e n. elim (Bool-cases (has_numbered_suffix L s e.0)) [
          | inl y ↦ absurd (text_eq-ne k e.0 n (key-Fits L s k e.0 h y))
          | inr y ↦ y
        ])
        d

  passes : (k v : Text) → Misses (k, v) → better_sku L s [] (k, v) ≡ []
  unfolding better_sku
  passes k v h = rw h

  key-Misses : (j k v : Text) → Fits L s k → text_eq j k ≡ false → Misses (j, v)
  key-Misses j k v f e = elim (Bool-cases (has_numbered_suffix L s j)) [
    | inl y ↦ absurd (text_eq-ne j k e (key-Fits L s j k y f))
    | inr y ↦ y
  ]

  -- The walk finds the entry of the key that fits.
  walk_finds :
      (k v : Text) (m : List (Text × Text))
      → Distinct m
      → lookup k m ≡ some v
      → Fits L s k
      → is_empty k ≡ false
      → best_sku L s m ≡ v
  unfolding best_sku lookup
  walk_finds k v [] d h f n = cc
  walk_finds k v ((j, w) ∷ m) d h f n = elim (Bool-cases (text_eq j k)) [
    | inl e ↦
        let kj : k ≡ j = sym ((text_eq_iff j k).0 e) in
        let fj : Fits L s j = subst (Fits L s) kj f in
        ap (λ b. fold (better_sku L s) b m)
          (takes_first j w fj (subst (λ t. is_empty t ≡ false) kj n))
        ∙ fold-Misses w m (others_miss j m fj d.0)
        ∙ ground arith
    | inr e ↦
        ap (λ b. fold (better_sku L s) b m) (passes j w (key-Misses j k w f e))
        ∙ walk_finds k v m d.1 (ground arith) f n
  ]

  -- An entry that fits, or none.
  abbrev Scanned : List (Text × Text) → Type 0
  Scanned m = ((k : Text) × (v : Text) × (lookup k m ≡ some v) × Fits L s k) ⊎ All Misses m

  scan_next :
      (j w : Text) (m : List (Text × Text))
      → Misses (j, w)
      → All (λ (e : Text × Text). text_eq j e.0 ≡ false) m
      → Scanned m
      → Scanned ((j, w) ∷ m)
  unfolding lookup
  scan_next j w m h d (inr n) = inr (h, n)
  scan_next j w m h d (inl (k, v, p, f)) =
      let n : text_eq j k ≡ false =
        All-lookup_entry (λ (e : Text × Text). text_eq j e.0 ≡ false) k v m p d in
      inl (k, v, rw n p, f)

  scan : (m : List (Text × Text)) → Distinct m → Scanned m
  unfolding lookup
  scan [] d = inr tt
  scan ((j, w) ∷ m) d = elim (Bool-cases (has_numbered_suffix L s j)) [
    | inl f ↦ inl (j, w, rw ((text_eq_iff j j).1 refl) refl, f)
    | inr h ↦ scan_next j w m h d.0 (scan m d.1)
  ]

  -- Two walks over the same map give the same.
  walks_agree :
      (m m' : List (Text × Text))
      → Distinct m
      → All HasKey m
      → IsWalk m m'
      → best_sku L s m' ≡ best_sku L s m
  walks_agree m m' d h w = elim (scan m' w.distinct) [
    | inl (k, v, p, f) ↦
        let q : lookup k m ≡ some v = sym (w.same k) ∙ p in
        let n : is_empty k ≡ false = All-lookup_entry HasKey k v m q h in
        walk_finds k v m' w.distinct p f n ∙ sym (walk_finds k v m d q f n)
    | inr a ↦ elim (scan m d) [
      | inl (k, v, p, f) ↦
          let q : lookup k m' ≡ some v = w.same k ∙ p in
          let n : has_numbered_suffix L s k ≡ false = All-lookup_entry Misses k v m' q a in cc
      | inr b ↦ none_best m' a ∙ sym (none_best m b)
    ]
  ]

insert_others :
    (j k v : Text) (m : List (Text × Text))
    → text_eq j k ≡ false
    → All (λ (e : Text × Text). text_eq j e.0 ≡ false) m
    → All (λ (e : Text × Text). text_eq j e.0 ≡ false) (insert k v m)
insert_others j k v m h d = All-insert_entry (λ (e : Text × Text). text_eq j e.0 ≡ false) k v m h d

Distinct-insert : (k v : Text) (m : List (Text × Text)) → Distinct m → Distinct (insert k v m)
unfolding insert
Distinct-insert k v [] d = (tt, tt)
Distinct-insert k v ((j, w) ∷ m) d = elim (Bool-cases (text_eq j k)) [
  | inl e ↦ rw e (
    subst (λ t. All (λ (e : Text × Text). text_eq t e.0 ≡ false) m) ((text_eq_iff j k).0 e) d.0,
    d.1,
  )
  | inr e ↦ rw e (insert_others j k v m e d.0, Distinct-insert k v m d.1)
]

abbrev IsCandidates : List (Text × Text) → Type 0
IsCandidates m = Distinct m × All HasKey m

module _ (L : Letters) (s : Text) (m m' : List (Text × Text))
    (h : best_sku L s m' ≡ best_sku L s m) where
  unit_agrees : (o : Option Text) → or_unit_or_best L s m' o ≡ or_unit_or_best L s m o
  unfolding best_sku ends_with
  unit_agrees none = ap (found_text L) h
  unit_agrees (some u) = ap (λ t. if ends_with (codes "C") s then some u else found_text L t) h

  exact_agrees : (o : Option Text) → or_exact L s m m' o ≡ or_exact L s m m o
  unfolding best_sku ends_with lookup text_eq
  exact_agrees (some e) = refl
  exact_agrees none = unit_agrees (lookup (s ++ codes "M") m)

  match_in_agrees : match_in L s m m' ≡ match_in L s m m
  unfolding match_in
  match_in_agrees = ap (λ t. if is_empty s then none else t) (exact_agrees (lookup s m))

module _ (L : Letters) {Float : Type 0} where
  add_candidate-keeps :
      (m : List (Text × Text)) (row : InventoryRow Float)
      → IsCandidates m
      → IsCandidates (add_candidate L m row)
  unfolding add_candidate
  add_candidate-keeps m row h = elim (Bool-cases (is_empty (normalized_sku L row.warehouse_sku))) [
    | inl e ↦ rw e h
    | inr e ↦ rw e (
      Distinct-insert (normalized_sku L row.warehouse_sku) row.warehouse_sku m h.0,
      All-insert_entry HasKey (normalized_sku L row.warehouse_sku) row.warehouse_sku m e h.1,
    )
  ]

  sku_candidates-IsCandidates :
      (inventory : List (InventoryRow Float)) → IsCandidates (sku_candidates L inventory)
  unfolding sku_candidates
  sku_candidates-IsCandidates inventory =
      fold_keeps IsCandidates (add_candidate L) inventory []
        (λ m row i h. add_candidate-keeps m row h) (tt, tt)

  -- matchWarehouseSKU gives the same in whatever order it walks its map of candidates.
  pub match_warehouse_sku_walk :
      (source : Text) (inventory : List (InventoryRow Float)) (entries : List (Text × Text))
      → IsWalk (sku_candidates L inventory) entries
      → match_in L (normalized_sku L source) (sku_candidates L inventory) entries
        ≡ match_warehouse_sku L source inventory
  unfolding match_warehouse_sku
  match_warehouse_sku_walk source inventory entries w =
      let c = sku_candidates-IsCandidates inventory in
      match_in_agrees L (normalized_sku L source) (sku_candidates L inventory) entries
        (walks_agree L (normalized_sku L source) (sku_candidates L inventory) entries c.0 c.1 w)
