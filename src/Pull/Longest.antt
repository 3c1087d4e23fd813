-- ===== src/Pull/Longest.antt =====
-- matchWarehouseCode finds a longest code.
use pangu_sales_manager.Base.{
  ℕ, ◌≤◌, Text, true, false, List, [], ◌∷◌, if◌then◌else◌, Bool-cases, is_empty, trim_space,
  contains_text, starts_with, sort_by, IsOrdered, IsOrderTest, sort_by-IsOrdered, In-sort_by,
  All-sort_by, All, All-In, All-of_In, In, here, there, ◌≡◌, refl, sym, ◌⊎◌, inl, inr, arith, subst,
}
use pangu_sales_manager.Pull.Types.{Warehouse}
use pangu_sales_manager.Pull.Letters.{Letters, upper, byte_length}
use pangu_sales_manager.Pull.Matching.{
  longer, warehouse_codes, first_contained, match_warehouse_code,
}

module _ (L : Letters) where
  longer-IsOrderTest : IsOrderTest (longer L)
  longer-IsOrderTest = record { asym = λ a b h. ground arith; le_trans = λ a b c p q. ground arith }

  -- A code of the list that the text contains, and none that it contains is longer; or the empty
  -- text, if it contains none.
  pub record IsLongest (normalized : Text) (codes : List Text) (code : Text) : Type 0 where
    pub from : (code ≡ []) ⊎ (In code codes × (contains_text code normalized ≡ true))
    pub longest :
        (c : Text)
        → In c codes
        → contains_text c normalized ≡ true
        → byte_length c ≤ byte_length code

  head_longest :
      (code : Text) (rest : List Text)
      → All (λ c. longer L c code ≡ false) rest
      → (c : Text) → In c (code ∷ rest)
      → byte_length c ≤ byte_length code
  head_longest code rest o c here = omega arith
  head_longest code rest o c (there m) =
      let h = All-In (λ d. longer L d code ≡ false) m o in ground arith

  skip_longest :
      (normalized code : Text) (rest : List Text) {n : ℕ}
      → contains_text code normalized ≡ false
      → ((c : Text) → In c rest → contains_text c normalized ≡ true → byte_length c ≤ n)
      → (c : Text) → In c (code ∷ rest)
      → contains_text c normalized ≡ true
      → byte_length c ≤ n
  skip_longest normalized code rest e f c here h = cc
  skip_longest normalized code rest e f c (there m) h = f c m h

  skip_head :
      (normalized code : Text) (rest : List Text) {r : Text}
      → contains_text code normalized ≡ false
      → IsLongest normalized rest r
      → IsLongest normalized (code ∷ rest) r
  skip_head normalized code rest e w = record {
    from = elim w.from [ inl p ↦ inl p | inr (m, h) ↦ inr (there m, h) ];
    longest = λ c m h. skip_longest normalized code rest e w.longest c m h;
  }

  first-IsLongest :
      (normalized : Text) (codes : List Text)
      → IsOrdered (longer L) codes
      → IsLongest normalized codes (first_contained L normalized codes)
  unfolding first_contained
  first-IsLongest normalized [] o = record { from = inl refl; longest = λ c m h. elim m [ ] }
  first-IsLongest normalized (code ∷ rest) o = elim (Bool-cases (contains_text code normalized)) [
    | inl e ↦
        rw e (record { from = inr (here, e); longest = λ c m h. head_longest code rest o.0 c m })
    | inr e ↦ rw e (skip_head normalized code rest e (first-IsLongest normalized rest o.1))
  ]

  In-of_sort : (codes : List Text) (c : Text) → In c (sort_by (longer L) codes) → In c codes
  In-of_sort codes c m =
      All-In (λ d. In d codes) m
        (All-sort_by (longer L) (λ d. In d codes) codes
          (All-of_In (λ d. In d codes) codes (λ d n. n)))

  sorted-IsLongest :
      (normalized : Text) (codes : List Text)
      → IsLongest normalized codes (first_contained L normalized (sort_by (longer L) codes))
  sorted-IsLongest normalized codes =
      let w =
        first-IsLongest normalized (sort_by (longer L) codes)
          (sort_by-IsOrdered (longer L) longer-IsOrderTest codes) in
      record {
        from = elim w.from [ inl p ↦ inl p | inr (m, h) ↦ inr (In-of_sort codes _ m, h) ];
        longest = λ c m h. w.longest c (In-sort_by (longer L) c codes m) h;
      }

  contained_in_none : (c : Text) → contains_text c [] ≡ true → c ≡ []
  unfolding contains_text starts_with
  contained_in_none [] h = refl
  contained_in_none (d ∷ c) h = cc

  at :
      (normalized : Text) (codes : List Text)
      → IsLongest normalized codes (
          if is_empty normalized
          then []
          else first_contained L normalized (sort_by (longer L) codes))
  at [] codes = record {
    from = inl refl;
    longest = λ c m h.
        subst (λ t. byte_length t ≤ byte_length []) (sym (contained_in_none c h)) (omega arith);
  }
  at (d ∷ ds) codes = sorted-IsLongest (d ∷ ds) codes

  -- The code that matchWarehouseCode gives is contained in the trimmed capitals of the source, and is
  -- that of a warehouse, or it is empty; and no code of a warehouse that is contained there takes more
  -- bytes.
  pub match_warehouse_code-IsLongest :
      (source : Text) (warehouses : List Warehouse)
      → IsLongest
          (upper L (trim_space source))
          (warehouse_codes L warehouses)
          (match_warehouse_code L source warehouses)
  unfolding match_warehouse_code
  match_warehouse_code-IsLongest source warehouses =
      at (upper L (trim_space source)) (warehouse_codes L warehouses)
