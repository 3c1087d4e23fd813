-- ===== src/Pull/Suffix.antt =====
-- How an SKU stands before a dash and digits: in one way at most.
use pangu_sales_manager.Base.{
  text_Eq, Text, codes, true, [], ◌∷◌, ◌++◌, drop, length, starts_with, ◌≡◌, refl, arith,
}
use pangu_sales_manager.Pull.Letters.{Letters}
use pangu_sales_manager.Pull.Matching.{all_digits, only_digits, has_numbered_suffix}

-- No dash is among digits.
no_dash : (xs d : Text) → starts_with (xs ++ codes "-") d ≡ true → all_digits d ≡ true → ⊥
unfolding starts_with all_digits
no_dash [] [] h k = cc
no_dash [] (c ∷ cs) h k = ground arith
no_dash (x ∷ xs) [] h k = cc
no_dash (x ∷ xs) (c ∷ cs) h k = no_dash xs cs (ground arith) (ground arith)

-- A text is a key, a dash and digits in one way at most.
one_key :
    (s k j : Text)
    → starts_with (k ++ codes "-") s ≡ true
    → all_digits (drop (length (k ++ codes "-")) s) ≡ true
    → starts_with (j ++ codes "-") s ≡ true
    → all_digits (drop (length (j ++ codes "-")) s) ≡ true
    → k ≡ j
unfolding starts_with
one_key s [] [] a b c d = refl
one_key [] [] (y ∷ ys) a b c d = cc
one_key (e ∷ s) [] (y ∷ ys) a b c d = absurd (no_dash ys s (ground arith) b)
one_key [] (x ∷ xs) j a b c d = cc
one_key (e ∷ s) (x ∷ xs) [] a b c d = absurd (no_dash xs s (ground arith) d)
one_key (e ∷ s) (x ∷ xs) (y ∷ ys) a b c d =
    ground (arith, one_key s xs ys (ground arith) b (ground arith) d)

module _ (L : Letters) where
  abbrev pub Fits : Text → Text → Type 0
  Fits source key = has_numbered_suffix L source key ≡ true

  starts-Fits :
      (s k : Text)
      → Fits s k
      → (starts_with (k ++ codes "-") s ≡ true)
        × (all_digits (drop (length (k ++ codes "-")) s) ≡ true)
  unfolding has_numbered_suffix only_digits
  starts-Fits s k h = ground arith

  pub key-Fits : (s k j : Text) → Fits s k → Fits s j → k ≡ j
  key-Fits s k j p q =
      let (a, b) = starts-Fits s k p in let (c, d) = starts-Fits s j q in one_key s k j a b c d
