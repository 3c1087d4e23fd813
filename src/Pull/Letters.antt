-- ===== src/Pull/Letters.antt =====
-- What syncer.go uses of letters, lengths and decimals: `strings.ToUpper`, `strings.EqualFold`, the
-- length of a text in bytes and `fmt.Sprint` of an integer.
use pangu_sales_manager.Base.{
  ℕ, zero, suc, ◌+◌, ◌-◌, ◌/◌, ◌%◌, ℤ, pos, negsuc, Text, Bool, ◌&&◌, [], ◌∷◌, map, if◌then◌else◌,
  ltb, leb, ◌==◌, text_eq,
}

-- The letters outside ASCII: `unicode.ToUpper`, and one letter for all that fold together.
pub record Letters : Type 0 where
  pub upper_other : ℕ → ℕ
  pub fold_other : ℕ → ℕ

unfoldable pub upper_char : Letters → ℕ → ℕ
upper_char L c = if leb 97 c && leb c 122 then c - 32 else if ltb c 128 then c else L.upper_other c

-- `strings.ToUpper`
unfoldable pub upper : Letters → Text → Text
unfolding upper_char
upper L s = map (upper_char L) s

-- The long s and the Kelvin sign fold to ASCII letters.
unfoldable pub fold_letter : Letters → ℕ → ℕ
fold_letter L c =
    if leb 65 c && leb c 90
    then c + 32
    else if ltb c 128
    then c
    else if c == 383
    then 115
    else if c == 8490
    then 107
    else L.fold_other c

unfoldable pub folds_to : Letters → Text → Text → Bool
unfolding fold_letter text_eq
folds_to L s t = text_eq (map (fold_letter L) s) (map (fold_letter L) t)

-- How many bytes UTF-8 takes for a character, and for a text.
unfoldable pub char_bytes : ℕ → ℕ
char_bytes c = if ltb c 128 then 1 else if ltb c 2048 then 2 else if ltb c 65536 then 3 else 4

unfoldable pub byte_length : Text → ℕ
unfolding char_bytes
byte_length [] = 0
byte_length (c ∷ cs) = char_bytes c + byte_length cs

-- The digits of a number before those in `out`; a number has no more digits than one above itself.
unfoldable pub digits_onto : ℕ → ℕ → Text → Text
digits_onto zero n out = out
digits_onto (suc fuel) n out =
    let rest = digits_onto fuel (n / 10) ((48 + n % 10) ∷ out) in
    if ltb n 10 then (48 + n) ∷ out else rest

unfoldable pub show_int : ℤ → Text
unfolding digits_onto
show_int (pos n) = digits_onto (suc n) n []
show_int (negsuc n) = 45 ∷ digits_onto (suc (suc n)) (suc n) []
