-- ===== src/Base/Texts.antt =====
-- Go's strings, where the program looks inside them: as lists of code points.
use Prim.Native.Char.{code}
use Prim.Native.Nat.{ℕ, ◌+◌}
use Prim.Native.String.{String}
use mathlib.Core.Path.{◌≡◌}
use mathlib.Core.Logic.{◌↔◌}
use mathlib.Core.Bool.{Bool, true, false, not, ◌&&◌, ◌||◌}
use mathlib.Core.List.{List, [], ◌∷◌, map}
use native.Mathlib.Omega.{arith}
use pangu_sales_manager.Base.Lists.{keep}
use pangu_sales_manager.Base.Map.{Eq}
use pangu_sales_manager.Base.Tests.{leb, ◌==◌, if◌then◌else◌}

-- A text as its code points.
abbrev pub Text : Type 0
Text = List ℕ

abbrev pub codes : String → List ℕ
codes String.[] = []
codes (String.◌∷◌ c s) = code c ∷ codes s

-- `unicode.IsSpace`
unfoldable pub is_space : ℕ → Bool
is_space c =
    (leb 9 c && leb c 13)
    || (c == 32)
    || (c == 133)
    || (c == 160)
    || (c == 5760)
    || (leb 8192 c && leb c 8202)
    || (c == 8232)
    || (c == 8233)
    || (c == 8239)
    || (c == 8287)
    || (c == 12288)

unfoldable pub trim_left : List ℕ → List ℕ
unfolding is_space
trim_left [] = []
trim_left (c ∷ cs) = let rest = trim_left cs in if is_space c then rest else c ∷ cs

-- What is left of the text after its last character that is not a space.
unfoldable pub trim_right : List ℕ → List ℕ
unfolding is_space
trim_right [] = []
trim_right (c ∷ cs) = trim_cons c (trim_right cs)
  where
    trim_cons : ℕ → List ℕ → List ℕ
    trim_cons c [] = if is_space c then [] else c ∷ []
    trim_cons c (d ∷ ds) = c ∷ d ∷ ds

-- `strings.TrimSpace`
unfoldable pub trim_space : List ℕ → List ℕ
unfolding trim_left trim_right
trim_space s = trim_right (trim_left s)

-- `unicode.ToLower` as far as its results are ASCII: the capital letters, the dotted capital I and
-- the Kelvin sign. Other characters stay as they are.
unfoldable pub to_lower : ℕ → ℕ
to_lower c =
    if leb 65 c && leb c 90 then c + 32 else if c == 304 then 105 else if c == 8490 then 107 else c

unfoldable pub starts_with : List ℕ → List ℕ → Bool
starts_with [] s = true
starts_with (p ∷ ps) [] = false
starts_with (p ∷ ps) (c ∷ cs) = (p == c) && starts_with ps cs

-- `strings.Contains(s, p)`
unfoldable pub contains_text : List ℕ → List ℕ → Bool
unfolding starts_with
contains_text p [] = starts_with p []
contains_text p (c ∷ cs) = starts_with p (c ∷ cs) || contains_text p cs

-- The Go test `s == t`.
unfoldable pub text_eq : Text → Text → Bool
text_eq [] [] = true
text_eq [] (d ∷ ds) = false
text_eq (c ∷ cs) [] = false
text_eq (c ∷ cs) (d ∷ ds) = (c == d) && text_eq cs ds

abbrev pub is_empty : Text → Bool
is_empty [] = true
is_empty (c ∷ cs) = false

pub text_eq_iff : (s t : Text) → (text_eq s t ≡ true) ↔ (s ≡ t)
unfolding text_eq
text_eq_iff [] [] = ground arith
text_eq_iff [] (d ∷ ds) = ground arith
text_eq_iff (c ∷ cs) [] = ground arith
text_eq_iff (c ∷ cs) (d ∷ ds) = ground (arith, text_eq_iff cs ds)

instance abbrev pub text_Eq : Eq Text
text_Eq = record { beq = text_eq; beq_iff = text_eq_iff }

-- `strings.EqualFold`, where one side is ASCII: the letters that fold to an ASCII letter are its
-- capital, the long s and the Kelvin sign.
unfoldable pub fold_char : ℕ → ℕ
fold_char c =
    if leb 65 c && leb c 90 then c + 32 else if c == 383 then 115 else if c == 8490 then 107 else c

unfoldable pub equal_fold : Text → Text → Bool
unfolding fold_char text_eq
equal_fold s t = text_eq (map fold_char s) (map fold_char t)

-- `strings.ReplaceAll(s, c, "")` for a single character.
unfoldable pub remove_char : ℕ → Text → Text
remove_char c s = keep (λ d. not (c == d)) s

-- `strings.HasSuffix(s, p)`
unfoldable pub ends_with : Text → Text → Bool
unfolding text_eq
ends_with p [] = is_empty p
ends_with p (c ∷ cs) = text_eq p (c ∷ cs) || ends_with p cs
