-- ===== src/Profit/Paths.antt =====
-- Paths as profit_import.go takes them apart: `filepath.Base` and `filepath.Ext` on Unix, where
-- `filepath.ToSlash` changes nothing, and the names of the entries of a zip file.
use pangu_sales_manager.Base.{
  ℕ, Text, codes, Bool, not, ◌&&◌, ◌||◌, [], ◌∷◌, if◌then◌else◌, ◌==◌, any, text_eq, is_empty,
  starts_with, contains_text, equal_fold,
}

abbrev is_slash : ℕ → Bool
is_slash c = c == 47

unfoldable pub strip_slashes : Text → Text
strip_slashes [] = []
strip_slashes (c ∷ cs) =
    let rest = strip_slashes cs in if is_slash c && is_empty rest then [] else c ∷ rest

unfoldable pub last_element : Text → Text
last_element [] = []
last_element (c ∷ cs) =
    let rest = last_element cs in
    if any is_slash cs then rest else if is_slash c then cs else c ∷ cs

-- `filepath.Base`
unfoldable pub path_base : Text → Text
unfolding strip_slashes last_element
path_base path =
    let element = last_element (strip_slashes path) in
    if is_empty path then codes "." else if is_empty element then codes "/" else element

-- `filepath.Ext`: from the last dot of the last element on.
unfoldable pub path_ext : Text → Text
path_ext [] = []
path_ext (c ∷ cs) =
    let rest = path_ext cs in
    if any is_slash cs || not (is_empty rest) then rest else if c == 46 then c ∷ cs else []

unfoldable pub skip_profit_zip_entry : Text → Bool
unfolding contains_text path_base starts_with text_eq path_ext equal_fold
skip_profit_zip_entry clean =
    let base = path_base clean in
    contains_text (codes "..") clean
    || starts_with (codes "._") base
    || text_eq base (codes ".DS_Store")
    || starts_with (codes "__MACOSX/") clean
    || contains_text (codes "/__MACOSX/") clean
    || not (equal_fold (path_ext base) (codes ".xlsx"))
