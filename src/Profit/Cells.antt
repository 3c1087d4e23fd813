-- ===== src/Profit/Cells.antt =====
-- profit_import.go: the cells of a sheet, and its headings.
use pangu_sales_manager.Base.{
  ℕ, zero, suc, String, Text, codes, Bool, true, not, ◌&&◌, List, [], ◌∷◌, ok, err, if◌then◌else◌,
  any, text_eq, is_empty, trim_space, contains_text,
}
use pangu_sales_manager.Profit.Errors.{Import, missing_header, wrong_header}

-- A row is the texts of its cells; trailing empty cells may be missing.
abbrev pub Row : Type 0
Row = List Text

unfoldable pub cell : Row → ℕ → Text
unfolding trim_space
cell [] index = []
cell (value ∷ row) zero = trim_space value
cell (value ∷ row) (suc index) = cell row index

unfoldable pub row_empty : Row → Bool
unfolding trim_space
row_empty [] = true
row_empty (value ∷ row) = is_empty (trim_space value) && row_empty row

unfoldable pub sheet_is_empty : List Row → Bool
unfolding row_empty
sheet_is_empty [] = true
sheet_is_empty (row ∷ rows) = row_empty row && sheet_is_empty rows

unfoldable pub header_has : Row → String → Bool
unfolding contains_text
header_has row part = any (contains_text (codes part)) row

unfoldable pub contains_any : Text → List String → Bool
unfolding contains_text
contains_any value parts = any (λ part. contains_text (codes part) value) parts

-- The headings from column `i` on.
unfoldable pub check_headers : Row → ℕ → List String → Import (Unit {0})
unfolding cell contains_text text_eq
check_headers row i [] = ok tt
check_headers row i (prefix ∷ prefixes) =
    let rest = check_headers row (suc i) prefixes in
    let got = cell row i in
    if not (is_empty (codes prefix))
      && not (contains_text (codes prefix) got)
      && not (text_eq got (codes prefix))
    then err (wrong_header (suc i) prefix got)
    else rest

-- The program only asks for the headings of the first row.
unfoldable pub require_headers : List Row → List String → Import (Unit {0})
unfolding check_headers
require_headers [] prefixes = err missing_header
require_headers (row ∷ rows) prefixes = check_headers row 0 prefixes
