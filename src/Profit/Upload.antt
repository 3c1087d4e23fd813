-- ===== src/Profit/Upload.antt =====
-- profit_import.go: an upload, which is a workbook or a zip file of workbooks.
use pangu_sales_manager.Base.{
  ℕ, ◌+◌, String, Text, codes, str_eq, to_lower, map, Bool, true, false, ◌&&◌, ◌||◌, List, [], ◌∷◌,
  Option, none, some, Result, ok, err, ◌>>=◌, wrap, if◌then◌else◌, ◌==◌, any, text_eq, starts_with,
  length, fold,
}
use pangu_sales_manager.Profit.Errors.{
  Import, unreadable_zip, unopened_entry, unread_entry, entry_error, empty_zip, unsupported_file,
}
use pangu_sales_manager.Profit.Numbers.{Formats}
use pangu_sales_manager.Profit.Paths.{path_base, path_ext, skip_profit_zip_entry}
use pangu_sales_manager.Profit.Records.{
  ProfitImportBatch, TemuProfitSettledParentOrder, TemuProfitUnsettleOrder,
}
use pangu_sales_manager.Profit.Workbook.{Spreadsheets, ProfitParseOptions, parse_profit_workbook}

-- An entry of a zip file: its name, and what opening it and then reading it gives.
pub record ZipFile : Type 0 where
  pub name : Text
  pub opened : Result Text (Result Text (List ℕ))

-- zip.NewReader on the bytes of a file.
abbrev pub ZipReader : Type 0
ZipReader = List ℕ → Result Text (List ZipFile)

unfoldable pub is_workbook_part : ZipFile → Bool
unfolding text_eq starts_with
is_workbook_part file =
    text_eq file.name (codes "[Content_Types].xml") || starts_with (codes "xl/") file.name

abbrev pub kind_of_entries : Result Text (List ZipFile) → String
unfolding is_workbook_part
kind_of_entries (err e) = ""
kind_of_entries (ok files) = if any is_workbook_part files then "xlsx" else "zip"

-- At least four bytes, of which the first two are `PK`.
unfoldable pub has_zip_magic : List ℕ → Bool
has_zip_magic (p ∷ k ∷ _ ∷ _ ∷ _) = (p == b'P') && (k == b'K')
has_zip_magic _ = false

unfoldable pub detect_upload_source_kind : ZipReader → Text → List ℕ → String
unfolding text_eq to_lower path_ext has_zip_magic is_workbook_part
detect_upload_source_kind new_reader filename content =
    let ext = map to_lower (path_ext filename) in
    if text_eq ext (codes ".xlsx")
    then "xlsx"
    else if text_eq ext (codes ".zip")
    then "zip"
    else if has_zip_magic content
    then kind_of_entries (new_reader content)
    else ""

module _ (F : Formats) (X : Spreadsheets) where
  open F use {Float, Location, fixed_zone}

  module _ (opts : ProfitParseOptions Location) where
    unfoldable pub parse_entry : ZipFile → Import (ProfitImportBatch Float)
    unfolding parse_profit_workbook path_base
    parse_entry file = do
      reading ← wrap (unopened_entry file.name) file.opened
      payload ← wrap (unread_entry file.name) reading
      wrap (entry_error (path_base file.name))
          (parse_profit_workbook F opts X (path_base file.name) payload)

    unfoldable pub parse_entries : List ZipFile → Import (List (ProfitImportBatch Float))
    unfolding skip_profit_zip_entry parse_entry
    parse_entries [] = ok []
    parse_entries (file ∷ files) = elim (skip_profit_zip_entry file.name) [
      | true ↦ parse_entries files
      | false ↦
          parse_entry file >>= λ batch. parse_entries files >>= λ batches. ok (batch ∷ batches)
    ]

    abbrev pub some_batches :
        List (ProfitImportBatch Float) → Import (List (ProfitImportBatch Float))
    some_batches [] = err empty_zip
    some_batches (batch ∷ batches) = ok (batch ∷ batches)

    unfoldable pub parse_profit_zip : ZipReader → List ℕ → Import (List (ProfitImportBatch Float))
    unfolding parse_entries
    parse_profit_zip new_reader content = do
      files ← wrap unreadable_zip (new_reader content)
      batches ← parse_entries files
      some_batches batches

  abbrev pub location_or_cst : Option Location → Location
  location_or_cst none = fixed_zone 28800
  location_or_cst (some location) = location

  -- The kind of the upload, and its batches.
  unfoldable pub parse_profit_upload :
      ZipReader
      → Text
      → List ℕ
      → String
      → String
      → Option Location
      → String × Import (List (ProfitImportBatch Float))
  unfolding detect_upload_source_kind parse_profit_zip parse_profit_workbook
  parse_profit_upload new_reader filename content shop_key hint location =
      let opts : ProfitParseOptions Location = record {
        shop_key = shop_key;
        hint = hint;
        location = location_or_cst location;
      } in
      let kind = detect_upload_source_kind new_reader filename content in
      if str_eq kind "zip"
      then (kind, parse_profit_zip opts new_reader content)
      else if str_eq kind "xlsx"
      then (kind, parse_profit_workbook F opts X filename content >>= λ batch. ok (batch ∷ []))
      else ("", err unsupported_file)

-- How many rows of the tables the batch is for.
unfoldable pub record_count : {Float : Type 0} → ProfitImportBatch Float → ℕ
record_count {Float} b =
    let flat : ℕ =
      length b.shipping
      + length b.returns
      + length b.chargebacks
      + length b.violations
      + length b.platforms
      + length b.disposals
      + length b.settled
      + length b.parents
      + length b.unsettles in
    let with_parents : ℕ =
      fold (λ n (item : TemuProfitSettledParentOrder Float). n + length item.skus) flat b.parents in
    fold (λ n (item : TemuProfitUnsettleOrder Float). n + length item.skus) with_parents b.unsettles
