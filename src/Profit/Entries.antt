-- ===== src/Profit/Entries.antt =====
-- The batches of an upload, and the entries of the zip file that they come from.
use pangu_sales_manager.Base.{
  ℕ, String, Text, codes, str_eq, Bool, true, false, not, ◌||◌, List, [], ◌∷◌, Option, ok, err,
  ◌>>=◌, wrap, wrap-eq-ok, chain-eq-ok, ok_injective, Ensures-eq, if◌then◌else◌, Bool-cases, keep,
  All, contains_text, equal_fold, ◌≡◌, ◌≢◌, ap, ◌∙◌, ◌⊎◌, inl, inr, arith, subst,
}
use pangu_sales_manager.Profit.Errors.{
  Import, unreadable_zip, unopened_entry, unread_entry, entry_error, unsupported_file,
}
use pangu_sales_manager.Profit.Numbers.{Formats}
use pangu_sales_manager.Profit.Paths.{path_base, path_ext, skip_profit_zip_entry}
use pangu_sales_manager.Profit.Records.{ProfitImportBatch}
use pangu_sales_manager.Profit.Workbook.{Spreadsheets, ProfitParseOptions, parse_profit_workbook}
use pangu_sales_manager.Profit.Upload.{
  ZipFile, ZipReader, detect_upload_source_kind, parse_entry, parse_entries, some_batches,
  parse_profit_zip, location_or_cst, parse_profit_upload,
}
use pangu_sales_manager.Profit.Owned.{IsOfShop}
use pangu_sales_manager.Profit.Shop.{parse_profit_workbook-Good}

first_and_last :
    (a b c d e f : Bool) → (a || b || c || d || e || not f) ≡ false → (a ≡ false) × (f ≡ true)
first_and_last a b c d e f h = ground arith

kept_entry :
    (name : Text)
    → skip_profit_zip_entry name ≡ false
    → (contains_text (codes "..") name ≡ false)
      × (equal_fold (path_ext (path_base name)) (codes ".xlsx") ≡ true)
unfolding skip_profit_zip_entry
kept_entry name h = first_and_last _ _ _ _ _ _ h

-- A kind and its result: a success is that of the first or the second.
one_of :
    {A : Type 0} (zip xlsx : Bool) (kind : String) (r s : Import A) {a : A}
    → (if◌then◌else◌ {A = String × Import A} zip
        (kind, r)
        (if xlsx then (kind, s) else ("", err unsupported_file))).1
      ≡ ok a
    → (r ≡ ok a) ⊎ (s ≡ ok a)
one_of true xlsx kind r s h = inl h
one_of false true kind r s h = inr h
one_of false false kind r s h = cc

module _ {A B : Type 0} (R : A → B → Type 0) where
  -- The lists are related entry by entry.
  pub data Pairs : List A → List B → Type 0 where
    done : Pairs [] []
    pair :
        {a : A} {b : B} {as' : List A} {bs : List B}
        → R a b
        → Pairs as' bs
        → Pairs (a ∷ as') (b ∷ bs)

-- The entries that are not skipped.
abbrev pub importable : List ZipFile → List ZipFile
importable files = keep (λ (file : ZipFile). not (skip_profit_zip_entry file.name)) files

module _ (F : Formats) (X : Spreadsheets) where
  open F use {Float, Location}

  module _ (opts : ProfitParseOptions Location) where
    -- The entry is a workbook whose path has no two dots in a row, and the batch is what it holds.
    pub record ReadsEntry (file : ZipFile) (batch : ProfitImportBatch Float) : Type 0 where
      pub payload : List ℕ
      pub no_dots : contains_text (codes "..") file.name ≡ false
      pub is_workbook : equal_fold (path_ext (path_base file.name)) (codes ".xlsx") ≡ true
      pub opened_eq : file.opened ≡ ok (ok payload)
      pub parsed : parse_profit_workbook F opts X (path_base file.name) payload ≡ ok batch

    entry_reads :
        (file : ZipFile) (batch : ProfitImportBatch Float)
        → skip_profit_zip_entry file.name ≡ false
        → parse_entry F X opts file ≡ ok batch
        → ReadsEntry file batch
    unfolding parse_entry
    entry_reads file batch s h =
        let (reading, p, h') = chain-eq-ok (wrap (unopened_entry file.name) file.opened) _ h in
        let (payload, q, h'') = chain-eq-ok (wrap (unread_entry file.name) reading) _ h' in
        record {
          payload = payload;
          no_dots = (kept_entry file.name s).0;
          is_workbook = (kept_entry file.name s).1;
          opened_eq =
              wrap-eq-ok (unopened_entry file.name) file.opened p
              ∙ ap ok (wrap-eq-ok (unread_entry file.name) reading q);
          parsed = wrap-eq-ok (entry_error (path_base file.name)) _ h'';
        }

    entries_read :
        (files : List ZipFile) (batches : List (ProfitImportBatch Float))
        → parse_entries F X opts files ≡ ok batches
        → Pairs ReadsEntry (importable files) batches
    unfolding parse_entries
    entries_read [] batches h = subst (Pairs ReadsEntry []) (ok_injective h) done
    entries_read (file ∷ files) batches h = elim (Bool-cases (skip_profit_zip_entry file.name)) [
      | inl e ↦ rw e (entries_read files batches (rw (e, parse_entries) at h))
      | inr e ↦
          let (batch, p, h') =
            chain-eq-ok (parse_entry F X opts file) _ (rw (e, parse_entries) at h) in
          let (rest, q, r) = chain-eq-ok (parse_entries F X opts files) _ h' in
          rw e (
            subst (Pairs ReadsEntry (file ∷ importable files)) (ok_injective r)
              (pair (entry_reads file batch e p) (entries_read files rest q)))
    ]

    some_batches_keeps :
        (found batches : List (ProfitImportBatch Float))
        → some_batches F X opts found ≡ ok batches
        → (found ≡ batches) × (batches ≢ [])
    some_batches_keeps [] batches h = cc
    some_batches_keeps (b ∷ bs) batches h = (ok_injective h, λ e. cc)

    -- Where parseProfitZip succeeds, its batches are those of the entries that are not skipped, one
    -- for each and in their order, and there is one; each of these entries has a name without two
    -- dots in a row and with the ending of a workbook, and was read.
    pub parse_profit_zip-Pairs :
        (new_reader : ZipReader) (content : List ℕ) (batches : List (ProfitImportBatch Float))
        → parse_profit_zip F X opts new_reader content ≡ ok batches
        → (files : List ZipFile) × (new_reader content ≡ ok files)
          × Pairs ReadsEntry (importable files) batches
          × (batches ≢ [])
    unfolding parse_profit_zip
    parse_profit_zip-Pairs new_reader content batches h =
        let (files, p, h') = chain-eq-ok (wrap unreadable_zip (new_reader content)) _ h in
        let (found, q, r) = chain-eq-ok (parse_entries F X opts files) _ h' in
        let (e, n) = some_batches_keeps found batches r in
        (
          files,
          wrap-eq-ok unreadable_zip (new_reader content) p,
          subst (Pairs ReadsEntry (importable files)) e (entries_read files found q),
          n,
        )

    Pairs-IsOfShop :
        {files : List ZipFile} {batches : List (ProfitImportBatch Float)}
        → Pairs ReadsEntry files batches
        → All (IsOfShop F opts.shop_key) batches
    Pairs-IsOfShop done = tt
    Pairs-IsOfShop (pair {a} r rest) = (
      Ensures-eq _ _ (parse_profit_workbook-Good F opts X (path_base a.name) r.payload) r.parsed,
      Pairs-IsOfShop rest,
    )

    zip-IsOfShop :
        (new_reader : ZipReader) (content : List ℕ) (batches : List (ProfitImportBatch Float))
        → parse_profit_zip F X opts new_reader content ≡ ok batches
        → All (IsOfShop F opts.shop_key) batches × (batches ≢ [])
    zip-IsOfShop new_reader content batches h =
        let (files, p, q, n) = parse_profit_zip-Pairs new_reader content batches h in
        (Pairs-IsOfShop q, n)

    workbook-IsOfShop :
        (filename : Text) (content : List ℕ) (batches : List (ProfitImportBatch Float))
        → (parse_profit_workbook F opts X filename content >>= λ batch. ok (batch ∷ []))
          ≡ ok batches
        → All (IsOfShop F opts.shop_key) batches × (batches ≢ [])
    workbook-IsOfShop filename content batches h =
        let (batch, p, q) = chain-eq-ok (parse_profit_workbook F opts X filename content) _ h in
        (
          subst (All (IsOfShop F opts.shop_key)) (ok_injective q)
              (Ensures-eq _ _ (parse_profit_workbook-Good F opts X filename content) p, tt),
          λ e. cc,
        )

  -- An upload that succeeds has a batch, and every record of its batches, of each of the nine tables,
  -- is of the shop that the upload names; each order has a number, and its SKUs count from 1.
  pub parse_profit_upload-IsOfShop :
      (new_reader : ZipReader) (filename : Text) (content : List ℕ) (shop_key hint : String)
      (location : Option Location) (batches : List (ProfitImportBatch Float))
      → (parse_profit_upload F X new_reader filename content shop_key hint location).1 ≡ ok batches
      → All (IsOfShop F shop_key) batches × (batches ≢ [])
  unfolding parse_profit_upload
  parse_profit_upload-IsOfShop new_reader filename content shop_key hint location batches h =
      let opts : ProfitParseOptions Location = record {
        shop_key = shop_key;
        hint = hint;
        location = location_or_cst F X location;
      } in
      let kind = detect_upload_source_kind new_reader filename content in
      elim (one_of (str_eq kind "zip") (str_eq kind "xlsx") _ _ _ h) [
        | inl e ↦ zip-IsOfShop opts new_reader content batches e
        | inr e ↦ workbook-IsOfShop opts filename content batches e
      ]
