-- ===== src/Xlwms.antt =====
-- internal/xlwms/client.go: the client of the mapping service. Sending a request, and the reading of
-- JSON, are the record Transport.
pub mod Walk
pub mod Tally
pub mod Ends
pub mod Creation
use pangu_sales_manager.Base.{
  text_Eq, ℕ, zero, suc, ◌+◌, ◌≤◌, ℤ, pos, lt_ℤ, String, Text, codes, Bool, true, false, not, ◌||◌,
  List, [], ◌∷◌, ◌++◌, length, fold, Option, none, some, Result, ok, err, wrap, if◌then◌else◌,
  is_empty, insert, text_eq, ◌==◌,
}
use pangu_sales_manager.Pull.Letters.{show_int}
use pangu_sales_manager.XlwmsData.{
  invalid_request, call_failed, read_failed, undecoded_response, refused, undecoded_data,
  no_account_list, pairings_failed, no_accounts, all_rejected, out_of_fuel, default_page_size,
  Account, PairingItem, Pairing, Mapping, ApiEnvelope, PairingPageData, PairingBody, Request,
  Transport, ClientError, XlwmsError,
}

-- The message of a refusal; without one the status stands for it.
unfoldable pub message_of : ApiEnvelope → ℤ → Text
unfolding show_int
message_of envelope status =
    if is_empty envelope.error
    then codes "xlwms request failed with status " ++ show_int status
    else envelope.error

module _ {W : Type 0} (T : Transport W) where
  module _ {A : Type 0} (decode : Text → Result Text A) (request : Request) where
    unfoldable pub read_envelope : ℤ → Result Text ApiEnvelope → Result ClientError A
    unfolding message_of
    read_envelope status (err e) = err (undecoded_response status e)
    read_envelope status (ok envelope) =
        if not envelope.success
        then err (refused request.method request.path (message_of envelope status))
        else wrap undecoded_data (decode envelope.payload)

    unfoldable pub read_response : Result Text (ℤ × Result Text Text) → Result ClientError A
    unfolding read_envelope
    read_response (err e) = err (call_failed request.method request.path e)
    read_response (ok (status, err e)) = err (read_failed e)
    read_response (ok (status, ok payload)) = read_envelope status (T.decode_envelope payload)

    unfoldable pub do_json : W → Result ClientError A × W
    unfolding read_response
    do_json w =
        let sent = T.send request w in
        elim (T.request_error request) [
          | some e ↦ (err (invalid_request e), w)
          | none ↦ (read_response sent.0, sent.1)
        ]

  unfoldable pub list_accounts : W → Result ClientError (List Account) × W
  unfolding do_json
  list_accounts =
      do_json T.decode_accounts
        (record { method = "GET"; path = "/platform-orders/accounts"; query = []; body = none })

  unfoldable pub list_product_pairings_page :
      Text → Text → ℕ → W → Result ClientError PairingPageData × W
  unfolding do_json show_int
  list_product_pairings_page account store_code page = do_json T.decode_page (record {
    method = "GET";
    path = "/product-pairings";
    query =
        ("account", account)
        ∷ ("store_code", store_code)
        ∷ ("page", show_int (pos page))
        ∷ ("page_size", show_int (pos default_page_size))
        ∷ [];
    body = none;
  })

  -- The mappings so far, and how many bundles were skipped.
  abbrev pub Listed : Type 0
  Listed = List (Text × Mapping) × ℕ

  -- A pairing of one item is a mapping; any other is skipped.
  unfoldable pub add_items : Listed → Text → List PairingItem → Listed
  unfolding insert
  add_items (mappings, skipped) platform_sku (item ∷ []) = (
    insert platform_sku
        (record {
          platform_sku = platform_sku;
          warehouse_sku = item.system_sku;
          quantity = item.quantity;
        })
        mappings,
    skipped,
  )
  add_items (mappings, skipped) platform_sku [] = (mappings, suc skipped)
  add_items (mappings, skipped) platform_sku (_ ∷ _ ∷ _) = (mappings, suc skipped)

  abbrev pub add_record : Listed → Pairing → Listed
  add_record listed pairing = add_items listed pairing.platform_sku pairing.items

  -- The page is the last one, or it is empty.
  unfoldable pub is_last : ℕ → PairingPageData → Bool
  unfolding lt_ℤ
  is_last page result = not (lt_ℤ (pos page) result.pages) || (length result.records == 0)

  -- The loop goes on with `next`, unless the page fails or is the last.
  unfoldable pub after_page :
      Text
      → ℕ
      → (Listed → W → Result XlwmsError Listed × W)
      → Listed
      → Result ClientError PairingPageData × W
      → Result XlwmsError Listed × W
  unfolding add_items is_last
  after_page account page next listed (err e, w) = (err (pairings_failed account e), w)
  after_page account page next listed (ok result, w) =
      if is_last page result
      then (ok (fold add_record listed result.records), w)
      else next (fold add_record listed result.records) w

  unfoldable pub list_pages : ℕ → Text → Text → ℕ → Listed → W → Result XlwmsError Listed × W
  unfolding list_product_pairings_page after_page
  list_pages zero account store_code page listed w = (err out_of_fuel, w)
  list_pages (suc fuel) account store_code page listed w =
      after_page account page (list_pages fuel account store_code (suc page)) listed
        (list_product_pairings_page account store_code page w)

  abbrev pub after_account :
      (Listed → W → Result XlwmsError Listed × W)
      → Result XlwmsError Listed × W
      → Result XlwmsError Listed × W
  after_account next (err e, w) = (err e, w)
  after_account next (ok listed, w) = next listed w

  unfoldable pub list_all : ℕ → Text → List Account → Listed → W → Result XlwmsError Listed × W
  unfolding list_pages
  list_all fuel store_code [] listed w = (ok listed, w)
  list_all fuel store_code (account ∷ accounts) listed w =
      after_account (list_all fuel store_code accounts)
        (list_pages fuel account.key store_code 1 listed w)

  abbrev pub after_list :
      (List Account → W → Result XlwmsError Listed × W)
      → Result ClientError (List Account) × W
      → Result XlwmsError Listed × W
  after_list next (err e, w) = (err (no_account_list e), w)
  after_list next (ok accounts, w) = next accounts w

  -- `fuel` bounds the pages of an account.
  unfoldable pub list_mappings : ℕ → Text → W → Result XlwmsError Listed × W
  unfolding list_accounts list_all
  list_mappings fuel store_code w =
      after_list (λ accounts v. list_all fuel store_code accounts ([], 0) v) (list_accounts w)

  unfoldable pub post_pairing :
      Text → Text → Text → ℤ → Account → W → Result ClientError (Unit {0}) × W
  unfolding do_json
  post_pairing store_code platform_sku warehouse_sku quantity account =
      do_json (λ payload. ok tt)
        (record {
          method = "POST";
          path = "/product-pairings";
          query = [];
          body = some (record {
            account = account.key;
            store_code = store_code;
            platform_sku = platform_sku;
            items = record { system_sku = warehouse_sku; quantity = quantity } ∷ [];
          });
        })

  -- The next account is tried with the errors so far, until one takes the mapping.
  abbrev pub after_post :
      (List ClientError → W → Result XlwmsError (Unit {0}) × W)
      → List ClientError
      → Result ClientError (Unit {0}) × W
      → Result XlwmsError (Unit {0}) × W
  after_post next errors (ok u, w) = (ok tt, w)
  after_post next errors (err e, w) = next (errors ++ e ∷ []) w

  unfoldable pub try_accounts :
      ℕ
      → (Account → W → Result ClientError (Unit {0}) × W)
      → List Account
      → List ClientError
      → W
      → Result XlwmsError (Unit {0}) × W
  try_accounts count post [] errors w = (err (all_rejected count errors), w)
  try_accounts count post (account ∷ accounts) errors w =
      after_post (try_accounts count post accounts) errors (post account w)

  abbrev pub after_accounts :
      (Account → W → Result ClientError (Unit {0}) × W)
      → Result ClientError (List Account) × W
      → Result XlwmsError (Unit {0}) × W
  unfolding try_accounts
  after_accounts post (err e, w) = (err (no_account_list e), w)
  after_accounts post (ok [], w) = (err no_accounts, w)
  after_accounts post (ok (account ∷ accounts), w) =
      try_accounts (suc (length accounts)) post (account ∷ accounts) [] w

  unfoldable pub create_mapping : Text → Text → Text → ℤ → W → Result XlwmsError (Unit {0}) × W
  unfolding list_accounts post_pairing try_accounts
  create_mapping store_code platform_sku warehouse_sku quantity w =
      after_accounts (post_pairing store_code platform_sku warehouse_sku quantity) (list_accounts w)
