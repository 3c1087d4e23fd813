-- ===== src/Xlwms/Ends.antt =====
-- The loops of ListMappings end.
use pangu_sales_manager.Base.{
  ℕ, zero, suc, ◌+◌, ◌≤◌, ◌<◌, pos, lt_ℤ, Text, false, List, [], ◌∷◌, Result, ok, err, if_rule, ◌≡◌,
  ◌≢◌, refl, arith,
}
use pangu_sales_manager.Xlwms.{
  list_accounts, list_product_pairings_page, Listed, is_last, after_page, list_pages, after_account,
  list_all, after_list, list_mappings,
}
use pangu_sales_manager.XlwmsData.{
  out_of_fuel, Transport, Account, PairingPageData, ClientError, XlwmsError,
}

module _ {W : Type 0} (T : Transport W) (store_code : Text) (limit : ℕ) where
  -- The server never says that there are more pages than the limit.
  pub record IsBounded : Type 0 where
    pub bounded :
        (account : Text) (page : ℕ) (result : PairingPageData) (w v : W)
        → list_product_pairings_page T account store_code page w ≡ (ok result, v)
        → lt_ℤ (pos limit) result.pages ≡ false

  -- The loop has an end.
  abbrev Ends : Result XlwmsError (Listed T) × W → Type 0
  Ends r = r.0 ≢ err out_of_fuel

  more_pages :
      (page : ℕ) (result : PairingPageData)
      → is_last T page result ≡ false
      → lt_ℤ (pos limit) result.pages ≡ false
      → page < limit
  unfolding is_last lt_ℤ
  more_pages page result e b = ground arith

  module _ (known : IsBounded) where
    page-Ends :
        (account : Text) (page : ℕ) (w : W) (listed : Listed T)
        (next : Listed T → W → Result XlwmsError (Listed T) × W)
        (r : Result ClientError PairingPageData × W)
        → list_product_pairings_page T account store_code page w ≡ r
        → (page < limit → (l : Listed T) (v : W) → Ends (next l v))
        → Ends (after_page T account page next listed r)
    unfolding after_page
    page-Ends account page w listed next (err e, v) p f = λ h. ground arith
    page-Ends account page w listed next (ok result, v) p f =
        if_rule Ends (is_last T page result) (λ _. λ h. cc)
          (λ e. f (more_pages page result e (known.bounded account page result w v p)) _ v)

    pages-Ends :
        (fuel : ℕ) (account : Text) (page : ℕ) (listed : Listed T) (w : W)
        → limit ≤ page + fuel
        → Ends (list_pages T (suc fuel) account store_code page listed w)
    unfolding list_pages
    pages-Ends zero account page listed w b =
        page-Ends account page w listed (list_pages T zero account store_code (suc page))
          (list_product_pairings_page T account store_code page w) refl λ h. absurd (omega arith)
    pages-Ends (suc fuel) account page listed w b =
        page-Ends account page w listed (list_pages T (suc fuel) account store_code (suc page))
          (list_product_pairings_page T account store_code page w) refl
          λ h l v. pages-Ends fuel account (suc page) l v (omega arith)

    account-Ends :
        (next : Listed T → W → Result XlwmsError (Listed T) × W)
        (r : Result XlwmsError (Listed T) × W)
        → Ends r
        → ((l : Listed T) (v : W) → Ends (next l v))
        → Ends (after_account T next r)
    account-Ends next (err e, v) h f = h
    account-Ends next (ok l, v) h f = f l v

    all-Ends :
        (fuel : ℕ) (accounts : List Account) (listed : Listed T) (w : W)
        → limit ≤ suc fuel
        → Ends (list_all T (suc fuel) store_code accounts listed w)
    unfolding list_all
    all-Ends fuel [] listed w b = λ h. cc
    all-Ends fuel (account ∷ accounts) listed w b =
        account-Ends (list_all T (suc fuel) store_code accounts)
          (list_pages T (suc fuel) account.key store_code 1 listed w)
          (pages-Ends fuel account.key 1 listed w (omega arith))
          (λ l v. all-Ends fuel accounts l v b)

    list-Ends :
        (fuel : ℕ) (r : Result ClientError (List Account) × W)
        → limit ≤ suc fuel
        → Ends (after_list T (λ accounts v. list_all T (suc fuel) store_code accounts ([], 0) v) r)
    list-Ends fuel (err e, v) b = λ h. ground arith
    list-Ends fuel (ok accounts, v) b = all-Ends fuel accounts ([], 0) v b

    -- ListMappings ends: where the server never says that an account has more pages than a limit, fuel
    -- for one page, and for as many as the limit, is not used up.
    pub list_mappings_ends :
        (fuel : ℕ) (w : W)
        → limit ≤ suc fuel
        → (list_mappings T (suc fuel) store_code w).0 ≢ err out_of_fuel
    unfolding list_mappings
    list_mappings_ends fuel w b = list-Ends fuel (list_accounts T w) b
