-- ===== src/Xlwms/Walk.antt =====
-- Which pages ListMappings reads, and that it ends.
use pangu_sales_manager.Base.{
  text_Eq, ℕ, zero, suc, Text, true, false, List, [], ◌∷◌, ◌++◌, fold, fold-append, Option, none,
  some, Result, ok, err, ok_injective, Bool-cases, lookup, ◌≡◌, refl, sym, ap, ◌∙◌, inl, inr, arith,
}
use pangu_sales_manager.Xlwms.{
  list_accounts, list_product_pairings_page, Listed, add_record, after_page, after_account,
  after_list, is_last, list_pages, list_all, list_mappings,
}
use pangu_sales_manager.XlwmsData.{
  Transport, Account, Pairing, PairingPageData, Mapping, ClientError, XlwmsError,
}
use pangu_sales_manager.Xlwms.Tally.{last_single, bundles, or_else, tally-lookup, tally-bundles}

module _ {W : Type 0} (T : Transport W) (store_code : Text) where
  -- The pages of an account from the given one up to the last, and their records.
  pub data Pages (account : Text) : ℕ → W → List Pairing → W → Type 0 where
    last :
        {page : ℕ} {w v : W} {result : PairingPageData}
        → list_product_pairings_page T account store_code page w ≡ (ok result, v)
        → is_last T page result ≡ true
        → Pages account page w result.records v
    more :
        {page : ℕ} {w v v' : W} {result : PairingPageData} {records : List Pairing}
        → list_product_pairings_page T account store_code page w ≡ (ok result, v)
        → is_last T page result ≡ false
        → Pages account (suc page) v records v'
        → Pages account page w (result.records ++ records) v'

  -- The pages of each account in turn, from the first page on.
  pub data AllPages : List Account → W → List Pairing → W → Type 0 where
    no_more : {w : W} → AllPages [] w [] w
    account_next :
        {account : Account} {accounts : List Account} {w v v' : W} {records rest : List Pairing}
        → Pages account.key 1 w records v
        → AllPages accounts v rest v'
        → AllPages (account ∷ accounts) w (records ++ rest) v'

  record Read (account : Text) (page : ℕ) (w : W) (before after : Listed T) (v : W) : Type 0 where
    records : List Pairing
    pages : Pages account page w records v
    tally : after ≡ fold (add_record T) before records

  Read-page :
      (account : Text) (page : ℕ) (w : W) (before after : Listed T)
      (next : Listed T → W → Result XlwmsError (Listed T) × W)
      (r : Result ClientError PairingPageData × W)
      → list_product_pairings_page T account store_code page w ≡ r
      → ((l : Listed T) (v : W)
          → (next l v).0 ≡ ok after
          → Read account (suc page) v l after (next l v).1)
      → (after_page T account page next before r).0 ≡ ok after
      → Read account page w before after (after_page T account page next before r).1
  unfolding after_page
  Read-page account page w before after next (err e, v) p f h = cc
  Read-page account page w before after next (ok result, v) p f h =
      elim (Bool-cases (is_last T page result)) [
        | inl e ↦ rw e (record {
          records = result.records;
          pages = last p e;
          tally = sym (ok_injective (rw (e, after_page) at h));
        })
        | inr e ↦
            let l = fold (add_record T) before result.records in
            let rest = f l v (rw (e, after_page) at h) in
            rw e (record {
              records = result.records ++ rest.records;
              pages = more p e rest.pages;
              tally =
                  rest.tally ∙ sym (fold-append (add_record T) before result.records rest.records);
            })
      ]

  list_pages-Read :
      (fuel : ℕ) (account : Text) (page : ℕ) (before : Listed T) (w : W) (after : Listed T)
      → (list_pages T fuel account store_code page before w).0 ≡ ok after
      → Read account page w before after (list_pages T fuel account store_code page before w).1
  unfolding list_pages
  list_pages-Read zero account page before w after h = cc
  list_pages-Read (suc fuel) account page before w after h =
      Read-page account page w before after (list_pages T fuel account store_code (suc page))
        (list_product_pairings_page T account store_code page w) refl
        (λ l v k. list_pages-Read fuel account (suc page) l v after k) h

  record ReadAll (accounts : List Account) (w : W) (before after : Listed T) (v : W) : Type 0 where
    records : List Pairing
    pages : AllPages accounts w records v
    tally : after ≡ fold (add_record T) before records

  ReadAll-next :
      (account : Account) (accounts : List Account) (w : W) (before after : Listed T)
      (next : Listed T → W → Result XlwmsError (Listed T) × W)
      (r : Result XlwmsError (Listed T) × W)
      → ((l : Listed T) → r.0 ≡ ok l → Read account.key 1 w before l r.1)
      → ((l : Listed T) (v : W) → (next l v).0 ≡ ok after → ReadAll accounts v l after (next l v).1)
      → (after_account T next r).0 ≡ ok after
      → ReadAll (account ∷ accounts) w before after (after_account T next r).1
  ReadAll-next account accounts w before after next (err e, v) g f h = cc
  ReadAll-next account accounts w before after next (ok l, v) g f h =
      let one = g l refl in
      let rest = f l v h in
      record {
        records = one.records ++ rest.records;
        pages = account_next one.pages rest.pages;
        tally =
            rest.tally
            ∙ ap (λ b. fold (add_record T) b rest.records) one.tally
            ∙ sym (fold-append (add_record T) before one.records rest.records);
      }

  list_all-ReadAll :
      (fuel : ℕ) (accounts : List Account) (before : Listed T) (w : W) (after : Listed T)
      → (list_all T fuel store_code accounts before w).0 ≡ ok after
      → ReadAll accounts w before after (list_all T fuel store_code accounts before w).1
  unfolding list_all
  list_all-ReadAll fuel [] before w after h = record {
    records = [];
    pages = no_more;
    tally = sym (ok_injective h);
  }
  list_all-ReadAll fuel (account ∷ accounts) before w after h =
      ReadAll-next account accounts w before after (list_all T fuel store_code accounts)
        (list_pages T fuel account.key store_code 1 before w)
        (λ l k. list_pages-Read fuel account.key 1 before w l k)
        (λ l v k. list_all-ReadAll fuel accounts l v after k) h

  -- What ListMappings gives: the records of every page of every account, from the first page up to
  -- the last, in turn; for each SKU the mapping of its last record with one item; and the number of
  -- the records with another number of items.
  pub record IsTally (w : W) (after : Listed T) (v : W) : Type 0 where
    pub accounts : List Account
    pub start : W
    pub records : List Pairing
    pub accounts_eq : list_accounts T w ≡ (ok accounts, start)
    pub pages : AllPages accounts start records v
    pub mapped : (sku : Text) → lookup sku after.0 ≡ last_single sku records
    pub skipped : after.1 ≡ bundles records

  or_else-right : (o : Option Mapping) → or_else o none ≡ o
  or_else-right none = refl
  or_else-right (some m) = refl

  IsTally-list :
      (fuel : ℕ) (w : W) (after : Listed T) (r : Result ClientError (List Account) × W)
      → list_accounts T w ≡ r
      → (after_list T (λ accounts v. list_all T fuel store_code accounts ([], 0) v) r).0 ≡ ok after
      → IsTally w after
          (after_list T (λ accounts v. list_all T fuel store_code accounts ([], 0) v) r).1
  unfolding lookup
  IsTally-list fuel w after (err e, v) p h = cc
  IsTally-list fuel w after (ok accounts, v) p h =
      let all = list_all-ReadAll fuel accounts ([], 0) v after h in
      record {
        accounts = accounts;
        start = v;
        records = all.records;
        accounts_eq = p;
        pages = all.pages;
        mapped = λ sku.
            ap (λ (l : Listed T). lookup sku l.0) all.tally
            ∙ tally-lookup T sku all.records ([], 0)
            ∙ or_else-right (last_single sku all.records);
        skipped =
            ap (λ (l : Listed T). l.1) all.tally
            ∙ tally-bundles T all.records ([], 0)
            ∙ omega arith;
      }

  -- Where ListMappings succeeds, its mappings and the number of skipped bundles are those of all the
  -- records of all accounts: it has read each account's pages from the first up to one that is the
  -- last or empty, and an SKU has the mapping of its last record with one item, or none.
  pub list_mappings-IsTally :
      (fuel : ℕ) (w : W) (after : Listed T)
      → (list_mappings T fuel store_code w).0 ≡ ok after
      → IsTally w after (list_mappings T fuel store_code w).1
  unfolding list_mappings
  list_mappings-IsTally fuel w after h = IsTally-list fuel w after (list_accounts T w) refl h
