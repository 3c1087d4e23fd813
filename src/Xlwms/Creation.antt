-- ===== src/Xlwms/Creation.antt =====
-- How CreateMapping ends.
use pangu_sales_manager.Base.{
  ℕ, suc, ℤ, Text, List, [], ◌∷◌, ◌++◌, length, Result, ok, err, append_assoc, append-nil, ◌≡◌,
  refl, sym, ap, ◌∙◌, arith,
}
use pangu_sales_manager.Xlwms.{
  list_accounts, post_pairing, after_post, try_accounts, after_accounts, create_mapping,
}
use pangu_sales_manager.XlwmsData.{
  no_account_list, no_accounts, all_rejected, Transport, Account, ClientError, XlwmsError,
}

module _ {W : Type 0} (T : Transport W) where
  module _ (post : Account → W → Result ClientError (Unit {0}) × W) where
    -- Accounts that refuse a mapping, one after the other, and their errors.
    pub data Refuse : List Account → W → List ClientError → W → Type 0 where
      none_asked : {w : W} → Refuse [] w [] w
      refuse :
          {account : Account} {accounts : List Account} {w v v' : W} {e : ClientError}
          {errors : List ClientError}
          → post account w ≡ (err e, v)
          → Refuse accounts v errors v'
          → Refuse (account ∷ accounts) w (e ∷ errors) v'

    -- Some account takes the mapping, and those before it refuse it; or all refuse it, and their
    -- errors follow those so far.
    pub data Tried (count : ℕ) (accounts : List Account) (so_far : List ClientError) (w : W)
        : Result XlwmsError (Unit {0}) → W → Type 0 where
      taken :
          {before : List Account} (after : List Account) {account : Account}
          {errors : List ClientError} {v v' : W} {u : Unit {0}}
          → accounts ≡ before ++ account ∷ after
          → Refuse before w errors v
          → post account v ≡ (ok u, v')
          → Tried count accounts so_far w (ok tt) v'
      refused_by_all :
          {errors all : List ClientError} {v : W}
          → Refuse accounts w errors v
          → length errors ≡ length accounts
          → all ≡ so_far ++ errors
          → Tried count accounts so_far w (err (all_rejected count all)) v

    Tried-refuse :
        (count : ℕ) (account : Account) (accounts : List Account) (so_far : List ClientError)
        (w v : W) (e : ClientError) {r : Result XlwmsError (Unit {0})} {v' : W}
        → post account w ≡ (err e, v)
        → Tried count accounts (so_far ++ e ∷ []) v r v'
        → Tried count (account ∷ accounts) so_far w r v'
    Tried-refuse count account accounts so_far w v e p (taken after q f t) =
        taken after (ap (◌∷◌ account) q) (refuse p f) t
    Tried-refuse count account accounts so_far w v e p (refused_by_all {errors} f n q) =
        refused_by_all (refuse p f) (omega (arith, n)) (q ∙ append_assoc so_far (e ∷ []) errors)

    post-Tried :
        (count : ℕ) (account : Account) (accounts : List Account) (so_far : List ClientError)
        (w : W) (next : List ClientError → W → Result XlwmsError (Unit {0}) × W)
        (r : Result ClientError (Unit {0}) × W)
        → post account w ≡ r
        → ((errors : List ClientError) (v : W)
            → Tried count accounts errors v (next errors v).0 (next errors v).1)
        → Tried count
            (account ∷ accounts)
            so_far
            w
            (after_post T next so_far r).0
            (after_post T next so_far r).1
    post-Tried count account accounts so_far w next (ok u, v) p f = taken accounts refl none_asked p
    post-Tried count account accounts so_far w next (err e, v) p f =
        Tried-refuse count account accounts so_far w v e p (f (so_far ++ e ∷ []) v)

    try_accounts-Tried :
        (count : ℕ) (accounts : List Account) (so_far : List ClientError) (w : W)
        → Tried count accounts so_far w
            (try_accounts T count post accounts so_far w).0
            (try_accounts T count post accounts so_far w).1
    unfolding try_accounts
    try_accounts-Tried count [] so_far w = refused_by_all none_asked refl (sym (append-nil so_far))
    try_accounts-Tried count (account ∷ accounts) so_far w =
        post-Tried count account accounts so_far w (try_accounts T count post accounts)
          (post account w) refl (λ errors v. try_accounts-Tried count accounts errors v)

    -- The list of the accounts fails or is empty, and no mapping is posted; or the accounts are tried.
    pub data Created (w : W) : Result XlwmsError (Unit {0}) → W → Type 0 where
      not_listed :
          {e : ClientError} {v : W}
          → list_accounts T w ≡ (err e, v)
          → Created w (err (no_account_list e)) v
      nobody : {v : W} → list_accounts T w ≡ (ok [], v) → Created w (err no_accounts) v
      tried :
          {accounts : List Account} {v v' : W} {r : Result XlwmsError (Unit {0})}
          → list_accounts T w ≡ (ok accounts, v)
          → Tried (length accounts) accounts [] v r v'
          → Created w r v'

    accounts-Created :
        (w : W) (r : Result ClientError (List Account) × W)
        → list_accounts T w ≡ r
        → Created w (after_accounts T post r).0 (after_accounts T post r).1
    unfolding try_accounts
    accounts-Created w (err e, v) p = not_listed p
    accounts-Created w (ok [], v) p = nobody p
    accounts-Created w (ok (account ∷ accounts), v) p =
        tried p (try_accounts-Tried (suc (length accounts)) (account ∷ accounts) [] v)

  -- CreateMapping ends in one of four ways: the accounts cannot be listed; there is none; an account
  -- takes the mapping, after those before it have refused it, and none after it is asked; or every
  -- account refuses it, and the error holds their number and the error of each in turn.
  pub create_mapping-Created :
      (store_code platform_sku warehouse_sku : Text) (quantity : ℤ) (w : W)
      → let r = create_mapping T store_code platform_sku warehouse_sku quantity w in
        Created (post_pairing T store_code platform_sku warehouse_sku quantity) w r.0 r.1
  unfolding create_mapping
  create_mapping-Created store_code platform_sku warehouse_sku quantity w =
      accounts-Created (post_pairing T store_code platform_sku warehouse_sku quantity) w
        (list_accounts T w) refl
