-- ===== src/Tests/Xlwms.antt =====
-- Runs of the mapping client and of a whole pull; the outside counts the calls.
use pangu_sales_manager.Base.{
  ℕ, suc, ℤ, pos, lt_ℤ, String, codes, true, false, List, [], ◌∷◌, none, ok, err, ◌≡◌, ◌≢◌, refl,
  ap, subst, text_eq, ok_injective, Result, arith,
}
use pangu_sales_manager.Xlwms.{
  Listed, list_mappings, list_product_pairings_page, post_pairing, create_mapping,
}
use pangu_sales_manager.XlwmsData.{
  out_of_fuel, Transport, Account, PairingItem, Pairing, PairingPageData, ClientError,
}
use pangu_sales_manager.Xlwms.Walk.{IsTally, list_mappings-IsTally}
use pangu_sales_manager.Xlwms.Ends.{IsBounded, list_mappings_ends}
use pangu_sales_manager.Xlwms.Creation.{Created, create_mapping-Created}
use pangu_sales_manager.Pull.Run.{Sources, Syncer, run}
use pangu_sales_manager.Pull.Runs.{Ended, run-Ended}

abbrev account : String → Account
account key = record { key = codes key; label = []; available = true }

abbrev pairing : String → List PairingItem → Pairing
pairing sku items = record { platform_sku = codes sku; store_code = codes "634"; items = items }

abbrev item : String → ℤ → PairingItem
item sku quantity = record { system_sku = codes sku; quantity = quantity }

-- A server with two accounts, whose one page holds a mapping, a bundle and a later mapping.
abbrev server : Transport ℕ
server = record {
  request_error = λ request. none;
  send = λ request w. (ok (pos 200, ok (codes "{}")), suc w);
  decode_envelope = λ raw. ok (record { success = true; error = []; payload = raw });
  decode_accounts = λ raw. ok (account "a" ∷ account "b" ∷ []);
  decode_page = λ raw. ok (record {
    records =
        pairing "P1" (item "W1" (pos 1) ∷ [])
        ∷ pairing "P2" (item "W1" (pos 1) ∷ item "W2" (pos 1) ∷ [])
        ∷ pairing "P1" (item "W3" (pos 2) ∷ [])
        ∷ [];
    pages = pos 1;
  });
}

abbrev listed : Listed server
listed = (
  (codes "P1", record { platform_sku = codes "P1"; warehouse_sku = codes "W3"; quantity = pos 2 })
      ∷ [],
  2,
)

list_mappings-IsTally_example :
    IsTally server (codes "634") 0 listed (list_mappings server 2 (codes "634") 0).1
unfolding list_mappings text_eq
list_mappings-IsTally_example = list_mappings-IsTally server (codes "634") 2 0 listed refl

server-IsBounded : IsBounded server (codes "634") 1
unfolding list_product_pairings_page lt_ℤ
server-IsBounded = record {
  bounded = λ account page result w v h.
      subst (λ (r : PairingPageData). lt_ℤ (pos 1) r.pages ≡ false)
        (ok_injective (ap (λ (r : Result ClientError PairingPageData × ℕ). r.0) h)) refl;
}

list_mappings_ends_example : (list_mappings server 2 (codes "634") 0).0 ≢ err out_of_fuel
list_mappings_ends_example =
    list_mappings_ends server (codes "634") 1 server-IsBounded 1 0 (omega arith)

create_mapping-Created_example :
    let r = create_mapping server (codes "634") (codes "P1") (codes "W1") (pos 1) 0 in
    Created server (post_pairing server (codes "634") (codes "P1") (codes "W1") (pos 1)) 0 r.0 r.1
create_mapping-Created_example =
    create_mapping-Created server (codes "634") (codes "P1") (codes "W1") (pos 1) 0

-- Sources of which SHEIN fails.
abbrev sources : Sources ℕ ℤ
sources = record {
  plan_sync = λ w. (ok (record { mode = "full"; since = [] }), suc w);
  begin_sync = λ mode w. (ok (pos 9), suc w);
  finish_sync = λ run_id status counts errors w. suc w;
  read_xlwms = λ w. (record { warehouses = []; inventory = []; failure = none }, suc w);
  replace_inventory = λ warehouses inventory w. ((0, none), suc w);
  read_shein = λ warehouses inventory since w. (err (codes "down"), suc w);
  read_temu = λ key schema inventory since w. (ok ([], []), suc w);
  upsert_source_batch = λ batch w. (record { orders = 3; lines = 4; failure = none }, suc w);
  sync_xlwms_mappings = λ w. (none, suc w);
}

abbrev idle : Syncer ℕ
idle = record { running = false; force_full = false; world = 0 }

run-Ended_example :
    Ended sources false 0 (run sources idle).0 (run sources idle).1.world
    × ((run sources idle).1.running ≡ false)
run-Ended_example = run-Ended sources idle refl
