-- ===== src/Pull/Run.antt =====
-- syncer.go: Syncer.Run, one pull from all sources. The databases are the state of the outside, which
-- the calls of the record Sources change; each of these is a query or a transaction of its own.
use pangu_sales_manager.Base.{
  ℕ, ◌+◌, ℤ, pos, String, Text, Bool, true, false, List, [], ◌∷◌, ◌++◌, Option, none, some, Result,
  ok, err, if◌then◌else◌, str_eq, ◌&&◌,
}
use pangu_sales_manager.Marketing.State.{Time}
use pangu_sales_manager.SyncPlan.{SyncPlan}
use pangu_sales_manager.Pull.Types.{SourceOrder, SourceLine, InventoryRow, Warehouse}

pub record SyncCounts : Type 0 where
  pub orders : ℕ
  pub lines : ℕ
  pub inventory : ℕ

-- The errors that a run joins, in their order.
pub data SyncError : Type 0 where
  sync_running : SyncError
  plan_failed : Text → SyncError
  begin_failed : Text → SyncError
  temu_failed : String → Text → SyncError
  mappings_failed : Text → SyncError
  inventory_failed : Text → SyncError
  shein_failed : Text → SyncError

-- What readXLWMS returns: the rows so far, and an error if there is one.
pub record Stock (Float : Type 0) : Type 0 where
  pub warehouses : List Warehouse
  pub inventory : List (InventoryRow Float)
  pub failure : Option Text

abbrev pub Orders : Type 0 → Type 0
Orders Float = List SourceOrder × List (SourceLine Float)

-- The orders and lines that upsertSourceBatch counts, and an error if there is one.
pub record Upserted : Type 0 where
  pub orders : ℕ
  pub lines : ℕ
  pub failure : Option Text

pub record Sources (W Float : Type 0) : Type 0 where
  pub plan_sync : W → Result Text SyncPlan × W
  pub begin_sync : String → W → Result Text ℤ × W
  -- The run, its status, what it counted and its errors. An error of this call is only logged.
  pub finish_sync : ℤ → String → SyncCounts → List SyncError → W → W
  pub read_xlwms : W → Stock Float × W
  pub replace_inventory : List Warehouse → List (InventoryRow Float) → W → (ℕ × Option Text) × W
  pub read_shein :
      List Warehouse → List (InventoryRow Float) → Time → W → Result Text (Orders Float) × W
  pub read_temu :
      String → String → List (InventoryRow Float) → Time → W → Result Text (Orders Float) × W
  pub upsert_source_batch : Orders Float → W → Upserted × W
  pub sync_xlwms_mappings : W → Option Text × W

-- `plan.Since[key]`: the zero time if the key is missing.
unfoldable pub since_of_shop : String → String → List ((String × String) × Time) → Time
since_of_shop platform shop [] = pos 0
since_of_shop platform shop (((p, s), t) ∷ since) =
    let rest = since_of_shop platform shop since in
    if str_eq p platform && str_eq s shop then t else rest

-- `errors.Join(err, ...)` of an error that may be missing.
abbrev pub join_error : (Text → SyncError) → Option Text → List SyncError → List SyncError
join_error f none errors = errors
join_error f (some e) errors = errors ++ f e ∷ []

-- The shops of Temu and their schemas.
abbrev pub temu_shops : List (String × String)
temu_shops = ("panda-homes", "temu_panda_homes") ∷ ("panda-buy", "temu_panda_buy") ∷ []

pub record Syncer (W : Type 0) : Type 0 where
  pub running : Bool
  pub force_full : Bool
  pub world : W

module _ {W Float : Type 0} (S : Sources W Float) where
  -- What is counted, the errors so far, and the outside.
  abbrev pub Progress : Type 0
  Progress = SyncCounts × List SyncError × W

  -- `if inventoryErr == nil { ... replaceInventory ... }`
  abbrev pub store_inventory : Stock Float → W → (ℕ × Option Text) × W
  store_inventory stock w = elim stock.failure [
    | none ↦ S.replace_inventory stock.warehouses stock.inventory w
    | some e ↦ ((0, some e), w)
  ]

  -- What a source gives is stored, unless it failed.
  abbrev pub store_orders : Result Text (Orders Float) × W → Upserted × W
  store_orders (ok batch, w) = S.upsert_source_batch batch w
  store_orders (err e, w) = (record { orders = 0; lines = 0; failure = some e }, w)

  abbrev pub add_counts : Upserted → SyncCounts → SyncCounts
  add_counts u counts = record counts {
    orders = counts.orders + u.orders;
    lines = counts.lines + u.lines;
  }

  -- One shop of Temu.
  unfoldable pub sync_shop :
      SyncPlan → List (InventoryRow Float) → String × String → Progress → Progress
  unfolding since_of_shop
  sync_shop plan inventory (key, schema) (counts, errors, w) =
      let (u, w') =
        store_orders (S.read_temu key schema inventory (since_of_shop "temu" key plan.since) w) in
      (add_counts u counts, join_error (temu_failed key) u.failure errors, w')

  unfoldable pub sync_shops :
      SyncPlan → List (InventoryRow Float) → List (String × String) → Progress → Progress
  unfolding sync_shop
  sync_shops plan inventory [] progress = progress
  sync_shops plan inventory (shop ∷ shops) progress =
      sync_shops plan inventory shops (sync_shop plan inventory shop progress)

  -- The sources, each whether the others failed or not. The inventory and SHEIN come first, and their
  -- errors last.
  unfoldable pub sync_sources : SyncPlan → W → Progress
  unfolding sync_shops since_of_shop
  sync_sources plan w0 =
      let (stock, w1) = S.read_xlwms w0 in
      let (stored, w2) = store_inventory stock w1 in
      let (shein, w3) = store_orders (
        S.read_shein stock.warehouses stock.inventory
          (since_of_shop "shein" "beauty-hangers-home" plan.since) w2) in
      let counts : SyncCounts = record {
        orders = shein.orders;
        lines = shein.lines;
        inventory = stored.0;
      } in
      let (counts', errors, w4) = sync_shops plan stock.inventory temu_shops (counts, [], w3) in
      let (mapping_error, w5) = S.sync_xlwms_mappings w4 in
      (
        counts',
        join_error shein_failed shein.failure (
            join_error inventory_failed stored.1 (join_error mappings_failed mapping_error errors)),
        w5,
      )

  abbrev pub no_counts : SyncCounts
  no_counts = record { orders = 0; lines = 0; inventory = 0 }

  abbrev pub status_of : List SyncError → String
  status_of [] = "succeeded"
  status_of (e ∷ errors) = "failed"

  -- The deferred call: the run is finished with what it counted and its errors.
  abbrev pub finish : ℤ → Progress → Progress
  finish run_id (counts, errors, w) =
      (counts, errors, S.finish_sync run_id (status_of errors) counts errors w)

  unfoldable pub after_begin : SyncPlan → Result Text ℤ × W → Progress
  unfolding sync_sources
  after_begin plan (err e, w) = (no_counts, begin_failed e ∷ [], w)
  after_begin plan (ok run_id, w) = finish run_id (sync_sources plan w)

  unfoldable pub after_plan : Result Text SyncPlan × W → Progress
  unfolding after_begin
  after_plan (err e, w) = (no_counts, plan_failed e ∷ [], w)
  after_plan (ok plan, w) = after_begin plan (S.begin_sync plan.mode w)

  -- A forced pull is full, from the start.
  abbrev pub plan_or_full : Bool → W → Result Text SyncPlan × W
  plan_or_full true w = (ok (record { mode = "full"; since = [] }), w)
  plan_or_full false w = S.plan_sync w

  -- The flag is set during a run, and cleared when it ends, by whatever way.
  unfoldable pub run : Syncer W → (SyncCounts × List SyncError) × Syncer W
  unfolding after_plan
  run s =
      let (counts, errors, w) = after_plan (plan_or_full s.force_full s.world) in
      if s.running
      then ((no_counts, sync_running ∷ []), s)
      else ((counts, errors), record s { running = false; world = w })
