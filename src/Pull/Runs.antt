-- ===== src/Pull/Runs.antt =====
-- How a run of the pull ends.
use pangu_sales_manager.Base.{
  ◌≢◌, true, ℕ, ◌+◌, ℤ, String, Text, Bool, false, List, [], ◌∷◌, ◌++◌, Option, none, some, Result,
  ok, err, append_assoc, append-nil, ◌≡◌, refl, sym, ap, ◌∙◌, arith,
}
use pangu_sales_manager.SyncPlan.{SyncPlan}
use pangu_sales_manager.Pull.Types.{InventoryRow}
use pangu_sales_manager.Pull.Run.{
  SyncCounts, SyncError, plan_failed, begin_failed, temu_failed, mappings_failed, inventory_failed,
  shein_failed, Stock, Upserted, Sources, since_of_shop, join_error, temu_shops, Syncer, Progress,
  store_inventory, store_orders, add_counts, sync_shops, sync_sources, no_counts, status_of,
  after_begin, after_plan, plan_or_full, run,
}
use pangu_sales_manager.Pull.Stored.{
  IsStored, IsKept, store_orders-IsStored, store_inventory-IsKept,
}

-- The error of a call, if it failed.
abbrev pub error_of : (Text → SyncError) → Option Text → List SyncError
error_of f none = []
error_of f (some e) = f e ∷ []

join_error-append :
    (f : Text → SyncError) (o : Option Text) (errors : List SyncError)
    → join_error f o errors ≡ errors ++ error_of f o
join_error-append f none errors = sym (append-nil errors)
join_error-append f (some e) errors = refl

-- The sums and the errors of what the shops gave, in their order.
abbrev pub orders_of : List (String × Upserted) → ℕ
orders_of [] = 0
orders_of ((key, u) ∷ us) = u.orders + orders_of us

abbrev pub lines_in : List (String × Upserted) → ℕ
lines_in [] = 0
lines_in ((key, u) ∷ us) = u.lines + lines_in us

abbrev pub errors_of : List (String × Upserted) → List SyncError
errors_of [] = []
errors_of ((key, u) ∷ us) = error_of (temu_failed key) u.failure ++ errors_of us

module _ {W Float : Type 0} (S : Sources W Float) where
  module _ (plan : SyncPlan) (inventory : List (InventoryRow Float)) where
    -- Each shop is read and stored in turn, and leaves the outside to the next.
    pub data Visits : W → List (String × String) → List (String × Upserted) → W → Type 0 where
      none_left : {w : W} → Visits w [] [] w
      visit :
          {key schema : String} {shops : List (String × String)} {u : Upserted}
          {us : List (String × Upserted)} {w v v' : W}
          → IsStored S
              (S.read_temu key schema inventory (since_of_shop "temu" key plan.since) w)
              u
              v
          → Visits v shops us v'
          → Visits w ((key, schema) ∷ shops) ((key, u) ∷ us) v'

    -- What the loop over the shops adds to the counts and the errors.
    record Visited (shops : List (String × String)) (before after : Progress S) : Type 0 where
      us : List (String × Upserted)
      visits : Visits before.2 shops us after.2
      orders_eq : after.0.orders ≡ before.0.orders + orders_of us
      lines_eq : after.0.lines ≡ before.0.lines + lines_in us
      inventory_eq : after.0.inventory ≡ before.0.inventory
      errors_eq : after.1 ≡ before.1 ++ errors_of us

    sync_shops-Visited :
        (shops : List (String × String)) (p : Progress S)
        → Visited shops p (sync_shops S plan inventory shops p)
    unfolding sync_shops
    sync_shops-Visited [] (counts, errors, w) = record {
      us = [];
      visits = none_left;
      orders_eq = omega arith;
      lines_eq = omega arith;
      inventory_eq = refl;
      errors_eq = sym (append-nil errors);
    }
    sync_shops-Visited ((key, schema) ∷ shops) (counts, errors, w) =
        let r =
          store_orders S
            (S.read_temu key schema inventory (since_of_shop "temu" key plan.since) w) in
        let rest =
          sync_shops-Visited shops
            (add_counts S r.0 counts, join_error (temu_failed key) r.0.failure errors, r.1) in
        record {
          us = (key, r.0) ∷ rest.us;
          visits = visit (store_orders-IsStored S _) rest.visits;
          orders_eq = omega (arith, rest.orders_eq);
          lines_eq = omega (arith, rest.lines_eq);
          inventory_eq = rest.inventory_eq;
          errors_eq =
              rest.errors_eq
              ∙ ap (λ es. es ++ errors_of rest.us)
                  (join_error-append (temu_failed key) r.0.failure errors)
              ∙ append_assoc errors (error_of (temu_failed key) r.0.failure) (errors_of rest.us);
        }

  -- What a pull from all sources is. The inventory is read, then stored unless that failed; then SHEIN
  -- is read and stored, then each shop of Temu, then the mappings, whatever failed before. The counts
  -- are the sums, and the errors those of the shops, the mappings, the inventory and SHEIN.
  pub record IsComplete (plan : SyncPlan) (w0 : W) (after : Progress S) : Type 0 where
    pub stock : Stock Float
    pub shein : Upserted
    pub us : List (String × Upserted)
    pub mapping_error : Option Text
    pub w1 : W
    pub stored : (ℕ × Option Text) × W
    pub w3 : W
    pub w4 : W
    pub stock_eq : S.read_xlwms w0 ≡ (stock, w1)
    pub kept : IsKept S stock w1 stored
    pub shein_stored :
        IsStored S
          (S.read_shein stock.warehouses stock.inventory
            (since_of_shop "shein" "beauty-hangers-home" plan.since)
            stored.1)
          shein
          w3
    pub visits : Visits plan stock.inventory w3 temu_shops us w4
    pub mappings_eq : S.sync_xlwms_mappings w4 ≡ (mapping_error, after.2)
    pub orders_eq : after.0.orders ≡ shein.orders + orders_of us
    pub lines_eq : after.0.lines ≡ shein.lines + lines_in us
    pub inventory_eq : after.0.inventory ≡ stored.0.0
    pub errors_eq :
        after.1
        ≡ errors_of us
          ++ error_of mappings_failed mapping_error
          ++ error_of inventory_failed stored.0.1
          ++ error_of shein_failed shein.failure

  joined :
      (a b c : Option Text) (errors : List SyncError)
      → join_error shein_failed c
          (join_error inventory_failed b (join_error mappings_failed a errors))
        ≡ errors
          ++ error_of mappings_failed a
          ++ error_of inventory_failed b
          ++ error_of shein_failed c
  joined a b c errors =
      join_error-append shein_failed c _
      ∙ ap (λ es. es ++ error_of shein_failed c)
          (join_error-append inventory_failed b _
            ∙ ap (λ es. es ++ error_of inventory_failed b)
                (join_error-append mappings_failed a errors))

  sync_sources-IsComplete : (plan : SyncPlan) (w : W) → IsComplete plan w (sync_sources S plan w)
  unfolding sync_sources
  sync_sources-IsComplete plan w =
      let x = S.read_xlwms w in
      let i = store_inventory S x.0 x.1 in
      let h = store_orders S (
        S.read_shein x.0.warehouses x.0.inventory
          (since_of_shop "shein" "beauty-hangers-home" plan.since) i.1) in
      let counts : SyncCounts = record {
        orders = h.0.orders;
        lines = h.0.lines;
        inventory = i.0.0;
      } in
      let v = sync_shops-Visited plan x.0.inventory temu_shops (counts, [], h.1) in
      let m =
        S.sync_xlwms_mappings (sync_shops S plan x.0.inventory temu_shops (counts, [], h.1)).2 in
      record {
        stock = x.0;
        shein = h.0;
        us = v.us;
        mapping_error = m.0;
        w1 = x.1;
        stored = i;
        w3 = h.1;
        w4 = (sync_shops S plan x.0.inventory temu_shops (counts, [], h.1)).2;
        stock_eq = refl;
        kept = store_inventory-IsKept S x.0 x.1;
        shein_stored = store_orders-IsStored S _;
        visits = v.visits;
        mappings_eq = refl;
        orders_eq = v.orders_eq;
        lines_eq = v.lines_eq;
        inventory_eq = v.inventory_eq;
        errors_eq =
            joined m.0 i.0.1 h.0.failure
              (sync_shops S plan x.0.inventory temu_shops (counts, [], h.1)).1
            ∙ ap
                (λ es.
                  es
                  ++ error_of mappings_failed m.0
                  ++ error_of inventory_failed i.0.1
                  ++ error_of shein_failed h.0.failure)
                v.errors_eq;
      }

  -- The plan of a run: a forced run is full from the start and asks nobody, another one asks the
  -- database.
  pub data IsPlan (w : W) : Bool → Result Text SyncPlan → W → Type 0 where
    forced : IsPlan w true (ok (record { mode = "full"; since = [] })) w
    asked : {r : Result Text SyncPlan} {v : W} → S.plan_sync w ≡ (r, v) → IsPlan w false r v

  plan_or_full-IsPlan :
      (force_full : Bool) (w : W)
      → IsPlan w force_full (plan_or_full S force_full w).0 (plan_or_full S force_full w).1
  plan_or_full-IsPlan true w = forced
  plan_or_full-IsPlan false w = asked refl

  -- How a run ends that was started: with the error of the plan or of the start, and nothing else
  -- done; or with a pull from all sources, which is then finished.
  pub data Ended (force_full : Bool) (w : W) : SyncCounts × List SyncError → W → Type 0 where
    unplanned :
        {e : Text} {v : W}
        → IsPlan w force_full (err e) v
        → Ended force_full w (no_counts S, plan_failed e ∷ []) v
    not_begun :
        {plan : SyncPlan} {e : Text} {v v' : W}
        → IsPlan w force_full (ok plan) v
        → S.begin_sync plan.mode v ≡ (err e, v')
        → Ended force_full w (no_counts S, begin_failed e ∷ []) v'
    finished :
        {plan : SyncPlan} {run_id : ℤ} {v v' u : W} {counts : SyncCounts} {errors : List SyncError}
        {status : String}
        → IsPlan w force_full (ok plan) v
        → S.begin_sync plan.mode v ≡ (ok run_id, v')
        → IsComplete plan v' (counts, errors, u)
        → (errors ≡ [] → status ≡ "succeeded")
        → (errors ≢ [] → status ≡ "failed")
        → Ended force_full w (counts, errors) (S.finish_sync run_id status counts errors u)

  status-succeeded : (errors : List SyncError) → errors ≡ [] → status_of S errors ≡ "succeeded"
  status-succeeded [] h = refl
  status-succeeded (e ∷ errors) h = cc

  status-failed : (errors : List SyncError) → errors ≢ [] → status_of S errors ≡ "failed"
  status-failed [] h = absurd (h refl)
  status-failed (e ∷ errors) h = refl

  after_begin-Ended :
      (force_full : Bool) (w v : W) (plan : SyncPlan) (r : Result Text ℤ × W)
      → IsPlan w force_full (ok plan) v
      → S.begin_sync plan.mode v ≡ r
      → let p = after_begin S plan r in Ended force_full w (p.0, p.1) p.2
  unfolding after_begin
  after_begin-Ended force_full w v plan (err e, v') p q = not_begun p q
  after_begin-Ended force_full w v plan (ok run_id, v') p q =
      finished p q (sync_sources-IsComplete plan v') (status-succeeded _) (status-failed _)

  after_plan-Ended :
      (force_full : Bool) (w : W) (r : Result Text SyncPlan × W)
      → IsPlan w force_full r.0 r.1
      → let p = after_plan S r in Ended force_full w (p.0, p.1) p.2
  unfolding after_plan
  after_plan-Ended force_full w (err e, v) p = unplanned p
  after_plan-Ended force_full w (ok plan, v) p =
      after_begin-Ended force_full w v plan (S.begin_sync plan.mode v) p refl

  -- A run that is not started during another ends with the flag cleared, and in one of three ways: the
  -- plan fails, or the start, and nothing is pulled; or every source is read, and stored unless that
  -- failed, whatever failed before; the counts are the sums of what was stored, the errors are those
  -- of the sources, and the run is finished as failed if there are any, else as succeeded.
  pub run-Ended :
      (s : Syncer W)
      → s.running ≡ false
      → Ended s.force_full s.world (run S s).0 (run S s).1.world × ((run S s).1.running ≡ false)
  unfolding run
  run-Ended s h = rw h (
    after_plan-Ended s.force_full s.world (plan_or_full S s.force_full s.world)
        (plan_or_full-IsPlan s.force_full s.world),
    refl,
  )
