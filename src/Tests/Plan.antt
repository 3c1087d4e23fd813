-- ===== src/Tests/Plan.antt =====
-- Runs of the plan of the next pull of orders.
use pangu_sales_manager.Base.{ℤ, pos, ◌+ℤ◌, [], some, ◌≡◌, refl}
use pangu_sales_manager.SyncPlan.{
  Stage, decide_sync_mode, decide_sync_mode-Stage, planned, plan_sync, plan_sync-deferred,
}

decide_sync_mode-Stage_example :
    Stage (pos 12) (pos 100) (pos 200) (decide_sync_mode (pos 12) (some (pos 100)) (pos 200))
decide_sync_mode-Stage_example = decide_sync_mode-Stage (pos 12) (pos 100) (pos 200)

-- Ten minutes after a full pull that found no orders, the next one waits for twenty.
plan_sync-deferred_example :
    plan_sync (pos 0) (some (pos 0)) (pos 600000000000 +ℤ pos 1200000000000) []
    ≡ planned (record { mode = "full"; since = [] })
unfolding pangu_sales_manager.Base.lt_ℤ plan_sync pangu_sales_manager.Base.eq_ℤ
    pangu_sales_manager.Base.◌-ℤ◌
plan_sync-deferred_example =
    plan_sync-deferred (pos 0) (pos 600000000000) (pos 1200000000000) [] [] refl refl
