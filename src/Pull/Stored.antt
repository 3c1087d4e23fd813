-- ===== src/Pull/Stored.antt =====
-- What a run of the pull stores of what it has read.
use pangu_sales_manager.Base.{ℕ, Text, Option, none, some, Result, ok, err, ◌≡◌, refl}
use pangu_sales_manager.Pull.Run.{Stock, Orders, Upserted, Sources, store_inventory, store_orders}

module _ {W Float : Type 0} (S : Sources W Float) where
  -- What a source gave is stored; if it failed, nothing is, and its error stands for the storing.
  pub data IsStored : Result Text (Orders Float) × W → Upserted → W → Type 0 where
    stored_batch :
        {batch : Orders Float} {v v' : W} {u : Upserted}
        → S.upsert_source_batch batch v ≡ (u, v')
        → IsStored (ok batch, v) u v'
    not_read :
        {e : Text} {v : W}
        → IsStored (err e, v) (record { orders = 0; lines = 0; failure = some e }) v

  -- The same for the inventory.
  pub data IsKept (stock : Stock Float) (w : W) : (ℕ × Option Text) × W → Type 0 where
    replaced :
        stock.failure ≡ none
        → IsKept stock w (S.replace_inventory stock.warehouses stock.inventory w)
    untouched : {e : Text} → stock.failure ≡ some e → IsKept stock w ((0, some e), w)

  pub store_orders-IsStored :
      (r : Result Text (Orders Float) × W) → IsStored r (store_orders S r).0 (store_orders S r).1
  store_orders-IsStored (ok batch, w) = stored_batch refl
  store_orders-IsStored (err e, w) = not_read

  IsKept-by :
      (stock : Stock Float) (w : W) (failure : Option Text)
      → stock.failure ≡ failure
      → IsKept stock w (elim failure [
        | none ↦ S.replace_inventory stock.warehouses stock.inventory w
        | some e ↦ ((0, some e), w)
      ])
  IsKept-by stock w none p = replaced p
  IsKept-by stock w (some e) p = untouched p

  pub store_inventory-IsKept :
      (stock : Stock Float) (w : W) → IsKept stock w (store_inventory S stock w)
  store_inventory-IsKept stock w = IsKept-by stock w stock.failure refl
