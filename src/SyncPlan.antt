-- ===== src/SyncPlan.antt =====
-- store.go: whether the next pull of the orders is full, incremental or put off.
use pangu_sales_manager.Base.{
  ℤ, pos, eq_ℤ, lt_ℤ, is_zero, str_eq, ◌+ℤ◌, ◌-ℤ◌, ◌*◌, String, true, false, not, List, [], ◌∷◌,
  Option, none, some, if◌then◌else◌, if_rule, ◌≡◌, refl, ap, arith, subst, sym, ◌∙◌,
}
use pangu_sales_manager.Marketing.State.{Time}

-- Durations are nanoseconds.
abbrev pub full_sync_interval : ℤ
full_sync_interval = pos 86400000000000

abbrev pub empty_store_full_retry_delay : ℤ
empty_store_full_retry_delay = pos 1800000000000

abbrev pub five_minutes : ℤ
five_minutes = pos 300000000000

-- The mode, and how long to wait if it is the empty text.
unfoldable pub decide_by : ℤ → ℤ → String × ℤ
decide_by order_count elapsed =
    if is_zero order_count
    then if not (lt_ℤ elapsed empty_store_full_retry_delay)
      then ("full", pos 0)
      else ("", empty_store_full_retry_delay -ℤ elapsed)
    else if not (lt_ℤ elapsed full_sync_interval)
    then ("full", pos 0)
    else ("incremental", pos 0)

-- `elapsed`, which is not negative. `time.Time.Sub` stops at the largest duration, which is above
-- both limits.
abbrev pub elapsed_since : Time → Time → ℤ
elapsed_since last now = if lt_ℤ (now -ℤ last) (pos 0) then pos 0 else now -ℤ last

unfoldable pub decide_sync_mode : ℤ → Option Time → Time → String × ℤ
unfolding decide_by
decide_sync_mode order_count none now = ("full", pos 0)
decide_sync_mode order_count (some last) now = decide_by order_count (elapsed_since last now)

-- Half an hour and a day, in nanoseconds, which the statements below are told in.
abbrev pub half_an_hour : ℤ
half_an_hour = pos (30 * 60 * 1000000000)

abbrev pub one_day : ℤ
one_day = pos (24 * 60 * 60 * 1000000000)

rest_positive : (e limit : ℤ) → lt_ℤ e limit ≡ true → lt_ℤ (pos 0) (limit -ℤ e) ≡ true
unfolding lt_ℤ ◌-ℤ◌
rest_positive e limit h = ground arith

rest_bounded : (e limit : ℤ) → lt_ℤ e (pos 0) ≡ false → lt_ℤ limit (limit -ℤ e) ≡ false
unfolding lt_ℤ ◌-ℤ◌
rest_bounded e limit h = ground arith

rest_sum : (e limit : ℤ) → e +ℤ (limit -ℤ e) ≡ limit
unfolding ◌+ℤ◌ ◌-ℤ◌
rest_sum e limit = ground arith

not_negative : (last now : ℤ) → lt_ℤ now last ≡ false → lt_ℤ (now -ℤ last) (pos 0) ≡ false
unfolding lt_ℤ ◌-ℤ◌
not_negative last now h = ground arith

elapsed_now : (last now : ℤ) → lt_ℤ now last ≡ false → elapsed_since last now ≡ now -ℤ last
elapsed_now last now h = rw (not_negative last now h) refl

ends_then : (last now d limit : ℤ) → (now -ℤ last) +ℤ d ≡ limit → now +ℤ d ≡ last +ℤ limit
unfolding ◌-ℤ◌ ◌+ℤ◌
ends_then last now d limit e = ground arith

early : (last now : ℤ) → lt_ℤ now last ≡ true → elapsed_since last now ≡ pos 0
unfolding lt_ℤ ◌-ℤ◌
early last now h = ground arith

zero_add : (d : ℤ) → pos 0 +ℤ d ≡ d
unfolding ◌+ℤ◌
zero_add d = ground arith

module _ (order_count : ℤ) (last : Time) where
  -- The branches, by the time since the last full pull.
  data Branch (now : Time) : String × ℤ → Type 0 where
    due :
        lt_ℤ
            (elapsed_since last now)
            (if is_zero order_count then empty_store_full_retry_delay else full_sync_interval)
          ≡ false
        → Branch now ("full", pos 0)
    fresh :
        is_zero order_count ≡ false
        → lt_ℤ (elapsed_since last now) full_sync_interval ≡ true
        → Branch now ("incremental", pos 0)
    put_off :
        (d : ℤ)
        → is_zero order_count ≡ true
        → lt_ℤ (pos 0) d ≡ true
        → lt_ℤ empty_store_full_retry_delay d ≡ false
        → elapsed_since last now +ℤ d ≡ empty_store_full_retry_delay
        → Branch now ("", d)

  elapsed_positive : (now : Time) → lt_ℤ (elapsed_since last now) (pos 0) ≡ false
  unfolding lt_ℤ
  elapsed_positive now = ground arith

  decide_by-Branch : (now : Time) → Branch now (decide_by order_count (elapsed_since last now))
  unfolding decide_by
  decide_by-Branch now =
      if_rule (Branch now) (is_zero order_count)
        (λ z.
          if_rule (Branch now) (not (lt_ℤ (elapsed_since last now) empty_store_full_retry_delay))
            (λ y. due (rw (z) (ground (arith, y))))
            (λ n.
              put_off (empty_store_full_retry_delay -ℤ elapsed_since last now) z
                (rest_positive (elapsed_since last now) empty_store_full_retry_delay
                  (ground (arith, n)))
                (rest_bounded (elapsed_since last now) empty_store_full_retry_delay
                  (elapsed_positive now))
                (rest_sum (elapsed_since last now) empty_store_full_retry_delay)))
        (λ z.
          if_rule (Branch now) (not (lt_ℤ (elapsed_since last now) full_sync_interval))
            (λ y. due (rw (z) (ground (arith, y)))) (λ n. fresh z (ground (arith, n))))

  -- The stage is told from the two times and a day or 30 minutes: the limit is reached, it is not and
  -- there are orders, or it is not and there are none. A last pull in the future counts as one of now.
  pub data Stage (now : Time) : String × ℤ → Type 0 where
    due :
        (is_zero order_count ≡ true → lt_ℤ now (last +ℤ half_an_hour) ≡ false)
        → (is_zero order_count ≡ false → lt_ℤ now (last +ℤ one_day) ≡ false)
        → Stage now ("full", pos 0)
    fresh :
        is_zero order_count ≡ false
        → lt_ℤ now (last +ℤ one_day) ≡ true
        → Stage now ("incremental", pos 0)
    put_off :
        (d : ℤ)
        → is_zero order_count ≡ true
        → lt_ℤ (pos 0) d ≡ true
        → (lt_ℤ now last ≡ false → now +ℤ d ≡ last +ℤ half_an_hour)
        → (lt_ℤ now last ≡ true → d ≡ half_an_hour)
        → Stage now ("", d)

  reached :
      (now limit : ℤ)
      → lt_ℤ (pos 0) limit ≡ true
      → lt_ℤ (elapsed_since last now) limit ≡ false
      → lt_ℤ now (last +ℤ limit) ≡ false
  unfolding lt_ℤ ◌-ℤ◌ ◌+ℤ◌
  reached now limit p h = ground arith

  not_reached :
      (now limit : ℤ)
      → lt_ℤ (pos 0) limit ≡ true
      → lt_ℤ (elapsed_since last now) limit ≡ true
      → lt_ℤ now (last +ℤ limit) ≡ true
  unfolding lt_ℤ ◌-ℤ◌ ◌+ℤ◌
  not_reached now limit p h = ground arith

  Branch-Stage : (now : Time) (r : String × ℤ) → Branch now r → Stage now r
  unfolding lt_ℤ
  Branch-Stage now r (due h) =
      due (λ z. reached now half_an_hour refl (ground (arith, z, h)))
        (λ z. reached now one_day refl (ground (arith, z, h)))
  Branch-Stage now r (fresh z h) = fresh z (not_reached now one_day refl h)
  Branch-Stage now r (put_off d z p b e) =
      put_off d z p
        (λ k.
          ends_then last now d half_an_hour (ap (λ x. x +ℤ d) (sym (elapsed_now last now k)) ∙ e))
        (λ k. sym (zero_add d) ∙ ap (λ x. x +ℤ d) (sym (early last now k)) ∙ e)

  -- The decision follows the stage. Without orders a pull is full from 30 minutes after the last full
  -- pull on, and before that put off, by a positive time that ends exactly then, or 30 minutes from
  -- now if the last full pull lies in the future. With orders a pull is full from a day after the last
  -- full pull on, and before that incremental.
  pub decide_sync_mode-Stage :
      (now : Time) → Stage now (decide_sync_mode order_count (some last) now)
  unfolding decide_sync_mode
  decide_sync_mode-Stage now = Branch-Stage now _ (decide_by-Branch now)

-- `GROUP BY platform, shop_key`, with the latest update if there is one.
pub record Watermark : Type 0 where
  pub platform : String
  pub shop_key : String
  pub updated_at : Option Time

-- The key of `Since` is the platform and the shop, which the program joins with a NUL.
pub record SyncPlan : Type 0 where
  pub mode : String
  pub since : List ((String × String) × Time)

pub data Planned : Type 0 where
  planned : SyncPlan → Planned
  deferred : ℤ → Planned

since_of : List Watermark → List ((String × String) × Time)
since_of [] = []
since_of (w ∷ ws) =
    let rest = since_of ws in
    elim w.updated_at [
      | none ↦ rest
      | some t ↦ ((w.platform, w.shop_key), t -ℤ five_minutes) ∷ rest
    ]

plan_by : List Watermark → String × ℤ → Planned
unfolding since_of
plan_by watermarks (mode, wait) =
    if lt_ℤ (pos 0) wait
    then deferred wait
    else if str_eq mode "full"
    then planned (record { mode = mode; since = [] })
    else planned (record { mode = mode; since = since_of watermarks })

-- Without errors of the database.
unfoldable pub plan_sync : ℤ → Option Time → Time → List Watermark → Planned
unfolding plan_by decide_sync_mode
plan_sync order_count last now watermarks =
    plan_by watermarks (decide_sync_mode order_count last now)

shift : (now d last : ℤ) → (now +ℤ d) -ℤ last ≡ (now -ℤ last) +ℤ d
unfolding ◌-ℤ◌ ◌+ℤ◌
shift now d last = ground arith

waited :
    (last now d : ℤ)
    → lt_ℤ now last ≡ false
    → elapsed_since last now +ℤ d ≡ empty_store_full_retry_delay
    → lt_ℤ (elapsed_since last (now +ℤ d)) empty_store_full_retry_delay ≡ false
unfolding lt_ℤ
waited last now d h e =
    let whole : (now +ℤ d) -ℤ last ≡ empty_store_full_retry_delay =
      shift now d last ∙ ap (λ x. x +ℤ d) (sym (elapsed_now last now h)) ∙ e in
    subst (λ x. lt_ℤ (if lt_ℤ x (pos 0) then pos 0 else x) empty_store_full_retry_delay ≡ false)
      (sym whole) refl

deferred_inj : (c d : ℤ) → deferred c ≡ deferred d → c ≡ d
deferred_inj c d h = ap (λ x. elim x [ planned p ↦ c | deferred e ↦ e ]) h

wait_first : (c : ℤ) (ws : List Watermark) → lt_ℤ (pos 0) c ≡ true → plan_by ws ("", c) ≡ deferred c
unfolding plan_by
wait_first c ws h = rw (h) refl

deferred-Branch :
    (last now d : ℤ) (ws : List Watermark) (r : String × ℤ)
    → Branch (pos 0) last now r
    → plan_by ws r ≡ deferred d
    → elapsed_since last now +ℤ d ≡ empty_store_full_retry_delay
unfolding plan_by lt_ℤ eq_ℤ
deferred-Branch last now d ws r (due h) e = absurd (ground arith)
deferred-Branch last now d ws r (fresh z h) e = absurd (ground arith)
deferred-Branch last now d ws r (put_off c z p b h) e =
    let same : c ≡ d = deferred_inj c d (sym (wait_first c ws p) ∙ e) in
    subst (λ x. elapsed_since last now +ℤ x ≡ empty_store_full_retry_delay) same h

full_plan :
    (ws : List Watermark) (elapsed : ℤ)
    → lt_ℤ elapsed empty_store_full_retry_delay ≡ false
    → plan_by ws (decide_by (pos 0) elapsed) ≡ planned (record { mode = "full"; since = [] })
unfolding plan_by decide_by eq_ℤ lt_ℤ
full_plan ws elapsed h =
    let q : decide_by (pos 0) elapsed ≡ ("full", pos 0) = rw (h) refl in ap (plan_by ws) q

-- A pull of the orders that is put off, at a time not before the last full pull, is full once the
-- time it is put off by is over, if there still are no orders.
pub plan_sync-deferred :
    (last now d : ℤ) (before after : List Watermark)
    → lt_ℤ now last ≡ false
    → plan_sync (pos 0) (some last) now before ≡ deferred d
    → plan_sync (pos 0) (some last) (now +ℤ d) after
      ≡ planned (record { mode = "full"; since = [] })
unfolding plan_sync decide_sync_mode
plan_sync-deferred last now d before after h e = full_plan after (elapsed_since last (now +ℤ d)) (
    waited last now d h (deferred-Branch last now d before _ (decide_by-Branch (pos 0) last now) e))
