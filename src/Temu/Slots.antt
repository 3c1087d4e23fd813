-- ===== src/Temu/Slots.antt =====
-- The request slots of the client in internal/temu/client.go. Times and durations are nanoseconds.
use pangu_sales_manager.Base.{
  ℤ, pos, ◌+ℤ◌, lt_ℤ, positive, true, false, not, ◌||◌, List, [], ◌∷◌, Option, none, some,
  if◌then◌else◌, All, ◌≡◌, refl, arith,
}

-- The fields that the slots use.
pub record Slots : Type 0 where
  pub request_interval : ℤ
  pub next_request_at : ℤ

abbrev ten_seconds : ℤ
ten_seconds = pos 10000000000

-- `none` is the error for an interval out of range. The zero time is 0.
unfoldable pub set_request_interval : ℤ → Slots → Option Slots
set_request_interval interval slots =
    if lt_ℤ interval (pos 0) || lt_ℤ ten_seconds interval
    then none
    else some (record { request_interval = interval; next_request_at = pos 0 })

-- `waitForRequestSlot` up to the wait: the time from which the request may go, or `none` if no
-- interval is set.
unfoldable pub reserve_slot : ℤ → Slots → Option ℤ × Slots
reserve_slot now slots =
    if not (positive slots.request_interval)
    then (none, slots)
    else let scheduled = if lt_ℤ now slots.next_request_at then slots.next_request_at else now in
      (some scheduled, record slots { next_request_at = scheduled +ℤ slots.request_interval })

-- The slots of requests that come at these times, in the order in which they take the lock.
unfoldable pub reserve_all : List ℤ → Slots → List (Option ℤ)
unfolding reserve_slot
reserve_all [] slots = []
reserve_all (now ∷ later) slots =
    let (slot, next) = reserve_slot now slots in slot ∷ reserve_all later next

-- A slot that is not before the time.
abbrev pub IsFrom : ℤ → Option ℤ → Type 0
IsFrom t none = ⊥
IsFrom t (some s) = lt_ℤ s t ≡ false

-- Each slot is at least the interval after all before it, and not before its request.
abbrev pub IsSpaced : ℤ → List ℤ → List (Option ℤ) → Type 0
IsSpaced interval [] [] = Unit
IsSpaced interval (now ∷ later) (some s ∷ slots) =
    (lt_ℤ s now ≡ false) × All (IsFrom (s +ℤ interval)) slots × IsSpaced interval later slots
IsSpaced interval _ _ = ⊥

later : (s i : ℤ) → positive i ≡ true → lt_ℤ (s +ℤ i) s ≡ false
unfolding lt_ℤ ◌+ℤ◌ positive
later s i h = ground arith

not_before : (a b c : ℤ) → lt_ℤ b a ≡ false → lt_ℤ c b ≡ false → lt_ℤ c a ≡ false
unfolding lt_ℤ
not_before a b c p q = ground arith

-- The time that is scheduled.
abbrev scheduled_at : ℤ → Slots → ℤ
scheduled_at now slots = if lt_ℤ now slots.next_request_at then slots.next_request_at else now

scheduled_from :
    (now : ℤ) (slots : Slots)
    → (lt_ℤ (scheduled_at now slots) now ≡ false)
      × (lt_ℤ (scheduled_at now slots) slots.next_request_at ≡ false)
unfolding lt_ℤ
scheduled_from now slots = (ground arith, ground arith)

reserved :
    (now : ℤ) (slots : Slots)
    → positive slots.request_interval ≡ true
    → reserve_slot now slots ≡ (
      some (scheduled_at now slots),
      record slots { next_request_at = scheduled_at now slots +ℤ slots.request_interval },
    )
unfolding reserve_slot
reserved now slots h = rw (h) refl

All-IsFrom :
    (a b : ℤ) (slots : List (Option ℤ))
    → lt_ℤ b a ≡ false
    → All (IsFrom b) slots
    → All (IsFrom a) slots
All-IsFrom a b [] h k = tt
All-IsFrom a b (none ∷ os) h (p, k) = absurd p
All-IsFrom a b (some s ∷ os) h (p, k) = (not_before a b s h p, All-IsFrom a b os h k)

reserve_all-IsFrom :
    (times : List ℤ) (slots : Slots)
    → positive slots.request_interval ≡ true
    → All (IsFrom slots.next_request_at) (reserve_all times slots)
unfolding reserve_all
reserve_all-IsFrom [] slots h = tt
reserve_all-IsFrom (now ∷ times) slots h =
    let s = scheduled_at now slots in
    let next : Slots = record slots { next_request_at = s +ℤ slots.request_interval } in
    rw (reserved now slots h) (
      (scheduled_from now slots).1,
      All-IsFrom slots.next_request_at (s +ℤ slots.request_interval) (reserve_all times next)
          (not_before slots.next_request_at s (s +ℤ slots.request_interval)
            (scheduled_from now slots).1 (later s slots.request_interval h))
          (reserve_all-IsFrom times next h),
    )

-- Where an interval is set, each request gets a slot not before it asks, and at least the interval
-- after the slot of every request before it, whatever the clock shows.
pub reserve_all-IsSpaced :
    (times : List ℤ) (slots : Slots)
    → positive slots.request_interval ≡ true
    → IsSpaced slots.request_interval times (reserve_all times slots)
unfolding reserve_all
reserve_all-IsSpaced [] slots h = tt
reserve_all-IsSpaced (now ∷ times) slots h =
    let s = scheduled_at now slots in
    let next : Slots = record slots { next_request_at = s +ℤ slots.request_interval } in
    rw (reserved now slots h) (
      (scheduled_from now slots).0,
      reserve_all-IsFrom times next h,
      reserve_all-IsSpaced times next h,
    )
