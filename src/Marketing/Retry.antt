-- ===== src/Marketing/Retry.antt =====
-- `retry` of internal/marketing/syncer.go. A value of W is the state of everything outside: the
-- server, the clock and the context.
use pangu_sales_manager.Base.{
  ℕ, zero, suc, ◌+◌, ◌^◌, ◌<◌, Bool, true, false, not, ◌||◌, ◌==◌, Option, none, some, ◌≡◌, refl,
  if◌then◌else◌, if_rule, arith, Bool-cases, inl, inr, subst,
}
use pangu_sales_manager.Temu.Errors.{ApiError, RequestError, is_rate_limited}

-- What a call with an error result returns.
pub data Fallible (A : Type 0) : Type 0 where
  ok : A → Fallible A
  failed : RequestError → Fallible A

retryable_of : Option ApiError → Bool
unfolding is_rate_limited
retryable_of none = false
retryable_of (some a) = a.temporary || is_rate_limited a

unfoldable pub retryable : RequestError → Bool
unfolding retryable_of
retryable e = retryable_of e.api_error

abbrev pub max_retry_attempts : ℕ
max_retry_attempts = 3

exhausted : RequestError
exhausted = record { text = "marketing retry attempts exhausted"; api_error = none }

-- `wait` takes the delay in seconds and may fail when the context is cancelled.
module _ {W A : Type 0} (wait : ℕ → W → Option RequestError × W)
    (request : W → Fallible A × W) where
  -- The end of a round: `next` is the next one.
  after_wait : (W → Fallible A × W) → Option RequestError × W → Fallible A × W
  after_wait next (some stop, u) = (failed stop, u)
  after_wait next (none, u) = next u

  after_request : ℕ → (W → Fallible A × W) → Fallible A × W → Fallible A × W
  unfolding after_wait
  after_request attempt next (ok a, v) = (ok a, v)
  after_request attempt next (failed e, v) =
      if not (retryable e) || (attempt == 2)
      then (failed e, v)
      else after_wait next (wait (2 ^ attempt) v)

  -- The loop with `left` rounds to go.
  retry_loop : ℕ → ℕ → W → Fallible A × W
  unfolding exhausted after_request
  retry_loop zero attempt w = (failed exhausted, w)
  retry_loop (suc left) attempt w =
      after_request attempt (λ u. retry_loop left (attempt + 1) u) (request w)

  unfoldable pub retry : W → Fallible A × W
  unfolding retry_loop
  retry w = retry_loop max_retry_attempts 0 w

  -- A run of the loop from its round `attempt` on, as the sequence of its requests and waits.
  pub data Attempts : ℕ → W → Fallible A → W → Type 0 where
    succeeded :
        {attempt : ℕ} {w v : W} (a : A) → request w ≡ (ok a, v) → Attempts attempt w (ok a) v
    permanent :
        {attempt : ℕ} {w v : W} (e : RequestError)
        → request w ≡ (failed e, v)
        → retryable e ≡ false
        → Attempts attempt w (failed e) v
    given_up :
        {w v : W} (e : RequestError)
        → request w ≡ (failed e, v)
        → retryable e ≡ true
        → Attempts 2 w (failed e) v
    cancelled :
        {attempt : ℕ} {w v u : W} (e stop : RequestError)
        → attempt < 2
        → request w ≡ (failed e, v)
        → retryable e ≡ true
        → wait (2 ^ attempt) v ≡ (some stop, u)
        → Attempts attempt w (failed stop) u
    again :
        {attempt : ℕ} {w v u t : W} {r : Fallible A} (e : RequestError)
        → attempt < 2
        → request w ≡ (failed e, v)
        → retryable e ≡ true
        → wait (2 ^ attempt) v ≡ (none, u)
        → Attempts (attempt + 1) u r t
        → Attempts attempt w r t

  -- What the loop does from this round on is a run.
  abbrev Goal : ℕ → W → Fallible A × W → Type 0
  Goal attempt w r = Attempts attempt w r.0 r.1

  module _ (attempt : ℕ) (next : W → Fallible A × W) (w : W) where
    waited :
        (v : W) (e : RequestError) (o : Option RequestError × W)
        → request w ≡ (failed e, v)
        → retryable e ≡ true
        → attempt < 2
        → wait (2 ^ attempt) v ≡ o
        → ((u : W) → Goal (attempt + 1) u (next u))
        → Goal attempt w (after_wait next o)
    unfolding after_wait
    waited v e (some stop, u) h q b k n = cancelled e stop b h q k
    waited v e (none, u) h q b k n = again e b h q k (n u)

    stopped :
        (v : W) (e : RequestError)
        → request w ≡ (failed e, v)
        → attempt < 3
        → not (retryable e) || (attempt == 2) ≡ true
        → Goal attempt w (failed e, v)
    stopped v e h b q = elim (Bool-cases (retryable e)) [
      | inl y ↦
          let two : 2 ≡ attempt = ground arith in
          subst (λ n. Goal n w (failed e, v)) two (given_up e h y)
      | inr n ↦ permanent e h n
    ]

    requested :
        (o : Fallible A × W)
        → request w ≡ o
        → attempt < 3
        → (attempt < 2 → (u : W) → Goal (attempt + 1) u (next u))
        → Goal attempt w (after_request attempt next o)
    unfolding after_request
    requested (ok a, v) h b n = succeeded a h
    requested (failed e, v) h b n =
        if_rule (Goal attempt w) (not (retryable e) || (attempt == 2)) (λ q. stopped v e h b q)
          (λ q. let c : attempt < 2 = ground arith in waited v e _ h (ground arith) c refl (n c))

  retry_loop_lem :
      (left attempt : ℕ) (w : W)
      → left + attempt ≡ 3
      → attempt < 3
      → Goal attempt w (retry_loop left attempt w)
  unfolding retry_loop
  retry_loop_lem zero attempt w b c = absurd (ground arith)
  retry_loop_lem (suc left) attempt w b c =
      requested attempt _ w (request w) refl c
        (λ d u. retry_loop_lem left (attempt + 1) u (omega arith) (omega arith))

  -- `retry` is a run of at most three requests, with a wait of 1 and then of 2 seconds between
  -- them. It returns the first result, or the first error that is not retryable, or the third
  -- error, or the error of a wait; the error after the loop is never returned.
  pub retry-Attempts : (w : W) → Attempts 0 w (retry w).0 (retry w).1
  unfolding retry
  retry-Attempts w = retry_loop_lem 3 0 w (omega arith) (omega arith)

  -- A result of a run is the result of one of its requests.
  pub Attempts-requested :
      {attempt : ℕ} {w v : W} {a : A}
      → Attempts attempt w (ok a) v
      → (u : W) × (request u ≡ (ok a, v))
  Attempts-requested {w} (succeeded a h) = (w, h)
  Attempts-requested (again e b h q k rest) = Attempts-requested rest
