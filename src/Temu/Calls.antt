-- ===== src/Temu/Calls.antt =====
-- Call of internal/temu/client.go: one request, and what its reply comes to. The clock, the timer,
-- HTTP and JSON are the record Web.
use pangu_sales_manager.Base.{
  ℤ, pos, ◌-ℤ◌, eq_ℤ, lt_ℤ, positive, Bool, true, not, ◌&&◌, ◌||◌, ◌==◌, Text, codes, text_eq,
  is_empty, [], ◌∷◌, Option, none, some, Result, ok, err, if◌then◌else◌,
}
use pangu_sales_manager.Temu.Errors.{ApiError, is_rate_limited}
use pangu_sales_manager.Temu.Slots.{Slots, reserve_slot}
use pangu_sales_manager.Temu.Payload.{Payload, Encoding, Client, build_payload}

pub record Envelope : Type 0 where
  pub success : Bool
  pub error_code : Text
  pub error_msg : Text
  pub result : Text

-- The state of the outside is `W`. `wait` is the timer, which the context may cut short; `send` gives
-- the status and at most 16 MiB of the body, or fails, in the call or in the reading.
pub record Web (W V : Type 0) : Type 0 where
  pub encoding : Encoding V
  pub unix_seconds : W → ℤ × W
  pub now : W → ℤ × W
  pub wait : ℤ → W → Option Text × W
  pub marshal_payload : Payload V → Result Text Text
  pub request_error : Text → Option Text
  pub send : Text → Text → W → Result Text (ℤ × Result Text Text) × W
  pub decode_envelope : Text → Result Text Envelope

-- One constructor for each way to fail; `api` is an *APIError, the others are not.
pub data CallError : Type 0 where
  reserved_parameter : Text → CallError
  unmarshalled : Text → CallError
  no_request : Text → CallError
  api : ApiError → CallError
  undecoded_result : Text → Text → CallError

unfoldable pub is_temporary : ℤ → Bool
is_temporary status = not (lt_ℤ status (pos 500)) || eq_ℤ status (pos 429)

unfoldable pub trim_quotes_left : Text → Text
trim_quotes_left [] = []
trim_quotes_left (c ∷ cs) = let rest = trim_quotes_left cs in if c == 34 then rest else c ∷ cs

unfoldable pub trim_quotes_right : Text → Text
trim_quotes_right [] = []
trim_quotes_right (c ∷ cs) =
    let rest = trim_quotes_right cs in if is_empty rest && c == 34 then [] else c ∷ rest

unfoldable pub raw_scalar : Text → Text
unfolding text_eq trim_quotes_left trim_quotes_right
raw_scalar raw =
    if is_empty raw || text_eq raw (codes "null")
    then []
    else trim_quotes_right (trim_quotes_left raw)

-- The text of an error becomes the message.
abbrev pub broken : Text → ℤ → Text → Bool → CallError
broken api_type status message temporary = api (record {
  api_type = api_type;
  status = status;
  code = [];
  message = message;
  temporary = temporary;
})

abbrev pub is_success : ℤ → Envelope → Bool
is_success status envelope =
    not (lt_ℤ status (pos 200)) && lt_ℤ status (pos 300) && envelope.success

-- A reply that the server marks as a failure, or whose status is one.
unfoldable pub failure_of : Text → ℤ → Envelope → ApiError
unfolding is_temporary raw_scalar is_rate_limited
failure_of api_type status envelope =
    let e : ApiError = record {
      api_type = api_type;
      status = status;
      code = raw_scalar envelope.error_code;
      message = envelope.error_msg;
      temporary = is_temporary status;
    } in
    record e { temporary = e.temporary || is_rate_limited e }

-- What the caller gets: the body, if it was read, and the error or the decoded result.
abbrev pub Reply : Type 0 → Type 0
Reply A = Option Text × Result CallError (Option A)

module _ {W V : Type 0} (S : Web W V) where
  -- The rest of the wait, once the slot is reserved.
  unfoldable pub wait_until : ℤ → W → Option Text × W
  unfolding ◌-ℤ◌
  wait_until scheduled w =
      let (later, w') = S.now w in
      if positive (scheduled -ℤ later) then S.wait (scheduled -ℤ later) w' else (none, w')

  unfoldable pub after_reserve : Option ℤ × Slots → W → Option Text × Slots × W
  unfolding wait_until
  after_reserve (none, slots) w = (none, slots, w)
  after_reserve (some scheduled, slots) w =
      let (stop, w') = wait_until scheduled w in (stop, slots, w')

  unfoldable pub wait_for_request_slot : Slots → W → Option Text × Slots × W
  unfolding reserve_slot after_reserve
  wait_for_request_slot slots w =
      let (now, w') = S.now w in
      if not (positive slots.request_interval)
      then (none, slots, w)
      else after_reserve (reserve_slot now slots) w'

module _ {W V A : Type 0} (S : Web W V) (client : Client) where
  module _ (decode : Option (Text → Result Text A)) (api_type : Text) where
    abbrev pub decoded : Result Text A → Result CallError (Option A)
    decoded (ok a) = ok (some a)
    decoded (err e) = err (undecoded_result api_type e)

    abbrev pub decode_with : Text → Option (Text → Result Text A) → Result CallError (Option A)
    decode_with result none = ok none
    decode_with result (some f) = decoded (f result)

    unfoldable pub read_result : Text → Result CallError (Option A)
    unfolding text_eq
    read_result result =
        if is_empty result || text_eq result (codes "null")
        then ok none
        else decode_with result decode

    unfoldable pub read_reply : ℤ → Result Text Envelope → Result CallError (Option A)
    unfolding is_temporary failure_of read_result
    read_reply status (err e) =
        err (broken api_type status (codes "invalid JSON response") (is_temporary status))
    read_reply status (ok envelope) =
        if not (is_success status envelope)
        then err (api (failure_of api_type status envelope))
        else read_result envelope.result

    unfoldable pub read_sent : Result Text (ℤ × Result Text Text) → Reply A
    unfolding read_reply
    read_sent (err e) = (none, err (broken api_type (pos 0) e true))
    read_sent (ok (status, err e)) = (none, err (broken api_type status e true))
    read_sent (ok (status, ok raw)) = (some raw, read_reply status (S.decode_envelope raw))

    -- The request with this body.
    unfoldable pub post : Text → Slots → W → Reply A × Slots × W
    unfolding read_sent
    post body slots w =
        let sent = S.send client.base_url body w in
        elim (S.request_error client.base_url) [
          | some e ↦ ((none, err (no_request e)), slots, w)
          | none ↦ (read_sent sent.0, slots, sent.1)
        ]

    unfoldable pub after_marshal : Result Text Text → Slots → W → Reply A × Slots × W
    unfolding post
    after_marshal (err e) slots w = ((none, err (unmarshalled e)), slots, w)
    after_marshal (ok body) slots w = post body slots w

    unfoldable pub after_slot : Payload V → Option Text × Slots × W → Reply A × Slots × W
    unfolding after_marshal
    after_slot payload (some e, slots, w) = ((none, err (broken api_type (pos 0) e true)), slots, w)
    after_slot payload (none, slots, w) = after_marshal (S.marshal_payload payload) slots w

  unfoldable pub after_payload :
      Option (Text → Result Text A)
      → Text
      → Slots
      → Result Text (Payload V) × W
      → Reply A × Slots × W
  unfolding wait_for_request_slot after_slot
  after_payload decode api_type slots (err key, w) =
      ((none, err (reserved_parameter key)), slots, w)
  after_payload decode api_type slots (ok payload, w) =
      after_slot decode api_type payload (wait_for_request_slot S slots w)

  unfoldable pub call :
      Option (Text → Result Text A) → Text → Payload V → Slots → W → Reply A × Slots × W
  unfolding after_payload build_payload
  call decode api_type parameters slots w =
      let (seconds, w') = S.unix_seconds w in
      after_payload decode api_type slots
        (build_payload S.encoding client seconds api_type parameters, w')
