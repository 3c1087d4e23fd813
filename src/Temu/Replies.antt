-- ===== src/Temu/Replies.antt =====
-- What the errors and the results of Call say.
use pangu_sales_manager.Base.{
  ap, lt_ℤ, false, ℤ, pos, true, ◌||◌, Text, codes, text_eq, is_empty, [], Option, none, some,
  Option-cases, Result, ok, err, if_rule, Bool-cases, ◌≡◌, ◌≢◌, refl, inl, inr, arith,
}
use pangu_sales_manager.Temu.Errors.{ApiError, is_rate_limited}
use pangu_sales_manager.Temu.Slots.{Slots}
use pangu_sales_manager.Temu.Payload.{Payload, Client, build_payload}
use pangu_sales_manager.Temu.Calls.{
  Web, Envelope, CallError, decoded, api, is_temporary, broken, failure_of, Reply,
  wait_for_request_slot, decode_with, read_result, is_success, read_reply, read_sent, post,
  after_marshal, after_slot, after_payload, call,
}

module _ {W V : Type 0} (S : Web W V) where
  -- Some request came back with this status and this body.
  pub record IsSent (client : Client) (status : ℤ) (raw : Text) : Type 0 where
    pub body : Text
    pub before : W
    pub after : W
    pub sent_eq : S.send client.base_url body before ≡ (ok (status, ok raw), after)

  -- The body came with a status from 200 to 299, and is a reply that is marked as a success.
  pub record IsAnswered (client : Client) (raw : Text) : Type 0 where
    pub status : ℤ
    pub envelope : Envelope
    pub sent : IsSent client status raw
    pub decoded_eq : S.decode_envelope raw ≡ ok envelope
    pub from_200 : lt_ℤ status (pos 200) ≡ false
    pub below_300 : lt_ℤ status (pos 300) ≡ true
    pub marked : envelope.success ≡ true

module _ {W V A : Type 0} (S : Web W V) (client : Client) where
  -- An *APIError names the operation, and if it is a rate limit it is temporary, so that it is tried
  -- again; a result comes with the body of a reply that is a success.
  pub data IsReported (api_type : Text) : Reply A → Type 0 where
    api_failed :
        {raw : Option Text} {e : ApiError}
        → e.api_type ≡ api_type
        → (is_rate_limited e ≡ true → e.temporary ≡ true)
        → IsReported api_type (raw, err (api e))
    failed :
        {raw : Option Text} {e : CallError}
        → ((a : ApiError) → e ≢ api a)
        → IsReported api_type (raw, err e)
    answered :
        {raw : Text} {a : Option A} → IsAnswered S client raw → IsReported api_type (some raw, ok a)

  module _ (decode : Option (Text → Result Text A)) (api_type : Text) where
    broken-IsReported :
        (raw : Option Text) (status : ℤ) (message : Text)
        → IsReported api_type (raw, err (broken api_type status message true))
    broken-IsReported raw status message = api_failed refl (λ h. refl)

    -- The message of the program's own is no rate limit.
    undecoded_temporary :
        (status : ℤ)
        → let e : ApiError = record {
          api_type = api_type;
          status = status;
          code = [];
          message = codes "invalid JSON response";
          temporary = is_temporary status;
        } in
          is_rate_limited e ≡ true → is_temporary status ≡ true
    unfolding is_rate_limited is_temporary
    undecoded_temporary status h = ground arith

    failure_temporary :
        (status : ℤ) (envelope : Envelope)
        → is_rate_limited (failure_of api_type status envelope) ≡ true
        → (failure_of api_type status envelope).temporary ≡ true
    unfolding is_rate_limited failure_of
    failure_temporary status envelope h = ground arith

    decoded-IsReported :
        (raw : Text) (r : Result Text A)
        → IsAnswered S client raw
        → IsReported api_type (some raw, decoded S client decode api_type r)
    decoded-IsReported raw (ok a) w = answered w
    decoded-IsReported raw (err e) w = failed (λ a h. cc)

    decode_with-IsReported :
        (raw result : Text)
        → IsAnswered S client raw
        → (f : Option (Text → Result Text A))
        → IsReported api_type (some raw, decode_with S client decode api_type result f)
    decode_with-IsReported raw result w none = answered w
    decode_with-IsReported raw result w (some f) = decoded-IsReported raw (f result) w

    read_result-IsReported :
        (raw result : Text)
        → IsAnswered S client raw
        → IsReported api_type (some raw, read_result S client decode api_type result)
    unfolding read_result
    read_result-IsReported raw result w =
        if_rule (λ r. IsReported api_type (some raw, r))
          (is_empty result || text_eq result (codes "null")) (λ _. answered w)
          (λ _. decode_with-IsReported raw result w decode)

    read_reply-IsReported :
        (raw : Text) (status : ℤ) (r : Result Text Envelope)
        → IsSent S client status raw
        → S.decode_envelope raw ≡ r
        → IsReported api_type (some raw, read_reply S client decode api_type status r)
    unfolding read_reply failure_of
    read_reply-IsReported raw status (err e) c p = api_failed refl (undecoded_temporary status)
    read_reply-IsReported raw status (ok envelope) c p =
        elim (Bool-cases (is_success status envelope)) [
          | inl y ↦ rw y (
              read_result-IsReported raw envelope.result (record {
                status = status;
                envelope = envelope;
                sent = c;
                decoded_eq = p;
                from_200 = ground (arith, y);
                below_300 = ground (arith, y);
                marked = ground (arith, y);
              }))
          | inr n ↦ rw n (api_failed refl (failure_temporary status envelope))
        ]

    read_sent-IsReported :
        (body : Text) (w : W) (r : Result Text (ℤ × Result Text Text))
        → (S.send client.base_url body w).0 ≡ r
        → IsReported api_type (read_sent S client decode api_type r)
    unfolding read_sent
    read_sent-IsReported body w (err e) p = broken-IsReported none (pos 0) e
    read_sent-IsReported body w (ok (status, err e)) p = broken-IsReported none status e
    read_sent-IsReported body w (ok (status, ok raw)) p =
        read_reply-IsReported raw status (S.decode_envelope raw)
          (record {
            body = body;
            before = w;
            after = (S.send client.base_url body w).1;
            sent_eq = ap (λ x. (x, (S.send client.base_url body w).1)) p;
          })
          refl

    post-IsReported :
        (body : Text) (slots : Slots) (w : W)
        → IsReported api_type (post S client decode api_type body slots w).0
    unfolding post
    post-IsReported body slots w = elim (Option-cases (S.request_error client.base_url)) [
      | inl n ↦ rw (n, post) (read_sent-IsReported body w (S.send client.base_url body w).0 refl)
      | inr (e, p) ↦ rw (p, post) (failed (λ a h. cc))
    ]

    after_marshal-IsReported :
        (r : Result Text Text) (slots : Slots) (w : W)
        → IsReported api_type (after_marshal S client decode api_type r slots w).0
    unfolding after_marshal
    after_marshal-IsReported (err e) slots w = failed (λ a h. cc)
    after_marshal-IsReported (ok body) slots w = post-IsReported body slots w

    after_slot-IsReported :
        (payload : Payload V) (r : Option Text × Slots × W)
        → IsReported api_type (after_slot S client decode api_type payload r).0
    unfolding after_slot
    after_slot-IsReported payload (some e, slots, w) = broken-IsReported none (pos 0) e
    after_slot-IsReported payload (none, slots, w) =
        after_marshal-IsReported (S.marshal_payload payload) slots w

    after_payload-IsReported :
        (slots : Slots) (r : Result Text (Payload V) × W)
        → IsReported api_type (after_payload S client decode api_type slots r).0
    unfolding after_payload
    after_payload-IsReported slots (err key, w) = failed (λ a h. cc)
    after_payload-IsReported slots (ok payload, w) =
        after_slot-IsReported payload (wait_for_request_slot S slots w)

  -- However Call ends: an *APIError names the operation, and if it is a rate limit it is temporary;
  -- and a call that does not fail returns the body that a request came back with, under a status from
  -- 200 to 299, in a reply that the server marked as a success.
  pub call-IsReported :
      (decode : Option (Text → Result Text A)) (api_type : Text) (parameters : Payload V)
      (slots : Slots) (w : W)
      → IsReported api_type (call S client decode api_type parameters slots w).0
  unfolding call
  call-IsReported decode api_type parameters slots w =
      after_payload-IsReported decode api_type slots (
        build_payload S.encoding client (S.unix_seconds w).0 api_type parameters,
        (S.unix_seconds w).1,
      )
