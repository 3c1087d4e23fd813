-- ===== src/Temu/Signed.antt =====
-- What a payload of BuildPayload holds, and that its signature is right.
use pangu_sales_manager.Base.{
  ℤ, true, false, Text, codes, text_eq, text_eq_iff, text_Eq, List, [], ◌∷◌, lookup, insert,
  lookup-insert, sort_by, Option, none, some, ok, chain-eq-ok, ok_injective, Bool-cases,
  Option-cases, All, All-sort_by, All-mono, ◌≡◌, refl, sym, ap, ◌∙◌, inl, inr, arith, subst,
}
use pangu_sales_manager.Pull.Letters.{show_int}
use pangu_sales_manager.Temu.Payload.{
  Value, Payload, Encoding, Client, text, sign_key, text_less, sign_keys, join_signed,
  build_signature, add_parameters, common_parameters, sign, build_payload,
}

module _ {V : Type 0} (E : Encoding V) where
  -- A parameter that is not nil is in the payload.
  abbrev pub Carries : Payload V → Text × Option (Value V) → Type 0
  Carries payload (key, none) = Unit
  Carries payload (key, some v) = lookup key payload ≡ some (some v)

  -- The same, under a key that is not the key of the signature.
  abbrev Stays : Payload V → Text × Option (Value V) → Type 0
  Stays payload (key, none) = Unit
  Stays payload (key, some v) =
      (lookup key payload ≡ some (some v)) × (text_eq key sign_key ≡ false)

  -- What is in the payload stays as it is.
  abbrev Keeps : Payload V → Payload V → Type 0
  Keeps p q = (key : Text) (v : Option (Value V)) → lookup key p ≡ some v → lookup key q ≡ some v

  insert-Keeps :
      (p : Payload V) (key : Text) (v : Option (Value V))
      → lookup key p ≡ none
      → Keeps p (insert key v p)
  insert-Keeps p key v n j w h = elim (Bool-cases (text_eq key j)) [
    | inl e ↦ let same = (text_eq_iff key j).0 e in cc
    | inr e ↦ lookup-insert key j v p ∙ ground (arith, e, h)
  ]

  -- One parameter, and the others after it.
  data Added (p q : Payload V) (parameters : Payload V) : Text × Option (Value V) → Type 0 where
    nil : {key : Text} → add_parameters E p parameters ≡ ok q → Added p q parameters (key, none)
    value :
        {key : Text} {v : Value V}
        → lookup key p ≡ none
        → text_eq key sign_key ≡ false
        → add_parameters E (insert key (some v) p) parameters ≡ ok q
        → Added p q parameters (key, some v)

  added :
      (p q : Payload V) (parameter : Text × Option (Value V)) (parameters : Payload V)
      → add_parameters E p (parameter ∷ parameters) ≡ ok q
      → Added p q parameters parameter
  unfolding add_parameters
  added p q (key, none) parameters h = elim (Option-cases (lookup key p)) [
    | inl n ↦ elim (Bool-cases (text_eq key sign_key)) [
      | inl e ↦ let k = (rw (n, e, add_parameters) at h) in cc
      | inr e ↦ nil (rw (n, e, add_parameters) at h)
    ]
    | inr (w, s) ↦ let k = (rw (s, add_parameters) at h) in cc
  ]
  added p q (key, some v) parameters h = elim (Option-cases (lookup key p)) [
    | inl n ↦ elim (Bool-cases (text_eq key sign_key)) [
      | inl e ↦ let k = (rw (n, e, add_parameters) at h) in cc
      | inr e ↦ value n e (rw (n, e, add_parameters) at h)
    ]
    | inr (w, s) ↦ let k = (rw (s, add_parameters) at h) in cc
  ]

  add_parameters-Keeps :
      (p q : Payload V) (parameters : Payload V) → add_parameters E p parameters ≡ ok q → Keeps p q
  unfolding add_parameters
  add_parameters-Keeps p q [] h = λ key v l. subst (λ r. lookup key r ≡ some v) (ok_injective h) l
  add_parameters-Keeps p q ((key, none) ∷ rest) h = elim (added p q (key, none) rest h) [
    | nil h' ↦ add_parameters-Keeps p q rest h'
  ]
  add_parameters-Keeps p q ((key, some v) ∷ rest) h = elim (added p q (key, some v) rest h) [
    | value n e h' ↦ λ j w l.
        add_parameters-Keeps (insert key (some v) p) q rest h' j w
          (insert-Keeps p key (some v) n j w l)
  ]

  add_parameters-Stays :
      (p q : Payload V) (parameters : Payload V)
      → add_parameters E p parameters ≡ ok q
      → All (Stays q) parameters
  unfolding add_parameters
  add_parameters-Stays p q [] h = tt
  add_parameters-Stays p q ((key, none) ∷ rest) h = elim (added p q (key, none) rest h) [
    | nil h' ↦ (tt, add_parameters-Stays p q rest h')
  ]
  add_parameters-Stays p q ((key, some v) ∷ rest) h = elim (added p q (key, some v) rest h) [
    | value n e h' ↦ (
      (
        add_parameters-Keeps (insert key (some v) p) q rest h' key (some v)
            (inserted key (some v) p),
        e,
      ),
      add_parameters-Stays (insert key (some v) p) q rest h',
    )
  ]
    where
      inserted :
          (key : Text) (v : Option (Value V)) (p : Payload V) → lookup key (insert key v p) ≡ some v
      inserted key v p = lookup-insert key key v p ∙ ground (arith, text_eq_iff key key)

  -- None of the keys is the key of the signature.
  abbrev Unsigned : Text → Type 0
  Unsigned key = text_eq key sign_key ≡ false

  self : text_eq sign_key sign_key ≡ true
  self = (text_eq_iff sign_key sign_key).1 refl

  other : (key : Text) → Unsigned key → text_eq sign_key key ≡ false
  other key u = ground (arith, text_eq_iff key sign_key, text_eq_iff sign_key key)

  sign_keys-Unsigned : (p : Payload V) → All Unsigned (sign_keys E p)
  unfolding sign_keys
  sign_keys-Unsigned [] = tt
  sign_keys-Unsigned ((key, none) ∷ rest) = sign_keys-Unsigned rest
  sign_keys-Unsigned ((key, some v) ∷ rest) = elim (Bool-cases (text_eq key sign_key)) [
    | inl e ↦ rw e (sign_keys-Unsigned rest)
    | inr e ↦ rw e (e, sign_keys-Unsigned rest)
  ]

  sign_keys-sign :
      (v : Value V) (p : Payload V) → sign_keys E (insert sign_key (some v) p) ≡ sign_keys E p
  unfolding sign_keys insert
  sign_keys-sign v [] = refl
  sign_keys-sign v ((key, none) ∷ rest) = elim (Bool-cases (text_eq key sign_key)) [
    | inl e ↦ rw e refl
    | inr e ↦ rw e (sign_keys-sign v rest)
  ]
  sign_keys-sign v ((key, some w) ∷ rest) = elim (Bool-cases (text_eq key sign_key)) [
    | inl e ↦ rw e refl
    | inr e ↦ rw (e, sign_keys, e) (ap (λ keys. key ∷ keys) (sign_keys-sign v rest))
  ]

  join_signed-sign :
      (v : Value V) (p : Payload V) (keys : List Text)
      → All Unsigned keys
      → join_signed E (insert sign_key (some v) p) keys ≡ join_signed E p keys
  unfolding join_signed
  join_signed-sign v p [] h = refl
  join_signed-sign v p (key ∷ keys) (u, h) =
      rw (lookup-insert sign_key key (some v) p, other key u, join_signed-sign v p keys h) refl

  -- Adding the signature does not change what is signed.
  build_signature-sign :
      (v : Value V) (p : Payload V) (secret : Text)
      → build_signature E (insert sign_key (some v) p) secret ≡ build_signature E p secret
  unfolding build_signature
  build_signature-sign v p secret =
      rw
        (
          sign_keys-sign v p,
          join_signed-sign v p (sort_by text_less (sign_keys E p))
              (All-sort_by text_less Unsigned (sign_keys E p) (sign_keys-Unsigned p)),
        )
        refl

module _ {V : Type 0} (E : Encoding V) (client : Client) where
  -- A payload for the parameters: the fields of the client are as they were, the parameters that are
  -- not nil are in it, and the signature is the one that the server works out from the payload.
  pub record IsSigned (seconds : ℤ) (api_type : Text) (parameters payload : Payload V)
      : Type 0 where
    pub token : lookup (codes "access_token") payload ≡ some (some (text client.access_token))
    pub app : lookup (codes "app_key") payload ≡ some (some (text client.app_key))
    pub format : lookup (codes "data_type") payload ≡ some (some (text (codes "JSON")))
    pub time : lookup (codes "timestamp") payload ≡ some (some (text (show_int seconds)))
    pub kind : lookup (codes "type") payload ≡ some (some (text api_type))
    pub carried : All (Carries E payload) parameters
    pub signature :
        lookup sign_key payload ≡ some (some (text (build_signature E payload client.app_secret)))

  -- A key that is in the payload before it is signed, and is not the key of the signature.
  sign_keeps :
      (payload : Payload V) (key : Text) (v : Option (Value V))
      → text_eq key sign_key ≡ false
      → lookup key payload ≡ some v
      → lookup key (sign E client payload) ≡ some v
  sign_keeps payload key v u h =
      lookup-insert sign_key key (some (text (build_signature E payload client.app_secret))) payload
      ∙ rw (other E key u) h

  Stays-Carries :
      (payload : Payload V) (parameter : Text × Option (Value V))
      → Stays E payload parameter
      → Carries E (sign E client payload) parameter
  Stays-Carries payload (key, none) h = tt
  Stays-Carries payload (key, some v) (h, u) = sign_keeps payload key (some v) u h

  sign-IsSigned :
      (seconds : ℤ) (api_type : Text) (parameters q : Payload V)
      → add_parameters E (common_parameters E client seconds api_type) parameters ≡ ok q
      → IsSigned seconds api_type parameters (sign E client q)
  unfolding common_parameters text_eq lookup
  sign-IsSigned seconds api_type parameters q h =
      let keeps =
        add_parameters-Keeps E (common_parameters E client seconds api_type) q parameters h in
      record {
        token = sign_keeps q (codes "access_token") _ refl (keeps _ _ refl);
        app = sign_keeps q (codes "app_key") _ refl (keeps _ _ refl);
        format = sign_keeps q (codes "data_type") _ refl (keeps _ _ refl);
        time = sign_keeps q (codes "timestamp") _ refl (keeps _ _ refl);
        kind = sign_keeps q (codes "type") _ refl (keeps _ _ refl);
        carried =
            All-mono (Stays E q) (Carries E (sign E client q)) parameters (Stays-Carries q)
              (add_parameters-Stays E _ q parameters h);
        signature =
            lookup-insert sign_key sign_key (some (text (build_signature E q client.app_secret))) q
            ∙ ap (λ t. some (some (text t)))
                (sym (
                  build_signature-sign E (text (build_signature E q client.app_secret)) q
                    client.app_secret));
      }

  -- Where BuildPayload gives a payload, its common fields are those of the client, whatever the
  -- parameters; each parameter that is not nil is in it; and its signature is the signature of the
  -- whole payload, as the server works it out.
  pub build_payload-IsSigned :
      (seconds : ℤ) (api_type : Text) (parameters payload : Payload V)
      → build_payload E client seconds api_type parameters ≡ ok payload
      → IsSigned seconds api_type parameters payload
  unfolding build_payload
  build_payload-IsSigned seconds api_type parameters payload h =
      let (q, p, h') =
        chain-eq-ok (add_parameters E (common_parameters E client seconds api_type) parameters) _
          h in
      subst (IsSigned seconds api_type parameters) (ok_injective h')
        (sign-IsSigned seconds api_type parameters q p)
