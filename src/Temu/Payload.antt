-- ===== src/Temu/Payload.antt =====
-- BuildPayload and BuildSignature of internal/temu/client.go. A map is an association list, and the
-- parameters come in the order in which Go walks them. MD5 and the encoding of other values are
-- parameters.
use pangu_sales_manager.Base.{
  ℤ, ◌>>=◌, ℕ, ◌+◌, ◌/◌, ◌%◌, ltb, ◌&&◌, ◌||◌, Bool, true, false, Text, codes, text_eq, text_Eq,
  List, [], ◌∷◌, ◌++◌, trim_space, lookup, insert, sort_by, Option, none, some, Result, ok, err,
  if◌then◌else◌, ◌==◌,
}
use pangu_sales_manager.Pull.Letters.{show_int}

-- A value that is not nil.
pub data Value (V : Type 0) : Type 0 where
  text : Text → Value V
  flag : Bool → Value V
  number : Text → Value V
  other : V → Value V

-- `map[string]any`; a nil value is `none`.
abbrev pub Payload : Type 0 → Type 0
Payload V = List (Text × Option (Value V))

-- What the signature uses of other packages: the bytes of an MD5 sum, json.Marshal and fmt.Sprint.
pub record Encoding (V : Type 0) : Type 0 where
  pub md5 : Text → List ℕ
  pub marshal : V → Option Text
  pub sprint : V → Text

abbrev pub sign_key : Text
sign_key = codes "sign"

unfoldable pub text_less : Text → Text → Bool
text_less [] [] = false
text_less [] (d ∷ ds) = true
text_less (c ∷ cs) [] = false
text_less (c ∷ cs) (d ∷ ds) = let rest = text_less cs ds in ltb c d || (c == d && rest)

-- The two digits of a byte, in capitals.
abbrev hex_digit : ℕ → ℕ
hex_digit n = if ltb n 10 then n + 48 else n + 55

unfoldable pub hex_upper : List ℕ → Text
hex_upper [] = []
hex_upper (b ∷ bs) = hex_digit (b / 16) ∷ hex_digit (b % 16) ∷ hex_upper bs

module _ {V : Type 0} (E : Encoding V) where
  abbrev pub marshal_or_print : V → Option Text → Text
  marshal_or_print v (some encoded) = encoded
  marshal_or_print v none = E.sprint v

  unfoldable pub serialize_sign_value : Option (Value V) → Text
  serialize_sign_value none = codes "null"
  serialize_sign_value (some (text s)) = s
  serialize_sign_value (some (flag true)) = codes "true"
  serialize_sign_value (some (flag false)) = codes "false"
  serialize_sign_value (some (number s)) = s
  serialize_sign_value (some (other v)) = marshal_or_print v (E.marshal v)

  -- The keys that are signed.
  unfoldable pub sign_keys : Payload V → List Text
  unfolding text_eq
  sign_keys [] = []
  sign_keys ((key, none) ∷ rest) = sign_keys rest
  sign_keys ((key, some v) ∷ rest) =
      let keys = sign_keys rest in if text_eq key sign_key then keys else key ∷ keys

  -- A read of a missing key is nil.
  abbrev pub or_nil : Option (Option (Value V)) → Option (Value V)
  or_nil none = none
  or_nil (some v) = v

  unfoldable pub join_signed : Payload V → List Text → Text
  unfolding serialize_sign_value lookup
  join_signed parameters [] = []
  join_signed parameters (key ∷ keys) =
      key ++ serialize_sign_value (or_nil (lookup key parameters)) ++ join_signed parameters keys

  unfoldable pub build_signature : Payload V → Text → Text
  unfolding sign_keys join_signed hex_upper sort_by text_less
  build_signature parameters app_secret = hex_upper (
      E.md5 (
        app_secret
        ++ join_signed parameters (sort_by text_less (sign_keys parameters))
        ++ app_secret))

  -- The error names the reserved key.
  unfoldable pub add_parameters : Payload V → Payload V → Result Text (Payload V)
  unfolding lookup insert text_eq
  add_parameters payload [] = ok payload
  add_parameters payload ((key, value) ∷ parameters) = elim (lookup key payload) [
    | some _ ↦ err key
    | none ↦ elim (text_eq key sign_key) [
      | true ↦ err key
      | false ↦ elim value [
        | none ↦ add_parameters payload parameters
        | some v ↦ add_parameters (insert key (some v) payload) parameters
      ]
    ]
  ]

-- The fields that are read here.
pub record Client : Type 0 where
  pub base_url : Text
  pub app_key : Text
  pub app_secret : Text
  pub access_token : Text

unfoldable pub new_client : Text → Text → Text → Text → Client
unfolding trim_space
new_client base_url app_key app_secret access_token = record {
  base_url = trim_space base_url;
  app_key = app_key;
  app_secret = app_secret;
  access_token = access_token;
}

module _ {V : Type 0} (E : Encoding V) (client : Client) where
  -- The parameters of every request; `seconds` is what the clock shows.
  unfoldable pub common_parameters : ℤ → Text → Payload V
  unfolding show_int
  common_parameters seconds api_type =
      (codes "access_token", some (text client.access_token))
      ∷ (codes "app_key", some (text client.app_key))
      ∷ (codes "data_type", some (text (codes "JSON")))
      ∷ (codes "timestamp", some (text (show_int seconds)))
      ∷ (codes "type", some (text api_type))
      ∷ []

  abbrev pub sign : Payload V → Payload V
  sign payload = insert sign_key (some (text (build_signature E payload client.app_secret))) payload

  unfoldable pub build_payload : ℤ → Text → Payload V → Result Text (Payload V)
  unfolding add_parameters common_parameters build_signature insert text_eq
  build_payload seconds api_type parameters = do
    payload ← add_parameters E (common_parameters seconds api_type) parameters
    ok (sign payload)
