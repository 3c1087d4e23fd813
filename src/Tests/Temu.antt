-- ===== src/Tests/Temu.antt =====
-- A request with two parameters, one of them nil, and a server that is busy.
use pangu_sales_manager.Base.{
  ℕ, suc, ◌+◌, ℤ, pos, Bool, true, false, Text, codes, List, [], ◌∷◌, length, Option, none, some,
  Result, ok, err, ◌≡◌, refl,
}
use pangu_sales_manager.Temu.Slots.{Slots}
use pangu_sales_manager.Temu.Payload.{Payload, Encoding, Client, text, number, build_payload}
use pangu_sales_manager.Temu.Signed.{IsSigned, build_payload-IsSigned}
use pangu_sales_manager.Temu.Calls.{Web, Envelope, api, Reply, call}
use pangu_sales_manager.Temu.Replies.{IsReported, call-IsReported}

abbrev encoding : Encoding Text
encoding = record { md5 = λ s. length s ∷ 171 ∷ []; marshal = λ v. some v; sprint = λ v. v }

abbrev client : Client
client = record {
  base_url = codes "https://api";
  app_key = codes "key";
  app_secret = codes "secret";
  access_token = codes "token";
}

abbrev api_type : Text
api_type = codes "goods.list"

abbrev parameters : Payload Text
parameters = (codes "page", some (number (codes "1"))) ∷ (codes "cursor", none) ∷ []

abbrev signed : Payload Text
signed =
    (codes "access_token", some (text (codes "token")))
    ∷ (codes "app_key", some (text (codes "key")))
    ∷ (codes "data_type", some (text (codes "JSON")))
    ∷ (codes "timestamp", some (text (codes "50")))
    ∷ (codes "type", some (text (codes "goods.list")))
    ∷ (codes "page", some (number (codes "1")))
    ∷ (codes "sign", some (text (codes "52AB")))
    ∷ []

build_payload-IsSigned_example : IsSigned encoding client (pos 50) api_type parameters signed
unfolding build_payload
build_payload-IsSigned_example =
    build_payload-IsSigned encoding client (pos 50) api_type parameters signed refl

-- A reserved parameter is refused.
reserved :
    build_payload encoding client (pos 50) api_type ((codes "sign", none) ∷ []) ≡ err (codes "sign")
unfolding build_payload
reserved = refl

abbrev envelope : Envelope
envelope = record {
  success = false;
  error_code = codes "\"4000004\"";
  error_msg = codes "slow down";
  result = [];
}

abbrev busy : Web ℕ Text
busy = record {
  encoding = encoding;
  unix_seconds = λ w. (pos w, w);
  now = λ w. (pos w, suc w);
  wait = λ delay w. (none, w + 5);
  marshal_payload = λ payload. ok (codes "{}");
  request_error = λ url. none;
  send = λ url body w. (ok (pos 200, ok (codes "{}")), suc w);
  decode_envelope = λ raw. ok envelope;
}

abbrev slots : Slots
slots = record { request_interval = pos 5; next_request_at = pos 3 }

abbrev refused_reply : Reply Text
refused_reply = (
  some (codes "{}"),
  err (
      api (record {
        api_type = api_type;
        status = pos 200;
        code = codes "4000004";
        message = codes "slow down";
        temporary = true;
      })),
)

call-IsReported_example : IsReported busy client api_type refused_reply
unfolding call pangu_sales_manager.Base.positive pangu_sales_manager.Base.lt_ℤ
    pangu_sales_manager.Base.eq_ℤ
call-IsReported_example = call-IsReported busy client none api_type parameters slots 0
