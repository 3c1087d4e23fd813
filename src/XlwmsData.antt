-- ===== src/XlwmsData.antt =====
-- internal/xlwms/client.go: the data of the mapping service, its errors, and the transport, which sends a request and reads JSON.
use pangu_sales_manager.Base.{text_Eq, ℕ, ℤ, String, Text, Bool, List, Option, Result}

abbrev pub default_page_size : ℕ
default_page_size = 100

pub record Account : Type 0 where
  pub key : Text
  pub label : Text
  pub available : Bool

pub record PairingItem : Type 0 where
  pub system_sku : Text
  pub quantity : ℤ

pub record Pairing : Type 0 where
  pub platform_sku : Text
  pub store_code : Text
  pub items : List PairingItem

pub record Mapping : Type 0 where
  pub platform_sku : Text
  pub warehouse_sku : Text
  pub quantity : ℤ

pub record ApiEnvelope : Type 0 where
  pub success : Bool
  pub error : Text
  pub payload : Text

pub record PairingPageData : Type 0 where
  pub records : List Pairing
  pub pages : ℤ

-- The body of a new pairing.
pub record PairingBody : Type 0 where
  pub account : Text
  pub store_code : Text
  pub platform_sku : Text
  pub items : List PairingItem

pub record Request : Type 0 where
  pub method : String
  pub path : String
  pub query : List (String × Text)
  pub body : Option PairingBody

-- http.NewRequest may refuse a request; http.Client.Do and io.ReadAll give the status and the text of
-- the response, or fail, the first or the second; json.Unmarshal gives a value, or fails.
pub record Transport (W : Type 0) : Type 0 where
  pub request_error : Request → Option Text
  pub send : Request → W → Result Text (ℤ × Result Text Text) × W
  pub decode_envelope : Text → Result Text ApiEnvelope
  pub decode_accounts : Text → Result Text (List Account)
  pub decode_page : Text → Result Text PairingPageData

pub data ClientError : Type 0 where
  invalid_request : Text → ClientError
  call_failed : String → String → Text → ClientError
  read_failed : Text → ClientError
  undecoded_response : ℤ → Text → ClientError
  refused : String → String → Text → ClientError
  undecoded_data : Text → ClientError

pub data XlwmsError : Type 0 where
  no_account_list : ClientError → XlwmsError
  pairings_failed : Text → ClientError → XlwmsError
  no_accounts : XlwmsError
  all_rejected : ℕ → List ClientError → XlwmsError
  -- Not an error of the program: the fuel of the model.
  out_of_fuel : XlwmsError
