-- ===== src/Rest/Client.antt =====
-- RestClient of rest/http/restful/rest_client.go, over encoding/json, net/http and hex.
pub mod Served
pub mod Unserved
use spvwallet.Prelude.{
  ℕ, ◌==◌, Bool, true, false, not, ◌||◌, Option, none, some, List, [], ◌∷◌, if◌then◌else◌, Result,
  ok, err, panic, ◌>>=◌,
}
use spvwallet.Prelude.Int.{ℤ, pos}
use spvwallet.Chain.Types.{BlockHeader}
use spvwallet.Rest.Service.{and_then}
use spvwallet.Rest.Json.{
  Value, null, boolean, string, number, integer, array, object, Values, no_values, value, Fields,
  no_fields, field, one, JsonLib,
}
use Prim.Native.String.{String, ◌++◌}
use text.Mathlib.Text.{◌==◌ as same_text}

-- The bodies of the requests.
pub data Request : Type 0 where
  query_header_by_height_param : ℕ → Request
  query_utxos_req : String → ℤ → ℤ → Bool → Request
  change_address_req : String → String → Request
  unlock_utxo_req : String → ℕ → Request
  get_fee_per_byte_req : ℤ → Request
  broadcast_tx_req : String → Request
  rollback_req : String → Request

-- The fields of a body, by its tags.
unfoldable pub body_of : {F : Type 0} → Request → Value F
body_of (query_header_by_height_param height) = one "height" (integer (pos height))
body_of (query_utxos_req addr amount fee is_pre_exec) = object (
    field "addr" (string addr) (
      field "amount" (integer amount)
        (field "fee" (integer fee) (field "is_pre_exec" (boolean is_pre_exec) no_fields))))
body_of (change_address_req action addr) =
    object (field "aciton" (string action) (field "addr" (string addr) no_fields))
body_of (unlock_utxo_req hash index) =
    object (field "hash" (string hash) (field "index" (integer (pos index)) no_fields))
body_of (get_fee_per_byte_req level) = one "level" (integer level)
body_of (broadcast_tx_req raw_tx) = one "raw_tx" (string raw_tx)
body_of (rollback_req time) = one "time" (string time)

pub record UtxoInfo : Type 0 where
  pub outpoint : String
  pub val : ℤ
  pub is_lock : Bool
  pub height : ℤ
  pub script : String

-- The part of a response that the client reads.
pub record Response (R : Type 0) : Type 0 where
  pub desc : String
  pub error : ℕ
  pub result : R

pub record TransactionInput : Type 0 where
  pub txid : String
  pub vout : ℕ

pub data ClientError : Type 0 where
  marshal_failed send_failed bad_json bad_hex bad_header bad_tx : ClientError
  refused : String → ClientError

-- net/http, hex and btcd. A request gives the body of the answer, where it can be read.
pub record ClientLib (j : JsonLib) : Type 1 where
  pub HttpClient : Type 0
  pub default_client : HttpClient
  pub MsgTx : Type 0
  pub to_uint32 : j.Float → ℕ
  pub to_int64 : j.Float → ℤ
  pub post : HttpClient → String → j.Text → Option j.Text
  pub get : HttpClient → String → Option j.Text
  pub unmarshal_all_utxos : j.Text → Option (Response (List UtxoInfo))
  pub hex_decode : String → Option (List ℕ)
  pub hex_encode : List ℕ → String
  pub decode_header : List ℕ → Option BlockHeader
  pub encode_tx : MsgTx → Option (List ℕ)

abbrev pub or_error {ℓ} : {A : Type ℓ} → ClientError → Option A → Result ClientError A
or_error x none = err x
or_error x (some a) = ok a

-- `v.(map[string]interface{})[name]`; a missing key gives nil.
unfoldable pub find_field : {F : Type 0} → String → Fields F → Value F
find_field name no_fields = null
find_field name (field k v rest) =
    let later = find_field name rest in if same_text k name then v else later

unfoldable pub field_of : {F : Type 0} → String → Value F → Result ClientError (Value F)
unfolding find_field
field_of name (object fields) = ok (find_field name fields)
field_of name _ = panic

unfoldable pub as_string : {F : Type 0} → Value F → Result ClientError String
as_string (string s) = ok s
as_string _ = panic

unfoldable pub as_number : {F : Type 0} → Value F → Result ClientError F
as_number (number x) = ok x
as_number _ = panic

unfoldable pub as_list : {F : Type 0} → Value F → Result ClientError (Values F)
as_list (array vs) = ok vs
as_list _ = panic

-- The checks of an answer that all calls make.
unfoldable pub accept : {R : Type 0} → Response R → Result ClientError R
accept resp =
    if not (resp.error == 0) || not (same_text resp.desc "SUCCESS")
    then err (refused resp.desc)
    else ok resp.result

abbrev pub url : String → String → String
url addr path = "http://" ++ addr ++ path

-- Unmarshal into a Response, by its tags.
unfoldable pub unmarshal_response : (j : JsonLib) → j.Text → Option (Response (Value j.Float))
unmarshal_response j body = and_then (j.unmarshal_string "action" body) (λ action.
    and_then (j.unmarshal_string "desc" body) (λ desc.
      and_then (j.unmarshal_uint32 "error" body) (λ error.
        and_then (j.unmarshal_any "result" body)
          (λ result. some (record { desc = desc; error = error; result = result })))))

module _ (j : JsonLib) (C : ClientLib j) where
  open j use {Float}

  pub record RestClient : Type 0 where
    pub addr : String
    pub rest_client : C.HttpClient

  -- The client of http has timeouts of 300 seconds.
  unfoldable pub new_rest_client : String → RestClient
  new_rest_client addr = record { addr = addr; rest_client = C.default_client }

  unfoldable pub set_addr : RestClient → String → RestClient
  set_addr self addr = record self { addr = addr }

  unfoldable pub set_rest_client : RestClient → C.HttpClient → RestClient
  set_rest_client self rest_client = record self { rest_client = rest_client }

  unfoldable pub send_rest_request : RestClient → String → j.Text → Result ClientError j.Text
  send_rest_request self addr body = or_error send_failed (C.post self.rest_client addr body)

  unfoldable pub send_get_request : RestClient → String → Result ClientError j.Text
  send_get_request self addr = or_error send_failed (C.get self.rest_client addr)

  unfoldable pub read_response : j.Text → Result ClientError (Value Float)
  unfolding accept unmarshal_response
  read_response body = or_error bad_json (unmarshal_response j body) >>= λ resp. accept resp

  -- A POST as all calls make it.
  unfoldable pub call : RestClient → String → Request → Result ClientError (Value Float)
  unfolding send_rest_request read_response body_of
  call self path req = do
    query ← or_error marshal_failed (j.marshal (body_of req))
    body ← send_rest_request self (url self.addr path) query
    read_response body

  unfoldable pub header_from : Value Float → Result ClientError BlockHeader
  header_from result = do
    v ← field_of "header" result
    s ← as_string v
    hbs ← or_error bad_hex (C.hex_decode s)
    or_error bad_header (C.decode_header hbs)

  unfoldable pub get_header_from_spv : RestClient → ℕ → Result ClientError BlockHeader
  unfolding call header_from
  get_header_from_spv self height = do
    result ← call self "/api/v1/queryheaderbyheight" (query_header_by_height_param height)
    header_from result

  unfoldable pub inputs_of : Values Float → Result ClientError (List TransactionInput)
  inputs_of no_values = ok []
  inputs_of (value v rest) = field_of "txid" v >>= λ t. as_string t >>= λ txid.
      field_of "vout" v >>= λ n. as_number n >>= λ vout.
      inputs_of rest >>= λ more. ok (record { txid = txid; vout = C.to_uint32 vout } ∷ more)

  unfoldable pub get_utxos_from_spv :
      RestClient → String → ℤ → ℤ → Bool → Result ClientError (List TransactionInput × ℤ)
  unfolding call inputs_of
  get_utxos_from_spv self a amount fee is_pre_exec = do
    result ← call self "/api/v1/queryutxos" (query_utxos_req a amount fee is_pre_exec)
    inputs ← field_of "inputs" result
    vs ← as_list inputs
    ins ← inputs_of vs
    sum ← field_of "sum" result
    x ← as_number sum
    ok (ins, C.to_int64 x)

  unfoldable pub get_current_height_from_spv : RestClient → Result ClientError ℕ
  unfolding send_get_request read_response
  get_current_height_from_spv self = do
    body ← send_get_request self (url self.addr "/api/v1/getcurrentheight")
    result ← read_response body
    height ← field_of "height" result
    x ← as_number height
    ok (C.to_uint32 x)

  unfoldable pub change_spv_watched_addr :
      RestClient → String → String → Result ClientError (Unit {0})
  unfolding call
  change_spv_watched_addr self a action = do
    _ ← call self "/api/v1/changeaddress" (change_address_req action a)
    ok tt

  unfoldable pub strings_of : Values Float → Result ClientError (List String)
  strings_of no_values = ok []
  strings_of (value v rest) = as_string v >>= λ s. strings_of rest >>= λ more. ok (s ∷ more)

  unfoldable pub get_watched_addrs_from_spv : RestClient → Result ClientError (List String)
  unfolding send_get_request read_response strings_of
  get_watched_addrs_from_spv self = do
    body ← send_get_request self (url self.addr "/api/v1/getalladdress")
    result ← read_response body
    addresses ← field_of "addresses" result
    vs ← as_list addresses
    strings_of vs

  unfoldable pub unlock_utxo_in_spv : RestClient → String → ℕ → Result ClientError (Unit {0})
  unfolding call
  unlock_utxo_in_spv self hash index = do
    _ ← call self "/api/v1/unlockutxo" (unlock_utxo_req hash index)
    ok tt

  unfoldable pub get_fee_rate_from_spv : RestClient → ℤ → Result ClientError ℤ
  unfolding call
  get_fee_rate_from_spv self level = do
    result ← call self "/api/v1/getfeeperbyte" (get_fee_per_byte_req level)
    fee ← field_of "feepb" result
    x ← as_number fee
    ok (C.to_int64 x)

  unfoldable pub get_all_utxos_from_spv : RestClient → Result ClientError (List UtxoInfo)
  unfolding send_get_request
  get_all_utxos_from_spv self = do
    body ← send_get_request self (url self.addr "/api/v1/getallutxos")
    resp ← or_error bad_json (C.unmarshal_all_utxos body)
    accept resp

  unfoldable pub broadcast_tx_by_spv : RestClient → C.MsgTx → Result ClientError (Unit {0})
  unfolding call
  broadcast_tx_by_spv self mtx = do
    bytes ← or_error bad_tx (C.encode_tx mtx)
    _ ← call self "/api/v1/broadcasttx" (broadcast_tx_req (C.hex_encode bytes))
    ok tt

  unfoldable pub rollback_spv : RestClient → String → Result ClientError (Unit {0})
  unfolding call
  rollback_spv self time = do _ ← call self "/api/v1/rollback" (rollback_req time); ok tt
