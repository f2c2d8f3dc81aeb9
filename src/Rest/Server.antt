-- ===== src/Rest/Server.antt =====
-- The server of rest/http/restful/restful_server.go, behind the router of router.go.
pub mod Changes
use spvwallet.Prelude.{
  ℕ, ◌==◌, Bool, true, false, ◌&&◌, Option, none, some, List, [], ◌∷◌, if◌then◌else◌, Result, ok,
  err, ◌>>=◌,
}
use spvwallet.Chain.Types.{BlockHeader, Error, Btcd}
use spvwallet.Chain.Headers.{Headers}
use spvwallet.Netserv.Types.{PeerLib}
use spvwallet.Netserv.Manager.{AddrLib}
use spvwallet.Rest.Service
use spvwallet.Rest.Service.{
  Parsers, RequestParams, unmarshal_map, success, failed, invalid_method, invalid_params,
  illegal_dataformat, internal_error, Payload, no_result, empty_result, header_result,
  height_result, Reply, reply, Spv,
}
use spvwallet.Rest.Json.{
  JsonLib, Value, null, string, number, integer, object, no_fields, field, one,
}
use spvwallet.Prelude.Int.{pos}
use Prim.Native.String.{String}
use text.Mathlib.Text.{◌==◌ as same_text}

pub data Method : Type 0 where
  get post options other_method : Method

-- The actions, which the paths name.
pub data Endpoint : Type 0 where
  query_header_by_height rollback broadcast_tx get_current_height : Endpoint

abbrev pub path_of : Endpoint → String
path_of query_header_by_height = "/api/v1/queryheaderbyheight"
path_of get_current_height = "/api/v1/getcurrentheight"
path_of rollback = "/api/v1/rollback"
path_of broadcast_tx = "/api/v1/broadcasttx"

abbrev pub action_of : Endpoint → String
action_of query_header_by_height = "queryheaderbyheight"
action_of get_current_height = "getcurrentheight"
action_of rollback = "rollback"
action_of broadcast_tx = "broadcasttx"

abbrev pub post_map : List Endpoint
post_map = query_header_by_height ∷ rollback ∷ broadcast_tx ∷ []

abbrev pub get_map : List Endpoint
get_map = get_current_height ∷ []

unfoldable pub find_path : String → List Endpoint → Option Endpoint
find_path path [] = none
find_path path (e ∷ rest) =
    let later = find_path path rest in if same_text (path_of e) path then some e else later

-- ErrMap; a missing key is the empty text.
unfoldable pub err_map : ℕ → String
err_map code =
    if code == success
    then "SUCCESS"
    else if code == failed
    then "FAILED"
    else if code == invalid_method
    then "INVALID METHOD"
    else if code == invalid_params
    then "INVALID PARAMS"
    else if code == illegal_dataformat
    then "ILLEGAL DATAFORMAT"
    else if code == internal_error
    then "INTERNAL_ERROR"
    else ""

pub record Response : Type 0 where
  pub action : String
  pub desc : String
  pub error : ℕ
  pub result : Payload

pub data Answer : Type 0 where
  not_found : Answer
  empty_body : Answer
  json : Response → Answer

-- The action is set by the handler's name, the text by the code.
unfoldable pub respond : String → Reply → Answer
respond name r =
    json (record { action = name; desc = err_map r.error; error = r.error; result = r.result })

-- PackResponse.
abbrev pub pack_response : ℕ → Reply
pack_response code = reply code empty_result

-- The result in the map that RefactorResp reads back, by the tags of common.go.
unfoldable pub result_of : (j : JsonLib) → Payload → Value j.Float
result_of j no_result = null
result_of j empty_result = string ""
result_of j (header_result t) = one "header" (string t)
result_of j (height_result n) = one "height" (number (j.float_of (pos n)))

-- The map of a response.
unfoldable pub page : (j : JsonLib) → Response → Value j.Float
unfolding result_of
page j r = object (
    field "action" (string r.action) (
      field "desc" (string r.desc)
        (field "error" (integer (pos r.error)) (field "result" (result_of j r.result) no_fields))))

abbrev text_or {ℓ} : {A : Type ℓ} → A → Option A → A
text_or x none = x
text_or x (some y) = y

-- The body that an answer has.
unfoldable pub written : (J : Parsers) → Answer → J.json.Text
unfolding page
written J not_found = J.not_found_text
written J empty_body = J.empty_text
written J (json r) = text_or J.empty_text (J.json.marshal (page J.json r))

module _ (J : Parsers) (b : Btcd) (H : Headers) (L : PeerLib) (A : AddrLib) where
  abbrev State : Type 0
  State = Spv J b H L A

  -- The handler of an action.
  unfoldable pub handle :
      State → BlockHeader → ℕ → Endpoint → RequestParams J → Result Error (State × Reply)
  handle w genesis now query_header_by_height params =
      Service.query_header_by_height J b H L A w params >>= λ r. ok (w, r)
  handle w genesis now rollback params = Service.rollback J b H L A w genesis now params
  handle w genesis now broadcast_tx params = ok (Service.broadcast_tx J b H L A w params)
  handle w genesis now get_current_height params =
      Service.get_current_height J b H L A w >>= λ r. ok (w, r)

  unfoldable pub handle_body :
      State → BlockHeader → ℕ → Endpoint → Option (RequestParams J) → Result Error (State × Reply)
  unfolding handle
  handle_body w genesis now e none = ok (w, pack_response illegal_dataformat)
  handle_body w genesis now e (some params) = handle w genesis now e params

  -- The handler of a route finds its action in the map by the path of the request.
  unfoldable pub answer_get :
      State → BlockHeader → ℕ → RequestParams J → Option Endpoint → Result Error (State × Answer)
  unfolding handle respond
  answer_get w genesis now query none = ok (w, respond "" (pack_response invalid_method))
  answer_get w genesis now query (some e) =
      handle w genesis now e query >>= λ out. ok (out.0, respond (action_of e) out.1)

  unfoldable pub answer_post :
      State → BlockHeader → ℕ → J.json.Text → Option Endpoint → Result Error (State × Answer)
  unfolding handle_body respond
  answer_post w genesis now body none = ok (w, respond "" (pack_response invalid_method))
  answer_post w genesis now body (some e) =
      handle_body w genesis now e (unmarshal_map J body) >>= λ out.
      ok (out.0, respond (action_of e) out.1)

  -- The router, whose route for a path has the pattern of that path from its start to its end.
  unfoldable pub routed :
      State → Option Endpoint → Result Error (State × Answer) → Result Error (State × Answer)
  routed w none handled = ok (w, not_found)
  routed w (some route) handled = handled

  -- A request with its method, its path, the map of its query, and its body.
  unfoldable pub serve :
      State
      → BlockHeader
      → ℕ
      → Method
      → String
      → RequestParams J
      → J.json.Text
      → Result Error (State × Answer)
  unfolding answer_get answer_post routed
  serve w genesis now get path query body =
      let action = find_path path get_map in routed w action (answer_get w genesis now query action)
  serve w genesis now post path query body =
      let action = find_path path post_map in
      routed w action (answer_post w genesis now body action)
  serve w genesis now options path query body =
      routed w (find_path path post_map) (ok (w, empty_body))
  serve w genesis now other_method path query body = ok (w, not_found)
