-- ===== src/Rest/Service.antt =====
-- Service of rest/service/handlers.go, with the error codes of rest/http/restful/error.go.
use spvwallet.Prelude.{ℕ, Option, none, some, List, Result, ok, attempt, ◌>>=◌}
use spvwallet.Chain.Types.{BlockHeader, StoredHeader, Error, Btcd}
use spvwallet.Chain.Headers.{Headers}
use spvwallet.Chain.Blockchain
use spvwallet.Netserv.Types.{PeerLib}
use spvwallet.Netserv.Manager.{AddrLib}
use spvwallet.Wallet
use spvwallet.Wallet.{SpvWallet}
use spvwallet.Rest.Json.{JsonLib, Value, null, object, Fields, no_fields}
use Prim.Native.String.{String}

-- The libraries of Go and btcd that the service calls: JSON, dates, and a transaction in hex, which gives
-- its hash. `not_found_text` is the answer of net/http at a path without a handler.
pub record Parsers : Type 1 where
  pub json : JsonLib
  pub not_found_text : JsonLib.Text json
  pub empty_text : JsonLib.Text json
  pub parse_time : String → Option ℕ
  pub hex_decode : String → Option (List ℕ)
  pub decode_tx : List ℕ → Option ℕ
  pub encode_header : BlockHeader → String

-- Of two steps, the second where the first is done.
abbrev pub and_then {ℓ} : {A B : Type ℓ} → Option A → (A → Option B) → Option B
and_then none f = none
and_then (some a) f = f a

-- The parameters of a request, a map.
abbrev pub RequestParams : Parsers → Type 0
RequestParams J = Fields J.json.Float

-- The body of a request into a map; null gives a map without fields.
unfoldable pub as_map : {F : Type 0} → Value F → Option (Fields F)
as_map null = some no_fields
as_map (object fs) = some fs
as_map _ = none

unfoldable pub unmarshal_map : (J : Parsers) → J.json.Text → Option (RequestParams J)
unfolding as_map
unmarshal_map J body = and_then (J.json.unmarshal body) as_map

-- ParseParams into a struct whose field has the tag, by the text of the map.
unfoldable pub parse_uint32 : (J : Parsers) → String → RequestParams J → Option ℕ
parse_uint32 J tag params = and_then (J.json.marshal (object params)) (J.json.unmarshal_uint32 tag)

unfoldable pub parse_string : (J : Parsers) → String → RequestParams J → Option String
parse_string J tag params = and_then (J.json.marshal (object params)) (J.json.unmarshal_string tag)

-- The parameters of each request, by the tags of common.go.
unfoldable pub height_of : (J : Parsers) → RequestParams J → Option ℕ
unfolding parse_uint32
height_of J params = parse_uint32 J "height" params

unfoldable pub time_of : (J : Parsers) → RequestParams J → Option String
unfolding parse_string
time_of J params = parse_string J "time" params

unfoldable pub tx_of : (J : Parsers) → RequestParams J → Option String
unfolding parse_string
tx_of J params = parse_string J "tx" params

abbrev pub success : ℕ
success = 0

abbrev pub failed : ℕ
failed = 1

abbrev pub invalid_method : ℕ
invalid_method = 42001

abbrev pub invalid_params : ℕ
invalid_params = 42002

abbrev pub illegal_dataformat : ℕ
illegal_dataformat = 42003

abbrev pub internal_error : ℕ
internal_error = 42004

-- The result of a response.
pub data Payload : Type 0 where
  no_result : Payload
  empty_result : Payload
  header_result : String → Payload
  height_result : ℕ → Payload

-- What a handler answers; its `desc` is left out, since the server writes over it.
pub record Reply : Type 0 where
  pub error : ℕ
  pub result : Payload

abbrev pub reply : ℕ → Payload → Reply
reply code result = record { error = code; result = result }

module _ (J : Parsers) (b : Btcd) (H : Headers) (L : PeerLib) (A : AddrLib) where
  abbrev pub Spv : Type 0
  Spv = SpvWallet b H L A

  unfoldable pub header_reply : Option StoredHeader → Reply
  header_reply none = reply internal_error (header_result "")
  header_reply (some sh) = reply success (header_result (J.encode_header sh.header))

  unfoldable pub header_at : Spv → Option ℕ → Result Error Reply
  unfolding header_reply
  header_at w none = ok (reply invalid_params (header_result ""))
  header_at w (some height) =
      attempt (Blockchain.get_header_by_height b H w.service.chain height) >>= λ found.
      ok (header_reply found)

  unfoldable pub query_header_by_height : Spv → RequestParams J → Result Error Reply
  unfolding header_at
  query_header_by_height w params = header_at w (height_of J params)

  unfoldable pub height_reply : Option StoredHeader → Reply
  height_reply none = reply internal_error (height_result 0)
  height_reply (some sh) = reply success (height_result sh.height)

  unfoldable pub get_current_height : Spv → Result Error Reply
  unfolding height_reply
  get_current_height w =
      attempt (Blockchain.best_block b H w.service.chain) >>= λ best. ok (height_reply best)

  unfoldable pub rollback_at : Spv → BlockHeader → ℕ → Option ℕ → Result Error (Spv × Reply)
  rollback_at w genesis now none = ok (w, reply internal_error no_result)
  rollback_at w genesis now (some t) =
      Wallet.resync_blockchain b H L A w genesis now t >>= λ w'. ok (w', reply success no_result)

  unfoldable pub rollback_to : Spv → BlockHeader → ℕ → Option String → Result Error (Spv × Reply)
  unfolding rollback_at
  rollback_to w genesis now none = ok (w, reply invalid_params no_result)
  rollback_to w genesis now (some text) = rollback_at w genesis now (J.parse_time text)

  -- The tip before and after is read for a line of the log.
  unfoldable pub rollback : Spv → BlockHeader → ℕ → RequestParams J → Result Error (Spv × Reply)
  unfolding rollback_to
  rollback w genesis now params = do
    before ← Wallet.chain_tip b H L A w
    out ← rollback_to w genesis now (time_of J params)
    later ← Wallet.chain_tip b H L A out.0
    ok out

  -- Broadcast has no error. Beside one, `error` keeps its zero, which is the code of success.
  unfoldable pub broadcast_decoded : Spv → Option ℕ → Spv × Reply
  broadcast_decoded w none = (w, reply internal_error no_result)
  broadcast_decoded w (some tx) = (Wallet.broadcast b H L A w tx, reply success no_result)

  unfoldable pub broadcast_bytes : Spv → Option (List ℕ) → Spv × Reply
  unfolding broadcast_decoded
  broadcast_bytes w none = (w, reply internal_error no_result)
  broadcast_bytes w (some bytes) = broadcast_decoded w (J.decode_tx bytes)

  unfoldable pub broadcast_text : Spv → Option String → Spv × Reply
  unfolding broadcast_bytes
  broadcast_text w none = (w, reply invalid_params no_result)
  broadcast_text w (some text) = broadcast_bytes w (J.hex_decode text)

  unfoldable pub broadcast_tx : Spv → RequestParams J → Spv × Reply
  unfolding broadcast_text
  broadcast_tx w params = broadcast_text w (tx_of J params)
