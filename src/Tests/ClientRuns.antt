-- ===== src/Tests/ClientRuns.antt =====
-- The theorems on the client of the REST service, at a wallet whose best header is at height 1.
use spvwallet.Prelude.{
  ℕ, ◌≡◌, refl, ap, false, Option, none, some, some-injective, [], ok, err, attempt, ok-injective,
  arith,
}
use spvwallet.Prelude.Int.{pos}
use spvwallet.Chain.Types.{StoredHeader}
use spvwallet.Chain.HeaderDb.Interface.{header_db}
use spvwallet.Chain.Blockchain
use spvwallet.Rest.Service
use spvwallet.Rest.Service.{
  Spv, Parsers, unmarshal_map, as_map, parse_uint32, parse_string, height_of, tx_of, no_result,
  header_result, height_result, internal_error, success,
}
use spvwallet.Rest.Server
use spvwallet.Rest.Server.{
  find_path, post_map, get_map, get, post, Answer, not_found, empty_body, json, written, serve,
}
use spvwallet.Rest.Json.{Value, null, string, integer, no_fields, one}
use spvwallet.Rest.Json.Tags.{exact}
use spvwallet.Tests.Json.{values, values-laws}
use spvwallet.Rest.Client.{
  ClientLib, RestClient, body_of, refused, bad_json, query_header_by_height_param, broadcast_tx_req,
  get_header_from_spv, broadcast_tx_by_spv, get_utxos_from_spv, change_spv_watched_addr,
  get_watched_addrs_from_spv, unlock_utxo_in_spv, get_fee_rate_from_spv, get_all_utxos_from_spv,
}
use spvwallet.Rest.Client.Served.{Link, get_header_from_spv-serve, broadcast_tx_by_spv-serve}
use spvwallet.Rest.Client.Unserved.{calls_unserved}
use spvwallet.Tests.Machine.{btcd, env, genesis}
use spvwallet.Tests.Chains.{tip}
use spvwallet.Tests.WireRuns.{peer_lib, now}
use spvwallet.Tests.ManagerRuns.{addr_lib}
use spvwallet.Tests.WalletRuns.{wallet, wallet_program}
use Prim.Native.String.{String}

abbrev texts : Parsers
texts = record {
  json = values;
  not_found_text = null;
  empty_text = null;
  parse_time = λ s. none;
  hex_decode = λ s. some [];
  decode_tx = λ bytes. none;
  encode_header = λ h. "00";
}

-- Every request gets the one answer.
abbrev client : Answer → ClientLib values
client answer = record {
  HttpClient = Unit {0};
  default_client = tt;
  MsgTx = ℕ;
  to_uint32 = λ n. n;
  to_int64 = λ n. pos n;
  post = λ c addr body. some (written texts answer);
  get = λ c addr. some (written texts answer);
  unmarshal_all_utxos = λ a. none;
  hex_decode = λ s. some [];
  hex_encode = λ bytes. "00";
  decode_header = λ bytes. some tip.header;
  encode_tx = λ tx. some [];
}

abbrev linked : (answer : Answer) → Link texts (client answer)
linked answer = record {
  laws = values-laws;
  to_uint32-float_of = λ n low. refl;
  unmarshal_string-not_found = λ tag. refl;
  unmarshal_all_utxos-not_found = refl;
  decodes_nothing = refl;
  no_empty_tx = refl;
}

abbrev self : (answer : Answer) → RestClient values (client answer)
self answer = record { addr = "a"; rest_client = tt }

abbrev asks_header : Value ℕ
asks_header = one "height" (integer (pos 1))

abbrev tip_answer : Answer
tip_answer = json (record {
  action = "queryheaderbyheight";
  desc = "SUCCESS";
  error = success;
  result = header_result "00";
})

serves_tip :
    serve texts btcd
      (header_db env)
      peer_lib
      addr_lib
      wallet
      genesis.header
      now
      post
      "/api/v1/queryheaderbyheight"
      no_fields
      asks_header
    ≡ ok (wallet, tip_answer)
unfolding wallet_program Server.answer_post Server.routed Server.handle_body unmarshal_map as_map
    height_of parse_uint32 exact Service.query_header_by_height Service.header_at
    Service.header_reply Blockchain.get_header_by_height
serves_tip = refl

finds_tip :
    attempt (Blockchain.get_header_by_height btcd (header_db env) wallet.service.chain 1)
    ≡ ok (some tip)
unfolding wallet_program Blockchain.get_header_by_height
finds_tip = refl

same_header :
    (sh : StoredHeader)
    → ◌≡◌ {A = Option StoredHeader} (some tip) (some sh)
    → some tip.header ≡ some sh.header
same_header sh h = ap (λ (x : StoredHeader). some x.header) (some-injective h)

writes_height : values.marshal (body_of (query_header_by_height_param 1)) ≡ some asks_header
unfolding body_of
writes_height = refl

get_header_from_spv-serve_example :
    get_header_from_spv values (client tip_answer) (self tip_answer) 1 ≡ ok tip.header
get_header_from_spv-serve_example =
    get_header_from_spv-serve texts (client tip_answer) (linked tip_answer) btcd (header_db env)
      peer_lib addr_lib (self tip_answer) asks_header wallet wallet genesis.header now 1 no_fields
      tip_answer (some tip) writes_height serves_tip refl finds_tip
      (λ sh h. ([], refl, same_header sh h)) (omega arith)

abbrev asks_broadcast : Value ℕ
asks_broadcast = one "raw_tx" (string "00")

writes_tx : values.marshal (body_of (broadcast_tx_req "00")) ≡ some asks_broadcast
unfolding body_of
writes_tx = refl

abbrev nothing_sent : Answer
nothing_sent = json (record {
  action = "broadcasttx";
  desc = "INTERNAL_ERROR";
  error = internal_error;
  result = no_result;
})

serves_nothing :
    serve texts btcd
      (header_db env)
      peer_lib
      addr_lib
      wallet
      genesis.header
      now
      post
      "/api/v1/broadcasttx"
      no_fields
      asks_broadcast
    ≡ ok (wallet, nothing_sent)
unfolding wallet_program Server.answer_post Server.routed Server.handle_body unmarshal_map as_map
    tx_of parse_string exact Service.broadcast_tx Service.broadcast_text Service.broadcast_bytes
    Service.broadcast_decoded
serves_nothing = refl

broadcast_tx_by_spv-serve_example :
    (broadcast_tx_by_spv values (client nothing_sent) (self nothing_sent) 5
      ≡ err (refused "INTERNAL_ERROR"))
    × (wallet ≡ wallet)
broadcast_tx_by_spv-serve_example =
    broadcast_tx_by_spv-serve texts (client nothing_sent) (linked nothing_sent) btcd (header_db env)
      peer_lib addr_lib (self nothing_sent) asks_broadcast wallet wallet genesis.header now
      no_fields nothing_sent 5 [] refl writes_tx serves_nothing refl

-- At a path without a handler the server answers that it is not found.
lost_post :
    (path : String) (body : Value ℕ) (w : Spv texts btcd (header_db env) peer_lib addr_lib)
    (answer : Answer)
    → find_path path post_map ≡ none
    → serve texts btcd
        (header_db env)
        peer_lib
        addr_lib
        wallet
        genesis.header
        now
        post
        path
        no_fields
        body
      ≡ ok (w, answer)
    → some (written texts not_found) ≡ some (written texts answer)
unfolding serve Server.routed
lost_post path body w answer p served =
    ap (λ (x : Spv texts btcd (header_db env) peer_lib addr_lib × Answer). some (written texts x.1))
      (ok-injective (rw p at served))

lost_get :
    (path : String) (body : Value ℕ) (w : Spv texts btcd (header_db env) peer_lib addr_lib)
    (answer : Answer)
    → find_path path get_map ≡ none
    → serve texts btcd
        (header_db env)
        peer_lib
        addr_lib
        wallet
        genesis.header
        now
        get
        path
        no_fields
        body
      ≡ ok (w, answer)
    → some (written texts not_found) ≡ some (written texts answer)
unfolding serve Server.routed
lost_get path body w answer p served =
    ap (λ (x : Spv texts btcd (header_db env) peer_lib addr_lib × Answer). some (written texts x.1))
      (ok-injective (rw p at served))

abbrev lost_client : ClientLib values
lost_client = client not_found

calls_unserved_example :
    (get_utxos_from_spv values lost_client (self not_found) "b" (pos 1) (pos 2) false
      ≡ err bad_json)
    × (change_spv_watched_addr values lost_client (self not_found) "b" "add" ≡ err bad_json)
    × (get_watched_addrs_from_spv values lost_client (self not_found) ≡ err bad_json)
    × (unlock_utxo_in_spv values lost_client (self not_found) "h" 0 ≡ err bad_json)
    × (get_fee_rate_from_spv values lost_client (self not_found) (pos 1) ≡ err bad_json)
    × (get_all_utxos_from_spv values lost_client (self not_found) ≡ err bad_json)
calls_unserved_example =
    calls_unserved texts lost_client (linked not_found) btcd (header_db env) peer_lib addr_lib
      wallet genesis.header now no_fields (self not_found) lost_post lost_get "b" "add" "h" (pos 1)
      (pos 2) (pos 1) false 0
