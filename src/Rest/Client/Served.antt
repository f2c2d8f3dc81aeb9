-- ===== src/Rest/Client/Served.antt =====
-- The client of the REST service against its server.
use spvwallet.Prelude.{
  ℕ, ◌^◌, ◌<◌, ◌≡◌, refl, sym, ap, ◌∙◌, Option, none, some, List, [], Result, ok, err, attempt,
  ◌>>=◌, ok-injective, Elem, inl, inr, arith,
}
use spvwallet.Chain.Types.{BlockHeader, StoredHeader, Btcd}
use spvwallet.Chain.Headers.{Headers}
use spvwallet.Chain.Blockchain
use spvwallet.Netserv.Types.{PeerLib}
use spvwallet.Netserv.Manager.{AddrLib}
use spvwallet.Rest.Service
use spvwallet.Rest.Service.{
  Parsers, RequestParams, and_then, as_map, unmarshal_map, parse_uint32, parse_string, height_of,
  tx_of, Payload, no_result, empty_result, header_result, height_result, Reply, Spv, internal_error,
  reply,
}
use spvwallet.Rest.Server
use spvwallet.Rest.Server.{
  Method, get, post, Answer, not_found, json, query_header_by_height, get_current_height,
  broadcast_tx, action_of, find_path, post_map, get_map, handle, handle_body, answer_get,
  answer_post, respond, routed, result_of, page, written, serve, err_map,
}
use spvwallet.Rest.Client.{
  ClientLib, RestClient, ClientError, refused, Request, body_of, unmarshal_response,
  query_header_by_height_param, broadcast_tx_req, Response, url, accept, find_field, field_of,
  as_string, as_number, send_rest_request, send_get_request, read_response, call, header_from,
  get_header_from_spv, get_current_height_from_spv, broadcast_tx_by_spv,
}
use spvwallet.Rest.Json.{
  JsonLaws, Value, string, number, integer, object, no_fields, field, tags, IsRead,
}
use spvwallet.Rest.Json.Tags.{exact, Tagged, candidates-exact}
use spvwallet.Prelude.Int.{pos}
use Prim.Native.String.{String}

-- What the libraries of the two sides do with the values that these exchange.
pub record Link (J : Parsers) (C : ClientLib J.json) : Type 0 where
  pub laws : JsonLaws J.json
  pub to_uint32-float_of : (n : ℕ) → n < 2 ^ 32 → C.to_uint32 (J.json.float_of (pos n)) ≡ n
  pub unmarshal_string-not_found :
      (tag : String) → J.json.unmarshal_string tag J.not_found_text ≡ none
  pub unmarshal_all_utxos-not_found : C.unmarshal_all_utxos J.not_found_text ≡ none
  pub decodes_nothing : J.hex_decode "" ≡ some []
  pub no_empty_tx : J.decode_tx [] ≡ none

module _ (J : Parsers) (C : ClientLib J.json) (link : Link J C) (b : Btcd) (H : Headers)
    (L : PeerLib) (A : AddrLib) where
  open link use {laws}

  abbrev State : Type 0
  State = Spv J b H L A

  -- The answer of the server, as the client takes it.
  abbrev taken : Reply → Response (Value J.json.Float)
  taken r = record { desc = err_map r.error; error = r.error; result = result_of J.json r.result }

  result_of-IsRead : (p : Payload) → IsRead (result_of J.json p)
  unfolding result_of
  result_of-IsRead no_result = tt
  result_of-IsRead empty_result = tt
  result_of-IsRead (header_result t) = tt
  result_of-IsRead (height_result n) = tt

  -- A response that is written is read again.
  read_page :
      (r : Server.Response) (t : J.json.Text)
      → r.error < 2 ^ 32
      → J.json.marshal (page J.json r) ≡ some t
      → unmarshal_response J.json t
        ≡ some (record { desc = r.desc; error = r.error; result = result_of J.json r.result })
  unfolding unmarshal_response page exact
  read_page r t low m =
      let fs = field "action" (string r.action) (
        field "desc" (string r.desc) (
          field "error" (integer (pos r.error))
            (field "result" (result_of J.json r.result) no_fields))) in
      let known : Tagged fs =
        (inl refl, (inr (inl refl), (inr (inr (inl refl)), (inr (inr (inr (inl refl))), tt)))) in
      let find =
        λ (tag : String) (is : Elem tag tags). candidates-exact J.json laws tag fs is known in
      rw
        (
          laws.unmarshal_string-has "action" r.action fs t m (find "action" known.0),
          laws.unmarshal_string-has "desc" r.desc fs t m (find "desc" known.1.0),
          laws.unmarshal_uint32-integer "error" r.error fs t low m (find "error" known.1.1.0),
          laws.unmarshal_any-has "result" (result_of J.json r.result) fs t
              (result_of-IsRead r.result) m (find "result" known.1.1.1.0),
        )
        refl

  read_answered :
      (name : String) (r : Reply) (answer : Answer)
      → r.error < 2 ^ 32
      → answer ≡ respond name r
      → read_response J.json C (written J answer) ≡ accept (taken r)
  unfolding read_response respond written
  read_answered name r answer low is =
      let sent : Server.Response = record {
        action = name;
        desc = err_map r.error;
        error = r.error;
        result = r.result;
      } in
      let (t, m) = laws.marshals (page J.json sent) in rw (is, m, read_page sent t low m) refl

  call_answered :
      (self : RestClient J.json C) (path : String) (body : J.json.Text) (req : Request)
      (name : String) (r : Reply) (answer : Answer)
      → r.error < 2 ^ 32
      → J.json.marshal (body_of req) ≡ some body
      → C.post self.rest_client (url self.addr path) body ≡ some (written J answer)
      → answer ≡ respond name r
      → call J.json C self path req ≡ accept (taken r)
  unfolding call send_rest_request
  call_answered self path body req name r answer low m sent is =
      rw (m, sent) (read_answered name r answer low is)

  -- The server reads the height that the client sends: both have the tag "height".
  reads_height :
      (height : ℕ) (body : J.json.Text)
      → height < 2 ^ 32
      → J.json.marshal (body_of (query_header_by_height_param height)) ≡ some body
      → (params : RequestParams J) × (unmarshal_map J body ≡ some params)
        × (height_of J params ≡ some height)
  unfolding body_of unmarshal_map as_map height_of parse_uint32 exact
  reads_height height body low m =
      let params = field "height" (number (J.json.float_of (pos height))) no_fields in
      let (t, again) = laws.marshals (object params) in
      let tag : Elem "height" tags = inr (inr (inr (inr (inl refl)))) in
      (
        params,
        rw (laws.unmarshal-integer "height" (pos height) body m) refl,
        rw again (
            laws.unmarshal_uint32-number "height" height params t low again
              (candidates-exact J.json laws "height" params tag (tag, tt))),
      )

  -- The server reads no transaction: its tag is "tx", and the client writes "raw_tx".
  reads_no_tx :
      (raw : String) (body : J.json.Text)
      → J.json.marshal (body_of (broadcast_tx_req raw)) ≡ some body
      → (params : RequestParams J) × (unmarshal_map J body ≡ some params)
        × (tx_of J params ≡ some "")
  unfolding body_of unmarshal_map as_map tx_of parse_string exact
  reads_no_tx raw body m =
      let params = field "raw_tx" (string raw) no_fields in
      let (t, again) = laws.marshals (object params) in
      let tx : Elem "tx" tags = inr (inr (inr (inr (inr (inl refl))))) in
      let raw_tx : Elem "raw_tx" tags = inr (inr (inr (inr (inr (inr (inl refl)))))) in
      (
        params,
        rw (laws.unmarshal-string "raw_tx" raw body m) refl,
        rw again (
            laws.unmarshal_string-lacks "tx" params t again
              (candidates-exact J.json laws "tx" params tx (raw_tx, tt))),
      )

  header_served :
      (w w' : State) (genesis : BlockHeader) (now height : ℕ) (body : J.json.Text)
      (query : RequestParams J) (answer : Answer) (found : Option StoredHeader)
      → J.json.marshal (body_of (query_header_by_height_param height)) ≡ some body
      → serve J b H L A w genesis now post "/api/v1/queryheaderbyheight" query body
        ≡ ok (w', answer)
      → attempt (Blockchain.get_header_by_height b H w.service.chain height) ≡ ok found
      → height < 2 ^ 32
      → answer ≡ respond "queryheaderbyheight" (Service.header_reply J b H L A found)
  unfolding serve routed answer_post find_path handle_body handle Service.query_header_by_height
      Service.header_at
  header_served w w' genesis now height body query answer found m served at low =
      let (params, read, is) = reads_height height body low m in
      ap (λ (x : State × Answer). x.1)
        (sym (ok-injective (rw (read, handle_body, is, Service.header_at, at) at served)))

  -- What a call for a header makes of the header that the blockchain finds.
  abbrev pub header_answer : Option StoredHeader → Result ClientError BlockHeader
  header_answer none = err (refused "INTERNAL_ERROR")
  header_answer (some sh) = ok sh.header

  accepted_header :
      (found : Option StoredHeader)
      → ((sh : StoredHeader)
          → found ≡ some sh
          → (bytes : List ℕ) × (C.hex_decode (J.encode_header sh.header) ≡ some bytes)
            × (C.decode_header bytes ≡ some sh.header))
      → (accept (taken (Service.header_reply J b H L A found)) >>= header_from J.json C)
        ≡ header_answer found
  unfolding Service.header_reply accept err_map result_of header_from field_of find_field as_string
  accepted_header none hex = refl
  accepted_header (some sh) hex = let (bytes, p, q) = hex sh refl in rw (p, q) refl

  header_reply-small :
      (found : Option StoredHeader) → (Service.header_reply J b H L A found).error < 2 ^ 32
  unfolding Service.header_reply
  header_reply-small none = omega arith
  header_reply-small (some sh) = omega arith

  height_reply-small :
      (best : Option StoredHeader) → (Service.height_reply J b H L A best).error < 2 ^ 32
  unfolding Service.height_reply
  height_reply-small none = omega arith
  height_reply-small (some sh) = omega arith

  -- GetHeaderFromSpv for a height on uint32, where the answer of the server over a wallet comes back, and where
  -- hex and btcd decode what they encode of the header: it returns the header that the blockchain
  -- finds at the height, or the error of the server where the blockchain finds none.
  pub get_header_from_spv-serve :
      (self : RestClient J.json C) (body : J.json.Text) (w w' : State) (genesis : BlockHeader)
      (now height : ℕ) (query : RequestParams J) (answer : Answer) (found : Option StoredHeader)
      → J.json.marshal (body_of (query_header_by_height_param height)) ≡ some body
      → serve J b H L A w genesis now post "/api/v1/queryheaderbyheight" query body
        ≡ ok (w', answer)
      → C.post self.rest_client (url self.addr "/api/v1/queryheaderbyheight") body
        ≡ some (written J answer)
      → attempt (Blockchain.get_header_by_height b H w.service.chain height) ≡ ok found
      → ((sh : StoredHeader)
          → found ≡ some sh
          → (bytes : List ℕ) × (C.hex_decode (J.encode_header sh.header) ≡ some bytes)
            × (C.decode_header bytes ≡ some sh.header))
      → height < 2 ^ 32
      → get_header_from_spv J.json C self height ≡ header_answer found
  unfolding get_header_from_spv
  get_header_from_spv-serve self body w w' genesis now height query answer found m served sent at
        hex low =
      ap (λ r. r >>= header_from J.json C)
        (call_answered self "/api/v1/queryheaderbyheight" body (query_header_by_height_param height)
          "queryheaderbyheight" (Service.header_reply J b H L A found) answer
          (header_reply-small found) m sent
          (header_served w w' genesis now height body query answer found m served at low))
      ∙ accepted_header found hex

  -- What a call for the height makes of the best header.
  abbrev pub height_answer : Option StoredHeader → Result ClientError ℕ
  height_answer none = err (refused "INTERNAL_ERROR")
  height_answer (some sh) = ok sh.height

  height_served :
      (w w' : State) (genesis : BlockHeader) (now : ℕ) (body : J.json.Text)
      (query : RequestParams J) (answer : Answer) (best : Option StoredHeader)
      → serve J b H L A w genesis now get "/api/v1/getcurrentheight" query body ≡ ok (w', answer)
      → attempt (Blockchain.best_block b H w.service.chain) ≡ ok best
      → answer ≡ respond "getcurrentheight" (Service.height_reply J b H L A best)
  unfolding serve routed answer_get find_path handle Service.get_current_height
  height_served w w' genesis now body query answer best served at =
      ap (λ (x : State × Answer). x.1) (sym (ok-injective (rw (at) at served)))

  accepted_height :
      (best : Option StoredHeader)
      → ((sh : StoredHeader) → best ≡ some sh → sh.height < 2 ^ 32)
      → (accept (taken (Service.height_reply J b H L A best)) >>= λ result.
          field_of "height" result >>= λ v. as_number v >>= λ x. ok (C.to_uint32 x))
        ≡ height_answer best
  unfolding Service.height_reply accept err_map result_of field_of find_field as_number
  accepted_height none low = refl
  accepted_height (some sh) low = ap ok (link.to_uint32-float_of sh.height (low sh refl))

  -- GetCurrentHeightFromSpv, where the answer of the server over a wallet comes back, and the best
  -- header has a height on uint32: it returns that height, or the error of the server where there is
  -- no best header.
  pub get_current_height_from_spv-serve :
      (self : RestClient J.json C) (body : J.json.Text) (w w' : State) (genesis : BlockHeader)
      (now : ℕ) (query : RequestParams J) (answer : Answer) (best : Option StoredHeader)
      → serve J b H L A w genesis now get "/api/v1/getcurrentheight" query body ≡ ok (w', answer)
      → C.get self.rest_client (url self.addr "/api/v1/getcurrentheight") ≡ some (written J answer)
      → attempt (Blockchain.best_block b H w.service.chain) ≡ ok best
      → ((sh : StoredHeader) → best ≡ some sh → sh.height < 2 ^ 32)
      → get_current_height_from_spv J.json C self ≡ height_answer best
  unfolding get_current_height_from_spv send_get_request
  get_current_height_from_spv-serve self body w w' genesis now query answer best served sent at
        low =
      rw sent (
        ap
          (λ r. r >>= λ result.
            field_of "height" result >>= λ v. as_number v >>= λ x. ok (C.to_uint32 x))
          (read_answered "getcurrentheight" (Service.height_reply J b H L A best) answer
            (height_reply-small best)
            (height_served w w' genesis now body query answer best served at))
        ∙ accepted_height best low)

  broadcast_served :
      (w w' : State) (genesis : BlockHeader) (now : ℕ) (raw : String) (body : J.json.Text)
      (query : RequestParams J) (answer : Answer)
      → J.json.marshal (body_of (broadcast_tx_req raw)) ≡ some body
      → serve J b H L A w genesis now post "/api/v1/broadcasttx" query body ≡ ok (w', answer)
      → (answer ≡ respond "broadcasttx" (reply internal_error no_result)) × (w' ≡ w)
  unfolding serve routed answer_post find_path handle_body handle Service.broadcast_tx
      Service.broadcast_text Service.broadcast_bytes Service.broadcast_decoded
  broadcast_served w w' genesis now raw body query answer m served =
      let (params, read, is) = reads_no_tx raw body m in
      let done = ok-injective (
        rw
          (
            read, handle_body, is, Service.broadcast_text, link.decodes_nothing,
            Service.broadcast_bytes, link.no_empty_tx, Service.broadcast_decoded,
          )
          at served) in
      (ap (λ (x : State × Answer). x.1) (sym done), ap (λ (x : State × Answer). x.0) (sym done))

  refused_reply :
      ◌≡◌ {A = Result ClientError (Unit {0})}
        (accept (taken (reply internal_error no_result)) >>= λ _. ok tt)
        (err (refused "INTERNAL_ERROR"))
  unfolding accept err_map
  refused_reply = refl

  -- BroadcastTxBySpv of any transaction that encodes, where the answer of the server over a wallet
  -- comes back: it returns the error of the server, and the wallet sends nothing, since the server
  -- reads a field that the client does not send.
  pub broadcast_tx_by_spv-serve :
      (self : RestClient J.json C) (body : J.json.Text) (w w' : State) (genesis : BlockHeader)
      (now : ℕ) (query : RequestParams J) (answer : Answer) (mtx : C.MsgTx) (bytes : List ℕ)
      → C.encode_tx mtx ≡ some bytes
      → J.json.marshal (body_of (broadcast_tx_req (C.hex_encode bytes))) ≡ some body
      → serve J b H L A w genesis now post "/api/v1/broadcasttx" query body ≡ ok (w', answer)
      → C.post self.rest_client (url self.addr "/api/v1/broadcasttx") body ≡ some (written J answer)
      → (broadcast_tx_by_spv J.json C self mtx ≡ err (refused "INTERNAL_ERROR")) × (w' ≡ w)
  unfolding broadcast_tx_by_spv
  broadcast_tx_by_spv-serve self body w w' genesis now query answer mtx bytes enc m served sent =
      let (is, same) =
        broadcast_served w w' genesis now (C.hex_encode bytes) body query answer m served in
      (
        rw
            (
              enc,
              call_answered self "/api/v1/broadcasttx" body (broadcast_tx_req (C.hex_encode bytes))
                  "broadcasttx" (reply internal_error no_result) answer
                  (unfold internal_error in omega arith) m sent is,
            )
            refused_reply,
        same,
      )
