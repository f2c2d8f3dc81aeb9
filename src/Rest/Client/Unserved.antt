-- ===== src/Rest/Client/Unserved.antt =====
-- The calls of the client at paths that the server does not have.
use spvwallet.Prelude.{ℕ, ◌≡◌, refl, Bool, none, some, ok, err}
use spvwallet.Prelude.Int.{ℤ}
use spvwallet.Chain.Types.{BlockHeader, Btcd}
use spvwallet.Chain.Headers.{Headers}
use spvwallet.Netserv.Types.{PeerLib}
use spvwallet.Netserv.Manager.{AddrLib}
use spvwallet.Rest.Service.{Parsers, RequestParams, Spv}
use spvwallet.Rest.Server.{
  get, post, Answer, not_found, find_path, post_map, get_map, routed, written, serve,
}
use spvwallet.Rest.Client.{
  ClientLib, RestClient, bad_json, Request, body_of, unmarshal_response, query_utxos_req,
  change_address_req, unlock_utxo_req, get_fee_per_byte_req, url, send_rest_request,
  send_get_request, read_response, call, get_utxos_from_spv, change_spv_watched_addr,
  get_watched_addrs_from_spv, unlock_utxo_in_spv, get_fee_rate_from_spv, get_all_utxos_from_spv,
}
use spvwallet.Rest.Client.Served.{Link}
use Prim.Native.String.{String}

module _ (J : Parsers) (C : ClientLib J.json) (link : Link J C) (b : Btcd) (H : Headers)
    (L : PeerLib) (A : AddrLib) (w : Spv J b H L A) (genesis : BlockHeader) (now : ℕ)
    (query : RequestParams J) (self : RestClient J.json C)
    (posts : (path : String) (body : J.json.Text) (w' : Spv J b H L A) (answer : Answer)
      → find_path path post_map ≡ none
      → serve J b H L A w genesis now post path query body ≡ ok (w', answer)
      → C.post self.rest_client (url self.addr path) body ≡ some (written J answer))
    (gets : (path : String) (body : J.json.Text) (w' : Spv J b H L A) (answer : Answer)
      → find_path path get_map ≡ none
      → serve J b H L A w genesis now get path query body ≡ ok (w', answer)
      → C.get self.rest_client (url self.addr path) ≡ some (written J answer)) where
  post_unserved :
      (path : String) (req : Request)
      → find_path path post_map ≡ none
      → call J.json C self path req ≡ err bad_json
  unfolding call send_rest_request read_response unmarshal_response written
  post_unserved path req p =
      let (body, m) = link.laws.marshals (body_of req) in
      let served : serve J b H L A w genesis now post path query body ≡ ok (w, not_found) =
        unfold serve routed in rw p refl in
      rw (m, posts path body w not_found p served, link.unmarshal_string-not_found "action") refl

  get_unserved :
      (path : String)
      → find_path path get_map ≡ none
      → C.get self.rest_client (url self.addr path) ≡ some (written J not_found)
  get_unserved path p = gets path J.empty_text w not_found p (unfold serve routed in rw p refl)

  -- Where the answers of the server over a wallet come back from paths that it does not have: the
  -- calls for utxos, for changing and listing the watched addresses, for unlocking, and for the fee
  -- rate return an error, since these paths have no handler and their answer is not JSON.
  pub calls_unserved :
      (a action hash : String) (amount fee level : ℤ) (is_pre_exec : Bool) (index : ℕ)
      → (get_utxos_from_spv J.json C self a amount fee is_pre_exec ≡ err bad_json)
        × (change_spv_watched_addr J.json C self a action ≡ err bad_json)
        × (get_watched_addrs_from_spv J.json C self ≡ err bad_json)
        × (unlock_utxo_in_spv J.json C self hash index ≡ err bad_json)
        × (get_fee_rate_from_spv J.json C self level ≡ err bad_json)
        × (get_all_utxos_from_spv J.json C self ≡ err bad_json)
  unfolding get_utxos_from_spv change_spv_watched_addr get_watched_addrs_from_spv unlock_utxo_in_spv
      get_fee_rate_from_spv get_all_utxos_from_spv find_path send_get_request read_response
      unmarshal_response written
  calls_unserved a action hash amount fee level is_pre_exec index = (
    rw (post_unserved "/api/v1/queryutxos" (query_utxos_req a amount fee is_pre_exec) refl) refl,
    rw (post_unserved "/api/v1/changeaddress" (change_address_req action a) refl) refl,
    rw (get_unserved "/api/v1/getalladdress" refl, link.unmarshal_string-not_found "action") refl,
    rw (post_unserved "/api/v1/unlockutxo" (unlock_utxo_req hash index) refl) refl,
    rw (post_unserved "/api/v1/getfeeperbyte" (get_fee_per_byte_req level) refl) refl,
    rw (get_unserved "/api/v1/getallutxos" refl, link.unmarshal_all_utxos-not_found) refl,
  )
