-- ===== src/Rest/Server/Changes.antt =====
-- What a request may change in the wallet.
use spvwallet.Prelude.{
  ℕ, ◌≡◌, ◌≢◌, Bool-cases, ◌⊎◌, inl, inr, refl, sym, ap, subst, ◌∙◌, Option, none, some, List,
  Result, ok, err, attempt, >>=-eq-ok, ok-injective,
}
use spvwallet.Chain.Types.{BlockHeader, Error, Btcd}
use spvwallet.Chain.Headers.{Headers}
use spvwallet.Chain.Blockchain
use spvwallet.Netserv.Types.{PeerLib}
use spvwallet.Netserv.Manager.{AddrLib}
use spvwallet.Netserv.Wire
use spvwallet.Netserv.Wire.Syncing.{start_sync-Synced}
use spvwallet.Wallet
use spvwallet.Wallet.{SpvWallet, or_same_chain}
use spvwallet.Rest.Service
use spvwallet.Rest.Service.{
  Parsers, RequestParams, unmarshal_map, time_of, tx_of, success, no_result, Reply, reply,
}
use spvwallet.Rest.Server.{
  Method, get, post, options, other_method, Endpoint, query_header_by_height, get_current_height,
  rollback, broadcast_tx, Answer, empty_body, routed, handle, handle_body, answer_get, answer_post,
  find_path, get_map, post_map, serve,
}
use Prim.Native.String.{String}
use text.Mathlib.Text.{◌==◌ as same_text}

get_map-no_rollback : (path : String) → find_path path get_map ≢ some rollback
unfolding find_path
get_map-no_rollback path h = elim (Bool-cases (same_text "/api/v1/getcurrentheight" path)) [
  | inl y ↦ cc (rw y at h)
  | inr n ↦ cc (rw n at h)
]

module _ (J : Parsers) (b : Btcd) (H : Headers) (L : PeerLib) (A : AddrLib) where
  abbrev State : Type 0
  State = SpvWallet b H L A

  -- The wire service, the blockchain in it, and the peers stay as they are.
  pub record Spared (w w' : State) : Type 0 where
    pub same_service : w'.service ≡ w.service
    pub same_manager : w'.manager ≡ w.manager
    pub same_running : w'.running ≡ w.running

  Spared-refl : (w : State) → Spared w w
  Spared-refl w = record { same_service = refl; same_manager = refl; same_running = refl }

  -- Only the rollback goes on to more than a queue of transactions.
  abbrev pub Allowed : Option Endpoint → State → State → Type 0
  Allowed e w w' = Spared w w' ⊎ (e ≡ some rollback)

  decoded-Spared : (w : State) (o : Option ℕ) → Spared w (Service.broadcast_decoded J b H L A w o).0
  unfolding Service.broadcast_decoded Wallet.broadcast
  decoded-Spared w none = Spared-refl w
  decoded-Spared w (some tx) = record {
    same_service = refl;
    same_manager = refl;
    same_running = refl;
  }

  bytes-Spared :
      (w : State) (o : Option (List ℕ)) → Spared w (Service.broadcast_bytes J b H L A w o).0
  unfolding Service.broadcast_bytes
  bytes-Spared w none = Spared-refl w
  bytes-Spared w (some bytes) = decoded-Spared w (J.decode_tx bytes)

  text-Spared : (w : State) (o : Option String) → Spared w (Service.broadcast_text J b H L A w o).0
  unfolding Service.broadcast_text
  text-Spared w none = Spared-refl w
  text-Spared w (some text) = bytes-Spared w (J.hex_decode text)

  pub handle-Allowed :
      (w : State) (genesis : BlockHeader) (now : ℕ) (e : Endpoint) (params : RequestParams J)
      (out : State × Reply)
      → handle J b H L A w genesis now e params ≡ ok out
      → Allowed (some e) w out.0
  unfolding handle Service.broadcast_tx
  handle-Allowed w genesis now query_header_by_height params out h =
      let (r, at, e) = >>=-eq-ok (Service.query_header_by_height J b H L A w params) _ h in
      inl (subst (λ (x : State × Reply). Spared w x.0) (ok-injective e) (Spared-refl w))
  handle-Allowed w genesis now get_current_height params out h =
      let (r, at, e) = >>=-eq-ok (Service.get_current_height J b H L A w) _ h in
      inl (subst (λ (x : State × Reply). Spared w x.0) (ok-injective e) (Spared-refl w))
  handle-Allowed w genesis now rollback params out h = inr refl
  handle-Allowed w genesis now broadcast_tx params out h = inl (
      subst (λ (x : State × Reply). Spared w x.0) (ok-injective h) (text-Spared w (tx_of J params)))

  body-Allowed :
      (w : State) (genesis : BlockHeader) (now : ℕ) (e : Endpoint) (o : Option (RequestParams J))
      (out : State × Reply)
      → handle_body J b H L A w genesis now e o ≡ ok out
      → Allowed (some e) w out.0
  unfolding handle_body
  body-Allowed w genesis now e none out h =
      inl (subst (λ (x : State × Reply). Spared w x.0) (ok-injective h) (Spared-refl w))
  body-Allowed w genesis now e (some params) out h = handle-Allowed w genesis now e params out h

  get-Allowed :
      (w : State) (genesis : BlockHeader) (now : ℕ) (query : RequestParams J) (o : Option Endpoint)
      (out : State × Answer)
      → answer_get J b H L A w genesis now query o ≡ ok out
      → Allowed o w out.0
  unfolding answer_get
  get-Allowed w genesis now query none out h =
      inl (subst (λ (x : State × Answer). Spared w x.0) (ok-injective h) (Spared-refl w))
  get-Allowed w genesis now query (some e) out h =
      let (mid, at, f) = >>=-eq-ok (handle J b H L A w genesis now e query) _ h in
      subst (λ (x : State × Answer). Allowed (some e) w x.0) (ok-injective f)
        (handle-Allowed w genesis now e query mid at)

  post-Allowed :
      (w : State) (genesis : BlockHeader) (now : ℕ) (body : J.json.Text) (o : Option Endpoint)
      (out : State × Answer)
      → answer_post J b H L A w genesis now body o ≡ ok out
      → Allowed o w out.0
  unfolding answer_post
  post-Allowed w genesis now body none out h =
      inl (subst (λ (x : State × Answer). Spared w x.0) (ok-injective h) (Spared-refl w))
  post-Allowed w genesis now body (some e) out h =
      let (mid, at, f) =
        >>=-eq-ok (handle_body J b H L A w genesis now e (unmarshal_map J body)) _ h in
      subst (λ (x : State × Answer). Allowed (some e) w x.0) (ok-injective f)
        (body-Allowed w genesis now e (unmarshal_map J body) mid at)

  routed-Allowed :
      (w : State) (o : Option Endpoint) (handled : Result Error (State × Answer))
      (out : State × Answer)
      → (handled ≡ ok out → Allowed o w out.0)
      → routed J b H L A w o handled ≡ ok out
      → Allowed o w out.0
  unfolding routed
  routed-Allowed w none handled out f h =
      inl (subst (λ (x : State × Answer). Spared w x.0) (ok-injective h) (Spared-refl w))
  routed-Allowed w (some e) handled out f h = f h

  options-Spared :
      (w : State) (o : Option Endpoint) (out : State × Answer)
      → routed J b H L A w o (ok (w, empty_body)) ≡ ok out
      → Spared w out.0
  unfolding routed
  options-Spared w none out h =
      subst (λ (x : State × Answer). Spared w x.0) (ok-injective h) (Spared-refl w)
  options-Spared w (some e) out h =
      subst (λ (x : State × Answer). Spared w x.0) (ok-injective h) (Spared-refl w)

  -- Whatever the request: the wire service, the blockchain and the peers stay as they are, unless it
  -- is a POST to the path of the rollback.
  pub serve_spares :
      (w : State) (genesis : BlockHeader) (now : ℕ) (method : Method) (path : String)
      (query : RequestParams J) (body : J.json.Text) (out : State × Answer)
      → serve J b H L A w genesis now method path query body ≡ ok out
      → Spared w out.0 ⊎ ((method ≡ post) × (find_path path post_map ≡ some rollback))
  unfolding serve
  serve_spares w genesis now get path query body out h =
      elim (routed-Allowed w (find_path path get_map) _ out
        (get-Allowed w genesis now query (find_path path get_map) out) h) [
          | inl s ↦ inl s
          | inr e ↦ absurd (get_map-no_rollback path e)
        ]
  serve_spares w genesis now post path query body out h =
      elim (routed-Allowed w (find_path path post_map) _ out
        (post-Allowed w genesis now body (find_path path post_map) out) h) [
          | inl s ↦ inl s
          | inr e ↦ inr (refl, e)
        ]
  serve_spares w genesis now options path query body out h =
      inl (options-Spared w (find_path path post_map) out h)
  serve_spares w genesis now other_method path query body out h =
      inl (subst (λ (x : State × Answer). Spared w x.0) (ok-injective h) (Spared-refl w))

  failed_resync-chain :
      (w w' : State) (genesis : BlockHeader) (now t : ℕ) (x : Error)
      → Blockchain.rollback b H w.service.chain genesis now t ≡ err x
      → Wallet.resync_blockchain b H L A w genesis now t ≡ ok w'
      → w'.service.chain ≡ w.service.chain
  unfolding Wallet.resync_blockchain or_same_chain Wire.resync
  failed_resync-chain w w' genesis now t x failed h =
      let (done, at, e) =
        >>=-eq-ok (attempt (Blockchain.rollback b H w.service.chain genesis now t)) _ h in
      let kept : done ≡ none = sym (ok-injective (sym (ap attempt failed) ∙ at)) in
      let mid = or_same_chain b H L A w done in
      let (ws, synced, f) = >>=-eq-ok (Wire.resync b H L mid.service now) _ e in
      ap (λ (y : State). y.service.chain) (sym (ok-injective f))
      ∙ (start_sync-Synced b H L mid.service ws now mid.service.sync_peer synced).same_chain
      ∙ ap (λ d. (or_same_chain b H L A w d).service.chain) kept

  to_date-failed :
      (w : State) (genesis : BlockHeader) (now t : ℕ) (x : Error) (o : Option String)
      (text : String) (out : State × Reply)
      → o ≡ some text
      → J.parse_time text ≡ some t
      → Blockchain.rollback b H w.service.chain genesis now t ≡ err x
      → Service.rollback_to J b H L A w genesis now o ≡ ok out
      → (out.1 ≡ reply success no_result) × (out.0.service.chain ≡ w.service.chain)
  unfolding Service.rollback_to Service.rollback_at
  to_date-failed w genesis now t x o text out is_text is_date failed h =
      let at =
        ap (Service.rollback_at J b H L A w genesis now) (sym is_date)
        ∙ ap (Service.rollback_to J b H L A w genesis now) (sym is_text)
        ∙ h in
      let (w', done, e) = >>=-eq-ok (Wallet.resync_blockchain b H L A w genesis now t) _ at in
      let same = sym (ok-injective e) in
      (
        ap (λ (y : State × Reply). y.1) same,
        ap (λ (y : State × Reply). y.0.service.chain) same
            ∙ failed_resync-chain w w' genesis now t x failed done,
      )

  -- A request with a date at which the rollback of the blockchain fails: the answer has the code of
  -- success all the same, and the chain stays as it is.
  pub rollback-failed :
      (w : State) (genesis : BlockHeader) (now t : ℕ) (x : Error) (params : RequestParams J)
      (text : String) (out : State × Reply)
      → time_of J params ≡ some text
      → J.parse_time text ≡ some t
      → Blockchain.rollback b H w.service.chain genesis now t ≡ err x
      → Service.rollback J b H L A w genesis now params ≡ ok out
      → (out.1 ≡ reply success no_result) × (out.0.service.chain ≡ w.service.chain)
  unfolding Service.rollback
  rollback-failed w genesis now t x params text out is_text is_date failed h =
      let (_, _, e) = >>=-eq-ok (Wallet.chain_tip b H L A w) _ h in
      let (mid, at, f) =
        >>=-eq-ok (Service.rollback_to J b H L A w genesis now (time_of J params)) _ e in
      let (_, _, g) = >>=-eq-ok (Wallet.chain_tip b H L A mid.0) _ f in
      subst
        (λ (y : State × Reply).
          (y.1 ≡ reply success no_result) × (y.0.service.chain ≡ w.service.chain))
        (ok-injective g)
        (to_date-failed w genesis now t x (time_of J params) text mid is_text is_date failed at)
