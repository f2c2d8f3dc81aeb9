-- ===== src/Program/Serves.antt =====
-- The watcher and the REST service change the wire service only by its own steps.
use spvwallet.Prelude.{
  ℕ, ◌-◌, ◌≡◌, ◌⊎◌, inl, inr, sym, ap, subst, ◌∙◌, Bool, true, false, Bool-cases, Option, none,
  some, some-injective, leb, Result, ok, attempt, >>=-eq-ok, ok-injective,
}
use spvwallet.Chain.Types.{BlockHeader, StoredHeader, Error}
use spvwallet.Chain.Cache.{Env}
use spvwallet.Chain.HeaderDb.Interface.{header_db}
use spvwallet.Chain.Blockchain
use spvwallet.Chain.Blockchain.{Blockchain, new_blockchain}
use spvwallet.Chain.Session
use spvwallet.Chain.Session.{Chain, IsEmpty, root_of}
use spvwallet.Netserv.Types.{PeerLib}
use spvwallet.Netserv.Wire.{WireService, new_wire_service}
use spvwallet.Netserv.Wire
use spvwallet.Netserv.Wire.Session as Serving
use spvwallet.Netserv.Wire.Syncing.{attempt_cases}
use spvwallet.Netserv.Manager.{AddrLib}
use spvwallet.Wallet
use spvwallet.Wallet.{
  SpvWallet, with_service, with_chain, or_same_chain, new_spv_wallet, wallet_of, min_sync,
}
use spvwallet.Wallet.Watcher.{three_hours, Watcher, restart, rolled_back, stalled, look, fire, tick}
use spvwallet.Rest.Service
use spvwallet.Rest.Service.{Parsers, RequestParams, unmarshal_map, time_of, Reply}
use spvwallet.Rest.Server.{
  Method, get, post, options, other_method, Endpoint, query_header_by_height, get_current_height,
  rollback, broadcast_tx, Answer, handle, handle_body, answer_post, routed, find_path, post_map,
  serve,
}
use spvwallet.Rest.Server.Changes.{Spared, handle-Allowed, serve_spares}
use Prim.Native.String.{String}

module _ (e : Env) (L : PeerLib) (A : AddrLib) where
  open e use {btcd}

  abbrev pub Spv : Type 0
  Spv = SpvWallet btcd (header_db e) L A

  abbrev pub Watch : Type 0
  Watch = Watcher btcd (header_db e) L A

  abbrev pub Ws : Type 0
  Ws = WireService btcd (header_db e) L

  -- The service of a wallet is reached by steps of the service.
  abbrev pub Served : Ws → Spv → Type 0
  Served first w = Serving.Reach e L first w.service

  re_sync-Served :
      (first : Ws) (w w' : Spv) (now : ℕ)
      → Wallet.re_sync btcd (header_db e) L A w now ≡ ok w'
      → Served first w
      → Served first w'
  unfolding Wallet.re_sync
  re_sync-Served first w w' now h r =
      let (ws, at, f) = >>=-eq-ok (Wire.resync_with_nil btcd (header_db e) L w.service now) _ h in
      subst (Served first) (ok-injective f) (Serving.next r (Serving.again_nil now at))

  rolled-Served :
      (first : Ws) (w : Spv) (bc : Chain e) (genesis : BlockHeader) (now t : ℕ)
      → Blockchain.rollback btcd (header_db e) w.service.chain genesis now t ≡ ok bc
      → Served first w
      → Served first (with_chain btcd (header_db e) L A w bc)
  unfolding Blockchain.rollback
  rolled-Served first w bc genesis now t h r =
      Serving.next r (Serving.chain_step bc (Session.roll 1_000_000_000 genesis now t h))

  resync_blockchain-Served :
      (first : Ws) (w w' : Spv) (genesis : BlockHeader) (now t : ℕ)
      → Wallet.resync_blockchain btcd (header_db e) L A w genesis now t ≡ ok w'
      → Served first w
      → Served first w'
  unfolding Wallet.resync_blockchain or_same_chain
  resync_blockchain-Served first w w' genesis now t h r =
      let tried = Blockchain.rollback btcd (header_db e) w.service.chain genesis now t in
      let (done, at, f) = >>=-eq-ok (attempt tried) _ h in
      let mid = or_same_chain btcd (header_db e) L A w done in
      let (ws, synced, g) = >>=-eq-ok (Wire.resync btcd (header_db e) L mid.service now) _ f in
      let before : Served first mid = elim (attempt_cases tried done at) [
        | inl (bc, rolled, is) ↦
            subst (λ x. Served first (or_same_chain btcd (header_db e) L A w x)) (sym is)
              (rolled-Served first w bc genesis now t rolled r)
        | inr (x, failed, is) ↦
            subst (λ x. Served first (or_same_chain btcd (header_db e) L A w x)) (sym is) r
      ] in
      subst (Served first) (ok-injective g) (Serving.next before (Serving.again now synced))

  -- The rounds of the watcher.
  restart-Served :
      (first : Ws) (r r' : Watch) (now height : ℕ) (again : Bool)
      → restart btcd (header_db e) L A r now height again ≡ ok r'
      → Served first r.wallet
      → Served first r'.wallet
  unfolding restart
  restart-Served first r r' now height again h s =
      let (w, at, f) = >>=-eq-ok (Wallet.re_sync btcd (header_db e) L A r.wallet now) _ h in
      subst (λ (x : Watch). Served first x.wallet) (ok-injective f)
        (re_sync-Served first r.wallet w now at s)

  stalled-Served :
      (first : Ws) (r r' : Watch) (genesis : BlockHeader) (now : ℕ) (sh : StoredHeader) (a : Bool)
      → stalled btcd (header_db e) L A r genesis now sh a ≡ ok r'
      → Served first r.wallet
      → Served first r'.wallet
  unfolding stalled rolled_back
  stalled-Served first r r' genesis now sh false h s =
      restart-Served first r r' now sh.height true h s
  stalled-Served first r r' genesis now sh true h s =
      let t = sh.header.timestamp - three_hours in
      let tried = Blockchain.rollback btcd (header_db e) r.wallet.service.chain genesis now t in
      let (done, at, f) = >>=-eq-ok (attempt tried) _ h in
      elim (attempt_cases tried done at) [
        | inl (bc, rolled, is) ↦
            restart-Served first
              (record r { wallet = with_chain btcd (header_db e) L A r.wallet bc }) r' now sh.height
              false (ap (rolled_back btcd (header_db e) L A r now sh.height) (sym is) ∙ f)
              (rolled-Served first r.wallet bc genesis now t rolled s)
        | inr (x, failed, is) ↦
            subst (λ (y : Watch). Served first y.wallet)
              (ok-injective (ap (rolled_back btcd (header_db e) L A r now sh.height) (sym is) ∙ f))
              s
      ]

  look-Served :
      (first : Ws) (r r' : Watch) (genesis : BlockHeader) (now : ℕ) (best : Option StoredHeader)
      → look btcd (header_db e) L A r genesis now best ≡ ok r'
      → Served first r.wallet
      → Served first r'.wallet
  unfolding look
  look-Served first r r' genesis now none h s =
      subst (λ (y : Watch). Served first y.wallet) (ok-injective h) s
  look-Served first r r' genesis now (some sh) h s =
      elim (Bool-cases (leb sh.height r.last_height)) [
        | inl low ↦ stalled-Served first r r' genesis now sh r.again (rw low at h) s
        | inr high ↦ subst (λ (y : Watch). Served first y.wallet) (ok-injective (rw high at h)) s
      ]

  fire-Served :
      (first : Ws) (r r' : Watch) (genesis : BlockHeader) (now : ℕ) (t : Option ℕ)
      → fire btcd (header_db e) L A r genesis now t ≡ ok r'
      → Served first r.wallet
      → Served first r'.wallet
  unfolding fire
  fire-Served first r r' genesis now none h s =
      subst (λ (y : Watch). Served first y.wallet) (ok-injective h) s
  fire-Served first r r' genesis now (some t) h s =
      let (best, at, f) =
        >>=-eq-ok (attempt (Blockchain.best_block btcd (header_db e) r.wallet.service.chain)) _ h in
      look-Served first r r' genesis now best f s

  pub tick-Served :
      (first : Ws) (r r' : Watch) (genesis : BlockHeader) (now : ℕ)
      → tick btcd (header_db e) L A r genesis now ≡ ok r'
      → Served first r.wallet
      → Served first r'.wallet
  unfolding tick
  tick-Served first r r' genesis now h s = fire-Served first r r' genesis now r.timer h s

  -- Requests.
  rollback_at-Served :
      (J : Parsers) (first : Ws) (w : Spv) (genesis : BlockHeader) (now : ℕ) (t : Option ℕ)
      (out : Spv × Reply)
      → Service.rollback_at J btcd (header_db e) L A w genesis now t ≡ ok out
      → Served first w
      → Served first out.0
  unfolding Service.rollback_at
  rollback_at-Served J first w genesis now none out h s =
      subst (λ (x : Spv × Reply). Served first x.0) (ok-injective h) s
  rollback_at-Served J first w genesis now (some t) out h s =
      let (w', at, f) =
        >>=-eq-ok (Wallet.resync_blockchain btcd (header_db e) L A w genesis now t) _ h in
      subst (λ (x : Spv × Reply). Served first x.0) (ok-injective f)
        (resync_blockchain-Served first w w' genesis now t at s)

  rollback_to-Served :
      (J : Parsers) (first : Ws) (w : Spv) (genesis : BlockHeader) (now : ℕ) (t : Option String)
      (out : Spv × Reply)
      → Service.rollback_to J btcd (header_db e) L A w genesis now t ≡ ok out
      → Served first w
      → Served first out.0
  unfolding Service.rollback_to
  rollback_to-Served J first w genesis now none out h s =
      subst (λ (x : Spv × Reply). Served first x.0) (ok-injective h) s
  rollback_to-Served J first w genesis now (some text) out h s =
      rollback_at-Served J first w genesis now (J.parse_time text) out h s

  rollback-Served :
      (J : Parsers) (first : Ws) (w : Spv) (genesis : BlockHeader) (now : ℕ)
      (params : RequestParams J) (out : Spv × Reply)
      → Service.rollback J btcd (header_db e) L A w genesis now params ≡ ok out
      → Served first w
      → Served first out.0
  unfolding Service.rollback
  rollback-Served J first w genesis now params out h s =
      let (_, _, f) = >>=-eq-ok (Wallet.chain_tip btcd (header_db e) L A w) _ h in
      let (mid, at, g) =
        >>=-eq-ok (Service.rollback_to J btcd (header_db e) L A w genesis now (time_of J params)) _
          f in
      let (_, _, k) = >>=-eq-ok (Wallet.chain_tip btcd (header_db e) L A mid.0) _ g in
      subst (λ (x : Spv × Reply). Served first x.0) (ok-injective k)
        (rollback_to-Served J first w genesis now (time_of J params) mid at s)

  Spared-Served :
      (J : Parsers) (first : Ws) (w w' : Spv)
      → Spared J btcd (header_db e) L A w w'
      → Served first w
      → Served first w'
  Spared-Served J first w w' f s = subst (Serving.Reach e L first) (sym f.same_service) s

  handle-Served :
      (J : Parsers) (first : Ws) (w : Spv) (genesis : BlockHeader) (now : ℕ) (x : Endpoint)
      (params : RequestParams J) (out : Spv × Reply)
      → handle J btcd (header_db e) L A w genesis now x params ≡ ok out
      → (x ≡ rollback) ⊎ Spared J btcd (header_db e) L A w out.0
      → Served first w
      → Served first out.0
  unfolding handle
  handle-Served J first w genesis now x params out h (inr f) s = Spared-Served J first w out.0 f s
  handle-Served J first w genesis now rollback params out h (inl is) s =
      rollback-Served J first w genesis now params out h s
  handle-Served J first w genesis now query_header_by_height params out h (inl is) s = cc
  handle-Served J first w genesis now broadcast_tx params out h (inl is) s = cc
  handle-Served J first w genesis now get_current_height params out h (inl is) s = cc

  body-Served :
      (J : Parsers) (first : Ws) (w : Spv) (genesis : BlockHeader) (now : ℕ) (x : Endpoint)
      (o : Option (RequestParams J)) (out : Spv × Reply)
      → handle_body J btcd (header_db e) L A w genesis now x o ≡ ok out
      → Served first w
      → Served first out.0
  unfolding handle_body
  body-Served J first w genesis now x none out h s =
      subst (λ (y : Spv × Reply). Served first y.0) (ok-injective h) s
  body-Served J first w genesis now x (some params) out h s =
      handle-Served J first w genesis now x params out h
        (elim (handle-Allowed J btcd (header_db e) L A w genesis now x params out h) [
          | inl f ↦ inr f
          | inr is ↦ inl (some-injective is)
        ])
        s

  post-Served :
      (J : Parsers) (first : Ws) (w : Spv) (genesis : BlockHeader) (now : ℕ) (body : J.json.Text)
      (o : Option Endpoint) (out : Spv × Answer)
      → answer_post J btcd (header_db e) L A w genesis now body o ≡ ok out
      → Served first w
      → Served first out.0
  unfolding answer_post
  post-Served J first w genesis now body none out h s =
      subst (λ (y : Spv × Answer). Served first y.0) (ok-injective h) s
  post-Served J first w genesis now body (some x) out h s =
      let (mid, at, f) =
        >>=-eq-ok (handle_body J btcd (header_db e) L A w genesis now x (unmarshal_map J body)) _
          h in
      subst (λ (y : Spv × Answer). Served first y.0) (ok-injective f)
        (body-Served J first w genesis now x (unmarshal_map J body) mid at s)

  routed-Served :
      (J : Parsers) (first : Ws) (w : Spv) (o : Option Endpoint)
      (handled : Result Error (Spv × Answer)) (out : Spv × Answer)
      → (handled ≡ ok out → Served first out.0)
      → routed J btcd (header_db e) L A w o handled ≡ ok out
      → Served first w
      → Served first out.0
  unfolding routed
  routed-Served J first w none handled out f h s =
      subst (λ (y : Spv × Answer). Served first y.0) (ok-injective h) s
  routed-Served J first w (some x) handled out f h s = f h

  pub serve-Served :
      (J : Parsers) (first : Ws) (w : Spv) (genesis : BlockHeader) (now : ℕ) (method : Method)
      (path : String) (query : RequestParams J) (body : J.json.Text) (out : Spv × Answer)
      → serve J btcd (header_db e) L A w genesis now method path query body ≡ ok out
      → Served first w
      → Served first out.0
  unfolding serve
  serve-Served J first w genesis now post path query body out h s =
      routed-Served J first w (find_path path post_map) _ out
        (λ k. post-Served J first w genesis now body (find_path path post_map) out k s) h s
  serve-Served J first w genesis now get path query body out h s =
      elim (serve_spares J btcd (header_db e) L A w genesis now get path query body out h) [
        | inl f ↦ Spared-Served J first w out.0 f s
        | inr (is, _) ↦ cc
      ]
  serve-Served J first w genesis now options path query body out h s =
      elim (serve_spares J btcd (header_db e) L A w genesis now options path query body out h) [
        | inl f ↦ Spared-Served J first w out.0 f s
        | inr (is, _) ↦ cc
      ]
  serve-Served J first w genesis now other_method path query body out h s =
      elim (serve_spares J btcd (header_db e) L A w genesis now other_method path query body out
        h) [ inl f ↦ Spared-Served J first w out.0 f s | inr (is, _) ↦ cc ]
