-- ===== src/Program.antt =====
-- The parts together: the wallet with its service and its peers, the watcher of cmd/run.go, and the
-- REST service.
pub mod Serves
use spvwallet.Prelude.{
  ℕ, ◌<◌, ◌^◌, ◌≡◌, refl, sym, ap, subst, ◌∙◌, Bool, Option, none, some, some-injective, List,
  Result, ok, ◌>>=◌, >>=-eq-ok, ok-injective,
}
use spvwallet.Chain.Types.{BlockHeader, StoredHeader, Error, Params, BtcdLaws, IsWire}
use spvwallet.Chain.Cache.{Env}
use spvwallet.Chain.HeaderDb.{HeaderDb, get_header}
use spvwallet.Chain.HeaderDb.Interface.{header_db}
use spvwallet.Chain.Blockchain
use spvwallet.Chain.Blockchain.{new_blockchain}
use spvwallet.Chain.Blockchain.Rooted.{Rooted}
use spvwallet.Chain.Session.{Chain, IsEmpty, root_of}
use spvwallet.Netserv.Types.{PeerLib}
use spvwallet.Netserv.Wire.{WireService, new_wire_service}
use spvwallet.Netserv.Wire.Session as Serving
use spvwallet.Netserv.Manager.{AddrLib, PeerManager, new_peer_manager}
use spvwallet.Wallet.{SpvWallet, with_service, new_spv_wallet, wallet_of, min_sync, start}
use spvwallet.Wallet.Watcher.{Watcher, new_watcher, tick}
use spvwallet.Rest.Service.{Parsers, RequestParams}
use spvwallet.Rest.Server.{Method, Answer, serve}
use Serves.{Spv, Watch, Ws, Served, tick-Served, serve-Served}
use Prim.Native.String.{String}

module _ (e : Env) (L : PeerLib) (A : AddrLib) (J : Parsers) where
  open e use {btcd}

  -- The running program: steps of the service, any events at the peers, requests, and rounds of the
  -- watcher.
  pub data Step : Watch e L A → Watch e L A → Type 0 where
    served :
        {r : Watch e L A} (ws : Ws e L A)
        → Serving.Step e L r.wallet.service ws
        → Step r (record r { wallet = with_service btcd (header_db e) L A r.wallet ws })
    peers :
        {r : Watch e L A} (pm : PeerManager A)
        → Step r (record r { wallet = record r.wallet { manager = pm } })
    request :
        {r : Watch e L A} (genesis : BlockHeader) (now : ℕ) (method : Method) (path : String)
        (query : RequestParams J) (body : J.json.Text) (w : Spv e L A) (answer : Answer)
        → serve J btcd (header_db e) L A r.wallet genesis now method path query body
          ≡ ok (w, answer)
        → Step r (record r { wallet = w })
    round :
        {r r' : Watch e L A} (genesis : BlockHeader) (now : ℕ)
        → tick btcd (header_db e) L A r genesis now ≡ ok r'
        → Step r r'

  pub data Reach (first : Watch e L A) : Watch e L A → Type 0 where
    here : Reach first first
    next : {r r' : Watch e L A} → Reach first r → Step r r' → Reach first r'

  Step-Served :
      (first : Ws e L A) {r r' : Watch e L A}
      → Step r r'
      → Served e L A first r.wallet
      → Served e L A first r'.wallet
  Step-Served first (served ws step) s = Serving.next s step
  Step-Served first (peers pm) s = s
  Step-Served first {r = r} (request genesis now method path query body w answer h) s =
      serve-Served e L A J first r.wallet genesis now method path query body (w, answer) h s
  Step-Served first {r = r} {r' = r'} (round genesis now h) s =
      tick-Served e L A first r r' genesis now h s

  Reach-Served :
      (first : Ws e L A) {r r' : Watch e L A}
      → Reach r r'
      → Served e L A first r.wallet
      → Served e L A first r'.wallet
  Reach-Served first here s = s
  Reach-Served first (next r step) s = Step-Served first step (Reach-Served first r s)

  wallet_of-service :
      (ws : Ws e L A) (pm : Option (PeerManager A)) (w : Spv e L A)
      → wallet_of btcd (header_db e) L A ws pm ≡ some w
      → w.service ≡ ws
  unfolding wallet_of
  wallet_of-service ws none w h = cc
  wallet_of-service ws (some pm) w h = sym (ap (λ (x : Spv e L A). x.service) (some-injective h))

  new-Served :
      (p : Params) (bc : Chain e) (heights : L.Heights) (book : A.Book) (port trusted : Option ℕ)
      (w : Spv e L A)
      → new_spv_wallet btcd (header_db e) L A p bc heights book port trusted ≡ some w
      → Served e L A (new_wire_service btcd (header_db e) L p bc (min_sync trusted) heights) w
  unfolding new_spv_wallet
  new-Served p bc heights book port trusted w h =
      subst
        (Serving.Reach e L (new_wire_service btcd (header_db e) L p bc (min_sync trusted) heights))
        (sym (wallet_of-service _ _ w h)) Serving.here

  watcher-wallet :
      (w : Spv e L A) (dura : ℕ) (r : Watch e L A)
      → new_watcher btcd (header_db e) L A w dura ≡ ok r
      → r.wallet ≡ w
  unfolding new_watcher
  watcher-wallet w dura r h =
      let (sh, at, f) = >>=-eq-ok (Blockchain.best_block btcd (header_db e) w.service.chain) _ h in
      sym (ap (λ (x : Watch e L A). x.wallet) (ok-injective f))

  start-Served :
      (first : Ws e L A) (w : Spv e L A)
      → Served e L A first w
      → Served e L A first (start btcd (header_db e) L A w)
  unfolding start
  start-Served first w s = s

  -- The program starts on an empty database, with a checkpoint that fits the wire format, over a btcd
  -- that has its documented laws. Whatever peers send, with headers that fit the wire format, whatever
  -- requests come, and whenever the watcher wakes, in any order: a header that is found afterwards is
  -- found under its own hash, and ends a chain from the checkpoint with links and proofs of work.
  pub program-Rooted :
      (d : HeaderDb e) (p : Params) (is_open : Bool) (genesis : BlockHeader) (now h dura : ℕ)
      (heights : L.Heights) (book : A.Book) (port trusted : Option ℕ) (bc : Chain e) (w : Spv e L A)
      (first r : Watch e L A) (sh : StoredHeader)
      → BtcdLaws btcd
      → IsEmpty e d
      → IsWire (root_of e genesis now p).header
      → (root_of e genesis now p).height < 2 ^ 32
      → new_blockchain btcd (header_db e) d p is_open genesis now ≡ ok bc
      → new_spv_wallet btcd (header_db e) L A p bc heights book port trusted ≡ some w
      → new_watcher btcd (header_db e) L A (start btcd (header_db e) L A w) dura ≡ ok first
      → Reach first r
      → get_header e r.wallet.service.chain.db h ≡ ok sh
      → Rooted btcd p (root_of e genesis now p) sh × (btcd.block_hash sh.header ≡ h)
  program-Rooted d p is_open genesis now h dura heights book port trusted bc w first r sh laws empty
        wire low made wallet watched reached found =
      let service = new_wire_service btcd (header_db e) L p bc (min_sync trusted) heights in
      Serving.served-Rooted e L d p is_open genesis now h (min_sync trusted) heights bc
        r.wallet.service sh laws empty wire low made
        (Reach-Served service reached (
          subst (Served e L A service) (sym (watcher-wallet _ dura first watched))
            (start-Served service w (new-Served p bc heights book port trusted w wallet))))
        found
