-- ===== src/Start/Services.antt =====
-- Which parts a run starts, and what a configured peer does to the wallet.
use spvwallet.Prelude.{
  ℕ, ◌≡◌, ◌≢◌, ◌⊎◌, inl, inr, refl, sym, ap, subst, ◌∙◌, ◌↔◌, ◌==◌, ==_iff, Bool-cases, Bool, true,
  false, Option, none, some, some-injective, List, Result, ok, err, panic, stuck, >>=-eq-ok,
  ok-injective,
}
use spvwallet.Prelude.Int.{pos_part}
use spvwallet.Config.{Config, is_on, StartError, new_config}
use spvwallet.Chain.Types.{BlockHeader, Net, Params}
use spvwallet.Chain.Cache.{Env}
use spvwallet.Chain.HeaderDb.Interface.{header_db}
use spvwallet.Chain.Session.{Chain}
use spvwallet.Alliance.Types.{Outside}
use spvwallet.Alliance.WaitingDb.{WaitingDb}
use spvwallet.Alliance.Voter.{Voter}
use spvwallet.Alliance.Signer.{Signer}
use spvwallet.Alliance.Setup.{KeyLib, new_signer}
use spvwallet.Netserv.Types.{PeerLib}
use spvwallet.Netserv.Wire.{new_wire_service}
use spvwallet.Netserv.Manager.{
  AddrLib, PeerManager, trusted_addr, get_new_address, address_of, new_peer_manager, manager_on,
  outbound,
}
use spvwallet.Wallet.{new_spv_wallet, wallet_of, min_sync, start}
use spvwallet.Wallet.Watcher.{new_watcher}
use spvwallet.Program.Serves.{Spv, Watch}
use spvwallet.Start.{
  Machine, Running, Alliance, spv_config, trusted_of, peer_addr, start_spv, open_wallet, add_signer,
  start_voter, start_observer, open_alliance, start_alliance_service, alliance_of, rest_of,
  start_server, rest_start, no_alliance, new_observer, new_voter, watch, run, or_chain_failed,
}
use spvwallet.Start.Begun.{run_cases, Begins, open_wallet_cases}
use Prim.Native.String.{String, ◌++◌}
use text.Mathlib.Text.{◌==◌ as same_text}

module _ (e : Env) (L : PeerLib) (A : AddrLib) (o : Outside) (K : KeyLib)
    (M : Machine e L A o K) where
  open e use {btcd}

  -- The parts of a service that runs: the signer only with the voter, and the voter only with the
  -- observer, on one database, with the redeem script of the configuration.
  pub record IsLinked (c : Config) (a : Alliance e L A o K) : Type 0 where
    pub signs : a.signer ≢ none → a.voter ≢ none
    pub votes :
        (v : Voter o) (redeem : List ℕ)
        → a.voter ≡ some (v, redeem)
        → (w : WaitingDb o) × (a.observer ≡ some (new_observer e L A o K c, w))
          × (v.db ≡ w)
          × (o.hex_decode c.redeem ≡ some redeem)

  no_alliance-IsLinked : (c : Config) → IsLinked c (no_alliance e L A o K)
  no_alliance-IsLinked c = record { signs = λ h. absurd (h refl); votes = λ v redeem h. cc }

  signer-IsLinked :
      (c : Config) (a : Alliance e L A o K) (r : Result StartError (Signer × List ℕ))
      (done : Alliance e L A o K × Option StartError)
      → a.voter ≢ none
      → IsLinked c a
      → add_signer e L A o K M a r ≡ ok done
      → IsLinked c done.0
  unfolding add_signer
  signer-IsLinked c a (ok s) done on l h =
      subst (λ (x : Alliance e L A o K × Option StartError). IsLinked c x.0) (ok-injective h)
        (record { signs = λ _. on; votes = l.votes })
  signer-IsLinked c a (err x) done on l h =
      subst (λ (x : Alliance e L A o K × Option StartError). IsLinked c x.0) (ok-injective h) l
  signer-IsLinked c a panic done on l h = cc
  signer-IsLinked c a stuck done on l h = cc

  voter-IsLinked :
      (c : Config) (net : Net) (w : WaitingDb o) (redeem : Option (List ℕ))
      (done : Alliance e L A o K × Option StartError)
      → o.hex_decode c.redeem ≡ redeem
      → start_voter e L A o K M
          (record (no_alliance e L A o K) { observer = some (new_observer e L A o K c, w) })
          w
          c
          net
          redeem
        ≡ ok done
      → IsLinked c done.0
  unfolding start_voter new_voter
  voter-IsLinked c net w none done p h =
      subst (λ (x : Alliance e L A o K × Option StartError). IsLinked c x.0) (ok-injective h)
        (record { signs = λ q. absurd (q refl); votes = λ v redeem q. cc })
  voter-IsLinked c net w (some redeem) done p h =
      signer-IsLinked c _ (new_signer K c.btc_privk_file net) done (λ q. cc)
        (record {
          signs = λ q. absurd (q refl);
          votes = λ v r q.
              let same = some-injective q in
              (
                w,
                refl,
                ap (λ (x : Voter o × List ℕ). x.0.db) (sym same),
                p ∙ ap (λ (x : Voter o × List ℕ). some x.1) same,
              );
        })
        h

  observer-IsLinked :
      (c : Config) (net : Net) (r : Result StartError (WaitingDb o))
      (done : Alliance e L A o K × Option StartError)
      → start_observer e L A o K M c net r ≡ ok done
      → IsLinked c done.0
  unfolding start_observer
  observer-IsLinked c net (ok w) done h = voter-IsLinked c net w (o.hex_decode c.redeem) done refl h
  observer-IsLinked c net (err x) done h =
      subst (λ (x : Alliance e L A o K × Option StartError). IsLinked c x.0) (ok-injective h)
        (no_alliance-IsLinked c)
  observer-IsLinked c net panic done h = cc
  observer-IsLinked c net stuck done h = cc

  alliance-IsLinked :
      (on : Bool) (c : Config) (net : Net) (a : Alliance e L A o K)
      → alliance_of e L A o K M on c net ≡ ok a
      → IsLinked c a × (on ≡ false → a ≡ no_alliance e L A o K)
  unfolding alliance_of start_alliance_service
  alliance-IsLinked false c net a h =
      (subst (IsLinked c) (ok-injective h) (no_alliance-IsLinked c), λ _. sym (ok-injective h))
  alliance-IsLinked true c net a h =
      let (done, p, q) =
        >>=-eq-ok (start_observer e L A o K M c net (open_alliance e L A o K M c)) _ h in
      (
        subst (IsLinked c) (ok-injective q)
            (observer-IsLinked c net (open_alliance e L A o K M c) done p),
        λ off. cc,
      )

  watch-none :
      (on : Bool) (c : Config) (w : Spv e L A) (r : Option (Watch e L A))
      → watch e L A o K M on c w ≡ ok r
      → r ≡ none
      → on ≡ false
  unfolding watch
  watch-none false c w r h n = refl
  watch-none true c w r h n =
      let (x, p, q) =
        >>=-eq-ok
          (or_chain_failed (new_watcher btcd (header_db e) L A w (pos_part c.restart_duration))) _
          h in
      cc (n, ok-injective q)

  -- What it takes to serve REST at a port.
  abbrev pub CanServe : Config → ℕ → Type 0
  CanServe c port =
      (is_on c.run_rest ≡ true) × (port ≡ c.rest_port) × (port ≢ 0) × (M.listens port ≡ true)

  rest-served :
      (on : Bool) (c : Config) (port : ℕ)
      → rest_of e L A o K M on c ≡ some port
      → (on ≡ true) × (port ≡ c.rest_port) × (port ≢ 0) × (M.listens port ≡ true)
  unfolding rest_of start_server rest_start
  rest-served false c port h = cc
  rest-served true c port h = elim (Bool-cases (c.rest_port == 0)) [
    | inl y ↦ cc (rw y at h)
    | inr n ↦ elim (Bool-cases (M.listens c.rest_port)) [
      | inl l ↦
          let same = some-injective (rw (n, l) at h) in
          (
            refl,
            sym same,
            λ z. cc (n, (==_iff c.rest_port 0).1 (same ∙ z)),
            ap M.listens (sym same) ∙ l,
          )
      | inr l ↦ cc (rw (n, l) at h)
    ]
  ]

  rest-serves :
      (on : Bool) (c : Config) (port : ℕ)
      → on ≡ true
      → port ≡ c.rest_port
      → port ≢ 0
      → M.listens port ≡ true
      → rest_of e L A o K M on c ≡ some port
  unfolding rest_of start_server rest_start
  rest-serves false c port h same set l = cc
  rest-serves true c port h same set l = elim (Bool-cases (c.rest_port == 0)) [
    | inl y ↦ absurd (set (same ∙ (==_iff c.rest_port 0).0 y))
    | inr n ↦ rw (n, ap M.listens (sym same) ∙ l) (ap some (sym same))
  ]

  -- A run without an error serves REST at a port exactly where the configuration turns it on and names
  -- that port, which is not 0 and can be listened at. It watches the chain where the configuration says
  -- so, and runs nothing of the alliance service where it does not. The signer runs only with the voter, and the
  -- voter only with the observer, on one database, and with the redeem script of the configuration.
  pub run_parts :
      (file : String) (genesis : BlockHeader) (now : ℕ) (c : Config) (r : Running e L A o K)
      → new_config M.files file ≡ ok c
      → run e L A o K M file genesis now ≡ ok r
      → ((port : ℕ) → r.rest ≡ some port ↔ CanServe c port)
        × (r.watcher ≡ none → is_on c.is_restart ≡ false)
        × (is_on c.run_vote ≡ false → r.alliance ≡ no_alliance e L A o K)
        × IsLinked c r.alliance
  run_parts file genesis now c r read ran =
      let (c', net, read', known, b) = run_cases e L A o K M file genesis now r ran in
      let begun : Begins e L A o K M file genesis now c net r =
        subst (λ (x : Config). Begins e L A o K M file genesis now x net r)
          (ok-injective (sym read' ∙ read)) b in
      let (linked, off) = alliance-IsLinked (is_on c.run_vote) c net r.alliance begun.alliance in
      let on = is_on c.run_rest in
      (
        λ port. (
          λ h. rest-served on c port (sym begun.rest ∙ h),
          λ (run, same, set, l). begun.rest ∙ rest-serves on c port run same set l,
        ),
        watch-none (is_on c.is_restart) c r.wallet r.watcher begun.watched,
        off,
        linked,
      )

  trusted_cases :
      (peer : String) (net : Net)
      → same_text peer "" ≡ false
      → (a : ℕ) × ((M.resolve_tcp_addr (peer ++ ":" ++ M.port_text net) ≡ some a)
          ⊎ ((M.resolve_tcp_addr (peer ++ ":" ++ M.port_text net) ≡ none) × (a ≡ M.nil_tcp_addr)))
        × (trusted_of e L A o K M peer net ≡ some a)
  unfolding trusted_of peer_addr
  trusted_cases peer net set = rw set (go (M.resolve_tcp_addr (peer ++ ":" ++ M.port_text net)))
    where
      go :
          (r : Option ℕ)
          → (a : ℕ) × ((r ≡ some a) ⊎ ((r ≡ none) × (a ≡ M.nil_tcp_addr)))
            × (peer_addr e L A o K M r ≡ some a)
      go none = (M.nil_tcp_addr, inr (refl, refl), refl)
      go (some a) = (a, inl refl, refl)

  wallet-trusted :
      (p : Params) (bc : Chain e) (heights : L.Heights) (book : A.Book) (port : Option ℕ) (a : ℕ)
      (w : Spv e L A)
      → new_spv_wallet btcd (header_db e) L A p bc heights book port (some a) ≡ some w
      → (w.service.min_peers_for_sync ≡ 1)
        × (w.manager.target_outbound ≡ 1)
        × (w.manager.trusted_peer ≡ some a)
  unfolding new_spv_wallet new_peer_manager manager_on outbound wallet_of min_sync new_wire_service
  wallet-trusted p bc heights book none a w h = cc
  wallet-trusted p bc heights book (some port) a w h =
      let same = some-injective h in
      (
        ap (λ (x : Spv e L A). x.service.min_peers_for_sync) (sym same),
        ap (λ (x : Spv e L A). x.manager.target_outbound) (sym same),
        ap (λ (x : Spv e L A). x.manager.trusted_peer) (sym same),
      )

  address_trusted :
      (pm : PeerManager A) (t a : ℕ)
      → pm.trusted_peer ≡ some a
      → get_new_address A pm t ≡ (some (trusted_addr a), pm)
  unfolding get_new_address address_of
  address_trusted pm t a h = rw h refl

  -- A wallet that starts with a configured peer waits for one peer and wants one connection, and
  -- every new address is that of the peer, or where it does not resolve the address of a nil pointer.
  pub start_spv-trusted :
      (c : Config) (net : Net) (genesis : BlockHeader) (now : ℕ) (w : Spv e L A)
      → same_text c.trusted_peer "" ≡ false
      → start_spv e L A o K M c net genesis now ≡ ok w
      → (a : ℕ) × ((M.resolve_tcp_addr (c.trusted_peer ++ ":" ++ M.port_text net) ≡ some a)
          ⊎ ((M.resolve_tcp_addr (c.trusted_peer ++ ":" ++ M.port_text net) ≡ none)
              × (a ≡ M.nil_tcp_addr)))
        × (w.service.min_peers_for_sync ≡ 1)
        × (w.manager.target_outbound ≡ 1)
        × ((t : ℕ) → get_new_address A w.manager t ≡ (some (trusted_addr a), w.manager))
  unfolding start_spv spv_config
  start_spv-trusted c net genesis now w set h =
      let (w0, p, q) =
        >>=-eq-ok (open_wallet e L A o K M (spv_config e L A o K M c net) genesis now) _ h in
      let opened = open_wallet_cases e L A o K M (spv_config e L A o K M c net) genesis now w0 p in
      let (a, from, is) = trusted_cases c.trusted_peer net set in
      let (one, single, peer) =
        wallet-trusted (M.params_of net) opened.chain M.no_heights
          (M.address_book (spv_config e L A o K M c net).repo_path) (M.port_number net) a w0
          (subst
            (λ x.
              new_spv_wallet btcd (header_db e) L A (M.params_of net) opened.chain M.no_heights
                (M.address_book (spv_config e L A o K M c net).repo_path) (M.port_number net) x
              ≡ some w0)
            is opened.wallet) in
      let begun : start btcd (header_db e) L A w0 ≡ w = ok-injective q in
      subst
        (λ (x : Spv e L A).
          (a : ℕ) × ((M.resolve_tcp_addr (c.trusted_peer ++ ":" ++ M.port_text net) ≡ some a)
            ⊎ ((M.resolve_tcp_addr (c.trusted_peer ++ ":" ++ M.port_text net) ≡ none)
                × (a ≡ M.nil_tcp_addr)))
          × (x.service.min_peers_for_sync ≡ 1)
          × (x.manager.target_outbound ≡ 1)
          × ((t : ℕ) → get_new_address A x.manager t ≡ (some (trusted_addr a), x.manager)))
        begun (unfold start in (a, from, one, single, λ t. address_trusted w0.manager t a peer))
