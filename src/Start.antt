-- ===== src/Start.antt =====
-- run of cmd/run.go: from the configuration to the running parts. The goroutines that it starts are the
-- state of each part as it begins.
pub mod Begun
pub mod Services
use spvwallet.Prelude.{
  ℕ, Bool, true, false, not, Option, none, some, List, [], ◌==◌, ltb, if◌then◌else◌, Result, ok,
  err, panic, stuck, ◌>>=◌,
}
use spvwallet.Prelude.Int.{ℤ, pos_part}
use spvwallet.Config.{
  Config, is_on, StartError, wrong_net, db_failed, peers_failed, chain_failed, redeem_failed,
  or_error, Files, new_config,
}
use spvwallet.Chain.Types.{BlockHeader, Error, Net, Params}
use spvwallet.Chain.Cache.{Env}
use spvwallet.Chain.HeaderDb.{new_header_db}
use spvwallet.Chain.HeaderDb.Interface.{header_db}
use spvwallet.Chain.Blockchain.{new_blockchain}
use spvwallet.Alliance.Types.{Outside}
use spvwallet.Alliance.WaitingDb.{WaitingDb, new_waiting_db}
use spvwallet.Alliance.Voter.{Voter}
use spvwallet.Alliance.Observer.{Settings}
use spvwallet.Alliance.Signer.{Signer}
use spvwallet.Alliance.Setup.{KeyLib, get_account_by_password, new_signer}
use spvwallet.Netserv.Types.{PeerLib}
use spvwallet.Netserv.Wire.{is_regtest}
use spvwallet.Netserv.Manager.{AddrLib}
use spvwallet.Wallet.{SpvWallet, net_type, new_spv_wallet, start}
use spvwallet.Wallet.Watcher.{Watcher, new_watcher}
use Prim.Native.String.{String, ◌++◌}
use text.Mathlib.Text.{◌==◌ as same_text}

-- Seconds between two tries of a request.
abbrev pub default_sleep_time : ℕ
default_sleep_time = 10

unfoldable pub sleep_time_of : ℤ → ℕ
sleep_time_of t = if ltb 0 (pos_part t) then pos_part t else default_sleep_time

-- The configuration of the wallet. `trusted_peer` is none for a nil interface.
pub record SpvConfig : Type 0 where
  pub repo_path : String
  pub trusted_peer : Option ℕ
  pub net : Net
  pub is_vote : Bool

-- An error of a package that the blockchain uses; a panic stays one.
unfoldable pub or_chain_failed {ℓ} : {A : Type ℓ} → Result Error A → Result StartError A
or_chain_failed (ok a) = ok a
or_chain_failed (err x) = err chain_failed
or_chain_failed panic = panic
or_chain_failed stuck = stuck

module _ (e : Env) (L : PeerLib) (A : AddrLib) (o : Outside) (K : KeyLib) where
  -- What run finds around it: files and databases by their path, name resolution, the ports to listen at, the networks of
  -- chaincfg, and the address of a nil *net.TCPAddr.
  pub record Machine : Type 0 where
    pub files : Files
    pub default_repo_path : String
    pub join : String → String → String
    pub resolve_tcp_addr : String → Option ℕ
    pub nil_tcp_addr : ℕ
    pub params_of : Net → Params
    pub port_text : Net → String
    pub port_number : Net → Option ℕ
    pub open_headers : String → Option (e.bucket.Store × Option (List ℕ))
    pub new_ordered_map : e.ordered.Store
    pub address_book : String → A.Book
    pub no_heights : L.Heights
    pub listens : ℕ → Bool
    pub open_waiting : String → Option (o.bucket.Store × o.bucket.Store × Option (List ℕ))

  -- The parts of the alliance service that run: Listen on its settings and its database, Vote with
  -- its redeem script, and Signing.
  pub record Alliance : Type 0 where
    pub observer : Option (Settings × WaitingDb o)
    pub voter : Option (Voter o × List ℕ)
    pub signer : Option Signer

  abbrev pub no_alliance : Alliance
  no_alliance = record { observer = none; voter = none; signer = none }

  -- `rest` is the port that the REST server serves, and `watcher` is none where run waits for a signal.
  pub record Running : Type 0 where
    pub wallet : SpvWallet e.btcd (header_db e) L A
    pub sleep_time : ℕ
    pub rest : Option ℕ
    pub alliance : Alliance
    pub watcher : Option (Watcher e.btcd (header_db e) L A)

  unfoldable pub new_observer : Config → Settings
  new_observer c = record {
    watching_key = c.watching_key;
    watching_make_tx_key = c.watching_make_tx_key;
    net_type = c.allia_net;
    waiting_circle = c.circle_to_save_height;
  }

  unfoldable pub new_voter : WaitingDb o → List ℕ → Voter o × List ℕ
  new_voter w redeem = (record { db = w; voting = []; putting = [] }, redeem)

  module _ (M : Machine) where
    -- ResolveTCPAddr returns a nil pointer with its error, which makes an interface that is not nil.
    unfoldable pub peer_addr : Option ℕ → Option ℕ
    peer_addr none = some M.nil_tcp_addr
    peer_addr (some a) = some a

    unfoldable pub trusted_of : String → Net → Option ℕ
    unfolding peer_addr
    trusted_of peer net =
        if same_text peer ""
        then none
        else peer_addr (M.resolve_tcp_addr (peer ++ ":" ++ M.port_text net))

    unfoldable pub spv_config : Config → Net → SpvConfig
    unfolding trusted_of
    spv_config c net =
        let repo =
          if same_text c.config_db_path "" then M.default_repo_path else c.config_db_path in
        record {
          repo_path = if is_regtest net then M.join repo "regtest" else repo;
          trusted_peer = trusted_of c.trusted_peer net;
          net = net;
          is_vote = is_on c.run_vote;
        }

    -- NewSPVWallet with the blockchain that it opens.
    unfoldable pub open_wallet :
        SpvConfig → BlockHeader → ℕ → Result StartError (SpvWallet e.btcd (header_db e) L A)
    open_wallet c genesis now = do
      stored ← or_error db_failed (M.open_headers c.repo_path)
      bc ← or_chain_failed (
          new_blockchain e.btcd (header_db e) (new_header_db e M.new_ordered_map stored.0 stored.1)
            (M.params_of c.net) c.is_vote genesis now)
      or_error peers_failed (
          new_spv_wallet e.btcd (header_db e) L A (M.params_of c.net) bc M.no_heights
            (M.address_book c.repo_path) (M.port_number c.net) c.trusted_peer)

    unfoldable pub start_spv :
        Config → Net → BlockHeader → ℕ → Result StartError (SpvWallet e.btcd (header_db e) L A)
    start_spv c net genesis now = do
      w ← open_wallet (spv_config c net) genesis now
      ok (start e.btcd (header_db e) L A w)

    -- Where the signer fails the other parts run.
    unfoldable pub add_signer :
        Alliance
        → Result StartError (Signer × List ℕ)
        → Result StartError (Alliance × Option StartError)
    add_signer a (ok s) = ok (record a { signer = some s.0 }, none)
    add_signer a (err x) = ok (a, some x)
    add_signer a panic = panic
    add_signer a stuck = stuck

    unfoldable pub start_voter :
        Alliance
        → WaitingDb o
        → Config
        → Net
        → Option (List ℕ)
        → Result StartError (Alliance × Option StartError)
    unfolding add_signer
    start_voter a w c net none = ok (a, some redeem_failed)
    start_voter a w c net (some redeem) =
        add_signer (record a { voter = some (new_voter w redeem) })
          (new_signer K c.btc_privk_file net)

    unfoldable pub open_alliance : Config → Result StartError (WaitingDb o)
    open_alliance c = do
      _ ← get_account_by_password K c.wallet_file c.wallet_pwd
      stored ← or_error db_failed (M.open_waiting c.waiting_db_path)
      ok (new_waiting_db o stored.0 stored.1 stored.2 (pos_part c.max_read_size))

    unfoldable pub start_observer :
        Config
        → Net
        → Result StartError (WaitingDb o)
        → Result StartError (Alliance × Option StartError)
    unfolding start_voter
    start_observer c net (ok w) =
        start_voter (record no_alliance { observer = some (new_observer c, w) }) w c net
          (o.hex_decode c.redeem)
    start_observer c net (err x) = ok (no_alliance, some x)
    start_observer c net panic = panic
    start_observer c net stuck = stuck

    -- The parts that run, and the error, if there is one.
    unfoldable pub start_alliance_service :
        Config → Net → Result StartError (Alliance × Option StartError)
    unfolding start_observer
    start_alliance_service c net = start_observer c net (open_alliance c)

    unfoldable pub alliance_of : Bool → Config → Net → Result StartError Alliance
    alliance_of false c net = ok no_alliance
    alliance_of true c net = start_alliance_service c net >>= λ done. ok done.0

    unfoldable pub watch :
        Bool
        → Config
        → SpvWallet e.btcd (header_db e) L A
        → Result StartError (Option (Watcher e.btcd (header_db e) L A))
    watch false c w = ok none
    watch true c w = do
      r ← or_chain_failed (new_watcher e.btcd (header_db e) L A w (pos_part c.restart_duration))
      ok (some r)

    -- Start of the REST server, which without a port, or where it cannot listen, only writes to the log.
    unfoldable pub rest_start : ℕ → Option ℕ
    rest_start port = if port == 0 then none else if M.listens port then some port else none

    unfoldable pub start_server : Config → Option ℕ
    unfolding rest_start
    start_server c = rest_start c.rest_port

    unfoldable pub rest_of : Bool → Config → Option ℕ
    unfolding start_server
    rest_of false c = none
    rest_of true c = start_server c

    -- An error ends the program. One of the alliance service is only written to the log.
    unfoldable pub run : String → BlockHeader → ℕ → Result StartError Running
    unfolding alliance_of watch rest_of
    run file genesis now = do
      c ← new_config M.files file
      net ← or_error wrong_net (net_type c.config_bitcoin_net)
      w ← start_spv c net genesis now
      a ← alliance_of (is_on c.run_vote) c net
      r ← watch (is_on c.is_restart) c w
      ok (record {
        wallet = w;
        sleep_time = sleep_time_of c.sleep_time;
        rest = rest_of (is_on c.run_rest) c;
        alliance = a;
        watcher = r;
      })
