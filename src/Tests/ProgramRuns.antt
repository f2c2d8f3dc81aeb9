-- ===== src/Tests/ProgramRuns.antt =====
-- The theorem on the whole program, at a run with one peer, one header and a round of the watcher.
use spvwallet.Prelude.{ℕ, ◌*◌, ◌≡◌, refl, true, false, some, [], ◌∷◌, ok}
use spvwallet.Chain.HeaderDb.Interface.{header_db}
use spvwallet.Netserv.Wire.{WireService}
use spvwallet.Netserv.Wire.Session as Serving
use spvwallet.Netserv.Manager.{PeerManager, new_peer_manager, manager_on, outbound}
use spvwallet.Wallet.{SpvWallet, new_spv_wallet, wallet_of, min_sync, start}
use spvwallet.Wallet.Watcher.{Watcher, new_watcher, tick, minute}
use spvwallet.Program
use spvwallet.Program.{Reach, program-Rooted}
use spvwallet.Tests.Machine.{btcd, env, params, genesis}
use spvwallet.Tests.Chains.{tip, started, tip-IsWire}
use spvwallet.Tests.WireRuns.{peer_lib, heights, now, first, syncing, synced, meets, hears}
use spvwallet.Tests.ManagerRuns.{addr_lib}
use spvwallet.Tests.WalletRuns.{parsers, wallet_program}

abbrev trusting : PeerManager addr_lib
trusting = record {
  book = [];
  trusted_peer = some 3;
  target_outbound = 1;
  default_port = 8333;
  connected_peers = [];
  has_msg_chan = true;
  sent = [];
  calls = [];
}

abbrev wallet_over :
    WireService btcd (header_db env) peer_lib → SpvWallet btcd (header_db env) peer_lib addr_lib
wallet_over ws = record { service = ws; manager = trusting; running = false; queued = [] }

abbrev pub started_over :
    WireService btcd (header_db env) peer_lib → SpvWallet btcd (header_db env) peer_lib addr_lib
started_over ws = record { service = ws; manager = trusting; running = true; queued = [] }

makes_wallet :
    new_spv_wallet btcd
      (header_db env)
      peer_lib
      addr_lib
      params
      started
      heights
      []
      (some 8333)
      (some 3)
    ≡ some (wallet_over first)
unfolding new_spv_wallet wallet_of min_sync new_peer_manager manager_on outbound
makes_wallet = refl

abbrev pub watching :
    WireService btcd (header_db env) peer_lib → ℕ → Watcher btcd (header_db env) peer_lib addr_lib
watching ws height = record {
  wallet = started_over ws;
  last_height = height;
  again = false;
  timer = some (1 * minute);
  interval = 1 * minute;
}

makes_watcher :
    new_watcher btcd
      (header_db env)
      peer_lib
      addr_lib
      (start btcd (header_db env) peer_lib addr_lib (wallet_over first))
      1
    ≡ ok (watching first 0)
unfolding wallet_program new_watcher start
makes_watcher = refl

grows_on :
    tick btcd (header_db env) peer_lib addr_lib (watching synced 0) genesis.header now
    ≡ ok (watching synced 1)
unfolding wallet_program
grows_on = refl

pub runs : Reach env peer_lib addr_lib parsers (watching first 0) (watching synced 1)
runs =
    Program.next
      (Program.next
        (Program.next Program.here (Program.served syncing (Serving.new_peer now 1 meets)))
        (Program.served synced (Serving.headers now 1 (tip.header ∷ []) (tip-IsWire, tt) hears)))
      (Program.round genesis.header now grows_on)
