-- ===== src/Tests/StartRuns.antt =====
-- The theorems on the start of the program, at a configuration that starts everything.
use spvwallet.Prelude.{
  ℕ, ◌^◌, ◌<◌, ◌≡◌, ◌⊎◌, ◌↔◌, refl, sym, subst, true, false, none, some, List, [], ◌∷◌, ok,
  ℕ_discrete, arith,
}
use spvwallet.Prelude.Int.{pos}
use spvwallet.Config.{Config, is_on, Files, read_file, load_config, new_config}
use spvwallet.Chain.Types.{StoredHeader, IsWire, regtest}
use spvwallet.Chain.Cache.{Key, Val}
use spvwallet.Chain.HeaderDb
use spvwallet.Chain.Blockchain
use spvwallet.Chain.Blockchain.Rooted.{Rooted}
use spvwallet.Chain.Session
use spvwallet.Alliance.Types.{bytes_discrete}
use spvwallet.Alliance.WaitingDb.{WaitingDb, new_waiting_db}
use spvwallet.Alliance.Setup.{KeyLib, password_of, get_account_by_password, new_signer}
use spvwallet.Netserv.Wire
use spvwallet.Netserv.Manager.{
  trusted_addr, get_new_address, new_peer_manager, manager_on, outbound,
}
use spvwallet.Wallet.{net_type, new_spv_wallet, wallet_of, min_sync, start}
use spvwallet.Wallet.Watcher.{new_watcher}
use spvwallet.Start
use spvwallet.Start.{Machine, Alliance, Running, no_alliance}
use spvwallet.Start.Begun.{run-Rooted}
use spvwallet.Start.Services.{IsLinked, CanServe, run_parts, start_spv-trusted}
use spvwallet.Tests.Machine.{btcd, btcd-laws, env, params, genesis, key_discrete}
use spvwallet.Tests.Maps.{no_entries}
use spvwallet.Tests.Chains.{empty_db-IsEmpty, tip, genesis-IsWire, program}
use spvwallet.Tests.ChainRuns.{root_is}
use spvwallet.Tests.WireRuns.{peer_lib, heights, first, synced, tip_served}
use spvwallet.Tests.ManagerRuns.{addr_lib}
use spvwallet.Tests.WalletRuns.{parsers}
use spvwallet.Tests.AllianceRuns.{outside}
use spvwallet.Tests.ProgramRuns.{started_over, watching, runs}
use Prim.Native.String.{◌++◌}

abbrev keys : KeyLib
keys = record {
  Wallet = ℕ;
  Account = ℕ;
  open_wallet = λ path. some 1;
  get_password = none;
  default_account = λ w pwd. some w;
  read_file = λ path. some (32 ∷ 5 ∷ []);
  trim_func = λ cut text. text;
  base58_decode = λ text. text;
  serialize_pub_key = λ key. key;
  new_address_pub_key = λ key net. some key;
}

abbrev conf : Config
conf = record {
  alliance_json_rpc_address = "";
  wallet_file = "wallet";
  wallet_pwd = "pwd";
  allia_ob_loop_wait_time = pos 1;
  watching_key = "w";
  redeem = "01";
  waiting_db_path = "waiting";
  blks_to_wait = 1;
  btc_privk_file = "key";
  watching_make_tx_key = "m";
  config_bitcoin_net = "regtest";
  config_db_path = "";
  trusted_peer = "peer";
  run_rest = pos 1;
  run_vote = pos 1;
  restart_duration = pos 1;
  is_restart = pos 1;
  rest_port = 80;
  sleep_time = pos 0;
  allia_net = "regtest";
  circle_to_save_height = 1;
  max_read_size = pos 100;
}

abbrev files : Files
files = record {
  open_file = λ name. some 1;
  read_all = λ file. some [];
  unmarshal = λ text. some conf;
}

abbrev no_proofs : outside.bucket.Store
no_proofs = no_entries (List ℕ) (List ℕ) bytes_discrete

abbrev proofs : WaitingDb outside
proofs = record { waiting = no_proofs; voted = no_proofs; height = none; max_read_size = 100 }

-- The configured peer resolves to the address 3.
abbrev machine : Machine env peer_lib addr_lib outside keys
machine = record {
  files = files;
  default_repo_path = "repo";
  join = λ a b. a ++ b;
  resolve_tcp_addr = λ text. some 3;
  nil_tcp_addr = 0;
  params_of = λ net. params;
  port_text = λ net. "8333";
  port_number = λ net. some 8333;
  open_headers = λ path. some (no_entries ℕ (List ℕ) ℕ_discrete, none);
  new_ordered_map = no_entries Key Val key_discrete;
  address_book = λ path. [];
  no_heights = heights;
  listens = λ port. true;
  open_waiting = λ path. some (no_proofs, no_proofs, none);
}

abbrev service : Alliance env peer_lib addr_lib outside keys
service = record {
  observer = some (
    record {
      watching_key = "w";
      watching_make_tx_key = "m";
      net_type = "regtest";
      waiting_circle = 1;
    },
    proofs,
  );
  voter = some (record { db = proofs; voting = []; putting = [] }, 1 ∷ 1 ∷ 9 ∷ []);
  signer = some (record { txchan = []; posted = [] });
}

abbrev running : Running env peer_lib addr_lib outside keys
running = record {
  wallet = started_over first;
  sleep_time = 10;
  rest = some 80;
  alliance = service;
  watcher = some (watching first 0);
}

reads : new_config files "conf.json" ≡ ok conf
unfolding new_config load_config read_file
reads = refl

begins :
    Start.run env peer_lib addr_lib outside keys machine "conf.json" genesis.header 0 ≡ ok running
unfolding Start.run Start.start_spv Start.open_wallet Start.spv_config Start.trusted_of
    Start.peer_addr Start.or_chain_failed Start.watch Start.alliance_of Start.start_alliance_service
    Start.start_observer Start.open_alliance Start.sleep_time_of Start.rest_of Start.start_server
    Start.rest_start is_on net_type new_config load_config read_file password_of
    get_account_by_password program new_spv_wallet wallet_of min_sync start Wire.new_wire_service
    Start.start_voter Start.add_signer Start.new_observer Start.new_voter new_signer new_waiting_db
    new_watcher new_peer_manager manager_on outbound HeaderDb.new_header_db Blockchain.best_block
begins = refl

run_parts_example :
    ((port : ℕ)
      → running.rest ≡ some port ↔ CanServe env peer_lib addr_lib outside keys machine conf port)
    × (running.watcher ≡ none → is_on conf.is_restart ≡ false)
    × (is_on conf.run_vote ≡ false → service ≡ no_alliance env peer_lib addr_lib outside keys)
    × IsLinked env peer_lib addr_lib outside keys machine conf service
run_parts_example =
    run_parts env peer_lib addr_lib outside keys machine "conf.json" genesis.header 0 conf running
      reads begins

regtest_net : net_type conf.config_bitcoin_net ≡ some regtest
unfolding net_type
regtest_net = refl

run-Rooted_example :
    Rooted btcd params (Session.root_of env genesis.header 0 params) tip
    × (btcd.block_hash tip.header ≡ 2)
run-Rooted_example =
    run-Rooted env peer_lib addr_lib outside keys machine parsers "conf.json" genesis.header 0 2
      conf regtest running (watching first 0) (watching synced 1) tip btcd-laws reads regtest_net
      (record {
        headers = no_entries ℕ (List ℕ) ℕ_discrete;
        opened = refl;
        no_headers = λ h. empty_db-IsEmpty.no_files h;
        no_cached = λ k. empty_db-IsEmpty.no_cache k;
      })
      (subst (λ (x : StoredHeader). IsWire x.header) (sym root_is) genesis-IsWire)
      (subst (λ (x : StoredHeader). x.height < 2 ^ 32) (sym root_is) (omega arith)) begins refl runs
      tip_served

starts_spv :
    Start.start_spv env peer_lib addr_lib outside keys machine conf regtest genesis.header 0
    ≡ ok (started_over first)
unfolding Start.start_spv Start.open_wallet Start.spv_config Start.trusted_of Start.peer_addr
    Start.or_chain_failed is_on program new_spv_wallet wallet_of min_sync start
    Wire.new_wire_service new_peer_manager manager_on outbound HeaderDb.new_header_db
starts_spv = refl

start_spv-trusted_example :
    (a : ℕ) × ((machine.resolve_tcp_addr "peer:8333" ≡ some a)
      ⊎ ((machine.resolve_tcp_addr "peer:8333" ≡ none) × (a ≡ 0)))
    × ((started_over first).service.min_peers_for_sync ≡ 1)
    × ((started_over first).manager.target_outbound ≡ 1)
    × ((t : ℕ)
        → get_new_address addr_lib (started_over first).manager t
          ≡ (some (trusted_addr a), (started_over first).manager))
start_spv-trusted_example =
    start_spv-trusted env peer_lib addr_lib outside keys machine conf regtest genesis.header 0
      (started_over first) refl starts_spv
