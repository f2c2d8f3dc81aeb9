-- ===== src/Tests/WalletRuns.antt =====
-- The theorems on the watcher and on the REST service, at a wallet with one peer.
use spvwallet.Prelude.{Bool, ◌-◌, ◌≡◌, ◌⊎◌, refl, true, false, some, [], ◌∷◌, ok, err}
use spvwallet.Chain.Types.{Error, tip_unset}
use spvwallet.Chain.HeaderDb
use spvwallet.Chain.HeaderDb.Interface.{header_db}
use spvwallet.Chain.Blockchain
use spvwallet.Chain.Blockchain.{Blockchain}
use spvwallet.Netserv.Types.{push_get_headers}
use spvwallet.Netserv.Wire
use spvwallet.Netserv.Wire.{send}
use spvwallet.Wallet
use spvwallet.Wallet.{SpvWallet}
use spvwallet.Wallet.Watcher
use spvwallet.Wallet.Watcher.{Watcher, chain_of, tick, give_up, three_hours}
use spvwallet.Wallet.Watcher.Restarts.{tick_rolls_back, tick_spares}
use spvwallet.Rest.Service
use spvwallet.Rest.Json.{null, string, no_fields, field}
use spvwallet.Rest.Json.Tags.{exact}
use spvwallet.Tests.Json.{values}
use spvwallet.Rest.Service.{
  Parsers, RequestParams, time_of, parse_string, success, height_result, no_result, reply,
}
use spvwallet.Rest.Server
use spvwallet.Rest.Server.{post, get, Answer, json, serve, rollback, find_path, post_map}
use spvwallet.Rest.Server.Changes.{Spared, serve_spares, rollback-failed}
use spvwallet.Tests.Machine.{btcd, env, params, genesis}
use spvwallet.Tests.Chains.{empty_db, two_db, tip, grown, chain_of as over}
use spvwallet.Tests.WireRuns.{service, peer_lib, synced, now}
use spvwallet.Tests.ManagerRuns.{addr_lib, manager}

-- The operations of the wallet, the watcher and the REST service.
unfoldable pub wallet_program : Unit {0}
unfolding service Wire.resync Wire.resync_with_nil Wallet.re_sync Wallet.resync_blockchain
    Wallet.or_same_chain Wallet.chain_tip Wallet.tip_or_zero Blockchain.rollback Watcher.restart
    Watcher.rolled_back Watcher.stalled Watcher.look Watcher.fire Watcher.tick
    Service.get_current_height Service.height_reply Service.rollback Service.rollback_to
    Service.rollback_at Server.find_path Server.err_map Server.respond Server.handle
    Server.answer_get Server.serve
wallet_program = tt

abbrev Spv : Type 0
Spv = SpvWallet btcd (header_db env) peer_lib addr_lib

abbrev pub wallet : Spv
wallet = record { service = synced; manager = manager; running = true; queued = [] }

abbrev again : Spv
again = record wallet {
  service =
      send btcd (header_db env) peer_lib synced
        (push_get_headers 1 (Blockchain.get_block_locator btcd (header_db env) grown));
}

abbrev rolled : Blockchain btcd (header_db env)
rolled = record {
  params = params;
  db = HeaderDb.put env two_db genesis true;
  updates = 1 ∷ [];
  is_open = true;
}

abbrev back_again : Spv
back_again = record wallet {
  service =
      send btcd (header_db env) peer_lib (record again.service { chain = rolled })
        (push_get_headers 1 (Blockchain.get_block_locator btcd (header_db env) rolled));
}

abbrev watcher : Spv → Bool → Watcher btcd (header_db env) peer_lib addr_lib
watcher w a = record { wallet = w; last_height = 1; again = a; timer = some 50; interval = 100 }

best_is : Blockchain.best_block btcd (header_db env) grown ≡ ok tip
unfolding wallet_program
best_is = refl

first_tick :
    tick btcd (header_db env) peer_lib addr_lib (watcher wallet false) genesis.header now
    ≡ ok (watcher again true)
unfolding wallet_program
first_tick = refl

second_tick :
    tick btcd (header_db env) peer_lib addr_lib (watcher again true) genesis.header now
    ≡ ok (watcher back_again false)
unfolding wallet_program
second_tick = refl

rolls :
    Blockchain.rollback btcd
      (header_db env)
      grown
      genesis.header
      now
      (tip.header.timestamp - three_hours)
    ≡ ok rolled
unfolding wallet_program
rolls = refl

abbrev chain_at : Watcher btcd (header_db env) peer_lib addr_lib → Blockchain btcd (header_db env)
chain_at = chain_of btcd (header_db env) peer_lib addr_lib

tick_rolls_back_example :
    (chain_at (watcher again true) ≡ chain_at (watcher wallet false))
    × (chain_at (watcher back_again false) ≡ rolled)
    × ((watcher back_again false).again ≡ false)
tick_rolls_back_example =
    tick_rolls_back btcd (header_db env) peer_lib addr_lib genesis.header now now 50
      (watcher wallet false) (watcher again true) (watcher back_again false) again tip tip rolled
      refl refl best_is refl first_tick best_is refl rolls second_tick

tick_spares_example :
    (chain_at (watcher again true) ≡ chain_at (watcher wallet false))
    ⊎ (chain_at (watcher back_again false) ≡ again.service.chain)
tick_spares_example =
    tick_spares btcd (header_db env) peer_lib addr_lib genesis.header now now (watcher wallet false)
      (watcher again true) (watcher back_again false) again first_tick second_tick

-- Over a database without a header.
abbrev hollow : Spv
hollow = record wallet { service = record synced { chain = over empty_db } }

abbrev lost : Error
lost = tip_unset

no_best : Blockchain.best_block btcd (header_db env) (over empty_db) ≡ err lost
unfolding wallet_program
no_best = refl

abbrev pub parsers : Parsers
parsers = record {
  json = values;
  not_found_text = null;
  empty_text = null;
  parse_time = λ s. some 5;
  hex_decode = λ s. some [];
  decode_tx = λ bytes. some 7;
  encode_header = λ h. "00";
}

abbrev height_answer : Answer
height_answer = json (record {
  action = "getcurrentheight";
  desc = "SUCCESS";
  error = success;
  result = height_result 1;
})

asks_height :
    serve parsers btcd
      (header_db env)
      peer_lib
      addr_lib
      wallet
      genesis.header
      now
      get
      "/api/v1/getcurrentheight"
      no_fields
      null
    ≡ ok (wallet, height_answer)
unfolding wallet_program
asks_height = refl

serve_spares_example :
    Spared parsers btcd (header_db env) peer_lib addr_lib wallet wallet
    ⊎ ((get ≡ post) × (find_path "/api/v1/getcurrentheight" post_map ≡ some rollback))
serve_spares_example =
    serve_spares parsers btcd (header_db env) peer_lib addr_lib wallet genesis.header now get
      "/api/v1/getcurrentheight" no_fields null (wallet, height_answer) asks_height

no_rollback :
    Blockchain.rollback btcd (header_db env) (over empty_db) genesis.header now 5 ≡ err lost
unfolding wallet_program
no_rollback = refl

abbrev since : RequestParams parsers
since = field "time" (string "2020-01-01 00:00:00") no_fields

since_2020 : time_of parsers since ≡ some "2020-01-01 00:00:00"
unfolding time_of parse_string exact
since_2020 = refl

asks_rollback :
    Service.rollback parsers btcd (header_db env) peer_lib addr_lib hollow genesis.header now since
    ≡ ok (hollow, reply success no_result)
unfolding wallet_program time_of parse_string exact
asks_rollback = refl

rollback-failed_example :
    (reply success no_result ≡ reply success no_result) × (hollow.service.chain ≡ over empty_db)
rollback-failed_example =
    rollback-failed parsers btcd (header_db env) peer_lib addr_lib hollow genesis.header now 5 lost
      since "2020-01-01 00:00:00" (hollow, reply success no_result) since_2020 refl no_rollback
      asks_rollback
