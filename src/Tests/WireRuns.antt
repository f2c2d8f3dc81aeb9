-- ===== src/Tests/WireRuns.antt =====
-- The theorems on the wire service, at a service with one peer.
use spvwallet.Prelude.{
  ℕ, ◌≡◌, ◌≢◌, ◌⊎◌, inl, refl, ◌==◌, true, false, some, none, List, [], ◌∷◌, ◌++◌, if◌then◌else◌,
  ok, arith,
}
use spvwallet.Prelude.Int.{ℤ, pos, ltz, to_int32}
use spvwallet.Chain.HeaderDb.Interface.{header_db}
use spvwallet.Chain.HeaderDb.{get_header}
use spvwallet.Chain.Blockchain
use spvwallet.Chain.Blockchain.{Blockchain}
use spvwallet.Netserv.Types.{
  inv_block, inv_filtered_block, InvVect, disconnect, push_get_headers, push_get_blocks,
  queue_get_data, add_known_inventory, PeerLib, PeerSyncState, find_state, drop_hash, put_state,
}
use spvwallet.Netserv.Wire
use spvwallet.Netserv.Wire.{WireService, new_wire_service, send, start_sync}
use spvwallet.Netserv.Wire.Handlers
use spvwallet.Netserv.Wire.Handlers.{handle_new_peer_msg, handle_headers_msg}
use spvwallet.Netserv.Wire.Blocks
use spvwallet.Netserv.Wire.Blocks.{handle_merkle_block_msg, handle_inv_msg}
use spvwallet.Netserv.Wire.Picking.{Candidate}
use spvwallet.Netserv.Wire.Syncing.{start_sync_finds}
use spvwallet.Netserv.Wire.Effects.{Sound, Commits}
use spvwallet.Netserv.Wire.Arrivals.{Old, handle_headers_msg_effect}
use spvwallet.Netserv.Wire.Requests.{Asked, handle_merkle_block_msg_effect}
use spvwallet.Netserv.Wire.Inventories.{Asks, handle_inv_msg-Asks}
use spvwallet.Netserv.Wire.Session as Serving
use spvwallet.Tests.Machine.{btcd, env, params, genesis}
use spvwallet.Tests.Chains.{program, tip, started, grown, tip-IsWire}

-- The wire service's operations, beside those of the chain.
unfoldable pub service : Unit {0}
unfolding program Blockchain.best_block Blockchain.get_header drop_hash find_state put_state
    Wire.new_wire_service Wire.is_sync_candidate Wire.any_higher Wire.current_at Wire.current
    Wire.pick_peer Wire.sync_with Wire.sync_if_found Wire.begin_sync Wire.start_sync
    Handlers.fresh_state Handlers.sync_unless_current Handlers.handle_new_peer_msg
    Handlers.commit_headers Handlers.ask_more Handlers.take_headers Handlers.handle_headers_msg
    Blocks.last_block_of Blocks.request_next Blocks.after_new_tip Blocks.accept_block
    Blocks.orphan_block Blocks.commit_block Blocks.take_block Blocks.counts
    Blocks.handle_merkle_block_msg Blocks.have_inventory Blocks.enqueue Blocks.enqueue_all
    Blocks.ask_first Blocks.known_height Blocks.take_inv Blocks.handle_inv_msg
service = tt

abbrev pub peer_lib : PeerLib
peer_lib = record {
  Heights = ℕ → ℤ;
  last_block = λ hs p. hs p;
  update_last_block_height = λ hs p z q. if q == p then z else hs q;
  splits_addr = λ p. true;
  full_node = λ p. true;
}

abbrev pub Service : Type 0
Service = WireService btcd (header_db env) peer_lib

abbrev pub heights : ℕ → ℤ
heights p = pos 5

abbrev pub now : ℕ
now = 100000

abbrev pub candidate : PeerSyncState
candidate = record {
  sync_candidate = true;
  request_queue = [];
  requested_blocks = [];
  false_positives = 0;
  block_score = pos 0;
}

-- With a peer that is synced from, before and after its header.
abbrev pub first : Service
first = new_wire_service btcd (header_db env) peer_lib params started 1 heights

abbrev pub syncing : Service
syncing = record {
  params = params;
  chain = started;
  sync_peer = some 1;
  peer_states = (1, candidate) ∷ [];
  requested_blocks = [];
  min_peers_for_sync = 1;
  heights = heights;
  sent = push_get_headers 1 (Blockchain.get_block_locator btcd (header_db env) started) ∷ [];
}

abbrev pub synced : Service
synced =
    send btcd (header_db env) peer_lib (record syncing { chain = grown })
      (push_get_headers 1 (Blockchain.get_block_locator btcd (header_db env) grown))

pub meets : handle_new_peer_msg btcd (header_db env) peer_lib first now 1 ≡ ok syncing
unfolding service
meets = refl

pub hears :
    handle_headers_msg btcd (header_db env) peer_lib syncing now 1 (tip.header ∷ []) ≡ ok synced
unfolding service
hears = refl

reached : Serving.Reach env peer_lib first synced
reached =
    Serving.next (Serving.next Serving.here (Serving.new_peer now 1 meets))
      (Serving.headers now 1 (tip.header ∷ []) (tip-IsWire, tt) hears)

pub tip_served : get_header env synced.chain.db 2 ≡ ok tip
unfolding program
tip_served = refl

Reach-Sound_example : Sound btcd (header_db env) peer_lib synced
Reach-Sound_example = Serving.Reach-Sound env peer_lib params started 1 heights synced reached

handle_headers_msg_effect_example :
    ((syncing.sync_peer ≡ some 1)
      × Commits btcd
          (header_db env)
          peer_lib
          (Old btcd (header_db env) peer_lib now (tip.header ∷ []))
          syncing.chain
          synced.chain)
    ⊎ ((syncing.sync_peer ≢ some 1)
        × (synced ≡ send btcd (header_db env) peer_lib syncing (disconnect 1)))
handle_headers_msg_effect_example =
    handle_headers_msg_effect btcd (header_db env) peer_lib syncing synced now 1 (tip.header ∷ [])
      hears

abbrev with_block : Service
with_block =
    send btcd (header_db env) peer_lib
      (record syncing {
        chain = grown;
        peer_states = (1, record candidate { block_score = pos 1 }) ∷ [];
      })
      (push_get_blocks 1 (Blockchain.get_block_locator btcd (header_db env) grown))

takes_block :
    handle_merkle_block_msg btcd (header_db env) peer_lib syncing now 1 tip.header ≡ ok with_block
unfolding service
takes_block = refl

handle_merkle_block_msg_effect_example :
    Commits btcd
      (header_db env)
      peer_lib
      (Asked btcd (header_db env) peer_lib syncing 1 tip.header)
      syncing.chain
      with_block.chain
handle_merkle_block_msg_effect_example =
    handle_merkle_block_msg_effect btcd (header_db env) peer_lib syncing with_block now 1 tip.header
      takes_block

abbrev invs : List InvVect
invs = record { kind = inv_block; hash = 3 } ∷ []

abbrev with_inv : Service
with_inv = record synced {
  peer_states = (1, record candidate { requested_blocks = 3 ∷ [] }) ∷ [];
  sent =
      synced.sent
      ++ (add_known_inventory 1 (record { kind = inv_block; hash = 3 })
          ∷ queue_get_data 1 (record { kind = inv_filtered_block; hash = 3 } ∷ [])
          ∷ []);
}

takes_inv : handle_inv_msg btcd (header_db env) peer_lib synced now 1 invs ≡ ok with_inv
unfolding service
takes_inv = refl

handle_inv_msg-Asks_example : Asks btcd (header_db env) peer_lib synced 1 with_inv
handle_inv_msg-Asks_example =
    handle_inv_msg-Asks btcd (header_db env) peer_lib synced with_inv now 1 invs takes_inv

best_is : Blockchain.best_block btcd (header_db env) syncing.chain ≡ ok genesis
unfolding service
best_is = refl

start_sync_finds_example :
    (ws' : Service) × (q : ℕ) × (start_sync btcd (header_db env) peer_lib syncing now none ≡ ok ws')
    × (ws'.sync_peer ≡ some q)
    × Candidate btcd
        (header_db env)
        peer_lib
        heights
        (to_int32 genesis.height)
        q
        syncing.peer_states
    × (ltz (heights q) (heights 1) ≡ false)
start_sync_finds_example =
    start_sync_finds btcd (header_db env) peer_lib syncing now genesis 1 candidate (omega arith)
      best_is (inl refl) refl refl
