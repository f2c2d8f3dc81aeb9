-- ===== src/Netserv/Wire.antt =====
-- WireService of netserv/wireserv.go: its state, the choice of the peer to sync from, and whether the
-- chain is current. Each handler takes the time `now` in seconds, which stands still while it runs.
pub mod Handlers
pub mod Blocks
pub mod Peers
pub mod Picking
pub mod Syncing
pub mod Effects
pub mod Arrivals
pub mod Requests
pub mod Inventories
pub mod Session
use spvwallet.Prelude.{
  ℕ, ◌+◌, ◌*◌, Bool, true, false, not, ◌&&◌, ◌||◌, Option, none, some, List, [], ◌∷◌, ◌++◌, length,
  ltb, if◌then◌else◌, Result, ok, attempt, ◌>>=◌,
}
use spvwallet.Prelude.Int.{ℤ, pos, ltz, to_int32}
use spvwallet.Chain.Types.{
  StoredHeader, Error, Params, Net, mainnet, testnet3, regtest, simnet, Btcd,
}
use spvwallet.Chain.Headers.{Headers}
use spvwallet.Chain.Blockchain
use spvwallet.Chain.Blockchain.{Blockchain}
use spvwallet.Netserv.Types.{
  Action, push_get_headers, push_get_blocks, PeerLib, PeerSyncState, PeerStates, put_state,
}

abbrev pub is_regtest : Net → Bool
is_regtest regtest = true
is_regtest _ = false

-- 90 minutes and 24 hours.
abbrev pub recent : ℕ
recent = 90 * 60

abbrev pub day : ℕ
day = 24 * 60 * 60

module _ (b : Btcd) (H : Headers) (L : PeerLib) where
  -- `heights` is what btcd keeps of the peers, and `sent` lists what was sent to them.
  pub record WireService : Type 0 where
    pub params : Params
    pub chain : Blockchain b H
    pub sync_peer : Option ℕ
    pub peer_states : PeerStates
    pub requested_blocks : List ℕ
    pub min_peers_for_sync : ℕ
    pub heights : L.Heights
    pub sent : List Action

  unfoldable pub new_wire_service : Params → Blockchain b H → ℕ → L.Heights → WireService
  new_wire_service params chain min heights = record {
    params = params;
    chain = chain;
    sync_peer = none;
    peer_states = [];
    requested_blocks = [];
    min_peers_for_sync = min;
    heights = heights;
    sent = [];
  }

  abbrev pub send : WireService → Action → WireService
  send ws a = record ws { sent = ws.sent ++ (a ∷ []) }

  abbrev pub put_peer : WireService → ℕ → PeerSyncState → WireService
  put_peer ws p s = record ws { peer_states = put_state p s ws.peer_states }

  unfoldable pub is_sync_candidate : WireService → ℕ → Bool
  is_sync_candidate ws p = if is_regtest ws.params.name then L.splits_addr p else L.full_node p

  -- One peer reports a greater height than the given one.
  unfoldable pub any_higher : L.Heights → ℤ → PeerStates → Bool
  any_higher hs height [] = false
  any_higher hs height ((p, s) ∷ rest) =
      let later = any_higher hs height rest in ltz height (L.last_block hs p) || later

  unfoldable pub current_at : WireService → ℕ → Option StoredHeader → Bool
  unfolding any_higher
  current_at ws now none = false
  current_at ws now (some best) =
      if ltb (best.header.timestamp + day) now
      then false
      else not (any_higher ws.heights (to_int32 best.height) ws.peer_states)

  unfoldable pub current : WireService → ℕ → Result Error Bool
  unfolding current_at
  current ws now =
      attempt (Blockchain.best_block b H ws.chain) >>= λ best. ok (current_at ws now best)

  -- A candidate stays one unless its last block is below the height of the best header.
  abbrev pub remains : L.Heights → ℤ → ℕ → PeerSyncState → Bool
  remains hs height p s = s.sync_candidate && not (ltz (L.last_block hs p) height)

  -- The loop of startSync over the peers, with the best peer and its height so far.
  unfoldable pub pick_peer : L.Heights → ℤ → PeerStates → Option ℕ → ℤ → PeerStates × Option ℕ
  pick_peer hs height [] best best_height = ([], best)
  pick_peer hs height ((p, s) ∷ rest) best best_height =
      let good = remains hs height p s in
      let takes = good && ltz best_height (L.last_block hs p) in
      let out =
        pick_peer hs height rest (if takes then some p else best)
          (if takes then L.last_block hs p else best_height) in
      ((p, record s { sync_candidate = good }) ∷ out.0, out.1)

  unfoldable pub sync_with : WireService → ℕ → StoredHeader → ℕ → WireService
  sync_with ws now best p =
      let locator = Blockchain.get_block_locator b H ws.chain in
      send (record ws { sync_peer = some p; requested_blocks = [] })
        (if ltb (best.header.timestamp + recent) now
          then push_get_headers p locator
          else push_get_blocks p locator)

  unfoldable pub sync_if_found : WireService → ℕ → StoredHeader → Option ℕ → WireService
  unfolding sync_with
  sync_if_found ws now best none = ws
  sync_if_found ws now best (some p) = sync_with ws now best p

  unfoldable pub begin_sync : WireService → ℕ → Option ℕ → Option StoredHeader → WireService
  unfolding sync_if_found sync_with pick_peer
  begin_sync ws now peer none = ws
  begin_sync ws now (some p) (some best) = sync_with ws now best p
  begin_sync ws now none (some best) =
      let out = pick_peer ws.heights (to_int32 best.height) ws.peer_states none (pos 0) in
      sync_if_found (record ws { peer_states = out.0 }) now best out.1

  -- An error of BestBlock ends the sync before it starts.
  unfoldable pub start_sync : WireService → ℕ → Option ℕ → Result Error WireService
  unfolding begin_sync
  start_sync ws now peer =
      if ltb (length ws.peer_states) ws.min_peers_for_sync
      then ok ws
      else (attempt (Blockchain.best_block b H ws.chain) >>= λ best.
          ok (begin_sync ws now peer best))

  unfoldable pub resync : WireService → ℕ → Result Error WireService
  unfolding start_sync
  resync ws now = start_sync ws now ws.sync_peer

  unfoldable pub resync_with_nil : WireService → ℕ → Result Error WireService
  unfolding start_sync
  resync_with_nil ws now = start_sync ws now none

  -- The handler stops, too.
  unfoldable pub stop : WireService → WireService
  stop ws = record ws { sync_peer = none }
