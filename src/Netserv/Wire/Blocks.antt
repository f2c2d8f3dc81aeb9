-- ===== src/Netserv/Wire/Blocks.antt =====
-- The handlers of WireService (netserv/wireserv.go) for blocks and for inventories.
use spvwallet.Prelude.{
  ℕ, Bool, true, false, not, ◌&&◌, ◌||◌, Option, none, some, List, [], ◌∷◌, ◌++◌, if◌then◌else◌,
  Result, ok, err, panic, stuck, attempt, ◌>>=◌,
}
use spvwallet.Prelude.Int.{pos, ltz, to_int32, inc_int32, dec_int32}
use spvwallet.Chain.Types.{BlockHeader, Error, orphan_header, Btcd}
use spvwallet.Chain.Headers.{Headers}
use spvwallet.Chain.Blockchain
use spvwallet.Chain.Blockchain.{Blockchain, Commit}
use spvwallet.Netserv.Types.{
  InvType, inv_tx, inv_block, inv_filtered_block, inv_witness_block, InvVect, disconnect,
  push_get_blocks, queue_get_data, add_known_inventory, update_last_announced_block, PeerLib,
  PeerSyncState, has_hash, add_hash, drop_hash, find_state, same_peer,
}
use spvwallet.Netserv.Wire.{send, put_peer, current, start_sync, is_regtest}
use spvwallet.Netserv.Wire.Handlers.{Ws, locator_of, is_some}

-- The last block that an inventory names.
unfoldable pub last_block_of : List InvVect → Option ℕ → Option ℕ
last_block_of [] found = found
last_block_of (iv ∷ rest) found =
    last_block_of rest (elim iv.kind [ inv_block ↦ some iv.hash | _ ↦ found ])

abbrev pub is_block : InvType → Bool
is_block inv_filtered_block = true
is_block inv_block = true
is_block _ = false

module _ (b : Btcd) (H : Headers) (L : PeerLib) where
  -- The end of handleMerkleBlockMsg, where the chain is not current.
  unfoldable pub request_next : Ws b H L → ℕ → PeerSyncState → List InvVect → Ws b H L
  request_next ws p state [] = send b H L ws (push_get_blocks p (locator_of b H L ws))
  request_next ws p state (iv ∷ rest) =
      send b H L
        (put_peer b H L ws p (record state {
          request_queue = rest;
          requested_blocks = add_hash iv.hash state.requested_blocks;
        }))
        (queue_get_data p (record iv { kind = inv_filtered_block } ∷ []))

  -- The source reads the best block for a line of the log.
  unfoldable pub after_new_tip : Ws b H L → ℕ → ℕ → PeerSyncState → Result Error (Ws b H L)
  unfolding request_next
  after_new_tip ws now p state = do
    logged ← attempt (Blockchain.best_block b H ws.chain)
    now_current ← current b H L ws now
    ok (if now_current then ws else request_next ws p state state.request_queue)

  unfoldable pub accept_block : Ws b H L → ℕ → ℕ → PeerSyncState → Commit → Result Error (Ws b H L)
  unfolding after_new_tip
  accept_block ws now p state c =
      let state' : PeerSyncState = record state { block_score = inc_int32 state.block_score } in
      let ws' = put_peer b H L ws p state' in
      current b H L ws' now >>= λ now_current.
      let told : Ws b H L =
        if now_current
        then record ws' { heights = L.update_last_block_height ws'.heights p (to_int32 c.height) }
        else ws' in
      if c.new_tip then after_new_tip told now p state' else ok told

  unfoldable pub orphan_block : Ws b H L → ℕ → ℕ → PeerSyncState → Bool → Result Error (Ws b H L)
  orphan_block ws now p state true =
      start_sync b H L
        (put_peer b H L (record ws { requested_blocks = [] }) p
          (record state { request_queue = []; requested_blocks = [] }))
        now (some p)
  orphan_block ws now p state false =
      let score = dec_int32 state.block_score in
      let ws' = put_peer b H L ws p (record state { block_score = score }) in
      ok (if ltz score (pos 0) then send b H L ws' (disconnect p) else ws')

  unfoldable pub commit_block :
      Ws b H L
      → ℕ
      → ℕ
      → PeerSyncState
      → Result Error (Blockchain b H × Commit)
      → Result Error (Ws b H L)
  unfolding accept_block orphan_block
  commit_block ws now p state (ok (chain, c)) =
      accept_block (record ws { chain = chain }) now p state c
  commit_block ws now p state (err orphan_header) =
      current b H L ws now >>= λ now_current. orphan_block ws now p state now_current
  commit_block ws now p state (err _) = ok ws
  commit_block ws now p state panic = panic
  commit_block ws now p state stuck = stuck

  unfoldable pub take_block :
      Ws b H L → ℕ → ℕ → BlockHeader → Option PeerSyncState → Result Error (Ws b H L)
  unfolding commit_block
  take_block ws now p header none = ok (send b H L ws (disconnect p))
  take_block ws now p header (some state) =
      let hash = b.block_hash header in
      let state' : PeerSyncState = record state {
        requested_blocks = drop_hash hash state.requested_blocks;
      } in
      let ws' : Ws b H L = record ws { requested_blocks = drop_hash hash ws.requested_blocks } in
      if not (has_hash hash state.requested_blocks) && not (is_regtest ws.params.name)
      then ok (send b H L ws (disconnect p))
      else commit_block (put_peer b H L ws' p state') now p state'
          (Blockchain.commit_header b H ws.chain header)

  -- Messages of other peers count only where the chain is current.
  unfoldable pub counts : Ws b H L → ℕ → ℕ → Result Error Bool
  counts ws now p = if same_peer ws.sync_peer p then ok true else current b H L ws now

  unfoldable pub handle_merkle_block_msg : Ws b H L → ℕ → ℕ → BlockHeader → Result Error (Ws b H L)
  unfolding counts take_block
  handle_merkle_block_msg ws now p header = do
    heard ← counts ws now p
    if heard then take_block ws now p header (find_state p ws.peer_states) else ok ws

  unfoldable pub have_inventory : Ws b H L → InvVect → Result Error Bool
  have_inventory ws iv = elim iv.kind [
    | inv_witness_block ↦
        attempt (Blockchain.get_header b H ws.chain iv.hash) >>= λ r. ok (is_some r)
    | inv_tx ↦ attempt (Blockchain.get_header b H ws.chain iv.hash) >>= λ r. ok (is_some r)
    | inv_block ↦ attempt (Blockchain.get_header b H ws.chain iv.hash) >>= λ r. ok (is_some r)
    | _ ↦ ok true
  ]

  unfoldable pub enqueue :
      Ws b H L → ℕ → PeerSyncState → InvVect → Bool → Result Error PeerSyncState
  enqueue ws now state iv have =
      if is_block iv.kind
      then (current b H L ws now >>= λ now_current. ok (
          if now_current || (not (has_hash iv.hash ws.requested_blocks) && not have)
          then record state {
            request_queue = state.request_queue ++ (record iv { kind = inv_filtered_block } ∷ []);
          }
          else state))
      else ok state

  unfoldable pub enqueue_all :
      Ws b H L → ℕ → ℕ → PeerSyncState → List InvVect → Result Error (Ws b H L × PeerSyncState)
  unfolding have_inventory enqueue
  enqueue_all ws now p state [] = ok (ws, state)
  enqueue_all ws now p state (iv ∷ rest) =
      let ws' = send b H L ws (add_known_inventory p iv) in
      have_inventory ws' iv >>= λ have.
      enqueue ws' now state iv have >>= λ state'. enqueue_all ws' now p state' rest

  -- The first block of the queue is requested.
  unfoldable pub ask_first : Ws b H L → ℕ → PeerSyncState → List InvVect → Ws b H L
  ask_first ws p state [] = put_peer b H L ws p state
  ask_first ws p state (iv ∷ rest) =
      send b H L
        (put_peer b H L ws p (record state {
          request_queue = rest;
          requested_blocks = add_hash iv.hash state.requested_blocks;
        }))
        (queue_get_data p (iv ∷ []))

  abbrev pub announce : Ws b H L → ℕ → Option ℕ → Bool → Ws b H L
  announce ws p (some hash) true = send b H L ws (update_last_announced_block p hash)
  announce ws p last counted = ws

  -- A peer that announces a known block has at least its height.
  unfoldable pub known_height : Ws b H L → ℕ → Option ℕ → Bool → Result Error (Ws b H L)
  known_height ws p (some hash) true =
      attempt (Blockchain.get_header b H ws.chain hash) >>= λ found. ok (elim found [
        | none ↦ ws
        | some sh ↦ record ws {
          heights = L.update_last_block_height ws.heights p (to_int32 sh.height);
        }
      ])
  known_height ws p last now_current = ok ws

  unfoldable pub take_inv :
      Ws b H L → ℕ → ℕ → List InvVect → Option PeerSyncState → Result Error (Ws b H L)
  unfolding enqueue_all ask_first known_height
  take_inv ws now p invs none = ok ws
  take_inv ws now p invs (some state) =
      let last = last_block_of invs none in
      current b H L ws now >>= λ now_current.
      let ws' = announce ws p last (not (same_peer ws.sync_peer p) || now_current) in
      if not (same_peer ws.sync_peer p) && not now_current
      then ok ws'
      else (known_height ws' p last now_current >>= λ told.
          enqueue_all told now p state invs >>= λ out.
          ok (ask_first out.0 p out.1 out.1.request_queue))

  unfoldable pub handle_inv_msg : Ws b H L → ℕ → ℕ → List InvVect → Result Error (Ws b H L)
  unfolding take_inv last_block_of
  handle_inv_msg ws now p invs = take_inv ws now p invs (find_state p ws.peer_states)
