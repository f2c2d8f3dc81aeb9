-- ===== src/Netserv/Wire/Handlers.antt =====
-- The handlers of WireService (netserv/wireserv.go) for peers that come and go and for headers.
use spvwallet.Prelude.{
  ℕ, ◌+◌, Bool, true, false, Option, none, some, List, [], ◌∷◌, ltb, if◌then◌else◌, Result, ok,
  attempt, ◌>>=◌,
}
use spvwallet.Prelude.Int.{pos}
use spvwallet.Chain.Types.{BlockHeader, Error, Btcd}
use spvwallet.Chain.Headers.{Headers}
use spvwallet.Chain.Blockchain
use spvwallet.Chain.Blockchain.{Blockchain, Commit}
use spvwallet.Netserv.Types.{
  disconnect, push_get_headers, push_get_blocks, PeerLib, PeerSyncState, drop_hashes, find_state,
  drop_state, same_peer,
}
use spvwallet.Netserv.Wire.{
  WireService, send, put_peer, is_sync_candidate, current, start_sync, recent,
}

abbrev pub is_some {ℓ} : {A : Type ℓ} → Option A → Bool
is_some none = false
is_some (some _) = true

module _ (b : Btcd) (H : Headers) (L : PeerLib) where
  abbrev pub Ws : Type 0
  Ws = WireService b H L

  abbrev pub locator_of : Ws → List ℕ
  locator_of ws = Blockchain.get_block_locator b H ws.chain

  unfoldable pub fresh_state : Ws → ℕ → PeerSyncState
  fresh_state ws p = record {
    sync_candidate = is_sync_candidate b H L ws p;
    request_queue = [];
    requested_blocks = [];
    false_positives = 0;
    block_score = pos 0;
  }

  -- A sync starts unless the chain is current.
  unfoldable pub sync_unless_current : Ws → ℕ → Result Error Ws
  sync_unless_current ws now = do
    now_current ← current b H L ws now
    if now_current then ok ws else start_sync b H L ws now none

  unfoldable pub handle_new_peer_msg : Ws → ℕ → ℕ → Result Error Ws
  unfolding fresh_state sync_unless_current
  handle_new_peer_msg ws now p =
      let ws' = put_peer b H L ws p (fresh_state ws p) in
      if is_some ws.sync_peer then ok ws' else sync_unless_current ws' now

  unfoldable pub lose_peer : Ws → ℕ → ℕ → Option PeerSyncState → Result Error Ws
  unfolding sync_unless_current
  lose_peer ws now p none = ok ws
  lose_peer ws now p (some state) =
      let ws' : Ws = record ws {
        peer_states = drop_state p ws.peer_states;
        requested_blocks = drop_hashes state.requested_blocks ws.requested_blocks;
      } in
      if same_peer ws.sync_peer p
      then sync_unless_current (record ws' { sync_peer = none }) now
      else ok ws'

  unfoldable pub handle_done_peer_msg : Ws → ℕ → ℕ → Result Error Ws
  unfolding lose_peer
  handle_done_peer_msg ws now p = lose_peer ws now p (find_state p ws.peer_states)

  abbrev pub after_commit : Ws → Option (Blockchain b H × Commit) → Ws
  after_commit ws none = ws
  after_commit ws (some (chain, c)) = record ws { chain = chain }

  abbrev pub count_bad : ℕ → Option (Blockchain b H × Commit) → ℕ
  count_bad bad none = bad + 1
  count_bad bad (some _) = bad

  -- The loop over the headers: how many commits failed, unless it left at a recent header.
  unfoldable pub commit_headers : Ws → ℕ → ℕ → ℕ → List BlockHeader → Result Error (Ws × Option ℕ)
  commit_headers ws now p bad [] = ok (ws, some bad)
  commit_headers ws now p bad (header ∷ rest) = elim (ltb (header.timestamp + recent) now) [
    | true ↦ attempt (Blockchain.commit_header b H ws.chain header) >>= λ done.
        commit_headers (after_commit ws done) now p (count_bad bad done) rest
    | false ↦ ok (send b H L ws (push_get_blocks p (locator_of ws)), none)
  ]

  unfoldable pub ask_more : ℕ → Ws × Option ℕ → Ws
  ask_more p (ws, none) = ws
  ask_more p (ws, some bad) =
      send b H L ws (if ltb 1 bad then disconnect p else push_get_headers p (locator_of ws))

  unfoldable pub take_headers :
      Ws → ℕ → ℕ → List BlockHeader → Option PeerSyncState → Result Error Ws
  unfolding commit_headers ask_more
  take_headers ws now p headers none = ok (send b H L ws (disconnect p))
  take_headers ws now p [] (some state) = ok ws
  take_headers ws now p (header ∷ rest) (some state) = do
    out ← commit_headers ws now p 0 (header ∷ rest)
    ok (ask_more p out)

  unfoldable pub handle_headers_msg : Ws → ℕ → ℕ → List BlockHeader → Result Error Ws
  unfolding take_headers
  handle_headers_msg ws now p headers =
      if same_peer ws.sync_peer p
      then take_headers ws now p headers (find_state p ws.peer_states)
      else ok (send b H L ws (disconnect p))
