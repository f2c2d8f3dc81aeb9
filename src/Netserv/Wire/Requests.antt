-- ===== src/Netserv/Wire/Requests.antt =====
-- What blocks and inventories may change.
use spvwallet.Prelude.{
  ℕ, ◌≡◌, ◌⊎◌, inl, inr, refl, subst, Bool, true, false, not, ◌&&◌, Option, none, some, List, [],
  ◌∷◌, if◌then◌else◌, Result, ok, err, panic, stuck, attempt, >>=-eq-ok, ok-injective,
  some-injective, Bool-cases,
}
use spvwallet.Prelude.Int.{pos, ltz, dec_int32, inc_int32, to_int32}
use spvwallet.Chain.Types.{
  BlockHeader, Error, orphan_header, not_found, header_missing, tip_unset, bad_encoding, too_high,
  bad_hash, Net, regtest, Btcd,
}
use spvwallet.Chain.Headers.{Headers}
use spvwallet.Chain.Blockchain
use spvwallet.Chain.Blockchain.{Blockchain, Commit}
use spvwallet.Netserv.Types.{
  PeerLib, PeerSyncState, Action, InvVect, disconnect, has_hash, drop_hash, find_state,
}
use spvwallet.Netserv.Wire.{send, put_peer, current, is_regtest}
use spvwallet.Netserv.Wire.Peers.{Known, Known-put_state_self}
use spvwallet.Netserv.Wire.Handlers.{Ws}
use spvwallet.Netserv.Wire.Blocks.{
  request_next, after_new_tip, accept_block, orphan_block, commit_block, take_block, counts,
  handle_merkle_block_msg,
}
use spvwallet.Netserv.Wire.Effects.{
  Commits, Safe, Safe-trans, Safe-refl, send-Safe, heights-Safe, put_peer-Safe, requested-Safe,
  commit-Safe, start_sync-Safe, drop_hash_none,
}

module _ (b : Btcd) (H : Headers) (L : PeerLib) (P : BlockHeader → Type 0) where
  abbrev Keeps : Ws b H L → Ws b H L → Type 0
  Keeps = Safe b H L P

  ask-Safe :
      (ws : Ws b H L) (p : ℕ) (state : PeerSyncState) (a : Action)
      → Keeps ws (send b H L (put_peer b H L ws p state) a)
  ask-Safe ws p state a =
      let mid = put_peer b H L ws p state in
      Safe-trans b H L ws mid (send b H L mid a) (put_peer-Safe b H L ws p state)
        (send-Safe b H L mid a)

  request_next-Safe :
      (ws : Ws b H L) (p : ℕ) (state : PeerSyncState) (queue : List InvVect)
      → Keeps ws (request_next b H L ws p state queue)
  unfolding request_next
  request_next-Safe ws p state [] = send-Safe b H L ws _
  request_next-Safe ws p state (iv ∷ rest) = ask-Safe ws p _ _

  after_new_tip-Safe :
      (ws ws' : Ws b H L) (now p : ℕ) (state : PeerSyncState)
      → after_new_tip b H L ws now p state ≡ ok ws'
      → Keeps ws ws'
  unfolding after_new_tip
  after_new_tip-Safe ws ws' now p state h =
      let (_, _, e) = >>=-eq-ok (attempt (Blockchain.best_block b H ws.chain)) _ h in
      let (c, _, f) = >>=-eq-ok (current b H L ws now) _ e in
      elim (Bool-cases c) [
        | inl y ↦ subst (Keeps ws) (ok-injective (rw y at f)) (Safe-refl b H L ws)
        | inr n ↦
            subst (Keeps ws) (ok-injective (rw n at f))
              (request_next-Safe ws p state state.request_queue)
      ]

  accept_block-Safe :
      (ws ws' : Ws b H L) (now p : ℕ) (state : PeerSyncState) (c : Commit)
      → accept_block b H L ws now p state c ≡ ok ws'
      → Keeps ws ws'
  unfolding accept_block
  accept_block-Safe ws ws' now p state c h =
      let state' : PeerSyncState = record state { block_score = inc_int32 state.block_score } in
      let mid = put_peer b H L ws p state' in
      let (cur, _, e) = >>=-eq-ok (current b H L mid now) _ h in
      let told : Ws b H L =
        if cur
        then record mid { heights = L.update_last_block_height mid.heights p (to_int32 c.height) }
        else mid in
      let first : Keeps ws told =
        Safe-trans b H L ws mid told (put_peer-Safe b H L ws p state') (elim (Bool-cases cur) [
          | inl y ↦ rw y (
              heights-Safe b H L mid (L.update_last_block_height mid.heights p (to_int32 c.height)))
          | inr n ↦ rw n (Safe-refl b H L mid)
        ]) in
      elim (Bool-cases c.new_tip) [
        | inl y ↦
            Safe-trans b H L ws told ws' first
              (after_new_tip-Safe told ws' now p state' (rw y at e))
        | inr n ↦ subst (Keeps ws) (ok-injective (rw n at e)) first
      ]

  orphan_block-Safe :
      (ws ws' : Ws b H L) (now p : ℕ) (state : PeerSyncState) (cur : Bool)
      → orphan_block b H L ws now p state cur ≡ ok ws'
      → Keeps ws ws'
  unfolding orphan_block
  orphan_block-Safe ws ws' now p state true h =
      let cleared : Ws b H L = record ws { requested_blocks = [] } in
      let state' : PeerSyncState = record state { request_queue = []; requested_blocks = [] } in
      let mid = put_peer b H L cleared p state' in
      Safe-trans b H L ws mid ws'
        (Safe-trans b H L ws cleared mid (requested-Safe b H L ws [] (λ e. refl))
          (put_peer-Safe b H L cleared p state'))
        (start_sync-Safe b H L mid ws' now (some p)
          (λ s q e.
            subst (λ x. Known x mid.peer_states) (some-injective e)
              (Known-put_state_self p state' ws.peer_states))
          h)
  orphan_block-Safe ws ws' now p state false h =
      let score = dec_int32 state.block_score in
      let state' : PeerSyncState = record state { block_score = score } in
      let mid = put_peer b H L ws p state' in
      elim (Bool-cases (ltz score (pos 0))) [
        | inl bad ↦
            subst (Keeps ws) (ok-injective (rw bad at h)) (ask-Safe ws p state' (disconnect p))
        | inr fine ↦
            subst (Keeps ws) (ok-injective (rw fine at h)) (put_peer-Safe b H L ws p state')
      ]

  commit_block-Safe :
      (ws ws' : Ws b H L) (now p : ℕ) (state : PeerSyncState) (header : BlockHeader)
      (r : Result Error (Blockchain b H × Commit))
      → P header
      → Blockchain.commit_header b H ws.chain header ≡ r
      → commit_block b H L ws now p state r ≡ ok ws'
      → Keeps ws ws'
  unfolding commit_block
  commit_block-Safe ws ws' now p state header (ok (bc, c)) good done h =
      Safe-trans b H L ws (record ws { chain = bc }) ws'
        (commit-Safe b H L ws header bc c good done)
        (accept_block-Safe (record ws { chain = bc }) ws' now p state c h)
  commit_block-Safe ws ws' now p state header (err orphan_header) good done h =
      let (cur, _, e) = >>=-eq-ok (current b H L ws now) _ h in
      orphan_block-Safe ws ws' now p state cur e
  commit_block-Safe ws ws' now p state header (err not_found) good done h =
      subst (Keeps ws) (ok-injective h) (Safe-refl b H L ws)
  commit_block-Safe ws ws' now p state header (err header_missing) good done h =
      subst (Keeps ws) (ok-injective h) (Safe-refl b H L ws)
  commit_block-Safe ws ws' now p state header (err tip_unset) good done h =
      subst (Keeps ws) (ok-injective h) (Safe-refl b H L ws)
  commit_block-Safe ws ws' now p state header (err bad_encoding) good done h =
      subst (Keeps ws) (ok-injective h) (Safe-refl b H L ws)
  commit_block-Safe ws ws' now p state header (err too_high) good done h =
      subst (Keeps ws) (ok-injective h) (Safe-refl b H L ws)
  commit_block-Safe ws ws' now p state header (err bad_hash) good done h =
      subst (Keeps ws) (ok-injective h) (Safe-refl b H L ws)
  commit_block-Safe ws ws' now p state header panic good done h = cc
  commit_block-Safe ws ws' now p state header stuck good done h = cc

  -- Not asked for, and not on the regression network.
  abbrev pub unasked : Ws b H L → BlockHeader → PeerSyncState → Bool
  unasked ws header state =
      not (has_hash (b.block_hash header) state.requested_blocks) && not (is_regtest ws.params.name)

  take_block-Safe :
      (ws ws' : Ws b H L) (now p : ℕ) (header : BlockHeader) (state : Option PeerSyncState)
      → ((s : PeerSyncState) → state ≡ some s → unasked ws header s ≡ false → P header)
      → take_block b H L ws now p header state ≡ ok ws'
      → Keeps ws ws'
  unfolding take_block
  take_block-Safe ws ws' now p header none good h =
      subst (Keeps ws) (ok-injective h) (send-Safe b H L ws _)
  take_block-Safe ws ws' now p header (some state) good h =
      elim (Bool-cases (unasked ws header state)) [
        | inl bad ↦ subst (Keeps ws) (ok-injective (rw bad at h)) (send-Safe b H L ws _)
        | inr asked ↦
            let hash = b.block_hash header in
            let cleared : Ws b H L = record ws {
              requested_blocks = drop_hash hash ws.requested_blocks;
            } in
            let state' : PeerSyncState = record state {
              requested_blocks = drop_hash hash state.requested_blocks;
            } in
            let mid = put_peer b H L cleared p state' in
            Safe-trans b H L ws mid ws'
              (Safe-trans b H L ws cleared mid
                (requested-Safe b H L ws (drop_hash hash ws.requested_blocks)
                  (drop_hash_none b H L hash ws.requested_blocks))
                (put_peer-Safe b H L cleared p state'))
              (commit_block-Safe mid ws' now p state' header
                (Blockchain.commit_header b H ws.chain header) (good state refl asked) refl
                (rw asked at h))
      ]

  pub handle_merkle_block_msg-Safe :
      (ws ws' : Ws b H L) (now p : ℕ) (header : BlockHeader)
      → ((s : PeerSyncState)
          → find_state p ws.peer_states ≡ some s
          → unasked ws header s ≡ false
          → P header)
      → handle_merkle_block_msg b H L ws now p header ≡ ok ws'
      → Keeps ws ws'
  unfolding handle_merkle_block_msg
  handle_merkle_block_msg-Safe ws ws' now p header good h =
      let (heard, _, e) = >>=-eq-ok (counts b H L ws now p) _ h in
      elim (Bool-cases heard) [
        | inl y ↦ take_block-Safe ws ws' now p header (find_state p ws.peer_states) good (rw y at e)
        | inr n ↦ subst (Keeps ws) (ok-injective (rw n at e)) (Safe-refl b H L ws)
      ]

module _ (b : Btcd) (H : Headers) (L : PeerLib) where
  abbrev pub Asked : Ws b H L → ℕ → BlockHeader → BlockHeader → Type 0
  Asked ws p header h =
      (h ≡ header)
      × ((s : PeerSyncState) × (find_state p ws.peer_states ≡ some s)
          × ((has_hash (b.block_hash header) s.requested_blocks ≡ true)
              ⊎ (ws.params.name ≡ regtest)))

  regtest_sound : (n : Net) → is_regtest n ≡ true → n ≡ regtest
  regtest_sound Net.regtest h = refl
  regtest_sound Net.mainnet h = cc
  regtest_sound Net.testnet3 h = cc
  regtest_sound Net.simnet h = cc

  -- A block changes the chain only by successful commits of its header, and only if its peer is
  -- known and was asked for it, or the network is the regression network.
  pub handle_merkle_block_msg_effect :
      (ws ws' : Ws b H L) (now p : ℕ) (header : BlockHeader)
      → handle_merkle_block_msg b H L ws now p header ≡ ok ws'
      → Commits b H L (Asked ws p header) ws.chain ws'.chain
  handle_merkle_block_msg_effect ws ws' now p header h =
      (handle_merkle_block_msg-Safe b H L (Asked ws p header) ws ws' now p header
        (λ s found asked. (
          refl,
          (
            s,
            found,
            elim (Bool-cases (has_hash (b.block_hash header) s.requested_blocks)) [
              | inl y ↦ inl y
              | inr n ↦ elim (Bool-cases (is_regtest ws.params.name)) [
                | inl r ↦ inr (regtest_sound ws.params.name r)
                | inr r ↦ cc (rw (n, r) at asked)
              ]
            ],
          ),
        ))
        h).commits
