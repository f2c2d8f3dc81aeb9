-- ===== src/Netserv/Wire/Arrivals.antt =====
-- What peers that come and go, and headers, may change.
use spvwallet.Prelude.{
  ℕ, ◌+◌, ◌<◌, ◌≡◌, ◌≢◌, ◌⊎◌, inl, inr, refl, sym, ap, subst, ◌∙◌, ◌==◌, ==_iff, true, false,
  Option, none, some, List, [], ◌∷◌, ltb, ok, attempt, >>=-eq-ok, ok-injective, Bool-cases, Elem,
  arith,
}
use spvwallet.Chain.Types.{BlockHeader, Btcd}
use spvwallet.Chain.Headers.{Headers}
use spvwallet.Chain.Blockchain
use spvwallet.Chain.Blockchain.{Blockchain, Commit}
use spvwallet.Netserv.Types.{
  PeerLib, PeerSyncState, disconnect, drop_state, drop_hashes, find_state, same_peer,
}
use spvwallet.Netserv.Wire.{send, put_peer, current, recent}
use spvwallet.Netserv.Wire.Peers.{find_state-drop_state_ne}
use spvwallet.Netserv.Wire.Syncing.{attempt_cases}
use spvwallet.Netserv.Wire.Handlers.{
  Ws, sync_unless_current, fresh_state, handle_new_peer_msg, lose_peer, handle_done_peer_msg,
  commit_headers, ask_more, take_headers, handle_headers_msg, is_some, after_commit, count_bad,
}
use spvwallet.Netserv.Wire.Effects.{
  Commits, Safe, Safe-trans, Safe-refl, send-Safe, put_peer-Safe, commit-Safe, start_sync-Safe,
  drop_hashes_none, stay,
}

module _ (b : Btcd) (H : Headers) (L : PeerLib) where
  pub sync_unless_current-Safe :
      {P : BlockHeader → Type 0} (ws ws' : Ws b H L) (now : ℕ)
      → sync_unless_current b H L ws now ≡ ok ws'
      → Safe b H L P ws ws'
  unfolding sync_unless_current
  sync_unless_current-Safe {P = P} ws ws' now h =
      let (c, _, e) = >>=-eq-ok (current b H L ws now) _ h in
      elim (Bool-cases c) [
        | inl yes_current ↦
            subst (Safe b H L P ws) (ok-injective (rw yes_current at e)) (Safe-refl b H L ws)
        | inr behind ↦ start_sync-Safe b H L ws ws' now none (λ s p q. cc) (rw behind at e)
      ]

  pub handle_new_peer_msg-Safe :
      {P : BlockHeader → Type 0} (ws ws' : Ws b H L) (now p : ℕ)
      → handle_new_peer_msg b H L ws now p ≡ ok ws'
      → Safe b H L P ws ws'
  unfolding handle_new_peer_msg
  handle_new_peer_msg-Safe {P = P} ws ws' now p h =
      let ws1 = put_peer b H L ws p (fresh_state b H L ws p) in
      Safe-trans b H L ws ws1 ws' (put_peer-Safe b H L ws p (fresh_state b H L ws p))
        (elim (Bool-cases (is_some ws.sync_peer)) [
          | inl busy ↦ subst (Safe b H L P ws1) (ok-injective (rw busy at h)) (Safe-refl b H L ws1)
          | inr free ↦ sync_unless_current-Safe ws1 ws' now (rw free at h)
        ])

  -- Without the peer, and without a peer to sync from if it was that one.
  dropped-Safe :
      {P : BlockHeader → Type 0} (ws : Ws b H L) (p : ℕ) (hashes : List ℕ) (sync : Option ℕ)
      → (sync ≡ none) ⊎ ((sync ≡ ws.sync_peer) × (same_peer ws.sync_peer p ≡ false))
      → Safe b H L P ws (record ws {
        peer_states = drop_state p ws.peer_states;
        requested_blocks = drop_hashes hashes ws.requested_blocks;
        sync_peer = sync;
      })
  dropped-Safe ws p hashes sync cases = record {
    commits = stay;
    sound = λ s. record {
      sync_known = λ q e. elim cases [
        | inl nobody ↦ cc
        | inr (same, other) ↦
            let at : ws.sync_peer ≡ some q = sym same ∙ e in
            let apart : (p == q) ≡ false = elim (Bool-cases (p == q)) [
              | inl eq ↦
                  cc (ap (λ x. same_peer x p) at, other, (==_iff q p).1 (sym ((==_iff p q).0 eq)))
              | inr ne ↦ ne
            ] in
            let (t, k) = s.sync_known q at in
            (t, find_state-drop_state_ne q p ws.peer_states apart ∙ k)
      ];
      none_requested = drop_hashes_none b H L hashes ws.requested_blocks s.none_requested;
    };
  }

  lose_peer-Safe :
      {P : BlockHeader → Type 0} (ws ws' : Ws b H L) (now p : ℕ) (state : Option PeerSyncState)
      → lose_peer b H L ws now p state ≡ ok ws'
      → Safe b H L P ws ws'
  unfolding lose_peer
  lose_peer-Safe {P = P} ws ws' now p none h =
      subst (Safe b H L P ws) (ok-injective h) (Safe-refl b H L ws)
  lose_peer-Safe {P = P} ws ws' now p (some state) h =
      elim (Bool-cases (same_peer ws.sync_peer p)) [
        | inl at ↦
            let left : Ws b H L = record ws {
              peer_states = drop_state p ws.peer_states;
              requested_blocks = drop_hashes state.requested_blocks ws.requested_blocks;
              sync_peer = none;
            } in
            Safe-trans b H L ws left ws' (dropped-Safe ws p state.requested_blocks none (inl refl))
              (sync_unless_current-Safe left ws' now (rw at at h))
        | inr other ↦
            subst (Safe b H L P ws) (ok-injective (rw other at h))
              (dropped-Safe ws p state.requested_blocks ws.sync_peer (inr (refl, other)))
      ]

  pub handle_done_peer_msg-Safe :
      {P : BlockHeader → Type 0} (ws ws' : Ws b H L) (now p : ℕ)
      → handle_done_peer_msg b H L ws now p ≡ ok ws'
      → Safe b H L P ws ws'
  unfolding handle_done_peer_msg
  handle_done_peer_msg-Safe ws ws' now p h =
      lose_peer-Safe ws ws' now p (find_state p ws.peer_states) h

  -- A header of the message that is older than 90 minutes.
  abbrev pub Old : ℕ → List BlockHeader → BlockHeader → Type 0
  Old now headers h = Elem h headers × (h.timestamp + recent < now)

  commit_headers-Safe :
      {P : BlockHeader → Type 0} (ws : Ws b H L) (now p bad : ℕ) (headers : List BlockHeader)
      (out : Ws b H L × Option ℕ)
      → ((h : BlockHeader) → Old now headers h → P h)
      → commit_headers b H L ws now p bad headers ≡ ok out
      → Safe b H L P ws out.0
  unfolding commit_headers
  commit_headers-Safe {P = P} ws now p bad [] out good h =
      subst (λ (o : Ws b H L × Option ℕ). Safe b H L P ws o.0) (ok-injective h) (Safe-refl b H L ws)
  commit_headers-Safe {P = P} ws now p bad (header ∷ rest) out good h =
      elim (Bool-cases (ltb (header.timestamp + recent) now)) [
        | inr new ↦
            subst (λ (o : Ws b H L × Option ℕ). Safe b H L P ws o.0)
              (ok-injective (rw (new, commit_headers) at h)) (send-Safe b H L ws _)
        | inl old ↦
            let (done, tried, e) =
              >>=-eq-ok (attempt (Blockchain.commit_header b H ws.chain header)) _
                (rw (old, commit_headers) at h) in
            let first : Safe b H L P ws (after_commit b H L ws done) =
              elim (attempt_cases (Blockchain.commit_header b H ws.chain header) done tried) [
                | inl ((bc, c), fine, is) ↦
                    subst (λ d. Safe b H L P ws (after_commit b H L ws d)) (sym is)
                      (commit-Safe b H L ws header bc c (good header (inl refl, ground arith)) fine)
                | inr (x, failed, is) ↦
                    subst (λ d. Safe b H L P ws (after_commit b H L ws d)) (sym is)
                      (Safe-refl b H L ws)
              ] in
            Safe-trans b H L ws (after_commit b H L ws done) out.0 first (
              commit_headers-Safe (after_commit b H L ws done) now p (count_bad b H L bad done) rest
                out (λ x (o : Old now rest x). good x (inr o.0, o.1)) e)
      ]

  ask_more-Safe :
      {P : BlockHeader → Type 0} (p : ℕ) (out : Ws b H L × Option ℕ)
      → Safe b H L P out.0 (ask_more b H L p out)
  unfolding ask_more
  ask_more-Safe p (ws, none) = Safe-refl b H L ws
  ask_more-Safe p (ws, some bad) = send-Safe b H L ws _

  take_headers-Safe :
      (ws ws' : Ws b H L) (now p : ℕ) (headers : List BlockHeader) (state : Option PeerSyncState)
      → take_headers b H L ws now p headers state ≡ ok ws'
      → Safe b H L (Old now headers) ws ws'
  unfolding take_headers
  take_headers-Safe ws ws' now p headers none h =
      subst (Safe b H L (Old now headers) ws) (ok-injective h) (send-Safe b H L ws _)
  take_headers-Safe ws ws' now p [] (some state) h =
      subst (Safe b H L (Old now []) ws) (ok-injective h) (Safe-refl b H L ws)
  take_headers-Safe ws ws' now p (header ∷ rest) (some state) h =
      let P = Old now (header ∷ rest) in
      let (out, ran, e) = >>=-eq-ok (commit_headers b H L ws now p 0 (header ∷ rest)) _ h in
      subst (Safe b H L P ws) (ok-injective e) (
        Safe-trans b H L ws out.0 (ask_more b H L p out)
          (commit_headers-Safe ws now p 0 (header ∷ rest) out (λ x good. good) ran)
          (ask_more-Safe p out))

  same_peer_sound : (x : Option ℕ) (p : ℕ) → same_peer x p ≡ true → x ≡ some p
  same_peer_sound none p e = cc
  same_peer_sound (some q) p e = ap some ((==_iff q p).0 e)

  handle_headers_msg_cases :
      (ws ws' : Ws b H L) (now p : ℕ) (headers : List BlockHeader)
      → handle_headers_msg b H L ws now p headers ≡ ok ws'
      → ((ws.sync_peer ≡ some p) × Safe b H L (Old now headers) ws ws')
        ⊎ ((ws.sync_peer ≢ some p) × (ws' ≡ send b H L ws (disconnect p)))
  unfolding handle_headers_msg
  handle_headers_msg_cases ws ws' now p headers h = elim (Bool-cases (same_peer ws.sync_peer p)) [
    | inr other ↦ inr (
      (λ e. cc (ap (λ x. same_peer x p) e, other, (==_iff p p).1 refl)),
      sym (ok-injective (rw other at h)),
    )
    | inl at ↦ inl (
      same_peer_sound ws.sync_peer p at,
      take_headers-Safe ws ws' now p headers (find_state p ws.peer_states) (rw at at h),
    )
  ]

  pub handle_headers_msg-Safe :
      (ws ws' : Ws b H L) (now p : ℕ) (headers : List BlockHeader)
      → handle_headers_msg b H L ws now p headers ≡ ok ws'
      → Safe b H L (Old now headers) ws ws'
  handle_headers_msg-Safe ws ws' now p headers h =
      elim (handle_headers_msg_cases ws ws' now p headers h) [
        | inl (_, safe) ↦ safe
        | inr (_, e) ↦
            subst (Safe b H L (Old now headers) ws) (sym e) (send-Safe b H L ws (disconnect p))
      ]

  -- Headers count only from the peer that is synced from; any other peer is disconnected, and
  -- nothing else happens. From that peer, only headers of the message that are older than 90
  -- minutes are committed, each by a successful CommitHeader.
  pub handle_headers_msg_effect :
      (ws ws' : Ws b H L) (now p : ℕ) (headers : List BlockHeader)
      → handle_headers_msg b H L ws now p headers ≡ ok ws'
      → ((ws.sync_peer ≡ some p) × Commits b H L (Old now headers) ws.chain ws'.chain)
        ⊎ ((ws.sync_peer ≢ some p) × (ws' ≡ send b H L ws (disconnect p)))
  handle_headers_msg_effect ws ws' now p headers h =
      elim (handle_headers_msg_cases ws ws' now p headers h) [
        | inl (at, safe) ↦ inl (at, safe.commits)
        | inr other ↦ inr other
      ]
