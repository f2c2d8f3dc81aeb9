-- ===== src/Netserv/Wire/Syncing.antt =====
-- What startSync does, and that it finds a peer where there is one to find.
use spvwallet.Prelude.{
  ℕ, ◌≤◌, ◌≡◌, ◌⊎◌, inl, inr, refl, sym, subst, true, false, Option, none, some, [], length, ltb,
  Result, ok, err, panic, stuck, attempt, >>=-eq-ok, ok-injective, Bool-cases, Elem, arith,
}
use spvwallet.Prelude.Int.{pos, ltz, to_int32}
use spvwallet.Chain.Types.{StoredHeader, Error, Btcd}
use spvwallet.Chain.Headers.{Headers}
use spvwallet.Chain.Blockchain
use spvwallet.Netserv.Types.{PeerLib, PeerSyncState, PeerStates}
use spvwallet.Netserv.Wire.{
  WireService, remains, pick_peer, sync_with, sync_if_found, begin_sync, start_sync,
}
use spvwallet.Netserv.Wire.Peers.{Known, Elem-Known}
use spvwallet.Netserv.Wire.Picking.{
  Candidate, picked, picked-Candidate, picked_highest, Known-pick_peer,
}

pub attempt_cases :
    {A : Type 0} (r : Result Error A) (o : Option A)
    → attempt r ≡ ok o
    → ((a : A) × (r ≡ ok a) × (o ≡ some a)) ⊎ ((x : Error) × (r ≡ err x) × (o ≡ none))
attempt_cases (ok a) o h = inl (a, refl, sym (ok-injective h))
attempt_cases (err x) o h = inr (x, refl, sym (ok-injective h))
attempt_cases panic o h = cc
attempt_cases stuck o h = cc

module _ (b : Btcd) (H : Headers) (L : PeerLib) where
  -- What `startSync asked` may change.
  pub record Synced (ws : WireService b H L) (asked : Option ℕ) (ws' : WireService b H L)
      : Type 0 where
    pub same_chain : ws'.chain ≡ ws.chain
    pub same_params : ws'.params ≡ ws.params
    pub keeps : (p : ℕ) → Known p ws.peer_states → Known p ws'.peer_states
    pub chosen :
        ((ws'.sync_peer ≡ ws.sync_peer) × (ws'.requested_blocks ≡ ws.requested_blocks))
        ⊎ ((p : ℕ) × (ws'.sync_peer ≡ some p)
            × (ws'.requested_blocks ≡ [])
            × ((asked ≡ some p) ⊎ Known p ws'.peer_states))

  Synced-refl : (ws : WireService b H L) (asked : Option ℕ) → Synced ws asked ws
  Synced-refl ws asked = record {
    same_chain = refl;
    same_params = refl;
    keeps = λ p k. k;
    chosen = inl (refl, refl);
  }

  sync_if_found-Synced :
      (ws : WireService b H L) (now : ℕ) (best : StoredHeader) (states : PeerStates)
      (choice : Option ℕ)
      → ((p : ℕ) → Known p ws.peer_states → Known p states)
      → ((p : ℕ) → choice ≡ some p → Known p states)
      → Synced ws none (sync_if_found b H L (record ws { peer_states = states }) now best choice)
  unfolding sync_if_found sync_with
  sync_if_found-Synced ws now best states none keeps known = record {
    same_chain = refl;
    same_params = refl;
    keeps = keeps;
    chosen = inl (refl, refl);
  }
  sync_if_found-Synced ws now best states (some p) keeps known = record {
    same_chain = refl;
    same_params = refl;
    keeps = keeps;
    chosen = inr (p, refl, refl, inr (known p refl));
  }

  begin_sync-Synced :
      (ws : WireService b H L) (now : ℕ) (asked : Option ℕ) (best : Option StoredHeader)
      → Synced ws asked (begin_sync b H L ws now asked best)
  unfolding begin_sync sync_with
  begin_sync-Synced ws now asked none = Synced-refl ws asked
  begin_sync-Synced ws now (some p) (some best) = record {
    same_chain = refl;
    same_params = refl;
    keeps = λ q k. k;
    chosen = inr (p, refl, refl, inl refl);
  }
  begin_sync-Synced ws now none (some best) =
      let h = to_int32 best.height in
      let l = ws.peer_states in
      let keeps = λ (p : ℕ). Known-pick_peer b H L ws.heights h l none (pos 0) p in
      sync_if_found-Synced ws now best (pick_peer b H L ws.heights h l none (pos 0)).0
        (picked b H L ws.heights h l none (pos 0)) keeps
        (λ p e. elim (picked-Candidate b H L ws.heights h l none (pos 0) p e) [
          | inl q ↦ cc
          | inr (s, inside, _) ↦ keeps p (Elem-Known l p s inside)
        ])

  pub start_sync-Synced :
      (ws ws' : WireService b H L) (now : ℕ) (asked : Option ℕ)
      → start_sync b H L ws now asked ≡ ok ws'
      → Synced ws asked ws'
  unfolding start_sync
  start_sync-Synced ws ws' now asked h =
      elim (Bool-cases (ltb (length ws.peer_states) ws.min_peers_for_sync)) [
        | inl few ↦ subst (Synced ws asked) (ok-injective (rw few at h)) (Synced-refl ws asked)
        | inr many ↦
            let (best, _, e) =
              >>=-eq-ok (attempt (Blockchain.best_block b H ws.chain)) _ (rw many at h) in
            subst (Synced ws asked) (ok-injective e) (begin_sync-Synced ws now asked best)
      ]

  -- With enough peers and a best header, and a peer that is a candidate, and whose last block is
  -- above zero and not below the best header: a sync without a given peer finds a peer to sync from
  -- that is a candidate too, and whose last block is not below that one's.
  pub start_sync_finds :
      (ws : WireService b H L) (now : ℕ) (best : StoredHeader) (p : ℕ) (s : PeerSyncState)
      → ws.min_peers_for_sync ≤ length ws.peer_states
      → Blockchain.best_block b H ws.chain ≡ ok best
      → Elem (p, s) ws.peer_states
      → remains b H L ws.heights (to_int32 best.height) p s ≡ true
      → ltz (pos 0) (L.last_block ws.heights p) ≡ true
      → (ws' : WireService b H L) × (q : ℕ) × (start_sync b H L ws now none ≡ ok ws')
        × (ws'.sync_peer ≡ some q)
        × Candidate b H L ws.heights (to_int32 best.height) q ws.peer_states
        × (ltz (L.last_block ws.heights q) (L.last_block ws.heights p) ≡ false)
  unfolding start_sync begin_sync sync_if_found sync_with
  start_sync_finds ws now best p s many top inside good above =
      let h = to_int32 best.height in
      let l = ws.peer_states in
      let (q, choice, high) =
        picked_highest b H L ws.heights h l none (pos 0) p s inside good (inl above) in
      let enough : ltb (length l) ws.min_peers_for_sync ≡ false = ground arith in
      (
        sync_with b H L
            (record ws { peer_states = (pick_peer b H L ws.heights h l none (pos 0)).0 }) now best
            q,
        q,
        rw (enough, top) (rw choice refl),
        refl,
        elim (picked-Candidate b H L ws.heights h l none (pos 0) q choice) [
          | inl e ↦ cc
          | inr c ↦ c
        ],
        high,
      )
