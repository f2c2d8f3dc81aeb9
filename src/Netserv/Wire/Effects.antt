-- ===== src/Netserv/Wire/Effects.antt =====
-- What a message may change: an invariant of the peers, and commits of headers to the chain.
use spvwallet.Prelude.{
  ℕ, ◌≡◌, inl, inr, sym, ap, subst, ◌∙◌, Option, some, List, [], ◌∷◌, ok, some-injective,
}
use spvwallet.Chain.Types.{BlockHeader, Btcd}
use spvwallet.Chain.Headers.{Headers}
use spvwallet.Chain.Blockchain
use spvwallet.Chain.Blockchain.{Blockchain, Commit}
use spvwallet.Netserv.Types.{PeerLib, PeerSyncState, Action, drop_hash, drop_hashes}
use spvwallet.Netserv.Wire.{WireService, send, put_peer, start_sync}
use spvwallet.Netserv.Wire.Peers.{Known, Known-put_state}
use spvwallet.Netserv.Wire.Syncing.{start_sync-Synced}

module _ (b : Btcd) (H : Headers) (L : PeerLib) where
  abbrev Ws : Type 0
  Ws = WireService b H L

  -- The peer that is synced from is known, and no block is on the list of requested ones.
  pub record Sound (ws : Ws) : Type 0 where
    pub sync_known : (p : ℕ) → ws.sync_peer ≡ some p → Known p ws.peer_states
    pub none_requested : ws.requested_blocks ≡ []

  -- From one chain to another by successful commits of headers that satisfy `P`.
  pub data Commits (P : BlockHeader → Type 0) : Blockchain b H → Blockchain b H → Type 0 where
    stay : {bc : Blockchain b H} → Commits P bc bc
    then_commit :
        {bc bc' bc'' : Blockchain b H} (header : BlockHeader) (c : Commit)
        → P header
        → Blockchain.commit_header b H bc header ≡ ok (bc', c)
        → Commits P bc' bc''
        → Commits P bc bc''

  pub record Safe (P : BlockHeader → Type 0) (ws ws' : Ws) : Type 0 where
    pub commits : Commits P ws.chain ws'.chain
    pub sound : Sound ws → Sound ws'

  pub Commits-trans :
      {P : BlockHeader → Type 0} {x y z : Blockchain b H}
      → Commits P x y
      → Commits P y z
      → Commits P x z
  Commits-trans stay g = g
  Commits-trans (then_commit h c ok_h done f) g = then_commit h c ok_h done (Commits-trans f g)

  pub Commits-weaken :
      {P Q : BlockHeader → Type 0} {x y : Blockchain b H}
      → ((h : BlockHeader) → P h → Q h)
      → Commits P x y
      → Commits Q x y
  Commits-weaken imp stay = stay
  Commits-weaken imp (then_commit h c ok_h done f) =
      then_commit h c (imp h ok_h) done (Commits-weaken imp f)

  pub Safe-trans : {P : BlockHeader → Type 0} (x y z : Ws) → Safe P x y → Safe P y z → Safe P x z
  Safe-trans x y z f g = record {
    commits = Commits-trans f.commits g.commits;
    sound = λ s. g.sound (f.sound s);
  }

  pub Safe-refl : {P : BlockHeader → Type 0} (ws : Ws) → Safe P ws ws
  Safe-refl ws = record { commits = stay; sound = λ s. s }

  pub send-Safe : {P : BlockHeader → Type 0} (ws : Ws) (a : Action) → Safe P ws (send b H L ws a)
  send-Safe ws a = record {
    commits = stay;
    sound = λ s. record { sync_known = s.sync_known; none_requested = s.none_requested };
  }

  pub heights-Safe :
      {P : BlockHeader → Type 0} (ws : Ws) (hs : L.Heights) → Safe P ws (record ws { heights = hs })
  heights-Safe ws hs = record {
    commits = stay;
    sound = λ s. record { sync_known = s.sync_known; none_requested = s.none_requested };
  }

  pub put_peer-Safe :
      {P : BlockHeader → Type 0} (ws : Ws) (p : ℕ) (state : PeerSyncState)
      → Safe P ws (put_peer b H L ws p state)
  put_peer-Safe ws p state = record {
    commits = stay;
    sound = λ s. record {
      sync_known = λ q e. Known-put_state q p state ws.peer_states (s.sync_known q e);
      none_requested = s.none_requested;
    };
  }

  pub requested-Safe :
      {P : BlockHeader → Type 0} (ws : Ws) (rest : List ℕ)
      → (ws.requested_blocks ≡ [] → rest ≡ [])
      → Safe P ws (record ws { requested_blocks = rest })
  requested-Safe ws rest empties = record {
    commits = stay;
    sound = λ s. record { sync_known = s.sync_known; none_requested = empties s.none_requested };
  }

  pub commit-Safe :
      {P : BlockHeader → Type 0} (ws : Ws) (header : BlockHeader) (bc : Blockchain b H) (c : Commit)
      → P header
      → Blockchain.commit_header b H ws.chain header ≡ ok (bc, c)
      → Safe P ws (record ws { chain = bc })
  commit-Safe ws header bc c good done = record {
    commits = then_commit header c good done stay;
    sound = λ s. record { sync_known = s.sync_known; none_requested = s.none_requested };
  }

  pub drop_hash_none : (h : ℕ) (l : List ℕ) → l ≡ [] → drop_hash h l ≡ []
  unfolding drop_hash
  drop_hash_none h l e = ap (drop_hash h) e

  pub drop_hashes_none : (hs l : List ℕ) → l ≡ [] → drop_hashes hs l ≡ []
  unfolding drop_hashes
  drop_hashes_none [] l e = e
  drop_hashes_none (h ∷ hs) l e = drop_hashes_none hs (drop_hash h l) (drop_hash_none h l e)

  -- A sync that is asked for a known peer, or for none in particular.
  pub start_sync-Safe :
      {P : BlockHeader → Type 0} (ws ws' : Ws) (now : ℕ) (asked : Option ℕ)
      → (Sound ws → (p : ℕ) → asked ≡ some p → Known p ws.peer_states)
      → start_sync b H L ws now asked ≡ ok ws'
      → Safe P ws ws'
  start_sync-Safe {P = P} ws ws' now asked known h =
      let y = start_sync-Synced b H L ws ws' now asked h in
      record {
        commits = subst (λ x. Commits P ws.chain x) (sym y.same_chain) stay;
        sound = λ s. record {
          sync_known = λ p e. elim y.chosen [
            | inl (same, _) ↦ y.keeps p (s.sync_known p (sym same ∙ e))
            | inr (q, at, _, inl wanted) ↦ y.keeps p (known s p (wanted ∙ sym at ∙ e))
            | inr (q, at, _, inr k) ↦
                subst (λ x. Known x ws'.peer_states) (some-injective (sym at ∙ e)) k
          ];
          none_requested = elim y.chosen [
            | inl (_, same) ↦ same ∙ s.none_requested
            | inr (_, _, none_left, _) ↦ none_left
          ];
        };
      }
