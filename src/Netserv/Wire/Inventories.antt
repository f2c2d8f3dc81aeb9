-- ===== src/Netserv/Wire/Inventories.antt =====
-- What inventories may change, and which blocks they make the service ask for.
use spvwallet.Prelude.{
  ℕ, ◌≡◌, ◌⊎◌, inl, inr, refl, sym, ap, subst, ◌∙◌, ==_iff, Bool, true, false, not, ◌&&◌, ◌||◌,
  Option, none, some, List, [], ◌∷◌, ◌++◌, if◌then◌else◌, ok, attempt, >>=-eq-ok, ok-injective,
  Bool-cases, Option-cases,
}
use spvwallet.Prelude.{append_assoc}
use spvwallet.Chain.Types.{BlockHeader, Btcd}
use spvwallet.Chain.Headers.{Headers}
use spvwallet.Chain.Blockchain
use spvwallet.Netserv.Types.{
  PeerLib, PeerSyncState, InvVect, Action, queue_get_data, add_known_inventory,
  update_last_announced_block, add_hash, has_hash, find_state, same_peer,
}
use spvwallet.Netserv.Wire.{send, put_peer, current}
use spvwallet.Netserv.Wire.Handlers.{Ws}
use spvwallet.Netserv.Wire.Blocks.{
  have_inventory, enqueue, enqueue_all, ask_first, announce, known_height, take_inv, handle_inv_msg,
  last_block_of,
}
use spvwallet.Netserv.Wire.Peers.{find_state-put_state}
use spvwallet.Netserv.Wire.Effects.{Commits, Safe, Safe-trans, send-Safe, put_peer-Safe, stay}

-- Tells a peer what it has announced; asks for nothing.
pub data Notice : Action → Type 0 where
  known : (p : ℕ) (iv : InvVect) → Notice (add_known_inventory p iv)
  announced : (p hash : ℕ) → Notice (update_last_announced_block p hash)

pub data Notices : List Action → Type 0 where
  no_notice : Notices []
  notice : {a : Action} {l : List Action} → Notice a → Notices l → Notices (a ∷ l)

Notices-append : {l m : List Action} → Notices l → Notices m → Notices (l ++ m)
Notices-append no_notice k = k
Notices-append (notice n h) k = notice n (Notices-append h k)

module _ (b : Btcd) (H : Headers) (L : PeerLib) where
  -- Only notices are sent, and the chain, the peers and the peer that is synced from stay.
  record Quiet (ws ws' : Ws b H L) : Type 0 where
    pub told : List Action
    pub notices : Notices told
    pub sent : ws'.sent ≡ ws.sent ++ told
    pub same_chain : ws'.chain ≡ ws.chain
    pub same_peers : ws'.peer_states ≡ ws.peer_states
    pub same_sync : ws'.sync_peer ≡ ws.sync_peer
    pub same_requested : ws'.requested_blocks ≡ ws.requested_blocks

  append_nil : (l : List Action) → l ≡ l ++ []
  append_nil [] = refl
  append_nil (a ∷ l) = ap (◌∷◌ a) (append_nil l)

  Quiet-refl : (ws : Ws b H L) → Quiet ws ws
  Quiet-refl ws = record {
    told = [];
    notices = no_notice;
    sent = append_nil ws.sent;
    same_chain = refl;
    same_peers = refl;
    same_sync = refl;
    same_requested = refl;
  }

  Quiet-trans : (x y z : Ws b H L) → Quiet x y → Quiet y z → Quiet x z
  Quiet-trans x y z f g = record {
    told = f.told ++ g.told;
    notices = Notices-append f.notices g.notices;
    sent = g.sent ∙ ap (λ l. l ++ g.told) f.sent ∙ append_assoc x.sent f.told g.told;
    same_chain = g.same_chain ∙ f.same_chain;
    same_peers = g.same_peers ∙ f.same_peers;
    same_sync = g.same_sync ∙ f.same_sync;
    same_requested = g.same_requested ∙ f.same_requested;
  }

  send-Quiet : (ws : Ws b H L) (a : Action) → Notice a → Quiet ws (send b H L ws a)
  send-Quiet ws a n = record {
    told = a ∷ [];
    notices = notice n no_notice;
    sent = refl;
    same_chain = refl;
    same_peers = refl;
    same_sync = refl;
    same_requested = refl;
  }

  announce-Quiet :
      (ws : Ws b H L) (p : ℕ) (last : Option ℕ) (c : Bool) → Quiet ws (announce b H L ws p last c)
  announce-Quiet ws p (some hash) true = send-Quiet ws _ (announced p hash)
  announce-Quiet ws p (some hash) false = Quiet-refl ws
  announce-Quiet ws p none c = Quiet-refl ws

  heights-Quiet : (ws : Ws b H L) (hs : L.Heights) → Quiet ws (record ws { heights = hs })
  heights-Quiet ws hs = record {
    told = [];
    notices = no_notice;
    sent = append_nil ws.sent;
    same_chain = refl;
    same_peers = refl;
    same_sync = refl;
    same_requested = refl;
  }

  known_height-Quiet :
      (ws ws' : Ws b H L) (p : ℕ) (last : Option ℕ) (c : Bool)
      → known_height b H L ws p last c ≡ ok ws'
      → Quiet ws ws'
  unfolding known_height
  known_height-Quiet ws ws' p none c h = subst (Quiet ws) (ok-injective h) (Quiet-refl ws)
  known_height-Quiet ws ws' p (some hash) false h =
      subst (Quiet ws) (ok-injective h) (Quiet-refl ws)
  known_height-Quiet ws ws' p (some hash) true h =
      let (found, _, e) = >>=-eq-ok (attempt (Blockchain.get_header b H ws.chain hash)) _ h in
      elim (Option-cases found) [
        | inl n ↦ subst (Quiet ws) (ok-injective (rw n at e)) (Quiet-refl ws)
        | inr (sh, y) ↦ subst (Quiet ws) (ok-injective (rw y at e)) (heights-Quiet ws _)
      ]

  enqueue_all-Quiet :
      (ws : Ws b H L) (now p : ℕ) (state : PeerSyncState) (invs : List InvVect)
      (out : Ws b H L × PeerSyncState)
      → enqueue_all b H L ws now p state invs ≡ ok out
      → Quiet ws out.0
  unfolding enqueue_all
  enqueue_all-Quiet ws now p state [] out h =
      subst (λ (o : Ws b H L × PeerSyncState). Quiet ws o.0) (ok-injective h) (Quiet-refl ws)
  enqueue_all-Quiet ws now p state (iv ∷ rest) out h =
      let ws1 = send b H L ws (add_known_inventory p iv) in
      let (have, _, e) = >>=-eq-ok (have_inventory b H L ws1 iv) _ h in
      let (state', _, f) = >>=-eq-ok (enqueue b H L ws1 now state iv have) _ e in
      Quiet-trans ws ws1 out.0 (send-Quiet ws _ (known p iv))
        (enqueue_all-Quiet ws1 now p state' rest out f)

  -- After the notices at most one block is asked for, and its peer's list of requested blocks names it.
  pub record Asks (ws : Ws b H L) (p : ℕ) (ws' : Ws b H L) : Type 0 where
    pub told : List Action
    pub notices : Notices told
    pub same_chain : ws'.chain ≡ ws.chain
    pub asked :
        (ws'.sent ≡ ws.sent ++ told)
        ⊎ ((iv : InvVect) × (s : PeerSyncState) × (ws'.sent
              ≡ ws.sent ++ (told ++ (queue_get_data p (iv ∷ []) ∷ [])))
            × (find_state p ws'.peer_states ≡ some s)
            × (has_hash iv.hash s.requested_blocks ≡ true))

  has_hash-add_hash : (h : ℕ) (l : List ℕ) → has_hash h (add_hash h l) ≡ true
  has_hash-add_hash h l = elim (Bool-cases (has_hash h l)) [
    | inl y ↦ rw y y
    | inr n ↦ rw n (ap (λ x. x || has_hash h l) ((==_iff h h).1 refl))
  ]

  Quiet-Asks : (ws ws' : Ws b H L) (p : ℕ) → Quiet ws ws' → Asks ws p ws'
  Quiet-Asks ws ws' p q = record {
    told = q.told;
    notices = q.notices;
    same_chain = q.same_chain;
    asked = inl q.sent;
  }

  ask_first-Asks :
      (ws ws1 : Ws b H L) (p : ℕ) (state : PeerSyncState) (queue : List InvVect)
      → Quiet ws ws1
      → Asks ws p (ask_first b H L ws1 p state queue)
  unfolding ask_first
  ask_first-Asks ws ws1 p state [] q = record {
    told = q.told;
    notices = q.notices;
    same_chain = q.same_chain;
    asked = inl q.sent;
  }
  ask_first-Asks ws ws1 p state (iv ∷ rest) q =
      let state' : PeerSyncState = record state {
        request_queue = rest;
        requested_blocks = add_hash iv.hash state.requested_blocks;
      } in
      record {
        told = q.told;
        notices = q.notices;
        same_chain = q.same_chain;
        asked = inr (
          iv,
          state',
          ap (λ l. l ++ (queue_get_data p (iv ∷ []) ∷ [])) q.sent
              ∙ append_assoc ws.sent q.told (queue_get_data p (iv ∷ []) ∷ []),
          find_state-put_state p p state' ws1.peer_states
              ∙ ap (λ x. if x then some state' else find_state p ws1.peer_states)
                  ((==_iff p p).1 refl),
          has_hash-add_hash iv.hash state.requested_blocks,
        );
      }

  ask_first-Safe :
      {P : BlockHeader → Type 0} (ws : Ws b H L) (p : ℕ) (state : PeerSyncState)
      (queue : List InvVect)
      → Safe b H L P ws (ask_first b H L ws p state queue)
  unfolding ask_first
  ask_first-Safe ws p state [] = put_peer-Safe b H L ws p state
  ask_first-Safe ws p state (iv ∷ rest) =
      let mid = put_peer b H L ws p _ in
      Safe-trans b H L ws mid _ (put_peer-Safe b H L ws p _) (send-Safe b H L mid _)

  Quiet-Safe : {P : BlockHeader → Type 0} (ws ws' : Ws b H L) → Quiet ws ws' → Safe b H L P ws ws'
  Quiet-Safe {P = P} ws ws' q = record {
    commits = subst (λ x. Commits b H L P ws.chain x) (sym q.same_chain) stay;
    sound = λ s. record {
      sync_known = λ p e. rw q.same_peers (s.sync_known p (sym q.same_sync ∙ e));
      none_requested = q.same_requested ∙ s.none_requested;
    };
  }

  -- Either only notices were sent, or the queue of the peer was served at the end.
  take_inv_cases :
      (ws ws' : Ws b H L) (now p : ℕ) (invs : List InvVect) (state : Option PeerSyncState)
      → take_inv b H L ws now p invs state ≡ ok ws'
      → Quiet ws ws'
        ⊎ ((ws1 : Ws b H L) × (s : PeerSyncState) × Quiet ws ws1
            × (ask_first b H L ws1 p s s.request_queue ≡ ws'))
  unfolding take_inv
  take_inv_cases ws ws' now p invs none h = inl (subst (Quiet ws) (ok-injective h) (Quiet-refl ws))
  take_inv_cases ws ws' now p invs (some state) h =
      let last = last_block_of invs none in
      let (cur, _, e) = >>=-eq-ok (current b H L ws now) _ h in
      let counted = not (same_peer ws.sync_peer p) || cur in
      let ws1 = announce b H L ws p last counted in
      let q1 = announce-Quiet ws p last counted in
      elim (Bool-cases (not (same_peer ws.sync_peer p) && not cur)) [
        | inl away ↦ inl (subst (Quiet ws) (ok-injective (rw away at e)) q1)
        | inr here ↦
            let (told, t, f) = >>=-eq-ok (known_height b H L ws1 p last cur) _ (rw here at e) in
            let (out, o, g) = >>=-eq-ok (enqueue_all b H L told now p state invs) _ f in
            inr (
              out.0,
              out.1,
              Quiet-trans ws told out.0
                  (Quiet-trans ws ws1 told q1 (known_height-Quiet ws1 told p last cur t))
                  (enqueue_all-Quiet told now p state invs out o),
              ok-injective g,
            )
      ]

  pub handle_inv_msg-Safe :
      {P : BlockHeader → Type 0} (ws ws' : Ws b H L) (now p : ℕ) (invs : List InvVect)
      → handle_inv_msg b H L ws now p invs ≡ ok ws'
      → Safe b H L P ws ws'
  unfolding handle_inv_msg
  handle_inv_msg-Safe {P = P} ws ws' now p invs h =
      elim (take_inv_cases ws ws' now p invs (find_state p ws.peer_states) h) [
        | inl q ↦ Quiet-Safe ws ws' q
        | inr (ws1, s, q, e) ↦ subst (Safe b H L P ws) e (
            Safe-trans b H L ws ws1 _ (Quiet-Safe ws ws1 q)
              (ask_first-Safe ws1 p s s.request_queue))
      ]

  -- An inventory leaves the chain as it is. Beside notices of what the peer has, at most one block is
  -- asked for, and it is then on that peer's list of requested blocks.
  pub handle_inv_msg-Asks :
      (ws ws' : Ws b H L) (now p : ℕ) (invs : List InvVect)
      → handle_inv_msg b H L ws now p invs ≡ ok ws'
      → Asks ws p ws'
  unfolding handle_inv_msg
  handle_inv_msg-Asks ws ws' now p invs h =
      elim (take_inv_cases ws ws' now p invs (find_state p ws.peer_states) h) [
        | inl q ↦ Quiet-Asks ws ws' p q
        | inr (ws1, s, q, e) ↦ subst (Asks ws p) e (ask_first-Asks ws ws1 p s s.request_queue q)
      ]
