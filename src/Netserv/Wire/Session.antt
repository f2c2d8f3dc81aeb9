-- ===== src/Netserv/Wire/Session.antt =====
-- A running wire service over HeaderDB: any messages, in any order, from any peers.
use spvwallet.Prelude.{ℕ, ◌<◌, ◌≡◌, refl, ◌∙◌, Bool, none, List, ok}
use spvwallet.Prelude.{All, All-elem, ◌^◌}
use spvwallet.Chain.Types.{BlockHeader, StoredHeader, Params, BtcdLaws, IsWire}
use spvwallet.Chain.Cache.{Env}
use spvwallet.Chain.HeaderDb.{HeaderDb, get_header}
use spvwallet.Chain.HeaderDb.Interface.{header_db}
use spvwallet.Chain.Blockchain.{new_blockchain}
use spvwallet.Chain.Blockchain.Rooted.{Rooted}
use spvwallet.Chain.Session
use spvwallet.Chain.Session.{Chain, IsEmpty, root_of, Reach-Rooted}
use spvwallet.Netserv.Types.{PeerLib, PeerStates, InvVect, find_state}
use spvwallet.Netserv.Wire.{WireService, new_wire_service, resync, resync_with_nil, stop}
use spvwallet.Netserv.Wire.Handlers.{handle_new_peer_msg, handle_done_peer_msg, handle_headers_msg}
use spvwallet.Netserv.Wire.Blocks.{handle_merkle_block_msg, handle_inv_msg}
use spvwallet.Netserv.Wire.Effects.{
  Sound, Commits, stay, then_commit, Safe, Commits-weaken, start_sync-Safe, heights-Safe,
}
use spvwallet.Netserv.Wire.Arrivals.{
  Old, handle_new_peer_msg-Safe, handle_done_peer_msg-Safe, handle_headers_msg-Safe,
}
use spvwallet.Netserv.Wire.Requests.{handle_merkle_block_msg-Safe}
use spvwallet.Netserv.Wire.Inventories.{handle_inv_msg-Safe}

module _ (e : Env) (L : PeerLib) where
  open e use {btcd}

  abbrev pub Service : Type 0
  Service = WireService btcd (header_db e) L

  -- The handlers run one by one. In between, btcd may change the heights of the peers, a range over
  -- the map may go another way, and the rest of the program may change the chain.
  pub data Step : Service → Service → Type 0 where
    new_peer :
        {ws ws' : Service} (now p : ℕ)
        → handle_new_peer_msg btcd (header_db e) L ws now p ≡ ok ws'
        → Step ws ws'
    done_peer :
        {ws ws' : Service} (now p : ℕ)
        → handle_done_peer_msg btcd (header_db e) L ws now p ≡ ok ws'
        → Step ws ws'
    headers :
        {ws ws' : Service} (now p : ℕ) (hs : List BlockHeader)
        → All IsWire hs
        → handle_headers_msg btcd (header_db e) L ws now p hs ≡ ok ws'
        → Step ws ws'
    merkle_block :
        {ws ws' : Service} (now p : ℕ) (header : BlockHeader)
        → IsWire header
        → handle_merkle_block_msg btcd (header_db e) L ws now p header ≡ ok ws'
        → Step ws ws'
    inv :
        {ws ws' : Service} (now p : ℕ) (invs : List InvVect)
        → handle_inv_msg btcd (header_db e) L ws now p invs ≡ ok ws'
        → Step ws ws'
    again : {ws ws' : Service} (now : ℕ) → resync btcd (header_db e) L ws now ≡ ok ws' → Step ws ws'
    again_nil :
        {ws ws' : Service} (now : ℕ)
        → resync_with_nil btcd (header_db e) L ws now ≡ ok ws'
        → Step ws ws'
    stopped : {ws : Service} → Step ws (stop btcd (header_db e) L ws)
    grow : {ws : Service} (hs : L.Heights) → Step ws (record ws { heights = hs })
    reorder :
        {ws : Service} (states : PeerStates)
        → ((p : ℕ) → find_state p states ≡ find_state p ws.peer_states)
        → Step ws (record ws { peer_states = states })
    chain_step :
        {ws : Service} (bc : Chain e)
        → Session.Step e ws.chain bc
        → Step ws (record ws { chain = bc })

  pub data Reach (first : Service) : Service → Type 0 where
    here : Reach first first
    next : {ws ws' : Service} → Reach first ws → Step ws ws' → Reach first ws'

  -- The chain is reached by steps of the chain, and the invariant holds.
  record Good (bc : Chain e) (ws : Service) : Type 0 where
    pub reached : Session.Reach e bc ws.chain
    pub sound : Sound btcd (header_db e) L ws

  Commits-Reach :
      (bc : Chain e) {x y : Chain e}
      → Session.Reach e bc x
      → Commits btcd (header_db e) L IsWire x y
      → Session.Reach e bc y
  Commits-Reach bc r stay = r
  Commits-Reach bc r (then_commit header c wire done rest) =
      Commits-Reach bc (Session.next r (Session.commit header c wire done)) rest

  Safe-Good :
      (bc : Chain e) (ws ws' : Service)
      → Good bc ws
      → Safe btcd (header_db e) L IsWire ws ws'
      → Good bc ws'
  Safe-Good bc ws ws' g f = record {
    reached = Commits-Reach bc g.reached f.commits;
    sound = f.sound g.sound;
  }

  headers-Safe :
      (ws ws' : Service) (now p : ℕ) (hs : List BlockHeader)
      → All IsWire hs
      → handle_headers_msg btcd (header_db e) L ws now p hs ≡ ok ws'
      → Safe btcd (header_db e) L IsWire ws ws'
  headers-Safe ws ws' now p hs wires h =
      let f = handle_headers_msg-Safe btcd (header_db e) L ws ws' now p hs h in
      record {
        commits =
            Commits-weaken btcd (header_db e) L
              (λ x (o : Old btcd (header_db e) L now hs x). All-elem IsWire hs x wires o.0)
              f.commits;
        sound = f.sound;
      }

  resync-Safe :
      (ws ws' : Service) (now : ℕ)
      → resync btcd (header_db e) L ws now ≡ ok ws'
      → Safe btcd (header_db e) L IsWire ws ws'
  unfolding resync
  resync-Safe ws ws' now h =
      start_sync-Safe btcd (header_db e) L ws ws' now ws.sync_peer (λ s p at. s.sync_known p at) h

  resync_with_nil-Safe :
      (ws ws' : Service) (now : ℕ)
      → resync_with_nil btcd (header_db e) L ws now ≡ ok ws'
      → Safe btcd (header_db e) L IsWire ws ws'
  unfolding resync_with_nil
  resync_with_nil-Safe ws ws' now h =
      start_sync-Safe btcd (header_db e) L ws ws' now none (λ s p at. cc) h

  stop-Safe : (ws : Service) → Safe btcd (header_db e) L IsWire ws (stop btcd (header_db e) L ws)
  unfolding stop
  stop-Safe ws = record {
    commits = stay;
    sound = λ s. record { sync_known = λ p at. cc; none_requested = s.none_requested };
  }

  Step-Good : (bc : Chain e) {ws ws' : Service} → Step ws ws' → Good bc ws → Good bc ws'
  Step-Good bc {ws = ws} {ws' = ws'} (new_peer now p h) g =
      Safe-Good bc ws ws' g (handle_new_peer_msg-Safe btcd (header_db e) L ws ws' now p h)
  Step-Good bc {ws = ws} {ws' = ws'} (done_peer now p h) g =
      Safe-Good bc ws ws' g (handle_done_peer_msg-Safe btcd (header_db e) L ws ws' now p h)
  Step-Good bc {ws = ws} {ws' = ws'} (headers now p hs wires h) g =
      Safe-Good bc ws ws' g (headers-Safe ws ws' now p hs wires h)
  Step-Good bc {ws = ws} {ws' = ws'} (merkle_block now p header wire h) g = Safe-Good bc ws ws' g (
      handle_merkle_block_msg-Safe btcd (header_db e) L IsWire ws ws' now p header (λ s f u. wire)
        h)
  Step-Good bc {ws = ws} {ws' = ws'} (inv now p invs h) g =
      Safe-Good bc ws ws' g (handle_inv_msg-Safe btcd (header_db e) L ws ws' now p invs h)
  Step-Good bc {ws = ws} {ws' = ws'} (again now h) g =
      Safe-Good bc ws ws' g (resync-Safe ws ws' now h)
  Step-Good bc {ws = ws} {ws' = ws'} (again_nil now h) g =
      Safe-Good bc ws ws' g (resync_with_nil-Safe ws ws' now h)
  Step-Good bc {ws = ws} stopped g = Safe-Good bc ws (stop btcd (header_db e) L ws) g (stop-Safe ws)
  Step-Good bc {ws = ws} (grow hs) g =
      Safe-Good bc ws (record ws { heights = hs }) g (heights-Safe btcd (header_db e) L ws hs)
  Step-Good bc {ws = ws} (reorder states same) g = record {
    reached = g.reached;
    sound = record {
      sync_known = λ p at. let (s, k) = g.sound.sync_known p at in (s, same p ∙ k);
      none_requested = g.sound.none_requested;
    };
  }
  Step-Good bc {ws = ws} (chain_step bc' step) g = record {
    reached = Session.next g.reached step;
    sound = record { sync_known = g.sound.sync_known; none_requested = g.sound.none_requested };
  }

  Reach-Good : (bc : Chain e) {first ws : Service} → Good bc first → Reach first ws → Good bc ws
  Reach-Good bc g here = g
  Reach-Good bc g (next r step) = Step-Good bc step (Reach-Good bc g r)

  new-Good :
      (params : Params) (bc : Chain e) (min : ℕ) (hs : L.Heights)
      → Good bc (new_wire_service btcd (header_db e) L params bc min hs)
  unfolding new_wire_service
  new-Good params bc min hs = record {
    reached = Session.here;
    sound = record { sync_known = λ p at. cc; none_requested = refl };
  }

  -- From the start of the service on, after any steps: the peer that is synced from is known, and
  -- the service's own list of requested blocks is empty.
  pub Reach-Sound :
      (params : Params) (bc : Chain e) (min : ℕ) (hs : L.Heights) (ws : Service)
      → Reach (new_wire_service btcd (header_db e) L params bc min hs) ws
      → Sound btcd (header_db e) L ws
  Reach-Sound params bc min hs ws r = (Reach-Good bc (new-Good params bc min hs) r).sound

  -- The service is started over a chain that is opened on an empty database, with a checkpoint that
  -- fits the wire format, over a btcd that has its documented laws. Whatever messages peers send,
  -- with headers that fit the wire format, and in whatever order: a header that is found afterwards
  -- is found under its own hash, and ends a chain from the checkpoint with links and proofs of work.
  pub served-Rooted :
      (d : HeaderDb e) (p : Params) (is_open : Bool) (genesis : BlockHeader) (now h min : ℕ)
      (hs : L.Heights) (first : Chain e) (ws : Service) (sh : StoredHeader)
      → BtcdLaws btcd
      → IsEmpty e d
      → IsWire (root_of e genesis now p).header
      → (root_of e genesis now p).height < 2 ^ 32
      → new_blockchain btcd (header_db e) d p is_open genesis now ≡ ok first
      → Reach (new_wire_service btcd (header_db e) L p first min hs) ws
      → get_header e ws.chain.db h ≡ ok sh
      → Rooted btcd p (root_of e genesis now p) sh × (btcd.block_hash sh.header ≡ h)
  served-Rooted d p is_open genesis now h min hs first ws sh laws empty wire low made r found =
      Reach-Rooted e d p is_open genesis now h first ws.chain sh laws empty wire low made
        (Reach-Good first (new-Good p first min hs) r).reached found
