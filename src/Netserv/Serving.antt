-- ===== src/Netserv/Serving.antt =====
-- The loop of WireService.Start (netserv/wireserv.go) over the messages of the peer manager.
use spvwallet.Prelude.{
  ℕ, ◌≡◌, subst, List, [], ◌∷◌, All, Result, ok, ◌>>=◌, >>=-eq-ok, ok-injective,
}
use spvwallet.Chain.Types.{Error, Btcd, IsWire}
use spvwallet.Chain.Headers.{Headers}
use spvwallet.Chain.Cache.{Env}
use spvwallet.Chain.HeaderDb.Interface.{header_db}
use spvwallet.Netserv.Types.{PeerLib}
use spvwallet.Netserv.Wire.{WireService}
use spvwallet.Netserv.Wire.Handlers.{handle_new_peer_msg, handle_done_peer_msg, handle_headers_msg}
use spvwallet.Netserv.Wire.Blocks.{handle_merkle_block_msg, handle_inv_msg}
use spvwallet.Netserv.Wire.Session
use spvwallet.Netserv.Wire.Session.{Reach, Reach-Sound, served-Rooted}
use spvwallet.Netserv.Manager.{
  Msg, new_peer_msg, done_peer_msg, headers_msg, merkle_block_msg, inv_msg,
}

module _ (b : Btcd) (H : Headers) (L : PeerLib) where
  -- The switch on the type of a message.
  unfoldable pub dispatch : WireService b H L → ℕ → Msg → Result Error (WireService b H L)
  dispatch ws now (new_peer_msg p) = handle_new_peer_msg b H L ws now p
  dispatch ws now (done_peer_msg p) = handle_done_peer_msg b H L ws now p
  dispatch ws now (headers_msg p headers) = handle_headers_msg b H L ws now p headers
  dispatch ws now (merkle_block_msg p header) = handle_merkle_block_msg b H L ws now p header
  dispatch ws now (inv_msg p invs) = handle_inv_msg b H L ws now p invs

  -- The loop over messages, each with the time at which it is handled.
  unfoldable pub serve : WireService b H L → List (ℕ × Msg) → Result Error (WireService b H L)
  unfolding dispatch
  serve ws [] = ok ws
  serve ws ((now, msg) ∷ rest) = dispatch ws now msg >>= λ ws'. serve ws' rest

-- The headers of a message fit the wire format.
abbrev pub Fits : ℕ × Msg → Type 0
Fits (now, headers_msg p headers) = All IsWire headers
Fits (now, merkle_block_msg p header) = IsWire header
Fits (now, new_peer_msg p) = Unit {0}
Fits (now, done_peer_msg p) = Unit {0}
Fits (now, inv_msg p invs) = Unit {0}

module _ (e : Env) (L : PeerLib) where
  open e use {btcd}

  dispatch-Step :
      (ws ws' : WireService btcd (header_db e) L) (now : ℕ) (msg : Msg)
      → Fits (now, msg)
      → dispatch btcd (header_db e) L ws now msg ≡ ok ws'
      → Session.Step e L ws ws'
  unfolding dispatch
  dispatch-Step ws ws' now (new_peer_msg p) fits h = Session.new_peer now p h
  dispatch-Step ws ws' now (done_peer_msg p) fits h = Session.done_peer now p h
  dispatch-Step ws ws' now (headers_msg p headers) fits h = Session.headers now p headers fits h
  dispatch-Step ws ws' now (merkle_block_msg p header) fits h =
      Session.merkle_block now p header fits h
  dispatch-Step ws ws' now (inv_msg p invs) fits h = Session.inv now p invs h

  serve-Reach :
      (first ws ws' : WireService btcd (header_db e) L) (msgs : List (ℕ × Msg))
      → All Fits msgs
      → Reach e L first ws
      → serve btcd (header_db e) L ws msgs ≡ ok ws'
      → Reach e L first ws'
  unfolding serve
  serve-Reach first ws ws' [] fits r h = subst (Reach e L first) (ok-injective h) r
  serve-Reach first ws ws' ((now, msg) ∷ rest) (fits, others) r h =
      let (mid, at, k) = >>=-eq-ok (dispatch btcd (header_db e) L ws now msg) _ h in
      serve-Reach first mid ws' rest others (Session.next r (dispatch-Step ws mid now msg fits at))
        k
