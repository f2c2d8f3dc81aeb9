-- ===== src/Netserv/Manager.antt =====
-- PeerManager of netserv/peers.go: connections, the messages to the wire service, and the choice of
-- an address to connect to.
pub mod Seeds
pub mod Addresses
pub mod Connections
use spvwallet.Prelude.{
  ℕ, zero, suc, ◌+◌, ◌*◌, ◌==◌, Bool, true, false, not, ◌&&◌, ◌||◌, Option, none, some, List, [],
  ◌∷◌, ◌++◌, map, get_elem?, ltb, if◌then◌else◌,
}
use spvwallet.Chain.Types.{BlockHeader}
use spvwallet.Netserv.Types.{InvVect}

-- An address of the address manager; an IP is a number that stands for its text.
pub record KnownAddress : Type 0 where
  pub ip : ℕ
  pub port : ℕ
  pub last_attempt : ℕ

-- btcd's address manager with all that it draws at random, and what btcd knows of a peer.
pub record AddrLib : Type 1 where
  pub Book : Type 0
  pub get_address : Book → Option KnownAddress × Book
  pub attempt : Book → KnownAddress → Book
  pub connected : Book → ℕ → Book
  pub good : Book → ℕ → Book
  pub add_address : Book → ℕ → ℕ → Book
  pub add_addresses : Book → List KnownAddress → Book
  pub need_more_addresses : Book → Bool
  pub peer_ip : ℕ → ℕ
  pub has_bloom : ℕ → Bool
  pub has_network : ℕ → Bool
  pub has_witness : ℕ → Bool
  pub has_bitcoin_cash : ℕ → Bool

-- What is sent to the wire service.
pub data Msg : Type 0 where
  new_peer_msg : ℕ → Msg
  done_peer_msg : ℕ → Msg
  headers_msg : ℕ → List BlockHeader → Msg
  merkle_block_msg : ℕ → BlockHeader → Msg
  inv_msg : ℕ → List InvVect → Msg

-- Calls of the connection manager and of peers.
pub data Call : Type 0 where
  disconnect_request : ℕ → Call
  disconnect_peer : ℕ → Call
  ask_addresses : ℕ → Call

pub data Addr : Type 0 where
  trusted_addr : ℕ → Addr
  tcp_addr : ℕ → ℕ → Addr

-- Part of PeerManagerConfig: the port of the network where it is a number, the target of outbound
-- peers, the trusted peer, and whether there is a channel for messages.
pub record PeerManagerConfig : Type 0 where
  pub default_port : Option ℕ
  pub target_outbound : ℕ
  pub trusted_peer : Option ℕ
  pub has_msg_chan : Bool

abbrev pub default_target_outbound : ℕ
default_target_outbound = 12

-- 10 minutes in seconds.
abbrev pub ten_minutes : ℕ
ten_minutes = 10 * 60

-- The map from requests to peers.
abbrev pub Connections : Type 0
Connections = List (ℕ × ℕ)

unfoldable pub find_peer : ℕ → Connections → Option ℕ
find_peer id [] = none
find_peer id ((k, p) ∷ rest) = let later = find_peer id rest in if k == id then some p else later

unfoldable pub drop_peer : ℕ → Connections → Connections
drop_peer id [] = []
drop_peer id ((k, p) ∷ rest) =
    let later = drop_peer id rest in if k == id then later else (k, p) ∷ later

-- One of the connected peers has the IP.
unfoldable pub shares_ip : (ℕ → ℕ) → ℕ → Connections → Bool
shares_ip ip_of ip [] = false
shares_ip ip_of ip ((k, p) ∷ rest) = ip_of p == ip || shares_ip ip_of ip rest

module _ (A : AddrLib) where
  pub record PeerManager : Type 0 where
    pub book : A.Book
    pub trusted_peer : Option ℕ
    pub target_outbound : ℕ
    pub default_port : ℕ
    pub connected_peers : Connections
    pub has_msg_chan : Bool
    pub sent : List Msg
    pub calls : List Call

  unfoldable pub outbound : PeerManagerConfig → ℕ
  outbound c = elim c.trusted_peer [
    | some _ ↦ 1
    | none ↦ if c.target_outbound == 0 then default_target_outbound else c.target_outbound
  ]

  -- A port that is no number is an error; the port of the source is a uint16.
  unfoldable pub manager_on : PeerManagerConfig → A.Book → Option ℕ → Option PeerManager
  unfolding outbound
  manager_on c book none = none
  manager_on c book (some port) = some (record {
    book = book;
    trusted_peer = c.trusted_peer;
    target_outbound = outbound c;
    default_port = port;
    connected_peers = [];
    has_msg_chan = c.has_msg_chan;
    sent = [];
    calls = [];
  })

  unfoldable pub new_peer_manager : PeerManagerConfig → A.Book → Option PeerManager
  unfolding manager_on
  new_peer_manager c book = manager_on c book c.default_port

  abbrev pub connected_peers : PeerManager → List ℕ
  connected_peers pm = map (λ e. e.1) pm.connected_peers

  abbrev pub call : PeerManager → Call → PeerManager
  call pm c = record pm { calls = pm.calls ++ (c ∷ []) }

  -- Without a channel nothing is sent.
  unfoldable pub tell : PeerManager → Msg → PeerManager
  tell pm msg = if pm.has_msg_chan then record pm { sent = pm.sent ++ (msg ∷ []) } else pm

  -- A request that got a connection, and the peer that btcd makes of it unless it fails.
  unfoldable pub on_connection : PeerManager → ℕ → Option ℕ → PeerManager
  on_connection pm id none = call pm (disconnect_request id)
  on_connection pm id (some p) = record pm {
    connected_peers = (id, p) ∷ drop_peer id pm.connected_peers;
    book = A.connected pm.book p;
  }

  unfoldable pub on_verack : PeerManager → ℕ → PeerManager
  unfolding tell
  on_verack pm p =
      if not (A.has_bloom p && A.has_network p && A.has_witness p) || A.has_bitcoin_cash p
      then call pm (disconnect_peer p)
      else tell (record pm { book = A.good pm.book p }) (new_peer_msg p)

  unfoldable pub forget : PeerManager → ℕ → Option ℕ → PeerManager
  unfolding tell
  forget pm id none = pm
  forget pm id (some p) =
      tell (record pm { connected_peers = drop_peer id pm.connected_peers }) (done_peer_msg p)

  unfoldable pub on_disconnection : PeerManager → ℕ → PeerManager
  unfolding forget
  on_disconnection pm id = forget pm id (find_peer id pm.connected_peers)

  -- The conditions of getNewAddress on an address, at a number of earlier tries.
  unfoldable pub allowed : PeerManager → ℕ → ℕ → KnownAddress → Bool
  unfolding shares_ip
  allowed pm now tries ka =
      not (ltb tries 30 && ltb now (ka.last_attempt + ten_minutes))
      && not (ltb tries 50 && not (ka.port == pm.default_port))
      && not (shares_ip A.peer_ip ka.ip pm.connected_peers)

  -- The loop of getNewAddress, `left` rounds before its end.
  unfoldable pub search_address : PeerManager → ℕ → ℕ → ℕ → Option Addr × PeerManager
  unfolding allowed
  search_address pm now tries zero = (none, pm)
  search_address pm now tries (suc left) =
      let drawn = A.get_address pm.book in
      let rest = search_address (record pm { book = drawn.1 }) now (tries + 1) left in
      elim drawn.0 [
        | none ↦ rest
        | some ka ↦
            if allowed pm now tries ka
            then (some (tcp_addr ka.ip ka.port), record pm { book = A.attempt drawn.1 ka })
            else rest
      ]

  unfoldable pub address_of : PeerManager → ℕ → Option ℕ → Option Addr × PeerManager
  unfolding search_address
  address_of pm now (some a) = (some (trusted_addr a), pm)
  address_of pm now none = search_address pm now 0 100

  unfoldable pub get_new_address : PeerManager → ℕ → Option Addr × PeerManager
  unfolding address_of
  get_new_address pm now = address_of pm now pm.trusted_peer

  unfoldable pub on_addr : PeerManager → List KnownAddress → PeerManager
  on_addr pm addrs = record pm { book = A.add_addresses pm.book addrs }

  unfoldable pub on_headers : PeerManager → ℕ → List BlockHeader → PeerManager
  unfolding tell
  on_headers pm p headers = tell pm (headers_msg p headers)

  unfoldable pub on_merkle_block : PeerManager → ℕ → BlockHeader → PeerManager
  unfolding tell
  on_merkle_block pm p header = tell pm (merkle_block_msg p header)

  unfoldable pub on_inv : PeerManager → ℕ → List InvVect → PeerManager
  unfolding tell
  on_inv pm p invs = tell pm (inv_msg p invs)

  -- The goroutines of Stop share the variable of the loop: the one of round `i` disconnects the peer
  -- of round `seen i`, which the variable holds when it runs.
  unfoldable pub disconnects : (ℕ → ℕ) → Connections → ℕ → Connections → List Call
  disconnects seen all i [] = []
  disconnects seen all i (_ ∷ rest) =
      let later = disconnects seen all (i + 1) rest in
      elim (get_elem? all (seen i)) [ none ↦ later | some e ↦ disconnect_peer e.1 ∷ later ]

  unfoldable pub stop : PeerManager → (ℕ → ℕ) → PeerManager
  unfolding disconnects
  stop pm seen = record pm {
    connected_peers = [];
    calls = pm.calls ++ disconnects seen pm.connected_peers 0 pm.connected_peers;
  }
