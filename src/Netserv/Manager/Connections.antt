-- ===== src/Netserv/Manager/Connections.antt =====
-- Which peers the wire service is told of, whatever happens to the connections.
use spvwallet.Prelude.{
  ℕ, zero, suc, ◌+◌, ◌≡◌, ◌⊎◌, inl, inr, refl, sym, ap, subst, ◌==◌, true, false, not, ◌&&◌, ◌||◌,
  Option, none, some, List, [], ◌∷◌, ◌++◌, All, All-append, some-injective, Bool-cases,
  Option-cases,
}
use spvwallet.Chain.Types.{BlockHeader}
use spvwallet.Netserv.Types.{InvVect}
use spvwallet.Netserv.Manager.{
  KnownAddress, AddrLib, Msg, new_peer_msg, done_peer_msg, headers_msg, merkle_block_msg, inv_msg,
  Connections, find_peer, drop_peer, PeerManager, PeerManagerConfig, new_peer_manager, tell,
  on_connection, on_verack, forget, on_disconnection, search_address, address_of, get_new_address,
  on_addr, on_headers, on_merkle_block, on_inv, stop, allowed, manager_on,
}
use spvwallet.Netserv.Manager.Seeds.{
  query_dns_seeds, get_more_addresses, start, add_found, all_found, ask_or_query,
  query_unless_trusted,
}

pub find_peer-drop_peer : (id : ℕ) (cs : Connections) → find_peer id (drop_peer id cs) ≡ none
unfolding find_peer drop_peer
find_peer-drop_peer id [] = refl
find_peer-drop_peer id ((k, p) ∷ rest) = elim (Bool-cases (k == id)) [
  | inl y ↦ rw y (find_peer-drop_peer id rest)
  | inr n ↦ rw (n, drop_peer, n) (find_peer-drop_peer id rest)
]

module _ (A : AddrLib) where
  -- What happens to a manager.
  pub data Event : Type 0 where
    connection : ℕ → Option ℕ → Event
    verack : ℕ → Event
    disconnection : ℕ → Event
    wants_address : ℕ → Event
    minute : List (List (Option (List ℕ))) → Event
    addr : List KnownAddress → Event
    headers : ℕ → List BlockHeader → Event
    merkle_block : ℕ → BlockHeader → Event
    inv : ℕ → List InvVect → Event
    starts : List (List (Option (List ℕ))) → Event
    stops : (ℕ → ℕ) → Event

  unfoldable pub after : PeerManager A → Event → PeerManager A
  after pm (connection id made) = on_connection A pm id made
  after pm (verack p) = on_verack A pm p
  after pm (disconnection id) = on_disconnection A pm id
  after pm (wants_address now) = (get_new_address A pm now).1
  after pm (minute found) = get_more_addresses A pm found
  after pm (addr addrs) = on_addr A pm addrs
  after pm (headers p hs) = on_headers A pm p hs
  after pm (merkle_block p header) = on_merkle_block A pm p header
  after pm (inv p invs) = on_inv A pm p invs
  after pm (starts found) = start A pm found
  after pm (stops seen) = stop A pm seen

  unfoldable pub after_all : PeerManager A → List Event → PeerManager A
  after_all pm [] = pm
  after_all pm (e ∷ rest) = after_all (after pm e) rest

  -- The peer serves bloom filters, blocks and witnesses, and is no node of Bitcoin Cash.
  pub record Serves (p : ℕ) : Type 0 where
    pub bloom : A.has_bloom p ≡ true
    pub network : A.has_network p ≡ true
    pub witness : A.has_witness p ≡ true
    pub no_cash : A.has_bitcoin_cash p ≡ false

  abbrev pub Screened : Msg → Type 0
  Screened (new_peer_msg p) = Serves p
  Screened _ = Unit {0}

  abbrev Sends : PeerManager A → PeerManager A → Type 0
  Sends pm pm' = (pm'.sent ≡ pm.sent) ⊎ ((m : Msg) × Screened m × (pm'.sent ≡ pm.sent ++ (m ∷ [])))

  tell-Sends : (pm : PeerManager A) (m : Msg) → Screened m → Sends pm (tell A pm m)
  unfolding tell
  tell-Sends pm m good = elim (Bool-cases pm.has_msg_chan) [
    | inl y ↦ inr (m, good, rw y refl)
    | inr n ↦ inl (rw n refl)
  ]

  verack-Serves :
      (p : ℕ)
      → (not (A.has_bloom p && A.has_network p && A.has_witness p) || A.has_bitcoin_cash p) ≡ false
      → Serves p
  verack-Serves p h = elim (Bool-cases (A.has_bloom p)) [
    | inr n ↦ cc (rw n at h)
    | inl b ↦ elim (Bool-cases (A.has_network p)) [
      | inr n ↦ cc (rw (b, n) at h)
      | inl k ↦ elim (Bool-cases (A.has_witness p)) [
        | inr n ↦ cc (rw (b, k, n) at h)
        | inl w ↦ record { bloom = b; network = k; witness = w; no_cash = rw (b, k, w) at h }
      ]
    ]
  ]

  on_verack-Sends : (pm : PeerManager A) (p : ℕ) → Sends pm (on_verack A pm p)
  unfolding on_verack
  on_verack-Sends pm p =
      elim (Bool-cases
        (not (A.has_bloom p && A.has_network p && A.has_witness p) || A.has_bitcoin_cash p)) [
          | inl y ↦ inl (rw y refl)
          | inr n ↦ rw n (
              tell-Sends (record pm { book = A.good pm.book p }) (new_peer_msg p)
                (verack-Serves p n))
        ]

  forget-Sends : (pm : PeerManager A) (id : ℕ) (o : Option ℕ) → Sends pm (forget A pm id o)
  unfolding forget
  forget-Sends pm id none = inl refl
  forget-Sends pm id (some p) =
      tell-Sends (record pm { connected_peers = drop_peer id pm.connected_peers }) (done_peer_msg p)
        tt

  search_address-sent :
      (pm : PeerManager A) (now tries left : ℕ)
      → (search_address A pm now tries left).1.sent ≡ pm.sent
  unfolding search_address
  search_address-sent pm now tries zero = refl
  search_address-sent pm now tries (suc left) =
      let later =
        search_address-sent (record pm { book = (A.get_address pm.book).1 }) now (tries + 1) left in
      elim (Option-cases (A.get_address pm.book).0) [
        | inl e ↦ rw (e, search_address) later
        | inr (ka, e) ↦ elim (Bool-cases (allowed A pm now tries ka)) [
          | inl y ↦ rw (e, y, search_address) refl
          | inr n ↦ rw (e, n, search_address) later
        ]
      ]

  address_of-sent :
      (pm : PeerManager A) (now : ℕ) (o : Option ℕ) → (address_of A pm now o).1.sent ≡ pm.sent
  unfolding address_of
  address_of-sent pm now none = search_address-sent pm now 0 100
  address_of-sent pm now (some a) = refl

  query_dns_seeds-sent :
      (pm : PeerManager A) (found : List (List (Option (List ℕ))))
      → (query_dns_seeds A pm found).sent ≡ pm.sent
  unfolding query_dns_seeds
  query_dns_seeds-sent pm [] = refl
  query_dns_seeds-sent pm (f ∷ rest) =
      query_dns_seeds-sent
        (record pm { book = add_found A pm.book pm.default_port (all_found A f) }) rest

  ask_or_query-sent :
      (pm : PeerManager A) (found : List (List (Option (List ℕ)))) (cs : Connections)
      → (ask_or_query A pm found cs).sent ≡ pm.sent
  unfolding ask_or_query
  ask_or_query-sent pm found [] = query_dns_seeds-sent pm found
  ask_or_query-sent pm found (e ∷ rest) = refl

  more-sent :
      (pm : PeerManager A) (found : List (List (Option (List ℕ))))
      → (get_more_addresses A pm found).sent ≡ pm.sent
  unfolding get_more_addresses
  more-sent pm found = elim (Bool-cases (A.need_more_addresses pm.book)) [
    | inr n ↦ rw n refl
    | inl y ↦ rw y (ask_or_query-sent pm found pm.connected_peers)
  ]

  query_unless_trusted-sent :
      (pm : PeerManager A) (found : List (List (Option (List ℕ)))) (t : Option ℕ)
      → (query_unless_trusted A pm found t).sent ≡ pm.sent
  unfolding query_unless_trusted
  query_unless_trusted-sent pm found (some a) = refl
  query_unless_trusted-sent pm found none = elim (Bool-cases (A.need_more_addresses pm.book)) [
    | inl y ↦ rw y (query_dns_seeds-sent pm found)
    | inr n ↦ rw n refl
  ]

  after-Sends : (pm : PeerManager A) (e : Event) → Sends pm (after pm e)
  unfolding after on_connection on_disconnection get_new_address on_addr on_headers on_merkle_block
      on_inv start stop
  after-Sends pm (connection id none) = inl refl
  after-Sends pm (connection id (some p)) = inl refl
  after-Sends pm (verack p) = on_verack-Sends pm p
  after-Sends pm (disconnection id) = forget-Sends pm id (find_peer id pm.connected_peers)
  after-Sends pm (wants_address now) = inl (address_of-sent pm now pm.trusted_peer)
  after-Sends pm (minute found) = inl (more-sent pm found)
  after-Sends pm (addr addrs) = inl refl
  after-Sends pm (headers p hs) = tell-Sends pm (headers_msg p hs) tt
  after-Sends pm (merkle_block p header) = tell-Sends pm (merkle_block_msg p header) tt
  after-Sends pm (inv p invs) = tell-Sends pm (inv_msg p invs) tt
  after-Sends pm (starts found) = inl (query_unless_trusted-sent pm found pm.trusted_peer)
  after-Sends pm (stops seen) = inl refl

  Sends-Screened :
      (pm pm' : PeerManager A) → Sends pm pm' → All Screened pm.sent → All Screened pm'.sent
  Sends-Screened pm pm' (inl e) all = subst (All Screened) (sym e) all
  Sends-Screened pm pm' (inr (m, good, e)) all =
      subst (All Screened) (sym e) (All-append Screened pm.sent (m ∷ []) all (good, tt))

  after_all_keeps-Screened :
      (pm : PeerManager A) (events : List Event)
      → All Screened pm.sent
      → All Screened (after_all pm events).sent
  unfolding after_all
  after_all_keeps-Screened pm [] all = all
  after_all_keeps-Screened pm (e ∷ rest) all =
      after_all_keeps-Screened (after pm e) rest
        (Sends-Screened pm (after pm e) (after-Sends pm e) all)

  manager_on-sent :
      (c : PeerManagerConfig) (book : A.Book) (o : Option ℕ) (pm : PeerManager A)
      → manager_on A c book o ≡ some pm
      → pm.sent ≡ []
  unfolding manager_on
  manager_on-sent c book none pm h = cc
  manager_on-sent c book (some port) pm h =
      sym (ap (λ (x : PeerManager A). x.sent) (some-injective h))

  -- From a new manager on, whatever happens: the wire service is only told of new peers that serve
  -- bloom filters, blocks and witnesses, and are no nodes of Bitcoin Cash.
  pub after_all-Screened :
      (c : PeerManagerConfig) (book : A.Book) (pm : PeerManager A) (events : List Event)
      → new_peer_manager A c book ≡ some pm
      → All Screened (after_all pm events).sent
  unfolding new_peer_manager
  after_all-Screened c book pm events made =
      after_all_keeps-Screened pm events
        (subst (All Screened) (sym (manager_on-sent c book c.default_port pm made)) tt)

  forget_gone :
      (pm : PeerManager A) (id : ℕ) (o : Option ℕ)
      → (o ≡ none → find_peer id pm.connected_peers ≡ none)
      → find_peer id (forget A pm id o).connected_peers ≡ none
  unfolding forget tell
  forget_gone pm id none h = h refl
  forget_gone pm id (some p) h = elim (Bool-cases pm.has_msg_chan) [
    | inl y ↦ rw y (find_peer-drop_peer id pm.connected_peers)
    | inr n ↦ rw n (find_peer-drop_peer id pm.connected_peers)
  ]

  -- A connection that ended is known no more, and ending it again does nothing: its peer is reported
  -- as done at most once.
  pub on_disconnection_once :
      (pm : PeerManager A) (id : ℕ)
      → (find_peer id (on_disconnection A pm id).connected_peers ≡ none)
        × (on_disconnection A (on_disconnection A pm id) id ≡ on_disconnection A pm id)
  unfolding on_disconnection forget
  on_disconnection_once pm id =
      let gone = forget_gone pm id (find_peer id pm.connected_peers) (λ e. e) in
      (gone, ap (forget A (on_disconnection A pm id) id) gone)
