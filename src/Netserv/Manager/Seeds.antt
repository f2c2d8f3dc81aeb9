-- ===== src/Netserv/Manager/Seeds.antt =====
-- How PeerManager (netserv/peers.go) gets more addresses: from the DNS seeds or from its peers.
use spvwallet.Prelude.{ℕ, Option, none, some, List, [], ◌∷◌, ◌++◌, if◌then◌else◌}
use spvwallet.Netserv.Manager.{AddrLib, Call, ask_addresses, Connections, PeerManager}

module _ (A : AddrLib) where
  unfoldable pub add_all : A.Book → ℕ → List ℕ → A.Book
  add_all book port [] = book
  add_all book port (ip ∷ rest) = add_all (A.add_address book ip port) port rest

  -- The lookups of one seed, one without a proxy and five with one; a failure gives no address.
  unfoldable pub all_found : List (Option (List ℕ)) → Option (List ℕ)
  all_found [] = some []
  all_found (none ∷ rest) = none
  all_found (some ips ∷ rest) = elim (all_found rest) [
    | none ↦ none
    | some more ↦ some (ips ++ more)
  ]

  unfoldable pub add_found : A.Book → ℕ → Option (List ℕ) → A.Book
  unfolding add_all
  add_found book port none = book
  add_found book port (some ips) = add_all book port ips

  -- The seeds' goroutines, one after another, with what each looked up.
  unfoldable pub query_dns_seeds : PeerManager A → List (List (Option (List ℕ))) → PeerManager A
  unfolding add_found all_found
  query_dns_seeds pm [] = pm
  query_dns_seeds pm (found ∷ rest) =
      query_dns_seeds (record pm { book = add_found pm.book pm.default_port (all_found found) })
        rest

  unfoldable pub ask_all : Connections → List Call
  ask_all [] = []
  ask_all ((id, p) ∷ rest) = ask_addresses p ∷ ask_all rest

  unfoldable pub ask_or_query :
      PeerManager A → List (List (Option (List ℕ))) → Connections → PeerManager A
  unfolding query_dns_seeds ask_all
  ask_or_query pm found [] = query_dns_seeds pm found
  ask_or_query pm found (e ∷ rest) = record pm { calls = pm.calls ++ ask_all (e ∷ rest) }

  unfoldable pub get_more_addresses : PeerManager A → List (List (Option (List ℕ))) → PeerManager A
  unfolding ask_or_query
  get_more_addresses pm found =
      if A.need_more_addresses pm.book then ask_or_query pm found pm.connected_peers else pm

  unfoldable pub query_unless_trusted :
      PeerManager A → List (List (Option (List ℕ))) → Option ℕ → PeerManager A
  unfolding query_dns_seeds
  query_unless_trusted pm found (some _) = pm
  query_unless_trusted pm found none =
      if A.need_more_addresses pm.book then query_dns_seeds pm found else pm

  unfoldable pub start : PeerManager A → List (List (Option (List ℕ))) → PeerManager A
  unfolding query_unless_trusted
  start pm found = query_unless_trusted pm found pm.trusted_peer
