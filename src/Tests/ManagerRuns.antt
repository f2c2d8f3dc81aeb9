-- ===== src/Tests/ManagerRuns.antt =====
-- The theorems on the peers and on the signer, at a manager with one peer and a signer with two items.
use spvwallet.Prelude.{
  ℕ, ◌≡◌, refl, ◌==◌, true, false, some, none, Option, List, [], ◌∷◌, All, inl, inr, Elem,
}
use spvwallet.Netserv.Manager.{
  KnownAddress, AddrLib, PeerManager, PeerManagerConfig, new_peer_manager, manager_on, outbound,
  get_new_address,
}
use spvwallet.Netserv.Manager.Addresses.{Search, get_new_address_first}
use spvwallet.Netserv.Manager.Connections.{
  Event, connection, verack, disconnection, after_all, Screened, after_all-Screened,
}
use spvwallet.Alliance.Observer.{ToSignItem}
use spvwallet.Alliance.Voter.{post_error}
use spvwallet.Alliance.Signer.{SignLib, Signer, get_sigs, sigs_from, signing}
use spvwallet.Alliance.Signer.Rounds.{signing_keeps}

abbrev next_address : List (Option KnownAddress) → Option KnownAddress × List (Option KnownAddress)
next_address [] = (none, [])
next_address (a ∷ rest) = (a, rest)

-- A book is the list of what will be drawn.
abbrev pub addr_lib : AddrLib
addr_lib = record {
  Book = List (Option KnownAddress);
  get_address = next_address;
  attempt = λ book a. book;
  connected = λ book p. book;
  good = λ book p. book;
  add_address = λ book ip port. some (record { ip = ip; port = port; last_attempt = 0 }) ∷ book;
  add_addresses = λ book addrs. book;
  need_more_addresses = λ book. false;
  peer_ip = λ p. p;
  has_bloom = λ p. true;
  has_network = λ p. true;
  has_witness = λ p. true;
  has_bitcoin_cash = λ p. p == 9;
}

abbrev config : PeerManagerConfig
config = record {
  default_port = some 8333;
  target_outbound = 0;
  trusted_peer = none;
  has_msg_chan = true;
}

abbrev book : List (Option KnownAddress)
book =
    none
    ∷ some (record { ip = 1; port = 8333; last_attempt = 0 })
    ∷ some (record { ip = 2; port = 8333; last_attempt = 0 })
    ∷ []

abbrev pub manager : PeerManager addr_lib
manager = record {
  book = book;
  trusted_peer = none;
  target_outbound = 12;
  default_port = 8333;
  connected_peers = [];
  has_msg_chan = true;
  sent = [];
  calls = [];
}

abbrev with_peer : PeerManager addr_lib
with_peer = record manager { connected_peers = (5, 1) ∷ [] }

get_new_address_first_example :
    Search addr_lib with_peer 10000 0 100 (get_new_address addr_lib with_peer 10000).0
get_new_address_first_example = get_new_address_first addr_lib with_peer 10000 refl

makes : new_peer_manager addr_lib config book ≡ some manager
unfolding new_peer_manager manager_on outbound
makes = refl

abbrev events : List (Event addr_lib)
events = connection 5 (some 1) ∷ verack 1 ∷ connection 6 (some 9) ∷ verack 9 ∷ disconnection 5 ∷ []

after_all-Screened_example : All (Screened addr_lib) (after_all addr_lib manager events).sent
after_all-Screened_example = after_all-Screened addr_lib config book manager events makes

abbrev pub sign_lib : SignLib
sign_lib = record { inputs = λ tx. 2; raw_tx_in_signature = λ tx i redeem. some (i ∷ []) }

abbrev item : ℕ → ToSignItem
item n = record { mtx = record { hash = n ∷ []; outs = [] }; redeem = [] }

abbrev signer : Signer
signer = record { txchan = item 1 ∷ item 2 ∷ []; posted = [] }

signs : get_sigs sign_lib (item 2).mtx (item 2).redeem ≡ some ((0 ∷ []) ∷ (1 ∷ []) ∷ [])
unfolding get_sigs sigs_from
signs = refl

signing_keeps_example : Elem (item 2) (signing sign_lib signer post_error).txchan
signing_keeps_example =
    signing_keeps sign_lib signer (item 2) ((0 ∷ []) ∷ (1 ∷ []) ∷ []) signs (inr (inl refl))
