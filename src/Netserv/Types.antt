-- ===== src/Netserv/Types.antt =====
-- The data of the package netserv (netserv/wireserv.go), and the peers of btcd as a parameter.
use spvwallet.Prelude.{ℕ, ◌==◌, Bool, false, ◌||◌, Option, none, some, List, [], ◌∷◌, if◌then◌else◌}
use spvwallet.Prelude.Int.{ℤ}

-- The types of an inventory vector that the package tells apart.
pub data InvType : Type 0 where
  inv_tx inv_block inv_filtered_block inv_witness_block inv_other : InvType

pub record InvVect : Type 0 where
  pub kind : InvType
  pub hash : ℕ

-- What is sent to a peer, or told to its object, in the order of the calls. A peer is a number.
pub data Action : Type 0 where
  disconnect : ℕ → Action
  push_get_headers : ℕ → List ℕ → Action
  push_get_blocks : ℕ → List ℕ → Action
  queue_get_data : ℕ → List InvVect → Action
  add_known_inventory : ℕ → InvVect → Action
  update_last_announced_block : ℕ → ℕ → Action

-- The peers of btcd: the last block of each, which btcd keeps, whether its address splits into host
-- and port, and whether its services have the flag of a full node.
pub record PeerLib : Type 1 where
  pub Heights : Type 0
  pub last_block : Heights → ℕ → ℤ
  pub update_last_block_height : Heights → ℕ → ℤ → Heights
  pub splits_addr : ℕ → Bool
  pub full_node : ℕ → Bool

-- peerSyncState. A set of hashes is a list without repetition.
pub record PeerSyncState : Type 0 where
  pub sync_candidate : Bool
  pub request_queue : List InvVect
  pub requested_blocks : List ℕ
  pub false_positives : ℕ
  pub block_score : ℤ

abbrev pub has_hash : ℕ → List ℕ → Bool
has_hash h [] = false
has_hash h (x ∷ xs) = x == h || has_hash h xs

abbrev pub add_hash : ℕ → List ℕ → List ℕ
add_hash h xs = if has_hash h xs then xs else h ∷ xs

unfoldable pub drop_hash : ℕ → List ℕ → List ℕ
drop_hash h [] = []
drop_hash h (x ∷ xs) = let rest = drop_hash h xs in if x == h then rest else x ∷ rest

unfoldable pub drop_hashes : List ℕ → List ℕ → List ℕ
drop_hashes [] xs = xs
drop_hashes (h ∷ hs) xs = drop_hashes hs (drop_hash h xs)

-- The map from peers to their states. The order of the list stands for the order of a range over
-- the map, which Go does not fix.
abbrev pub PeerStates : Type 0
PeerStates = List (ℕ × PeerSyncState)

unfoldable pub find_state : ℕ → PeerStates → Option PeerSyncState
find_state p [] = none
find_state p ((q, s) ∷ rest) = let later = find_state p rest in if q == p then some s else later

unfoldable pub put_state : ℕ → PeerSyncState → PeerStates → PeerStates
put_state p s [] = (p, s) ∷ []
put_state p s ((q, t) ∷ rest) =
    let later = put_state p s rest in if q == p then (p, s) ∷ rest else (q, t) ∷ later

unfoldable pub drop_state : ℕ → PeerStates → PeerStates
drop_state p [] = []
drop_state p ((q, t) ∷ rest) =
    let later = drop_state p rest in if q == p then rest else (q, t) ∷ later

-- `ws.syncPeer == peer`
abbrev pub same_peer : Option ℕ → ℕ → Bool
same_peer none p = false
same_peer (some q) p = q == p
