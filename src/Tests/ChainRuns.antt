-- ===== src/Tests/ChainRuns.antt =====
-- The theorems on the blockchain, at a chain of three headers.
use spvwallet.Prelude.{
  ℕ, ◌^◌, ◌≤◌, ◌<◌, ◌≡◌, ◌≢◌, refl, sym, subst, ◌⊎◌, true, false, some, [], ok, err, length,
  get_elem?, arith,
}
use spvwallet.Prelude.Int.{pos}
use spvwallet.Chain.Types.{StoredHeader, header_missing, IsWire}
use spvwallet.Chain.HeaderDb.{get_header}
use spvwallet.Chain.HeaderDb.Held.{AllHeld, IsIndexed}
use spvwallet.Chain.HeaderDb.Writes.{put-AllHeld, put-IsIndexed}
use spvwallet.Chain.HeaderDb.Interface.{header_db, header_db-laws}
use spvwallet.Chain.Difficulty.{check_proof_of_work}
use spvwallet.Chain.Blockchain
use spvwallet.Chain.Blockchain.{Blockchain, Commit, back, commit_header, next_height, check_header}
use spvwallet.Chain.Blockchain.Checks.{Demands, check_header_sound}
use spvwallet.Chain.Blockchain.Best.{commit_header-best, commit_header-most_work}
use spvwallet.Chain.Blockchain.Rooted.{Rooted}
use spvwallet.Chain.Blockchain.Locator.{get_block_locator_entry, behind}
use spvwallet.Chain.Session
use spvwallet.Tests.Machine.{btcd, btcd-laws, env, params, genesis}
use spvwallet.Tests.Chains.{
  program, empty_db, empty_db-IsEmpty, root_db, two_db, tip, beside, started, grown, forked,
  committed, tip-IsWire, genesis-IsWire, beside-IsWire, starts, grows, forks,
}

beside_found : get_header env forked.db 3 ≡ ok beside
unfolding program
beside_found = refl

pub root_is : Session.root_of env genesis.header 0 params ≡ genesis
unfolding program
root_is = refl

forked_reached : Session.Reach env started forked
forked_reached =
    Session.next
      (Session.next Session.here (Session.commit tip.header (committed 1 true) tip-IsWire grows))
      (Session.commit beside.header (committed 1 false) beside-IsWire forks)

Reach-Rooted_example :
    Rooted btcd params (Session.root_of env genesis.header 0 params) beside
    × (btcd.block_hash beside.header ≡ 3)
Reach-Rooted_example =
    Session.Reach-Rooted env empty_db params true genesis.header 0 3 started forked beside btcd-laws
      empty_db-IsEmpty (subst (λ (x : StoredHeader). IsWire x.header) (sym root_is) genesis-IsWire)
      (subst (λ (x : StoredHeader). x.height < 2 ^ 32) (sym root_is) (omega arith)) starts
      forked_reached beside_found

root_best : (header_db env).get_best_header started.db ≡ ok genesis
unfolding program
root_best = refl

commit_header-best_example :
    (best' : StoredHeader) × ((header_db env).get_best_header grown.db ≡ ok best')
    × (genesis.total_work ≤ best'.total_work)
    × ((((committed 1 true).new_tip ≡ true)
          × (best'.header ≡ tip.header)
          × (best'.height ≡ (committed 1 true).height)
          × (genesis.total_work < best'.total_work))
        ⊎ (((committed 1 true).new_tip ≡ false) × (best' ≡ genesis)))
commit_header-best_example =
    commit_header-best btcd (header_db env) (header_db-laws env btcd-laws) started grown tip.header
      (committed 1 true) genesis root_best grows

root_lawful :
    (P : StoredHeader → Type 0) → P genesis → IsIndexed env root_db × AllHeld env P root_db
root_lawful P h = (
  put-IsIndexed env empty_db genesis true genesis-IsWire (omega arith)
      (Session.empty-IsIndexed env empty_db empty_db-IsEmpty),
  put-AllHeld env P empty_db genesis true h (Session.empty-AllHeld env P empty_db empty_db-IsEmpty),
)

commit_header-most_work_example :
    (best' : StoredHeader) × ((header_db env).get_best_header grown.db ≡ ok best')
    × AllHeld env (λ x. x.total_work ≤ best'.total_work) grown.db
unfolding header_db-laws
commit_header-most_work_example =
    commit_header-most_work btcd (header_db env) (header_db-laws env btcd-laws) started grown
      tip.header (committed 1 true) genesis tip-IsWire root_best
      (root_lawful (λ x. x.total_work ≤ 0) (omega arith)).0
      (root_lawful (λ x. x.total_work ≤ 0) (omega arith)).1 grows

missing : (header_db env).get_header started.db 9 ≡ err header_missing
unfolding program
missing = refl

-- A network that does not reduce the difficulty.
abbrev strict_start : Blockchain btcd (header_db env)
strict_start = record started { params = record params { reduce_min_difficulty = false } }

checked : check_header btcd (header_db env) strict_start tip.header genesis ≡ ok true
unfolding program
checked = refl

check_header_sound_example :
    (btcd.block_hash genesis.header ≡ tip.header.prev_block)
    × ((false ≡ true) ⊎ Demands btcd (header_db env) strict_start genesis (next_height 0) 50)
    × ((target : ℕ) × (btcd.compact_to_big 50 ≡ pos target)
        × (0 < target)
        × (target ≤ params.pow_limit)
        × (btcd.hash_to_big (btcd.block_hash tip.header) ≤ target))
check_header_sound_example =
    check_header_sound btcd (header_db env) strict_start tip.header genesis checked

powered : check_proof_of_work btcd tip.header params ≡ true
unfolding program
powered = refl

abbrev strict : Blockchain btcd (header_db env)
strict = record {
  params = record {
    name = params.name;
    reduce_min_difficulty = false;
    pow_limit = 100;
    pow_limit_bits = 100;
  };
  db = two_db;
  updates = [];
  is_open = true;
}

not_first : Blockchain.epoch_offset 2 ≢ 0
unfolding program
not_first = omega arith

lists_tip : get_elem? (Blockchain.get_block_locator btcd (header_db env) grown) 1 ≡ some 1
unfolding program
lists_tip = refl

grown_best : (header_db env).get_best_header grown.db ≡ ok tip
unfolding program
grown_best = refl

get_block_locator_entry_example :
    (length (Blockchain.get_block_locator btcd (header_db env) grown) ≤ 500)
    × ((sh : StoredHeader) × (back btcd (header_db env) grown.db (behind 0 1) tip ≡ ok sh)
        × (btcd.block_hash sh.header ≡ 1))
get_block_locator_entry_example =
    get_block_locator_entry btcd (header_db env) grown tip 1 1 grown_best lists_tip
