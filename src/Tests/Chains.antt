-- ===== src/Tests/Chains.antt =====
-- Databases and blockchains for the runs.
use spvwallet.Prelude.{
  ℕ, ◌≡◌, refl, Bool, true, false, none, List, [], ◌∷◌, ok, ℕ_discrete, Bool-cases, arith,
}
use spvwallet.Chain.Types.{StoredHeader, IsWire}
use spvwallet.Chain.Codec.{
  serialize_header, deserialize_header, big_endian, from_big_endian, big_bytes, big_bytes_fuel,
  read_u32, read_32, from_option,
}
use spvwallet.Chain.Cache
use spvwallet.Chain.HeaderDb
use spvwallet.Chain.HeaderDb.{HeaderDb, put}
use spvwallet.Chain.HeaderDb.Interface.{header_db}
use spvwallet.Chain.Session
use spvwallet.Chain.Blockchain
use spvwallet.Chain.Blockchain.{Blockchain, Commit}
use spvwallet.Chain.Difficulty
use spvwallet.Chain.Checkpoints
use spvwallet.Chain.Cache.Lookup.{Key-cases, String-cases}
use spvwallet.Tests.Machine.{btcd, env, params, header_of, genesis, key_discrete}
use spvwallet.Tests.Maps.{lookup, insert, remove, no_entries}
use spvwallet.Chain.Cache.{Key, Val, cache_size_max}

-- Every operation that a run computes with.
unfoldable pub program : Unit {0}
unfolding serialize_header deserialize_header big_endian from_big_endian big_bytes big_bytes_fuel
    read_u32 read_32 from_option Cache.set Cache.get Cache.get_hash_by_height Cache.make_room
    Cache.pop HeaderDb.put HeaderDb.put_to_db HeaderDb.run_pending HeaderDb.get_header
    HeaderDb.get_previous_header HeaderDb.get_best_header HeaderDb.get_height HeaderDb.walk_down
    HeaderDb.find_by_height HeaderDb.get_header_by_height HeaderDb.select HeaderDb.delete_all
    HeaderDb.prune HeaderDb.prune_height HeaderDb.delete_after HeaderDb.collect
    HeaderDb.initialize_cache lookup insert remove key_discrete Key-cases String-cases Bool-cases
    Blockchain.back Blockchain.get_epoch Blockchain.calc_required_work Blockchain.epoch_offset
    Blockchain.difficulty_ok Blockchain.right_bits Blockchain.check_header Blockchain.meet
    Blockchain.get_common_ancestor Blockchain.or_orphan Blockchain.parent_of Blockchain.reorg
    Blockchain.store Blockchain.extend Blockchain.commit_header Blockchain.locator_loop
    Blockchain.get_block_locator Blockchain.rollback_loop Blockchain.rollback_from
    Blockchain.new_blockchain Difficulty.check_proof_of_work Difficulty.calc_diff_adjust
    Checkpoints.get_checkpoint ℕ_discrete
program = tt

abbrev pub empty_db : HeaderDb env
empty_db = record {
  best_cache = none;
  cache = record { headers = no_entries Key Val key_discrete; cache_size = cache_size_max };
  headers = no_entries ℕ (List ℕ) ℕ_discrete;
  tip = none;
  pending = [];
}

-- Over the genesis header, the tip, and a header beside the tip.
abbrev pub tip : StoredHeader
tip = record { header = header_of 1 2; height = 1; total_work = 50 }

abbrev pub beside : StoredHeader
beside = record { header = header_of 1 3; height = 1; total_work = 50 }

abbrev pub root_db : HeaderDb env
root_db = put env empty_db genesis true

abbrev pub two_db : HeaderDb env
two_db = put env root_db tip true

abbrev pub fork_db : HeaderDb env
fork_db = put env two_db beside false

abbrev pub chain_of : HeaderDb env → Blockchain btcd (header_db env)
chain_of d = record { params = params; db = d; updates = []; is_open = true }

abbrev pub started : Blockchain btcd (header_db env)
started = chain_of root_db

-- After the tip, and a header beside it, are committed.
abbrev pub grown : Blockchain btcd (header_db env)
grown = record { params = params; db = two_db; updates = 1 ∷ []; is_open = true }

abbrev pub forked : Blockchain btcd (header_db env)
forked = record { params = params; db = fork_db; updates = 1 ∷ []; is_open = true }

abbrev pub committed : ℕ → Bool → Commit
committed h b = record { new_tip = b; ancestor = none; height = h }

pub empty_db-IsEmpty : Session.IsEmpty env empty_db
unfolding program
empty_db-IsEmpty = record {
  no_cache = λ k. refl;
  no_files = λ h. refl;
  no_tip = refl;
  no_best = refl;
  no_pending = refl;
}

pub tip-IsWire : IsWire tip.header
tip-IsWire = record {
  version_fits = omega arith;
  prev_fits = omega arith;
  merkle_fits = omega arith;
  timestamp_fits = omega arith;
  bits_fits = omega arith;
  nonce_fits = omega arith;
}

pub genesis-IsWire : IsWire genesis.header
genesis-IsWire = record {
  version_fits = omega arith;
  prev_fits = omega arith;
  merkle_fits = omega arith;
  timestamp_fits = omega arith;
  bits_fits = omega arith;
  nonce_fits = omega arith;
}

pub beside-IsWire : IsWire beside.header
beside-IsWire = record {
  version_fits = omega arith;
  prev_fits = omega arith;
  merkle_fits = omega arith;
  timestamp_fits = omega arith;
  bits_fits = omega arith;
  nonce_fits = omega arith;
}

pub starts :
    Blockchain.new_blockchain btcd (header_db env) empty_db params true genesis.header 0
    ≡ ok started
unfolding program
starts = refl

pub grows :
    Blockchain.commit_header btcd (header_db env) started tip.header ≡ ok (grown, committed 1 true)
unfolding program
grows = refl

pub forks :
    Blockchain.commit_header btcd (header_db env) grown beside.header
    ≡ ok (forked, committed 1 false)
unfolding program
forks = refl
