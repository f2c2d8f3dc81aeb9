-- ===== src/Tests/StoreRuns.antt =====
-- The theorems on the header database, the cache, the codec and the rules of difficulty, at
-- concrete inputs.
use spvwallet.Prelude.{
  ℕ, ◌+◌, ◌-◌, ◌*◌, ◌/◌, ◌%◌, ◌^◌, ◌≤◌, ◌<◌, ◌≡◌, ◌≢◌, refl, sym, ap, subst, ◌∙◌, ◌⊎◌, inl, inr,
  false, none, some, List, [], ◌∷◌, ◌++◌, ℕ_discrete, ok, err, ◌>>=◌, length, replicate,
  ok-injective, ltb, leb, if◌then◌else◌, arith,
}
use spvwallet.Prelude.Int.{pos}
use spvwallet.Chain.Types.{header_missing, StoredHeader, Params, mainnet, IsStored}
use spvwallet.Chain.Codec.{serialize_header, deserialize_header}
use spvwallet.Chain.Codec.RoundTrip.{deserialize-serialize_header}
use spvwallet.Chain.Cache
use spvwallet.Chain.Cache.{Env, hash_key, height_key}
use spvwallet.Chain.Cache.Growth.{size-set_new_header}
use spvwallet.Chain.HeaderDb
use spvwallet.Chain.HeaderDb.{HeaderDb, get_header, get_best_header, get_header_by_height, put}
use spvwallet.Chain.HeaderDb.Deletes.{get_header-delete_after, get-prune}
use spvwallet.Chain.HeaderDb.Opening.{OnFile, Descends}
use spvwallet.Chain.Difficulty.{new_target}
use spvwallet.Chain.Difficulty.Bounds.{new_target_bounds}
use spvwallet.Chain.Checkpoints.{get_checkpoint, mainnet_checkpoints}
use spvwallet.Chain.Checkpoints.Choice.{get_checkpoint_newest}
use spvwallet.Tests.Machine.{btcd, btcd-laws, env, genesis}
use spvwallet.Tests.Chains.{program, empty_db, root_db, two_db, tip, tip-IsWire}

tip-IsStored : IsStored tip
tip-IsStored = record { wire = tip-IsWire; height_fits = omega arith; work_fits = omega arith }

deserialize-serialize_header_example :
    (serialize_header btcd tip >>= deserialize_header btcd) ≡ ok tip
deserialize-serialize_header_example = deserialize-serialize_header btcd tip btcd-laws tip-IsStored

no_hash : env.ordered.get root_db.cache.headers (hash_key (btcd.hash_string 2)) ≡ none
unfolding program
no_hash = refl

no_height : env.ordered.get root_db.cache.headers (height_key 1) ≡ none
unfolding program
no_height = refl

size-set_new_header_example :
    length (env.ordered.keys root_db.cache.headers) + 1
    ≤ length (env.ordered.keys (Cache.set env root_db.cache tip).headers)
size-set_new_header_example = size-set_new_header env root_db.cache tip no_hash no_height

two_best : get_best_header env two_db ≡ ok tip
unfolding program
two_best = refl

abbrev pub bytes_of : ℕ → ℕ → ℕ → List ℕ
bytes_of prev hash height = 1 ∷ prev ∷ 7 ∷ hash ∷ 50 ∷ hash ∷ 0 ∷ 0 ∷ 0 ∷ height ∷ replicate 32 0

-- The genesis header and the tip on file, as other goroutines left them.
abbrev pub tip_bytes : List ℕ
tip_bytes = 1 ∷ 1 ∷ 7 ∷ 2 ∷ 50 ∷ 2 ∷ 0 ∷ 0 ∷ 0 ∷ 1 ∷ (replicate 31 0 ++ (50 ∷ []))

abbrev file_db : HeaderDb env
file_db = record empty_db {
  headers = env.bucket.put (env.bucket.put empty_db.headers 1 (bytes_of 0 1 0)) 2 tip_bytes;
  tip = some tip_bytes;
}

abbrev written_db : HeaderDb env
written_db = record root_db {
  headers = env.bucket.put empty_db.headers 1 (bytes_of 0 1 0);
  tip = some (bytes_of 0 1 0);
  pending = [];
}

writes : HeaderDb.run_pending env root_db 0 ≡ ok written_db
unfolding program
writes = refl

abbrev cut_db : HeaderDb env
cut_db = record file_db { headers = env.bucket.delete file_db.headers 2 }

cuts : HeaderDb.delete_after env file_db 0 ≡ ok cut_db
unfolding program
cuts = refl

on_file : env.bucket.get file_db.headers 2 ≡ some tip_bytes
unfolding program
on_file = refl

reads_tip : deserialize_header btcd tip_bytes ≡ ok tip
unfolding program
reads_tip = refl

get_header-delete_after_example :
    (env.bucket.get cut_db.headers 2 ≡ (if ltb 0 1 then none else some tip_bytes))
    × (get_header env cut_db 2
        ≡ HeaderDb.cached_or env
            (Cache.get env file_db.cache 2)
            (if ltb 0 1 then err header_missing else ok tip))
get_header-delete_after_example =
    get_header-delete_after env file_db cut_db 0 2 tip_bytes tip cuts on_file reads_tip

prunes : HeaderDb.prune env file_db ≡ ok file_db
unfolding program
prunes = refl

get-prune_example : env.bucket.get file_db.headers 2 ≡ (
    if ltb 2000 (length (env.bucket.items file_db.headers))
    then if leb 1 ((1 + 2 ^ 32 - 2000) % 2 ^ 32) then none else some tip_bytes
    else some tip_bytes)
get-prune_example =
    get-prune env file_db file_db 2 tip_bytes tip_bytes tip tip prunes refl reads_tip on_file
      reads_tip

file_best : get_best_header env file_db ≡ ok tip
unfolding program
file_best = refl

file_parent :
    HeaderDb.get_previous_header env (record file_db { best_cache = some tip }) tip.header
    ≡ ok genesis
unfolding program
file_parent = refl

absent : (k : ℕ) → k ≢ 1 → k ≢ 2 → env.bucket.get file_db.headers k ≡ none
unfolding program
absent k p q = ground (arith, p, q)

no_header : (x : StoredHeader) → HeaderDb.from_disk env none ≢ ok x
unfolding HeaderDb.from_disk
no_header x h = cc

file_cases :
    (k : ℕ) (x : StoredHeader)
    → HeaderDb.from_disk env (env.bucket.get file_db.headers k) ≡ ok x
    → (x ≡ genesis) ⊎ (x ≡ tip)
unfolding program
file_cases k x h = elim (ℕ_discrete k 1) [
  | yes p ↦ inl (
      sym (
        ok-injective
          (subst (λ j. HeaderDb.from_disk env (env.bucket.get file_db.headers j) ≡ ok x) p h)))
  | no p ↦ elim (ℕ_discrete k 2) [
    | yes q ↦ inr (
        sym (
          ok-injective
            (subst (λ j. HeaderDb.from_disk env (env.bucket.get file_db.headers j) ≡ ok x) q h)))
    | no q ↦ absurd (no_header x (sym (ap (HeaderDb.from_disk env) (absent k p q)) ∙ h))
  ]
]

tip-OnFile : OnFile env file_db.headers tip
unfolding program
tip-OnFile = (2, refl)

file-Descends : Descends env file_db.headers
unfolding program
file-Descends x y (k, on) h = elim (file_cases k x on) [
  | inl p ↦ cc (
      subst
        (λ (z : StoredHeader).
          HeaderDb.from_disk env (env.bucket.get file_db.headers z.header.prev_block) ≡ ok y)
        p h)
  | inr p ↦
      let e : genesis ≡ y = ok-injective (
        subst
          (λ (z : StoredHeader).
            HeaderDb.from_disk env (env.bucket.get file_db.headers z.header.prev_block) ≡ ok y)
          p h) in
      ap (λ (z : StoredHeader). z.height + 1) (sym e) ∙ ap (λ (z : StoredHeader). z.height) (sym p)
]

finds : HeaderDb.find_by_height env file_db 0 ≡ ok genesis
unfolding program
finds = refl

new_target_bounds_example :
    (target : ℕ) × (new_target 0 1209600 (pos 1000) 5000 ≡ pos target)
    × (target ≤ 5000)
    × (target ≤ 4 * 1000)
    × ((1000 / 4 ≤ target) ⊎ (target ≡ 5000))
new_target_bounds_example = new_target_bounds 0 1209600 1000 5000

abbrev main : Params
main = record {
  name = mainnet;
  reduce_min_difficulty = false;
  pow_limit = 100;
  pow_limit_bits = 100;
}

get_checkpoint_newest_example :
    ((get_checkpoint genesis.header 1500000000 main).header.timestamp < 1500000000)
    × (mainnet_checkpoints.first.header.timestamp
        ≤ (get_checkpoint genesis.header 1500000000 main).header.timestamp)
get_checkpoint_newest_example =
    get_checkpoint_newest genesis.header 1500000000 main mainnet_checkpoints
      mainnet_checkpoints.first refl (inl refl) (omega arith)
