-- ===== src/Chain/HeaderDb.antt =====
-- HeaderDB of chain/headers.go: a cache of headers before a bolt database. `Put` writes the cache
-- and leaves the database to a goroutine: what those have still to write is `pending`.
pub mod Reads
pub mod Held
pub mod Writes
pub mod Deletes
pub mod Opening
pub mod Interface
pub mod Synchronous
pub mod Settled
use spvwallet.Prelude.{
  ℕ, zero, suc, ◌+◌, ◌-◌, ◌%◌, ◌^◌, ◌==◌, Bool, true, false, Option, none, some, List, [], ◌∷◌,
  ◌++◌, length, ltb, leb, if◌then◌else◌, get_elem?, remove_at, Result, ok, err, panic, stuck, ◌>>=◌,
  arith,
}
use spvwallet.Prelude.Stores.{Bucket, OrderedMap}
use spvwallet.Chain.Types.{
  BlockHeader, StoredHeader, Error, not_found, header_missing, tip_unset, too_high, Btcd,
}
use spvwallet.Chain.Codec.{serialize_header, deserialize_header}
use spvwallet.Chain.Cache
use spvwallet.Chain.Cache.{Env, HeaderCache, cache_size_max}
use mathlib.Core.List.{foldl, reverse}

abbrev pub max_headers : ℕ
max_headers = 2000

module _ (e : Env) where
  open e use {btcd, bucket, ordered}

  -- The bucket of the chain tip has one key, whose value is `tip`.
  pub record HeaderDb : Type 0 where
    pub best_cache : Option StoredHeader
    pub cache : HeaderCache e
    pub headers : bucket.Store
    pub tip : Option (List ℕ)
    pub pending : List (StoredHeader × Bool)

  -- `Put` returns nil always.
  unfoldable pub put : HeaderDb → StoredHeader → Bool → HeaderDb
  put d sh new_best = record d {
    best_cache = if new_best then some sh else d.best_cache;
    cache = Cache.set e d.cache sh;
    pending = d.pending ++ ((sh, new_best) ∷ []);
  }

  unfoldable pub put_to_db : HeaderDb → StoredHeader → Bool → Result Error HeaderDb
  put_to_db d sh new_best = do
    ser ← serialize_header btcd sh
    ok (record d {
      headers = bucket.put d.headers (btcd.block_hash sh.header) ser;
      tip = if new_best then some ser else d.tip;
    })

  unfoldable pub run_job : HeaderDb → ℕ → Option (StoredHeader × Bool) → Result Error HeaderDb
  run_job d n none = ok d
  run_job d n (some (sh, new_best)) =
      put_to_db (record d { pending = remove_at n d.pending }) sh new_best

  -- The `n`-th of the goroutines that wait for the lock gets it. They start in no fixed order.
  unfoldable pub run_pending : HeaderDb → ℕ → Result Error HeaderDb
  unfolding run_job
  run_pending d n = run_job d n (get_elem? d.pending n)

  -- A hit in the cache is the answer; on an error of the cache the database is asked.
  unfoldable pub cached_or :
      Result Error StoredHeader → Result Error StoredHeader → Result Error StoredHeader
  cached_or (ok sh) other = ok sh
  cached_or panic other = panic
  cached_or (err x) other = other
  cached_or stuck other = stuck

  unfoldable pub from_disk : Option (List ℕ) → Result Error StoredHeader
  from_disk none = err header_missing
  from_disk (some b) = deserialize_header btcd b

  unfoldable pub get_header : HeaderDb → ℕ → Result Error StoredHeader
  unfolding cached_or from_disk
  get_header d hash = cached_or (Cache.get e d.cache hash) (from_disk (bucket.get d.headers hash))

  unfoldable pub get_previous_header : HeaderDb → BlockHeader → Result Error StoredHeader
  unfolding get_header
  get_previous_header d header = get_header d header.prev_block

  unfoldable pub read_tip : Option (List ℕ) → Result Error StoredHeader
  read_tip none = err tip_unset
  read_tip (some b) = deserialize_header btcd b

  unfoldable pub best_or_tip : Option StoredHeader → Option (List ℕ) → Result Error StoredHeader
  unfolding read_tip
  best_or_tip (some sh) t = ok sh
  best_or_tip none t = read_tip t

  unfoldable pub get_best_header : HeaderDb → Result Error StoredHeader
  unfolding best_or_tip
  get_best_header d = best_or_tip d.best_cache d.tip

  -- Without a tip `Height` reads a nil slice, which does not decode.
  unfoldable pub height_of_tip : Option StoredHeader → Option (List ℕ) → Result Error ℕ
  height_of_tip (some sh) t = ok sh.height
  height_of_tip none none = do sh ← deserialize_header btcd []; ok sh.height
  height_of_tip none (some b) = do sh ← deserialize_header btcd b; ok sh.height

  unfoldable pub get_height : HeaderDb → Result Error ℕ
  unfolding height_of_tip
  get_height d = height_of_tip d.best_cache d.tip

  -- The walk of `GetHeaderByHeight` down the database from the best header.
  unfoldable pub walk_down : ℕ → bucket.Store → StoredHeader → ℕ → Result Error StoredHeader
  walk_down zero hdrs ptr height = stuck
  walk_down (suc f) hdrs ptr height = elim (ltb height ptr.height) [
    | false ↦ ok ptr
    | true ↦
        from_disk (bucket.get hdrs ptr.header.prev_block) >>= λ prev. walk_down f hdrs prev height
  ]

  -- The part of `GetHeaderByHeight` behind the cache. Each step of the walk goes down by one in a
  -- sound database, so one round more than the height of the best header is enough.
  unfoldable pub find_by_height : HeaderDb → ℕ → Result Error StoredHeader
  find_by_height d height = do
    best ← get_best_header d
    if ltb best.height height
        then err too_high
        else walk_down (suc best.height) d.headers best height

  unfoldable pub get_header_by_height : HeaderDb → ℕ → Result Error StoredHeader
  unfolding cached_or
  get_header_by_height d height =
      cached_or (Cache.get_hash_by_height e d.cache height >>= Cache.get e d.cache)
        (find_by_height d height)

  -- `ForEach` over the bucket: the keys of the headers that pass the test.
  unfoldable pub select : (StoredHeader → Bool) → List (ℕ × List ℕ) → Result Error (List ℕ)
  select test [] = ok []
  select test ((k, v) ∷ rest) = do
    sh ← deserialize_header btcd v
    keys ← select test rest
    ok (if test sh then k ∷ keys else keys)

  unfoldable pub delete_all : bucket.Store → List ℕ → bucket.Store
  delete_all s [] = s
  delete_all s (k ∷ ks) = delete_all (bucket.delete s k) ks

  -- `height - 2000` on uint32.
  unfoldable pub prune_height : ℕ → ℕ
  prune_height height = (height + 2 ^ 32 - 2000) % 2 ^ 32

  unfoldable pub prune : HeaderDb → Result Error HeaderDb
  unfolding read_tip
  prune d = do
    sh ← read_tip d.tip
    let limit = prune_height sh.height
    if ltb max_headers (length (bucket.items d.headers))
        then select (λ x. leb x.height limit) (bucket.items d.headers)
          >>= (λ keys. ok (record d { headers = delete_all d.headers keys }))
        else ok d

  unfoldable pub delete_after : HeaderDb → ℕ → Result Error HeaderDb
  delete_after d height = do
    keys ← select (λ x. ltb height x.height) (bucket.items d.headers)
    ok (record d { headers = delete_all d.headers keys })

  -- The loop of `initializeCache`, which asks for the parent of `best` in every round.
  unfoldable pub collect : ℕ → HeaderDb → StoredHeader → List StoredHeader
  collect zero d best = []
  collect (suc n) d best = elim (get_previous_header d best.header) [
    | ok sh ↦ sh ∷ collect n d best
    | _ ↦ []
  ]

  unfoldable pub initialize_cache : HeaderDb → HeaderDb
  initialize_cache d = elim (get_best_header d) [
    | ok best ↦
        let d' : HeaderDb = record d { best_cache = some best } in
        record d' { cache = foldl (Cache.set e) d.cache (reverse (best ∷ collect 99 d' best)) }
    | _ ↦ d
  ]

  -- `NewHeaderDB` on the buckets of the file, with an empty map for the cache.
  unfoldable pub new_header_db : ordered.Store → bucket.Store → Option (List ℕ) → HeaderDb
  new_header_db none_cached hdrs t = initialize_cache (record {
    best_cache = none;
    cache = record { headers = none_cached; cache_size = cache_size_max };
    headers = hdrs;
    tip = t;
    pending = [];
  })
