-- ===== src/Chain/HeaderDb/Held.antt =====
-- What a header database holds: in its cache, in its files, and in the writes that still wait.
use spvwallet.Prelude.{ℕ, ◌<◌, ◌^◌, ◌≡◌, ◌≢◌, Bool, some, List, Elem, ok}
use spvwallet.Chain.Types.{StoredHeader, IsWire}
use spvwallet.Chain.Codec.{deserialize_header}
use spvwallet.Chain.Cache.{hash_key, header_val, string_val, Env}
use spvwallet.Chain.HeaderDb.{HeaderDb}
use Prim.Native.String.{String}

module _ (e : Env) where
  open e use {btcd, bucket, ordered}

  -- Every header that a read can return now or later satisfies `P`.
  pub record AllHeld (P : StoredHeader → Type 0) (d : HeaderDb e) : Type 0 where
    pub cached :
        (s : String) (sh : StoredHeader)
        → ordered.get d.cache.headers (hash_key s) ≡ some (header_val sh)
        → P sh
    pub on_disk :
        (h : ℕ) (b : List ℕ) (sh : StoredHeader)
        → bucket.get d.headers h ≡ some b
        → deserialize_header btcd b ≡ ok sh
        → P sh
    pub waiting : (sh : StoredHeader) (best : Bool) → Elem (sh, best) d.pending → P sh
    pub best : (sh : StoredHeader) → d.best_cache ≡ some sh → P sh
    pub tip :
        (b : List ℕ) (sh : StoredHeader) → d.tip ≡ some b → deserialize_header btcd b ≡ ok sh → P sh

  -- Headers stand under their own hash, and hash keys lead to headers.
  pub record IsIndexed (d : HeaderDb e) : Type 0 where
    pub cache_hash :
        (s : String) (sh : StoredHeader)
        → ordered.get d.cache.headers (hash_key s) ≡ some (header_val sh)
        → s ≡ btcd.hash_string (btcd.block_hash sh.header)
    pub cache_header :
        (s t : String) → ordered.get d.cache.headers (hash_key s) ≢ some (string_val t)
    pub disk_hash :
        (h : ℕ) (b : List ℕ) (sh : StoredHeader)
        → bucket.get d.headers h ≡ some b
        → deserialize_header btcd b ≡ ok sh
        → btcd.block_hash sh.header ≡ h
    pub waiting_fits :
        (sh : StoredHeader) (best : Bool) → Elem (sh, best) d.pending → IsWire sh.header
    pub waiting_height :
        (sh : StoredHeader) (best : Bool) → Elem (sh, best) d.pending → sh.height < 2 ^ 32
