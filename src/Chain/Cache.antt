-- ===== src/Chain/Cache.antt =====
-- HeaderCache of chain/headers.go: one ordered map holds the headers by the text of their hash and
-- those texts by height.
pub mod Lookup
pub mod Growth
use spvwallet.Prelude.{
  ℕ, ◌==◌, Bool, Option, none, some, List, [], ◌∷◌, length, ltb, if◌then◌else◌, Result, ok, err,
  panic,
}
use spvwallet.Prelude.Stores.{Bucket, OrderedMap}
use spvwallet.Chain.Types.{StoredHeader, Error, not_found, bad_hash, Btcd}
use Prim.Native.String.{String}

-- The keys and the values of the map, which are `interface{}` in the source.
pub data Key : Type 0 where
  hash_key : String → Key
  height_key : ℕ → Key

pub data Val : Type 0 where
  header_val : StoredHeader → Val
  string_val : String → Val

-- The code outside the package: btcd, a bolt bucket of headers, and the ordered map.
pub record Env : Type 1 where
  pub btcd : Btcd
  pub bucket : Bucket ℕ (List ℕ)
  pub ordered : OrderedMap Key Val

abbrev pub cache_size_max : ℕ
cache_size_max = 100

module _ (e : Env) where
  open e use {btcd, ordered}

  pub record HeaderCache : Type 0 where
    pub headers : ordered.Store
    pub cache_size : ℕ

  -- The first step of the iterator, if there is one, gives the key to delete.
  unfoldable pub drop_first : ordered.Store → List Key → ordered.Store
  drop_first m [] = m
  drop_first m (k ∷ _) = ordered.delete m k

  unfoldable pub pop : ordered.Store → ordered.Store
  unfolding drop_first
  pop m = drop_first m (ordered.keys m)

  -- The room made before a write: one key, where the map is over its size.
  unfoldable pub make_room : HeaderCache → ordered.Store
  make_room c =
      if ltb c.cache_size (length (ordered.keys c.headers)) then pop c.headers else c.headers

  unfoldable pub set : HeaderCache → StoredHeader → HeaderCache
  set c sh =
      let text = btcd.hash_string (btcd.block_hash sh.header) in
      record c {
        headers =
            ordered.set (ordered.set (make_room c) (hash_key text) (header_val sh))
              (height_key sh.height) (string_val text);
      }

  -- The type assertion panics on a value of the other type.
  unfoldable pub as_header : Option Val → Result Error StoredHeader
  as_header none = err not_found
  as_header (some (header_val sh)) = ok sh
  as_header (some (string_val t)) = panic

  unfoldable pub get : HeaderCache → ℕ → Result Error StoredHeader
  unfolding as_header
  get c hash = as_header (ordered.get c.headers (hash_key (btcd.hash_string hash)))

  unfoldable pub parse_hash : Option ℕ → Result Error ℕ
  parse_hash none = err bad_hash
  parse_hash (some h) = ok h

  unfoldable pub as_hash : Option Val → Result Error ℕ
  as_hash none = err not_found
  as_hash (some (header_val sh)) = panic
  as_hash (some (string_val t)) = parse_hash (btcd.hash_from_string t)

  unfoldable pub get_hash_by_height : HeaderCache → ℕ → Result Error ℕ
  unfolding as_hash parse_hash
  get_hash_by_height c height = as_hash (ordered.get c.headers (height_key height))
