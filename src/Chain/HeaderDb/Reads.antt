-- ===== src/Chain/HeaderDb/Reads.antt =====
-- What the reads of a header database return.
use spvwallet.Prelude.{
  ℕ, ◌≡◌, refl, ap, ◌⊎◌, inl, inr, Bool, true, false, Option, none, some, List, ok, arith,
}
use spvwallet.Chain.Types.{StoredHeader, BtcdLaws}
use spvwallet.Chain.Codec.{deserialize_header}
use spvwallet.Chain.Cache
use spvwallet.Chain.Cache.{Key, hash_key, Val, header_val, string_val, Env, as_header}
use spvwallet.Chain.Cache.Lookup.{get-set_self, get_hash_by_height-set}
use spvwallet.Chain.HeaderDb.{
  HeaderDb, put, get_header, get_best_header, get_header_by_height, get_height, best_or_tip,
  height_of_tip, cached_or, from_disk,
}
use spvwallet.Chain.HeaderDb.Held.{AllHeld, IsIndexed}

module _ (e : Env) where
  open e use {btcd, bucket, ordered}

  from_cases :
      (c : Option Val) (o : Option (List ℕ)) (sh : StoredHeader)
      → cached_or e (as_header e c) (from_disk e o) ≡ ok sh
      → (c ≡ some (header_val sh))
        ⊎ ((b : List ℕ) × (o ≡ some b) × (deserialize_header btcd b ≡ ok sh))
  unfolding cached_or from_disk as_header
  from_cases (some (header_val x)) o sh h = inl (cc)
  from_cases (some (string_val t)) o sh h = cc
  from_cases none none sh h = cc
  from_cases none (some b) sh h = inr (b, refl, h)

  -- A header that was read came from the cache or from the bucket, under its hash.
  pub get_header_cases :
      (d : HeaderDb e) (h : ℕ) (sh : StoredHeader)
      → get_header e d h ≡ ok sh
      → (ordered.get d.cache.headers (hash_key (btcd.hash_string h)) ≡ some (header_val sh))
        ⊎ ((b : List ℕ) × (bucket.get d.headers h ≡ some b) × (deserialize_header btcd b ≡ ok sh))
  unfolding get_header Cache.get
  get_header_cases d h sh p =
      from_cases (ordered.get d.cache.headers (hash_key (btcd.hash_string h)))
        (bucket.get d.headers h) sh p

  pub get_header-AllHeld :
      (P : StoredHeader → Type 0) (d : HeaderDb e) (h : ℕ) (sh : StoredHeader)
      → AllHeld e P d
      → get_header e d h ≡ ok sh
      → P sh
  get_header-AllHeld P d h sh held p = elim (get_header_cases d h sh p) [
    | inl c ↦ held.cached (btcd.hash_string h) sh c
    | inr (b, stored, read) ↦ held.on_disk h b sh stored read
  ]

  -- In an indexed database a header that is found under a hash has that hash.
  pub get_header_hash :
      BtcdLaws btcd
      → (d : HeaderDb e) (h : ℕ) (sh : StoredHeader) → IsIndexed e d
      → get_header e d h ≡ ok sh
      → btcd.block_hash sh.header ≡ h
  get_header_hash laws d h sh ix p = elim (get_header_cases d h sh p) [
    | inl c ↦ cc (
      ap btcd.hash_from_string (ix.cache_hash (btcd.hash_string h) sh c),
      laws.from_string-string h,
      laws.from_string-string (btcd.block_hash sh.header),
    )
    | inr (b, stored, read) ↦ ix.disk_hash h b sh stored read
  ]

  best_cases :
      (c : Option StoredHeader) (t : Option (List ℕ)) (sh : StoredHeader)
      → best_or_tip e c t ≡ ok sh
      → (c ≡ some sh) ⊎ ((b : List ℕ) × (t ≡ some b) × (deserialize_header btcd b ≡ ok sh))
  unfolding best_or_tip
  best_cases (some x) t sh h = inl (cc)
  best_cases none none sh h = cc
  best_cases none (some b) sh h = inr (b, refl, h)

  pub get_best_header-AllHeld :
      (P : StoredHeader → Type 0) (d : HeaderDb e) (sh : StoredHeader)
      → AllHeld e P d
      → get_best_header e d ≡ ok sh
      → P sh
  unfolding get_best_header
  get_best_header-AllHeld P d sh held p = elim (best_cases d.best_cache d.tip sh p) [
    | inl c ↦ held.best sh c
    | inr (b, stored, read) ↦ held.tip b sh stored read
  ]

  -- Right after `Put` the header is found under its hash, whatever waits to be written.
  pub get_header-put :
      (d : HeaderDb e) (sh : StoredHeader) (new_best : Bool)
      → get_header e (put e d sh new_best) (btcd.block_hash sh.header) ≡ ok sh
  unfolding get_header put
  get_header-put d sh new_best = rw (get-set_self e d.cache sh, get_header)

  -- A `Put` as new best header is the best header from then on; any other leaves the best header.
  pub get_best_header-put :
      (d : HeaderDb e) (sh : StoredHeader)
      → (get_best_header e (put e d sh true) ≡ ok sh)
        × (get_best_header e (put e d sh false) ≡ get_best_header e d)
  unfolding get_best_header put
  get_best_header-put d sh = (refl, refl)

  -- Right after `Put` the lookup by height returns the header that was put, also if it is not on
  -- the best chain: the cache answers before the best header is asked for.
  pub get_header_by_height-put :
      BtcdLaws btcd
      → (d : HeaderDb e) (sh : StoredHeader) (new_best : Bool)
      → get_header_by_height e (put e d sh new_best) sh.height ≡ ok sh
  unfolding get_header_by_height put
  get_header_by_height-put laws d sh new_best =
      rw (get_hash_by_height-set e laws d.cache sh, get_header_by_height)
        (rw (get-set_self e d.cache sh, get_header_by_height))

  height_of_best :
      (c : Option StoredHeader) (t : Option (List ℕ)) (sh : StoredHeader)
      → best_or_tip e c t ≡ ok sh
      → height_of_tip e c t ≡ ok sh.height
  unfolding best_or_tip height_of_tip
  height_of_best (some x) t sh h = ground arith
  height_of_best none none sh h = cc
  height_of_best none (some b) sh h = rw h

  -- Where there is a best header, `Height` is its height.
  pub get_height-best :
      (d : HeaderDb e) (sh : StoredHeader)
      → get_best_header e d ≡ ok sh
      → get_height e d ≡ ok sh.height
  unfolding get_best_header get_height
  get_height-best d sh h = height_of_best d.best_cache d.tip sh h
