-- ===== src/Chain/Cache/Growth.antt =====
-- The size of the cache: a write makes room for one key and adds two.
use spvwallet.Prelude.{
  ℕ, ◌+◌, ◌≤◌, ◌≡◌, refl, ap, ◌∙◌, inl, inr, none, List, [], ◌∷◌, length, length-append, ltb, arith,
  Bool-cases, Option-cases,
}
use spvwallet.Chain.Types.{StoredHeader}
use spvwallet.Chain.Cache.{
  Key, hash_key, height_key, Val, header_val, string_val, Env, HeaderCache, drop_first, pop,
  make_room, set,
}
use spvwallet.Chain.Cache.Lookup.{get-make_room, height_key-ne-hash_key}

module _ (e : Env) where
  open e use {btcd, ordered}

  abbrev pub size : ordered.Store → ℕ
  size m = length (ordered.keys m)

  size-drop_first :
      (m : ordered.Store) (ks : List Key)
      → ordered.keys m ≡ ks
      → size m ≤ size (drop_first e m ks) + 1
  unfolding drop_first
  size-drop_first m [] h = omega arith
  size-drop_first m (k ∷ ks) h =
      omega (arith, ap length (ordered.keys-delete m k ks h), ap length h)

  size-make_room : (c : HeaderCache e) → size c.headers ≤ size (make_room e c) + 1
  unfolding make_room pop
  size-make_room c = elim (Bool-cases (ltb c.cache_size (size c.headers))) [
    | inl p ↦ rw p (size-drop_first c.headers (ordered.keys c.headers) refl)
    | inr p ↦ rw p (omega arith)
  ]

  absent-make_room :
      (c : HeaderCache e) (k : Key)
      → ordered.get c.headers k ≡ none
      → ordered.get (make_room e c) k ≡ none
  absent-make_room c k h = elim (Option-cases (ordered.get (make_room e c) k)) [
    | inl p ↦ p
    | inr (v, p) ↦ cc (get-make_room e c k v p)
  ]

  size-set_new :
      (m : ordered.Store) (k : Key) (v : Val)
      → ordered.get m k ≡ none
      → size (ordered.set m k v) ≡ size m + 1
  size-set_new m k v h =
      omega (
        arith,
        ap length (ordered.keys-set_new m k v h),
        length-append {0} (ordered.keys m) (k ∷ []),
      )

  -- Whatever the cache holds, and however far it is over its size: a write of a header whose hash
  -- and height it does not know leaves it with at least one key more than before.
  pub size-set_new_header :
      (c : HeaderCache e) (sh : StoredHeader)
      → ordered.get c.headers (hash_key (btcd.hash_string (btcd.block_hash sh.header))) ≡ none
      → ordered.get c.headers (height_key sh.height) ≡ none
      → length (ordered.keys c.headers) + 1 ≤ length (ordered.keys (set e c sh).headers)
  unfolding set
  size-set_new_header c sh h k =
      let text = btcd.hash_string (btcd.block_hash sh.header) in
      let room = make_room e c in
      let first = absent-make_room c (hash_key text) h in
      let second =
        ordered.get-set_ne room (hash_key text) (height_key sh.height) (header_val sh)
          (height_key-ne-hash_key sh.height text)
        ∙ absent-make_room c (height_key sh.height) k in
      omega (
        arith,
        size-make_room c,
        size-set_new room (hash_key text) (header_val sh) first,
        size-set_new (ordered.set room (hash_key text) (header_val sh)) (height_key sh.height)
            (string_val text) second,
      )
