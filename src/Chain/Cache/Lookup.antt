-- ===== src/Chain/Cache/Lookup.antt =====
-- What can be read from the cache after a write.
use spvwallet.Prelude.{
  ℕ, ◌≡◌, ap, sym, ◌∙◌, ◌≢◌, ◌⊎◌, inl, inr, some, List, [], ◌∷◌, length, ltb, ok, Bool-cases,
  ℕ_discrete,
}
use spvwallet.Chain.Types.{StoredHeader, BtcdLaws}
use spvwallet.Chain.Cache.{
  Key, hash_key, height_key, Val, header_val, string_val, Env, HeaderCache, drop_first, pop,
  make_room, set, get, get_hash_by_height,
}
use Prim.Native.String.{String}
use text.Mathlib.Text.{◌==◌ as str_eq}
use text.Mathlib.TextEquality.{eq_iff}

unfoldable pub String-cases : (s t : String) → (s ≡ t) ⊎ (s ≢ t)
String-cases s t = elim (Bool-cases (str_eq s t)) [
  | inl p ↦ inl ((eq_iff s t).0 p)
  | inr p ↦ inr (λ q. cc ((eq_iff s t).1 q))
]

unfoldable pub Key-cases : (k j : Key) → (k ≡ j) ⊎ (k ≢ j)
Key-cases (hash_key s) (hash_key t) = elim (String-cases s t) [
  | inl p ↦ inl (ap hash_key p)
  | inr p ↦ inr (λ q. p (cc))
]
Key-cases (hash_key s) (height_key n) = inr (λ q. cc)
Key-cases (height_key m) (hash_key t) = inr (λ q. cc)
Key-cases (height_key m) (height_key n) = elim (ℕ_discrete m n) [
  | yes p ↦ inl (ap height_key p)
  | no p ↦ inr (λ q. p (cc))
]

pub height_key-ne-hash_key : (n : ℕ) (s : String) → height_key n ≢ hash_key s
height_key-ne-hash_key n s q = cc

module _ (e : Env) where
  open e use {btcd, ordered}

  get-drop_first :
      (m : ordered.Store) (ks : List Key) (k : Key) (v : Val)
      → ordered.get (drop_first e m ks) k ≡ some v
      → ordered.get m k ≡ some v
  unfolding drop_first
  get-drop_first m [] k v h = h
  get-drop_first m (j ∷ _) k v h = elim (Key-cases k j) [
    | inl p ↦ cc (ordered.get-delete_self m j)
    | inr p ↦ sym (ordered.get-delete_ne m j k p) ∙ h
  ]

  -- Making room hides entries and changes none.
  pub get-make_room :
      (c : HeaderCache e) (k : Key) (v : Val)
      → ordered.get (make_room e c) k ≡ some v
      → ordered.get c.headers k ≡ some v
  unfolding make_room pop
  get-make_room c k v h = elim (Bool-cases (ltb c.cache_size (length (ordered.keys c.headers)))) [
    | inl p ↦ get-drop_first c.headers (ordered.keys c.headers) k v (rw p at h)
    | inr p ↦ rw p at h
  ]

  -- A header that `set` has written is what `get` reads under its hash.
  pub get-set_self :
      (c : HeaderCache e) (sh : StoredHeader)
      → get e (set e c sh) (btcd.block_hash sh.header) ≡ ok sh
  unfolding get set
  get-set_self c sh =
      let text = btcd.hash_string (btcd.block_hash sh.header) in
      rw
        (ordered.get-set_ne _ _ (hash_key text) _
          (λ p. height_key-ne-hash_key sh.height text (sym p)))
        (rw (ordered.get-set_self _ _ _))

  -- What the height of the written header leads to is its hash.
  pub get_hash_by_height-set :
      BtcdLaws btcd
      → (c : HeaderCache e) (sh : StoredHeader)
      → get_hash_by_height e (set e c sh) sh.height ≡ ok (btcd.block_hash sh.header)
  unfolding get_hash_by_height set
  get_hash_by_height-set laws c sh =
      rw (ordered.get-set_self _ _ _) (rw (laws.from_string-string _))

  -- After a write a hash key leads to the written header or to what it led to before.
  pub get-set_hash :
      (c : HeaderCache e) (sh : StoredHeader) (s : String) (v : Val)
      → ordered.get (set e c sh).headers (hash_key s) ≡ some v
      → ((s ≡ btcd.hash_string (btcd.block_hash sh.header)) × (v ≡ header_val sh))
        ⊎ (ordered.get c.headers (hash_key s) ≡ some v)
  unfolding set
  get-set_hash c sh s v h =
      let text = btcd.hash_string (btcd.block_hash sh.header) in
      let room = make_room e c in
      let past =
        ordered.get-set_ne (ordered.set room (hash_key text) (header_val sh)) (height_key sh.height)
          (hash_key s) (string_val text) (λ p. height_key-ne-hash_key sh.height s (sym p)) in
      elim (Key-cases (hash_key s) (hash_key text)) [
        | inl p ↦ inl (
          cc,
          cc (
            past,
            ap (ordered.get (ordered.set room (hash_key text) (header_val sh))) p,
            ordered.get-set_self room (hash_key text) (header_val sh),
          ),
        )
        | inr p ↦ inr (
            get-make_room c (hash_key s) v (
              sym (ordered.get-set_ne room (hash_key text) (hash_key s) (header_val sh) p)
              ∙ sym past
              ∙ h))
      ]
