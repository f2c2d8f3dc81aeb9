-- ===== src/Chain/HeaderDb/Settled.antt =====
-- The cache before the files: when all goroutines of Put have written, it hides nothing.
use spvwallet.Prelude.{
  ℕ, ◌<◌, ◌^◌, ◌≡◌, ◌≢◌, refl, sym, ap, subst, ◌∙◌, ◌⊎◌, inl, inr, Bool, Option, none, some, List,
  [], ◌∷◌, ◌++◌, ok, Elem, get_elem?-Elem, Elem-remove_at, ℕ_discrete,
}
use spvwallet.Chain.Types.{StoredHeader, BtcdLaws, IsWire}
use spvwallet.Chain.Codec.{serialize_header, deserialize_header}
use spvwallet.Chain.Codec.RoundTrip.{deserialize-serialized}
use spvwallet.Chain.Cache
use spvwallet.Chain.Cache.{Val, hash_key, header_val, string_val, Env, as_header}
use spvwallet.Chain.Cache.Lookup.{get-set_hash}
use spvwallet.Chain.HeaderDb.{HeaderDb, put, run_pending, get_header, cached_or, from_disk}
use spvwallet.Chain.HeaderDb.Held.{AllHeld, IsIndexed}
use spvwallet.Chain.HeaderDb.Writes.{
  header_val-eq, put-AllHeld, put-IsIndexed, run_pending_cases, run_pending_keeps,
}
use spvwallet.Chain.HeaderDb.Reads.{get_header_hash}
use spvwallet.Chain.Session.{IsEmpty, empty-AllHeld, empty-IsIndexed}
use Prim.Native.String.{String}

Elem-last : {A : Type 0} (xs : List A) (a : A) → Elem a (xs ++ (a ∷ []))
Elem-last [] a = inl refl
Elem-last (x ∷ xs) a = inr (Elem-last xs a)

Elem-left : {A : Type 0} (xs : List A) (a b : A) → Elem a xs → Elem a (xs ++ (b ∷ []))
Elem-left [] a b h = elim h [ ]
Elem-left (x ∷ xs) a b (inl h) = inl h
Elem-left (x ∷ xs) a b (inr h) = inr (Elem-left xs a b h)

module _ (e : Env) (laws : BtcdLaws e.btcd) (P : StoredHeader → Type 0)
    (only : (x y : StoredHeader)
      → P x
      → P y
      → e.btcd.block_hash x.header ≡ e.btcd.block_hash y.header
      → x ≡ y) where
  open e use {btcd, bucket, ordered}

  -- Puts of headers with `P`, and goroutines that write, in any order.
  pub data Fills (first : HeaderDb e) : HeaderDb e → Type 0 where
    here : Fills first first
    puts :
        {d : HeaderDb e} (sh : StoredHeader) (new_best : Bool)
        → P sh
        → IsWire sh.header
        → sh.height < 2 ^ 32
        → Fills first d
        → Fills first (put e d sh new_best)
    writes :
        {d d' : HeaderDb e} (n : ℕ) → run_pending e d n ≡ ok d' → Fills first d → Fills first d'

  -- The header is in the bucket, under its hash.
  abbrev OnDisk : bucket.Store → StoredHeader → Type 0
  OnDisk hdrs sh =
      (b : List ℕ) × (bucket.get hdrs (btcd.block_hash sh.header) ≡ some b)
      × (deserialize_header btcd b ≡ ok sh)

  -- A cached header waits or is in the bucket.
  record Coherent (d : HeaderDb e) : Type 0 where
    pub indexed : IsIndexed e d
    pub held : AllHeld e P d
    pub behind :
        (sh : StoredHeader)
        → ordered.get d.cache.headers (hash_key (btcd.hash_string (btcd.block_hash sh.header)))
          ≡ some (header_val sh)
        → ((best : Bool) × Elem (sh, best) d.pending) ⊎ OnDisk d.headers sh

  put-Coherent :
      (d : HeaderDb e) (sh : StoredHeader) (new_best : Bool)
      → P sh
      → IsWire sh.header
      → sh.height < 2 ^ 32
      → Coherent d
      → Coherent (put e d sh new_best)
  unfolding put
  put-Coherent d sh new_best good wire height c = record {
    indexed = put-IsIndexed e d sh new_best wire height c.indexed;
    held = put-AllHeld e P d sh new_best good c.held;
    behind = λ x h. elim (get-set_hash e d.cache sh _ (header_val x) h) [
      | inl (p, q) ↦ inl (
        new_best,
        subst (λ y. Elem (y, new_best) (d.pending ++ ((sh, new_best) ∷ [])))
            (sym (header_val-eq x sh q)) (Elem-last d.pending (sh, new_best)),
      )
      | inr old ↦ elim (c.behind x old) [
        | inl (b, waits) ↦ inl (b, Elem-left d.pending (x, b) (sh, new_best) waits)
        | inr stored ↦ inr stored
      ]
    ];
  }

  written-OnDisk :
      (d : HeaderDb e) (sh x : StoredHeader) (ser : List ℕ)
      → serialize_header btcd sh ≡ ok ser
      → IsWire sh.header
      → sh.height < 2 ^ 32
      → P sh
      → P x
      → (x ≡ sh) ⊎ OnDisk d.headers x
      → OnDisk (bucket.put d.headers (btcd.block_hash sh.header) ser) x
  written-OnDisk d sh x ser written wire height good_sh good_x from =
      let hash = btcd.block_hash sh.header in
      let self : OnDisk (bucket.put d.headers hash ser) sh = (
        ser,
        bucket.get-put_self d.headers hash ser,
        deserialize-serialized btcd sh ser laws wire height written,
      ) in
      elim (ℕ_discrete (btcd.block_hash x.header) hash) [
        | yes p ↦
            subst (OnDisk (bucket.put d.headers hash ser)) (sym (only x sh good_x good_sh p)) self
        | no apart ↦ elim from [
          | inl same ↦ subst (OnDisk (bucket.put d.headers hash ser)) (sym same) self
          | inr (b, stored, read) ↦ (
            b,
            bucket.get-put_ne d.headers hash (btcd.block_hash x.header) ser apart ∙ stored,
            read,
          )
        ]
      ]

  write-Coherent :
      (d d' : HeaderDb e) (n : ℕ) → run_pending e d n ≡ ok d' → Coherent d → Coherent d'
  write-Coherent d d' n h c =
      let (ix, held) = run_pending_keeps e laws P d d' n c.indexed c.held h in
      elim (run_pending_cases e d d' n h) [
        | inl same ↦ subst Coherent same c
        | inr (sh, best, ser, at, written, same) ↦ record {
          indexed = ix;
          held = held;
          behind =
              let waits = get_elem?-Elem d.pending n (sh, best) at in
              subst
                (λ (z : HeaderDb e).
                  (x : StoredHeader)
                  → ordered.get z.cache.headers
                      (hash_key (btcd.hash_string (btcd.block_hash x.header)))
                    ≡ some (header_val x)
                  → ((b : Bool) × Elem (x, b) z.pending) ⊎ OnDisk z.headers x)
                same
                (λ x in_cache.
                  let stored = λ (from : (x ≡ sh) ⊎ OnDisk d.headers x).
                    written-OnDisk d sh x ser written (c.indexed.waiting_fits sh best waits)
                      (c.indexed.waiting_height sh best waits) (c.held.waiting sh best waits)
                      (c.held.cached _ x in_cache) from in
                  elim (c.behind x in_cache) [
                    | inr old ↦ inr (stored (inr old))
                    | inl (b, waiting) ↦
                        elim (Elem-remove_at n d.pending (x, b) (sh, best) at waiting) [
                          | inl this ↦
                              inr (stored (inl (ap (λ (z : StoredHeader × Bool). z.0) this)))
                          | inr left ↦ inl (b, left)
                        ]
                  ]);
        }
      ]

  Fills-Coherent : {first d : HeaderDb e} → Coherent first → Fills first d → Coherent d
  Fills-Coherent c here = c
  Fills-Coherent c (puts {d = d} sh b good wire height r) =
      put-Coherent d sh b good wire height (Fills-Coherent c r)
  Fills-Coherent c (writes {d = d} {d' = d'} n h r) = write-Coherent d d' n h (Fills-Coherent c r)

  empty-Coherent : (d : HeaderDb e) → IsEmpty e d → Coherent d
  empty-Coherent d z = record {
    indexed = empty-IsIndexed e d z;
    held = empty-AllHeld e P d z;
    behind = λ sh h. cc (z.no_cache (hash_key (btcd.hash_string (btcd.block_hash sh.header))));
  }

  cached_or_same :
      (c : Option Val) (o : Option (List ℕ))
      → ((x : StoredHeader) → c ≡ some (header_val x) → from_disk e o ≡ ok x)
      → ((t : String) → c ≢ some (string_val t))
      → cached_or e (as_header e c) (from_disk e o) ≡ from_disk e o
  unfolding cached_or as_header
  cached_or_same none o same plain = refl
  cached_or_same (some (header_val x)) o same plain = sym (same x refl)
  cached_or_same (some (string_val t)) o same plain = absurd (plain t refl)

  -- A set of headers has one header for each hash. From an empty database, headers from the set that
  -- fit the format are put, and goroutines write them, in any order. When no write waits any more,
  -- GetHeader of any hash has the result that a read of the files has.
  pub get_header-from_disk :
      (first d : HeaderDb e) (h : ℕ)
      → IsEmpty e first
      → Fills first d
      → d.pending ≡ []
      → get_header e d h ≡ from_disk e (bucket.get d.headers h)
  unfolding get_header Cache.get
  get_header-from_disk first d h empty fills settled =
      let c = Fills-Coherent (empty-Coherent first empty) fills in
      cached_or_same (ordered.get d.cache.headers (hash_key (btcd.hash_string h)))
        (bucket.get d.headers h) (found c) (λ t. c.indexed.cache_header (btcd.hash_string h) t)
    where
      found :
          Coherent d
          → (x : StoredHeader)
          → ordered.get d.cache.headers (hash_key (btcd.hash_string h)) ≡ some (header_val x)
          → from_disk e (bucket.get d.headers h) ≡ ok x
      found c x hit =
          let at : btcd.block_hash x.header ≡ h =
            get_header_hash e laws d h x c.indexed (rw (hit, Cache.get, get_header)) in
          let key = λ (k : ℕ). ordered.get d.cache.headers (hash_key (btcd.hash_string k)) in
          elim (c.behind x (subst (λ k. key k ≡ some (header_val x)) (sym at) hit)) [
            | inl (b, waits) ↦ absurd (subst (Elem (x, b)) settled waits)
            | inr (b, stored, read) ↦
                rw (subst (λ k. bucket.get d.headers k ≡ some b) at stored, from_disk) read
          ]
