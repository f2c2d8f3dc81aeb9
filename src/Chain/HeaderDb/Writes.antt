-- ===== src/Chain/HeaderDb/Writes.antt =====
-- The writes of a header database keep what is held, and its index.
use spvwallet.Prelude.{
  ℕ, ◌<◌, ◌^◌, ◌≡◌, refl, sym, ap, subst, ◌∙◌, ◌⊎◌, inl, inr, Bool, true, false, Option, none, some,
  List, [], ◌∷◌, ◌++◌, ok, >>=-eq-ok, ok-injective, some-injective, Bool-cases, if◌then◌else◌, Elem,
  get_elem?, remove_at, get_elem?-Elem, remove_at-Elem, ℕ_discrete,
}
use spvwallet.Chain.Types.{StoredHeader, BtcdLaws, IsWire}
use spvwallet.Chain.Codec.{serialize_header, deserialize_header}
use spvwallet.Chain.Codec.RoundTrip.{deserialize-serialized}
use spvwallet.Chain.Cache.{header_val, string_val, Env}
use spvwallet.Chain.Cache.Lookup.{get-set_hash}
use spvwallet.Chain.HeaderDb.{HeaderDb, put, put_to_db, run_job, run_pending}
use spvwallet.Chain.HeaderDb.Held.{AllHeld, IsIndexed}

pub Elem-append :
    {A : Type 0} (xs : List A) (a b : A) → Elem a (xs ++ (b ∷ [])) → Elem a xs ⊎ (a ≡ b)
Elem-append [] a b (inl h) = inr h
Elem-append [] a b (inr h) = elim h [ ]
Elem-append (x ∷ xs) a b (inl h) = inl (inl h)
Elem-append (x ∷ xs) a b (inr h) = elim (Elem-append xs a b h) [
  | inl p ↦ inl (inr p)
  | inr q ↦ inr q
]

pub header_val-eq : (x y : StoredHeader) → header_val x ≡ header_val y → x ≡ y
header_val-eq x y q = cc

module _ (e : Env) where
  open e use {btcd, bucket, ordered}

  pub put-AllHeld :
      (P : StoredHeader → Type 0) (d : HeaderDb e) (sh : StoredHeader) (new_best : Bool)
      → P sh
      → AllHeld e P d
      → AllHeld e P (put e d sh new_best)
  unfolding put
  put-AllHeld P d sh new_best good held = record {
    cached = λ s x h. elim (get-set_hash e d.cache sh s (header_val x) h) [
      | inl (p, q) ↦ rw (header_val-eq x sh q) good
      | inr old ↦ held.cached s x old
    ];
    on_disk = held.on_disk;
    waiting = λ x b h. elim (Elem-append d.pending (x, b) (sh, new_best) h) [
      | inl old ↦ held.waiting x b old
      | inr new ↦ rw (ap (λ (p : StoredHeader × Bool). p.0) new) good
    ];
    best = λ x h. best_of new_best x h;
    tip = held.tip;
  }
    where
      best_of : (b : Bool) (x : StoredHeader) → (put e d sh b).best_cache ≡ some x → P x
      best_of true x h = subst P (some-injective h) good
      best_of false x h = held.best x h

  pub put-IsIndexed :
      (d : HeaderDb e) (sh : StoredHeader) (new_best : Bool)
      → IsWire sh.header
      → sh.height < 2 ^ 32
      → IsIndexed e d
      → IsIndexed e (put e d sh new_best)
  unfolding put
  put-IsIndexed d sh new_best wire height ix = record {
    cache_hash = λ s x h. elim (get-set_hash e d.cache sh s (header_val x) h) [
      | inl (p, q) ↦ cc (header_val-eq x sh q)
      | inr old ↦ ix.cache_hash s x old
    ];
    cache_header = λ s t h. elim (get-set_hash e d.cache sh s (string_val t) h) [
      | inl (p, q) ↦ cc
      | inr old ↦ ix.cache_header s t old
    ];
    disk_hash = ix.disk_hash;
    waiting_fits = λ x b h. elim (Elem-append d.pending (x, b) (sh, new_best) h) [
      | inl old ↦ ix.waiting_fits x b old
      | inr new ↦ rw (ap (λ (p : StoredHeader × Bool). p.0) new) wire
    ];
    waiting_height = λ x b h. elim (Elem-append d.pending (x, b) (sh, new_best) h) [
      | inl old ↦ ix.waiting_height x b old
      | inr new ↦ rw (ap (λ (p : StoredHeader × Bool). p.0) new) height
    ];
  }

  -- The header that a goroutine writes is one that waited, and it reads back.
  module _ (laws : BtcdLaws btcd) (d : HeaderDb e) (sh : StoredHeader) (new_best : Bool)
      (ser : List ℕ) (written : serialize_header btcd sh ≡ ok ser) (wire : IsWire sh.header)
      (height : sh.height < 2 ^ 32) where
    reads_back :
        (b : List ℕ) (x : StoredHeader) → b ≡ ser → deserialize_header btcd b ≡ ok x → x ≡ sh
    reads_back b x p h =
        ok-injective (sym h ∙ rw p (deserialize-serialized btcd sh ser laws wire height written))

    pub put_bucket_cases :
        (h : ℕ) (b : List ℕ) (x : StoredHeader)
        → bucket.get (bucket.put d.headers (btcd.block_hash sh.header) ser) h ≡ some b
        → deserialize_header btcd b ≡ ok x
        → ((x ≡ sh) × (btcd.block_hash sh.header ≡ h)) ⊎ (bucket.get d.headers h ≡ some b)
    put_bucket_cases h b x stored read =
        let hash = btcd.block_hash sh.header in
        elim (ℕ_discrete h hash) [
          | yes p ↦
              let self : bucket.get (bucket.put d.headers hash ser) h ≡ some ser =
                rw p (bucket.get-put_self d.headers hash ser) in
              inl (reads_back b x (some-injective (sym stored ∙ self)) read, sym p)
          | no p ↦ inr (sym (bucket.get-put_ne d.headers hash h ser p) ∙ stored)
        ]

    tip_cases :
        (b : List ℕ) (x : StoredHeader)
        → (if new_best then some ser else d.tip) ≡ some b
        → deserialize_header btcd b ≡ ok x
        → (x ≡ sh) ⊎ (d.tip ≡ some b)
    tip_cases b x h read = elim (Bool-cases new_best) [
      | inl p ↦ inl (reads_back b x (some-injective (sym h ∙ rw p)) read)
      | inr p ↦ inr (rw p at h)
    ]

    -- The database behind the write, with the rest of its state as it was.
    abbrev written_db : HeaderDb e
    written_db = record d {
      headers = bucket.put d.headers (btcd.block_hash sh.header) ser;
      tip = if new_best then some ser else d.tip;
    }

    written_db-AllHeld : (P : StoredHeader → Type 0) → P sh → AllHeld e P d → AllHeld e P written_db
    written_db-AllHeld P good held = record {
      cached = held.cached;
      on_disk = λ h b x stored read. elim (put_bucket_cases h b x stored read) [
        | inl (p, q) ↦ rw p good
        | inr old ↦ held.on_disk h b x old read
      ];
      waiting = held.waiting;
      best = held.best;
      tip = λ b x stored read. elim (tip_cases b x stored read) [
        | inl p ↦ rw p good
        | inr old ↦ held.tip b x old read
      ];
    }

    written_db-IsIndexed : IsIndexed e d → IsIndexed e written_db
    written_db-IsIndexed ix = record {
      cache_hash = ix.cache_hash;
      cache_header = ix.cache_header;
      disk_hash = λ h b x stored read. elim (put_bucket_cases h b x stored read) [
        | inl (p, q) ↦ rw p q
        | inr old ↦ ix.disk_hash h b x old read
      ];
      waiting_fits = ix.waiting_fits;
      waiting_height = ix.waiting_height;
    }

  pub remove_pending-AllHeld :
      (P : StoredHeader → Type 0) (d : HeaderDb e) (n : ℕ)
      → AllHeld e P d
      → AllHeld e P (record d { pending = remove_at n d.pending })
  remove_pending-AllHeld P d n held = record {
    cached = held.cached;
    on_disk = held.on_disk;
    waiting = λ x b h. held.waiting x b (remove_at-Elem n d.pending (x, b) h);
    best = held.best;
    tip = held.tip;
  }

  pub remove_pending-IsIndexed :
      (d : HeaderDb e) (n : ℕ)
      → IsIndexed e d
      → IsIndexed e (record d { pending = remove_at n d.pending })
  remove_pending-IsIndexed d n ix = record {
    cache_hash = ix.cache_hash;
    cache_header = ix.cache_header;
    disk_hash = ix.disk_hash;
    waiting_fits = λ x b h. ix.waiting_fits x b (remove_at-Elem n d.pending (x, b) h);
    waiting_height = λ x b h. ix.waiting_height x b (remove_at-Elem n d.pending (x, b) h);
  }

  abbrev pub written_db_of : HeaderDb e → ℕ → StoredHeader → Bool → List ℕ → HeaderDb e
  written_db_of d n sh best ser = record d {
    headers = bucket.put d.headers (btcd.block_hash sh.header) ser;
    tip = if best then some ser else d.tip;
    pending = remove_at n d.pending;
  }

  job_cases :
      (d d' : HeaderDb e) (n : ℕ) (o : Option (StoredHeader × Bool))
      → get_elem? d.pending n ≡ o
      → run_job e d n o ≡ ok d'
      → (d ≡ d')
        ⊎ ((sh : StoredHeader) × (best : Bool) × (ser : List ℕ) × (get_elem? d.pending n
              ≡ some (sh, best))
            × (serialize_header btcd sh ≡ ok ser)
            × (written_db_of d n sh best ser ≡ d'))
  unfolding run_job put_to_db
  job_cases d d' n none p h = inl (ok-injective h)
  job_cases d d' n (some (sh, best)) p h =
      let (ser, written, done) = >>=-eq-ok (serialize_header btcd sh) _ h in
      inr (sh, best, ser, p, written, ok-injective done)

  -- What a goroutine that got the lock has done: nothing, or it has written a header that waited.
  pub run_pending_cases :
      (d d' : HeaderDb e) (n : ℕ)
      → run_pending e d n ≡ ok d'
      → (d ≡ d')
        ⊎ ((sh : StoredHeader) × (best : Bool) × (ser : List ℕ) × (get_elem? d.pending n
              ≡ some (sh, best))
            × (serialize_header btcd sh ≡ ok ser)
            × (written_db_of d n sh best ser ≡ d'))
  unfolding run_pending
  run_pending_cases d d' n h = job_cases d d' n (get_elem? d.pending n) refl h

  -- When a goroutine writes one of the waiting headers to the files, whichever it is: the database
  -- stays indexed, and a property that all held headers have is one that all held headers have
  -- afterwards.
  pub run_pending_keeps :
      BtcdLaws btcd
      → (P : StoredHeader → Type 0) (d d' : HeaderDb e) (n : ℕ) → IsIndexed e d
      → AllHeld e P d
      → run_pending e d n ≡ ok d'
      → IsIndexed e d' × AllHeld e P d'
  run_pending_keeps laws P d d' n ix held h = elim (run_pending_cases d d' n h) [
    | inl same ↦ (subst (IsIndexed e) same ix, subst (AllHeld e P) same held)
    | inr (sh, best, ser, at, written, same) ↦
        let waits = get_elem?-Elem d.pending n (sh, best) at in
        let wire = ix.waiting_fits sh best waits in
        let height = ix.waiting_height sh best waits in
        let good = held.waiting sh best waits in
        let d0 : HeaderDb e = record d { pending = remove_at n d.pending } in
        (
          subst (IsIndexed e) same (
              written_db-IsIndexed laws d0 sh best ser written wire height
                (remove_pending-IsIndexed d n ix)),
          subst (AllHeld e P) same (
              written_db-AllHeld laws d0 sh best ser written wire height P good
                (remove_pending-AllHeld P d n held)),
        )
  ]
