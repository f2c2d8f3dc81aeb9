-- ===== src/Chain/HeaderDb/Deletes.antt =====
-- `DeleteAfter` and `Prune`: which headers stay in the files, and what the cache still answers.
use spvwallet.Prelude.{
  ℕ, ◌+◌, ◌-◌, ◌%◌, ◌^◌, ◌≡◌, refl, sym, ap, subst, ◌∙◌, ◌⊎◌, inl, inr, Bool, true, false, none,
  some, List, [], ◌∷◌, length, ok, err, >>=-eq-ok, ok-injective, some-injective, Bool-cases, Elem,
  ltb, leb, if◌then◌else◌, ℕ_discrete,
}
use spvwallet.Chain.Types.{StoredHeader, header_missing}
use spvwallet.Chain.Codec.{deserialize_header}
use spvwallet.Chain.Cache
use spvwallet.Chain.Cache.{Env}
use spvwallet.Chain.HeaderDb.{
  HeaderDb, cached_or, from_disk, get_header, select, delete_all, delete_after, prune, prune_height,
  read_tip,
}
use spvwallet.Chain.HeaderDb.Held.{AllHeld, IsIndexed}

module _ (e : Env) where
  open e use {btcd, bucket, ordered}

  Elem-cases : (k : ℕ) (ks : List ℕ) → Elem k ks ⊎ ¬ Elem k ks
  Elem-cases k [] = inr (λ x. x)
  Elem-cases k (j ∷ ks) = elim (ℕ_discrete k j) [
    | yes p ↦ inl (inl p)
    | no p ↦ elim (Elem-cases k ks) [
      | inl q ↦ inl (inr q)
      | inr q ↦ inr (elim [ inl r ↦ p r | inr r ↦ q r ])
    ]
  ]

  get-delete_all_ne :
      (ks : List ℕ) (s : bucket.Store) (k : ℕ)
      → ¬ Elem k ks
      → bucket.get (delete_all e s ks) k ≡ bucket.get s k
  unfolding delete_all
  get-delete_all_ne [] s k h = refl
  get-delete_all_ne (j ∷ ks) s k h =
      get-delete_all_ne ks (bucket.delete s j) k (λ x. h (inr x))
      ∙ bucket.get-delete_ne s j k (λ p. h (inl p))

  get-delete_all_gone :
      (ks : List ℕ) (s : bucket.Store) (k : ℕ)
      → bucket.get s k ≡ none
      → bucket.get (delete_all e s ks) k ≡ none
  unfolding delete_all
  get-delete_all_gone [] s k h = h
  get-delete_all_gone (j ∷ ks) s k h = elim (ℕ_discrete k j) [
    | yes p ↦ get-delete_all_gone ks (bucket.delete s j) k (rw p (bucket.get-delete_self s j))
    | no p ↦ get-delete_all_gone ks (bucket.delete s j) k (bucket.get-delete_ne s j k p ∙ h)
  ]

  get-delete_all-Elem :
      (ks : List ℕ) (s : bucket.Store) (k : ℕ) → Elem k ks → bucket.get (delete_all e s ks) k ≡ none
  unfolding delete_all
  get-delete_all-Elem [] s k h = elim h [ ]
  get-delete_all-Elem (j ∷ ks) s k (inl p) =
      get-delete_all_gone ks (bucket.delete s j) k (rw p (bucket.get-delete_self s j))
  get-delete_all-Elem (j ∷ ks) s k (inr h) = get-delete_all-Elem ks (bucket.delete s j) k h

  module _ (test : StoredHeader → Bool) where
    select_nil : (ks : List ℕ) → select e test [] ≡ ok ks → [] ≡ ks
    unfolding select
    select_nil ks h = ok-injective h

    select_step :
        (j : ℕ) (w : List ℕ) (rest : List (ℕ × List ℕ)) (ks : List ℕ)
        → select e test ((j, w) ∷ rest) ≡ ok ks
        → (x : StoredHeader) × (more : List ℕ) × (deserialize_header btcd w ≡ ok x)
          × (select e test rest ≡ ok more)
          × (((test x ≡ true) × (ks ≡ j ∷ more)) ⊎ ((test x ≡ false) × (ks ≡ more)))
    unfolding select
    select_step j w rest ks h =
        let (x, read, h1) = >>=-eq-ok (deserialize_header btcd w) _ h in
        let (more, tail, h2) = >>=-eq-ok (select e test rest) _ h1 in
        (
          x,
          more,
          read,
          tail,
          elim (Bool-cases (test x)) [
            | inl p ↦ inl (p, sym (ok-injective (rw p at h2)))
            | inr p ↦ inr (p, sym (ok-injective (rw p at h2)))
          ],
        )

    select_complete :
        (items : List (ℕ × List ℕ)) (ks : List ℕ) (k : ℕ) (v : List ℕ) (sh : StoredHeader)
        → select e test items ≡ ok ks
        → Elem (k, v) items
        → deserialize_header btcd v ≡ ok sh
        → test sh ≡ true
        → Elem k ks
    select_complete [] ks k v sh h m read t = elim m [ ]
    select_complete ((j, w) ∷ rest) ks k v sh h (inl m) read t =
        let (x, more, readx, tail, split) = select_step j w rest ks h in
        let same : x ≡ sh =
          ok-injective
            (sym readx ∙ ap (λ (q : ℕ × List ℕ). deserialize_header btcd q.1) (sym m) ∙ read) in
        elim split [
          | inl (_, p) ↦ rw p (inl (ap (λ (q : ℕ × List ℕ). q.0) m))
          | inr (f, _) ↦ cc (ap test same)
        ]
    select_complete ((j, w) ∷ rest) ks k v sh h (inr m) read t =
        let (x, more, readx, tail, split) = select_step j w rest ks h in
        let found = select_complete rest more k v sh tail m read t in
        elim split [ inl (_, p) ↦ rw p (inr found) | inr (_, p) ↦ rw p found ]

    select_sound :
        (items : List (ℕ × List ℕ)) (ks : List ℕ) (k : ℕ)
        → select e test items ≡ ok ks
        → Elem k ks
        → (v : List ℕ) × (sh : StoredHeader) × Elem (k, v) items
          × (deserialize_header btcd v ≡ ok sh)
          × (test sh ≡ true)
    select_sound [] ks k h m = absurd (subst (Elem k) (sym (select_nil ks h)) m)
    select_sound ((j, w) ∷ rest) ks k h m =
        let (x, more, readx, tail, split) = select_step j w rest ks h in
        let deeper = λ (q : Elem k more).
          let (v, sh, i, r, t) = select_sound rest more k tail q in
          let out : (v : List ℕ) × (sh : StoredHeader) × Elem (k, v) ((j, w) ∷ rest)
              × (deserialize_header btcd v ≡ ok sh)
              × (test sh ≡ true) =
            (v, sh, inr i, r, t) in
          out in
        elim split [
          | inl (t, p) ↦ elim (subst (Elem k) p m) [
            | inl q ↦ (w, x, inl (ap (λ (n : ℕ). (n, w)) q), readx, t)
            | inr q ↦ deeper q
          ]
          | inr (_, p) ↦ deeper (subst (Elem k) p m)
        ]

    -- What the keys that pass the test leave behind when they are deleted.
    select-delete_all :
        (s : bucket.Store) (ks : List ℕ) (k : ℕ) (b : List ℕ) (sh : StoredHeader)
        → select e test (bucket.items s) ≡ ok ks
        → bucket.get s k ≡ some b
        → deserialize_header btcd b ≡ ok sh
        → bucket.get (delete_all e s ks) k ≡ (if test sh then none else some b)
    select-delete_all s ks k b sh h stored read = elim (Bool-cases (test sh)) [
      | inl t ↦ rw t (
          get-delete_all-Elem ks s k (
            select_complete (bucket.items s) ks k b sh h (bucket.items_complete s k b stored) read
              t))
      | inr t ↦ rw t (
          get-delete_all_ne ks s k (λ m.
            let (v, x, i, r, pass) = select_sound (bucket.items s) ks k h m in
            let same : v ≡ b = some-injective (sym (bucket.items_sound s k v i) ∙ stored) in
            let also : x ≡ sh = ok-injective (sym r ∙ ap (deserialize_header btcd) same ∙ read) in
            cc (ap test also))
          ∙ stored)
    ]

  get-delete_all-some :
      (ks : List ℕ) (s : bucket.Store) (k : ℕ) (b : List ℕ)
      → bucket.get (delete_all e s ks) k ≡ some b
      → bucket.get s k ≡ some b
  get-delete_all-some ks s k b h = elim (Elem-cases k ks) [
    | inl p ↦ cc (get-delete_all-Elem ks s k p)
    | inr p ↦ sym (get-delete_all_ne ks s k p) ∙ h
  ]

  delete_after_step :
      (d d' : HeaderDb e) (height : ℕ)
      → delete_after e d height ≡ ok d'
      → (ks : List ℕ) × (select e (λ x. ltb height x.height) (bucket.items d.headers) ≡ ok ks)
        × (record d { headers = delete_all e d.headers ks } ≡ d')
  unfolding delete_after
  delete_after_step d d' height h =
      let (ks, p, q) = >>=-eq-ok (select e _ (bucket.items d.headers)) _ h in
      (ks, p, ok-injective q)

  -- A successful `DeleteAfter` removes from the files exactly the headers above the height.
  pub get-delete_after :
      (d d' : HeaderDb e) (height k : ℕ) (b : List ℕ) (sh : StoredHeader)
      → delete_after e d height ≡ ok d'
      → bucket.get d.headers k ≡ some b
      → deserialize_header btcd b ≡ ok sh
      → bucket.get d'.headers k ≡ (if ltb height sh.height then none else some b)
  get-delete_after d d' height k b sh h stored read =
      let (ks, p, q) = delete_after_step d d' height h in
      let left = select-delete_all (λ x. ltb height x.height) d.headers ks k b sh p stored read in
      ap (λ (x : HeaderDb e). bucket.get x.headers k) (sym q) ∙ left

  -- A header of the file, after a successful `DeleteAfter`: it is removed from the file exactly when it
  -- is above the height, and a lookup still has the answer of the cache, or, on an error of the cache,
  -- the header where it stays and an error where it is removed.
  pub get_header-delete_after :
      (d d' : HeaderDb e) (height k : ℕ) (b : List ℕ) (sh : StoredHeader)
      → delete_after e d height ≡ ok d'
      → bucket.get d.headers k ≡ some b
      → deserialize_header btcd b ≡ ok sh
      → (bucket.get d'.headers k ≡ (if ltb height sh.height then none else some b))
        × (get_header e d' k
            ≡ cached_or e
                (Cache.get e d.cache k)
                (if ltb height sh.height then err header_missing else ok sh))
  unfolding get_header from_disk
  get_header-delete_after d d' height k b sh done stored read =
      let left = get-delete_after d d' height k b sh done stored read in
      let (ks, p, q) = delete_after_step d d' height done in
      let same : d'.cache ≡ d.cache = ap (λ (x : HeaderDb e). x.cache) (sym q) in
      (
        left,
        rw (same, left)
            (elim (Bool-cases (ltb height sh.height)) [
              | inl above ↦ rw above refl
              | inr below ↦ rw (below, read) refl
            ]),
      )

  -- `DeleteAfter` adds nothing to what the database holds, and keeps its index.
  pub delete_after_keeps :
      (P : StoredHeader → Type 0) (d d' : HeaderDb e) (height : ℕ)
      → IsIndexed e d
      → AllHeld e P d
      → delete_after e d height ≡ ok d'
      → IsIndexed e d' × AllHeld e P d'
  delete_after_keeps P d d' height ix held h =
      let (ks, p, q) = delete_after_step d d' height h in
      let ix' : IsIndexed e (record d { headers = delete_all e d.headers ks }) = record {
        cache_hash = ix.cache_hash;
        cache_header = ix.cache_header;
        disk_hash =
            λ k b x stored. ix.disk_hash k b x (get-delete_all-some ks d.headers k b stored);
        waiting_fits = ix.waiting_fits;
        waiting_height = ix.waiting_height;
      } in
      let held' : AllHeld e P (record d { headers = delete_all e d.headers ks }) = record {
        cached = held.cached;
        on_disk = λ k b x stored. held.on_disk k b x (get-delete_all-some ks d.headers k b stored);
        waiting = held.waiting;
        best = held.best;
        tip = held.tip;
      } in
      (subst (IsIndexed e) q ix', subst (AllHeld e P) q held')

  -- On a bucket of more than 2,000 headers a successful `Prune` removes exactly those whose height
  -- is at most the height of the stored tip less 2,000, wrapped around as a uint32; on any other
  -- bucket it changes nothing.
  pub get-prune :
      (d d' : HeaderDb e) (k : ℕ) (b tip_bytes : List ℕ) (sh best : StoredHeader)
      → prune e d ≡ ok d'
      → d.tip ≡ some tip_bytes
      → deserialize_header btcd tip_bytes ≡ ok best
      → bucket.get d.headers k ≡ some b
      → deserialize_header btcd b ≡ ok sh
      → bucket.get d'.headers k ≡ (
          if ltb 2000 (length (bucket.items d.headers))
          then if leb sh.height ((best.height + 2 ^ 32 - 2000) % 2 ^ 32) then none else some b
          else some b)
  unfolding prune read_tip prune_height
  get-prune d d' k b tip_bytes sh best h tip read_best stored read =
      elim (Bool-cases (ltb 2000 (length (bucket.items d.headers)))) [
        | inl many ↦
            let (ks, p, q) =
              >>=-eq-ok (select e _ (bucket.items d.headers)) _ (rw (tip, read_best, many) at h) in
            rw many (
              ap (λ (x : HeaderDb e). bucket.get x.headers k) (sym (ok-injective q))
              ∙ select-delete_all _ d.headers ks k b sh p stored read)
        | inr few ↦ rw few (
            ap (λ (x : HeaderDb e). bucket.get x.headers k)
              (sym (ok-injective (rw (tip, read_best, few) at h)))
            ∙ stored)
      ]
