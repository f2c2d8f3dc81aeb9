-- ===== src/Alliance/WaitingDb/Waiting.antt =====
-- What the waiting database keeps and gives back.
use spvwallet.Prelude.{
  ℕ, ◌+◌, ◌^◌, ◌≤◌, ◌<◌, ◌≡◌, ◌≢◌, ◌⊎◌, inl, inr, refl, sym, ap, ◌∙◌, true, Option, none, some,
  List, [], ◌∷◌, length, ltb, ltb→lt, leb, leb→le, ok, >>=-eq-ok, ok-injective, Elem, Bool-cases,
  arith,
}
use spvwallet.Chain.Types.{Error, bad_encoding}
use spvwallet.Chain.Codec.{from_option}
use spvwallet.Alliance.Types.{BtcProof, Outside, bytes_discrete}
use spvwallet.Alliance.WaitingDb.{
  WaitingDb, little_endian, from_little_endian, set_height, read_height, get_height, put, get,
  read_proof, collect, delete_keys, check_if_waiting,
}

module _ (o : Outside) where
  open o use {bucket, deserialize, serialize}

  -- A height below 2 ^ 32 that was set is the height that is read.
  pub get_height-set_height :
      (w : WaitingDb o) (h : ℕ) → h < 2 ^ 32 → get_height o (set_height o w h) ≡ ok h
  unfolding get_height set_height little_endian from_little_endian read_height
  get_height-set_height w h fits = ap ok (omega arith)

  -- After `Put` a proof waits and is read back, where its bytes are, and nothing else changes for
  -- other transactions.
  pub get-put :
      (w : WaitingDb o) (txid other : List ℕ) (item : BtcProof)
      → deserialize (serialize item) ≡ some item
      → other ≢ txid
      → (get o (put o w txid item) txid ≡ ok item)
        × (check_if_waiting o (put o w txid item) txid ≡ true)
        × (get o (put o w txid item) other ≡ get o w other)
  unfolding get put read_proof check_if_waiting from_option
  get-put w txid other item reads apart = (
    rw (bucket.get-put_self w.waiting txid (serialize item), reads) refl,
    rw (bucket.get-put_self w.waiting txid (serialize item)) refl,
    ap (read_proof o) (bucket.get-put_ne w.waiting txid other (serialize item) apart),
  )

  pub Elem-cases : (k : List ℕ) (ks : List (List ℕ)) → Elem k ks ⊎ ¬ Elem k ks
  Elem-cases k [] = inr (λ x. x)
  Elem-cases k (j ∷ ks) = elim (bytes_discrete k j) [
    | yes p ↦ inl (inl p)
    | no p ↦ elim (Elem-cases k ks) [
      | inl q ↦ inl (inr q)
      | inr q ↦ inr (elim [ inl r ↦ p r | inr r ↦ q r ])
    ]
  ]

  pub get-delete_keys_ne :
      (ks : List (List ℕ)) (s : bucket.Store) (k : List ℕ)
      → ¬ Elem k ks
      → bucket.get (delete_keys o s ks) k ≡ bucket.get s k
  unfolding delete_keys
  get-delete_keys_ne [] s k h = refl
  get-delete_keys_ne (j ∷ ks) s k h =
      get-delete_keys_ne ks (bucket.delete s j) k (λ x. h (inr x))
      ∙ bucket.get-delete_ne s j k (λ p. h (inl p))

  get-delete_keys-none :
      (ks : List (List ℕ)) (s : bucket.Store) (k : List ℕ)
      → bucket.get s k ≡ none
      → bucket.get (delete_keys o s ks) k ≡ none
  unfolding delete_keys
  get-delete_keys-none [] s k h = h
  get-delete_keys-none (j ∷ ks) s k h = elim (bytes_discrete k j) [
    | yes p ↦ get-delete_keys-none ks (bucket.delete s j) k (rw p (bucket.get-delete_self s j))
    | no p ↦ get-delete_keys-none ks (bucket.delete s j) k (bucket.get-delete_ne s j k p ∙ h)
  ]

  pub get-delete_keys-Elem :
      (ks : List (List ℕ)) (s : bucket.Store) (k : List ℕ)
      → Elem k ks
      → bucket.get (delete_keys o s ks) k ≡ none
  unfolding delete_keys
  get-delete_keys-Elem [] s k h = elim h [ ]
  get-delete_keys-Elem (j ∷ ks) s k (inl p) =
      get-delete_keys-none ks (bucket.delete s j) k (rw p (bucket.get-delete_self s j))
  get-delete_keys-Elem (j ∷ ks) s k (inr h) = get-delete_keys-Elem ks (bucket.delete s j) k h

  from_option-some :
      {A : Type 0} (x : Error) (r : Option A) (a : A) → from_option x r ≡ ok a → r ≡ some a
  unfolding from_option
  from_option-some x none a h = cc
  from_option-some x (some b) a h = ap some (ok-injective h)

  -- Each entry that was collected is an entry of the bucket, reads as its proof, and is low enough.
  abbrev pub Entry : ℕ → List (List ℕ × List ℕ) → List ℕ → BtcProof → Type 0
  Entry height items k p =
      (v : List ℕ) × Elem (k, v) items × (deserialize v ≡ some p) × (p.height ≤ height)

  pub collect_cases :
      (limit height total : ℕ) (j v : List ℕ) (rest : List (List ℕ × List ℕ))
      (got : List (List ℕ × BtcProof))
      → collect o limit height total ((j, v) ∷ rest) ≡ ok got
      → (p : BtcProof) × (deserialize v ≡ some p)
        × (((height < p.height) × (collect o limit height total rest ≡ ok got))
            ⊎ ((p.height ≤ height) × (limit < total + length j) × (got ≡ (j, p) ∷ []))
            ⊎ ((p.height ≤ height)
                × ((more : List (List ℕ × BtcProof)) × (collect o limit height
                        (total + length j)
                        rest
                      ≡ ok more)
                    × (got ≡ (j, p) ∷ more))))
  unfolding collect
  collect_cases limit height total j v rest got h =
      let (p, read, h1) = >>=-eq-ok (from_option bad_encoding (deserialize v)) _ h in
      (
        p,
        from_option-some bad_encoding (deserialize v) p read,
        elim (Bool-cases (leb p.height height)) [
          | inr high ↦ inl (ground arith, rw high at h1)
          | inl low ↦ elim (Bool-cases (ltb limit (total + length j))) [
            | inl full ↦
                inr
                  (inl (leb→le _ _ low, ltb→lt _ _ full, sym (ok-injective (rw (low, full) at h1))))
            | inr room ↦
                let (more, rec, e) =
                  >>=-eq-ok (collect o limit height (total + length j) rest) _
                    (rw (low, room) at h1) in
                inr (inr (leb→le _ _ low, (more, rec, sym (ok-injective e))))
          ]
        ],
      )
