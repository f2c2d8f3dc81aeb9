-- ===== src/Alliance/WaitingDb/Taking.antt =====
-- GetUnderHeightAndDelete: what it takes, and that no proof is lost.
use spvwallet.Prelude.{
  ℕ, ◌+◌, ◌≤◌, ◌<◌, ◌≡◌, ◌⊎◌, inl, inr, sym, ap, subst, ◌∙◌, none, some, List, [], ◌∷◌, map, length,
  ok, >>=-eq-ok, ok-injective, some-injective, Elem, arith,
}
use spvwallet.Alliance.Types.{BtcProof, Outside}
use spvwallet.Alliance.WaitingDb.{WaitingDb, collect, delete_keys, get_under_height_and_delete}
use spvwallet.Alliance.WaitingDb.Waiting.{
  Elem-cases, get-delete_keys_ne, get-delete_keys-Elem, Entry, collect_cases,
}

module _ (o : Outside) where
  open o use {bucket, deserialize, serialize}

  Entry-later :
      (height : ℕ) (j : List ℕ × List ℕ) (items : List (List ℕ × List ℕ)) (k : List ℕ)
      (p : BtcProof)
      → Entry o height items k p
      → Entry o height (j ∷ items) k p
  Entry-later height j items k p (v, e, r, l) = (v, inr e, r, l)

  collect_none :
      (limit height total : ℕ) (got : List (List ℕ × BtcProof))
      → collect o limit height total [] ≡ ok got
      → got ≡ []
  unfolding collect
  collect_none limit height total got h = sym (ok-injective h)

  pub collect-Entry :
      (limit height total : ℕ) (items : List (List ℕ × List ℕ)) (got : List (List ℕ × BtcProof))
      (k : List ℕ) (p : BtcProof)
      → collect o limit height total items ≡ ok got
      → Elem (k, p) got
      → Entry o height items k p
  collect-Entry limit height total [] got k p h e =
      absurd (subst (Elem (k, p)) (collect_none limit height total got h) e)
  collect-Entry limit height total ((j, v) ∷ rest) got k p h e =
      let (q, read, cases) = collect_cases o limit height total j v rest got h in
      elim cases [
        | inl (high, more) ↦
            Entry-later height (j, v) rest k p
              (collect-Entry limit height total rest got k p more e)
        | inr (inl (low, full, same)) ↦ elim (subst (Elem (k, p)) same e) [
          | inl here ↦ (
            v,
            inl (ap (λ (z : List ℕ × BtcProof). (z.0, v)) here),
            read ∙ ap (λ (z : List ℕ × BtcProof). some z.1) (sym here),
            subst (λ (z : List ℕ × BtcProof). z.1.height ≤ height) (sym here) low,
          )
          | inr later ↦ absurd later
        ]
        | inr (inr (low, (more, rec, same))) ↦ elim (subst (Elem (k, p)) same e) [
          | inl here ↦ (
            v,
            inl (ap (λ (z : List ℕ × BtcProof). (z.0, v)) here),
            read ∙ ap (λ (z : List ℕ × BtcProof). some z.1) (sym here),
            subst (λ (z : List ℕ × BtcProof). z.1.height ≤ height) (sym here) low,
          )
          | inr later ↦
              Entry-later height (j, v) rest k p
                (collect-Entry limit height (total + length j) rest more k p rec later)
        ]
      ]

  abbrev pub key_bytes : List (List ℕ × List ℕ) → ℕ
  key_bytes [] = 0
  key_bytes ((k, v) ∷ rest) = length k + key_bytes rest

  collect_all :
      (limit height total : ℕ) (items : List (List ℕ × List ℕ)) (got : List (List ℕ × BtcProof))
      (k v : List ℕ) (p : BtcProof)
      → collect o limit height total items ≡ ok got
      → total + key_bytes items ≤ limit
      → Elem (k, v) items
      → deserialize v ≡ some p
      → p.height ≤ height
      → Elem (k, p) got
  collect_all limit height total [] got k v p h room e r low = absurd e
  collect_all limit height total ((j, w) ∷ rest) got k v p h room e r low =
      let (q, read, cases) = collect_cases o limit height total j w rest got h in
      elim cases [
        | inl (high, more) ↦ elim e [
          | inl here ↦
              let same : p ≡ q =
                some-injective
                  (sym r ∙ ap (λ (z : List ℕ × List ℕ). deserialize z.1) here ∙ read) in
              absurd (
                let above : height < p.height =
                  subst (λ (z : BtcProof). height < z.height) (sym same) high in
                omega arith)
          | inr later ↦ collect_all limit height total rest got k v p more (omega arith) later r low
        ]
        | inr (inl (_, full, _)) ↦ absurd (omega arith)
        | inr (inr (_, (more, rec, same))) ↦ subst (Elem (k, p)) (sym same) (elim e [
          | inl here ↦
              let equal : p ≡ q =
                some-injective
                  (sym r ∙ ap (λ (z : List ℕ × List ℕ). deserialize z.1) here ∙ read) in
              inl (cc (equal, ap (λ (z : List ℕ × List ℕ). z.0) here))
          | inr later ↦ inr (
              collect_all limit height (total + length j) rest more k v p rec (omega arith) later r
                low)
        ])
      ]

  Elem-keys :
      (got : List (List ℕ × BtcProof)) (k : List ℕ)
      → Elem k (map (λ e. e.0) got)
      → (p : BtcProof) × Elem (k, p) got
  Elem-keys [] k h = elim h [ ]
  Elem-keys ((j, q) ∷ got) k (inl e) = (q, inl (ap (λ z. (z, q)) e))
  Elem-keys ((j, q) ∷ got) k (inr h) = let (p, e) = Elem-keys got k h in (p, inr e)

  -- No waiting proof that can be read is lost: where the call succeeds, each is among those
  -- returned, at or below the height, and waits no longer, or it waits as before.
  pub get_under_height_and_delete_splits :
      (w w' : WaitingDb o) (height : ℕ) (got : List (List ℕ × BtcProof)) (k v : List ℕ)
      (p : BtcProof)
      → get_under_height_and_delete o w height ≡ ok (w', got)
      → bucket.get w.waiting k ≡ some v
      → deserialize v ≡ some p
      → (Elem (k, p) got × (p.height ≤ height) × (bucket.get w'.waiting k ≡ none))
        ⊎ (bucket.get w'.waiting k ≡ some v)
  unfolding get_under_height_and_delete
  get_under_height_and_delete_splits w w' height got k v p h stored read =
      let (took, taken, e) =
        >>=-eq-ok (collect o w.max_read_size height 0 (bucket.items w.waiting)) _ h in
      let pair = ok-injective e in
      let rest : delete_keys o w.waiting (map (λ x. x.0) took) ≡ w'.waiting =
        ap (λ (x : WaitingDb o × List (List ℕ × BtcProof)). x.0.waiting) pair in
      elim (Elem-cases o k (map (λ x. x.0) took)) [
        | inl inside ↦
            let (q, elem) = Elem-keys took k inside in
            let (u, item, reads, low) =
              collect-Entry w.max_read_size height 0 (bucket.items w.waiting) took k q taken elem in
            let same : q ≡ p = some-injective (
              sym reads
              ∙ ap (λ z. z)
                  (ap deserialize
                      (some-injective (sym (bucket.items_sound w.waiting k u item) ∙ stored))
                    ∙ read)) in
            inl (
              subst (λ l. Elem (k, p) l)
                  (ap (λ (x : WaitingDb o × List (List ℕ × BtcProof)). x.1) pair)
                  (subst (λ z. Elem (k, z) took) same elem),
              subst (λ (z : BtcProof). z.height ≤ height) same low,
              ap (λ s. bucket.get s k) (sym rest)
                  ∙ get-delete_keys-Elem o (map (λ x. x.0) took) w.waiting k inside,
            )
        | inr outside ↦ inr (
            ap (λ s. bucket.get s k) (sym rest)
            ∙ get-delete_keys_ne o (map (λ x. x.0) took) w.waiting k outside
            ∙ stored)
      ]

  -- If the keys that wait add up to no more than the size that may be read, a successful call
  -- returns every waiting proof that can be read and is at or below the height.
  pub get_under_height_and_delete_complete :
      (w w' : WaitingDb o) (height : ℕ) (got : List (List ℕ × BtcProof)) (k v : List ℕ)
      (p : BtcProof)
      → get_under_height_and_delete o w height ≡ ok (w', got)
      → key_bytes (bucket.items w.waiting) ≤ w.max_read_size
      → bucket.get w.waiting k ≡ some v
      → deserialize v ≡ some p
      → p.height ≤ height
      → Elem (k, p) got
  unfolding get_under_height_and_delete
  get_under_height_and_delete_complete w w' height got k v p h room stored read low =
      let (took, taken, e) =
        >>=-eq-ok (collect o w.max_read_size height 0 (bucket.items w.waiting)) _ h in
      subst (λ l. Elem (k, p) l)
        (ap (λ (x : WaitingDb o × List (List ℕ × BtcProof)). x.1) (ok-injective e))
        (collect_all w.max_read_size height 0 (bucket.items w.waiting) took k v p taken
          (omega arith) (bucket.items_complete w.waiting k v stored) read low)
