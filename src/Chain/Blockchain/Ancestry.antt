-- ===== src/Chain/Blockchain/Ancestry.antt =====
-- GetCommonAncestor: what it finds, and that it ends.
use spvwallet.Prelude.{
  ℕ, zero, suc, ◌+◌, ◌-◌, ◌<◌, ◌≡◌, ◌≢◌, inl, inr, refl, sym, ap, subst, ◌∙◌, ◌==◌, ==_iff, ok,
  stuck, >>=-eq-ok, >>=-ne-stuck, ok-ne-stuck, ok-injective, Bool-cases, arith,
}
use spvwallet.Chain.Types.{BlockHeader, StoredHeader, Btcd}
use spvwallet.Chain.Headers.{Headers, HeadersLaws}
use spvwallet.Chain.Blockchain.{back, meet, get_common_ancestor}

module _ (b : Btcd) (H : Headers) where
  -- `x` and `y` are reached by `n` steps to the parent on both sides, their hashes agree, and those
  -- of all earlier pairs differ.
  abbrev pub FirstAt : H.Db → ℕ → StoredHeader → StoredHeader → StoredHeader → StoredHeader → Type 0
  FirstAt db zero maj min x y =
      (maj ≡ x) × (min ≡ y) × (b.block_hash maj.header ≡ b.block_hash min.header)
  FirstAt db (suc n) maj min x y =
      (b.block_hash maj.header ≢ b.block_hash min.header)
      × ((maj' : StoredHeader) × (min' : StoredHeader) × (H.get_previous_header db maj.header
            ≡ ok maj')
          × (H.get_previous_header db min.header ≡ ok min')
          × FirstAt db n maj' min' x y)

  meet_finds :
      (f : ℕ) (db : H.Db) (maj min x : StoredHeader)
      → meet b H f db maj min ≡ ok x
      → (n : ℕ) × (y : StoredHeader) × FirstAt db n maj min x y
  unfolding meet
  meet_finds zero db maj min x h = cc
  meet_finds (suc f) db maj min x h =
      elim (Bool-cases (b.block_hash maj.header == b.block_hash min.header)) [
        | inl same ↦ (0, min, (ok-injective (rw (same, meet) at h), refl, (==_iff _ _).0 same))
        | inr differ ↦
            let (maj', p, h1) =
              >>=-eq-ok (H.get_previous_header db maj.header) _ (rw (differ, meet) at h) in
            let (min', q, h2) = >>=-eq-ok (H.get_previous_header db min.header) _ h1 in
            let (n, y, first) = meet_finds f db maj' min' x h2 in
            (
              suc n,
              y,
              (
                (λ e.
                    cc (differ, (==_iff (b.block_hash maj.header) (b.block_hash min.header)).1 e)),
                (maj', min', p, q, first),
              ),
            )
      ]

  -- What GetCommonAncestor returns: from the two headers it goes back to the lower of their
  -- heights on the higher side, and then on both sides to the first pair with one hash.
  pub get_common_ancestor_first :
      (db : H.Db) (best prev_best x : StoredHeader)
      → get_common_ancestor b H db best prev_best ≡ ok x
      → (maj : StoredHeader) × (min : StoredHeader) × (n : ℕ) × (y : StoredHeader) × (back b H db
            (best.height - prev_best.height)
            best
          ≡ ok maj)
        × (back b H db (prev_best.height - best.height) prev_best ≡ ok min)
        × FirstAt db n maj min x y
  unfolding get_common_ancestor
  get_common_ancestor_first db best prev_best x h =
      let (maj, p, h1) = >>=-eq-ok (back b H db (best.height - prev_best.height) best) _ h in
      let (min, q, h2) = >>=-eq-ok (back b H db (prev_best.height - best.height) prev_best) _ h1 in
      let (n, y, first) = meet_finds (suc maj.height) db maj min x h2 in
      (maj, min, n, y, p, q, first)

module _ (b : Btcd) (H : Headers) (laws : HeadersLaws b H) where
  pub previous-ne-stuck : (db : H.Db) (h : BlockHeader) → H.get_previous_header db h ≢ stuck
  previous-ne-stuck db h =
      rw (laws.get_previous_header_lem db h) (laws.get_header-ne-stuck db h.prev_block)

  pub back-ne-stuck : (db : H.Db) (n : ℕ) (x : StoredHeader) → back b H db n x ≢ stuck
  unfolding back
  back-ne-stuck db zero x = ok-ne-stuck x
  back-ne-stuck db (suc n) x =
      >>=-ne-stuck (H.get_previous_header db x.header) _ (previous-ne-stuck db x.header)
        (λ y _. back-ne-stuck db n y)

module _ (b : Btcd) (H : Headers) (laws : HeadersLaws b H) (db : H.Db)
    (Known : StoredHeader → Type 0)
    (falls : (x y : StoredHeader)
      → Known x
      → H.get_previous_header db x.header ≡ ok y
      → Known y × (y.height + 1 ≡ x.height)) where
  back_falls :
      (n : ℕ) (x y : StoredHeader)
      → Known x
      → back b H db n x ≡ ok y
      → Known y × (y.height + n ≡ x.height)
  unfolding back
  back_falls zero x y k h =
      let e = ok-injective h in
      (subst Known e k, ap (λ (s : StoredHeader). s.height + 0) (sym e) ∙ omega arith)
  back_falls (suc n) x y k h =
      let (prev, p, q) = >>=-eq-ok (H.get_previous_header db x.header) _ h in
      let (k', e) = falls x prev k p in
      let (known, deep) = back_falls n prev y k' q in (known, omega arith)

  meet-ne-stuck :
      (f : ℕ) (maj min : StoredHeader) → Known maj → maj.height < f → meet b H f db maj min ≢ stuck
  unfolding meet
  meet-ne-stuck zero maj min k h = absurd (omega arith)
  meet-ne-stuck (suc f) maj min k h =
      elim (Bool-cases (b.block_hash maj.header == b.block_hash min.header)) [
        | inl same ↦ rw (same, meet) (ok-ne-stuck maj)
        | inr differ ↦
            rw (differ, meet)
              (>>=-ne-stuck (H.get_previous_header db maj.header) _
                (previous-ne-stuck b H laws db maj.header)
                (λ maj' p.
                  >>=-ne-stuck (H.get_previous_header db min.header) _
                    (previous-ne-stuck b H laws db min.header)
                    (λ min' q.
                      let (k', e) = falls maj maj' k p in
                      meet-ne-stuck f maj' min' k' (omega arith))))
      ]

  -- Over a lawful database: with a set of headers in which the parent of each, where it is found, is
  -- in the set too and one lower, GetCommonAncestor ends for a first header from the set and any
  -- second.
  pub get_common_ancestor-ne-stuck :
      (best prev_best : StoredHeader)
      → Known best
      → get_common_ancestor b H db best prev_best ≢ stuck
  unfolding get_common_ancestor
  get_common_ancestor-ne-stuck best prev_best k =
      >>=-ne-stuck (back b H db (best.height - prev_best.height) best) _
        (back-ne-stuck b H laws db (best.height - prev_best.height) best)
        (λ maj p.
          >>=-ne-stuck (back b H db (prev_best.height - best.height) prev_best) _
            (back-ne-stuck b H laws db (prev_best.height - best.height) prev_best)
            (λ min q.
              meet-ne-stuck (suc maj.height) maj min
                (back_falls (best.height - prev_best.height) best maj k p).0 (omega arith)))
