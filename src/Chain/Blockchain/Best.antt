-- ===== src/Chain/Blockchain/Best.antt =====
-- The best header, and what the chain holds, over a commit.
use spvwallet.Prelude.{
  ◌≤◌, ◌<◌, ◌≡◌, ◌≢◌, ◌⊎◌, inl, inr, refl, sym, ap, subst, ◌∙◌, ◌==◌, ==_iff, true, false, ltb,
  ltb→lt, ok, err, ok-injective, Bool-cases, arith,
}
use spvwallet.Chain.Types.{BlockHeader, StoredHeader, Error, orphan_header, Btcd, IsWire}
use spvwallet.Chain.Headers.{Headers, HeadersLaws}
use spvwallet.Chain.Blockchain.{Blockchain, Commit, or_orphan, parent_of, commit_header}
use spvwallet.Chain.Blockchain.Extending.{stored_over, commit_header_cases}

module _ (b : Btcd) (H : Headers) (laws : HeadersLaws b H) where
  -- Over a lawful database with a best header, after a commit without an error there is a best
  -- header with at least as much work as before. If the commit says that there is a new tip, it
  -- holds the committed header at the height that the commit returns, with strictly more work than
  -- before; if not, it is the old best header.
  pub commit_header-best :
      (bc bc' : Blockchain b H) (header : BlockHeader) (c : Commit) (best : StoredHeader)
      → H.get_best_header bc.db ≡ ok best
      → commit_header b H bc header ≡ ok (bc', c)
      → (best' : StoredHeader) × (H.get_best_header bc'.db ≡ ok best')
        × (best.total_work ≤ best'.total_work)
        × (((c.new_tip ≡ true)
              × (best'.header ≡ header)
              × (best'.height ≡ c.height)
              × (best.total_work < best'.total_work))
            ⊎ ((c.new_tip ≡ false) × (best' ≡ best)))
  commit_header-best bc bc' header c best tip h = elim (commit_header_cases b H bc bc' header c h) [
    | inl (same, none_new) ↦ (
      best,
      ap (λ (x : Blockchain b H). H.get_best_header x.db) same ∙ tip,
      omega arith,
      inr (ap (λ (x : Commit). x.new_tip) none_new, refl),
    )
    | inr (old, parent, p, q, r, d, s) ↦
        let eq : old ≡ best = ok-injective (sym p ∙ tip) in
        let sh = stored_over b H header parent in
        elim (Bool-cases (ltb old.total_work sh.total_work)) [
          | inl more ↦
              let lt : best.total_work < sh.total_work =
                subst (λ (x : StoredHeader). x.total_work < sh.total_work) eq (ltb→lt _ _ more) in
              (
                sh,
                laws.get_best_header-put_true bc.db bc'.db sh
                    (ap (H.put bc.db sh) (sym more) ∙ s.done),
                omega arith,
                inl (s.tip ∙ more, refl, sym s.at_height, lt),
              )
          | inr less ↦ (
            best,
            laws.get_best_header-put_false bc.db bc'.db sh (ap (H.put bc.db sh) (sym less) ∙ s.done)
                ∙ tip,
            omega arith,
            inr (s.tip ∙ less, refl),
          )
        ]
  ]

  -- Over a lawful and indexed database: if no held header has more work than the best header, that
  -- is so after a commit of a header that fits the wire format.
  pub commit_header-most_work :
      (bc bc' : Blockchain b H) (header : BlockHeader) (c : Commit) (best : StoredHeader)
      → IsWire header
      → H.get_best_header bc.db ≡ ok best
      → laws.IsIndexed bc.db
      → laws.AllHeld (λ x. x.total_work ≤ best.total_work) bc.db
      → commit_header b H bc header ≡ ok (bc', c)
      → (best' : StoredHeader) × (H.get_best_header bc'.db ≡ ok best')
        × laws.AllHeld (λ x. x.total_work ≤ best'.total_work) bc'.db
  commit_header-most_work bc bc' header c best wire tip ix held h =
      elim (commit_header_cases b H bc bc' header c h) [
        | inl (same, none_new) ↦ (
          best,
          ap (λ (x : Blockchain b H). H.get_best_header x.db) same ∙ tip,
          subst (λ (x : Blockchain b H). laws.AllHeld (λ y. y.total_work ≤ best.total_work) x.db)
              (sym same) held,
        )
        | inr (old, parent, p, q, r, d, s) ↦
            let eq : old ≡ best = ok-injective (sym p ∙ tip) in
            let sh = stored_over b H header parent in
            elim (Bool-cases (ltb old.total_work sh.total_work)) [
              | inl more ↦
                  let lt : best.total_work < sh.total_work =
                    subst (λ (x : StoredHeader). x.total_work < sh.total_work) eq
                      (ltb→lt _ _ more) in
                  (
                    sh,
                    laws.get_best_header-put_true bc.db bc'.db sh
                        (ap (H.put bc.db sh) (sym more) ∙ s.done),
                    (laws.put_keeps (λ x. x.total_work ≤ sh.total_work) bc.db bc'.db sh _ s.done
                        wire (omega arith) (omega arith) ix
                        (laws.weaken (λ x. x.total_work ≤ best.total_work)
                          (λ x. x.total_work ≤ sh.total_work) bc.db (λ x k. omega arith) held)).1,
                  )
              | inr less ↦ (
                best,
                laws.get_best_header-put_false bc.db bc'.db sh
                      (ap (H.put bc.db sh) (sym less) ∙ s.done)
                    ∙ tip,
                (laws.put_keeps (λ x. x.total_work ≤ best.total_work) bc.db bc'.db sh _ s.done wire
                    (omega arith)
                    (subst (λ (x : StoredHeader). sh.total_work ≤ x.total_work) eq (ground arith))
                    ix held).1,
              )
            ]
      ]

  -- With a best header: a header whose parent is not the best header, and whose lookup by hash
  -- fails, is an orphan, and the commit fails with that error.
  pub commit_header-orphan :
      (bc : Blockchain b H) (header : BlockHeader) (best : StoredHeader) (x : Error)
      → H.get_best_header bc.db ≡ ok best
      → header.prev_block ≢ b.block_hash best.header
      → H.get_header bc.db header.prev_block ≡ err x
      → commit_header b H bc header ≡ err orphan_header
  unfolding commit_header parent_of or_orphan
  commit_header-orphan bc header best x tip other missing =
      elim (Bool-cases (header.prev_block == b.block_hash best.header)) [
        | inl same ↦ absurd (other ((==_iff _ _).0 same))
        | inr apart ↦ rw tip (rw apart (rw (laws.get_previous_header_lem bc.db header ∙ missing)))
      ]
