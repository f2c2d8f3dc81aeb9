-- ===== src/Chain/Blockchain/Rollback.antt =====
-- What Rollback leaves behind.
use spvwallet.Prelude.{
  ℕ, zero, suc, ◌^◌, ◌≤◌, ◌<◌, ◌≡◌, ◌⊎◌, inl, inr, refl, sym, ap, subst, ◌∙◌, ◌==◌, ==_iff, Bool,
  true, false, ◌||◌, ltb, ltb→lt, ok, >>=-eq-ok, ok-injective, Bool-cases, arith,
}
use spvwallet.Chain.Types.{BlockHeader, StoredHeader, Btcd, IsWire}
use spvwallet.Chain.Headers.{Headers, HeadersLaws}
use spvwallet.Chain.Checkpoints.{get_checkpoint}
use spvwallet.Chain.Blockchain.{Blockchain, rollback_loop, rollback_from}
use spvwallet.Chain.Blockchain.Rooted.{Rooted, Rooted-fits, rollback_loop-AllHeld}

module _ (b : Btcd) (H : Headers) where
  -- What a rollback that moved the tip has done.
  pub record Cuts (rounds : ℕ) (bc bc' : Blockchain b H) (genesis : BlockHeader) (now t : ℕ)
      : Type 0 where
    pub best : StoredHeader
    pub height : ℕ
    pub target : StoredHeader
    pub cut_db : H.Db
    pub tip : H.get_best_header bc.db ≡ ok best
    pub late : t ≤ best.header.timestamp
    pub walked :
        rollback_loop b H bc.db
          (b.block_hash (get_checkpoint genesis now bc.params).header)
          (get_checkpoint genesis now bc.params).height
          t
          rounds
          best
        ≡ ok (height, target)
    pub cut : H.delete_after bc.db height ≡ ok cut_db
    pub stored : H.put cut_db target true ≡ ok bc'.db
    pub same_params : bc'.params ≡ bc.params

  pub rollback_from_cases :
      (rounds : ℕ) (bc bc' : Blockchain b H) (genesis : BlockHeader) (now t : ℕ)
      → rollback_from b H rounds bc genesis now t ≡ ok bc'
      → (bc ≡ bc') ⊎ Cuts rounds bc bc' genesis now t
  unfolding rollback_from
  rollback_from_cases rounds bc bc' genesis now t h =
      let cp = get_checkpoint genesis now bc.params in
      let (best, tip, h1) = >>=-eq-ok (H.get_best_header bc.db) _ h in
      elim (Bool-cases
        (ltb best.header.timestamp t || b.block_hash best.header == b.block_hash cp.header)) [
          | inl stay ↦ inl (ok-injective (rw stay at h1))
          | inr go ↦
              let ((height, target), walked, h2) =
                >>=-eq-ok (rollback_loop b H bc.db (b.block_hash cp.header) cp.height t rounds best)
                  _ (rw go at h1) in
              let (cut_db, cut, h3) = >>=-eq-ok (H.delete_after bc.db height) _ h2 in
              let (db, stored, h4) = >>=-eq-ok (H.put cut_db target true) _ h3 in
              let eq = ok-injective h4 in
              inr (record {
                best = best;
                height = height;
                target = target;
                cut_db = cut_db;
                tip = tip;
                late =
                    not_early (ltb best.header.timestamp t)
                      (b.block_hash best.header == b.block_hash cp.header) go refl;
                walked = walked;
                cut = cut;
                stored = stored ∙ ap (λ (x : Blockchain b H). ok x.db) eq;
                same_params = ap (λ (x : Blockchain b H). x.params) (sym eq);
              })
        ]
    where
      not_early : (u v : Bool) → (u || v) ≡ false → {x : ℕ} → ltb x t ≡ u → t ≤ x
      not_early u v e p = ground arith

  rollback_loop_stops :
      (db : H.Db) (hash height t n : ℕ) (sh : StoredHeader) (cut : ℕ) (target : StoredHeader)
      → rollback_loop b H db hash height t n sh ≡ ok (cut, target)
      → (cut ≡ 0)
        ⊎ ((cut ≡ height) × (b.block_hash target.header ≡ hash))
        ⊎ ((cut ≡ target.height) × (target.header.timestamp < t))
  unfolding rollback_loop
  rollback_loop_stops db hash height t zero sh cut target h =
      inl (ap (λ (x : ℕ × StoredHeader). x.0) (sym (ok-injective h)))
  rollback_loop_stops db hash height t (suc n) sh cut target h =
      let (prev, p, q) = >>=-eq-ok (H.get_previous_header db sh.header) _ h in
      elim (Bool-cases (b.block_hash prev.header == hash)) [
        | inl hit ↦
            let eq = ok-injective (rw hit at q) in
            inr (
              inl (
                ap (λ (x : ℕ × StoredHeader). x.0) (sym eq),
                subst (λ (x : ℕ × StoredHeader). b.block_hash x.1.header ≡ hash) eq
                    ((==_iff _ _).0 hit),
              ))
        | inr past ↦ elim (Bool-cases (ltb prev.header.timestamp t)) [
          | inl early ↦
              let eq = ok-injective (rw (past, early) at q) in
              inr (
                inr (
                  subst (λ (x : ℕ × StoredHeader). x.0 ≡ x.1.height) eq refl,
                  subst (λ (x : ℕ × StoredHeader). x.1.header.timestamp < t) eq (ltb→lt _ _ early),
                ))
          | inr late ↦ rollback_loop_stops db hash height t n prev cut target (rw (past, late) at q)
        ]
      ]

module _ (b : Btcd) (H : Headers) (laws : HeadersLaws b H) (root : StoredHeader) where
  -- Over a lawful database, with a root that fits the wire format: if the database is indexed and
  -- every held header is rooted, that is so after a rollback.
  pub rollback-Rooted :
      (rounds : ℕ) (bc bc' : Blockchain b H) (genesis : BlockHeader) (now t : ℕ)
      → laws.IsIndexed bc.db
      → laws.AllHeld (Rooted b bc.params root) bc.db
      → IsWire root.header
      → root.height < 2 ^ 32
      → rollback_from b H rounds bc genesis now t ≡ ok bc'
      → laws.IsIndexed bc'.db × laws.AllHeld (Rooted b bc.params root) bc'.db
  rollback-Rooted rounds bc bc' genesis now t ix held wire_root height_root h =
      elim (rollback_from_cases b H rounds bc bc' genesis now t h) [
        | inl same ↦ (
          subst (λ (x : Blockchain b H). laws.IsIndexed x.db) same ix,
          subst (λ (x : Blockchain b H). laws.AllHeld (Rooted b bc.params root) x.db) same held,
        )
        | inr c ↦
            let target_of = λ (P : StoredHeader → Type 0) (k : laws.AllHeld P bc.db).
              rollback_loop-AllHeld b H laws root P bc.db _ _ t rounds c.best (c.height, c.target) k
                (laws.get_best_header-AllHeld P bc.db c.best k c.tip) c.walked in
            let (wire, height) =
              Rooted-fits c.target wire_root height_root
                (target_of (Rooted b bc.params root) held) in
            let (ix', held') =
              laws.delete_after_keeps (Rooted b bc.params root) bc.db c.cut_db c.height ix held
                c.cut in
            laws.put_keeps (Rooted b bc.params root) c.cut_db bc'.db c.target true c.stored wire
              height (target_of (Rooted b bc.params root) held) ix' held'
      ]

  -- Over a lawful database, a rollback without an error leaves the chain as it was, or it makes a
  -- header the best one that has the hash of the checkpoint, or is older than the date, or is put
  -- after a cut of the database at height 0.
  pub rollback-best :
      (rounds : ℕ) (bc bc' : Blockchain b H) (genesis : BlockHeader) (now t : ℕ)
      → rollback_from b H rounds bc genesis now t ≡ ok bc'
      → (bc ≡ bc')
        ⊎ ((sh : StoredHeader) × (H.get_best_header bc'.db ≡ ok sh)
            × ((b.block_hash sh.header ≡ b.block_hash (get_checkpoint genesis now bc.params).header)
                ⊎ (sh.header.timestamp < t)
                ⊎ ((db : H.Db) × (H.delete_after bc.db 0 ≡ ok db)
                    × (H.put db sh true ≡ ok bc'.db))))
  rollback-best rounds bc bc' genesis now t h =
      elim (rollback_from_cases b H rounds bc bc' genesis now t h) [
        | inl same ↦ inl same
        | inr c ↦ inr (
          c.target,
          laws.get_best_header-put_true c.cut_db bc'.db c.target c.stored,
          elim (rollback_loop_stops b H bc.db _ _ t rounds c.best c.height c.target c.walked) [
            | inl zero_cut ↦
                inr (inr (c.cut_db, ap (H.delete_after bc.db) (sym zero_cut) ∙ c.cut, c.stored))
            | inr (inl hit) ↦ inl hit.1
            | inr (inr early) ↦ inr (inl early.1)
          ],
        )
      ]
