-- ===== src/Chain/Blockchain/Rooted.antt =====
-- The contents of the chain: every header ends a chain of checked headers from one root.
use spvwallet.Prelude.{
  ℕ, zero, suc, ◌+◌, ◌^◌, ◌<◌, ◌≡◌, inl, inr, refl, sym, subst, ◌∙◌, ◌==◌, true, ltb, ok, >>=-eq-ok,
  ok-injective, Bool-cases, arith,
}
use spvwallet.Chain.Types.{BlockHeader, StoredHeader, Params, Btcd, IsWire}
use spvwallet.Chain.Headers.{Headers, HeadersLaws}
use spvwallet.Chain.Difficulty.{check_proof_of_work}
use spvwallet.Chain.Blockchain.{
  Blockchain, Commit, next_height, parent_of, commit_header, rollback_loop,
}
use spvwallet.Chain.Blockchain.Checks.{check_header_parts}
use spvwallet.Chain.Blockchain.Extending.{stored_over, parent_of_cases, commit_header_cases}

-- The end of a chain of wire headers from `root`: each names the one before it by its hash and has its
-- proof of work, and height and work count up along the chain.
pub data Rooted (b : Btcd) (p : Params) (root : StoredHeader) : StoredHeader → Type 0 where
  start : {sh : StoredHeader} → sh ≡ root → Rooted b p root sh
  extends :
      {parent sh : StoredHeader}
      → Rooted b p root parent
      → IsWire sh.header
      → b.block_hash parent.header ≡ sh.header.prev_block
      → check_proof_of_work b sh.header p ≡ true
      → sh.height ≡ next_height parent.height
      → sh.total_work ≡ parent.total_work + b.calc_work sh.header.bits
      → Rooted b p root sh

-- Headers that are rooted in a wire header are wire headers, at heights of 32 bits.
pub Rooted-fits :
    {b : Btcd} {p : Params} {root : StoredHeader} (sh : StoredHeader)
    → IsWire root.header
    → root.height < 2 ^ 32
    → Rooted b p root sh
    → IsWire sh.header × (sh.height < 2 ^ 32)
Rooted-fits {root = root} sh wire height (start e) = (
  subst (λ (x : StoredHeader). IsWire x.header) (sym e) wire,
  subst (λ (x : StoredHeader). x.height < 2 ^ 32) (sym e) height,
)
Rooted-fits sh wire height (extends r w links work e k) = (w, omega arith)

module _ (b : Btcd) (H : Headers) (laws : HeadersLaws b H) (root : StoredHeader) where
  parent_cases :
      (P : StoredHeader → Type 0) (bc : Blockchain b H) (header : BlockHeader)
      (best parent : StoredHeader)
      → laws.AllHeld P bc.db
      → H.get_best_header bc.db ≡ ok best
      → parent_of b H bc best header ≡ ok parent
      → P parent
  parent_cases P bc header best parent held tip h =
      elim (parent_of_cases b H bc best parent header h) [
        | inl same ↦ subst P same (laws.get_best_header-AllHeld P bc.db best held tip)
        | inr found ↦
            laws.get_header-AllHeld P bc.db header.prev_block parent held
              (sym (laws.get_previous_header_lem bc.db header) ∙ found)
      ]

  -- Over a lawful database: if the database is indexed and every held header is rooted, that is so
  -- after a commit of a header that fits the wire format.
  pub commit_header-Rooted :
      (bc bc' : Blockchain b H) (header : BlockHeader) (c : Commit)
      → IsWire header
      → laws.IsIndexed bc.db
      → laws.AllHeld (Rooted b bc.params root) bc.db
      → commit_header b H bc header ≡ ok (bc', c)
      → laws.IsIndexed bc'.db × laws.AllHeld (Rooted b bc.params root) bc'.db
  commit_header-Rooted bc bc' header c wire ix held h =
      elim (commit_header_cases b H bc bc' header c h) [
        | inl (same, none_new) ↦ (
          subst (λ (x : Blockchain b H). laws.IsIndexed x.db) (sym same) ix,
          subst (λ (x : Blockchain b H). laws.AllHeld (Rooted b bc.params root) x.db) (sym same)
              held,
        )
        | inr (best, parent, p, q, r, d, s) ↦
            let (links, bits, work) = check_header_parts b H bc header parent r in
            laws.put_keeps (Rooted b bc.params root) bc.db bc'.db (stored_over b H header parent) _
              s.done wire (omega arith)
              (extends (parent_cases (Rooted b bc.params root) bc header best parent held p q) wire
                links work refl refl)
              ix held
      ]

  pub rollback_loop-AllHeld :
      (P : StoredHeader → Type 0) (db : H.Db) (hash height t n : ℕ) (sh : StoredHeader)
      (target : ℕ × StoredHeader)
      → laws.AllHeld P db
      → P sh
      → rollback_loop b H db hash height t n sh ≡ ok target
      → P target.1
  unfolding rollback_loop
  rollback_loop-AllHeld P db hash height t zero sh target held good h =
      subst (λ (x : ℕ × StoredHeader). P x.1) (ok-injective h) good
  rollback_loop-AllHeld P db hash height t (suc n) sh target held good h =
      let (prev, p, q) = >>=-eq-ok (H.get_previous_header db sh.header) _ h in
      let ok_prev =
        laws.get_header-AllHeld P db sh.header.prev_block prev held
          (sym (laws.get_previous_header_lem db sh.header) ∙ p) in
      elim (Bool-cases (b.block_hash prev.header == hash)) [
        | inl at_checkpoint ↦
            subst (λ (x : ℕ × StoredHeader). P x.1) (ok-injective (rw at_checkpoint at q)) ok_prev
        | inr above ↦ elim (Bool-cases (ltb prev.header.timestamp t)) [
          | inl early ↦
              subst (λ (x : ℕ × StoredHeader). P x.1) (ok-injective (rw (above, early) at q))
                ok_prev
          | inr late ↦
              rollback_loop-AllHeld P db hash height t n prev target held ok_prev
                (rw (above, late) at q)
        ]
      ]
