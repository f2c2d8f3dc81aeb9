-- ===== src/Chain/Blockchain/Extending.antt =====
-- What CommitHeader does on each of its branches.
use spvwallet.Prelude.{
  ◌+◌, ◌≡◌, ◌≢◌, ◌⊎◌, inl, inr, sym, ap, ◌∙◌, ◌==◌, ==_iff, Bool, true, false, not, ◌&&◌, ◌||◌,
  Option, none, [], ◌∷◌, ◌++◌, ltb, if◌then◌else◌, Result, ok, err, panic, stuck, >>=-eq-ok,
  ok-injective, Bool-cases, arith,
}
use spvwallet.Chain.Types.{BlockHeader, StoredHeader, Error, Btcd}
use spvwallet.Chain.Headers.{Headers}
use spvwallet.Chain.Blockchain.{
  Blockchain, Commit, ignored, next_height, check_header, or_orphan, parent_of, reorg, store,
  extend, commit_header,
}

module _ (b : Btcd) (H : Headers) where
  -- The stored form of a header over its parent.
  abbrev pub stored_over : BlockHeader → StoredHeader → StoredHeader
  stored_over header parent = record {
    header = header;
    height = next_height parent.height;
    total_work = parent.total_work + b.calc_work header.bits;
  }

  -- The parent is the best header, or it was found.
  pub parent_of_cases :
      (bc : Blockchain b H) (best parent : StoredHeader) (header : BlockHeader)
      → parent_of b H bc best header ≡ ok parent
      → (best ≡ parent) ⊎ (H.get_previous_header bc.db header ≡ ok parent)
  unfolding parent_of or_orphan
  parent_of_cases bc best parent header h =
      elim (Bool-cases (header.prev_block == b.block_hash best.header)) [
        | inl same ↦ inl (ok-injective (rw same at h))
        | inr other ↦ inr (found (H.get_previous_header bc.db header) (rw other at h))
      ]
    where
      found : (r : Result Error StoredHeader) → or_orphan b H r ≡ ok parent → r ≡ ok parent
      found (ok sh) e = e
      found (err x) e = cc
      found panic e = cc
      found stuck e = cc

  -- What a commit that stores the header has done.
  pub record Stores (bc : Blockchain b H) (header : BlockHeader) (best parent : StoredHeader)
      (bc' : Blockchain b H) (c : Commit) : Type 0 where
    pub done :
        H.put bc.db
          (stored_over header parent)
          (ltb best.total_work (stored_over header parent).total_work)
        ≡ ok bc'.db
    pub same_params : bc'.params ≡ bc.params
    pub tip : c.new_tip ≡ ltb best.total_work (stored_over header parent).total_work
    pub at_height : c.height ≡ next_height parent.height
    pub sent : bc'.updates ≡ (
        if bc.is_open && ltb best.total_work (stored_over header parent).total_work
        then bc.updates ++ (next_height parent.height ∷ [])
        else bc.updates)

  store_cases :
      (bc bc' : Blockchain b H) (header : BlockHeader) (best parent : StoredHeader) (new_tip : Bool)
      (ancestor : Option StoredHeader) (c : Commit)
      → new_tip ≡ ltb best.total_work (stored_over header parent).total_work
      → store b H bc (stored_over header parent) new_tip ancestor ≡ ok (bc', c)
      → Stores bc header best parent bc' c
  unfolding store
  store_cases bc bc' header best parent new_tip ancestor c t h =
      let (db, p, q) = >>=-eq-ok (H.put bc.db (stored_over header parent) new_tip) _ h in
      let eq = ok-injective q in
      let left = ap (λ (x : Blockchain b H × Commit). x.0) eq in
      let right = ap (λ (x : Blockchain b H × Commit). x.1) eq in
      record {
        done =
            ap (H.put bc.db (stored_over header parent)) (sym t)
            ∙ p
            ∙ ap ok (ap (λ (x : Blockchain b H). x.db) left);
        same_params = ap (λ (x : Blockchain b H). x.params) (sym left);
        tip = ap (λ (x : Commit). x.new_tip) (sym right) ∙ t;
        at_height = ap (λ (x : Commit). x.height) (sym right);
        sent =
            ap (λ (x : Blockchain b H). x.updates) (sym left)
            ∙ ap
                (λ (x : Bool).
                  if bc.is_open && x
                  then bc.updates ++ (next_height parent.height ∷ [])
                  else bc.updates)
                t;
      }

  extend_cases :
      (bc bc' : Blockchain b H) (header : BlockHeader) (best parent : StoredHeader) (c : Commit)
      → extend b H bc header parent best ≡ ok (bc', c)
      → Stores bc header best parent bc' c
  unfolding extend
  extend_cases bc bc' header best parent c h =
      elim (Bool-cases (ltb best.total_work (stored_over header parent).total_work)) [
        | inl more ↦
            let (anc, p, q) = >>=-eq-ok (reorg b H bc header parent best) _ (rw more at h) in
            store_cases bc bc' header best parent true anc c (sym more) q
        | inr less ↦ store_cases bc bc' header best parent false none c (sym less) (rw less at h)
      ]

  -- A commit without an error left the chain as it was, or it has stored the header over its
  -- parent, after the checks, and the header is not the tip.
  pub commit_header_cases :
      (bc bc' : Blockchain b H) (header : BlockHeader) (c : Commit)
      → commit_header b H bc header ≡ ok (bc', c)
      → ((bc' ≡ bc) × (c ≡ ignored))
        ⊎ ((best : StoredHeader) × (parent : StoredHeader) × (H.get_best_header bc.db ≡ ok best)
            × (parent_of b H bc best header ≡ ok parent)
            × (check_header b H bc header parent ≡ ok true)
            × (b.block_hash best.header ≢ b.block_hash header)
            × Stores bc header best parent bc' c)
  unfolding commit_header
  commit_header_cases bc bc' header c h =
      let (best, p, h1) = >>=-eq-ok (H.get_best_header bc.db) _ h in
      let (parent, q, h2) = >>=-eq-ok (parent_of b H bc best header) _ h1 in
      let (valid, r, h3) = >>=-eq-ok (check_header b H bc header parent) _ h2 in
      elim (Bool-cases (not valid || b.block_hash best.header == b.block_hash header)) [
        | inl skip ↦
            let eq = ok-injective (rw skip at h3) in
            inl (
              ap (λ (x : Blockchain b H × Commit). x.0) (sym eq),
              ap (λ (x : Blockchain b H × Commit). x.1) (sym eq),
            )
        | inr go ↦
            let (v, d) = accepted valid (b.block_hash best.header == b.block_hash header) go in
            inr (
              best,
              parent,
              p,
              q,
              r ∙ ap ok v,
              λ e. cc (d, (==_iff (b.block_hash best.header) (b.block_hash header)).1 e),
              extend_cases bc bc' header best parent c (rw go at h3),
            )
      ]
    where
      accepted : (v t : Bool) → (not v || t) ≡ false → (v ≡ true) × (t ≡ false)
      accepted v t e = ground arith
