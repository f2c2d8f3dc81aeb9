-- ===== src/Chain/Blockchain/Ending.antt =====
-- The loops of chain/blockchain.go end: CommitHeader over a database whose headers get lower
-- towards their parents, and Rollback over any.
use spvwallet.Prelude.{
  ℕ, zero, suc, ◌+◌, ◌*◌, ◌^◌, ◌<◌, ◌≡◌, ◌≢◌, ◌⊎◌, inl, inr, refl, sym, ap, subst, ◌∙◌, ◌==◌,
  ==_iff, Bool, true, false, not, ◌&&◌, ◌||◌, if◌then◌else◌, Option, none, ltb, Result, ok, err,
  panic, stuck, >>=-ne-stuck, ok-ne-stuck, ok-injective, Bool-cases, arith,
}
use spvwallet.Chain.Types.{BlockHeader, StoredHeader, Error, Btcd}
use spvwallet.Chain.Headers.{Headers, HeadersLaws}
use spvwallet.Chain.Checkpoints.{get_checkpoint}
use spvwallet.Chain.Blockchain.{
  Blockchain, epoch_offset, next_height, back, get_epoch, last_regular, calc_required_work,
  right_bits, difficulty_ok, check_header, or_orphan, parent_of, get_common_ancestor, reorg, store,
  extend, commit_header, rollback_loop, rollback_from,
}
use spvwallet.Chain.Blockchain.Extending.{stored_over, parent_of_cases}
use spvwallet.Chain.Blockchain.Ancestry.{
  previous-ne-stuck, back-ne-stuck, get_common_ancestor-ne-stuck,
}

if-ne-stuck {ℓ} :
    {E : Type 0} {A : Type ℓ} (t : Bool) (x y : Result E A)
    → x ≢ stuck
    → y ≢ stuck
    → if◌then◌else◌ t x y ≢ stuck
if-ne-stuck true x y p q = p
if-ne-stuck false x y p q = q

module _ (b : Btcd) (H : Headers) (laws : HeadersLaws b H) where
  get_epoch-ne-stuck : (bc : Blockchain b H) → get_epoch b H bc ≢ stuck
  unfolding get_epoch
  get_epoch-ne-stuck bc =
      >>=-ne-stuck (H.get_best_header bc.db) _ (laws.get_best_header-ne-stuck bc.db) (λ best _.
        >>=-ne-stuck (back b H bc.db 2015 best) _ (back-ne-stuck b H laws bc.db 2015 best)
          (λ sh _. ok-ne-stuck sh.header))

  rollback_loop-ne-stuck :
      (db : H.Db) (hash height t n : ℕ) (sh : StoredHeader)
      → rollback_loop b H db hash height t n sh ≢ stuck
  unfolding rollback_loop
  rollback_loop-ne-stuck db hash height t zero sh = ok-ne-stuck _
  rollback_loop-ne-stuck db hash height t (suc n) sh =
      >>=-ne-stuck (H.get_previous_header db sh.header) _ (previous-ne-stuck b H laws db sh.header)
        (λ prev _. if-ne-stuck (b.block_hash prev.header == hash) _ _ (ok-ne-stuck _) (
          if-ne-stuck (ltb prev.header.timestamp t) _ _ (ok-ne-stuck _)
            (rollback_loop-ne-stuck db hash height t n prev)))

  -- Over a lawful database, a rollback ends.
  pub rollback_from-ne-stuck :
      (rounds : ℕ) (bc : Blockchain b H) (genesis : BlockHeader) (now t : ℕ)
      → rollback_from b H rounds bc genesis now t ≢ stuck
  unfolding rollback_from
  rollback_from-ne-stuck rounds bc genesis now t =
      let cp = get_checkpoint genesis now bc.params in
      >>=-ne-stuck (H.get_best_header bc.db) _ (laws.get_best_header-ne-stuck bc.db) (λ sh _.
        if-ne-stuck (ltb sh.header.timestamp t || b.block_hash sh.header == b.block_hash cp.header)
          _ _ (ok-ne-stuck bc)
          (>>=-ne-stuck (rollback_loop b H bc.db (b.block_hash cp.header) cp.height t rounds sh) _
            (rollback_loop-ne-stuck bc.db (b.block_hash cp.header) cp.height t rounds sh)
            (λ target _.
              >>=-ne-stuck (H.delete_after bc.db target.0) _
                (laws.delete_after-ne-stuck bc.db target.0)
                (λ db _.
                  >>=-ne-stuck (H.put db target.1 true) _ (laws.put-ne-stuck db target.1 true)
                    (λ db' _. ok-ne-stuck _)))))

module _ (b : Btcd) (H : Headers) (laws : HeadersLaws b H) (Known : StoredHeader → Type 0)
    (bc : Blockchain b H) (held : laws.AllHeld Known bc.db)
    (low : (x : StoredHeader) → Known x → x.height + 1 < 2 ^ 32)
    (falls : (x y : StoredHeader)
      → Known x
      → H.get_previous_header bc.db x.header ≡ ok y
      → y.height + 1 ≡ x.height) where
  previous-Known :
      (h : BlockHeader) (y : StoredHeader) → H.get_previous_header bc.db h ≡ ok y → Known y
  previous-Known h y p =
      laws.get_header-AllHeld Known bc.db h.prev_block y held
        (sym (laws.get_previous_header_lem bc.db h) ∙ p)

  last_regular-ne-stuck :
      (f : ℕ) (prev : StoredHeader)
      → Known prev
      → prev.height < f
      → last_regular b H f bc prev ≢ stuck
  unfolding last_regular
  last_regular-ne-stuck zero prev k h = absurd (omega arith)
  last_regular-ne-stuck (suc f) prev k h =
      elim (Bool-cases
        (not (epoch_offset prev.height == 0) && prev.header.bits == bc.params.pow_limit_bits)) [
          | inr regular ↦ rw (regular, last_regular) (ok-ne-stuck prev)
          | inl special ↦
              rw (special, last_regular)
                (next (H.get_previous_header bc.db prev.header) refl
                  (previous-ne-stuck b H laws bc.db prev.header)
                  (λ sh e.
                    let down = falls prev sh k e in
                    last_regular-ne-stuck f sh (previous-Known prev.header sh e) (omega arith)))
        ]
    where
      next :
          (r : Result Error StoredHeader)
          → H.get_previous_header bc.db prev.header ≡ r
          → r ≢ stuck
          → ((sh : StoredHeader)
              → H.get_previous_header bc.db prev.header ≡ ok sh
              → last_regular b H f bc sh ≢ stuck)
          → (elim r [
            | ok sh ↦ last_regular b H f bc sh
            | err x ↦ ok prev
            | panic ↦ panic
            | stuck ↦ stuck
          ])
            ≢ stuck
      next (ok sh) e n again = again sh e
      next (err x) e n again = ok-ne-stuck prev
      next panic e n again = λ p. cc
      next stuck e n again = n

  calc_required_work-ne-stuck :
      (header : BlockHeader) (height : ℕ) (prev : StoredHeader)
      → Known prev
      → calc_required_work b H bc header height prev ≢ stuck
  unfolding calc_required_work
  calc_required_work-ne-stuck header height prev k =
      if-ne-stuck (not (epoch_offset height == 0)) _ _
        (if-ne-stuck bc.params.reduce_min_difficulty _ _
          (if-ne-stuck (ltb (prev.header.timestamp + 20 * 60) header.timestamp) _ _ (ok-ne-stuck _)
            (>>=-ne-stuck (last_regular b H (suc prev.height) bc prev) _
              (last_regular-ne-stuck (suc prev.height) prev k (omega arith))
              (λ sh _. ok-ne-stuck _)))
          (ok-ne-stuck _))
        (>>=-ne-stuck (get_epoch b H bc) _ (get_epoch-ne-stuck b H laws bc)
          (λ epoch _. ok-ne-stuck _))

  right_bits-ne-stuck : (r : Result Error ℕ) (bits : ℕ) → r ≢ stuck → right_bits b H r bits ≢ stuck
  unfolding right_bits
  right_bits-ne-stuck (ok target) bits n = ok-ne-stuck _
  right_bits-ne-stuck (err x) bits n = ok-ne-stuck _
  right_bits-ne-stuck panic bits n = λ p. cc
  right_bits-ne-stuck stuck bits n = absurd (n refl)

  check_header-ne-stuck :
      (header : BlockHeader) (prev : StoredHeader)
      → Known prev
      → check_header b H bc header prev ≢ stuck
  unfolding check_header difficulty_ok
  check_header-ne-stuck header prev k =
      if-ne-stuck (b.block_hash prev.header == header.prev_block) _ _
        (>>=-ne-stuck (difficulty_ok b H bc header prev) _
          (if-ne-stuck bc.params.reduce_min_difficulty _ _ (ok-ne-stuck true) (
            right_bits-ne-stuck (calc_required_work b H bc header (next_height prev.height) prev)
              header.bits (calc_required_work-ne-stuck header (next_height prev.height) prev k)))
          (λ right _. ok-ne-stuck _))
        (ok-ne-stuck false)

  above : BlockHeader → StoredHeader → StoredHeader
  above header parent = record {
    header = header;
    height = next_height parent.height;
    total_work = 0;
  }

  next_height_low : (h : ℕ) → h + 1 < 2 ^ 32 → h + 1 ≡ next_height h
  next_height_low h l = omega arith

  parent_Known :
      (best parent : StoredHeader) (header : BlockHeader)
      → H.get_best_header bc.db ≡ ok best
      → (best ≡ parent) ⊎ (H.get_previous_header bc.db header ≡ ok parent)
      → Known parent
  parent_Known best parent header tip (inl same) =
      subst Known same (laws.get_best_header-AllHeld Known bc.db best held tip)
  parent_Known best parent header tip (inr found) = previous-Known header parent found

  or_orphan-ne-stuck : (r : Result Error StoredHeader) → r ≢ stuck → or_orphan b H r ≢ stuck
  unfolding or_orphan
  or_orphan-ne-stuck (ok sh) n = ok-ne-stuck sh
  or_orphan-ne-stuck (err x) n = λ p. cc
  or_orphan-ne-stuck panic n = λ p. cc
  or_orphan-ne-stuck stuck n = absurd (n refl)

  parent_of-ne-stuck :
      (best : StoredHeader) (header : BlockHeader) → parent_of b H bc best header ≢ stuck
  unfolding parent_of
  parent_of-ne-stuck best header =
      if-ne-stuck (header.prev_block == b.block_hash best.header) _ _ (ok-ne-stuck best) (
        or_orphan-ne-stuck (H.get_previous_header bc.db header)
          (previous-ne-stuck b H laws bc.db header))

  reorg-ne-stuck :
      (header : BlockHeader) (parent best : StoredHeader)
      → Known parent
      → (best ≡ parent) ⊎ (H.get_previous_header bc.db header ≡ ok parent)
      → reorg b H bc header parent best ≢ stuck
  unfolding reorg above
  reorg-ne-stuck header parent best k (inl same) =
      rw (sym same, (==_iff (b.block_hash best.header) (b.block_hash best.header)).1 refl)
        (ok-ne-stuck none)
  reorg-ne-stuck header parent best k (inr found) =
      if-ne-stuck (b.block_hash best.header == b.block_hash parent.header) _ _ (ok-ne-stuck none) (
        >>=-ne-stuck (get_common_ancestor b H bc.db (above header parent) best) _
          (get_common_ancestor-ne-stuck b H laws bc.db (λ x. Known x ⊎ (x ≡ above header parent))
            down (above header parent) best (inr refl))
          (λ sh _. ok-ne-stuck _))
    where
      down :
          (x y : StoredHeader)
          → Known x ⊎ (x ≡ above header parent)
          → H.get_previous_header bc.db x.header ≡ ok y
          → (Known y ⊎ (y ≡ above header parent)) × (y.height + 1 ≡ x.height)
      down x y (inl known) h = (inl (previous-Known x.header y h), falls x y known h)
      down x y (inr e) h =
          let same : parent ≡ y = ok-injective (
            sym found
            ∙ subst (λ (z : StoredHeader). H.get_previous_header bc.db z.header ≡ ok y) e h) in
          (
            inl (previous-Known x.header y h),
            ap (λ (z : StoredHeader). z.height + 1) (sym same)
                ∙ next_height_low parent.height (low parent k)
                ∙ ap (λ (z : StoredHeader). z.height) (sym e),
          )

  store-ne-stuck :
      (sh : StoredHeader) (new_tip : Bool) (ancestor : Option StoredHeader)
      → store b H bc sh new_tip ancestor ≢ stuck
  unfolding store
  store-ne-stuck sh new_tip ancestor =
      >>=-ne-stuck (H.put bc.db sh new_tip) _ (laws.put-ne-stuck bc.db sh new_tip)
        (λ db _. ok-ne-stuck _)

  extend-ne-stuck :
      (header : BlockHeader) (parent best : StoredHeader)
      → Known parent
      → (best ≡ parent) ⊎ (H.get_previous_header bc.db header ≡ ok parent)
      → extend b H bc header parent best ≢ stuck
  unfolding extend
  extend-ne-stuck header parent best k from =
      if-ne-stuck (ltb best.total_work (stored_over b H header parent).total_work) _ _
        (>>=-ne-stuck (reorg b H bc header parent best) _ (reorg-ne-stuck header parent best k from)
          (λ ancestor _. store-ne-stuck (stored_over b H header parent) true ancestor))
        (store-ne-stuck (stored_over b H header parent) false none)

  -- Over a lawful database: with a set of headers that has every held header, all of them at
  -- heights below 2 ^ 32 - 1, in which the parent of each, where it is found, is one lower, a commit
  -- of any header ends.
  pub commit_header-ne-stuck : (header : BlockHeader) → commit_header b H bc header ≢ stuck
  unfolding commit_header
  commit_header-ne-stuck header =
      >>=-ne-stuck (H.get_best_header bc.db) _ (laws.get_best_header-ne-stuck bc.db) (λ best p.
        >>=-ne-stuck (parent_of b H bc best header) _ (parent_of-ne-stuck best header) (λ parent q.
          let from = parent_of_cases b H bc best parent header q in
          let k = parent_Known best parent header p from in
          >>=-ne-stuck (check_header b H bc header parent) _ (check_header-ne-stuck header parent k)
            (λ valid _.
              if-ne-stuck (not valid || b.block_hash best.header == b.block_hash header) _ _
                (ok-ne-stuck _) (extend-ne-stuck header parent best k from))))
