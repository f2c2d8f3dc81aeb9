-- ===== src/Chain/Blockchain/Checks.antt =====
-- What CheckHeader and calcRequiredWork demand of a header.
use spvwallet.Prelude.{
  ℕ, ◌≡◌, ◌≢◌, ◌⊎◌, inl, inr, refl, sym, ap, subst, ◌∙◌, ◌<◌, ◌≤◌, ◌==◌, ==_iff, Bool, true, false,
  ◌&&◌, Result, ok, err, panic, stuck, >>=-eq-ok, ok-injective, Bool-cases, arith,
}
use spvwallet.Chain.Types.{BlockHeader, StoredHeader, Error, Btcd}
use spvwallet.Chain.Headers.{Headers}
use spvwallet.Chain.Difficulty.{check_proof_of_work, calc_diff_adjust}
use spvwallet.Chain.Difficulty.Bounds.{check_proof_of_work_iff}
use spvwallet.Prelude.Int.{pos}
use spvwallet.Chain.Blockchain.{
  Blockchain, epoch_offset, next_height, back, get_epoch, calc_required_work, right_bits,
  difficulty_ok, check_header,
}

module _ (b : Btcd) (H : Headers) where
  &&-eq-true : (x y : Bool) → (x && y) ≡ true → (x ≡ true) × (y ≡ true)
  &&-eq-true x y h = ground arith

  right_bits-true : (r : Result Error ℕ) (bits : ℕ) → right_bits b H r bits ≡ ok true → r ≡ ok bits
  unfolding right_bits
  right_bits-true (ok n) bits h = ap ok (sym ((==_iff bits n).0 (ok-injective h)))
  right_bits-true (err x) bits h = cc
  right_bits-true panic bits h = cc
  right_bits-true stuck bits h = cc

  difficulty_sound :
      (bc : Blockchain b H) (header : BlockHeader) (prev : StoredHeader)
      → difficulty_ok b H bc header prev ≡ ok true
      → (bc.params.reduce_min_difficulty ≡ true)
        ⊎ (calc_required_work b H bc header (next_height prev.height) prev ≡ ok header.bits)
  unfolding difficulty_ok
  difficulty_sound bc header prev h = elim (Bool-cases bc.params.reduce_min_difficulty) [
    | inl easy ↦ inl easy
    | inr plain ↦ inr (right_bits-true _ header.bits (simp plain at h))
  ]

  difficulty_complete :
      (bc : Blockchain b H) (header : BlockHeader) (prev : StoredHeader)
      → (bc.params.reduce_min_difficulty ≡ true)
        ⊎ (calc_required_work b H bc header (next_height prev.height) prev ≡ ok header.bits)
      → difficulty_ok b H bc header prev ≡ ok true
  unfolding difficulty_ok right_bits
  difficulty_complete bc header prev (inl easy) = rw easy
  difficulty_complete bc header prev (inr bits) =
      elim (Bool-cases bc.params.reduce_min_difficulty) [
        | inl easy ↦ rw easy
        | inr plain ↦ simp (plain, bits) (ap ok ((==_iff header.bits header.bits).1 refl))
      ]

  pub check_header_parts :
      (bc : Blockchain b H) (header : BlockHeader) (prev : StoredHeader)
      → check_header b H bc header prev ≡ ok true
      → (b.block_hash prev.header ≡ header.prev_block)
        × ((bc.params.reduce_min_difficulty ≡ true)
            ⊎ (calc_required_work b H bc header (next_height prev.height) prev ≡ ok header.bits))
        × (check_proof_of_work b header bc.params ≡ true)
  unfolding check_header
  check_header_parts bc header prev h =
      elim (Bool-cases (b.block_hash prev.header == header.prev_block)) [
        | inr apart ↦ cc (ok-injective (rw apart at h))
        | inl linked ↦
            let (right, p, q) = >>=-eq-ok (difficulty_ok b H bc header prev) _ (rw linked at h) in
            let (r, w) =
              &&-eq-true right (check_proof_of_work b header bc.params) (ok-injective q) in
            ((==_iff _ _).0 linked, difficulty_sound bc header prev (p ∙ ap ok r), w)
      ]

  -- CheckHeader accepts a header that names the one before, has the required bits or is on a network
  -- that reduces the difficulty, and has its proof of work.
  pub check_header_complete :
      (bc : Blockchain b H) (header : BlockHeader) (prev : StoredHeader)
      → b.block_hash prev.header ≡ header.prev_block
      → (bc.params.reduce_min_difficulty ≡ true)
        ⊎ (calc_required_work b H bc header (next_height prev.height) prev ≡ ok header.bits)
      → check_proof_of_work b header bc.params ≡ true
      → check_header b H bc header prev ≡ ok true
  unfolding check_header
  check_header_complete bc header prev links bits work = rw (
    (==_iff (b.block_hash prev.header) header.prev_block).1 links,
    difficulty_complete bc header prev bits,
    work,
  )

  -- Off the epoch boundary and without reduced difficulty the bits of the previous header are
  -- required.
  pub calc_required_work-same :
      (bc : Blockchain b H) (header : BlockHeader) (height : ℕ) (prev : StoredHeader)
      → bc.params.reduce_min_difficulty ≡ false
      → epoch_offset height ≢ 0
      → calc_required_work b H bc header height prev ≡ ok prev.header.bits
  unfolding calc_required_work
  calc_required_work-same bc header height prev plain inside =
      elim (Bool-cases (epoch_offset height == 0)) [
        | inl edge ↦ absurd (inside ((==_iff (epoch_offset height) 0).0 edge))
        | inr within ↦ rw (within, plain)
      ]

  -- At an epoch boundary, reduced difficulty or not, and where the best header has 2015 ancestors in
  -- a row: the required bits come from the adjustment between the last of those ancestors and the
  -- previous header of the one in question.
  pub calc_required_work-epoch :
      (bc : Blockchain b H) (header : BlockHeader) (height : ℕ) (prev best start : StoredHeader)
      → epoch_offset height ≡ 0
      → H.get_best_header bc.db ≡ ok best
      → back b H bc.db 2015 best ≡ ok start
      → calc_required_work b H bc header height prev
        ≡ ok (calc_diff_adjust b start.header prev.header bc.params)
  unfolding calc_required_work get_epoch
  calc_required_work-epoch bc header height prev best start edge tip walk =
      rw ((==_iff (epoch_offset height) 0).1 edge, tip, walk)

  -- The bits that a network without reduced difficulty asks for at a height: those of the header
  -- before, and at each 2016th height the adjustment between that header and the one 2015 below the
  -- best.
  pub data Demands (bc : Blockchain b H) (prev : StoredHeader) (height : ℕ) : ℕ → Type 0 where
    stays : epoch_offset height ≢ 0 → Demands bc prev height prev.header.bits
    adjusts :
        (best start : StoredHeader)
        → epoch_offset height ≡ 0
        → H.get_best_header bc.db ≡ ok best
        → back b H bc.db 2015 best ≡ ok start
        → Demands bc prev height (calc_diff_adjust b start.header prev.header bc.params)

  calc_required_work-Demands :
      (bc : Blockchain b H) (header : BlockHeader) (height bits : ℕ) (prev : StoredHeader)
      → bc.params.reduce_min_difficulty ≡ false
      → calc_required_work b H bc header height prev ≡ ok bits
      → Demands bc prev height bits
  unfolding calc_required_work get_epoch
  calc_required_work-Demands bc header height bits prev plain h =
      elim (Bool-cases (epoch_offset height == 0)) [
        | inr within ↦
            subst (Demands bc prev height) (ok-injective (rw (within, plain) at h))
              (stays (λ z. cc (within, (==_iff (epoch_offset height) 0).1 z)))
        | inl edge ↦
            let (epoch, p, q) = >>=-eq-ok (get_epoch b H bc) _ (rw edge at h) in
            let (best, top, r) = >>=-eq-ok (H.get_best_header bc.db) _ p in
            let (start, walk, s) = >>=-eq-ok (back b H bc.db 2015 best) _ r in
            subst (Demands bc prev height)
              (ap (λ x. calc_diff_adjust b x prev.header bc.params) (ok-injective s)
                ∙ ok-injective q)
              (adjusts best start ((==_iff (epoch_offset height) 0).0 edge) top walk)
      ]

  -- A header that CheckHeader accepts names the header before it. Its bits stand for a target above
  -- zero and at most the limit of the network, which its hash as a number does not exceed. Wherever
  -- the network does not reduce the difficulty, its bits are those of the header before, or where the
  -- offset of its height in the epoch is 0, the adjustment between that header and the one 2015 below
  -- the best header.
  pub check_header_sound :
      (bc : Blockchain b H) (header : BlockHeader) (prev : StoredHeader)
      → check_header b H bc header prev ≡ ok true
      → (b.block_hash prev.header ≡ header.prev_block)
        × ((bc.params.reduce_min_difficulty ≡ true)
            ⊎ Demands bc prev (next_height prev.height) header.bits)
        × ((target : ℕ) × (b.compact_to_big header.bits ≡ pos target)
            × (0 < target)
            × (target ≤ bc.params.pow_limit)
            × (b.hash_to_big (b.block_hash header) ≤ target))
  check_header_sound bc header prev h =
      let (links, bits, work) = check_header_parts bc header prev h in
      (
        links,
        elim (Bool-cases bc.params.reduce_min_difficulty) [
          | inl easy ↦ inl easy
          | inr plain ↦ elim bits [
            | inl easy ↦ inl easy
            | inr r ↦ inr (
                calc_required_work-Demands bc header (next_height prev.height) header.bits prev
                  plain r)
          ]
        ],
        (check_proof_of_work_iff b header bc.params).0 work,
      )
