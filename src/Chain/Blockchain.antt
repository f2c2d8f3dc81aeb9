-- ===== src/Chain/Blockchain.antt =====
-- Blockchain of chain/blockchain.go, over any implementation of the interface Headers.
pub mod Checks
pub mod Extending
pub mod Best
pub mod Rooted
pub mod Rollback
pub mod Ancestry
pub mod Ending
pub mod Locator
use spvwallet.Prelude.{
  ℕ, zero, suc, ◌+◌, ◌-◌, ◌*◌, ◌%◌, ◌^◌, ◌==◌, Bool, true, false, not, ◌&&◌, ◌||◌, Option, none,
  some, List, [], ◌∷◌, ◌++◌, ltb, leb, if◌then◌else◌, Result, ok, err, panic, stuck, ◌>>=◌,
}
use spvwallet.Chain.Types.{BlockHeader, StoredHeader, Error, orphan_header, Params, Btcd}
use spvwallet.Chain.Headers.{Headers}
use spvwallet.Chain.Difficulty.{epoch_length, calc_diff_adjust, check_proof_of_work}
use spvwallet.Chain.Checkpoints.{get_checkpoint}

-- What CommitHeader returns beside a nil error.
pub record Commit : Type 0 where
  pub new_tip : Bool
  pub ancestor : Option StoredHeader
  pub height : ℕ

abbrev pub ignored : Commit
ignored = record { new_tip = false; ancestor = none; height = 0 }

-- `int32(height) % epochLength`, up to its sign: heights from 2 ^ 31 on are negative.
unfoldable pub epoch_offset : ℕ → ℕ
epoch_offset height =
    if ltb height (2 ^ 31) then height % epoch_length else (2 ^ 32 - height) % epoch_length

-- `Height + 1` on uint32.
abbrev pub next_height : ℕ → ℕ
next_height height = (height + 1) % 2 ^ 32

module _ (b : Btcd) (H : Headers) where
  -- `updates` is what was sent on the channel HeaderUpdate.
  pub record Blockchain : Type 0 where
    pub params : Params
    pub db : H.Db
    pub updates : List ℕ
    pub is_open : Bool

  -- `n` times the parent. `rollback` in GetBlockLocator and GetCommonAncestor, the loop of GetEpoch.
  unfoldable pub back : H.Db → ℕ → StoredHeader → Result Error StoredHeader
  back db zero sh = ok sh
  back db (suc n) sh = H.get_previous_header db sh.header >>= λ prev. back db n prev

  unfoldable pub get_epoch : Blockchain → Result Error BlockHeader
  get_epoch bc = do best ← H.get_best_header bc.db; sh ← back bc.db 2015 best; ok sh.header

  -- The inner loop of calcRequiredWork: down to the last header that does not use the special
  -- difficulty. It ends at a height that starts an epoch, so a round for each height is enough.
  unfoldable pub last_regular : ℕ → Blockchain → StoredHeader → Result Error StoredHeader
  last_regular zero bc prev = stuck
  last_regular (suc f) bc prev =
      elim (not (epoch_offset prev.height == 0) && prev.header.bits == bc.params.pow_limit_bits) [
        | false ↦ ok prev
        | true ↦ elim (H.get_previous_header bc.db prev.header) [
          | ok sh ↦ last_regular f bc sh
          | err x ↦ ok prev
          | panic ↦ panic
          | stuck ↦ stuck
        ]
      ]

  unfoldable pub calc_required_work : Blockchain → BlockHeader → ℕ → StoredHeader → Result Error ℕ
  calc_required_work bc header height prev =
      if not (epoch_offset height == 0)
      then if bc.params.reduce_min_difficulty
        then if ltb (prev.header.timestamp + 20 * 60) header.timestamp
          then ok bc.params.pow_limit_bits
          else (last_regular (suc prev.height) bc prev >>= λ sh. ok sh.header.bits)
        else ok prev.header.bits
      else (get_epoch bc >>= λ epoch. ok (calc_diff_adjust b epoch prev.header bc.params))

  -- An error of calcRequiredWork makes the header invalid.
  unfoldable pub right_bits : Result Error ℕ → ℕ → Result Error Bool
  right_bits (ok target) bits = ok (bits == target)
  right_bits (err x) bits = ok false
  right_bits panic bits = panic
  right_bits stuck bits = stuck

  unfoldable pub difficulty_ok : Blockchain → BlockHeader → StoredHeader → Result Error Bool
  difficulty_ok bc header prev =
      if bc.params.reduce_min_difficulty
      then ok true
      else right_bits (calc_required_work bc header (next_height prev.height) prev) header.bits

  unfoldable pub check_header : Blockchain → BlockHeader → StoredHeader → Result Error Bool
  check_header bc header prev =
      if b.block_hash prev.header == header.prev_block
      then (difficulty_ok bc header prev >>= λ right.
          ok (right && check_proof_of_work b header bc.params))
      else ok false

  -- The endless loop of GetCommonAncestor, from two headers at one height.
  unfoldable pub meet : ℕ → H.Db → StoredHeader → StoredHeader → Result Error StoredHeader
  meet zero db majority minority = stuck
  meet (suc f) db majority minority =
      elim (b.block_hash majority.header == b.block_hash minority.header) [
        | true ↦ ok majority
        | false ↦ H.get_previous_header db majority.header >>= λ maj.
            H.get_previous_header db minority.header >>= λ min. meet f db maj min
      ]

  -- Each round goes down by one height on both sides, so a round for each height is enough.
  unfoldable pub get_common_ancestor :
      H.Db → StoredHeader → StoredHeader → Result Error StoredHeader
  get_common_ancestor db best prev_best = do
    majority ← back db (best.height - prev_best.height) best
    minority ← back db (prev_best.height - best.height) prev_best
    meet (suc majority.height) db majority minority

  -- An error of GetPreviousHeader makes the header an orphan.
  unfoldable pub or_orphan : Result Error StoredHeader → Result Error StoredHeader
  or_orphan (ok sh) = ok sh
  or_orphan (err x) = err orphan_header
  or_orphan panic = panic
  or_orphan stuck = stuck

  unfoldable pub parent_of : Blockchain → StoredHeader → BlockHeader → Result Error StoredHeader
  parent_of bc best header =
      if header.prev_block == b.block_hash best.header
      then ok best
      else or_orphan (H.get_previous_header bc.db header)

  -- The reorganisation branch. The header in question has no work yet in the source (a nil
  -- pointer, which GetCommonAncestor does not read), here 0.
  unfoldable pub reorg :
      Blockchain → BlockHeader → StoredHeader → StoredHeader → Result Error (Option StoredHeader)
  reorg bc header parent best =
      if b.block_hash best.header == b.block_hash parent.header
      then ok none
      else (get_common_ancestor bc.db
            (record { header = header; height = next_height parent.height; total_work = 0 }) best
          >>= λ sh. ok (some sh))

  unfoldable pub store :
      Blockchain → StoredHeader → Bool → Option StoredHeader → Result Error (Blockchain × Commit)
  store bc sh new_tip ancestor = do
    db ← H.put bc.db sh new_tip
    ok (
      record bc {
        db = db;
        updates = if bc.is_open && new_tip then bc.updates ++ (sh.height ∷ []) else bc.updates;
      },
      record { new_tip = new_tip; ancestor = ancestor; height = sh.height },
    )

  -- The part of CommitHeader behind its early returns.
  unfoldable pub extend :
      Blockchain → BlockHeader → StoredHeader → StoredHeader → Result Error (Blockchain × Commit)
  extend bc header parent best =
      let work = parent.total_work + b.calc_work header.bits in
      let sh : StoredHeader = record {
        header = header;
        height = next_height parent.height;
        total_work = work;
      } in
      if ltb best.total_work work
      then (reorg bc header parent best >>= λ ancestor. store bc sh true ancestor)
      else store bc sh false none

  -- Beside an error the source returns values that no caller reads, and changes nothing.
  unfoldable pub commit_header : Blockchain → BlockHeader → Result Error (Blockchain × Commit)
  commit_header bc header = do
    best ← H.get_best_header bc.db
    parent ← parent_of bc best header
    valid ← check_header bc header parent
    if not valid || b.block_hash best.header == b.block_hash header
        then ok (bc, ignored)
        else extend bc header parent best

  -- GetNPrevBlockHashes; an error ends the list.
  unfoldable pub hashes_back : H.Db → ℕ → StoredHeader → List ℕ
  hashes_back db zero sh = []
  hashes_back db (suc n) sh = elim (H.get_previous_header db sh.header) [
    | ok prev ↦ b.block_hash prev.header ∷ hashes_back db n prev
    | _ ↦ []
  ]

  unfoldable pub get_n_prev_block_hashes : Blockchain → ℕ → List ℕ
  get_n_prev_block_hashes bc n = elim (H.get_best_header bc.db) [
    | ok sh ↦ b.block_hash sh.header ∷ hashes_back bc.db (n - 1) sh
    | _ ↦ []
  ]

  -- The loop of GetBlockLocator, `left` entries before the limit of 500.
  unfoldable pub locator_loop : H.Db → ℕ → StoredHeader → ℕ → ℕ → List ℕ
  locator_loop db zero parent step start = []
  locator_loop db (suc left) parent step start =
      let step' = if leb 9 start then 2 * step else step in
      let start' = if leb 9 start then 0 else start in
      b.block_hash parent.header ∷ elim (back db step' parent) [
        | ok next ↦ locator_loop db left next step' (start' + 1)
        | _ ↦ []
      ]

  unfoldable pub get_block_locator : Blockchain → List ℕ
  get_block_locator bc = elim (H.get_best_header bc.db) [
    | ok best ↦ locator_loop bc.db 500 best 1 0
    | _ ↦ []
  ]

  -- The loop of Rollback: the height to cut at, and the header that becomes the tip.
  unfoldable pub rollback_loop :
      H.Db → ℕ → ℕ → ℕ → ℕ → StoredHeader → Result Error (ℕ × StoredHeader)
  rollback_loop db checkpoint_hash checkpoint_height t zero sh = ok (0, sh)
  rollback_loop db checkpoint_hash checkpoint_height t (suc n) sh =
      H.get_previous_header db sh.header >>= λ prev.
      let rest = rollback_loop db checkpoint_hash checkpoint_height t n prev in
      if b.block_hash prev.header == checkpoint_hash
      then ok (checkpoint_height, prev)
      else if ltb prev.header.timestamp t
      then ok (prev.height, prev)
      else rest

  -- Times are in seconds; `rounds` is 1,000,000,000 in the source, `genesis` the first header of
  -- the regression network.
  unfoldable pub rollback_from : ℕ → Blockchain → BlockHeader → ℕ → ℕ → Result Error Blockchain
  rollback_from rounds bc genesis now t =
      let checkpoint = get_checkpoint genesis now bc.params in
      H.get_best_header bc.db >>= λ sh.
      if ltb sh.header.timestamp t || b.block_hash sh.header == b.block_hash checkpoint.header
      then ok bc
      else (rollback_loop bc.db (b.block_hash checkpoint.header) checkpoint.height t rounds sh
          >>= λ target. H.delete_after bc.db target.0 >>= λ db.
              H.put db target.1 true >>= λ db'. ok (record bc { db = db' }))

  unfoldable pub rollback : Blockchain → BlockHeader → ℕ → ℕ → Result Error Blockchain
  rollback = rollback_from 1_000_000_000

  unfoldable pub best_block : Blockchain → Result Error StoredHeader
  best_block bc = H.get_best_header bc.db

  unfoldable pub get_header : Blockchain → ℕ → Result Error StoredHeader
  get_header bc hash = H.get_header bc.db hash

  unfoldable pub get_header_by_height : Blockchain → ℕ → Result Error StoredHeader
  get_header_by_height bc height = H.get_header_by_height bc.db height

  -- NewBlockchain on an open database: one without a height, or at height 0, gets the checkpoint.
  unfoldable pub needs_checkpoint : Result Error ℕ → Bool
  needs_checkpoint (ok h) = h == 0
  needs_checkpoint _ = true

  unfoldable pub new_blockchain : H.Db → Params → Bool → BlockHeader → ℕ → Result Error Blockchain
  unfolding needs_checkpoint
  new_blockchain db params is_open genesis now =
      let bc : Blockchain = record { params = params; db = db; updates = []; is_open = is_open } in
      let checkpoint = get_checkpoint genesis now params in
      if needs_checkpoint (H.get_height db)
      then (H.put db
            (record { header = checkpoint.header; height = checkpoint.height; total_work = 0 }) true
          >>= λ db'. ok (record bc { db = db' }))
      else ok bc
