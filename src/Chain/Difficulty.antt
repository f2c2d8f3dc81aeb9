-- ===== src/Chain/Difficulty.antt =====
-- The proof-of-work checks of chain/blockchain.go that need no database: checkProofOfWork and
-- calcDiffAdjust.
pub mod Bounds
use spvwallet.Prelude.{ℕ, ◌+◌, ◌-◌, ◌*◌, ◌/◌, ◌==◌, Bool, true, false, ltb, leb, if◌then◌else◌}
use spvwallet.Prelude.Int.{ℤ, pos, negsuc, sub_ℕ}
use spvwallet.Chain.Types.{BlockHeader, Params, Btcd}

-- Durations are in nanoseconds.
abbrev pub second : ℕ
second = 1_000_000_000

abbrev pub target_timespan : ℕ
target_timespan = 14 * 24 * 3600 * second

abbrev pub target_spacing : ℕ
target_spacing = 10 * 60 * second

-- 2016
abbrev pub epoch_length : ℕ
epoch_length = target_timespan / target_spacing

abbrev pub max_diff_adjust : ℕ
max_diff_adjust = 4

abbrev pub min_retarget_timespan : ℕ
min_retarget_timespan = target_timespan / max_diff_adjust

abbrev pub max_retarget_timespan : ℕ
max_retarget_timespan = target_timespan * max_diff_adjust

-- The target that the bits of a header claim, tested against the limit and the hash.
unfoldable pub meets_target : ℤ → ℕ → ℕ → Bool
meets_target (negsuc n) limit hash_num = false
meets_target (pos target) limit hash_num =
    if target == 0
    then false
    else if ltb limit target
    then false
    else if ltb target hash_num
    then false
    else true

unfoldable pub check_proof_of_work : Btcd → BlockHeader → Params → Bool
unfolding meets_target
check_proof_of_work b header p =
    meets_target (b.compact_to_big header.bits) p.pow_limit (b.hash_to_big (b.block_hash header))

-- A duration, cut off at both ends.
unfoldable pub clamp_duration : ℤ → ℕ
clamp_duration (negsuc n) = min_retarget_timespan
clamp_duration (pos duration) =
    if ltb duration min_retarget_timespan
    then min_retarget_timespan
    else if ltb max_retarget_timespan duration
    then max_retarget_timespan
    else duration

-- `Mul` and `Div` of big.Int; `Div` rounds down, also below zero.
unfoldable pub scale : ℤ → ℕ → ℤ
scale (pos target) duration = pos (target * duration / target_timespan)
scale (negsuc n) duration =
    negsuc (((n + 1) * duration + (target_timespan - 1)) / target_timespan - 1)

unfoldable pub clip : ℤ → ℕ → ℤ
clip (negsuc n) limit = negsuc n
clip (pos target) limit = if ltb limit target then pos limit else pos target

-- `UnixNano` of a time in seconds.
unfoldable pub new_target : ℕ → ℕ → ℤ → ℕ → ℤ
unfolding clamp_duration scale clip
new_target start_time end_time prev_target limit =
    clip (scale prev_target (clamp_duration (sub_ℕ (end_time * second) (start_time * second))))
      limit

unfoldable pub calc_diff_adjust : Btcd → BlockHeader → BlockHeader → Params → ℕ
unfolding new_target
calc_diff_adjust b start end p =
    b.big_to_compact
      (new_target start.timestamp end.timestamp (b.compact_to_big end.bits) p.pow_limit)
