-- ===== src/Chain/Difficulty/Bounds.antt =====
-- What the proof-of-work check accepts, and how far one adjustment moves the target.
use native.Mathlib.Nat.{mul-le-mul_left}
use spvwallet.Prelude.{
  ℕ, ◌+◌, ◌*◌, ◌/◌, ◌≤◌, ◌<◌, ◌≡◌, ◌↔◌, ◌⊎◌, refl, ap, true, ltb, arith, ltb→lt, Bool-cases, inl,
  inr,
}
use spvwallet.Prelude.Int.{ℤ, pos, negsuc, pos_part, sub_ℕ}
use spvwallet.Chain.Types.{BlockHeader, Params, Btcd}
use spvwallet.Chain.Difficulty.{
  meets_target, check_proof_of_work, clamp_duration, scale, clip, new_target, target_timespan,
  min_retarget_timespan, max_retarget_timespan, second,
}

meets_target_iff :
    (t : ℤ) (limit hash_num : ℕ)
    → (meets_target t limit hash_num ≡ true)
      ↔ ((n : ℕ) × (t ≡ pos n) × (0 < n) × (n ≤ limit) × (hash_num ≤ n))
unfolding meets_target
meets_target_iff (negsuc k) limit hash_num = (λ h. cc, λ (n, p, _, _, _). cc)
meets_target_iff (pos k) limit hash_num = (
  λ h. (k, refl, ground arith, ground arith, ground arith),
  λ (n, p, a, b, c). let e : k ≡ n = ap pos_part p in ground arith,
)

-- The proof of work is accepted exactly when the bits stand for a target above zero and at most
-- the limit of the network, and the hash of the header, read as a number, is at most that target.
pub check_proof_of_work_iff :
    (b : Btcd) (header : BlockHeader) (p : Params)
    → (check_proof_of_work b header p ≡ true) ↔ (
        (target : ℕ) × (b.compact_to_big header.bits ≡ pos target)
        × (0 < target)
        × (target ≤ p.pow_limit)
        × (b.hash_to_big (b.block_hash header) ≤ target))
unfolding check_proof_of_work
check_proof_of_work_iff b header p =
    meets_target_iff (b.compact_to_big header.bits) p.pow_limit
      (b.hash_to_big (b.block_hash header))

clamp_duration_bounds :
    (d : ℤ)
    → (min_retarget_timespan ≤ clamp_duration d) × (clamp_duration d ≤ max_retarget_timespan)
unfolding clamp_duration
clamp_duration_bounds (negsuc n) = omega arith
clamp_duration_bounds (pos n) = ground arith

quotient_bounds :
    (prev d : ℕ)
    → min_retarget_timespan ≤ d
    → d ≤ max_retarget_timespan
    → (prev * d / target_timespan ≤ 4 * prev) × (prev / 4 ≤ prev * d / target_timespan)
quotient_bounds prev d lo hi =
    let low : prev * min_retarget_timespan ≤ prev * d = mul-le-mul_left prev lo in
    let high : prev * d ≤ prev * max_retarget_timespan = mul-le-mul_left prev hi in
    (omega arith, omega arith)

-- One adjustment of an old target that is not negative, for any two timestamps: the new target is not
-- negative and within the limit, at most four times the old one, and at least a quarter of it
-- (rounded down) or the limit.
pub new_target_bounds :
    (start_time end_time prev limit : ℕ)
    → (target : ℕ) × (new_target start_time end_time (pos prev) limit ≡ pos target)
      × (target ≤ limit)
      × (target ≤ 4 * prev)
      × ((prev / 4 ≤ target) ⊎ (target ≡ limit))
unfolding new_target scale clip
new_target_bounds start_time end_time prev limit =
    let d = clamp_duration (sub_ℕ (end_time * second) (start_time * second)) in
    let (lo, hi) = clamp_duration_bounds (sub_ℕ (end_time * second) (start_time * second)) in
    let (high, low) = quotient_bounds prev d lo hi in
    elim (Bool-cases (ltb limit (prev * d / target_timespan))) [
      | inl over ↦ (limit, rw over, omega arith, omega (arith, ltb→lt _ _ over), inr refl)
      | inr within ↦ (prev * d / target_timespan, rw within, ground arith, high, inl low)
    ]

-- With timestamps two weeks apart a target within the limit stays as it is.
pub new_target-on_schedule :
    (start_time end_time prev limit : ℕ)
    → start_time + 14 * 24 * 3600 ≡ end_time
    → prev ≤ limit
    → new_target start_time end_time (pos prev) limit ≡ pos prev
unfolding new_target scale clip clamp_duration
new_target-on_schedule start_time end_time prev limit apart fits =
    let d : sub_ℕ (end_time * second) (start_time * second) ≡ pos target_timespan = ground arith in
    rw d (ground arith)
