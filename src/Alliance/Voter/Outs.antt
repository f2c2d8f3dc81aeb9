-- ===== src/Alliance/Voter/Outs.antt =====
-- What the checks on the outputs of a transaction accept.
use spvwallet.Prelude.{
  ℕ, ◌<◌, ◌==◌, ==_iff, ◌≡◌, ◌⊎◌, inl, inr, refl, ap, Bool, true, false, ◌&&◌, Option, none, some,
  List, [], ◌∷◌, ltb→lt, get_elem?, ok, ok-injective, Bool-cases,
}
use spvwallet.Prelude.Int.{ℤ, pos, negsuc, ltz}
use spvwallet.Alliance.Types.{
  TxOut, ScriptClass, multi_sig, script_hash, null_data, other_class, Outside, bytes_equal_sound,
}
use spvwallet.Alliance.Voter.{
  outs_ok, check_tx_outs, pays_us, pays_to, is_null_data, if_can_resolve, flag_covered, fee_covered,
  drop_3,
}

above_zero : (z : ℤ) → ltz (pos 0) z ≡ true → (v : ℕ) × (z ≡ pos v) × (0 < v)
above_zero (pos v) h = (v, refl, ltb→lt 0 v h)
above_zero (negsuc v) h = cc

and_true : (x y : Bool) → (x && y) ≡ true → (x ≡ true) × (y ≡ true)
and_true true y h = (refl, h)
and_true false y h = cc

module _ (o : Outside) where
  pays_to_sound :
      (p : Option (List ℕ)) (script : List ℕ) → pays_to o p script ≡ true → p ≡ some script
  unfolding pays_to
  pays_to_sound none script h = cc
  pays_to_sound (some x) script h = ap some (bytes_equal_sound x script h)

  class_cases :
      (c : ScriptClass) → (c ≡ multi_sig) ⊎ (c ≡ script_hash) ⊎ (c ≡ null_data) ⊎ (c ≡ other_class)
  class_cases multi_sig = inl refl
  class_cases script_hash = inr (inl refl)
  class_cases null_data = inr (inr (inl refl))
  class_cases other_class = inr (inr (inr refl))

  pays_us_sound :
      (redeem : List ℕ) (out : TxOut)
      → pays_us o redeem out ≡ true
      → ((o.script_class out.script ≡ multi_sig) × (redeem ≡ out.script))
        ⊎ ((o.script_class out.script ≡ script_hash)
            × (o.pay_to_script_hash redeem ≡ some out.script))
  unfolding pays_us
  pays_us_sound redeem out h = elim (class_cases (o.script_class out.script)) [
    | inl p ↦ inl (p, bytes_equal_sound redeem out.script (rw (p, pays_us) at h))
    | inr (inl p) ↦
        inr (p, pays_to_sound (o.pay_to_script_hash redeem) out.script (rw (p, pays_us) at h))
    | inr (inr (inl p)) ↦ cc (rw (p, pays_us) at h)
    | inr (inr (inr p)) ↦ cc (rw (p, pays_us) at h)
  ]

  null_data_sound : (c : ScriptClass) → is_null_data o c ≡ true → c ≡ null_data
  null_data_sound null_data h = refl
  null_data_sound multi_sig h = cc
  null_data_sound script_hash h = cc
  null_data_sound other_class h = cc

  fee_covered_sound :
      (f : Option ℤ) (value : ℤ)
      → fee_covered o f value ≡ true
      → (fee : ℤ) × (f ≡ some fee) × ((ltz fee (pos 0) ≡ true) ⊎ (ltz value fee ≡ false))
  unfolding fee_covered
  fee_covered_sound none value h = cc
  fee_covered_sound (some fee) value h = elim (Bool-cases (ltz value fee)) [
    | inr p ↦ (fee, refl, inr p)
    | inl p ↦ elim (Bool-cases (ltz fee (pos 0))) [
      | inl q ↦ (fee, refl, inl q)
      | inr q ↦ cc (rw (p, q) at h)
    ]
  ]

  flag_covered_sound :
      (flag : Option ℕ) (script : List ℕ) (value : ℤ)
      → flag_covered o flag script value ≡ ok true
      → (flag ≡ some 0x66) × (fee_covered o (o.args_fee (drop_3 script)) value ≡ true)
  unfolding flag_covered
  flag_covered_sound none script value h = cc
  flag_covered_sound (some flag) script value h = elim (Bool-cases (flag == 0x66)) [
    | inl p ↦ (ap some ((==_iff flag 0x66).0 p), ok-injective (rw p at h))
    | inr p ↦ cc (rw p at h)
  ]

  -- Outputs that pass: there are at least two; the first has a positive value and is the multi-sig
  -- script watched, or pays to its script hash; the second is NullData with the flag 0x66 in its
  -- third byte, and the fee read behind the flag is negative or no more than the first value.
  pub outs_ok_sound :
      (redeem : List ℕ) (outs : List TxOut)
      → outs_ok o redeem outs ≡ ok true
      → (first : TxOut) × (second : TxOut) × (rest : List TxOut) × (outs ≡ first ∷ second ∷ rest)
        × ((v : ℕ) × (first.value ≡ pos v) × (0 < v))
        × (((o.script_class first.script ≡ multi_sig) × (redeem ≡ first.script))
            ⊎ ((o.script_class first.script ≡ script_hash)
                × (o.pay_to_script_hash redeem ≡ some first.script)))
        × (o.script_class second.script ≡ null_data)
        × (get_elem? second.script 2 ≡ some 0x66)
        × ((fee : ℤ) × (o.args_fee (drop_3 second.script) ≡ some fee)
            × ((ltz fee (pos 0) ≡ true) ⊎ (ltz first.value fee ≡ false)))
  unfolding outs_ok check_tx_outs if_can_resolve
  outs_ok_sound redeem [] h = cc
  outs_ok_sound redeem (x ∷ []) h = cc
  outs_ok_sound redeem (first ∷ second ∷ rest) h =
      elim (Bool-cases (
        ltz (pos 0) first.value
        && pays_us o redeem first
        && is_null_data o (o.script_class second.script))) [
          | inr bad ↦ cc (rw bad at h)
          | inl good ↦
              let (a, b) = and_true _ _ good in
              let (c, d) = and_true _ _ a in
              let (flag, fee) =
                flag_covered_sound (get_elem? second.script 2) second.script first.value
                  (rw good at h) in
              (
                first,
                second,
                rest,
                refl,
                above_zero first.value c,
                pays_us_sound redeem first d,
                null_data_sound _ b,
                flag,
                fee_covered_sound (o.args_fee (drop_3 second.script)) first.value fee,
              )
        ]
