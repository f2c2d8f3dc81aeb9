-- ===== src/Alliance/Voter/Verify.antt =====
-- What a proof that passes verify has, and the count of its confirmations.
use spvwallet.Prelude.{
  ℕ, ◌+◌, ◌-◌, ◌%◌, ◌^◌, ◌≤◌, ◌<◌, ==_iff, ◌≡◌, ◌↔◌, inl, inr, refl, sym, ap, subst, ◌∙◌, Bool,
  true, false, Option, none, some, List, [], ◌∷◌, Result, ok, err, panic, stuck, >>=-eq-ok,
  ok-injective, Elem, Bool-cases, Option-cases, arith,
}
use spvwallet.Chain.Types.{StoredHeader, Error, Btcd}
use spvwallet.Chain.Headers.{Headers}
use spvwallet.Chain.Blockchain
use spvwallet.Chain.Blockchain.{Blockchain}
use spvwallet.Alliance.Types.{BtcProof, Tx, MerkleBlock, Outside, bytes_equal, bytes_equal_sound}
use spvwallet.Alliance.WaitingDb
use spvwallet.Alliance.WaitingDb.{WaitingDb}
use spvwallet.Alliance.Voter.{
  passed, unconfirmed, is_member, outs_ok, proof_root, root_matches, proven, judge, weigh,
  verify_tx, verify,
}

-- With a number of blocks to wait from 1 to 2 ^ 32, and a best height on uint32: a proof counts as
-- confirmed exactly when its block and those above it up to the best height are at least that many.
pub unconfirmed_iff :
    (best : ℕ) (item : BtcProof)
    → best < 2 ^ 32
    → 1 ≤ item.blocks_to_wait
    → item.blocks_to_wait ≤ 2 ^ 32
    → (unconfirmed best item ≡ false) ↔ (item.height + item.blocks_to_wait ≤ best + 1)
unfolding unconfirmed
unconfirmed_iff best item fits one few =
    let e : (item.blocks_to_wait + 2 ^ 64 - 1) % 2 ^ 64 % 2 ^ 32 ≡ item.blocks_to_wait - 1 =
      omega arith in
    rw e (ground arith)

is_member-Elem :
    (txid : List ℕ) (hashes : List (List ℕ)) → is_member txid hashes ≡ true → Elem txid hashes
unfolding is_member
is_member-Elem txid [] h = cc
is_member-Elem txid (x ∷ xs) h = elim (Bool-cases (bytes_equal x txid)) [
  | inl p ↦ inl (sym (bytes_equal_sound x txid p))
  | inr p ↦ inr (is_member-Elem txid xs (rw p at h))
]

module _ (o : Outside) where
  proof_root_sound :
      (txid : List ℕ) (m : Option MerkleBlock) (root : ℕ)
      → proof_root o txid m ≡ some root
      → (block : MerkleBlock) × (m ≡ some block)
        × (block.root ≡ some root)
        × (block.bad_tree ≡ false)
        × Elem txid block.matches
  unfolding proof_root
  proof_root_sound txid none root h = cc
  proof_root_sound txid (some block) root h = elim (Bool-cases block.bad_tree) [
    | inl bad ↦ cc (rw bad at h)
    | inr good ↦ elim (Bool-cases (is_member txid block.matches)) [
      | inr out ↦ cc (rw (good, out) at h)
      | inl inside ↦
          (block, refl, rw (good, inside) at h, good, is_member-Elem txid block.matches inside)
    ]
  ]

  root_matches_sound :
      (root : ℕ) (r : Result Error StoredHeader)
      → root_matches o root r ≡ ok true
      → (sh : StoredHeader) × (r ≡ ok sh) × (root ≡ sh.header.merkle_root)
  unfolding root_matches
  root_matches_sound root (ok sh) h =
      (sh, refl, (==_iff root sh.header.merkle_root).0 (ok-injective h))
  root_matches_sound root (err x) h = cc
  root_matches_sound root panic h = cc
  root_matches_sound root stuck h = cc

  module _ (b : Btcd) (H : Headers) where
    -- The demands that a proof meets in its block.
    pub record Proven (bc : Blockchain b H) (redeem : List ℕ) (item : BtcProof) (tx : Tx)
        : Type 0 where
      pub block : MerkleBlock
      pub root : ℕ
      pub sh : StoredHeader
      pub decodes : o.decode_block item.proof ≡ some block
      pub leads : block.root ≡ some root
      pub sound : block.bad_tree ≡ false
      pub listed : Elem tx.hash block.matches
      pub header : Blockchain.get_header_by_height b H bc item.height ≡ ok sh
      pub same_root : root ≡ sh.header.merkle_root
      pub pays : outs_ok o redeem tx.outs ≡ ok true

    proven_sound :
        (bc : Blockchain b H) (redeem : List ℕ) (item : BtcProof) (tx : Tx) (r : Option ℕ)
        → proven o b H bc redeem item tx r ≡ ok true
        → (root : ℕ) × (sh : StoredHeader) × (r ≡ some root)
          × (outs_ok o redeem tx.outs ≡ ok true)
          × (Blockchain.get_header_by_height b H bc item.height ≡ ok sh)
          × (root ≡ sh.header.merkle_root)
    unfolding proven
    proven_sound bc redeem item tx none h = cc
    proven_sound bc redeem item tx (some root) h =
        let (outs, p, q) = >>=-eq-ok (outs_ok o redeem tx.outs) _ h in
        elim (Bool-cases outs) [
          | inr bad ↦ cc (rw bad at q)
          | inl good ↦
              let (sh, found, same) =
                root_matches_sound root (Blockchain.get_header_by_height b H bc item.height)
                  (rw good at q) in
              (root, sh, refl, p ∙ ap ok good, found, same)
        ]

    judge_passed :
        (good : Bool) (tx tx' : Tx) → judge o b H good tx ≡ passed tx' → (good ≡ true) × (tx ≡ tx')
    unfolding judge
    judge_passed true tx tx' h = (refl, cc)
    judge_passed false tx tx' h = cc

    weigh_passed :
        (bc : Blockchain b H) (redeem : List ℕ) (item : BtcProof) (tx tx' : Tx)
        (r : Result Error StoredHeader)
        → weigh o b H bc redeem item tx r ≡ ok (passed tx')
        → (best : StoredHeader) × (r ≡ ok best)
          × (unconfirmed best.height item ≡ false)
          × (tx ≡ tx')
          × Proven bc redeem item tx
    unfolding weigh
    weigh_passed bc redeem item tx tx' (err x) h = cc
    weigh_passed bc redeem item tx tx' panic h = cc
    weigh_passed bc redeem item tx tx' stuck h = cc
    weigh_passed bc redeem item tx tx' (ok best) h =
        elim (Bool-cases (unconfirmed best.height item)) [
          | inl early ↦ cc (rw early at h)
          | inr late ↦
              let (good, p, q) =
                >>=-eq-ok
                  (proven o b H bc redeem item tx
                    (proof_root o tx.hash (o.decode_block item.proof)))
                  _ (rw late at h) in
              let (yes_good, same) = judge_passed good tx tx' (ok-injective q) in
              let (root, sh, r, outs, found, equal) =
                proven_sound bc redeem item tx _ (p ∙ ap ok yes_good) in
              let (block, dec, leads, sound, listed) =
                proof_root_sound tx.hash (o.decode_block item.proof) root r in
              (
                best,
                refl,
                late,
                same,
                record {
                  block = block;
                  root = root;
                  sh = sh;
                  decodes = dec;
                  leads = leads;
                  sound = sound;
                  listed = listed;
                  header = found;
                  same_root = equal;
                  pays = outs;
                },
              )
        ]

    -- A proof that passes decodes to a transaction that has no vote yet, is confirmed at the height
    -- of the best header, and is proven: its Merkle proof decodes and is not bad, lists the
    -- transaction, and leads to the Merkle root of the header that is found at its height, and the
    -- outputs pass their checks.
    pub verify-passed :
        (bc : Blockchain b H) (w : WaitingDb o) (redeem : List ℕ) (item : BtcProof) (tx : Tx)
        → verify o b H bc w redeem item ≡ ok (passed tx)
        → (o.decode_tx item.tx ≡ some tx)
          × (WaitingDb.check_if_voted o w tx.hash ≡ false)
          × ((best : StoredHeader) × (Blockchain.best_block b H bc ≡ ok best)
              × (unconfirmed best.height item ≡ false))
          × Proven bc redeem item tx
    unfolding verify verify_tx
    verify-passed bc w redeem item tx h = elim (Option-cases (o.decode_tx item.tx)) [
      | inl bad ↦ cc (rw (bad, verify_tx) at h)
      | inr (tx', good) ↦ elim (Bool-cases (WaitingDb.check_if_voted o w tx'.hash)) [
        | inl old ↦ cc (rw (good, verify_tx, old) at h)
        | inr new ↦
            let (best, top, late, same, shown) =
              weigh_passed bc redeem item tx' tx (Blockchain.best_block b H bc)
                (rw (good, verify_tx, new) at h) in
            (
              good ∙ ap some same,
              subst (λ (x : Tx). WaitingDb.check_if_voted o w x.hash ≡ false) same new,
              (best, top, late),
              subst (Proven bc redeem item) same shown,
            )
      ]
    ]
