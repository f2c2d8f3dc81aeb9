-- ===== src/Alliance/Voter.antt =====
-- Voter of alliance/voter.go, with ifCanResolve of alliance/utils.go: the checks on a proof, the
-- body of the loop of Vote, and the retry of waiting proofs.
pub mod Outs
pub mod Verify
pub mod Votes
use spvwallet.Prelude.{
  ℕ, zero, suc, ◌+◌, ◌-◌, ◌%◌, ◌^◌, ◌==◌, Bool, true, false, not, ◌&&◌, ◌||◌, Option, none, some,
  List, [], ◌∷◌, ◌++◌, map, ltb, leb, if◌then◌else◌, get_elem?, Result, ok, err, panic, stuck,
  ◌>>=◌,
}
use spvwallet.Prelude.Int.{ℤ, pos, negsuc, ltz}
use spvwallet.Chain.Types.{StoredHeader, Error, Btcd}
use spvwallet.Chain.Headers.{Headers}
use spvwallet.Chain.Blockchain
use spvwallet.Chain.Blockchain.{Blockchain}
use spvwallet.Alliance.Types.{
  BtcProof, TxOut, Tx, MerkleBlock, ScriptClass, multi_sig, script_hash, null_data, Outside,
  bytes_equal,
}
use spvwallet.Alliance.WaitingDb
use spvwallet.Alliance.WaitingDb.{WaitingDb}

-- The script[3:] of a script.
abbrev pub drop_3 : List ℕ → List ℕ
drop_3 (_ ∷ _ ∷ _ ∷ rest) = rest
drop_3 _ = []

-- What verify returns: the transaction where it decodes, and which kind of error.
pub data Verdict : Type 0 where
  undecoded : Verdict
  refused : Tx → Verdict
  less_confirmed : Tx → Verdict
  passed : Tx → Verdict

-- `besth-item.Height < uint32(item.BlocksToWait-1)`, where the height is reached.
unfoldable pub unconfirmed : ℕ → BtcProof → Bool
unconfirmed best item =
    ltb best item.height
    || ltb (best - item.height) ((item.blocks_to_wait + 2 ^ 64 - 1) % 2 ^ 64 % 2 ^ 32)

unfoldable pub is_member : List ℕ → List (List ℕ) → Bool
is_member txid [] = false
is_member txid (hash ∷ rest) = bytes_equal hash txid || is_member txid rest

-- What the alliance chain answers to a vote.
pub data Reply : Type 0 where
  accepted post_error other_error : Reply

-- `newh - uint32(v.blksToWait) + 1` on uint32.
unfoldable pub retry_height : ℕ → ℕ → ℕ
retry_height newh blks_to_wait = (newh + 2 ^ 32 - blks_to_wait % 2 ^ 32 + 1) % 2 ^ 32

module _ (o : Outside) where
  -- `voting` is what was sent on the channel and not yet received; `putting` is what goroutines
  -- have still to put into the database.
  pub record Voter : Type 0 where
    pub db : WaitingDb o
    pub voting : List BtcProof
    pub putting : List (List ℕ × BtcProof)

  -- The flag of OP_RETURN_SCRIPT_FLAG is 0x66; a script of fewer than three bytes panics.
  unfoldable pub fee_covered : Option ℤ → ℤ → Bool
  fee_covered none value = false
  fee_covered (some fee) value = not (ltz value fee && not (ltz fee (pos 0)))

  unfoldable pub flag_covered : Option ℕ → List ℕ → ℤ → Result Error Bool
  unfolding fee_covered
  flag_covered none script value = panic
  flag_covered (some flag) script value =
      if flag == 0x66 then ok (fee_covered (o.args_fee (drop_3 script)) value) else ok false

  unfoldable pub if_can_resolve : TxOut → ℤ → Result Error Bool
  unfolding flag_covered
  if_can_resolve param_output value =
      flag_covered (get_elem? param_output.script 2) param_output.script value

  unfoldable pub pays_to : Option (List ℕ) → List ℕ → Bool
  pays_to none script = false
  pays_to (some h) script = bytes_equal h script

  unfoldable pub pays_us : List ℕ → TxOut → Bool
  unfolding pays_to
  pays_us redeem out = elim (o.script_class out.script) [
    | multi_sig ↦ bytes_equal redeem out.script
    | script_hash ↦ pays_to (o.pay_to_script_hash redeem) out.script
    | _ ↦ false
  ]

  abbrev pub is_null_data : ScriptClass → Bool
  is_null_data null_data = true
  is_null_data _ = false

  unfoldable pub check_tx_outs : List ℕ → List TxOut → Bool
  unfolding pays_us
  check_tx_outs redeem (first ∷ second ∷ _) =
      ltz (pos 0) first.value && pays_us redeem first && is_null_data (o.script_class second.script)
  check_tx_outs redeem _ = false

  -- checkTxOuts and then ifCanResolve on the first two outputs.
  unfoldable pub outs_ok : List ℕ → List TxOut → Result Error Bool
  unfolding check_tx_outs if_can_resolve
  outs_ok redeem (first ∷ second ∷ rest) =
      if check_tx_outs redeem (first ∷ second ∷ rest)
      then if_can_resolve second first.value
      else ok false
  outs_ok redeem _ = ok false

  -- The root that a proof of the transaction leads to, unless the proof is bad.
  unfoldable pub proof_root : List ℕ → Option MerkleBlock → Option ℕ
  unfolding is_member
  proof_root txid none = none
  proof_root txid (some block) =
      if block.bad_tree || not (is_member txid block.matches) then none else block.root

  unfoldable pub root_matches : ℕ → Result Error StoredHeader → Result Error Bool
  root_matches root (ok sh) = ok (root == sh.header.merkle_root)
  root_matches root (err x) = ok false
  root_matches root panic = panic
  root_matches root stuck = stuck

  module _ (b : Btcd) (H : Headers) where
    unfoldable pub proven : Blockchain b H → List ℕ → BtcProof → Tx → Option ℕ → Result Error Bool
    unfolding outs_ok root_matches
    proven bc redeem item tx none = ok false
    proven bc redeem item tx (some root) = do
      outs ← outs_ok redeem tx.outs
      if outs
          then root_matches root (Blockchain.get_header_by_height b H bc item.height)
          else ok false

    unfoldable pub judge : Bool → Tx → Verdict
    judge true tx = passed tx
    judge false tx = refused tx

    unfoldable pub weigh :
        Blockchain b H → List ℕ → BtcProof → Tx → Result Error StoredHeader → Result Error Verdict
    unfolding unconfirmed proof_root proven judge
    weigh bc redeem item tx (ok best) =
        if unconfirmed best.height item
        then ok (less_confirmed tx)
        else (proven bc redeem item tx (proof_root tx.hash (o.decode_block item.proof)) >>= λ good.
            ok (judge good tx))
    weigh bc redeem item tx (err x) = ok (refused tx)
    weigh bc redeem item tx panic = panic
    weigh bc redeem item tx stuck = stuck

    unfoldable pub verify_tx :
        Blockchain b H → WaitingDb o → List ℕ → BtcProof → Option Tx → Result Error Verdict
    unfolding weigh
    verify_tx bc w redeem item none = ok undecoded
    verify_tx bc w redeem item (some tx) =
        if WaitingDb.check_if_voted o w tx.hash
        then ok (refused tx)
        else weigh bc redeem item tx (Blockchain.best_block b H bc)

    unfoldable pub verify : Blockchain b H → WaitingDb o → List ℕ → BtcProof → Result Error Verdict
    unfolding verify_tx
    verify bc w redeem item = verify_tx bc w redeem item (o.decode_tx item.tx)

    -- Vote takes the hash of the transaction before it looks at the error, so that a proof without
    -- a transaction panics.
    unfoldable pub cast_vote : Voter → BtcProof → Reply → Verdict → Result Error Voter
    cast_vote v item reply undecoded = panic
    cast_vote v item reply (refused tx) = ok v
    cast_vote v item reply (less_confirmed tx) =
        ok (record v { putting = v.putting ++ ((tx.hash, item) ∷ []) })
    cast_vote v item reply (passed tx) = elim reply [
      | accepted ↦ ok (record v {
        db = (WaitingDb.del_if_exist o (WaitingDb.mark_voted_tx o v.db tx.hash) tx.hash).0;
      })
      | post_error ↦ ok (record v { voting = v.voting ++ (item ∷ []) })
      | other_error ↦ ok v
    ]

    -- One round of Vote on a proof from the channel.
    unfoldable pub vote : Blockchain b H → Voter → List ℕ → BtcProof → Reply → Result Error Voter
    unfolding cast_vote
    vote bc v redeem item reply =
        verify bc v.db redeem item >>= λ verdict. cast_vote v item reply verdict

  -- The goroutine that puts a proof into the database, unless one waits there.
  unfoldable pub put_waiting : Voter → List ℕ → BtcProof → Voter
  put_waiting v txid item =
      if WaitingDb.check_if_waiting o v.db txid
      then v
      else record v { db = WaitingDb.put o v.db txid item }

  -- One round of WaitingRetry on a new height. An error of the database changes nothing.
  unfoldable pub resend :
      Voter → Result Error (WaitingDb o × List (List ℕ × BtcProof)) → Result Error Voter
  resend v (ok (db, got)) = ok (record v { db = db; voting = v.voting ++ map (λ e. e.1) got })
  resend v (err x) = ok v
  resend v panic = panic
  resend v stuck = stuck

  unfoldable pub waiting_retry : Voter → ℕ → ℕ → Result Error Voter
  unfolding resend
  waiting_retry v newh blks_to_wait =
      resend v (WaitingDb.get_under_height_and_delete o v.db (retry_height newh blks_to_wait))
