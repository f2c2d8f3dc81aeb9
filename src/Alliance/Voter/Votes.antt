-- ===== src/Alliance/Voter/Votes.antt =====
-- What a vote changes, and that retried proofs are not lost.
use spvwallet.Prelude.{
  ℕ, ◌≤◌, ◌≡◌, ◌⊎◌, inl, inr, refl, sym, ap, subst, true, false, none, some, List, [], ◌∷◌, Result,
  ok, err, panic, stuck, ok-injective, Elem, Bool-cases,
}
use spvwallet.Chain.Types.{Error, Btcd}
use spvwallet.Chain.Headers.{Headers}
use spvwallet.Chain.Blockchain.{Blockchain}
use spvwallet.Alliance.Types.{BtcProof, Tx, Outside}
use spvwallet.Alliance.WaitingDb
use spvwallet.Alliance.WaitingDb.{WaitingDb}
use spvwallet.Alliance.Voter.{
  refused, passed, verify_tx, verify, Voter, Reply, accepted, cast_vote, vote, retry_height, resend,
  waiting_retry,
}
use spvwallet.Alliance.WaitingDb.Taking.{get_under_height_and_delete_splits}
use spvwallet.Prelude.{map, ◌++◌}

Elem-append_right : {A : Type 0} (a : A) (xs ys : List A) → Elem a ys → Elem a (xs ++ ys)
Elem-append_right a [] ys e = e
Elem-append_right a (x ∷ xs) ys e = inr (Elem-append_right a xs ys e)

Elem-proofs :
    (got : List (List ℕ × BtcProof)) (k : List ℕ) (p : BtcProof)
    → Elem (k, p) got
    → Elem p (map (λ e. e.1) got)
Elem-proofs [] k p h = absurd h
Elem-proofs (x ∷ got) k p (inl e) = inl (ap (λ (z : List ℕ × BtcProof). z.1) e)
Elem-proofs (x ∷ got) k p (inr e) = inr (Elem-proofs got k p e)

module _ (o : Outside) where
  open o use {bucket}

  voted_after :
      (w : WaitingDb o) (txid : List ℕ)
      → WaitingDb.check_if_voted o
          (WaitingDb.del_if_exist o (WaitingDb.mark_voted_tx o w txid) txid).0
          txid
        ≡ true
  unfolding WaitingDb.check_if_voted WaitingDb.mark_voted_tx WaitingDb.del_if_exist
  voted_after w txid =
      elim (Bool-cases (WaitingDb.check_if_waiting o (WaitingDb.mark_voted_tx o w txid) txid)) [
        | inl p ↦ rw p (rw (bucket.get-put_self w.voted txid (1 ∷ [])) refl)
        | inr p ↦ rw p (rw (bucket.get-put_self w.voted txid (1 ∷ [])) refl)
      ]

  gone_after :
      (w : WaitingDb o) (txid : List ℕ)
      → WaitingDb.check_if_waiting o (WaitingDb.del_if_exist o w txid).0 txid ≡ false
  unfolding WaitingDb.check_if_waiting WaitingDb.del_if_exist
  gone_after w txid = elim (Bool-cases (WaitingDb.check_if_waiting o w txid)) [
    | inl p ↦ rw p (rw (bucket.get-delete_self w.waiting txid) refl)
    | inr p ↦ rw p p
  ]

  module _ (b : Btcd) (H : Headers) where
    verify_voted :
        (bc : Blockchain b H) (w : WaitingDb o) (redeem : List ℕ) (item : BtcProof) (tx : Tx)
        → o.decode_tx item.tx ≡ some tx
        → WaitingDb.check_if_voted o w tx.hash ≡ true
        → verify o b H bc w redeem item ≡ ok (refused tx)
    unfolding verify verify_tx
    verify_voted bc w redeem item tx dec old = rw (dec, verify_tx) (rw old refl)

    -- After a round of Vote in which a proof passes and the alliance chain accepts the vote, the
    -- transaction waits no longer, and every later proof that decodes to a transaction with its hash
    -- is refused, whatever the chain of headers is then.
    pub vote-once :
        (bc bc' : Blockchain b H) (v v' : Voter o) (redeem : List ℕ) (item item' : BtcProof)
        (tx tx' : Tx)
        → verify o b H bc v.db redeem item ≡ ok (passed tx)
        → vote o b H bc v redeem item accepted ≡ ok v'
        → o.decode_tx item'.tx ≡ some tx'
        → tx'.hash ≡ tx.hash
        → (WaitingDb.check_if_waiting o v'.db tx.hash ≡ false)
          × (verify o b H bc' v'.db redeem item' ≡ ok (refused tx'))
    unfolding vote cast_vote
    vote-once bc bc' v v' redeem item item' tx tx' pass cast dec same =
        let done : record v {
          db = (WaitingDb.del_if_exist o (WaitingDb.mark_voted_tx o v.db tx.hash) tx.hash).0;
        }
            ≡ v' =
          ok-injective (rw pass at cast) in
        (
          subst (λ (x : Voter o). WaitingDb.check_if_waiting o x.db tx.hash ≡ false) done
              (gone_after (WaitingDb.mark_voted_tx o v.db tx.hash) tx.hash),
          verify_voted bc' v'.db redeem item' tx' dec (
              subst (λ k. WaitingDb.check_if_voted o v'.db k ≡ true) (sym same)
                (subst (λ (x : Voter o). WaitingDb.check_if_voted o x.db tx.hash ≡ true) done
                  (voted_after v.db tx.hash))),
        )

    -- A proof whose transaction does not decode makes the loop of Vote panic.
    pub vote-undecoded :
        (bc : Blockchain b H) (v : Voter o) (redeem : List ℕ) (item : BtcProof) (reply : Reply)
        → o.decode_tx item.tx ≡ none
        → vote o b H bc v redeem item reply ≡ panic
    unfolding vote cast_vote verify verify_tx
    vote-undecoded bc v redeem item reply bad = rw (bad, verify_tx) refl

    unchanged :
        (v : Voter o) (item : BtcProof) (reply : Reply) (tx : Tx)
        → cast_vote o b H v item reply (refused tx) ≡ ok v
    unfolding cast_vote
    unchanged v item reply tx = refl

    -- A proof whose transaction has a vote already changes nothing, whatever the answer would be.
    pub vote-voted :
        (bc : Blockchain b H) (v : Voter o) (redeem : List ℕ) (item : BtcProof) (tx : Tx)
        (reply : Reply)
        → o.decode_tx item.tx ≡ some tx
        → WaitingDb.check_if_voted o v.db tx.hash ≡ true
        → vote o b H bc v redeem item reply ≡ ok v
    unfolding vote
    vote-voted bc v redeem item tx reply dec old =
        rw (verify_voted bc v.db redeem item tx dec old) (unchanged v item reply tx)

  pub resend_cases :
      (v v' : Voter o) (r : Result Error (WaitingDb o × List (List ℕ × BtcProof)))
      → resend o v r ≡ ok v'
      → (v ≡ v')
        ⊎ ((db : WaitingDb o) × (got : List (List ℕ × BtcProof)) × (r ≡ ok (db, got))
            × (db ≡ v'.db)
            × (v.voting ++ map (λ e. e.1) got ≡ v'.voting))
  unfolding resend
  resend_cases v v' (ok (db, got)) h = inr (
    db,
    got,
    refl,
    ap (λ (x : Voter o). x.db) (ok-injective h),
    ap (λ (x : Voter o). x.voting) (ok-injective h),
  )
  resend_cases v v' (err x) h = inl (ok-injective h)
  resend_cases v v' panic h = cc
  resend_cases v v' stuck h = cc

  -- A round of WaitingRetry that returns loses no waiting proof that can be read: each still waits,
  -- or it is at or below the height of the round and is sent to be voted on.
  pub waiting_retry_keeps :
      (v v' : Voter o) (newh blks_to_wait : ℕ) (k bytes : List ℕ) (p : BtcProof)
      → waiting_retry o v newh blks_to_wait ≡ ok v'
      → bucket.get v.db.waiting k ≡ some bytes
      → o.deserialize bytes ≡ some p
      → (bucket.get v'.db.waiting k ≡ some bytes)
        ⊎ (Elem p v'.voting × (p.height ≤ retry_height newh blks_to_wait))
  unfolding waiting_retry
  waiting_retry_keeps v v' newh blks_to_wait k bytes p h stored read =
      elim (resend_cases v v'
        (WaitingDb.get_under_height_and_delete o v.db (retry_height newh blks_to_wait)) h) [
          | inl same ↦
              inl (subst (λ (x : Voter o). bucket.get x.db.waiting k ≡ some bytes) same stored)
          | inr (db, got, took, e, sent) ↦
              elim (get_under_height_and_delete_splits o v.db db (retry_height newh blks_to_wait)
                got k bytes p took stored read) [
                  | inl (inside, low, _) ↦ inr (
                    subst (Elem p) sent (
                        Elem-append_right p v.voting (map (λ x. x.1) got)
                          (Elem-proofs got k p inside)),
                    low,
                  )
                  | inr kept ↦
                      inl (subst (λ (x : WaitingDb o). bucket.get x.waiting k ≡ some bytes) e kept)
                ]
        ]
