-- ===== src/Alliance/Signer.antt =====
-- Signer of alliance/signer.go: the signatures of a transaction, and the loop of Signing.
pub mod Rounds
use spvwallet.Prelude.{ℕ, zero, suc, ◌+◌, Option, none, some, List, [], ◌∷◌, ◌++◌}
use spvwallet.Alliance.Types.{Tx}
use spvwallet.Alliance.Observer.{ToSignItem}
use spvwallet.Alliance.Voter.{Reply, accepted, post_error, other_error}

-- What btcd knows of a transaction and does with the key of the signer: the number of its inputs, and
-- the signature of one of them.
pub record SignLib : Type 0 where
  pub inputs : Tx → ℕ
  pub raw_tx_in_signature : Tx → ℕ → List ℕ → Option (List ℕ)

-- A call of BtcMultiSign: the hash of the transaction and the signatures.
pub record MultiSign : Type 0 where
  pub tx_hash : List ℕ
  pub sigs : List (List ℕ)

-- `txchan` is what was sent on the channel and not yet received.
pub record Signer : Type 0 where
  pub txchan : List ToSignItem
  pub posted : List MultiSign

abbrev pub add_sig : Option (List ℕ) → Option (List (List ℕ)) → Option (List (List ℕ))
add_sig (some sig) (some rest) = some (sig ∷ rest)
add_sig _ _ = none

module _ (S : SignLib) where
  -- The loop of getSigs, from input `i` on.
  unfoldable pub sigs_from : Tx → List ℕ → ℕ → ℕ → Option (List (List ℕ))
  sigs_from tx redeem i zero = some []
  sigs_from tx redeem i (suc left) =
      add_sig (S.raw_tx_in_signature tx i redeem) (sigs_from tx redeem (i + 1) left)

  unfoldable pub get_sigs : Tx → List ℕ → Option (List (List ℕ))
  unfolding sigs_from
  get_sigs tx redeem = sigs_from tx redeem 0 (S.inputs tx)

  -- An item that cannot be posted is sent again; any other error drops it.
  abbrev pub after_post : Signer → ToSignItem → Reply → Signer
  after_post s item accepted = s
  after_post s item post_error = record s { txchan = s.txchan ++ (item ∷ []) }
  after_post s item other_error = s

  unfoldable pub post_sigs : Signer → ToSignItem → Reply → Option (List (List ℕ)) → Signer
  post_sigs s item reply none = s
  post_sigs s item reply (some sigs) =
      after_post
        (record s { posted = s.posted ++ (record { tx_hash = item.mtx.hash; sigs = sigs } ∷ []) })
        item reply

  -- A round of Signing, which waits where the channel is empty.
  unfoldable pub receive : Signer → Reply → List ToSignItem → Signer
  unfolding post_sigs
  receive s reply [] = s
  receive s reply (item ∷ rest) =
      post_sigs (record s { txchan = rest }) item reply (get_sigs item.mtx item.redeem)

  unfoldable pub signing : Signer → Reply → Signer
  unfolding receive
  signing s reply = receive s reply s.txchan
