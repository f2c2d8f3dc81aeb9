-- ===== src/Alliance/Session.antt =====
-- The goroutines of the package alliance together, over one database: Listen, Vote with its
-- goroutines, WaitingRetry and Signing take turns, and the chain of headers changes meanwhile.
pub mod Cast
use spvwallet.Prelude.{
  ℕ, ◌≡◌, ◌≢◌, refl, sym, ap, subst, ◌∙◌, ◌⊎◌, inl, inr, Bool, true, false, Option, none, some,
  List, [], ◌∷◌, map, Result, ok, err, panic, stuck, Elem, get_elem?, remove_at, >>=-eq-ok,
  ok-injective, Bool-cases,
}
use spvwallet.Chain.Types.{Error, Btcd}
use spvwallet.Chain.Headers.{Headers}
use spvwallet.Chain.Blockchain.{Blockchain}
use spvwallet.Alliance.Types.{BtcProof, Tx, Outside, bytes_discrete}
use spvwallet.Alliance.WaitingDb
use spvwallet.Alliance.WaitingDb.{WaitingDb, check_if_voted}
use spvwallet.Alliance.Observer.{ToSignItem, Event, Settings, Observer, tick, settle, saves}
use spvwallet.Alliance.Voter.{
  Voter, Verdict, passed, refused, less_confirmed, undecoded, Reply, accepted, post_error,
  other_error, verify, cast_vote, put_waiting, waiting_retry, resend, retry_height,
}
use spvwallet.Alliance.Voter.Verify.{Proven, verify-passed}
use spvwallet.Alliance.Signer.{SignLib, Signer, signing}

-- No element stands twice.
abbrev pub Distinct : {A : Type 0} → List A → Type 0
Distinct [] = Unit
Distinct (x ∷ xs) = ¬ (Elem x xs) × Distinct xs

module _ (o : Outside) (b : Btcd) (H : Headers) (S : SignLib) where
  -- A vote that the alliance chain accepted: on which proof, for which transaction, and by which
  -- headers.
  pub record CastVote : Type 0 where
    pub chain : Blockchain b H
    pub item : BtcProof
    pub tx : Tx

  -- `cast` lists the accepted votes, the latest first.
  pub record Service : Type 0 where
    pub chain : Blockchain b H
    pub db : WaitingDb o
    pub voting : List BtcProof
    pub putting : List (List ℕ × BtcProof)
    pub signer : Signer
    pub top : ℕ
    pub cast : List CastVote

  abbrev pub voter_of : Service → List BtcProof → Voter o
  voter_of s voting = record { db = s.db; voting = voting; putting = s.putting }

  abbrev pub with_voter : Service → Voter o → Service
  with_voter s v = record s { db = v.db; voting = v.voting; putting = v.putting }

  abbrev pub observer_of : Service → Observer o
  observer_of s = record { top = s.top; db = s.db; voting = s.voting; signing = s.signer.txchan }

  abbrev pub with_observer : Service → Observer o → Service
  with_observer s ob = record s {
    top = ob.top;
    db = ob.db;
    voting = ob.voting;
    signer = record s.signer { txchan = ob.signing };
  }

  abbrev pub add_vote : CastVote → Reply → List CastVote → List CastVote
  add_vote c accepted cs = c ∷ cs
  add_vote c post_error cs = cs
  add_vote c other_error cs = cs

  abbrev pub count : Blockchain b H → BtcProof → Reply → Verdict → List CastVote → List CastVote
  count bc item reply undecoded cs = cs
  count bc item reply (refused tx) cs = cs
  count bc item reply (less_confirmed tx) cs = cs
  count bc item reply (passed tx) cs =
      add_vote (record { chain = bc; item = item; tx = tx }) reply cs

  pub data Step (redeem : List ℕ) : Service → Service → Type 0 where
    observes :
        {s : Service} (settings : Settings) (events : ℕ → List Event) (new_top : ℕ)
        (ob : Observer o)
        → tick o settings events (observer_of s) new_top ≡ ok ob
        → Step redeem s (with_observer s ob)
    votes :
        {s : Service} (item : BtcProof) (rest : List BtcProof) (reply : Reply) (verdict : Verdict)
        (v : Voter o)
        → s.voting ≡ item ∷ rest
        → verify o b H s.chain s.db redeem item ≡ ok verdict
        → cast_vote o b H (voter_of s rest) item reply verdict ≡ ok v
        → Step redeem s (record (with_voter s v) { cast = count s.chain item reply verdict s.cast })
    puts :
        {s : Service} (n : ℕ) (txid : List ℕ) (item : BtcProof)
        → get_elem? s.putting n ≡ some (txid, item)
        → Step redeem s (
            with_voter s (
              put_waiting o
                (record (voter_of s s.voting) { putting = remove_at n s.putting })
                txid
                item))
    retries :
        {s : Service} (newh blks_to_wait : ℕ) (v : Voter o)
        → waiting_retry o (voter_of s s.voting) newh blks_to_wait ≡ ok v
        → Step redeem s (with_voter s v)
    signs :
        {s : Service} (reply : Reply)
        → Step redeem s (record s { signer = signing S s.signer reply })
    follows : {s : Service} (bc : Blockchain b H) → Step redeem s (record s { chain = bc })

  pub data Reach (redeem : List ℕ) (first : Service) : Service → Type 0 where
    here : Reach redeem first first
    next : {s s' : Service} → Reach redeem first s → Step redeem s s' → Reach redeem first s'
