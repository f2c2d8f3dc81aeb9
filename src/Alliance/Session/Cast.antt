-- ===== src/Alliance/Session/Cast.antt =====
-- In every run of the package no transaction is voted for twice, and each vote had its proof.
use spvwallet.Prelude.{
  ℕ, ◌+◌, ◌-◌, ◌^◌, ◌==◌, ◌≡◌, refl, sym, ap, subst, ◌∙◌, inl, inr, Bool, true, false, some, List,
  [], ◌∷◌, map, if◌then◌else◌, Result, ok, Elem, All, remove_at, >>=-eq-ok, ok-injective,
  Bool-cases,
}
use spvwallet.Chain.Types.{StoredHeader, Error, Btcd}
use spvwallet.Chain.Headers.{Headers}
use spvwallet.Chain.Blockchain
use spvwallet.Alliance.Types.{BtcProof, Outside, bytes_discrete}
use spvwallet.Alliance.WaitingDb
use spvwallet.Alliance.WaitingDb.{WaitingDb, check_if_voted}
use spvwallet.Alliance.Observer.{
  Event, Captured, Settings, Observer, first_block, scan, saves, settle, tick,
}
use spvwallet.Alliance.Voter.{
  Voter, Verdict, passed, refused, less_confirmed, undecoded, Reply, accepted, post_error,
  other_error, unconfirmed, verify, cast_vote, put_waiting, waiting_retry, retry_height,
}
use spvwallet.Alliance.Voter.Verify.{Proven, verify-passed}
use spvwallet.Alliance.Voter.Votes.{resend_cases}
use spvwallet.Alliance.Signer.{SignLib}
use spvwallet.Alliance.Session.{
  observer_of, Distinct, CastVote, Service, voter_of, with_voter, count, Step, observes, votes,
  puts, retries, signs, follows, Reach, here, next,
}

module _ (o : Outside) (b : Btcd) (H : Headers) (S : SignLib) where
  abbrev pub hashes : List (CastVote o b H S) → List (List ℕ)
  hashes cs = map (λ c. c.tx.hash) cs

  abbrev IsVoted : WaitingDb o → List ℕ → Type 0
  IsVoted w k = check_if_voted o w k ≡ true

  -- A later database has the votes of an earlier one.
  abbrev Keeps : WaitingDb o → WaitingDb o → Type 0
  Keeps w w' = (k : List ℕ) → IsVoted w k → IsVoted w' k

  set_height-Keeps :
      (w : WaitingDb o) (h : ℕ) (saved : Bool)
      → Keeps w (if saved then WaitingDb.set_height o w h else w)
  unfolding WaitingDb.set_height check_if_voted
  set_height-Keeps w h true k old = old
  set_height-Keeps w h false k old = old

  settle-Keeps :
      (settings : Settings) (ob ob' : Observer o) (new_top : ℕ) (c : Captured)
      → settle o settings ob new_top c ≡ ok ob'
      → Keeps ob.db ob'.db
  unfolding settle
  settle-Keeps settings ob ob' new_top c h =
      let (saved, p, q) = >>=-eq-ok (saves o settings c new_top) _ h in
      subst (λ (x : Observer o). Keeps ob.db x.db) (ok-injective q)
        (set_height-Keeps ob.db new_top saved)

  tick-Keeps :
      (settings : Settings) (events : ℕ → List Event) (ob ob' : Observer o) (new_top : ℕ)
      → tick o settings events ob new_top ≡ ok ob'
      → Keeps ob.db ob'.db
  unfolding tick
  tick-Keeps settings events ob ob' new_top h = elim (Bool-cases (new_top == ob.top)) [
    | inl same ↦
        subst (λ (x : Observer o). Keeps ob.db x.db) (ok-injective (rw same at h)) (λ k old. old)
    | inr new ↦ elim (Bool-cases (new_top == 2 ^ 32 - 1)) [
      | inl last ↦ cc (rw (new, last) at h)
      | inr on ↦
          let (c, p, q) =
            >>=-eq-ok
              (scan o settings events (new_top + 1 - first_block o ob.top) (first_block o ob.top)
                (record { voting = ob.voting; signing = ob.signing; to_vote = 0; to_sign = 0 }))
              _ (rw (new, on) at h) in
          settle-Keeps settings ob ob' new_top c q
    ]
  ]

  mark-Keeps :
      (w : WaitingDb o) (txid : List ℕ)
      → Keeps w (WaitingDb.mark_voted_tx o w txid) × IsVoted (WaitingDb.mark_voted_tx o w txid) txid
  unfolding WaitingDb.mark_voted_tx check_if_voted
  mark-Keeps w txid = (
    λ k old. elim (bytes_discrete k txid) [
      | yes p ↦ rw (p, o.bucket.get-put_self w.voted txid (1 ∷ [])) refl
      | no p ↦ rw (o.bucket.get-put_ne w.voted txid k (1 ∷ []) p) old
    ],
    rw (o.bucket.get-put_self w.voted txid (1 ∷ [])) refl,
  )

  delete-Keeps : (w : WaitingDb o) (txid : List ℕ) → Keeps w (WaitingDb.del_if_exist o w txid).0
  unfolding WaitingDb.del_if_exist check_if_voted
  delete-Keeps w txid k old = elim (Bool-cases (WaitingDb.check_if_waiting o w txid)) [
    | inl p ↦ rw p old
    | inr p ↦ rw p old
  ]

  put-Keeps :
      (v : Voter o) (txid : List ℕ) (item : BtcProof) → Keeps v.db (put_waiting o v txid item).db
  unfolding put_waiting WaitingDb.put check_if_voted
  put-Keeps v txid item k old = elim (Bool-cases (WaitingDb.check_if_waiting o v.db txid)) [
    | inl p ↦ rw p old
    | inr p ↦ rw p old
  ]

  retry-Keeps :
      (v v' : Voter o) (newh blks_to_wait : ℕ)
      → waiting_retry o v newh blks_to_wait ≡ ok v'
      → Keeps v.db v'.db
  unfolding waiting_retry WaitingDb.get_under_height_and_delete check_if_voted
  retry-Keeps v v' newh blks_to_wait h k old =
      elim (resend_cases o v v'
        (WaitingDb.get_under_height_and_delete o v.db (retry_height newh blks_to_wait)) h) [
          | inl same ↦ subst (λ (x : Voter o). IsVoted x.db k) same old
          | inr (db, got, took, e, _) ↦
              let (entries, p, q) =
                >>=-eq-ok
                  (WaitingDb.collect o v.db.max_read_size (retry_height newh blks_to_wait) 0
                    (o.bucket.items v.db.waiting))
                  _ took in
              subst (λ (w : WaitingDb o). IsVoted w k)
                (ap (λ (x : WaitingDb o × List (List ℕ × BtcProof)). x.0) (ok-injective q) ∙ e) old
        ]

  -- What is asked of an accepted vote: its proof decodes to the transaction, was confirmed, and was
  -- proven by the headers of the time.
  abbrev pub Shown : List ℕ → CastVote o b H S → Type 0
  Shown redeem c =
      (o.decode_tx c.item.tx ≡ some c.tx)
      × ((best : StoredHeader) × (Blockchain.best_block b H c.chain ≡ ok best)
          × (unconfirmed best.height c.item ≡ false))
      × Proven o b H c.chain redeem c.item c.tx

  pub record Counted (redeem : List ℕ) (s : Service o b H S) : Type 0 where
    pub voted : (k : List ℕ) → Elem k (hashes s.cast) → IsVoted s.db k
    pub distinct : Distinct (hashes s.cast)
    pub shown : All (Shown redeem) s.cast

  keep :
      (redeem : List ℕ) (s s' : Service o b H S)
      → s.cast ≡ s'.cast
      → Keeps s.db s'.db
      → Counted redeem s
      → Counted redeem s'
  keep redeem s s' same keeps c = record {
    voted = λ k h. keeps k (c.voted k (subst (λ cs. Elem k (hashes cs)) (sym same) h));
    distinct = subst (λ cs. Distinct (hashes cs)) same c.distinct;
    shown = subst (All (Shown redeem)) same c.shown;
  }

  del_mark-Keeps :
      (w : WaitingDb o) (txid : List ℕ)
      → Keeps w (WaitingDb.del_if_exist o (WaitingDb.mark_voted_tx o w txid) txid).0
        × IsVoted (WaitingDb.del_if_exist o (WaitingDb.mark_voted_tx o w txid) txid).0 txid
  del_mark-Keeps w txid =
      let (older, this) = mark-Keeps w txid in
      let later = delete-Keeps (WaitingDb.mark_voted_tx o w txid) txid in
      (λ k old. later k (older k old), later txid this)

  same :
      (redeem : List ℕ) (s : Service o b H S) (v : Voter o) {u : Voter o}
      → ◌≡◌ {A = Result Error (Voter o)} (ok u) (ok v)
      → Keeps s.db u.db
      → Counted redeem s
      → Counted redeem (with_voter o b H S s v)
  same redeem s v h keeps c =
      keep redeem s _ refl (subst (λ (x : Voter o). Keeps s.db x.db) (ok-injective h) keeps) c

  cast_vote-Counted :
      (redeem : List ℕ) (s : Service o b H S) (item : BtcProof) (rest : List BtcProof)
      (reply : Reply) (verdict : Verdict) (v : Voter o)
      → Counted redeem s
      → verify o b H s.chain s.db redeem item ≡ ok verdict
      → cast_vote o b H (voter_of o b H S s rest) item reply verdict ≡ ok v
      → Counted redeem (record (with_voter o b H S s v) {
        cast = count o b H S s.chain item reply verdict s.cast;
      })
  unfolding cast_vote
  cast_vote-Counted redeem s item rest reply undecoded v c p h = cc
  cast_vote-Counted redeem s item rest reply (refused tx) v c p h =
      same redeem s v h (λ k old. old) c
  cast_vote-Counted redeem s item rest reply (less_confirmed tx) v c p h =
      same redeem s v h (λ k old. old) c
  cast_vote-Counted redeem s item rest accepted (passed tx) v c p h =
      let (dec, new, late, proven) = verify-passed o b H s.chain s.db redeem item tx p in
      let (older, this) = del_mark-Keeps s.db tx.hash in
      subst
        (λ (x : Voter o). Counted redeem (record (with_voter o b H S s x) {
          cast = record { chain = s.chain; item = item; tx = tx } ∷ s.cast;
        }))
        (ok-injective h)
        (record {
          voted = λ k e. elim e [
            | inl eq ↦
                subst
                  (λ j.
                    IsVoted
                      (WaitingDb.del_if_exist o (WaitingDb.mark_voted_tx o s.db tx.hash) tx.hash).0
                      j)
                  (sym eq) this
            | inr old ↦ older k (c.voted k old)
          ];
          distinct = (λ e. cc (c.voted tx.hash e, new), c.distinct);
          shown = ((dec, late, proven), c.shown);
        })
  cast_vote-Counted redeem s item rest post_error (passed tx) v c p h =
      same redeem s v h (λ k old. old) c
  cast_vote-Counted redeem s item rest other_error (passed tx) v c p h =
      same redeem s v h (λ k old. old) c

  Step-Counted :
      (redeem : List ℕ) {s s' : Service o b H S}
      → Step o b H S redeem s s'
      → Counted redeem s
      → Counted redeem s'
  Step-Counted redeem {s = s} (observes settings events new_top ob h) c =
      keep redeem s _ refl (tick-Keeps settings events (observer_of o b H S s) ob new_top h) c
  Step-Counted redeem {s = s} (votes item rest reply verdict v at p h) c =
      cast_vote-Counted redeem s item rest reply verdict v c p h
  Step-Counted redeem {s = s} (puts n txid item at) c =
      keep redeem s _ refl
        (put-Keeps (record (voter_of o b H S s s.voting) { putting = remove_at n s.putting }) txid
          item)
        c
  Step-Counted redeem {s = s} (retries newh blks_to_wait v h) c =
      keep redeem s _ refl (retry-Keeps (voter_of o b H S s s.voting) v newh blks_to_wait h) c
  Step-Counted redeem {s = s} (signs reply) c = keep redeem s _ refl (λ k old. old) c
  Step-Counted redeem {s = s} (follows bc) c = keep redeem s _ refl (λ k old. old) c

  -- The package starts without accepted votes. Whatever the observer reads, whatever the alliance
  -- chain answers, however the chain of headers changes, and in whichever order the goroutines take
  -- turns: no two accepted votes are for transactions with one hash, each of these hashes is marked
  -- in the database, and each vote was cast on a proof that decodes to its transaction, was confirmed,
  -- and was proven by the chain of headers of that time.
  pub Reach-Counted :
      (redeem : List ℕ) (first s : Service o b H S)
      → first.cast ≡ []
      → Reach o b H S redeem first s
      → Counted redeem s
  Reach-Counted redeem first _ none_cast here =
      let cs = sym none_cast in
      record {
        voted = λ k e. absurd (subst (λ l. Elem k (hashes l)) none_cast e);
        distinct = subst (λ l. Distinct (hashes l)) cs tt;
        shown = subst (All (Shown redeem)) cs tt;
      }
  Reach-Counted redeem first _ none_cast (next {s = s} r step) =
      Step-Counted redeem step (Reach-Counted redeem first s none_cast r)
