-- ===== src/Tests/VoteRuns.antt =====
-- The theorem on all goroutines of the package alliance, at one proof that comes twice.
use spvwallet.Prelude.{◌≡◌, refl, [], ◌∷◌, ok}
use spvwallet.Chain.HeaderDb.Interface.{header_db}
use spvwallet.Alliance.Voter
use spvwallet.Alliance.Voter.{Voter, refused, passed, accepted, verify}
use spvwallet.Alliance.Session
use spvwallet.Alliance.Session.{CastVote, Service, Reach}
use spvwallet.Alliance.Session.Cast.{Counted, Reach-Counted}
use spvwallet.Tests.Machine.{btcd, env}
use spvwallet.Tests.Chains.{grown}
use spvwallet.Tests.ManagerRuns.{sign_lib}
use spvwallet.Tests.AllianceRuns.{outside, alliance, item, tx, redeem, waiting_db, voted, passes}

abbrev begun : Service outside btcd (header_db env) sign_lib
begun = record {
  chain = grown;
  db = waiting_db;
  voting = item ∷ item ∷ [];
  putting = [];
  signer = record { txchan = []; posted = [] };
  top = 1;
  cast = [];
}

abbrev once : Voter outside
once = record { db = voted.db; voting = item ∷ []; putting = [] }

abbrev counted : Service outside btcd (header_db env) sign_lib
counted = record begun {
  db = voted.db;
  voting = [];
  cast = record { chain = grown; item = item; tx = tx } ∷ [];
}

casts_first :
    Voter.cast_vote outside btcd
      (header_db env)
      (record { db = waiting_db; voting = item ∷ []; putting = [] })
      item
      accepted
      (passed tx)
    ≡ ok once
unfolding alliance
casts_first = refl

refuses : verify outside btcd (header_db env) grown voted.db redeem item ≡ ok (refused tx)
unfolding alliance
refuses = refl

casts_none :
    Voter.cast_vote outside btcd
      (header_db env)
      (record once { voting = [] })
      item
      accepted
      (refused tx)
    ≡ ok (record once { voting = [] })
unfolding alliance
casts_none = refl

Reach-Counted_example : Counted outside btcd (header_db env) sign_lib redeem counted
Reach-Counted_example =
    Reach-Counted outside btcd (header_db env) sign_lib redeem begun counted refl (
      Session.next
        (Session.next Session.here
          (Session.votes item (item ∷ []) accepted (passed tx) once refl passes casts_first))
        (Session.votes item [] accepted (refused tx) (record once { voting = [] }) refl refuses
          casts_none))
