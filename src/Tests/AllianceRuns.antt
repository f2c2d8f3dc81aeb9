-- ===== src/Tests/AllianceRuns.antt =====
-- The theorems on the alliance's proofs, votes and blocks, at concrete inputs.
use spvwallet.Prelude.{
  ℕ, ◌≤◌, ◌≡◌, ◌⊎◌, refl, false, Option, none, some, List, [], ◌∷◌, ok, Elem, arith, get_elem?,
  true, ◌<◌,
}
use spvwallet.Prelude.Int.{ℤ, pos, ltz}
use spvwallet.Chain.HeaderDb.Interface.{header_db}
use spvwallet.Chain.Blockchain
use spvwallet.Chain.Blockchain.{Blockchain}
use spvwallet.Alliance.Types.{
  BtcProof, TxOut, Tx, MerkleBlock, ScriptClass, multi_sig, null_data, Outside, bytes_discrete,
  bytes_equal,
}
use spvwallet.Alliance.WaitingDb
use spvwallet.Alliance.WaitingDb.{WaitingDb}
use spvwallet.Alliance.WaitingDb.Taking
use spvwallet.Alliance.WaitingDb.Ledger
use spvwallet.Alliance.WaitingDb.Ledger.{Op, puts, marks, deletes}
use spvwallet.Alliance.WaitingDb.Taking.{
  get_under_height_and_delete_splits, get_under_height_and_delete_complete,
}
use spvwallet.Alliance.Voter
use spvwallet.Alliance.Voter.{
  Voter, Verdict, passed, refused, accepted, unconfirmed, verify, vote, waiting_retry, retry_height,
}
use spvwallet.Alliance.Voter.Outs.{outs_ok_sound}
use spvwallet.Alliance.Voter.Votes.{waiting_retry_keeps}
use spvwallet.Alliance.Observer
use spvwallet.Alliance.Observer.{
  State, string_value, Event, Captured, Settings, Observer, scan, tick,
}
use spvwallet.Alliance.Observer.Rounds.{tick_height}
use spvwallet.Tests.Machine.{btcd, env}
use spvwallet.Tests.Chains.{program, grown}
use spvwallet.Tests.Maps.{list_bucket, no_entries}

abbrev class_of : List ℕ → ScriptClass
class_of (_ ∷ []) = multi_sig
class_of _ = null_data

abbrev outs : List TxOut
outs =
    record { value = pos 10; script = 1 ∷ [] }
    ∷ record { value = pos 0; script = 106 ∷ 2 ∷ 0x66 ∷ 5 ∷ [] }
    ∷ []

abbrev named_tx : List ℕ → Option Tx
named_tx [] = none
named_tx (t ∷ _) = some (record { hash = t ∷ []; outs = outs })

abbrev block_of : List ℕ → Option MerkleBlock
block_of p = some (record { root = some 7; bad_tree = false; matches = p ∷ [] })

abbrev proof_of : List ℕ → Option BtcProof
proof_of (h ∷ w ∷ t ∷ _) =
    some (record { tx = t ∷ []; proof = t ∷ []; height = h; blocks_to_wait = w })
proof_of _ = none

abbrev fee_of : List ℕ → Option ℤ
fee_of (f ∷ _) = some (pos f)
fee_of _ = none

abbrev pub outside : Outside
outside = record {
  bucket = list_bucket (List ℕ) (List ℕ) bytes_discrete;
  serialize = λ p. p.height ∷ p.blocks_to_wait ∷ p.tx;
  deserialize = proof_of;
  decode_tx = named_tx;
  decode_block = block_of;
  script_class = class_of;
  pay_to_script_hash = λ s. some s;
  args_fee = fee_of;
  hex_decode = λ s. some (1 ∷ 1 ∷ 9 ∷ []);
}

-- Every operation of the package that a run computes with.
unfoldable pub alliance : Unit {0}
unfolding program bytes_equal bytes_discrete WaitingDb.set_height WaitingDb.get_height
    WaitingDb.read_height WaitingDb.little_endian WaitingDb.from_little_endian WaitingDb.put
    WaitingDb.get WaitingDb.read_proof WaitingDb.collect WaitingDb.delete_keys
    WaitingDb.get_under_height_and_delete WaitingDb.mark_voted_tx WaitingDb.check_if_voted
    WaitingDb.check_if_waiting WaitingDb.del_if_exist Voter.unconfirmed Voter.is_member
    Voter.fee_covered Voter.flag_covered Voter.if_can_resolve Voter.pays_to Voter.pays_us
    Voter.check_tx_outs Voter.outs_ok Voter.proof_root Voter.root_matches Voter.proven Voter.judge
    Voter.weigh Voter.verify_tx Voter.verify Voter.cast_vote Voter.vote Voter.retry_height
    Voter.resend Voter.waiting_retry Blockchain.best_block Blockchain.get_header_by_height
    Observer.check_events Observer.check_event Observer.check_states Observer.as_text
    Observer.take_proof Observer.add_proof Observer.scan Observer.tick Observer.settle
    Observer.saves
alliance = tt

abbrev pub item : BtcProof
item = record { tx = 9 ∷ []; proof = 9 ∷ []; height = 1; blocks_to_wait = 1 }

abbrev pub tx : Tx
tx = record { hash = 9 ∷ []; outs = outs }

abbrev pub redeem : List ℕ
redeem = 1 ∷ []

-- One proof waits under the hash 9.
abbrev pub waiting_db : WaitingDb outside
waiting_db = record {
  waiting =
      outside.bucket.put (no_entries (List ℕ) (List ℕ) bytes_discrete) (9 ∷ []) (1 ∷ 1 ∷ 9 ∷ []);
  voted = no_entries (List ℕ) (List ℕ) bytes_discrete;
  height = none;
  max_read_size = 5;
}

abbrev taken_db : WaitingDb outside
taken_db = record waiting_db { waiting = outside.bucket.delete waiting_db.waiting (9 ∷ []) }

takes :
    WaitingDb.get_under_height_and_delete outside waiting_db 1
    ≡ ok (taken_db, ((9 ∷ []), item) ∷ [])
unfolding alliance
takes = refl

abbrev ledger_ops : List Op
ledger_ops = Ledger.takes 1 ∷ marks (9 ∷ []) ∷ deletes (9 ∷ []) ∷ puts (9 ∷ []) item ∷ []

abbrev ledger_end : WaitingDb outside
ledger_end = WaitingDb.put outside (WaitingDb.mark_voted_tx outside taken_db (9 ∷ [])) (9 ∷ []) item

runs_ledger : Ledger.run_all outside waiting_db ledger_ops ≡ ok ledger_end
unfolding alliance Ledger.run_all Ledger.run
runs_ledger = refl

run_all-Steps_example :
    Ledger.Steps (Ledger.view outside waiting_db) ledger_ops (Ledger.view outside ledger_end)
run_all-Steps_example =
    Ledger.run_all-Steps outside waiting_db ledger_end ledger_ops (tt, (tt, (tt, (refl, tt))))
      runs_ledger

waits : outside.bucket.get waiting_db.waiting (9 ∷ []) ≡ some (1 ∷ 1 ∷ 9 ∷ [])
unfolding alliance
waits = refl

small : Taking.key_bytes outside (outside.bucket.items waiting_db.waiting) ≤ 5
unfolding alliance
small = omega arith

pub passes : verify outside btcd (header_db env) grown waiting_db redeem item ≡ ok (passed tx)
unfolding alliance
passes = refl

abbrev voter : Voter outside
voter = record { db = waiting_db; voting = []; putting = [] }

abbrev pub voted : Voter outside
voted = record voter {
  db = record taken_db { voted = outside.bucket.put waiting_db.voted (9 ∷ []) (1 ∷ []) };
}

casts : vote outside btcd (header_db env) grown voter redeem item accepted ≡ ok voted
unfolding alliance
casts = refl

abbrev blank : BtcProof
blank = record { tx = []; proof = []; height = 1; blocks_to_wait = 1 }

abbrev retried : Voter outside
retried = record { db = taken_db; voting = item ∷ []; putting = [] }

retries : waiting_retry outside voter 1 1 ≡ ok retried
unfolding alliance
retries = refl

waiting_retry_keeps_example :
    (outside.bucket.get retried.db.waiting (9 ∷ []) ≡ some (1 ∷ 1 ∷ 9 ∷ []))
    ⊎ (Elem item retried.voting × (1 ≤ retry_height 1 1))
waiting_retry_keeps_example =
    waiting_retry_keeps outside voter retried 1 1 (9 ∷ []) (1 ∷ 1 ∷ 9 ∷ []) item retries waits refl

abbrev settings : Settings
settings = record {
  watching_key = "a";
  watching_make_tx_key = "b";
  net_type = "testnet";
  waiting_circle = 5;
}

abbrev nothing : Captured
nothing = record { voting = []; signing = []; to_vote = 0; to_sign = 0 }

abbrev events : ℕ → List Event
events h = (some (string_value "a" ∷ string_value "x" ∷ string_value "y" ∷ []) ∷ []) ∷ []

abbrev observer : Observer outside
observer = record { top = 3; db = waiting_db; voting = []; signing = [] }

abbrev observed : Observer outside
observed = record {
  top = 4;
  db = WaitingDb.set_height outside waiting_db 4;
  voting = item ∷ [];
  signing = [];
}

ticks : tick outside settings events observer 4 ≡ ok observed
unfolding alliance
ticks = refl

tick_height_example :
    (observed.top ≡ 4)
    × ((WaitingDb.get_height outside observed.db ≡ ok 4) ⊎ (observed.db ≡ observer.db))
tick_height_example = tick_height outside settings events observer observed 4 (omega arith) ticks

pays : Voter.outs_ok outside redeem outs ≡ ok true
unfolding alliance
pays = refl

outs_ok_sound_example :
    (first : TxOut) × (second : TxOut) × (rest : List TxOut) × (outs ≡ first ∷ second ∷ rest)
    × ((v : ℕ) × (first.value ≡ pos v) × (0 < v))
    × (((class_of first.script ≡ multi_sig) × (redeem ≡ first.script))
        ⊎ ((class_of first.script ≡ ScriptClass.script_hash) × (some redeem ≡ some first.script)))
    × (class_of second.script ≡ null_data)
    × (get_elem? second.script 2 ≡ some 0x66)
    × ((fee : ℤ) × (fee_of (Voter.drop_3 second.script) ≡ some fee)
        × ((ltz fee (pos 0) ≡ true) ⊎ (ltz first.value fee ≡ false)))
outs_ok_sound_example = outs_ok_sound outside redeem outs pays
