-- ===== src/Alliance/Observer.antt =====
-- Observer of alliance/alliaob.go, with the checkpoints of alliance/checkpoint.go: the events of the
-- alliance chain, block by block, as work for the voter and the signer.
pub mod Rounds
use spvwallet.Prelude.{
  ℕ, zero, suc, ◌+◌, ◌-◌, ◌%◌, ◌^◌, ◌==◌, Bool, true, false, not, ◌&&◌, ◌||◌, Option, none, some,
  List, [], ◌∷◌, ◌++◌, ltb, if◌then◌else◌, get_elem?, Result, ok, err, panic, stuck, ◌>>=◌,
}
use spvwallet.Chain.Types.{Error}
use spvwallet.Alliance.Types.{BtcProof, Tx, Outside}
use spvwallet.Alliance.WaitingDb
use spvwallet.Alliance.WaitingDb.{WaitingDb}
use Prim.Native.String.{String}
use text.Mathlib.Text.{◌==◌ as same_text}

-- One of the states of a notification: a string, or a value of another type.
pub data State : Type 0 where
  string_value : String → State
  other_value : State

-- The states of a notification, where they are a slice.
abbrev pub Notify : Type 0
Notify = Option (List State)

abbrev pub Event : Type 0
Event = List Notify

pub record ToSignItem : Type 0 where
  pub mtx : Tx
  pub redeem : List ℕ

-- What was sent on the two channels, and how much of it in this round.
pub record Captured : Type 0 where
  pub voting : List BtcProof
  pub signing : List ToSignItem
  pub to_vote : ℕ
  pub to_sign : ℕ

pub record Settings : Type 0 where
  pub watching_key : String
  pub watching_make_tx_key : String
  pub net_type : String
  pub waiting_circle : ℕ

-- `states[i].(string)`
unfoldable pub as_text : Option State → Result Error String
as_text none = panic
as_text (some (string_value s)) = ok s
as_text (some other_value) = panic

-- Only these two networks have a checkpoint; for another one the map gives a nil pointer.
unfoldable pub checkpoint_height : String → Result Error ℕ
checkpoint_height net = if same_text net "testnet" || same_text net "regtest" then ok 1 else panic

module _ (o : Outside) where
  unfoldable pub add_proof : Captured → Option BtcProof → Captured
  add_proof c none = c
  add_proof c (some p) = record c { voting = c.voting ++ (p ∷ []); to_vote = c.to_vote + 1 }

  unfoldable pub take_proof : Captured → Option (List ℕ) → Captured
  unfolding add_proof
  take_proof c none = c
  take_proof c (some bytes) = add_proof c (o.deserialize bytes)

  unfoldable pub add_tx : Captured → Tx → Option (List ℕ) → Captured
  add_tx c mtx none = c
  add_tx c mtx (some redeem) = record c {
    signing = c.signing ++ (record { mtx = mtx; redeem = redeem } ∷ []);
    to_sign = c.to_sign + 1;
  }

  -- The redeem script is looked at only if the transaction decodes.
  unfoldable pub take_tx : Captured → List State → Option Tx → Result Error Captured
  unfolding add_tx as_text
  take_tx c states none = ok c
  take_tx c states (some mtx) = do
    redeem ← as_text (get_elem? states 2)
    ok (add_tx c mtx (o.hex_decode redeem))

  unfoldable pub decode_hex_tx : Option (List ℕ) → Option Tx
  decode_hex_tx none = none
  decode_hex_tx (some bytes) = o.decode_tx bytes

  unfoldable pub check_states : Settings → Captured → List State → Result Error Captured
  unfolding as_text take_proof take_tx decode_hex_tx
  check_states s c [] = panic
  check_states s c (other_value ∷ rest) = ok c
  check_states s c (string_value name ∷ rest) =
      if same_text name s.watching_key
      then (as_text (get_elem? (string_value name ∷ rest) 1) >>= λ txid.
          as_text (get_elem? (string_value name ∷ rest) 2) >>= λ proof.
          ok (take_proof c (o.hex_decode proof)))
      else if same_text name s.watching_make_tx_key
      then (as_text (get_elem? (string_value name ∷ rest) 1) >>= λ tx.
          take_tx c (string_value name ∷ rest) (decode_hex_tx (o.hex_decode tx)))
      else ok c

  unfoldable pub check_event : Settings → Captured → Event → Result Error Captured
  unfolding check_states
  check_event s c [] = ok c
  check_event s c (none ∷ rest) = check_event s c rest
  check_event s c (some states ∷ rest) = check_states s c states >>= λ c'. check_event s c' rest

  unfoldable pub check_events : Settings → Captured → List Event → Result Error Captured
  unfolding check_event
  check_events s c [] = ok c
  check_events s c (e ∷ rest) = check_event s c e >>= λ c'. check_events s c' rest

  -- The inner loop of Listen over `n` blocks from `h` on. A request that fails is repeated, so that
  -- `events` gives the answer that came in the end.
  unfoldable pub scan : Settings → (ℕ → List Event) → ℕ → ℕ → Captured → Result Error Captured
  unfolding check_events
  scan s events zero h c = ok c
  scan s events (suc n) h c = check_events s c (events h) >>= λ c'. scan s events n (h + 1) c'

  pub record Observer : Type 0 where
    pub top : ℕ
    pub db : WaitingDb o
    pub voting : List BtcProof
    pub signing : List ToSignItem

  -- `top%ob.waitingCircle` divides by zero for a circle of 0.
  unfoldable pub saves : Settings → Captured → ℕ → Result Error Bool
  saves s c top =
      if not (c.to_vote + c.to_sign == 0)
      then ok true
      else if s.waiting_circle == 0
      then panic
      else ok (top % s.waiting_circle == 0)

  unfoldable pub settle : Settings → Observer → ℕ → Captured → Result Error Observer
  unfolding saves
  settle s ob new_top c = do
    saved ← saves s c new_top
    ok (record {
      top = new_top;
      db = if saved then WaitingDb.set_height o ob.db new_top else ob.db;
      voting = c.voting;
      signing = c.signing;
    })

  -- The first block to read, `top + 1` on uint32.
  abbrev pub first_block : ℕ → ℕ
  first_block top = (top + 1) % 2 ^ 32

  -- A tick of Listen on the answer `new_top`. `newTop-top <= 0` on uint32 holds only where they are
  -- equal; and the loop does not end at the largest uint32, since `h` wraps around.
  unfoldable pub tick : Settings → (ℕ → List Event) → Observer → ℕ → Result Error Observer
  unfolding scan settle
  tick s events ob new_top =
      if new_top == ob.top
      then ok ob
      else if new_top == 2 ^ 32 - 1
      then stuck
      else (scan s events (new_top + 1 - first_block ob.top) (first_block ob.top)
            (record { voting = ob.voting; signing = ob.signing; to_vote = 0; to_sign = 0 })
          >>= λ c. settle s ob new_top c)

  -- The height to start at: the one in the database, or the checkpoint where that is higher.
  unfoldable pub start_top : Settings → WaitingDb o → Result Error ℕ
  unfolding checkpoint_height
  start_top s w = do
    top ← WaitingDb.get_height o w
    low ← checkpoint_height s.net_type
    ok (if ltb top low then low else top)
