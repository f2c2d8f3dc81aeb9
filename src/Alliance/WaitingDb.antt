-- ===== src/Alliance/WaitingDb.antt =====
-- WaitingDB of alliance/db.go: the proofs that wait for confirmations, the transactions voted for,
-- and the height that the observer has reached, in a bolt database.
pub mod Waiting
pub mod Taking
pub mod Ledger
use spvwallet.Prelude.{
  ℕ, zero, suc, ◌+◌, ◌*◌, ◌/◌, ◌%◌, Bool, true, false, Option, none, some, List, [], ◌∷◌, map,
  length, ltb, leb, if◌then◌else◌, Result, ok, err, panic, stuck, ◌>>=◌,
}
use spvwallet.Prelude.Stores.{Bucket}
use spvwallet.Chain.Types.{Error, not_found, bad_encoding}
use spvwallet.Chain.Codec.{from_option}
use spvwallet.Alliance.Types.{BtcProof, Outside}

-- binary.LittleEndian on four bytes; reading fewer panics.
unfoldable pub little_endian : ℕ → List ℕ
little_endian n = n % 256 ∷ n / 256 % 256 ∷ n / 65536 % 256 ∷ n / 16777216 % 256 ∷ []

unfoldable pub from_little_endian : List ℕ → Result Error ℕ
from_little_endian (a ∷ b ∷ c ∷ d ∷ _) = ok (a + 256 * b + 65536 * c + 16777216 * d)
from_little_endian _ = panic

module _ (o : Outside) where
  open o use {bucket, serialize, deserialize}

  -- The bucket of the height has one key, whose value is `height`.
  pub record WaitingDb : Type 0 where
    pub waiting : bucket.Store
    pub voted : bucket.Store
    pub height : Option (List ℕ)
    pub max_read_size : ℕ

  unfoldable pub set_height : WaitingDb → ℕ → WaitingDb
  set_height w height = record w { height = some (little_endian height) }

  unfoldable pub read_height : Option (List ℕ) → Result Error ℕ
  read_height none = ok 0
  read_height (some val) = from_little_endian val

  unfoldable pub get_height : WaitingDb → Result Error ℕ
  unfolding read_height
  get_height w = read_height w.height

  unfoldable pub put : WaitingDb → List ℕ → BtcProof → WaitingDb
  put w txid item = record w { waiting = bucket.put w.waiting txid (serialize item) }

  unfoldable pub read_proof : Option (List ℕ) → Result Error BtcProof
  read_proof none = err not_found
  read_proof (some val) = from_option bad_encoding (deserialize val)

  unfoldable pub get : WaitingDb → List ℕ → Result Error BtcProof
  unfolding read_proof
  get w txid = read_proof (bucket.get w.waiting txid)

  -- The `ForEach` of GetUnderHeightAndDelete, with `total` bytes of keys read so far. An entry that
  -- goes over the limit is the last one taken.
  unfoldable pub collect :
      ℕ → ℕ → ℕ → List (List ℕ × List ℕ) → Result Error (List (List ℕ × BtcProof))
  collect limit height total [] = ok []
  collect limit height total ((k, v) ∷ rest) = from_option bad_encoding (deserialize v) >>= λ p.
      elim (leb p.height height) [
        | false ↦ collect limit height total rest
        | true ↦ elim (ltb limit (total + length k)) [
          | true ↦ ok ((k, p) ∷ [])
          | false ↦ collect limit height (total + length k) rest >>= λ more. ok ((k, p) ∷ more)
        ]
      ]

  unfoldable pub delete_keys : bucket.Store → List (List ℕ) → bucket.Store
  delete_keys s [] = s
  delete_keys s (k ∷ ks) = delete_keys (bucket.delete s k) ks

  -- An error rolls the transaction back.
  unfoldable pub get_under_height_and_delete :
      WaitingDb → ℕ → Result Error (WaitingDb × List (List ℕ × BtcProof))
  get_under_height_and_delete w height = do
    got ← collect w.max_read_size height 0 (bucket.items w.waiting)
    ok (record w { waiting = delete_keys w.waiting (map (λ e. e.0) got) }, got)

  unfoldable pub mark_voted_tx : WaitingDb → List ℕ → WaitingDb
  mark_voted_tx w txid = record w { voted = bucket.put w.voted txid (1 ∷ []) }

  abbrev pub is_some : Option (List ℕ) → Bool
  is_some none = false
  is_some (some _) = true

  unfoldable pub check_if_voted : WaitingDb → List ℕ → Bool
  check_if_voted w txid = is_some (bucket.get w.voted txid)

  unfoldable pub check_if_waiting : WaitingDb → List ℕ → Bool
  check_if_waiting w txid = is_some (bucket.get w.waiting txid)

  unfoldable pub del_if_exist : WaitingDb → List ℕ → WaitingDb × Bool
  unfolding check_if_waiting
  del_if_exist w txid =
      if check_if_waiting w txid
      then (record w { waiting = bucket.delete w.waiting txid }, true)
      else (w, false)

  -- NewWaitingDB on the buckets of the file, which it makes where they are missing.
  unfoldable pub new_waiting_db : bucket.Store → bucket.Store → Option (List ℕ) → ℕ → WaitingDb
  new_waiting_db waiting voted height max_read_size = record {
    waiting = waiting;
    voted = voted;
    height = height;
    max_read_size = max_read_size;
  }
