-- ===== src/Alliance/Types.antt =====
-- The data of the package alliance (alliance/utils.go, alliance/db.go, alliance/voter.go), and what
-- it calls of btcd, bchd and the alliance chain's libraries, as a parameter.
use spvwallet.Prelude.{
  ℕ, ◌<◌, ◌^◌, ◌≡◌, inl, inr, refl, ap, Bool, true, false, ◌&&◌, Option, List, [], ◌∷◌, ◌==◌,
  ==_iff, Bool-cases,
}
use spvwallet.Prelude.Int.{ℤ}
use spvwallet.Prelude.Stores.{Bucket}
use Prim.Native.String.{String}

-- A btc.BtcProof; its transaction and its Merkle proof are bytes.
pub record BtcProof : Type 0 where
  pub tx : List ℕ
  pub proof : List ℕ
  pub height : ℕ
  pub blocks_to_wait : ℕ

pub record TxOut : Type 0 where
  pub value : ℤ
  pub script : List ℕ

-- A decoded transaction, with the bytes of its hash.
pub record Tx : Type 0 where
  pub hash : List ℕ
  pub outs : List TxOut

-- A decoded Merkle block: what ExtractMatches, BadTree and GetMatches return of it.
pub record MerkleBlock : Type 0 where
  pub root : Option ℕ
  pub bad_tree : Bool
  pub matches : List (List ℕ)

-- The classes of txscript that the package tells apart.
pub data ScriptClass : Type 0 where
  multi_sig script_hash null_data other_class : ScriptClass

-- The code outside the package: a bolt bucket on bytes, the decoders, and the scripts of btcd.
pub record Outside : Type 1 where
  pub bucket : Bucket (List ℕ) (List ℕ)
  pub serialize : BtcProof → List ℕ
  pub deserialize : List ℕ → Option BtcProof
  pub decode_tx : List ℕ → Option Tx
  pub decode_block : List ℕ → Option MerkleBlock
  pub script_class : List ℕ → ScriptClass
  pub pay_to_script_hash : List ℕ → Option (List ℕ)
  pub args_fee : List ℕ → Option ℤ
  pub hex_decode : String → Option (List ℕ)

-- Numbers of a proof that fit uint32 and uint64.
pub record IsProof (p : BtcProof) : Type 0 where
  pub height_fits : p.height < 2 ^ 32
  pub wait_fits : p.blocks_to_wait < 2 ^ 64

-- `bytes.Equal`.
unfoldable pub bytes_equal : List ℕ → List ℕ → Bool
bytes_equal [] [] = true
bytes_equal [] (y ∷ ys) = false
bytes_equal (x ∷ xs) [] = false
bytes_equal (x ∷ xs) (y ∷ ys) = x == y && bytes_equal xs ys

pub bytes_equal_refl : (xs : List ℕ) → bytes_equal xs xs ≡ true
unfolding bytes_equal
bytes_equal_refl [] = refl
bytes_equal_refl (x ∷ xs) = rw ((==_iff x x).1 refl, bytes_equal_refl xs) refl

pub bytes_equal_sound : (xs ys : List ℕ) → bytes_equal xs ys ≡ true → xs ≡ ys
unfolding bytes_equal
bytes_equal_sound [] [] h = refl
bytes_equal_sound [] (y ∷ ys) h = cc
bytes_equal_sound (x ∷ xs) [] h = cc
bytes_equal_sound (x ∷ xs) (y ∷ ys) h = elim (Bool-cases (x == y)) [
  | inl p ↦
      cc (ap (λ z. z ∷ xs) ((==_iff x y).0 p), ap (◌∷◌ y) (bytes_equal_sound xs ys (rw p at h)))
  | inr p ↦ cc (rw p at h)
]

unfoldable pub bytes_discrete : Discrete (List ℕ)
bytes_discrete xs ys = elim (Bool-cases (bytes_equal xs ys)) [
  | inl p ↦ yes (bytes_equal_sound xs ys p)
  | inr p ↦ no (λ e. cc (bytes_equal_refl xs, ap (bytes_equal xs) e))
]
