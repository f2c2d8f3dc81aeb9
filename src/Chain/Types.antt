-- ===== src/Chain/Types.antt =====
-- The data of the package chain (chain/headers.go, chain/blockchain.go, chain/checkpoints.go), and
-- the functions of btcd that it calls, as a parameter.
use spvwallet.Prelude.{ℕ, ◌<◌, ◌^◌, ◌≡◌, Bool, Option, some, List, ◌++◌}
use spvwallet.Prelude.Int.{ℤ}
use Prim.Native.String.{String}

-- A chainhash.Hash is a number below 2 ^ 256. A timestamp counts seconds, as on the wire.
pub record BlockHeader : Type 0 where
  pub version : ℕ
  pub prev_block : ℕ
  pub merkle_root : ℕ
  pub timestamp : ℕ
  pub bits : ℕ
  pub nonce : ℕ

pub record StoredHeader : Type 0 where
  pub header : BlockHeader
  pub height : ℕ
  pub total_work : ℕ

-- The names of the networks of chaincfg.
pub data Net : Type 0 where
  mainnet testnet3 regtest simnet : Net

pub record Params : Type 0 where
  pub name : Net
  pub reduce_min_difficulty : Bool
  pub pow_limit : ℕ
  pub pow_limit_bits : ℕ

-- The errors that the package tells apart, and those that it only passes on.
pub data Error : Type 0 where
  orphan_header : Error
  not_found : Error
  header_missing : Error
  tip_unset : Error
  bad_encoding : Error
  too_high : Error
  bad_hash : Error

-- What the package calls of btcd.
pub record Btcd : Type 0 where
  pub block_hash : BlockHeader → ℕ
  pub hash_string : ℕ → String
  pub hash_from_string : String → Option ℕ
  pub hash_to_big : ℕ → ℕ
  pub compact_to_big : ℕ → ℤ
  pub big_to_compact : ℤ → ℕ
  pub calc_work : ℕ → ℕ
  pub serialize : BlockHeader → List ℕ
  pub deserialize : List ℕ → Option (BlockHeader × List ℕ)

-- A header whose fields fit the 80 bytes of the wire format.
pub record IsWire (h : BlockHeader) : Type 0 where
  pub version_fits : h.version < 2 ^ 32
  pub prev_fits : h.prev_block < 2 ^ 256
  pub merkle_fits : h.merkle_root < 2 ^ 256
  pub timestamp_fits : h.timestamp < 2 ^ 32
  pub bits_fits : h.bits < 2 ^ 32
  pub nonce_fits : h.nonce < 2 ^ 32

-- Documented behaviour of btcd: a header reads back, and so does the text of a hash.
pub record BtcdLaws (b : Btcd) : Type 0 where
  pub deserialize-serialize :
      (h : BlockHeader) (rest : List ℕ)
      → IsWire h
      → b.deserialize (b.serialize h ++ rest) ≡ some (h, rest)
  pub from_string-string : (h : ℕ) → b.hash_from_string (b.hash_string h) ≡ some h

-- A stored header whose fields fit their machine types, and whose work fits 32 bytes.
pub record IsStored (sh : StoredHeader) : Type 0 where
  pub wire : IsWire sh.header
  pub height_fits : sh.height < 2 ^ 32
  pub work_fits : sh.total_work < 2 ^ 256
