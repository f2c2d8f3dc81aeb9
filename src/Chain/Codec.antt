-- ===== src/Chain/Codec.antt =====
-- serializeHeader and deserializeHeader of chain/headers.go, on lists of bytes.
pub mod RoundTrip
use spvwallet.Prelude.{
  ℕ, zero, suc, ◌+◌, ◌-◌, ◌*◌, ◌/◌, ◌%◌, ◌^◌, Bool, Option, none, some, List, [], ◌∷◌, ◌++◌, length,
  replicate, take, ltb, ◌==◌, if◌then◌else◌, Result, ok, err, panic, ◌>>=◌,
}
use spvwallet.Chain.Types.{BlockHeader, StoredHeader, Error, bad_encoding, Btcd}

-- binary.BigEndian, on `k` bytes.
unfoldable pub big_endian : ℕ → ℕ → List ℕ
big_endian zero n = []
big_endian (suc k) n = big_endian k (n / 256) ++ (n % 256 ∷ [])

unfoldable pub from_big_endian : ℕ → List ℕ → ℕ
from_big_endian acc [] = acc
from_big_endian acc (b ∷ bs) = from_big_endian (acc * 256 + b) bs

-- big.Int's Bytes: no leading zeros. `n` rounds are enough.
unfoldable pub big_bytes_fuel : ℕ → ℕ → List ℕ
big_bytes_fuel zero n = []
big_bytes_fuel (suc f) n =
    let front = big_bytes_fuel f (n / 256) in if n == 0 then [] else front ++ (n % 256 ∷ [])

unfoldable pub big_bytes : ℕ → List ℕ
big_bytes n = big_bytes_fuel n n

-- `make([]byte, 32-len(biBytes))` panics where the work takes more than 32 bytes.
unfoldable pub serialize_header : Btcd → StoredHeader → Result Error (List ℕ)
serialize_header b sh =
    let bytes = big_bytes sh.total_work in
    if ltb 32 (length bytes)
    then panic
    else ok (
        b.serialize sh.header
        ++ (big_endian 4 sh.height ++ (replicate (32 - length bytes) 0 ++ bytes)))

-- `binary.Read` of four bytes: the value and the rest, or an error where they are not there.
unfoldable pub read_u32 : List ℕ → Option (ℕ × List ℕ)
read_u32 (a ∷ b ∷ c ∷ d ∷ rest) = some (from_big_endian 0 (a ∷ b ∷ c ∷ d ∷ []), rest)
read_u32 _ = none

-- `r.Read` into 32 zero bytes: an error at the end of the input, and a partial read without one.
unfoldable pub read_32 : List ℕ → Option (List ℕ)
read_32 [] = none
read_32 (x ∷ xs) = let got = take 32 (x ∷ xs) in some (got ++ replicate (32 - length got) 0)

unfoldable pub from_option {ℓ} : {A : Type ℓ} → Error → Option A → Result Error A
from_option e none = err e
from_option e (some a) = ok a

unfoldable pub deserialize_header : Btcd → List ℕ → Result Error StoredHeader
unfolding from_option
deserialize_header b bytes = do
  (hdr, r1) ← from_option bad_encoding (b.deserialize bytes)
  (height, r2) ← from_option bad_encoding (read_u32 r1)
  bi_bytes ← from_option bad_encoding (read_32 r2)
  ok (record { header = hdr; height = height; total_work = from_big_endian 0 bi_bytes })
