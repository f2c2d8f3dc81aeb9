-- ===== src/Tests/Machine.antt =====
-- A small stand-in for btcd, and an environment for the runs: a header's hash is its nonce.
use spvwallet.Prelude.{
  ℕ, zero, suc, ◌≡◌, refl, ap, inl, inr, Option, none, some, List, [], ◌∷◌, ℕ_discrete, true,
}
use spvwallet.Prelude.Int.{pos, pos_part}
use spvwallet.Chain.Types.{BlockHeader, StoredHeader, Btcd, BtcdLaws, Params, regtest}
use spvwallet.Chain.Cache.{Key, Val, Env}
use spvwallet.Chain.Cache.Lookup.{Key-cases}
use spvwallet.Tests.Maps.{list_bucket, list_map}
use Prim.Native.String.{String}

abbrev pub text_of : ℕ → String
text_of zero = String.[]
text_of (suc n) = String.◌∷◌ "1" (text_of n)

abbrev pub number_of : String → ℕ
number_of String.[] = 0
number_of (String.◌∷◌ c s) = suc (number_of s)

pub number_of-text_of : (n : ℕ) → number_of (text_of n) ≡ n
number_of-text_of zero = refl
number_of-text_of (suc n) = ap suc (number_of-text_of n)

abbrev read_header : List ℕ → Option (BlockHeader × List ℕ)
read_header (v ∷ p ∷ m ∷ t ∷ c ∷ n ∷ rest) = some (
  record { version = v; prev_block = p; merkle_root = m; timestamp = t; bits = c; nonce = n },
  rest,
)
read_header _ = none

abbrev pub btcd : Btcd
btcd = record {
  block_hash = λ h. h.nonce;
  hash_string = text_of;
  hash_from_string = λ s. some (number_of s);
  hash_to_big = λ h. h;
  compact_to_big = pos;
  big_to_compact = pos_part;
  calc_work = λ c. c;
  serialize = λ h. h.version ∷ h.prev_block ∷ h.merkle_root ∷ h.timestamp ∷ h.bits ∷ h.nonce ∷ [];
  deserialize = read_header;
}

pub btcd-laws : BtcdLaws btcd
btcd-laws = record {
  deserialize-serialize = λ h rest wire. refl;
  from_string-string = λ h. ap some (number_of-text_of h);
}

unfoldable pub key_discrete : Discrete Key
unfolding Key-cases
key_discrete k j = elim (Key-cases k j) [ inl p ↦ yes p | inr p ↦ no p ]

abbrev pub env : Env
env = record {
  btcd = btcd;
  bucket = list_bucket ℕ (List ℕ) ℕ_discrete;
  ordered = list_map Key Val key_discrete;
}

abbrev pub params : Params
params = record {
  name = regtest;
  reduce_min_difficulty = true;
  pow_limit = 100;
  pow_limit_bits = 100;
}

-- A header over the hash `prev`, with the hash `hash`.
abbrev pub header_of : ℕ → ℕ → BlockHeader
header_of prev hash = record {
  version = 1;
  prev_block = prev;
  merkle_root = 7;
  timestamp = hash;
  bits = 50;
  nonce = hash;
}

abbrev pub genesis : StoredHeader
genesis = record { header = header_of 0 1; height = 0; total_work = 0 }
