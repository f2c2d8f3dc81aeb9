-- ===== src/Chain/Codec/RoundTrip.antt =====
-- What serializeHeader writes, deserializeHeader reads back.
use native.Mathlib.Nat.{pow-suc}
use mathlib.Core.List.{append-nil}
use spvwallet.Prelude.{
  ℕ, zero, suc, ◌+◌, ◌-◌, ◌*◌, ◌/◌, ◌%◌, ◌^◌, ◌<◌, ◌≤◌, ◌≡◌, refl, sym, ◌∙◌, Option, none, some,
  List, [], ◌∷◌, ◌++◌, length, length-append, length-replicate, replicate, take_all, ◌==◌, ok,
  ok-injective, stuck, ◌≢◌, >>=-ne-stuck, ok-ne-stuck, ◌>>=◌, arith, Bool-cases, inl, inr,
}
use spvwallet.Chain.Types.{StoredHeader, Error, bad_encoding, Btcd, BtcdLaws, IsStored, IsWire}
use spvwallet.Chain.Codec.{
  big_endian, from_big_endian, big_bytes_fuel, big_bytes, serialize_header, read_u32, read_32,
  from_option, deserialize_header,
}

from_big_endian-append :
    (acc b : ℕ) (bs : List ℕ)
    → from_big_endian acc (bs ++ (b ∷ [])) ≡ from_big_endian acc bs * 256 + b
unfolding from_big_endian
from_big_endian-append acc b [] = refl
from_big_endian-append acc b (x ∷ bs) = from_big_endian-append (acc * 256 + x) b bs

from_big_endian-bytes : (f n : ℕ) → n ≤ f → from_big_endian 0 (big_bytes_fuel f n) ≡ n
unfolding big_bytes_fuel
from_big_endian-bytes zero n h = unfold from_big_endian in omega arith
from_big_endian-bytes (suc f) n h = elim (Bool-cases (n == 0)) [
  | inl e ↦ rw e (unfold from_big_endian in ground arith)
  | inr e ↦ rw e (
      rw from_big_endian-append
        (rw (from_big_endian-bytes f (n / 256) (ground arith)) (omega arith)))
]

from_big_endian-zeros :
    (k : ℕ) (bs : List ℕ) → from_big_endian 0 (replicate k 0 ++ bs) ≡ from_big_endian 0 bs
unfolding from_big_endian
from_big_endian-zeros zero bs = refl
from_big_endian-zeros (suc k) bs = from_big_endian-zeros k bs

length-bytes : (k f n : ℕ) → n < 256 ^ k → length (big_bytes_fuel f n) ≤ k
unfolding big_bytes_fuel
length-bytes k zero n h = omega arith
length-bytes zero (suc f) n h = ground arith
length-bytes (suc k) (suc f) n h = elim (Bool-cases (n == 0)) [
  | inl e ↦ rw e (omega arith)
  | inr e ↦ rw e (
      omega (
        arith,
        length-append {0} (big_bytes_fuel f (n / 256)) (n % 256 ∷ []),
        length-bytes k f (n / 256) (omega (arith, pow-suc 256 k)),
      ))
]

read_u32-big_endian :
    (n : ℕ) (rest : List ℕ) → n < 2 ^ 32 → read_u32 (big_endian 4 n ++ rest) ≡ some (n, rest)
unfolding read_u32 big_endian from_big_endian
read_u32-big_endian n rest h = ground arith

read_32-all : (bs : List ℕ) → length bs ≡ 32 → read_32 bs ≡ some bs
unfolding read_32
read_32-all [] h = absurd (omega arith)
read_32-all (x ∷ bs) h =
    let n : length bs ≡ 31 = omega arith in rw (take_all bs 31 n, n, append-nil)

-- The work behind its padding.
padded : ℕ → List ℕ
padded n = replicate (32 - length (big_bytes n)) 0 ++ big_bytes n

length-big_bytes : (n : ℕ) → n < 2 ^ 256 → length (big_bytes n) ≤ 32
unfolding big_bytes
length-big_bytes n h = length-bytes 32 n n h

length-padded : (n : ℕ) → length (big_bytes n) ≤ 32 → length (padded n) ≡ 32
unfolding padded
length-padded n h = omega (
  arith,
  length-append {0} (replicate (32 - length (big_bytes n)) 0) (big_bytes n),
  length-replicate {0} {A = ℕ} (32 - length (big_bytes n)) 0,
)

from_big_endian-padded : (n : ℕ) → from_big_endian 0 (padded n) ≡ n
unfolding padded big_bytes
from_big_endian-padded n =
    from_big_endian-zeros (32 - length (big_bytes n)) (big_bytes n)
    ∙ from_big_endian-bytes n n (omega arith)

serialize-padded :
    (b : Btcd) (sh : StoredHeader)
    → length (big_bytes sh.total_work) ≤ 32
    → serialize_header b sh
      ≡ ok (b.serialize sh.header ++ (big_endian 4 sh.height ++ padded sh.total_work))
unfolding serialize_header padded
serialize-padded b sh h = ground arith

-- What was written at all was written with work of at most 32 bytes.
serialized-length :
    (b : Btcd) (sh : StoredHeader) (bytes : List ℕ)
    → serialize_header b sh ≡ ok bytes
    → length (big_bytes sh.total_work) ≤ 32
unfolding serialize_header
serialized-length b sh bytes h = ground arith

-- What serializeHeader writes of a header whose fields fit their types reads back as it was.
pub deserialize-serialized :
    (b : Btcd) (sh : StoredHeader) (bytes : List ℕ)
    → BtcdLaws b
    → IsWire sh.header
    → sh.height < 2 ^ 32
    → serialize_header b sh ≡ ok bytes
    → deserialize_header b bytes ≡ ok sh
unfolding deserialize_header from_option
deserialize-serialized b sh bytes laws wire height h =
    let short = serialized-length b sh bytes h in
    let shape = ok-injective (sym (serialize-padded b sh short) ∙ h) in
    rw (
      ← shape,
      laws.deserialize-serialize sh.header _ wire,
      read_u32-big_endian sh.height (padded sh.total_work) height,
      read_32-all (padded sh.total_work) (length-padded sh.total_work short),
      from_big_endian-padded sh.total_work,
    )

-- A stored header that fits its machine types is written without a panic, and reads back as it was.
pub deserialize-serialize_header :
    (b : Btcd) (sh : StoredHeader)
    → BtcdLaws b
    → IsStored sh
    → (serialize_header b sh >>= deserialize_header b) ≡ ok sh
deserialize-serialize_header b sh laws fits =
    let written = serialize-padded b sh (length-big_bytes sh.total_work fits.work_fits) in
    rw (written, ◌>>=◌) (deserialize-serialized b sh _ laws fits.wire fits.height_fits written)

from_option-ne-stuck {ℓ} : {A : Type ℓ} (x : Error) (o : Option A) → from_option x o ≢ stuck
unfolding from_option
from_option-ne-stuck x none = λ p. cc
from_option-ne-stuck x (some a) = λ p. cc

pub deserialize_header-ne-stuck : (b : Btcd) (bytes : List ℕ) → deserialize_header b bytes ≢ stuck
unfolding deserialize_header
deserialize_header-ne-stuck b bytes =
    >>=-ne-stuck (from_option bad_encoding (b.deserialize bytes)) _ (from_option-ne-stuck _ _)
      (λ h _.
        >>=-ne-stuck (from_option bad_encoding (read_u32 h.1)) _ (from_option-ne-stuck _ _) (λ n _.
          >>=-ne-stuck (from_option bad_encoding (read_32 n.1)) _ (from_option-ne-stuck _ _)
            (λ w _. ok-ne-stuck _)))
