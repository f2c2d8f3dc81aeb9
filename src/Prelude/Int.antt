-- ===== src/Prelude/Int.antt =====
-- Integers over the native numbers.
use Prim.Native.Nat.{ℕ, ◌+◌, ◌-◌, ◌^◌}
use mathlib.Core.Bool.{Bool, true, false}
use mathlib.Core.Path.{◌≡◌, refl}
use native.Mathlib.Omega.{arith}
use spvwallet.Prelude.Tests.{ltb, leb, ◌==◌, if◌then◌else◌}

-- `negsuc n` is -(n + 1).
pub data ℤ : Type 0 where
  pos : ℕ → ℤ
  negsuc : ℕ → ℤ

abbrev pub pos_part : ℤ → ℕ
pos_part (pos n) = n
pos_part (negsuc n) = 0

-- a - b, as an integer.
abbrev pub sub_ℕ : ℕ → ℕ → ℤ
sub_ℕ a b = if leb b a then pos (a - b) else negsuc (b - a - 1)

-- a < b on integers.
abbrev pub ltz : ℤ → ℤ → Bool
ltz (pos m) (pos n) = ltb m n
ltz (pos m) (negsuc n) = false
ltz (negsuc m) (pos n) = true
ltz (negsuc m) (negsuc n) = ltb n m

-- int32 of a uint32.
abbrev pub to_int32 : ℕ → ℤ
to_int32 n = if ltb n (2 ^ 31) then pos n else negsuc (2 ^ 32 - n - 1)

-- One up and one down on int32, which wraps around.
abbrev pub inc_int32 : ℤ → ℤ
inc_int32 (pos n) = if n == 2 ^ 31 - 1 then negsuc (2 ^ 31 - 1) else pos (n + 1)
inc_int32 (negsuc n) = if n == 0 then pos 0 else negsuc (n - 1)

abbrev pub dec_int32 : ℤ → ℤ
dec_int32 (pos n) = if n == 0 then negsuc 0 else pos (n - 1)
dec_int32 (negsuc n) = if n == 2 ^ 31 - 1 then pos (2 ^ 31 - 1) else negsuc (n + 1)

pub ltz_le_trans : (a b c : ℤ) → ltz a b ≡ false → ltz b c ≡ false → ltz a c ≡ false
ltz_le_trans (pos m) (pos n) (pos k) h g = ground arith
ltz_le_trans (pos m) (pos n) (negsuc k) h g = refl
ltz_le_trans (pos m) (negsuc n) (pos k) h g = cc
ltz_le_trans (pos m) (negsuc n) (negsuc k) h g = refl
ltz_le_trans (negsuc m) (pos n) c h g = cc
ltz_le_trans (negsuc m) (negsuc n) (pos k) h g = cc
ltz_le_trans (negsuc m) (negsuc n) (negsuc k) h g = ground arith

pub ltz_asym : (a b : ℤ) → ltz a b ≡ true → ltz b a ≡ false
ltz_asym (pos m) (pos n) h = ground arith
ltz_asym (pos m) (negsuc n) h = cc
ltz_asym (negsuc m) (pos n) h = refl
ltz_asym (negsuc m) (negsuc n) h = ground arith

pub ltz_irrefl : (a : ℤ) → ltz a a ≡ false
ltz_irrefl (pos m) = ground arith
ltz_irrefl (negsuc m) = ground arith
