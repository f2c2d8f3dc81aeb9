-- ===== src/Prelude/Results.antt =====
-- What a Go call returns: a value, an error, a panic, or nothing because a loop of the model ran
-- out of fuel.
use mathlib.Core.Path.{◌≡◌, refl}
use mathlib.Core.Logic.{◌≢◌}
use mathlib.Core.Option.{Option, none, some}

pub data Result {ℓ} (E : Type 0) (A : Type ℓ) : Type ℓ where
  ok : A → Result E A
  err : E → Result E A
  panic : Result E A
  stuck : Result E A

-- An error as a value, where the caller goes on.
abbrev pub attempt {ℓ} : {E : Type 0} {A : Type ℓ} → Result E A → Result E (Option A)
attempt (ok a) = ok (some a)
attempt (err x) = ok none
attempt panic = panic
attempt stuck = stuck

-- Only a value goes on to the continuation.
infixl 4 ◌>>=◌
abbrev pub ◌>>=◌ {ι ℓ} :
    {X : Type ι} {E : Type 0} {Y : Type ℓ} → Result E X → (X → Result E Y) → Result E Y
stuck >>= _ = stuck
panic >>= _ = panic
err why >>= _ = err why
ok x >>= next = next x

-- A chain ends in a value only if its first call does.
pub >>=-eq-ok {ι ℓ} :
    {X : Type ι} {E : Type 0} {Y : Type ℓ} {y : Y} (call : Result E X) (next : X → Result E Y)
    → (call >>= next) ≡ ok y
    → (x : X) × (call ≡ ok x) × (next x ≡ ok y)
>>=-eq-ok stuck _ p = cc
>>=-eq-ok panic _ p = cc
>>=-eq-ok (err why) _ p = cc
>>=-eq-ok (ok x) _ p = (x, refl, p)

pub ok-injective {ℓ} :
    {E : Type 0} {A : Type ℓ} {a b : A} → ◌≡◌ {A = Result E A} (ok a) (ok b) → a ≡ b
ok-injective h = cc

pub >>=-ne-stuck {ℓ κ} :
    {E : Type 0} {A : Type ℓ} {B : Type κ} (m : Result E A) (f : A → Result E B)
    → m ≢ stuck
    → ((a : A) → m ≡ ok a → f a ≢ stuck)
    → (m >>= f) ≢ stuck
>>=-ne-stuck (ok a) f h k = k a refl
>>=-ne-stuck (err x) f h k = λ p. cc
>>=-ne-stuck panic f h k = λ p. cc
>>=-ne-stuck stuck f h k = absurd (h refl)

pub ok-ne-stuck {ℓ} : {E : Type 0} {A : Type ℓ} (a : A) → ◌≢◌ {A = Result E A} (ok a) stuck
ok-ne-stuck a p = cc
