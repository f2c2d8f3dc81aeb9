-- ===== src/Prelude/Lists.antt =====
-- Lists measured by native numbers, and membership and "all" as predicates by recursion.
use Prim.Native.Nat.{ℕ, zero, suc, ◌+◌}
use mathlib.Core.Path.{◌≡◌, refl, ap}
use mathlib.Core.Logic.{◌⊎◌, inl, inr}
use mathlib.Core.List.{List, [], ◌∷◌, ◌++◌}
use mathlib.Core.Option.{Option, none, some}
use native.Mathlib.Omega.{arith}

module _ {ℓ} {A : Type ℓ} where
  abbrev pub length : List A → ℕ
  length [] = 0
  length (x ∷ xs) = suc (length xs)

  abbrev pub replicate : ℕ → A → List A
  replicate zero a = []
  replicate (suc n) a = a ∷ replicate n a

  abbrev pub take : ℕ → List A → List A
  take zero xs = []
  take (suc n) [] = []
  take (suc n) (x ∷ xs) = x ∷ take n xs

  pub length-append : (xs ys : List A) → length (xs ++ ys) ≡ length xs + length ys
  length-append [] ys = omega arith
  length-append (x ∷ xs) ys = omega (arith, length-append xs ys)

  pub length-replicate : (n : ℕ) (a : A) → length (replicate n a) ≡ n
  length-replicate zero a = refl
  length-replicate (suc n) a = ap suc (length-replicate n a)

  pub take_all : (xs : List A) (n : ℕ) → length xs ≡ n → take n xs ≡ xs
  take_all [] zero h = refl
  take_all [] (suc n) h = refl
  take_all (x ∷ xs) zero h = absurd (omega arith)
  take_all (x ∷ xs) (suc n) h = ap (◌∷◌ x) (take_all xs n (omega arith))

  abbrev pub All {κ} : (A → Type κ) → List A → Type κ
  All P [] = Unit {κ}
  All P (x ∷ xs) = P x × All P xs

  pub All-append {κ} : (P : A → Type κ) (xs ys : List A) → All P xs → All P ys → All P (xs ++ ys)
  All-append P [] ys h k = k
  All-append P (x ∷ xs) ys (p, h) k = (p, All-append P xs ys h k)

module _ {A : Type 0} where
  abbrev pub Elem : A → List A → Type 0
  Elem a [] = ⊥
  Elem a (x ∷ xs) = (a ≡ x) ⊎ Elem a xs

  pub All-elem : (P : A → Type 0) (xs : List A) (a : A) → All P xs → Elem a xs → P a
  All-elem P [] a h e = absurd e
  All-elem P (x ∷ xs) a h (inl e) = rw e (h.0)
  All-elem P (x ∷ xs) a h (inr e) = All-elem P xs a h.1 e

  -- The list without what stands at position `n`.
  abbrev pub remove_at : ℕ → List A → List A
  remove_at n [] = []
  remove_at zero (x ∷ xs) = xs
  remove_at (suc n) (x ∷ xs) = x ∷ remove_at n xs

  abbrev pub get_elem? : List A → ℕ → Option A
  get_elem? [] i = none
  get_elem? (x ∷ xs) zero = some x
  get_elem? (x ∷ xs) (suc i) = get_elem? xs i

  pub get_elem?-Elem : (xs : List A) (i : ℕ) (a : A) → get_elem? xs i ≡ some a → Elem a xs
  get_elem?-Elem [] i a h = cc
  get_elem?-Elem (x ∷ xs) zero a h = inl (cc)
  get_elem?-Elem (x ∷ xs) (suc i) a h = inr (get_elem?-Elem xs i a h)

  -- The element at `n` is the one that is removed.
  pub Elem-remove_at :
      (n : ℕ) (xs : List A) (a c : A)
      → get_elem? xs n ≡ some c
      → Elem a xs
      → (a ≡ c) ⊎ Elem a (remove_at n xs)
  Elem-remove_at n [] a c at e = cc
  Elem-remove_at zero (x ∷ xs) a c at (inl e) = inl (cc)
  Elem-remove_at zero (x ∷ xs) a c at (inr e) = inr e
  Elem-remove_at (suc n) (x ∷ xs) a c at (inl e) = inr (inl e)
  Elem-remove_at (suc n) (x ∷ xs) a c at (inr e) = elim (Elem-remove_at n xs a c at e) [
    | inl same ↦ inl same
    | inr left ↦ inr (inr left)
  ]

  pub remove_at-Elem : (n : ℕ) (xs : List A) (a : A) → Elem a (remove_at n xs) → Elem a xs
  remove_at-Elem n [] a e = e
  remove_at-Elem zero (x ∷ xs) a e = inr e
  remove_at-Elem (suc n) (x ∷ xs) a (inl e) = inl e
  remove_at-Elem (suc n) (x ∷ xs) a (inr e) = inr (remove_at-Elem n xs a e)
