-- ===== src/Chain/Blockchain/Locator.antt =====
-- The block locator: which ancestors of the best header it names.
use spvwallet.Prelude.{
  ℕ, zero, suc, ◌+◌, ◌*◌, ◌/◌, ◌^◌, ◌≤◌, ◌≡◌, inl, inr, refl, sym, ap, subst, ◌∙◌, some, List, [],
  length, get_elem?, leb, if◌then◌else◌, Result, ok, err, panic, stuck, >>=-eq-ok, ok-injective,
  some-injective, Bool-cases, arith,
}
use native.Mathlib.Nat.{pow-suc}
use spvwallet.Chain.Types.{StoredHeader, Error, Btcd}
use spvwallet.Chain.Headers.{Headers}
use spvwallet.Chain.Blockchain.{Blockchain, back, locator_loop, get_block_locator}

-- How far the entry `i + j` of a locator lies behind the entry `i`: the gap doubles after every
-- nine entries.
abbrev pub behind : ℕ → ℕ → ℕ
behind i zero = 0
behind i (suc j) = 2 ^ (i / 9) + behind (suc i) j

module _ (b : Btcd) (H : Headers) where
  back-add :
      (db : H.Db) (m n : ℕ) (x y z : StoredHeader)
      → back b H db m x ≡ ok y
      → back b H db n y ≡ ok z
      → back b H db (m + n) x ≡ ok z
  unfolding back
  back-add db zero n x y z p q =
      let e : 0 + n ≡ n = omega arith in
      rw e (subst (λ (s : StoredHeader). back b H db n s ≡ ok z) (sym (ok-injective p)) q)
  back-add db (suc m) n x y z p q =
      let e : suc m + n ≡ suc (m + n) = omega arith in
      let (prev, step, rest) = >>=-eq-ok (H.get_previous_header db x.header) _ p in
      rw e (rw step (back-add db m n prev y z rest q))

  tail_cases :
      (db : H.Db) (left step start j h : ℕ) (r : Result Error StoredHeader)
      → get_elem?
          (elim r as (λ _. List ℕ) [ ok next ↦ locator_loop b H db left next step start | _ ↦ [] ])
          j
        ≡ some h
      → (next : StoredHeader) × (r ≡ ok next)
        × (get_elem? (locator_loop b H db left next step start) j ≡ some h)
  tail_cases db left step start j h (ok next) g = (next, refl, g)
  tail_cases db left step start j h (err x) g = cc
  tail_cases db left step start j h panic g = cc
  tail_cases db left step start j h stuck g = cc

  back_none : (db : H.Db) (x : StoredHeader) → back b H db 0 x ≡ ok x
  unfolding back
  back_none db x = refl

  -- After the test of a round the step is the power of two for the entry's block of nine.
  doubled :
      (step start e i : ℕ)
      → step ≡ 2 ^ e
      → 9 * e + start ≡ i
      → start ≤ 9
      → (k : ℕ) × ((if leb 9 start then 2 * step else step) ≡ 2 ^ k)
        × (9 * k + (if leb 9 start then 0 else start) ≡ i)
        × ((if leb 9 start then 0 else start) ≤ 8)
  doubled step start e i s t u = elim (Bool-cases (leb 9 start)) [
    | inl full ↦
        (suc e, rw full (omega (arith, pow-suc 2 e)), rw full (ground arith), rw full (omega arith))
    | inr room ↦ (e, rw room s, rw room t, rw room (ground arith))
  ]

  locator_loop_entry :
      (db : H.Db) (left : ℕ) (parent : StoredHeader) (step start e i j h : ℕ)
      → step ≡ 2 ^ e
      → 9 * e + start ≡ i
      → start ≤ 9
      → get_elem? (locator_loop b H db left parent step start) j ≡ some h
      → (sh : StoredHeader) × (back b H db (behind i j) parent ≡ ok sh)
        × (b.block_hash sh.header ≡ h)
  unfolding locator_loop
  locator_loop_entry db zero parent step start e i j h s t u g = cc
  locator_loop_entry db (suc left) parent step start e i zero h s t u g =
      (parent, back_none db parent, some-injective g)
  locator_loop_entry db (suc left) parent step start e i (suc j) h s t u g =
      let step' = if leb 9 start then 2 * step else step in
      let start' = if leb 9 start then 0 else start in
      let (k, power, place, low) = doubled step start e i s t u in
      let (next, p, rest) =
        tail_cases db left step' (start' + 1) j h (back b H db step' parent) g in
      let (sh, q, r) =
        locator_loop_entry db left next step' (start' + 1) k (suc i) j h power (omega arith)
          (omega arith) rest in
      let block : i / 9 ≡ k = omega arith in
      let gap : step' ≡ 2 ^ (i / 9) = power ∙ ap (λ (n : ℕ). 2 ^ n) (sym block) in
      (sh, rw (← gap) (back-add db step' (behind (suc i) j) parent next sh p q), r)

  length-locator_loop :
      (db : H.Db) (left : ℕ) (parent : StoredHeader) (step start : ℕ)
      → length (locator_loop b H db left parent step start) ≤ left
  unfolding locator_loop
  length-locator_loop db zero parent step start = omega arith
  length-locator_loop db (suc left) parent step start =
      let step' = if leb 9 start then 2 * step else step in
      let start' = if leb 9 start then 0 else start in
      let tail =
        tail_length db left step' (start' + 1) (back b H db step' parent)
          (λ next. length-locator_loop db left next step' (start' + 1)) in
      omega arith
    where
      tail_length :
          (db : H.Db) (left step start : ℕ) (r : Result Error StoredHeader)
          → ((next : StoredHeader) → length (locator_loop b H db left next step start) ≤ left)
          → length (elim r as (λ _. List ℕ) [
            | ok next ↦ locator_loop b H db left next step start
            | _ ↦ []
          ])
            ≤ left
      tail_length db left step start (ok next) k = k next
      tail_length db left step start (err x) k = omega arith
      tail_length db left step start panic k = omega arith
      tail_length db left step start stuck k = omega arith

  -- A locator has at most 500 entries, and each is the hash of an ancestor of the best header: the
  -- entry at `j` of the one that lies as far back as the first `j` gaps add up to, where the gaps
  -- are 1 for the first nine entries and double after every nine.
  pub get_block_locator_entry :
      (bc : Blockchain b H) (best : StoredHeader) (j h : ℕ)
      → H.get_best_header bc.db ≡ ok best
      → get_elem? (get_block_locator b H bc) j ≡ some h
      → (length (get_block_locator b H bc) ≤ 500)
        × ((sh : StoredHeader) × (back b H bc.db (behind 0 j) best ≡ ok sh)
            × (b.block_hash sh.header ≡ h))
  unfolding get_block_locator
  get_block_locator_entry bc best j h tip g = (
    rw (tip, get_block_locator) (length-locator_loop bc.db 500 best 1 0),
    locator_loop_entry bc.db 500 best 1 0 0 0 j h (omega arith) (omega arith) (omega arith)
        (rw (tip, get_block_locator) at g),
  )
