-- ===== src/Alliance/Observer/Rounds.antt =====
-- What the rounds of the observer add up to, and the height that they save.
use spvwallet.Prelude.{
  ℕ, zero, suc, ◌+◌, ◌-◌, ◌^◌, ◌<◌, ◌==◌, ==_iff, ◌≡◌, ◌⊎◌, inl, inr, refl, sym, ap, ◌∙◌, List,
  Result, ok, err, panic, stuck, ◌>>=◌, >>=-eq-ok, ok-injective, Bool-cases, arith,
}
use spvwallet.Chain.Types.{Error}
use spvwallet.Alliance.Types.{Outside}
use spvwallet.Alliance.WaitingDb
use spvwallet.Alliance.WaitingDb.{WaitingDb}
use spvwallet.Alliance.WaitingDb.Waiting.{get_height-set_height}
use spvwallet.Alliance.Observer.{
  Event, Settings, Captured, Observer, check_events, scan, settle, saves, tick, first_block,
}

chain-split :
    (r : Result Error Captured) (f g k : Captured → Result Error Captured)
    → ((c : Captured) → f c ≡ (g c >>= k))
    → (r >>= f) ≡ (r >>= g >>= k)
chain-split (ok c) f g k h = h c
chain-split (err x) f g k h = refl
chain-split panic f g k h = refl
chain-split stuck f g k h = refl

module _ (o : Outside) where
  -- Blocks read in two batches give what they give in one: the same items in the same order, and
  -- the same counts.
  pub scan-add :
      (s : Settings) (events : ℕ → List Event) (m n h : ℕ) (c : Captured)
      → scan o s events (m + n) h c ≡ (scan o s events m h c >>= scan o s events n (h + m))
  unfolding scan
  scan-add s events zero n h c =
      let a : 0 + n ≡ n = omega arith in let b : h + 0 ≡ h = omega arith in rw (a, b) refl
  scan-add s events (suc m) n h c =
      let a : suc m + n ≡ suc (m + n) = omega arith in
      let b : h + suc m ≡ h + 1 + m = omega arith in
      rw (a, b)
        (chain-split (check_events o s c (events h)) (scan o s events (m + n) (h + 1))
          (scan o s events m (h + 1)) (scan o s events n (h + 1 + m))
          (scan-add s events m n (h + 1)))

  tick_cases :
      (s : Settings) (events : ℕ → List Event) (ob ob' : Observer o) (new_top : ℕ)
      → tick o s events ob new_top ≡ ok ob'
      → ((new_top ≡ ob.top) × (ob ≡ ob'))
        ⊎ ((c : Captured) × (scan o s events
                (new_top + 1 - first_block o ob.top)
                (first_block o ob.top)
                (record { voting = ob.voting; signing = ob.signing; to_vote = 0; to_sign = 0 })
              ≡ ok c)
            × (settle o s ob new_top c ≡ ok ob'))
  unfolding tick
  tick_cases s events ob ob' new_top h = elim (Bool-cases (new_top == ob.top)) [
    | inl same ↦ inl ((==_iff _ _).0 same, ok-injective (rw same at h))
    | inr moved ↦ elim (Bool-cases (new_top == 2 ^ 32 - 1)) [
      | inl last ↦ cc (rw (moved, last) at h)
      | inr room ↦ inr (
          >>=-eq-ok
            (scan o s events (new_top + 1 - first_block o ob.top) (first_block o ob.top)
              (record { voting = ob.voting; signing = ob.signing; to_vote = 0; to_sign = 0 }))
            _ (rw (moved, room) at h))
    ]
  ]

  -- For an answer of the alliance chain on uint32: a tick that returns leaves the observer at that
  -- height, also where it is below the one before, and the height saved in the database is that one,
  -- or the database is as it was.
  pub tick_height :
      (s : Settings) (events : ℕ → List Event) (ob ob' : Observer o) (new_top : ℕ)
      → new_top < 2 ^ 32
      → tick o s events ob new_top ≡ ok ob'
      → (ob'.top ≡ new_top) × ((WaitingDb.get_height o ob'.db ≡ ok new_top) ⊎ (ob'.db ≡ ob.db))
  unfolding settle
  tick_height s events ob ob' new_top fits h = elim (tick_cases s events ob ob' new_top h) [
    | inl (same, still) ↦ (
      ap (λ (x : Observer o). x.top) (sym still) ∙ sym same,
      inr (ap (λ (x : Observer o). x.db) (sym still)),
    )
    | inr (c, scanned, settled) ↦
        let (saved, p, q) = >>=-eq-ok (saves o s c new_top) _ settled in
        let e = ok-injective q in
        (
          ap (λ (x : Observer o). x.top) (sym e),
          elim (Bool-cases saved) [
            | inl y ↦ inl (
                ap (λ (x : Observer o). WaitingDb.get_height o x.db) (sym (rw y at e))
                ∙ get_height-set_height o ob.db new_top fits)
            | inr n ↦ inr (ap (λ (x : Observer o). x.db) (sym (rw n at e)))
          ],
        )
  ]
