-- ===== src/Chain/Checkpoints/Choice.antt =====
-- Which checkpoint a date gets.
use spvwallet.Prelude.{
  ℕ, ◌≤◌, ◌<◌, ◌≡◌, refl, sym, ap, inl, inr, List, [], ◌∷◌, Elem, All, All-elem, Option, none, some,
  some-injective, subst, ltb, ltb→lt, lt→ltb, false, Bool-cases, arith,
}
use spvwallet.Chain.Types.{BlockHeader, Params, Net, mainnet, testnet3, regtest, simnet}
use spvwallet.Chain.Checkpoints.{
  Checkpoint, Checkpoints, mainnet_checkpoints, testnet3_checkpoints, latest_before, choose,
  get_checkpoint,
}
use mathlib.Core.List.{reverse}

abbrev Descending : List Checkpoint → Type 0
Descending [] = Unit
Descending (c ∷ cs) =
    All (λ (x : Checkpoint). x.header.timestamp ≤ c.header.timestamp) cs × Descending cs

latest_before_newest :
    (date : ℕ) (cs : List Checkpoint) (otherwise c : Checkpoint)
    → Descending cs
    → Elem c cs
    → c.header.timestamp < date
    → ((latest_before date cs otherwise).header.timestamp < date)
      × (c.header.timestamp ≤ (latest_before date cs otherwise).header.timestamp)
unfolding latest_before
latest_before_newest date [] otherwise c desc m h = absurd m
latest_before_newest date (x ∷ cs) otherwise c desc m h =
    elim (Bool-cases (ltb x.header.timestamp date)) [
      | inl early ↦ rw early (ltb→lt _ _ early, not_newer m)
      | inr late ↦ rw late (latest_before_newest date cs otherwise c desc.1 (in_tail late m) h)
    ]
  where
    not_newer : Elem c (x ∷ cs) → c.header.timestamp ≤ x.header.timestamp
    not_newer (inl p) = rw p (omega arith)
    not_newer (inr q) =
        All-elem (λ (y : Checkpoint). y.header.timestamp ≤ x.header.timestamp) cs c desc.0 q

    in_tail : (ltb x.header.timestamp date ≡ false) → Elem c (x ∷ cs) → Elem c cs
    in_tail late (inl p) =
        cc
          (ap (λ (y : Checkpoint). ltb y.header.timestamp date) p, lt→ltb c.header.timestamp date h)
    in_tail late (inr q) = q

abbrev NewestOf : Checkpoints → ℕ → Checkpoint → Type 0
NewestOf cs date r =
    (c : Checkpoint)
    → Elem c (cs.first ∷ cs.later)
    → c.header.timestamp < date
    → (r.header.timestamp < date) × (c.header.timestamp ≤ r.header.timestamp)

mainnet_newest : (date : ℕ) → NewestOf mainnet_checkpoints date (choose date mainnet_checkpoints)
unfolding choose
mainnet_newest date c m h =
    latest_before_newest date (reverse (mainnet_checkpoints.first ∷ mainnet_checkpoints.later))
      mainnet_checkpoints.first c (omega arith) (turn m) h
  where
    turn :
        Elem c (mainnet_checkpoints.first ∷ mainnet_checkpoints.later)
        → Elem c (reverse (mainnet_checkpoints.first ∷ mainnet_checkpoints.later))
    turn (inl p) = inr (inr (inl p))
    turn (inr (inl p)) = inr (inl p)
    turn (inr (inr (inl p))) = inl p
    turn (inr (inr (inr z))) = absurd z

testnet3_newest : (date : ℕ) → NewestOf testnet3_checkpoints date (choose date testnet3_checkpoints)
unfolding choose
testnet3_newest date c m h =
    latest_before_newest date (reverse (testnet3_checkpoints.first ∷ testnet3_checkpoints.later))
      testnet3_checkpoints.first c (omega arith) (turn m) h
  where
    turn :
        Elem c (testnet3_checkpoints.first ∷ testnet3_checkpoints.later)
        → Elem c (reverse (testnet3_checkpoints.first ∷ testnet3_checkpoints.later))
    turn (inl p) = inr (inr (inl p))
    turn (inr (inl p)) = inr (inl p)
    turn (inr (inr (inl p))) = inl p
    turn (inr (inr (inr z))) = absurd z

-- The checkpoints that a network comes with.
abbrev pub built_in : Net → Option Checkpoints
built_in mainnet = some mainnet_checkpoints
built_in testnet3 = some testnet3_checkpoints
built_in _ = none

-- On a network with built-in checkpoints: if one of them is older than the date, the one chosen is
-- older than the date too, and it is at least as new as that one.
pub get_checkpoint_newest :
    (genesis : BlockHeader) (date : ℕ) (p : Params) (cs : Checkpoints) (c : Checkpoint)
    → built_in p.name ≡ some cs
    → Elem c (cs.first ∷ cs.later)
    → c.header.timestamp < date
    → ((get_checkpoint genesis date p).header.timestamp < date)
      × (c.header.timestamp ≤ (get_checkpoint genesis date p).header.timestamp)
get_checkpoint_newest genesis date p cs c known m h = go p.name refl known
  where
    go :
        (n : Net)
        → p.name ≡ n
        → built_in n ≡ some cs
        → ((get_checkpoint genesis date p).header.timestamp < date)
          × (c.header.timestamp ≤ (get_checkpoint genesis date p).header.timestamp)
    go mainnet e k =
        let same : mainnet_checkpoints ≡ cs = some-injective k in
        unfold get_checkpoint in
        rw (e, get_checkpoint)
          (mainnet_newest date c
            (subst (λ (x : Checkpoints). Elem c (x.first ∷ x.later)) (sym same) m) h)
    go testnet3 e k =
        let same : testnet3_checkpoints ≡ cs = some-injective k in
        unfold get_checkpoint in
        rw (e, get_checkpoint)
          (testnet3_newest date c
            (subst (λ (x : Checkpoints). Elem c (x.first ∷ x.later)) (sym same) m) h)
    go regtest e k = cc
    go simnet e k = cc
