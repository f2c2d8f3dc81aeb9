-- ===== src/Alliance/Signer/Rounds.antt =====
-- What is signed, and what a round of Signing keeps.
use spvwallet.Prelude.{
  ℕ, zero, suc, ◌+◌, ◌<◌, ◌≡◌, inl, inr, refl, sym, ap, subst, ◌∙◌, Option, none, some, List, [],
  ◌∷◌, ◌++◌, length, get_elem?, some-injective, Option-cases, Elem, arith,
}
use spvwallet.Alliance.Types.{Tx}
use spvwallet.Alliance.Observer.{ToSignItem}
use spvwallet.Alliance.Voter.{post_error}
use spvwallet.Alliance.Signer.{
  SignLib, Signer, add_sig, sigs_from, get_sigs, post_sigs, receive, signing,
}

add_sig-some :
    (o : Option (List ℕ)) (rest : Option (List (List ℕ))) (sigs : List (List ℕ))
    → add_sig o rest ≡ some sigs
    → (sig : List ℕ) × (more : List (List ℕ)) × (o ≡ some sig)
      × (rest ≡ some more)
      × (sigs ≡ sig ∷ more)
add_sig-some (some sig) (some more) sigs h = (sig, more, refl, refl, sym (some-injective h))
add_sig-some (some sig) none sigs h = cc
add_sig-some none rest sigs h = cc

pub Elem-append_left : {A : Type 0} (a : A) (xs ys : List A) → Elem a xs → Elem a (xs ++ ys)
Elem-append_left a [] ys e = absurd e
Elem-append_left a (x ∷ xs) ys (inl e) = inl e
Elem-append_left a (x ∷ xs) ys (inr e) = inr (Elem-append_left a xs ys e)

pub Elem-append_last : {A : Type 0} (a : A) (xs : List A) → Elem a (xs ++ (a ∷ []))
Elem-append_last a [] = inl refl
Elem-append_last a (x ∷ xs) = inr (Elem-append_last a xs)

module _ (S : SignLib) where
  -- The list has the signature of each of the inputs from `i` on, in their order.
  abbrev pub Signs : Tx → List ℕ → ℕ → ℕ → List (List ℕ) → Type 0
  Signs tx redeem i n sigs =
      (length sigs ≡ n)
      × ((k : ℕ) → k < n → get_elem? sigs k ≡ S.raw_tx_in_signature tx (i + k) redeem)

  Signs-cons :
      (tx : Tx) (redeem : List ℕ) (i n : ℕ) (sig : List ℕ) (more : List (List ℕ))
      → S.raw_tx_in_signature tx i redeem ≡ some sig
      → Signs tx redeem (i + 1) n more
      → Signs tx redeem i (suc n) (sig ∷ more)
  Signs-cons tx redeem i n sig more at (count, each) = (ap suc count, nth)
    where
      nth : (k : ℕ) → k < suc n → get_elem? (sig ∷ more) k ≡ S.raw_tx_in_signature tx (i + k) redeem
      nth zero l =
          sym at ∙ ap (λ j. S.raw_tx_in_signature tx j redeem) {x = i} {y = i + 0} (omega arith)
      nth (suc k) l =
          each k (omega arith)
          ∙ ap (λ j. S.raw_tx_in_signature tx j redeem) {x = i + 1 + k} {y = i + suc k}
              (omega arith)

  sigs_from-Signs :
      (tx : Tx) (redeem : List ℕ) (i n : ℕ) (sigs : List (List ℕ))
      → sigs_from S tx redeem i n ≡ some sigs
      → Signs tx redeem i n sigs
  unfolding sigs_from
  sigs_from-Signs tx redeem i zero sigs h =
      (subst (λ l. length l ≡ 0) (some-injective h) refl, λ k l. absurd (omega arith))
  sigs_from-Signs tx redeem i (suc n) sigs h =
      let (sig, more, at, rest, e) =
        add_sig-some (S.raw_tx_in_signature tx i redeem) (sigs_from S tx redeem (i + 1) n) sigs h in
      subst (Signs tx redeem i (suc n)) (sym e)
        (Signs-cons tx redeem i n sig more at (sigs_from-Signs tx redeem (i + 1) n more rest))

  -- The signatures that getSigs returns are those of all inputs of the transaction, in their order.
  pub get_sigs-Signs :
      (tx : Tx) (redeem : List ℕ) (sigs : List (List ℕ))
      → get_sigs S tx redeem ≡ some sigs
      → Signs tx redeem 0 (S.inputs tx) sigs
  unfolding get_sigs
  get_sigs-Signs tx redeem sigs h = sigs_from-Signs tx redeem 0 (S.inputs tx) sigs h

  receive_keeps :
      (s : Signer) (x : ToSignItem) (sigs : List (List ℕ)) (queue : List ToSignItem)
      → get_sigs S x.mtx x.redeem ≡ some sigs
      → Elem x queue
      → Elem x (receive S s post_error queue).txchan
  unfolding receive post_sigs
  receive_keeps s x sigs [] signed e = absurd e
  receive_keeps s x sigs (item ∷ rest) signed e =
      elim (Option-cases (get_sigs S item.mtx item.redeem)) [
        | inl bad ↦ elim e [
          | inl same ↦ cc (ap (λ (y : ToSignItem). get_sigs S y.mtx y.redeem) same)
          | inr later ↦ rw bad later
        ]
        | inr (out, good) ↦ rw good (elim e [
          | inl same ↦ subst (λ y. Elem x (rest ++ (y ∷ []))) same (Elem-append_last x rest)
          | inr later ↦ Elem-append_left x rest (item ∷ []) later
        ])
      ]

  -- A round in which the alliance chain cannot be reached loses no item that can be signed: what was
  -- in the channel is in it afterwards.
  pub signing_keeps :
      (s : Signer) (x : ToSignItem) (sigs : List (List ℕ))
      → get_sigs S x.mtx x.redeem ≡ some sigs
      → Elem x s.txchan
      → Elem x (signing S s post_error).txchan
  unfolding signing
  signing_keeps s x sigs signed e = receive_keeps s x sigs s.txchan signed e
