-- ===== src/Netserv/Wire/Peers.antt =====
-- The map of peer states: what a lookup finds after a change.
use spvwallet.Prelude.{
  ℕ, ◌≡◌, inl, inr, refl, sym, ap, ◌∙◌, ◌==◌, ==_iff, false, some, [], ◌∷◌, if◌then◌else◌,
  Bool-cases, Elem, arith,
}
use spvwallet.Netserv.Types.{PeerSyncState, PeerStates, find_state, put_state, drop_state}

abbrev pub Known : ℕ → PeerStates → Type 0
Known p l = (s : PeerSyncState) × (find_state p l ≡ some s)

pub find_state-put_state :
    (p q : ℕ) (s : PeerSyncState) (l : PeerStates)
    → find_state p (put_state q s l) ≡ (if q == p then some s else find_state p l)
unfolding find_state put_state
find_state-put_state p q s [] = refl
find_state-put_state p q s ((r, t) ∷ l) = ground (arith, find_state-put_state p q s l)

pub Known-put_state_self : (p : ℕ) (s : PeerSyncState) (l : PeerStates) → Known p (put_state p s l)
Known-put_state_self p s l = (
  s,
  find_state-put_state p p s l
      ∙ ap (λ b. if b then some s else find_state p l) ((==_iff p p).1 refl),
)

pub Known-put_state :
    (p q : ℕ) (s : PeerSyncState) (l : PeerStates) → Known p l → Known p (put_state q s l)
Known-put_state p q s l (t, h) = elim (Bool-cases (q == p)) [
  | inl e ↦ (s, find_state-put_state p q s l ∙ ap (λ b. if b then some s else find_state p l) e)
  | inr e ↦ (t, find_state-put_state p q s l ∙ ap (λ b. if b then some s else find_state p l) e ∙ h)
]

pub find_state-drop_state_ne :
    (p q : ℕ) (l : PeerStates) → (q == p) ≡ false → find_state p (drop_state q l) ≡ find_state p l
unfolding find_state drop_state
find_state-drop_state_ne p q [] h = refl
find_state-drop_state_ne p q ((r, t) ∷ l) h = ground (arith, find_state-drop_state_ne p q l h)

pub Elem-Known : (l : PeerStates) (p : ℕ) (s : PeerSyncState) → Elem (p, s) l → Known p l
unfolding find_state
Elem-Known [] p s h = absurd h
Elem-Known ((q, t) ∷ l) p s (inl e) = (
  t,
  ap (λ b. if b then some t else find_state p l)
      ((==_iff q p).1 (ap (λ (z : ℕ × PeerSyncState). z.0) (sym e))),
)
Elem-Known ((q, t) ∷ l) p s (inr h) = elim (Bool-cases (q == p)) [
  | inl e ↦ (t, ap (λ b. if b then some t else find_state p l) e)
  | inr e ↦
      let (u, k) = Elem-Known l p s h in (u, ap (λ b. if b then some t else find_state p l) e ∙ k)
]
