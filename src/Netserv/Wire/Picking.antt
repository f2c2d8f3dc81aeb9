-- ===== src/Netserv/Wire/Picking.antt =====
-- Which peer startSync chooses.
use spvwallet.Prelude.{
  ℕ, ◌≡◌, ◌⊎◌, inl, inr, refl, sym, ap, subst, ◌∙◌, ◌==◌, true, false, ◌&&◌, Option, some, [], ◌∷◌,
  if◌then◌else◌, some-injective, Bool-cases, Elem,
}
use spvwallet.Prelude.Int.{ℤ, ltz, ltz_le_trans, ltz_asym, ltz_irrefl}
use spvwallet.Chain.Types.{Btcd}
use spvwallet.Chain.Headers.{Headers}
use spvwallet.Netserv.Types.{PeerLib, PeerSyncState, PeerStates, find_state}
use spvwallet.Netserv.Wire.{remains, pick_peer}
use spvwallet.Netserv.Wire.Peers.{Known}

module _ (b : Btcd) (H : Headers) (L : PeerLib) (hs : L.Heights) (height : ℤ) where
  -- The peer p of the list stays a candidate.
  abbrev pub Candidate : ℕ → PeerStates → Type 0
  Candidate p l = (s : PeerSyncState) × Elem (p, s) l × (remains b H L hs height p s ≡ true)

  abbrev pub picked : PeerStates → Option ℕ → ℤ → Option ℕ
  picked l best best_height = (pick_peer b H L hs height l best best_height).1

  pub pick_step :
      (p : ℕ) (s : PeerSyncState) (l : PeerStates) (best : Option ℕ) (top : ℤ)
      → ((remains b H L hs height p s ≡ true)
          × (ltz top (L.last_block hs p) ≡ true)
          × (picked ((p, s) ∷ l) best top ≡ picked l (some p) (L.last_block hs p)))
        ⊎ ((picked ((p, s) ∷ l) best top ≡ picked l best top)
            × ((remains b H L hs height p s ≡ false) ⊎ (ltz top (L.last_block hs p) ≡ false)))
  unfolding pick_peer
  pick_step p s l best top = elim (Bool-cases (remains b H L hs height p s)) [
    | inr r ↦ inr (rw r refl, inl r)
    | inl r ↦ elim (Bool-cases (ltz top (L.last_block hs p))) [
      | inl t ↦ inl (r, t, rw (r, t) refl)
      | inr t ↦ inr (rw (r, t) refl, inr t)
    ]
  ]

  later : (p q : ℕ) (s : PeerSyncState) (l : PeerStates) → Candidate p l → Candidate p ((q, s) ∷ l)
  later p q s l (t, e, r) = (t, inr e, r)

  pub picked-Candidate :
      (l : PeerStates) (best : Option ℕ) (top : ℤ) (p : ℕ)
      → picked l best top ≡ some p
      → (best ≡ some p) ⊎ Candidate p l
  picked-Candidate [] best top p h = inl (unfold pick_peer in h)
  picked-Candidate ((q, s) ∷ l) best top p h = elim (pick_step q s l best top) [
    | inl (r, t, e) ↦ elim (picked-Candidate l (some q) (L.last_block hs q) p (sym e ∙ h)) [
      | inl same ↦
          let e = some-injective same in
          inr
            (s, inl (ap (λ x. (x, s)) (sym e)), subst (λ x. remains b H L hs height x s ≡ true) e r)
      | inr c ↦ inr (later p q s l c)
    ]
    | inr (e, _) ↦ elim (picked-Candidate l best top p (sym e ∙ h)) [
      | inl same ↦ inl same
      | inr c ↦ inr (later p q s l c)
    ]
  ]

  -- Once there is a best peer, the choice is at least as high.
  pub picked_monotone :
      (l : PeerStates) (p : ℕ)
      → (q : ℕ) × (picked l (some p) (L.last_block hs p) ≡ some q)
        × (ltz (L.last_block hs q) (L.last_block hs p) ≡ false)
  picked_monotone [] p = (p, unfold pick_peer in refl, ltz_irrefl (L.last_block hs p))
  picked_monotone ((r, s) ∷ l) p = elim (pick_step r s l (some p) (L.last_block hs p)) [
    | inl (_, t, e) ↦
        let (q, f, up) = picked_monotone l r in
        (
          q,
          e ∙ f,
          ltz_le_trans (L.last_block hs q) (L.last_block hs r) (L.last_block hs p) up
              (ltz_asym (L.last_block hs p) (L.last_block hs r) t),
        )
    | inr (e, _) ↦ let (q, f, up) = picked_monotone l p in (q, e ∙ f, up)
  ]

  -- Either the best height is below that of `p`, or it belongs to a best peer.
  abbrev pub Ready : Option ℕ → ℤ → ℕ → Type 0
  Ready best top p =
      (ltz top (L.last_block hs p) ≡ true) ⊎ ((r : ℕ) × (best ≡ some r) × (top ≡ L.last_block hs r))

  abbrev pub AsHigh : Option ℕ → ℕ → Type 0
  AsHigh choice p =
      (q : ℕ) × (choice ≡ some q) × (ltz (L.last_block hs q) (L.last_block hs p) ≡ false)

  head_highest :
      (l : PeerStates) (best : Option ℕ) (top : ℤ) (p : ℕ) (s : PeerSyncState)
      → remains b H L hs height p s ≡ true
      → Ready best top p
      → AsHigh (picked ((p, s) ∷ l) best top) p
  head_highest l best top p s r ready = elim (pick_step p s l best top) [
    | inl (_, _, e) ↦ let (q, f, up) = picked_monotone l p in (q, e ∙ f, up)
    | inr (e, inl no_more) ↦ cc (r, no_more)
    | inr (e, inr low) ↦ elim ready [
      | inl high ↦ cc (low, high)
      | inr (r', same, at) ↦
          let (q, f, up) = picked_monotone l r' in
          (
            q,
            e ∙ ap (λ x. picked l x top) same ∙ ap (picked l (some r')) at ∙ f,
            ltz_le_trans (L.last_block hs q) (L.last_block hs r') (L.last_block hs p) up
                (subst (λ x. ltz x (L.last_block hs p) ≡ false) at low),
          )
    ]
  ]

  -- From a best height below that of a candidate, there is a choice, and it is at least as high.
  pub picked_highest :
      (l : PeerStates) (best : Option ℕ) (top : ℤ) (p : ℕ) (s : PeerSyncState)
      → Elem (p, s) l
      → remains b H L hs height p s ≡ true
      → Ready best top p
      → AsHigh (picked l best top) p
  picked_highest [] best top p s h r ready = absurd h
  picked_highest ((q, t) ∷ l) best top p s (inl e) r ready =
      subst (λ (z : ℕ × PeerSyncState). AsHigh (picked (z ∷ l) best top) p) e
        (head_highest l best top p s r ready)
  picked_highest ((q, t) ∷ l) best top p s (inr h) r ready = elim (pick_step q t l best top) [
    | inl (_, _, e) ↦
        let (x, f, up) =
          picked_highest l (some q) (L.last_block hs q) p s h r (inr (q, refl, refl)) in
        (x, e ∙ f, up)
    | inr (e, _) ↦ let (x, f, up) = picked_highest l best top p s h r ready in (x, e ∙ f, up)
  ]

  -- The peers stay the same ones.
  pub Known-pick_peer :
      (l : PeerStates) (best : Option ℕ) (top : ℤ) (p : ℕ)
      → Known p l
      → Known p (pick_peer b H L hs height l best top).0
  unfolding pick_peer find_state
  Known-pick_peer [] best top p k = k
  Known-pick_peer ((q, s) ∷ l) best top p (t, h) = elim (Bool-cases (q == p)) [
    | inl e ↦ (record s { sync_candidate = remains b H L hs height q s }, rw e refl)
    | inr e ↦
        let takes = remains b H L hs height q s && ltz top (L.last_block hs q) in
        let (u, k) =
          Known-pick_peer l (if takes then some q else best)
            (if takes then L.last_block hs q else top) p (t, rw e at h) in
        (u, rw e k)
  ]
