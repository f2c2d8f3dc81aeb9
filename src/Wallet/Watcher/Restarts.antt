-- ===== src/Wallet/Watcher/Restarts.antt =====
-- When the watcher rolls the chain back, and what an error does to it.
use spvwallet.Prelude.{
  ℕ, ◌-◌, ◌/◌, ◌≡◌, ◌⊎◌, inl, inr, refl, sym, ap, subst, ◌∙◌, Bool, true, false, Option, none, some,
  leb, Result, ok, err, attempt, ◌>>=◌, >>=-eq-ok, ok-injective, Bool-cases,
}
use spvwallet.Chain.Types.{BlockHeader, StoredHeader, Error, Btcd}
use spvwallet.Chain.Headers.{Headers}
use spvwallet.Chain.Blockchain
use spvwallet.Chain.Blockchain.{Blockchain}
use spvwallet.Netserv.Types.{PeerLib}
use spvwallet.Netserv.Wire
use spvwallet.Netserv.Wire.Syncing.{attempt_cases, start_sync-Synced}
use spvwallet.Netserv.Manager.{AddrLib}
use spvwallet.Wallet
use spvwallet.Wallet.{SpvWallet, with_chain}
use spvwallet.Wallet.Watcher.{
  three_hours, Watcher, chain_of, restart, give_up, rolled_back, stalled, look, fire, tick,
}

module _ (b : Btcd) (H : Headers) (L : PeerLib) (A : AddrLib) where
  pub re_sync-chain :
      (w w' : SpvWallet b H L A) (now : ℕ)
      → Wallet.re_sync b H L A w now ≡ ok w'
      → w'.service.chain ≡ w.service.chain
  unfolding Wallet.re_sync Wire.resync_with_nil
  re_sync-chain w w' now h =
      let (ws, at, e) = >>=-eq-ok (Wire.resync_with_nil b H L w.service now) _ h in
      ap (λ (x : SpvWallet b H L A). x.service.chain) (sym (ok-injective e))
      ∙ (start_sync-Synced b H L w.service ws now none at).same_chain

  -- A restart leaves the chain, and the timer fires again after half of the interval.
  pub record Restarted (r r' : Watcher b H L A) (height : ℕ) (again : Bool) : Type 0 where
    pub same_chain : chain_of b H L A r' ≡ chain_of b H L A r
    pub height_is : r'.last_height ≡ height
    pub again_is : r'.again ≡ again
    pub timer_is : r'.timer ≡ some (r.interval / 2)

  restart-Restarted :
      (r r' : Watcher b H L A) (now height : ℕ) (again : Bool)
      → restart b H L A r now height again ≡ ok r'
      → Restarted r r' height again
  unfolding restart
  restart-Restarted r r' now height again h =
      let (w, at, e) = >>=-eq-ok (Wallet.re_sync b H L A r.wallet now) _ h in
      let same = sym (ok-injective e) in
      record {
        same_chain = ap (chain_of b H L A) same ∙ re_sync-chain r.wallet w now at;
        height_is = ap (λ (x : Watcher b H L A). x.last_height) same;
        again_is = ap (λ (x : Watcher b H L A). x.again) same;
        timer_is = ap (λ (x : Watcher b H L A). x.timer) same;
      }

  -- The date to roll back to.
  abbrev pub rolls_to :
      Watcher b H L A → BlockHeader → ℕ → StoredHeader → Result Error (Blockchain b H)
  rolls_to r genesis now sh =
      Blockchain.rollback b H (chain_of b H L A r) genesis now (sh.header.timestamp - three_hours)

  -- What a round does: it gives up, or the chain grew, or the chain stands still for the first time,
  -- or again.
  pub data Round (genesis : BlockHeader) (now : ℕ) (r r' : Watcher b H L A) : Type 0 where
    gives_up : r' ≡ give_up b H L A r → Round genesis now r r'
    grew :
        (sh : StoredHeader)
        → Blockchain.best_block b H (chain_of b H L A r) ≡ ok sh
        → leb sh.height r.last_height ≡ false
        → r' ≡ record r { last_height = sh.height; again = false; timer = some r.interval }
        → Round genesis now r r'
    first_stall :
        (sh : StoredHeader)
        → Blockchain.best_block b H (chain_of b H L A r) ≡ ok sh
        → leb sh.height r.last_height ≡ true
        → r.again ≡ false
        → Restarted r r' sh.height true
        → Round genesis now r r'
    next_stall :
        (sh : StoredHeader) (bc : Blockchain b H)
        → Blockchain.best_block b H (chain_of b H L A r) ≡ ok sh
        → leb sh.height r.last_height ≡ true
        → r.again ≡ true
        → rolls_to r genesis now sh ≡ ok bc
        → Restarted (record r { wallet = with_chain b H L A r.wallet bc }) r' sh.height false
        → Round genesis now r r'

  stalled-Round :
      (genesis : BlockHeader) (now : ℕ) (r r' : Watcher b H L A) (sh : StoredHeader) (a : Bool)
      → Blockchain.best_block b H (chain_of b H L A r) ≡ ok sh
      → leb sh.height r.last_height ≡ true
      → r.again ≡ a
      → stalled b H L A r genesis now sh a ≡ ok r'
      → Round genesis now r r'
  unfolding stalled rolled_back
  stalled-Round genesis now r r' sh false at low is h =
      first_stall sh at low is (restart-Restarted r r' now sh.height true h)
  stalled-Round genesis now r r' sh true at low is h =
      let (done, tried, e) = >>=-eq-ok (attempt (rolls_to r genesis now sh)) _ h in
      elim (attempt_cases (rolls_to r genesis now sh) done tried) [
        | inl (bc, rolled, some_is) ↦ next_stall sh bc at low is rolled (
            restart-Restarted (record r { wallet = with_chain b H L A r.wallet bc }) r' now
              sh.height false (ap (rolled_back b H L A r now sh.height) (sym some_is) ∙ e))
        | inr (x, failed, none_is) ↦
            gives_up
              (sym (ok-injective (ap (rolled_back b H L A r now sh.height) (sym none_is) ∙ e)))
      ]

  fire-Round :
      (genesis : BlockHeader) (now : ℕ) (r r' : Watcher b H L A) (t : Option ℕ)
      → r.timer ≡ t
      → fire b H L A r genesis now t ≡ ok r'
      → ((t ≡ none) × (r' ≡ r)) ⊎ Round genesis now r r'
  unfolding fire look
  fire-Round genesis now r r' none is h = inl (refl, sym (ok-injective h))
  fire-Round genesis now r r' (some t) is h =
      let (best, tried, e) =
        >>=-eq-ok (attempt (Blockchain.best_block b H (chain_of b H L A r))) _ h in
      inr (elim (attempt_cases (Blockchain.best_block b H (chain_of b H L A r)) best tried) [
        | inr (x, failed, none_is) ↦
            gives_up (sym (ok-injective (ap (look b H L A r genesis now) (sym none_is) ∙ e)))
        | inl (sh, at, some_is) ↦
            let looked = ap (look b H L A r genesis now) (sym some_is) ∙ e in
            elim (Bool-cases (leb sh.height r.last_height)) [
              | inl low ↦ stalled-Round genesis now r r' sh r.again at low refl (rw low at looked)
              | inr high ↦ grew sh at high (sym (ok-injective (rw high at looked)))
            ]
      ])

  -- A timer that is not set stays so, and nothing happens any more.
  abbrev pub Dead : Watcher b H L A → Type 0
  Dead r = r.timer ≡ none

  pub tick_cases :
      (genesis : BlockHeader) (now : ℕ) (r r' : Watcher b H L A)
      → tick b H L A r genesis now ≡ ok r'
      → (Dead r × (r' ≡ r)) ⊎ Round genesis now r r'
  unfolding tick
  tick_cases genesis now r r' h = fire-Round genesis now r r' r.timer refl h

  -- A round that changes the chain rolls it back, and the one before found it standing still.
  Round-again :
      (genesis : BlockHeader) (now : ℕ) (r r' : Watcher b H L A)
      → Round genesis now r r'
      → (chain_of b H L A r' ≡ chain_of b H L A r) ⊎ ((r.again ≡ true) × (r'.again ≡ false))
  Round-again genesis now r r' (gives_up e) = inl (ap (chain_of b H L A) e)
  Round-again genesis now r r' (grew sh at high e) = inl (ap (chain_of b H L A) e)
  Round-again genesis now r r' (first_stall sh at low n f) = inl f.same_chain
  Round-again genesis now r r' (next_stall sh bc at low y rolled f) = inr (y, f.again_is)

  tick-again :
      (genesis : BlockHeader) (now : ℕ) (r r' : Watcher b H L A)
      → tick b H L A r genesis now ≡ ok r'
      → (chain_of b H L A r' ≡ chain_of b H L A r) ⊎ ((r.again ≡ true) × (r'.again ≡ false))
  tick-again genesis now r r' h = elim (tick_cases genesis now r r' h) [
    | inl (_, e) ↦ inl (ap (chain_of b H L A) e)
    | inr round ↦ Round-again genesis now r r' round
  ]

  -- Of two rounds in a row, with any change of the wallet in between, at most one changes the chain.
  pub tick_spares :
      (genesis : BlockHeader) (now later : ℕ) (r r1 r2 : Watcher b H L A) (w : SpvWallet b H L A)
      → tick b H L A r genesis now ≡ ok r1
      → tick b H L A (record r1 { wallet = w }) genesis later ≡ ok r2
      → (chain_of b H L A r1 ≡ chain_of b H L A r) ⊎ (chain_of b H L A r2 ≡ w.service.chain)
  tick_spares genesis now later r r1 r2 w h k = elim (tick-again genesis now r r1 h) [
    | inl same ↦ inl same
    | inr (_, n) ↦ elim (tick-again genesis later (record r1 { wallet = w }) r2 k) [
      | inl same ↦ inr same
      | inr (y, _) ↦ cc
    ]
  ]

  stall_tick :
      (genesis : BlockHeader) (now t : ℕ) (r : Watcher b H L A) (sh : StoredHeader) (a : Bool)
      → r.timer ≡ some t
      → Blockchain.best_block b H (chain_of b H L A r) ≡ ok sh
      → leb sh.height r.last_height ≡ true
      → r.again ≡ a
      → tick b H L A r genesis now ≡ stalled b H L A r genesis now sh a
  unfolding tick fire look
  stall_tick genesis now t r sh a set at low is =
      ap (fire b H L A r genesis now) set
      ∙ ap (λ (x : Result Error StoredHeader). attempt x >>= look b H L A r genesis now) at
      ∙ (rw low refl ∙ ap (stalled b H L A r genesis now sh) is)

  rolled_back_to :
      (genesis : BlockHeader) (now : ℕ) (r r' : Watcher b H L A) (sh : StoredHeader)
      (bc : Blockchain b H)
      → rolls_to r genesis now sh ≡ ok bc
      → stalled b H L A r genesis now sh true ≡ ok r'
      → Restarted (record r { wallet = with_chain b H L A r.wallet bc }) r' sh.height false
  unfolding stalled rolled_back
  rolled_back_to genesis now r r' sh bc rolled h =
      restart-Restarted (record r { wallet = with_chain b H L A r.wallet bc }) r' now sh.height
        false
        (ap
            (λ (x : Result Error (Blockchain b H)).
              attempt x >>= rolled_back b H L A r now sh.height)
            (sym rolled)
          ∙ h)

  -- The height stands still in two rounds in a row, whatever else happens to the wallet in between,
  -- and the rollback of the second one succeeds: the first leaves the chain, the second ends with the
  -- chain rolled back to three hours before its best header, and the count starts again.
  pub tick_rolls_back :
      (genesis : BlockHeader) (now later t : ℕ) (r r1 r2 : Watcher b H L A) (w : SpvWallet b H L A)
      (sh sh' : StoredHeader) (bc : Blockchain b H)
      → r.timer ≡ some t
      → r.again ≡ false
      → Blockchain.best_block b H (chain_of b H L A r) ≡ ok sh
      → leb sh.height r.last_height ≡ true
      → tick b H L A r genesis now ≡ ok r1
      → Blockchain.best_block b H w.service.chain ≡ ok sh'
      → leb sh'.height sh.height ≡ true
      → Blockchain.rollback b H w.service.chain genesis later (sh'.header.timestamp - three_hours)
        ≡ ok bc
      → tick b H L A (record r1 { wallet = w }) genesis later ≡ ok r2
      → (chain_of b H L A r1 ≡ chain_of b H L A r) × (chain_of b H L A r2 ≡ bc) × (r2.again ≡ false)
  unfolding stalled
  tick_rolls_back genesis now later t r r1 r2 w sh sh' bc set n at low h at' low' rolled k =
      let f =
        restart-Restarted r r1 now sh.height true
          (sym (stall_tick genesis now t r sh false set at low n) ∙ h) in
      let r1' = record r1 { wallet = w } in
      let low1 = subst (λ x. leb sh'.height x ≡ true) (sym f.height_is) low' in
      let g = rolled_back_to genesis later r1' r2 sh' bc rolled (
        sym (stall_tick genesis later (r.interval / 2) r1' sh' true f.timer_is at' low1 f.again_is)
        ∙ k) in
      (f.same_chain, g.same_chain, g.again_is)

  -- After an error of BestBlock the timer is set no more: whatever happens to the wallet, every later
  -- round leaves the watcher as it is.
  pub tick_gives_up :
      (genesis : BlockHeader) (now later t : ℕ) (r : Watcher b H L A) (w : SpvWallet b H L A)
      (x : Error)
      → r.timer ≡ some t
      → Blockchain.best_block b H (chain_of b H L A r) ≡ err x
      → (tick b H L A r genesis now ≡ ok (give_up b H L A r))
        × (tick b H L A (record (give_up b H L A r) { wallet = w }) genesis later
            ≡ ok (record (give_up b H L A r) { wallet = w }))
  unfolding tick fire look
  tick_gives_up genesis now later t r w x set failed = (
    ap (fire b H L A r genesis now) set
        ∙ ap (λ (y : Result Error StoredHeader). attempt y >>= look b H L A r genesis now) failed,
    refl,
  )
