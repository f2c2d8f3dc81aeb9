-- ===== src/Wallet/Watcher.antt =====
-- resyncSpv of cmd/run.go: a timer that looks whether the chain grows, and syncs again if it does not.
pub mod Restarts
use spvwallet.Prelude.{
  ℕ, zero, suc, ◌+◌, ◌-◌, ◌*◌, ◌/◌, Bool, true, false, Option, none, some, List, [], ◌∷◌, leb,
  if◌then◌else◌, Result, ok, err, attempt, ◌>>=◌,
}
use spvwallet.Chain.Types.{BlockHeader, StoredHeader, Error, Btcd}
use spvwallet.Chain.Headers.{Headers}
use spvwallet.Chain.Blockchain
use spvwallet.Chain.Blockchain.{Blockchain}
use spvwallet.Netserv.Types.{PeerLib}
use spvwallet.Netserv.Manager.{AddrLib}
use spvwallet.Wallet
use spvwallet.Wallet.{SpvWallet, with_chain}

-- 180 minutes in seconds.
abbrev pub three_hours : ℕ
three_hours = 180 * 60

-- A minute in nanoseconds.
abbrev pub minute : ℕ
minute = 60 * 1_000_000_000

module _ (b : Btcd) (H : Headers) (L : PeerLib) (A : AddrLib) where
  -- `timer` is when the timer fires next, if it does.
  pub record Watcher : Type 0 where
    pub wallet : SpvWallet b H L A
    pub last_height : ℕ
    pub again : Bool
    pub timer : Option ℕ
    pub interval : ℕ

  abbrev pub chain_of : Watcher → Blockchain b H
  chain_of r = r.wallet.service.chain

  -- The program exits where there is no best header.
  unfoldable pub new_watcher : SpvWallet b H L A → ℕ → Result Error Watcher
  new_watcher w dura = Blockchain.best_block b H w.service.chain >>= λ sh. ok (record {
    wallet = w;
    last_height = sh.height;
    again = false;
    timer = some (dura * minute);
    interval = dura * minute;
  })

  -- ReSync, and the end of the round.
  unfoldable pub restart : Watcher → ℕ → ℕ → Bool → Result Error Watcher
  restart r now height again = Wallet.re_sync b H L A r.wallet now >>= λ w.
      ok (record r {
        wallet = w;
        last_height = height;
        again = again;
        timer = some (r.interval / 2);
      })

  -- `continue` without a reset of the timer.
  abbrev pub give_up : Watcher → Watcher
  give_up r = record r { timer = none }

  unfoldable pub rolled_back : Watcher → ℕ → ℕ → Option (Blockchain b H) → Result Error Watcher
  unfolding restart
  rolled_back r now height none = ok (give_up r)
  rolled_back r now height (some bc) =
      restart (record r { wallet = with_chain b H L A r.wallet bc }) now height false

  unfoldable pub stalled : Watcher → BlockHeader → ℕ → StoredHeader → Bool → Result Error Watcher
  unfolding restart rolled_back
  stalled r genesis now sh true =
      attempt (Blockchain.rollback b H (chain_of r) genesis now (sh.header.timestamp - three_hours))
      >>= λ done. rolled_back r now sh.height done
  stalled r genesis now sh false = restart r now sh.height true

  unfoldable pub look : Watcher → BlockHeader → ℕ → Option StoredHeader → Result Error Watcher
  unfolding stalled
  look r genesis now none = ok (give_up r)
  look r genesis now (some sh) =
      if leb sh.height r.last_height
      then stalled r genesis now sh r.again
      else ok (record r { last_height = sh.height; again = false; timer = some r.interval })

  unfoldable pub fire : Watcher → BlockHeader → ℕ → Option ℕ → Result Error Watcher
  unfolding look
  fire r genesis now none = ok r
  fire r genesis now (some _) =
      attempt (Blockchain.best_block b H (chain_of r)) >>= λ best. look r genesis now best

  -- A round of the loop, which waits forever where the timer is not set.
  unfoldable pub tick : Watcher → BlockHeader → ℕ → Result Error Watcher
  unfolding fire
  tick r genesis now = fire r genesis now r.timer
