-- ===== src/Wallet.antt =====
-- SPVWallet of wallet.go: the wire service, the peers, and the blockchain that they share.
pub mod Watcher
use spvwallet.Prelude.{
  ℕ, ◌+◌, Bool, true, false, Option, none, some, List, [], ◌∷◌, ◌++◌, map, if◌then◌else◌, Result,
  ok, err, attempt, ◌>>=◌,
}
use spvwallet.Prelude.Int.{ℤ, to_int32}
use spvwallet.Chain.Types.{
  BlockHeader, StoredHeader, Error, Params, Net, mainnet, testnet3, regtest, simnet, Btcd,
}
use spvwallet.Chain.Headers.{Headers}
use spvwallet.Chain.Blockchain
use spvwallet.Chain.Blockchain.{Blockchain}
use spvwallet.Netserv.Types.{PeerLib}
use spvwallet.Netserv.Wire
use spvwallet.Netserv.Wire.{WireService, new_wire_service}
use spvwallet.Netserv.Manager
use spvwallet.Netserv.Manager.{
  AddrLib, PeerManager, PeerManagerConfig, new_peer_manager, connected_peers,
}
use Prim.Native.String.{String}
use text.Mathlib.Text.{◌==◌ as same_text}

unfoldable pub currency_code : Net → String
currency_code mainnet = "btc"
currency_code _ = "tbtc"

-- The number of peers that a sync waits for.
unfoldable pub min_sync : Option ℕ → ℕ
min_sync none = 5
min_sync (some _) = 1

-- The network of run (cmd/run.go), which stops at any other name.
unfoldable pub net_type : String → Option Net
net_type name =
    if same_text name "regtest"
    then some regtest
    else if same_text name "test"
    then some testnet3
    else if same_text name "sim"
    then some simnet
    else none

module _ (b : Btcd) (H : Headers) (L : PeerLib) (A : AddrLib) where
  -- The blockchain of the wallet is that of its service. `queued` lists the transactions sent, by
  -- peer and hash.
  pub record SpvWallet : Type 0 where
    pub service : WireService b H L
    pub manager : PeerManager A
    pub running : Bool
    pub queued : List (ℕ × ℕ)

  abbrev pub with_service : SpvWallet → WireService b H L → SpvWallet
  with_service w ws = record w { service = ws }

  abbrev pub with_chain : SpvWallet → Blockchain b H → SpvWallet
  with_chain w bc = record w { service = record w.service { chain = bc } }

  -- NewSPVWallet over an open blockchain; the peers fail only at a port that is no number.
  unfoldable pub wallet_of : WireService b H L → Option (PeerManager A) → Option SpvWallet
  wallet_of ws none = none
  wallet_of ws (some pm) =
      some (record { service = ws; manager = pm; running = false; queued = [] })

  unfoldable pub new_spv_wallet :
      Params → Blockchain b H → L.Heights → A.Book → Option ℕ → Option ℕ → Option SpvWallet
  unfolding wallet_of min_sync
  new_spv_wallet params bc heights book port trusted =
      wallet_of (new_wire_service b H L params bc (min_sync trusted) heights) (
        new_peer_manager A
          (record {
            default_port = port;
            target_outbound = 0;
            trusted_peer = trusted;
            has_msg_chan = true;
          })
          book)

  -- getNewestBlock: the hash and the height of the best header.
  unfoldable pub newest_block : SpvWallet → Result Error (ℕ × ℤ)
  newest_block w = Blockchain.best_block b H w.service.chain >>= λ sh.
      ok (b.block_hash sh.header, to_int32 sh.height)

  unfoldable pub start : SpvWallet → SpvWallet
  start w = record w { running = true }

  -- The height and the hash of the best header, or zeros.
  unfoldable pub tip_or_zero : Option StoredHeader → ℕ × ℕ
  tip_or_zero none = (0, 0)
  tip_or_zero (some sh) = (sh.height, b.block_hash sh.header)

  unfoldable pub chain_tip : SpvWallet → Result Error (ℕ × ℕ)
  unfolding tip_or_zero
  chain_tip w =
      attempt (Blockchain.best_block b H w.service.chain) >>= λ best. ok (tip_or_zero best)

  -- `seen` is for the goroutines of PeerManager.Stop.
  unfoldable pub close : SpvWallet → (ℕ → ℕ) → SpvWallet
  close w seen =
      if w.running
      then record w {
        manager = Manager.stop A w.manager seen;
        service = Wire.stop b H L w.service;
        running = false;
      }
      else w

  unfoldable pub or_same_chain : SpvWallet → Option (Blockchain b H) → SpvWallet
  or_same_chain w none = w
  or_same_chain w (some bc) = with_chain w bc

  -- An error of Rollback is not looked at. `genesis` is the first header of the regression network.
  unfoldable pub resync_blockchain : SpvWallet → BlockHeader → ℕ → ℕ → Result Error SpvWallet
  unfolding or_same_chain
  resync_blockchain w genesis now from_date =
      attempt (Blockchain.rollback b H w.service.chain genesis now from_date) >>= λ done.
      let w' = or_same_chain w done in
      Wire.resync b H L w'.service now >>= λ ws. ok (with_service w' ws)

  unfoldable pub re_sync : SpvWallet → ℕ → Result Error SpvWallet
  re_sync w now = Wire.resync_with_nil b H L w.service now >>= λ ws. ok (with_service w ws)

  unfoldable pub broadcast : SpvWallet → ℕ → SpvWallet
  broadcast w tx = record w {
    queued = w.queued ++ map (λ p. (p, tx)) (connected_peers A w.manager);
  }
