-- ===== src/Alliance/Setup.antt =====
-- GetAccountByPassword of alliance/utils.go and NewSigner of alliance/signer.go.
use spvwallet.Prelude.{ℕ, ◌==◌, Bool, ◌||◌, Option, List, [], if◌then◌else◌, Result, ok, ◌>>=◌}
use spvwallet.Config.{
  StartError, wallet_failed, password_failed, account_failed, key_failed, or_error,
}
use spvwallet.Chain.Types.{Net}
use spvwallet.Alliance.Signer.{Signer}
use Prim.Native.String.{String}
use text.Mathlib.Text.{◌==◌ as same_text}

-- The wallets of the alliance chain, the terminal, the file of the key, and the keys of btcd.
pub record KeyLib : Type 1 where
  pub Wallet : Type 0
  pub Account : Type 0
  pub open_wallet : String → Option Wallet
  pub get_password : Option String
  pub default_account : Wallet → String → Option Account
  pub read_file : String → Option (List ℕ)
  pub trim_func : (ℕ → Bool) → List ℕ → List ℕ
  pub base58_decode : List ℕ → List ℕ
  pub serialize_pub_key : List ℕ → List ℕ
  pub new_address_pub_key : List ℕ → Net → Option (List ℕ)

-- A space or a line feed.
unfoldable pub is_blank : ℕ → Bool
is_blank r = r == 32 || r == 10

module _ (K : KeyLib) where
  -- An empty password is asked for at the terminal.
  unfoldable pub password_of : String → Result StartError String
  password_of pwd = if same_text pwd "" then or_error password_failed K.get_password else ok pwd

  unfoldable pub get_account_by_password : String → String → Result StartError K.Account
  unfolding password_of
  get_account_by_password path pwd = do
    wallet ← or_error wallet_failed (K.open_wallet path)
    pwdb ← password_of pwd
    or_error account_failed (K.default_account wallet pwdb)

  -- A signer with its address, over an empty channel.
  unfoldable pub new_signer : String → Net → Result StartError (Signer × List ℕ)
  new_signer privk_file net = do
    key ← or_error key_failed (K.read_file privk_file)
    let pub_key = K.serialize_pub_key (K.base58_decode (K.trim_func is_blank key))
    addr ← or_error key_failed (K.new_address_pub_key pub_key net)
    ok (record { txchan = []; posted = [] }, addr)
