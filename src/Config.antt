-- ===== src/Config.antt =====
-- The configuration file of config/config.go.
use spvwallet.Prelude.{ℕ, ◌==◌, Bool, false, Option, none, some, List, Result, ok, err, ◌>>=◌}
use spvwallet.Prelude.Int.{ℤ, pos, negsuc}
use Prim.Native.String.{String}

pub record Config : Type 0 where
  pub alliance_json_rpc_address : String
  pub wallet_file : String
  pub wallet_pwd : String
  pub allia_ob_loop_wait_time : ℤ
  pub watching_key : String
  pub redeem : String
  pub waiting_db_path : String
  pub blks_to_wait : ℕ
  pub btc_privk_file : String
  pub watching_make_tx_key : String
  pub config_bitcoin_net : String
  pub config_db_path : String
  pub trusted_peer : String
  pub run_rest : ℤ
  pub run_vote : ℤ
  pub restart_duration : ℤ
  pub is_restart : ℤ
  pub rest_port : ℕ
  pub sleep_time : ℤ
  pub allia_net : String
  pub circle_to_save_height : ℕ
  pub max_read_size : ℤ

-- The switches of the configuration are on at 1 only.
unfoldable pub is_on : ℤ → Bool
is_on (pos n) = n == 1
is_on (negsuc n) = false

-- Where the start of the program fails: in the configuration, in a package that it opens, or in the
-- blockchain.
pub data StartError : Type 0 where
  open_failed read_failed json_failed : StartError
  wrong_net db_failed peers_failed chain_failed : StartError
  wallet_failed password_failed account_failed : StartError
  redeem_failed key_failed : StartError

abbrev pub or_error {ℓ} : {A : Type ℓ} → StartError → Option A → Result StartError A
or_error x none = err x
or_error x (some a) = ok a

-- The file system and the package json.
pub record Files : Type 0 where
  pub open_file : String → Option ℕ
  pub read_all : ℕ → Option (List ℕ)
  pub unmarshal : List ℕ → Option Config

module _ (F : Files) where
  -- An error when the file is closed is only printed.
  unfoldable pub read_file : String → Result StartError (List ℕ)
  read_file file_name = do
    file ← or_error open_failed (F.open_file file_name)
    or_error read_failed (F.read_all file)

  unfoldable pub load_config : String → Result StartError Config
  load_config file_name = do
    data_read ← read_file file_name
    or_error json_failed (F.unmarshal data_read)

  -- NewConfig wraps Init, which wraps loadConfig.
  unfoldable pub new_config : String → Result StartError Config
  unfolding load_config
  new_config file = load_config file
