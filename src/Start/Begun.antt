-- ===== src/Start/Begun.antt =====
-- What run has done where it ends without an error, and the headers of the program that it starts.
use spvwallet.Prelude.{
  ℕ, ◌^◌, ◌<◌, ◌≡◌, refl, sym, ap, subst, ◌∙◌, Bool, true, false, Option, none, some,
  some-injective, List, panic, stuck, Result, ok, err, >>=-eq-ok, ok-injective,
}
use spvwallet.Prelude.Int.{pos_part}
use spvwallet.Config.{
  Config, is_on, StartError, wrong_net, db_failed, peers_failed, or_error, new_config,
}
use spvwallet.Chain.Types.{BlockHeader, StoredHeader, Error, Net, BtcdLaws, IsWire}
use spvwallet.Chain.Cache.{Env, Key}
use spvwallet.Chain.HeaderDb.{
  new_header_db, initialize_cache, get_header, get_best_header, best_or_tip, read_tip,
}
use spvwallet.Chain.HeaderDb.Interface.{header_db}
use spvwallet.Chain.Blockchain.{new_blockchain}
use spvwallet.Chain.Blockchain.Rooted.{Rooted}
use spvwallet.Chain.Session.{Chain, IsEmpty, root_of}
use spvwallet.Alliance.Types.{Outside}
use spvwallet.Alliance.Setup.{KeyLib}
use spvwallet.Netserv.Types.{PeerLib}
use spvwallet.Netserv.Manager.{AddrLib}
use spvwallet.Wallet.{net_type, new_spv_wallet, start}
use spvwallet.Wallet.Watcher.{new_watcher}
use spvwallet.Rest.Service.{Parsers}
use spvwallet.Program.{Reach, program-Rooted}
use spvwallet.Program.Serves.{Spv, Watch}
use spvwallet.Start.{
  Machine, Running, SpvConfig, spv_config, open_wallet, start_spv, alliance_of, rest_of, watch, run,
  or_chain_failed,
}
use Prim.Native.String.{String}

or_error-some {ℓ} :
    {A : Type ℓ} (x : StartError) (o : Option A) (a : A) → or_error x o ≡ ok a → o ≡ some a
or_error-some x none a h = cc
or_error-some x (some b) a h = ap some (ok-injective h)

or_chain_ok {ℓ} : {A : Type ℓ} (r : Result Error A) (a : A) → or_chain_failed r ≡ ok a → r ≡ ok a
unfolding or_chain_failed
or_chain_ok (ok b) a h = ap ok (ok-injective h)
or_chain_ok (err x) a h = cc
or_chain_ok panic a h = cc
or_chain_ok stuck a h = cc

module _ (e : Env) (L : PeerLib) (A : AddrLib) (o : Outside) (K : KeyLib)
    (M : Machine e L A o K) where
  open e use {btcd}

  -- What a start of the wallet went through.
  pub record Opens (c : SpvConfig) (genesis : BlockHeader) (now : ℕ) (w : Spv e L A) : Type 0 where
    pub headers : e.bucket.Store
    pub tip : Option (List ℕ)
    pub chain : Chain e
    pub opened : M.open_headers c.repo_path ≡ some (headers, tip)
    pub made :
        new_blockchain btcd
          (header_db e)
          (new_header_db e M.new_ordered_map headers tip)
          (M.params_of c.net)
          c.is_vote
          genesis
          now
        ≡ ok chain
    pub wallet :
        new_spv_wallet btcd
          (header_db e)
          L
          A
          (M.params_of c.net)
          chain
          M.no_heights
          (M.address_book c.repo_path)
          (M.port_number c.net)
          c.trusted_peer
        ≡ some w

  pub open_wallet_cases :
      (c : SpvConfig) (genesis : BlockHeader) (now : ℕ) (w : Spv e L A)
      → open_wallet e L A o K M c genesis now ≡ ok w
      → Opens c genesis now w
  unfolding open_wallet
  open_wallet_cases c genesis now w h =
      let (stored, p, h1) = >>=-eq-ok (or_error db_failed (M.open_headers c.repo_path)) _ h in
      let (bc, q, h2) =
        >>=-eq-ok
          (or_chain_failed (
            new_blockchain btcd (header_db e) (new_header_db e M.new_ordered_map stored.0 stored.1)
              (M.params_of c.net) c.is_vote genesis now))
          _ h1 in
      record {
        headers = stored.0;
        tip = stored.1;
        chain = bc;
        opened = or_error-some db_failed (M.open_headers c.repo_path) stored p;
        made = or_chain_ok _ bc q;
        wallet = or_error-some peers_failed _ w h2;
      }

  -- What a run without an error went through.
  pub record Begins (file : String) (genesis : BlockHeader) (now : ℕ) (c : Config) (net : Net)
      (r : Running e L A o K) : Type 0 where
    pub wallet : Spv e L A
    pub opened : Opens (spv_config e L A o K M c net) genesis now wallet
    pub started : r.wallet ≡ start btcd (header_db e) L A wallet
    pub watched : watch e L A o K M (is_on c.is_restart) c r.wallet ≡ ok r.watcher
    pub rest : r.rest ≡ rest_of e L A o K M (is_on c.run_rest) c
    pub alliance : alliance_of e L A o K M (is_on c.run_vote) c net ≡ ok r.alliance

  pub run_cases :
      (file : String) (genesis : BlockHeader) (now : ℕ) (r : Running e L A o K)
      → run e L A o K M file genesis now ≡ ok r
      → (c : Config) × (net : Net) × (new_config M.files file ≡ ok c)
        × (net_type c.config_bitcoin_net ≡ some net)
        × Begins file genesis now c net r
  unfolding run start_spv
  run_cases file genesis now r h =
      let (c, p, h1) = >>=-eq-ok (new_config M.files file) _ h in
      let (net, q, h2) = >>=-eq-ok (or_error wrong_net (net_type c.config_bitcoin_net)) _ h1 in
      let (w, s, h3) = >>=-eq-ok (start_spv e L A o K M c net genesis now) _ h2 in
      let (w0, t, u) =
        >>=-eq-ok (open_wallet e L A o K M (spv_config e L A o K M c net) genesis now) _ s in
      let (a, y, h5) = >>=-eq-ok (alliance_of e L A o K M (is_on c.run_vote) c net) _ h3 in
      let (watcher, v, h4) = >>=-eq-ok (watch e L A o K M (is_on c.is_restart) c w) _ h5 in
      let eq = ok-injective h4 in
      (
        c,
        net,
        p,
        or_error-some wrong_net (net_type c.config_bitcoin_net) net q,
        record {
          wallet = w0;
          opened = open_wallet_cases (spv_config e L A o K M c net) genesis now w0 t;
          started = ap (λ (x : Running e L A o K). x.wallet) (sym eq) ∙ sym (ok-injective u);
          watched =
              subst
                (λ (x : Running e L A o K).
                  watch e L A o K M (is_on c.is_restart) c x.wallet ≡ ok x.watcher)
                eq v;
          rest = ap (λ (x : Running e L A o K). x.rest) (sym eq);
          alliance = y ∙ ap (λ (x : Running e L A o K). ok x.alliance) eq;
        },
      )

  -- Nothing is stored where the file is new, and the map of the cache is empty.
  pub record IsNew (path : String) : Type 0 where
    pub headers : e.bucket.Store
    pub opened : M.open_headers path ≡ some (headers, none)
    pub no_headers : (h : ℕ) → e.bucket.get headers h ≡ none
    pub no_cached : (k : Key) → e.ordered.get M.new_ordered_map k ≡ none

  new_db-IsEmpty :
      (path : String) (headers : e.bucket.Store) (tip : Option (List ℕ))
      → M.open_headers path ≡ some (headers, tip)
      → IsNew path
      → IsEmpty e (new_header_db e M.new_ordered_map headers tip)
  new_db-IsEmpty path headers tip opened n =
      let same = some-injective (sym n.opened ∙ opened) in
      subst
        (λ (x : e.bucket.Store × Option (List ℕ)).
          IsEmpty e (new_header_db e M.new_ordered_map x.0 x.1))
        same (fresh n)
    where
      fresh : (m : IsNew path) → IsEmpty e (new_header_db e M.new_ordered_map m.headers none)
      fresh m =
          unfold new_header_db initialize_cache get_best_header best_or_tip read_tip in
          record {
            no_cache = m.no_cached;
            no_files = m.no_headers;
            no_tip = refl;
            no_best = refl;
            no_pending = refl;
          }

  watch-some :
      (on : Bool) (c : Config) (w : Spv e L A) (r : Watch e L A)
      → watch e L A o K M on c w ≡ ok (some r)
      → new_watcher btcd (header_db e) L A w (pos_part c.restart_duration) ≡ ok r
  unfolding watch
  watch-some false c w r h = cc
  watch-some true c w r h =
      let (x, p, q) =
        >>=-eq-ok
          (or_chain_failed (new_watcher btcd (header_db e) L A w (pos_part c.restart_duration))) _
          h in
      or_chain_ok _ x p ∙ ap ok (some-injective (ok-injective q))

  -- The program is started by run, over a btcd that has its documented laws, on a new database of
  -- headers, and set to watch the chain. Its network has a checkpoint that fits the wire format.
  -- Whatever peers send, with headers that fit the wire format, whatever requests come, and whenever
  -- the watcher wakes, in any order: a header that is found afterwards is found under its own hash,
  -- and ends a chain from the checkpoint with links and proofs of work.
  pub run-Rooted :
      (J : Parsers) (file : String) (genesis : BlockHeader) (now h : ℕ) (c : Config) (net : Net)
      (r : Running e L A o K) (first last : Watch e L A) (sh : StoredHeader)
      → BtcdLaws btcd
      → new_config M.files file ≡ ok c
      → net_type c.config_bitcoin_net ≡ some net
      → IsNew (spv_config e L A o K M c net).repo_path
      → IsWire (root_of e genesis now (M.params_of net)).header
      → (root_of e genesis now (M.params_of net)).height < 2 ^ 32
      → run e L A o K M file genesis now ≡ ok r
      → r.watcher ≡ some first
      → Reach e L A J first last
      → get_header e last.wallet.service.chain.db h ≡ ok sh
      → Rooted btcd (M.params_of net) (root_of e genesis now (M.params_of net)) sh
        × (btcd.block_hash sh.header ≡ h)
  unfolding spv_config
  run-Rooted J file genesis now h c net r first last sh laws read known new wire low ran watched
        reached found =
      let (c', net', read', known', b) = run_cases file genesis now r ran in
      let same_c : c' ≡ c = ok-injective (sym read' ∙ read) in
      let same_net : net' ≡ net =
        some-injective
          (sym known' ∙ ap (λ (x : Config). net_type x.config_bitcoin_net) same_c ∙ known) in
      let begun : Begins file genesis now c net r =
        subst (λ (x : Config × Net). Begins file genesis now x.0 x.1 r) (cc (same_c, same_net)) b in
      let opened = begun.opened in
      let watching =
        watch-some (is_on c.is_restart) c r.wallet first (begun.watched ∙ ap ok watched) in
      program-Rooted e L A J (new_header_db e M.new_ordered_map opened.headers opened.tip)
        (M.params_of net) (is_on c.run_vote) genesis now h (pos_part c.restart_duration)
        M.no_heights (M.address_book (spv_config e L A o K M c net).repo_path) (M.port_number net)
        (spv_config e L A o K M c net).trusted_peer opened.chain begun.wallet first last sh laws
        (new_db-IsEmpty _ opened.headers opened.tip opened.opened new) wire low opened.made
        opened.wallet
        (subst
          (λ (x : Spv e L A).
            new_watcher btcd (header_db e) L A x (pos_part c.restart_duration) ≡ ok first)
          begun.started watching)
        reached found
