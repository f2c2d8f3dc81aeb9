-- ===== src/Chain/Session.antt =====
-- The life of a blockchain over HeaderDB: commits, rollbacks, and goroutines that write to the files, in any order.
use spvwallet.Prelude.{
  ℕ, ◌^◌, ◌<◌, ◌≡◌, inl, inr, refl, sym, ap, subst, ◌∙◌, Bool, true, none, List, [], ok,
  ok-injective, Elem, Bool-cases,
}
use spvwallet.Chain.Types.{BlockHeader, StoredHeader, Params, BtcdLaws, IsWire}
use spvwallet.Chain.Cache.{Env, Key, hash_key}
use spvwallet.Chain.HeaderDb.{HeaderDb, run_pending, get_header}
use spvwallet.Chain.HeaderDb.Held.{AllHeld, IsIndexed}
use spvwallet.Chain.HeaderDb.Reads.{get_header-AllHeld, get_header_hash}
use spvwallet.Chain.HeaderDb.Writes.{run_pending_keeps, put-AllHeld, put-IsIndexed}
use spvwallet.Chain.HeaderDb.Interface.{header_db, header_db-laws}
use spvwallet.Chain.Checkpoints.{get_checkpoint}
use spvwallet.Chain.Blockchain.{
  Blockchain, Commit, commit_header, rollback_from, new_blockchain, needs_checkpoint,
}
use spvwallet.Chain.Blockchain.Extending.{commit_header_cases}
use spvwallet.Chain.Blockchain.Rooted.{Rooted, start, commit_header-Rooted}
use spvwallet.Chain.Blockchain.Rollback.{rollback-Rooted, rollback_from_cases}

module _ (e : Env) where
  open e use {btcd, bucket, ordered}

  abbrev pub Chain : Type 0
  Chain = Blockchain btcd (header_db e)

  pub data Step : Chain → Chain → Type 0 where
    commit :
        {bc bc' : Chain} (header : BlockHeader) (c : Commit)
        → IsWire header
        → commit_header btcd (header_db e) bc header ≡ ok (bc', c)
        → Step bc bc'
    roll :
        {bc bc' : Chain} (rounds : ℕ) (genesis : BlockHeader) (now t : ℕ)
        → rollback_from btcd (header_db e) rounds bc genesis now t ≡ ok bc'
        → Step bc bc'
    write :
        {bc : Chain} (n : ℕ) (db : HeaderDb e)
        → run_pending e bc.db n ≡ ok db
        → Step bc (record bc { db = db })
    take : {bc : Chain} (rest : List ℕ) → Step bc (record bc { updates = rest })

  pub data Reach (first : Chain) : Chain → Type 0 where
    here : Reach first first
    next : {bc bc' : Chain} → Reach first bc → Step bc bc' → Reach first bc'

  -- Nothing in the cache, in the files, or waiting.
  pub record IsEmpty (d : HeaderDb e) : Type 0 where
    pub no_cache : (k : Key) → ordered.get d.cache.headers k ≡ none
    pub no_files : (h : ℕ) → bucket.get d.headers h ≡ none
    pub no_tip : d.tip ≡ none
    pub no_best : d.best_cache ≡ none
    pub no_pending : d.pending ≡ []

  record IsSound (p : Params) (root : StoredHeader) (bc : Chain) : Type 0 where
    pub indexed : IsIndexed e bc.db
    pub rooted : AllHeld e (Rooted btcd p root) bc.db
    pub network : bc.params ≡ p

  module _ (laws : BtcdLaws btcd) (p : Params) (root : StoredHeader) (wire : IsWire root.header)
      (low : root.height < 2 ^ 32) where
    commit-IsSound :
        (bc bc' : Chain) (header : BlockHeader) (c : Commit)
        → IsWire header
        → IsSound p root bc
        → commit_header btcd (header_db e) bc header ≡ ok (bc', c)
        → IsSound p root bc'
    unfolding header_db-laws
    commit-IsSound bc bc' header c w s h =
        let rooted : AllHeld e (Rooted btcd bc.params root) bc.db =
          subst (λ q. AllHeld e (Rooted btcd q root) bc.db) (sym s.network) s.rooted in
        let (ix, held) =
          commit_header-Rooted btcd (header_db e) (header_db-laws e laws) root bc bc' header c w
            s.indexed rooted h in
        record {
          indexed = ix;
          rooted = subst (λ q. AllHeld e (Rooted btcd q root) bc'.db) s.network held;
          network = elim (commit_header_cases btcd (header_db e) bc bc' header c h) [
            | inl (same, _) ↦ ap (λ (x : Chain). x.params) same ∙ s.network
            | inr (_, _, _, _, _, _, stored) ↦ stored.same_params ∙ s.network
          ];
        }

    roll-IsSound :
        (bc bc' : Chain) (rounds : ℕ) (genesis : BlockHeader) (now t : ℕ)
        → IsSound p root bc
        → rollback_from btcd (header_db e) rounds bc genesis now t ≡ ok bc'
        → IsSound p root bc'
    unfolding header_db-laws
    roll-IsSound bc bc' rounds genesis now t s h =
        let rooted : AllHeld e (Rooted btcd bc.params root) bc.db =
          subst (λ q. AllHeld e (Rooted btcd q root) bc.db) (sym s.network) s.rooted in
        let (ix, held) =
          rollback-Rooted btcd (header_db e) (header_db-laws e laws) root rounds bc bc' genesis now
            t s.indexed rooted wire low h in
        record {
          indexed = ix;
          rooted = subst (λ q. AllHeld e (Rooted btcd q root) bc'.db) s.network held;
          network = elim (rollback_from_cases btcd (header_db e) rounds bc bc' genesis now t h) [
            | inl same ↦ ap (λ (x : Chain). x.params) (sym same) ∙ s.network
            | inr cut ↦ cut.same_params ∙ s.network
          ];
        }

    Step-IsSound : {bc bc' : Chain} → Step bc bc' → IsSound p root bc → IsSound p root bc'
    Step-IsSound {bc = bc} {bc' = bc'} (commit header c w h) s =
        commit-IsSound bc bc' header c w s h
    Step-IsSound {bc = bc} {bc' = bc'} (roll rounds genesis now t h) s =
        roll-IsSound bc bc' rounds genesis now t s h
    Step-IsSound {bc = bc} (write n db h) s =
        let (ix, held) =
          run_pending_keeps e laws (Rooted btcd p root) bc.db db n s.indexed s.rooted h in
        record { indexed = ix; rooted = held; network = s.network }
    Step-IsSound (take rest) s = record {
      indexed = s.indexed;
      rooted = s.rooted;
      network = s.network;
    }

    Reach-IsSound : {first bc : Chain} → IsSound p root first → Reach first bc → IsSound p root bc
    Reach-IsSound s here = s
    Reach-IsSound s (next r st) = Step-IsSound st (Reach-IsSound s r)

  pub empty-AllHeld : (P : StoredHeader → Type 0) (d : HeaderDb e) → IsEmpty d → AllHeld e P d
  empty-AllHeld P d z = record {
    cached = λ s sh h. cc (z.no_cache (hash_key s));
    on_disk = λ h b sh stored read. cc (z.no_files h);
    waiting = λ sh best h. absurd (subst (λ l. Elem (sh, best) l) z.no_pending h);
    best = λ sh h. cc (z.no_best);
    tip = λ b sh h read. cc (z.no_tip);
  }

  pub empty-IsIndexed : (d : HeaderDb e) → IsEmpty d → IsIndexed e d
  empty-IsIndexed d z = record {
    cache_hash = λ s sh h. cc (z.no_cache (hash_key s));
    cache_header = λ s t h. cc (z.no_cache (hash_key s));
    disk_hash = λ h b sh stored read. cc (z.no_files h);
    waiting_fits = λ sh best h. absurd (subst (λ l. Elem (sh, best) l) z.no_pending h);
    waiting_height = λ sh best h. absurd (subst (λ l. Elem (sh, best) l) z.no_pending h);
  }

  abbrev pub root_of : BlockHeader → ℕ → Params → StoredHeader
  root_of genesis now p = record {
    header = (get_checkpoint genesis now p).header;
    height = (get_checkpoint genesis now p).height;
    total_work = 0;
  }

  new-IsSound :
      (d : HeaderDb e) (p : Params) (is_open : Bool) (genesis : BlockHeader) (now : ℕ)
      (first : Chain)
      → IsEmpty d
      → IsWire (root_of genesis now p).header
      → (root_of genesis now p).height < 2 ^ 32
      → new_blockchain btcd (header_db e) d p is_open genesis now ≡ ok first
      → IsSound p (root_of genesis now p) first
  unfolding new_blockchain
  new-IsSound d p is_open genesis now first z wire low h =
      elim (Bool-cases (needs_checkpoint btcd (header_db e) ((header_db e).get_height d))) [
        | inl fresh ↦
            subst (IsSound p (root_of genesis now p)) (ok-injective (rw fresh at h)) (record {
              indexed =
                  put-IsIndexed e d (root_of genesis now p) true wire low (empty-IsIndexed d z);
              rooted =
                  put-AllHeld e (Rooted btcd p (root_of genesis now p)) d (root_of genesis now p)
                    true (start refl) (empty-AllHeld (Rooted btcd p (root_of genesis now p)) d z);
              network = refl;
            })
        | inr old ↦ subst (IsSound p (root_of genesis now p)) (ok-injective (rw old at h)) (record {
          indexed = empty-IsIndexed d z;
          rooted = empty-AllHeld (Rooted btcd p (root_of genesis now p)) d z;
          network = refl;
        })
      ]

  -- A chain is opened on an empty database, with a checkpoint that fits the wire format, over a btcd
  -- that has its documented laws. After any sequence of commits of headers that fit the wire format,
  -- rollbacks, and writes to the files, every header that is found is found under its own hash, and
  -- it ends a chain from the checkpoint in which each header names the one before and has its proof
  -- of work, with the height (on uint32) and the work that the chain adds up to.
  pub Reach-Rooted :
      (d : HeaderDb e) (p : Params) (is_open : Bool) (genesis : BlockHeader) (now h : ℕ)
      (first bc : Chain) (sh : StoredHeader)
      → BtcdLaws btcd
      → IsEmpty d
      → IsWire (root_of genesis now p).header
      → (root_of genesis now p).height < 2 ^ 32
      → new_blockchain btcd (header_db e) d p is_open genesis now ≡ ok first
      → Reach first bc
      → get_header e bc.db h ≡ ok sh
      → Rooted btcd p (root_of genesis now p) sh × (btcd.block_hash sh.header ≡ h)
  Reach-Rooted d p is_open genesis now h first bc sh laws z wire low made r found =
      let root = root_of genesis now p in
      let s =
        Reach-IsSound laws p root wire low
          (new-IsSound d p is_open genesis now first z wire low made) r in
      (
        get_header-AllHeld e (Rooted btcd p root) bc.db h sh s.rooted found,
        get_header_hash e laws bc.db h sh s.indexed found,
      )
