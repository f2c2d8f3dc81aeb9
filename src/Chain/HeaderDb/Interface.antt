-- ===== src/Chain/HeaderDb/Interface.antt =====
-- HeaderDB implements the interface Headers and has what the blockchain needs of it.
use spvwallet.Prelude.{
  ℕ, ◌≡◌, ◌≢◌, refl, subst, Bool, ltb, Option, none, some, List, [], ◌∷◌, ok, stuck, ok-injective,
  ok-ne-stuck, >>=-ne-stuck,
}
use spvwallet.Chain.Types.{BlockHeader, StoredHeader, BtcdLaws}
use spvwallet.Chain.Codec.{deserialize_header}
use spvwallet.Chain.Codec.RoundTrip.{deserialize_header-ne-stuck}
use spvwallet.Chain.Cache
use spvwallet.Chain.Cache.{Val, header_val, string_val, Env, hash_key, as_header}
use spvwallet.Chain.HeaderDb
use spvwallet.Chain.HeaderDb.Held
use spvwallet.Chain.HeaderDb.Reads
use spvwallet.Chain.HeaderDb.Writes
use spvwallet.Chain.HeaderDb.Deletes
use spvwallet.Chain.Headers.{Headers, HeadersLaws}

abbrev pub header_db : Env → Headers
header_db e = record {
  Db = HeaderDb.HeaderDb e;
  put = λ d sh b. ok (HeaderDb.put e d sh b);
  prune = HeaderDb.prune e;
  delete_after = HeaderDb.delete_after e;
  get_previous_header = HeaderDb.get_previous_header e;
  get_header = HeaderDb.get_header e;
  get_header_by_height = HeaderDb.get_header_by_height e;
  get_best_header = HeaderDb.get_best_header e;
  get_height = HeaderDb.get_height e;
}

module _ (e : Env) where
  get_header_parts :
      (c : Option Val) (o : Option (List ℕ))
      → HeaderDb.cached_or e (as_header e c) (HeaderDb.from_disk e o) ≢ stuck
  unfolding HeaderDb.cached_or HeaderDb.from_disk as_header
  get_header_parts (some (header_val x)) o h = cc
  get_header_parts (some (string_val t)) o h = cc
  get_header_parts none none h = cc
  get_header_parts none (some b) h = deserialize_header-ne-stuck e.btcd b h

  pub get_header-ne-stuck : (d : HeaderDb.HeaderDb e) (h : ℕ) → HeaderDb.get_header e d h ≢ stuck
  unfolding HeaderDb.get_header Cache.get
  get_header-ne-stuck d h =
      get_header_parts (e.ordered.get d.cache.headers (hash_key (e.btcd.hash_string h)))
        (e.bucket.get d.headers h)

  best_or_tip-ne-stuck :
      (c : Option StoredHeader) (t : Option (List ℕ)) → HeaderDb.best_or_tip e c t ≢ stuck
  unfolding HeaderDb.best_or_tip HeaderDb.read_tip
  best_or_tip-ne-stuck (some sh) t h = cc
  best_or_tip-ne-stuck none none h = cc
  best_or_tip-ne-stuck none (some b) h = deserialize_header-ne-stuck e.btcd b h

  pub get_best_header-ne-stuck : (d : HeaderDb.HeaderDb e) → HeaderDb.get_best_header e d ≢ stuck
  unfolding HeaderDb.get_best_header
  get_best_header-ne-stuck d = best_or_tip-ne-stuck d.best_cache d.tip

  select-ne-stuck :
      (test : StoredHeader → Bool) (items : List (ℕ × List ℕ))
      → HeaderDb.select e test items ≢ stuck
  unfolding HeaderDb.select
  select-ne-stuck test [] = ok-ne-stuck []
  select-ne-stuck test ((k, v) ∷ rest) =
      >>=-ne-stuck (deserialize_header e.btcd v) _ (deserialize_header-ne-stuck e.btcd v) (λ sh _.
        >>=-ne-stuck (HeaderDb.select e test rest) _ (select-ne-stuck test rest)
          (λ keys _. ok-ne-stuck _))

  pub delete_after-ne-stuck :
      (d : HeaderDb.HeaderDb e) (height : ℕ) → HeaderDb.delete_after e d height ≢ stuck
  unfolding HeaderDb.delete_after
  delete_after-ne-stuck d height =
      >>=-ne-stuck (HeaderDb.select e (λ x. ltb height x.height) (e.bucket.items d.headers)) _
        (select-ne-stuck (λ x. ltb height x.height) (e.bucket.items d.headers))
        (λ keys _. ok-ne-stuck _)

  pub get_previous_header_lem :
      (d : HeaderDb.HeaderDb e) (h : BlockHeader)
      → HeaderDb.get_previous_header e d h ≡ HeaderDb.get_header e d h.prev_block
  unfolding HeaderDb.get_previous_header
  get_previous_header_lem d h = refl

  -- The contract holds of HeaderDB, whatever goroutines have still to write.
  unfoldable pub header_db-laws : BtcdLaws e.btcd → HeadersLaws e.btcd (header_db e)
  header_db-laws laws = record {
    IsIndexed = Held.IsIndexed e;
    AllHeld = Held.AllHeld e;
    weaken = λ P Q d imp held. record {
      cached = λ s sh h. imp sh (held.cached s sh h);
      on_disk = λ k bytes sh h read. imp sh (held.on_disk k bytes sh h read);
      waiting = λ sh best h. imp sh (held.waiting sh best h);
      best = λ sh h. imp sh (held.best sh h);
      tip = λ bytes sh h read. imp sh (held.tip bytes sh h read);
    };
    get_previous_header_lem = get_previous_header_lem;
    get_header-AllHeld = Reads.get_header-AllHeld e;
    get_header_hash = Reads.get_header_hash e laws;
    get_header-ne-stuck = get_header-ne-stuck;
    get_best_header-ne-stuck = get_best_header-ne-stuck;
    put-ne-stuck = λ d sh b. ok-ne-stuck (HeaderDb.put e d sh b);
    delete_after-ne-stuck = delete_after-ne-stuck;
    get_best_header-AllHeld = Reads.get_best_header-AllHeld e;
    put_keeps = λ P d d' sh b done wire height good ix held. (
      subst (Held.IsIndexed e) (ok-injective done) (Writes.put-IsIndexed e d sh b wire height ix),
      subst (Held.AllHeld e P) (ok-injective done) (Writes.put-AllHeld e P d sh b good held),
    );
    get_best_header-put_true = λ d d' sh done.
        subst (λ x. HeaderDb.get_best_header e x ≡ ok sh) (ok-injective done)
          (Reads.get_best_header-put e d sh).0;
    get_best_header-put_false = λ d d' sh done.
        subst (λ x. HeaderDb.get_best_header e x ≡ HeaderDb.get_best_header e d) (ok-injective done)
          (Reads.get_best_header-put e d sh).1;
    get_header-put = λ d d' sh b done.
        subst (λ x. HeaderDb.get_header e x (e.btcd.block_hash sh.header) ≡ ok sh)
          (ok-injective done) (Reads.get_header-put e d sh b);
    delete_after_keeps = Deletes.delete_after_keeps e;
  }
