-- ===== src/Chain/HeaderDb/Synchronous.antt =====
-- put of chain/headers.go, which writes the database itself where Put leaves that to a goroutine.
use spvwallet.Prelude.{
  ◌≡◌, refl, ap, Bool, some, List, [], ◌∷◌, ◌++◌, length, if◌then◌else◌, get_elem?, remove_at,
  Result, ok, err, panic, stuck,
}
use spvwallet.Chain.Types.{StoredHeader, Error}
use spvwallet.Chain.Cache
use spvwallet.Chain.Cache.{Env}
use spvwallet.Chain.HeaderDb.{HeaderDb, put, put_to_db, run_job, run_pending}

module _ {A : Type 0} where
  get_elem?-append : (xs : List A) (a : A) → get_elem? (xs ++ (a ∷ [])) (length xs) ≡ some a
  get_elem?-append [] a = refl
  get_elem?-append (x ∷ xs) a = get_elem?-append xs a

  remove_at-append : (xs : List A) (a : A) → remove_at (length xs) (xs ++ (a ∷ [])) ≡ xs
  remove_at-append [] a = refl
  remove_at-append (x ∷ xs) a = ap (λ ys. x ∷ ys) (remove_at-append xs a)

module _ (e : Env) where
  -- An error is written to the log, and the transaction has changed nothing.
  unfoldable pub or_logged : HeaderDb e → Result Error (HeaderDb e) → Result Error (HeaderDb e)
  or_logged d (ok d') = ok d'
  or_logged d (err x) = ok d
  or_logged d panic = panic
  or_logged d stuck = stuck

  -- Under the first lock: the cache and the best header.
  abbrev pub cached : HeaderDb e → StoredHeader → Bool → HeaderDb e
  cached d sh new_best = record d {
    best_cache = if new_best then some sh else d.best_cache;
    cache = Cache.set e d.cache sh;
  }

  unfoldable pub put_now : HeaderDb e → StoredHeader → Bool → Result Error (HeaderDb e)
  put_now d sh new_best =
      or_logged (cached d sh new_best) (put_to_db e (cached d sh new_best) sh new_best)

  -- A put is a Put whose own goroutine, the last of those that wait, runs at once, and whose error,
  -- if there is one, is written to the log.
  pub put_now-run_pending :
      (d : HeaderDb e) (sh : StoredHeader) (new_best : Bool)
      → put_now d sh new_best
        ≡ or_logged (cached d sh new_best) (run_pending e (put e d sh new_best) (length d.pending))
  unfolding put_now put run_pending run_job
  put_now-run_pending d sh new_best =
      rw (get_elem?-append d.pending (sh, new_best), remove_at-append d.pending (sh, new_best)) refl
