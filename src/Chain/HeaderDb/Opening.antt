-- ===== src/Chain/HeaderDb/Opening.antt =====
-- What `NewHeaderDB` loads into the cache, and the walk by height down the files.
use spvwallet.Prelude.{
  ℕ, zero, suc, ◌+◌, ◌≤◌, ◌<◌, ◌≡◌, ◌≢◌, refl, sym, ap, subst, ◌∙◌, inl, inr, Option, none, some,
  List, ◌∷◌, replicate, ok, stuck, >>=-eq-ok, ok-injective, arith, Bool-cases, ltb, ltb→lt,
  >>=-ne-stuck, ok-ne-stuck,
}
use spvwallet.Chain.Types.{StoredHeader}
use spvwallet.Chain.Cache
use spvwallet.Chain.Cache.{Env}
use spvwallet.Chain.HeaderDb.{
  HeaderDb, get_previous_header, get_best_header, from_disk, walk_down, find_by_height, collect,
  initialize_cache,
}
use spvwallet.Chain.Codec.RoundTrip.{deserialize_header-ne-stuck}
use mathlib.Core.List.{foldl, reverse}

module _ (e : Env) where
  open e use {btcd, bucket, ordered}

  -- The loop of `initializeCache` does not move: with a parent on file it finds that parent in
  -- every one of its rounds, and never an earlier header.
  pub collect_repeats :
      (n : ℕ) (d : HeaderDb e) (best parent : StoredHeader)
      → get_previous_header e d best.header ≡ ok parent
      → collect e n d best ≡ replicate n parent
  unfolding collect
  collect_repeats zero d best parent h = refl
  collect_repeats (suc n) d best parent h =
      rw (h, collect) (ap (◌∷◌ parent) (collect_repeats n d best parent h))

  -- On opening a database whose tip has a parent on file, the cache is written 100 times, with two
  -- headers only: 99 times the parent, and then the tip.
  pub initialize_cache-two :
      (d : HeaderDb e) (best parent : StoredHeader)
      → get_best_header e d ≡ ok best
      → get_previous_header e (record d { best_cache = some best }) best.header ≡ ok parent
      → initialize_cache e d ≡ record d {
        best_cache = some best;
        cache = foldl (Cache.set e) d.cache (reverse (best ∷ replicate 99 parent));
      }
  unfolding initialize_cache
  initialize_cache-two d best parent h p =
      rw (h, initialize_cache)
        (rw (collect_repeats 99 (record d { best_cache = some best }) best parent p))

  -- A header on file, and one step down from a header on file.
  abbrev pub OnFile : bucket.Store → StoredHeader → Type 0
  OnFile hdrs x = (k : ℕ) × (from_disk e (bucket.get hdrs k) ≡ ok x)

  -- Every header on file stands one above its parent, where that is on file.
  abbrev pub Descends : bucket.Store → Type 0
  Descends hdrs =
      (x y : StoredHeader)
      → OnFile hdrs x
      → from_disk e (bucket.get hdrs x.header.prev_block) ≡ ok y
      → y.height + 1 ≡ x.height

  pub data FileAncestor (hdrs : bucket.Store) : StoredHeader → StoredHeader → Type 0 where
    here : {x : StoredHeader} → FileAncestor hdrs x x
    parent :
        {x y z : StoredHeader}
        → from_disk e (bucket.get hdrs x.header.prev_block) ≡ ok y
        → FileAncestor hdrs y z
        → FileAncestor hdrs x z

  from_disk-ne-stuck : (o : Option (List ℕ)) → from_disk e o ≢ stuck
  unfolding from_disk
  from_disk-ne-stuck none h = cc
  from_disk-ne-stuck (some b) h = deserialize_header-ne-stuck btcd b h

  walk_down-ne-stuck :
      (f : ℕ) (hdrs : bucket.Store) (ptr : StoredHeader) (height : ℕ)
      → Descends hdrs
      → OnFile hdrs ptr
      → ptr.height < f
      → walk_down e f hdrs ptr height ≢ stuck
  unfolding walk_down
  walk_down-ne-stuck zero hdrs ptr height down file h = absurd (omega arith)
  walk_down-ne-stuck (suc f) hdrs ptr height down file h =
      elim (Bool-cases (ltb height ptr.height)) [
        | inl above ↦
            let next = from_disk e (bucket.get hdrs ptr.header.prev_block) in
            rw (above, walk_down)
              (>>=-ne-stuck next _ (from_disk-ne-stuck (bucket.get hdrs ptr.header.prev_block))
                (λ y step.
                  walk_down-ne-stuck f hdrs y height down (ptr.header.prev_block, step)
                    (omega (arith, down ptr y file step))))
        | inr done ↦ rw (done, walk_down) (ok-ne-stuck ptr)
      ]

  walk_down_finds :
      (f : ℕ) (hdrs : bucket.Store) (ptr : StoredHeader) (height : ℕ) (sh : StoredHeader)
      → Descends hdrs
      → OnFile hdrs ptr
      → height ≤ ptr.height
      → walk_down e f hdrs ptr height ≡ ok sh
      → FileAncestor hdrs ptr sh × (sh.height ≡ height)
  unfolding walk_down
  walk_down_finds zero hdrs ptr height sh down file h p = cc
  walk_down_finds (suc f) hdrs ptr height sh down file h p =
      elim (Bool-cases (ltb height ptr.height)) [
        | inl above ↦
            let (y, step, rest) =
              >>=-eq-ok (from_disk e (bucket.get hdrs ptr.header.prev_block)) _
                (rw (above, walk_down) at p) in
            let (anc, eq) =
              walk_down_finds f hdrs y height sh down (ptr.header.prev_block, step)
                (omega (arith, down ptr y file step, ltb→lt height ptr.height above)) rest in
            (parent step anc, eq)
        | inr done ↦
            let same : ptr ≡ sh = ok-injective (rw (done, walk_down) at p) in
            (
              subst (FileAncestor hdrs ptr) same here,
              ap (λ (x : StoredHeader). x.height) (sym same) ∙ ground arith,
            )
      ]

  -- Behind the cache, the lookup by height ends, if the best header is on file and the headers on
  -- file descend by one.
  pub find_by_height-ne-stuck :
      (d : HeaderDb e) (best : StoredHeader) (height : ℕ)
      → get_best_header e d ≡ ok best
      → OnFile d.headers best
      → Descends d.headers
      → find_by_height e d height ≢ stuck
  unfolding find_by_height
  find_by_height-ne-stuck d best height b file down =
      rw b (elim (Bool-cases (ltb best.height height)) [
        | inl low ↦ rw low (λ p. cc)
        | inr high ↦
            rw high
              (walk_down-ne-stuck (suc best.height) d.headers best height down file (omega arith))
      ])

  -- If the best header is on file and the headers on file descend by one, then what the lookup by
  -- height finds behind the cache is the ancestor of the best header at that height.
  pub find_by_height-FileAncestor :
      (d : HeaderDb e) (best sh : StoredHeader) (height : ℕ)
      → get_best_header e d ≡ ok best
      → OnFile d.headers best
      → Descends d.headers
      → find_by_height e d height ≡ ok sh
      → FileAncestor d.headers best sh × (sh.height ≡ height)
  unfolding find_by_height
  find_by_height-FileAncestor d best sh height b file down p =
      elim (Bool-cases (ltb best.height height)) [
        | inl low ↦ cc (rw (b, low, find_by_height) at p)
        | inr high ↦
            walk_down_finds (suc best.height) d.headers best height sh down file (ground arith)
              (rw (b, high, find_by_height) at p)
      ]
