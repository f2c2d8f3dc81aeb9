-- ===== src/Tests/ForkRuns.antt =====
-- The theorems on forks, rollbacks and the start of an epoch, at concrete chains.
use spvwallet.Prelude.{
  ℕ, zero, suc, ◌+◌, ◌^◌, ◌<◌, ◌≡◌, ◌≢◌, refl, sym, ap, subst, ◌∙◌, ◌⊎◌, inl, inr, true, false, [],
  ◌∷◌, Result, ok, err, stuck, arith, ok-injective,
}
use spvwallet.Chain.Types.{StoredHeader, Error, header_missing}
use spvwallet.Chain.Checkpoints.{get_checkpoint}
use spvwallet.Chain.HeaderDb
use spvwallet.Chain.HeaderDb.{get_header}
use spvwallet.Chain.HeaderDb.Held.{AllHeld, IsIndexed}
use spvwallet.Chain.HeaderDb.Writes.{put-AllHeld, put-IsIndexed}
use spvwallet.Chain.HeaderDb.Interface.{header_db, header_db-laws}
use spvwallet.Chain.Blockchain
use spvwallet.Chain.Blockchain.{Blockchain, Commit, back, commit_header, next_height, check_header}
use spvwallet.Chain.Blockchain.Rooted.{Rooted, start}
use spvwallet.Chain.Blockchain.Rollback.{rollback-best}
use spvwallet.Chain.Blockchain.Ancestry.{get_common_ancestor_first, FirstAt}
use spvwallet.Chain.Blockchain.Ending.{commit_header-ne-stuck}
use spvwallet.Chain.Session
use spvwallet.Tests.Machine.{btcd, btcd-laws, env, params, header_of, genesis}
use spvwallet.Tests.Chains.{
  program, empty_db, empty_db-IsEmpty, root_db, two_db, fork_db, tip, beside, started, grown,
  forked, committed, tip-IsWire, genesis-IsWire, grows,
}
use spvwallet.Chain.Blockchain.Rooted.{commit_header-Rooted}

root_lawful : IsIndexed env root_db × AllHeld env (Rooted btcd params genesis) root_db
root_lawful = (
  put-IsIndexed env empty_db genesis true genesis-IsWire (omega arith)
      (Session.empty-IsIndexed env empty_db empty_db-IsEmpty),
  put-AllHeld env (Rooted btcd params genesis) empty_db genesis true (start refl)
      (Session.empty-AllHeld env (Rooted btcd params genesis) empty_db empty_db-IsEmpty),
)

grown_lawful : IsIndexed env grown.db × AllHeld env (Rooted btcd params genesis) grown.db
unfolding header_db-laws
grown_lawful =
    commit_header-Rooted btcd (header_db env) (header_db-laws env btcd-laws) genesis started grown
      tip.header (committed 1 true) tip-IsWire root_lawful.0 root_lawful.1 grows

common : Blockchain.get_common_ancestor btcd (header_db env) fork_db beside tip ≡ ok genesis
unfolding program
common = refl

get_common_ancestor_first_example :
    (maj : StoredHeader) × (min : StoredHeader) × (n : ℕ) × (y : StoredHeader) × (back btcd
        (header_db env)
        fork_db
        0
        beside
      ≡ ok maj)
    × (back btcd (header_db env) fork_db 0 tip ≡ ok min)
    × FirstAt btcd (header_db env) fork_db n maj min genesis y
get_common_ancestor_first_example =
    get_common_ancestor_first btcd (header_db env) fork_db beside tip genesis common

-- Back from the tip to the genesis header, which is a checkpoint.
abbrev cut_db : HeaderDb.HeaderDb env
cut_db = HeaderDb.put env two_db genesis true

abbrev rolled : Blockchain btcd (header_db env)
rolled = record { params = params; db = cut_db; updates = 1 ∷ []; is_open = true }

rolls : Blockchain.rollback_from btcd (header_db env) 5 grown genesis.header 0 1 ≡ ok rolled
unfolding program
rolls = refl

rollback-best_example :
    (grown ≡ rolled)
    ⊎ ((sh : StoredHeader) × ((header_db env).get_best_header rolled.db ≡ ok sh)
        × ((btcd.block_hash sh.header
              ≡ btcd.block_hash (get_checkpoint genesis.header 0 params).header)
            ⊎ (sh.header.timestamp < 1)
            ⊎ ((db : HeaderDb.HeaderDb env) × ((header_db env).delete_after grown.db 0 ≡ ok db)
                × ((header_db env).put db sh true ≡ ok rolled.db))))
rollback-best_example =
    rollback-best btcd (header_db env) (header_db-laws env btcd-laws) genesis 5 grown rolled
      genesis.header 0 1 rolls

-- A header that is its own parent, at the end of an epoch.
abbrev turn : StoredHeader
turn = record { header = header_of 5 5; height = 2015; total_work = 0 }

abbrev turning : Blockchain btcd (header_db env)
turning = record {
  params = params;
  db = HeaderDb.put env empty_db turn true;
  updates = [];
  is_open = true;
}

turns : (header_db env).get_previous_header turning.db turn.header ≡ ok turn
unfolding program
turns = refl

back-turn : (n : ℕ) → back btcd (header_db env) turning.db n turn ≡ ok turn
unfolding back
back-turn zero = refl
back-turn (suc n) = rw turns (back-turn n)

first_of_epoch : Blockchain.epoch_offset 2016 ≡ 0
unfolding program
first_of_epoch = refl

turning_best : (header_db env).get_best_header turning.db ≡ ok turn
unfolding program
turning_best = refl

-- The headers of the fork.
abbrev OfFork : StoredHeader → Type 0
OfFork x = (x ≡ genesis) ⊎ (x ≡ tip) ⊎ (x ≡ beside)

above :
    (y : StoredHeader) (s : StoredHeader)
    → (header_db env).get_previous_header fork_db s.header ≡ ok genesis
    → s.height ≡ 1
    → (header_db env).get_previous_header fork_db s.header ≡ ok y
    → OfFork y × (y.height + 1 ≡ s.height)
above y s over one h =
    let e : genesis ≡ y = ok-injective (sym over ∙ h) in
    (inl (sym e), ap (λ (z : StoredHeader). z.height + 1) (sym e) ∙ sym one)

over_tip : (header_db env).get_previous_header fork_db tip.header ≡ ok genesis
unfolding program
over_tip = refl

over_beside : (header_db env).get_previous_header fork_db beside.header ≡ ok genesis
unfolding program
over_beside = refl

over_genesis : (header_db env).get_previous_header fork_db genesis.header ≡ err header_missing
unfolding program
over_genesis = refl

previous_of :
    (s x : StoredHeader) (r : Result Error StoredHeader)
    → x ≡ s
    → (header_db env).get_previous_header fork_db x.header ≡ r
    → (header_db env).get_previous_header fork_db s.header ≡ r
previous_of s x r e h =
    subst (λ (z : StoredHeader). (header_db env).get_previous_header fork_db z.header ≡ r) e h

fork_falls :
    (x y : StoredHeader)
    → OfFork x
    → (header_db env).get_previous_header fork_db x.header ≡ ok y
    → OfFork y × (y.height + 1 ≡ x.height)
fork_falls x y (inl e) h = cc (over_genesis, previous_of genesis x (ok y) e h)
fork_falls x y (inr (inl e)) h =
    let (known, down) = above y tip over_tip refl (previous_of tip x (ok y) e h) in
    (known, down ∙ ap (λ (z : StoredHeader). z.height) (sym e))
fork_falls x y (inr (inr e)) h =
    let (known, down) = above y beside over_beside refl (previous_of beside x (ok y) e h) in
    (known, down ∙ ap (λ (z : StoredHeader). z.height) (sym e))

fork_held : AllHeld env OfFork fork_db
fork_held = put-AllHeld env OfFork two_db beside false (inr (inr refl)) (
    put-AllHeld env OfFork root_db tip true (inr (inl refl)) (
      put-AllHeld env OfFork empty_db genesis true (inl refl)
        (Session.empty-AllHeld env OfFork empty_db empty_db-IsEmpty)))

fork_low : (x : StoredHeader) → OfFork x → x.height + 1 < 2 ^ 32
fork_low x (inl e) = subst (λ (z : StoredHeader). z.height + 1 < 2 ^ 32) (sym e) (omega arith)
fork_low x (inr (inl e)) = subst (λ (z : StoredHeader). z.height + 1 < 2 ^ 32) (sym e) (omega arith)
fork_low x (inr (inr e)) = subst (λ (z : StoredHeader). z.height + 1 < 2 ^ 32) (sym e) (omega arith)

-- A header over the one beside the tip, which makes the other branch the best.
commit_header-ne-stuck_example : commit_header btcd (header_db env) forked (header_of 3 4) ≢ stuck
unfolding header_db-laws
commit_header-ne-stuck_example =
    commit_header-ne-stuck btcd (header_db env) (header_db-laws env btcd-laws) OfFork forked
      fork_held fork_low (λ x y known h. (fork_falls x y known h).1) (header_of 3 4)
