-- ===== src/Tests/WriteRuns.antt =====
-- The theorems on the writes of the header database, at two headers that are written tip first.
use spvwallet.Prelude.{◌≡◌, refl, sym, ap, ◌∙◌, ◌⊎◌, inl, inr, true, some, [], ◌∷◌, ok, arith}
use spvwallet.Chain.Types.{StoredHeader}
use spvwallet.Chain.HeaderDb
use spvwallet.Chain.HeaderDb.{HeaderDb}
use spvwallet.Chain.HeaderDb.Settled.{here, puts, writes, get_header-from_disk}
use spvwallet.Tests.Machine.{btcd, btcd-laws, env, genesis}
use spvwallet.Tests.Chains.{
  program, empty_db, empty_db-IsEmpty, two_db, tip, tip-IsWire, genesis-IsWire,
}
use spvwallet.Tests.StoreRuns.{bytes_of, tip_bytes}

-- Two headers with different hashes.
abbrev Two : StoredHeader → Type 0
Two x = (x ≡ genesis) ⊎ (x ≡ tip)

hash_of : (x y : StoredHeader) → x ≡ y → btcd.block_hash x.header ≡ btcd.block_hash y.header
hash_of x y e = ap (λ (z : StoredHeader). btcd.block_hash z.header) e

one_for_hash :
    (x y : StoredHeader)
    → Two x
    → Two y
    → btcd.block_hash x.header ≡ btcd.block_hash y.header
    → x ≡ y
one_for_hash x y (inl p) (inl q) h = p ∙ sym q
one_for_hash x y (inr p) (inr q) h = p ∙ sym q
one_for_hash x y (inl p) (inr q) h =
    let apart : btcd.block_hash genesis.header ≡ btcd.block_hash tip.header =
      sym (hash_of x genesis p) ∙ h ∙ hash_of y tip q in
    absurd (omega arith)
one_for_hash x y (inr p) (inl q) h =
    let apart : btcd.block_hash tip.header ≡ btcd.block_hash genesis.header =
      sym (hash_of x tip p) ∙ h ∙ hash_of y genesis q in
    absurd (omega arith)

-- The tip is written first, and the genesis header then becomes the tip of the files.
abbrev half_written : HeaderDb env
half_written = record two_db {
  headers = env.bucket.put empty_db.headers 2 tip_bytes;
  tip = some tip_bytes;
  pending = (genesis, true) ∷ [];
}

abbrev all_written : HeaderDb env
all_written = record half_written {
  headers = env.bucket.put half_written.headers 1 (bytes_of 0 1 0);
  tip = some (bytes_of 0 1 0);
  pending = [];
}

writes_tip : HeaderDb.run_pending env two_db 1 ≡ ok half_written
unfolding program
writes_tip = refl

writes_genesis : HeaderDb.run_pending env half_written 0 ≡ ok all_written
unfolding program
writes_genesis = refl

get_header-from_disk_example :
    HeaderDb.get_header env all_written 2
    ≡ HeaderDb.from_disk env (env.bucket.get all_written.headers 2)
get_header-from_disk_example =
    get_header-from_disk env btcd-laws Two one_for_hash empty_db all_written 2 empty_db-IsEmpty
      (writes 0 writes_genesis (
        writes 1 writes_tip (
          puts tip true (inr refl) tip-IsWire (omega arith)
            (puts genesis true (inl refl) genesis-IsWire (omega arith) here))))
      refl
