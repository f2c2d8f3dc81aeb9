-- ===== src/Chain/Headers.antt =====
-- The interface Headers of chain/headers.go, through which the blockchain uses its database, and
-- what the blockchain's theorems need of an implementation.
use spvwallet.Prelude.{ℕ, ◌<◌, ◌^◌, ◌≡◌, ◌≢◌, Bool, true, false, Result, ok, stuck}
use spvwallet.Chain.Types.{BlockHeader, StoredHeader, Error, Btcd, IsWire}

-- A failing call leaves the database as it was.
pub record Headers : Type 1 where
  pub Db : Type 0
  pub put : Db → StoredHeader → Bool → Result Error Db
  pub prune : Db → Result Error Db
  pub delete_after : Db → ℕ → Result Error Db
  pub get_previous_header : Db → BlockHeader → Result Error StoredHeader
  pub get_header : Db → ℕ → Result Error StoredHeader
  pub get_header_by_height : Db → ℕ → Result Error StoredHeader
  pub get_best_header : Db → Result Error StoredHeader
  pub get_height : Db → Result Error ℕ

module _ (b : Btcd) (H : Headers) where
  open H use {Db, put, delete_after, get_previous_header, get_header, get_best_header}

  -- `AllHeld P` says that every header which a read can return, now or later, satisfies `P`.
  pub record HeadersLaws : Type 1 where
    pub IsIndexed : Db → Type 0
    pub AllHeld : (StoredHeader → Type 0) → Db → Type 0
    pub weaken :
        (P Q : StoredHeader → Type 0) (d : Db)
        → ((sh : StoredHeader) → P sh → Q sh)
        → AllHeld P d
        → AllHeld Q d
    pub get_previous_header_lem :
        (d : Db) (h : BlockHeader) → get_previous_header d h ≡ get_header d h.prev_block
    pub get_header-AllHeld :
        (P : StoredHeader → Type 0) (d : Db) (h : ℕ) (sh : StoredHeader)
        → AllHeld P d
        → get_header d h ≡ ok sh
        → P sh
    pub get_header_hash :
        (d : Db) (h : ℕ) (sh : StoredHeader)
        → IsIndexed d
        → get_header d h ≡ ok sh
        → b.block_hash sh.header ≡ h
    pub get_header-ne-stuck : (d : Db) (h : ℕ) → get_header d h ≢ stuck
    pub get_best_header-ne-stuck : (d : Db) → get_best_header d ≢ stuck
    pub put-ne-stuck : (d : Db) (sh : StoredHeader) (new_best : Bool) → put d sh new_best ≢ stuck
    pub delete_after-ne-stuck : (d : Db) (height : ℕ) → delete_after d height ≢ stuck
    pub get_best_header-AllHeld :
        (P : StoredHeader → Type 0) (d : Db) (sh : StoredHeader)
        → AllHeld P d
        → get_best_header d ≡ ok sh
        → P sh
    pub put_keeps :
        (P : StoredHeader → Type 0) (d d' : Db) (sh : StoredHeader) (new_best : Bool)
        → put d sh new_best ≡ ok d'
        → IsWire sh.header
        → sh.height < 2 ^ 32
        → P sh
        → IsIndexed d
        → AllHeld P d
        → IsIndexed d' × AllHeld P d'
    pub get_best_header-put_true :
        (d d' : Db) (sh : StoredHeader) → put d sh true ≡ ok d' → get_best_header d' ≡ ok sh
    pub get_best_header-put_false :
        (d d' : Db) (sh : StoredHeader)
        → put d sh false ≡ ok d'
        → get_best_header d' ≡ get_best_header d
    pub get_header-put :
        (d d' : Db) (sh : StoredHeader) (new_best : Bool)
        → put d sh new_best ≡ ok d'
        → get_header d' (b.block_hash sh.header) ≡ ok sh
    pub delete_after_keeps :
        (P : StoredHeader → Type 0) (d d' : Db) (height : ℕ)
        → IsIndexed d
        → AllHeld P d
        → delete_after d height ≡ ok d'
        → IsIndexed d' × AllHeld P d'
