-- ===== src/Prelude/Stores.antt =====
-- The storage packages that the program calls, as interfaces with the laws that it relies on: a
-- bucket of a bolt database, and an insertion-ordered map.
use mathlib.Core.Path.{◌≡◌}
use mathlib.Core.Logic.{◌≢◌}
use mathlib.Core.Option.{Option, none, some}
use mathlib.Core.List.{List, [], ◌∷◌, ◌++◌}
use spvwallet.Prelude.Lists.{Elem}

-- A bucket of a bolt database. `items` is what `ForEach` visits.
pub record Bucket (K V : Type 0) : Type 1 where
  pub Store : Type 0
  pub get : Store → K → Option V
  pub put : Store → K → V → Store
  pub delete : Store → K → Store
  pub items : Store → List (K × V)
  pub get-put_self : (s : Store) (k : K) (v : V) → get (put s k v) k ≡ some v
  pub get-put_ne : (s : Store) (k j : K) (v : V) → j ≢ k → get (put s k v) j ≡ get s j
  pub get-delete_self : (s : Store) (k : K) → get (delete s k) k ≡ none
  pub get-delete_ne : (s : Store) (k j : K) → j ≢ k → get (delete s k) j ≡ get s j
  pub items_sound : (s : Store) (k : K) (v : V) → Elem (k, v) (items s) → get s k ≡ some v
  pub items_complete : (s : Store) (k : K) (v : V) → get s k ≡ some v → Elem (k, v) (items s)

-- A map of github.com/cevaris/ordered_map. `keys` is the order of its iterator, oldest first.
pub record OrderedMap (K V : Type 0) : Type 1 where
  pub Store : Type 0
  pub get : Store → K → Option V
  pub set : Store → K → V → Store
  pub delete : Store → K → Store
  pub keys : Store → List K
  pub get-set_self : (m : Store) (k : K) (v : V) → get (set m k v) k ≡ some v
  pub get-set_ne : (m : Store) (k j : K) (v : V) → j ≢ k → get (set m k v) j ≡ get m j
  pub get-delete_self : (m : Store) (k : K) → get (delete m k) k ≡ none
  pub get-delete_ne : (m : Store) (k j : K) → j ≢ k → get (delete m k) j ≡ get m j
  pub keys-set_new :
      (m : Store) (k : K) (v : V) → get m k ≡ none → keys (set m k v) ≡ keys m ++ (k ∷ [])
  pub keys-set_old : (m : Store) (k : K) (v : V) → get m k ≢ none → keys (set m k v) ≡ keys m
  pub keys-delete : (m : Store) (k : K) (ks : List K) → keys m ≡ k ∷ ks → keys (delete m k) ≡ ks
