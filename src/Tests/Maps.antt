-- ===== src/Tests/Maps.antt =====
-- A map as a list of pairs with distinct keys: a bucket and an ordered map for the runs.
use spvwallet.Prelude.{
  ◌≡◌, ◌≢◌, refl, sym, ap, ◌∙◌, inl, inr, Option, none, some, List, [], ◌∷◌, ◌++◌, map, Elem, arith,
}
use spvwallet.Prelude.Stores.{Bucket, OrderedMap}
use mathlib.Core.Logic.{ite, if_pos, if_neg}

module _ {K V : Type 0} (dec : Discrete K) where
  unfoldable pub lookup : K → List (K × V) → Option V
  lookup k [] = none
  lookup k ((j, v) ∷ l) = ite (dec k j) (some v) (lookup k l)

  unfoldable pub insert : K → V → List (K × V) → List (K × V)
  insert k v [] = (k, v) ∷ []
  insert k v ((j, w) ∷ l) = ite (dec k j) ((k, v) ∷ l) ((j, w) ∷ insert k v l)

  unfoldable pub remove : K → List (K × V) → List (K × V)
  remove k [] = []
  remove k ((j, w) ∷ l) = ite (dec k j) l ((j, w) ∷ remove k l)

  abbrev pub Distinct : List (K × V) → Type 0
  Distinct [] = Unit
  Distinct ((k, v) ∷ l) = (lookup k l ≡ none) × Distinct l

  pub lookup-insert_self : (k : K) (v : V) (l : List (K × V)) → lookup k (insert k v l) ≡ some v
  unfolding lookup insert
  lookup-insert_self k v [] = if_pos (dec k k) refl _ _
  lookup-insert_self k v ((j, w) ∷ l) = ground (arith, lookup-insert_self k v l)

  pub lookup-insert_ne :
      (k j : K) (v : V) (l : List (K × V)) → j ≢ k → lookup j (insert k v l) ≡ lookup j l
  unfolding lookup insert
  lookup-insert_ne k j v [] h = if_neg (dec j k) h _ _
  lookup-insert_ne k j v ((i, w) ∷ l) h = ground (arith, lookup-insert_ne k j v l)

  pub lookup-remove_ne : (k j : K) (l : List (K × V)) → j ≢ k → lookup j (remove k l) ≡ lookup j l
  unfolding lookup remove
  lookup-remove_ne k j [] h = refl
  lookup-remove_ne k j ((i, w) ∷ l) h = ground (arith, lookup-remove_ne k j l)

  pub lookup-remove_self : (k : K) (l : List (K × V)) → Distinct l → lookup k (remove k l) ≡ none
  unfolding lookup remove
  lookup-remove_self k [] h = refl
  lookup-remove_self k ((i, w) ∷ l) h = ground (arith, lookup-remove_self k l)

  pub Distinct-insert : (k : K) (v : V) (l : List (K × V)) → Distinct l → Distinct (insert k v l)
  unfolding insert
  Distinct-insert k v [] h = (unfold lookup in refl, tt)
  Distinct-insert k v ((j, w) ∷ l) h = elim (dec k j) [
    | yes p ↦ rw (if_pos (dec k j) p ((k, v) ∷ l) ((j, w) ∷ insert k v l)) (rw p h.0, h.1)
    | no p ↦
        rw (if_neg (dec k j) p ((k, v) ∷ l) ((j, w) ∷ insert k v l))
          (lookup-insert_ne k j v l (λ e. p (sym e)) ∙ h.0, Distinct-insert k v l h.1)
  ]

  pub lookup-remove-none :
      (k j : K) (l : List (K × V)) → lookup j l ≡ none → lookup j (remove k l) ≡ none
  unfolding lookup remove
  lookup-remove-none k j [] h = refl
  lookup-remove-none k j ((i, w) ∷ l) h = ground (arith, lookup-remove-none k j l)

  pub Distinct-remove : (k : K) (l : List (K × V)) → Distinct l → Distinct (remove k l)
  unfolding remove
  Distinct-remove k [] h = tt
  Distinct-remove k ((j, w) ∷ l) h = elim (dec k j) [
    | yes p ↦ rw (if_pos (dec k j) p l ((j, w) ∷ remove k l)) h.1
    | no p ↦
        rw (if_neg (dec k j) p l ((j, w) ∷ remove k l))
          (lookup-remove-none k j l h.0, Distinct-remove k l h.1)
  ]

  pub Elem-lookup :
      (l : List (K × V)) (k : K) (v : V) → Distinct l → Elem (k, v) l → lookup k l ≡ some v
  unfolding lookup
  Elem-lookup [] k v d h = elim h [ ]
  Elem-lookup ((j, w) ∷ l) k v d (inl e) =
      if_pos (dec k j) (ap (λ (p : K × V). p.0) e) _ _ ∙ ap some (ap (λ (p : K × V). p.1) (sym e))
  Elem-lookup ((j, w) ∷ l) k v d (inr h) = elim (dec k j) [
    | yes p ↦ cc (ap (λ (x : K). lookup x l) p, Elem-lookup l k v d.1 h, d.0)
    | no p ↦ if_neg (dec k j) p _ _ ∙ Elem-lookup l k v d.1 h
  ]

  pub lookup-Elem : (l : List (K × V)) (k : K) (v : V) → lookup k l ≡ some v → Elem (k, v) l
  unfolding lookup
  lookup-Elem [] k v h = cc
  lookup-Elem ((j, w) ∷ l) k v h = elim (dec k j) [
    | yes p ↦ inl (let e : some w ≡ some v = sym (if_pos (dec k j) p _ _) ∙ h in cc)
    | no p ↦ inr (lookup-Elem l k v (sym (if_neg (dec k j) p _ _) ∙ h))
  ]

  abbrev pub keys : List (K × V) → List K
  keys = map (λ e. e.0)

  pub keys-insert_new :
      (l : List (K × V)) (k : K) (v : V)
      → lookup k l ≡ none
      → keys (insert k v l) ≡ keys l ++ (k ∷ [])
  unfolding lookup insert
  keys-insert_new [] k v h = refl
  keys-insert_new ((j, w) ∷ l) k v h = ground (arith, keys-insert_new l k v)

  pub keys-insert_old :
      (l : List (K × V)) (k : K) (v : V) → lookup k l ≢ none → keys (insert k v l) ≡ keys l
  unfolding lookup insert
  keys-insert_old [] k v h = absurd (h refl)
  keys-insert_old ((j, w) ∷ l) k v h = ground (arith, keys-insert_old l k v)

  pub keys-remove :
      (l : List (K × V)) (k : K) (ks : List K) → keys l ≡ k ∷ ks → keys (remove k l) ≡ ks
  unfolding remove
  keys-remove [] k ks h = cc
  keys-remove ((j, w) ∷ l) k ks h = ground arith

module _ (K V : Type 0) (dec : Discrete K) where
  abbrev pub Maps : Type 0
  Maps = (l : List (K × V)) × Distinct dec l

  abbrev pub no_entries : Maps
  no_entries = ([], tt)

  abbrev pub list_bucket : Bucket K V
  list_bucket = record {
    Store = Maps;
    get = λ s k. lookup dec k s.0;
    put = λ s k v. (insert dec k v s.0, Distinct-insert dec k v s.0 s.1);
    delete = λ s k. (remove dec k s.0, Distinct-remove dec k s.0 s.1);
    items = λ s. s.0;
    get-put_self = λ s k v. lookup-insert_self dec k v s.0;
    get-put_ne = λ s k j v h. lookup-insert_ne dec k j v s.0 h;
    get-delete_self = λ s k. lookup-remove_self dec k s.0 s.1;
    get-delete_ne = λ s k j h. lookup-remove_ne dec k j s.0 h;
    items_sound = λ s k v h. Elem-lookup dec s.0 k v s.1 h;
    items_complete = λ s k v h. lookup-Elem dec s.0 k v h;
  }

  abbrev pub list_map : OrderedMap K V
  list_map = record {
    Store = Maps;
    get = λ s k. lookup dec k s.0;
    set = λ s k v. (insert dec k v s.0, Distinct-insert dec k v s.0 s.1);
    delete = λ s k. (remove dec k s.0, Distinct-remove dec k s.0 s.1);
    keys = λ s. keys dec s.0;
    get-set_self = λ s k v. lookup-insert_self dec k v s.0;
    get-set_ne = λ s k j v h. lookup-insert_ne dec k j v s.0 h;
    get-delete_self = λ s k. lookup-remove_self dec k s.0 s.1;
    get-delete_ne = λ s k j h. lookup-remove_ne dec k j s.0 h;
    keys-set_new = λ s k v h. keys-insert_new dec s.0 k v h;
    keys-set_old = λ s k v h. keys-insert_old dec s.0 k v h;
    keys-delete = λ s k ks h. keys-remove dec s.0 k ks h;
  }
