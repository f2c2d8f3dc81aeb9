-- ===== src/Alliance/WaitingDb/Ledger.antt =====
-- What WaitingDB promises, without its buckets and bytes: which proofs wait, and which transactions
-- have a vote.
use spvwallet.Prelude.{
  ℕ, ◌≤◌, ◌≡◌, ◌≢◌, refl, sym, ap, subst, ◌∙◌, inl, inr, Bool, true, Bool-cases, Option, none, some,
  Option-cases, List, [], ◌∷◌, map, All, Elem, if◌then◌else◌, Result, ok, ◌>>=◌, >>=-eq-ok,
  ok-injective,
}
use spvwallet.Chain.Types.{Error}
use spvwallet.Alliance.Types.{BtcProof, Outside, bytes_equal, bytes_equal_sound, bytes_equal_refl}
use spvwallet.Alliance.WaitingDb.{
  WaitingDb, put, mark_voted_tx, del_if_exist, get_under_height_and_delete, check_if_voted,
  check_if_waiting, collect, delete_keys, is_some,
}
use spvwallet.Alliance.WaitingDb.Taking.{collect-Entry}
use std.Path.{fun_ext}

pub record Ledger : Type 0 where
  pub waiting : List ℕ → Option BtcProof
  pub voted : List ℕ → Bool

abbrev ledger : (List ℕ → Option BtcProof) → (List ℕ → Bool) → Ledger
ledger waiting voted = record { waiting = waiting; voted = voted }

-- A function changed at one transaction.
abbrev pub at_key {ℓ} : {A : Type ℓ} → List ℕ → A → (List ℕ → A) → List ℕ → A
at_key k a f j = if bytes_equal j k then a else f j

abbrev pub hold : Ledger → List ℕ → BtcProof → Ledger
hold a k p = record a { waiting = at_key k (some p) a.waiting }

abbrev pub release : Ledger → List ℕ → Ledger
release a k = record a { waiting = at_key k none a.waiting }

abbrev pub mark : Ledger → List ℕ → Ledger
mark a k = record a { voted = at_key k true a.voted }

abbrev pub release_all : Ledger → List (List ℕ) → Ledger
release_all a [] = a
release_all a (k ∷ ks) = release_all (release a k) ks

-- The operations that change the database.
pub data Op : Type 0 where
  puts : List ℕ → BtcProof → Op
  marks : List ℕ → Op
  deletes : List ℕ → Op
  takes : ℕ → Op

-- The proofs taken wait in the ledger, at or below a height.
abbrev pub Takeable : Ledger → ℕ → List (List ℕ × BtcProof) → Type 0
Takeable a height got =
    (k : List ℕ) (p : BtcProof) → Elem (k, p) got → (a.waiting k ≡ some p) × (p.height ≤ height)

-- The steps of a ledger: a proof waits, a vote is marked, a proof is let go, or any proofs at or
-- below a height are taken.
pub data Step : Ledger → Op → Ledger → Type 0 where
  held : (a : Ledger) (k : List ℕ) (p : BtcProof) → Step a (puts k p) (hold a k p)
  marked : (a : Ledger) (k : List ℕ) → Step a (marks k) (mark a k)
  released : (a : Ledger) (k : List ℕ) → Step a (deletes k) (release a k)
  taken :
      (a : Ledger) (height : ℕ) (got : List (List ℕ × BtcProof))
      → Takeable a height got
      → Step a (takes height) (release_all a (map (λ e. e.0) got))

pub data Steps : Ledger → List Op → Ledger → Type 0 where
  done : {a : Ledger} → Steps a [] a
  then_step :
      {a b c : Ledger} {op : Op} {ops : List Op}
      → Step a op b
      → Steps b ops c
      → Steps a (op ∷ ops) c

module _ (o : Outside) where
  open o use {bucket, serialize, deserialize}

  abbrev read : Option (List ℕ) → Option BtcProof
  read none = none
  read (some v) = deserialize v

  -- The ledger of a database.
  unfoldable pub view : WaitingDb o → Ledger
  view w = record {
    waiting = λ k. read (bucket.get w.waiting k);
    voted = λ k. check_if_voted o w k;
  }

  unfoldable pub run : WaitingDb o → Op → Result Error (WaitingDb o)
  run w (puts k p) = ok (put o w k p)
  run w (marks k) = ok (mark_voted_tx o w k)
  run w (deletes k) = ok (del_if_exist o w k).0
  run w (takes height) = get_under_height_and_delete o w height >>= λ out. ok out.0

  unfoldable pub run_all : WaitingDb o → List Op → Result Error (WaitingDb o)
  unfolding run
  run_all w [] = ok w
  run_all w (op ∷ ops) = run w op >>= λ w'. run_all w' ops

  -- A proof that is put can be read back from its bytes.
  abbrev pub Readable : Op → Type 0
  Readable (puts k p) = deserialize (serialize p) ≡ some p
  Readable _ = Unit {0}

  at_key-read :
      (s s' : bucket.Store) (k : List ℕ) (v : Option BtcProof)
      → read (bucket.get s' k) ≡ v
      → ((j : List ℕ) → j ≢ k → bucket.get s' j ≡ bucket.get s j)
      → (j : List ℕ) → read (bucket.get s' j) ≡ at_key k v (λ i. read (bucket.get s i)) j
  at_key-read s s' k v here other j = elim (Bool-cases (bytes_equal j k)) [
    | inl y ↦ rw y (ap (λ i. read (bucket.get s' i)) (bytes_equal_sound j k y) ∙ here)
    | inr n ↦ rw n (ap read (other j (λ e. cc (ap (bytes_equal j) e, bytes_equal_refl j, n))))
  ]

  view-put :
      (w : WaitingDb o) (k : List ℕ) (p : BtcProof)
      → deserialize (serialize p) ≡ some p
      → hold (view w) k p ≡ view (put o w k p)
  unfolding view put check_if_voted
  view-put w k p reads =
      ap (λ f. ledger f (check_if_voted o w))
        (sym (
          fun_ext (
            at_key-read w.waiting (bucket.put w.waiting k (serialize p)) k (some p)
              (ap read (bucket.get-put_self w.waiting k (serialize p)) ∙ reads)
              (λ j ne. bucket.get-put_ne w.waiting k j (serialize p) ne))))

  view-mark : (w : WaitingDb o) (k : List ℕ) → mark (view w) k ≡ view (mark_voted_tx o w k)
  unfolding view mark_voted_tx check_if_voted
  view-mark w k = ap (ledger (view w).waiting) (
      sym (
        fun_ext (λ j. elim (Bool-cases (bytes_equal j k)) [
          | inl y ↦ rw y (
              ap (λ i. check_if_voted o (mark_voted_tx o w k) i) (bytes_equal_sound j k y)
              ∙ ap (is_some o) (bucket.get-put_self w.voted k (1 ∷ [])))
          | inr n ↦ rw n (
              ap (is_some o) (
                bucket.get-put_ne w.voted k j (1 ∷ [])
                  (λ e. cc (ap (bytes_equal j) e, bytes_equal_refl j, n))))
        ])))

  view-delete :
      (w : WaitingDb o) (k : List ℕ)
      → release (view w) k ≡ view (record w { waiting = bucket.delete w.waiting k })
  unfolding view check_if_voted
  view-delete w k =
      ap (λ f. ledger f (check_if_voted o w))
        (sym (
          fun_ext (
            at_key-read w.waiting (bucket.delete w.waiting k) k none
              (ap read (bucket.get-delete_self w.waiting k))
              (λ j ne. bucket.get-delete_ne w.waiting k j ne))))

  -- Deleting a transaction that does not wait changes nothing that can be seen.
  same_without :
      (s : bucket.Store) (k : List ℕ)
      → bucket.get s k ≡ none
      → (j : List ℕ) → at_key k none (λ i. read (bucket.get s i)) j ≡ read (bucket.get s j)
  same_without s k gone j = elim (Bool-cases (bytes_equal j k)) [
    | inl y ↦ rw y (sym (ap (λ i. read (bucket.get s i)) (bytes_equal_sound j k y) ∙ ap read gone))
    | inr n ↦ rw n refl
  ]

  del_if_exist-gone :
      (w : WaitingDb o) (k : List ℕ) → bucket.get w.waiting k ≡ none → (del_if_exist o w k).0 ≡ w
  unfolding del_if_exist check_if_waiting
  del_if_exist-gone w k gone = rw gone refl

  del_if_exist-there :
      (w : WaitingDb o) (k v : List ℕ)
      → bucket.get w.waiting k ≡ some v
      → (del_if_exist o w k).0 ≡ record w { waiting = bucket.delete w.waiting k }
  unfolding del_if_exist check_if_waiting
  del_if_exist-there w k v at = rw at refl

  view-same :
      (w : WaitingDb o) (k : List ℕ) → bucket.get w.waiting k ≡ none → release (view w) k ≡ view w
  unfolding view
  view-same w k gone =
      ap (λ f. ledger f (check_if_voted o w)) (fun_ext (same_without w.waiting k gone))

  view-del_if_exist :
      (w : WaitingDb o) (k : List ℕ) → release (view w) k ≡ view (del_if_exist o w k).0
  view-del_if_exist w k = elim (Option-cases (bucket.get w.waiting k)) [
    | inl gone ↦
        view-same w k gone
        ∙ ap view {x = w} {y = (del_if_exist o w k).0} (sym (del_if_exist-gone w k gone))
    | inr (v, at) ↦
        view-delete w k
        ∙ ap view {x = record w { waiting = bucket.delete w.waiting k }}
            {y = (del_if_exist o w k).0} (sym (del_if_exist-there w k v at))
  ]

  view-delete_keys :
      (w : WaitingDb o) (ks : List (List ℕ))
      → release_all (view w) ks ≡ view (record w { waiting = delete_keys o w.waiting ks })
  unfolding delete_keys
  view-delete_keys w [] = refl
  view-delete_keys w (k ∷ ks) =
      ap (λ a. release_all a ks) (view-delete w k)
      ∙ view-delete_keys (record w { waiting = bucket.delete w.waiting k }) ks

  take-Step :
      (w w' : WaitingDb o) (height : ℕ) (got : List (List ℕ × BtcProof))
      → get_under_height_and_delete o w height ≡ ok (w', got)
      → Step (view w) (takes height) (view w')
  unfolding get_under_height_and_delete view
  take-Step w w' height got h =
      let (took, at, e) =
        >>=-eq-ok (collect o w.max_read_size height 0 (bucket.items w.waiting)) _ h in
      let keys = map (λ x. x.0) took in
      subst (Step (view w) (takes height))
        (view-delete_keys w keys
          ∙ ap view (ap (λ (x : WaitingDb o × List (List ℕ × BtcProof)). x.0) (ok-injective e)))
        (taken (view w) height took (λ k p inside.
          let (v, item, reads, low) =
            collect-Entry o w.max_read_size height 0 (bucket.items w.waiting) took k p at inside in
          (ap read (bucket.items_sound w.waiting k v item) ∙ reads, low)))

  run-Step :
      (w w' : WaitingDb o) (op : Op) → Readable op → run w op ≡ ok w' → Step (view w) op (view w')
  unfolding run
  run-Step w w' (puts k p) reads h =
      subst (Step (view w) (puts k p)) (view-put w k p reads ∙ ap view (ok-injective h))
        (held (view w) k p)
  run-Step w w' (marks k) reads h =
      subst (Step (view w) (marks k)) (view-mark w k ∙ ap view (ok-injective h)) (marked (view w) k)
  run-Step w w' (deletes k) reads h =
      subst (Step (view w) (deletes k)) (view-del_if_exist w k ∙ ap view (ok-injective h))
        (released (view w) k)
  run-Step w w' (takes height) reads h =
      let ((mid, got), at, e) = >>=-eq-ok (get_under_height_and_delete o w height) _ h in
      subst (λ x. Step (view w) (takes height) (view x)) (ok-injective e)
        (take-Step w mid height got at)

  -- Any operations on the database, where each proof that is put can be read back from its bytes: seen
  -- as a ledger of waiting proofs and of votes, the database makes the steps of the ledger. In
  -- particular it takes only proofs that wait at or below the height, and lets go of just those.
  pub run_all-Steps :
      (w w' : WaitingDb o) (ops : List Op)
      → All Readable ops
      → run_all w ops ≡ ok w'
      → Steps (view w) ops (view w')
  unfolding run_all
  run_all-Steps w w' [] reads h = subst (λ x. Steps (view w) [] (view x)) (ok-injective h) done
  run_all-Steps w w' (op ∷ ops) (reads, others) h =
      let (mid, at, e) = >>=-eq-ok (run w op) _ h in
      then_step (run-Step w mid op reads at) (run_all-Steps mid w' ops others e)
