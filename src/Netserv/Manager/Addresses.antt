-- ===== src/Netserv/Manager/Addresses.antt =====
-- Which address getNewAddress chooses.
use spvwallet.Prelude.{
  ℕ, zero, suc, ◌+◌, ◌≤◌, ◌<◌, ◌≡◌, ◌≢◌, ◌⊎◌, inl, inr, refl, sym, ap, subst, ◌∙◌, ◌==◌, ==_iff,
  Bool, true, false, not, ◌&&◌, Option, none, some, [], ◌∷◌, ltb, some-injective, Bool-cases,
  Option-cases, Elem, arith,
}
use spvwallet.Netserv.Manager.{
  KnownAddress, AddrLib, Addr, tcp_addr, ten_minutes, Connections, shares_ip, PeerManager, allowed,
  search_address, address_of, get_new_address,
}

pub shares_ip-absent :
    (ip_of : ℕ → ℕ) (ip : ℕ) (cs : Connections)
    → shares_ip ip_of ip cs ≡ false
    → (id p : ℕ) → Elem (id, p) cs
    → ip_of p ≢ ip
unfolding shares_ip
shares_ip-absent ip_of ip [] h id p e = absurd e
shares_ip-absent ip_of ip ((k, q) ∷ rest) h id p (inl e) = elim (Bool-cases (ip_of q == ip)) [
  | inl y ↦ cc (rw y at h)
  | inr n ↦ λ same. cc (ap (λ x. x.1) e, n, (==_iff (ip_of p) ip).1 same)
]
shares_ip-absent ip_of ip ((k, q) ∷ rest) h id p (inr e) = elim (Bool-cases (ip_of q == ip)) [
  | inl y ↦ cc (rw y at h)
  | inr n ↦ shares_ip-absent ip_of ip rest (rw n at h) id p e
]

pub shares_ip-found :
    (ip_of : ℕ → ℕ) (ip : ℕ) (cs : Connections)
    → shares_ip ip_of ip cs ≡ true
    → (id : ℕ) × (p : ℕ) × Elem (id, p) cs × (ip_of p ≡ ip)
unfolding shares_ip
shares_ip-found ip_of ip [] h = cc
shares_ip-found ip_of ip ((k, q) ∷ rest) h = elim (Bool-cases (ip_of q == ip)) [
  | inl y ↦ (k, q, inl refl, (==_iff (ip_of q) ip).0 y)
  | inr n ↦ let (id, p, e, same) = shares_ip-found ip_of ip rest (rw n at h) in (id, p, inr e, same)
]

both_true : (a b : Bool) → (a && b) ≡ true → (a ≡ true) × (b ≡ true)
both_true true true h = (refl, refl)
both_true true false h = cc
both_true false b h = cc

not-true : (a : Bool) → not a ≡ true → a ≡ false
not-true false h = refl
not-true true h = cc

module _ (A : AddrLib) where
  -- What the address manager draws as number `n`, from a book on.
  unfoldable pub draw : A.Book → ℕ → Option KnownAddress
  draw book zero = (A.get_address book).0
  draw book (suc n) = draw (A.get_address book).1 n

  -- An address is chosen at a try if it was not tried for 10 minutes, unless 30 tries failed, has
  -- the usual port, unless 50 tries failed, and is not that of a connected peer.
  pub record Fits (pm : PeerManager A) (now tries : ℕ) (ka : KnownAddress) : Type 0 where
    pub rested : tries < 30 → ka.last_attempt + ten_minutes ≤ now
    pub usual_port : tries < 50 → ka.port ≡ pm.default_port
    pub not_connected : (id p : ℕ) → Elem (id, p) pm.connected_peers → A.peer_ip p ≢ ka.ip

  -- None of the first `n` that are drawn fits.
  abbrev pub Refused : PeerManager A → ℕ → ℕ → ℕ → Type 0
  Refused pm now tries n =
      (k : ℕ) (ka : KnownAddress) → k < n → draw pm.book k ≡ some ka → ¬ Fits pm now (tries + k) ka

  old_enough :
      (tries now last : ℕ)
      → not (ltb tries 30 && ltb now (last + ten_minutes)) ≡ true
      → tries < 30
      → last + ten_minutes ≤ now
  old_enough tries now last h l = ground arith

  same_port : (tries a b : ℕ) → not (ltb tries 50 && not (a == b)) ≡ true → tries < 50 → a ≡ b
  same_port tries a b h l = ground arith

  allowed-Fits :
      (pm : PeerManager A) (now tries : ℕ) (ka : KnownAddress)
      → allowed A pm now tries ka ≡ true
      → Fits pm now tries ka
  unfolding allowed
  allowed-Fits pm now tries ka h =
      let (front, free) = both_true _ _ h in
      let (old, port) = both_true _ _ front in
      record {
        rested = old_enough tries now ka.last_attempt old;
        usual_port = same_port tries ka.port pm.default_port port;
        not_connected = shares_ip-absent A.peer_ip ka.ip pm.connected_peers (not-true _ free);
      }

  Fits-allowed :
      (pm : PeerManager A) (now tries : ℕ) (ka : KnownAddress)
      → Fits pm now tries ka
      → allowed A pm now tries ka ≡ true
  unfolding allowed
  Fits-allowed pm now tries ka f =
      elim (Bool-cases (shares_ip A.peer_ip ka.ip pm.connected_peers)) [
        | inl y ↦
            let (id, p, e, same) = shares_ip-found A.peer_ip ka.ip pm.connected_peers y in
            absurd (f.not_connected id p e same)
        | inr n ↦
            let old : not (ltb tries 30 && ltb now (ka.last_attempt + ten_minutes)) ≡ true =
              ground arith in
            let port : not (ltb tries 50 && not (ka.port == pm.default_port)) ≡ true =
              ground arith in
            rw (n, old, port) refl
      ]

  -- What the search over `left` more addresses finds.
  abbrev pub Search : PeerManager A → ℕ → ℕ → ℕ → Option Addr → Type 0
  Search pm now tries left result =
      ((n : ℕ) × (ka : KnownAddress) × (n < left)
        × (draw pm.book n ≡ some ka)
        × Fits pm now (tries + n) ka
        × Refused pm now tries n
        × (result ≡ some (tcp_addr ka.ip ka.port)))
      ⊎ (Refused pm now tries left × (result ≡ none))

  Fits-later :
      (pm : PeerManager A) (now tries k : ℕ) (ka : KnownAddress)
      → Fits (record pm { book = (A.get_address pm.book).1 }) now (tries + 1 + k) ka
      → Fits pm now (tries + suc k) ka
  Fits-later pm now tries k ka f = record {
    rested = λ l. f.rested (omega arith);
    usual_port = λ l. f.usual_port (omega arith);
    not_connected = f.not_connected;
  }

  Refused-suc :
      (pm : PeerManager A) (now tries n : ℕ)
      → ((ka : KnownAddress)
          → (A.get_address pm.book).0 ≡ some ka
          → allowed A pm now tries ka ≡ false)
      → Refused (record pm { book = (A.get_address pm.book).1 }) now (tries + 1) n
      → Refused pm now tries (suc n)
  unfolding draw
  Refused-suc pm now tries n first later zero ka l at f = cc (
    first ka at,
    Fits-allowed pm now tries ka
        (subst (λ t. Fits pm now t ka) {x = tries + 0} {y = tries} (omega arith) f),
  )
  Refused-suc pm now tries n first later (suc k) ka l at f = later k ka (omega arith) at record {
    rested = λ s. f.rested (omega arith);
    usual_port = λ s. f.usual_port (omega arith);
    not_connected = f.not_connected;
  }

  Search-suc :
      (pm : PeerManager A) (now tries left : ℕ) (result : Option Addr)
      → ((ka : KnownAddress)
          → (A.get_address pm.book).0 ≡ some ka
          → allowed A pm now tries ka ≡ false)
      → Search (record pm { book = (A.get_address pm.book).1 }) now (tries + 1) left result
      → Search pm now tries (suc left) result
  unfolding draw
  Search-suc pm now tries left result first (inl (n, ka, l, at, f, before, e)) = inl (
    suc n,
    ka,
    omega arith,
    at,
    Fits-later pm now tries n ka f,
    Refused-suc pm now tries n first before,
    e,
  )
  Search-suc pm now tries left result first (inr (all, e)) =
      inr (Refused-suc pm now tries left first all, e)

  -- The search is one step and the search over the rest.
  search_step :
      (pm : PeerManager A) (now tries left : ℕ)
      → (((ka : KnownAddress)
            → (A.get_address pm.book).0 ≡ some ka
            → allowed A pm now tries ka ≡ false)
          × ((search_address A pm now tries (suc left)).0
              ≡ (search_address A
                  (record pm { book = (A.get_address pm.book).1 })
                  now
                  (tries + 1)
                  left).0))
        ⊎ ((ka : KnownAddress) × ((A.get_address pm.book).0 ≡ some ka)
            × (allowed A pm now tries ka ≡ true)
            × ((search_address A pm now tries (suc left)).0 ≡ some (tcp_addr ka.ip ka.port)))
  unfolding search_address
  search_step pm now tries left = elim (Option-cases (A.get_address pm.book).0) [
    | inl e ↦ inl ((λ ka at. cc (e, at)), rw (e, search_address) refl)
    | inr (ka, e) ↦ elim (Bool-cases (allowed A pm now tries ka)) [
      | inl y ↦ inr (ka, e, y, rw (e, y, search_address) refl)
      | inr n ↦ inl (
        (λ x at. subst (λ z. allowed A pm now tries z ≡ false) (some-injective (sym e ∙ at)) n),
        rw (e, n, search_address) refl,
      )
    ]
  ]

  search_address-Search :
      (pm : PeerManager A) (now tries left : ℕ)
      → Search pm now tries left (search_address A pm now tries left).0
  unfolding search_address draw
  search_address-Search pm now tries zero = inr ((λ k ka l. absurd (omega arith)), refl)
  search_address-Search pm now tries (suc left) = elim (search_step pm now tries left) [
    | inl (first, e) ↦ subst (Search pm now tries (suc left)) (sym e) (
        Search-suc pm now tries left _ first (
          search_address-Search (record pm { book = (A.get_address pm.book).1 }) now (tries + 1)
            left))
    | inr (ka, at, y, e) ↦ inl (
      0,
      ka,
      omega arith,
      at,
      allowed-Fits pm now (tries + 0) ka
          (subst (λ t. allowed A pm now t ka ≡ true) {x = tries} {y = tries + 0} (omega arith) y),
      (λ k x l. absurd (omega arith)),
      e,
    )
  ]

  -- Without a trusted peer, getNewAddress draws up to 100 addresses and returns the first one that
  -- fits: not tried for 10 minutes unless 30 tries failed, with the usual port unless 50 tries failed,
  -- and with an IP that no connected peer has. It fails only if none of the 100 fits.
  pub get_new_address_first :
      (pm : PeerManager A) (now : ℕ)
      → pm.trusted_peer ≡ none
      → Search pm now 0 100 (get_new_address A pm now).0
  unfolding get_new_address address_of
  get_new_address_first pm now h =
      subst (Search pm now 0 100) (ap (λ t. (address_of A pm now t).0) (sym h))
        (search_address-Search pm now 0 100)
