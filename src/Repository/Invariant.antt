-- ===== src/Repository/Invariant.antt =====
-- repository.py: what the transactions keep of services, revisions and gRPC routes.
use pyscripts.Base.{
  ℕ, true, false, String, none, some, List, ◌≡◌, ◌≢◌, inl, inr, sym, ap, ◌∙◌, subst, arith,
  string_eq, nat_eq, contains,
}
use native.Mathlib.Decide.{ℕ_discrete}
use pyscripts.Base.Dict.{
  Dict, NodupKeys, put-NodupKeys, get, put, get-put_self, get-put_ne, get-put_cases,
}
use pyscripts.Repository.Rows.{Service, Revision, is_active_service, is_active_revision}
use pyscripts.Repository.Routes.Available.{routes_of}

-- The services and revisions belong together: a key stands once, and a service under its id; an
-- active revision is the one that its service points to, and a service points to an active
-- revision of its own; an ACTIVE service points to one; and two services publish no common path.
pub record Inv (S : Dict ℕ Service) (R : Dict ℕ Revision) : Type 0 where
  pub distinct_services : NodupKeys S
  pub distinct : NodupKeys R
  pub service_id : (k : ℕ) (s : Service) → get S k ≡ some s → s.id ≡ k
  pub current :
      (k r : ℕ) (s : Service)
      → get S k ≡ some s
      → s.active_revision_id ≡ some r
      → (v : Revision) × (get R r ≡ some v)
        × (v.service_id ≡ k)
        × (is_active_revision v.status ≡ true)
  pub only :
      (r : ℕ) (v : Revision)
      → get R r ≡ some v
      → is_active_revision v.status ≡ true
      → (s : Service) × (get S v.service_id ≡ some s) × (s.active_revision_id ≡ some r)
  pub serving :
      (k : ℕ) (s : Service)
      → get S k ≡ some s
      → is_active_service s.status ≡ true
      → s.active_revision_id ≢ none
  pub disjoint :
      (j k : ℕ) (p : String)
      → j ≢ k
      → contains (routes_of R (get S j)) p ≡ true
      → contains (routes_of R (get S k)) p ≡ false

-- No path stands in two of the lists.
abbrev pub Apart : (ℕ → List String) → Type 0
Apart f = (i j : ℕ) (p : String) → i ≢ j → contains (f i) p ≡ true → contains (f j) p ≡ false

-- A family stays apart if only the list `k` grows, by paths that no other list has.
pub Apart-update :
    (f g : ℕ → List String) (k : ℕ)
    → Apart f
    → ((j : ℕ) (p : String) → j ≢ k → contains (g j) p ≡ true → contains (f j) p ≡ true)
    → ((j : ℕ) (p : String) → j ≢ k → contains (g k) p ≡ true → contains (f j) p ≡ false)
    → Apart g
Apart-update f g k apart less free i j p ne h = elim (ℕ_discrete i k) [
  | yes e ↦
      let jk : j ≢ k = (λ q. ne (e ∙ sym q)) in
      ground (arith, less j p jk, free j p jk (subst (λ n. contains (g n) p ≡ true) e h))
  | no ik ↦ elim (ℕ_discrete j k) [
    | yes e ↦
        subst (λ n. contains (g n) p ≡ false) (sym e) (ground (arith, less i p ik h, free i p ik))
    | no jk ↦ ground (arith, less i p ik h, less j p jk, apart i j p ne)
  ]
]

-- The row of a service is written, and its pointer stays: it may become ACTIVE only if its routes
-- are free.
pub put_service-Inv :
    (S : Dict ℕ Service) (R : Dict ℕ Revision) (k : ℕ) (s s' : Service)
    → Inv S R
    → get S k ≡ some s
    → s'.id ≡ s.id
    → s'.active_revision_id ≡ s.active_revision_id
    → (is_active_service s'.status ≡ true → s.active_revision_id ≢ none)
    → ((j : ℕ) (p : String)
        → j ≢ k
        → contains (routes_of R (some s')) p ≡ true
        → contains (routes_of R (get S j)) p ≡ false)
    → Inv (put S k s') R
put_service-Inv S R k s s' inv e id ptr serves free = record {
  distinct_services = put-NodupKeys S k s' inv.distinct_services;
  distinct = inv.distinct;
  service_id = λ j u h. elim (get-put_cases S k j s' u h) [
    | inl (jk, su) ↦ ground (arith, inv.service_id k s e)
    | inr (jk, old) ↦ inv.service_id j u old
  ];
  current = λ j r u h q. elim (get-put_cases S k j s' u h) [
    | inl (jk, su) ↦
        let (v, at, own, act) = inv.current k r s e (ground arith) in (v, at, own ∙ sym jk, act)
    | inr (jk, old) ↦ inv.current j r u old q
  ];
  only = λ r v h a.
      let (t, at, to) = inv.only r v h a in
      elim (ℕ_discrete v.service_id k) [
        | yes vk ↦
            (s', ap (get (put S k s')) vk ∙ get-put_self S k s', ground (arith, ap (get S) vk))
        | no vk ↦ (t, get-put_ne S k v.service_id s' vk ∙ at, to)
      ];
  serving = λ j u h a. elim (get-put_cases S k j s' u h) [
    | inl (jk, su) ↦ ground arith
    | inr (jk, old) ↦ inv.serving j u old a
  ];
  disjoint =
      Apart-update (λ j. routes_of R (get S j)) (λ j. routes_of R (get (put S k s') j)) k
        inv.disjoint
        (λ j p ne h. subst (λ o. contains (routes_of R o) p ≡ true) (get-put_ne S k j s' ne) h)
        (λ j p ne h.
          free j p ne (subst (λ o. contains (routes_of R o) p ≡ true) (get-put_self S k s') h));
}
