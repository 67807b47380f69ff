-- ===== src/Repository/Revisions/Publication.antt =====
-- repository.py `create_revision`: publishing keeps the invariant, and changes no published route.
use mathlib.Core.Path.{subst₂}
use pyscripts.Base.{
  ℕ, true, false, not, ◌&&◌, Option, none, some, [], ◌≡◌, ◌≢◌, inl, inr, sym, ap, ◌∙◌, subst, arith,
  string_eq, nat_eq, contains, if◌then◌else◌, Option-cases, is_none,
}
use pyscripts.Base.Dict.{Dict, put-NodupKeys, get, put, get-put_ne, get-put_cases}
use pyscripts.Base.Result.{ok, >>=-eq-ok, or_raise, require}
use pyscripts.Repository.Rows.{
  Service, Revision, Database, RuntimeLabel, RuntimeProfileVersion, pinned, track_active,
  is_active_service, is_active_revision, service_missing, integrity, contract_not_ready,
}
use pyscripts.Repository.Routes.Available.{routes_of, routes_at, pointed}
use pyscripts.Repository.Invariant.{Inv}
use pyscripts.Repository.Revisions.{
  RevisionRequest, create_revision, name_taken, any_grpc, repeats, endpoint_ids, new_revision,
}

module _ (S : Dict ℕ Service) (R : Dict ℕ Revision) (r : ℕ) (v : Revision) (inv : Inv S R)
    (fresh : get R r ≡ none) (off : is_active_revision v.status ≡ false) where
  -- no service points to the new revision
  pointed-put :
      (j : ℕ) (s : Service)
      → get S j ≡ some s
      → pointed (put R r v) s.active_revision_id ≡ pointed R s.active_revision_id
  pointed-put j s at = elim (Option-cases s.active_revision_id) [
    | inl e ↦ ap (pointed (put R r v)) e ∙ sym (ap (pointed R) e)
    | inr (q, e) ↦
        let (w, at_q, _, _) = inv.current j q s at e in
        let ne : q ≢ r = (λ x. cc (ap (get R) x)) in
        ap (pointed (put R r v)) e ∙ ap routes_at (get-put_ne R r q v ne) ∙ sym (ap (pointed R) e)
  ]

  pub routes_put : (j : ℕ) → routes_of (put R r v) (get S j) ≡ routes_of R (get S j)
  routes_put j = elim (Option-cases (get S j)) [
    | inl e ↦ rw e
    | inr (s, e) ↦ rw e (ap (λ x. if is_active_service s.status then x else []) (pointed-put j s e))
  ]

  pub publication-Inv : Inv S (put R r v)
  publication-Inv = record {
    distinct_services = inv.distinct_services;
    distinct = put-NodupKeys R r v inv.distinct;
    service_id = inv.service_id;
    current = λ j q s at to.
        let (w, at_q, own, act) = inv.current j q s at to in
        let ne : q ≢ r = (λ x. cc (ap (get R) x)) in (w, get-put_ne R r q v ne ∙ at_q, own, act);
    only = λ q u h a. elim (get-put_cases R r q v u h) [
      | inl (qr, vu) ↦ cc
      | inr (qr, old) ↦ inv.only q u old a
    ];
    serving = inv.serving;
    disjoint = λ i j p ne c.
        subst (λ xs. contains xs p ≡ false) (sym (routes_put j))
          (inv.disjoint i j p ne (subst (λ xs. contains xs p ≡ true) (routes_put i) c));
  }

pub create_revision-ok :
    (id now k : ℕ) (q : RevisionRequest) (contract : Option ℕ)
    (profile : Option (RuntimeLabel × RuntimeProfileVersion)) (db db' : Database) (v : Revision)
    → create_revision id now k q contract profile db ≡ ok (v, db')
    → (db'.services ≡ db.services)
      × (db'.revisions ≡ put db.revisions id v)
      × (is_active_revision v.status ≡ false)
      × (v.service_id ≡ k)
unfolding create_revision new_revision
create_revision-ok id now k q contract profile db db' v h =
    let (s, _, h1) = >>=-eq-ok (or_raise (get db.services k) service_missing) _ h in
    let (_, _, h2) =
      >>=-eq-ok (require (not (name_taken k q.revision db.revisions)) integrity) _ h1 in
    let (_, _, h3) =
      >>=-eq-ok (require (not (any_grpc q.endpoints && is_none contract)) contract_not_ready) _
        h2 in
    let (_, _, h4) =
      >>=-eq-ok (require (not (repeats (endpoint_ids q.endpoints))) integrity) _ h3 in
    let e : new_revision id now k q (if q.is_pinned then pinned else track_active) profile ≡ v =
      ground arith in
    (
      ground arith,
      ground arith,
      sym (ap (λ (x : Revision). is_active_revision x.status) e),
      sym (ap (λ (x : Revision). x.service_id) e),
    )

pub create_revision-Inv :
    (id now k : ℕ) (q : RevisionRequest) (contract : Option ℕ)
    (profile : Option (RuntimeLabel × RuntimeProfileVersion)) (db db' : Database) (v : Revision)
    → get db.revisions id ≡ none
    → Inv db.services db.revisions
    → create_revision id now k q contract profile db ≡ ok (v, db')
    → Inv db'.services db'.revisions
create_revision-Inv id now k q contract profile db db' v fresh inv h =
    let (es, er, off, _) = create_revision-ok id now k q contract profile db db' v h in
    subst₂ Inv (sym es) (sym er) (publication-Inv db.services db.revisions id v inv fresh off)
