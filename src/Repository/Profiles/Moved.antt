-- ===== src/Repository/Profiles/Moved.antt =====
-- repository.py `activate_runtime_profile`: it rewrites manifests, and leaves what they say of the
-- gRPC routes.
use pyscripts.Base.{
  ℕ, true, String, Option, none, some, List, [], ◌∷◌, ◌≡◌, refl, sym, ap, ◌∙◌, arith, string_eq,
  nat_eq, subst, contains, if◌then◌else◌,
}
use native.Mathlib.Decide.{ℕ_discrete}
use pyscripts.Base.Dict.{Dict, NodupKeys, get, put, get-put_self, get-put_ne, put-NodupKeys}
use pyscripts.Base.Result.{ok, or_raise, or_raise-eq-ok, require, require-eq-ok, >>=-eq-ok}
use pyscripts.Json.{Value, object, array, null, boolean, integer, float, text, field_of-set_field}
use pyscripts.Repository.Rows.{
  RuntimeLabel, RuntimeProfileVersion, RevisionRuntimeProfile, Revision, RevisionStatus, Service,
  Database, is_active_revision, is_active_service, version_missing, label_missing,
  cannot_activate_profile,
}
use pyscripts.Repository.Manifest.{grpc_method_paths, manifest_endpoints, items_of, paths_of_items}
use pyscripts.Repository.Routes.Available.{routes_at, pointed, routes_of}
use pyscripts.Repository.Invariant.{Inv}
use pyscripts.Repository.Profiles.{RuntimeProfileRecord}
use pyscripts.Repository.Profiles.Compatible.{Packaging}
use pyscripts.Repository.Profiles.Activate.{
  with_runtime, repointed, repoint_at, repoint, activate_runtime_profile, moved, tracking,
  is_activatable_profile, check_bindings, release_old, find_old, references_of,
}

-- What `Inv` reads of a revision.
abbrev Essence : Type 0
Essence = Option (RevisionStatus × ℕ × List String)

abbrev essence : Option Revision → Essence
essence none = none
essence (some r) = some (r.status, r.service_id, grpc_method_paths r)

abbrev pub Alike : Dict ℕ Revision → Dict ℕ Revision → Type 0
Alike R R' = (k : ℕ) → essence (get R' k) ≡ essence (get R k)

endpoints_kept :
    (l : RuntimeLabel) (v : RuntimeProfileVersion) (m : Value)
    → manifest_endpoints (with_runtime l v m) ≡ manifest_endpoints m
unfolding with_runtime manifest_endpoints string_eq
endpoints_kept l v (object fs) = ap items_of (field_of-set_field fs "runtime" "endpoints" _)
endpoints_kept l v null = refl
endpoints_kept l v (boolean b) = refl
endpoints_kept l v (integer n) = refl
endpoints_kept l v (float s e m) = refl
endpoints_kept l v (text s) = refl
endpoints_kept l v (array xs) = refl

paths_kept :
    (l : RuntimeLabel) (v : RuntimeProfileVersion) (r : Revision)
    → grpc_method_paths (repointed l v r) ≡ grpc_method_paths r
unfolding repointed grpc_method_paths
paths_kept l v r = ap paths_of_items (endpoints_kept l v r.manifest)

essence_kept :
    (l : RuntimeLabel) (v : RuntimeProfileVersion) (r : Revision)
    → essence (some (repointed l v r)) ≡ essence (some r)
unfolding repointed
essence_kept l v r = ap (λ ps. some (r.status, r.service_id, ps)) (paths_kept l v r)

repoint_at-Alike :
    (l : RuntimeLabel) (v : RuntimeProfileVersion) (k : ℕ) (o : Option Revision)
    (R : Dict ℕ Revision)
    → get R k ≡ o
    → Alike R (repoint_at l v k o R)
unfolding repoint_at
repoint_at-Alike l v k none R h j = refl
repoint_at-Alike l v k (some r) R h j = elim (ℕ_discrete j k) [
  | yes jk ↦
      ap (λ i. essence (get (put R k (repointed l v r)) i)) jk
      ∙ ap essence (get-put_self R k (repointed l v r))
      ∙ essence_kept l v r
      ∙ ap essence (sym h)
      ∙ ap (λ i. essence (get R i)) (sym jk)
  | no ne ↦ ap essence (get-put_ne R k j (repointed l v r) ne)
]

repoint-Alike :
    (l : RuntimeLabel) (v : RuntimeProfileVersion) (bs : List RevisionRuntimeProfile)
    (R : Dict ℕ Revision)
    → Alike R (repoint l v bs R)
unfolding repoint
repoint-Alike l v [] R k = refl
repoint-Alike l v (b ∷ bs) R k =
    repoint-Alike l v bs _ k ∙ repoint_at-Alike l v b.revision_id _ R refl k

repoint_at-NodupKeys :
    (l : RuntimeLabel) (v : RuntimeProfileVersion) (k : ℕ) (o : Option Revision)
    (R : Dict ℕ Revision)
    → NodupKeys R
    → NodupKeys (repoint_at l v k o R)
unfolding repoint_at
repoint_at-NodupKeys l v k none R u = u
repoint_at-NodupKeys l v k (some r) R u = put-NodupKeys R k (repointed l v r) u

repoint-NodupKeys :
    (l : RuntimeLabel) (v : RuntimeProfileVersion) (bs : List RevisionRuntimeProfile)
    (R : Dict ℕ Revision)
    → NodupKeys R
    → NodupKeys (repoint l v bs R)
unfolding repoint
repoint-NodupKeys l v [] R u = u
repoint-NodupKeys l v (b ∷ bs) R u =
    repoint-NodupKeys l v bs _ (repoint_at-NodupKeys l v b.revision_id _ R u)

-- A revision of the same essence stands in the other table.
alike_revision :
    (o : Option Revision) (r : Revision)
    → essence o ≡ essence (some r)
    → (q : Revision) × (o ≡ some q) × (q.status ≡ r.status) × (q.service_id ≡ r.service_id)
alike_revision none r h = cc
alike_revision (some q) r h = (q, refl, ground arith, ground arith)

routes_at-essence : (o o' : Option Revision) → essence o ≡ essence o' → routes_at o ≡ routes_at o'
routes_at-essence none none h = refl
routes_at-essence none (some r) h = cc
routes_at-essence (some r) none h = cc
routes_at-essence (some q) (some r) h = ground arith

pointed-Alike : (R R' : Dict ℕ Revision) (p : Option ℕ) → Alike R R' → pointed R' p ≡ pointed R p
pointed-Alike R R' none a = refl
pointed-Alike R R' (some r) a = routes_at-essence _ _ (a r)

routes_of-Alike :
    (R R' : Dict ℕ Revision) (o : Option Service) → Alike R R' → routes_of R' o ≡ routes_of R o
routes_of-Alike R R' none a = refl
routes_of-Alike R R' (some s) a =
    ap (λ ps. if is_active_service s.status then ps else [])
      (pointed-Alike R R' s.active_revision_id a)

Alike-Inv :
    (S : Dict ℕ Service) (R R' : Dict ℕ Revision) → Inv S R → NodupKeys R' → Alike R R' → Inv S R'
Alike-Inv S R R' inv u a = record {
  distinct_services = inv.distinct_services;
  distinct = u;
  service_id = inv.service_id;
  current = λ k r s h e.
      let (v, at, own, on) = inv.current k r s h e in
      let (q, there, st, sv) = alike_revision (get R' r) v (a r ∙ ap essence at) in
      (q, there, sv ∙ own, ap is_active_revision st ∙ on);
  only = λ r v h on.
      let (q, there, st, sv) = alike_revision (get R r) v (sym (a r) ∙ ap essence h) in
      let (s, at, to) = inv.only r q there (ap is_active_revision st ∙ on) in
      (s, ap (get S) (sym sv) ∙ at, to);
  serving = inv.serving;
  disjoint = λ j k p ne c.
      ap (λ ps. contains ps p) (routes_of-Alike R R' (get S k) a)
      ∙ inv.disjoint j k p ne
          (ap (λ ps. contains ps p) (sym (routes_of-Alike R R' (get S j) a)) ∙ c);
}

-- What a call that returns found, and what it left.
pub activate_runtime_profile-eq-ok :
    (p : Packaging) (k : ℕ) (db db' : Database)
    (x : RuntimeProfileRecord × Option (ℕ × RuntimeProfileVersion) × ℕ)
    → activate_runtime_profile p k db ≡ ok (x, db')
    → (v : RuntimeProfileVersion) × (l : RuntimeLabel) × (get db.versions k ≡ some v)
      × (is_activatable_profile v.status ≡ true)
      × (get db.labels v.label_id ≡ some l)
      × (check_bindings p v (tracking v.label_id db.bindings) ≡ ok tt)
      × (record (moved k l v db) {
        versions =
            release_old k
              (find_old l.active_version_id db.versions)
              (references_of (find_old l.active_version_id db.versions) (moved k l v db))
              (moved k l v db).versions;
      }
          ≡ db')
unfolding activate_runtime_profile
activate_runtime_profile-eq-ok p k db db' x h =
    let (v, found, h1) = >>=-eq-ok (or_raise (get db.versions k) version_missing) _ h in
    let (_, ready, h2) =
      >>=-eq-ok (require (is_activatable_profile v.status) (cannot_activate_profile v.status)) _
        h1 in
    let (l, label, h3) = >>=-eq-ok (or_raise (get db.labels v.label_id) label_missing) _ h2 in
    let (_, passed, h4) = >>=-eq-ok (check_bindings p v (tracking v.label_id db.bindings)) _ h3 in
    (
      v,
      l,
      or_raise-eq-ok _ _ found,
      require-eq-ok _ _ ready,
      or_raise-eq-ok _ _ label,
      passed,
      ground arith,
    )

pub activate_runtime_profile-Inv :
    (p : Packaging) (k : ℕ) (db db' : Database)
    (x : RuntimeProfileRecord × Option (ℕ × RuntimeProfileVersion) × ℕ)
    → Inv db.services db.revisions
    → activate_runtime_profile p k db ≡ ok (x, db')
    → Inv db'.services db'.revisions
unfolding moved
activate_runtime_profile-Inv p k db db' x inv h =
    let (v, l, _, _, _, _, e) = activate_runtime_profile-eq-ok p k db db' x h in
    let bs = tracking v.label_id db.bindings in
    subst (λ d. Inv d.services d.revisions) e
      (Alike-Inv db.services db.revisions (repoint l v bs db.revisions) inv
        (repoint-NodupKeys l v bs db.revisions inv.distinct) (repoint-Alike l v bs db.revisions))
