-- ===== src/Repository/Profiles/Steps.antt =====
-- repository.py: what each call on runtime labels and versions keeps of the pointers.
use pyscripts.Base.{
  ℕ, Bool, true, false, Bool-cases, String, Option, none, some, ◌≡◌, refl, sym, ap, ◌∙◌, arith,
  string_eq, nat_eq, subst, inl, inr, ◌≢◌, ◌⊎◌, ◌==◌, not, ◌+◌,
}
use native.Mathlib.Decide.{ℕ_discrete}
use pyscripts.Base.Dict.{Dict, get, put, get-put_self, get-put_ne}
use pyscripts.Base.Result.{ok, or_raise, or_raise-eq-ok, require, require-eq-ok, >>=-eq-ok}
use pyscripts.Repository.Rows.{
  RuntimeLabel, RuntimeProfileVersion, RuntimeProfileStatus, Database, label_missing,
  version_missing, label_exists, not_validating, active_not_retired, referenced, executions_active,
  integrity,
}
use pyscripts.Repository.Profiles.{
  RuntimeVersionRequest, RuntimeProfileRecord, ValidationOutcome, create_runtime_label,
  create_runtime_version, complete_runtime_profile_validation, fail_runtime_profile_validation,
  retire_runtime_profile, new_runtime_version, new_label, validated, failed_validation,
  is_validating, points, retired_version, label_named, ref_taken, latest_version, digest_taken,
  runtime_profile_reference_count, executions_of, is_retiring, is_retired,
}
use pyscripts.Repository.Profiles.Compatible.{Packaging}
use pyscripts.Repository.Profiles.Activate.{
  activate_runtime_profile, activated_version, left_version, release_old, find_old, references_of,
  moved,
}
use pyscripts.Repository.Profiles.Moved.{activate_runtime_profile-eq-ok}
use pyscripts.Repository.Profiles.Pointers.{
  Pointing, Idle, is_active_profile, put_version-Pointing, put_label-Pointing, move-Pointing,
}

abbrev pub GoodProfiles : Database → Type 0
GoodProfiles db = Pointing db.labels db.versions

Idle-none : (V : Dict ℕ RuntimeProfileVersion) (k : ℕ) → get V k ≡ none → Idle V k
Idle-none V k h v e = cc

Idle-some :
    (V : Dict ℕ RuntimeProfileVersion) (k : ℕ) (v : RuntimeProfileVersion)
    → get V k ≡ some v
    → is_active_profile v.status ≡ false
    → Idle V k
Idle-some V k v h off w e = ground arith

pub create_runtime_label-Pointing :
    (i k : ℕ) (name : String) (r : RuntimeVersionRequest) (db db' : Database)
    (x : RuntimeProfileRecord)
    → get db.labels i ≡ none
    → get db.versions k ≡ none
    → GoodProfiles db
    → create_runtime_label i k name r db ≡ ok (x, db')
    → GoodProfiles db'
unfolding create_runtime_label new_runtime_version
create_runtime_label-Pointing i k name r db db' x fi fk g h =
    let w = new_runtime_version k (new_label i name) 1 r in
    let (_, _, h1) = >>=-eq-ok (require (not (label_named name db.labels)) label_exists) _ h in
    let (_, _, h2) =
      >>=-eq-ok (require (not (ref_taken w.profile_ref db.versions)) integrity) _ h1 in
    let next : Database = record db {
      labels = put db.labels i (new_label i name);
      versions = put db.versions k w;
    } in
    let e : next ≡ db' = ground arith in
    subst GoodProfiles e (
      put_version-Pointing (put db.labels i (new_label i name)) db.versions k w
        (put_label-Pointing db.labels db.versions i (new_label i name) g fi refl)
        (Idle-none db.versions k fk) refl refl)

pub create_runtime_version-Pointing :
    (k i : ℕ) (r : RuntimeVersionRequest) (db db' : Database) (x : RuntimeProfileRecord)
    → get db.versions k ≡ none
    → GoodProfiles db
    → create_runtime_version k i r db ≡ ok (x, db')
    → GoodProfiles db'
unfolding create_runtime_version new_runtime_version
create_runtime_version-Pointing k i r db db' x fk g h =
    let (l, _, h1) = >>=-eq-ok (or_raise (get db.labels i) label_missing) _ h in
    let w = new_runtime_version k l (latest_version i db.versions + 1) r in
    let (_, _, h2) =
      >>=-eq-ok (require (not (ref_taken w.profile_ref db.versions)) integrity) _ h1 in
    let next : Database = record db { versions = put db.versions k w } in
    let e : next ≡ db' = ground arith in
    subst GoodProfiles e
      (put_version-Pointing db.labels db.versions k w g (Idle-none db.versions k fk) refl refl)

validating-off : (s : RuntimeProfileStatus) → is_validating s ≡ true → is_active_profile s ≡ false
validating-off s h = ground arith

pub complete_runtime_profile_validation-Pointing :
    (now k : ℕ) (o : ValidationOutcome) (db db' : Database) (x : RuntimeProfileRecord)
    → GoodProfiles db
    → complete_runtime_profile_validation now k o db ≡ ok (x, db')
    → GoodProfiles db'
unfolding complete_runtime_profile_validation
complete_runtime_profile_validation-Pointing now k o db db' x g h =
    let (v, found, h1) = >>=-eq-ok (or_raise (get db.versions k) version_missing) _ h in
    let at : get db.versions k ≡ some v = or_raise-eq-ok _ _ found in
    let (_, valid, h2) = >>=-eq-ok (require (is_validating v.status) not_validating) _ h1 in
    let (l, _, h3) = >>=-eq-ok (or_raise (get db.labels v.label_id) label_missing) _ h2 in
    let (_, _, h4) =
      >>=-eq-ok (require (not (digest_taken o.environment_digest k db.versions)) integrity) _ h3 in
    let next : Database = record db { versions = put db.versions k (validated now o v) } in
    let e : next ≡ db' = ground arith in
    subst GoodProfiles e (
      put_version-Pointing db.labels db.versions k (validated now o v) g
        (Idle-some db.versions k v at (validating-off v.status (require-eq-ok _ _ valid)))
        (g.version_id k v at) refl)

pub fail_runtime_profile_validation-Pointing :
    (now k : ℕ) (error : String) (db db' : Database) (x : Unit {0})
    → Idle db.versions k
    → GoodProfiles db
    → fail_runtime_profile_validation now k error db ≡ ok (x, db')
    → GoodProfiles db'
unfolding fail_runtime_profile_validation
fail_runtime_profile_validation-Pointing now k error db db' x idle g h =
    let (v, found, h1) = >>=-eq-ok (or_raise (get db.versions k) version_missing) _ h in
    let next : Database = record db {
      versions = put db.versions k (failed_validation now error v);
    } in
    let e : next ≡ db' = ground arith in
    subst GoodProfiles e (
      put_version-Pointing db.labels db.versions k (failed_validation now error v) g idle
        (g.version_id k v (or_raise-eq-ok _ _ found)) refl)

retired_version-off :
    (now : ℕ) (finalize : Bool) (v w : RuntimeProfileVersion)
    → retired_version now finalize v ≡ ok w
    → (w.id ≡ v.id) × (is_active_profile w.status ≡ false)
retired_version-off now true v w h = elim (Bool-cases (is_retiring v.status)) [
  | inl e ↦ (ground (arith, h), ground (arith, h))
  | inr e ↦ ground (arith, h)
]
retired_version-off now false v w h = elim (Bool-cases (is_retired v.status)) [
  | inl e ↦ ground (arith, h)
  | inr e ↦ (ground (arith, h), ground (arith, h))
]

-- A version to which its label does not point is not ACTIVE.
unpointed-Idle :
    (L : Dict ℕ RuntimeLabel) (V : Dict ℕ RuntimeProfileVersion) (k : ℕ) (v : RuntimeProfileVersion)
    (l : RuntimeLabel)
    → Pointing L V
    → get V k ≡ some v
    → get L v.label_id ≡ some l
    → points l v.id ≡ false
    → Idle V k
unpointed-Idle L V k v l g at label free = elim (Bool-cases (is_active_profile v.status)) [
  | inl on ↦
      let (m, there, to) = g.pointed k v at on in
      let same : some m ≡ some l = sym there ∙ label in ground (arith, to, g.version_id k v at)
  | inr off ↦ Idle-some V k v at off
]

pub retire_runtime_profile-Pointing :
    (now k : ℕ) (finalize : Bool) (db db' : Database) (x : RuntimeProfileRecord)
    → GoodProfiles db
    → retire_runtime_profile now k finalize db ≡ ok (x, db')
    → GoodProfiles db'
unfolding retire_runtime_profile
retire_runtime_profile-Pointing now k finalize db db' x g h =
    let (v, found, h1) = >>=-eq-ok (or_raise (get db.versions k) version_missing) _ h in
    let at : get db.versions k ≡ some v = or_raise-eq-ok _ _ found in
    let (l, found_label, h2) = >>=-eq-ok (or_raise (get db.labels v.label_id) label_missing) _ h1 in
    let label : get db.labels v.label_id ≡ some l = or_raise-eq-ok _ _ found_label in
    let (_, free, h3) = >>=-eq-ok (require (not (points l v.id)) active_not_retired) _ h2 in
    let (_, _, h4) =
      >>=-eq-ok (require (runtime_profile_reference_count k db == 0) referenced) _ h3 in
    let (_, _, h5) =
      >>=-eq-ok (require (executions_of v.environment_digest db == 0) executions_active) _ h4 in
    let (w, end, h6) = >>=-eq-ok (retired_version now finalize v) _ h5 in
    let (own, off) = retired_version-off now finalize v w end in
    let next : Database = record db { versions = put db.versions k w } in
    let e : next ≡ db' = ground arith in
    let unset : points l v.id ≡ false = ground (arith, require-eq-ok _ _ free) in
    subst GoodProfiles e (
      put_version-Pointing db.labels db.versions k w g
        (unpointed-Idle db.labels db.versions k v l g at label unset) (own ∙ g.version_id k v at)
        off)

left_version-off :
    (n : ℕ) (z : RuntimeProfileVersion) → is_active_profile (left_version n z).status ≡ false
left_version-off n z = ground arith

-- What `activate_runtime_profile` does to the versions other than the one it activates.
module _ (V : Dict ℕ RuntimeProfileVersion) (k n : ℕ) (w : RuntimeProfileVersion) where
  abbrev released : Option (ℕ × RuntimeProfileVersion) → Dict ℕ RuntimeProfileVersion
  released old = release_old k old n (put V k w)

  release_old_same :
      (m : ℕ) (z : RuntimeProfileVersion) → m ≡ k → released (some (m, z)) ≡ put V k w
  unfolding release_old
  release_old_same m z e = ground arith

  release_old_other :
      (m : ℕ) (z : RuntimeProfileVersion)
      → m ≢ k
      → released (some (m, z)) ≡ put (put V k w) m (left_version n z)
  unfolding release_old
  release_old_other m z ne = ground arith

  pub release_old_self : (old : Option (ℕ × RuntimeProfileVersion)) → get (released old) k ≡ some w
  unfolding release_old
  release_old_self none = get-put_self V k w
  release_old_self (some (m, z)) = elim (ℕ_discrete m k) [
    | yes e ↦ ap (λ d. get d k) (release_old_same m z e) ∙ get-put_self V k w
    | no ne ↦
        ap (λ d. get d k) (release_old_other m z ne)
        ∙ get-put_ne (put V k w) m k (left_version n z) (λ q. ne (sym q))
        ∙ get-put_self V k w
  ]

  release_old_some :
      (m j : ℕ) (z : RuntimeProfileVersion)
      → z.id ≡ m
      → j ≢ k
      → ((some m ≡ some j)
          × ((u : RuntimeProfileVersion)
              → get (released (some (m, z))) j ≡ some u
              → (u.id ≡ j) × (is_active_profile u.status ≡ false)))
        ⊎ ((some m ≢ some j) × (get (released (some (m, z))) j ≡ get V j))
  release_old_some m j z own ne = elim (ℕ_discrete m j) [
    | yes mj ↦ inl (
      ap some mj,
      λ u h.
          let at =
            sym (get-put_self (put V k w) m (left_version n z))
            ∙ ap (get (put (put V k w) m (left_version n z))) mj
            ∙ ap (λ d. get d j) (sym (release_old_other m z (λ q. ne (sym mj ∙ q))))
            ∙ h in
          let same : some (left_version n z) ≡ some u = at in
          (ground arith, ground (arith, left_version-off n z)),
    )
    | no apart ↦ inr (
      ground arith,
      elim (ℕ_discrete m k) [
        | yes e ↦ ap (λ d. get d j) (release_old_same m z e) ∙ get-put_ne V k j w ne
        | no mk ↦
            ap (λ d. get d j) (release_old_other m z mk)
            ∙ get-put_ne (put V k w) m j (left_version n z) (λ q. apart (sym q))
            ∙ get-put_ne V k j w ne
      ],
    )
  ]

  release_old_others :
      (o : Option ℕ) (old : Option (ℕ × RuntimeProfileVersion))
      → find_old o V ≡ old
      → ((m : ℕ) → o ≡ some m → (z : RuntimeProfileVersion) × (get V m ≡ some z) × (z.id ≡ m))
      → (j : ℕ) → j ≢ k
      → ((o ≡ some j)
          × ((u : RuntimeProfileVersion)
              → get (released old) j ≡ some u
              → (u.id ≡ j) × (is_active_profile u.status ≡ false)))
        ⊎ ((o ≢ some j) × (get (released old) j ≡ get V j))
  unfolding release_old find_old
  release_old_others none none e there j ne = inr (ground arith, get-put_ne V k j w ne)
  release_old_others none (some old) e there j ne = cc
  release_old_others (some m) old e there j ne =
      let (z, at, own) = there m refl in
      let found : old ≡ some (m, z) = sym e ∙ (rw (at, find_old) refl) in
      rw found (release_old_some m j z own ne)

pub activate_runtime_profile-Pointing :
    (p : Packaging) (k : ℕ) (db db' : Database)
    (x : RuntimeProfileRecord × Option (ℕ × RuntimeProfileVersion) × ℕ)
    → GoodProfiles db
    → activate_runtime_profile p k db ≡ ok (x, db')
    → GoodProfiles db'
unfolding moved
activate_runtime_profile-Pointing p k db db' x g h =
    let (v, l, at, _, label, _, e) = activate_runtime_profile-eq-ok p k db db' x h in
    let old = find_old l.active_version_id db.versions in
    let n = references_of old (moved k l v db) in
    subst GoodProfiles e (
      move-Pointing db.labels db.versions
        (release_old k old n (put db.versions k (activated_version v))) k v l g at label
        (release_old_self db.versions k n (activated_version v) old)
        (release_old_others db.versions k n (activated_version v) l.active_version_id old refl
          (λ m to.
            let (z, there, _, _) = g.active v.label_id m l label to in
            (z, there, g.version_id m z there))))
