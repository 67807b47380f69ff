-- ===== src/Repository/Profiles/Kept.antt =====
-- repository.py: the calls on runtime labels and versions leave the services and the routes of the
-- revisions.
use pyscripts.Base.{ℕ, Bool, String, ◌≡◌, arith, string_eq, nat_eq, subst, ◌==◌, not, ◌+◌}
use pyscripts.Base.Dict.{get, put}
use pyscripts.Base.Result.{ok, or_raise, require, >>=-eq-ok}
use pyscripts.Repository.Rows.{
  Database, label_missing, version_missing, label_exists, not_validating, active_not_retired,
  referenced, executions_active, integrity,
}
use pyscripts.Repository.Profiles.{
  RuntimeVersionRequest, RuntimeProfileRecord, ValidationOutcome, create_runtime_label,
  create_runtime_version, complete_runtime_profile_validation, fail_runtime_profile_validation,
  retire_runtime_profile, new_runtime_version, new_label, validated, failed_validation,
  is_validating, points, retired_version, label_named, ref_taken, latest_version, digest_taken,
  runtime_profile_reference_count, executions_of,
}
use pyscripts.Repository.Profiles.Compatible.{Packaging}
use pyscripts.Repository.Invariant.{Inv}
use pyscripts.Repository.Profiles.Moved.{activate_runtime_profile-Inv}
use pyscripts.Repository.Profiles.History.{
  ProfileCommand, create_label, create_version, complete, fail, activate_profile, retire,
  profile_step, commit-keeps,
}

abbrev Good : Database → Type 0
Good db = Inv db.services db.revisions

create_runtime_label-Inv :
    (i k : ℕ) (name : String) (r : RuntimeVersionRequest) (db db' : Database)
    (x : RuntimeProfileRecord)
    → Good db
    → create_runtime_label i k name r db ≡ ok (x, db')
    → Good db'
unfolding create_runtime_label
create_runtime_label-Inv i k name r db db' x g h =
    let w = new_runtime_version k (new_label i name) 1 r in
    let (_, _, h1) = >>=-eq-ok (require (not (label_named name db.labels)) label_exists) _ h in
    let (_, _, h2) =
      >>=-eq-ok (require (not (ref_taken w.profile_ref db.versions)) integrity) _ h1 in
    let next : Database = record db {
      labels = put db.labels i (new_label i name);
      versions = put db.versions k w;
    } in
    let e : next ≡ db' = ground arith in subst Good e g

create_runtime_version-Inv :
    (k i : ℕ) (r : RuntimeVersionRequest) (db db' : Database) (x : RuntimeProfileRecord)
    → Good db
    → create_runtime_version k i r db ≡ ok (x, db')
    → Good db'
unfolding create_runtime_version
create_runtime_version-Inv k i r db db' x g h =
    let (l, _, h1) = >>=-eq-ok (or_raise (get db.labels i) label_missing) _ h in
    let w = new_runtime_version k l (latest_version i db.versions + 1) r in
    let (_, _, h2) =
      >>=-eq-ok (require (not (ref_taken w.profile_ref db.versions)) integrity) _ h1 in
    let next : Database = record db { versions = put db.versions k w } in
    let e : next ≡ db' = ground arith in subst Good e g

complete_runtime_profile_validation-Inv :
    (now k : ℕ) (o : ValidationOutcome) (db db' : Database) (x : RuntimeProfileRecord)
    → Good db
    → complete_runtime_profile_validation now k o db ≡ ok (x, db')
    → Good db'
unfolding complete_runtime_profile_validation
complete_runtime_profile_validation-Inv now k o db db' x g h =
    let (v, _, h1) = >>=-eq-ok (or_raise (get db.versions k) version_missing) _ h in
    let (_, _, h2) = >>=-eq-ok (require (is_validating v.status) not_validating) _ h1 in
    let (l, _, h3) = >>=-eq-ok (or_raise (get db.labels v.label_id) label_missing) _ h2 in
    let (_, _, h4) =
      >>=-eq-ok (require (not (digest_taken o.environment_digest k db.versions)) integrity) _ h3 in
    let next : Database = record db { versions = put db.versions k (validated now o v) } in
    let e : next ≡ db' = ground arith in subst Good e g

fail_runtime_profile_validation-Inv :
    (now k : ℕ) (error : String) (db db' : Database) (x : Unit {0})
    → Good db
    → fail_runtime_profile_validation now k error db ≡ ok (x, db')
    → Good db'
unfolding fail_runtime_profile_validation
fail_runtime_profile_validation-Inv now k error db db' x g h =
    let (v, _, h1) = >>=-eq-ok (or_raise (get db.versions k) version_missing) _ h in
    let next : Database = record db {
      versions = put db.versions k (failed_validation now error v);
    } in
    let e : next ≡ db' = ground arith in subst Good e g

retire_runtime_profile-Inv :
    (now k : ℕ) (finalize : Bool) (db db' : Database) (x : RuntimeProfileRecord)
    → Good db
    → retire_runtime_profile now k finalize db ≡ ok (x, db')
    → Good db'
unfolding retire_runtime_profile
retire_runtime_profile-Inv now k finalize db db' x g h =
    let (v, _, h1) = >>=-eq-ok (or_raise (get db.versions k) version_missing) _ h in
    let (l, _, h2) = >>=-eq-ok (or_raise (get db.labels v.label_id) label_missing) _ h1 in
    let (_, _, h3) = >>=-eq-ok (require (not (points l v.id)) active_not_retired) _ h2 in
    let (_, _, h4) =
      >>=-eq-ok (require (runtime_profile_reference_count k db == 0) referenced) _ h3 in
    let (_, _, h5) =
      >>=-eq-ok (require (executions_of v.environment_digest db == 0) executions_active) _ h4 in
    let (w, _, h6) = >>=-eq-ok (retired_version now finalize v) _ h5 in
    let next : Database = record db { versions = put db.versions k w } in
    let e : next ≡ db' = ground arith in subst Good e g

pub profile_step-Inv :
    (p : Packaging) (c : ProfileCommand) (db : Database) → Good db → Good (profile_step p c db)
profile_step-Inv p (create_label i k name r) db g =
    commit-keeps Good db _ g (λ x db' h. create_runtime_label-Inv i k name r db db' x g h)
profile_step-Inv p (create_version k i r) db g =
    commit-keeps Good db _ g (λ x db' h. create_runtime_version-Inv k i r db db' x g h)
profile_step-Inv p (complete now k o) db g =
    commit-keeps Good db _ g
      (λ x db' h. complete_runtime_profile_validation-Inv now k o db db' x g h)
profile_step-Inv p (fail now k error) db g =
    commit-keeps Good db _ g
      (λ x db' h. fail_runtime_profile_validation-Inv now k error db db' x g h)
profile_step-Inv p (activate_profile k) db g =
    commit-keeps Good db _ g (λ x db' h. activate_runtime_profile-Inv p k db db' x g h)
profile_step-Inv p (retire now k finalize) db g =
    commit-keeps Good db _ g (λ x db' h. retire_runtime_profile-Inv now k finalize db db' x g h)
