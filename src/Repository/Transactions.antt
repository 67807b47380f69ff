-- ===== src/Repository/Transactions.antt =====
-- repository.py: the transactions of the control plane on services and revisions, one after the
-- other. Each runs in a transaction of the database, and one that raises leaves no trace.
use mathlib.Core.Path.{subst₂}
use pyscripts.Base.{
  ℕ, Bool, String, Option, none, some, List, [], ◌∷◌, ◌≡◌, sym, ap, arith, true, nat_eq, string_eq,
}
use pyscripts.Base.Dict.{get}
use pyscripts.Base.Result.{Result, ok}
use pyscripts.Repository.Rows.{
  is_active_revision, Revision, Database, Error, RuntimeLabel, RuntimeProfileVersion,
}
use pyscripts.Repository.Invariant.{Inv}
use pyscripts.Repository.Profiles.Compatible.{Packaging}
use pyscripts.Repository.Profiles.History.{ProfileCommand, profile_step, commit, commit-keeps}
use pyscripts.Repository.Profiles.Kept.{profile_step-Inv}
use pyscripts.Repository.Services.{
  create_service, CreateServiceRequest, stop_service, start_service, UpdateServiceRequest,
  update_service, configure_service_webhook, stop_services_with_unsupported_interfaces,
  delete_service,
}
use pyscripts.Repository.Services.Lifecycle.{stop_service-Inv, start_service-Inv}
use pyscripts.Repository.Services.Writes.{
  create_service-Inv, update_service-Inv, configure_service_webhook-Inv, sweep-Inv,
}
use pyscripts.Repository.Services.Deletion.{delete_service-Inv}
use pyscripts.Repository.Contracts.{PublishedContract, register_contract, register_contract-keeps}
use pyscripts.Repository.Revisions.{RevisionRequest, create_revision, activate_revision}
use pyscripts.Repository.Revisions.Activation.{activate_revision-Inv}
use pyscripts.Repository.Revisions.Publication.{create_revision-Inv}

-- A call of `MetadataRepository`, with the instant at which it runs and the uuid that it draws.
pub data Command : Type 0 where
  create : (id now : ℕ) → CreateServiceRequest → Command
  update : (service_id now : ℕ) → UpdateServiceRequest → Command
  configure_webhook : (service_id now : ℕ) → (token_hash : Option String) → Command
  stop : (service_id now : ℕ) → Command
  start : (service_id now : ℕ) → Command
  sweep : (now : ℕ) → Command
  delete : (service_id : ℕ) → Command
  publish :
      (id now service_id : ℕ)
      → RevisionRequest
      → (contract_id : Option ℕ) → (profile : Option (RuntimeLabel × RuntimeProfileVersion))
      → Command
  activate : (now service_id revision_id : ℕ) → Command
  register : (id now service_id : ℕ) → PublishedContract → Command
  on_profiles : ProfileCommand → Command

abbrev pub empty : Database
empty = record {
  services = [];
  revisions = [];
  endpoints = [];
  contracts = [];
  revision_contracts = [];
  labels = [];
  versions = [];
  bindings = [];
  policies = [];
  invocations = [];
  executions = [];
  logs = [];
  outbox = [];
}

-- `strip` is `str.strip`, `version_le` the order of `packaging.version`, and `p` what of that
-- library the test of a project reads.
module _ (strip : String → String) (version_le : String → String → Bool) (p : Packaging) where
  abbrev pub step : Command → Database → Database
  step (create id now r) db = commit db (create_service id now r db)
  step (update k now r) db = commit db (update_service strip k now r db)
  step (configure_webhook k now token) db = commit db (configure_service_webhook k now token db)
  step (stop k now) db = commit db (stop_service k now db)
  step (start k now) db = commit db (start_service k now db)
  step (sweep now) db = commit db (stop_services_with_unsupported_interfaces now db)
  step (delete k) db = commit db (delete_service k db)
  step (publish id now k r contract profile) db =
      commit db (create_revision id now k r contract profile db)
  step (activate now k r) db = commit db (activate_revision now k r db)
  step (register id now k r) db = commit db (register_contract version_le id now k r db)
  step (on_profiles c) db = profile_step p c db

  abbrev pub run : List Command → Database → Database
  run [] db = db
  run (c ∷ cs) db = run cs (step c db)

  -- A uuid that is drawn is not in use.
  abbrev pub IsFresh : Command → Database → Type 0
  IsFresh (create id _ _) db = get db.services id ≡ none
  IsFresh (publish id _ _ _ _ _) db = get db.revisions id ≡ none
  IsFresh _ db = Unit

  abbrev pub AllFresh : List Command → Database → Type 0
  AllFresh [] db = Unit
  AllFresh (c ∷ cs) db = IsFresh c db × AllFresh cs (step c db)

abbrev pub Good : Database → Type 0
Good db = Inv db.services db.revisions

commit-Good {ℓ} :
    {A : Type ℓ} (db : Database) (r : Result Error (A × Database))
    → Good db
    → ((a : A) (db' : Database) → r ≡ ok (a, db') → Good db')
    → Good (commit db r)
commit-Good db r g keeps = commit-keeps Good db r g keeps

register-Good :
    (strip : String → String) (le : String → String → Bool) (p : Packaging) (id now k : ℕ)
    (r : PublishedContract) (db : Database)
    → Good db
    → Good (step strip le p (register id now k r) db)
register-Good strip le p id now k r db g = commit-Good db _ g (λ c db' h.
    let (es, er) = register_contract-keeps le id now k r db db' c h in
    subst₂ Inv (sym es) (sym er) g)

step-Good :
    (strip : String → String) (le : String → String → Bool) (p : Packaging) (c : Command)
    (db : Database)
    → IsFresh strip le p c db
    → Good db
    → Good (step strip le p c db)
step-Good strip le p (create id now r) db f g =
    commit-Good db _ g (λ s db' h. create_service-Inv id now r db db' s f g h)
step-Good strip le p (update k now r) db f g =
    commit-Good db _ g (λ s db' h. update_service-Inv strip k now r db db' s g h)
step-Good strip le p (configure_webhook k now token) db f g =
    commit-Good db _ g (λ s db' h. configure_service_webhook-Inv k now token db db' s g h)
step-Good strip le p (stop k now) db f g =
    commit-Good db _ g (λ s db' h. stop_service-Inv k now db db' s g h)
step-Good strip le p (start k now) db f g =
    commit-Good db _ g (λ s db' h. start_service-Inv k now db db' s g h)
step-Good strip le p (sweep now) db f g =
    commit-Good db _ g (λ names db' h. sweep-Inv now db db' names g h)
step-Good strip le p (delete k) db f g =
    commit-Good db _ g (λ name db' h. delete_service-Inv k db db' name g h)
step-Good strip le p (publish id now k r contract profile) db f g =
    commit-Good db _ g (λ v db' h. create_revision-Inv id now k r contract profile db db' v f g h)
step-Good strip le p (activate now k r) db f g =
    commit-Good db _ g (λ v db' h. activate_revision-Inv now k r db db' v g h)
step-Good strip le p (register id now k r) db f g = register-Good strip le p id now k r db g
step-Good strip le p (on_profiles c) db f g = profile_step-Inv p c db g

run-Good :
    (strip : String → String) (le : String → String → Bool) (p : Packaging) (cs : List Command)
    (db : Database)
    → AllFresh strip le p cs db
    → Good db
    → Good (run strip le p cs db)
run-Good strip le p [] db f g = g
run-Good strip le p (c ∷ cs) db f g =
    run-Good strip le p cs (step strip le p c db) f.1 (step-Good strip le p c db f.0 g)

empty-Good : Good empty
unfolding get
empty-Good = record {
  distinct_services = tt;
  distinct = tt;
  service_id = λ k s h. cc;
  current = λ k r s h e. cc;
  only = λ r v h a. cc;
  serving = λ k s h a. cc;
  disjoint = λ j k p ne c. cc;
}

-- After any sequence of calls on an empty database, failed ones included, where a uuid that is
-- drawn is not in use, the services and revisions satisfy `Inv`: the active revisions are those
-- that a service points to, each in its own service, an ACTIVE service has one, and no gRPC path
-- is published by two services.
pub run-empty-Inv :
    (strip : String → String) (le : String → String → Bool) (p : Packaging) (cs : List Command)
    → AllFresh strip le p cs empty
    → Inv (run strip le p cs empty).services (run strip le p cs empty).revisions
run-empty-Inv strip le p cs f = run-Good strip le p cs empty f empty-Good

-- After any sequence of calls on an empty database, where a uuid that is drawn is not in use, two
-- ACTIVE revisions of one service are the same revision.
pub run_one_active :
    (strip : String → String) (le : String → String → Bool) (p : Packaging) (cs : List Command)
    (q r : ℕ) (u v : Revision)
    → AllFresh strip le p cs empty
    → get (run strip le p cs empty).revisions q ≡ some u
    → get (run strip le p cs empty).revisions r ≡ some v
    → is_active_revision u.status ≡ true
    → is_active_revision v.status ≡ true
    → u.service_id ≡ v.service_id
    → q ≡ r
run_one_active strip le p cs q r u v f hu hv au av same =
    let inv = run-empty-Inv strip le p cs f in
    let (s, at_s, to_q) = inv.only q u hu au in
    let (t, at_t, to_r) = inv.only r v hv av in
    ground (arith, ap (get (run strip le p cs empty).services) same)
