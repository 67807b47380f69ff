-- ===== src/Repository/Profiles.antt =====
-- repository.py: runtime labels, their versions, and the lifecycle of a version. The identity of a
-- label is asserted where the foreign key gives it.
pub mod Compatible
pub mod Activate
pub mod Moved
pub mod Pointers
pub mod Steps
pub mod History
pub mod Kept
pub mod Bindings
pub mod Tests
use Prim.Native.String.{◌++◌ as ◌<>◌}
use pyscripts.Base.{
  ℕ, suc, ◌+◌, max, Bool, true, false, not, ◌&&◌, ◌||◌, String, Option, none, some, List, [], ◌∷◌,
  ◌++◌, string_eq, nat_eq, ◌=?◌, contains, ◌==◌, length, if◌then◌else◌,
}
use pyscripts.Base.Decimal.{str}
use pyscripts.Base.Dict.{Dict, get, put}
use pyscripts.Base.Result.{Result, ok, err, ◌>>=◌, ◌>>◌, or_raise, require}
use pyscripts.Json.{Value, boolean, text, array, object, Items, nil, cons, field, end}
use pyscripts.Repository.Rows.{
  RuntimeLabel, RuntimeProfileVersion, RuntimeProfileStatus, RevisionRuntimeProfile, Revision,
  Invocation, InvocationExecution, Database, Transaction, Error, label_missing, version_missing,
  label_exists, not_validating, active_not_retired, referenced, executions_active, not_retiring,
  already_retired, integrity, is_pending,
}

-- `CreateRuntimeProfileVersionRequest`; `CreateRuntimeLabelRequest` has a name beside it.
pub record RuntimeVersionRequest : Type 0 where
  pub python_version : String
  pub worker_pool : String
  pub pip_source : String
  pub pip_index_url : Option String
  pub dependencies : List String
  pub import_checks : List String

-- `RuntimeProfileRecord`
pub record RuntimeProfileRecord : Type 0 where
  pub label : RuntimeLabel
  pub version : RuntimeProfileVersion
  pub reference_count : ℕ

texts : List String → Items
texts [] = nil
texts (s ∷ ss) = cons (text s) (texts ss)

initial_runtime_env : List String → Value
unfolding texts
initial_runtime_env [] = object end
initial_runtime_env (d ∷ ds) = object (
    field "pip"
      (object (field "packages" (array (texts (d ∷ ds))) (field "pip_check" (boolean true) end)))
      end)

-- `_new_runtime_version`, with the uuid that it draws
unfoldable pub new_runtime_version :
    ℕ → RuntimeLabel → ℕ → RuntimeVersionRequest → RuntimeProfileVersion
unfolding initial_runtime_env str
new_runtime_version id label version r = record {
  id = id;
  label_id = label.id;
  version = version;
  profile_ref = label.name <> "@v" <> str version;
  python_version = r.python_version;
  worker_pool = r.worker_pool;
  pip_source = r.pip_source;
  pip_index_url = r.pip_index_url;
  requested_dependencies = r.dependencies;
  resolved_dependencies = [];
  import_checks = r.import_checks;
  environment_digest = none;
  runtime_env = initial_runtime_env r.dependencies;
  validation_result = object end;
  status = RuntimeProfileStatus.validating;
  error = none;
  validated_at = none;
  retired_at = none;
}

label_named : String → Dict ℕ RuntimeLabel → Bool
label_named name [] = false
label_named name ((k, l) ∷ d) = l.name =? name || label_named name d

-- `uq_runtime_profile_ref`
ref_taken : String → Dict ℕ RuntimeProfileVersion → Bool
ref_taken ref [] = false
ref_taken ref ((k, v) ∷ d) = v.profile_ref =? ref || ref_taken ref d

abbrev pub new_label : ℕ → String → RuntimeLabel
new_label id name = record { id = id; name = name; active_version_id = none }

abbrev pub record_of : RuntimeLabel → RuntimeProfileVersion → RuntimeProfileRecord
record_of l v = record { label = l; version = v; reference_count = 0 }

unfoldable pub create_runtime_label :
    (label_id version_id : ℕ) (name : String)
    → RuntimeVersionRequest
    → Transaction RuntimeProfileRecord
unfolding label_named ref_taken new_runtime_version
create_runtime_label label_id version_id name r db = do
  require (not (label_named name db.labels)) label_exists
  let label = new_label label_id name
  let version = new_runtime_version version_id label 1 r
  require (not (ref_taken version.profile_ref db.versions)) integrity
  ok (
    record_of label version,
    record db {
      labels = put db.labels label_id label;
      versions = put db.versions version_id version;
    },
  )

-- `func.max` of the versions of a label, or 0
latest_version : ℕ → Dict ℕ RuntimeProfileVersion → ℕ
latest_version label_id [] = 0
latest_version label_id ((k, v) ∷ d) =
    let rest = latest_version label_id d in
    if v.label_id =? label_id then max v.version rest else rest

unfoldable pub create_runtime_version :
    (version_id label_id : ℕ) → RuntimeVersionRequest → Transaction RuntimeProfileRecord
unfolding latest_version ref_taken new_runtime_version
create_runtime_version version_id label_id r db = do
  label ← or_raise (get db.labels label_id) label_missing
  let version = new_runtime_version version_id label (latest_version label_id db.versions + 1) r
  require (not (ref_taken version.profile_ref db.versions)) integrity
  ok (record_of label version, record db { versions = put db.versions version_id version })

abbrev pub is_validating : RuntimeProfileStatus → Bool
is_validating RuntimeProfileStatus.validating = true
is_validating _ = false

-- what the validator found
pub record ValidationOutcome : Type 0 where
  pub resolved_dependencies : Dict String String
  pub validation_result : Value
  pub runtime_env : Value
  pub environment_digest : String

abbrev pub validated : ℕ → ValidationOutcome → RuntimeProfileVersion → RuntimeProfileVersion
validated now o v = record v {
  resolved_dependencies = o.resolved_dependencies;
  validation_result = o.validation_result;
  runtime_env = o.runtime_env;
  environment_digest = some o.environment_digest;
  status = RuntimeProfileStatus.ready;
  validated_at = some now;
  error = none;
}

-- `environment_digest` is unique.
digest_taken : String → ℕ → Dict ℕ RuntimeProfileVersion → Bool
digest_taken digest id [] = false
digest_taken digest id ((k, v) ∷ d) =
    (not (k =? id) && elim v.environment_digest [ none ↦ false | some e ↦ e =? digest ])
    || digest_taken digest id d

unfoldable pub complete_runtime_profile_validation :
    (now version_id : ℕ) → ValidationOutcome → Transaction RuntimeProfileRecord
unfolding digest_taken
complete_runtime_profile_validation now version_id o db = do
  version ← or_raise (get db.versions version_id) version_missing
  require (is_validating version.status) not_validating
  label ← or_raise (get db.labels version.label_id) label_missing
  require (not (digest_taken o.environment_digest version_id db.versions)) integrity
  ok (
    record_of label (validated now o version),
    record db { versions = put db.versions version_id (validated now o version) },
  )

abbrev pub failed_validation : ℕ → String → RuntimeProfileVersion → RuntimeProfileVersion
failed_validation now error v = record v {
  status = RuntimeProfileStatus.failed;
  error = some error;
  validated_at = some now;
}

-- `error` stands for what `error[:4000]` leaves.
unfoldable pub fail_runtime_profile_validation :
    (now version_id : ℕ) (error : String) → Transaction (Unit {0})
fail_runtime_profile_validation now version_id error db = do
  version ← or_raise (get db.versions version_id) version_missing
  ok (tt, record db { versions = put db.versions version_id (failed_validation now error version) })

-- the services of the revisions that are bound to a version, each once
pub referencing : ℕ → Dict ℕ Revision → Dict ℕ RevisionRuntimeProfile → List ℕ
referencing version_id revisions [] = []
referencing version_id revisions ((k, b) ∷ d) =
    let rest = referencing version_id revisions d in
    if b.runtime_profile_version_id =? version_id
    then elim (get revisions b.revision_id) [
      | none ↦ rest
      | some r ↦ if contains rest r.service_id then rest else r.service_id ∷ rest
    ]
    else rest

unfoldable pub runtime_profile_reference_count : ℕ → Database → ℕ
unfolding referencing
runtime_profile_reference_count version_id db =
    length (referencing version_id db.revisions db.bindings)

-- whether an invocation is accepted or running
pending_in : Dict ℕ Invocation → ℕ → Bool
pending_in invocations i = elim (get invocations i) [ none ↦ false | some v ↦ is_pending v.status ]

pub count_executions : String → Dict ℕ Invocation → Dict ℕ InvocationExecution → ℕ
unfolding pending_in
count_executions digest invocations [] = 0
count_executions digest invocations ((k, x) ∷ d) =
    let rest = count_executions digest invocations d in
    if elim x.environment_digest [ none ↦ false | some e ↦ e =? digest ]
      && pending_in invocations x.invocation_id
    then suc rest
    else rest

unfoldable pub active_runtime_execution_count : String → Database → ℕ
unfolding count_executions
active_runtime_execution_count digest db = count_executions digest db.invocations db.executions

-- an environment with no digest, or an empty one, has no executions
unfoldable pub executions_of : Option String → Database → ℕ
unfolding active_runtime_execution_count
executions_of none db = 0
executions_of (some d) db = if d =? "" then 0 else active_runtime_execution_count d db

abbrev pub points : RuntimeLabel → ℕ → Bool
points l id = elim l.active_version_id [ none ↦ false | some v ↦ v =? id ]

abbrev pub is_retiring : RuntimeProfileStatus → Bool
is_retiring RuntimeProfileStatus.retiring = true
is_retiring _ = false

abbrev pub is_retired : RuntimeProfileStatus → Bool
is_retired RuntimeProfileStatus.retired = true
is_retired _ = false

-- the end of `retire_runtime_profile`
abbrev pub retired_version : ℕ → Bool → RuntimeProfileVersion → Result Error RuntimeProfileVersion
retired_version now true v =
    if is_retiring v.status
    then ok (record v { status = RuntimeProfileStatus.retired; retired_at = some now })
    else err not_retiring
retired_version now false v =
    if is_retired v.status
    then err already_retired
    else ok (record v { status = RuntimeProfileStatus.retiring })

unfoldable pub retire_runtime_profile :
    (now version_id : ℕ) (finalize : Bool) → Transaction RuntimeProfileRecord
unfolding runtime_profile_reference_count executions_of
retire_runtime_profile now version_id finalize db = do
  version ← or_raise (get db.versions version_id) version_missing
  label ← or_raise (get db.labels version.label_id) label_missing
  require (not (points label version.id)) active_not_retired
  require (runtime_profile_reference_count version_id db == 0) referenced
  require (executions_of version.environment_digest db == 0) executions_active
  v ← retired_version now finalize version
  ok (record_of label v, record db { versions = put db.versions version_id v })
