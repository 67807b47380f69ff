-- ===== src/Repository/Profiles/Activate.antt =====
-- repository.py `activate_runtime_profile`.
use pyscripts.Base.{
  ℕ, Bool, true, false, ◌&&◌, String, Option, none, some, List, [], ◌∷◌, ◌++◌, string_eq, nat_eq,
  ◌=?◌, ◌==◌, if◌then◌else◌,
}
use pyscripts.Base.Dict.{Dict, get, put}
use pyscripts.Base.Result.{Result, ok, ◌>>=◌, ◌>>◌, or_raise, require}
use pyscripts.Json.{Value, null, text, object, Fields, end, field_of, set_field}
use pyscripts.Repository.Rows.{
  RuntimeLabel, RuntimeProfileVersion, RuntimeProfileStatus, RuntimeTrackingMode,
  RevisionRuntimeProfile, Revision, Database, Transaction, Error, version_missing, label_missing,
  cannot_activate_profile, metadata_missing, incompatible, profile_activated,
}
use pyscripts.Repository.Profiles.{RuntimeProfileRecord, runtime_profile_reference_count}
use pyscripts.Repository.Profiles.Compatible.{
  Packaging, CompatibilityError, validate_project_compatibility,
}

-- `status in {READY, ACTIVE}`
abbrev pub is_activatable_profile : RuntimeProfileStatus → Bool
is_activatable_profile RuntimeProfileStatus.ready = true
is_activatable_profile RuntimeProfileStatus.active = true
is_activatable_profile _ = false

abbrev pub is_tracking : RuntimeTrackingMode → Bool
is_tracking RuntimeTrackingMode.track_active = true
is_tracking RuntimeTrackingMode.pinned = false

-- a binding that follows the label
abbrev pub tracks : ℕ → RevisionRuntimeProfile → Bool
tracks label_id b = b.runtime_label_id =? label_id && is_tracking b.tracking_mode

-- the query `bindings`
unfoldable pub tracking : ℕ → Dict ℕ RevisionRuntimeProfile → List RevisionRuntimeProfile
tracking label_id [] = []
tracking label_id ((k, b) ∷ d) =
    let rest = tracking label_id d in if tracks label_id b then b ∷ rest else rest

abbrev pub no_errors : List CompatibilityError → Bool
no_errors [] = true
no_errors (e ∷ es) = false

-- what the first loop does with one of the bindings
unfoldable pub check_binding :
    Packaging → RuntimeProfileVersion → RevisionRuntimeProfile → Result Error (Unit {0})
unfolding validate_project_compatibility
check_binding p v b = do
  requires_python ← or_raise b.validation_result.requires_python metadata_missing
  dependencies ← or_raise b.validation_result.dependencies metadata_missing
  require (no_errors (validate_project_compatibility p v requires_python dependencies))
      (incompatible b.revision_id)

-- the first loop
unfoldable pub check_bindings :
    Packaging → RuntimeProfileVersion → List RevisionRuntimeProfile → Result Error (Unit {0})
unfolding check_binding
check_bindings p v [] = ok tt
check_bindings p v (b ∷ bs) = check_binding p v b >> check_bindings p v bs

abbrev pub rebound : RuntimeProfileVersion → RevisionRuntimeProfile → RevisionRuntimeProfile
rebound v b = record b {
  runtime_profile_version_id = v.id;
  validation_result = record b.validation_result { resolved_profile_ref = v.profile_ref };
}

-- what the second loop makes of the bindings
unfoldable pub rebind :
    ℕ → RuntimeProfileVersion → Dict ℕ RevisionRuntimeProfile → Dict ℕ RevisionRuntimeProfile
rebind label_id v [] = []
rebind label_id v ((k, b) ∷ d) =
    (k, if tracks label_id b then rebound v b else b) ∷ rebind label_id v d

digest_value : Option String → Value
digest_value none = null
digest_value (some d) = text d

abbrev fields_of : Option Value → Fields
fields_of (some (object fs)) = fs
fields_of _ = end

runtime_fields : RuntimeLabel → RuntimeProfileVersion → Fields → Fields
unfolding digest_value set_field
runtime_fields l v fs =
    set_field
      (set_field (set_field (set_field fs "label" (text l.name)) "profile_ref" (text v.profile_ref))
        "environment_digest" (digest_value v.environment_digest))
      "tracking_mode" (text "TRACK_ACTIVE")

-- the new manifest of a revision, whose manifest is an object
unfoldable pub with_runtime : RuntimeLabel → RuntimeProfileVersion → Value → Value
unfolding runtime_fields field_of
with_runtime l v (object fs) =
    object
      (set_field fs "runtime" (object (runtime_fields l v (fields_of (field_of fs "runtime")))))
with_runtime l v other = other

unfoldable pub repointed : RuntimeLabel → RuntimeProfileVersion → Revision → Revision
unfolding with_runtime
repointed l v r = record r {
  runtime_profile = v.profile_ref;
  manifest = with_runtime l v r.manifest;
}

unfoldable pub repoint_at :
    RuntimeLabel → RuntimeProfileVersion → ℕ → Option Revision → Dict ℕ Revision → Dict ℕ Revision
unfolding repointed
repoint_at l v k none revisions = revisions
repoint_at l v k (some r) revisions = put revisions k (repointed l v r)

-- what the second loop makes of the revisions
unfoldable pub repoint :
    RuntimeLabel
    → RuntimeProfileVersion
    → List RevisionRuntimeProfile
    → Dict ℕ Revision
    → Dict ℕ Revision
unfolding repoint_at
repoint l v [] revisions = revisions
repoint l v (b ∷ bs) revisions =
    repoint l v bs (repoint_at l v b.revision_id (get revisions b.revision_id) revisions)

abbrev pub activated_version : RuntimeProfileVersion → RuntimeProfileVersion
activated_version v = record v { status = RuntimeProfileStatus.active }

abbrev pub left_version : ℕ → RuntimeProfileVersion → RuntimeProfileVersion
left_version references old = record old {
  status = if references == 0 then RuntimeProfileStatus.retiring else RuntimeProfileStatus.ready;
}

-- the old version, with its references counted after the bindings have moved
unfoldable pub release_old :
    ℕ
    → Option (ℕ × RuntimeProfileVersion)
    → ℕ
    → Dict ℕ RuntimeProfileVersion
    → Dict ℕ RuntimeProfileVersion
release_old version_id none references versions = versions
release_old version_id (some (k, old)) references versions =
    if k =? version_id then versions else put versions k (left_version references old)

-- the row that a pointer finds, with its key
unfoldable pub find_old :
    Option ℕ → Dict ℕ RuntimeProfileVersion → Option (ℕ × RuntimeProfileVersion)
find_old none versions = none
find_old (some k) versions = elim (get versions k) [ none ↦ none | some v ↦ some (k, v) ]

abbrev pub references_of : Option (ℕ × RuntimeProfileVersion) → Database → ℕ
references_of none db = 0
references_of (some (k, v)) db = runtime_profile_reference_count k db

abbrev pub pointing : RuntimeLabel → ℕ → RuntimeLabel
pointing l version_id = record l { active_version_id = some version_id }

-- the tables after both loops, with the new pointer and status
unfoldable pub moved : ℕ → RuntimeLabel → RuntimeProfileVersion → Database → Database
unfolding rebind tracking repoint
moved version_id l v db = record db {
  bindings = rebind v.label_id v db.bindings;
  revisions = repoint l v (tracking v.label_id db.bindings) db.revisions;
  labels = put db.labels v.label_id (pointing l version_id);
  versions = put db.versions version_id (activated_version v);
  outbox = db.outbox ++ profile_activated l.name version_id v.profile_ref ∷ [];
}

module _ (p : Packaging) where
  unfoldable pub activate_runtime_profile :
      (version_id : ℕ) → Transaction (RuntimeProfileRecord × Option (ℕ × RuntimeProfileVersion) × ℕ)
  unfolding check_bindings moved release_old find_old runtime_profile_reference_count tracking
  activate_runtime_profile version_id db = do
    v ← or_raise (get db.versions version_id) version_missing
    require (is_activatable_profile v.status) (cannot_activate_profile v.status)
    l ← or_raise (get db.labels v.label_id) label_missing
    let old = find_old l.active_version_id db.versions
    check_bindings p v (tracking v.label_id db.bindings)
    let after = moved version_id l v db
    let references = references_of old after
    let result : RuntimeProfileRecord = record {
      label = pointing l version_id;
      version = activated_version v;
      reference_count = runtime_profile_reference_count version_id after;
    }
    ok (
      (result, old, references),
      record after { versions = release_old version_id old references after.versions },
    )
