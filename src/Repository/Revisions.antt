-- ===== src/Repository/Revisions.antt =====
-- repository.py: publishing a revision and making it the active one of its service.
pub mod Activation
pub mod Publication
pub mod Rollback
use pyscripts.Base.{
  ℕ, Bool, true, false, not, ◌&&◌, ◌||◌, String, Option, none, some, List, [], ◌∷◌, ◌++◌, map,
  string_eq, nat_eq, ◌=?◌, contains, select, is_none, if◌then◌else◌,
}
use pyscripts.Base.Int.{pos}
use pyscripts.Base.Dict.{Dict, get, put, pop}
use pyscripts.Base.Result.{Result, ok, err, ◌>>=◌, ◌>>◌, or_raise, require}
use pyscripts.Json.{Value, integer, text, null, array, object, Items, nil, cons, Fields, end, field}
use pyscripts.Repository.Rows.{
  Service, Revision, Endpoint, ApiContract, RevisionContract, RuntimeLabel, RuntimeProfileVersion,
  RevisionRuntimeProfile, Requirements, RuntimeTrackingMode, pinned, track_active, Database,
  Transaction, Error, ServiceStatus, RevisionStatus, OutboxEvent, service_missing, revision_missing,
  cannot_activate, unsupported_interface, contract_not_ready, integrity, revision_ready,
  revision_activated, is_stopped, is_activatable, is_ready_contract,
}
use pyscripts.Repository.Manifest.{
  supports_current_interface, grpc_method_paths, grpc_service_names,
}
use pyscripts.Repository.Routes.{assert_grpc_routes_available, is_empty}

-- `EndpointSpec`, with what its `to_manifest` returns
pub record EndpointSpec : Type 0 where
  pub id : String
  pub task_type : String
  pub entrypoint : String
  pub has_grpc : Bool
  pub request_schema : Value
  pub response_schema : Value
  pub manifest : Value

-- `ResolvedRevisionRequest`; `grpc_contract` is the dump of the contract, if there is one, and
-- `is_pinned` whether "@v" stands in `runtime_profile`
pub record RevisionRequest : Type 0 where
  pub revision : String
  pub artifact_uri : String
  pub artifact_digest : String
  pub endpoints : List EndpointSpec
  pub grpc_contract : Option Value
  pub runtime_profile : String
  pub is_pinned : Bool
  pub requires_python : String
  pub dependencies : List String

manifests : List EndpointSpec → Items
manifests [] = nil
manifests (e ∷ es) = cons e.manifest (manifests es)

optional_field : String → Option Value → Fields → Fields
optional_field name none fs = fs
optional_field name (some v) fs = field name v fs

text_or_null : Option String → Value
text_or_null none = null
text_or_null (some s) = text s

mode_text : RuntimeTrackingMode → String
mode_text pinned = "PINNED"
mode_text track_active = "TRACK_ACTIVE"

-- the "runtime" object of a manifest
runtime_object : RuntimeTrackingMode → RuntimeLabel × RuntimeProfileVersion → Value
unfolding text_or_null mode_text
runtime_object mode (label, version) = object (
    field "label" (text label.name) (
      field "profile_ref" (text version.profile_ref) (
        field "environment_digest" (text_or_null version.environment_digest)
          (field "tracking_mode" (text (mode_text mode)) end))))

unfoldable pub new_manifest :
    RevisionRequest → RuntimeTrackingMode → Option (RuntimeLabel × RuntimeProfileVersion) → Value
unfolding manifests optional_field runtime_object
new_manifest r mode profile =
    let runtime : Option Value = elim profile [
      | none ↦ none
      | some p ↦ some (runtime_object mode p)
    ] in
    object (
      field "spec_version" (integer (pos 2)) (
        field "endpoints" (array (manifests r.endpoints))
          (optional_field "grpc_contract" r.grpc_contract (optional_field "runtime" runtime end))))

pub any_grpc : List EndpointSpec → Bool
any_grpc [] = false
any_grpc (e ∷ es) = e.has_grpc || any_grpc es

endpoint_row : ℕ → EndpointSpec → Endpoint
endpoint_row revision_id e = record {
  revision_id = revision_id;
  endpoint_id = e.id;
  task_type = e.task_type;
  entrypoint = e.entrypoint;
  request_schema = e.request_schema;
  response_schema = e.response_schema;
}

binding_of :
    ℕ
    → RevisionRequest
    → RuntimeTrackingMode
    → RuntimeLabel × RuntimeProfileVersion
    → RevisionRuntimeProfile
binding_of revision_id r mode (label, version) = record {
  revision_id = revision_id;
  runtime_label_id = label.id;
  runtime_profile_version_id = version.id;
  tracking_mode = mode;
  interface_digest = r.artifact_digest;
  validation_result = record {
    requested_runtime = r.runtime_profile;
    resolved_profile_ref = version.profile_ref;
    requires_python = some r.requires_python;
    dependencies = some r.dependencies;
  };
}

put_binding :
    Dict ℕ RevisionRuntimeProfile
    → ℕ
    → RevisionRequest
    → RuntimeTrackingMode
    → Option (RuntimeLabel × RuntimeProfileVersion)
    → Dict ℕ RevisionRuntimeProfile
unfolding binding_of
put_binding bindings id r mode none = bindings
put_binding bindings id r mode (some p) = put bindings id (binding_of id r mode p)

profile_ref_or : Option (RuntimeLabel × RuntimeProfileVersion) → String → String
profile_ref_or none s = s
profile_ref_or (some (label, version)) s = version.profile_ref

-- `uq_revision_service_name` and `uq_endpoint_revision_id`
pub name_taken : ℕ → String → Dict ℕ Revision → Bool
name_taken service_id name [] = false
name_taken service_id name ((k, r) ∷ d) =
    (r.service_id =? service_id && r.revision =? name) || name_taken service_id name d

pub repeats : List String → Bool
repeats [] = false
repeats (x ∷ xs) = contains xs x || repeats xs

pub endpoint_ids : List EndpointSpec → List String
endpoint_ids [] = []
endpoint_ids (e ∷ es) = e.id ∷ endpoint_ids es

contract_rows : ℕ → Option ℕ → List RevisionContract
contract_rows revision_id none = []
contract_rows revision_id (some c) = record { revision_id = revision_id; contract_id = c } ∷ []

unfoldable pub new_revision :
    ℕ
    → ℕ
    → ℕ
    → RevisionRequest
    → RuntimeTrackingMode
    → Option (RuntimeLabel × RuntimeProfileVersion)
    → Revision
unfolding profile_ref_or
new_revision id now service_id r mode profile = record {
  id = id;
  service_id = service_id;
  revision = r.revision;
  artifact_uri = r.artifact_uri;
  artifact_digest = r.artifact_digest;
  runtime_profile = profile_ref_or profile r.runtime_profile;
  status = RevisionStatus.ready;
  manifest = new_manifest r mode profile;
  created_at = now;
  activated_at = none;
}

-- `id` is the new uuid of the revision.
unfoldable pub create_revision :
    (id now service_id : ℕ)
    → RevisionRequest
    → Option ℕ
    → Option (RuntimeLabel × RuntimeProfileVersion)
    → Transaction Revision
unfolding any_grpc endpoint_row put_binding name_taken repeats endpoint_ids contract_rows
create_revision id now service_id r contract_id profile db = do
  service ← or_raise (get db.services service_id) service_missing
  let mode = if r.is_pinned then pinned else track_active
  let revision = new_revision id now service_id r mode profile
  require (not (name_taken service_id r.revision db.revisions)) integrity
  require (not (any_grpc r.endpoints && is_none contract_id)) contract_not_ready
  require (not (repeats (endpoint_ids r.endpoints))) integrity
  ok (
    revision,
    record db {
      revisions = put db.revisions id revision;
      bindings = put_binding db.bindings id r mode profile;
      revision_contracts = db.revision_contracts ++ contract_rows id contract_id;
      endpoints = db.endpoints ++ map (endpoint_row id) r.endpoints;
      outbox = db.outbox ++ revision_ready service_id id ∷ [];
    },
  )

-- the revision of a service under an id
pub owned : ℕ → Option Revision → Option Revision
owned service_id none = none
owned service_id (some r) = if r.service_id =? service_id then some r else none

-- the contract of a revision, as the join finds it
contract_of : ℕ → List RevisionContract → Dict ℕ ApiContract → Option ApiContract
contract_of revision_id [] contracts = none
contract_of revision_id (c ∷ cs) contracts =
    let rest = contract_of revision_id cs contracts in
    if c.revision_id =? revision_id then get contracts c.contract_id else rest

pub check_routes : Database → Service → Revision → Result Error (Unit {0})
check_routes db service revision =
    if is_stopped service.status
    then ok tt
    else assert_grpc_routes_available db service (grpc_method_paths revision)
        (grpc_service_names revision)

-- The guards of a revision with gRPC methods. A stopped service publishes no route, so its
-- routes are compared when it is started.
pub check_contract : Database → Service → Revision → Result Error (Unit {0})
unfolding contract_of check_routes
check_contract db service revision = do
  contract ←
      or_raise (contract_of revision.id db.revision_contracts db.contracts) contract_not_ready
  require (is_ready_contract contract.status) contract_not_ready
  check_routes db service revision

pub check_grpc : Database → Service → Revision → Result Error (Unit {0})
unfolding check_contract
check_grpc db service revision =
    if is_empty (grpc_method_paths revision) then ok tt else check_contract db service revision

pub drain_row : Dict ℕ Revision → ℕ → Option Revision → Dict ℕ Revision
drain_row revisions old none = revisions
drain_row revisions old (some r) = put revisions old (record r { status = RevisionStatus.draining })

-- `service.active_revision_id` goes to DRAINING, unless it is the revision itself.
pub drain_old : Dict ℕ Revision → Option ℕ → ℕ → Dict ℕ Revision
unfolding drain_row
drain_old revisions none new = revisions
drain_old revisions (some old) new =
    if old =? new then revisions else drain_row revisions old (get revisions old)

abbrev pub activated : ℕ → Revision → Revision
activated now r = record r { status = RevisionStatus.active; activated_at = some now }

abbrev pub pointed_to : ℕ → Service → Service
pointed_to revision_id s = record s {
  active_revision_id = some revision_id;
  status = if is_stopped s.status then s.status else ServiceStatus.active;
}

unfoldable pub activate_revision : (now service_id revision_id : ℕ) → Transaction Revision
unfolding owned check_grpc drain_old
activate_revision now service_id revision_id db = do
  service ← or_raise (get db.services service_id) service_missing
  revision ← or_raise (owned service_id (get db.revisions revision_id)) revision_missing
  require (is_activatable revision.status) (cannot_activate revision.status)
  require (supports_current_interface revision) unsupported_interface
  check_grpc db service revision
  ok (
    activated now revision,
    record db {
      revisions =
          put (drain_old db.revisions service.active_revision_id revision_id) revision_id
            (activated now revision);
      services = put db.services service_id (pointed_to revision_id service);
      outbox = db.outbox ++ revision_activated service_id revision_id revision.revision ∷ [];
    },
  )
