-- ===== src/Repository/Rows.antt =====
-- src/pyscripts/models.py: the rows of the tables, and the exceptions of repository.py. A uuid is
-- a number, and an instant (`datetime`) too. Columns that no method reads are left out.
use pyscripts.Base.{ℕ, Bool, true, false, String, Option, List}
use pyscripts.Base.Dict.{Dict}
use pyscripts.Base.Result.{Result}
use pyscripts.Json.{Value}

pub data ServiceStatus : Type 0 where
  registered active stopped : ServiceStatus

pub data RevisionStatus : Type 0 where
  building ready active draining retired failed : RevisionStatus

pub data InvocationStatus : Type 0 where
  accepted running succeeded failed cancelled timed_out : InvocationStatus

pub data ExecutionKind : Type 0 where
  io_actor compute_task : ExecutionKind

pub data ContractStatus : Type 0 where
  ready failed : ContractStatus

pub data RuntimeProfileStatus : Type 0 where
  validating ready active failed retiring retired : RuntimeProfileStatus

pub data RuntimeTrackingMode : Type 0 where
  pinned track_active : RuntimeTrackingMode

pub record Service : Type 0 where
  pub id : ℕ
  pub name : String
  pub git_url : String
  pub git_branch : Option String
  pub tracking_mode : String
  pub check_interval_seconds : Option ℕ
  pub webhook_token_hash : Option String
  pub webhook_configured_at : Option ℕ
  pub status : ServiceStatus
  pub active_revision_id : Option ℕ
  pub updated_at : ℕ

pub record Revision : Type 0 where
  pub id : ℕ
  pub service_id : ℕ
  pub revision : String
  pub artifact_uri : String
  pub artifact_digest : String
  pub runtime_profile : String
  pub status : RevisionStatus
  pub manifest : Value
  pub created_at : ℕ
  pub activated_at : Option ℕ

pub record Endpoint : Type 0 where
  pub revision_id : ℕ
  pub endpoint_id : String
  pub task_type : String
  pub entrypoint : String
  pub request_schema : Value
  pub response_schema : Value

pub record ApiContract : Type 0 where
  pub id : ℕ
  pub service_id : ℕ
  pub schema_digest : String
  pub source_digest : String
  pub contract_version : String
  pub descriptor_uri : String
  pub proto_bundle_uri : String
  pub proto_bundle_digest : Option String
  pub methods : List String
  pub status : ContractStatus
  pub created_at : ℕ

pub record RevisionContract : Type 0 where
  pub revision_id : ℕ
  pub contract_id : ℕ

pub record RuntimeLabel : Type 0 where
  pub id : ℕ
  pub name : String
  pub active_version_id : Option ℕ

pub record RuntimeProfileVersion : Type 0 where
  pub id : ℕ
  pub label_id : ℕ
  pub version : ℕ
  pub profile_ref : String
  pub python_version : String
  pub worker_pool : String
  pub pip_source : String
  pub pip_index_url : Option String
  pub requested_dependencies : List String
  pub resolved_dependencies : Dict String String
  pub import_checks : List String
  pub environment_digest : Option String
  pub runtime_env : Value
  pub validation_result : Value
  pub status : RuntimeProfileStatus
  pub error : Option String
  pub validated_at : Option ℕ
  pub retired_at : Option ℕ

-- The object `validation_result`, by its entries. The last two are none if there is no such entry
-- or it is no text or no list.
pub record Requirements : Type 0 where
  pub requested_runtime : String
  pub resolved_profile_ref : String
  pub requires_python : Option String
  pub dependencies : Option (List String)

pub record RevisionRuntimeProfile : Type 0 where
  pub revision_id : ℕ
  pub runtime_label_id : ℕ
  pub runtime_profile_version_id : ℕ
  pub tracking_mode : RuntimeTrackingMode
  pub interface_digest : String
  pub validation_result : Requirements

pub record EndpointInvocationPolicy : Type 0 where
  pub service_id : ℕ
  pub endpoint_id : String
  pub retention_count : ℕ
  pub updated_at : ℕ

pub record Invocation : Type 0 where
  pub id : ℕ
  pub service_id : ℕ
  pub revision_id : ℕ
  pub endpoint_id : String
  pub transport : String
  pub status : InvocationStatus
  pub error : Option String
  pub started_at : ℕ
  pub finished_at : Option ℕ

pub record InvocationExecution : Type 0 where
  pub invocation_id : ℕ
  pub runtime_profile_version_id : Option ℕ
  pub runtime_profile_ref : String
  pub environment_digest : Option String
  pub artifact_digest : String
  pub execution_kind : ExecutionKind
  pub log_bytes : ℕ
  pub logs_truncated : Bool

pub record InvocationLog : Type 0 where
  pub invocation_id : ℕ
  pub sequence : ℕ
  pub stream : String
  pub content : String
  pub emitted_at : ℕ

-- an event with its topic and payload
pub data OutboxEvent : Type 0 where
  service_stopped : (service_id : ℕ) → OutboxEvent
  service_stopped_unsupported : (service_id : ℕ) → OutboxEvent
  service_started : (service_id revision_id : ℕ) (revision : String) → OutboxEvent
  revision_ready : (service_id revision_id : ℕ) → OutboxEvent
  revision_activated : (service_id revision_id : ℕ) (revision : String) → OutboxEvent
  contract_ready :
      (service_id contract_id : ℕ) (schema_digest : String) (proto_bundle_digest : Option String)
      → OutboxEvent
  profile_activated : (label : String) (version_id : ℕ) (profile_ref : String) → OutboxEvent

-- The tables, by primary key where the methods look a row up by it.
pub record Database : Type 0 where
  pub services : Dict ℕ Service
  pub revisions : Dict ℕ Revision
  pub endpoints : List Endpoint
  pub contracts : Dict ℕ ApiContract
  pub revision_contracts : List RevisionContract
  pub labels : Dict ℕ RuntimeLabel
  pub versions : Dict ℕ RuntimeProfileVersion
  pub bindings : Dict ℕ RevisionRuntimeProfile
  pub policies : Dict (ℕ × String) EndpointInvocationPolicy
  pub invocations : Dict ℕ Invocation
  pub executions : Dict ℕ InvocationExecution
  pub logs : List InvocationLog
  pub outbox : List OutboxEvent

-- `NotFoundError` and `InvalidTransitionError`, one constructor to a message, and the violation of
-- a constraint of models.py at a flush
pub data Error : Type 0 where
  service_missing revision_missing invocation_missing : Error
  endpoint_missing no_active_endpoints : Error
  cannot_activate : RevisionStatus → Error
  unsupported_interface contract_not_ready contract_missing : Error
  digest_published version_not_newer : (contract_version : String) → Error
  grpc_service_taken grpc_method_taken : (route service : String) → Error
  only_active_stops only_stopped_starts no_active_revision active_revision_unavailable : Error
  active_not_deleted invocations_active : Error
  interval_required interval_not_allowed : Error
  label_missing version_missing profile_missing label_exists not_validating : Error
  cannot_activate_profile : RuntimeProfileStatus → Error
  metadata_missing : Error
  incompatible : (revision_id : ℕ) → Error
  active_not_retired referenced executions_active not_retiring already_retired : Error
  integrity : Error

-- a value and the database after the transaction
abbrev pub Transaction {ℓ} : Type ℓ → Type ℓ
Transaction A = Database → Result Error (A × Database)

abbrev pub is_active_service : ServiceStatus → Bool
is_active_service ServiceStatus.active = true
is_active_service _ = false

abbrev pub is_stopped : ServiceStatus → Bool
is_stopped ServiceStatus.stopped = true
is_stopped _ = false

abbrev pub is_active_revision : RevisionStatus → Bool
is_active_revision RevisionStatus.active = true
is_active_revision _ = false

-- `status in {READY, ACTIVE}`
abbrev pub is_activatable : RevisionStatus → Bool
is_activatable RevisionStatus.ready = true
is_activatable RevisionStatus.active = true
is_activatable _ = false

abbrev pub is_ready_contract : ContractStatus → Bool
is_ready_contract ContractStatus.ready = true
is_ready_contract ContractStatus.failed = false

-- `status.in_([ACCEPTED, RUNNING])`
abbrev pub is_pending : InvocationStatus → Bool
is_pending InvocationStatus.accepted = true
is_pending InvocationStatus.running = true
is_pending _ = false
