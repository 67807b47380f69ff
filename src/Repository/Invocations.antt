-- ===== src/Repository/Invocations.antt =====
-- repository.py: the records of calls, and how many of an endpoint are kept. A pruned invocation
-- takes its execution and its logs with it (`ondelete="CASCADE"`).
pub mod Retention
use pyscripts.Base.{
  ℕ, suc, ◌+◌, ◌-◌, Bool, true, false, not, ◌&&◌, ◌||◌, String, Option, none, some, List, [], ◌∷◌,
  ◌++◌, map, string_eq, nat_eq, pair_eq, ◌=?◌, ltb, leb, ◌==◌, contains, select, if◌then◌else◌,
}
use pyscripts.Base.Dict.{Dict, get, put, drop_where}
use pyscripts.Base.Result.{ok, ◌>>=◌, or_raise}
use pyscripts.Output.{CapturedLogChunk, LogStream, stdout, stderr}
use pyscripts.Output.Utf8.{Text}
use pyscripts.Repository.Rows.{
  Invocation, InvocationStatus, InvocationExecution, ExecutionKind, InvocationLog,
  EndpointInvocationPolicy, Database, Transaction, invocation_missing, is_pending,
}

-- the fields of `ResolvedEndpoint` that `begin_invocation` reads
pub record InvocationTarget : Type 0 where
  pub service_id : ℕ
  pub revision_id : ℕ
  pub endpoint_id : String
  pub task_type : String
  pub runtime_profile : String
  pub runtime_profile_version_id : Option ℕ
  pub environment_digest : Option String
  pub artifact_digest : String

abbrev pub new_invocation : ℕ → ℕ → InvocationTarget → String → Invocation
new_invocation id now t transport = record {
  id = id;
  service_id = t.service_id;
  revision_id = t.revision_id;
  endpoint_id = t.endpoint_id;
  transport = transport;
  status = InvocationStatus.running;
  error = none;
  started_at = now;
  finished_at = none;
}

execution_of : ℕ → InvocationTarget → InvocationExecution
execution_of id t = record {
  invocation_id = id;
  runtime_profile_version_id = t.runtime_profile_version_id;
  runtime_profile_ref = t.runtime_profile;
  environment_digest = t.environment_digest;
  artifact_digest = t.artifact_digest;
  execution_kind =
      if t.task_type =? "compute" then ExecutionKind.compute_task else ExecutionKind.io_actor;
  log_bytes = 0;
  logs_truncated = false;
}

unfoldable pub begin_invocation :
    (id now : ℕ) → InvocationTarget → (transport : String) → Transaction Invocation
unfolding execution_of
begin_invocation id now t transport db = ok (
  new_invocation id now t transport,
  record db {
    invocations = put db.invocations id (new_invocation id now t transport);
    executions = put db.executions id (execution_of id t);
  },
)

-- a finished invocation of an endpoint
pub is_terminal_of : ℕ → String → Invocation → Bool
is_terminal_of service_id endpoint_id v =
    v.service_id =? service_id && (v.endpoint_id =? endpoint_id && not (is_pending v.status))

pub terminal_of : ℕ → String → Dict ℕ Invocation → List Invocation
unfolding is_terminal_of
terminal_of service_id endpoint_id [] = []
terminal_of service_id endpoint_id ((k, v) ∷ d) =
    let rest = terminal_of service_id endpoint_id d in
    if is_terminal_of service_id endpoint_id v then v ∷ rest else rest

-- `order_by(started_at.desc(), id.desc())`
abbrev pub is_newer : Invocation → Invocation → Bool
is_newer v w = ltb w.started_at v.started_at || (v.started_at == w.started_at && leb w.id v.id)

pub insert_newest : Invocation → List Invocation → List Invocation
insert_newest v [] = v ∷ []
insert_newest v (w ∷ ws) =
    let rest = insert_newest v ws in if is_newer v w then v ∷ w ∷ ws else w ∷ rest

pub newest_first : List Invocation → List Invocation
unfolding insert_newest
newest_first [] = []
newest_first (v ∷ vs) = insert_newest v (newest_first vs)

-- the ids of a list from an offset on
pub ids_from : ℕ → List Invocation → List ℕ
ids_from n [] = []
ids_from n (v ∷ vs) = let rest = ids_from (n - 1) vs in if n == 0 then v.id ∷ rest else rest

unfoldable pub prune_endpoint_invocations : ℕ → String → ℕ → Database → Database
unfolding terminal_of newest_first ids_from
prune_endpoint_invocations service_id endpoint_id retention_count db =
    let stale =
      ids_from retention_count (newest_first (terminal_of service_id endpoint_id db.invocations)) in
    record db {
      invocations = drop_where (λ v. contains stale v.id) db.invocations;
      executions = drop_where (λ x. contains stale x.invocation_id) db.executions;
      logs = select (λ l. not (contains stale l.invocation_id)) db.logs;
    }

abbrev pub finished : ℕ → InvocationStatus → Option String → Invocation → Invocation
finished now status error v = record v { status = status; error = error; finished_at = some now }

-- `retention_count or 100`; a policy has at least 1
retention : Option EndpointInvocationPolicy → ℕ
retention none = 100
retention (some p) = if p.retention_count == 0 then 100 else p.retention_count

update_execution : ℕ → ℕ → Bool → Dict ℕ InvocationExecution → Dict ℕ InvocationExecution
update_execution id log_bytes logs_truncated executions = elim (get executions id) [
  | none ↦ executions
  | some x ↦ put executions id (record x { log_bytes = log_bytes; logs_truncated = logs_truncated })
]

-- `logs` are the rows of the chunks of the call.
unfoldable pub finish_invocation :
    (now invocation_id : ℕ)
    → InvocationStatus
    → Option String
    → (logs : List InvocationLog) → (log_bytes : ℕ) → (logs_truncated : Bool)
    → Transaction (Unit {0})
unfolding prune_endpoint_invocations retention update_execution
finish_invocation now id status error logs log_bytes logs_truncated db = do
  v ← or_raise (get db.invocations id) invocation_missing
  ok (
    tt,
    prune_endpoint_invocations v.service_id v.endpoint_id
        (retention (get db.policies (v.service_id, v.endpoint_id)))
        (record db {
          invocations = put db.invocations id (finished now status error v);
          executions = update_execution id log_bytes logs_truncated db.executions;
          logs = db.logs ++ logs;
        }),
  )
