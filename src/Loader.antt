-- ===== src/Loader.antt =====
-- src/pyscripts/runtime/loader.py: `VersionedRuntime`, which loads versions of services, counts the
-- calls in them, drains and unloads them. An object is a number in a store, since a caller holds a
-- `LoadedVersion` that the registry may have given up. The sections under the locks suspend
-- nowhere, so that a method is one step but for the load, which ends in a step of its own.
pub mod Registered
pub mod Calls
pub mod History
pub mod Steps
pub mod Drained
mod Tests
use pyscripts.Base.{
  ℕ, suc, ◌-◌, Bool, true, false, not, ◌&&◌, ◌||◌, String, Option, none, some, List, [], ◌∷◌,
  string_eq, nat_eq, pair_eq, ◌==◌, ◌=?◌, contains, if◌then◌else◌,
}
use pyscripts.Base.Dict.{Dict, get, put, pop}
use pyscripts.Base.Result.{Result, ok, err, ◌>>=◌, ◌>>◌, or_raise, require}

pub data TaskType : Type 0 where
  io compute : TaskType

-- A loaded version is never LOADING.
pub data VersionState : Type 0 where
  ready draining : VersionState

-- A runner stands for its task type, and a codec for its endpoint.
pub record LoadedVersion : Type 0 where
  pub service : String
  pub revision : String
  pub runners : Dict String TaskType
  pub grpc_codecs : List String
  pub state : VersionState
  pub inflight : ℕ

-- service and revision
abbrev pub Key : Type 0
Key = String × String

abbrev pub key_of : LoadedVersion → Key
key_of v = (v.service, v.revision)

-- `objects` is the store.
pub record VersionedRuntime : Type 0 where
  pub objects : Dict ℕ LoadedVersion
  pub versions : Dict Key ℕ
  pub load_tasks : Dict Key ℕ

pub data LoaderError : Type 0 where
  version_draining : (service revision : String) → LoaderError
  unknown_endpoint unknown_grpc_endpoint : (endpoint_id : String) → LoaderError

abbrev pub is_ready : VersionState → Bool
is_ready VersionState.ready = true
is_ready VersionState.draining = false

-- The object that is registered, or the task that the caller awaits; `new_task` is the task that
-- the call creates if it finds neither.
pub data Loading : Type 0 where
  existing : (object : ℕ) → Loading
  waits : (task : ℕ) → Loading

unfoldable pub ensure_loaded : Key → (new_task : ℕ) → VersionedRuntime → Loading × VersionedRuntime
ensure_loaded key new_task r = elim (get r.versions key) [
  | some id ↦ (existing id, r)
  | none ↦ elim (get r.load_tasks key) [
    | some task ↦ (waits task, r)
    | none ↦ (waits new_task, record r { load_tasks = put r.load_tasks key new_task })
  ]
]

-- what `_load_version` returns
abbrev pub new_version : Key → Dict String TaskType → List String → LoadedVersion
new_version (service, revision) runners grpc_codecs = record {
  service = service;
  revision = revision;
  runners = runners;
  grpc_codecs = grpc_codecs;
  state = VersionState.ready;
  inflight = 0;
}

-- `self._load_tasks.get(key) is asyncio.current_task()`
unfoldable pub is_current : Option ℕ → ℕ → Bool
is_current none task = false
is_current (some t) task = t =? task

-- the `finally` of `_load_and_register`
unfoldable pub end_task : Key → (task : ℕ) → VersionedRuntime → VersionedRuntime
unfolding is_current
end_task key task r =
    if is_current (get r.load_tasks key) task
    then record r { load_tasks = pop r.load_tasks key }
    else r

-- `_load_and_register` once the load has ended, with the new object or an exception
unfoldable pub load_and_register :
    Key
    → (task : ℕ) → Option (ℕ × Dict String TaskType × List String)
    → VersionedRuntime
    → VersionedRuntime
unfolding end_task
load_and_register key task none r = end_task key task r
load_and_register key task (some (id, runners, grpc_codecs)) r = end_task key task (record r {
  objects = put r.objects id (new_version key runners grpc_codecs);
  versions = put r.versions key id;
})

abbrev pub counted_up : LoadedVersion → LoadedVersion
counted_up v = record v { inflight = suc v.inflight }

-- the section of `execute` under the lock of the version
unfoldable pub admit : String → LoadedVersion → Result LoaderError (TaskType × LoadedVersion)
admit endpoint_id v = do
  require (is_ready v.state) (version_draining v.service v.revision)
  task ← or_raise (get v.runners endpoint_id) (unknown_endpoint endpoint_id)
  ok (task, counted_up v)

-- the same of `execute_grpc`; `grpc_endpoints` are the endpoints with a gRPC definition
unfoldable pub admit_grpc :
    (grpc_endpoints : List String)
    → String
    → LoadedVersion
    → Result LoaderError (TaskType × LoadedVersion)
admit_grpc grpc_endpoints endpoint_id v = do
  require (contains grpc_endpoints endpoint_id) (unknown_grpc_endpoint endpoint_id)
  require (is_ready v.state) (version_draining v.service v.revision)
  task ← or_raise (get v.runners endpoint_id) (unknown_grpc_endpoint endpoint_id)
  require (contains v.grpc_codecs endpoint_id) (unknown_grpc_endpoint endpoint_id)
  ok (task, counted_up v)

abbrev pub cleared : LoadedVersion → LoadedVersion
cleared v = record v { runners = []; grpc_codecs = [] }

unfoldable pub clear_at : Option ℕ → Dict ℕ LoadedVersion → Dict ℕ LoadedVersion
clear_at none objects = objects
clear_at (some id) objects = elim (get objects id) [
  | none ↦ objects
  | some v ↦ put objects id (cleared v)
]

-- `_unload`
unfoldable pub unload : Key → VersionedRuntime → VersionedRuntime
unfolding clear_at
unload key r = record r {
  objects = clear_at (get r.versions key) r.objects;
  versions = pop r.versions key;
}

-- `_release`: the call that ends is one of those counted.
unfoldable pub release : (id : ℕ) → LoadedVersion → VersionedRuntime → VersionedRuntime
unfolding unload
release id v r =
    let left = record v { inflight = v.inflight - 1 } in
    let after = record r { objects = put r.objects id left } in
    if not (is_ready left.state) && left.inflight == 0 then unload (key_of v) after else after

abbrev pub drained : LoadedVersion → LoadedVersion
drained v = record v { state = VersionState.draining }

unfoldable pub drain_object : ℕ → Option LoadedVersion → VersionedRuntime → Bool × VersionedRuntime
unfolding unload
drain_object id none r = (true, r)
drain_object id (some v) r =
    let after = record r { objects = put r.objects id (drained v) } in
    if v.inflight == 0 then (true, unload (key_of v) after) else (false, after)

-- whether the version is gone at once
unfoldable pub drain : Key → VersionedRuntime → Bool × VersionedRuntime
unfolding drain_object
drain key r = elim (get r.versions key) [
  | none ↦ (true, r)
  | some id ↦ drain_object id (get r.objects id) r
]
