-- ===== src/Lib.antt =====
-- pyscripts: a platform that publishes Python functions as versioned HTTP and gRPC endpoints.
--
-- A service has revisions, and points to the one that serves. The control plane (src/pyscripts/api.py)
-- calls the metadata repository (src/pyscripts/repository.py), which stores services, revisions,
-- their contracts and calls in the tables of src/pyscripts/models.py. A request is checked against
-- the schema of its endpoint (src/pyscripts/contracts/validation.py), sent to an actor, and the actor
-- admits it by a lease on its IO capacity (src/pyscripts/runtime/admission.py).
--
-- Files:
--  Base and below: equality tests, lists, Python dicts as association lists, calls that raise.
--  Json: JSON values, a double by its fields.
--  Admission and below: src/pyscripts/runtime/admission.py. `AdmissionController` is the state; each
--   method is the function of its name and returns its value or exception with the new state.
--   `Call` and `run` are histories of calls.
--  Contract and below: src/pyscripts/contracts/validation.py. `validate_value` and its two loops.
--  Output and below: `CaptureBuffer` of src/pyscripts/runtime/output.py. The two loops of `_append` are
--   `flush_lines` and `flush_parts`, on fuel: the number of characters is enough, since every turn
--   but the last shortens the text. Utf8 has the texts as code points, without surrogates.
--  Scheduler and below: the decisions of `ProfilePoolScheduler` in src/pyscripts/runtime/directory.py:
--   the order of candidates, the number of actors, the arrivals, the warm nodes.
--  GrpcRegistry and below: `GrpcRouteRegistry` of src/pyscripts/grpc_gateway/registry.py.
--  Repository and below: src/pyscripts/repository.py and src/pyscripts/models.py. `Database` holds the
--   tables, a method of `PlatformRepository` is the function of its name from a database to a value and
--   a database or to an exception. `Command`, `step` and `run` in Repository/Transactions are
--   histories of transactions, of which a failed one is rolled back. Repository/Profiles has the
--   runtime labels and their versions, with the test of a project against an environment
--   (src/pyscripts/runtime/profiles.py).
--  Loader and below: `VersionedRuntime` of src/pyscripts/runtime/loader.py. A `LoadedVersion` is an
--   object in a store, so that a caller holds one that the registry gave up. `Event`, `step` and `run`
--   are histories of requests, loads, calls and drains.
--  Auth and below: src/pyscripts/auth.py. `Library` is what it calls of hashlib, hmac, base64 and json,
--   and `Documented` what it relies on; Auth/Tests has a library that meets it.
--  Generator and below: `_assign_numbers` of src/pyscripts/contracts/generator.py. Its `while` loop is
--   `advance`, on fuel: 1001 turns and one for each occupied number are enough, as the proofs show.
--  WorkerPools and below: the catalogs of src/pyscripts/runtime/worker_pools.py that read the nodes of Ray
--   and the RayCluster of Kubernetes, over what these answer.
--
-- All other recursion is on the structure of the data. Instants are natural numbers,
-- and a lease time is a whole number of seconds. Uuids are numbers from outside.
-- `str.strip`, what is called of the package `packaging`, and the float products of the scheduler
-- are parameters.
--
-- Not modelled: FastAPI and gRPC wiring, Ray, the database engine and its locks, the file system,
-- git and protoc, the import of user code, the starting and reaping of actors, the protobuf codec, and
-- of the contract generator the shapes of messages and the text of the file. The capture of output
-- leaves out texts with surrogates, which UTF-8 does not encode.
mod Base
pub mod Admission
pub mod Json
pub mod Contract
pub mod Repository
pub mod Output
pub mod Scheduler
pub mod GrpcRegistry
pub mod Loader
pub mod Auth
pub mod Generator
pub mod WorkerPools
