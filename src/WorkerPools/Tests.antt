-- ===== src/WorkerPools/Tests.antt =====
-- src/pyscripts/runtime/worker_pools.py, on two nodes of a pool and one that is gone, and on a cluster.
use pyscripts.Base.{
  ℕ, true, false, String, Option, none, some, List, [], ◌∷◌, ◌≡◌, refl, string_eq, ◌==◌,
  if◌then◌else◌,
}
use pyscripts.Base.Int.{ℤ, pos}
use pyscripts.Base.Dict.{get, put}
use pyscripts.Base.Result.{Result, ok, err, or_raise}
use pyscripts.Json.{
  Value, boolean, integer, text, array, object, Items, nil, cons, Fields, field, end, field_of,
}
use pyscripts.WorkerPools.{
  WorkerPool, PoolError, unknown_worker_pool, list_ray, require_pool, pool_of_node, ray_pool,
  parse_groups, parse_worker_pools, add_group, cluster_groups,
}
use pyscripts.WorkerPools.Lookup.{tally, require_pool-list_ray}
use pyscripts.WorkerPools.Declared.{standing, declared, require_pool-parse_worker_pools}

abbrev node : Value → String → Fields
node alive pool = field "Alive" alive (field "Labels" (object (field "pool" (text pool) end)) end)

abbrev nodes : List Fields
nodes = node (boolean true) "gpu" ∷ node (boolean false) "gpu" ∷ node (boolean true) "gpu" ∷ []

require_pool-list_ray_example : require_pool "gpu" (list_ray "pool" nodes) ≡ (
    if tally "pool" "gpu" nodes == 0
    then err (unknown_worker_pool "gpu")
    else ok (ray_pool "pool" ("gpu", tally "pool" "gpu" nodes)))
require_pool-list_ray_example = require_pool-list_ray "pool" "gpu" nodes

two : tally "pool" "gpu" nodes ≡ 2
unfolding pool_of_node field_of string_eq
two = refl

abbrev int_value : Value → Option ℤ
int_value (integer n) = some n
int_value _ = none

abbrev group : String → ℕ → Value
group name replicas = object (
    field "labels" (object (field "pool" (text name) end))
      (field "replicas" (integer (pos replicas)) end))

abbrev groups : Items
groups = cons (group "gpu" 0) (cons (group "cpu" 3) nil)

abbrev cluster : Fields
cluster = field "spec" (object (field "workerGroupSpecs" (array groups) end)) end

groups_read : cluster_groups int_value cluster ≡ ok groups
unfolding field_of string_eq
groups_read = refl

abbrev parsed : Result PoolError (List WorkerPool) → List WorkerPool
parsed (ok pools) = pools
parsed (err e) = []

cluster_read :
    parse_worker_pools int_value "pool" cluster
    ≡ ok (parsed (parse_worker_pools int_value "pool" cluster))
unfolding parse_worker_pools parse_groups add_group field_of string_eq get put
cluster_read = refl

-- A pool of no replicas is found.
require_pool-parse_worker_pools_example :
    require_pool "gpu" (parsed (parse_worker_pools int_value "pool" cluster))
    ≡ or_raise
        (standing int_value "pool" "gpu" none (declared int_value "pool" "gpu" groups))
        (unknown_worker_pool "gpu")
require_pool-parse_worker_pools_example =
    require_pool-parse_worker_pools int_value "pool" "gpu" cluster groups _ groups_read cluster_read
