-- ===== src/WorkerPools.antt =====
-- src/pyscripts/runtime/worker_pools.py: the catalogs of worker pools. What Ray and Kubernetes answer is
-- an argument; `int` of a replica count is a parameter, none where it raises.
pub mod Sorting
pub mod Lookup
pub mod Declared
mod Tests
use Prim.Native.String.{compare}
use Prim.Native.Nat.{Ordering}
use pyscripts.Base.{
  ℕ, suc, ◌+◌, Bool, true, false, not, ◌&&◌, ◌||◌, String, Option, none, some, List, [], ◌∷◌,
  string_eq, ◌==◌, ◌=?◌, if◌then◌else◌,
}
use pyscripts.Base.Int.{ℤ, pos, pos_part}
use pyscripts.Base.Dict.{Dict, get, put, values}
use pyscripts.Base.Result.{Result, ok, err, ◌>>=◌, or_raise}
use pyscripts.Json.{
  Value, null, boolean, integer, float, text, array, object, Items, nil, cons, Fields, end,
  field_of,
}

pub data Source : Type 0 where
  config ray kuberay : Source

pub record WorkerPool : Type 0 where
  pub name : String
  pub label_key : String
  pub node_count : ℕ
  pub source : Source

pub data PoolError : Type 0 where
  unknown_worker_pool : (name : String) → PoolError
  invalid_cluster groups_not_list bad_replicas : PoolError
  declared_twice : (name : String) → PoolError

-- `sorted(items, key=key)`
abbrev pub text_le : String → String → Bool
text_le s t = elim (compare s t) [ Ordering.gt ↦ false | _ ↦ true ]

unfoldable pub insert_by {ℓ} : {A : Type ℓ} → (A → String) → A → List A → List A
insert_by key x [] = x ∷ []
insert_by key x (y ∷ ys) =
    let rest = insert_by key x ys in if text_le (key x) (key y) then x ∷ y ∷ ys else y ∷ rest

unfoldable pub sort_by {ℓ} : {A : Type ℓ} → (A → String) → List A → List A
unfolding insert_by
sort_by key [] = []
sort_by key (x ∷ xs) = insert_by key x (sort_by key xs)

-- the loop of `require`
unfoldable pub find_by {ℓ} : {A : Type ℓ} → (A → String) → String → List A → Option A
find_by key name [] = none
find_by key name (x ∷ xs) = if name =? key x then some x else find_by key name xs

-- `bool(value)`
abbrev pub truthy : Value → Bool
truthy null = false
truthy (boolean b) = b
truthy (integer (pos n)) = not (n == 0)
truthy (integer _) = true
truthy (float s e m) = not (e == 0 && m == 0)
truthy (text s) = not (s =? "")
truthy (array nil) = false
truthy (array (cons v vs)) = true
truthy (object end) = false
truthy (object _) = true

-- `fs.get(a, fs.get(b, default))`
abbrev pub get_either : Fields → (a b : String) → Value → Value
get_either fs a b default = elim (field_of fs a) [
  | some v ↦ v
  | none ↦ elim (field_of fs b) [ some v ↦ v | none ↦ default ]
]

-- a label that is a text and not empty
abbrev pub label_of : String → Value → Option String
label_of label_key (object labels) = elim (field_of labels label_key) [
  | some (text s) ↦ if s =? "" then none else some s
  | _ ↦ none
]
label_of label_key _ = none

-- the pool in which a node of Ray counts
unfoldable pub pool_of_node : String → Fields → Option String
pool_of_node label_key node =
    if truthy (get_either node "Alive" "alive" (boolean false))
    then label_of label_key (get_either node "Labels" "labels" (object end))
    else none

abbrev pub count_up : Option ℕ → ℕ
count_up none = 1
count_up (some n) = n + 1

abbrev pub counted : Option String → Dict String ℕ → Dict String ℕ
counted none counts = counts
counted (some name) counts = put counts name (count_up (get counts name))

-- the loop over the nodes
unfoldable pub count_nodes : String → List Fields → Dict String ℕ → Dict String ℕ
unfolding pool_of_node
count_nodes label_key [] counts = counts
count_nodes label_key (node ∷ nodes) counts =
    count_nodes label_key nodes (counted (pool_of_node label_key node) counts)

abbrev pub entry_name : String × ℕ → String
entry_name e = e.0

abbrev pub ray_pool : String → String × ℕ → WorkerPool
ray_pool label_key e = record {
  name = e.0;
  label_key = label_key;
  node_count = e.1;
  source = Source.ray;
}

abbrev pub ray_pools : String → List (String × ℕ) → List WorkerPool
ray_pools label_key [] = []
ray_pools label_key (e ∷ es) = ray_pool label_key e ∷ ray_pools label_key es

-- `RayWorkerPoolCatalog.list`
unfoldable pub list_ray : String → List Fields → List WorkerPool
list_ray label_key nodes = ray_pools label_key (sort_by entry_name (count_nodes label_key nodes []))

abbrev pub pool_name : WorkerPool → String
pool_name p = p.name

-- `require` of the catalogs that look through their list
unfoldable pub require_pool : String → List WorkerPool → Result PoolError WorkerPool
require_pool name pools = or_raise (find_by pool_name name pools) (unknown_worker_pool name)

module _ (int_of : Value → Option ℤ) where
  -- `max(0, int(replicas or 0))`
  abbrev pub replicas_of : Fields → Option ℕ
  replicas_of group =
      let replicas = get_either group "replicas" "minReplicas" (integer (pos 0)) in
      elim (int_of (if truthy replicas then replicas else integer (pos 0))) [
        | none ↦ none
        | some n ↦ some (pos_part n)
      ]

  abbrev pub kuberay_pool : String → String → ℕ → WorkerPool
  kuberay_pool label_key name n = record {
    name = name;
    label_key = label_key;
    node_count = n;
    source = Source.kuberay;
  }

  -- the label of a worker group, if the group is an object
  abbrev pub group_name : String → Value → Option String
  group_name label_key (object group) =
      label_of label_key (elim (field_of group "labels") [ some v ↦ v | none ↦ object end ])
  group_name label_key _ = none

  abbrev pub group_replicas : Value → Option ℕ
  group_replicas (object group) = replicas_of group
  group_replicas _ = none

  -- one turn of the loop over the groups
  unfoldable pub add_group :
      String
      → Option String
      → Option ℕ
      → Dict String WorkerPool
      → Result PoolError (Dict String WorkerPool)
  add_group label_key none replicas pools = ok pools
  add_group label_key (some name) replicas pools = elim (get pools name) [
    | some p ↦ err (declared_twice name)
    | none ↦ elim replicas [
      | none ↦ err bad_replicas
      | some n ↦ ok (put pools name (kuberay_pool label_key name n))
    ]
  ]

  unfoldable pub parse_groups :
      String → Items → Dict String WorkerPool → Result PoolError (Dict String WorkerPool)
  unfolding add_group
  parse_groups label_key nil pools = ok pools
  parse_groups label_key (cons group groups) pools =
      add_group label_key (group_name label_key group) (group_replicas group) pools
      >>= parse_groups label_key groups

  abbrev pub groups_of : Value → Result PoolError Items
  groups_of (object spec) = elim (field_of spec "workerGroupSpecs") [
    | none ↦ ok nil
    | some (array groups) ↦ ok groups
    | _ ↦ err groups_not_list
  ]
  groups_of _ = err invalid_cluster

  abbrev pub cluster_groups : Fields → Result PoolError Items
  cluster_groups cluster = elim (field_of cluster "spec") [
    | none ↦ ok nil
    | some spec ↦ groups_of spec
  ]

  -- `_parse_worker_pools`
  unfoldable pub parse_worker_pools : String → Fields → Result PoolError (List WorkerPool)
  parse_worker_pools label_key cluster = do
    groups ← cluster_groups cluster
    pools ← parse_groups label_key groups []
    ok (sort_by pool_name (values pools))
