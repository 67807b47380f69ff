-- ===== src/WorkerPools/Lookup.antt =====
-- src/pyscripts/runtime/worker_pools.py: what `require` finds in the catalog of Ray's nodes.
use pyscripts.WorkerPools.{truthy, get_either, label_of}
use pyscripts.Base.{
  not, ◌&&◌, Bool-cases, inl, inr, ℕ, zero, suc, ◌+◌, Bool, true, false, String, Option, none, some,
  List, [], ◌∷◌, ◌≡◌, refl, sym, ap, ◌∙◌, arith, string_eq, ◌=?◌, ◌==◌, if◌then◌else◌,
}
use pyscripts.Base.Dict.{Dict, NodupKeys, get, put, get-put_self, get-put_ne, put-NodupKeys}
use pyscripts.Base.Result.{ok, err, or_raise}
use pyscripts.Json.{
  Value, null, boolean, integer, float, text, array, object, Fields, end, field_of,
}
use pyscripts.WorkerPools.{
  WorkerPool, unknown_worker_pool, sort_by, find_by, pool_of_node, count_up, counted, count_nodes,
  entry_name, ray_pool, ray_pools, list_ray, pool_name, require_pool,
}
use pyscripts.WorkerPools.Sorting.{
  find_by-sort_by, entry_of, find_by-entry_name, NodupKeys-Distinct,
}

abbrev pub is_name : String → Option String → Bool
is_name name none = false
is_name name (some n) = n =? name

abbrev text_is : String → Option Value → Bool
text_is name (some (text s)) = s =? name
text_is name _ = false

abbrev labelled : (label_key name : String) → Value → Bool
labelled key name (object labels) = text_is name (field_of labels key)
labelled key name _ = false

-- The node is alive, and its label is the name, which is not empty.
abbrev pub in_pool : (label_key name : String) → Fields → Bool
in_pool key name node =
    truthy (get_either node "Alive" "alive" (boolean false))
    && (labelled key name (get_either node "Labels" "labels" (object end)) && not (name =? ""))

-- the nodes that count in a pool
abbrev pub tally : (label_key name : String) → List Fields → ℕ
tally key name [] = 0
tally key name (node ∷ nodes) =
    let rest = tally key name nodes in if in_pool key name node then suc rest else rest

label_of-text :
    (name s : String)
    → is_name name (if s =? "" then none else some s) ≡ (s =? name && not (name =? ""))
label_of-text name s = elim (string_eq.dec s "") [
  | yes e ↦ ground (arith, e)
  | no ne ↦ ground (arith, ne)
]

label_of-field :
    (key name : String) (labels : Fields) (o : Option Value)
    → field_of labels key ≡ o
    → is_name name (label_of key (object labels)) ≡ (text_is name o && not (name =? ""))
label_of-field key name labels none e = rw (e, is_name) refl
label_of-field key name labels (some (text s)) e = rw (e, is_name) (label_of-text name s)
label_of-field key name labels (some null) e = rw (e, is_name) refl
label_of-field key name labels (some (boolean b)) e = rw (e, is_name) refl
label_of-field key name labels (some (integer n)) e = rw (e, is_name) refl
label_of-field key name labels (some (float s x m)) e = rw (e, is_name) refl
label_of-field key name labels (some (array xs)) e = rw (e, is_name) refl
label_of-field key name labels (some (object fs)) e = rw (e, is_name) refl

label_of-labelled :
    (key name : String) (labels : Value)
    → is_name name (label_of key labels) ≡ (labelled key name labels && not (name =? ""))
label_of-labelled key name (object labels) = label_of-field key name labels _ refl
label_of-labelled key name null = refl
label_of-labelled key name (boolean b) = refl
label_of-labelled key name (integer n) = refl
label_of-labelled key name (float s x m) = refl
label_of-labelled key name (text s) = refl
label_of-labelled key name (array xs) = refl

pool_of_node-in_pool :
    (key name : String) (node : Fields)
    → is_name name (pool_of_node key node) ≡ in_pool key name node
unfolding pool_of_node
pool_of_node-in_pool key name node =
    elim (Bool-cases (truthy (get_either node "Alive" "alive" (boolean false)))) [
      | inl alive ↦
          rw alive (label_of-labelled key name (get_either node "Labels" "labels" (object end)))
      | inr dead ↦ rw dead refl
    ]

-- a count that is raised, where there is something to add
abbrev pub raised : Option ℕ → ℕ → Option ℕ
raised o zero = o
raised none (suc n) = some (suc n)
raised (some m) (suc n) = some (m + suc n)

raised-count_up : (o : Option ℕ) (n : ℕ) → raised (some (count_up o)) n ≡ raised o (suc n)
raised-count_up none zero = refl
raised-count_up none (suc n) = ap some (omega arith)
raised-count_up (some m) zero = ap some (omega arith)
raised-count_up (some m) (suc n) = ap some (omega arith)

counted-get :
    (o : Option String) (name : String) (n : ℕ) (counts : Dict String ℕ)
    → raised (get (counted o counts) name) n
      ≡ raised (get counts name) (if is_name name o then suc n else n)
counted-get none name n counts = refl
counted-get (some k) name n counts = elim (string_eq.dec k name) [
  | yes e ↦
      let here : get (put counts k (count_up (get counts k))) name
          ≡ some (count_up (get counts name)) =
        ap (get (put counts k (count_up (get counts k)))) (sym e)
        ∙ get-put_self counts k (count_up (get counts k))
        ∙ ap (λ j. some (count_up (get counts j))) e in
      let same : (k =? name) ≡ true = ground (arith, e) in
      ap (λ o. raised o n) here
      ∙ raised-count_up (get counts name) n
      ∙ ap (λ b. raised (get counts name) (if b then suc n else n)) (sym same)
  | no ne ↦
      let apart : (k =? name) ≡ false = ground (arith, ne) in
      ap (λ o. raised o n) (get-put_ne counts k name (count_up (get counts k)) (λ q. ne (sym q)))
      ∙ ap (λ b. raised (get counts name) (if b then suc n else n)) (sym apart)
]

get-count_nodes :
    (key name : String) (nodes : List Fields) (counts : Dict String ℕ)
    → get (count_nodes key nodes counts) name ≡ raised (get counts name) (tally key name nodes)
unfolding count_nodes
get-count_nodes key name [] counts = refl
get-count_nodes key name (node ∷ nodes) counts =
    get-count_nodes key name nodes (counted (pool_of_node key node) counts)
    ∙ counted-get (pool_of_node key node) name (tally key name nodes) counts
    ∙ ap
        (λ b.
          raised (get counts name) (if b then suc (tally key name nodes) else tally key name nodes))
        (pool_of_node-in_pool key name node)

counted-NodupKeys :
    (o : Option String) (counts : Dict String ℕ) → NodupKeys counts → NodupKeys (counted o counts)
counted-NodupKeys none counts u = u
counted-NodupKeys (some k) counts u = put-NodupKeys counts k _ u

count_nodes-NodupKeys :
    (key : String) (nodes : List Fields) (counts : Dict String ℕ)
    → NodupKeys counts
    → NodupKeys (count_nodes key nodes counts)
unfolding count_nodes
count_nodes-NodupKeys key [] counts u = u
count_nodes-NodupKeys key (node ∷ nodes) counts u =
    count_nodes-NodupKeys key nodes _ (counted-NodupKeys (pool_of_node key node) counts u)

abbrev pool_from : String → Option (String × ℕ) → Option WorkerPool
pool_from key none = none
pool_from key (some e) = some (ray_pool key e)

find_by-ray_pools :
    (key name : String) (es : List (String × ℕ))
    → find_by pool_name name (ray_pools key es) ≡ pool_from key (find_by entry_name name es)
unfolding find_by
find_by-ray_pools key name [] = refl
find_by-ray_pools key name (e ∷ es) = ground (arith, find_by-ray_pools key name es)

-- The catalog of Ray finds a pool exactly if some live node has the label, and counts the live
-- nodes that have it.
pub require_pool-list_ray :
    (key name : String) (nodes : List Fields)
    → require_pool name (list_ray key nodes) ≡ (
        if tally key name nodes == 0
        then err (unknown_worker_pool name)
        else ok (ray_pool key (name, tally key name nodes)))
unfolding require_pool list_ray get
require_pool-list_ray key name nodes =
    let counts = count_nodes key nodes [] in
    let distinct = NodupKeys-Distinct counts (count_nodes-NodupKeys key nodes [] tt) in
    ap (λ o. or_raise o (unknown_worker_pool name))
      (find_by-ray_pools key name (sort_by entry_name counts)
        ∙ ap (pool_from key) (
            find_by-sort_by entry_name name counts distinct
            ∙ find_by-entry_name counts name
            ∙ ap (entry_of name) (get-count_nodes key name nodes [])))
    ∙ by_tally (tally key name nodes)
  where
    by_tally :
        (n : ℕ)
        → or_raise (pool_from key (entry_of name (raised none n))) (unknown_worker_pool name)
          ≡ (if n == 0 then err (unknown_worker_pool name) else ok (ray_pool key (name, n)))
    by_tally zero = refl
    by_tally (suc n) = ground arith
