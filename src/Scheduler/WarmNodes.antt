-- ===== src/Scheduler/WarmNodes.antt =====
-- directory.py: the warm nodes of compute tasks.
use pyscripts.Base.{
  ℕ, ◌≤◌, ◌≡◌, ◌≢◌, refl, Bool, true, false, not, ◌&&◌, ◌||◌, test_refl, List, [], ◌∷◌, ◌++◌,
  String, ◌=?◌, length, contains, string_eq, arith,
}
use pyscripts.Scheduler.{Settings, ComputeWarmNodes, keep_last, remember_compute_warm_node}

-- no name twice
abbrev pub distinct : List String → Bool
distinct [] = true
distinct (x ∷ xs) = not (contains xs x) && distinct xs

keep_last-le : (n : ℕ) (xs : List String) → 1 ≤ n → length (keep_last n xs) ≤ n
unfolding keep_last
keep_last-le n [] h = omega arith
keep_last-le n (x ∷ xs) h = ground (arith, keep_last-le n xs h)

keep_last-contains :
    (n : ℕ) (xs : List String) (p : String)
    → contains xs p ≡ false
    → contains (keep_last n xs) p ≡ false
unfolding keep_last
keep_last-contains n [] p h = h
keep_last-contains n (x ∷ xs) p h = ground (arith, keep_last-contains n xs p)

keep_last-distinct :
    (n : ℕ) (xs : List String) → distinct xs ≡ true → distinct (keep_last n xs) ≡ true
unfolding keep_last
keep_last-distinct n [] h = h
keep_last-distinct n (x ∷ xs) h = ground (arith, keep_last-distinct n xs)

contains-snoc :
    (xs : List String) (p q : String) → contains (xs ++ p ∷ []) q ≡ (contains xs q || q =? p)
contains-snoc [] p q = ground arith
contains-snoc (x ∷ xs) p q = ground (arith, contains-snoc xs p q)

distinct-snoc :
    (xs : List String) (p : String)
    → distinct xs ≡ true
    → contains xs p ≡ false
    → distinct (xs ++ p ∷ []) ≡ true
distinct-snoc [] p d h = refl
distinct-snoc (x ∷ xs) p d h = ground (arith, distinct-snoc xs p, contains-snoc xs p x, test_refl p)

keep_last_latest :
    (n : ℕ) (xs : List String) (p : String) → 1 ≤ n → contains (keep_last n (xs ++ p ∷ [])) p ≡ true
unfolding keep_last
keep_last_latest n [] p h = ground (arith, test_refl p)
keep_last_latest n (x ∷ xs) p h =
    ground (arith, keep_last_latest n xs p h, contains-snoc xs p p, test_refl p)

-- With a positive limit, remembering a node keeps the nodes distinct and within the limit, and a
-- node that has a name is among them afterwards.
pub remember_compute_warm_node-distinct :
    (settings : Settings) (node_id : String) (w : ComputeWarmNodes)
    → 1 ≤ settings.compute_warm_nodes_per_profile
    → node_id ≢ ""
    → distinct w.nodes ≡ true
    → length w.nodes ≤ settings.compute_warm_nodes_per_profile
    → (distinct (remember_compute_warm_node settings node_id w).nodes ≡ true)
      × (length (remember_compute_warm_node settings node_id w).nodes
          ≤ settings.compute_warm_nodes_per_profile)
      × (contains (remember_compute_warm_node settings node_id w).nodes node_id ≡ true)
unfolding remember_compute_warm_node
remember_compute_warm_node-distinct settings node_id w pos named d small =
    let n = settings.compute_warm_nodes_per_profile in
    let all = w.nodes ++ node_id ∷ [] in
    ground (
      arith,
      distinct-snoc w.nodes node_id d,
      keep_last-distinct n all,
      keep_last-le n all pos,
      keep_last_latest n w.nodes node_id pos,
    )
