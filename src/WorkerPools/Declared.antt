-- ===== src/WorkerPools/Declared.antt =====
-- src/pyscripts/runtime/worker_pools.py: what `require` finds in the catalog of a RayCluster.
use pyscripts.Base.{
  ℕ, true, false, Option-cases, inl, inr, String, Option, none, some, List, [], ◌∷◌, ◌≡◌, refl, sym,
  ap, ◌∙◌, subst, arith, string_eq, ◌=?◌, if◌then◌else◌,
}
use pyscripts.Base.Int.{ℤ}
use pyscripts.Base.Dict.{Dict, NodupKeys, get, put, values, get-put_self, get-put_ne, put-NodupKeys}
use pyscripts.Base.Result.{Result, ok, ◌>>=◌, or_raise, >>=-eq-ok}
use pyscripts.Json.{Value, Items, nil, cons, Fields}
use pyscripts.WorkerPools.{
  WorkerPool, PoolError, unknown_worker_pool, sort_by, find_by, pool_name, require_pool,
  kuberay_pool, group_name, group_replicas, add_group, parse_groups, cluster_groups,
  parse_worker_pools,
}
use pyscripts.WorkerPools.Sorting.{find_by-sort_by, Named, find_by-pool_name, Named-Distinct}
use pyscripts.WorkerPools.Lookup.{is_name}

ok-eq :
    (r : Result PoolError (Dict String WorkerPool)) (x y : Dict String WorkerPool)
    → r ≡ ok y
    → ok x ≡ r
    → x ≡ y
ok-eq r x y h e = ground (arith, h, e)

list-eq :
    (r : Result PoolError (List WorkerPool)) (x y : List WorkerPool) → r ≡ ok y → ok x ≡ r → x ≡ y
list-eq r x y h e = ground (arith, h, e)

module _ (int_of : Value → Option ℤ) where
  -- the replicas of the first group that declares a pool
  abbrev pub declared : (label_key name : String) → Items → Option (Option ℕ)
  declared key name nil = none
  declared key name (cons group groups) =
      let rest = declared key name groups in
      if is_name name (group_name int_of key group)
      then some (group_replicas int_of group)
      else rest

  -- the pool that stands or is declared
  abbrev pub standing :
      (label_key name : String) → Option WorkerPool → Option (Option ℕ) → Option WorkerPool
  standing key name (some p) o = some p
  standing key name none (some (some n)) = some (kuberay_pool int_of key name n)
  standing key name none _ = none

  add_group-ok :
      (key k : String) (r : Option ℕ) (pools out : Dict String WorkerPool)
      → add_group int_of key (some k) r pools ≡ ok out
      → (n : ℕ) × (r ≡ some n)
        × (get pools k ≡ none)
        × (put pools k (kuberay_pool int_of key k n) ≡ out)
  unfolding add_group
  add_group-ok key k r pools out h = elim (Option-cases (get pools k)) [
    | inr (p, e) ↦ cc (sym (rw (e, add_group) at h))
    | inl free ↦ elim (Option-cases r) [
      | inl e ↦ cc (sym (rw (free, e, add_group) at h))
      | inr (n, e) ↦ (n, e, free, ok-eq _ _ _ (rw (free, e, add_group) at h) refl)
    ]
  ]

  -- One turn: the pool that the group declares stands, and the others as before.
  add_group-get :
      (key name : String) (o : Option String) (r : Option ℕ) (rest : Option (Option ℕ))
      (pools out : Dict String WorkerPool)
      → add_group int_of key o r pools ≡ ok out
      → standing key name (get out name) rest
        ≡ standing key name (get pools name) (if is_name name o then some r else rest)
  unfolding add_group
  add_group-get key name none r rest pools out h =
      let same = ok-eq _ _ _ h refl in ap (λ d. standing key name (get d name) rest) (sym same)
  add_group-get key name (some k) r rest pools out h =
      let (n, is_n, free, made) = add_group-ok key k r pools out h in
      let pool = kuberay_pool int_of key k n in
      ap (λ d. standing key name (get d name) rest) (sym made) ∙ elim (string_eq.dec k name) [
        | yes e ↦
            let same : (k =? name) ≡ true = ground (arith, e) in
            ap (λ o. standing key name o rest)
              (ap (get (put pools k pool)) (sym e) ∙ get-put_self pools k pool)
            ∙ ap (λ j. some (kuberay_pool int_of key j n)) e
            ∙ ap (λ o. standing key name none (some o)) (sym is_n)
            ∙ ap (λ o. standing key name o (some r)) (sym free ∙ ap (get pools) e)
            ∙ ap (λ b. standing key name (get pools name) (if b then some r else rest)) (sym same)
        | no ne ↦
            let apart : (k =? name) ≡ false = ground (arith, ne) in
            ap (λ o. standing key name o rest) (get-put_ne pools k name pool (λ q. ne (sym q)))
            ∙ ap (λ b. standing key name (get pools name) (if b then some r else rest)) (sym apart)
      ]

  put-Named :
      (d : Dict String WorkerPool) (k : String) (p : WorkerPool)
      → p.name ≡ k
      → Named d
      → Named (put d k p)
  unfolding put
  put-Named [] k p e h = (e, tt)
  put-Named ((j, q) ∷ d) k p e h = ground (arith, put-Named d k p, e, h.0, h.1)

  add_group-keeps :
      (key : String) (o : Option String) (r : Option ℕ) (pools out : Dict String WorkerPool)
      → add_group int_of key o r pools ≡ ok out
      → Named pools
      → NodupKeys pools
      → Named out × NodupKeys out
  unfolding add_group
  add_group-keeps key none r pools out h named u =
      subst (λ d. Named d × NodupKeys d) (ok-eq _ _ _ h refl) (named, u)
  add_group-keeps key (some k) r pools out h named u =
      let (n, _, _, made) = add_group-ok key k r pools out h in
      subst (λ d. Named d × NodupKeys d) made
        (put-Named pools k _ refl named, put-NodupKeys pools k _ u)

  parse_groups-get :
      (key name : String) (groups : Items) (pools out : Dict String WorkerPool)
      → parse_groups int_of key groups pools ≡ ok out
      → Named pools
      → NodupKeys pools
      → (get out name ≡ standing key name (get pools name) (declared key name groups))
        × Named out
        × NodupKeys out
  unfolding parse_groups
  parse_groups-get key name nil pools out h named u =
      subst (λ d. (get d name ≡ standing key name (get pools name) none) × Named d × NodupKeys d)
        (ok-eq _ _ _ h refl) (standing_none (get pools name), named, u)
    where
      standing_none : (o : Option WorkerPool) → o ≡ standing key name o none
      standing_none none = refl
      standing_none (some p) = refl
  parse_groups-get key name (cons group groups) pools out h named u =
      let (mid, one, rest) =
        >>=-eq-ok
          (add_group int_of key (group_name int_of key group) (group_replicas int_of group) pools) _
          h in
      let (named', u') = add_group-keeps key _ _ pools mid one named u in
      let (found, named'', u'') = parse_groups-get key name groups mid out rest named' u' in
      (
        found
            ∙ add_group-get key name (group_name int_of key group) (group_replicas int_of group)
                (declared key name groups) pools mid one,
        named'',
        u'',
      )

-- If the RayCluster can be read, its catalog finds a pool exactly if a worker group declares it,
-- with the replicas of the first that does.
pub require_pool-parse_worker_pools :
    (int_of : Value → Option ℤ) (key name : String) (cluster : Fields) (groups : Items)
    (pools : List WorkerPool)
    → cluster_groups int_of cluster ≡ ok groups
    → parse_worker_pools int_of key cluster ≡ ok pools
    → require_pool name pools
      ≡ or_raise
          (standing int_of key name none (declared int_of key name groups))
          (unknown_worker_pool name)
unfolding require_pool parse_worker_pools get
require_pool-parse_worker_pools int_of key name cluster groups pools read h =
    let h1 : (parse_groups int_of key groups [] >>= λ d. ok (sort_by pool_name (values d)))
        ≡ ok pools =
      rw read at h in
    let (d, parsed, h2) = >>=-eq-ok (parse_groups int_of key groups []) _ h1 in
    let (found, named, u) = parse_groups-get int_of key name groups [] d parsed tt tt in
    let sorted : sort_by pool_name (values d) ≡ pools = list-eq _ _ _ h2 refl in
    ap (λ ps. or_raise (find_by pool_name name ps) (unknown_worker_pool name)) (sym sorted)
    ∙ ap (λ o. or_raise o (unknown_worker_pool name))
        (find_by-sort_by pool_name name (values d) (Named-Distinct d named u)
          ∙ find_by-pool_name d name named
          ∙ found)
