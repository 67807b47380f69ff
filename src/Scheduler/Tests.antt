-- ===== src/Scheduler/Tests.antt =====
-- directory.py: the theorems on a small pool.
use pyscripts.Base.{
  ℕ, ◌+◌, ◌*◌, ◌≤◌, min, ◌≡◌, ◌≢◌, refl, Bool, true, some, List, [], ◌∷◌, String, string_eq,
  contains, leb, length, arith,
}
use pyscripts.Admission.{shared_io, idle, draining}
use pyscripts.Scheduler.{
  ActorCandidate, Settings, ProfileTraffic, ComputeWarmNodes, priority, priority_le, insert, sort,
  order_candidates, trim, record_arrival, active_io_of, desired_actor_count,
  remember_compute_warm_node,
}
use pyscripts.Scheduler.Order.{priority-packs}
use pyscripts.Scheduler.Demand.{desired_actor_count_covers, record_arrival-select}
use pyscripts.Scheduler.WarmNodes.{distinct, remember_compute_warm_node-distinct}

abbrev busy_actor : ActorCandidate
busy_actor = record { replica = 2; state = shared_io; active_io = 4 }

abbrev quiet_actor : ActorCandidate
quiet_actor = record { replica = 0; state = shared_io; active_io = 1 }

abbrev candidates : List ActorCandidate
candidates =
    record { replica = 3; state = idle; active_io = 0 }
    ∷ quiet_actor
    ∷ record { replica = 1; state = draining; active_io = 2 }
    ∷ busy_actor
    ∷ []

ordered :
    order_candidates candidates (some 5)
    ≡ busy_actor ∷ quiet_actor ∷ record { replica = 3; state = idle; active_io = 0 } ∷ []
unfolding order_candidates sort insert priority
ordered = refl

priority-packs_example :
    priority_le (priority (some 5) busy_actor) (priority (some 5) quiet_actor) ≡ true
priority-packs_example = priority-packs busy_actor quiet_actor (some 5) refl

abbrev settings : Settings
settings = record {
  actor_target_io_concurrency = 2;
  actor_max_per_profile = 8;
  actor_warm_spares = 1;
  actor_request_rate_window_seconds = 10;
  compute_warm_nodes_per_profile = 2;
}

abbrev traffic : ProfileTraffic
traffic = record { arrivals = 3 ∷ 11 ∷ []; last_request_at = some 11 }

-- one call of a second for each arrival, and a pool that is busy from two arrivals on
abbrev load : ℕ → ℕ
load n = n

abbrev busy : ℕ → Bool
busy n = leb 2 n

desired_actor_count_covers_example :
    (1 ≤ (desired_actor_count load busy settings 14 candidates 1 traffic).0)
    × ((desired_actor_count load busy settings 14 candidates 1 traffic).0 ≤ 8)
    × (min (active_io_of candidates + 1) 16
        ≤ (desired_actor_count load busy settings 14 candidates 1 traffic).0 * 2)
desired_actor_count_covers_example =
    desired_actor_count_covers load busy settings 14 candidates 1 traffic (omega arith)
      (omega arith)

-- Five calls are active and one is pending: three actors, and a spare one.
desired : (desired_actor_count load busy settings 14 candidates 1 traffic).0 ≡ 4
unfolding desired_actor_count active_io_of trim
desired = refl

record_arrival-select_example : (record_arrival settings 14 traffic).arrivals ≡ 11 ∷ 14 ∷ []
record_arrival-select_example =
    record_arrival-select settings 14 traffic ((omega arith, tt), (tt, tt))
      (omega arith, (omega arith, tt))

abbrev warm : ComputeWarmNodes
warm = record { nodes = "n1" ∷ "n2" ∷ []; cursor = 0 }

abbrev third : String
third = "n3"

named : third ≢ ""
named e = cc

distinct_names : distinct warm.nodes ≡ true
unfolding string_eq
distinct_names = refl

remember_compute_warm_node-distinct_example :
    (distinct (remember_compute_warm_node settings "n3" warm).nodes ≡ true)
    × (length (remember_compute_warm_node settings "n3" warm).nodes ≤ 2)
    × (contains (remember_compute_warm_node settings "n3" warm).nodes "n3" ≡ true)
remember_compute_warm_node-distinct_example =
    remember_compute_warm_node-distinct settings "n3" warm (omega arith) named distinct_names
      (omega arith)
