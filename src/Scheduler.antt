-- ===== src/Scheduler.antt =====
-- src/pyscripts/runtime/directory.py: what the pool scheduler decides from the status of the actors
-- and from recent demand. Instants and durations are natural numbers of one unit. The products and
-- comparisons of floats in `_desired_actor_count` are parameters.
pub mod Order
pub mod Demand
pub mod WarmNodes
mod Tests
use pyscripts.Base.{
  ℕ, suc, ◌+◌, ◌-◌, ◌*◌, ◌/◌, ◌%◌, max, min, Bool, true, false, ◌&&◌, ◌||◌, not, Option, none, some,
  List, [], ◌∷◌, ◌++◌, String, ltb, leb, ◌==◌, length, select, contains, string_eq, if◌then◌else◌,
  is_none,
}
use pyscripts.Base.Int.{ℤ, pos, negsuc, leb_ℤ, neg_ℕ}
use pyscripts.Base.Dict.{Dict, get, put}
use pyscripts.Admission.{ActorState, idle, shared_io, saturated_io, draining}

-- the entries of `status` that the scheduler reads
pub record ActorCandidate : Type 0 where
  pub replica : ℕ
  pub state : ActorState
  pub active_io : ℕ

abbrev pub is_eligible : ActorCandidate → Bool
is_eligible c = elim c.state [
  | shared_io ↦ true
  | idle ↦ true
  | saturated_io ↦ false
  | draining ↦ false
]

-- the tuples of `priority`
pub record Priority : Type 0 where
  pub rank : ℕ
  pub load : ℤ
  pub replica : ℕ

abbrev pub below_target : Option ℕ → ℕ → Bool
below_target none active = true
below_target (some t) active = ltb active t

abbrev pub packs : Option ℕ → ActorCandidate → Bool
packs target c = elim c.state [
  | shared_io ↦ below_target target c.active_io
  | idle ↦ false
  | saturated_io ↦ false
  | draining ↦ false
]

abbrev pub is_idle : ActorState → Bool
is_idle idle = true
is_idle _ = false

unfoldable pub priority : Option ℕ → ActorCandidate → Priority
priority target c =
    if packs target c
    then record { rank = 0; load = neg_ℕ c.active_io; replica = c.replica }
    else if is_idle c.state
    then record { rank = 1; load = pos 0; replica = c.replica }
    else record { rank = 2; load = pos c.active_io; replica = c.replica }

-- the order of tuples
abbrev pub priority_le : Priority → Priority → Bool
priority_le p q =
    ltb p.rank q.rank
    || (p.rank == q.rank
        && (not (leb_ℤ q.load p.load)
            || (leb_ℤ p.load q.load && (leb_ℤ q.load p.load && leb p.replica q.replica))))

-- `sorted`, which is stable
unfoldable pub insert : Option ℕ → ActorCandidate → List ActorCandidate → List ActorCandidate
unfolding priority
insert target c [] = c ∷ []
insert target c (d ∷ ds) =
    let rest = insert target c ds in
    if priority_le (priority target c) (priority target d) then c ∷ d ∷ ds else d ∷ rest

unfoldable pub sort : Option ℕ → List ActorCandidate → List ActorCandidate
unfolding insert
sort target [] = []
sort target (c ∷ cs) = insert target c (sort target cs)

-- `_order_candidates`
unfoldable pub order_candidates : List ActorCandidate → Option ℕ → List ActorCandidate
unfolding sort
order_candidates candidates target = sort target (select is_eligible candidates)

-- the fields of `Settings` that the scheduler reads here
pub record Settings : Type 0 where
  pub actor_target_io_concurrency : ℕ
  pub actor_max_per_profile : ℕ
  pub actor_warm_spares : ℕ
  pub actor_request_rate_window_seconds : ℕ
  pub compute_warm_nodes_per_profile : ℕ

-- `ProfileTraffic`, without the average of durations
pub record ProfileTraffic : Type 0 where
  pub arrivals : List ℕ
  pub last_request_at : Option ℕ

-- the loop of `_trim_arrivals`: `arrivals[0] <= now - window`
unfoldable pub trim : ℕ → ℕ → List ℕ → List ℕ
trim window now [] = []
trim window now (a ∷ later) =
    let rest = trim window now later in if leb (a + window) now then rest else a ∷ later

abbrev pub trim_arrivals : Settings → ProfileTraffic → ℕ → ProfileTraffic
trim_arrivals settings traffic now = record traffic {
  arrivals = trim settings.actor_request_rate_window_seconds now traffic.arrivals;
}

unfoldable pub record_arrival : Settings → ℕ → ProfileTraffic → ProfileTraffic
unfolding trim
record_arrival settings now traffic =
    trim_arrivals settings
      (record traffic { arrivals = traffic.arrivals ++ now ∷ []; last_request_at = some now }) now

-- `_profile_is_cold`, for a profile with this traffic, if any
unfoldable pub profile_is_cold : ℕ → ℕ → Option ProfileTraffic → Bool
profile_is_cold now timeout none = true
profile_is_cold now timeout (some t) = elim t.last_request_at [
  | none ↦ true
  | some at ↦ leb timeout (now - at)
]

abbrev pub is_draining : ActorState → Bool
is_draining draining = true
is_draining _ = false

-- `active` of `_desired_actor_count`
unfoldable pub active_io_of : List ActorCandidate → ℕ
active_io_of [] = 0
active_io_of (c ∷ cs) =
    let rest = active_io_of cs in if is_draining c.state then rest else c.active_io + rest

-- `math.ceil(a / b)` for a positive b
abbrev pub ceil_div : ℕ → ℕ → ℕ
ceil_div a b = (a + (b - 1)) / b

-- `load` is `math.ceil(rate * duration_ewma_seconds)` and `busy` is `rate >= actor_hot_request_rate`,
-- for the number of recent arrivals.
unfoldable pub desired_actor_count :
    (load : ℕ → ℕ) (busy : ℕ → Bool)
    → Settings
    → (now : ℕ) → List ActorCandidate
    → (pending_requests : ℕ) → ProfileTraffic
    → ℕ × ProfileTraffic
unfolding active_io_of trim
desired_actor_count load busy settings now candidates pending_requests traffic =
    let trimmed = trim_arrivals settings traffic now in
    let recent = length trimmed.arrivals in
    let predicted_concurrency = max (active_io_of candidates + pending_requests) (load recent) in
    let hot_actors = max 1 (ceil_div predicted_concurrency settings.actor_target_io_concurrency) in
    let is_hot = busy recent || ltb 1 hot_actors in
    let desired = hot_actors + (if is_hot then settings.actor_warm_spares else 0) in
    (min desired settings.actor_max_per_profile, trimmed)

-- `_compute_warm_nodes` and `_compute_warm_cursor` of one profile
pub record ComputeWarmNodes : Type 0 where
  pub nodes : List String
  pub cursor : ℕ

unfoldable pub nth : ℕ → List String → Option String
nth n [] = none
nth n (x ∷ xs) = let later = nth (n - 1) xs in if n == 0 then some x else later

unfoldable pub next_compute_warm_node : ComputeWarmNodes → Option String × ComputeWarmNodes
unfolding nth
next_compute_warm_node w =
    if length w.nodes == 0
    then (none, w)
    else (nth (w.cursor % length w.nodes) w.nodes, record w { cursor = w.cursor + 1 })

-- `del nodes[:-n]`: the last n stay, and all of them if n is 0
unfoldable pub keep_last : ℕ → List String → List String
keep_last n [] = []
keep_last n (x ∷ xs) =
    let rest = keep_last n xs in
    if n == 0 then x ∷ xs else if leb (suc (length xs)) n then x ∷ xs else rest

unfoldable pub remember_compute_warm_node : Settings → String → ComputeWarmNodes → ComputeWarmNodes
unfolding keep_last string_eq
remember_compute_warm_node settings node_id w =
    if contains ("" ∷ []) node_id then w else if contains w.nodes node_id then w else record w {
      nodes = keep_last settings.compute_warm_nodes_per_profile (w.nodes ++ node_id ∷ []);
    }
