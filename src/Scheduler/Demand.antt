-- ===== src/Scheduler/Demand.antt =====
-- directory.py: how many actors a profile gets, and its recent arrivals.
use pyscripts.Base.{
  ℕ, zero, suc, ◌+◌, ◌-◌, ◌*◌, ◌/◌, ◌≤◌, ◌<◌, max, min, ◌≡◌, refl, ap, Bool, ◌||◌, List, [], ◌∷◌,
  ◌++◌, All, All-append, select, ltb, leb, length, arith, inl, inr, Bool-cases, if◌then◌else◌,
}
use native.Mathlib.Nat.{div-add-mod, mod-lt, mul_comm, mul-le-mul_right}
use pyscripts.Scheduler.{
  ActorCandidate, Settings, ProfileTraffic, trim, record_arrival, active_io_of, ceil_div,
  desired_actor_count,
}

ceil_div_covers : (a b : ℕ) → 1 ≤ b → a ≤ ceil_div a b * b
ceil_div_covers a zero h = absurd (omega arith)
ceil_div_covers a (suc k) h = omega (
  arith,
  div-add-mod (a + (suc k - 1)) (suc k),
  mod-lt (a + (suc k - 1)) {m = suc k} (omega arith),
  mul_comm ((a + (suc k - 1)) / suc k) (suc k),
)

min-covers : (x d m t : ℕ) → x ≤ d * t → min x (m * t) ≤ min d m * t
min-covers x d m t h = elim (Bool-cases (leb d m)) [
  | inl e ↦ let same : min d m ≡ d = ground arith in omega (arith, ap (λ n. n * t) same, h)
  | inr e ↦ let same : min d m ≡ m = ground arith in omega (arith, ap (λ n. n * t) same)
]

-- enough actors for a load at the target
enough : (x load t spare : ℕ) → 1 ≤ t → x ≤ (max 1 (ceil_div (max x load) t) + spare) * t
enough x load t spare h =
    let few = ceil_div (max x load) t in
    let more = max 1 few + spare in
    let grows : few * t ≤ more * t = mul-le-mul_right t (omega arith) in
    omega (arith, ceil_div_covers (max x load) t h, grows)

-- With a positive target and maximum, the number of actors is between one and the maximum, and that
-- many actors at the target take all that is active and pending, or as much as the maximum would.
pub desired_actor_count_covers :
    (load : ℕ → ℕ) (busy : ℕ → Bool) (settings : Settings) (now : ℕ) (cs : List ActorCandidate)
    (pending : ℕ) (traffic : ProfileTraffic)
    → 1 ≤ settings.actor_target_io_concurrency
    → 1 ≤ settings.actor_max_per_profile
    → (1 ≤ (desired_actor_count load busy settings now cs pending traffic).0)
      × ((desired_actor_count load busy settings now cs pending traffic).0
          ≤ settings.actor_max_per_profile)
      × (min
            (active_io_of cs + pending)
            (settings.actor_max_per_profile * settings.actor_target_io_concurrency)
          ≤ (desired_actor_count load busy settings now cs pending traffic).0
            * settings.actor_target_io_concurrency)
unfolding desired_actor_count
desired_actor_count_covers load busy settings now cs pending traffic t m =
    let recent = length (trim settings.actor_request_rate_window_seconds now traffic.arrivals) in
    let x = active_io_of cs + pending in
    let hot = max 1 (ceil_div (max x (load recent)) settings.actor_target_io_concurrency) in
    let spare = if busy recent || ltb 1 hot then settings.actor_warm_spares else 0 in
    (
      omega (arith, m),
      omega arith,
      min-covers x (hot + spare) settings.actor_max_per_profile settings.actor_target_io_concurrency
          (enough x (load recent) settings.actor_target_io_concurrency spare t),
    )

-- arrivals in order
abbrev pub Ordered : List ℕ → Type 0
Ordered [] = Unit
Ordered (a ∷ later) = All (λ b. a ≤ b) later × Ordered later

abbrev pub is_recent : ℕ → ℕ → ℕ → Bool
is_recent window now a = ltb now (a + window)

select_keeps_later :
    (window now a : ℕ) (later : List ℕ)
    → now < a + window
    → All (λ b. a ≤ b) later
    → select (is_recent window now) later ≡ later
select_keeps_later window now a [] h hs = refl
select_keeps_later window now a (b ∷ later) h (here, hs) =
    ground (arith, select_keeps_later window now a later h hs)

trim-select :
    (window now : ℕ) (arrivals : List ℕ)
    → Ordered arrivals
    → trim window now arrivals ≡ select (is_recent window now) arrivals
unfolding trim
trim-select window now [] o = refl
trim-select window now (a ∷ later) (here, o) = elim (Bool-cases (leb (a + window) now)) [
  | inl e ↦ ground (arith, trim-select window now later o)
  | inr e ↦ ground (arith, select_keeps_later window now a later (ground arith) here)
]

Ordered-append :
    (xs : List ℕ) (now : ℕ) → Ordered xs → All (λ a. a ≤ now) xs → Ordered (xs ++ now ∷ [])
Ordered-append [] now o h = (tt, tt)
Ordered-append (x ∷ xs) now (here, o) (le, h) =
    (All-append (λ b. x ≤ b) xs (now ∷ []) here (le, tt), Ordered-append xs now o h)

-- With arrivals in order and a clock that does not go back, recording an arrival leaves exactly the
-- arrivals of the window that ends now, the new one among them.
pub record_arrival-select :
    (settings : Settings) (now : ℕ) (traffic : ProfileTraffic)
    → Ordered traffic.arrivals
    → All (λ a. a ≤ now) traffic.arrivals
    → (record_arrival settings now traffic).arrivals
      ≡ select
          (is_recent settings.actor_request_rate_window_seconds now)
          (traffic.arrivals ++ now ∷ [])
unfolding record_arrival
record_arrival-select settings now traffic o h =
    trim-select settings.actor_request_rate_window_seconds now (traffic.arrivals ++ now ∷ [])
      (Ordered-append traffic.arrivals now o h)
