-- ===== src/Loader/Drained.antt =====
-- src/pyscripts/runtime/loader.py: what holds after any sequence of steps of a new runtime.
use pyscripts.Base.{
  Option-cases, ℕ, true, false, some, List, [], ◌∷◌, ◌≡◌, sym, ◌∙◌, subst, arith, inl, inr,
  string_eq, nat_eq, pair_eq,
}
use pyscripts.Base.Dict.{get}
use pyscripts.Loader.{LoadedVersion, Key, key_of, is_ready}
use pyscripts.Loader.Registered.{is_live, calls_in-some}
use pyscripts.Loader.Calls.{call-live}
use pyscripts.Loader.History.{Running, Event, step, run, idle, AllProper, Sound}
use pyscripts.Loader.Steps.{step-Sound}

run-Sound : (es : List Event) (s : Running) → AllProper es s → Sound s → Sound (run es s)
run-Sound [] s f g = g
run-Sound (e ∷ es) s f g = run-Sound es (step e s) f.1 (step-Sound e s f.0 g)

idle-Sound : Sound idle
unfolding get
idle-Sound = record {
  inv = record {
    live = λ id v h l. cc;
    registered = λ k id h. cc;
    counted = λ id v h. cc;
    held = λ c id h. cc;
    distinct = tt;
  };
  loading = λ k t h. cc;
}

-- After any sequence of requests, loads, calls and drains of a new runtime, where a load that ends
-- runs for its key and makes a new object and a call that begins is a new one: the version in
-- which a call runs is registered, under its key. So it is not unloaded before the call ends,
-- drains included.
pub run_serves :
    (es : List Event) (c id : ℕ)
    → AllProper es idle
    → get (run es idle).calls c ≡ some id
    → (v : LoadedVersion) × (get (run es idle).runtime.objects id ≡ some v)
      × (get (run es idle).runtime.versions (key_of v) ≡ some id)
run_serves es c id f busy =
    let g = run-Sound es idle f idle-Sound in
    elim (Option-cases (get (run es idle).runtime.objects id)) [
      | inl e ↦ absurd (g.inv.held c id busy e)
      | inr (v, at) ↦ (
        v,
        at,
        g.inv.live id v at
            (call-live _ (run es idle).runtime.versions (run es idle).calls c id v g.inv at busy),
      )
    ]

-- After any sequence of requests, loads, calls and drains of a new runtime, where a load that ends
-- runs for its key and makes a new object and a call that begins is a new one: a version that is
-- registered and DRAINING has a call that runs in it. So once a version was drained and its calls
-- have ended, it is no longer registered.
pub run_unloads :
    (es : List Event) (k : Key) (id : ℕ) (v : LoadedVersion)
    → AllProper es idle
    → get (run es idle).runtime.versions k ≡ some id
    → get (run es idle).runtime.objects id ≡ some v
    → is_ready v.state ≡ false
    → (c : ℕ) × (get (run es idle).calls c ≡ some id)
run_unloads es k id v f home at off =
    let g = run-Sound es idle f idle-Sound in
    let (u, there, _, on) = g.inv.registered k id home in
    let same : some u ≡ some v = sym there ∙ at in
    let u_v : u ≡ v = ground arith in
    let on_v : is_live v ≡ true = subst (λ w. is_live w ≡ true) u_v on in
    calls_in-some id (run es idle).calls g.inv.distinct (ground (arith, g.inv.counted id v at))
