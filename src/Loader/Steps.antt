-- ===== src/Loader/Steps.antt =====
-- src/pyscripts/runtime/loader.py: every step of a runtime keeps it sound.
use pyscripts.Base.{
  Option-cases, ℕ, ◌-◌, true, false, not, ◌&&◌, Bool-cases, String, Option, none, some, List, ◌≡◌,
  refl, ap, ◌∙◌, subst, arith, inl, inr, ◌⊎◌, string_eq, nat_eq, pair_eq, ◌==◌, contains, test_refl,
}
use pyscripts.Base.Dict.{Dict, get, put, pop, get-put, get-put_self, get-put_cases, get-pop}
use pyscripts.Base.Result.{Result, ok, err, or_raise, require, require-eq-ok, >>=-eq-ok}
use pyscripts.Loader.{
  LoadedVersion, TaskType, Key, key_of, is_ready, counted_up, drained, new_version,
  VersionedRuntime, LoaderError, version_draining, unknown_endpoint, unknown_grpc_endpoint,
  ensure_loaded, load_and_register, is_current, end_task, admit, admit_grpc, unload, clear_at,
  release, drain, drain_object,
}
use pyscripts.Loader.Registered.{Inv, is_live}
use pyscripts.Loader.Calls.{
  start-Inv, ended, end_kept-Inv, end_gone-Inv, inflight_pos, call-live, drain_kept-Inv,
  drain_gone-Inv, load-Inv,
}
use pyscripts.Loader.History.{
  Running, Event, request, loaded, start, start_grpc, finish, drain_version, began, at_object, step,
  idle, IsProper, Sound,
}

-- `ensure_loaded` changes nothing, or starts a load of what is not registered.
ensure_loaded_cases :
    (k : Key) (t : ℕ) (r : VersionedRuntime)
    → (r ≡ (ensure_loaded k t r).1)
      ⊎ ((get r.versions k ≡ none)
          × (record r { load_tasks = put r.load_tasks k t } ≡ (ensure_loaded k t r).1))
unfolding ensure_loaded
ensure_loaded_cases k t r = elim (Option-cases (get r.versions k)) [
  | inr (id, e) ↦ inl (rw (e, ensure_loaded) refl)
  | inl e ↦ elim (Option-cases (get r.load_tasks k)) [
    | inr (task, f) ↦ inl (rw (e, f, ensure_loaded) refl)
    | inl f ↦ inr (e, rw (e, f, ensure_loaded) refl)
  ]
]

request-Sound : (k : Key) (t : ℕ) (s : Running) → Sound s → Sound (step (request k t) s)
request-Sound k t s g = elim (ensure_loaded_cases k t s.runtime) [
  | inl e ↦ subst (λ r. Sound (record s { runtime = r })) e g
  | inr (unused, e) ↦
      subst (λ r. Sound (record s { runtime = r })) e
        (record {
          inv = g.inv;
          loading = λ q u h. elim (get-put_cases s.runtime.load_tasks k q t u h) [
            | inl (qk, _) ↦ ap (get s.runtime.versions) qk ∙ unused
            | inr (_, old) ↦ g.loading q u old
          ];
        })
]

admit-eq-ok :
    (e : String) (v w : LoadedVersion) (task : TaskType)
    → admit e v ≡ ok (task, w)
    → (is_ready v.state ≡ true) × (counted_up v ≡ w)
unfolding admit
admit-eq-ok e v w task h =
    let (_, on, h1) =
      >>=-eq-ok (require (is_ready v.state) (version_draining v.service v.revision)) _ h in
    let (t, _, h2) = >>=-eq-ok (or_raise (get v.runners e) (unknown_endpoint e)) _ h1 in
    (require-eq-ok _ _ on, ground arith)

admit_grpc-eq-ok :
    (eps : List String) (e : String) (v w : LoadedVersion) (task : TaskType)
    → admit_grpc eps e v ≡ ok (task, w)
    → (is_ready v.state ≡ true) × (counted_up v ≡ w)
unfolding admit_grpc
admit_grpc-eq-ok eps e v w task h =
    let (_, _, h1) = >>=-eq-ok (require (contains eps e) (unknown_grpc_endpoint e)) _ h in
    let (_, on, h2) =
      >>=-eq-ok (require (is_ready v.state) (version_draining v.service v.revision)) _ h1 in
    let (t, _, h3) = >>=-eq-ok (or_raise (get v.runners e) (unknown_grpc_endpoint e)) _ h2 in
    let (_, _, h4) =
      >>=-eq-ok (require (contains v.grpc_codecs e) (unknown_grpc_endpoint e)) _ h3 in
    (require-eq-ok _ _ on, ground arith)

began-Sound :
    (c id : ℕ) (v : LoadedVersion) (r : Result LoaderError (TaskType × LoadedVersion)) (s : Running)
    → Sound s
    → get s.calls c ≡ none
    → get s.runtime.objects id ≡ some v
    → ((task : TaskType) (w : LoadedVersion)
        → r ≡ ok (task, w)
        → (is_ready v.state ≡ true) × (counted_up v ≡ w))
    → Sound (began c id r s)
began-Sound c id v (err e) s g free at admitted = g
began-Sound c id v (ok (task, w)) s g free at admitted =
    let (on, e) = admitted task w refl in
    let changed = start-Inv s.runtime.objects s.runtime.versions s.calls c id v g.inv at on free in
    record {
      inv =
          subst (λ u. Inv (put s.runtime.objects id u) s.runtime.versions (put s.calls c id)) e
            changed;
      loading = g.loading;
    }

start-Sound :
    (c id : ℕ) (o : Option LoadedVersion) (s : Running)
    (f : LoadedVersion → Result LoaderError (TaskType × LoadedVersion))
    → Sound s
    → get s.calls c ≡ none
    → get s.runtime.objects id ≡ o
    → ((v w : LoadedVersion) (task : TaskType)
        → f v ≡ ok (task, w)
        → (is_ready v.state ≡ true) × (counted_up v ≡ w))
    → Sound (at_object o s (λ v. began c id (f v) s))
start-Sound c id none s f g free at admitted = g
start-Sound c id (some v) s f g free at admitted =
    began-Sound c id v (f v) s g free at (λ task w. admitted v w task)

-- The registry after an unload, of which nothing was being loaded.
pop-loading :
    (V tasks : Dict Key ℕ) (k q : Key) (t : ℕ)
    → (get tasks q ≡ some t → get V q ≡ none)
    → get tasks q ≡ some t
    → get (pop V k) q ≡ none
pop-loading V tasks k q t old h = ground (arith, old h, get-pop V k q)

-- A call ends in its object.
finish-object :
    (c id : ℕ) (v : LoadedVersion) (s : Running)
    → Sound s
    → get s.calls c ≡ some id
    → get s.runtime.objects id ≡ some v
    → Sound (record { runtime = release id v s.runtime; calls = pop s.calls c })
unfolding release unload
finish-object c id v s g busy at =
    let O = s.runtime.objects in
    let V = s.runtime.versions in
    let count = inflight_pos O V s.calls c id v g.inv at busy in
    let home : get V (key_of v) ≡ some id =
      g.inv.live id v at (call-live O V s.calls c id v g.inv at busy) in
    let found = get-put_self O id (ended v) in
    elim (Bool-cases (is_live (ended v))) [
      | inl on ↦
          let stays : (not (is_ready v.state) && v.inflight - 1 == 0) ≡ false =
            ground (arith, on) in
          rw stays
            (record { inv = end_kept-Inv O V s.calls c id v g.inv at busy on; loading = g.loading })
      | inr off ↦
          let goes : (not (is_ready v.state) && v.inflight - 1 == 0) ≡ true = ground (arith, off) in
          rw (goes, home, clear_at, found)
            (record {
              inv = end_gone-Inv O V s.calls c id v g.inv at busy off;
              loading =
                  λ q t h. pop-loading V s.runtime.load_tasks (key_of v) q t (g.loading q t) h;
            })
    ]

-- The end of a load takes its task away, whatever it loaded.
end_task-current :
    (k : Key) (t : ℕ) (r : VersionedRuntime)
    → get r.load_tasks k ≡ some t
    → end_task k t r ≡ record r { load_tasks = pop r.load_tasks k }
unfolding end_task is_current
end_task-current k t r e = rw (e, test_refl t) refl

drain-object :
    (k : Key) (id : ℕ) (v : LoadedVersion) (s : Running)
    → Sound s
    → get s.runtime.versions k ≡ some id
    → get s.runtime.objects id ≡ some v
    → key_of v ≡ k
    → is_live v ≡ true
    → Sound (record s { runtime = (drain_object id (some v) s.runtime).1 })
unfolding drain_object unload
drain-object k id v s g home at own on =
    let O = s.runtime.objects in
    let V = s.runtime.versions in
    let here : get V (key_of v) ≡ some id = ap (get V) own ∙ home in
    let found = get-put_self O id (drained v) in
    elim (Bool-cases (v.inflight == 0)) [
      | inr busy ↦
          rw busy
            (record { inv = drain_kept-Inv O V s.calls id v g.inv at on busy; loading = g.loading })
      | inl idle ↦
          rw (idle, here, clear_at, found)
            (record {
              inv = drain_gone-Inv O V s.calls id v g.inv at on idle;
              loading =
                  λ q t h. pop-loading V s.runtime.load_tasks (key_of v) q t (g.loading q t) h;
            })
    ]

drain-Sound : (k : Key) (s : Running) → Sound s → Sound (step (drain_version k) s)
unfolding drain
drain-Sound k s g = elim (Option-cases (get s.runtime.versions k)) [
  | inl e ↦ rw (e, drain) g
  | inr (id, e) ↦
      let (v, at, own, on) = g.inv.registered k id e in
      rw (e, at, drain) (drain-object k id v s g e at own on)
]

finish-Sound : (c : ℕ) (s : Running) → Sound s → Sound (step (finish c) s)
finish-Sound c s g = elim (Option-cases (get s.calls c)) [
  | inl e ↦ rw e g
  | inr (id, e) ↦ elim (Option-cases (get s.runtime.objects id)) [
    | inl none_there ↦ absurd (g.inv.held c id e none_there)
    | inr (v, at) ↦ rw (e, at) (finish-object c id v s g e at)
  ]
]

loaded-Sound :
    (k : Key) (t : ℕ) (outcome : Option (ℕ × Dict String TaskType × List String)) (s : Running)
    → IsProper (loaded k t outcome) s
    → Sound s
    → Sound (step (loaded k t outcome) s)
unfolding load_and_register
loaded-Sound k t none s f g = rw (end_task-current k t s.runtime f.0) (record {
  inv = g.inv;
  loading = λ q u h. g.loading q u (ground (arith, get-pop s.runtime.load_tasks k q));
})
loaded-Sound k t (some (id, runners, codecs)) s f g =
    let O = put s.runtime.objects id (new_version k runners codecs) in
    let V = put s.runtime.versions k id in
    rw (end_task-current k t (record s.runtime { objects = O; versions = V }) f.0) (record {
      inv =
          load-Inv s.runtime.objects s.runtime.versions s.calls k id runners codecs g.inv f.1
            (g.loading k t f.0);
      loading = λ q u h. ground (
        arith,
        g.loading q u,
        get-pop s.runtime.load_tasks k q,
        get-put s.runtime.versions k q id,
      );
    })

pub step-Sound : (e : Event) (s : Running) → IsProper e s → Sound s → Sound (step e s)
step-Sound (request k t) s f g = request-Sound k t s g
step-Sound (loaded k t outcome) s f g = loaded-Sound k t outcome s f g
step-Sound (start c id e) s f g =
    start-Sound c id _ s (admit e) g f refl (λ v w task. admit-eq-ok e v w task)
step-Sound (start_grpc c id eps e) s f g =
    start-Sound c id _ s (admit_grpc eps e) g f refl (λ v w task. admit_grpc-eq-ok eps e v w task)
step-Sound (finish c) s f g = finish-Sound c s g
step-Sound (drain_version k) s f g = drain-Sound k s g
