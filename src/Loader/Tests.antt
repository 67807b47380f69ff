-- ===== src/Loader/Tests.antt =====
-- src/pyscripts/runtime/loader.py, on a history that loads a version, calls it and drains it.
use pyscripts.Base.{ℕ, none, some, List, [], ◌∷◌, ◌≡◌, refl, nat_eq, string_eq, pair_eq}
use pyscripts.Base.Dict.{get, put, pop}
use pyscripts.Loader.{
  LoadedVersion, VersionState, TaskType, Key, key_of, ensure_loaded, load_and_register, admit,
  release, drain, unload, clear_at, drain_object, end_task, is_current,
}
use pyscripts.Loader.History.{
  Event, request, loaded, start, finish, drain_version, run, idle, AllProper,
}
use pyscripts.Loader.Drained.{run_serves, run_unloads}

abbrev orders : Key
orders = ("orders", "r1")

-- Two calls run when the version is drained.
abbrev busy : List Event
busy =
    request orders 1
    ∷ loaded orders 1 (some (10, ("get", TaskType.io) ∷ [], []))
    ∷ start 20 10 "get"
    ∷ start 21 10 "get"
    ∷ drain_version orders
    ∷ start 22 10 "get"
    ∷ finish 20
    ∷ []

busy-AllProper : AllProper busy idle
unfolding get put pop ensure_loaded load_and_register admit release drain unload clear_at
    drain_object end_task is_current nat_eq string_eq pair_eq
busy-AllProper = (tt, ((refl, refl), (refl, (refl, (tt, (refl, (tt, tt)))))))

abbrev served : LoadedVersion
served = record {
  service = "orders";
  revision = "r1";
  runners = ("get", TaskType.io) ∷ [];
  grpc_codecs = [];
  state = VersionState.draining;
  inflight = 1;
}

call_there : get (run busy idle).calls 21 ≡ some 10
unfolding get put pop ensure_loaded load_and_register admit release drain unload clear_at
    drain_object end_task is_current nat_eq string_eq pair_eq
call_there = refl

object_there : get (run busy idle).runtime.objects 10 ≡ some served
unfolding get put pop ensure_loaded load_and_register admit release drain unload clear_at
    drain_object end_task is_current nat_eq string_eq pair_eq
object_there = refl

version_there : get (run busy idle).runtime.versions orders ≡ some 10
unfolding get put pop ensure_loaded load_and_register admit release drain unload clear_at
    drain_object end_task is_current nat_eq string_eq pair_eq
version_there = refl

run_serves_example :
    (v : LoadedVersion) × (get (run busy idle).runtime.objects 10 ≡ some v)
    × (get (run busy idle).runtime.versions (key_of v) ≡ some 10)
run_serves_example = run_serves busy 21 10 busy-AllProper call_there

run_unloads_example : (c : ℕ) × (get (run busy idle).calls c ≡ some 10)
run_unloads_example =
    run_unloads busy orders 10 served busy-AllProper version_there object_there refl

-- With the last call the version goes.
gone : get (run (finish 21 ∷ []) (run busy idle)).runtime.versions orders ≡ none
unfolding get put pop ensure_loaded load_and_register admit release drain unload clear_at
    drain_object end_task is_current nat_eq string_eq pair_eq
gone = refl
