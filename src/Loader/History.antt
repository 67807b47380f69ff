-- ===== src/Loader/History.antt =====
-- src/pyscripts/runtime/loader.py: requests, loads, calls and drains of a `VersionedRuntime`, one after
-- the other.
use pyscripts.Base.{ℕ, String, Option, none, some, List, [], ◌∷◌, ◌≡◌, string_eq, nat_eq, pair_eq}
use pyscripts.Base.Dict.{Dict, get, put, pop}
use pyscripts.Base.Result.{Result, ok, err}
use pyscripts.Loader.{
  LoadedVersion, TaskType, Key, VersionedRuntime, LoaderError, ensure_loaded, load_and_register,
  admit, admit_grpc, release, drain,
}
use pyscripts.Loader.Registered.{Inv}

-- The objects of the calls that have begun and not ended stand beside the runtime.
pub record Running : Type 0 where
  pub runtime : VersionedRuntime
  pub calls : Dict ℕ ℕ

-- A step: `ensure_loaded`, the end of a load, the begin of a call in an object, its end, a drain.
pub data Event : Type 0 where
  request : Key → (task : ℕ) → Event
  loaded : Key → (task : ℕ) → Option (ℕ × Dict String TaskType × List String) → Event
  start : (call object : ℕ) (endpoint_id : String) → Event
  start_grpc : (call object : ℕ) (grpc_endpoints : List String) (endpoint_id : String) → Event
  finish : (call : ℕ) → Event
  drain_version : Key → Event

-- a call begins if it was admitted
abbrev pub began : ℕ → ℕ → Result LoaderError (TaskType × LoadedVersion) → Running → Running
began c id (err e) s = s
began c id (ok (task, v)) s = record {
  runtime = record s.runtime { objects = put s.runtime.objects id v };
  calls = put s.calls c id;
}

abbrev pub at_object {ℓ} : {A : Type ℓ} → Option LoadedVersion → A → (LoadedVersion → A) → A
at_object none a f = a
at_object (some v) a f = f v

abbrev pub finished_in : ℕ → Option ℕ → Running → Running
finished_in c none s = s
finished_in c (some id) s =
    at_object (get s.runtime.objects id) s
      (λ v. record { runtime = release id v s.runtime; calls = pop s.calls c })

abbrev pub step : Event → Running → Running
step (request k t) s = record s { runtime = (ensure_loaded k t s.runtime).1 }
step (loaded k t outcome) s = record s { runtime = load_and_register k t outcome s.runtime }
step (start c id e) s = at_object (get s.runtime.objects id) s (λ v. began c id (admit e v) s)
step (start_grpc c id eps e) s =
    at_object (get s.runtime.objects id) s (λ v. began c id (admit_grpc eps e v) s)
step (finish c) s = finished_in c (get s.calls c) s
step (drain_version k) s = record s { runtime = (drain k s.runtime).1 }

abbrev pub run : List Event → Running → Running
run [] s = s
run (e ∷ es) s = run es (step e s)

abbrev pub idle : Running
idle = record { runtime = record { objects = []; versions = []; load_tasks = [] }; calls = [] }

abbrev pub IsFreshLoad : Option (ℕ × Dict String TaskType × List String) → Running → Type 0
IsFreshLoad none s = Unit
IsFreshLoad (some (id, _, _)) s = get s.runtime.objects id ≡ none

-- A load that ends is the one that runs for its key, and what it makes is a new object; a call
-- that begins is a new one.
abbrev pub IsProper : Event → Running → Type 0
IsProper (loaded k t outcome) s = (get s.runtime.load_tasks k ≡ some t) × IsFreshLoad outcome s
IsProper (start c _ _) s = get s.calls c ≡ none
IsProper (start_grpc c _ _ _) s = get s.calls c ≡ none
IsProper _ s = Unit

abbrev pub AllProper : List Event → Running → Type 0
AllProper [] s = Unit
AllProper (e ∷ es) s = IsProper e s × AllProper es (step e s)

-- No load runs for what is registered.
pub record Sound (s : Running) : Type 0 where
  pub inv : Inv s.runtime.objects s.runtime.versions s.calls
  pub loading :
      (k : Key) (t : ℕ) → get s.runtime.load_tasks k ≡ some t → get s.runtime.versions k ≡ none
