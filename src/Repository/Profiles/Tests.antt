-- ===== src/Repository/Profiles/Tests.antt =====
-- repository.py: the calls on runtime labels, on concrete databases.
use pyscripts.Base.{
  ℕ, true, String, Option, none, some, List, [], ◌∷◌, ◌≡◌, refl, string_eq, nat_eq,
}
use pyscripts.Base.Dict.{get, put}
use pyscripts.Base.Result.{Result, ok, err}
use pyscripts.Json.{object, end}
use pyscripts.Repository.Rows.{
  RuntimeLabel, RuntimeProfileVersion, RuntimeProfileStatus, RuntimeTrackingMode,
  RevisionRuntimeProfile, Database,
}
use pyscripts.Repository.Profiles.{
  RuntimeVersionRequest, RuntimeProfileRecord, ValidationOutcome, create_runtime_label,
  create_runtime_version, complete_runtime_profile_validation, retire_runtime_profile,
  new_runtime_version,
}
use pyscripts.Repository.Profiles.Compatible.{Packaging, validate_project_compatibility}
use pyscripts.Repository.Profiles.Activate.{activate_runtime_profile}
use pyscripts.Repository.Profiles.Pointers.{Pointing}
use pyscripts.Repository.Profiles.History.{
  ProfileCommand, create_label, create_version, complete, activate_profile, retire, profile_run,
  AllProper, profile_run-Pointing,
}
use pyscripts.Repository.Profiles.Bindings.{Points, Follows, activate_runtime_profile_binds}
use pyscripts.Repository.Transactions.{empty}

-- A requirement is a name.
abbrev pub packaging : Packaging
packaging = record {
  canonicalize_name = λ s. s;
  requirement = λ s. record { name = s; specifier = none; applies = λ v. true };
  satisfies = λ v s. true;
}

abbrev request : RuntimeVersionRequest
request = record {
  python_version = "3.12";
  worker_pool = "default";
  pip_source = "public";
  pip_index_url = none;
  dependencies = [];
  import_checks = [];
}

abbrev outcome : String → ValidationOutcome
outcome d = record {
  resolved_dependencies = ("numpy", "1") ∷ [];
  validation_result = object end;
  runtime_env = object end;
  environment_digest = d;
}

-- The second version of a label replaces the first, which then retires.
abbrev pub calls : List ProfileCommand
calls =
    create_label 1 2 "base" request
    ∷ complete 10 2 (outcome "a")
    ∷ activate_profile 2
    ∷ create_version 3 1 request
    ∷ complete 11 3 (outcome "b")
    ∷ activate_profile 3
    ∷ retire 12 2 true
    ∷ []

calls-AllProper : AllProper packaging calls empty
unfolding get put create_runtime_label create_runtime_version complete_runtime_profile_validation
    activate_runtime_profile retire_runtime_profile new_runtime_version string_eq nat_eq
calls-AllProper = ((refl, refl), (tt, (tt, (refl, (tt, (tt, (tt, tt)))))))

empty-Pointing : Pointing empty.labels empty.versions
unfolding get
empty-Pointing = record {
  version_id = λ k v h. cc;
  active = λ i k l h to. cc;
  pointed = λ k v h on. cc;
}

profile_run-Pointing_example :
    Pointing (profile_run packaging calls empty).labels (profile_run packaging calls empty).versions
profile_run-Pointing_example =
    profile_run-Pointing packaging calls empty calls-AllProper empty-Pointing

abbrev status_of : Option RuntimeProfileVersion → Option RuntimeProfileStatus
status_of none = none
status_of (some v) = some v.status

retired :
    status_of (get (profile_run packaging calls empty).versions 2)
    ≡ some RuntimeProfileStatus.retired
unfolding get put create_runtime_label create_runtime_version complete_runtime_profile_validation
    activate_runtime_profile retire_runtime_profile new_runtime_version string_eq nat_eq
retired = refl

-- a validated version, and a binding that follows its label
abbrev fresh_label : RuntimeLabel
fresh_label = record { id = 1; name = "base"; active_version_id = none }

abbrev ready : RuntimeProfileVersion
ready = record {
  id = 2;
  label_id = 1;
  version = 1;
  profile_ref = "base@v1";
  python_version = "3.12";
  worker_pool = "default";
  pip_source = "public";
  pip_index_url = none;
  requested_dependencies = "numpy" ∷ [];
  resolved_dependencies = ("numpy", "1") ∷ [];
  import_checks = [];
  environment_digest = some "a";
  runtime_env = object end;
  validation_result = object end;
  status = RuntimeProfileStatus.ready;
  error = none;
  validated_at = some 10;
  retired_at = none;
}

abbrev binding : RevisionRuntimeProfile
binding = record {
  revision_id = 7;
  runtime_label_id = 1;
  runtime_profile_version_id = 9;
  tracking_mode = RuntimeTrackingMode.track_active;
  interface_digest = "i";
  validation_result = record {
    requested_runtime = "base";
    resolved_profile_ref = "base@v0";
    requires_python = some ">=3.12";
    dependencies = some ("numpy" ∷ []);
  };
}

abbrev bound : Database
bound = record empty {
  labels = (1, fresh_label) ∷ [];
  versions = (2, ready) ∷ [];
  bindings = (7, binding) ∷ [];
}

abbrev value_of :
    Result pyscripts.Repository.Rows.Error
      ((RuntimeProfileRecord × Option (ℕ × RuntimeProfileVersion) × ℕ) × Database)
    → (RuntimeProfileRecord × Option (ℕ × RuntimeProfileVersion) × ℕ) × Database
value_of (ok x) = x
value_of (err e) =
    ((record { label = fresh_label; version = ready; reference_count = 0 }, none, 0), empty)

returns :
    activate_runtime_profile packaging 2 bound
    ≡ ok (value_of (activate_runtime_profile packaging 2 bound))
unfolding get activate_runtime_profile validate_project_compatibility string_eq nat_eq put
returns = refl

version_at : get bound.versions 2 ≡ some ready
unfolding get nat_eq
version_at = refl

binding_at : get bound.bindings 7 ≡ some binding
unfolding get nat_eq
binding_at = refl

activate_runtime_profile_binds_example :
    Points 2 ready (value_of (activate_runtime_profile packaging 2 bound)).1
    × Follows packaging 2 ready
        (value_of (activate_runtime_profile packaging 2 bound)).1.bindings
        7
        binding
activate_runtime_profile_binds_example =
    activate_runtime_profile_binds packaging 2 7 bound _ _ ready binding version_at refl binding_at
      returns
