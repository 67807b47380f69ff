-- ===== src/Repository/Profiles/History.antt =====
-- repository.py: the calls on runtime labels and versions, one after the other, and what they keep
-- of the pointers.
use pyscripts.Base.{ℕ, Bool, String, none, List, [], ◌∷◌, ◌≡◌, refl, string_eq, nat_eq}
use pyscripts.Base.Dict.{get}
use pyscripts.Base.Result.{Result, ok, err}
use pyscripts.Repository.Rows.{Database, Error}
use pyscripts.Repository.Profiles.{
  RuntimeVersionRequest, ValidationOutcome, create_runtime_label, create_runtime_version,
  complete_runtime_profile_validation, fail_runtime_profile_validation, retire_runtime_profile,
}
use pyscripts.Repository.Profiles.Compatible.{Packaging}
use pyscripts.Repository.Profiles.Activate.{activate_runtime_profile}
use pyscripts.Repository.Profiles.Pointers.{Pointing, Idle}
use pyscripts.Repository.Profiles.Steps.{
  GoodProfiles, create_runtime_label-Pointing, create_runtime_version-Pointing,
  complete_runtime_profile_validation-Pointing, fail_runtime_profile_validation-Pointing,
  retire_runtime_profile-Pointing, activate_runtime_profile-Pointing,
}

-- A call on the runtime labels, with the instant at which it runs and the uuids that it draws.
pub data ProfileCommand : Type 0 where
  create_label : (label_id version_id : ℕ) (name : String) → RuntimeVersionRequest → ProfileCommand
  create_version : (version_id label_id : ℕ) → RuntimeVersionRequest → ProfileCommand
  complete : (now version_id : ℕ) → ValidationOutcome → ProfileCommand
  fail : (now version_id : ℕ) (error : String) → ProfileCommand
  activate_profile : (version_id : ℕ) → ProfileCommand
  retire : (now version_id : ℕ) (finalize : Bool) → ProfileCommand

-- the database that a transaction leaves
abbrev pub commit {ℓ} : {A : Type ℓ} → Database → Result Error (A × Database) → Database
commit db (ok (a, db')) = db'
commit db (err e) = db

-- What a transaction keeps when it returns, it keeps when it is committed or rolled back.
pub commit-keeps {ℓ κ} :
    {A : Type ℓ} (P : Database → Type κ) (db : Database) (r : Result Error (A × Database))
    → P db
    → ((a : A) (db' : Database) → r ≡ ok (a, db') → P db')
    → P (commit db r)
commit-keeps P db (ok (a, db')) g keeps = keeps a db' refl
commit-keeps P db (err e) g keeps = g

module _ (p : Packaging) where
  abbrev pub profile_step : ProfileCommand → Database → Database
  profile_step (create_label i k name r) db = commit db (create_runtime_label i k name r db)
  profile_step (create_version k i r) db = commit db (create_runtime_version k i r db)
  profile_step (complete now k o) db = commit db (complete_runtime_profile_validation now k o db)
  profile_step (fail now k error) db = commit db (fail_runtime_profile_validation now k error db)
  profile_step (activate_profile k) db = commit db (activate_runtime_profile p k db)
  profile_step (retire now k finalize) db = commit db (retire_runtime_profile now k finalize db)

  -- A uuid that is drawn is not in use, and a validation fails only where the version is not
  -- ACTIVE: the caller fails the version that it has just created.
  abbrev pub IsProper : ProfileCommand → Database → Type 0
  IsProper (create_label i k _ _) db = (get db.labels i ≡ none) × (get db.versions k ≡ none)
  IsProper (create_version k _ _) db = get db.versions k ≡ none
  IsProper (fail _ k _) db = Idle db.versions k
  IsProper _ db = Unit

  abbrev pub profile_run : List ProfileCommand → Database → Database
  profile_run [] db = db
  profile_run (c ∷ cs) db = profile_run cs (profile_step c db)

  abbrev pub AllProper : List ProfileCommand → Database → Type 0
  AllProper [] db = Unit
  AllProper (c ∷ cs) db = IsProper c db × AllProper cs (profile_step c db)

  profile_step-Pointing :
      (c : ProfileCommand) (db : Database)
      → IsProper c db
      → GoodProfiles db
      → GoodProfiles (profile_step c db)
  profile_step-Pointing (create_label i k name r) db f g =
      commit-keeps GoodProfiles db _ g
        (λ x db' h. create_runtime_label-Pointing i k name r db db' x f.0 f.1 g h)
  profile_step-Pointing (create_version k i r) db f g =
      commit-keeps GoodProfiles db _ g
        (λ x db' h. create_runtime_version-Pointing k i r db db' x f g h)
  profile_step-Pointing (complete now k o) db f g =
      commit-keeps GoodProfiles db _ g
        (λ x db' h. complete_runtime_profile_validation-Pointing now k o db db' x g h)
  profile_step-Pointing (fail now k error) db f g =
      commit-keeps GoodProfiles db _ g
        (λ x db' h. fail_runtime_profile_validation-Pointing now k error db db' x f g h)
  profile_step-Pointing (activate_profile k) db f g =
      commit-keeps GoodProfiles db _ g
        (λ x db' h. activate_runtime_profile-Pointing p k db db' x g h)
  profile_step-Pointing (retire now k finalize) db f g =
      commit-keeps GoodProfiles db _ g
        (λ x db' h. retire_runtime_profile-Pointing now k finalize db db' x g h)

  -- Calls on the runtime labels keep `Pointing`, failed calls included, where the uuids that are
  -- drawn are not in use, and no validation fails on an ACTIVE version: a label points to an
  -- ACTIVE version of its own, and every ACTIVE version is the one its label points to.
  pub profile_run-Pointing :
      (cs : List ProfileCommand) (db : Database)
      → AllProper cs db
      → Pointing db.labels db.versions
      → Pointing (profile_run cs db).labels (profile_run cs db).versions
  profile_run-Pointing [] db f g = g
  profile_run-Pointing (c ∷ cs) db f g =
      profile_run-Pointing cs (profile_step c db) f.1 (profile_step-Pointing c db f.0 g)
