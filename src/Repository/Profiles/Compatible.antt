-- ===== src/Repository/Profiles/Compatible.antt =====
-- src/pyscripts/runtime/profiles.py `validate_project_compatibility`, over what it calls of the
-- package `packaging`.
use pyscripts.Base.{
  Bool, not, String, Option, none, some, List, [], ◌∷◌, ◌++◌, string_eq, ◌=?◌, if◌then◌else◌,
}
use pyscripts.Base.Dict.{Dict, get, put}
use pyscripts.Repository.Rows.{RuntimeProfileVersion}

-- `Requirement`: its marker in the environment of a Python version, and its specifier
pub record Requirement : Type 0 where
  pub name : String
  pub applies : String → Bool
  pub specifier : Option String

-- The functions of `packaging`: `canonicalize_name`, `Requirement(text)` where the text is valid,
-- and `Version(version) in SpecifierSet(specifier)`.
pub record Packaging : Type 0 where
  pub canonicalize_name : String → String
  pub requirement : String → Requirement
  pub satisfies : (version specifier : String) → Bool

pub data CompatibilityError : Type 0 where
  python_not_satisfied : CompatibilityError
  not_installed : (name : String) → CompatibilityError
  not_satisfied : (name version : String) → CompatibilityError

module _ (p : Packaging) where
  open p use {canonicalize_name, requirement, satisfies}

  -- the comprehension `installed`: of two spellings of a name the later one
  unfoldable pub installed : Dict String String → Dict String String → Dict String String
  installed found [] = found
  installed found ((name, version) ∷ d) = installed (put found (canonicalize_name name) version) d

  -- what a requirement lacks in an environment
  pub missing : String → Dict String String → Requirement → List CompatibilityError
  missing python found r =
      if not (r.applies python)
      then []
      else if canonicalize_name r.name =? "pyscripts-hook"
      then []
      else elim (get found (canonicalize_name r.name)) [
        | none ↦ not_installed r.name ∷ []
        | some version ↦ elim r.specifier [
          | none ↦ []
          | some s ↦ if satisfies version s then [] else not_satisfied r.name version ∷ []
        ]
      ]

  pub all_missing : String → Dict String String → List String → List CompatibilityError
  unfolding missing
  all_missing python found [] = []
  all_missing python found (d ∷ ds) =
      missing python found (requirement d) ++ all_missing python found ds

  -- the errors that are raised, none if the project fits
  unfoldable pub validate_project_compatibility :
      RuntimeProfileVersion
      → (requires_python : String) (dependencies : List String) → List CompatibilityError
  unfolding installed all_missing
  validate_project_compatibility v requires_python dependencies =
      if satisfies v.python_version requires_python
      then all_missing v.python_version (installed [] v.resolved_dependencies) dependencies
      else python_not_satisfied ∷ []
