-- ===== src/Repository/Profiles/Bindings.antt =====
-- repository.py `activate_runtime_profile`: what it makes of the bindings.
use pyscripts.Base.{
  ℕ, String, true, false, Bool-cases, Option, none, some, List, [], ◌∷◌, ◌≡◌, refl, sym, ap, ◌∙◌,
  arith, nat_eq, ◌=?◌, subst, inl, inr, ◌⊎◌, if◌then◌else◌, All,
}
use pyscripts.Base.Dict.{Dict, get, put, get-put_self}
use pyscripts.Base.Result.{ok, or_raise, or_raise-eq-ok, require-eq-ok, >>=-eq-ok}
use pyscripts.Repository.Rows.{
  RuntimeLabel, RuntimeProfileVersion, RevisionRuntimeProfile, Database, metadata_missing,
}
use pyscripts.Repository.Profiles.{RuntimeProfileRecord}
use pyscripts.Repository.Profiles.Compatible.{Packaging, validate_project_compatibility}
use pyscripts.Repository.Profiles.Activate.{
  activate_runtime_profile, activated_version, pointing, tracks, tracking, rebind, rebound,
  check_binding, check_bindings, no_errors, moved, find_old, references_of,
}
use pyscripts.Repository.Profiles.Steps.{release_old_self}
use pyscripts.Repository.Profiles.Moved.{activate_runtime_profile-eq-ok}

-- what becomes of a binding
abbrev pub after : ℕ → RuntimeProfileVersion → RevisionRuntimeProfile → RevisionRuntimeProfile
after label_id v b = if tracks label_id b then rebound v b else b

abbrev pub map_binding :
    (RevisionRuntimeProfile → RevisionRuntimeProfile)
    → Option RevisionRuntimeProfile
    → Option RevisionRuntimeProfile
map_binding f none = none
map_binding f (some b) = some (f b)

get-rebind :
    (i : ℕ) (v : RuntimeProfileVersion) (d : Dict ℕ RevisionRuntimeProfile) (k : ℕ)
    → get (rebind i v d) k ≡ map_binding (after i v) (get d k)
unfolding get rebind
get-rebind i v [] k = refl
get-rebind i v ((j, b) ∷ d) k = elim (Bool-cases (k =? j)) [
  | inl e ↦ rw e refl
  | inr e ↦ rw e (get-rebind i v d k)
]

-- The binding says what its project requires, and this fits the environment.
abbrev pub Fits : Packaging → RuntimeProfileVersion → RevisionRuntimeProfile → Type 0
Fits p v b =
    (requires_python : String) × (dependencies : List String) × (b.validation_result.requires_python
      ≡ some requires_python)
    × (b.validation_result.dependencies ≡ some dependencies)
    × (no_errors (validate_project_compatibility p v requires_python dependencies) ≡ true)

check_binding-Fits :
    (p : Packaging) (v : RuntimeProfileVersion) (b : RevisionRuntimeProfile)
    → check_binding p v b ≡ ok tt
    → Fits p v b
unfolding check_binding
check_binding-Fits p v b h =
    let (requires_python, e, h1) =
      >>=-eq-ok (or_raise b.validation_result.requires_python metadata_missing) _ h in
    let (dependencies, e', h2) =
      >>=-eq-ok (or_raise b.validation_result.dependencies metadata_missing) _ h1 in
    (
      requires_python,
      dependencies,
      or_raise-eq-ok _ _ e,
      or_raise-eq-ok _ _ e',
      require-eq-ok _ _ h2,
    )

check_bindings-Fits :
    (p : Packaging) (v : RuntimeProfileVersion) (bs : List RevisionRuntimeProfile)
    → check_bindings p v bs ≡ ok tt
    → All (Fits p v) bs
unfolding check_bindings
check_bindings-Fits p v [] h = tt
check_bindings-Fits p v (b ∷ bs) h =
    let (_, first, rest) = >>=-eq-ok (check_binding p v b) _ h in
    (check_binding-Fits p v b first, check_bindings-Fits p v bs rest)

tracking-get :
    (P : RevisionRuntimeProfile → Type 0) (i : ℕ) (d : Dict ℕ RevisionRuntimeProfile) (k : ℕ)
    (b : RevisionRuntimeProfile)
    → All P (tracking i d)
    → get d k ≡ some b
    → tracks i b ≡ true
    → P b
unfolding tracking get
tracking-get P i [] k b h at on = cc
tracking-get P i ((j, c) ∷ d) k b h at on = elim (Bool-cases (k =? j)) [
  | inl e ↦
      let here : some c ≡ some b = (rw e at at) in
      let same : c ≡ b = ground arith in
      let tracked : tracks i c ≡ true = subst (λ o. tracks i o ≡ true) (sym same) on in
      let all : P c × All P (tracking i d) = rw tracked at h in subst P same all.0
  | inr e ↦ elim (Bool-cases (tracks i c)) [
    | inl on_label ↦
        let all : P c × All P (tracking i d) = rw on_label at h in
        tracking-get P i d k b all.1 (rw e at at) on
    | inr off_label ↦ tracking-get P i d k b (rw off_label at h) (rw e at at) on
  ]
]

-- The label points to the version, and the version is ACTIVE.
abbrev pub Points : ℕ → RuntimeProfileVersion → Database → Type 0
Points k v db =
    (l : RuntimeLabel) × (get db.labels v.label_id ≡ some l)
    × (l.active_version_id ≡ some k)
    × (get db.versions k ≡ some (activated_version v))

-- A binding that stood under a key has moved to the version, which its project fits, or it does
-- not follow the label and stands there still.
abbrev pub Follows :
    Packaging
    → ℕ
    → RuntimeProfileVersion
    → Dict ℕ RevisionRuntimeProfile
    → ℕ
    → RevisionRuntimeProfile
    → Type 0
Follows p k v bindings j b =
    ((tracks v.label_id b ≡ true)
      × (c : RevisionRuntimeProfile) × (get bindings j ≡ some c)
      × (c.runtime_profile_version_id ≡ k)
      × Fits p v b)
    ⊎ ((tracks v.label_id b ≡ false) × (get bindings j ≡ some b))

rebind-Follows :
    (p : Packaging) (k j : ℕ) (v : RuntimeProfileVersion) (d : Dict ℕ RevisionRuntimeProfile)
    (b : RevisionRuntimeProfile)
    → v.id ≡ k
    → get d j ≡ some b
    → All (Fits p v) (tracking v.label_id d)
    → Follows p k v (rebind v.label_id v d) j b
rebind-Follows p k j v d b own at fits =
    let moved_to = get-rebind v.label_id v d j ∙ ap (map_binding (after v.label_id v)) at in
    elim (Bool-cases (tracks v.label_id b)) [
      | inl on ↦ inl (
        on,
        rebound v b,
        moved_to ∙ ap (λ t. some (if t then rebound v b else b)) on,
        own,
        tracking-get (Fits p v) v.label_id d j b fits at on,
      )
      | inr off ↦ inr (off, moved_to ∙ ap (λ t. some (if t then rebound v b else b)) off)
    ]

-- After a version was activated, which stands under its id: it is ACTIVE and its label points to
-- it; a binding that follows the label is bound to it, and says what its project requires, which
-- fits the environment; any other binding is as before.
pub activate_runtime_profile_binds :
    (p : Packaging) (k j : ℕ) (db db' : Database)
    (x : RuntimeProfileRecord × Option (ℕ × RuntimeProfileVersion) × ℕ) (v : RuntimeProfileVersion)
    (b : RevisionRuntimeProfile)
    → get db.versions k ≡ some v
    → v.id ≡ k
    → get db.bindings j ≡ some b
    → activate_runtime_profile p k db ≡ ok (x, db')
    → Points k v db' × Follows p k v db'.bindings j b
unfolding moved
activate_runtime_profile_binds p k j db db' x v b found own at h =
    let (w, l, there, _, label, passed, e) = activate_runtime_profile-eq-ok p k db db' x h in
    let same : w ≡ v = ground (arith, there, found) in
    let old = find_old l.active_version_id db.versions in
    subst (λ d. Points k v d × Follows p k v d.bindings j b) e
      (
        (
          pointing l k,
          ap
                (λ u.
                  get (put db.labels (RuntimeProfileVersion.label_id w) (pointing l k))
                    (RuntimeProfileVersion.label_id u))
                (sym same)
              ∙ get-put_self db.labels w.label_id (pointing l k),
          refl,
          release_old_self db.versions k (references_of old (moved k l w db)) (activated_version w)
                old
              ∙ ap (λ u. some (activated_version u)) same,
        ),
        subst (λ u. Follows p k v (rebind u.label_id u db.bindings) j b) (sym same)
            (rebind-Follows p k j v db.bindings b own at (
              check_bindings-Fits p v _ (
                subst (λ u. check_bindings p u (tracking u.label_id db.bindings) ≡ ok tt) same
                  passed))),
      )
