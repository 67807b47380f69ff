-- ===== src/GrpcRegistry/Replaced.antt =====
-- grpc_gateway/registry.py `replace`: when it is refused, and what `resolve` finds after it.
use pyscripts.Base.{
  ℕ, ◌+◌, Bool, true, false, not, ◌||◌, ◌≡◌, ◌≢◌, refl, ap, ◌∙◌, String, Option, none, some, List,
  [], ◌∷◌, string_eq, ◌=?◌, contains, arith, inl, inr, Option-cases, if◌then◌else◌,
}
use pyscripts.Base.Dict.{Dict, get, put, get-put}
use pyscripts.Base.Result.{Result, ok, err}
use pyscripts.GrpcRegistry.{
  ResolvedEndpoint, GrpcRoute, GrpcRouteRegistry, DuplicateGrpcRouteError, resolve, path_of_grpc,
  route, taken, build, install, replace,
}

-- the paths that the targets publish, one for each that has a gRPC method
abbrev pub paths : List ResolvedEndpoint → List String
paths [] = []
paths (t ∷ ts) = let rest = paths ts in elim t.grpc [ none ↦ rest | some g ↦ path_of_grpc g ∷ rest ]

-- a path stands twice
abbrev pub duplicated : List String → Bool
duplicated [] = false
duplicated (p ∷ ps) = contains ps p || duplicated ps

abbrev pub publishes : String → Option (String × String) → Bool
publishes path none = false
publishes path (some g) = path =? path_of_grpc g

-- the first target that publishes a path
abbrev pub publisher : String → List ResolvedEndpoint → Option ResolvedEndpoint
publisher path [] = none
publisher path (t ∷ ts) =
    let rest = publisher path ts in if publishes path t.grpc then some t else rest

abbrev pub routed : String → Option ResolvedEndpoint → Option GrpcRoute
routed path none = none
routed path (some t) = some (route path t)

abbrev is_ok : {A : Type 0} → Result DuplicateGrpcRouteError A → Bool
is_ok (ok a) = true
is_ok (err e) = false

abbrev has : Option GrpcRoute → Bool
has none = false
has (some r) = true

-- one of the paths is routed already
abbrev overlaps : Dict String GrpcRoute → List String → Bool
overlaps routes [] = false
overlaps routes (p ∷ ps) = has (get routes p) || overlaps routes ps

overlaps-put :
    (routes : Dict String GrpcRoute) (p : String) (r : GrpcRoute) (ps : List String)
    → overlaps (put routes p r) ps ≡ (contains ps p || overlaps routes ps)
overlaps-put routes p r [] = refl
overlaps-put routes p r (q ∷ ps) = ground (arith, get-put routes p q r, overlaps-put routes p r ps)

build-is_ok :
    (routes : Dict String GrpcRoute) (ts : List ResolvedEndpoint)
    → is_ok (build routes ts) ≡ not (overlaps routes (paths ts) || duplicated (paths ts))
unfolding build
build-is_ok routes [] = refl
build-is_ok routes (t ∷ ts) = elim (Option-cases t.grpc) [
  | inl e ↦ rw (build, e) (build-is_ok routes ts)
  | inr (g, e) ↦
      let p = path_of_grpc g in
      let r = route p t in
      elim (Option-cases (get routes p)) [
        | inl f ↦
            rw (build, e, f)
              (build-is_ok (put routes p r) ts ∙ ground (arith, overlaps-put routes p r (paths ts)))
        | inr (first, f) ↦ rw (build, e, f) refl
      ]
]

abbrev first_of : Option GrpcRoute → Option GrpcRoute → Option GrpcRoute
first_of none b = b
first_of (some a) b = some a

build-get :
    (routes built : Dict String GrpcRoute) (ts : List ResolvedEndpoint) (path : String)
    → build routes ts ≡ ok built
    → get built path ≡ first_of (get routes path) (routed path (publisher path ts))
unfolding build
build-get routes built [] path h = elim (Option-cases (get routes path)) [
  | inl e ↦ ground arith
  | inr (r, e) ↦ ground arith
]
build-get routes built (t ∷ ts) path h = elim (Option-cases t.grpc) [
  | inl e ↦ rw e (build-get routes built ts path (rw (build, e) at h))
  | inr (g, e) ↦
      let p = path_of_grpc g in
      let r = route p t in
      elim (Option-cases (get routes p)) [
        | inl f ↦
            let rest : build (put routes p r) ts ≡ ok built = rw (build, e, f) at h in
            let now = build-get (put routes p r) built ts path rest in
            rw e (ground (arith, now, get-put routes p path r, ap (get routes) {x = path} {y = p}))
        | inr (first, f) ↦ let no : err (taken p t first) ≡ ok built = rw (build, e, f) at h in cc
      ]
]

no-overlaps : (ps : List String) → overlaps [] ps ≡ false
unfolding get
no-overlaps [] = refl
no-overlaps (p ∷ ps) = no-overlaps ps

install_refused :
    (o : Result DuplicateGrpcRouteError (Dict String GrpcRoute)) (g : GrpcRouteRegistry) (n : ℕ)
    → is_ok o ≡ false
    → ((install o g).0 ≢ ok n) × ((install o g).1 ≡ g)
unfolding install
install_refused (ok built) g n h = cc
install_refused (err x) g n h = ((λ e. cc), refl)

install_passed :
    (o : Result DuplicateGrpcRouteError (Dict String GrpcRoute)) (g : GrpcRouteRegistry)
    (expected : String → Option GrpcRoute)
    → is_ok o ≡ true
    → ((built : Dict String GrpcRoute) (path : String)
        → o ≡ ok built
        → get built path ≡ expected path)
    → ((install o g).0 ≡ ok (g.generation + 1))
      × ((install o g).1.generation ≡ g.generation + 1)
      × ((path : String) → resolve path (install o g).1 ≡ expected path)
unfolding install resolve
install_passed (ok built) g expected h law = (refl, refl, (λ path. law built path refl))
install_passed (err x) g expected h law = cc

-- If two targets publish one path, `replace` raises, and the registry is what it was.
pub replace_refused :
    (ts : List ResolvedEndpoint) (g : GrpcRouteRegistry) (n : ℕ)
    → duplicated (paths ts) ≡ true
    → ((replace ts g).0 ≢ ok n) × ((replace ts g).1 ≡ g)
unfolding replace
replace_refused ts g n e = install_refused (build [] ts) g n (
    build-is_ok [] ts
    ∙ ap (λ b. not (b || duplicated (paths ts))) (no-overlaps (paths ts))
    ∙ ap not e)

-- If no two targets publish one path, `replace` returns the next generation, and then `resolve`
-- finds for every path the target that publishes it, or nothing.
pub replace-resolve :
    (ts : List ResolvedEndpoint) (g : GrpcRouteRegistry)
    → duplicated (paths ts) ≡ false
    → ((replace ts g).0 ≡ ok (g.generation + 1))
      × ((replace ts g).1.generation ≡ g.generation + 1)
      × ((path : String) → resolve path (replace ts g).1 ≡ routed path (publisher path ts))
unfolding replace get
replace-resolve ts g e =
    install_passed (build [] ts) g (λ path. routed path (publisher path ts))
      (build-is_ok [] ts
        ∙ ap (λ b. not (b || duplicated (paths ts))) (no-overlaps (paths ts))
        ∙ ap not e)
      (λ built path h. build-get [] built ts path h)
