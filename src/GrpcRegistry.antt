-- ===== src/GrpcRegistry.antt =====
-- src/pyscripts/grpc_gateway/registry.py: the snapshot of the gRPC routes.
pub mod Replaced
mod Tests
use Prim.Native.String.{◌++◌ as ◌<>◌}
use pyscripts.Base.{ℕ, ◌+◌, String, Option, none, some, List, [], ◌∷◌, string_eq}
use pyscripts.Base.Dict.{Dict, get, put}
use pyscripts.Base.Result.{Result, ok, err}

-- repository.py: the fields of `ResolvedEndpoint` that the registry reads, and those that tell
-- which endpoint it is; `grpc` has the entries "service" and "method"
pub record ResolvedEndpoint : Type 0 where
  pub service_name : String
  pub revision_id : ℕ
  pub endpoint_id : String
  pub grpc : Option (String × String)

pub record GrpcRoute : Type 0 where
  pub method_path : String
  pub target : ResolvedEndpoint

pub record GrpcRouteRegistry : Type 0 where
  pub routes : Dict String GrpcRoute
  pub generation : ℕ

pub data DuplicateGrpcRouteError : Type 0 where
  published_by_both : (method_path first second : String) → DuplicateGrpcRouteError

abbrev pub new_registry : GrpcRouteRegistry
new_registry = record { routes = []; generation = 0 }

unfoldable pub resolve : String → GrpcRouteRegistry → Option GrpcRoute
resolve path g = get g.routes path

abbrev pub path_of_grpc : String × String → String
path_of_grpc (service, method) = "/" <> service <> "/" <> method

abbrev pub route : String → ResolvedEndpoint → GrpcRoute
route path t = record { method_path = path; target = t }

abbrev pub taken : String → ResolvedEndpoint → GrpcRoute → DuplicateGrpcRouteError
taken path t first = published_by_both path first.target.service_name t.service_name

-- the loop of `replace`
unfoldable pub build :
    Dict String GrpcRoute
    → List ResolvedEndpoint
    → Result DuplicateGrpcRouteError (Dict String GrpcRoute)
build routes [] = ok routes
build routes (t ∷ ts) = elim t.grpc [
  | none ↦ build routes ts
  | some g ↦ elim (get routes (path_of_grpc g)) [
    | some first ↦ err (taken (path_of_grpc g) t first)
    | none ↦ build (put routes (path_of_grpc g) (route (path_of_grpc g) t)) ts
  ]
]

install :
    Result DuplicateGrpcRouteError (Dict String GrpcRoute)
    → GrpcRouteRegistry
    → Result DuplicateGrpcRouteError ℕ × GrpcRouteRegistry
install (err e) g = (err e, g)
install (ok routes) g =
    (ok (g.generation + 1), record { routes = routes; generation = g.generation + 1 })

unfoldable pub replace :
    List ResolvedEndpoint → GrpcRouteRegistry → Result DuplicateGrpcRouteError ℕ × GrpcRouteRegistry
unfolding build install
replace targets g = install (build [] targets) g
