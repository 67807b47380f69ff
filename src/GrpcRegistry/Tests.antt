-- ===== src/GrpcRegistry/Tests.antt =====
-- grpc_gateway/registry.py: the theorem on two targets.
use pyscripts.Base.{◌≡◌, ◌≢◌, true, false, String, none, some, List, [], ◌∷◌, refl, string_eq}
use pyscripts.Base.Result.{ok}
use pyscripts.GrpcRegistry.{ResolvedEndpoint, new_registry, resolve, replace}
use pyscripts.GrpcRegistry.Replaced.{
  paths, duplicated, publisher, routed, replace-resolve, replace_refused,
}

abbrev targets : List ResolvedEndpoint
targets =
    record {
      service_name = "orders";
      revision_id = 10;
      endpoint_id = "orders.get";
      grpc = some ("Orders", "Get");
    }
    ∷ record { service_name = "orders"; revision_id = 10; endpoint_id = "orders.sum"; grpc = none }
    ∷ []

distinct_paths : duplicated (paths targets) ≡ false
distinct_paths = refl

replace-resolve_example :
    ((replace targets new_registry).0 ≡ ok 1)
    × ((replace targets new_registry).1.generation ≡ 1)
    × ((path : String)
        → resolve path (replace targets new_registry).1 ≡ routed path (publisher path targets))
replace-resolve_example = replace-resolve targets new_registry distinct_paths

-- the first target once more, of another service
abbrev clash : List ResolvedEndpoint
clash =
    record {
      service_name = "copies";
      revision_id = 20;
      endpoint_id = "copies.get";
      grpc = some ("Orders", "Get");
    }
    ∷ targets

clash_found : duplicated (paths clash) ≡ true
unfolding string_eq
clash_found = refl

replace_refused_example :
    ((replace clash new_registry).0 ≢ ok 1) × ((replace clash new_registry).1 ≡ new_registry)
replace_refused_example = replace_refused clash new_registry 1 clash_found
