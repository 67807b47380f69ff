-- ===== src/Repository/Manifest.antt =====
-- repository.py: what a revision's manifest says of its interface and of its gRPC routes.
use Prim.Native.String.{◌++◌ as ◌<>◌}
use pyscripts.Base.{
  Bool, false, ◌==◌, ◌&&◌, ◌++◌, String, Option, none, some, List, [], ◌∷◌, string_eq,
}
use pyscripts.Base.Int.{pos}
use pyscripts.Json.{Value, integer, float, text, array, object, Items, nil, cons, field_of}
use pyscripts.Repository.Rows.{Revision}

-- `value == 2`: an int, or the double 2.0
abbrev pub equals_two : Option Value → Bool
equals_two (some (integer (pos n))) = n == 2
equals_two (some (float false e m)) = e == 1024 && m == 0
equals_two _ = false

abbrev pub is_current_manifest : Value → Bool
is_current_manifest (object fs) = equals_two (field_of fs "spec_version")
is_current_manifest _ = false

-- `_supports_current_interface`
unfoldable pub supports_current_interface : Revision → Bool
unfolding field_of
supports_current_interface r = is_current_manifest r.manifest

-- `manifest.get("endpoints", [])`: the manifest is an object, and its endpoints are an array.
pub items_of : Option Value → Items
items_of (some (array xs)) = xs
items_of _ = nil

unfoldable pub manifest_endpoints : Value → Items
unfolding items_of field_of
manifest_endpoints (object fs) = items_of (field_of fs "endpoints")
manifest_endpoints _ = nil

-- The "grpc" object of an endpoint, which is an object: what stands under a name in it, if that is a text
grpc_text : String → Value → Option String
unfolding field_of
grpc_text name (object fs) = elim (field_of fs "grpc") [
  | some (object grpc) ↦ elim (field_of grpc name) [ some (text s) ↦ some s | _ ↦ none ]
  | _ ↦ none
]
grpc_text name _ = none

path_of : Option String → Option String → List String
path_of (some service) (some method) = ("/" <> service <> "/" <> method) ∷ []
path_of _ _ = []

name_of : Option String → List String
name_of (some service) = service ∷ []
name_of none = []

pub paths_of_items : Items → List String
paths_of_items nil = []
paths_of_items (cons v xs) =
    path_of (grpc_text "service" v) (grpc_text "method" v) ++ paths_of_items xs

names_of_items : Items → List String
names_of_items nil = []
names_of_items (cons v xs) = name_of (grpc_text "service" v) ++ names_of_items xs

-- `_grpc_method_paths`, a set
unfoldable pub grpc_method_paths : Revision → List String
unfolding paths_of_items path_of grpc_text manifest_endpoints
grpc_method_paths r = paths_of_items (manifest_endpoints r.manifest)

-- `_grpc_service_names`, a set
unfoldable pub grpc_service_names : Revision → List String
unfolding names_of_items name_of grpc_text manifest_endpoints
grpc_service_names r = names_of_items (manifest_endpoints r.manifest)
