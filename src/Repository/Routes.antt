-- ===== src/Repository/Routes.antt =====
-- repository.py `_assert_grpc_routes_available`: one service to a gRPC route.
pub mod Available
use Prim.Native.String.{compare}
use Prim.Native.Nat.{Ordering}
use pyscripts.Base.{
  ℕ, Bool, true, false, not, String, Option, none, some, List, [], ◌∷◌, ◌++◌, ◌≡◌, refl, ◌≢◌, arith,
  string_eq, nat_eq, ◌=?◌, contains, select, All, if◌then◌else◌,
}
use pyscripts.Base.Dict.{Dict, get}
use pyscripts.Base.Result.{Result, ok, err}
use pyscripts.Repository.Rows.{
  Service, Revision, Database, Error, grpc_service_taken, grpc_method_taken, is_active_service,
  is_active_revision,
}
use pyscripts.Repository.Manifest.{grpc_method_paths, grpc_service_names}

abbrev pub is_empty {ℓ} : {A : Type ℓ} → List A → Bool
is_empty [] = true
is_empty (x ∷ xs) = false

-- `a & b` on sets
abbrev pub intersect : List String → List String → List String
intersect xs ys = select (contains ys) xs

-- `s <= t` on texts
abbrev pub text_le : String → String → Bool
text_le s t = elim (compare s t) [ Ordering.gt ↦ false | _ ↦ true ]

-- `min` of the set with this member
least : String → List String → String
least s [] = s
least s (t ∷ ts) = least (if text_le s t then s else t) ts

first_of_set : List String → String
unfolding least
first_of_set [] = ""
first_of_set (s ∷ ss) = least s ss

abbrev pub Row : Type 0
Row = String × Revision

-- the join of a service with its active revision, under the conditions of the query
pub row_of : Service → Option Revision → List Row
row_of s none = []
row_of s (some r) = if is_active_revision r.status then (s.name, r) ∷ [] else []

unfoldable pub joined : Dict ℕ Revision → Service → Option ℕ → List Row
unfolding row_of
joined revisions s none = []
joined revisions s (some k) = row_of s (get revisions k)

pub other_rows : ℕ → Dict ℕ Revision → Dict ℕ Service → List Row
other_rows candidate revisions [] = []
other_rows candidate revisions ((k, s) ∷ d) =
    let rest = other_rows candidate revisions d in
    if s.id =? candidate
    then rest
    else if is_active_service s.status
    then joined revisions s s.active_revision_id ++ rest
    else rest

-- `.order_by(Service.name)`
pub insert_row : Row → List Row → List Row
insert_row r [] = r ∷ []
insert_row r (q ∷ qs) = if text_le r.0 q.0 then r ∷ q ∷ qs else q ∷ insert_row r qs

pub order_rows : List Row → List Row
unfolding insert_row
order_rows [] = []
order_rows (r ∷ rs) = insert_row r (order_rows rs)

-- the loop over the rows
pub check_rows : (services paths : List String) → List Row → Result Error (Unit {0})
unfolding first_of_set
check_rows services paths [] = ok tt
check_rows services paths ((name, r) ∷ rows) =
    let rest = check_rows services paths rows in
    let taken = intersect services (grpc_service_names r) in
    let conflicts = intersect paths (grpc_method_paths r) in
    if not (is_empty taken)
    then err (grpc_service_taken (first_of_set taken) name)
    else if not (is_empty conflicts)
    then err (grpc_method_taken (first_of_set conflicts) name)
    else rest

unfoldable pub assert_grpc_routes_available :
    Database → Service → (paths services : List String) → Result Error (Unit {0})
unfolding other_rows joined order_rows check_rows
assert_grpc_routes_available db candidate paths services =
    if is_empty paths
    then ok tt
    else check_rows services paths (order_rows (other_rows candidate.id db.revisions db.services))
