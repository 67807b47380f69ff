-- ===== src/Repository/Routes/Available.antt =====
-- repository.py: what a passed `_assert_grpc_routes_available` says of the routes that are
-- published.
use pyscripts.Base.{
  ℕ, true, false, String, Option, none, some, List, [], ◌∷◌, ◌++◌, ◌≡◌, refl, subst, arith,
  string_eq, nat_eq, ◌=?◌, contains, All, Bool-cases, inl, inr, if◌then◌else◌,
}
use pyscripts.Base.Dict.{Dict, get, get-cons}
use pyscripts.Base.Result.{ok}
use pyscripts.Repository.Rows.{Service, Revision, Database, is_active_service, is_active_revision}
use pyscripts.Repository.Manifest.{grpc_method_paths}
use pyscripts.Repository.Routes.{
  Row, is_empty, intersect, joined, row_of, other_rows, insert_row, order_rows, check_rows, text_le,
  assert_grpc_routes_available,
}

-- The routes that a service publishes: those of its active revision, while both are ACTIVE.
abbrev pub routes_at : Option Revision → List String
routes_at none = []
routes_at (some r) = if is_active_revision r.status then grpc_method_paths r else []

abbrev pub pointed : Dict ℕ Revision → Option ℕ → List String
pointed revisions none = []
pointed revisions (some r) = routes_at (get revisions r)

abbrev pub routes_of : Dict ℕ Revision → Option Service → List String
routes_of revisions none = []
routes_of revisions (some s) =
    if is_active_service s.status then pointed revisions s.active_revision_id else []

abbrev pub published : Database → ℕ → List String
published db k = routes_of db.revisions (get db.services k)

intersect_empty :
    (xs ys : List String) (p : String)
    → is_empty (intersect xs ys) ≡ true
    → contains xs p ≡ true
    → contains ys p ≡ false
intersect_empty [] ys p e h = cc
intersect_empty (x ∷ xs) ys p e h = ground (arith, intersect_empty xs ys p)

-- no path in common
abbrev Free : List String → Row → Type 0
Free paths row = is_empty (intersect paths (grpc_method_paths row.1)) ≡ true

check_rows-Free :
    (services paths : List String) (rows : List Row)
    → check_rows services paths rows ≡ ok tt
    → All (Free paths) rows
unfolding check_rows
check_rows-Free services paths [] h = tt
check_rows-Free services paths ((n, r) ∷ rows) h =
    ground (arith, check_rows-Free services paths rows)

module _ (P : Row → Type 0) where
  insert_row-All : (r : Row) (rows : List Row) → All P (insert_row r rows) → P r × All P rows
  unfolding insert_row
  insert_row-All r [] h = h
  insert_row-All r (q ∷ qs) h = elim (Bool-cases (text_le r.0 q.0)) [
    | inl e ↦ rw e at h
    | inr e ↦
        let g : P q × All P (insert_row r qs) = rw e at h in
        let (here, rest) = insert_row-All r qs g.1 in (here, (g.0, rest))
  ]

  order_rows-All : (rows : List Row) → All P (order_rows rows) → All P rows
  unfolding order_rows
  order_rows-All [] h = tt
  order_rows-All (r ∷ rows) h =
      let (here, rest) = insert_row-All r (order_rows rows) h in (here, order_rows-All rows rest)

  append-All : (xs ys : List Row) → All P (xs ++ ys) → All P xs × All P ys
  append-All [] ys h = (tt, h)
  append-All (x ∷ xs) ys h = let (a, b) = append-All xs ys h.1 in ((h.0, a), b)

other_rows-get :
    (P : Row → Type 0) (candidate j : ℕ) (R : Dict ℕ Revision) (S : Dict ℕ Service) (s : Service)
    → All P (other_rows candidate R S)
    → get S j ≡ some s
    → (s.id =? candidate) ≡ false
    → is_active_service s.status ≡ true
    → All P (joined R s s.active_revision_id)
unfolding other_rows get
other_rows-get P c j R [] s h e ne act = cc
other_rows-get P c j R ((k, t) ∷ d) s h e ne act = elim (Bool-cases (t.id =? c)) [
  | inl same ↦ other_rows-get P c j R d s (rw same at h) (ground arith) ne act
  | inr other ↦ elim (Bool-cases (is_active_service t.status)) [
    | inl on ↦
        let g : All P (joined R t t.active_revision_id ++ other_rows c R d) = rw (other, on) at h in
        let (here, rest) = append-All P (joined R t t.active_revision_id) _ g in
        elim (get-cons k j t s d e) [
          | inl same ↦ subst (λ u. All P (joined R u u.active_revision_id)) same here
          | inr later ↦ other_rows-get P c j R d s rest later ne act
        ]
    | inr off ↦ other_rows-get P c j R d s (rw (other, off) at h) (ground arith) ne act
  ]
]

module _ (paths : List String) (s : Service) (p : String) (c : contains paths p ≡ true) where
  row_of-Free :
      (o : Option Revision) → All (Free paths) (row_of s o) → contains (routes_at o) p ≡ false
  unfolding row_of
  row_of-Free none h = refl
  row_of-Free (some r) h = elim (Bool-cases (is_active_revision r.status)) [
    | inl on ↦
        let g : All (Free paths) ((s.name, r) ∷ []) = rw on at h in
        rw on (intersect_empty paths (grpc_method_paths r) p g.0 c)
    | inr off ↦ rw off
  ]

  joined-Free :
      (R : Dict ℕ Revision) (o : Option ℕ)
      → All (Free paths) (joined R s o)
      → contains (pointed R o) p ≡ false
  unfolding joined
  joined-Free R none h = refl
  joined-Free R (some k) h = row_of-Free (get R k) h

available-some :
    (db : Database) (candidate : Service) (paths services : List String) (j : ℕ) (p : String)
    (o : Option Service)
    → get db.services j ≡ o
    → ((s : Service) → o ≡ some s → (s.id =? candidate.id) ≡ false)
    → All (Free paths) (other_rows candidate.id db.revisions db.services)
    → contains paths p ≡ true
    → contains (routes_of db.revisions o) p ≡ false
available-some db candidate paths services j p none e other h c = refl
available-some db candidate paths services j p (some s) e other h c =
    elim (Bool-cases (is_active_service s.status)) [
      | inl on ↦ rw on (
          joined-Free paths s p c db.revisions s.active_revision_id (
            other_rows-get (Free paths) candidate.id j db.revisions db.services s h e (other s refl)
              on))
      | inr off ↦ rw off
    ]

-- After the test passed, no path of the candidate is published by a service of another id.
pub available_free :
    (db : Database) (candidate : Service) (paths services : List String) (j : ℕ) (p : String)
    → ((s : Service) → get db.services j ≡ some s → (s.id =? candidate.id) ≡ false)
    → assert_grpc_routes_available db candidate paths services ≡ ok tt
    → contains paths p ≡ true
    → contains (published db j) p ≡ false
unfolding assert_grpc_routes_available
available_free db candidate [] services j p other h c = cc
available_free db candidate (x ∷ xs) services j p other h c =
    let rows = other_rows candidate.id db.revisions db.services in
    available-some db candidate (x ∷ xs) services j p _ refl other
      (order_rows-All (Free (x ∷ xs)) rows (check_rows-Free services (x ∷ xs) (order_rows rows) h))
      c
