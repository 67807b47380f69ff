-- ===== src/Repository/Contracts.antt =====
-- repository.py `register_contract`: the published gRPC contracts of a service.
use pyscripts.Base.{
  ℕ, Bool, false, not, ◌&&◌, ◌||◌, String, Option, none, some, List, [], ◌∷◌, ◌++◌, ◌≡◌, arith,
  string_eq, nat_eq, ◌=?◌, leb, if◌then◌else◌,
}
use pyscripts.Base.Dict.{Dict, get, put}
use pyscripts.Base.Result.{Result, ok, err, ◌>>◌, or_raise, require, >>=-eq-ok}
use pyscripts.Repository.Rows.{
  ApiContract, ContractStatus, Database, Error, Transaction, digest_published, version_not_newer,
  integrity, contract_ready,
}

-- `PublishedContract`
pub record PublishedContract : Type 0 where
  pub contract_version : String
  pub schema_digest : String
  pub source_digest : String
  pub descriptor_uri : String
  pub proto_bundle_uri : String
  pub proto_bundle_digest : String
  pub methods : List String

-- the row with this service and digest, which are unique together
unfoldable pub find_digest : ℕ → String → Dict ℕ ApiContract → Option (ℕ × ApiContract)
find_digest service_id digest [] = none
find_digest service_id digest ((k, c) ∷ d) =
    if c.service_id =? service_id && c.schema_digest =? digest
    then some (k, c)
    else find_digest service_id digest d

-- of two contracts the later one; the first where they are of one instant
later : ApiContract → Option ApiContract → ApiContract
later c none = c
later c (some b) = if leb b.created_at c.created_at then c else b

-- `order_by(created_at.desc()).limit(1)`
unfoldable pub latest : ℕ → Dict ℕ ApiContract → Option ApiContract
unfolding later
latest service_id [] = none
latest service_id ((k, c) ∷ d) =
    let rest = latest service_id d in
    if c.service_id =? service_id then some (later c rest) else rest

-- `uq_contract_service_version`. The foreign key needs the service.
version_taken : ℕ → String → Dict ℕ ApiContract → Bool
version_taken service_id version [] = false
version_taken service_id version ((k, c) ∷ d) =
    (c.service_id =? service_id && c.contract_version =? version)
    || version_taken service_id version d

abbrev pub refreshed : PublishedContract → ApiContract → ApiContract
refreshed p c = record c {
  descriptor_uri = p.descriptor_uri;
  proto_bundle_uri = p.proto_bundle_uri;
  proto_bundle_digest = some p.proto_bundle_digest;
  source_digest = p.source_digest;
}

abbrev pub new_contract : ℕ → ℕ → ℕ → PublishedContract → ApiContract
new_contract id now service_id p = record {
  id = id;
  service_id = service_id;
  schema_digest = p.schema_digest;
  source_digest = p.source_digest;
  contract_version = p.contract_version;
  descriptor_uri = p.descriptor_uri;
  proto_bundle_uri = p.proto_bundle_uri;
  proto_bundle_digest = some p.proto_bundle_digest;
  methods = p.methods;
  status = ContractStatus.ready;
  created_at = now;
}

-- the branch where the digest is published already
reuse : PublishedContract → ℕ × ApiContract → Transaction ApiContract
reuse p (k, c) db =
    if c.contract_version =? p.contract_version
    then ok (refreshed p c, record db { contracts = put db.contracts k (refreshed p c) })
    else err (digest_published c.contract_version)

-- `version_le a b` is `Version(a) <= Version(b)` of the package `packaging`.
module _ (version_le : String → String → Bool) where
  newer : PublishedContract → Option ApiContract → Result Error (Unit {0})
  newer p none = ok tt
  newer p (some c) =
      if version_le p.contract_version c.contract_version
      then err (version_not_newer c.contract_version)
      else ok tt

  issue : ℕ → ℕ → ℕ → PublishedContract → Transaction ApiContract
  unfolding latest newer version_taken
  issue id now service_id p db = do
    newer p (latest service_id db.contracts)
    or_raise (get db.services service_id) integrity
    require (not (version_taken service_id p.contract_version db.contracts)) integrity
    ok (
      new_contract id now service_id p,
      record db {
        contracts = put db.contracts id (new_contract id now service_id p);
        outbox =
            db.outbox
            ++ contract_ready service_id id p.schema_digest (some p.proto_bundle_digest) ∷ [];
      },
    )

  settle : ℕ → ℕ → ℕ → PublishedContract → Option (ℕ × ApiContract) → Transaction ApiContract
  unfolding reuse issue
  settle id now service_id p none db = issue id now service_id p db
  settle id now service_id p (some old) db = reuse p old db

  unfoldable pub register_contract :
      (id now service_id : ℕ) → PublishedContract → Transaction ApiContract
  unfolding find_digest settle
  register_contract id now service_id p db =
      settle id now service_id p (find_digest service_id p.schema_digest db.contracts) db

  issue-ok :
      (id now k : ℕ) (p : PublishedContract) (db db' : Database) (c : ApiContract)
      → issue id now k p db ≡ ok (c, db')
      → (newer p (latest k db.contracts) ≡ ok tt)
        × (new_contract id now k p ≡ c)
        × (db'.contracts ≡ put db.contracts id c)
        × (db'.services ≡ db.services)
        × (db'.revisions ≡ db.revisions)
  unfolding issue
  issue-ok id now k p db db' c h =
      let (_, fresh, h1) = >>=-eq-ok (newer p (latest k db.contracts)) _ h in
      let (s, _, h2) = >>=-eq-ok (or_raise (get db.services k) integrity) _ h1 in
      let (_, _, h3) =
        >>=-eq-ok (require (not (version_taken k p.contract_version db.contracts)) integrity) _
          h2 in
      (fresh, ground arith, ground arith, ground arith, ground arith)

  reuse-ok :
      (p : PublishedContract) (q : ℕ × ApiContract) (db db' : Database) (c : ApiContract)
      → reuse p q db ≡ ok (c, db')
      → (refreshed p q.1 ≡ c)
        × (db'.contracts ≡ put db.contracts q.0 c)
        × (db'.services ≡ db.services)
        × (db'.revisions ≡ db.revisions)
  unfolding reuse
  reuse-ok p (i, q) db db' c h = (ground arith, ground arith, ground arith, ground arith)

  settle-keeps :
      (id now k : ℕ) (p : PublishedContract) (o : Option (ℕ × ApiContract)) (db db' : Database)
      (c : ApiContract)
      → settle id now k p o db ≡ ok (c, db')
      → (db'.services ≡ db.services) × (db'.revisions ≡ db.revisions)
  unfolding settle
  settle-keeps id now k p none db db' c h =
      let (_, _, _, es, er) = issue-ok id now k p db db' c h in (es, er)
  settle-keeps id now k p (some q) db db' c h =
      let (_, _, es, er) = reuse-ok p q db db' c h in (es, er)

  -- Registering touches no service and no revision.
  pub register_contract-keeps :
      (id now k : ℕ) (p : PublishedContract) (db db' : Database) (c : ApiContract)
      → register_contract id now k p db ≡ ok (c, db')
      → (db'.services ≡ db.services) × (db'.revisions ≡ db.revisions)
  unfolding register_contract
  register_contract-keeps id now k p db db' c h =
      settle-keeps id now k p (find_digest k p.schema_digest db.contracts) db db' c h
