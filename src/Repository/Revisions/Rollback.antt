-- ===== src/Repository/Revisions/Rollback.antt =====
-- repository.py `activate_revision`: the revision that an activation replaces.
use pyscripts.Base.{ℕ, false, some, ◌≡◌, refl, ◌≢◌, ap, ◌∙◌, arith, nat_eq, test_refl}
use pyscripts.Base.Dict.{Dict, get, put, get-put_self, get-put_ne}
use pyscripts.Base.Result.{ok, err}
use pyscripts.Repository.Rows.{
  Service, Revision, Database, RevisionStatus, is_activatable, cannot_activate,
}
use pyscripts.Repository.Revisions.{
  drain_row, drain_old, activated, pointed_to, activate_revision, owned,
}
use pyscripts.Repository.Revisions.Activation.{activate_revision-ok}

abbrev drained : Revision → Revision
drained u = record u { status = RevisionStatus.draining }

replaced :
    (R : Dict ℕ Revision) (q r : ℕ) (u v : Revision)
    → get R q ≡ some u
    → q ≢ r
    → get (put (drain_old R (some q) r) r v) q ≡ some (drained u)
unfolding drain_old drain_row
replaced R q r u v at ne = get-put_ne _ r q v ne ∙ ground (arith, get-put_self R q (drained u))

refused :
    (now k q : ℕ) (db : Database) (s : Service) (u : Revision)
    → get db.services k ≡ some s
    → get db.revisions q ≡ some u
    → u.service_id ≡ k
    → is_activatable u.status ≡ false
    → activate_revision now k q db ≡ err (cannot_activate u.status)
unfolding activate_revision owned
refused now k q db s u at_s at_q own off = ground (arith, test_refl k)

-- After the active revision `q` of a service was replaced by another, it is DRAINING, and an
-- activation of it is refused.
pub activate_revision_replaced :
    (now now' k q r : ℕ) (db db' : Database) (s : Service) (u v : Revision)
    → get db.services k ≡ some s
    → s.active_revision_id ≡ some q
    → q ≢ r
    → get db.revisions q ≡ some u
    → u.service_id ≡ k
    → activate_revision now k r db ≡ ok (v, db')
    → (get db'.revisions q ≡ some (record u { status = RevisionStatus.draining }))
      × (activate_revision now' k q db' ≡ err (cannot_activate RevisionStatus.draining))
activate_revision_replaced now now' k q r db db' s u v at to ne at_q own h =
    let (t, w, at_t, _, _, _, es, er) = activate_revision-ok now k r db db' v h in
    let same : t.active_revision_id ≡ some q = ground arith in
    let left : get db'.revisions q ≡ some (drained u) =
      ap (λ d. get d q) er
      ∙ ap (λ o. get (put (drain_old db.revisions o r) r (activated now w)) q) same
      ∙ replaced db.revisions q r u (activated now w) at_q ne in
    let found : get db'.services k ≡ some (pointed_to r t) =
      ap (λ d. get d k) es ∙ get-put_self db.services k (pointed_to r t) in
    (left, refused now' k q db' (pointed_to r t) (drained u) found left own refl)
