-- ===== src/Repository/Invocations/Retention.antt =====
-- repository.py `_prune_endpoint_invocations`: what pruning leaves alone.
use pyscripts.Base.{
  ℕ, ◌-◌, Bool, false, not, ◌&&◌, ◌≡◌, refl, ap, ◌∙◌, String, Option, none, some, List, [], ◌∷◌,
  string_eq, nat_eq, ◌=?◌, contains, arith, if◌then◌else◌,
}
use pyscripts.Base.Dict.{Dict, NodupKeys, get, get-drop_where, unless}
use pyscripts.Repository.Rows.{Invocation, Database, is_pending}
use pyscripts.Repository.Invocations.{
  is_terminal_of, terminal_of, insert_newest, newest_first, ids_from, prune_endpoint_invocations,
}

abbrev ids : List Invocation → List ℕ
ids [] = []
ids (v ∷ vs) = v.id ∷ ids vs

-- every row stands under its id
abbrev pub Keyed : Dict ℕ Invocation → Type 0
Keyed [] = Unit
Keyed ((k, v) ∷ d) = (v.id ≡ k) × Keyed d

abbrev pub passes : (Invocation → Bool) → Option Invocation → Bool
passes p none = false
passes p (some v) = p v

contains-insert_newest :
    (v : Invocation) (vs : List Invocation) (i : ℕ)
    → contains (ids (insert_newest v vs)) i ≡ contains (ids (v ∷ vs)) i
unfolding insert_newest
contains-insert_newest v [] i = refl
contains-insert_newest v (w ∷ ws) i = ground (arith, contains-insert_newest v ws i)

contains-newest_first :
    (vs : List Invocation) (i : ℕ) → contains (ids (newest_first vs)) i ≡ contains (ids vs) i
unfolding newest_first
contains-newest_first [] i = refl
contains-newest_first (v ∷ vs) i =
    ground (arith, contains-insert_newest v (newest_first vs) i, contains-newest_first vs i)

contains-ids_from :
    (n : ℕ) (vs : List Invocation) (i : ℕ)
    → contains (ids vs) i ≡ false
    → contains (ids_from n vs) i ≡ false
unfolding ids_from
contains-ids_from n [] i h = refl
contains-ids_from n (v ∷ vs) i h = ground (arith, contains-ids_from (n - 1) vs i)

contains-terminal_of :
    (k : ℕ) (e : String) (d : Dict ℕ Invocation) (i : ℕ)
    → NodupKeys d
    → Keyed d
    → contains (ids (terminal_of k e d)) i ≡ passes (is_terminal_of k e) (get d i)
unfolding terminal_of get
contains-terminal_of k e [] i u keyed = refl
contains-terminal_of k e ((j, v) ∷ d) i u keyed =
    ground (arith, contains-terminal_of k e d i u.1 keyed.1, ap (get d) {x = i} {y = j})

get-Keyed : (d : Dict ℕ Invocation) (i : ℕ) (v : Invocation) → Keyed d → get d i ≡ some v → v.id ≡ i
unfolding get
get-Keyed [] i v keyed h = cc
get-Keyed ((j, w) ∷ d) i v keyed h = ground (arith, get-Keyed d i v keyed.1)

-- Pruning an endpoint keeps every invocation that is accepted or running, and every one of another
-- endpoint or service, whatever the number to retain.
pub prune_endpoint_invocations_keeps :
    (k : ℕ) (e : String) (n i : ℕ) (db : Database) (v : Invocation)
    → NodupKeys db.invocations
    → Keyed db.invocations
    → get db.invocations i ≡ some v
    → (v.service_id =? k && (v.endpoint_id =? e && not (is_pending v.status))) ≡ false
    → get (prune_endpoint_invocations k e n db).invocations i ≡ some v
unfolding prune_endpoint_invocations is_terminal_of
prune_endpoint_invocations_keeps k e n i db v u keyed at other =
    let vs = terminal_of k e db.invocations in
    let stale = ids_from n (newest_first vs) in
    let absent : contains (ids (newest_first vs)) i ≡ false =
      contains-newest_first vs i
      ∙ contains-terminal_of k e db.invocations i u keyed
      ∙ ap (passes (is_terminal_of k e)) at
      ∙ other in
    let kept : contains stale v.id ≡ false =
      ap (contains stale) (get-Keyed db.invocations i v keyed at)
      ∙ contains-ids_from n (newest_first vs) i absent in
    get-drop_where (λ w. contains stale w.id) db.invocations i u
    ∙ ap (unless (λ w. contains stale w.id)) at
    ∙ ap (λ b. if b then none else some v) kept
