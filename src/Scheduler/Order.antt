-- ===== src/Scheduler/Order.antt =====
-- directory.py `_order_candidates`: the order in which actors are asked.
use pyscripts.Base.{
  ℕ, zero, suc, ◌≡◌, refl, not, some, none, Bool, true, false, ◌&&◌, ◌||◌, Option, List, [], ◌∷◌,
  All, select, ltb, leb, ◌==◌, length, arith, inl, inr, Bool-cases, if◌then◌else◌,
}
use pyscripts.Base.Int.{leb_ℤ, neg_ℕ}
use pyscripts.Admission.{ActorState, shared_io, saturated_io}
use pyscripts.Scheduler.{ActorCandidate, is_idle, is_draining, packs, priority, priority_le}

leb_neg : (a b : ℕ) → leb_ℤ (neg_ℕ a) (neg_ℕ b) ≡ leb b a
leb_neg zero zero = refl
leb_neg zero (suc b) = ground arith
leb_neg (suc a) zero = ground arith
leb_neg (suc a) (suc b) = ground arith

-- An actor that serves IO and is below the target is asked before any that is not, and of two such
-- actors the busier one is asked first, then the one of the lower replica.
pub priority-packs :
    (c d : ActorCandidate) (target : Option ℕ)
    → packs target c ≡ true
    → priority_le (priority target c) (priority target d) ≡ (
        if packs target d
        then ltb d.active_io c.active_io || (c.active_io == d.active_io && leb c.replica d.replica)
        else true)
unfolding priority
priority-packs c d target h = elim (Bool-cases (packs target d)) [
  | inl e ↦
      rw (h, e) (ground (arith, leb_neg c.active_io d.active_io, leb_neg d.active_io c.active_io))
  | inr e ↦ ground (arith, leb_neg c.active_io d.active_io)
]

abbrev is_full : ActorState → Bool
is_full saturated_io = true
is_full _ = false

abbrev is_sharing : ActorState → Bool
is_sharing shared_io = true
is_sharing _ = false

-- the actors that can be asked: the ones that are neither full nor draining
abbrev pub serves : ActorCandidate → Bool
serves c = not (is_full c.state || is_draining c.state)

-- an actor that serves IO and is below the target, which it fills up
abbrev pub fills : Option ℕ → ActorCandidate → Bool
fills none c = is_sharing c.state
fills (some t) c = is_sharing c.state && ltb c.active_io t

-- The order in which two actors are asked: first the ones that fill up, the busiest of them first,
-- then the idle ones, then the others, the least busy of them first; among equals the lower
-- replica is first.
abbrev pub asked_before : Option ℕ → ActorCandidate → ActorCandidate → Bool
asked_before target c d =
    if fills target c
    then if fills target d
      then ltb d.active_io c.active_io || (c.active_io == d.active_io && leb c.replica d.replica)
      else true
    else if fills target d
    then false
    else if is_idle c.state
    then if is_idle d.state then leb c.replica d.replica else true
    else if is_idle d.state
    then false
    else ltb c.active_io d.active_io || (c.active_io == d.active_io && leb c.replica d.replica)

module _ (target : Option ℕ) where
  -- one candidate is asked before another
  abbrev pub Before : ActorCandidate → ActorCandidate → Type 0
  Before c d = asked_before target c d ≡ true

  abbrev pub Sorted : List ActorCandidate → Type 0
  Sorted [] = Unit
  Sorted (c ∷ cs) = All (Before c) cs × Sorted cs

  -- how many candidates pass a test
  abbrev pub count : (ActorCandidate → Bool) → List ActorCandidate → ℕ
  count p cs = length (select p cs)
