-- ===== src/Base/Result.antt =====
-- Calls that raise: a value or an exception, and `do` blocks over them.
use pyscripts.Base.{◌≡◌, refl, Bool, true, false, Option, none, some, arith}

pub data Result {ℓ κ} (E : Type ℓ) (A : Type κ) : Type (ℓ ⊔ κ) where
  ok : A → Result E A
  err : E → Result E A

module _ {ℓ κ} {E : Type ℓ} {A : Type κ} where
  infixl 5 ◌>>=◌ ◌>>◌
  abbrev pub ◌>>=◌ {μ} : {B : Type μ} → Result E A → (A → Result E B) → Result E B
  ok a >>= f = f a
  err e >>= f = err e

  abbrev pub ◌>>◌ {μ} : {B : Type μ} → Result E A → Result E B → Result E B
  m >> k = m >>= λ _. k

  -- the value of an optional, or the exception
  abbrev pub or_raise : Option A → E → Result E A
  or_raise none e = err e
  or_raise (some a) e = ok a

  -- Inversion of a successful bind.
  pub >>=-eq-ok {μ} :
      {B : Type μ} (call : Result E A) (next : A → Result E B) {out : B}
      → (call >>= next) ≡ ok out
      → (mid : A) × (call ≡ ok mid) × (next mid ≡ ok out)
  >>=-eq-ok (ok mid) next returned = (mid, refl, returned)
  >>=-eq-ok (err e) next returned = cc

pub or_raise-eq-ok {ℓ κ} :
    {E : Type ℓ} {A : Type κ} (o : Option A) (e : E) {a : A} → or_raise o e ≡ ok a → o ≡ some a
or_raise-eq-ok none e h = cc
or_raise-eq-ok (some b) e h = ground arith

-- `if not b: raise e`
abbrev pub require {ℓ} : {E : Type ℓ} → Bool → E → Result E (Unit {0})
require true e = ok tt
require false e = err e

pub require-eq-ok {ℓ} :
    {E : Type ℓ} (b : Bool) (e : E) {u : Unit {0}} → require b e ≡ ok u → b ≡ true
require-eq-ok true e h = refl
require-eq-ok false e h = cc
