-- ===== src/Common/Result.antt =====
-- Python calls that may raise, as values, and methods that mutate an object and may raise: what
-- was written before a raise stays written, so the object comes back beside the error too.
use mathlib.Core.Path.{◌≡◌, refl}
use mathlib.Core.Bool.{Bool, true, false}

pub data Result {ℓ} (E A : Type ℓ) : Type ℓ where
  ok : A → Result E A
  err : E → Result E A

module _ {ℓ} {E : Type ℓ} where
  -- The next call is made only if the one before it returned.
  infixl 5 ◌>>=◌ ◌>>◌
  abbrev pub ◌>>=◌ : {A B : Type ℓ} → Result E A → (A → Result E B) → Result E B
  ◌>>=◌ r next = elim r [ ok value ↦ next value | err reason ↦ err reason ]

  abbrev pub ◌>>◌ : {B : Type ℓ} → Result E (Unit {ℓ}) → Result E B → Result E B
  ◌>>◌ check next = ◌>>=◌ check (λ _. next)

-- if bad: raise e
abbrev pub refuse_if {ℓ} : {E : Type ℓ} → Bool → E → Result E (Unit {ℓ})
refuse_if true e = err e
refuse_if false e = ok tt

abbrev pub is_ok {ℓ} : {E A : Type ℓ} → Result E A → Bool
is_ok (ok a) = true
is_ok (err e) = false

-- A check that passed found its test false.
pub refuse_if-ok {ℓ} : {E : Type ℓ} (b : Bool) (e : E) → refuse_if b e ≡ ok tt → b ≡ false
refuse_if-ok true e h = cc
refuse_if-ok false e h = refl

-- What every last step of a chain ensures, the chain ensures.
pub into {ℓ} :
    {E A B : Type ℓ} {P : Type ℓ} {b : B} (m : Result E A) (f : A → Result E B)
    → ((a : A) → f a ≡ ok b → P)
    → (m >>= f) ≡ ok b
    → P
into (ok a) f k h = k a h
into (err e) f k h = cc

-- A chain returned: so did its first step, and the rest on what that gave.
pub chained {ℓ} :
    {E A B : Type ℓ} {b : B} (m : Result E A) (f : A → Result E B)
    → (m >>= f) ≡ ok b
    → (a : A) × (m ≡ ok a) × (f a ≡ ok b)
chained (ok a) f h = (a, refl, h)
chained (err e) f h = cc

-- A chain returned: its first test was false.
pub passed {ℓ} :
    {E B : Type ℓ} {b : B} (bad : Bool) (e : E) (next : Result E B)
    → (refuse_if bad e >> next) ≡ ok b
    → (bad ≡ false) × (next ≡ ok b)
passed true e next h = cc
passed false e next h = (refl, h)
