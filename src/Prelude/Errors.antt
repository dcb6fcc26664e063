-- ===== src/Prelude/Errors.antt =====
-- What a Go call that returns `(value, error)` gives: a value, or an error and no value that is used.
use mathlib.Core.Path.{◌≡◌, refl}

pub data Outcome {ℓ} (E A : Type ℓ) : Type ℓ where
  err : E → Outcome E A
  ok : A → Outcome E A

-- `if err != nil { return err }` between a call and what follows it.
infixl 5 ◌>>=◌
abbrev pub ◌>>=◌ {ℓ} :
    {E A B : Type ℓ} (call : Outcome E A) (following : A → Outcome E B) → Outcome E B
(err reason) >>= following = err reason
(ok value) >>= following = following value

-- The same for a call that returns an error alone.
infixl 5 ◌>>◌
abbrev pub ◌>>◌ {ℓ} :
    {E B : Type ℓ} (call : Outcome E (Unit {ℓ})) (following : Outcome E B) → Outcome E B
(err reason) >> following = err reason
(ok done) >> following = following

-- A call that succeeded before what followed it, which succeeded too.
pub >>=-ok {ℓ} :
    {E A B : Type ℓ} (call : Outcome E A) (following : A → Outcome E B) {result : B}
    → (call >>= following) ≡ ok result
    → (value : A) × (call ≡ ok value) × (following value ≡ ok result)
>>=-ok (err reason) following both = cc
>>=-ok (ok value) following both = (value, refl, both)

pub ok-injective {ℓ} : {E A : Type ℓ} {a b : A} → ◌≡◌ {A = Outcome E A} (ok a) (ok b) → a ≡ b
ok-injective e = cc
