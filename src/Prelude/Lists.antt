-- ===== src/Prelude/Lists.antt =====
-- Lists measured by native numbers, Boolean filters and searches, and predicates on elements.
use Prim.Native.Nat.{ℕ, zero, suc, ◌+◌}
use mathlib.Core.Path.{◌≡◌, refl, ap}
use mathlib.Core.Bool.{Bool, true, false, ◌||◌}
use mathlib.Core.List.{List, [], ◌∷◌, ◌++◌, map}
use mathlib.Core.Option.{Option, none, some}
use mathlib.Core.Logic.{inl, inr}
use worldping_api.Prelude.Tests.{Bool-cases}
use native.Mathlib.Omega.{arith}

abbrev count_one : Bool → ℕ → ℕ
count_one true n = suc n
count_one false n = n

module _ {ℓ} {A : Type ℓ} where
  abbrev pub length : List A → ℕ
  length [] = 0
  length (x ∷ xs) = suc (length xs)

  abbrev pub get_elem? : List A → ℕ → Option A
  get_elem? [] i = none
  get_elem? (x ∷ xs) zero = some x
  get_elem? (x ∷ xs) (suc i) = get_elem? xs i

  abbrev pub replicate : ℕ → A → List A
  replicate zero a = []
  replicate (suc n) a = a ∷ replicate n a

  abbrev keep : Bool → A → List A → List A
  keep true x xs = x ∷ xs
  keep false x xs = xs

  -- The elements that pass a Boolean test, in order.
  abbrev pub select : (A → Bool) → List A → List A
  select p [] = []
  select p (x ∷ xs) = keep (p x) x (select p xs)

  abbrev pub any : (A → Bool) → List A → Bool
  any p [] = false
  any p (x ∷ xs) = p x || any p xs

  abbrev pub count_if : (A → Bool) → List A → ℕ
  count_if p [] = 0
  count_if p (x ∷ xs) = count_one (p x) (count_if p xs)

  abbrev pub All {κ} : (A → Type κ) → List A → Type κ
  All P [] = Unit
  All P (x ∷ xs) = P x × All P xs

  pub length-append : (xs ys : List A) → length (xs ++ ys) ≡ length xs + length ys
  length-append [] ys = omega arith
  length-append (x ∷ xs) ys = omega (arith, length-append xs ys)

pub All-map :
    {A B : Type 0} (P : A → Type 0) (Q : B → Type 0) (f : A → B) (xs : List A)
    → ((x : A) → P x → Q (f x))
    → All P xs
    → All Q (map f xs)
All-map P Q f [] h a = tt
All-map P Q f (x ∷ xs) h a = (h x a.0, All-map P Q f xs h a.1)

pub All-impl :
    {A : Type 0} (P Q : A → Type 0) (xs : List A) → ((x : A) → P x → Q x) → All P xs → All Q xs
All-impl P Q [] h a = tt
All-impl P Q (x ∷ xs) h a = (h x a.0, All-impl P Q xs h a.1)

pub All-select :
    {A : Type 0} (P : A → Type 0) (p : A → Bool) (xs : List A) → All P xs → All P (select p xs)
All-select P p [] a = tt
All-select P p (x ∷ xs) a = elim (Bool-cases (p x)) [
  | inl e ↦ rw e (a.0, All-select P p xs a.1)
  | inr e ↦ rw e (All-select P p xs a.1)
]

pub All-append :
    {A : Type 0} (P : A → Type 0) (xs ys : List A) → All P xs → All P ys → All P (xs ++ ys)
All-append P [] ys a b = b
All-append P (x ∷ xs) ys a b = (a.0, All-append P xs ys a.1 b)

-- What makes an element pass a test makes some element pass it.
pub All-any :
    {A B : Type 0} (P : A → Type 0) (q : B → Bool) (f : A → B) (xs : List A)
    → ((x : A) → P x → q (f x) ≡ true)
    → All (λ x. P x → any q (map f xs) ≡ true) xs
All-any P q f [] h = tt
All-any P q f (x ∷ xs) h = (
  λ e. ground (arith, h x e),
  All-impl (λ y. P y → any q (map f xs) ≡ true) (λ y. P y → any q (map f (x ∷ xs)) ≡ true) xs
      (λ y rest e. ground (arith, rest e)) (All-any P q f xs h),
)

pub any-map_self : {A : Type 0} (q : A → Bool) (xs : List A) → any q (map (λ x. x) xs) ≡ any q xs
any-map_self q [] = refl
any-map_self q (x ∷ xs) = rw (any-map_self q xs) refl

pub length-map {ℓ} : {A B : Type ℓ} (f : A → B) (xs : List A) → length (map f xs) ≡ length xs
length-map f [] = refl
length-map f (x ∷ xs) = ap suc (length-map f xs)
