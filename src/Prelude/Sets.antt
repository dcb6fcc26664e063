-- ===== src/Prelude/Sets.antt =====
-- Go maps that are used as sets, as lists of their keys, and the number of times that a list holds an
-- element. The test for equal keys is a parameter.
use Prim.Native.Nat.{ℕ, ◌+◌}
use mathlib.Core.Path.{◌≡◌, refl, ap}
use mathlib.Core.Logic.{◌↔◌, inl, inr}
use mathlib.Core.Bool.{Bool, true, false}
use mathlib.Core.List.{List, [], ◌∷◌, ◌++◌}
use native.Mathlib.Omega.{arith}
use worldping_api.Prelude.Tests.{ltb, if◌then◌else◌, Bool-cases}
use worldping_api.Prelude.Lists.{any, select, count_if}

module _ {A : Type 0} (same : A → A → Bool) where
  abbrev pub member : A → List A → Bool
  member k = any (same k)

  abbrev pub count : A → List A → ℕ
  count k = count_if (same k)

  -- m[k] = struct{}{}
  unfoldable pub add_key : A → List A → List A
  add_key k s = if member k s then s else k ∷ s

  -- The loop that enters a list into a set.
  unfoldable pub enter : List A → List A → List A
  unfolding add_key
  enter [] s = s
  enter (k ∷ ks) s = enter ks (add_key k s)

  pub count-append : (k : A) (xs ys : List A) → count k (xs ++ ys) ≡ count k xs + count k ys
  count-append k [] ys = omega arith
  count-append k (x ∷ xs) ys = ground (arith, count-append k xs ys)

  module _ (same_iff : (a b : A) → (same a b ≡ true) ↔ (a ≡ b)) where
    pub member-enter :
        (j : A) (ks s : List A) → member j (enter ks s) ≡ (if member j ks then true else member j s)
    unfolding enter
    member-enter j [] s = refl
    member-enter j (k ∷ ks) s = ground (arith, member-enter j ks (add_key k s), same_iff j k)

    pub count_zero : (j : A) (xs : List A) → member j xs ≡ false → count j xs ≡ 0
    count_zero j [] h = refl
    count_zero j (x ∷ xs) h = ground (arith, count_zero j xs)

    -- A key that is entered stands once in the set, unless it was there.
    pub count-enter :
        (j : A) (ks s : List A)
        → count j (enter ks s)
          ≡ (if member j s then count j s else if member j ks then 1 else count j s)
    unfolding enter
    count-enter j [] s = ground (arith)
    count-enter j (k ∷ ks) s = elim (Bool-cases (same j k)) [
      | inl e ↦
          let at : j ≡ k = (same_iff j k).0 e in
          ground
            (arith, count-enter j ks (add_key k s), ap (λ t. any (same t) s) at, count_zero j s)
      | inr e ↦ ground (arith, count-enter j ks (add_key k s))
    ]

    -- To keep the elements that pass a test is to keep all or none of each.
    pub count-select :
        (p : A → Bool) (j : A) (xs : List A)
        → count j (select p xs) ≡ (if p j then count j xs else 0)
    count-select p j [] = ground arith
    count-select p j (x ∷ xs) = ground (arith, count-select p j xs, same_iff j x)

    pub member-select :
        (p : A → Bool) (j : A) (xs : List A)
        → member j (select p xs) ≡ (if p j then member j xs else false)
    member-select p j [] = ground arith
    member-select p j (x ∷ xs) = ground (arith, member-select p j xs, same_iff j x)

  pub member-count : (j : A) (xs : List A) → member j xs ≡ ltb 0 (count j xs)
  member-count j [] = refl
  member-count j (x ∷ xs) = ground (arith, member-count j xs)

  pub member-append :
      (j : A) (xs ys : List A) → member j (xs ++ ys) ≡ (if member j xs then true else member j ys)
  member-append j [] ys = refl
  member-append j (x ∷ xs) ys = ground (arith, member-append j xs ys)
