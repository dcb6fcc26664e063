-- ===== src/Store/Endpoint/Routes/Rows.antt =====
-- pkg/services/sqlstore/endpoint.go, updateCheck and addCheckRoutes: the rows of one index table of a check.
use mathlib.Core.Option.{some-injective}
use worldping_api.Prelude.{
  ◌≡◌, ◌↔◌, ◌⊎◌, refl, ap, Bool, true, false, not, ◌||◌, none, some, List, [], ◌∷◌, ◌++◌, select,
  arith, if◌then◌else◌, inl, inr, Bool-cases, Option-cases,
}
use worldping_api.Prelude.Sets.{member, enter, member-enter, member-select, member-append}
use worldping_api.Store.Endpoint.Routes.{insert_rows, update_index}

-- Whether a list has a key twice.
abbrev pub repeats : {A : Type 0} → (A → A → Bool) → List A → Bool
repeats same [] = false
repeats same (k ∷ ks) = member same k ks || repeats same ks

module _ {A : Type 0} (same : A → A → Bool)
    (same_iff : (a b : A) → (same a b ≡ true) ↔ (a ≡ b)) where
  repeats-select :
      (p : A → Bool) (ks : List A) → repeats same (select p ks) ≡ true → repeats same ks ≡ true
  repeats-select p [] h = h
  repeats-select p (k ∷ ks) h =
      ground (arith, repeats-select p ks, member-select same same_iff p k ks)

  member-insert_rows :
      (ks rows out : List A) (j : A)
      → insert_rows same ks rows ≡ some out
      → member same j out ≡ (if member same j rows then true else member same j ks)
  unfolding insert_rows
  member-insert_rows [] rows out j e =
      ground (arith, ap (member same j) (some-injective rows out e))
  member-insert_rows (k ∷ ks) rows out j e =
      ground
        (arith, member-insert_rows ks (rows ++ k ∷ []) out j, member-append same j rows (k ∷ []))

  -- An insert of keys that have no row fails only where a key is given twice.
  insert_rows-repeats :
      (ks rows : List A)
      → ((j : A) → member same j ks ≡ true → member same j rows ≡ false)
      → insert_rows same ks rows ≡ none
      → repeats same ks ≡ true
  unfolding insert_rows
  insert_rows-repeats [] rows fresh e = absurd cc
  insert_rows-repeats (k ∷ ks) rows fresh e = elim (Bool-cases (member same k ks)) [
    | inl twice ↦ rw twice refl
    | inr once ↦
        let new : member same k rows ≡ false = fresh k (rw ((same_iff k k).1 refl) refl) in
        let failed : insert_rows same ks (rows ++ k ∷ []) ≡ none = rw new at e in
        let others : (j : A) → member same j ks ≡ true → member same j (rows ++ k ∷ []) ≡ false =
          λ j h. elim (Bool-cases (same j k)) [
            | inl e ↦ ground (arith, ap (λ x. member same x ks) ((same_iff j k).0 e))
            | inr e ↦ ground (arith, member-append same j rows (k ∷ []), fresh j)
          ] in
        rw (insert_rows-repeats ks (rows ++ k ∷ []) others failed) (rw once refl)
  ]

  -- An update of an index leaves the rows of the keys that are given, or fails where one is given twice.
  pub update_index_cases :
      (existing current rows : List A)
      → ((j : A) → member same j existing ≡ member same j rows)
      → ((out : List A) × (update_index same existing current rows ≡ some out)
          × ((j : A) → member same j out ≡ member same j current))
        ⊎ ((update_index same existing current rows ≡ none) × (repeats same current ≡ true))
  unfolding update_index
  update_index_cases existing current rows h =
      let old = enter same existing [] in
      let new = enter same current [] in
      let added = select (λ k. not (member same k old)) current in
      let gone = select (λ k. not (member same k new)) old in
      let kept = select (λ k. not (member same k gone)) rows in
      let stands : (j : A)
          → member same j added ≡ (if member same j rows then false else member same j current) =
        λ j.
          rw
            (
              member-select same same_iff (λ k. not (member same k old)) j current,
              member-enter same same_iff j existing [],
              h j,
            )
            (ground (arith)) in
      let stays : (j : A)
          → member same j kept ≡ (if member same j rows then member same j current else false) =
        λ j.
          rw
            (
              member-select same same_iff (λ k. not (member same k gone)) j rows,
              member-select same same_iff (λ k. not (member same k new)) j old,
              member-enter same same_iff j existing [],
              member-enter same same_iff j current [],
              h j,
            )
            (ground (arith)) in
      elim (Option-cases (insert_rows same added kept)) [
        | inl e ↦ inr (
          e,
          repeats-select (λ k. not (member same k old)) current
              (insert_rows-repeats added kept (λ j i. ground (arith, stands j, stays j)) e),
        )
        | inr (out, e) ↦
            inl (
              out,
              e,
              λ j. ground (arith, member-insert_rows added kept out j e, stands j, stays j),
            )
      ]

  -- The same for an insert into an index without rows.
  pub insert_rows_cases :
      (ks : List A)
      → ((out : List A) × (insert_rows same ks [] ≡ some out)
          × ((j : A) → member same j out ≡ member same j ks))
        ⊎ ((insert_rows same ks [] ≡ none) × (repeats same ks ≡ true))
  insert_rows_cases ks = elim (Option-cases (insert_rows same ks [])) [
    | inl e ↦ inr (e, insert_rows-repeats ks [] (λ j i. refl) e)
    | inr (out, e) ↦ inl (out, e, λ j. member-insert_rows ks [] out j e)
  ]
