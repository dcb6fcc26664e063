-- ===== src/Store/Endpoint/Reads/States.antt =====
-- pkg/services/sqlstore/endpoint.go: scrutinizeState, and the checks of one endpoint as ToDTO collects them.
use worldping_api.Prelude.{
  ℕ, ◌+◌, ◌*◌, ◌≤◌, ◌≡◌, ◌≢◌, refl, sym, ap, ◌∙◌, Bool, true, false, Option, none, some, List, [],
  ◌∷◌, ◌++◌, map, any, count_if, ltb, ltb_iff, ◌==◌, ==_iff, if◌then◌else◌, arith, Bool-cases, inl,
  inr,
}
use worldping_api.Prelude.Int.{eqb_ℤ}
use worldping_api.Models.Check.{eval_result_unknown, second}
use worldping_api.Store.Endpoint.Reads.{StateRow, scrutinize_state, enter_check}

abbrev pub checks_with : ℕ → List StateRow → ℕ
checks_with j = count_if λ c. c.id == j

abbrev pub check_at : ℕ → List StateRow → Option StateRow
check_at j [] = none
check_at j (c ∷ cs) = let rest = check_at j cs in if c.id == j then some c else rest

abbrev pub or_else : Option StateRow → Option StateRow → Option StateRow
or_else none o = o
or_else (some c) o = some c

abbrev pub scrutinized : ℕ → Option StateRow → Option StateRow
scrutinized now none = none
scrutinized now (some c) = some (scrutinize_state now c)

-- What an entry makes of the check with an id and of their number.
check_at-append :
    (j : ℕ) (cs : List StateRow) (c : StateRow)
    → check_at j (cs ++ c ∷ []) ≡ or_else (check_at j cs) (if c.id == j then some c else none)
check_at-append j [] c = refl
check_at-append j (d ∷ cs) c = ground (arith, check_at-append j cs c)

check_at-none :
    (j : ℕ) (cs : List StateRow) → any (λ d. d.id == j) cs ≡ false → check_at j cs ≡ none
check_at-none j [] h = refl
check_at-none j (c ∷ cs) h = ground (arith, check_at-none j cs)

check_at-some :
    (j : ℕ) (cs : List StateRow) (o : Option StateRow)
    → any (λ d. d.id == j) cs ≡ true
    → or_else (check_at j cs) o ≡ check_at j cs
check_at-some j [] o h = cc
check_at-some j (c ∷ cs) o h = ground (arith, check_at-some j cs o)

pub or_none : (o : Option StateRow) → or_else o none ≡ o
or_none none = refl
or_none (some c) = refl

pub or_else_test :
    (o : Option StateRow) (b : Bool) (c : StateRow) (rest : Option StateRow)
    → or_else (or_else o (if b then some c else none)) rest ≡ or_else o (if b then some c else rest)
or_else_test none true c rest = refl
or_else_test none false c rest = refl
or_else_test (some d) b c rest = refl

scrutinize_state_id : (now : ℕ) (c : StateRow) → (scrutinize_state now c).id ≡ c.id
unfolding scrutinize_state
scrutinize_state_id now c = ground (arith)

pub check_at-enter_check :
    (j : ℕ) (c : StateRow) (cs : List StateRow)
    → j ≢ 0
    → check_at j (enter_check c cs) ≡ or_else (check_at j cs) (if c.id == j then some c else none)
unfolding enter_check
check_at-enter_check j c cs filled = elim (Bool-cases (c.id == j)) [
  | inl e ↦
      let same : c.id ≡ j = (==_iff c.id j).0 e in
      let zero_not : (c.id == 0) ≡ false = ground (arith, ==_iff c.id 0) in
      let any_same : any (λ d. d.id == c.id) cs ≡ any (λ d. d.id == j) cs =
        ap (λ k. any (λ d. d.id == k) cs) same in
      elim (Bool-cases (any (λ d. d.id == j) cs)) [
        | inl some_check ↦
            rw (zero_not, any_same, some_check) (sym (check_at-some j cs _ some_check))
        | inr no_check ↦ rw (zero_not, any_same, no_check) (check_at-append j cs c)
      ]
  | inr e ↦ ground (arith, check_at-append j cs c, or_none (check_at j cs))
]

-- How many checks an option holds.
abbrev pub number_of : Option StateRow → ℕ
number_of none = 0
number_of (some c) = 1

checks_with-append :
    (j : ℕ) (cs : List StateRow) (c : StateRow)
    → checks_with j (cs ++ c ∷ []) ≡ (if c.id == j then 1 else 0) + checks_with j cs
checks_with-append j [] c = ground (arith)
checks_with-append j (d ∷ cs) c = ground (arith, checks_with-append j cs c)

pub checks_with-enter_check :
    (j : ℕ) (c : StateRow) (cs : List StateRow)
    → j ≢ 0
    → checks_with j cs ≡ number_of (check_at j cs)
    → checks_with j (enter_check c cs) ≡ number_of (check_at j (enter_check c cs))
unfolding enter_check
checks_with-enter_check j c cs filled h = elim (Bool-cases (c.id == 0)) [
  | inl e ↦ rw e h
  | inr e ↦ elim (Bool-cases (any (λ d. d.id == c.id) cs)) [
    | inl known ↦ rw (e, known) h
    | inr fresh ↦
        rw (e, fresh, checks_with-append j cs c, check_at-append j cs c)
          (elim (Bool-cases (c.id == j)) [
            | inl at ↦
                let gone =
                  check_at-none j cs
                    (sym (ap (λ k. any (λ d. d.id == k) cs) ((==_iff c.id j).0 at)) ∙ fresh) in
                rw (at, h, gone) refl
            | inr other ↦ rw (other, or_none (check_at j cs)) (omega (arith, h))
          ])
  ]
]

pub check_at-scrutinize :
    (now j : ℕ) (cs : List StateRow)
    → (check_at j (map (scrutinize_state now) cs) ≡ scrutinized now (check_at j cs))
      × (checks_with j (map (scrutinize_state now) cs) ≡ checks_with j cs)
check_at-scrutinize now j [] = (refl, refl)
check_at-scrutinize now j (c ∷ cs) =
    let ih = check_at-scrutinize now j cs in
    let test : ((scrutinize_state now c).id == j) ≡ (c.id == j) =
      ap (λ k. k == j) (scrutinize_state_id now c) in
    elim (Bool-cases (c.id == j)) [
      | inl at ↦ rw (test, at, ih.1) (refl, refl)
      | inr other ↦ rw (test, other, ih.0, ih.1) (refl, refl)
    ]

-- A check that is not given as unknown was checked within three times its frequency, and is as it is stored.
pub scrutinize_state_lem :
    (now : ℕ) (c : StateRow)
    → (eqb_ℤ (scrutinize_state now c).state eval_result_unknown ≡ false)
    → (now ≤ c.state_check + 3 * c.frequency * second) × (scrutinize_state now c ≡ c)
unfolding scrutinize_state
scrutinize_state_lem now c h = elim (Bool-cases (eqb_ℤ c.state eval_result_unknown)) [
  | inl unknown ↦ absurd (let same = rw unknown at h in cc)
  | inr known ↦ elim (Bool-cases (ltb (c.state_check + 3 * c.frequency * second) now)) [
    | inl stale ↦ absurd (let same = rw (known, stale) at h in cc)
    | inr fresh ↦
        rw (known, fresh)
          (ground (arith, ltb_iff (c.state_check + 3 * c.frequency * second) now), refl)
  ]
]
