-- ===== src/Store/Endpoint/Reads/Grouping.antt =====
-- pkg/services/sqlstore/endpoint.go, ToDTO: the rows of the join are grouped by the endpoint.
use text.Mathlib.Text.{◌==◌ as str_eq}
use text.Mathlib.TextEquality.{eq_iff}
use worldping_api.Prelude.{
  ℕ, String, ◌≡◌, ◌≢◌, refl, sym, ap, ◌∙◌, Bool, not, ◌&&◌, Option, none, some, List, [], ◌∷◌, map,
  any, count_if, max, ◌==◌, ==_iff, if◌then◌else◌, arith, Bool-cases, inl, inr,
}
use worldping_api.Prelude.Sets.{member, count, count_zero}
use worldping_api.Store.Joined.{add_filled, count-add_filled, member-add_filled}
use worldping_api.Store.Endpoint.Reads.{
  StateRow, EndpointJoin, EndpointDto, scrutinize_state, enter_check, add_join, add_joins,
  with_states, to_dto,
}
use worldping_api.Store.Endpoint.Reads.States.{
  checks_with, check_at, or_else, number_of, scrutinized, or_none, or_else_test,
  check_at-enter_check, checks_with-enter_check, check_at-scrutinize,
}

-- What the first DTO of an endpoint has.
abbrev pub tags_at : ℕ → List EndpointDto → List String
tags_at id [] = []
tags_at id (e ∷ es) = let rest = tags_at id es in if e.endpoint.id == id then e.tags else rest

abbrev pub checks_at : ℕ → List EndpointDto → List StateRow
checks_at id [] = []
checks_at id (e ∷ es) = let rest = checks_at id es in if e.endpoint.id == id then e.checks else rest

abbrev pub dtos_of : ℕ → List EndpointDto → ℕ
dtos_of id = count_if λ e. e.endpoint.id == id

-- The first row of an endpoint and a check.
abbrev pub first_row : ℕ → ℕ → List EndpointJoin → Option StateRow
first_row id j [] = none
first_row id j (r ∷ rs) =
    let rest = first_row id j rs in
    if r.endpoint.id == id && r.check.id == j then some r.check else rest

abbrev pub has_tag : ℕ → String → List EndpointJoin → Bool
has_tag id v = any λ r. r.endpoint.id == id && (str_eq v r.tag && not (str_eq v ""))

tags_at-add_join :
    (id : ℕ) (r : EndpointJoin) (es : List EndpointDto)
    → tags_at id (add_join r es)
      ≡ (if r.endpoint.id == id then add_filled r.tag (tags_at id es) else tags_at id es)
unfolding add_join
tags_at-add_join id r [] = refl
tags_at-add_join id r (e ∷ es) = ground (
  arith,
  tags_at-add_join id r es,
  ==_iff e.endpoint.id r.endpoint.id,
  ==_iff e.endpoint.id id,
  ==_iff r.endpoint.id id,
)

checks_at-add_join :
    (id : ℕ) (r : EndpointJoin) (es : List EndpointDto)
    → checks_at id (add_join r es)
      ≡ (if r.endpoint.id == id then enter_check r.check (checks_at id es) else checks_at id es)
unfolding add_join
checks_at-add_join id r [] = refl
checks_at-add_join id r (e ∷ es) = ground (
  arith,
  checks_at-add_join id r es,
  ==_iff e.endpoint.id r.endpoint.id,
  ==_iff e.endpoint.id id,
  ==_iff r.endpoint.id id,
)

dtos_of-add_join :
    (id : ℕ) (r : EndpointJoin) (es : List EndpointDto)
    → dtos_of id (add_join r es)
      ≡ (if r.endpoint.id == id then max 1 (dtos_of id es) else dtos_of id es)
unfolding add_join
dtos_of-add_join id r [] = ground (arith)
dtos_of-add_join id r (e ∷ es) = ground (
  arith,
  dtos_of-add_join id r es,
  ==_iff e.endpoint.id r.endpoint.id,
  ==_iff e.endpoint.id id,
  ==_iff r.endpoint.id id,
)

with_states_lem :
    (now id j : ℕ) (es : List EndpointDto)
    → (dtos_of id (map (with_states now) es) ≡ dtos_of id es)
      × (tags_at id (map (with_states now) es) ≡ tags_at id es)
      × (checks_at id (map (with_states now) es) ≡ map (scrutinize_state now) (checks_at id es))
unfolding with_states
with_states_lem now id j [] = (refl, refl, refl)
with_states_lem now id j (e ∷ es) =
    let ih = with_states_lem now id j es in
    elim (Bool-cases (e.endpoint.id == id)) [
      | inl at ↦ rw (at, ih.0) (refl, refl, refl)
      | inr other ↦ rw (other, ih.0, ih.1, ih.2) (refl, refl, refl)
    ]

tags_at-add_joins :
    (id : ℕ) (v : String) (rows : List EndpointJoin) (es : List EndpointDto)
    → count str_eq v (tags_at id (add_joins rows es)) ≡ (
        if member str_eq v (tags_at id es)
        then count str_eq v (tags_at id es)
        else if has_tag id v rows
        then 1
        else 0)
unfolding add_joins
tags_at-add_joins id v [] es = ground (arith, count_zero str_eq eq_iff v (tags_at id es))
tags_at-add_joins id v (r ∷ rows) es =
    tags_at-add_joins id v rows (add_join r es)
    ∙ rw (tags_at-add_join id r es) (
        ground (
          arith,
          count-add_filled v r.tag (tags_at id es),
          member-add_filled v r.tag (tags_at id es),
        ))

dtos_of-add_joins :
    (id : ℕ) (rows : List EndpointJoin) (es : List EndpointDto)
    → dtos_of id (add_joins rows es)
      ≡ (if any (λ r. r.endpoint.id == id) rows then max 1 (dtos_of id es) else dtos_of id es)
unfolding add_joins
dtos_of-add_joins id [] es = refl
dtos_of-add_joins id (r ∷ rows) es =
    dtos_of-add_joins id rows (add_join r es) ∙ rw (dtos_of-add_join id r es) (ground arith)

checks_at-add_joins :
    (id j : ℕ) (rows : List EndpointJoin) (es : List EndpointDto)
    → j ≢ 0
    → checks_with j (checks_at id es) ≡ number_of (check_at j (checks_at id es))
    → (check_at j (checks_at id (add_joins rows es))
        ≡ or_else (check_at j (checks_at id es)) (first_row id j rows))
      × (checks_with j (checks_at id (add_joins rows es))
          ≡ number_of (check_at j (checks_at id (add_joins rows es))))
unfolding add_joins
checks_at-add_joins id j [] es filled h = (sym (or_none (check_at j (checks_at id es))), h)
checks_at-add_joins id j (r ∷ rows) es filled h =
    let step = checks_at-add_join id r es in
    elim (Bool-cases (r.endpoint.id == id)) [
      | inl at ↦
          let entered : checks_at id (add_join r es) ≡ enter_check r.check (checks_at id es) =
            step ∙ rw at refl in
          let ih =
            checks_at-add_joins id j rows (add_join r es) filled
              (rw entered (checks_with-enter_check j r.check (checks_at id es) filled h)) in
          (
            ih.0
                ∙ rw (entered, check_at-enter_check j r.check (checks_at id es) filled, at)
                    (or_else_test (check_at j (checks_at id es)) (r.check.id == j) r.check
                      (first_row id j rows)),
            ih.1,
          )
      | inr other ↦
          let kept : checks_at id (add_join r es) ≡ checks_at id es = step ∙ rw other refl in
          let ih = checks_at-add_joins id j rows (add_join r es) filled (rw kept h) in
          (ih.0 ∙ rw (kept, other) refl, ih.1)
    ]

-- An endpoint has one DTO if it has a row and else none. Its tags are those of its rows, each once and none
-- empty. A check, whose id is not zero, is in it once if a row of the endpoint has it and else not, and it is the
-- check of the first such row as scrutinizeState leaves it.
pub to_dto_lem :
    (now : ℕ) (rows : List EndpointJoin) (id j : ℕ) (v : String)
    → j ≢ 0
    → (dtos_of id (to_dto now rows) ≡ (if any (λ r. r.endpoint.id == id) rows then 1 else 0))
      × (count str_eq v (tags_at id (to_dto now rows)) ≡ (if has_tag id v rows then 1 else 0))
      × (check_at j (checks_at id (to_dto now rows)) ≡ scrutinized now (first_row id j rows))
      × (checks_with j (checks_at id (to_dto now rows)) ≡ number_of (first_row id j rows))
unfolding to_dto
to_dto_lem now rows id j v filled =
    let (dtos, tags, checks) = with_states_lem now id j (add_joins rows []) in
    let (first, number) = checks_at-add_joins id j rows [] filled refl in
    let (check, with_j) = check_at-scrutinize now j (checks_at id (add_joins rows [])) in
    (
      dtos ∙ dtos_of-add_joins id rows [],
      rw tags (tags_at-add_joins id v rows []),
      rw checks (check ∙ ap (scrutinized now) first),
      rw checks (with_j ∙ number ∙ ap number_of first),
    )
