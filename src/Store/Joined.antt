-- ===== src/Store/Joined.antt =====
-- pkg/services/sqlstore/endpoint.go and probe.go: a column of the rows of a left join that is collected
-- into a Go map. A row without a partner has the empty string.
use text.Mathlib.Text.{◌==◌ as str_eq}
use text.Mathlib.TextEquality.{eq_iff}
use worldping_api.Prelude.{
  String, ◌≡◌, not, ◌&&◌, ◌||◌, List, if◌then◌else◌, arith, Bool-cases, inl, inr,
}
use worldping_api.Prelude.Sets.{member, count, add_key, count_zero}

-- `if tag != "" { set[tag] = struct{}{} }`
unfoldable pub add_filled : String → List String → List String
unfolding add_key
add_filled t s = if str_eq t "" then s else add_key str_eq t s

pub count-add_filled :
    (v t : String) (s : List String)
    → count str_eq v (add_filled t s) ≡ (
        if member str_eq v s
        then count str_eq v s
        else if str_eq v t && not (str_eq v "")
        then 1
        else 0)
unfolding add_filled add_key
count-add_filled v t s = elim (Bool-cases (str_eq v t)) [
  | inl e ↦
      let same : v ≡ t = (eq_iff v t).0 e in
      rw (← same) (ground (arith, count_zero str_eq eq_iff v s, eq_iff v v))
  | inr e ↦ ground (arith, count_zero str_eq eq_iff v s)
]

pub member-add_filled :
    (v t : String) (s : List String)
    → member str_eq v (add_filled t s) ≡ (member str_eq v s || (str_eq v t && not (str_eq v "")))
unfolding add_filled add_key
member-add_filled v t s = elim (Bool-cases (str_eq v t)) [
  | inl e ↦ let same : v ≡ t = (eq_iff v t).0 e in rw (← same) (ground (arith, eq_iff v v))
  | inr e ↦ ground (arith)
]
