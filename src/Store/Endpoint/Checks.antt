-- ===== src/Store/Endpoint/Checks.antt =====
-- pkg/services/sqlstore/endpoint.go, updateEndpoint: which checks of an endpoint are added, updated and
-- deleted. Whether two checks are the same as JSON is a parameter, and whether the endpoint's slug has
-- changed an argument.
use text.Mathlib.Text.{◌==◌ as str_eq}
use worldping_api.Prelude.{
  ℕ, String, ◌≡◌, Bool, true, false, not, ◌||◌, Option, none, some, List, [], ◌∷◌, map, any, select,
  All, ◌==◌, if◌then◌else◌, Outcome, ok, err,
}
use worldping_api.Prelude.Assoc.{Assoc, lookup, insert}

-- m.Check, by the fields that the comparison reads and the rest as one text.
pub record GivenCheck : Type 0 where
  pub id : ℕ
  pub type : String
  pub body : String

pub data CheckConflict : Type 0 where
  already_defined : String → CheckConflict

pub record CheckChanges : Type 0 where
  pub adds : List GivenCheck
  pub updates : List GivenCheck
  pub deletes : List GivenCheck

-- The loop over the existing checks.
check_map : List GivenCheck → Assoc GivenCheck → Assoc GivenCheck
check_map [] m = m
check_map (c ∷ cs) m = check_map cs (insert c.type c m)

add_to : GivenCheck → Outcome CheckConflict CheckChanges → Outcome CheckConflict CheckChanges
add_to c (err e) = err e
add_to c (ok ch) = ok (record ch { adds = c ∷ ch.adds })

update_to :
    Bool → GivenCheck → Outcome CheckConflict CheckChanges → Outcome CheckConflict CheckChanges
update_to changed c (err e) = err e
update_to changed c (ok ch) =
    ok (record ch { updates = if changed then c ∷ ch.updates else ch.updates })

-- Whether the list has a check of the type.
unfoldable pub has_type : String → List GivenCheck → Bool
has_type t = any λ c. str_eq t c.type

module _ (same_json : GivenCheck → GivenCheck → Bool) (renamed : Bool) where
  -- One pass of the loop over the given checks, with what the later passes make.
  place :
      GivenCheck
      → Option GivenCheck
      → Outcome CheckConflict CheckChanges
      → Outcome CheckConflict CheckChanges
  unfolding add_to update_to
  place c none later = add_to c later
  place c (some ec) later =
      if c.id == ec.id
      then update_to (not (same_json ec c) || renamed) c later
      else err (already_defined c.type)

  place_all :
      Assoc GivenCheck → List GivenCheck → List GivenCheck → Outcome CheckConflict CheckChanges
  unfolding place
  place_all m gone [] = ok (record { adds = []; updates = []; deletes = gone })
  place_all m gone (c ∷ cs) = place c (lookup c.type m) (place_all m gone cs)

  unfoldable pub diff_checks :
      List GivenCheck → List GivenCheck → Outcome CheckConflict CheckChanges
  unfolding check_map place_all has_type
  diff_checks existing given =
      let m = check_map existing [] in
      place_all m (map (λ e. e.1) (select (λ e. not (has_type e.0 given)) m)) given

is_there : Option GivenCheck → Bool
is_there none = false
is_there (some c) = true

-- Every entry stands under its own type.
abbrev Keyed : Assoc GivenCheck → Type 0
Keyed = All λ e. e.1.type ≡ e.0
