-- ===== src/Store/Endpoint/Samples.antt =====
-- The tags of an endpoint, and a check that is added and updated.
use text.Mathlib.Text.{◌==◌ as str_eq}
use worldping_api.Prelude.{ℕ, ◌≡◌, refl, true, false, some, [], ◌∷◌, arith, ◌==◌, if◌then◌else◌}
use worldping_api.Prelude.Int.{pos}
use worldping_api.Prelude.Sets.{count}
use worldping_api.Alerting.Schedule.{is_due}
use worldping_api.Prelude.{Bool, List, String}
use worldping_api.Store.Endpoint.Checks.{GivenCheck, CheckChanges}
use worldping_api.Store.Endpoint.Tags.{update_tags, update_tags_lem}
use worldping_api.Store.Endpoint.Columns.{
  CheckColumns, WritesNonzero, update_check, update_check_never,
}

update_tags_lem_example :
    count str_eq "new"
      (update_tags ("old" ∷ "kept" ∷ []) ("new" ∷ "kept" ∷ "new" ∷ []) ("old" ∷ "kept" ∷ []))
    ≡ 1
update_tags_lem_example =
    update_tags_lem ("old" ∷ "kept" ∷ []) ("new" ∷ "kept" ∷ "new" ∷ []) ("old" ∷ "kept" ∷ []) "new"
      refl

-- A check of endpoint 40.
abbrev check_every : ℕ → ℕ → CheckColumns
check_every frequency offset = record {
  id = 1;
  endpoint_id = 40;
  frequency = frequency;
  offset = offset;
  enabled = true;
  state = pos 0;
  state_change = 1;
  state_check = 1;
  created = 1;
  updated = 1;
}

abbrev nonzero : ℕ → ℕ → ℕ
nonzero old new = if new == 0 then old else new

abbrev write_nonzero : CheckColumns → CheckColumns → CheckColumns
write_nonzero row c = record c {
  frequency = nonzero row.frequency c.frequency;
  offset = nonzero row.offset c.offset;
}

write_nonzero_laws : WritesNonzero write_nonzero
write_nonzero_laws = record {
  enabled = λ row c. refl;
  frequency = λ row c h. ground (arith);
  offset = λ row c h. ground (arith);
  zero_offset = λ row c h. ground (arith);
}

update_check_never_example :
    (c' : CheckColumns) × (update_check write_nonzero 9 (check_every 60 40) (check_every 10 40)
      ≡ some c')
    × ((ts : ℕ) → is_due ts c'.enabled c'.frequency c'.offset ≡ false)
update_check_never_example =
    update_check_never write_nonzero write_nonzero_laws 9 (check_every 60 40) (check_every 10 40)
      (ground (arith)) refl (ground (arith))

abbrev given_check : ℕ → String → String → GivenCheck
given_check id type body = record { id = id; type = type; body = body }

abbrev same_body : GivenCheck → GivenCheck → Bool
same_body a b = str_eq a.body b.body

abbrev stored_checks : List GivenCheck
stored_checks = given_check 1 "http" "a" ∷ given_check 2 "ping" "b" ∷ []

abbrev new_checks : List GivenCheck
new_checks = given_check 1 "http" "c" ∷ given_check 0 "dns" "d" ∷ []

abbrev three_changes : CheckChanges
three_changes = record {
  adds = given_check 0 "dns" "d" ∷ [];
  updates = given_check 1 "http" "c" ∷ [];
  deletes = given_check 2 "ping" "b" ∷ [];
}
