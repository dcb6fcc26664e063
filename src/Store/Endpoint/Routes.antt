-- ===== src/Store/Endpoint/Routes.antt =====
-- pkg/services/sqlstore/endpoint.go, addCheckRoutes, deleteCheckRoutes and updateCheck: the two index
-- tables of the routes, with the unique indexes that pkg/services/sqlstore/migrations/check.go gives
-- them on the check with its tag or its probe. The database takes every other statement; the rows of a
-- check are the tags and the ids that they hold. A type assertion that fails is a panic: `none`.
pub mod Indexed
pub mod Rows
mod Samples
use text.Mathlib.Text.{◌==◌ as str_eq}
use worldping_api.Prelude.{
  ℕ, String, Bool, true, false, not, Option, none, some, List, [], ◌∷◌, ◌++◌, select, ◌==◌,
  if◌then◌else◌, Outcome, ok, err,
}
use worldping_api.Prelude.Assoc.{Assoc, lookup}
use worldping_api.Prelude.Sets.{member, enter}
use worldping_api.Models.Route.{RouteValue, tags, ids, CheckRoute}

-- The rows of route_by_tag_index and of route_by_id_index for one check.
pub record RouteRows : Type 0 where
  pub by_tag : List String
  pub by_id : List ℕ

pub data RouteError : Type 0 where
  unknown_route_type duplicate_row : RouteError

abbrev pub no_rows : RouteRows
no_rows = record { by_tag = []; by_id = [] }

-- `c.Route.Config["tags"].([]string)`
unfoldable pub tags_of : Option RouteValue → Option (List String)
tags_of (some (tags ts)) = some ts
tags_of _ = none

-- `c.Route.Config["ids"].([]int64)`
unfoldable pub ids_of : Option RouteValue → Option (List ℕ)
ids_of (some (ids ns)) = some ns
ids_of _ = none

-- An insert of rows for the keys, in their order: a row that is there already is an error, `none`.
unfoldable pub insert_rows : {A : Type 0} → (A → A → Bool) → List A → List A → Option (List A)
insert_rows same [] rows = some rows
insert_rows same (k ∷ ks) rows =
    let rest = insert_rows same ks (rows ++ k ∷ []) in if member same k rows then none else rest

-- The rows that the statements leave, or their error.
stored_tags : RouteRows → Option (List String) → Outcome RouteError RouteRows
stored_tags rows none = err duplicate_row
stored_tags rows (some ts) = ok (record rows { by_tag = ts })

stored_ids : RouteRows → Option (List ℕ) → Outcome RouteError RouteRows
stored_ids rows none = err duplicate_row
stored_ids rows (some ns) = ok (record rows { by_id = ns })

add_tags : Option (List String) → RouteRows → Option (Outcome RouteError RouteRows)
unfolding stored_tags
add_tags none rows = none
add_tags (some ts) rows = some (stored_tags rows (insert_rows str_eq ts rows.by_tag))

add_ids : Option (List ℕ) → RouteRows → Option (Outcome RouteError RouteRows)
unfolding stored_ids
add_ids none rows = none
add_ids (some ns) rows = some (stored_ids rows (insert_rows ◌==◌ ns rows.by_id))

unfoldable pub add_check_routes : CheckRoute → RouteRows → Option (Outcome RouteError RouteRows)
unfolding add_tags add_ids
add_check_routes r rows =
    if str_eq r.type "byTags"
    then add_tags (tags_of (lookup "tags" r.config)) rows
    else if str_eq r.type "byIds"
    then add_ids (ids_of (lookup "ids" r.config)) rows
    else some (err unknown_route_type)

-- Both statements of deleteCheckRoutes.
unfoldable pub delete_check_routes : RouteRows → RouteRows
delete_check_routes rows = no_rows

module _ {A : Type 0} (same : A → A → Bool) where
  -- One case of the switch: the rows of the keys that are gone are deleted, key by key, and a row is
  -- inserted for each key of the list that was not there.
  unfoldable pub update_index : List A → List A → List A → Option (List A)
  update_index existing current rows =
      let existing_keys = enter same existing [] in
      let current_keys = enter same current [] in
      let to_add = select (λ k. not (member same k existing_keys)) current in
      let to_del = select (λ k. not (member same k current_keys)) existing_keys in
      insert_rows same to_add (select (λ k. not (member same k to_del)) rows)

update_tag_index :
    Option (List String) → Option (List String) → RouteRows → Option (Outcome RouteError RouteRows)
unfolding stored_tags
update_tag_index (some old) (some new) rows =
    some (stored_tags rows (update_index str_eq old new rows.by_tag))
update_tag_index _ _ rows = none

update_id_index :
    Option (List ℕ) → Option (List ℕ) → RouteRows → Option (Outcome RouteError RouteRows)
unfolding stored_ids
update_id_index (some old) (some new) rows =
    some (stored_ids rows (update_index ◌==◌ old new rows.by_id))
update_id_index _ _ rows = none

-- The part of updateCheck that handles the routes.
unfoldable pub update_routes :
    CheckRoute → CheckRoute → RouteRows → Option (Outcome RouteError RouteRows)
unfolding update_tag_index update_id_index
update_routes existing r rows =
    if not (str_eq existing.type r.type)
    then add_check_routes r (delete_check_routes rows)
    else if str_eq r.type "byTags"
    then update_tag_index (tags_of (lookup "tags" existing.config))
        (tags_of (lookup "tags" r.config)) rows
    else if str_eq r.type "byIds"
    then update_id_index (ids_of (lookup "ids" existing.config)) (ids_of (lookup "ids" r.config))
        rows
    else some (err unknown_route_type)
