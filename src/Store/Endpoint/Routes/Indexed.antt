-- ===== src/Store/Endpoint/Routes/Indexed.antt =====
-- pkg/services/sqlstore/endpoint.go, updateCheck: the index tables hold the route of the check.
use text.Mathlib.Text.{◌==◌ as str_eq}
use text.Mathlib.TextEquality.{eq_iff}
use worldping_api.Prelude.{
  ℕ, String, ◌≡◌, ◌⊎◌, refl, ◌∙◌, Bool, true, false, ◌||◌, Option, none, some, List, [], ◌∷◌, ◌==◌,
  ==_iff, if◌then◌else◌, inl, inr, ok, err, sym,
}
use worldping_api.Prelude.Assoc.{lookup}
use worldping_api.Prelude.Sets.{member}
use worldping_api.Models.Route.{tags, ids, CheckRoute}
use worldping_api.Store.Endpoint.Routes.Rows.{repeats, update_index_cases, insert_rows_cases}
use worldping_api.Store.Endpoint.Routes.{
  RouteRows, duplicate_row, no_rows, tags_of, ids_of, add_check_routes, delete_check_routes,
  update_routes, stored_tags, stored_ids, add_tags, add_ids, update_tag_index, update_id_index,
}

-- A route as UnmarshalJSON leaves one that passes the validation.
abbrev pub IsStored : CheckRoute → Type 0
IsStored r =
    ((r.type ≡ "byTags") × (ts : List String) × (r.config ≡ ("tags", tags ts) ∷ []))
    ⊎ ((r.type ≡ "byIds") × (ns : List ℕ) × (r.config ≡ ("ids", ids ns) ∷ []))

-- The tags and the ids of a route, by its type.
abbrev pub route_tags : CheckRoute → List String
route_tags r = if str_eq r.type "byTags" then or_empty (tags_of (lookup "tags" r.config)) else []
  where
    or_empty : Option (List String) → List String
    or_empty none = []
    or_empty (some ts) = ts

abbrev pub route_ids : CheckRoute → List ℕ
route_ids r = if str_eq r.type "byIds" then or_empty (ids_of (lookup "ids" r.config)) else []
  where
    or_empty : Option (List ℕ) → List ℕ
    or_empty none = []
    or_empty (some ns) = ns

-- The index tables hold the tags and the ids of the route and no others.
pub record Indexes (r : CheckRoute) (rows : RouteRows) : Type 0 where
  pub by_tag : (t : String) → member str_eq t rows.by_tag ≡ member str_eq t (route_tags r)
  pub by_id : (i : ℕ) → member ◌==◌ i rows.by_id ≡ member ◌==◌ i (route_ids r)

-- What the switch reads of a route by tags.
record ByTags (r : CheckRoute) (ts : List String) : Type 0 where
  tagged : str_eq r.type "byTags" ≡ true
  not_ids : str_eq r.type "byIds" ≡ false
  config : tags_of (lookup "tags" r.config) ≡ some ts

record ByIds (r : CheckRoute) (ns : List ℕ) : Type 0 where
  not_tags : str_eq r.type "byTags" ≡ false
  with_ids : str_eq r.type "byIds" ≡ true
  config : ids_of (lookup "ids" r.config) ≡ some ns

by_tags :
    (r : CheckRoute) (ts : List String)
    → r.type ≡ "byTags"
    → r.config ≡ ("tags", tags ts) ∷ []
    → ByTags r ts
unfolding lookup tags_of
by_tags r ts e c = record { tagged = rw e refl; not_ids = rw e refl; config = rw c refl }

by_ids :
    (r : CheckRoute) (ns : List ℕ) → r.type ≡ "byIds" → r.config ≡ ("ids", ids ns) ∷ [] → ByIds r ns
unfolding lookup ids_of
by_ids r ns e c = record { not_tags = rw e refl; with_ids = rw e refl; config = rw c refl }

-- Whether two routes are of one type.
types_differ :
    (a b : CheckRoute) (k l : String) → a.type ≡ k → b.type ≡ l → str_eq a.type b.type ≡ str_eq k l
types_differ a b k l e f = rw (e, f) refl

-- Whether a route gives a tag or an id twice.
abbrev pub route_repeats : CheckRoute → Bool
route_repeats r = repeats str_eq (route_tags r) || repeats ◌==◌ (route_ids r)

-- What an update makes of the route and the rows.
abbrev pub Updated : CheckRoute → CheckRoute → RouteRows → Type 0
Updated existing r rows =
    ((rows' : RouteRows) × (update_routes existing r rows ≡ some (ok rows')) × Indexes r rows')
    ⊎ ((update_routes existing r rows ≡ some (err duplicate_row)) × (route_repeats r ≡ true))

-- When the rows of a check are those of its stored route, an update to a route that passes the
-- validation does not panic, whether the type of the route changes or not. It leaves the rows those of
-- the new route, the same tags and the same ids, unless the new route gives a tag or an id twice: only
-- then may it fail, with the error of the unique index.
pub update_routes-Indexes :
    (existing r : CheckRoute) (rows : RouteRows)
    → IsStored existing
    → IsStored r
    → Indexes existing rows
    → Updated existing r rows
unfolding update_routes add_check_routes delete_check_routes update_tag_index update_id_index
    add_tags add_ids stored_tags stored_ids
update_routes-Indexes existing r rows (inl (et, old, ec)) (inl (rt, new, rc)) h =
    let e = by_tags existing old et ec in
    let n = by_tags r new rt rc in
    let start = types_differ existing r "byTags" "byTags" et rt in
    elim (update_index_cases str_eq eq_iff old new rows.by_tag
      (λ t. sym (h.by_tag t ∙ rw (e.tagged, e.config) refl))) [
        | inl (out, made, same) ↦ inl (
          record rows { by_tag = out },
          rw (start, n.tagged, e.config, n.config, made) refl,
          record {
            by_tag = λ t. rw (n.tagged, n.config) (same t);
            by_id = λ i. rw n.not_ids (h.by_id i ∙ rw e.not_ids refl);
          },
        )
        | inr (failed, twice) ↦ inr (
          rw (start, n.tagged, e.config, n.config, failed) refl,
          rw (n.tagged, n.config, twice) refl,
        )
      ]
update_routes-Indexes existing r rows (inl (et, old, ec)) (inr (rt, new, rc)) h =
    let n = by_ids r new rt rc in
    let start = types_differ existing r "byTags" "byIds" et rt in
    elim (insert_rows_cases ◌==◌ ==_iff new) [
      | inl (out, made, same) ↦ inl (
        record no_rows { by_id = out },
        rw (start, n.not_tags, n.with_ids, n.config, made) refl,
        record {
          by_tag = λ t. rw n.not_tags refl;
          by_id = λ i. rw (n.with_ids, n.config) (same i);
        },
      )
      | inr (failed, twice) ↦ inr (
        rw (start, n.not_tags, n.with_ids, n.config, failed) refl,
        rw (n.not_tags, n.with_ids, n.config, twice) refl,
      )
    ]
update_routes-Indexes existing r rows (inr (et, old, ec)) (inl (rt, new, rc)) h =
    let n = by_tags r new rt rc in
    let start = types_differ existing r "byIds" "byTags" et rt in
    elim (insert_rows_cases str_eq eq_iff new) [
      | inl (out, made, same) ↦ inl (
        record no_rows { by_tag = out },
        rw (start, n.tagged, n.config, made) refl,
        record { by_tag = λ t. rw (n.tagged, n.config) (same t); by_id = λ i. rw n.not_ids refl },
      )
      | inr (failed, twice) ↦
          inr (rw (start, n.tagged, n.config, failed) refl, rw (n.tagged, n.config, twice) refl)
    ]
update_routes-Indexes existing r rows (inr (et, old, ec)) (inr (rt, new, rc)) h =
    let e = by_ids existing old et ec in
    let n = by_ids r new rt rc in
    let start = types_differ existing r "byIds" "byIds" et rt in
    elim (update_index_cases ◌==◌ ==_iff old new rows.by_id
      (λ i. sym (h.by_id i ∙ rw (e.with_ids, e.config) refl))) [
        | inl (out, made, same) ↦ inl (
          record rows { by_id = out },
          rw (start, n.not_tags, n.with_ids, e.config, n.config, made) refl,
          record {
            by_tag = λ t. rw n.not_tags (h.by_tag t ∙ rw e.not_tags refl);
            by_id = λ i. rw (n.with_ids, n.config) (same i);
          },
        )
        | inr (failed, twice) ↦ inr (
          rw (start, n.not_tags, n.with_ids, e.config, n.config, failed) refl,
          rw (n.not_tags, n.with_ids, n.config, twice) refl,
        )
      ]
