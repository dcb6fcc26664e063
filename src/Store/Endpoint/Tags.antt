-- ===== src/Store/Endpoint/Tags.antt =====
-- pkg/services/sqlstore/endpoint.go, updateEndpoint: the tags of an endpoint. Each statement is one that
-- the database takes; a table is the list of the tags that its rows for the endpoint hold.
use text.Mathlib.Text.{◌==◌ as str_eq}
use text.Mathlib.TextEquality.{eq_iff}
use worldping_api.Prelude.{
  String, ◌≡◌, refl, ◌∙◌, Bool, true, false, not, Option, none, some, List, [], ◌∷◌, ◌++◌, select,
  arith, if◌then◌else◌, Bool-cases, inl, inr, ap,
}
use worldping_api.Prelude.Assoc.{Assoc, lookup, insert, without, lookup-insert, lookup-without}
use worldping_api.Prelude.Sets.{member, count, add_key, count-append, count-select, count_zero}

-- The loop over the current tags.
mark_existing : List String → Assoc Bool → Assoc Bool
mark_existing [] m = m
mark_existing (t ∷ ts) m = mark_existing ts (insert t false m)

add_missing : Option Bool → String → List String → List String
add_missing none t adds = add_key str_eq t adds
add_missing (some seen) t adds = adds

-- The loop over the new tags, on tagMap and tagsToAddMap.
mark_seen : List String → Assoc Bool → List String → Assoc Bool × List String
unfolding add_missing
mark_seen [] m adds = (m, adds)
mark_seen (t ∷ ts) m adds = mark_seen ts (insert t true m) (add_missing (lookup t m) t adds)

-- The tags of the map that have not been seen.
unseen : Assoc Bool → List String
unseen [] = []
unseen ((t, seen) ∷ m) = let rest = unseen m in if seen then rest else t ∷ rest

-- The tags to delete and the tags to add.
unfoldable pub tag_changes : List String → List String → List String × List String
unfolding mark_existing mark_seen unseen
tag_changes existing new =
    let (m, adds) = mark_seen new (mark_existing existing []) [] in (unseen m, adds)

-- The rows of endpoint_tag after the two statements.
unfoldable pub update_tags : List String → List String → List String → List String
unfolding tag_changes
update_tags existing new rows =
    let (deletes, adds) = tag_changes existing new in
    select (λ t. not (member str_eq t deletes)) rows ++ adds

is_missing : Option Bool → Bool
is_missing none = true
is_missing (some b) = false

is_unseen : Option Bool → Bool
is_unseen (some false) = true
is_unseen _ = false

lookup-mark_existing :
    (j : String) (ts : List String) (m : Assoc Bool)
    → lookup j (mark_existing ts m) ≡ (if member str_eq j ts then some false else lookup j m)
unfolding mark_existing
lookup-mark_existing j [] m = refl
lookup-mark_existing j (t ∷ ts) m = ground (
  arith,
  lookup-mark_existing j ts (insert t false m),
  lookup-insert t j false m,
  eq_iff t j,
  eq_iff j t,
)

lookup-mark_seen :
    (j : String) (ts : List String) (m : Assoc Bool) (adds : List String)
    → lookup j (mark_seen ts m adds).0 ≡ (if member str_eq j ts then some true else lookup j m)
unfolding mark_seen
lookup-mark_seen j [] m adds = refl
lookup-mark_seen j (t ∷ ts) m adds = ground (
  arith,
  lookup-mark_seen j ts (insert t true m) (add_missing (lookup t m) t adds),
  lookup-insert t j true m,
  eq_iff t j,
  eq_iff j t,
)

-- What the step for `t` makes of the count of a tag.
count-add_missing :
    (j t : String) (o : Option Bool) (adds : List String)
    → (is_missing o ≡ true → member str_eq t adds ≡ false)
    → count str_eq j (add_missing o t adds) ≡ (
        if str_eq j t
        then (if is_missing o then 1 else count str_eq j adds)
        else count str_eq j adds)
unfolding is_missing add_missing add_key
count-add_missing j t (some b) adds h = ground (arith)
count-add_missing j t none adds h =
    ground (arith, h refl, count_zero str_eq eq_iff t adds, eq_iff j t)

member-add_missing :
    (j t : String) (o : Option Bool) (adds : List String)
    → str_eq j t ≡ false
    → member str_eq j (add_missing o t adds) ≡ member str_eq j adds
unfolding add_missing add_key
member-add_missing j t (some b) adds e = refl
member-add_missing j t none adds e = ground (arith)

missing-insert :
    (j t : String) (m : Assoc Bool)
    → is_missing (lookup j (insert t true m))
      ≡ (if str_eq j t then false else is_missing (lookup j m))
unfolding is_missing
missing-insert j t m = ground (arith, lookup-insert t j true m, eq_iff j t, eq_iff t j)

-- How often a tag is to be added, when no tag to add is missing from the map.
count-mark_seen :
    (ts : List String) (m : Assoc Bool) (adds : List String)
    → ((j : String) → is_missing (lookup j m) ≡ true → member str_eq j adds ≡ false)
    → (j : String)
    → count str_eq j (mark_seen ts m adds).1 ≡ (
        if is_missing (lookup j m)
        then (if member str_eq j ts then 1 else 0)
        else count str_eq j adds)
unfolding mark_seen
count-mark_seen [] m adds h j = ground (arith, h j, count_zero str_eq eq_iff j adds)
count-mark_seen (t ∷ ts) m adds h j =
    let ih = count-mark_seen ts (insert t true m) (add_missing (lookup t m) t adds) kept j in
    elim (Bool-cases (str_eq j t)) [
      | inl e ↦
          let same : j ≡ t = (eq_iff j t).0 e in
          ground (
            arith,
            ih,
            missing-insert j t m,
            count-add_missing j t (lookup t m) adds (h t),
            ap (λ k. lookup k m) same,
          )
      | inr e ↦
          ground (arith, ih, missing-insert j t m, count-add_missing j t (lookup t m) adds (h t))
    ]
  where
    kept :
        (k : String)
        → is_missing (lookup k (insert t true m)) ≡ true
        → member str_eq k (add_missing (lookup t m) t adds) ≡ false
    kept k missing = elim (Bool-cases (str_eq k t)) [
      | inl e ↦ absurd (ground (arith, missing-insert k t m))
      | inr e ↦
          member-add_missing k t (lookup t m) adds e ∙ h k (ground (arith, missing-insert k t m))
    ]

-- No key of the map stands twice.
abbrev Unique : Assoc Bool → Type 0
Unique [] = Unit
Unique ((k, v) ∷ m) = (lookup k m ≡ none) × Unique m

Unique-without : (k : String) (m : Assoc Bool) → Unique m → Unique (without k m)
unfolding without
Unique-without k [] u = tt
Unique-without k ((j, v) ∷ m) u = elim (Bool-cases (str_eq j k)) [
  | inl e ↦ rw e (Unique-without k m u.1)
  | inr e ↦ rw e (ground (arith, lookup-without k j m, u.0), Unique-without k m u.1)
]

Unique-insert : (k : String) (v : Bool) (m : Assoc Bool) → Unique m → Unique (insert k v m)
unfolding insert
Unique-insert k v m u = (ground (arith, lookup-without k k m, eq_iff k k), Unique-without k m u)

Unique-mark_existing : (ts : List String) (m : Assoc Bool) → Unique m → Unique (mark_existing ts m)
unfolding mark_existing
Unique-mark_existing [] m u = u
Unique-mark_existing (t ∷ ts) m u =
    Unique-mark_existing ts (insert t false m) (Unique-insert t false m u)

Unique-mark_seen :
    (ts : List String) (m : Assoc Bool) (adds : List String)
    → Unique m
    → Unique (mark_seen ts m adds).0
unfolding mark_seen
Unique-mark_seen [] m adds u = u
Unique-mark_seen (t ∷ ts) m adds u =
    Unique-mark_seen ts (insert t true m) _ (Unique-insert t true m u)

member-unseen :
    (j : String) (m : Assoc Bool) → Unique m → member str_eq j (unseen m) ≡ is_unseen (lookup j m)
unfolding unseen is_unseen lookup
member-unseen j [] u = refl
member-unseen j ((k, v) ∷ m) u = elim (Bool-cases (str_eq j k)) [
  | inl e ↦
      let same : j ≡ k = (eq_iff j k).0 e in
      ground (arith, member-unseen j m u.1, u.0, ap (λ t. lookup t m) same, eq_iff k j)
  | inr e ↦ ground (arith, member-unseen j m u.1, eq_iff j k, eq_iff k j)
]

-- The tags to delete are those stored and not given, and a tag is to be added once if it is given
-- and not stored, and else never.
pub tag_changes_lem :
    (existing new : List String) (j : String)
    → (member str_eq j (tag_changes existing new).0
        ≡ (if member str_eq j new then false else member str_eq j existing))
      × (count str_eq j (tag_changes existing new).1
          ≡ (if member str_eq j existing then 0 else if member str_eq j new then 1 else 0))
unfolding tag_changes lookup
tag_changes_lem existing new j =
    let m = mark_existing existing [] in
    let marked = lookup-mark_existing j existing [] in
    let seen = lookup-mark_seen j new m [] in
    let unique = Unique-mark_seen new m [] (Unique-mark_existing existing [] tt) in
    (
      member-unseen j (mark_seen new m []).0 unique
          ∙ rw (seen, marked) (unfold is_unseen in ground (arith)),
      count-mark_seen new m [] (λ k e. refl) j ∙ rw marked (unfold is_missing in ground (arith)),
    )

-- After an update, whatever rows the endpoint had, the rows of a tag are the stored ones if the tag is
-- given and was stored, one row if it is given and was not stored, and none if it is not given: a tag
-- that is given twice is added once. The stored tags are those of the rows.
pub update_tags_lem :
    (existing new rows : List String) (j : String)
    → member str_eq j existing ≡ member str_eq j rows
    → count str_eq j (update_tags existing new rows) ≡ (
        if member str_eq j new
        then (if member str_eq j rows then count str_eq j rows else 1)
        else 0)
unfolding update_tags
update_tags_lem existing new rows j h =
    let changes = tag_changes_lem existing new j in
    let deletes = (tag_changes existing new).0 in
    count-append str_eq j (select (λ t. not (member str_eq t deletes)) rows)
      (tag_changes existing new).1
    ∙ rw
        (
          count-select str_eq eq_iff (λ t. not (member str_eq t deletes)) j rows,
          changes.0,
          changes.1,
          h,
        )
        (ground (arith, count_zero str_eq eq_iff j rows))
