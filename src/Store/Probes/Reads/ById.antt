-- ===== src/Store/Probes/Reads/ById.antt =====
-- pkg/services/sqlstore/probe.go, getProbeById: the probe that is read, and its tags.
use text.Mathlib.Text.{◌==◌ as str_eq}
use mathlib.Core.Path.{subst}
use worldping_api.Prelude.{
  ℕ, String, ◌≡◌, refl, sym, ◌∙◌, Bool, true, false, not, ◌&&◌, ◌||◌, List, [], ◌∷◌, ◌++◌, map, any,
  select, All, All-append, All-any, any-map_self, ◌==◌, ==_iff, if◌then◌else◌, arith, Bool-cases,
  inl, inr, ok, err,
}
use worldping_api.Prelude.Sets.{member, count}
use worldping_api.Store.Probes.{ProbeRow}
use worldping_api.Store.Probes.Reads.{
  ProbeDto, ProbeDb, probe_not_found, ProbeWithTag, or_blank, join_ips, join_tags, tags_given,
  addresses_of, joined, joined_all, add_row, add_rows, to_probe_dto, is_visible, first_dto,
  get_probe_by_id,
}
use worldping_api.Store.Probes.Reads.Grouping.{tags_at, dtos_of, has_value, to_probe_dto_lem}

-- What holds of every row that is joined holds of every DTO.
add_row-All :
    (Q : ProbeRow → Type 0) (r : ProbeWithTag) (ds : List ProbeDto)
    → Q r.probe
    → All (λ d. Q d.probe) ds
    → All (λ d. Q d.probe) (add_row r ds)
unfolding add_row
add_row-All Q r [] q a = (q, tt)
add_row-All Q r (d ∷ ds) q a = elim (Bool-cases (d.probe.id == r.probe.id)) [
  | inl e ↦ rw e a
  | inr e ↦ rw e (a.0, add_row-All Q r ds q a.1)
]

add_rows-All :
    (Q : ProbeRow → Type 0) (rows : List ProbeWithTag) (ds : List ProbeDto)
    → All (λ r. Q r.probe) rows
    → All (λ d. Q d.probe) ds
    → All (λ d. Q d.probe) (add_rows rows ds)
unfolding add_rows
add_rows-All Q [] ds q a = a
add_rows-All Q (r ∷ rows) ds q a = add_rows-All Q rows (add_row r ds) q.1 (add_row-All Q r ds q.0 a)

join_ips-All :
    (Q : ProbeRow → Type 0) (p : ProbeRow) (ips : List String) (t : String)
    → Q p
    → All (λ r. Q r.probe) (join_ips p ips t)
unfolding join_ips
join_ips-All Q p [] t q = tt
join_ips-All Q p (ip ∷ ips) t q = (q, join_ips-All Q p ips t q)

join_tags-All :
    (Q : ProbeRow → Type 0) (p : ProbeRow) (ts ips : List String)
    → Q p
    → All (λ r. Q r.probe) (join_tags p ts ips)
unfolding join_tags
join_tags-All Q p [] ips q = tt
join_tags-All Q p (t ∷ ts) ips q =
    All-append _ (join_ips p ips t) (join_tags p ts ips) (join_ips-All Q p ips t q)
      (join_tags-All Q p ts ips q)

joined-All :
    (Q : ProbeRow → Type 0) (org : ℕ) (db : ProbeDb) (v : ProbeRow → Bool) (ps : List ProbeRow)
    → All (λ p. v p ≡ true → Q p) ps
    → All (λ r. Q r.probe) (joined_all org db (select v ps))
unfolding joined_all joined
joined-All Q org db v [] a = tt
joined-All Q org db v (p ∷ ps) a = elim (Bool-cases (v p)) [
  | inl e ↦ rw e (
      All-append _ (joined org db p) (joined_all org db (select v ps))
        (join_tags-All Q p (or_blank (tags_given org p.id db.tags))
          (or_blank (addresses_of p.id db.sessions)) (a.0 e))
        (joined-All Q org db v ps a.1))
  | inr e ↦ rw e (joined-All Q org db v ps a.1)
]

first_dto-All :
    (Q : ProbeDto → Type 0) (ds : List ProbeDto) (d : ProbeDto)
    → All Q ds
    → first_dto ds ≡ ok d
    → Q d
unfolding first_dto
first_dto-All Q [] d a e = cc
first_dto-All Q (x ∷ ds) d a e = let same : x ≡ d = cc in subst Q same a.0

-- What holds of the visible rows of an id holds of the probe that is read.
pub get_probe_by_id-All :
    (Q : ProbeRow → Type 0) (id org : ℕ) (db : ProbeDb) (d : ProbeDto)
    → All (λ p. is_visible id org p ≡ true → Q p) db.probes
    → get_probe_by_id id org db ≡ ok d
    → Q d.probe
unfolding get_probe_by_id to_probe_dto
get_probe_by_id-All Q id org db d a e =
    let rows = joined_all org db (select (is_visible id org) db.probes) in
    first_dto-All (λ d. Q d.probe) (add_rows rows []) d
      (add_rows-All Q rows [] (joined-All Q org db (is_visible id org) db.probes a) tt) e

pub is_visible_id : (id org : ℕ) (p : ProbeRow) → is_visible id org p ≡ true → p.id ≡ id
unfolding is_visible
is_visible_id id org p e = ground (arith, ==_iff p.id id)

pub All-visible :
    (id org : ℕ) (ps : List ProbeRow) → All (λ p. is_visible id org p ≡ true → p.id ≡ id) ps
All-visible id org [] = tt
All-visible id org (p ∷ ps) = (is_visible_id id org p, All-visible id org ps)

has_value-append :
    (c : ProbeWithTag → String) (id : ℕ) (v : String) (xs ys : List ProbeWithTag)
    → has_value c id v (xs ++ ys) ≡ (has_value c id v xs || has_value c id v ys)
has_value-append c id v [] ys = refl
has_value-append c id v (x ∷ xs) ys = ground (arith, has_value-append c id v xs ys)

has_value-join_ips :
    (p : ProbeRow) (ip : String) (ips : List String) (t v : String)
    → has_value (λ r. r.tag) p.id v (join_ips p (ip ∷ ips) t) ≡ (str_eq v t && not (str_eq v ""))
unfolding join_ips
has_value-join_ips p ip [] t v = ground (arith, ==_iff p.id p.id)
has_value-join_ips p ip (i ∷ ips) t v =
    ground (arith, has_value-join_ips p i ips t v, ==_iff p.id p.id)

has_value-join_tags :
    (p : ProbeRow) (ts : List String) (ip : String) (ips : List String) (v : String)
    → has_value (λ r. r.tag) p.id v (join_tags p ts (ip ∷ ips))
      ≡ (member str_eq v ts && not (str_eq v ""))
unfolding join_tags
has_value-join_tags p [] ip ips v = refl
has_value-join_tags p (t ∷ ts) ip ips v =
    has_value-append (λ r. r.tag) p.id v (join_ips p (ip ∷ ips) t) (join_tags p ts (ip ∷ ips))
    ∙ rw (has_value-join_ips p ip ips t v, has_value-join_tags p ts ip ips v) (ground (arith))

or_blank-filled : (xs : List String) → (x : String) × (ys : List String) × (or_blank xs ≡ x ∷ ys)
unfolding or_blank
or_blank-filled [] = ("", [], refl)
or_blank-filled (x ∷ xs) = (x, xs, refl)

member-or_blank :
    (v : String) (xs : List String)
    → (member str_eq v (or_blank xs) && not (str_eq v ""))
      ≡ (member str_eq v xs && not (str_eq v ""))
unfolding or_blank
member-or_blank v [] = ground (arith)
member-or_blank v (x ∷ xs) = refl

has_value-joined :
    (org : ℕ) (db : ProbeDb) (p : ProbeRow) (v : String)
    → has_value (λ r. r.tag) p.id v (joined org db p)
      ≡ (member str_eq v (tags_given org p.id db.tags) && not (str_eq v ""))
unfolding joined
has_value-joined org db p v =
    let (ip, ips, filled) = or_blank-filled (addresses_of p.id db.sessions) in
    rw filled (
      has_value-join_tags p (or_blank (tags_given org p.id db.tags)) ip ips v
      ∙ member-or_blank v (tags_given org p.id db.tags))

-- The rows of the visible probes of an id have the tags of that id, if there is such a probe.
has_value-joined_all :
    (id org : ℕ) (db : ProbeDb) (v : String) (ps : List ProbeRow)
    → has_value (λ r. r.tag) id v (joined_all org db (select (is_visible id org) ps)) ≡ (
        any (is_visible id org) ps
        && (member str_eq v (tags_given org id db.tags) && not (str_eq v "")))
unfolding joined_all
has_value-joined_all id org db v [] = refl
has_value-joined_all id org db v (p ∷ ps) = elim (Bool-cases (is_visible id org p)) [
  | inl e ↦
      let at : p.id ≡ id = (All-visible id org (p ∷ [])).0 e in
      rw
        (
          e,
          has_value-append (λ r. r.tag) id v (joined org db p)
              (joined_all org db (select (is_visible id org) ps)),
          ← at,
        )
        (rw (has_value-joined org db p v, has_value-joined_all p.id org db v ps) (ground (arith)))
  | inr e ↦ rw e (has_value-joined_all id org db v ps)
]

has_row-append :
    (id : ℕ) (xs ys : List ProbeWithTag)
    → any (λ r. r.probe.id == id) (xs ++ ys)
      ≡ (any (λ r. r.probe.id == id) xs || any (λ r. r.probe.id == id) ys)
has_row-append id [] ys = refl
has_row-append id (x ∷ xs) ys = ground (arith, has_row-append id xs ys)

has_row-joined :
    (org : ℕ) (db : ProbeDb) (p : ProbeRow) → any (λ r. r.probe.id == p.id) (joined org db p) ≡ true
unfolding joined join_tags join_ips
has_row-joined org db p =
    let (t, ts, some_tag) = or_blank-filled (tags_given org p.id db.tags) in
    let (ip, ips, some_ip) = or_blank-filled (addresses_of p.id db.sessions) in
    rw (some_tag, some_ip) (ground (arith, ==_iff p.id p.id))

has_row-joined_all :
    (id org : ℕ) (db : ProbeDb) (ps : List ProbeRow)
    → any (is_visible id org) ps ≡ true
    → any (λ r. r.probe.id == id) (joined_all org db (select (is_visible id org) ps)) ≡ true
unfolding joined_all
has_row-joined_all id org db [] h = cc
has_row-joined_all id org db (p ∷ ps) h = elim (Bool-cases (is_visible id org p)) [
  | inl e ↦
      let at : p.id ≡ id = (All-visible id org (p ∷ [])).0 e in
      rw
        (
          e,
          has_row-append id (joined org db p) (joined_all org db (select (is_visible id org) ps)),
          ← at,
        )
        (rw (has_row-joined org db p) refl)
  | inr e ↦ rw e (has_row-joined_all id org db ps (rw e at h))
]

first_dto-found :
    (id : ℕ) (ds : List ProbeDto) → dtos_of id ds ≡ 1 → (d : ProbeDto) × (first_dto ds ≡ ok d)
unfolding first_dto
first_dto-found id [] h = absurd (ground arith)
first_dto-found id (d ∷ ds) h = (d, refl)

-- A probe that the organisation may see is read.
pub get_probe_by_id-found :
    (id org : ℕ) (db : ProbeDb)
    → any (is_visible id org) db.probes ≡ true
    → (d : ProbeDto) × (get_probe_by_id id org db ≡ ok d)
unfolding get_probe_by_id
get_probe_by_id-found id org db h =
    let rows = joined_all org db (select (is_visible id org) db.probes) in
    first_dto-found id (to_probe_dto rows)
      ((to_probe_dto_lem rows id "").0 ∙ rw (has_row-joined_all id org db db.probes h) refl)

pub get_probe_by_id-visible :
    (id org : ℕ) (db : ProbeDb) (d : ProbeDto)
    → get_probe_by_id id org db ≡ ok d
    → any (is_visible id org) db.probes ≡ true
get_probe_by_id-visible id org db d e =
    sym (any-map_self (is_visible id org) db.probes)
    ∙ get_probe_by_id-All (λ p. any (is_visible id org) (map (λ x. x) db.probes) ≡ true) id org db d
        (All-any (λ p. is_visible id org p ≡ true) (is_visible id org) (λ x. x) db.probes
          (λ x h. h))
        e

first_dto-tags :
    (id : ℕ) (ds : List ProbeDto) (d : ProbeDto)
    → first_dto ds ≡ ok d
    → d.probe.id ≡ id
    → tags_at id ds ≡ d.tags
unfolding first_dto
first_dto-tags id [] d e h = cc
first_dto-tags id (x ∷ ds) d e h = let same : x ≡ d = cc in rw (same, h, (==_iff id id).1 refl) refl

-- The tags of the probe that is read are those that the organisation has given it, each once and none empty.
pub get_probe_by_id-tags :
    (id org : ℕ) (db : ProbeDb) (d : ProbeDto) (v : String)
    → get_probe_by_id id org db ≡ ok d
    → count str_eq v d.tags
      ≡ (if member str_eq v (tags_given org id db.tags) && not (str_eq v "") then 1 else 0)
unfolding get_probe_by_id
get_probe_by_id-tags id org db d v e =
    let rows = joined_all org db (select (is_visible id org) db.probes) in
    let at = get_probe_by_id-All (λ p. p.id ≡ id) id org db d (All-visible id org db.probes) e in
    rw (← (first_dto-tags id (to_probe_dto rows) d e at)) (
      (to_probe_dto_lem rows id v).1
      ∙ rw (has_value-joined_all id org db v db.probes, get_probe_by_id-visible id org db d e) refl)

select_none : {A : Type 0} (p : A → Bool) (xs : List A) → any p xs ≡ false → select p xs ≡ []
select_none p [] h = refl
select_none p (x ∷ xs) h = elim (Bool-cases (p x)) [
  | inl e ↦ absurd (ground (arith))
  | inr e ↦ rw e (select_none p xs (rw e at h))
]

pub get_probe_by_id-gone :
    (id org : ℕ) (db : ProbeDb)
    → any (is_visible id org) db.probes ≡ false
    → get_probe_by_id id org db ≡ err probe_not_found
unfolding get_probe_by_id to_probe_dto joined_all add_rows first_dto
get_probe_by_id-gone id org db h = rw (select_none (is_visible id org) db.probes h) refl
