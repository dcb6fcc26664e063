-- ===== src/Store/Probes/Reads/Grouping.antt =====
-- pkg/services/sqlstore/probe.go, ToProbeDTO: the rows of a join are grouped by the probe.
use text.Mathlib.Text.{◌==◌ as str_eq}
use text.Mathlib.TextEquality.{eq_iff}
use worldping_api.Prelude.{
  ℕ, String, ◌≡◌, refl, ◌∙◌, Bool, not, ◌&&◌, List, [], ◌∷◌, any, count_if, max, ◌==◌, ==_iff,
  if◌then◌else◌, arith,
}
use worldping_api.Prelude.Sets.{member, count, count_zero}
use worldping_api.Store.Joined.{add_filled, count-add_filled, member-add_filled}
use worldping_api.Store.Probes.Reads.{ProbeDto, ProbeWithTag, add_row, add_rows, to_probe_dto}

-- The tags and the addresses of the first DTO of a probe.
abbrev pub tags_at : ℕ → List ProbeDto → List String
tags_at id [] = []
tags_at id (d ∷ ds) = let rest = tags_at id ds in if d.probe.id == id then d.tags else rest

abbrev pub addresses_at : ℕ → List ProbeDto → List String
addresses_at id [] = []
addresses_at id (d ∷ ds) =
    let rest = addresses_at id ds in if d.probe.id == id then d.remote_ip else rest

abbrev pub dtos_of : ℕ → List ProbeDto → ℕ
dtos_of id = count_if λ d. d.probe.id == id

-- Whether a row of the probe has the value, which is not empty, in a column.
abbrev pub has_value : (ProbeWithTag → String) → ℕ → String → List ProbeWithTag → Bool
has_value column id v = any λ r. r.probe.id == id && (str_eq v (column r) && not (str_eq v ""))

tags_at-add_row :
    (id : ℕ) (r : ProbeWithTag) (ds : List ProbeDto)
    → tags_at id (add_row r ds)
      ≡ (if r.probe.id == id then add_filled r.tag (tags_at id ds) else tags_at id ds)
unfolding add_row
tags_at-add_row id r [] = refl
tags_at-add_row id r (d ∷ ds) = ground (
  arith,
  tags_at-add_row id r ds,
  ==_iff d.probe.id r.probe.id,
  ==_iff d.probe.id id,
  ==_iff r.probe.id id,
)

addresses_at-add_row :
    (id : ℕ) (r : ProbeWithTag) (ds : List ProbeDto)
    → addresses_at id (add_row r ds) ≡ (
        if r.probe.id == id
        then add_filled r.remote_ip (addresses_at id ds)
        else addresses_at id ds)
unfolding add_row
addresses_at-add_row id r [] = refl
addresses_at-add_row id r (d ∷ ds) = ground (
  arith,
  addresses_at-add_row id r ds,
  ==_iff d.probe.id r.probe.id,
  ==_iff d.probe.id id,
  ==_iff r.probe.id id,
)

dtos_of-add_row :
    (id : ℕ) (r : ProbeWithTag) (ds : List ProbeDto)
    → dtos_of id (add_row r ds)
      ≡ (if r.probe.id == id then max 1 (dtos_of id ds) else dtos_of id ds)
unfolding add_row
dtos_of-add_row id r [] = ground (arith)
dtos_of-add_row id r (d ∷ ds) = ground (
  arith,
  dtos_of-add_row id r ds,
  ==_iff d.probe.id r.probe.id,
  ==_iff d.probe.id id,
  ==_iff r.probe.id id,
)

dtos_of-add_rows :
    (id : ℕ) (rows : List ProbeWithTag) (ds : List ProbeDto)
    → dtos_of id (add_rows rows ds)
      ≡ (if any (λ r. r.probe.id == id) rows then max 1 (dtos_of id ds) else dtos_of id ds)
unfolding add_rows
dtos_of-add_rows id [] ds = refl
dtos_of-add_rows id (r ∷ rows) ds =
    dtos_of-add_rows id rows (add_row r ds) ∙ rw (dtos_of-add_row id r ds) (ground arith)

-- One column of the rows, and what the rows make of it.
module _ (column : ProbeWithTag → String) (values_at : ℕ → List ProbeDto → List String)
    (values_at-add_row : (id : ℕ) (r : ProbeWithTag) (ds : List ProbeDto)
      → values_at id (add_row r ds) ≡ (
          if r.probe.id == id
          then add_filled (column r) (values_at id ds)
          else values_at id ds)) where
  count-add_rows :
      (id : ℕ) (v : String) (rows : List ProbeWithTag) (ds : List ProbeDto)
      → count str_eq v (values_at id (add_rows rows ds)) ≡ (
          if member str_eq v (values_at id ds)
          then count str_eq v (values_at id ds)
          else if has_value column id v rows
          then 1
          else 0)
  unfolding add_rows
  count-add_rows id v [] ds = ground (arith, count_zero str_eq eq_iff v (values_at id ds))
  count-add_rows id v (r ∷ rows) ds =
      count-add_rows id v rows (add_row r ds)
      ∙ rw (values_at-add_row id r ds) (
          ground (
            arith,
            count-add_filled v (column r) (values_at id ds),
            member-add_filled v (column r) (values_at id ds),
          ))

-- A probe has one DTO if it has a row and else none. Its tags and its addresses are the values that its
-- rows have in the two columns, each once and none empty, whatever the rows and their order.
pub to_probe_dto_lem :
    (rows : List ProbeWithTag) (id : ℕ) (v : String)
    → (dtos_of id (to_probe_dto rows) ≡ (if any (λ r. r.probe.id == id) rows then 1 else 0))
      × (count str_eq v (tags_at id (to_probe_dto rows))
          ≡ (if has_value (λ r. r.tag) id v rows then 1 else 0))
      × (count str_eq v (addresses_at id (to_probe_dto rows))
          ≡ (if has_value (λ r. r.remote_ip) id v rows then 1 else 0))
unfolding to_probe_dto
to_probe_dto_lem rows id v = (
  dtos_of-add_rows id rows [],
  count-add_rows (λ r. r.tag) tags_at tags_at-add_row id v rows [],
  count-add_rows (λ r. r.remote_ip) addresses_at addresses_at-add_row id v rows [],
)
