-- ===== src/Prelude/Assoc.antt =====
-- Go maps with string keys, as association lists. A key that is written is moved to the front; no
-- result depends on the order of the entries.
use Prim.Native.String.{String}
use mathlib.Core.Path.{◌≡◌}
use mathlib.Core.Bool.{true, false}
use mathlib.Core.List.{List, [], ◌∷◌}
use mathlib.Core.Option.{Option, none, some}
use native.Mathlib.Omega.{arith}
use text.Mathlib.Text.{◌==◌ as str_eq}
use text.Mathlib.TextEquality.{eq_iff}
use worldping_api.Prelude.Tests.{if◌then◌else◌}

abbrev pub Assoc {ℓ} : Type ℓ → Type ℓ
Assoc V = List (String × V)

module _ {ℓ} {V : Type ℓ} where
  -- delete(m, k)
  unfoldable pub without : String → Assoc V → Assoc V
  without k [] = []
  without k ((j, v) ∷ m) =
      let others = without k m in if str_eq j k then others else (j, v) ∷ others

  -- m[k] = v
  unfoldable pub insert : String → V → Assoc V → Assoc V
  unfolding without
  insert k v m = (k, v) ∷ without k m

  -- v, ok := m[k]
  unfoldable pub lookup : String → Assoc V → Option V
  lookup k [] = none
  lookup k (entry ∷ m) = elim (str_eq entry.0 k) [ true ↦ some entry.1 | false ↦ lookup k m ]

  pub lookup-without :
      (gone key : String) (m : Assoc V)
      → lookup key (without gone m) ≡ (if str_eq gone key then none else lookup key m)
  unfolding without lookup
  lookup-without gone key [] = ground arith
  lookup-without gone key (entry ∷ m) =
      let ih = lookup-without gone key m in
      ground (arith, eq_iff gone key, eq_iff entry.0 gone, eq_iff entry.0 key, ih)

  pub lookup-insert :
      (new key : String) (v : V) (m : Assoc V)
      → lookup key (insert new v m) ≡ (if str_eq new key then some v else lookup key m)
  unfolding insert lookup
  lookup-insert new key v m = ground (arith, lookup-without new key m)
