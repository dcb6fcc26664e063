-- ===== src/Models/Settings/Accept.antt =====
-- pkg/models/endpoint.go: a loop of the validation accepts the settings exactly when it accepts each
-- field by itself, so the order in which Go ranges over a table does not matter.
use text.Mathlib.Text.{◌==◌ as str_eq}
use text.Mathlib.TextEquality.{eq_iff}
use mathlib.Core.List.{Mem, Nodup, Perm, Nodup-cons, mem-cons, mem-cons_self, mem-cons_of_mem}
use mathlib.Core.List.Perm
use mathlib.Core.List.{not-mem-nil, Nodup-nil}
use mathlib.Core.Bool.{false≢true}
use mathlib.Core.HLevel.{⊥_prop}
use mathlib.Core.Logic.Or
use mathlib.Core.Path.{subst}
use worldping_api.Prelude.{
  String, ◌≡◌, refl, sym, ◌∙◌, ◌↔◌, Bool, true, false, not, ◌&&◌, Option, List, [], ◌∷◌, map, All,
  arith, Bool-cases, inl, inr, Outcome, ok, err, ◌>>=◌,
}
use worldping_api.Prelude.Assoc.{lookup}
use worldping_api.Models.Settings.{Floats, Value, Field, Settings, Checked}
use worldping_api.Models.Settings.Fields.{each}

abbrev pub accepts {ℓ} : {E A : Type ℓ} → Outcome E A → Bool
accepts (ok a) = true
accepts (err e) = false

-- No field of the list has the name.
abbrev pub Fresh : String → List Field → Type 0
Fresh k = All λ g. str_eq k g.name ≡ false

abbrev pub Distinct : List Field → Type 0
Distinct [] = Unit {0}
Distinct (f ∷ fs) = Fresh f.name fs × Distinct fs

module _ (fl : Floats) where
  -- A step that looks at its own field alone, decides by what it finds there, and writes no other.
  pub record IsLocal (step : Field → Settings fl → Checked fl)
      (test : Field → Option (Value fl.Float) → Bool) : Type 0 where
    pub decides : (f : Field) (s : Settings fl) → accepts (step f s) ≡ test f (lookup f.name s)
    pub keeps :
        (f : Field) (s s' : Settings fl) (k : String)
        → step f s ≡ ok s'
        → str_eq f.name k ≡ false
        → lookup k s' ≡ lookup k s

  abbrev pub Passes : (Field → Option (Value fl.Float) → Bool) → Settings fl → Field → Type 0
  Passes test s f = test f (lookup f.name s) ≡ true

  module _ {step : Field → Settings fl → Checked fl} {test : Field → Option (Value fl.Float) → Bool}
      (local : IsLocal step test) where
    Passes-kept :
        (f : Field) (fs : List Field) (s s' : Settings fl)
        → step f s ≡ ok s'
        → Fresh f.name fs
        → (All (Passes test s') fs ↔ All (Passes test s) fs)
    Passes-kept f [] s s' e h = (λ _. tt, λ _. tt)
    Passes-kept f (g ∷ gs) s s' e h =
        let same = local.keeps f s s' g.name e h.0 in
        let rest = Passes-kept f gs s s' e h.1 in
        (λ p. (rw (← same) p.0, rest.0 p.1), λ p. (rw same p.0, rest.1 p.1))

    pub each-accepts :
        (fs : List Field) (s : Settings fl)
        → Distinct fs
        → (accepts (each fl step fs s) ≡ true) ↔ All (Passes test s) fs
    unfolding each
    each-accepts [] s d = (λ _. tt, λ _. refl)
    each-accepts (f ∷ fs) s d =
        cases (step f s) refl (local.decides f s) (λ s'. each-accepts fs s' d.1)
      where
        cases :
            (r : Checked fl)
            → step f s ≡ r
            → accepts r ≡ test f (lookup f.name s)
            → ((s' : Settings fl) → (accepts (each fl step fs s') ≡ true) ↔ All (Passes test s') fs)
            → (accepts (r >>= λ s'. each fl step fs s') ≡ true) ↔ All (Passes test s) (f ∷ fs)
        cases (err x) e dec ih = (λ h. cc, λ p. cc (p.0))
        cases (ok s') e dec ih =
            let kept = Passes-kept f fs s s' e d.0 in
            (λ h. (sym dec, kept.0 ((ih s').0 h)), λ p. (ih s').1 (kept.1 p.1))

All-mem :
    {A : Type 0} (P : A → Type 0) (xs : List A)
    → All P xs
    → ((x : A) → IsProp (P x))
    → (x : A) → Mem x xs
    → P x
All-mem P [] h prop x m = absurd (not-mem-nil m)
All-mem P (y ∷ ys) h prop x m =
    Or.elim (prop x) (mem-cons.0 m) (λ e. subst P (sym e) h.0) (All-mem P ys h.1 prop x)

mem-All : {A : Type 0} (P : A → Type 0) (xs : List A) → ((x : A) → Mem x xs → P x) → All P xs
mem-All P [] h = tt
mem-All P (x ∷ xs) h = (h x mem-cons_self, mem-All P xs (λ y m. h y (mem-cons_of_mem x m)))

-- A predicate holds of all elements of a list in whatever order they stand.
pub All-perm :
    {A : Type 0} (P : A → Type 0) {xs ys : List A}
    → ((x : A) → IsProp (P x))
    → Perm xs ys
    → All P xs
    → All P ys
All-perm P {xs} {ys} prop p h = mem-All P ys (λ y m. All-mem P xs h prop y ((Perm.mem_iff p).1 m))

abbrev names : List Field → List String
names = map λ f. f.name

Fresh-of_Nodup : (k : String) (fs : List Field) → ¬ Mem k (names fs) → Fresh k fs
Fresh-of_Nodup k [] h = tt
Fresh-of_Nodup k (f ∷ fs) h = (
  elim (Bool-cases (str_eq k f.name)) [
    | inl same ↦ absurd (h (rw ((eq_iff k f.name).0 same) mem-cons_self))
    | inr other ↦ other
  ],
  Fresh-of_Nodup k fs (λ m. h (mem-cons_of_mem f.name m)),
)

Distinct-of_Nodup : (fs : List Field) → Nodup (names fs) → Distinct fs
Distinct-of_Nodup [] h = tt
Distinct-of_Nodup (f ∷ fs) h =
    (Fresh-of_Nodup f.name fs (Nodup-cons.0 h).0, Distinct-of_Nodup fs (Nodup-cons.0 h).1)

not-mem_of_Fresh : (k : String) (fs : List Field) → Fresh k fs → ¬ Mem k (names fs)
not-mem_of_Fresh k [] h m = not-mem-nil m
not-mem_of_Fresh k (f ∷ fs) h m =
    Or.elim ⊥_prop (mem-cons.0 m) (λ e. false≢true (sym h.0 ∙ (eq_iff k f.name).1 e))
      (not-mem_of_Fresh k fs h.1)

Nodup-of_Distinct : (fs : List Field) → Distinct fs → Nodup (names fs)
Nodup-of_Distinct [] h = Nodup-nil
Nodup-of_Distinct (f ∷ fs) h =
    Nodup-cons.1 (not-mem_of_Fresh f.name fs h.0, Nodup-of_Distinct fs h.1)

pub Distinct-perm : {fs gs : List Field} → Perm fs gs → Distinct fs → Distinct gs
Distinct-perm {fs} {gs} p h =
    Distinct-of_Nodup gs (Perm.nodup (Perm.map (λ f. f.name) p) (Nodup-of_Distinct fs h))

is_fresh : String → List Field → Bool
is_fresh k [] = true
is_fresh k (g ∷ gs) = not (str_eq k g.name) && is_fresh k gs

is_fresh-Fresh : (k : String) (fs : List Field) → is_fresh k fs ≡ true → Fresh k fs
unfolding is_fresh
is_fresh-Fresh k [] h = tt
is_fresh-Fresh k (g ∷ gs) h = (ground arith, is_fresh-Fresh k gs (ground arith))

unfoldable pub is_distinct : List Field → Bool
unfolding is_fresh
is_distinct [] = true
is_distinct (f ∷ fs) = is_fresh f.name fs && is_distinct fs

-- A table of literals is tested by evaluation.
pub is_distinct-Distinct : (fs : List Field) → is_distinct fs ≡ true → Distinct fs
unfolding is_distinct
is_distinct-Distinct [] h = tt
is_distinct-Distinct (f ∷ fs) h =
    (is_fresh-Fresh f.name fs (ground arith), is_distinct-Distinct fs (ground arith))
