-- ===== src/Models/Monitors/Settled.antt =====
-- pkg/models/v1Api.go: the settings that ToV2Setting makes, and the table of the monitor types.
use text.Mathlib.Text.{◌==◌ as str_eq}
use text.Mathlib.TextEquality.{eq_iff}
use worldping_api.Prelude.{
  String, ◌≡◌, refl, sym, ap, ◌∙◌, Bool, true, false, ◌&&◌, ◌||◌, Option, none, some, List, [], ◌∷◌,
  All, get_elem?, ◌-◌, if◌then◌else◌, arith, Bool-cases, inl, inr,
}
use worldping_api.Prelude.Assoc.{Assoc, lookup, lookup-insert}
use worldping_api.Models.Settings.{Value}
use worldping_api.Models.Monitors.{
  MonitorSetting, Parsers, Kind, as_text, as_int, as_float, as_bool, http_cases, https_cases,
  ping_cases, dns_cases, cases_of, convert, set_variable, set_all, to_v2_setting,
  MonitorTypeSetting, MonitorType, monitor_types, monitor_type_to_check_type_map, check_type_to_id,
}

-- The last text that is given for a variable.
abbrev pub last_value : String → List MonitorSetting → Option String
last_value v [] = none
last_value v (s ∷ ss) = elim (last_value v ss) [
  | none ↦ if str_eq s.variable v then some s.value else none
  | some t ↦ some t
]

module _ {F : Type 0} (parsers : Parsers F) where
  abbrev pub converted : Option Kind → Option String → Option (Value F) → Option (Value F)
  converted none t m = m
  converted (some k) none m = m
  converted (some k) (some t) m = some (convert parsers k t)

  not_given : (o : Option Kind) (m : Option (Value F)) → converted o none m ≡ m
  not_given none m = refl
  not_given (some k) m = refl

  lookup-set_kind :
      (o : Option Kind) (s : MonitorSetting) (m : Assoc (Value F)) (v : String)
      → lookup v (set_variable parsers o s m)
        ≡ (if str_eq s.variable v then converted o (some s.value) (lookup v m) else lookup v m)
  unfolding set_variable
  lookup-set_kind none s m v = ground (arith)
  lookup-set_kind (some k) s m v = lookup-insert s.variable v (convert parsers k s.value) m

  lookup-set_variable :
      (cases : Assoc Kind) (s : MonitorSetting) (m : Assoc (Value F)) (v : String)
      → lookup v (set_variable parsers (lookup s.variable cases) s m)
        ≡ converted
            (lookup v cases)
            (if str_eq s.variable v then some s.value else none)
            (lookup v m)
  lookup-set_variable cases s m v = elim (Bool-cases (str_eq s.variable v)) [
    | inl e ↦
        let same : lookup s.variable cases ≡ lookup v cases =
          ap (λ x. lookup x cases) ((eq_iff s.variable v).0 e) in
        lookup-set_kind (lookup s.variable cases) s m v ∙ rw (e, same) refl
    | inr e ↦
        lookup-set_kind (lookup s.variable cases) s m v
        ∙ rw e (sym (not_given (lookup v cases) (lookup v m)))
  ]

  -- A text that is given later counts.
  converted_twice :
      (o : Option Kind) (here later : Option String) (m : Option (Value F))
      → converted o later (converted o here m)
        ≡ converted o (elim later [ none ↦ here | some t ↦ some t ]) m
  converted_twice none here later m = refl
  converted_twice (some k) here none m = refl
  converted_twice (some k) none (some t) m = refl
  converted_twice (some k) (some x) (some t) m = refl

  lookup-set_all :
      (cases : Assoc Kind) (ss : List MonitorSetting) (m : Assoc (Value F)) (v : String)
      → lookup v (set_all parsers cases ss m)
        ≡ converted (lookup v cases) (last_value v ss) (lookup v m)
  unfolding set_all
  lookup-set_all cases [] m v = sym (not_given (lookup v cases) (lookup v m))
  lookup-set_all cases (s ∷ ss) m v =
      lookup-set_all cases ss (set_variable parsers (lookup s.variable cases) s m) v
      ∙ ap (converted (lookup v cases) (last_value v ss)) (lookup-set_variable cases s m v)
      ∙ converted_twice (lookup v cases) _ (last_value v ss) (lookup v m)

  -- A setting of a check that is made of a monitor is there exactly where the type of the check has the variable and a
  -- text is given for it; it is the last such text, converted as the type says.
  pub to_v2_setting_lem :
      (t : String) (ss : List MonitorSetting) (v : String)
      → lookup v (to_v2_setting parsers t ss)
        ≡ converted (lookup v (cases_of t)) (last_value v ss) none
  unfolding to_v2_setting lookup
  to_v2_setting_lem t ss v = lookup-set_all (cases_of t) ss [] v

abbrev pub data_type_at : String → List MonitorTypeSetting → Option String
data_type_at v [] = none
data_type_at v (s ∷ ss) =
    let rest = data_type_at v ss in if str_eq s.variable v then some s.data_type else rest

-- The conversion that the word for a data type means.
abbrev pub agrees : Option Kind → Option String → Bool
agrees none none = true
agrees none (some d) = false
agrees (some k) none = false
agrees (some as_text) (some d) = str_eq d "String" || (str_eq d "Enum" || str_eq d "Text")
agrees (some as_int) (some d) = str_eq d "Number"
agrees (some as_float) (some d) = str_eq d "Number"
agrees (some as_bool) (some d) = str_eq d "Boolean"

-- What the table says of a monitor type.
pub record IsSettled (mt : MonitorType) : Type 0 where
  pub check_type : String
  pub listed : get_elem? monitor_type_to_check_type_map (mt.id - 1) ≡ some check_type
  pub id_is : check_type_to_id check_type ≡ mt.id
  pub variables :
      (v : String) → agrees (lookup v (cases_of check_type)) (data_type_at v mt.settings) ≡ true

not_both : (v : String) → (str_eq "validateCert" v && str_eq "expectRegex" v) ≡ false
not_both v = elim (Bool-cases (str_eq "validateCert" v)) [
  | inl e ↦ rw (← ((eq_iff "validateCert" v).0 e)) refl
  | inr e ↦ rw e refl
]

-- Each monitor type has a check type that is turned back into its id. ToV2Setting reads exactly the variables of the
-- monitor type, and converts each to a value of the data type that the table gives.
pub monitor_types-IsSettled : All IsSettled monitor_types
unfolding monitor_types monitor_type_to_check_type_map check_type_to_id cases_of http_cases
    https_cases ping_cases dns_cases lookup
monitor_types-IsSettled = (
  record { check_type = "http"; listed = refl; id_is = refl; variables = λ v. ground (arith) },
  (
    record {
      check_type = "https";
      listed = refl;
      id_is = refl;
      variables = λ v. ground (arith, not_both v);
    },
    (
      record { check_type = "ping"; listed = refl; id_is = refl; variables = λ v. ground (arith) },
      (
        record { check_type = "dns"; listed = refl; id_is = refl; variables = λ v. ground (arith) },
        tt,
      ),
    ),
  ),
)
