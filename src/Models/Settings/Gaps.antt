-- ===== src/Models/Settings/Gaps.antt =====
-- pkg/models/endpoint.go: what the validation lets through. The table of DNS gives timeout and port data
-- types that its switch has no case for, and the bytes of a download limit wrap round.
use text.Mathlib.Text.{◌==◌ as str_eq}
use worldping_api.Prelude.{
  ℕ, ◌*◌, ◌^◌, String, ◌≡◌, refl, sym, ◌↔◌, true, false, Option, none, some, List, [], ◌∷◌, All,
  arith, ltb, Bool-cases, inl, inr, if◌then◌else◌,
}
use worldping_api.Prelude.Int.{pos, negsuc, ◌*ℤ◌}
use worldping_api.Prelude.Text.{codes}
use worldping_api.Prelude.Assoc.{lookup, insert, lookup-insert}
use worldping_api.Models.Settings.{Floats, Value, DataType, Field, Settings}
use worldping_api.Models.Settings.Size.{clamp, max_int64, scale, kilobytes, is_letter}
use worldping_api.Models.Settings.Fields.{field, dns_required, dns_optional, validate_dns_settings}
use worldping_api.Models.Settings.Accept.{accepts}
use worldping_api.Models.Settings.Cases.{absent_or, dns_case}
use worldping_api.Models.Settings.Checks.{validate_dns_settings-accepts}
use mathlib.Core.List.Perm

module _ (fl : Floats) where
  -- A value under another name does not matter to a field.
  lookup-insert_ne :
      (n k : String) (v : Value fl.Float) (s : Settings fl)
      → str_eq k n ≡ false
      → lookup n (insert k v s) ≡ lookup n s
  lookup-insert_ne n k v s h = ground (arith, lookup-insert k n v s)

  -- Two settings that agree on the fields that the DNS validation decides by.
  record SameDns (s t : Settings fl) : Type 0 where
    name : lookup "name" s ≡ lookup "name" t
    type : lookup "type" s ≡ lookup "type" t
    server : lookup "server" s ≡ lookup "server" t
    protocol : lookup "protocol" s ≡ lookup "protocol" t
    regex : lookup "expectRegex" s ≡ lookup "expectRegex" t

  abbrev Accepted : Settings fl → Type 0
  Accepted s = accepts (validate_dns_settings fl dns_required dns_optional s) ≡ true

  unchecked :
      (o : Option (Value fl.Float)) (f : Field)
      → ((v : Value fl.Float) → dns_case fl f.type f.name v ≡ true)
      → absent_or fl (dns_case fl) f o ≡ true
  unchecked none f h = refl
  unchecked (some v) f h = h v

  Accepted-SameDns : (s t : Settings fl) → SameDns s t → Accepted s → Accepted t
  Accepted-SameDns s t e a =
      let (required, opt) =
        (validate_dns_settings-accepts fl dns_required dns_optional s (Perm.refl _) (Perm.refl _)).0
          a in
      (validate_dns_settings-accepts fl dns_required dns_optional t (Perm.refl _) (Perm.refl _)).1 (
        (
          rw (← e.name) required.0,
          (rw (← e.type) required.1.0, (rw (← e.server) required.1.1.0, tt)),
        ),
        (
          unchecked (lookup "timeout" t) (field "timeout" DataType.float) (λ v. refl),
          (
            rw (← e.protocol) opt.1.0,
            (
              unchecked (lookup "port" t) (field "port" DataType.integer) (λ v. refl),
              (rw (← e.regex) opt.1.1.1.0, tt),
            ),
          ),
        ),
      )

  -- The fields that the validation of DNS settings decides by.
  abbrev pub dns_decisive : List String
  dns_decisive = "name" ∷ "type" ∷ "server" ∷ "protocol" ∷ "expectRegex" ∷ []

  SameDns-insert :
      (k : String) (v : Value fl.Float) (s : Settings fl)
      → All (λ n. str_eq k n ≡ false) dns_decisive
      → SameDns (insert k v s) s
  SameDns-insert k v s h = record {
    name = lookup-insert_ne "name" k v s h.0;
    type = lookup-insert_ne "type" k v s h.1.0;
    server = lookup-insert_ne "server" k v s h.1.1.0;
    protocol = lookup-insert_ne "protocol" k v s h.1.1.1.0;
    regex = lookup-insert_ne "expectRegex" k v s h.1.1.1.1.0;
  }

  SameDns-sym : {s t : Settings fl} → SameDns s t → SameDns t s
  SameDns-sym e = record {
    name = sym e.name;
    type = sym e.type;
    server = sym e.server;
    protocol = sym e.protocol;
    regex = sym e.regex;
  }

  -- No value of another field, so of timeout or port, makes the validation of DNS settings refuse what
  -- it accepts without it, or accept what it refuses.
  pub dns_unchecked :
      (k : String) (v : Value fl.Float) (s : Settings fl)
      → All (λ n. str_eq k n ≡ false) dns_decisive
      → (accepts (validate_dns_settings fl dns_required dns_optional (insert k v s)) ≡ true)
        ↔ (accepts (validate_dns_settings fl dns_required dns_optional s) ≡ true)
  dns_unchecked k v s h =
      let same = SameDns-insert k v s h in
      (Accepted-SameDns (insert k v s) s same, Accepted-SameDns s (insert k v s) (SameDns-sym same))

-- A download limit in megabytes that is a multiple of 2^44 counts as no bytes at all up to the largest
-- int64, and as 1048576 bytes below zero above it, where the number is clamped.
pub size_wraps :
    (q : ℕ)
    → scale (clamp (q * 2 ^ 44)) (codes "m")
      ≡ some (if ltb max_int64 (q * 2 ^ 44) then negsuc 1048575 else pos 0)
unfolding scale clamp kilobytes is_letter ◌*ℤ◌
size_wraps q = elim (Bool-cases (ltb max_int64 (q * 2 ^ 44))) [
  | inl e ↦ rw (e) refl
  | inr e ↦ rw (e) (ground (arith))
]
