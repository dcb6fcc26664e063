-- ===== src/Alerting/Emails/Recipients.antt =====
-- pkg/alerting/check_state.go, handleStateChange: which addresses get a mail.
use mathlib.Core.List.{reverse, reverse-append, reverse-reverse}
use mathlib.Core.Path.{subst}
use worldping_api.Prelude.{
  ◌≡◌, ◌≢◌, refl, ap, ◌∙◌, sym, true, false, some, List, [], ◌∷◌, ◌++◌, All, arith, ◌==◌,
  Bool-cases, inl, inr,
}
use worldping_api.Prelude.Text.{Bytes, is_space, trim_left, trim_space, split}
use worldping_api.Models.Check.{CheckHealthSettings, AlertingJob}
use worldping_api.Alerting.Emails.{
  SendEmail, recipients, keep_address, mail_to, mail, handle_state_change,
}

-- The list's first byte, if it has one, is not a space.
abbrev pub NoSpaceFirst : Bytes → Type 0
NoSpaceFirst [] = Unit {0}
NoSpaceFirst (c ∷ cs) = is_space c ≡ false

-- The text has no space at either end, and is not empty.
pub record IsTrimmed (s : Bytes) : Type 0 where
  pub nonempty : s ≢ []
  pub front : NoSpaceFirst s
  pub back : NoSpaceFirst (reverse s)

abbrev pub NoComma : Bytes → Type 0
NoComma = All λ c. (c == b',') ≡ false

-- An address that is written as it is meant.
abbrev pub IsClean : Bytes → Type 0
IsClean s = IsTrimmed s × NoComma s

trim_left-front : (s : Bytes) → NoSpaceFirst s → trim_left s ≡ s
unfolding trim_left
trim_left-front [] h = refl
trim_left-front (c ∷ cs) h = rw h

trim_left-NoSpaceFirst : (s : Bytes) → NoSpaceFirst (trim_left s)
unfolding trim_left
trim_left-NoSpaceFirst [] = tt
trim_left-NoSpaceFirst (c ∷ cs) = elim (Bool-cases (is_space c)) [
  | inl e ↦ rw e (trim_left-NoSpaceFirst cs)
  | inr e ↦ rw e e
]

trim_space-IsTrimmed : (s : Bytes) → IsTrimmed s → trim_space s ≡ s
unfolding trim_space
trim_space-IsTrimmed s t =
    ap (λ r. reverse (trim_left (reverse r))) (trim_left-front s t.front)
    ∙ ap reverse (trim_left-front (reverse s) t.back)
    ∙ reverse-reverse s

-- strings.Join by commas.
abbrev pub join : List Bytes → Bytes
join [] = []
join (a ∷ []) = a
join (a ∷ b ∷ more) = a ++ (b',' ∷ join (b ∷ more))

split-NoComma : (a : Bytes) → NoComma a → split b',' a ≡ a ∷ []
unfolding split
split-NoComma [] h = refl
split-NoComma (c ∷ cs) h = rw (h.0, split-NoComma cs h.1)

split-append : (a rest : Bytes) → NoComma a → split b',' (a ++ (b',' ∷ rest)) ≡ a ∷ split b',' rest
unfolding split
split-append [] rest h = refl
split-append (c ∷ cs) rest h = rw (h.0, split-append cs rest h.1)

split-join :
    (a : Bytes) (more : List Bytes)
    → All NoComma (a ∷ more)
    → split b',' (join (a ∷ more)) ≡ a ∷ more
split-join a [] h = split-NoComma a h.0
split-join a (b ∷ more) h =
    split-append a (join (b ∷ more)) h.0 ∙ ap (◌∷◌ a) (split-join b more h.1)

recipients-clean : (more : List Bytes) → All IsClean more → recipients more ≡ more
unfolding recipients
recipients-clean [] h = refl
recipients-clean ([] ∷ more) h = absurd (h.0.0.nonempty refl)
recipients-clean ((c ∷ cs) ∷ more) h =
    rw (trim_space-IsTrimmed (c ∷ cs) h.0.0, recipients-clean more h.1)

-- Addresses that are written with no spaces round them, joined by commas, are the ones that are
-- mailed, in their order and in one mail.
pub handle_state_change-join :
    (job : AlertingJob) (health : CheckHealthSettings) (a : Bytes) (more : List Bytes)
    → health.notifications.enabled ≡ true
    → health.notifications.addresses ≡ join (a ∷ more)
    → All IsClean (a ∷ more)
    → handle_state_change job (some health) ≡ some (record { to = a ∷ more; job = job } ∷ [])
unfolding handle_state_change
handle_state_change-join job health a more on e h =
    rw (on, e, split-join a more (clean_no_comma (a ∷ more) h)) (rw (recipients-clean (a ∷ more) h))
  where
    clean_no_comma : (l : List Bytes) → All IsClean l → All NoComma l
    clean_no_comma [] c = tt
    clean_no_comma (b ∷ bs) c = (c.0.1, clean_no_comma bs c.1)

trim_left-suffix : (s : Bytes) → (front : Bytes) × (s ≡ front ++ trim_left s)
unfolding trim_left
trim_left-suffix [] = ([], refl)
trim_left-suffix (c ∷ cs) = elim (Bool-cases (is_space c)) [
  | inl e ↦ let (front, same) = trim_left-suffix cs in (c ∷ front, rw e (ap (◌∷◌ c) same))
  | inr e ↦ ([], rw e)
]

NoSpaceFirst-prefix : (x y : Bytes) → NoSpaceFirst (x ++ y) → NoSpaceFirst x
NoSpaceFirst-prefix [] y h = tt
NoSpaceFirst-prefix (c ∷ x) y h = h

trim_space-front : (s : Bytes) → NoSpaceFirst (trim_space s)
unfolding trim_space
trim_space-front s =
    let t = trim_left s in
    let (front, same) = trim_left-suffix (reverse t) in
    NoSpaceFirst-prefix (reverse (trim_left (reverse t))) (reverse front) (
      subst NoSpaceFirst
        (sym (reverse-reverse t) ∙ ap reverse same ∙ reverse-append front (trim_left (reverse t)))
        (trim_left-NoSpaceFirst s))

trim_space-back : (s : Bytes) → NoSpaceFirst (reverse (trim_space s))
unfolding trim_space
trim_space-back s =
    subst NoSpaceFirst (sym (reverse-reverse _)) (trim_left-NoSpaceFirst (reverse (trim_left s)))

recipients-IsTrimmed : (es : List Bytes) → All IsTrimmed (recipients es)
unfolding recipients
recipients-IsTrimmed [] = tt
recipients-IsTrimmed (e ∷ es) =
    kept (trim_space e) (trim_space-front e) (trim_space-back e) (recipients es)
      (recipients-IsTrimmed es)
  where
    kept :
        (s : Bytes)
        → NoSpaceFirst s
        → NoSpaceFirst (reverse s)
        → (rest : List Bytes) → All IsTrimmed rest
        → All IsTrimmed (keep_address s rest)
    kept [] f b rest r = r
    kept (c ∷ cs) f b rest r = (record { nonempty = λ z. cc; front = f; back = b }, r)

-- A mail about the job to somebody, each address of which is neither empty nor padded with spaces.
pub record IsProperMail (job : AlertingJob) (m : SendEmail) : Type 0 where
  pub about : m.job ≡ job
  pub somebody : m.to ≢ []
  pub addresses : All IsTrimmed m.to

mail_to-IsProperMail :
    (job : AlertingJob) (l : List Bytes) → All IsTrimmed l → All (IsProperMail job) (mail_to job l)
unfolding mail_to
mail_to-IsProperMail job [] h = tt
mail_to-IsProperMail job (a ∷ more) h =
    (record { about = refl; somebody = λ z. cc; addresses = h }, tt)

mail-IsProperMail : (job : AlertingJob) (l : List Bytes) → All (IsProperMail job) (mail job l)
unfolding mail
mail-IsProperMail job [] = tt
mail-IsProperMail job (e ∷ es) =
    mail_to-IsProperMail job (recipients (e ∷ es)) (recipients-IsTrimmed (e ∷ es))

-- Whatever the text of the addresses, a job with health settings is handled without a panic. A mail
-- goes to at least one address, to none that is empty or padded with spaces, and none goes out where
-- notifications are off.
pub handle_state_change-IsProperMail :
    (job : AlertingJob) (health : CheckHealthSettings)
    → (ms : List SendEmail) × (handle_state_change job (some health) ≡ some ms)
      × All (IsProperMail job) ms
      × (health.notifications.enabled ≡ false → ms ≡ [])
unfolding handle_state_change
handle_state_change-IsProperMail job health = elim (Bool-cases health.notifications.enabled) [
  | inl on ↦ (
    mail job (split b',' health.notifications.addresses),
    rw on,
    mail-IsProperMail job _,
    λ off. absurd (ground arith),
  )
  | inr off ↦ ([], rw off, tt, λ _. refl)
]
