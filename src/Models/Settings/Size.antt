-- ===== src/Models/Settings/Size.antt =====
-- pkg/models/endpoint.go: the text of a download limit, `^(?i:(\d+)([km]?)b?)$`, and its value.
use worldping_api.Prelude.{
  ℕ, ◌+◌, ◌-◌, ◌*◌, ◌^◌, Bool, true, false, ◌&&◌, ◌||◌, Option, none, some, [], ◌∷◌, leb, ltb, ◌==◌,
  if◌then◌else◌,
}
use worldping_api.Prelude.Int.{ℤ, pos, ◌*ℤ◌, wrap64}
use worldping_api.Prelude.Text.{Bytes}

unfoldable pub is_digit : ℕ → Bool
is_digit c = leb b'0' c && leb c b'9'

-- `c` is one of the two cases of a letter, given as its lower case.
unfoldable pub is_letter : ℕ → ℕ → Bool
is_letter lower c = c == lower || c == lower - 32

-- The digits at the front, read as a number, and what follows them. `none` if there are none.
read_digits : ℕ → Bytes → ℕ × Bytes
read_digits n [] = (n, [])
read_digits n (c ∷ cs) =
    let rest = read_digits (n * 10 + (c - b'0')) cs in if is_digit c then rest else (n, c ∷ cs)

-- `b?` and the end of the text.
ends : Bytes → Bool
ends [] = true
ends (c ∷ []) = is_letter b'b' c
ends (c ∷ d ∷ cs) = false

abbrev pub max_int64 : ℕ
max_int64 = 2 ^ 63 - 1

-- strconv.ParseInt gives the largest int64 for a number out of range, and its error is not looked at.
unfoldable pub clamp : ℕ → ℤ
clamp n = pos (if ltb max_int64 n then max_int64 else n)

-- `value * 1024` and `value * 1024 * 1024` in int64.
unfoldable pub kilobytes : ℤ → ℤ
kilobytes v = wrap64 (v *ℤ pos 1024)

-- `([km]?)b?` behind the digits.
unfoldable pub scale : ℤ → Bytes → Option ℤ
unfolding ends
scale v [] = some v
scale v (c ∷ cs) =
    if is_letter b'm' c
    then (if ends cs then some (kilobytes (kilobytes v)) else none)
    else if is_letter b'k' c
    then (if ends cs then some (kilobytes v) else none)
    else if ends (c ∷ cs)
    then some v
    else none

parse_digits : Bool → ℕ × Bytes → Option ℤ
unfolding scale clamp
parse_digits false (n, rest) = none
parse_digits true (n, rest) = scale (clamp n) rest

starts_with_digit : Bytes → Bool
starts_with_digit [] = false
starts_with_digit (c ∷ cs) = is_digit c

unfoldable pub parse_size : Bytes → Option ℤ
unfolding parse_digits read_digits starts_with_digit
parse_size t = parse_digits (starts_with_digit t) (read_digits 0 t)
