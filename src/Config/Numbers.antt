-- ===== src/Config/Numbers.antt =====
-- strconv.Atoi and strconv.ParseBool (standard library), on a 64-bit machine.
use ginblade.Prelude.{
  ℕ, ◌+◌, ◌-◌, ◌*◌, ◌^◌, String, code, Bool, true, false, ◌&&◌, ◌||◌, Option, none, some, str_eq,
  ltb, leb, ◌==◌, if◌then◌else◌,
}
use ginblade.Prelude.Int.{ℤ, pos, negsuc}
use ginblade.Errors.{Result, ok, err, plain}

abbrev pub is_digit : ℕ → Bool
is_digit c = leb b'0' c && leb c b'9'

-- The digits of a number, after those that make `acc`.
unfoldable pub digits_from : ℕ → String → Option ℕ
digits_from acc String.[] = some acc
digits_from acc (String.◌∷◌ c s) =
    let rest = digits_from (acc * 10 + (code c - b'0')) s in
    if is_digit (code c) then rest else none

-- One digit at least.
unfoldable pub parse_digits : String → Option ℕ
unfolding digits_from
parse_digits String.[] = none
parse_digits (String.◌∷◌ c s) = digits_from 0 (String.◌∷◌ c s)

-- The int64 with a sign and a magnitude, if there is one.
abbrev pub in_range : Bool → Option ℕ → Result ℤ
in_range negative none = err (plain "invalid syntax")
in_range false (some n) = if ltb n (2 ^ 63) then ok (pos n) else err (plain "value out of range")
in_range true (some n) =
    if n == 0
    then ok (pos 0)
    else if leb n (2 ^ 63)
    then ok (negsuc (n - 1))
    else err (plain "value out of range")

-- strconv.Atoi
unfoldable pub atoi : String → Result ℤ
unfolding parse_digits
atoi String.[] = err (plain "invalid syntax")
atoi (String.◌∷◌ c s) =
    if code c == b'-'
    then in_range true (parse_digits s)
    else if code c == b'+'
    then in_range false (parse_digits s)
    else in_range false (parse_digits (String.◌∷◌ c s))

-- strconv.ParseBool
unfoldable pub parse_bool : String → Result Bool
parse_bool s =
    if str_eq s "1"
      || str_eq s "t"
      || str_eq s "T"
      || str_eq s "TRUE"
      || str_eq s "true"
      || str_eq s "True"
    then ok true
    else if str_eq s "0"
        || str_eq s "f"
        || str_eq s "F"
        || str_eq s "FALSE"
        || str_eq s "false"
        || str_eq s "False"
    then ok false
    else err (plain "invalid syntax")
