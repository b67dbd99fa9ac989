-- ===== src/Config/Durations.antt =====
-- time.ParseDuration (standard library). The product of a fraction with its unit is computed in
-- float64, and is a parameter.
pub mod Fuel
pub mod Written
pub mod Pieces
pub mod RoundTrip
pub mod Overflow
use ginblade.Prelude.{
  ℕ, zero, suc, ◌+◌, ◌-◌, ◌*◌, ◌/◌, ◌%◌, ◌^◌, String, code, Bool, true, false, ◌&&◌, ◌||◌, not,
  Option, none, some, str_eq, is_empty, ltb, ◌==◌, if◌then◌else◌,
}
use ginblade.Prelude.Text.Append.{size}
use ginblade.Prelude.Int.{ℤ, pos, negsuc}
use ginblade.Errors.{Result, ok, err, plain, ◌>>=◌}
use ginblade.Config.Numbers.{is_digit}

abbrev invalid {ℓ} : {A : Type ℓ} → Result A
invalid = err (plain "time: invalid duration")

-- The first character is a digit.
abbrev pub starts_digit : String → Bool
starts_digit String.[] = false
starts_digit (String.◌∷◌ c s) = is_digit (code c)

-- leadingInt, after the digits that make x
unfoldable pub leading_int : ℕ → String → Result (ℕ × String)
leading_int x String.[] = ok (x, "")
leading_int x (String.◌∷◌ c s) =
    let y = x * 10 + (code c - b'0') in
    let rest = leading_int y s in
    if is_digit (code c)
    then if ltb (2 ^ 63 / 10) x || ltb (2 ^ 63) y then invalid else rest
    else ok (x, String.◌∷◌ c s)

-- The body of leadingFraction's loop: the digits' value, how many make it, and whether it overflowed.
abbrev add_digit : ℕ × ℕ × Bool → ℕ → ℕ × ℕ × Bool
add_digit (x, digits, overflow) d =
    if overflow || ltb ((2 ^ 63 - 1) / 10) x || ltb (2 ^ 63) (x * 10 + d)
    then (x, digits, true)
    else (x * 10 + d, digits + 1, false)

-- leadingFraction; its scale is 10 to the number of digits.
unfoldable pub leading_fraction : ℕ × ℕ × Bool → String → ℕ × ℕ × String
leading_fraction (x, digits, overflow) String.[] = (x, digits, "")
leading_fraction (x, digits, overflow) (String.◌∷◌ c s) =
    let rest = leading_fraction (add_digit (x, digits, overflow) (code c - b'0')) s in
    if is_digit (code c) then rest else (x, digits, String.◌∷◌ c s)

abbrev with_post : Bool → ℕ × ℕ × String → ℕ × ℕ × Bool × String
with_post post (f, digits, rest) = (f, digits, post, rest)

-- The fraction after a period: its value, the number of its digits, whether it has one, the rest.
unfoldable pub fraction_part : String → ℕ × ℕ × Bool × String
unfolding leading_fraction
fraction_part String.[] = (0, 0, false, "")
fraction_part (String.◌∷◌ c s) =
    if code c == b'.'
    then with_post (starts_digit s) (leading_fraction (0, 0, false) s)
    else (0, 0, false, String.◌∷◌ c s)

abbrev pub ends_unit : ℕ → Bool
ends_unit c = c == b'.' || is_digit c

-- The unit, up to the next period or digit, and the rest.
unfoldable pub split_unit : String → String × String
split_unit String.[] = ("", "")
split_unit (String.◌∷◌ c s) =
    let (u, rest) = split_unit s in
    if ends_unit (code c) then ("", String.◌∷◌ c s) else (String.◌∷◌ c u, rest)

-- unitMap
unfoldable pub unit_map : String → Option ℕ
unit_map u =
    if str_eq u "ns"
    then some 1
    else if str_eq u "us" || str_eq u "µs" || str_eq u "μs"
    then some 1000
    else if str_eq u "ms"
    then some 1000000
    else if str_eq u "s"
    then some 1000000000
    else if str_eq u "m"
    then some 60000000000
    else if str_eq u "h"
    then some 3600000000000
    else none

abbrev pub negate : ℕ → ℤ
negate n = if n == 0 then pos 0 else negsuc (n - 1)

abbrev pub finish : Bool → ℕ → Result ℤ
finish true d = ok (negate d)
finish false d = if ltb (2 ^ 63 - 1) d then invalid else ok (pos d)

-- The sign, if there is one, and the rest.
unfoldable pub split_sign : String → Bool × String
split_sign String.[] = (false, "")
split_sign (String.◌∷◌ c s) =
    if code c == b'-' || code c == b'+' then (code c == b'-', s) else (false, String.◌∷◌ c s)

-- `scale` is uint64(float64(f) * (float64(unit) / scale)) of a fraction f, its unit and its digits.
module _ (scale : ℕ → ℕ → ℕ → ℕ) where
  abbrev with_fraction : ℕ → ℕ → ℕ → ℕ → Result ℕ
  with_fraction v f unit digits =
      let sum = (v + scale f unit digits) % 2 ^ 64 in
      if f == 0 then ok v else if ltb (2 ^ 63) sum then invalid else ok sum

  abbrev amount : ℕ → ℕ → ℕ → Option ℕ → Result ℕ
  amount v f digits none = err (plain "time: unknown unit")
  amount v f digits (some unit) =
      if ltb (2 ^ 63 / unit) v then invalid else with_fraction (v * unit) f unit digits

  abbrev with_unit : ℕ → ℕ → ℕ → String × String → Result (ℕ × String)
  unfolding unit_map
  with_unit v f digits (u, rest) =
      if is_empty u
      then err (plain "time: missing unit")
      else amount v f digits (unit_map u) >>= λ n. ok (n, rest)

  abbrev after_int : Bool → ℕ → ℕ × ℕ × Bool × String → Result (ℕ × String)
  unfolding with_unit split_unit
  after_int pre v (f, digits, post, s) =
      if not pre && not post then invalid else with_unit v f digits (split_unit s)

  abbrev pub after_whole : Bool → Result (ℕ × String) → Result (ℕ × String)
  unfolding after_int fraction_part
  after_whole pre (err e) = err e
  after_whole pre (ok (v, s)) = after_int pre v (fraction_part s)

  -- The body of the loop: the amount of one number with its unit, and the rest.
  unfoldable pub segment : String → Result (ℕ × String)
  unfolding after_whole leading_int
  segment String.[] = invalid
  segment (String.◌∷◌ c s) =
      if ends_unit (code c)
      then after_whole (is_digit (code c)) (leading_int 0 (String.◌∷◌ c s))
      else invalid

  abbrev pub add : ℕ → ℕ → Result ℕ
  add d v = let sum = (d + v) % 2 ^ 64 in if ltb (2 ^ 63) sum then invalid else ok sum

  -- The loop, on fuel.
  unfoldable pub segments : ℕ → ℕ → String → Result ℕ
  unfolding segment
  segments fuel d String.[] = ok d
  segments zero d (String.◌∷◌ c s) = err (plain "out of fuel")
  segments (suc fuel) d (String.◌∷◌ c s) =
      segment (String.◌∷◌ c s) >>= λ p. add d p.0 >>= λ d'. segments fuel d' p.1

  unfoldable pub unsigned : Bool → String → Result ℤ
  unfolding segments
  unsigned negative s =
      if str_eq s "0"
      then ok (pos 0)
      else if is_empty s
      then invalid
      else segments (size s) 0 s >>= finish negative

  unfoldable pub signed : Bool × String → Result ℤ
  unfolding unsigned
  signed (negative, s) = unsigned negative s

  -- time.ParseDuration; each pass of the loop takes a character, so the text's length is enough fuel.
  unfoldable pub parse_duration : String → Result ℤ
  unfolding signed split_sign
  parse_duration s = signed (split_sign s)
