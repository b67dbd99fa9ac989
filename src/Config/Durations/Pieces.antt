-- ===== src/Config/Durations/Pieces.antt =====
-- How the steps of time.ParseDuration read a numeral and the name of a unit.
use Prim.Native.String.{◌++◌}
use text.Mathlib.TextLemmas.{nil-append, cons-append}
use Prim.Native.Char.{Char}
use ginblade.Prelude.{
  ◌==◌, some-injective, none-ne-some, ℕ, ◌≤◌, ◌+◌, ◌-◌, ◌*◌, ◌/◌, ◌^◌, ◌≡◌, refl, code, String,
  Bool, true, false, arith, Bool-cases, inl, inr, is_empty, ltb, ◌||◌, some,
}
use ginblade.Errors.{ok}
use ginblade.Config.Numbers.{is_digit, digits_from, parse_digits}
use ginblade.Config.Durations.{
  leading_int, fraction_part, split_unit, starts_digit, ends_unit, unit_map,
}
use ginblade.Config.Durations.Written.{
  TimeUnit, nanosecond, microsecond, millisecond, second, minute, hour, unit_name, unit_size,
  IsBoundary,
}

digits_from-le : (acc n : ℕ) (s : String) → digits_from acc s ≡ some n → acc ≤ n
unfolding digits_from
digits_from-le acc n String.[] h = ground arith
digits_from-le acc n (String.◌∷◌ c s) h =
    ground (arith, digits_from-le (acc * 10 + (code c - b'0')) n s)

-- No digit begins the text.
abbrev IsPast : String → Type 0
IsPast s = starts_digit s ≡ false

leading_int-past : (x : ℕ) (rest : String) → IsPast rest → leading_int x rest ≡ ok (x, rest)
unfolding leading_int
leading_int-past x String.[] h = refl
leading_int-past x (String.◌∷◌ c s) h = rw h

in_bounds : (x y : ℕ) → x * 10 ≤ y → y ≤ 2 ^ 63 → (ltb (2 ^ 63 / 10) x || ltb (2 ^ 63) y) ≡ false
in_bounds x y ten le = ground arith

pub leading_int-digits :
    (x n : ℕ) (s rest : String)
    → digits_from x s ≡ some n
    → n ≤ 2 ^ 63
    → IsPast rest
    → leading_int x (s ++ rest) ≡ ok (n, rest)
unfolding leading_int digits_from
leading_int-digits x n String.[] rest h le past =
    rw nil-append (rw (← some-injective x n h) (leading_int-past x rest past))
leading_int-digits x n (String.◌∷◌ c s) rest h le past = elim (Bool-cases (is_digit (code c))) [
  | inr other ↦ absurd (none-ne-some n (rw other at h))
  | inl digit ↦
      let more = rw digit at h in
      rw cons-append (
        rw
          (
            digit,
            in_bounds x (x * 10 + (code c - b'0')) (omega arith)
                (omega (arith, digits_from-le (x * 10 + (code c - b'0')) n s more, le)),
          )
          (leading_int-digits (x * 10 + (code c - b'0')) n s rest more le past))
]

-- A name of a unit: no period and no digit.
abbrev IsName : String → Type 0
IsName String.[] = Unit
IsName (String.◌∷◌ c s) = (ends_unit (code c) ≡ false) × IsName s

pub or-true : (a b : Bool) → b ≡ true → (a || b) ≡ true
or-true true b h = refl
or-true false b h = h

or-eq-false : (a b : Bool) → (a || b) ≡ false → (a ≡ false) × (b ≡ false)
or-eq-false true b h = cc
or-eq-false false b h = (refl, h)

split_unit-boundary : (rest : String) → IsBoundary rest → split_unit rest ≡ ("", rest)
unfolding split_unit
split_unit-boundary String.[] h = refl
split_unit-boundary (String.◌∷◌ c s) h = rw (or-true (code c == b'.') _ h)

pub split_unit-name :
    (u rest : String) → IsName u → IsBoundary rest → split_unit (u ++ rest) ≡ (u, rest)
unfolding split_unit
split_unit-name String.[] rest name ends = rw nil-append (split_unit-boundary rest ends)
split_unit-name (String.◌∷◌ c u) rest (goes, name) ends =
    rw cons-append (rw (goes, split_unit-name u rest name ends))

pub unit_name-IsName : (u : TimeUnit) → IsName (unit_name u)
unit_name-IsName nanosecond = (refl, (refl, tt))
unit_name-IsName microsecond = (refl, (refl, tt))
unit_name-IsName millisecond = (refl, (refl, tt))
unit_name-IsName second = (refl, tt)
unit_name-IsName minute = (refl, tt)
unit_name-IsName hour = (refl, tt)

-- The text begins with a character of a name.
abbrev BeginsName : String → Type 0
BeginsName String.[] = ⊥
BeginsName (String.◌∷◌ c s) = ends_unit (code c) ≡ false

pub BeginsName-append : (u rest : String) → BeginsName u → BeginsName (u ++ rest)
BeginsName-append String.[] rest h = absurd h
BeginsName-append (String.◌∷◌ c u) rest h = rw cons-append h

pub unit_name-BeginsName : (u : TimeUnit) → BeginsName (unit_name u)
unit_name-BeginsName nanosecond = refl
unit_name-BeginsName microsecond = refl
unit_name-BeginsName millisecond = refl
unit_name-BeginsName second = refl
unit_name-BeginsName minute = refl
unit_name-BeginsName hour = refl

pub BeginsName-IsPast : (s : String) → BeginsName s → IsPast s
BeginsName-IsPast String.[] h = refl
BeginsName-IsPast (String.◌∷◌ c s) h = (or-eq-false (code c == b'.') _ h).1

pub no_fraction : (s : String) → BeginsName s → fraction_part s ≡ (0, 0, false, s)
unfolding fraction_part
no_fraction String.[] h = refl
no_fraction (String.◌∷◌ c s) h = rw (or-eq-false (code c == b'.') _ h).0

pub is_empty-name : (u : TimeUnit) → is_empty (unit_name u) ≡ false
is_empty-name nanosecond = refl
is_empty-name microsecond = refl
is_empty-name millisecond = refl
is_empty-name second = refl
is_empty-name minute = refl
is_empty-name hour = refl

pub unit_map-name : (u : TimeUnit) → unit_map (unit_name u) ≡ some (unit_size u)
unfolding unit_map
unit_map-name nanosecond = refl
unit_map-name microsecond = refl
unit_map-name millisecond = refl
unit_map-name second = refl
unit_map-name minute = refl
unit_map-name hour = refl

pub in_unit :
    (u : TimeUnit) (n : ℕ) → n * unit_size u ≤ 2 ^ 63 → ltb (2 ^ 63 / unit_size u) n ≡ false
in_unit nanosecond n h = ground arith
in_unit microsecond n h = ground arith
in_unit millisecond n h = ground arith
in_unit second n h = ground arith
in_unit minute n h = ground arith
in_unit hour n h = ground arith

pub count-le : (u : TimeUnit) (n : ℕ) → n * unit_size u ≤ 2 ^ 63 → n ≤ 2 ^ 63
count-le nanosecond n h = omega arith
count-le microsecond n h = omega arith
count-le millisecond n h = omega arith
count-le second n h = omega arith
count-le minute n h = omega arith
count-le hour n h = omega arith

pub starts-digit :
    (c : Char) (s : String) (n : ℕ)
    → parse_digits (String.◌∷◌ c s) ≡ some n
    → is_digit (code c) ≡ true
unfolding parse_digits digits_from
starts-digit c s n h = elim (Bool-cases (is_digit (code c))) [
  | inl digit ↦ digit
  | inr other ↦ absurd (none-ne-some n (rw other at h))
]
