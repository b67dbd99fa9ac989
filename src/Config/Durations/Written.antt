-- ===== src/Config/Durations/Written.antt =====
-- What a written duration is: whole numbers with their units, one after the other.
use Prim.Native.String.{◌++◌}
use text.Mathlib.TextLemmas.{nil-append, cons-append}
use ginblade.Prelude.Int.{ℤ, pos}
use ginblade.Config.Durations.{negate, split_sign, size, finish, starts_digit}
use ginblade.Prelude.{
  if◌then◌else◌, str_eq, eq_iff, length, ◌==◌, none-ne-some, ℕ, ◌≤◌, ◌+◌, ◌*◌, ◌^◌, ◌≡◌, refl, ap,
  code, String, Bool, true, false, arith, Bool-cases, inl, inr, is_empty, ◌||◌, some, List, [], ◌∷◌,
  ◌<◌,
}
use ginblade.Errors.{ok}
use ginblade.Config.Numbers.{is_digit, digits_from, parse_digits}

pub data TimeUnit : Type 0 where
  nanosecond microsecond millisecond second minute hour : TimeUnit

abbrev pub unit_name : TimeUnit → String
unit_name nanosecond = "ns"
unit_name microsecond = "us"
unit_name millisecond = "ms"
unit_name second = "s"
unit_name minute = "m"
unit_name hour = "h"

abbrev pub unit_size : TimeUnit → ℕ
unit_size nanosecond = 1
unit_size microsecond = 1000
unit_size millisecond = 1000000
unit_size second = 1000000000
unit_size minute = 60000000000
unit_size hour = 3600000000000

-- A number in decimal, and its unit.
pub record Part : Type 0 where
  pub numeral : String
  pub count : ℕ
  pub unit : TimeUnit
  pub reads : parse_digits numeral ≡ some count

abbrev pub length_of : Part → ℕ
length_of p = p.count * unit_size p.unit

unfoldable pub written : List Part → String
written [] = ""
written (p ∷ ps) = p.numeral ++ (unit_name p.unit ++ written ps)

unfoldable pub total : List Part → ℕ
total [] = 0
total (p ∷ ps) = length_of p + total ps

-- The text is empty, or a number begins.
abbrev pub IsBoundary : String → Type 0
IsBoundary String.[] = Unit
IsBoundary (String.◌∷◌ c s) = is_digit (code c) ≡ true

-- A number begins what is written of parts.
numeral-IsBoundary : (s t : String) (n : ℕ) → parse_digits s ≡ some n → IsBoundary (s ++ t)
unfolding parse_digits digits_from
numeral-IsBoundary String.[] t n h = absurd (none-ne-some n h)
numeral-IsBoundary (String.◌∷◌ c s) t n h = elim (Bool-cases (is_digit (code c))) [
  | inl digit ↦ rw cons-append digit
  | inr other ↦ absurd (none-ne-some n (rw other at h))
]

pub written-IsBoundary : (ps : List Part) → IsBoundary (written ps)
unfolding written
written-IsBoundary [] = tt
written-IsBoundary (p ∷ ps) = numeral-IsBoundary p.numeral _ p.count p.reads

size-append : (s t : String) → size (s ++ t) ≡ size s + size t
size-append String.[] t = rw nil-append (omega arith)
size-append (String.◌∷◌ c s) t = rw cons-append (omega (arith, size-append s t))

numeral-size : (s : String) (n : ℕ) → parse_digits s ≡ some n → 0 < size s
unfolding parse_digits
numeral-size String.[] n h = absurd (none-ne-some n h)
numeral-size (String.◌∷◌ c s) n h = omega arith

name-size : (u : TimeUnit) → 0 < size (unit_name u)
name-size nanosecond = omega arith
name-size microsecond = omega arith
name-size millisecond = omega arith
name-size second = omega arith
name-size minute = omega arith
name-size hour = omega arith

-- Each part takes two characters at least.
pub written-size : (ps : List Part) → length ps * 2 ≤ size (written ps)
unfolding written
written-size [] = omega arith
written-size (p ∷ ps) = omega (
  arith,
  size-append p.numeral (unit_name p.unit ++ written ps),
  size-append (unit_name p.unit) (written ps),
  numeral-size p.numeral p.count p.reads,
  name-size p.unit,
  written-size ps,
)

starts_digit-boundary : (s : String) → IsBoundary s → 0 < size s → starts_digit s ≡ true
starts_digit-boundary String.[] h k = absurd (omega arith)
starts_digit-boundary (String.◌∷◌ c s) h k = h

pub written-starts : (p : Part) (ps : List Part) → starts_digit (written (p ∷ ps)) ≡ true
written-starts p ps =
    starts_digit-boundary _ (written-IsBoundary (p ∷ ps)) (omega (arith, written-size (p ∷ ps)))

abbrev pub sign : Bool → String
sign true = "-"
sign false = ""

-- The value with its sign.
abbrev pub signed_total : Bool → List Part → ℤ
signed_total negative ps = if negative then negate (total ps) else pos (total ps)

split_sign-digit : (s : String) → starts_digit s ≡ true → split_sign s ≡ (false, s)
unfolding split_sign
split_sign-digit String.[] h = cc
split_sign-digit (String.◌∷◌ c s) h =
    let plain : (code c == b'-' || code c == b'+') ≡ false = ground arith in rw plain

pub split_sign-written :
    (negative : Bool) (s : String)
    → starts_digit s ≡ true
    → split_sign (sign negative ++ s) ≡ (negative, s)
unfolding split_sign
split_sign-written true s h = rw cons-append (rw nil-append refl)
split_sign-written false s h = rw nil-append (split_sign-digit s h)

pub finish-total :
    (negative : Bool) (n : ℕ)
    → n < 2 ^ 63
    → finish negative n ≡ ok (if negative then negate n else pos n)
finish-total true n le = refl
finish-total false n le = ground arith

pub not_zero : (s : String) → 2 ≤ size s → str_eq s "0" ≡ false
not_zero s h = elim (Bool-cases (str_eq s "0")) [
  | inl same_text ↦ let same = ap size ((eq_iff s "0").0 same_text) in absurd (omega (arith, same))
  | inr other ↦ other
]

pub not_empty : (s : String) → 2 ≤ size s → is_empty s ≡ false
not_empty String.[] h = absurd (omega arith)
not_empty (String.◌∷◌ c s) h = refl

pub is_empty-written : (p : Part) (ps : List Part) → is_empty (written (p ∷ ps)) ≡ false
is_empty-written p ps = not_empty (written (p ∷ ps)) (omega (arith, written-size (p ∷ ps)))
