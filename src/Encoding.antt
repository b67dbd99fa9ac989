-- ===== src/Encoding.antt =====
-- encoding/json (standard library), as far as the payload of a task uses it: how a text is written as
-- a JSON string. The other parts are in the children.
pub mod Literal
pub mod Number
pub mod Scan
pub mod Payload
pub mod Escapes
pub mod RoundTrip
use Prim.Native.Char.{Char, char, code, IsScalar}
use Prim.Native.Nat.{compare, Ordering}
use Prim.Native.String.{◌++◌}
use mathlib.Core.Logic.{dite}
use native.Mathlib.Decide.{dec_lt}
use ginblade.Prelude.{
  ℕ, ◌+◌, ◌-◌, ◌/◌, ◌%◌, ◌<◌, ◌≡◌, String, Bool, ◌||◌, Option, some, ltb, ◌==◌, if◌then◌else◌,
  arith,
}

compare-lt : (n m : ℕ) → n < m → compare n m ≡ Ordering.lt
compare-lt n m h = ground arith

compare-gt : (n m : ℕ) → m < n → compare n m ≡ Ordering.gt
compare-gt n m h = ground arith

low_scalar : (n : ℕ) → n < 55296 → IsScalar n
unfolding compare-lt
low_scalar n h = rw (compare-lt n 55296 h) tt

high_scalar : (n : ℕ) → 57343 < n → n < 1114112 → IsScalar n
unfolding compare-gt compare-lt
high_scalar n h k =
    let above : 55296 < n = omega arith in
    rw (compare-gt n 55296 above, compare-lt 57343 n h, compare-lt n 1114112 k) tt

-- The character of a code point; U+FFFD for a number that is none.
unfoldable pub rune : ℕ → Char
unfolding dec_lt low_scalar high_scalar
rune n =
    dite (dec_lt n 55296) (λ h. char n (low_scalar n h))
      (λ _.
        dite (dec_lt 57343 n)
          (λ h. dite (dec_lt n 1114112) (λ k. char n (high_scalar n h k)) (λ _. char 65533 tt))
          (λ _. char 65533 tt))

-- A digit of the table "0123456789abcdef".
unfoldable pub hex_digit : ℕ → Char
unfolding rune
hex_digit n = if ltb n 10 then rune (b'0' + n) else rune (b'a' + (n - 10))

-- The characters that appendString writes as \u00 and two digits, in the default that is safe in
-- HTML.
abbrev pub is_unsafe : ℕ → Bool
is_unsafe n = ltb n 32 || n == b'<' || n == b'>' || n == b'&'

-- A backslash and a character, before the rest of the text.
abbrev pub behind_slash : Char → String → String
behind_slash c rest = String.◌∷◌ "\\" (String.◌∷◌ c rest)

-- \u with the four digits of a number, before the rest of the text.
abbrev pub code_unit : Char → Char → Char → Char → String → String
code_unit a b c d rest =
    behind_slash "u" (String.◌∷◌ a (String.◌∷◌ b (String.◌∷◌ c (String.◌∷◌ d rest))))

-- The body of appendString's loop, before the rest of the text.
unfoldable pub escape : Char → String → String
unfolding hex_digit
escape c rest =
    if code c == b'"' || code c == b'\\'
    then behind_slash c rest
    else if code c == 8
    then behind_slash "b" rest
    else if code c == 12
    then behind_slash "f" rest
    else if code c == 10
    then behind_slash "n" rest
    else if code c == 13
    then behind_slash "r" rest
    else if code c == 9
    then behind_slash "t" rest
    else if is_unsafe (code c)
    then code_unit "0" "0" (hex_digit (code c / 16)) (hex_digit (code c % 16)) rest
    else if code c == 0x2028
    then code_unit "2" "0" "2" "8" rest
    else if code c == 0x2029
    then code_unit "2" "0" "2" "9" rest
    else String.◌∷◌ c rest

unfoldable pub escapes : String → String → String
unfolding escape
escapes String.[] rest = rest
escapes (String.◌∷◌ c s) rest = escape c (escapes s rest)

-- appendString, before the rest of the text
unfoldable pub quote : String → String → String
unfolding escapes
quote s rest = String.◌∷◌ "\"" (escapes s (String.◌∷◌ "\"" rest))
