-- ===== src/Encoding/Literal.antt =====
-- How encoding/json reads a string literal: its scanner's states, and unquote's characters.
use Prim.Native.Char.{Char}
use Prim.Native.String.{◌++◌}
use ginblade.Encoding.{rune}
use ginblade.Prelude.{
  ℕ, zero, suc, ◌+◌, ◌-◌, ◌*◌, code, String, Bool, ◌&&◌, ◌||◌, Option, none, some, ltb, leb, ◌==◌,
  if◌then◌else◌,
}

-- Where in a literal the reader is: at a character, behind a backslash, or before the last
-- `left + 1` digits of \u, with the value of those before. `high` is a surrogate that waits for the
-- second of its pair.
pub data Place : Type 0 where
  plain escaped : Place
  digits : (left value : ℕ) → Place

pub record Reading : Type 0 where
  pub text : String
  pub high : Option ℕ
  pub place : Place

-- What a character does to a literal.
pub data Move : Type 0 where
  refuse : Move
  close : String → Move
  go : Reading → Move

abbrev pub start : Reading
start = record { text = ""; high = none; place = plain }

abbrev pub lone : String
lone = String.◌∷◌ (rune 0xfffd) ""

-- A surrogate without its second is read as U+FFFD.
abbrev pub flush : Option ℕ → String → String
flush none t = t
flush (some h) t = t ++ lone

abbrev pub emit : Char → Reading → Move
emit c r = go (record { text = flush r.high r.text ++ String.◌∷◌ c ""; high = none; place = plain })

abbrev pub is_surrogate : ℕ → Bool
is_surrogate n = leb 0xd800 n && ltb n 0xe000

-- utf16.DecodeRune finds a pair.
abbrev pub is_pair : ℕ → ℕ → Bool
is_pair h n = ltb h 0xdc00 && leb 0xdc00 n && ltb n 0xe000

-- A code unit without a surrogate before it.
abbrev pub first_unit : ℕ → String → Move
first_unit n t =
    if is_surrogate n
    then go (record { text = t; high = some n; place = plain })
    else go (record { text = t ++ String.◌∷◌ (rune n) ""; high = none; place = plain })

abbrev pub unit_read : Option ℕ → ℕ → String → Move
unit_read none n t = first_unit n t
unit_read (some h) n t =
    if is_pair h n
    then go (record {
      text = t ++ String.◌∷◌ (rune ((h - 0xd800) * 1024 + (n - 0xdc00) + 0x10000)) "";
      high = none;
      place = plain;
    })
    else first_unit n (t ++ lone)

-- The value of a hexadecimal digit.
unfoldable pub hex_value : ℕ → Option ℕ
hex_value n =
    if leb b'0' n && leb n b'9'
    then some (n - b'0')
    else if leb b'a' n && leb n b'f'
    then some (n - b'a' + 10)
    else if leb b'A' n && leb n b'F'
    then some (n - b'A' + 10)
    else none

abbrev pub add_digit : ℕ → ℕ → Reading → Option ℕ → Move
add_digit left value r none = refuse
add_digit zero value r (some d) = unit_read r.high (value * 16 + d) r.text
add_digit (suc left) value r (some d) = go (record r { place = digits left (value * 16 + d) })

-- The character behind a backslash.
unfoldable pub unescape : Char → Reading → Move
unfolding rune
unescape c r =
    if code c == b'"' || code c == b'\\' || code c == b'/'
    then emit c r
    else if code c == b'b'
    then emit (rune 8) r
    else if code c == b'f'
    then emit (rune 12) r
    else if code c == b'n'
    then emit (rune 10) r
    else if code c == b'r'
    then emit (rune 13) r
    else if code c == b't'
    then emit (rune 9) r
    else if code c == b'u'
    then go (record r { place = digits 3 0 })
    else refuse

abbrev pub read_plain : Char → Reading → Move
read_plain c r =
    if code c == b'"'
    then close (flush r.high r.text)
    else if code c == b'\\'
    then go (record r { place = escaped })
    else if ltb (code c) 32
    then refuse
    else emit c r

abbrev pub read_at : Place → Char → Reading → Move
read_at plain c r = read_plain c r
read_at escaped c r = unescape c r
read_at (digits left value) c r = add_digit left value r (hex_value (code c))

-- One character of a literal.
unfoldable pub read_char : Char → Reading → Move
unfolding rune unescape hex_value
read_char c r = read_at r.place c r
