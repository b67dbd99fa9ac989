-- ===== src/Encoding/Number.antt =====
-- The states of encoding/json's scanner inside a number.
use ginblade.Prelude.{ℕ, Bool, true, false, ◌||◌, Option, none, some, ◌==◌, if◌then◌else◌}
use ginblade.Config.Numbers.{is_digit}

pub data Number : Type 0 where
  negative nought whole point fraction exponent exponent_sign exponent_digits : Number

-- The number may end here.
abbrev pub is_complete : Number → Bool
is_complete negative = false
is_complete nought = true
is_complete whole = true
is_complete point = false
is_complete fraction = true
is_complete exponent = false
is_complete exponent_sign = false
is_complete exponent_digits = true

abbrev is_exponent : ℕ → Bool
is_exponent c = c == b'e' || c == b'E'

abbrev behind_whole : ℕ → Option Number
behind_whole c = if c == b'.' then some point else if is_exponent c then some exponent else none

abbrev to_digit : ℕ → Number → Option Number
to_digit c n = if is_digit c then some n else none

-- The first character of a number.
unfoldable pub begin_number : ℕ → Option Number
begin_number c =
    if c == b'-' then some negative else if c == b'0' then some nought else to_digit c whole

-- The state behind one character more of the number; `none` if it is none of the number.
unfoldable pub next_number : Number → ℕ → Option Number
next_number negative c = if c == b'0' then some nought else to_digit c whole
next_number nought c = behind_whole c
next_number whole c = if is_digit c then some whole else behind_whole c
next_number point c = to_digit c fraction
next_number fraction c =
    if is_digit c then some fraction else if is_exponent c then some exponent else none
next_number exponent c =
    if c == b'+' || c == b'-' then some exponent_sign else to_digit c exponent_digits
next_number exponent_sign c = to_digit c exponent_digits
next_number exponent_digits c = to_digit c exponent_digits
