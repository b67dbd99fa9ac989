-- ===== src/Prelude/Text.antt =====
-- Go's `strings` package, as far as the program calls it. A Go string is its list of code points:
-- the texts that the program handles are valid UTF-8.
pub mod Trim
pub mod Split
pub mod Append
use Prim.Native.Nat.{ℕ, ◌+◌, ◌<◌, compare, Ordering}
use Prim.Native.Char.{Char, char, code, IsScalar}
use Prim.Native.String
use Prim.Native.String.{String, ◌++◌}
use mathlib.Core.Path.{◌≡◌, refl}
use mathlib.Core.Bool.{Bool, true, false, ◌&&◌, ◌||◌}
use mathlib.Core.List.{List, [], ◌∷◌}
use mathlib.Core.Logic.{dite}
use native.Mathlib.Decide.{dec_lt}
use native.Mathlib.Omega.{arith}
use ginblade.Prelude.Tests.{leb, ltb, ◌==◌, if◌then◌else◌}

-- s == ""
abbrev pub is_empty : String → Bool
is_empty String.[] = true
is_empty (String.◌∷◌ c s) = false

-- unicode.IsSpace
unfoldable pub is_space : ℕ → Bool
is_space n =
    leb 9 n && leb n 13
    || n == 32
    || n == 0x85
    || n == 0xa0
    || n == 0x1680
    || leb 0x2000 n && leb n 0x200a
    || n == 0x2028
    || n == 0x2029
    || n == 0x202f
    || n == 0x205f
    || n == 0x3000

pub trim_left : String → String
trim_left String.[] = ""
trim_left (String.◌∷◌ c s) =
    let rest = trim_left s in if is_space (code c) then rest else String.◌∷◌ c s

pub trim_right : String → String
trim_right String.[] = ""
trim_right (String.◌∷◌ c s) =
    let rest = trim_right s in if is_space (code c) && is_empty rest then "" else String.◌∷◌ c rest

-- strings.TrimSpace
unfoldable pub trim_space : String → String
unfolding trim_left trim_right is_space
trim_space s = trim_right (trim_left s)

abbrev pub push_head : Char → List String → List String
push_head c [] = String.◌∷◌ c "" ∷ []
push_head c (p ∷ ps) = String.◌∷◌ c p ∷ ps

-- strings.Split at a separator of one character
unfoldable pub split_on : ℕ → String → List String
split_on sep String.[] = "" ∷ []
split_on sep (String.◌∷◌ c s) =
    let parts = split_on sep s in if code c == sep then "" ∷ parts else push_head c parts

-- strings.Join
unfoldable pub join : String → List String → String
join sep [] = ""
join sep (p ∷ []) = p
join sep (p ∷ q ∷ ps) = p ++ (sep ++ join sep (q ∷ ps))

compare-lt : (n m : ℕ) → n < m → compare n m ≡ Ordering.lt
compare-lt n m h = ground arith

scalar_of_lt : (n : ℕ) → n < 55296 → IsScalar n
unfolding compare-lt
scalar_of_lt n h = rw (compare-lt n 55296 h) tt

-- The character of a code point below the surrogates.
chr : ℕ → Char
unfolding dec_lt scalar_of_lt
chr n = dite (dec_lt n 55296) (λ h. char n (scalar_of_lt n h)) (λ _. char 0 tt)

-- unicode.ToLower as far as a result in ASCII goes: the letters A to Z, and the two other code
-- points whose lower case is an ASCII letter.
lower_char : Char → Char
unfolding chr
lower_char c =
    if leb b'A' (code c) && leb (code c) b'Z'
    then chr (code c + 32)
    else if code c == 0x130
    then chr b'i'
    else if code c == 0x212a
    then chr b'k'
    else c

-- strings.ToLower
unfoldable pub to_lower : String → String
unfolding lower_char
to_lower String.[] = ""
to_lower (String.◌∷◌ c s) = String.◌∷◌ (lower_char c) (to_lower s)

-- strings.HasPrefix
unfoldable pub has_prefix : String → String → Bool
has_prefix s String.[] = true
has_prefix String.[] (String.◌∷◌ d p) = false
has_prefix (String.◌∷◌ c s) (String.◌∷◌ d p) = code c == code d && has_prefix s p

-- s[n:] where the first n characters are ASCII
unfoldable pub drop_ascii : ℕ → String → String
drop_ascii ℕ.zero s = s
drop_ascii (ℕ.suc n) String.[] = ""
drop_ascii (ℕ.suc n) (String.◌∷◌ c s) = drop_ascii n s

-- No character of the text is `sep`.
abbrev pub Lacks : ℕ → String → Type 0
Lacks sep String.[] = Unit
Lacks sep (String.◌∷◌ c s) = ((code c == sep) ≡ false) × Lacks sep s
