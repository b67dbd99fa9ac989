-- ===== src/Encoding/Scan.antt =====
-- The scanner of encoding/json, one character a step. Beside the check of the syntax it keeps what
-- decoding into a struct of strings reads: the members of the outermost object.
use Prim.Native.Char.{Char}
use ginblade.Encoding.Literal.{Reading, Move, refuse, close, go, start, read_char}
use ginblade.Encoding.Number.{Number, is_complete, begin_number, next_number}
use ginblade.Prelude.{
  ℕ, code, String, Bool, true, false, ◌&&◌, ◌||◌, Option, none, some, List, [], ◌∷◌, ◌++◌, length,
  leb, ◌==◌, if◌then◌else◌,
}

-- A value, as far as a string field tells values apart.
pub data Kind : Type 0 where
  null object other : Kind
  string : String → Kind

-- parseState
pub data Frame : Type 0 where
  in_array in_object : Frame

-- What the scanner's step function expects. The flag of `value` and `key` says that the container
-- may end at once, the flag of `literal` that the string is a key.
pub data Mode : Type 0 where
  value key : Bool → Mode
  literal : Bool → Reading → Mode
  colon behind : Mode
  word : String → Kind → Mode
  number : Number → Mode

pub record Scan : Type 0 where
  pub stack : List Frame
  pub mode : Mode
  -- the last key of the outermost object, its members so far, and the whole value once it is read
  pub last_key : String
  pub members : List (String × Kind)
  pub top : Option Kind

abbrev pub fresh : Scan
fresh = record { stack = []; mode = value false; last_key = ""; members = []; top = none }

-- A value ends.
abbrev pub settled : List Frame → Kind → Scan → Scan
settled [] k m = record m { mode = behind; top = some k }
settled (in_object ∷ []) k m = record m {
  mode = behind;
  members = m.members ++ (m.last_key, k) ∷ [];
}
settled (in_array ∷ []) k m = record m { mode = behind }
settled (f ∷ g ∷ fs) k m = record m { mode = behind }

abbrev pub settle : Kind → Scan → Scan
settle k m = settled m.stack k m

-- A key ends.
abbrev pub keyed : List Frame → String → Scan → Scan
keyed [] t m = record m { mode = colon }
keyed (f ∷ []) t m = record m { mode = colon; last_key = t }
keyed (f ∷ g ∷ fs) t m = record m { mode = colon }

abbrev pub is_json_space : ℕ → Bool
is_json_space c = c == 32 || c == 9 || c == 13 || c == 10

-- pushParseState, with maxNestingDepth
abbrev pub push : Frame → Mode → Scan → Option Scan
push f mode m =
    if leb 10000 (length m.stack)
    then none
    else some (record m { stack = f ∷ m.stack; mode = mode })

abbrev pub with_number : Option Number → Scan → Option Scan
with_number none m = none
with_number (some n) m = some (record m { mode = number n })

-- stateBeginValue
unfoldable pub begin_value : ℕ → Scan → Option Scan
unfolding begin_number
begin_value c m =
    if c == b'{'
    then push in_object (key true) m
    else if c == b'['
    then push in_array (value true) m
    else if c == b'"'
    then some (record m { mode = literal false start })
    else if c == b't'
    then some (record m { mode = word "rue" other })
    else if c == b'f'
    then some (record m { mode = word "alse" other })
    else if c == b'n'
    then some (record m { mode = word "ull" null })
    else with_number (begin_number c) m

-- stateEndValue and stateEndTop, behind a value
unfoldable pub end_value : List Frame → ℕ → Scan → Option Scan
end_value [] c m = if is_json_space c then some m else none
end_value (in_object ∷ fs) c m =
    if is_json_space c
    then some m
    else if c == b','
    then some (record m { mode = key false })
    else if c == b'}'
    then some (settle object (record m { stack = fs }))
    else none
end_value (in_array ∷ fs) c m =
    if is_json_space c
    then some m
    else if c == b','
    then some (record m { mode = value false })
    else if c == b']'
    then some (settle other (record m { stack = fs }))
    else none

abbrev pub begin_key : ℕ → Scan → Option Scan
begin_key c m = if c == b'"' then some (record m { mode = literal true start }) else none

abbrev pub closed : Bool → String → Scan → Scan
closed true t m = keyed m.stack t m
closed false t m = settle (string t) m

abbrev pub moved : Bool → Move → Scan → Option Scan
moved is_key refuse m = none
moved is_key (close t) m = some (closed is_key t m)
moved is_key (go r) m = some (record m { mode = literal is_key r })

abbrev pub in_number : Number → Option Number → ℕ → Scan → Option Scan
in_number n (some n') c m = some (record m { mode = number n' })
in_number n none c m =
    if is_complete n then (let m' = settle other m in end_value m'.stack c m') else none

abbrev pub in_word : String → Kind → ℕ → Scan → Option Scan
in_word String.[] k c m = none
in_word (String.◌∷◌ d String.[]) k c m = if c == code d then some (settle k m) else none
in_word (String.◌∷◌ d (String.◌∷◌ e w)) k c m =
    if c == code d then some (record m { mode = word (String.◌∷◌ e w) k }) else none

abbrev pub step_in : Mode → Char → Scan → Option Scan
step_in (value may_end) c m =
    if is_json_space (code c)
    then some m
    else if may_end && code c == b']'
    then end_value m.stack (code c) m
    else begin_value (code c) m
step_in (key may_end) c m =
    if is_json_space (code c)
    then some m
    else if may_end && code c == b'}'
    then end_value m.stack (code c) m
    else begin_key (code c) m
step_in (literal is_key r) c m = moved is_key (read_char c r) m
step_in colon c m =
    if is_json_space (code c)
    then some m
    else if code c == b':'
    then some (record m { mode = value false })
    else none
step_in behind c m = end_value m.stack (code c) m
step_in (word w k) c m = in_word w k (code c) m
step_in (number n) c m = in_number n (next_number n (code c)) (code c) m

-- One step of the scanner.
unfoldable pub step : Char → Scan → Option Scan
unfolding begin_value end_value read_char next_number
step c m = step_in m.mode c m

unfoldable pub run : String → Option Scan → Option Scan
unfolding step
run String.[] m = m
run (String.◌∷◌ c s) none = none
run (String.◌∷◌ c s) (some m) = run s (step c m)

abbrev pub with_members : Option Kind → List (String × Kind) → Option (Kind × List (String × Kind))
with_members none ms = none
with_members (some k) ms = some (k, ms)

abbrev number_alone : Bool → List Frame → Option (Kind × List (String × Kind))
number_alone true [] = some (other, [])
number_alone false [] = none
number_alone complete (f ∷ fs) = none

abbrev pub at_end : Mode → Scan → Option (Kind × List (String × Kind))
at_end (number n) m = number_alone (is_complete n) m.stack
at_end (value e) m = none
at_end (key e) m = none
at_end (literal k r) m = none
at_end colon m = none
at_end (word w k) m = none
at_end behind m = with_members m.top m.members

abbrev pub ended : Option Scan → Option (Kind × List (String × Kind))
ended none = none
ended (some m) = at_end m.mode m

-- The text as one JSON value, with the members of the outermost object in their order.
unfoldable pub scan : String → Option (Kind × List (String × Kind))
unfolding run
scan s = ended (run s (some fresh))
