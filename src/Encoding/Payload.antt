-- ===== src/Encoding/Payload.antt =====
-- json.Marshal and json.Unmarshal of a task's payload.
use Prim.Native.String.{◌++◌}
use ginblade.Encoding.{quote}
use ginblade.Encoding.Scan.{Kind, null, object, other, string, scan}
use ginblade.Task.{Json, ExamplePayload}
use ginblade.Errors.{Result, ok, err, plain}
use ginblade.Prelude.{
  ℕ, ◌-◌, code, String, Bool, true, false, ◌&&◌, Option, none, some, List, [], ◌∷◌, leb, ◌==◌,
  is_empty, if◌then◌else◌,
}

-- The member trace_id, which has the option omitempty, before the rest of the text.
abbrev pub trace_member : String → String → String
trace_member id rest = if is_empty id then rest else ",\"trace_id\":" ++ quote id rest

-- json.Marshal
unfoldable pub marshal : ExamplePayload → String
unfolding quote
marshal p = "{\"name\":" ++ quote p.name (trace_member p.trace_id "}")

-- foldRune, on the code points that fold to an ASCII letter
abbrev fold : ℕ → ℕ
fold c =
    if leb b'a' c && leb c b'z'
    then c - 32
    else if c == 0x17f
    then b'S'
    else if c == 0x212a
    then b'K'
    else c

-- The key is the field's name, in whatever case: no two of the fields differ in case only.
unfoldable pub names : String → String → Bool
names String.[] String.[] = true
names String.[] (String.◌∷◌ d f) = false
names (String.◌∷◌ c k) String.[] = false
names (String.◌∷◌ c k) (String.◌∷◌ d f) = fold (code c) == code d && names k f

-- literalStore at a string field: its value, and whether a value had another type.
abbrev pub store : Kind → String × Bool → String × Bool
store null (v, bad) = (v, bad)
store (string t) (v, bad) = (t, bad)
store object (v, bad) = (v, true)
store other (v, bad) = (v, true)

-- The string field of a name, once all members are stored in their order.
unfoldable pub field : String → List (String × Kind) → String × Bool → String × Bool
unfolding names
field name [] v = v
field name ((k, x) ∷ ms) v = field name ms (if names k name then store x v else v)

abbrev mismatch {ℓ} : {A : Type ℓ} → Result A
mismatch = err (plain "json: cannot unmarshal")

abbrev decoded : String × Bool → String × Bool → Result ExamplePayload
decoded (name, false) (trace_id, false) = ok (record { name = name; trace_id = trace_id })
decoded (name, false) (trace_id, true) = mismatch
decoded (name, true) t = mismatch

abbrev decoded_trace : String × Bool → Result String
decoded_trace (trace_id, false) = ok trace_id
decoded_trace (trace_id, true) = mismatch

abbrev pub decode_payload : Option (Kind × List (String × Kind)) → Result ExamplePayload
decode_payload none = err (plain "invalid JSON")
decode_payload (some (null, ms)) = ok (record { name = ""; trace_id = "" })
decode_payload (some (object, ms)) =
    decoded (field "NAME" ms ("", false)) (field "TRACE_ID" ms ("", false))
decode_payload (some (string t, ms)) = mismatch
decode_payload (some (other, ms)) = mismatch

abbrev pub decode_trace : Option (Kind × List (String × Kind)) → Result String
decode_trace none = err (plain "invalid JSON")
decode_trace (some (null, ms)) = ok ""
decode_trace (some (object, ms)) = decoded_trace (field "TRACE_ID" ms ("", false))
decode_trace (some (string t, ms)) = mismatch
decode_trace (some (other, ms)) = mismatch

-- json.Unmarshal into an ExamplePayload
unfoldable pub unmarshal : String → Result ExamplePayload
unfolding scan field
unmarshal s = decode_payload (scan s)

-- json.Unmarshal into the struct of TraceIDFromPayload
unfoldable pub unmarshal_trace : String → Result String
unfolding scan field
unmarshal_trace s = decode_trace (scan s)

-- encoding/json
unfoldable pub encoding_json : Json
unfolding marshal unmarshal unmarshal_trace
encoding_json = record {
  marshal = λ p. ok (marshal p);
  unmarshal = unmarshal;
  unmarshal_trace = unmarshal_trace;
}
