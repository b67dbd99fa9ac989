-- ===== src/Encoding/RoundTrip.antt =====
-- A payload that encoding/json wrote is read back.
use Prim.Native.String.{◌++◌}
use text.Mathlib.TextLemmas.{nil-append}
use ginblade.Encoding.{quote}
use ginblade.Encoding.Literal.{read_char}
use ginblade.Encoding.Scan.{
  Kind, string, object, in_object, Scan, value, behind, settle, step, run, fresh, begin_value,
  end_value, scan, ended,
}
use ginblade.Encoding.Payload.{
  marshal, field, unmarshal, unmarshal_trace, decode_payload, decode_trace, encoding_json,
}
use ginblade.Encoding.Escapes.{reading, run-append, run-escapes}
use ginblade.Errors.{ok}
use ginblade.Task.{JsonLaws, ExamplePayload}
use ginblade.Prelude.{◌≡◌, refl, ap, ◌∙◌, String, false, none, some, List, [], ◌∷◌}

-- A text as a value.
run-quote :
    (m : Scan) (s rest : String)
    → run (quote s rest) (some (record m { mode = value false }))
      ≡ run rest (some (settle (string s) (reading false s m)))
unfolding quote run step begin_value read_char
run-quote m s rest =
    run-escapes false m "" s (String.◌∷◌ "\"" rest)
    ∙ ap (λ u. run rest (some (settle (string u) (reading false u m)))) (nil-append s)

-- Behind the members of the outermost object.
abbrev behind_members : String → List (String × Kind) → Scan
behind_members k ms = record {
  stack = in_object ∷ [];
  mode = behind;
  last_key = k;
  members = ms;
  top = none;
}

-- Behind the colon of a member of the outermost object.
abbrev before_value : String → List (String × Kind) → Scan
before_value k ms = record (behind_members k ms) { mode = value false }

run-name :
    (s rest : String)
    → run ("{\"name\":" ++ quote s rest) (some fresh)
      ≡ run rest (some (behind_members "name" (("name", string s) ∷ [])))
unfolding run step begin_value end_value read_char
run-name s rest =
    run-append "{\"name\":" (quote s rest) (some fresh) ∙ run-quote (before_value "name" []) s rest

run-trace :
    (k s rest : String) (x : String × Kind)
    → run (",\"trace_id\":" ++ quote s rest) (some (behind_members k (x ∷ [])))
      ≡ run rest (some (behind_members "trace_id" (x ∷ ("trace_id", string s) ∷ [])))
unfolding run step begin_value end_value read_char
run-trace k s rest x =
    run-append ",\"trace_id\":" (quote s rest) (some (behind_members k (x ∷ [])))
    ∙ run-quote (before_value "trace_id" (x ∷ [])) s rest

-- The members of a payload.
abbrev trace_members : String → List (String × Kind)
trace_members String.[] = []
trace_members (String.◌∷◌ c s) = ("trace_id", string (String.◌∷◌ c s)) ∷ []

scan-marshal :
    (name id : String)
    → scan (marshal (record { name = name; trace_id = id }))
      ≡ some (object, ("name", string name) ∷ trace_members id)
unfolding scan marshal run step end_value
scan-marshal name String.[] = ap ended (run-name name "}")
scan-marshal name (String.◌∷◌ c s) = ap ended (
    run-name name (",\"trace_id\":" ++ quote (String.◌∷◌ c s) "}")
    ∙ run-trace "name" (String.◌∷◌ c s) "}" ("name", string name))

decode-members :
    (name id : String)
    → decode_payload (some (object, ("name", string name) ∷ trace_members id))
      ≡ ok (record { name = name; trace_id = id })
unfolding field
decode-members name String.[] = refl
decode-members name (String.◌∷◌ c s) = refl

decode_trace-members :
    (name id : String)
    → decode_trace (some (object, ("name", string name) ∷ trace_members id)) ≡ ok id
unfolding field
decode_trace-members name String.[] = refl
decode_trace-members name (String.◌∷◌ c s) = refl

-- What json.Marshal writes of a payload is read back by json.Unmarshal, into a payload and into the
-- struct of TraceIDFromPayload.
pub unmarshal-marshal :
    (p : ExamplePayload)
    → (unmarshal (marshal p) ≡ ok p) × (unmarshal_trace (marshal p) ≡ ok p.trace_id)
unfolding unmarshal unmarshal_trace
unmarshal-marshal p = (
  ap decode_payload (scan-marshal p.name p.trace_id) ∙ decode-members p.name p.trace_id,
  ap decode_trace (scan-marshal p.name p.trace_id) ∙ decode_trace-members p.name p.trace_id,
)

unfoldable pub encoding_json-JsonLaws : JsonLaws encoding_json
unfolding encoding_json
encoding_json-JsonLaws = record {
  bytes = marshal;
  marshals = λ p. refl;
  unmarshals = λ p. (unmarshal-marshal p).0;
  unmarshals_trace = λ p. (unmarshal-marshal p).1;
}
