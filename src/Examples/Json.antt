-- ===== src/Examples/Json.antt =====
-- encoding/json on payloads, and the task that is made with it.
use ginblade.Task.{new_example_task}
use ginblade.Task.ReadBack.{IsReadAs, new_example_task-IsReadAs}
use ginblade.Encoding.Payload.{encoding_json, marshal, unmarshal}
use ginblade.Prelude.{trim_space, [], ◌∷◌, ◌≡◌, refl}
use ginblade.Errors.{ok, err, plain}

written_plain :
    marshal (record { name = "a<\"é\n"; trace_id = "" }) ≡ "{\"name\":\"a\\u003c\\\"é\\n\"}"
unfolding marshal
written_plain = refl

read_odd :
    unmarshal
      " {\"NAME\" : \"\\ud83d\\ude00\\ud800x\", \"x\": [1, {\"name\": -2.5e3}], \"trace_id\": null} "
    ≡ ok (record { name = "😀�x"; trace_id = "" })
unfolding unmarshal
read_odd = refl

read_bad : unmarshal "{\"name\": 01}" ≡ err (plain "invalid JSON")
unfolding unmarshal
read_bad = refl

read_mismatch : unmarshal "{\"name\": [\"a\"]}" ≡ err (plain "json: cannot unmarshal")
unfolding unmarshal
read_mismatch = refl

new_example_task-IsReadAs_example :
    IsReadAs "say \"hi\"" "r-1" (new_example_task encoding_json "say \"hi\"" (" r-1 " ∷ []))
    × IsReadAs "say \"hi\"" "" (new_example_task encoding_json "say \"hi\"" [])
unfolding trim_space
new_example_task-IsReadAs_example = new_example_task-IsReadAs "say \"hi\"" " r-1 " []
