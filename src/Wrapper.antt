-- ===== src/Wrapper.antt =====
-- The wrapper's own envelopes, and how it reads the result of a provider call.
-- packages/warcraft-cli/src/warcraft_cli/provider_calls.py
pub mod Envelopes
pub mod Content
pub mod Failures
use warcraft_cli.Base.{
  ℕ, zero, String, Bool, true, false, not, ◌&&◌, Option, none, some, ◌==◌, cat, if◌then◌else◌,
}
use warcraft_cli.Envelope.{schema_version, is_envelope_key}
use warcraft_cli.ExitCodes.{exit_generic, exit_code_for}
use warcraft_cli.Json.{
  ℤ, pos, negsuc, Value, Fields, null, bool, int, float, str, list, dict, end, field, lookup, has,
  insert, merge, restrict, truthy, as_dict,
}

-- `bool(payload.get("ok", "error" not in payload))`
unfoldable pub wrapper_ok : Fields → Bool
wrapper_ok payload = elim (lookup "ok" payload) [
  | none ↦ not (has "error" payload)
  | some v ↦ truthy v
]

-- The payload's content: every key that is no envelope key.
abbrev pub content : Fields → Fields
content payload = restrict (λ k. not (is_envelope_key k)) payload

-- The defaults, under the envelope keys that the payload sets.
unfoldable pub wrapper_base : String → Fields → Fields
wrapper_base command payload =
    merge
      (field "ok" (bool (wrapper_ok payload)) (
        field "provider" (str "warcraft") (
          field "command" (str command) (
            field "kind" (str command) (
              field "schema_version" (str schema_version)
                (field "query" null (field "provenance" (dict end) end)))))))
      (restrict is_envelope_key payload)

-- `if details: error["details"] = details`
unfoldable pub with_details : Fields → Fields → Fields
with_details error end = error
with_details error (field k v d) = insert "details" (dict (field k v d)) error

unfoldable pub wrapper_error : Fields → Fields
unfolding with_details
wrapper_error payload =
    let error = as_dict (lookup "error" payload) in
    with_details error (merge (content payload) (as_dict (lookup "details" error)))

unfoldable pub wrapper_envelope : String → Fields → Fields
wrapper_envelope command payload =
    let envelope = wrapper_base command payload in
    if wrapper_ok payload
    then insert "data" (dict (merge (content payload) (as_dict (lookup "data" payload)))) envelope
    else insert "error" (dict (wrapper_error payload))
        (insert "data" (dict end) (insert "kind" (str "error") (insert "ok" (bool false) envelope)))

-- `isinstance(v, int)`, where a bool is an int too
unfoldable pub as_int : Option Value → Option ℤ
as_int (some (int n)) = some n
as_int (some (bool true)) = some (pos 1)
as_int (some (bool false)) = some (pos 0)
as_int _ = none

-- The exit code that an error's own code maps to, when there is an error dict with a text code.
unfoldable pub text_exit_code : Option Value → ℤ
text_exit_code (some (str code)) = pos (exit_code_for code exit_generic)
text_exit_code _ = pos exit_generic

unfoldable pub mapped_exit_code : Option Value → ℤ
unfolding text_exit_code
mapped_exit_code (some (dict error)) = text_exit_code (lookup "code" error)
mapped_exit_code _ = pos exit_generic

-- The exit code of a source's result, unless that is absent or zero.
unfoldable pub exit_code_unless_zero : Option ℤ → ℤ → ℤ
exit_code_unless_zero none other = other
exit_code_unless_zero (some (pos zero)) other = other
exit_code_unless_zero (some n) other = n

unfoldable pub source_exit_code : Fields → ℤ
unfolding as_int mapped_exit_code exit_code_unless_zero
source_exit_code source_result =
    exit_code_unless_zero (as_int (lookup "exit_code" source_result))
      (mapped_exit_code (lookup "error" source_result))

-- `value == 0`, which `False` and `0.0` pass too
unfoldable pub is_zero : Option Value → Bool
is_zero (some (int (pos zero))) = true
is_zero (some (bool false)) = true
is_zero (some (float t)) = if t == "0.0" then true else t == "-0.0"
is_zero _ = false

-- `value is False`
unfoldable pub is_false : Option Value → Bool
is_false (some (bool false)) = true
is_false _ = false

-- `value or other`
unfoldable pub value_or : Option Value → Value → Value
value_or none other = other
value_or (some v) other = if truthy v then v else other

abbrev pub value_of : Option Value → Value
value_of none = null
value_of (some v) = v

-- `format` is Python's `str()`, as an f-string applies it.
unfoldable pub call_failure : (Value → String) → Fields → Fields → Fields
unfolding value_or
call_failure format result error =
    insert "message"
      (value_or (lookup "message" error) (
        str (
          cat (format (value_or (lookup "provider" result) (str "The provider")))
            (cat " exited " (cat (format (value_of (lookup "exit_code" result))) ".")))))
      (insert "code" (value_or (lookup "code" error) (str "provider_failed")) error)

unfoldable pub failed_call : (Value → String) → Fields → Option (Fields × ℤ)
unfolding is_zero is_false call_failure
failed_call format result =
    let payload = as_dict (lookup "payload" result) in
    let failure = call_failure format result (as_dict (lookup "error" payload)) in
    if is_zero (lookup "exit_code" result) && not (is_false (lookup "ok" payload))
    then none
    else some (
      failure,
      source_exit_code (
          field "exit_code" (value_of (lookup "exit_code" result))
            (field "error" (dict failure) end)),
    )
