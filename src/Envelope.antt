-- ===== src/Envelope.antt =====
-- The one JSON envelope every binary emits: its two builders and the check made before it is
-- written. packages/warcraft-core/src/warcraft_core/envelope.py
pub mod Conforms
pub mod Documented
pub mod Build
use warcraft_cli.Base.{
  String, ◌≡◌, Bool, true, false, not, Option, none, some, List, [], ◌∷◌, ◌++◌, map, ◌==◌, cat, any,
  keep, is_some, if◌then◌else◌,
}
use warcraft_cli.Envelope.Sort.{sorted}
use warcraft_cli.Json.{
  Value, Fields, null, bool, str, dict, end, field, lookup, has, keys, is_bool, is_str, is_dict,
}
pub mod Sort
pub mod Order

abbrev pub schema_version : String
schema_version = "1"

-- ENVELOPE_KEYS without `error`, sorted
abbrev pub required_keys : List String
required_keys =
    "command" ∷ "data" ∷ "kind" ∷ "ok" ∷ "provenance" ∷ "provider" ∷ "query" ∷ "schema_version" ∷ []

unfoldable pub is_envelope_key : String → Bool
unfolding any
is_envelope_key key = any (λ k. k == key) ("error" ∷ required_keys)

-- `dict(provenance or {})`
unfoldable pub or_empty : Option Fields → Fields
or_empty none = end
or_empty (some d) = d

unfoldable pub success_envelope : String → String → String → Fields → Value → Option Fields → Fields
unfolding or_empty
success_envelope provider command kind body query provenance = field "ok" (bool true) (
    field "provider" (str provider) (
      field "command" (str command) (
        field "kind" (str kind) (
          field "schema_version" (str schema_version) (
            field "query" query
              (field "provenance" (dict (or_empty provenance)) (field "data" (dict body) end)))))))

-- `if details: error["details"] = details`
unfoldable pub error_body : String → String → Option Fields → Fields
error_body code message (some (field k v d)) =
    field "code" (str code)
      (field "message" (str message) (field "details" (dict (field k v d)) end))
error_body code message _ = field "code" (str code) (field "message" (str message) end)

unfoldable pub error_envelope :
    String → String → String → String → String → Value → Option Fields → Fields
unfolding error_body
error_envelope provider command code message kind query details = field "ok" (bool false) (
    field "provider" (str provider) (
      field "command" (str command) (
        field "kind" (str kind) (
          field "schema_version" (str schema_version) (
            field "query" query (
              field "provenance" (dict end) (
                field "data" (dict end)
                  (field "error" (dict (error_body code message details)) end))))))))

-- A problem, when the key is there and its value fails the test.
unfoldable pub present_must : (Value → Bool) → Option Value → String → List String
present_must test none problem = []
present_must test (some v) problem = if test v then [] else problem ∷ []

-- `payload["schema_version"] == SCHEMA_VERSION`
unfoldable pub is_schema_version : Value → Bool
is_schema_version (str s) = s == schema_version
is_schema_version _ = false

unfoldable pub envelope_type_violations : Fields → List String
unfolding present_must is_schema_version
envelope_type_violations payload =
    present_must is_bool (lookup "ok" payload) "ok must be a bool"
    ++ (present_must is_str (lookup "provider" payload) "provider must be a str"
        ++ (present_must is_str (lookup "command" payload) "command must be a str"
            ++ (present_must is_str (lookup "kind" payload) "kind must be a str"
                ++ (present_must is_schema_version (lookup "schema_version" payload)
                      "schema_version must be '1'"
                    ++ (present_must is_dict (lookup "provenance" payload)
                          "provenance must be a dict"
                        ++ present_must is_dict (lookup "data" payload) "data must be a dict")))))

-- A problem, unless the value is there and passes the test.
unfoldable pub must : (Value → Bool) → Option Value → String → List String
must test none problem = problem ∷ []
must test (some v) problem = if test v then [] else problem ∷ []

-- The checks on `ok` and `error`, each as `payload.get` reads it.
unfoldable pub error_problems : Option Value → Option Value → List String
unfolding must present_must
error_problems (some (bool true)) (some e) = "error must be absent when ok is true" ∷ []
error_problems (some (bool false)) (some (dict e)) =
    must is_str (lookup "code" e) "error.code must be a str"
    ++ (must is_str (lookup "message" e) "error.message must be a str"
        ++ present_must is_dict (lookup "details" e) "error.details must be a dict")
error_problems (some (bool false)) _ = "error must be a dict when ok is false" ∷ []
error_problems _ _ = []

unfoldable pub envelope_error_violations : Fields → List String
unfolding error_problems
envelope_error_violations payload = error_problems (lookup "ok" payload) (lookup "error" payload)

unfoldable pub missing_keys : List String → Fields → List String
missing_keys [] payload = []
missing_keys (k ∷ ks) payload =
    let rest = missing_keys ks payload in
    if has k payload then rest else cat "missing key: " k ∷ rest

unfoldable pub unexpected_keys : Fields → List String
unfolding keep
unexpected_keys payload = keep (λ k. not (is_envelope_key k)) (keys payload)

unfoldable pub envelope_violations : Fields → List String
envelope_violations payload =
    missing_keys required_keys payload
    ++ (map (cat "unexpected key: ") (sorted (unexpected_keys payload))
        ++ (envelope_type_violations payload ++ envelope_error_violations payload))
