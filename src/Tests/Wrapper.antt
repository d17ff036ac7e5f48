-- ===== src/Tests/Wrapper.antt =====
-- The wrapper's envelopes and judgements at concrete payloads.
use warcraft_cli.Base.{cat, String, ◌≡◌, ◌≢◌, ◌↔◌, refl, true, false, none, some, arith}
use warcraft_cli.Envelope.{is_envelope_key}
use warcraft_cli.Envelope.Conforms.{Conforms}
use warcraft_cli.Json.{
  ℤ, pos, Value, Fields, int, str, dict, end, field, lookup, insert, truthy, as_dict,
}
use warcraft_cli.Wrapper.{
  wrapper_ok, wrapper_envelope, is_zero, is_false, failed_call, source_exit_code,
}
use warcraft_cli.Wrapper.Content.{section, carried, wrapper_envelope-content}
use warcraft_cli.Wrapper.Envelopes.{IsPayload, wrapper_envelope-Conforms}
use warcraft_cli.Wrapper.Failures.{failed_call_lem}

-- What a composite hands over when its providers failed.
abbrev failed_payload : Fields
failed_payload = field "providers" (int (pos 2)) (
    field "error"
      (dict (field "code" (str "upstream_error") (field "message" (str "no provider") end))) end)

failed_payload-IsPayload : IsPayload failed_payload
unfolding lookup wrapper_ok as_dict
failed_payload-IsPayload = record {
  unique = (refl, (refl, tt));
  ok = λ v e. absurd (ground arith);
  provider = λ v e. absurd (ground arith);
  command = λ v e. absurd (ground arith);
  kind = λ v e. absurd (ground arith);
  version = λ v e. absurd (ground arith);
  provenance = λ v e. absurd (ground arith);
  no_error = λ e. absurd (ground arith);
  code = λ e. ("upstream_error", refl);
  details = λ v e. absurd (ground arith);
  message = λ e. ("no provider", refl);
}

wrapper_envelope-Conforms_example : Conforms (wrapper_envelope "guide-compare" failed_payload)
wrapper_envelope-Conforms_example =
    wrapper_envelope-Conforms "guide-compare" failed_payload failed_payload-IsPayload

-- The details already say how many providers were asked, and the payload says it otherwise.
abbrev detailed_payload : Fields
detailed_payload = field "providers" (int (pos 2)) (
    field "surface" (str "search") (
      field "error"
        (dict (
          field "code" (str "upstream_error") (
            field "message" (str "no provider")
              (field "details" (dict (field "providers" (int (pos 3)) end)) end))))
        end))

wrapper_envelope-content_example :
    lookup "providers"
      (section (wrapper_ok detailed_payload) (wrapper_envelope "search" detailed_payload))
    ≡ carried "providers" (section (wrapper_ok detailed_payload) detailed_payload) detailed_payload
unfolding lookup wrapper_ok as_dict
wrapper_envelope-content_example =
    wrapper_envelope-content "search" detailed_payload "providers" (refl, tt)

providers_kept :
    carried "providers" (section (wrapper_ok detailed_payload) detailed_payload) detailed_payload
    ≡ some (int (pos 3))
unfolding lookup wrapper_ok as_dict
providers_kept = refl

surface_carried :
    carried "surface" (section (wrapper_ok detailed_payload) detailed_payload) detailed_payload
    ≡ some (str "search")
unfolding lookup wrapper_ok as_dict is_envelope_key
surface_carried = refl

abbrev shown : Value → String
shown (str s) = s
shown _ = "4"

abbrev failed_result : Fields
failed_result = field "provider" (str "wowhead") (field "exit_code" (int (pos 4)) end)

failed_call_message :
    failed_call shown failed_result
    ≡ some (
      field "code" (str "provider_failed") (field "message" (str "wowhead exited 4.") end),
      pos 4,
    )
unfolding failed_call source_exit_code truthy insert cat lookup as_dict
failed_call_message = refl

failed_call_lem_example :
    ((failed_call shown failed_result ≡ none) ↔ (
      (is_zero (lookup "exit_code" failed_result) ≡ true)
      × (is_false (lookup "ok" (as_dict (lookup "payload" failed_result))) ≡ false)))
    × ((failure : Fields) (code : ℤ)
        → failed_call shown failed_result ≡ some (failure, code)
        → (code ≢ pos 0)
          × ((v : Value) × (lookup "code" failure ≡ some v) × (truthy v ≡ true))
          × ((v : Value) × (lookup "message" failure ≡ some v) × (truthy v ≡ true)))
failed_call_lem_example = failed_call_lem shown failed_result
