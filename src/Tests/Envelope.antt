-- ===== src/Tests/Envelope.antt =====
-- Envelopes and exit codes at concrete inputs.
use warcraft_cli.Base.{ℕ, cat, ◌≡◌, ◌≢◌, ◌⊎◌, arith, ◌↔◌, refl, none, [], ◌∷◌}
use warcraft_cli.Envelope.Sort.{sorted}
use warcraft_cli.Envelope.{
  success_envelope, error_envelope, error_body, envelope_violations, missing_keys, unexpected_keys,
  is_envelope_key, envelope_type_violations, envelope_error_violations,
}
use warcraft_cli.Envelope.Conforms.{Conforms}
use warcraft_cli.Envelope.Documented.{IsDocumented, IsStrict, envelope_violations-Conforms}
use warcraft_cli.ExitCodes.{
  exit_auth, exit_not_found, exit_network, error_code_for_http_status, exit_code_for,
}
use warcraft_cli.ExitCodes.Laws.{exit_code_for-http_status}
use warcraft_cli.Json.{Fields, null, str, dict, end, field, lookup, insert, keys}

checks : Unit {0}
unfolding success_envelope envelope_violations missing_keys lookup sorted unexpected_keys keys
    is_envelope_key envelope_type_violations envelope_error_violations insert cat
checks = tt

abbrev item : Fields
item = success_envelope "wowhead" "entity item" "entity" (field "id" (str "19019") end) null none

abbrev gone : Fields
gone = error_envelope "wowhead" "entity" "not_found" "no item" "error" null none

item_passes : envelope_violations item ≡ []
unfolding checks
item_passes = refl

-- A stray key, a text where a dict belongs, and an error in a success.
bad_violations :
    envelope_violations (
      insert "zebra" null
        (insert "apple" null (insert "error" (dict end) (insert "data" (str "x") item))))
    ≡ "unexpected key: apple" ∷ "unexpected key: zebra" ∷ "data must be a dict"
      ∷ "error must be absent when ok is true" ∷ []
unfolding checks
bad_violations = refl

envelope_violations-Conforms_example :
    ((envelope_violations item ≡ []) ↔ Conforms item)
    × (IsDocumented item ↔ ((envelope_violations item ≡ []) × IsStrict item))
envelope_violations-Conforms_example = envelope_violations-Conforms item

-- A failure with one key too many in its error: the check passes it, the document does not.
abbrev hinted : Fields
hinted =
    insert "error"
      (dict (field "code" (str "x") (field "message" (str "y") (field "hint" (str "z") end)))) gone

hinted_passes : envelope_violations hinted ≡ []
unfolding checks error_envelope error_body
hinted_passes = refl

hinted_undocumented : ¬ IsStrict hinted
unfolding lookup insert error_envelope error_body
hinted_undocumented s = absurd (ground (arith, s.closed _ refl "hint" refl))

exit_code_for-http_status_example :
    ((exit_code_for (error_code_for_http_status 404) 1 ≡ exit_auth)
      ↔ ((◌≡◌ {A = ℕ} 404 401) ⊎ (◌≡◌ {A = ℕ} 404 403)))
    × ((exit_code_for (error_code_for_http_status 404) 1 ≡ exit_not_found) ↔ (◌≡◌ {A = ℕ} 404 404))
    × ((exit_code_for (error_code_for_http_status 404) 1 ≡ exit_network)
        ↔ ((◌≢◌ {A = ℕ} 404 401) × (◌≢◌ {A = ℕ} 404 403) × (◌≢◌ {A = ℕ} 404 404)))
exit_code_for-http_status_example = exit_code_for-http_status 404 1
