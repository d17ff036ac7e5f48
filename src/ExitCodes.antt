-- ===== src/ExitCodes.antt =====
-- The process exit codes and the mappings onto them.
-- packages/warcraft-core/src/warcraft_core/exit_codes.py
pub mod Laws
use warcraft_cli.Base.{ℕ, String, Option, none, some, List, [], ◌∷◌, ◌==◌, ◌==ℕ◌, if◌then◌else◌}

abbrev pub exit_generic : ℕ
exit_generic = 1

abbrev pub exit_usage : ℕ
exit_usage = 2

abbrev pub exit_auth : ℕ
exit_auth = 3

abbrev pub exit_not_found : ℕ
exit_not_found = 4

abbrev pub exit_network : ℕ
exit_network = 5

abbrev pub exit_code_by_error_code : List (String × ℕ)
exit_code_by_error_code =
    ("auth_failed", exit_auth)
    ∷ ("not_found", exit_not_found)
    ∷ ("network_error", exit_network)
    ∷ ("timeout", exit_network)
    ∷ ("upstream_error", exit_network)
    ∷ ("rate_limited", exit_network)
    ∷ ("invalid_query", exit_usage)
    ∷ ("invalid_argument", exit_usage)
    ∷ ("missing_fields", exit_usage)
    ∷ ("invalid_guide_ref", exit_usage)
    ∷ ("invalid_ref", exit_usage)
    ∷ ("invalid_tool_ref", exit_usage)
    ∷ []

abbrev pub error_code_by_http_status : List (ℕ × String)
error_code_by_http_status =
    (401, "auth_failed") ∷ (403, "auth_failed") ∷ (404, "not_found") ∷ (429, "rate_limited") ∷ []

-- `table.get(key, default)`
unfoldable pub code_or : List (String × ℕ) → String → ℕ → ℕ
code_or [] code default = default
code_or ((c, n) ∷ rest) code default = if c == code then n else code_or rest code default

unfoldable pub status_or : List (ℕ × String) → ℕ → String → String
status_or [] status default = default
status_or ((s, c) ∷ rest) status default = if s ==ℕ status then c else status_or rest status default

unfoldable pub error_code_for_http_status : ℕ → String
unfolding status_or
error_code_for_http_status status = status_or error_code_by_http_status status "upstream_error"

unfoldable pub exit_code_for : String → ℕ → ℕ
unfolding code_or
exit_code_for code default = code_or exit_code_by_error_code code default
