-- ===== src/ExitCodes/Laws.antt =====
-- What the two tables of exit_codes.py give for every input.
use warcraft_cli.Base.{ℕ, Bool, true, false, ◌≡◌, ◌≢◌, ◌⊎◌, ◌↔◌, refl, arith, ◌==ℕ◌, if◌then◌else◌}
use warcraft_cli.ExitCodes.{
  exit_auth, exit_not_found, exit_network, error_code_for_http_status, exit_code_for,
}

-- The chain of tests that the two lookups make together.
by_status : Bool → Bool → Bool → ℕ
by_status true b c = exit_auth
by_status false true c = exit_auth
by_status false false true = exit_not_found
by_status false false false = exit_network

chain :
    (a b c d : Bool) (default : ℕ)
    → exit_code_for
        (if a
          then "auth_failed"
          else if b
          then "auth_failed"
          else if c
          then "not_found"
          else if d
          then "rate_limited"
          else "upstream_error")
        default
      ≡ by_status a b c
unfolding exit_code_for by_status
chain true b c d default = refl
chain false true c d default = refl
chain false false true d default = refl
chain false false false true default = refl
chain false false false false default = refl

exit_status :
    (status default : ℕ)
    → exit_code_for (error_code_for_http_status status) default
      ≡ by_status (401 ==ℕ status) (403 ==ℕ status) (404 ==ℕ status)
unfolding error_code_for_http_status
exit_status status default =
    chain (401 ==ℕ status) (403 ==ℕ status) (404 ==ℕ status) (429 ==ℕ status) default

-- Every HTTP status ends in one of three exit codes: 3 exactly for 401 and 403, 4 exactly for 404,
-- and 5 for every other status, whatever the default.
pub exit_code_for-http_status :
    (status default : ℕ)
    → ((exit_code_for (error_code_for_http_status status) default ≡ exit_auth)
        ↔ ((status ≡ 401) ⊎ (status ≡ 403)))
      × ((exit_code_for (error_code_for_http_status status) default ≡ exit_not_found)
          ↔ (status ≡ 404))
      × ((exit_code_for (error_code_for_http_status status) default ≡ exit_network)
          ↔ ((status ≢ 401) × (status ≢ 403) × (status ≢ 404)))
unfolding by_status
exit_code_for-http_status status default =
    rw exit_status
      ((ground arith, ground arith), (ground arith, ground arith), (ground arith, ground arith))
