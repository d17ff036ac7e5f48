-- ===== src/Tests/Http.antt =====
-- Requests and their rate limit at a concrete client.
use warcraft_cli.Base.{
  String, if◌then◌else◌, ◌==ℕ◌, ℕ, ◌≡◌, refl, true, none, some, List, [], ◌∷◌, arith, max,
}
use warcraft_cli.Http.Limiter.{Spaced, starts, starts_lem, wait, next_allowed_at, book}
use warcraft_cli.Http.Retry.{
  Outcome, request_error, answered, responded, Retried, backoff_seconds, retry_after_seconds,
  sleep_seconds, attempt_from, request_with_retries, request_with_retries_lem,
}

-- A transport failure, then a 503 that asks for two minutes, then a page.
abbrev flaky : ℕ → Outcome
flaky attempt =
    if attempt ==ℕ 1
    then request_error
    else if attempt ==ℕ 2
    then answered 503 (some 12000)
    else answered 200 none

abbrev jitter : ℕ → ℕ
jitter _ = 5

flaky_run :
    request_with_retries flaky jitter true 3
    ≡ record { waits = 3; sleeps = 40 ∷ 3000 ∷ []; requests = 3; result = responded 200 }
unfolding request_with_retries attempt_from backoff_seconds retry_after_seconds sleep_seconds
flaky_run = refl

request_with_retries_lem_example :
    Retried flaky true (max 1 3) 1 (request_with_retries flaky jitter true 3)
request_with_retries_lem_example = request_with_retries_lem flaky jitter true 3

abbrev calls : List (String × ℕ)
calls = ("a", 100) ∷ ("b", 100) ∷ ("a", 101) ∷ ("a", 110) ∷ []

calls-starts : starts 25 calls [] ≡ ("a", 100) ∷ ("b", 100) ∷ ("a", 125) ∷ ("a", 150) ∷ []
unfolding starts wait next_allowed_at book
calls-starts = refl

starts_lem_example : Spaced 25 (starts 25 calls [])
starts_lem_example = starts_lem 25 calls [] (omega arith)
