-- ===== src/Http/Retry.antt =====
-- `request_with_retries`: how often a request is made, how long it stalls, and what comes out.
-- packages/warcraft-api/src/warcraft_api/http.py
use warcraft_cli.Base.{
  ℕ, zero, suc, ◌+◌, ◌-◌, ◌*◌, ◌^◌, ◌≤◌, ◌<◌, ◌≡◌, refl, Bool, true, false, ◌&&◌, ◌||◌, Option,
  none, some, List, [], ◌∷◌, arith, min, max, ltb, ◌==ℕ◌, length, All, Bool-cases, inl, inr,
  if◌then◌else◌, subst,
}

-- What the client answers to one attempt: a transport failure, or a status with the seconds that its
-- Retry-After header names, if it names any (negative ones read as 0).
pub data Outcome : Type 0 where
  request_error : Outcome
  answered : ℕ → Option ℕ → Outcome

pub data Result : Type 0 where
  raised_request_error : Result
  responded : ℕ → Result
  unreachable : Result

abbrev pub is_retryable_status : ℕ → Bool
is_retryable_status s = (s ==ℕ 429) || (s ==ℕ 500) || (s ==ℕ 502) || (s ==ℕ 503) || (s ==ℕ 504)

abbrev pub max_retry_after : ℕ
max_retry_after = 3000

-- `min(4.0, 0.35 * 2 ** (attempt - 1) + jitter)`
unfoldable pub backoff_seconds : ℕ → ℕ → ℕ
backoff_seconds jitter attempt = min 400 (35 * 2 ^ (attempt - 1) + jitter)

unfoldable pub retry_after_seconds : Option ℕ → Option ℕ
retry_after_seconds none = none
retry_after_seconds (some seconds) = some (min seconds max_retry_after)

-- `retry_after_seconds(response) or backoff_seconds(attempt)`, where 0.0 is false
unfoldable pub sleep_seconds : Option ℕ → ℕ → ℕ
sleep_seconds none backoff = backoff
sleep_seconds (some zero) backoff = backoff
sleep_seconds (some (suc n)) backoff = suc n

-- A request's run: its waits for the rate limiter, the sleeps between its attempts, how many attempts
-- it made, and its result.
pub record Run : Type 0 where
  pub waits : ℕ
  pub sleeps : List ℕ
  pub requests : ℕ
  pub result : Result

-- `if rate_limiter is not None: rate_limiter.wait(url)`
abbrev pub wait_turns : Bool → ℕ
wait_turns limited = if limited then 1 else 0

abbrev pub after_sleep : Bool → ℕ → Run → Run
after_sleep limited pause r = record r {
  waits = wait_turns limited + r.waits;
  sleeps = pause ∷ r.sleeps;
}

-- The result of a decisive attempt; `raise_for_status` then turns an error status into an exception.
abbrev pub result_of : Outcome → Result
result_of request_error = raised_request_error
result_of (answered status _) = responded status

-- A failure that is worth another attempt.
abbrev pub is_transient : Outcome → Bool
is_transient request_error = true
is_transient (answered status _) = is_retryable_status status

abbrev pub pause_after : ℕ → ℕ → Outcome → ℕ
pause_after jitter attempt request_error = backoff_seconds jitter attempt
pause_after jitter attempt (answered status after) =
    sleep_seconds (retry_after_seconds after) (backoff_seconds jitter attempt)

module _ (client : ℕ → Outcome) (jitter : ℕ → ℕ) (limited : Bool) (attempts : ℕ) where
  -- The loop from an attempt, with the number of rounds left.
  unfoldable pub attempt_from : ℕ → ℕ → Run
  attempt_from zero attempt = record {
    waits = 0;
    sleeps = [];
    requests = attempt - 1;
    result = unreachable;
  }
  attempt_from (suc rounds) attempt =
      let next = attempt_from rounds (suc attempt) in
      if is_transient (client attempt) && ltb attempt attempts
      then after_sleep limited (pause_after (jitter attempt) attempt (client attempt)) next
      else record {
        waits = wait_turns limited;
        sleeps = [];
        requests = attempt;
        result = result_of (client attempt);
      }

-- `attempts = max(1, retry_attempts)`, and an attempt for each of them
unfoldable pub request_with_retries : (ℕ → Outcome) → (ℕ → ℕ) → Bool → ℕ → Run
request_with_retries client jitter limited retry_attempts =
    attempt_from client jitter limited (max 1 retry_attempts) (max 1 retry_attempts) 1

backoff-le : (jitter attempt : ℕ) → backoff_seconds jitter attempt ≤ 400
unfolding backoff_seconds
backoff-le jitter attempt = omega arith

pause-le : (jitter attempt : ℕ) (o : Outcome) → pause_after jitter attempt o ≤ max_retry_after
unfolding retry_after_seconds sleep_seconds
pause-le jitter attempt request_error = omega (arith, backoff-le jitter attempt)
pause-le jitter attempt (answered status none) = omega (arith, backoff-le jitter attempt)
pause-le jitter attempt (answered status (some n)) = ground (arith, backoff-le jitter attempt)

turn :
    (limited : Bool) (n m : ℕ)
    → n ≡ (if limited then suc m else 0)
    → wait_turns limited + n ≡ (if limited then suc (suc m) else 0)
turn true n m h = omega arith
turn false n m h = omega arith

-- What a run from an attempt on must be, said without the loop.
pub record Retried (client : ℕ → Outcome) (limited : Bool) (attempts first : ℕ) (r : Run)
    : Type 0 where
  pub from : first ≤ r.requests
  pub within : r.requests ≤ attempts
  pub sleeps : length r.sleeps + first ≡ r.requests
  pub turns : r.waits ≡ (if limited then suc (length r.sleeps) else 0)
  pub short : All (λ s. s ≤ max_retry_after) r.sleeps
  pub transient : (a : ℕ) → first ≤ a → a < r.requests → is_transient (client a) ≡ true
  pub last : r.requests < attempts → is_transient (client r.requests) ≡ false
  pub result : r.result ≡ result_of (client r.requests)

module _ (client : ℕ → Outcome) (jitter : ℕ → ℕ) (limited : Bool) (attempts : ℕ) where
  is_transient-from :
      (attempt end : ℕ)
      → is_transient (client attempt) ≡ true
      → ((a : ℕ) → suc attempt ≤ a → a < end → is_transient (client a) ≡ true)
      → (a : ℕ) → attempt ≤ a
      → a < end
      → is_transient (client a) ≡ true
  is_transient-from attempt end t h a lo hi = elim (Bool-cases (a ==ℕ attempt)) [
    | inl y ↦ subst (λ x. is_transient (client x) ≡ true) (ground arith) t
    | inr n ↦ h a (ground arith) hi
  ]

  Retried-next :
      (attempt pause : ℕ) (r : Run)
      → is_transient (client attempt) ≡ true
      → pause ≤ max_retry_after
      → Retried client limited attempts (suc attempt) r
      → Retried client limited attempts attempt (after_sleep limited pause r)
  Retried-next attempt pause r t p h = record {
    from = omega arith;
    within = h.within;
    sleeps = omega arith;
    turns = turn limited r.waits (length r.sleeps) h.turns;
    short = (p, h.short);
    transient = λ a lo hi. is_transient-from attempt r.requests t h.transient a lo hi;
    last = h.last;
    result = h.result;
  }

  attempt_from-Retried :
      (rounds attempt : ℕ)
      → rounds + attempt ≡ suc attempts
      → 1 ≤ rounds
      → Retried client limited attempts attempt
          (attempt_from client jitter limited attempts rounds attempt)
  unfolding attempt_from
  attempt_from-Retried zero attempt e h = absurd (omega arith)
  attempt_from-Retried (suc rounds) attempt e h =
      elim (Bool-cases (is_transient (client attempt) && ltb attempt attempts)) [
        | inl y ↦
            rw (y, attempt_from)
              (Retried-next attempt (pause_after (jitter attempt) attempt (client attempt))
                (attempt_from client jitter limited attempts rounds (suc attempt)) (ground arith)
                (pause-le (jitter attempt) attempt (client attempt))
                (attempt_from-Retried rounds (suc attempt) (omega arith) (ground arith)))
        | inr n ↦
            rw (n, attempt_from)
              record {
                from = omega arith;
                within = omega arith;
                sleeps = omega arith;
                turns = refl;
                short = tt;
                transient = λ a lo hi. absurd (omega arith);
                last = λ more. ground arith;
                result = refl;
              }
      ]

-- A request ends, whatever the client answers: it is made at least once and at most `retry_attempts`
-- times (once for 0), with a sleep between two attempts and none after the last, each of them at most
-- 30 seconds, and a turn of the rate limiter, if there is one, for each attempt. Every attempt but the
-- last failed transiently, the last one did not unless the attempts were used up, and its outcome is
-- the result: a run never falls out of the loop.
pub request_with_retries_lem :
    (client : ℕ → Outcome) (jitter : ℕ → ℕ) (limited : Bool) (retry_attempts : ℕ)
    → Retried client limited
        (max 1 retry_attempts)
        1
        (request_with_retries client jitter limited retry_attempts)
unfolding request_with_retries
request_with_retries_lem client jitter limited retry_attempts =
    attempt_from-Retried client jitter limited (max 1 retry_attempts) (max 1 retry_attempts) 1
      (omega arith) (omega arith)
