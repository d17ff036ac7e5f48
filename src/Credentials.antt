-- ===== src/Credentials.antt =====
-- The cache of OAuth tokens: one entry a provider, for one scope and one pair of credentials.
-- packages/warcraft-api/src/warcraft_api/client_credentials.py
-- The state file is what it holds when it can be read; the digest is SHA-256's hexadecimal text, and
-- `seconds` is the time that a JSON number stands for, in whole seconds.
pub mod Tokens
use warcraft_cli.Base.{
  ℕ, ◌+◌, String, Bool, true, false, not, ◌&&◌, ◌||◌, Option, none, some, ◌==◌, leb, cat, strip,
  if◌then◌else◌,
}
use warcraft_cli.Json.{Value, null, bool, int, float, str, list, dict, Fields, end, field, lookup}

-- `TOKEN_SKEW_SECONDS`
abbrev pub token_skew_seconds : ℕ
token_skew_seconds = 60

pub record ClientTokenCache : Type 0 where
  pub scope : String
  pub client_id : String
  pub client_secret : String

-- How a write of the state file goes: through, or with an OSError, before the file is opened or after.
pub data Write : Type 0 where
  written untouched : Write
  dropped : Option Fields → Write

abbrev pub nul : String
nul = "\0"

-- `isinstance(v, str)` and its text
abbrev pub text_of : Option Value → Option String
text_of (some (str text)) = some text
text_of _ = none

abbrev pub is_text : String → Option Value → Bool
is_text text v = elim (text_of v) [ none ↦ false | some t ↦ t == text ]

abbrev pub or_empty : Option Fields → Fields
or_empty none = end
or_empty (some payload) = payload

abbrev pub is_blank : String → Bool
is_blank token = strip token == ""

module _ (digest : String → String) (seconds : Value → Option ℕ) where
  -- What is hashed: the scope and the credentials, with NUL between them
  unfoldable pub credential_text : ClientTokenCache → String
  unfolding cat
  credential_text c = cat c.scope (cat nul (cat c.client_id (cat nul c.client_secret)))

  abbrev pub credential_key : ClientTokenCache → String
  credential_key c = digest (credential_text c)

  abbrev pub seconds_of : Option Value → Option ℕ
  seconds_of none = none
  seconds_of (some v) = seconds v

  abbrev pub live_token : ℕ → Option String → Option ℕ → Option (String × ℕ)
  live_token now none expires_at = none
  live_token now (some token) none = none
  live_token now (some token) (some expires_at) =
      if is_blank token || leb expires_at (now + token_skew_seconds)
      then none
      else some (token, expires_at)

  unfoldable pub load : ClientTokenCache → ℕ → Option Fields → Option (String × ℕ)
  unfolding lookup strip credential_text
  load c now state =
      let payload = or_empty state in
      if not (is_text "client_credentials" (lookup "auth_mode" payload))
        || not (is_text (credential_key c) (lookup "credential_key" payload))
      then none
      else live_token now (text_of (lookup "access_token" payload))
          (seconds_of (lookup "expires_at" payload))

  -- The state after a `save`. One that fails is dropped: it left the file as it was, or, since the file
  -- is cut to nothing before it is written, with what it had written by then.
  unfoldable pub save : Write → ClientTokenCache → String → Value → Option Fields → Option Fields
  unfolding credential_text
  save (dropped left) c token expires_at state = left
  save untouched c token expires_at state = state
  save written c token expires_at state = some (
      field "access_token" (str token) (
        field "auth_mode" (str "client_credentials") (
          field "credential_key" (str (credential_key c)) (
            field "expires_at" expires_at
              (field "scope" (str c.scope) (field "token_type" (str "Bearer") end))))))
