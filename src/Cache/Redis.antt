-- ===== src/Cache/Redis.antt =====
-- The Redis cache of the provider clients, and the breaker that stops asking a server that failed.
-- packages/warcraft-api/src/warcraft_api/cache.py, `RedisCacheStore`
-- The server is an argument: what it answers to the n-th command that the process sends, or that it
-- raises. So are `json.loads` and `json.dumps`, which can raise too. A time to live below zero is zero.
use warcraft_cli.Base.{
  ℕ, zero, suc, String, Bool, true, false, Option, none, some, List, [], ◌∷◌, ◌==◌, cat, mem,
  length, if◌then◌else◌,
}
use warcraft_cli.Json.{Value, null}
use warcraft_cli.Ledger.{Event, redis, lookup, error}

pub data Command : Type 0 where
  get_key delete_key : String → Command
  set_key : String → String → ℕ → Command

pub data Reply : Type 0 where
  raised : Reply
  answered : Option String → Reply

-- A command that was sent to the server at a URL, and whether it raised.
pub record Sent : Type 0 where
  pub url : String
  pub command : Command
  pub has_raised : Bool

-- The process: `_FAILED_REDIS_URLS`, the commands that were sent, the last one first, and what the
-- cache ledger was told, the last first.
pub record Process : Type 0 where
  pub failed : List String
  pub sent : List Sent
  pub recorded : List Event

abbrev pub tell : Event → Process → Process
tell e s = record s { recorded = e ∷ s.recorded }

pub record Store : Type 0 where
  pub redis_url : String
  pub prefix : String

abbrev pub redis_key : Store → String → String
redis_key store key = cat store.prefix (cat ":" key)

pub data Operation : Type 0 where
  get_op : Store → String → Operation
  set_op : Store → String → Value → ℕ → Operation

module _ (server : ℕ → String → Command → Reply) (loads : String → Option Value)
    (dumps : Value → Option String) where
  -- `_run` on the server's reply, where the URL had not failed
  unfoldable pub replied : String → Command → Reply → Process → Option String × Process
  replied url command (answered text) s = (
    text,
    record s { sent = record { url = url; command = command; has_raised = false } ∷ s.sent },
  )
  replied url command raised s = (
    none,
    tell (error redis) (record s {
      failed = url ∷ s.failed;
      sent = record { url = url; command = command; has_raised = true } ∷ s.sent;
    }),
  )

  unfoldable pub run : String → Command → Process → Option String × Process
  unfolding mem replied
  run url command s =
      if mem url s.failed
      then (none, tell (error redis) s)
      else replied url command (server (length s.sent) url command) s

  -- A payload that is there: JSON's `null` is read as None
  abbrev pub present : Option Value → Option Value
  present none = none
  present (some null) = none
  present (some v) = some v

  abbrev pub read_text : Option String → Option Value
  read_text none = none
  read_text (some text) = if text == "" then none else present (loads text)

  abbrev pub is_hit : Option Value → Bool
  is_hit none = false
  is_hit (some v) = true

  unfoldable pub redis_get : Store → String → Process → Option Value × Process
  unfolding run cat
  redis_get store key s =
      let (text, t) = run store.redis_url (get_key (redis_key store key)) s in
      let payload = read_text text in (payload, tell (lookup redis (is_hit payload) none none) t)

  abbrev pub set_text : Store → String → Option String → ℕ → Process → Process
  set_text store key none ttl_seconds s = s
  set_text store key (some text) ttl_seconds s =
      (run store.redis_url (set_key (redis_key store key) text ttl_seconds) s).1

  unfoldable pub redis_set : Store → String → Value → ℕ → Process → Process
  unfolding run cat
  redis_set store key payload zero s = (run store.redis_url (delete_key (redis_key store key)) s).1
  redis_set store key payload (suc ttl_seconds) s =
      set_text store key (dumps payload) (suc ttl_seconds) s

  unfoldable pub operate : Operation → Process → Process
  unfolding redis_get redis_set
  operate (get_op store key) s = (redis_get store key s).1
  operate (set_op store key payload ttl_seconds) s = redis_set store key payload ttl_seconds s

  unfoldable pub operate_all : List Operation → Process → Process
  unfolding operate
  operate_all [] s = s
  operate_all (op ∷ ops) s = operate_all ops (operate op s)

abbrev pub fresh : Process
fresh = record { failed = []; sent = []; recorded = [] }
