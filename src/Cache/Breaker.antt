-- ===== src/Cache/Breaker.antt =====
-- A Redis server that failed is not asked again, and no failure goes unrecorded.
-- packages/warcraft-api/src/warcraft_api/cache.py, `RedisCacheStore._run`
use warcraft_cli.Base.{
  ℕ, zero, suc, ◌+◌, String, ◌≡◌, refl, subst, Bool, false, ◌&&◌, ◌||◌, Option, none, some, List,
  [], ◌∷◌, ◌==◌, mem, length, arith, Bool-cases, inl, inr, if◌then◌else◌,
}
use warcraft_cli.Cache.Redis.{
  Command, Reply, raised, answered, Sent, Process, tell, Store, replied, run, redis_get, redis_set,
  set_text, get_op, set_op, Operation, operate, operate_all, fresh, read_text, is_hit, get_key,
  set_key, delete_key, redis_key,
}
use warcraft_cli.Json.{Value}
use warcraft_cli.Ledger.{Event, redis, lookup, error}

-- A command to the URL raised.
unfoldable pub raised_in : String → List Sent → Bool
raised_in url [] = false
raised_in url (x ∷ xs) = (x.has_raised && x.url == url) || raised_in url xs

-- No command follows, for its URL, one that raised.
abbrev pub Tidy : List Sent → Type 0
Tidy [] = Unit
Tidy (x ∷ xs) = (raised_in x.url xs ≡ false) × Tidy xs

unfoldable pub errors : List Event → ℕ
errors [] = 0
errors (error b ∷ es) = suc (errors es)
errors (Event.store b ∷ es) = errors es
errors (lookup b hit age ttl ∷ es) = errors es

-- The commands that were answered.
unfoldable pub answers : List Sent → ℕ
answers [] = 0
answers (x ∷ xs) = if x.has_raised then answers xs else suc (answers xs)

-- After so many commands that the stores asked for.
pub record IsSafe (asked : ℕ) (s : Process) : Type 0 where
  pub tidy : Tidy s.sent
  pub failed_raised : (url : String) → mem url s.failed ≡ raised_in url s.sent
  pub recorded : errors s.recorded + answers s.sent ≡ asked

module _ (server : ℕ → String → Command → Reply) (loads : String → Option Value)
    (dumps : Value → Option String) where
  replied-IsSafe :
      (n : ℕ) (url : String) (command : Command) (r : Reply) (s : Process)
      → mem url s.failed ≡ false
      → IsSafe n s
      → IsSafe (suc n) (replied server loads dumps url command r s).1
  unfolding replied raised_in mem errors answers
  replied-IsSafe n url command (answered text) s h safe = record {
    tidy = (ground (arith, safe.failed_raised url), safe.tidy);
    failed_raised = λ u. ground (arith, safe.failed_raised u);
    recorded = omega (arith, safe.recorded);
  }
  replied-IsSafe n url command raised s h safe = record {
    tidy = (ground (arith, safe.failed_raised url), safe.tidy);
    failed_raised = λ u. ground (arith, safe.failed_raised u);
    recorded = omega (arith, safe.recorded);
  }

  run-IsSafe :
      (n : ℕ) (url : String) (command : Command) (s : Process)
      → IsSafe n s
      → IsSafe (suc n) (run server loads dumps url command s).1
  unfolding run errors
  run-IsSafe n url command s safe = elim (Bool-cases (mem url s.failed)) [
    | inl broken ↦ rw broken record {
      tidy = safe.tidy;
      failed_raised = safe.failed_raised;
      recorded = omega (arith, safe.recorded);
    }
    | inr works ↦
        rw works (replied-IsSafe n url command (server (length s.sent) url command) s works safe)
  ]

  -- The commands that an operation asks for.
  abbrev pub asked_by : Option String → ℕ
  asked_by none = 0
  asked_by (some text) = 1

  abbrev pub asks : Operation → ℕ
  asks (get_op store key) = 1
  asks (set_op store key payload zero) = 1
  asks (set_op store key payload (suc ttl_seconds)) = asked_by (dumps payload)

  unfoldable pub asks_all : List Operation → ℕ
  asks_all [] = 0
  asks_all (op ∷ ops) = asks op + asks_all ops

  set_text-IsSafe :
      (n : ℕ) (store : Store) (key : String) (o : Option String) (ttl_seconds : ℕ) (s : Process)
      → IsSafe n s
      → IsSafe (asked_by o + n) (set_text server loads dumps store key o ttl_seconds s)
  set_text-IsSafe n store key none ttl_seconds s safe = subst (λ k. IsSafe k s) (omega arith) safe
  set_text-IsSafe n store key (some text) ttl_seconds s safe =
      subst
        (λ k.
          IsSafe k
            (run server loads dumps store.redis_url (set_key (redis_key store key) text ttl_seconds)
              s).1)
        (omega arith)
        (run-IsSafe n store.redis_url (set_key (redis_key store key) text ttl_seconds) s safe)

  tell-IsSafe :
      (n : ℕ) (hit : Bool) (s : Process)
      → IsSafe n s
      → IsSafe n (tell (lookup redis hit none none) s)
  unfolding errors
  tell-IsSafe n hit s safe = record {
    tidy = safe.tidy;
    failed_raised = safe.failed_raised;
    recorded = safe.recorded;
  }

  operate-IsSafe :
      (n : ℕ) (op : Operation) (s : Process)
      → IsSafe n s
      → IsSafe (asks op + n) (operate server loads dumps op s)
  unfolding operate redis_get redis_set
  operate-IsSafe n (get_op store key) s safe =
      let t = run server loads dumps store.redis_url (get_key (redis_key store key)) s in
      subst (λ k. IsSafe k (operate server loads dumps (get_op store key) s)) (omega arith)
        (tell-IsSafe (suc n) (is_hit server loads dumps (read_text server loads dumps t.0)) t.1
          (run-IsSafe n store.redis_url (get_key (redis_key store key)) s safe))
  operate-IsSafe n (set_op store key payload zero) s safe =
      subst (λ k. IsSafe k (operate server loads dumps (set_op store key payload zero) s))
        (omega arith) (run-IsSafe n store.redis_url (delete_key (redis_key store key)) s safe)
  operate-IsSafe n (set_op store key payload (suc ttl_seconds)) s safe =
      set_text-IsSafe n store key (dumps payload) (suc ttl_seconds) s safe

  operate_all-IsSafe_from :
      (n : ℕ) (ops : List Operation) (s : Process)
      → IsSafe n s
      → IsSafe (asks_all ops + n) (operate_all server loads dumps ops s)
  unfolding operate_all asks_all
  operate_all-IsSafe_from n [] s safe = subst (λ k. IsSafe k s) (omega arith) safe
  operate_all-IsSafe_from n (op ∷ ops) s safe =
      subst (λ k. IsSafe k (operate_all server loads dumps ops (operate server loads dumps op s)))
        (omega arith)
        (operate_all-IsSafe_from (asks op + n) ops (operate server loads dumps op s)
          (operate-IsSafe n op s safe))

  -- Whatever stores a process uses and whatever their servers answer: no command follows, for its URL,
  -- one that raised; the URLs that failed are those with a command that raised; and each command that a
  -- `get` or `set` asks for was answered or recorded as an error.
  pub operate_all-IsSafe :
      (ops : List Operation) → IsSafe (asks_all ops) (operate_all server loads dumps ops fresh)
  unfolding mem raised_in errors answers
  operate_all-IsSafe ops =
      subst (λ k. IsSafe k (operate_all server loads dumps ops fresh)) (omega arith)
        (operate_all-IsSafe_from 0 ops fresh
          (record { tidy = tt; failed_raised = λ url. refl; recorded = omega arith }))
