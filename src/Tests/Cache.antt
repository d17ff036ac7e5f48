-- ===== src/Tests/Cache.antt =====
-- The file cache on one key: written, read, expired, read again after a clean-up.
use warcraft_cli.Cache.Breaker.{IsSafe, asks_all, operate_all-IsSafe}
use warcraft_cli.Cache.Redis.{
  Command, Reply, raised, answered, Store, Operation, get_op, set_op, operate_all, operate,
  redis_get, redis_set, run, replied, fresh,
}
use warcraft_cli.Base.{
  ℕ, String, mem, Option, ◌==ℕ◌, if◌then◌else◌, ◌+◌, ◌-◌, ◌≤◌, ◌<◌, ◌≡◌, refl, true, false, none,
  some, List, [], ◌∷◌, arith, split, keep, cat,
}
use warcraft_cli.Cache.{path_for_key, get, set, file_at, replace, unlink, read_file}
use warcraft_cli.Cache.Expiry.{get-set}
use warcraft_cli.Cache.Timed.{Call, get_call, set_call, answers, timed_answers, answers_lem}
use warcraft_cli.Json.{Value, str}
use warcraft_cli.Ledger.{lookup, file, error, redis}

search_path : path_for_key (λ path. cat path ".json") "search::abc" ≡ "/search/abc.json"
unfolding path_for_key split keep cat
search_path = refl

abbrev calls : List Call
calls =
    get_call 1 "/a"
    ∷ set_call true 2 "/a" (str "page") 10
    ∷ get_call 11 "/a"
    ∷ get_call 12 "/a"
    ∷ set_call false 12 "/a" (str "lost") 10
    ∷ get_call 13 "/a"
    ∷ []

calls-answers : answers calls [] ≡ none ∷ some (str "page") ∷ none ∷ none ∷ []
unfolding answers get set file_at replace unlink read_file
calls-answers = refl

answers_lem_example : answers calls [] ≡ timed_answers calls []
answers_lem_example =
    answers_lem calls
      (omega arith, (omega arith, (omega arith, (omega arith, (omega arith, (omega arith, tt))))))

get-set_example :
    ((11 < 2 + 10)
      → ((get 11 "/a" (set true 2 "/a" (str "page") 10 [])).payload ≡ some (str "page"))
        × ((get 11 "/a" (set true 2 "/a" (str "page") 10 [])).recorded
            ≡ lookup file true (some (11 - 2)) (some 10)))
    × (2 + 10 ≤ 11
        → ((get 11 "/a" (set true 2 "/a" (str "page") 10 [])).payload ≡ none)
          × ((get 11 "/a" (set true 2 "/a" (str "page") 10 [])).recorded
              ≡ lookup file false none none))
get-set_example = get-set 2 11 "/a" (str "page") 10 [] refl

-- A server that answers its first command and raises at the second.
abbrev server : ℕ → String → Command → Reply
server n url command = if n ==ℕ 0 then answered (some "1") else raised

abbrev loads : String → Option Value
loads text = some (str "v")

abbrev dumps : Value → Option String
dumps payload = some "1"

abbrev redis_store : Store
redis_store = record { redis_url = "redis://a"; prefix = "p" }

abbrev operations : List Operation
operations =
    get_op redis_store "k" ∷ set_op redis_store "k" (str "v") 60 ∷ get_op redis_store "k" ∷ []

operations_recorded :
    (operate_all server loads dumps operations fresh).recorded
    ≡ lookup redis false none none ∷ error redis ∷ error redis ∷ lookup redis true none none ∷ []
unfolding operate_all operate redis_get redis_set run replied mem
operations_recorded = refl

operate_all-IsSafe_example :
    IsSafe
      (asks_all server loads dumps operations)
      (operate_all server loads dumps operations fresh)
operate_all-IsSafe_example = operate_all-IsSafe server loads dumps operations
