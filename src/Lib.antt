-- ===== src/Lib.antt =====
-- Verification of warcraft_cli: World of Warcraft data command lines that speak one JSON envelope.
--
-- The program is a wrapper command, `warcraft`, and one command line per data provider, in one Python
-- package each under packages/. They share packages/warcraft-core (the envelope every command prints,
-- the output flags, the exit codes, the record of cache lookups), packages/warcraft-api (requests and
-- caches) and packages/warcraft-content (the crawl that builds a site's page index). A command runs
-- under a cache ledger, asks its provider through `request_with_retries`, builds an envelope, puts the
-- ledger's provenance block in it, and prints it as the output flags ask; the wrapper does the same
-- around the providers' calls and turns their results into its own envelope. packages/simc-cli reads
-- SimulationCraft's action lists: `parse_apl` gives the rows, `entry_verdict` says of each whether it
-- can run for a build, and the branch commands put these verdicts together.
--
-- The library, and the code each part is about (warcraft_core stands in packages/warcraft-core/src,
-- and the other modules likewise):
--   Base: the shared names, tests on native numbers, lists, and the `str` methods by recursion.
--   Json: JSON values and Python dicts, in insertion order, with the first of a key deciding.
--   ExitCodes: warcraft_core/exit_codes.py, both tables and both lookups.
--   Envelope: warcraft_core/envelope.py, `success_envelope`, `error_envelope`, `envelope_violations`.
--     Envelope.Conforms is what that check asks, and Envelope.Documented the contract that
--     docs/foundation/ERROR_CONTRACT.md describes.
--   Wrapper: warcraft_cli/provider_calls.py, `wrapper_envelope`, `source_exit_code`, `failed_call`.
--   Ledger: warcraft_core/cache_ledger.py; a tree of nested `cache_ledger` scopes is the data type
--     Actions, and `run` executes it on a ledger.
--   Output: warcraft_core/output.py, the flags, `compact_value`, `filter_payload_fields`,
--     `shape_payload`.
--   Crawler: warcraft_content/site_crawler.py; `crawl` is `loop` over `step` on the record State, from
--     `start`. The callbacks `fetch`, `read_page` and `should_expand` are arguments.
--   Http: warcraft_api/http.py, `request_with_retries` and `HostRateLimiter`, on times in whole
--     hundredths of a second; the client, the jitter and the clock are arguments.
--   Cache: warcraft_api/cache.py, `FileCacheStore` on an association list of paths and files, in whole
--     seconds; pathlib's `with_suffix` and the success of a write are arguments. Cache.Redis is
--     `RedisCacheStore` with the process's failed URLs; the server, `json.loads` and `json.dumps` are
--     arguments.
--   Credentials: warcraft_api/client_credentials.py, `load` and `save` of the token cache; the digest and
--     the reading of a JSON number as whole seconds are arguments, and so is how a write of the file
--     goes, with what a failed one leaves there.
--   Crosswalk: warcraft_cli/crosswalk.py, `reconcile_class_spec` and `actor_spec_ambiguous`.
--   Discovery: warcraft_core/discovery.py, `title_match`, `search_data` and `resolve_data`; the Unicode
--     word test, case folding and spacing are arguments.
--     Discovery.Scope is warcraft_cli/discovery_scope.py, `filter_candidates`.
--   Apl: simc_cli/apl.py, from a file's lines to the rows of its action lists, and what is
--     collected from the rows.
--   Prune: simc_cli/prune.py, what a condition can come to for a build. The parser is written over a
--     Domain of values, so that the code's ranges and the values of one moment of a run are read by the
--     same definitions; Floats is what it uses of Python's floats, but for NaN, with the laws it relies
--     on in FloatLaws; Unicode's decimal digits are an argument.
--   Branch: simc_cli/branch.py, the lists that a build goes through, their rows in words, and the
--     comparison of two builds; the verdict of a row (Prune's `entry_verdict`) is an argument.
--   Tests: runs at concrete inputs.
--
-- Bounds and fuel: numbers are natural numbers without a bound, as Python's are. `loop` and
-- `fetches` of the crawl take fuel, one unit an iteration: an iteration takes up a seed, a revisit or a
-- linked URL, so that as many units as there are of those, and one to stop, are enough. The condition
-- parser takes two units for each token and two more, since a call on as many tokens makes one other
-- such call at most; the tokenizer one for each character and one more, since each token has one;
-- a trace `max_depth` + 2, since each list that it enters is deeper by two at least.
-- `attempt_from` recurs on the rounds left of its `for` loop. All else is structural recursion.
--
-- Left out: Python's recursion limit; the JSON encoder and the terminal; httpx, the file system and
-- environment variables; HTML parsing; the provider packages' own endpoints; the scripts and the generated
-- schemas. A dict's keys are texts, and a JSON float is carried by its text, since no operation modelled on
-- JSON values computes with one.
pub mod Apl
pub mod Base
pub mod Branch
pub mod Cache
pub mod Crawler
pub mod Credentials
pub mod Crosswalk
pub mod Discovery
pub mod Envelope
pub mod ExitCodes
pub mod Http
pub mod Json
pub mod Ledger
pub mod Output
pub mod Prune
pub mod Tests
pub mod Wrapper
