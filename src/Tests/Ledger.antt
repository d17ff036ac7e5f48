-- ===== src/Tests/Ledger.antt =====
-- A nested ledger at concrete recordings.
use warcraft_cli.Base.{◌≡◌, ◌⊎◌, true, false, none, some, []}
use warcraft_cli.Ledger.{
  CacheProvenance, empty, file, redis, store, lookup, error, note, block, done, next, run,
  provenance,
}
use warcraft_cli.Ledger.Report.{Reports, provenance_run}
use warcraft_cli.Ledger.Scopes.{add_all, events, run-add_all}
use warcraft_cli.Ledger.{Actions}

-- Two provider calls of one wrapper command.
abbrev two_calls : Actions
two_calls =
    next
      (block (next (note (store file)) (next (note (lookup file true (some 30) (some 3600))) done)))
      (next (block (next (note (lookup file false none none)) (next (note (error redis)) done)))
        done)

run-add_all_example : run two_calls empty ≡ add_all empty (events two_calls)
run-add_all_example = run-add_all two_calls empty

provenance_run_example :
    ((events two_calls ≡ []) × (provenance (run two_calls empty) ≡ none))
    ⊎ ((p : CacheProvenance) × (provenance (run two_calls empty) ≡ some p)
        × Reports (events two_calls) p)
provenance_run_example = provenance_run two_calls
