-- ===== src/Cache/Expiry.antt =====
-- A payload that was written, until its time to live is over and after it.
-- packages/warcraft-api/src/warcraft_api/cache.py, `FileCacheStore`
use warcraft_cli.Base.{
  ℕ, ◌+◌, ◌≤◌, String, ◌≡◌, refl, true, false, none, some, arith, eq_refl, ap, ◌∙◌, ◌<◌, ◌-◌, leb,
  inl, inr, Bool-cases,
}
use warcraft_cli.Cache.{
  entry, Files, file_at, replace, unlink, read_file, get, got, hit, miss, set, Live,
}
use warcraft_cli.Ledger.{lookup, file}
use warcraft_cli.Json.{Value, null, bool, int, float, str, list, dict}
use warcraft_cli.Cache.Lookups.{file_at-replace, non_null}

hit-non_null :
    (now : ℕ) (v : Value) (live : Live) (files : Files)
    → non_null v ≡ some v
    → hit now v live files ≡ record {
      payload = some v;
      recorded =
          lookup file true (some (now - live.stored_at)) (some (live.expires_at - live.stored_at));
      files = files;
    }
hit-non_null now null live files h = absurd (ground arith)
hit-non_null now (bool b) live files h = refl
hit-non_null now (int n) live files h = refl
hit-non_null now (float t) live files h = refl
hit-non_null now (str t) live files h = refl
hit-non_null now (list xs) live files h = refl
hit-non_null now (dict d) live files h = refl

module _ (later : ℕ) (path : String) (files : Files) (payload : Value)
    (expires_at stored_at : ℕ) where
  got-fresh :
      later < expires_at
      → non_null payload ≡ some payload
      → got later (read_file later path files (some (entry payload expires_at stored_at)))
        ≡ record {
          payload = some payload;
          recorded = lookup file true (some (later - stored_at)) (some (expires_at - stored_at));
          files = files;
        }
  unfolding read_file
  got-fresh fresh h = elim (Bool-cases (leb expires_at later)) [
    | inl old ↦ absurd (ground arith)
    | inr e ↦ rw (e, read_file) (hit-non_null later payload _ files h)
  ]

  got-old :
      expires_at ≤ later
      → got later (read_file later path files (some (entry payload expires_at stored_at)))
        ≡ miss (unlink path files)
  unfolding read_file
  got-old old = elim (Bool-cases (leb expires_at later)) [
    | inl e ↦ rw (e, read_file) refl
    | inr fresh ↦ absurd (ground arith)
  ]

-- A payload that was written is got back until its time to live is over, from the second at which it is
-- over nothing is, and a hit is recorded with the entry's age and its time to live.
pub get-set :
    (now later : ℕ) (path : String) (payload : Value) (ttl : ℕ) (files : Files)
    → non_null payload ≡ some payload
    → ((later < now + ttl)
        → ((get later path (set true now path payload ttl files)).payload ≡ some payload)
          × ((get later path (set true now path payload ttl files)).recorded
              ≡ lookup file true (some (later - now)) (some ttl)))
      × (now + ttl ≤ later
          → ((get later path (set true now path payload ttl files)).payload ≡ none)
            × ((get later path (set true now path payload ttl files)).recorded
                ≡ lookup file false none none))
unfolding get set
get-set now later path payload ttl files h =
    let files' = replace path (entry payload (now + ttl) now) files in
    let found : file_at path files' ≡ some (entry payload (now + ttl) now) =
      rw (file_at-replace path path (entry payload (now + ttl) now) files, eq_refl path) refl in
    (
      (λ fresh.
          let e =
            ap (λ o. got later (read_file later path files' o)) found
            ∙ got-fresh later path files' payload (now + ttl) now fresh h in
          (
            ap (λ g. g.payload) e,
            ap (λ g. g.recorded) e
                ∙ ap (λ n. lookup file true (some (later - now)) (some n)) (omega arith),
          )),
      (λ old.
          let e =
            ap (λ o. got later (read_file later path files' o)) found
            ∙ got-old later path files' payload (now + ttl) now old in
          (ap (λ g. g.payload) e, ap (λ g. g.recorded) e)),
    )
