-- ===== src/Cache/Lookups.antt =====
-- What stands at a path after a write or a removal, and what it shows at a time.
-- packages/warcraft-api/src/warcraft_api/cache.py, `FileCacheStore`
use warcraft_cli.Base.{
  ℕ, String, ◌≡◌, refl, Option, none, some, [], ◌∷◌, ◌==◌, arith, eq_iff, leb, if◌then◌else◌,
}
use warcraft_cli.Cache.{CacheFile, entry, no_entry, unreadable, Files, file_at, replace, unlink}
use warcraft_cli.Json.{Value, null}

-- The payload that a file shows at a time: that of an entry that has not expired, but for null.
abbrev pub non_null : Value → Option Value
non_null null = none
non_null v = some v

abbrev pub shown : ℕ → Option CacheFile → Option Value
shown now none = none
shown now (some unreadable) = none
shown now (some no_entry) = none
shown now (some (entry payload expires_at stored_at)) =
    if leb expires_at now then none else non_null payload

pub file_at-replace :
    (path other : String) (f : CacheFile) (files : Files)
    → file_at other (replace path f files) ≡ (if path == other then some f else file_at other files)
unfolding file_at replace
file_at-replace path other f [] = refl
file_at-replace path other f ((p, g) ∷ files) =
    ground
      (arith, eq_iff path other, eq_iff p path, eq_iff p other, file_at-replace path other f files)

pub file_at-unlink :
    (path other : String) (files : Files)
    → file_at other (unlink path files) ≡ (if path == other then none else file_at other files)
unfolding file_at unlink
file_at-unlink path other [] = ground arith
file_at-unlink path other ((p, g) ∷ files) =
    ground
      (arith, eq_iff path other, eq_iff p path, eq_iff p other, file_at-unlink path other files)
