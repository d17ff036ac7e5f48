-- ===== src/Cache.antt =====
-- The file cache of the provider clients: entries that expire, one file each.
-- packages/warcraft-api/src/warcraft_api/cache.py, `FileCacheStore`
-- Times are whole seconds. `with_suffix` is pathlib's, which a path's last part gets; whether a write
-- succeeds is an argument, since the file system decides it.
pub mod Lookups
pub mod Timed
pub mod Expiry
pub mod Redis
pub mod Breaker
use warcraft_cli.Base.{
  ℕ, ◌+◌, ◌-◌, String, Bool, true, false, not, Option, none, some, List, [], ◌∷◌, ◌==◌, cat, keep,
  leb, split, if◌then◌else◌,
}
use warcraft_cli.Json.{Value, null}
use warcraft_cli.Ledger.{Event, file, lookup}

-- A file under the cache's root: an entry with its payload, `expires_at` and mtime; JSON that is no
-- dict or has no number for `expires_at`; or a file that cannot be read as JSON.
pub data CacheFile : Type 0 where
  entry : Value → ℕ → ℕ → CacheFile
  no_entry unreadable : CacheFile

abbrev pub Files : Type 0
Files = List (String × CacheFile)

unfoldable pub file_at : String → Files → Option CacheFile
file_at path [] = none
file_at path ((p, f) ∷ files) = if p == path then some f else file_at path files

-- `os.replace(temp, path)`
unfoldable pub replace : String → CacheFile → Files → Files
replace path f [] = (path, f) ∷ []
replace path f ((p, g) ∷ files) =
    if p == path then (p, f) ∷ files else (p, g) ∷ replace path f files

-- `path.unlink(missing_ok=True)`
unfoldable pub unlink : String → Files → Files
unlink path [] = []
unlink path ((p, f) ∷ files) =
    let rest = unlink path files in if p == path then rest else (p, f) ∷ rest

-- The parts of a path, with a slash before each.
abbrev pub joined : List String → String
joined [] = ""
joined (part ∷ parts) = cat "/" (cat part (joined parts))

abbrev pub or_cache : List String → List String
or_cache [] = "cache" ∷ []
or_cache (part ∷ parts) = part ∷ parts

unfoldable pub path_for_key : (String → String) → String → String
path_for_key with_suffix key =
    with_suffix (joined (or_cache (keep (λ part. not (part == "")) (split b':' key))))

-- A live entry's payload, mtime and `expires_at`.
pub record Live : Type 0 where
  pub payload : Value
  pub stored_at : ℕ
  pub expires_at : ℕ

-- `_read`, of what stands at the path; it removes an expired entry and an unreadable file.
unfoldable pub read_file : ℕ → String → Files → Option CacheFile → Option Live × Files
read_file now path files none = (none, files)
read_file now path files (some unreadable) = (none, unlink path files)
read_file now path files (some no_entry) = (none, files)
read_file now path files (some (entry payload expires_at stored_at)) =
    if leb expires_at now then (none, unlink path files) else (
      some (record { payload = payload; stored_at = stored_at; expires_at = expires_at }),
      files,
    )

-- What a `get` gives, with what it records in the cache ledger and what it leaves of the files.
pub record Got : Type 0 where
  pub payload : Option Value
  pub recorded : Event
  pub files : Files

abbrev pub miss : Files → Got
miss files = record { payload = none; recorded = lookup file false none none; files = files }

abbrev pub hit : ℕ → Value → Live → Files → Got
hit now null live files = miss files
hit now payload live files = record {
  payload = some payload;
  recorded =
      lookup file true (some (now - live.stored_at)) (some (live.expires_at - live.stored_at));
  files = files;
}

abbrev pub got : ℕ → Option Live × Files → Got
got now (none, files) = miss files
got now (some live, files) = hit now live.payload live files

unfoldable pub get : ℕ → String → Files → Got
unfolding read_file
get now path files = got now (read_file now path files (file_at path files))

-- A failed write is dropped.
unfoldable pub set : Bool → ℕ → String → Value → ℕ → Files → Files
set written now path payload ttl_seconds files =
    if written then replace path (entry payload (now + ttl_seconds) now) files else files
