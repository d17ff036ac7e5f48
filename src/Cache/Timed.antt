-- ===== src/Cache/Timed.antt =====
-- The file cache as a timed map: what its gets answer, although they remove files.
-- packages/warcraft-api/src/warcraft_api/cache.py, `FileCacheStore`
use warcraft_cli.Base.{
  ℕ, ◌+◌, ◌≤◌, String, ◌≡◌, refl, Bool, true, false, Option, none, some, List, [], ◌∷◌, ◌==◌, arith,
  eq_iff, ◌⊎◌, ap, subst, sym, ◌∙◌, ap₂, leb, inl, inr, Bool-cases, if◌then◌else◌,
}
use warcraft_cli.Cache.{
  CacheFile, entry, no_entry, unreadable, Files, file_at, unlink, read_file, get, got, hit, set,
  Live,
}
use warcraft_cli.Json.{Value, null, bool, int, float, str, list, dict}
use warcraft_cli.Cache.Lookups.{file_at-replace, file_at-unlink, non_null, shown}

-- A call of the store, with the clock as it reads it, on a key's path.
pub data Call : Type 0 where
  get_call : ℕ → String → Call
  set_call : Bool → ℕ → String → Value → ℕ → Call

abbrev pub time_of : Call → ℕ
time_of (get_call now path) = now
time_of (set_call written now path payload ttl) = now

-- The clock does not run backwards.
abbrev pub InOrder : ℕ → List Call → Type 0
InOrder t [] = Unit
InOrder t (call ∷ calls) = (t ≤ time_of call) × InOrder (time_of call) calls

-- What the gets answer, in order.
unfoldable pub answers : List Call → Files → List (Option Value)
answers [] files = []
answers (get_call now path ∷ calls) files =
    let r = get now path files in r.payload ∷ answers calls r.files
answers (set_call written now path payload ttl ∷ calls) files =
    answers calls (set written now path payload ttl files)

-- The specification: the writes are only ever added, the latest first, and a get looks one up.
unfoldable pub timed_answers : List Call → Files → List (Option Value)
timed_answers [] history = []
timed_answers (get_call now path ∷ calls) history =
    shown now (file_at path history) ∷ timed_answers calls history
timed_answers (set_call written now path payload ttl ∷ calls) history =
    timed_answers calls
      (if written then (path, entry payload (now + ttl) now) ∷ history else history)

-- What the files show from a time on is what the history shows.
abbrev Agree : ℕ → Files → Files → Type 0
Agree t files history =
    (now : ℕ) (path : String)
    → t ≤ now
    → shown now (file_at path files) ≡ shown now (file_at path history)

hit_payload :
    (now : ℕ) (v : Value) (live : Live) (files : Files)
    → ((hit now v live files).payload ≡ non_null v) × ((hit now v live files).files ≡ files)
hit_payload now null live files = (refl, refl)
hit_payload now (bool b) live files = (refl, refl)
hit_payload now (int n) live files = (refl, refl)
hit_payload now (float t) live files = (refl, refl)
hit_payload now (str t) live files = (refl, refl)
hit_payload now (list xs) live files = (refl, refl)
hit_payload now (dict d) live files = (refl, refl)

is_late : (e now later : ℕ) → leb e now ≡ true → now ≤ later → leb e later ≡ true
is_late e now later old h = ground arith

shown-unlink :
    (path : String) (files : Files) (later : ℕ) (other : String)
    → shown later (file_at path files) ≡ none
    → shown later (file_at other (unlink path files)) ≡ shown later (file_at other files)
shown-unlink path files later other h = elim (Bool-cases (path == other)) [
  | inl same ↦
      rw (file_at-unlink path other files, same)
        (sym
          (subst (λ p. shown later (file_at p files) ≡ none) (ground (arith, eq_iff path other)) h))
  | inr apart ↦ rw (file_at-unlink path other files, apart) refl
]

module _ (now : ℕ) (path : String) (files : Files) where
  read_payload :
      (o : Option CacheFile) → (got now (read_file now path files o)).payload ≡ shown now o
  unfolding read_file
  read_payload none = refl
  read_payload (some unreadable) = refl
  read_payload (some no_entry) = refl
  read_payload (some (entry payload expires_at stored_at)) =
      elim (Bool-cases (leb expires_at now)) [
        | inl old ↦ rw (old, read_file) refl
        | inr fresh ↦ rw (fresh, read_file) (hit_payload now payload _ files).0
      ]

  -- A read leaves the files, or removes one that shows nothing from then on.
  read_leaves :
      (o : Option CacheFile)
      → ((got now (read_file now path files o)).files ≡ files)
        ⊎ (((got now (read_file now path files o)).files ≡ unlink path files)
            × ((later : ℕ) → now ≤ later → shown later o ≡ none))
  unfolding read_file
  read_leaves none = inl refl
  read_leaves (some unreadable) = inr (refl, λ later h. refl)
  read_leaves (some no_entry) = inl refl
  read_leaves (some (entry payload expires_at stored_at)) = elim (Bool-cases (leb expires_at now)) [
    | inl old ↦
        inr (rw (old, read_file) refl, λ later h. rw (is_late expires_at now later old h) refl)
    | inr fresh ↦ inl (rw (fresh, read_file) (hit_payload now payload _ files).1)
  ]

  get_payload : (get now path files).payload ≡ shown now (file_at path files)
  unfolding get
  get_payload = read_payload (file_at path files)

  -- A get removes nothing that is shown at its time or later.
  get_files :
      (later : ℕ) (other : String)
      → now ≤ later
      → shown later (file_at other (get now path files).files) ≡ shown later (file_at other files)
  unfolding get
  get_files later other h = elim (read_leaves (file_at path files)) [
    | inl same ↦ ap (λ fs. shown later (file_at other fs)) same
    | inr (gone, none_shown) ↦
        ap (λ fs. shown later (file_at other fs)) gone
        ∙ shown-unlink path files later other (none_shown later h)
  ]

file_at-set :
    (written : Bool) (now : ℕ) (path other : String) (payload : Value) (ttl : ℕ)
    (files history : Files) (later : ℕ)
    → shown later (file_at other files) ≡ shown later (file_at other history)
    → shown later (file_at other (set written now path payload ttl files))
      ≡ shown later (
          file_at other
            (if written then (path, entry payload (now + ttl) now) ∷ history else history))
unfolding set file_at
file_at-set false now path other payload ttl files history later h = h
file_at-set true now path other payload ttl files history later h =
    elim (Bool-cases (path == other)) [
      | inl same ↦ rw (file_at-replace path other _ files, same) refl
      | inr apart ↦ rw (file_at-replace path other _ files, apart) h
    ]

answers-timed :
    (calls : List Call) (t : ℕ) (files history : Files)
    → InOrder t calls
    → Agree t files history
    → answers calls files ≡ timed_answers calls history
unfolding answers timed_answers
answers-timed [] t files history o a = refl
answers-timed (get_call now path ∷ calls) t files history (o, os) a =
    ap₂ (λ v vs. v ∷ vs) (get_payload now path files ∙ a now path o)
      (answers-timed calls now (get now path files).files history os
        (λ later other h. get_files now path files later other h ∙ a later other (omega arith)))
answers-timed (set_call written now path payload ttl ∷ calls) t files history (o, os) a =
    answers-timed calls now _ _ os (λ later other h.
      file_at-set written now path other payload ttl files history later
        (a later other (omega arith)))

-- Under a clock that does not run backwards, the file store that starts empty answers every get as the
-- timed map does that keeps each successful write for good: with the payload last written for the
-- path, if it has not expired and is not null, and with nothing otherwise. The removals of expired
-- entries are never seen.
pub answers_lem : (calls : List Call) → InOrder 0 calls → answers calls [] ≡ timed_answers calls []
answers_lem calls o = answers-timed calls 0 [] [] o (λ now path h. refl)
