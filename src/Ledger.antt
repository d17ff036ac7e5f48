-- ===== src/Ledger.antt =====
-- The per-invocation record of cache lookups, its nested scopes, and the `provenance.cache` block.
-- packages/warcraft-core/src/warcraft_core/cache_ledger.py
-- Each method runs under the ledger's lock, so concurrent recordings are a sequence of these steps.
pub mod Scopes
mod Counts
pub mod Report
use warcraft_cli.Base.{
  ℕ, ◌+◌, Bool, true, false, not, ◌&&◌, ◌||◌, Option, none, some, List, [], ◌∷◌, ltb, ◌==ℕ◌,
  if◌then◌else◌,
}

pub data Backend : Type 0 where
  file redis : Backend

-- A set of backends.
pub record Backends : Type 0 where
  pub has_file : Bool
  pub has_redis : Bool

unfoldable pub add_backend : Backend → Backends → Backends
add_backend file s = record s { has_file = true }
add_backend redis s = record s { has_redis = true }

pub record CacheLedger : Type 0 where
  pub backends : Backends
  pub lookups : ℕ
  pub hits : ℕ
  pub oldest_hit_age_seconds : Option ℕ
  pub oldest_hit_ttl_seconds : Option ℕ
  pub hit_without_age : Bool
  pub errors : ℕ

abbrev pub empty : CacheLedger
empty = record {
  backends = record { has_file = false; has_redis = false };
  lookups = 0;
  hits = 0;
  oldest_hit_age_seconds = none;
  oldest_hit_ttl_seconds = none;
  hit_without_age = false;
  errors = 0;
}

-- `self.oldest is None or age > self.oldest`
unfoldable pub is_older : ℕ → Option ℕ → Bool
is_older age none = true
is_older age (some oldest) = ltb oldest age

unfoldable pub add_oldest : Option ℕ → Option ℕ → CacheLedger → CacheLedger
unfolding is_older
add_oldest none ttl l = l
add_oldest (some age) ttl l =
    if is_older age l.oldest_hit_age_seconds
    then record l { oldest_hit_age_seconds = some age; oldest_hit_ttl_seconds = ttl }
    else l

abbrev pub is_none {ℓ} : {A : Type ℓ} → Option A → Bool
is_none none = true
is_none (some a) = false

-- What is recorded: a store built, a lookup answered, an operation that never reached its backend.
pub data Event : Type 0 where
  store : Backend → Event
  lookup : Backend → Bool → Option ℕ → Option ℕ → Event
  error : Backend → Event

unfoldable pub add_store : Backend → CacheLedger → CacheLedger
unfolding add_backend
add_store b l = record l { backends = add_backend b l.backends }

unfoldable pub add_lookup : Backend → Bool → Option ℕ → Option ℕ → CacheLedger → CacheLedger
unfolding add_backend add_oldest
add_lookup b false age ttl l = record l {
  backends = add_backend b l.backends;
  lookups = l.lookups + 1;
}
add_lookup b true age ttl l = add_oldest age ttl (record l {
  backends = add_backend b l.backends;
  lookups = l.lookups + 1;
  hits = l.hits + 1;
  hit_without_age = l.hit_without_age || is_none age;
})

unfoldable pub add_error : Backend → CacheLedger → CacheLedger
unfolding add_backend
add_error b l = record l { backends = add_backend b l.backends; errors = l.errors + 1 }

unfoldable pub add : CacheLedger → Event → CacheLedger
unfolding add_store add_lookup add_error
add l (store b) = add_store b l
add l (lookup b hit age ttl) = add_lookup b hit age ttl l
add l (error b) = add_error b l

unfoldable pub merge : CacheLedger → CacheLedger → CacheLedger
unfolding add_oldest
merge l other = add_oldest other.oldest_hit_age_seconds other.oldest_hit_ttl_seconds (record l {
  backends = record {
    has_file = l.backends.has_file || other.backends.has_file;
    has_redis = l.backends.has_redis || other.backends.has_redis;
  };
  lookups = l.lookups + other.lookups;
  hits = l.hits + other.hits;
  errors = l.errors + other.errors;
  hit_without_age = l.hit_without_age || other.hit_without_age;
})

pub data BackendName : Type 0 where
  only_file only_redis mixed : BackendName

pub record CacheProvenance : Type 0 where
  pub backend : BackendName
  pub lookups : ℕ
  pub hits : ℕ
  pub hit : Bool
  pub all_hits : Bool
  pub oldest_hit_age_seconds : Option ℕ
  pub oldest_hit_ttl_seconds : Option ℕ
  pub errors : ℕ

-- `next(iter(backends)) if len(backends) == 1 else "mixed"`; `none` when the set is empty
unfoldable pub backend_name : Bool → Bool → Option BackendName
backend_name true true = some mixed
backend_name true false = some only_file
backend_name false true = some only_redis
backend_name false false = none

unfoldable pub provenance_block : CacheLedger → BackendName → CacheProvenance
provenance_block l name = record {
  backend = name;
  lookups = l.lookups;
  hits = l.hits;
  hit = ltb 0 l.hits;
  all_hits = ltb 0 l.lookups && l.hits ==ℕ l.lookups;
  oldest_hit_age_seconds = if l.hit_without_age then none else l.oldest_hit_age_seconds;
  oldest_hit_ttl_seconds = if l.hit_without_age then none else l.oldest_hit_ttl_seconds;
  errors = l.errors;
}

unfoldable pub provenance : CacheLedger → Option CacheProvenance
unfolding backend_name provenance_block
provenance l = elim (backend_name l.backends.has_file l.backends.has_redis) [
  | none ↦ none
  | some name ↦ some (provenance_block l name)
]

-- What runs in a context: recordings, and blocks under a nested `cache_ledger()`.
mutual
  pub data Action : Type 0 where
    note : Event → Action
    block : Actions → Action

  pub data Actions : Type 0 where
    done : Actions
    next : Action → Actions → Actions

-- The current ledger after the actions. A block starts an empty one and is merged in when it closes,
-- however it ends.
unfoldable mutual
  pub act : Action → CacheLedger → CacheLedger
  act (note e) l = add l e
  act (block xs) l = merge l (run xs empty)

  pub run : Actions → CacheLedger → CacheLedger
  run done l = l
  run (next a xs) l = run xs (act a l)
