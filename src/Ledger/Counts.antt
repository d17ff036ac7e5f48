-- ===== src/Ledger/Counts.antt =====
-- The recordings counted, and the ages of the hits bounded.
use warcraft_cli.Base.{
  ℕ, ◌+◌, ◌≤◌, ◌≡◌, refl, ◌∙◌, Bool, true, false, not, Option, none, some, List, [], ◌∷◌, arith,
  All, if◌then◌else◌,
}
use warcraft_cli.Ledger.{is_older, Backend, CacheLedger, Event, store, lookup, error, add}
use warcraft_cli.Ledger.Scopes.{add_all}

abbrev pub is_lookup : Event → Bool
is_lookup (lookup b hit age ttl) = true
is_lookup _ = false

abbrev pub is_hit : Event → Bool
is_hit (lookup b hit age ttl) = hit
is_hit _ = false

abbrev pub is_error : Event → Bool
is_error (error b) = true
is_error _ = false

abbrev pub is_miss : Event → Bool
is_miss (lookup b hit age ttl) = not hit
is_miss _ = false

-- A hit of unknown age.
abbrev pub is_ageless : Event → Bool
is_ageless (lookup b true none ttl) = true
is_ageless _ = false

unfoldable pub count : (Event → Bool) → List Event → ℕ
count test [] = 0
count test (e ∷ es) = (if test e then 1 else 0) + count test es

-- A hit has a known age, of at most `a` seconds.
abbrev pub HitWithin : ℕ → Event → Type 0
HitWithin a (lookup b true age ttl) = (n : ℕ) × (age ≡ some n) × (n ≤ a)
HitWithin a _ = Unit

module _ (l : CacheLedger) (e : Event) where
  add_counts :
      ((add l e).lookups ≡ l.lookups + (if is_lookup e then 1 else 0))
      × ((add l e).hits ≡ l.hits + (if is_hit e then 1 else 0))
      × ((add l e).errors ≡ l.errors + (if is_error e then 1 else 0))
  unfolding add
  add_counts = ground arith

pub add_all_counts :
    (l : CacheLedger) (es : List Event)
    → ((add_all l es).lookups ≡ l.lookups + count is_lookup es)
      × ((add_all l es).hits ≡ l.hits + count is_hit es)
      × ((add_all l es).errors ≡ l.errors + count is_error es)
unfolding add_all count
add_all_counts l [] = (omega arith, omega arith, omega arith)
add_all_counts l (e ∷ es) =
    let c = add_counts l e in
    let r = add_all_counts (add l e) es in
    (omega (arith, c.0, r.0), omega (arith, c.1, r.1), omega (arith, c.2, r.2))

abbrev newer : ℕ → Option ℕ → Option ℕ
newer k o = if is_older k o then some k else o

oldest-add :
    (l : CacheLedger) (b : Backend) (k : ℕ) (ttl : Option ℕ)
    → (add l (lookup b true (some k) ttl)).oldest_hit_age_seconds ≡ newer k l.oldest_hit_age_seconds
unfolding add
oldest-add l b k ttl = ground arith

newer_bounds :
    (k : ℕ) (o : Option ℕ) (a : ℕ)
    → ((n : ℕ) → newer k o ≡ some n → n ≤ a)
    → (k ≤ a) × ((n : ℕ) → o ≡ some n → n ≤ a)
unfolding is_older
newer_bounds k none a h = (h k refl, λ n e. absurd (ground arith))
newer_bounds k (some m) a h = (ground (arith, h k, h m), λ n e. ground (arith, h k, h m))

-- The ages reported so far bound those of the hits.
add_within :
    (l : CacheLedger) (e : Event) (a : ℕ)
    → ((n : ℕ) → (add l e).oldest_hit_age_seconds ≡ some n → n ≤ a)
    → (add l e).hit_without_age ≡ false
    → HitWithin a e
      × ((n : ℕ) → l.oldest_hit_age_seconds ≡ some n → n ≤ a)
      × (l.hit_without_age ≡ false)
unfolding add
add_within l (lookup b true none ttl) a h w = absurd (ground arith)
add_within l (lookup b true (some k) ttl) a h w =
    let (here, before) =
      newer_bounds k l.oldest_hit_age_seconds a (λ n e. h n (oldest-add l b k ttl ∙ e)) in
    ((k, refl, here), before, ground arith)
add_within l (lookup b false age ttl) a h w = (tt, h, w)
add_within l (store b) a h w = (tt, h, w)
add_within l (error b) a h w = (tt, h, w)

pub add_all_within :
    (l : CacheLedger) (es : List Event) (a : ℕ)
    → (add_all l es).oldest_hit_age_seconds ≡ some a
    → (add_all l es).hit_without_age ≡ false
    → All (HitWithin a) es
      × ((n : ℕ) → l.oldest_hit_age_seconds ≡ some n → n ≤ a)
      × (l.hit_without_age ≡ false)
unfolding add_all
add_all_within l [] a h w = (tt, (λ n e. ground arith), w)
add_all_within l (e ∷ es) a h w =
    let (later, bound, aged) = add_all_within (add l e) es a h w in
    let (here, before, aged_before) = add_within l e a bound aged in
    ((here, later), before, aged_before)
