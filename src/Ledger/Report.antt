-- ===== src/Ledger/Report.antt =====
-- What `provenance` says of the recordings: the counts, and an age that is never understated.
use warcraft_cli.Base.{
  ℕ, ◌+◌, ◌≤◌, ◌≡◌, ◌↔◌, ◌⊎◌, inl, inr, refl, Bool, true, false, ◌||◌, Option, none, some, List, [],
  ◌∷◌, arith, All, if◌then◌else◌,
}
use warcraft_cli.Ledger.{
  CacheLedger, empty, Event, add, provenance, provenance_block, BackendName, only_file, only_redis,
  mixed, backend_name, CacheProvenance, Actions, run,
}
use warcraft_cli.Ledger.Scopes.{add_all, events, run-add_all}
use warcraft_cli.Ledger.Counts.{
  is_lookup, is_hit, is_error, is_miss, HitWithin, is_ageless, count, add_all_counts,
  add_all_within,
}

abbrev is_backed : CacheLedger → Bool
is_backed l = l.backends.has_file || l.backends.has_redis

module _ (l : CacheLedger) (e : Event) where
  add_silent :
      (add l e).oldest_hit_age_seconds ≡ none
      → (add l e).hit_without_age ≡ false
      → (is_hit e ≡ false) × (l.oldest_hit_age_seconds ≡ none) × (l.hit_without_age ≡ false)
  unfolding add
  add_silent h w = ground arith

  add_ageless :
      (add l e).hit_without_age ≡ true → (l.hit_without_age ≡ true) ⊎ (is_ageless e ≡ true)
  unfolding add
  add_ageless w = ground arith

  add_backed : is_backed (add l e) ≡ true
  unfolding add
  add_backed = ground arith

  -- A miss and a hit are told apart on every lookup.
  lookups_split :
      (if is_lookup e then 1 else 0) ≡ (if is_hit e then 1 else 0) + (if is_miss e then 1 else 0)
  lookups_split = ground arith

count_split : (es : List Event) → count is_lookup es ≡ count is_hit es + count is_miss es
unfolding count
count_split [] = omega arith
count_split (e ∷ es) = omega (arith, lookups_split empty e, count_split es)

add_all_silent :
    (l : CacheLedger) (es : List Event)
    → (add_all l es).oldest_hit_age_seconds ≡ none
    → (add_all l es).hit_without_age ≡ false
    → (count is_hit es ≡ 0) × (l.oldest_hit_age_seconds ≡ none) × (l.hit_without_age ≡ false)
unfolding add_all count
add_all_silent l [] h w = (refl, h, w)
add_all_silent l (e ∷ es) h w =
    let (later, old, aged) = add_all_silent (add l e) es h w in
    let (missed, before, aged_before) = add_silent l e old aged in
    (rw missed (omega arith), before, aged_before)

add_all_ageless :
    (l : CacheLedger) (es : List Event)
    → (add_all l es).hit_without_age ≡ true
    → (l.hit_without_age ≡ true) ⊎ (1 ≤ count is_ageless es)
unfolding add_all count
add_all_ageless l [] w = inl w
add_all_ageless l (e ∷ es) w = elim (add_all_ageless (add l e) es w) [
  | inl now ↦ ground (arith, add_ageless l e now)
  | inr later ↦ inr (omega arith)
]

add_all_backed :
    (l : CacheLedger) (es : List Event) → is_backed l ≡ true → is_backed (add_all l es) ≡ true
unfolding add_all
add_all_backed l [] h = h
add_all_backed l (e ∷ es) h = add_all_backed (add l e) es (add_backed l e)

backed_block :
    (l : CacheLedger) (f r : Bool)
    → f || r ≡ true
    → (name : BackendName) × (◌≡◌ {A = Option CacheProvenance}
        (elim (backend_name f r) [ none ↦ none | some n ↦ some (provenance_block l n) ])
        (some (provenance_block l name)))
unfolding backend_name
backed_block l true true h = (mixed, refl)
backed_block l true false h = (only_file, refl)
backed_block l false true h = (only_redis, refl)
backed_block l false false h = absurd (ground arith)

provenance_backed :
    (l : CacheLedger)
    → is_backed l ≡ true
    → (name : BackendName) × (provenance l ≡ some (provenance_block l name))
unfolding provenance
provenance_backed l h = backed_block l l.backends.has_file l.backends.has_redis h

-- The block reports the counts of the recordings; its age bounds every hit's, and it is absent only
-- if there was no hit or one of unknown age.
pub record Reports (es : List Event) (p : CacheProvenance) : Type 0 where
  pub lookups : p.lookups ≡ count is_lookup es
  pub hits : p.hits ≡ count is_hit es
  pub errors : p.errors ≡ count is_error es
  pub hit : (p.hit ≡ true) ↔ (1 ≤ count is_hit es)
  pub all_hits : (p.all_hits ≡ true) ↔ ((1 ≤ count is_lookup es) × (count is_miss es ≡ 0))
  pub aged : (a : ℕ) → p.oldest_hit_age_seconds ≡ some a → All (HitWithin a) es
  pub silent : p.oldest_hit_age_seconds ≡ none → (count is_hit es ≡ 0) ⊎ (1 ≤ count is_ageless es)

block-Reports :
    (es : List Event) (name : BackendName) → Reports es (provenance_block (add_all empty es) name)
unfolding provenance_block
block-Reports es name =
    let c = add_all_counts empty es in
    record {
      lookups = omega (arith, c.0);
      hits = omega (arith, c.1);
      errors = omega (arith, c.2);
      hit = ground (arith, c.1);
      all_hits = ground (arith, c.0, c.1, count_split es);
      aged = λ a h. ground (arith, add_all_within empty es a);
      silent = λ h. ground (arith, add_all_silent empty es, add_all_ageless empty es);
    }

cons_backed : (e : Event) (es : List Event) → is_backed (add_all empty (e ∷ es)) ≡ true
unfolding add_all
cons_backed e es = add_all_backed (add empty e) es (add_backed empty e)

Reports-of_events :
    (es : List Event)
    → ((es ≡ []) × (provenance (add_all empty es) ≡ none))
      ⊎ ((p : CacheProvenance) × (provenance (add_all empty es) ≡ some p) × Reports es p)
Reports-of_events [] = inl (refl, unfold add_all provenance in refl)
Reports-of_events (e ∷ es) =
    let (name, reported) = provenance_backed (add_all empty (e ∷ es)) (cons_backed e es) in
    inr (provenance_block (add_all empty (e ∷ es)) name, reported, block-Reports (e ∷ es) name)

-- Whatever nested blocks the recordings were made in, there is no block to report exactly when there
-- was no recording, and otherwise the reported block says of them what `Reports` lists.
pub provenance_run :
    (xs : Actions)
    → ((events xs ≡ []) × (provenance (run xs empty) ≡ none))
      ⊎ ((p : CacheProvenance) × (provenance (run xs empty) ≡ some p) × Reports (events xs) p)
provenance_run xs = rw run-add_all (Reports-of_events (events xs))
