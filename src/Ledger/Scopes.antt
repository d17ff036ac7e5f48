-- ===== src/Ledger/Scopes.antt =====
-- Nesting is invisible in the totals: a ledger and its nested ledgers report what one ledger would
-- report on all their recordings, in order.
use warcraft_cli.Base.{◌≡◌, refl, sym, ap, ◌∙◌, true, false, none, some, List, [], ◌∷◌, ◌++◌, arith}
use warcraft_cli.Ledger.{
  file, redis, CacheLedger, empty, Event, store, lookup, error, add, merge, Action, Actions, note,
  block, done, next, act, run,
}

-- Every recording of the actions, in order.
mutual
  pub events_of : Action → List Event
  events_of (note e) = e ∷ []
  events_of (block xs) = events xs

  pub events : Actions → List Event
  events done = []
  events (next a xs) = events_of a ++ events xs

unfoldable pub add_all : CacheLedger → List Event → CacheLedger
add_all l [] = l
add_all l (e ∷ es) = add_all (add l e) es

add_all-nil : (l : CacheLedger) → add_all l [] ≡ l
unfolding add_all
add_all-nil l = refl

add_all-one : (l : CacheLedger) (e : Event) → add_all l (e ∷ []) ≡ add l e
unfolding add_all
add_all-one l e = refl

add_all-append :
    (l : CacheLedger) (es fs : List Event) → add_all l (es ++ fs) ≡ add_all (add_all l es) fs
unfolding add_all
add_all-append l [] fs = refl
add_all-append l (e ∷ es) fs = add_all-append (add l e) es fs

merge-empty : (l : CacheLedger) → merge l empty ≡ l
unfolding merge
merge-empty l = ground arith

merge-add : (l m : CacheLedger) (e : Event) → merge l (add m e) ≡ add (merge l m) e
unfolding merge add
merge-add l m (store file) = ground arith
merge-add l m (store redis) = ground arith
merge-add l m (error file) = ground arith
merge-add l m (error redis) = ground arith
merge-add l m (lookup file false age ttl) = ground arith
merge-add l m (lookup redis false age ttl) = ground arith
merge-add l m (lookup file true none ttl) = ground arith
merge-add l m (lookup redis true none ttl) = ground arith
merge-add l m (lookup file true (some age) ttl) = ground arith
merge-add l m (lookup redis true (some age) ttl) = ground arith

merge-add_all :
    (l m : CacheLedger) (es : List Event) → merge l (add_all m es) ≡ add_all (merge l m) es
unfolding add_all
merge-add_all l m [] = refl
merge-add_all l m (e ∷ es) = merge-add_all l (add m e) es ∙ ap (λ k. add_all k es) (merge-add l m e)

mutual
  unfolding act run events events_of

  act_eq : (a : Action) (l : CacheLedger) → act a l ≡ add_all l (events_of a)
  act_eq (note e) l = sym (add_all-one l e)
  act_eq (block xs) l =
      ap (merge l) (run_eq xs empty)
      ∙ merge-add_all l empty (events xs)
      ∙ ap (λ k. add_all k (events xs)) (merge-empty l)

  run_eq : (xs : Actions) (l : CacheLedger) → run xs l ≡ add_all l (events xs)
  run_eq done l = sym (add_all-nil l)
  run_eq (next a xs) l =
      ap (run xs) (act_eq a l)
      ∙ run_eq xs (add_all l (events_of a))
      ∙ sym (add_all-append l (events_of a) (events xs))

-- The ledger after any tree of nested blocks is the ledger that has every recording added directly,
-- in order: closing a block loses nothing and counts nothing twice.
pub run-add_all : (xs : Actions) (l : CacheLedger) → run xs l ≡ add_all l (events xs)
run-add_all xs l = run_eq xs l
