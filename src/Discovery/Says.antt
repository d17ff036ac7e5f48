-- ===== src/Discovery/Says.antt =====
-- What an answer of `resolve_data` says.
-- packages/warcraft-core/src/warcraft_core/discovery.py
use warcraft_cli.Base.{
  ℕ, ◌≤◌, String, ◌≡◌, refl, subst, Bool, true, false, not, ◌&&◌, inl, inr, Bool-cases,
  Option-cases, Option, some, List, [], ◌∷◌, arith, ltb, length,
}
use warcraft_cli.Discovery.{
  Confidence, high, medium, low, no_match, confidence_text, is_high, is_no_match, Answer, answered,
  value_error, key_error, single_word_capped, take_to, rows_list, total_of, Page, command_of,
  top_of, match_of, next_command, fallback_of, resolve_fields,
}
use warcraft_cli.Json.{
  ℤ, pos, Value, null, bool, int, str, list, Fields, lookup, merge, truthy, IsUnique,
}
use warcraft_cli.Json.Laws.{lookup-merge}
use warcraft_cli.Discovery.Resolve.{is_empty, finish, judged, cap_of, after_cap, resolve_data}
use warcraft_cli.Discovery.Capped.{IsStated, after_cap-IsStated}
use warcraft_cli.Discovery.Pages.{page_of_cases}

-- What an answer says of the ranked rows, at the confidence it states.
pub record Says (ranked : List Fields) (limit : ℤ) (fallback : Value) (total : Option ℕ)
    (confidence : Confidence) (d : Fields) : Type 0 where
  pub next : Value
  pub has_confidence : lookup "confidence" d ≡ some (str (confidence_text confidence))
  pub resolved : lookup "resolved" d ≡ some (bool (is_high confidence))
  pub match : lookup "match" d ≡ some (match_of (top_of ranked))
  pub has_next : lookup "next_command" d ≡ some next
  pub from_top :
      (row : Fields)
      → top_of ranked ≡ some row
      → is_high confidence ≡ true
      → command_of row ≡ some next
  pub commanded : is_high confidence ≡ true → truthy next ≡ true
  pub silent : is_high confidence ≡ false → next ≡ null
  pub has_fallback :
      lookup "fallback_search_command" d ≡ some (fallback_of confidence (top_of ranked) fallback)
  pub count : lookup "count" d ≡ some (int (pos (length (take_to limit ranked))))
  pub has_total : lookup "total_matches" d ≡ some (int (pos (total_of total ranked)))
  pub known : length ranked ≤ total_of total ranked
  pub truncated :
      lookup "truncated" d
      ≡ some (bool (ltb (length (take_to limit ranked)) (total_of total ranked)))
  pub candidates : lookup "candidates" d ≡ some (list (rows_list (take_to limit ranked)))

resolve_fields-IsUnique :
    (query : Option String) (confidence : Confidence) (top : Option Fields) (next fallback : Value)
    (p : Page)
    → IsUnique (resolve_fields query confidence top next fallback p)
unfolding lookup
resolve_fields-IsUnique query confidence top next fallback p =
    (refl, (refl, (refl, (refl, (refl, (refl, (refl, (refl, (refl, (refl, tt))))))))))

-- The core keys win over the provider's own.
lookup-core :
    (j : String) (v : Value) (d core : Fields)
    → IsUnique core
    → lookup j core ≡ some v
    → lookup j (merge d core) ≡ some v
lookup-core j v d core u h = rw (lookup-merge j d core u, h) refl

-- An answer that came out has the property.
abbrev pub Gives : (Fields → Type 0) → Answer → Type 0
Gives P (answered d) = P d
Gives P _ = Unit

next_command-silent :
    (confidence : Confidence) (top : Option Fields) (next : Value)
    → next_command confidence top ≡ some next
    → is_high confidence ≡ false
    → next ≡ null
unfolding next_command
next_command-silent high top next e h = absurd (ground arith)
next_command-silent medium top next e h = ground arith
next_command-silent low top next e h = ground arith
next_command-silent no_match top next e h = ground arith

Gives-map :
    {P Q : Fields → Type 0} → ((d : Fields) → P d → Q d) → (a : Answer) → Gives P a → Gives Q a
Gives-map f (answered d) h = f d h
Gives-map f value_error h = tt
Gives-map f key_error h = tt

next_command-top :
    (confidence : Confidence) (ranked : List Fields) (next : Value)
    → next_command confidence (top_of ranked) ≡ some next
    → (row : Fields) → top_of ranked ≡ some row
    → is_high confidence ≡ true
    → command_of row ≡ some next
unfolding next_command
next_command-top high [] next e row t h = absurd (ground arith)
next_command-top high (top ∷ rows) next e row t h = subst (λ o. next_command high o ≡ some next) t e
next_command-top medium ranked next e row t h = absurd (ground arith)
next_command-top low ranked next e row t h = absurd (ground arith)
next_command-top no_match ranked next e row t h = absurd (ground arith)

module _ (query : Option String) (ranked : List Fields) (limit : ℤ) (fallback : Value)
    (total : Option ℕ) (extra : Fields) where
  finish-Says :
      (confidence : Confidence) (capped : Bool) (next : Value)
      → ((row : Fields)
          → top_of ranked ≡ some row
          → is_high confidence ≡ true
          → command_of row ≡ some next)
      → (is_high confidence ≡ true → truthy next ≡ true)
      → (is_high confidence ≡ false → next ≡ null)
      → Gives
          (Says ranked limit fallback total confidence)
          (finish query ranked limit fallback total extra confidence capped next)
  unfolding finish lookup
  finish-Says confidence capped next from_top commanded silent =
      elim (page_of_cases ranked limit total) [
        | inl few ↦ rw (few, finish) tt
        | inr (enough, known) ↦
            let p : Page = record { rows = take_to limit ranked; total = total_of total ranked } in
            let u : IsUnique (resolve_fields query confidence (top_of ranked) next fallback p) =
              resolve_fields-IsUnique query confidence (top_of ranked) next fallback p in
            rw (enough, finish)
              record {
                next = next;
                has_confidence = lookup-core "confidence" _ _ _ u refl;
                resolved = lookup-core "resolved" _ _ _ u refl;
                match = lookup-core "match" _ _ _ u refl;
                has_next = lookup-core "next_command" _ _ _ u refl;
                from_top = from_top;
                commanded = commanded;
                silent = silent;
                has_fallback = lookup-core "fallback_search_command" _ _ _ u refl;
                count = lookup-core "count" _ _ _ u refl;
                has_total = lookup-core "total_matches" _ _ _ u refl;
                known = known;
                truncated = lookup-core "truncated" _ _ _ u refl;
                candidates = lookup-core "candidates" _ _ _ u refl;
              }
      ]

  judged-Says :
      (confidence : Confidence) (capped : Bool)
      → Gives
          (Says ranked limit fallback total confidence)
          (judged query ranked limit fallback total extra confidence capped)
  unfolding judged
  judged-Says confidence capped = elim (Option-cases (next_command confidence (top_of ranked))) [
    | inl e ↦ rw (e, judged) tt
    | inr (next, e) ↦ elim (Bool-cases (is_high confidence && not (truthy next))) [
      | inl bad ↦ rw (e, judged) (rw bad tt)
      | inr good ↦
          rw (e, judged)
            (rw good (
              finish-Says confidence capped next (next_command-top confidence ranked next e)
                (ground arith) (next_command-silent confidence (top_of ranked) next e)))
    ]
  ]

module _ (is_word : String → Bool) (casefold squeeze : String → String) (str_of : Value → String)
    (query : Option String) (ranked : List Fields) (limit : ℤ) (confidence : Confidence)
    (fallback : Value) (total : Option ℕ) (identity : Option (String → Fields → Bool))
    (extra : Fields) where
  resolve_data-Gives :
      Gives
        (λ d.
          (stated : Confidence) × IsStated is_word casefold squeeze str_of query
            (top_of ranked)
            identity
            confidence
            stated
          × Says ranked limit fallback total stated d)
        (resolve_data is_word casefold squeeze str_of query ranked limit confidence fallback total
          identity extra)
  unfolding resolve_data
  resolve_data-Gives = elim (Bool-cases (is_empty ranked && not (is_no_match confidence))) [
    | inl bad ↦ rw (bad, resolve_data) tt
    | inr good ↦
        elim (Option-cases (
          cap_of (single_word_capped is_word casefold squeeze str_of query (top_of ranked) identity)
            confidence)) [
              | inl e ↦ rw (good, e, resolve_data) tt
              | inr (capped, e) ↦
                  rw (good, e, resolve_data)
                    (Gives-map
                      (λ d says. (
                        after_cap confidence capped,
                        after_cap-IsStated is_word casefold squeeze str_of query (top_of ranked)
                            identity confidence capped e,
                        says,
                      ))
                      (judged query ranked limit fallback total extra (after_cap confidence capped)
                        capped)
                      (judged-Says query ranked limit fallback total extra
                        (after_cap confidence capped) capped))
            ]
  ]

  -- An answer that comes out states "medium" where the provider's confidence is "high" and the query is
  -- one plain word that the first row's name does not match and that no test of identity accepts for
  -- it, and the provider's confidence otherwise. It is resolved exactly at a stated "high", and exactly
  -- then it has a next command, which is the first row's and not empty, and no fallback search; `match`
  -- is the first row whatever the confidence; the counts are those of the rows, which the limit alone
  -- trims, and `truncated` says that more are known than listed.
  pub resolve_data-Says :
      (d : Fields)
      → resolve_data is_word casefold squeeze str_of query ranked limit confidence fallback total
          identity extra
        ≡ answered d
      → (stated : Confidence) × IsStated is_word casefold squeeze str_of query
          (top_of ranked)
          identity
          confidence
          stated
        × Says ranked limit fallback total stated d
  resolve_data-Says d e =
      subst
        (Gives (λ d.
          (stated : Confidence) × IsStated is_word casefold squeeze str_of query (top_of ranked)
            identity confidence stated
          × Says ranked limit fallback total stated d))
        e resolve_data-Gives
