-- ===== src/Discovery/Answers.antt =====
-- When `resolve_data` answers.
-- packages/warcraft-core/src/warcraft_core/discovery.py
use warcraft_cli.Base.{
  ℕ, ◌≤◌, String, ◌≡◌, refl, subst, sym, Bool, true, false, not, ◌&&◌, inl, inr, Bool-cases,
  Option-cases, Option, some, List, [], ◌∷◌, arith, length, if◌then◌else◌,
}
use warcraft_cli.Discovery.{
  Confidence, high, medium, low, no_match, is_high, is_no_match, single_word_capped, capped_by,
  single_word_named, plain_word, refused, total_of, command_of, top_of, next_command,
}
use warcraft_cli.Json.{ℤ, Value, null, Fields, lookup, truthy}
use warcraft_cli.Discovery.Resolve.{is_empty, finish, judged, cap_of, after_cap, resolve_data}
use warcraft_cli.Discovery.Pages.{
  page_of_cases, page_of-enough, is_answered, IsLowered, cap_of-IsLowered,
}

-- A row that a resolve answer can take for its match: it has a name, and a command to follow up.
pub record IsFollowed (row : Fields) : Type 0 where
  pub name : Value
  pub command : Value
  pub has_name : lookup "name" row ≡ some name
  pub has_command : command_of row ≡ some command
  pub given : truthy command ≡ true

-- The first row can be the match; with no rows the confidence is "none".
abbrev pub IsJudgeable : Confidence → List Fields → Type 0
IsJudgeable confidence [] = is_no_match confidence ≡ true
IsJudgeable confidence (row ∷ rows) = IsFollowed row

cap_of-some :
    (b : Bool) (confidence : Confidence) → (b' : Bool) × (cap_of (some b) confidence ≡ some b')
cap_of-some b high = (b, refl)
cap_of-some b medium = (false, refl)
cap_of-some b low = (false, refl)
cap_of-some b no_match = (false, refl)

IsJudgeable-row :
    (confidence : Confidence) (ranked : List Fields)
    → IsJudgeable confidence ranked
    → is_empty ranked && not (is_no_match confidence) ≡ false
IsJudgeable-row confidence [] h = rw h refl
IsJudgeable-row confidence (row ∷ rows) h = refl

module _ (is_word : String → Bool) (casefold squeeze : String → String) (str_of : Value → String)
    (query : Option String) (identity : Option (String → Fields → Bool)) where
  single_word_capped-some :
      (confidence : Confidence) (ranked : List Fields)
      → IsJudgeable confidence ranked
      → (b : Bool) × (single_word_capped is_word casefold squeeze str_of query
            (top_of ranked)
            identity
          ≡ some b)
  unfolding single_word_capped
  single_word_capped-some confidence [] h = (false, refl)
  single_word_capped-some confidence (row ∷ rows) h =
      elim (Option-cases (plain_word is_word casefold squeeze str_of query)) [
        | inl e ↦ (false, rw e refl)
        | inr (word, e) ↦ (
          (if single_word_named is_word casefold squeeze str_of word (str_of h.name)
              then false
              else refused is_word casefold squeeze str_of identity word row),
          rw (e, h.has_name, capped_by) refl,
        )
      ]

next_command-some :
    (confidence stated : Confidence) (ranked : List Fields)
    → IsLowered confidence stated
    → IsJudgeable confidence ranked
    → (next : Value) × (next_command stated (top_of ranked) ≡ some next)
      × (is_high stated ≡ true → truthy next ≡ true)
unfolding next_command
next_command-some confidence high [] (inl e) h =
    absurd (ground (arith, subst (λ c. is_no_match c ≡ true) (sym e) h))
next_command-some confidence high [] (inr (e, e')) h =
    absurd (ground (arith, subst (λ c. is_no_match c ≡ true) e h))
next_command-some confidence high (row ∷ rows) l h = (h.command, h.has_command, λ y. h.given)
next_command-some confidence medium ranked l h = (null, refl, λ y. absurd (ground arith))
next_command-some confidence low ranked l h = (null, refl, λ y. absurd (ground arith))
next_command-some confidence no_match ranked l h = (null, refl, λ y. absurd (ground arith))

module _ (is_word : String → Bool) (casefold squeeze : String → String) (str_of : Value → String)
    (query : Option String) (ranked : List Fields) (limit : ℤ) (confidence : Confidence)
    (fallback : Value) (total : Option ℕ) (identity : Option (String → Fields → Bool))
    (extra : Fields) where
  finish-answers :
      (stated : Confidence) (capped : Bool) (next : Value)
      → length ranked ≤ total_of total ranked
      → is_answered (finish query ranked limit fallback total extra stated capped next) ≡ true
  unfolding finish
  finish-answers stated capped next h = elim (page_of_cases ranked limit total) [
    | inl few ↦ absurd (page_of-enough ranked limit total h few)
    | inr (enough, known) ↦ rw (enough, finish) refl
  ]

  judged-answers :
      (stated : Confidence) (capped : Bool) (next : Value)
      → next_command stated (top_of ranked) ≡ some next
      → (is_high stated ≡ true → truthy next ≡ true)
      → length ranked ≤ total_of total ranked
      → is_answered (judged query ranked limit fallback total extra stated capped) ≡ true
  unfolding judged
  judged-answers stated capped next e given h =
      elim (Bool-cases (is_high stated && not (truthy next))) [
        | inl bad ↦ absurd (ground (arith, given))
        | inr good ↦ rw (e, judged) (rw good (finish-answers stated capped next h))
      ]

  -- `resolve_data` raises nothing when the first row has a name and a command to follow up, or there
  -- is no row and the confidence is "none", and the total, if given, is not below the number of rows.
  pub resolve_data-answers :
      IsJudgeable confidence ranked
      → length ranked ≤ total_of total ranked
      → is_answered (
          resolve_data is_word casefold squeeze str_of query ranked limit confidence fallback total
            identity extra)
        ≡ true
  unfolding resolve_data
  resolve_data-answers judgeable h =
      let (b, e) =
        single_word_capped-some is_word casefold squeeze str_of query identity confidence ranked
          judgeable in
      let (capped, e') = cap_of-some b confidence in
      let (next, found, given) =
        next_command-some confidence (after_cap confidence capped) ranked
          (cap_of-IsLowered (some b) confidence capped e') judgeable in
      rw
        (
          IsJudgeable-row confidence ranked judgeable,
          subst (λ o. cap_of o confidence ≡ some capped) (sym e) e',
          resolve_data,
        )
        (judged-answers (after_cap confidence capped) capped next found given h)
