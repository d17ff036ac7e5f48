-- ===== src/Discovery/Resolve.antt =====
-- `resolve_data`: the judged match.
-- packages/warcraft-core/src/warcraft_core/discovery.py
use warcraft_cli.Base.{
  ℕ, String, Bool, true, false, not, ◌&&◌, Option, none, some, List, [], ◌∷◌, if◌then◌else◌,
}
use warcraft_cli.Discovery.{
  Confidence, high, medium, is_high, is_no_match, Answer, answered, value_error, key_error,
  single_word_capped, page_of, top_of, next_command, cap_fields, resolve_fields,
}
use warcraft_cli.Json.{ℤ, Value, Fields, merge, truthy}

abbrev pub is_empty : List Fields → Bool
is_empty [] = true
is_empty (row ∷ rows) = false

module _ (query : Option String) (ranked : List Fields) (limit : ℤ) (fallback : Value)
    (total : Option ℕ) (extra : Fields) where
  -- The answer's dict, from the judged confidence, whether it was capped, and its next command.
  unfoldable pub finish : Confidence → Bool → Value → Answer
  finish confidence capped next = elim (page_of ranked limit total) [
    | none ↦ value_error
    | some p ↦ answered (
        merge (merge extra (cap_fields capped))
          (resolve_fields query confidence (top_of ranked) next fallback p))
  ]

  -- The judged answer: a resolved one needs a command.
  unfoldable pub judged : Confidence → Bool → Answer
  judged confidence capped = elim (next_command confidence (top_of ranked)) [
    | none ↦ key_error
    | some next ↦
        if is_high confidence && not (truthy next)
        then value_error
        else finish confidence capped next
  ]

abbrev pub cap_of : Option Bool → Confidence → Option Bool
cap_of capped high = capped
cap_of capped _ = some false

abbrev pub after_cap : Confidence → Bool → Confidence
after_cap confidence capped = if capped then medium else confidence

module _ (is_word : String → Bool) (casefold squeeze : String → String)
    (str_of : Value → String) where
  unfoldable pub resolve_data :
      Option String
      → List Fields
      → ℤ
      → Confidence
      → Value
      → Option ℕ
      → Option (String → Fields → Bool)
      → Fields
      → Answer
  resolve_data query ranked limit confidence fallback total identity extra =
      if is_empty ranked && not (is_no_match confidence)
      then value_error
      else elim (cap_of
          (single_word_capped is_word casefold squeeze str_of query (top_of ranked) identity)
          confidence) [
            | none ↦ key_error
            | some capped ↦
                judged query ranked limit fallback total extra (after_cap confidence capped) capped
          ]
