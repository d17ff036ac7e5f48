-- ===== src/Discovery.antt =====
-- What every provider's `search` and `resolve` answer: the page of ranked rows, and the judged match.
-- packages/warcraft-core/src/warcraft_core/discovery.py
-- Unicode's tables are arguments: `is_word` is the full match of `_PLAIN_WORD`, `casefold` the method
-- of str, and `squeeze` drops apostrophes and joins the words by single spaces.
pub mod Resolve
pub mod Pages
pub mod Capped
pub mod Says
pub mod Scope
pub mod Selected
pub mod Bounded
pub mod Answers
use warcraft_cli.Base.{
  ℕ, zero, suc, ◌-◌, String, Bool, true, false, not, ◌&&◌, Option, none, some, List, [], ◌∷◌, ◌==◌,
  ltb, length, take, split, strip, if◌then◌else◌,
}
use warcraft_cli.Json.{
  ℤ, pos, negsuc, Value, null, bool, int, str, list, dict, Items, nil, cons, Fields, end, field,
  lookup, merge, truthy,
}

pub data Confidence : Type 0 where
  high medium low no_match : Confidence

abbrev pub confidence_text : Confidence → String
confidence_text high = "high"
confidence_text medium = "medium"
confidence_text low = "low"
confidence_text no_match = "none"

abbrev pub is_high : Confidence → Bool
is_high high = true
is_high _ = false

abbrev pub is_no_match : Confidence → Bool
is_no_match no_match = true
is_no_match _ = false

-- The data, or the exception that the call raises.
pub data Answer : Type 0 where
  answered : Fields → Answer
  value_error key_error : Answer

pub data TitleMatch : Type 0 where
  exact title_prefix : TitleMatch

-- `texts[0]`
abbrev pub first_text : List String → String
first_text [] = ""
first_text (t ∷ ts) = t

-- `_TITLE_HEAD_SEPARATOR.split(name, maxsplit=1)[0]`, the text before the first ',' or ':'
unfoldable pub title_head : String → String
title_head name = first_text (split b':' (first_text (split b',' name)))

abbrev pub text_or_empty : Option String → String
text_or_empty none = ""
text_or_empty (some t) = t

module _ (is_word : String → Bool) (casefold squeeze : String → String)
    (str_of : Value → String) where
  unfoldable pub plain_word : Option String → Option String
  plain_word query =
      let text = strip (text_or_empty query) in if is_word text then some (casefold text) else none

  -- `_folded`
  abbrev pub folded : String → String
  folded text = squeeze (casefold text)

  unfoldable pub title_match : String → String → Option TitleMatch
  title_match query name =
      if folded query == ""
      then none
      else if folded query == folded name
      then some exact
      else if folded query == folded (title_head name)
      then some title_prefix
      else none

  unfoldable pub single_word_named : String → String → Bool
  single_word_named word name = elim (title_match word name) [ none ↦ false | some m ↦ true ]

  abbrev pub refused : Option (String → Fields → Bool) → String → Fields → Bool
  refused none word row = true
  refused (some identity) word row = not (identity word row)

  -- `_single_word_capped` for the word of a query; `none` where the row has no name
  abbrev pub capped_by : Option (String → Fields → Bool) → Fields → Option String → Option Bool
  capped_by identity row none = some false
  capped_by identity row (some word) = elim (lookup "name" row) [
    | none ↦ none
    | some name ↦
        some (if single_word_named word (str_of name) then false else refused identity word row)
  ]

  unfoldable pub single_word_capped :
      Option String → Option Fields → Option (String → Fields → Bool) → Option Bool
  single_word_capped query none identity = some false
  single_word_capped query (some row) identity = capped_by identity row (plain_word query)

-- `rows[:limit]`
unfoldable pub take_to : ℤ → List Fields → List Fields
take_to (pos n) rows = take n rows
take_to (negsuc n) rows = take (length rows - suc n) rows

unfoldable pub rows_list : List Fields → Items
rows_list [] = nil
rows_list (r ∷ rs) = cons (dict r) (rows_list rs)

abbrev pub total_of : Option ℕ → List Fields → ℕ
total_of none ranked = length ranked
total_of (some total) ranked = total

-- What both answers say of their rows.
pub record Page : Type 0 where
  pub rows : List Fields
  pub total : ℕ

-- `none` for the ValueError of a total below the number of ranked rows
unfoldable pub page_of : List Fields → ℤ → Option ℕ → Option Page
unfolding take_to
page_of ranked limit total =
    if ltb (total_of total ranked) (length ranked)
    then none
    else some (record { rows = take_to limit ranked; total = total_of total ranked })

abbrev pub optional_text : Option String → Value
optional_text none = null
optional_text (some t) = str t

-- The keys that every page has, under the name that the answer gives its rows.
abbrev pub page_fields : String → Page → Fields
page_fields rows p = field "count" (int (pos (length p.rows))) (
    field "total_matches" (int (pos p.total)) (
      field "truncated" (bool (ltb (length p.rows) p.total))
        (field rows (list (rows_list p.rows)) end)))

unfoldable pub search_data : Option String → List Fields → ℤ → Option ℕ → Fields → Answer
search_data query ranked limit total extra = elim (page_of ranked limit total) [
  | none ↦ value_error
  | some p ↦
      answered (merge extra (field "search_query" (optional_text query) (page_fields "results" p)))
]

-- `row["follow_up"]["command"]`
abbrev pub command_in : Option Value → Option Value
command_in (some (dict follow_up)) = lookup "command" follow_up
command_in _ = none

unfoldable pub command_of : Fields → Option Value
command_of row = command_in (lookup "follow_up" row)

abbrev pub top_of : List Fields → Option Fields
top_of [] = none
top_of (row ∷ rows) = some row

abbrev pub match_of : Option Fields → Value
match_of none = null
match_of (some row) = dict row

unfoldable pub next_command : Confidence → Option Fields → Option Value
next_command high (some row) = command_of row
next_command _ _ = some null

abbrev pub fallback_of : Confidence → Option Fields → Value → Value
fallback_of high top fallback = null
fallback_of _ none fallback = null
fallback_of _ (some row) fallback = fallback

abbrev pub cap_fields : Bool → Fields
cap_fields false = end
cap_fields true =
    field "confidence_cap"
      (dict (field "rule" (str "single_word_query") (field "from" (str "high") end))) end

abbrev pub resolve_fields :
    Option String → Confidence → Option Fields → Value → Value → Page → Fields
resolve_fields query confidence top next fallback p = field "search_query" (optional_text query) (
    field "resolved" (bool (is_high confidence)) (
      field "confidence" (str (confidence_text confidence)) (
        field "match" (match_of top) (
          field "next_command" next (
            field "fallback_search_command" (fallback_of confidence top fallback)
              (page_fields "candidates" p))))))
