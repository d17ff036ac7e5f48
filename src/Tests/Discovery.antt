-- ===== src/Tests/Discovery.antt =====
-- A search for an item, whose one-word query does not name its best match.
use warcraft_cli.Discovery.Bounded.{IsBounded, filter_data-IsBounded}
use warcraft_cli.Discovery.Scope.{filter_data, select_rows, judge_match, rename_total}
use warcraft_cli.Base.{
  String, ◌≡◌, refl, Bool, true, false, none, some, [], ◌∷◌, arith, ◌==◌, split, strip,
}
use warcraft_cli.Discovery.{
  high, Confidence, answered, plain_word, title_match, title_head, single_word_named,
  single_word_capped, take_to, rows_list, page_of, next_command, command_of,
}
use warcraft_cli.Discovery.Answers.{IsFollowed, resolve_data-answers}
use warcraft_cli.Discovery.Capped.{IsStated}
use warcraft_cli.Discovery.Pages.{is_answered}
use warcraft_cli.Discovery.Resolve.{resolve_data, judged, finish}
use warcraft_cli.Discovery.Says.{Says, resolve_data-Says}
use warcraft_cli.Json.{
  pos, Value, null, str, dict, bool, int, list, cons, nil, Items, Fields, end, field, lookup, merge,
  insert, truthy,
}

abbrev row : Fields
row =
    field "name" (str "illidan stormrage")
      (field "follow_up" (dict (field "command" (str "wowhead entity npc 22917") end)) end)

abbrev is_word : String → Bool
is_word text = text == "illidan"

abbrev same : String → String
same text = text

abbrev str_of : Value → String
str_of (str s) = s
str_of _ = ""

-- The answer is lowered to "medium", with no next command; two more matches are known.
abbrev lowered : Fields
lowered =
    field "confidence_cap"
      (dict (field "rule" (str "single_word_query") (field "from" (str "high") end)))
      (field "search_query" (str "illidan") (
        field "resolved" (bool false) (
          field "confidence" (str "medium") (
            field "match" (dict row) (
              field "next_command" null (
                field "fallback_search_command" (str "wowhead search illidan") (
                  field "count" (int (pos 1)) (
                    field "total_matches" (int (pos 3)) (
                      field "truncated" (bool true)
                        (field "candidates" (list (cons (dict row) nil)) end))))))))))

illidan_lowered :
    resolve_data is_word same same str_of
      (some "illidan")
      (row ∷ [])
      (pos 1)
      high
      (str "wowhead search illidan")
      (some 3)
      none
      end
    ≡ answered lowered
unfolding resolve_data judged finish lookup merge insert truthy plain_word title_match title_head
    single_word_named single_word_capped take_to rows_list page_of next_command command_of split
    strip
illidan_lowered = refl

resolve_data-Says_example :
    (stated : Confidence) × IsStated is_word same same str_of
      (some "illidan")
      (some row)
      none
      high
      stated
    × Says (row ∷ []) (pos 1) (str "wowhead search illidan") (some 3) stated lowered
resolve_data-Says_example =
    resolve_data-Says is_word same same str_of (some "illidan") (row ∷ []) (pos 1) high
      (str "wowhead search illidan") (some 3) none end lowered illidan_lowered

row-IsFollowed : IsFollowed row
unfolding lookup command_of truthy
row-IsFollowed = record {
  name = str "illidan stormrage";
  command = str "wowhead entity npc 22917";
  has_name = refl;
  has_command = refl;
  given = refl;
}

resolve_data-answers_example :
    is_answered (
      resolve_data is_word same same str_of
        (some "illidan")
        (row ∷ [])
        (pos 1)
        high
        (str "wowhead search illidan")
        (some 3)
        none
        end)
    ≡ true
resolve_data-answers_example =
    resolve_data-answers is_word same same str_of (some "illidan") (row ∷ []) (pos 1) high
      (str "wowhead search illidan") (some 3) none end row-IsFollowed (omega arith)

abbrev found : Fields
found = field "resolved" (bool true) (
    field "match" (dict (field "kind" (str "quest") end))
      (field "next_command" (str "quest 1") end))

-- An item, and a quest that the filter leaves out.
abbrev offered : Items
offered =
    cons (dict (field "kind" (str "item") end))
      (cons (dict (field "entity_type" (str "quest") (field "kind" (str "item") end))) nil)

filter_data-IsBounded_example :
    IsBounded ("item" ∷ []) offered found (filter_data ("item" ∷ []) "resolve" 5 found offered)
filter_data-IsBounded_example = filter_data-IsBounded ("item" ∷ []) 5 found offered

offered_kept :
    lookup "candidates" (filter_data ("item" ∷ []) "resolve" 5 found offered)
    ≡ some (list (cons (dict (field "kind" (str "item") end)) nil))
unfolding filter_data select_rows judge_match rename_total lookup insert
offered_kept = refl
