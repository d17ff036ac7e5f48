-- ===== src/Discovery/Scope.antt =====
-- The filter that keeps a provider's candidates of certain types.
-- packages/warcraft-cli/src/warcraft_cli/discovery_scope.py
use warcraft_cli.Base.{
  ℕ, suc, String, Bool, false, not, ◌||◌, Option, none, some, List, ◌==◌, mem, if◌then◌else◌,
}
use warcraft_cli.Json.{
  Value, null, bool, int, str, list, dict, pos, Items, nil, cons, Fields, end, field, lookup,
  insert, restrict, as_dict, texts, truthy,
}

-- `a or b`
abbrev pub first_true : Option Value → Option Value → Option Value
first_true none w = w
first_true (some v) w = if truthy v then some v else w

-- `row.get("entity_type") or row.get("kind")`
unfoldable pub entity_of : Fields → Option Value
unfolding lookup truthy
entity_of row = first_true (lookup "entity_type" row) (lookup "kind" row)

unfoldable pub in_types : List String → Option Value → Bool
unfolding mem
in_types types (some (str t)) = mem t types
in_types types _ = false

-- `[row for row in rows if isinstance(row, dict)]`
unfoldable pub dict_rows : Items → Items
dict_rows nil = nil
dict_rows (cons (dict row) rows) = cons (dict row) (dict_rows rows)
dict_rows (cons _ rows) = dict_rows rows

unfoldable pub select_rows : List String → Items → Items
unfolding entity_of in_types as_dict
select_rows types nil = nil
select_rows types (cons row rows) =
    let rest = select_rows types rows in
    if in_types types (entity_of (as_dict (some row))) then cons row rest else rest

unfoldable pub item_count : Items → ℕ
item_count nil = 0
item_count (cons v rows) = suc (item_count rows)

-- `for row in data.get(field) or []`: a text or a dict has no dicts to give, and a number that is not
-- zero or `true` raises TypeError.
abbrev pub iterated : Value → Option Items
iterated (list rows) = some (dict_rows rows)
iterated (str text) = some nil
iterated (dict row) = some nil
iterated _ = none

abbrev pub original_rows : Option Value → Option Items
original_rows none = some nil
original_rows (some v) = if truthy v then iterated v else some nil

abbrev pub count_of : Items → Value
count_of rows = int (pos (item_count rows))

-- `data.update(resolved=False, match=None, confidence=None, next_command=None)`
abbrev pub unresolved : Fields → Fields
unresolved fields =
    insert "next_command" null
      (insert "confidence" null (insert "match" null (insert "resolved" (bool false) fields)))

unfoldable pub judge_match : List String → String → Fields → Fields
unfolding insert as_dict
judge_match types surface fields =
    if not (surface == "resolve") || in_types types (entity_of (as_dict (lookup "match" fields)))
    then fields
    else unresolved fields

abbrev pub note : String
note =
    "Filters the provider's bounded candidate response; unreturned matching candidates may exist."

abbrev pub entity_scope : List String → ℕ → Items → Value
entity_scope types limit original = dict (
    field "mode" (str "bounded_candidate_filter") (
      field "entity_types" (list (texts types)) (
        field "candidate_limit" (int (pos limit)) (
          field "candidates_examined" (count_of original)
            (field "exhaustive" (bool false) (field "note" (str note) end))))))

abbrev pub move_total : Option Value → Fields → Fields
move_total none fields = fields
move_total (some total) fields =
    insert "unfiltered_total_matches" total (restrict (λ k. not (k == "total_matches")) fields)

unfoldable pub rename_total : Fields → Fields
unfolding lookup insert restrict
rename_total fields = move_total (lookup "total_matches" fields) fields

abbrev pub rows_field : String → String
rows_field surface = if surface == "search" then "results" else "candidates"

-- The data after the filter, from the rows that were there.
unfoldable pub filter_data : List String → String → ℕ → Fields → Items → Fields
unfolding insert select_rows judge_match rename_total item_count texts
filter_data types surface limit fields original =
    let selected = select_rows types original in
    rename_total (
      insert "entity_scope" (entity_scope types limit original) (
        judge_match types surface (
          insert "count" (count_of selected) (insert (rows_field surface) (list selected) fields))))

abbrev pub filtered : List String → String → ℕ → Fields → Fields → Option Items → Option Fields
filtered types surface limit payload fields none = none
filtered types surface limit payload fields (some original) =
    some (insert "data" (dict (filter_data types surface limit fields original)) payload)

-- `none` where it raises
unfoldable pub filter_candidates : Fields → List String → String → ℕ → Option Fields
unfolding filter_data lookup as_dict truthy dict_rows insert
filter_candidates payload types surface limit =
    let fields = as_dict (lookup "data" payload) in
    filtered types surface limit payload fields (original_rows (lookup (rows_field surface) fields))
