-- ===== src/Apl/Parse.antt =====
-- `parse_apl`: a list is replaced on `=` and its text continued on `+=`, and a slash starts an action.
-- packages/simc-cli/src/simc_cli/apl.py
use warcraft_cli.Apl.{AplEntry}
use warcraft_cli.Apl.Talents.{ActionSource, Sources, is_word_char, body_of, talent_source_lines}
use warcraft_cli.Base.{
  ℕ, suc, String, Bool, false, not, ◌&&◌, ◌||◌, Option, none, some, List, [], ◌∷◌, ◌++◌, ◌==◌, leb,
  map, join, split, split_once, strip, starts_with, ends_with, text_drop, value_at, set_at,
  if◌then◌else◌,
}
use warcraft_cli.Prune.Tokens.{span_while}

-- What stands before the first piece's separator: `line[:line.find("#")]`, or the line
abbrev pub head_of : List String → String
head_of [] = ""
head_of (piece ∷ pieces) = piece

unfoldable pub strip_comment : String → String
unfolding split strip
strip_comment line = strip (head_of (split b'#' line))

pub record Assignment : Type 0 where
  pub list_name : String
  pub op : String
  pub value : String

-- `(\+?=)(.*)$`
unfoldable pub match_op : String → String → Option Assignment
unfolding starts_with text_drop
match_op list_name rest =
    if starts_with rest "+="
    then some (record { list_name = list_name; op = "+="; value = text_drop 2 rest })
    else if starts_with rest "="
    then some (record { list_name = list_name; op = "="; value = text_drop 1 rest })
    else none

abbrev pub match_named : String × String → Option Assignment
match_named (name, rest) = if name == "" then none else match_op name rest

-- `ACTION_RE.match`, with `default` where no list is named
unfoldable pub match_assignment : String → Option Assignment
unfolding match_op starts_with text_drop span_while
match_assignment line =
    let rest = text_drop 7 line in
    if not (starts_with line "actions")
    then none
    else if starts_with rest "."
    then match_named (span_while is_word_char (text_drop 1 rest))
    else match_op "default" rest

-- The actions of a list, each with its sources, and whether its text ends with a slash.
pub record ActionList : Type 0 where
  pub actions : List Sources
  pub ends_open : Bool

abbrev pub no_actions : ActionList
no_actions = record { actions = []; ends_open = false }

-- `actions[-1].append(source)`, or a new action where there is none
unfoldable pub continue_last : ActionSource → List Sources → List Sources
continue_last source [] = (source ∷ []) ∷ []
continue_last source (action ∷ []) = (action ++ source ∷ []) ∷ []
continue_last source (action ∷ next ∷ actions) = action ∷ continue_last source (next ∷ actions)

-- The loop over the pieces of a value after the first, and the first.
unfoldable pub add_actions : (String → ActionSource) → List String → List Sources → List Sources
add_actions source [] actions = actions
add_actions source (body ∷ bodies) actions =
    add_actions source bodies (if body == "" then actions else actions ++ (source body ∷ []) ∷ [])

unfoldable pub add_pieces :
    (String → ActionSource) → Bool → List String → List Sources → List Sources
unfolding add_actions continue_last
add_pieces source continues [] actions = actions
add_pieces source continues (body ∷ bodies) actions = add_actions source bodies (
    if body == ""
    then actions
    else if continues
    then continue_last (source body) actions
    else actions ++ (source body ∷ []) ∷ [])

-- One assignment to a list.
unfoldable pub assign_list : (String → ActionSource) → String → String → ActionList → ActionList
unfolding add_pieces split ends_with
assign_list source op value l =
    let old = if op == "=" then no_actions else l in
    record {
      actions = add_pieces source (op == "+=" && not old.ends_open) (split b'/' value) old.actions;
      ends_open = if value == "" then old.ends_open else ends_with value "/";
    }

abbrev pub Lists : Type 0
Lists = List (String × ActionList)

abbrev pub list_at : Option ActionList → ActionList
list_at none = no_actions
list_at (some l) = l

abbrev pub read_assignment : ℕ → String → Option Assignment → Lists → Lists
read_assignment line_no line none lists = lists
read_assignment line_no line (some a) lists =
    set_at a.list_name
      (assign_list (λ body. record { text = body; line_no = line_no; op = a.op; raw = line }) a.op
        a.value (list_at (value_at a.list_name lists)))
      lists

-- The loop over the lines.
unfoldable pub read_lines : ℕ → List String → Lists → Lists
unfolding strip_comment match_assignment assign_list value_at set_at
read_lines line_no [] lists = lists
read_lines line_no (raw_line ∷ raw_lines) lists =
    let line = strip_comment raw_line in
    read_lines (suc line_no) raw_lines
      (if line == "" then lists else read_assignment line_no line (match_assignment line) lists)

abbrev pub parted : String → Option (String × String) → String × String
parted s none = (s, "")
parted s (some (t, u)) = (t, u)

abbrev pub set_option : Option (String × String) → List (String × String) → List (String × String)
set_option none options = options
set_option (some (key, value)) options = set_at (strip key) (strip value) options

unfoldable pub read_options : List String → List (String × String) → List (String × String)
unfolding split_once set_at strip
read_options [] options = options
read_options (part ∷ parts) options = read_options parts (set_option (split_once "=" part) options)

abbrev pub line_of : Sources → ℕ
line_of [] = 0
line_of (source ∷ sources) = source.line_no

abbrev pub op_of : Sources → String
op_of [] = ""
op_of (source ∷ sources) = source.op

-- `_parse_action`
unfoldable pub parse_action : String → Sources → AplEntry
unfolding body_of talent_source_lines split_once strip read_options split value_at join
parse_action list_name sources =
    let body = body_of sources in
    let (before, after) = parted body (split_once "," body) in
    let action = strip before in
    let raw_args = strip after in
    let options = read_options (split b',' raw_args) [] in
    let kind =
      if (action == "call_action_list") || (action == "run_action_list")
      then action
      else "action" in
    record {
      line_no = line_of sources;
      list_name = list_name;
      op = op_of sources;
      action = action;
      raw_args = raw_args;
      condition = value_at "if" options;
      raw = join "\n" (map (λ s. s.raw) sources);
      target_list = if kind == "action" then none else value_at "name" options;
      kind = kind;
      talent_source_lines = some (talent_source_lines body sources);
    }

unfoldable pub entries_of : Lists → List AplEntry
unfolding parse_action
entries_of [] = []
entries_of ((list_name, l) ∷ lists) = map (parse_action list_name) l.actions ++ entries_of lists

-- `sorted(entries, key=lambda entry: entry.line_no)`
unfoldable pub place_entry : AplEntry → List AplEntry → List AplEntry
place_entry e [] = e ∷ []
place_entry e (f ∷ fs) =
    let rest = place_entry e fs in if leb e.line_no f.line_no then e ∷ f ∷ fs else f ∷ rest

unfoldable pub sort_entries : List AplEntry → List AplEntry
unfolding place_entry
sort_entries [] = []
sort_entries (e ∷ es) = place_entry e (sort_entries es)

-- `parse_apl`, from the file's lines
unfoldable pub parse_apl : List String → List AplEntry
unfolding sort_entries entries_of read_lines
parse_apl lines = sort_entries (entries_of (read_lines 1 lines []))
