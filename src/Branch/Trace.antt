-- ===== src/Branch/Trace.antt =====
-- `trace_apl`: the rows that a run can go through, list by list.
-- packages/simc-cli/src/simc_cli/branch.py
use warcraft_cli.Apl.{AplEntry}
use warcraft_cli.Base.{
  ℕ, zero, suc, ◌+◌, String, Bool, true, false, ◌&&◌, Option, none, some, List, [], ◌∷◌, ◌++◌, ◌==◌,
  ltb, cat, decimal, mem, is_some, if◌then◌else◌,
}
use warcraft_cli.Branch.Decisions.{Verdict, arrow, target_of, rows_of}
use warcraft_cli.Branch.Intents.{is_plain_reason}
use warcraft_cli.Prune.Spans.{ConditionOutcome, guaranteed_true, guaranteed_false}

pub record TraceLine : Type 0 where
  pub depth : ℕ
  pub text : String

abbrev pub Lines : Type 0
Lines = List TraceLine

-- `f"{_status_text(outcome):10}"`
abbrev pub padded_status : ConditionOutcome → String
padded_status o =
    if guaranteed_true o
    then "guaranteed"
    else if guaranteed_false o
    then "dead      "
    else "possible  "

abbrev pub condition_text : Option String → String
condition_text none = ""
condition_text (some condition) = cat " if=" condition

unfoldable pub label_for_entry : AplEntry → ConditionOutcome → String
unfolding cat decimal
label_for_entry entry o = cat "L" (
    cat (decimal entry.line_no) (
      cat ": " (
        cat (padded_status o) (
          cat " " (
            cat entry.action (
              cat (arrow (target_of entry.target_list))
                (condition_text (target_of entry.condition))))))))

abbrev pub line : ℕ → String → TraceLine
line depth text = record { depth = depth; text = text }

abbrev pub bracketed : String → String → String
bracketed list_name rest = cat "[" (cat list_name (cat "]" rest))

-- Lines before and after those that may be missing.
abbrev pub around : Lines → Option Lines → Lines → Option Lines
around before none after = none
around before (some lines) after = some (before ++ lines ++ after)

module _ (verdict : Verdict) where
  -- The lines of the lists that a row goes into, where `recurse` traces a list at a depth.
  unfoldable pub entered_lines :
      (String → ℕ → Option Lines) → ℕ → String → ConditionOutcome → Option String → Option Lines
  unfolding cat
  entered_lines recurse depth kind o none = some []
  entered_lines recurse depth kind o (some target) =
      if kind == "call_action_list"
      then (if o.can_be_true then recurse target (depth + 2) else some [])
      else if kind == "run_action_list"
      then (if guaranteed_true o
          then recurse target (depth + 2)
          else if o.can_be_true
          then around (line (depth + 2) (cat "possible path into " (bracketed target "")) ∷ [])
              (recurse target (depth + 3))
              (line (depth + 2) "fallthrough remains possible if condition is false" ∷ [])
          else some [])
      else some []

  abbrev pub row_head : ℕ → AplEntry → ConditionOutcome × String → Lines
  row_head depth entry (o, reason) =
      line (depth + 1) (label_for_entry entry o)
      ∷ (if is_plain_reason reason then [] else line (depth + 2) (cat "because: " reason) ∷ [])

  abbrev pub shadowed_row : ℕ → AplEntry → Lines
  shadowed_row depth entry =
      line (depth + 1)
        (cat "L" (cat (decimal entry.line_no) ": shadowed by earlier guaranteed run_action_list"))
      ∷ []

  unfoldable pub row_lines : (String → ℕ → Option Lines) → ℕ → AplEntry → Option Lines
  row_lines recurse depth entry =
      around (row_head depth entry (verdict entry))
        (entered_lines recurse depth entry.kind (verdict entry).0 (target_of entry.target_list)) []

  abbrev pub ends_list : AplEntry → Bool
  ends_list entry =
      is_some (target_of entry.target_list)
      && entry.kind == "run_action_list"
      && guaranteed_true (verdict entry).0

  abbrev pub joined_lines : Option Lines → Option Lines → Option Lines
  joined_lines none o = none
  joined_lines (some lines) o = around lines o []

  -- The loop over a list's rows, with `stop_here`.
  unfoldable pub trace_rows : (String → ℕ → Option Lines) → ℕ → List AplEntry → Bool → Option Lines
  trace_rows recurse depth [] stop_here = some []
  trace_rows recurse depth (entry ∷ entries) true =
      around (shadowed_row depth entry) (trace_rows recurse depth entries true) []
  trace_rows recurse depth (entry ∷ entries) false =
      joined_lines (row_lines recurse depth entry)
        (trace_rows recurse depth entries (ends_list entry))

  module _ (entries : List AplEntry) (max_depth : ℕ) where
    -- `_trace_list`; `none` when the fuel runs out
    unfoldable pub trace_list : ℕ → String → ℕ → List String → Option Lines
    trace_list zero list_name depth visited = none
    trace_list (suc fuel) list_name depth visited =
        let rows =
          trace_rows (λ target deeper. trace_list fuel target deeper (visited ++ list_name ∷ []))
            depth (rows_of list_name entries) false in
        if ltb max_depth depth
        then some (line depth (bracketed list_name " max depth reached") ∷ [])
        else if mem list_name visited
        then some (line depth (bracketed list_name " recursion detected") ∷ [])
        else around (line depth (bracketed list_name "") ∷ []) rows []

unfoldable pub trace_apl : Verdict → List AplEntry → String → ℕ → Option Lines
trace_apl verdict entries start_list max_depth =
    trace_list verdict entries max_depth (max_depth + 2) start_list 0 []
