-- ===== src/Tests/Branch.antt =====
-- The branches of a small profile.
use warcraft_cli.Apl.{AplEntry}
use warcraft_cli.Apl.Talents.{body_of}
use warcraft_cli.Apl.Parse.{
  parse_apl, read_lines, strip_comment, match_assignment, match_op, assign_list, add_pieces,
  add_actions, continue_last, entries_of, sort_entries, place_entry, parse_action, read_options,
}
use warcraft_cli.Base.{
  ℕ, String, ◌≡◌, refl, Bool, true, false, Option, none, some, List, [], ◌∷◌, ◌==◌, arith, map,
  if◌then◌else◌, split, split_once, strip, value_at, set_at, is_some, cat,
}
use warcraft_cli.Branch.Compare.{
  compare_branches, decided, merge_decided, rotation_calls, decision_changes, decision_change,
}
use warcraft_cli.Branch.Decisions.{Verdict}
use warcraft_cli.Branch.Dispatch.{Holds, summarize_branches-Holds}
use warcraft_cli.Branch.Entered.{Agrees, Foretold, entered, summarize_branches-Foretold}
use warcraft_cli.Branch.Focus.{resolve_focus_list}
use warcraft_cli.Branch.Path.{IsPath, resolve_focus_list-IsPath}
use warcraft_cli.Branch.Summary.{branches_of, summarize_branches, scan, judge, shadow, no_summary}
use warcraft_cli.Branch.Decisions.{rows_of, summarize_list_decisions, is_helper_decision}
use warcraft_cli.Envelope.Sort.{sorted, place, text_lt}
use warcraft_cli.Branch.Trace.{trace_apl}
use warcraft_cli.Branch.Traced.{trace_apl_lem}
use warcraft_cli.Branch.Reports.{Reports, compare_branches-Reports}
use warcraft_cli.Prune.Spans.{ConditionOutcome, guaranteed_true}

abbrev profile : List String
profile =
    "# a comment" ∷ "actions=auto_attack" ∷ "actions+=/run_action_list,name=old,if=never"
    ∷ "actions+=/run_action_list,name=aoe,if=some" ∷ "actions+=/run_action_list,name=st"
    ∷ "actions+=/run_action_list,name=late,if=some"
    ∷ "actions.st=strike/run_action_list,name=default" ∷ []

abbrev entries : List AplEntry
entries = parse_apl profile

abbrev row : AplEntry → ℕ × String × String
row e = (e.line_no, e.list_name, e.action)

profile_actions :
    map row entries
    ≡ (2, "default", "auto_attack")
      ∷ (3, "default", "run_action_list")
      ∷ (4, "default", "run_action_list")
      ∷ (5, "default", "run_action_list")
      ∷ (6, "default", "run_action_list")
      ∷ (7, "st", "strike")
      ∷ (7, "st", "run_action_list")
      ∷ []
unfolding parse_apl read_lines strip_comment match_assignment match_op assign_list add_pieces
    add_actions continue_last entries_of sort_entries place_entry parse_action body_of read_options
    split split_once strip value_at set_at
profile_actions = refl

-- A row without a condition always runs, one with `never` never does, and the others may.
abbrev judged : Option String → ConditionOutcome × String
judged none = (record { can_be_true = true; can_be_false = false }, "no condition")
judged (some condition) =
    if condition == "never"
    then (record { can_be_true = false; can_be_false = true }, "talent.x=false")
    else (record { can_be_true = true; can_be_false = true }, "depends on runtime-only state")

abbrev verdict : Verdict
verdict entry = judged entry.condition

-- A moment at which the rows that may run do not.
abbrev held_back : AplEntry → Bool
held_back entry = guaranteed_true (verdict entry).0

held_back-Agrees : Agrees verdict held_back
held_back-Agrees = record { never = λ entry h. ground arith; always = λ entry h. h }

-- The profile hands over to `st`; the branch before that may be taken, and the one after it is shadowed.
profile_branches : (summarize_branches verdict entries "default").guaranteed_dispatch ≡ some "st"
unfolding parse_apl read_lines strip_comment match_assignment match_op assign_list add_pieces
    add_actions continue_last entries_of sort_entries place_entry parse_action body_of read_options
    split split_once strip value_at set_at rows_of branches_of summarize_branches scan judge shadow
profile_branches = refl

summarize_branches-Holds_example :
    Holds verdict
      (no_summary "default")
      (branches_of (rows_of "default" entries))
      (summarize_branches verdict entries "default")
summarize_branches-Holds_example = summarize_branches-Holds verdict entries "default"

summarize_branches-Foretold_example :
    Foretold verdict
      (summarize_branches verdict entries "default")
      (entered held_back (branches_of (rows_of "default" entries)))
summarize_branches-Foretold_example =
    summarize_branches-Foretold verdict held_back held_back-Agrees entries "default"

resolve_focus_list-IsPath_example :
    IsPath "default" 9 (resolve_focus_list verdict entries 8 "default")
resolve_focus_list-IsPath_example = resolve_focus_list-IsPath verdict entries 8 "default"

trace_apl_lem_example : is_some (trace_apl verdict entries "default" 6) ≡ true
trace_apl_lem_example = trace_apl_lem verdict entries "default" 6

-- The verdict of a build in which the conditions that are open hold.
abbrev settled : Option String → ConditionOutcome × String
settled none = judged none
settled (some condition) = judged (if condition == "never" then some condition else none)

abbrev other_build : Verdict
other_build entry = settled entry.condition

compare_branches-Reports_example :
    Reports verdict other_build entries "default" 5
      (compare_branches verdict other_build entries "default" 5)
compare_branches-Reports_example =
    compare_branches-Reports verdict other_build entries "default" 5 (omega arith)

aoe_change :
    (compare_branches verdict other_build entries "default" 5).decision_changes
    ≡ "aoe: possible -> guaranteed | left=depends on runtime-only state | right=no condition"
      ∷ "st: guaranteed -> shadowed | left=no condition | right=shadowed by earlier guaranteed dispatch"
      ∷ []
unfolding parse_apl read_lines strip_comment match_assignment match_op assign_list add_pieces
    add_actions continue_last entries_of sort_entries place_entry parse_action body_of read_options
    split split_once strip value_at set_at rows_of branches_of summarize_branches scan judge shadow
    compare_branches decided merge_decided rotation_calls summarize_list_decisions
    is_helper_decision decision_changes decision_change sorted place text_lt cat
aoe_change = refl
