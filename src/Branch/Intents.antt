-- ===== src/Branch/Intents.antt =====
-- What a list does for a build, in words.
-- packages/simc-cli/src/simc_cli/branch.py
use warcraft_cli.Base.{
  ℕ, String, Bool, false, not, ◌&&◌, ◌||◌, Option, none, some, List, [], ◌∷◌, ◌++◌, ◌==◌, keep, leb,
  ltb, take, length, cat, decimal, ends_with, mem, value_at, if◌then◌else◌,
}
use warcraft_cli.Branch.Names.{humanize_action_label, is_helper_name, action_role_aliases}
use warcraft_cli.Branch.Decisions.{
  ListDecision, target_of, is_dead, is_guaranteed, status_text, is_helper_decision,
}

abbrev pub is_plain_reason : String → Bool
is_plain_reason reason = (reason == "no condition") || (reason == "depends on runtime-only state")

unfoldable pub intent_line_for_decision : ListDecision → String
unfolding cat humanize_action_label
intent_line_for_decision decision =
    let qualifier = if is_guaranteed decision.status then "always" else "situational" in
    let line = cat qualifier (cat ": " (humanize_action_label decision.action_label)) in
    if is_plain_reason decision.reason then line else cat line (cat " [" (cat decision.reason "]"))

-- The loop of `summarize_intent` over the decisions, stopping at the limit.
unfoldable pub intent_lines : ℕ → List ListDecision → List String → List String
unfolding mem intent_line_for_decision
intent_lines limit [] lines = lines
intent_lines limit (d ∷ ds) lines =
    let text = intent_line_for_decision d in
    let found = if mem text lines then lines else lines ++ text ∷ [] in
    let dead_rest = intent_lines limit ds lines in
    let rest = intent_lines limit ds found in
    if is_dead d.status then dead_rest else if leb limit (length found) then found else rest

unfoldable pub summarize_intent : ℕ → List ListDecision → List String
unfolding keep is_helper_decision intent_lines
summarize_intent limit decisions =
    intent_lines limit
      (keep (λ d. not (is_helper_decision d)) decisions ++ keep is_helper_decision decisions) []

abbrev pub is_helper_target : Option String → Bool
is_helper_target none = false
is_helper_target (some target) = is_helper_name target

unfoldable pub classify_decision_role : ListDecision → Option String
unfolding value_at ends_with
classify_decision_role decision =
    if decision.action_name == "call_action_list"
      && is_helper_target (target_of decision.target_list)
    then some "helper"
    else value_at decision.action_name action_role_aliases

unfoldable pub format_list_decision : ListDecision → String
unfolding cat decimal
format_list_decision d = cat "L" (
    cat (decimal d.line_no) (
      cat " "
        (cat d.action_label (cat ": " (cat (status_text d.status) (cat " (" (cat d.reason ")")))))))

abbrev pub role_is : String → Option String → Bool
role_is name none = false
role_is name (some role) = role == name

pub record IntentExplanation : Type 0 where
  pub focus_list : String
  pub setup : List String
  pub helpers : List String
  pub burst : List String
  pub priorities : List String

-- A row's line in the part that its role names, or among the priorities, where there is room.
unfoldable pub file_line : ℕ → Option String → String → IntentExplanation → IntentExplanation
file_line limit role line x =
    if role_is "setup" role && ltb (length x.setup) limit
    then record x { setup = x.setup ++ line ∷ [] }
    else if (role_is "helper" role || role_is "burst_helper" role) && ltb (length x.helpers) limit
    then record x { helpers = x.helpers ++ line ∷ [] }
    else if (role_is "burst" role || role_is "burst_setup" role) && ltb (length x.burst) limit
    then record x { burst = x.burst ++ line ∷ [] }
    else if ltb (length x.priorities) limit
    then record x { priorities = x.priorities ++ line ∷ [] }
    else x

unfoldable pub explain_rows :
    ℕ → List ListDecision → List String → IntentExplanation → IntentExplanation
unfolding mem file_line classify_decision_role
explain_rows limit [] seen x = x
explain_rows limit (d ∷ ds) seen x =
    let line = intent_line_for_decision d in
    let skips = is_dead d.status || mem line seen in
    explain_rows limit ds (if skips then seen else line ∷ seen)
      (if skips then x else file_line limit (classify_decision_role d) line x)

unfoldable pub explain_intent : ℕ → String → List ListDecision → IntentExplanation
unfolding explain_rows
explain_intent limit list_name decisions =
    let x =
      explain_rows limit decisions [] (record {
        focus_list = list_name;
        setup = [];
        helpers = [];
        burst = [];
        priorities = [];
      }) in
    record {
      focus_list = list_name;
      setup = take limit x.setup;
      helpers = take limit x.helpers;
      burst = take limit x.burst;
      priorities = take limit x.priorities;
    }
