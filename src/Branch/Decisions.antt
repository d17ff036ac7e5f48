-- ===== src/Branch/Decisions.antt =====
-- The decisions on a list's rows.
-- packages/simc-cli/src/simc_cli/branch.py
use warcraft_cli.Apl.{AplEntry}
use warcraft_cli.Base.{
  ℕ, String, Bool, true, false, not, ◌&&◌, Option, none, some, List, [], ◌∷◌, ◌==◌, map, keep, cat,
  split_once, ends_with, value_at, if◌then◌else◌,
}
use warcraft_cli.Prune.Spans.{ConditionOutcome, guaranteed_true, guaranteed_false}
use warcraft_cli.Branch.Names.{is_helper_name}

-- `entry_verdict(entry, context)`
abbrev pub Verdict : Type 0
Verdict = AplEntry → ConditionOutcome × String

pub data Status : Type 0 where
  guaranteed dead possible shadowed : Status

abbrev pub status_of : ConditionOutcome → Status
status_of o =
    if guaranteed_true o then guaranteed else if guaranteed_false o then dead else possible

abbrev pub status_text : Status → String
status_text guaranteed = "guaranteed"
status_text dead = "dead"
status_text possible = "possible"
status_text shadowed = "shadowed"

abbrev pub is_dead : Status → Bool
is_dead dead = true
is_dead _ = false

abbrev pub is_guaranteed : Status → Bool
is_guaranteed guaranteed = true
is_guaranteed _ = false

pub record ListDecision : Type 0 where
  pub list_name : String
  pub line_no : ℕ
  pub action_label : String
  pub action_name : String
  pub target_list : Option String
  pub status : Status
  pub reason : String

-- A target list that is there: `if entry.target_list`
abbrev pub target_of : Option String → Option String
target_of none = none
target_of (some target) = if target == "" then none else some target

abbrev pub has_target : Option String → Bool
has_target o = elim (target_of o) [ none ↦ false | some target ↦ true ]

abbrev pub arrow : Option String → String
arrow none = ""
arrow (some target) = cat " -> " target

-- `group_entries(entries).get(list_name, [])`
unfoldable pub rows_of : String → List AplEntry → List AplEntry
unfolding keep
rows_of list_name entries = keep (λ e. e.list_name == list_name) entries

module _ (verdict : Verdict) where
  abbrev pub list_decision : String → AplEntry → ListDecision
  list_decision list_name entry =
      let (o, reason) = verdict entry in
      record {
        list_name = list_name;
        line_no = entry.line_no;
        action_label = cat entry.action (arrow (target_of entry.target_list));
        action_name = entry.action;
        target_list = entry.target_list;
        status = status_of o;
        reason = reason;
      }

  unfoldable pub summarize_list_decisions : List AplEntry → String → List ListDecision
  unfolding rows_of
  summarize_list_decisions entries list_name =
      map (list_decision list_name) (rows_of list_name entries)

unfoldable pub is_helper_decision : ListDecision → Bool
unfolding split_once value_at ends_with
is_helper_decision decision = elim (split_once " -> " decision.action_label) [
  | none ↦ false
  | some (action, target) ↦
      if not (action == "call_action_list") then false else is_helper_name target
]

unfoldable pub active_priority_decisions : Bool → List ListDecision → List ListDecision
unfolding keep is_helper_decision
active_priority_decisions include_helpers decisions =
    let rows = keep (λ d. not (is_dead d.status)) decisions in
    if include_helpers then rows else keep (λ d. not (is_helper_decision d)) rows

-- Talent-gated: dead for this build, but not once its talents are unknown. The two lists are the same
-- rows under two verdicts.
unfoldable pub talent_gated : List ListDecision → List ListDecision → List ListDecision
talent_gated (decision ∷ decisions) (blind ∷ blinds) =
    let rest = talent_gated decisions blinds in
    if is_dead decision.status && not (is_dead blind.status) then decision ∷ rest else rest
talent_gated _ _ = []

unfoldable pub inactive_priority_decisions :
    Verdict → Verdict → Bool → List AplEntry → String → List ListDecision
unfolding keep talent_gated summarize_list_decisions
inactive_priority_decisions verdict blind talent_only entries list_name =
    let decisions = summarize_list_decisions verdict entries list_name in
    if talent_only
    then talent_gated decisions (summarize_list_decisions blind entries list_name)
    else keep (λ d. is_dead d.status) decisions
