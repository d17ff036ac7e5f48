-- ===== src/Branch/Summary.antt =====
-- `summarize_branches`: which list a list hands over to, and what each of its branches comes to.
-- packages/simc-cli/src/simc_cli/branch.py
use warcraft_cli.Apl.{AplEntry}
use warcraft_cli.Base.{
  ℕ, String, Bool, true, false, Option, none, some, List, [], ◌∷◌, ◌++◌, ◌==◌, cat, decimal, set_at,
  if◌then◌else◌,
}
use warcraft_cli.Branch.Decisions.{
  Verdict, Status, guaranteed, dead, possible, shadowed, target_of, rows_of,
}
use warcraft_cli.Prune.Spans.{ConditionOutcome, guaranteed_true, guaranteed_false}

pub record BranchDecision : Type 0 where
  pub target_list : String
  pub line_no : ℕ
  pub status : Status
  pub reason : String

pub record BranchSummary : Type 0 where
  pub start_list : String
  pub guaranteed_dispatch : Option String
  pub guaranteed_dispatch_line : Option ℕ
  pub guaranteed_dispatch_reason : Option String
  pub dead_branches : List String
  pub unresolved_branches : List String
  pub shadowed_lines : List String
  pub branch_decisions : List (String × BranchDecision)

-- A `run_action_list` row with its target.
abbrev pub Branch : Type 0
Branch = AplEntry × String

abbrev pub branch_target : AplEntry → Option String
branch_target entry = if entry.kind == "run_action_list" then target_of entry.target_list else none

abbrev pub add_branch : AplEntry → Option String → List Branch → List Branch
add_branch entry none branches = branches
add_branch entry (some target) branches = (entry, target) ∷ branches

unfoldable pub branches_of : List AplEntry → List Branch
branches_of [] = []
branches_of (entry ∷ entries) = add_branch entry (branch_target entry) (branches_of entries)

abbrev pub row_label : Branch → String
row_label (entry, target) = cat "L" (cat (decimal entry.line_no) (cat " -> " target))

abbrev pub reasoned_label : Branch → String → String
reasoned_label branch reason = cat (row_label branch) (cat ": " reason)

abbrev pub decide : Branch → Status → String → BranchSummary → BranchSummary
decide (entry, target) status reason s = record s {
  branch_decisions =
      set_at target
        (record { target_list = target; line_no = entry.line_no; status = status; reason = reason })
        s.branch_decisions;
}

module _ (verdict : Verdict) where
  -- A row after the guaranteed dispatch, and one before it.
  unfoldable pub shadow : Branch → BranchSummary → BranchSummary
  unfolding set_at cat decimal
  shadow branch s =
      let t = decide branch shadowed "shadowed by earlier guaranteed dispatch" s in
      record t { shadowed_lines = s.shadowed_lines ++ row_label branch ∷ [] }

  unfoldable pub judge : Branch → ConditionOutcome → String → BranchSummary → BranchSummary
  unfolding set_at cat decimal
  judge (entry, target) o reason s =
      if guaranteed_true o
      then record (decide (entry, target) guaranteed reason s) {
        guaranteed_dispatch = some target;
        guaranteed_dispatch_line = some entry.line_no;
        guaranteed_dispatch_reason = some reason;
      }
      else if guaranteed_false o
      then record (decide (entry, target) dead reason s) {
        dead_branches = s.dead_branches ++ reasoned_label (entry, target) reason ∷ [];
      }
      else record (decide (entry, target) possible reason s) {
        unresolved_branches = s.unresolved_branches ++ reasoned_label (entry, target) reason ∷ [];
      }

  abbrev pub stops : Branch → Bool
  stops branch = guaranteed_true (verdict branch.0).0

  -- The loop over the branches, with `stop_here`.
  unfoldable pub scan : List Branch → Bool → BranchSummary → BranchSummary
  scan [] stop_here s = s
  scan (branch ∷ branches) true s = scan branches true (shadow branch s)
  scan (branch ∷ branches) false s =
      let (o, reason) = verdict branch.0 in scan branches (stops branch) (judge branch o reason s)

abbrev pub no_summary : String → BranchSummary
no_summary start_list = record {
  start_list = start_list;
  guaranteed_dispatch = none;
  guaranteed_dispatch_line = none;
  guaranteed_dispatch_reason = none;
  dead_branches = [];
  unresolved_branches = [];
  shadowed_lines = [];
  branch_decisions = [];
}

unfoldable pub summarize_branches : Verdict → List AplEntry → String → BranchSummary
summarize_branches verdict entries start_list =
    scan verdict (branches_of (rows_of start_list entries)) false (no_summary start_list)
