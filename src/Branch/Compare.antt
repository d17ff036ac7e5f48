-- ===== src/Branch/Compare.antt =====
-- `compare_branches`: what changes between two builds or target counts on one list.
-- packages/simc-cli/src/simc_cli/branch.py
use warcraft_cli.Apl.{AplEntry}
use warcraft_cli.Base.{
  ℕ, ◌≡◌, refl, String, Bool, true, false, not, ◌&&◌, ◌||◌, Option, none, some, List, [], ◌∷◌, ◌++◌,
  ◌==◌, leb, length, map, take, cat, decimal, value_at, set_at, if◌then◌else◌,
}
use warcraft_cli.Branch.Decisions.{
  Verdict, Status, guaranteed, dead, possible, shadowed, status_text, is_dead, ListDecision,
  target_of, summarize_list_decisions, is_helper_decision,
}
use warcraft_cli.Branch.Focus.{resolve_focus_list}
use warcraft_cli.Branch.Intents.{format_list_decision, summarize_intent}
use warcraft_cli.Branch.Summary.{BranchDecision, summarize_branches}
use warcraft_cli.Envelope.Sort.{sorted}

abbrev pub Decided : Type 0
Decided = List (String × BranchDecision)

abbrev pub same_status : Status → Status → Bool
same_status guaranteed guaranteed = true
same_status dead dead = true
same_status possible possible = true
same_status shadowed shadowed = true
same_status _ _ = false

abbrev pub rotation_target : ListDecision → Option String
rotation_target d =
    if d.action_name == "call_action_list" && not (is_helper_decision d)
    then target_of d.target_list
    else none

abbrev pub add_call : ListDecision → Option String → Decided → Decided
add_call d none calls = calls
add_call d (some target) calls =
    set_at target
      (record { target_list = target; line_no = d.line_no; status = d.status; reason = d.reason })
      calls

-- `_rotation_calls`
unfoldable pub rotation_calls : List ListDecision → Decided → Decided
unfolding set_at is_helper_decision
rotation_calls [] calls = calls
rotation_calls (d ∷ ds) calls = rotation_calls ds (add_call d (rotation_target d) calls)

-- `{**d, **e}`
unfoldable pub merge_decided : Decided → Decided → Decided
unfolding set_at
merge_decided d [] = d
merge_decided d ((k, v) ∷ e) = merge_decided (set_at k v d) e

unfoldable pub decided : Verdict → List AplEntry → String → Decided
unfolding merge_decided rotation_calls summarize_list_decisions summarize_branches
decided verdict entries start_list =
    merge_decided (rotation_calls (summarize_list_decisions verdict entries start_list) [])
      (summarize_branches verdict entries start_list).branch_decisions

-- The change of one branch, if it is one.
unfoldable pub decision_change :
    String → Option BranchDecision → Option BranchDecision → List String
unfolding cat
decision_change target none none = []
decision_change target (some l) none =
    cat target (cat ": only in left (" (cat (status_text l.status) ")")) ∷ []
decision_change target none (some r) =
    cat target (cat ": only in right (" (cat (status_text r.status) ")")) ∷ []
decision_change target (some l) (some r) =
    if not (is_dead l.status && is_dead r.status)
      && (not (same_status l.status r.status) || not (l.reason == r.reason))
    then cat target (
        cat ": " (
          cat (status_text l.status) (
            cat " -> " (
              cat (status_text r.status)
                (cat " | left=" (cat l.reason (cat " | right=" r.reason)))))))
      ∷ []
    else []

unfoldable pub decision_changes : Decided → Decided → List String → List String
unfolding decision_change value_at
decision_changes left right [] = []
decision_changes left right (target ∷ targets) =
    decision_change target (value_at target left) (value_at target right)
    ++ decision_changes left right targets

-- The change of one row, if it is one.
unfoldable pub row_change : ListDecision → ListDecision → List String
unfolding cat decimal
row_change l r =
    if not (same_status l.status r.status) || not (l.reason == r.reason)
    then cat "L" (
        cat (decimal l.line_no) (
          cat " " (
            cat l.action_label (
              cat ": " (
                cat (status_text l.status) (
                  cat " -> " (
                    cat (status_text r.status)
                      (cat " | left=" (cat l.reason (cat " | right=" r.reason))))))))))
      ∷ []
    else []

-- The loop over the rows of two focus lists that are the same, up to the limit.
unfoldable pub focus_changes : ℕ → List ListDecision → List ListDecision → List String → List String
unfolding row_change
focus_changes limit (l ∷ ls) (r ∷ rs) changes =
    let found = changes ++ row_change l r in
    let rest = focus_changes limit ls rs found in if leb limit (length found) then found else rest
focus_changes limit _ _ changes = changes

abbrev pub same_texts : List String → List String → Bool
same_texts [] [] = true
same_texts (s ∷ ss) (t ∷ ts) = (s == t) && same_texts ss ts
same_texts _ _ = false

abbrev pub same_name : Option String → Option String → Bool
same_name none none = true
same_name (some s) (some t) = s == t
same_name _ _ = false

pub record BranchComparison : Type 0 where
  pub start_list : String
  pub left_dispatch : Option String
  pub right_dispatch : Option String
  pub dispatch_changed : Bool
  pub decision_changes : List String
  pub left_focus_list : String
  pub right_focus_list : String
  pub focus_list_same : Bool
  pub focus_changes : List String
  pub left_focus_preview : List String
  pub right_focus_preview : List String
  pub left_focus_intent : List String
  pub right_focus_intent : List String

unfoldable pub compare_branches : Verdict → Verdict → List AplEntry → String → ℕ → BranchComparison
compare_branches left right entries start_list max_changes =
    let left_summary = summarize_branches left entries start_list in
    let right_summary = summarize_branches right entries start_list in
    let left_branches = decided left entries start_list in
    let right_branches = decided right entries start_list in
    let left_focus = resolve_focus_list left entries 8 start_list in
    let right_focus = resolve_focus_list right entries 8 start_list in
    let left_decisions = summarize_list_decisions left entries left_focus.focus_list in
    let right_decisions = summarize_list_decisions right entries right_focus.focus_list in
    let same_focus = left_focus.focus_list == right_focus.focus_list in
    record {
      start_list = start_list;
      left_dispatch = left_summary.guaranteed_dispatch;
      right_dispatch = right_summary.guaranteed_dispatch;
      dispatch_changed =
          not (same_name left_summary.guaranteed_dispatch right_summary.guaranteed_dispatch)
          || not (same_texts left_focus.path right_focus.path);
      decision_changes =
          decision_changes left_branches right_branches
            (sorted (map (λ d. d.0) left_branches ++ map (λ d. d.0) right_branches));
      left_focus_list = left_focus.focus_list;
      right_focus_list = right_focus.focus_list;
      focus_list_same = same_focus;
      focus_changes =
          if same_focus then focus_changes max_changes left_decisions right_decisions [] else [];
      left_focus_preview = map format_list_decision (take max_changes left_decisions);
      right_focus_preview = map format_list_decision (take max_changes right_decisions);
      left_focus_intent = summarize_intent 6 left_decisions;
      right_focus_intent = summarize_intent 6 right_decisions;
    }

-- Rows that two verdicts agree on are no change.
pub same_status_refl : (s : Status) → same_status s s ≡ true
same_status_refl guaranteed = refl
same_status_refl dead = refl
same_status_refl possible = refl
same_status_refl shadowed = refl
