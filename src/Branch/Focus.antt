-- ===== src/Branch/Focus.antt =====
-- `resolve_focus_list`: the list that holds the rotation.
-- packages/simc-cli/src/simc_cli/branch.py
use warcraft_cli.Apl.{AplEntry}
use warcraft_cli.Base.{
  ℕ, zero, suc, String, not, ◌&&◌, ◌||◌, Option, none, some, List, [], ◌∷◌, ◌++◌, ◌==◌, keep,
  length, ltb, mem, if◌then◌else◌,
}
use warcraft_cli.Branch.Decisions.{
  Verdict, ListDecision, target_of, has_target, is_dead, is_guaranteed, summarize_list_decisions,
  is_helper_decision,
}
use warcraft_cli.Branch.Names.{utility_actions}
use warcraft_cli.Branch.Summary.{summarize_branches}

pub record FocusResolution : Type 0 where
  pub start_list : String
  pub focus_list : String
  pub path : List String
  pub reason : String

module _ (verdict : Verdict) (entries : List AplEntry) where
  abbrev pub live_decisions : String → List ListDecision
  live_decisions list_name =
      keep (λ d. not (is_dead d.status)) (summarize_list_decisions verdict entries list_name)

  -- The rest of `_single_call_target`, from the one dispatch and the list's live decisions.
  unfoldable pub call_target : List ListDecision → Option String → ListDecision → Option String
  unfolding keep mem
  call_target decisions none dispatch = none
  call_target decisions (some target) dispatch =
      let own =
        keep (λ d. not (has_target d.target_list) && not (mem d.action_name utility_actions))
          decisions in
      if not (dispatch.action_name == "call_action_list") || not (is_guaranteed dispatch.status)
      then none
      else if ltb (length own) (length (live_decisions target))
      then some target
      else none

  unfoldable pub single_dispatch : List ListDecision → List ListDecision → Option String
  single_dispatch decisions (dispatch ∷ []) =
      call_target decisions (target_of dispatch.target_list) dispatch
  single_dispatch decisions _ = none

  -- `_single_call_target`
  unfoldable pub single_call_target : String → Option String
  unfolding single_dispatch call_target keep is_helper_decision
  single_call_target list_name =
      let decisions = live_decisions list_name in
      single_dispatch decisions
        (keep (λ d. has_target d.target_list && not (is_helper_decision d)) decisions)

  -- A list that was not seen, and that is named.
  abbrev pub unseen_list : List String → Option String → Option String
  unseen_list seen none = none
  unseen_list seen (some target) = if (target == "") || mem target seen then none else some target

  -- Where a round of the loop goes, and why.
  unfoldable pub next_list : String → List String → Option (String × String)
  unfolding mem summarize_branches single_call_target
  next_list current seen =
      elim (unseen_list seen (summarize_branches verdict entries current).guaranteed_dispatch) [
        | some target ↦ some (target, "guaranteed_run_dispatch")
        | none ↦ elim (unseen_list seen (single_call_target current)) [
          | some target ↦ some (target, "guaranteed_call_leaf")
          | none ↦ none
        ]
      ]

  unfoldable pub focus : String → ℕ → String → List String → List String → String → FocusResolution
  unfolding next_list
  focus start zero current path seen reason = record {
    start_list = start;
    focus_list = current;
    path = path;
    reason = reason;
  }
  focus start (suc rounds) current path seen reason = elim (next_list current seen) [
    | none ↦ record { start_list = start; focus_list = current; path = path; reason = reason }
    | some (target, why) ↦ focus start rounds target (path ++ target ∷ []) (target ∷ seen) why
  ]

  unfoldable pub resolve_focus_list : ℕ → String → FocusResolution
  unfolding focus
  resolve_focus_list max_depth start_list =
      focus start_list max_depth start_list (start_list ∷ []) (start_list ∷ []) "start_list"
