-- ===== src/Branch/Entered.antt =====
-- Which list a run enters, and what the summary says of it.
-- packages/simc-cli/src/simc_cli/branch.py, `summarize_branches`
use warcraft_cli.Apl.{AplEntry}
use warcraft_cli.Base.{
  String, ◌≡◌, refl, Bool, true, false, not, Option, none, some, List, [], ◌∷◌, ap, ◌∙◌, map, keep,
  mem, eq_refl, ◌||◌, ◌⊎◌, arith, Bool-cases, inl, inr, if◌then◌else◌,
}
use warcraft_cli.Branch.Decisions.{Verdict, rows_of}
use warcraft_cli.Branch.Dispatch.{
  is_dead_branch, judged_label, before, first_stop, Holds, summarize_branches-Holds,
}
use warcraft_cli.Branch.Summary.{
  BranchSummary, Branch, branches_of, summarize_branches, stops, no_summary,
}
use warcraft_cli.Prune.Spans.{guaranteed_true, guaranteed_false}

-- The branch that a run enters: the first whose row runs.
unfoldable pub entered : (AplEntry → Bool) → List Branch → Option Branch
entered runs [] = none
entered runs (branch ∷ branches) =
    let rest = entered runs branches in if runs branch.0 then some branch else rest

module _ (verdict : Verdict) where
  -- The rows that run, at a moment of a run: none that is dead, and every one that is guaranteed.
  pub record Agrees (runs : AplEntry → Bool) : Type 0 where
    pub never : (entry : AplEntry) → guaranteed_false (verdict entry).0 ≡ true → runs entry ≡ false
    pub always : (entry : AplEntry) → guaranteed_true (verdict entry).0 ≡ true → runs entry ≡ true

  abbrev live : List Branch → List Branch
  live branches = keep (λ b. not (is_dead_branch verdict b)) branches

  -- What the rows say of the branch that is entered: the dispatch, or one before it that is left open.
  abbrev Open : List Branch → Option Branch → Type 0
  Open branches none = first_stop verdict branches ≡ none
  Open branches (some b) =
      (first_stop verdict branches ≡ some b)
      ⊎ (mem (judged_label verdict b) (map (judged_label verdict) (live (before verdict branches)))
          ≡ true)

  or_true : (b : Bool) → (b || true) ≡ true
  or_true true = refl
  or_true false = refl

  -- A row that does not stop the scan and is not entered changes nothing for those after it.
  Open-skip :
      (b : Branch) (bs : List Branch) (o : Option Branch)
      → stops verdict b ≡ false
      → Open bs o
      → Open (b ∷ bs) o
  unfolding first_stop before mem keep
  Open-skip b bs none h k = rw h k
  Open-skip b bs (some c) h (inl first) = rw h (inl first)
  Open-skip b bs (some c) h (inr left) = elim (Bool-cases (is_dead_branch verdict b)) [
    | inl dead ↦ rw (h, dead) (inr left)
    | inr live ↦ rw (h, live) (inr (rw (left, or_true _) refl))
  ]

  abbrev target_name : Option Branch → Option String
  target_name o = elim o [ none ↦ none | some b ↦ some b.1 ]

  -- What the summary says of a run from the list: the list that is entered is the guaranteed dispatch or
  -- one of the unresolved branches, and where none is entered there is no guaranteed dispatch.
  abbrev pub Foretold : BranchSummary → Option Branch → Type 0
  Foretold s none = s.guaranteed_dispatch ≡ none
  Foretold s (some b) =
      (s.guaranteed_dispatch ≡ some b.1)
      ⊎ (mem (judged_label verdict b) s.unresolved_branches ≡ true)

  Foretold-Holds :
      (start_list : String) (branches : List Branch) (s : BranchSummary) (o : Option Branch)
      → Holds verdict (no_summary start_list) branches s
      → Open branches o
      → Foretold s o
  Foretold-Holds start_list branches s none holds k = holds.dispatch ∙ ap target_name k
  Foretold-Holds start_list branches s (some b) holds (inl first) =
      inl (holds.dispatch ∙ ap target_name first)
  Foretold-Holds start_list branches s (some b) holds (inr left) = inr (rw (holds.unresolved) left)

  module _ (runs : AplEntry → Bool) (agrees : Agrees runs) where
    entered-Open : (branches : List Branch) → Open branches (entered runs branches)
    unfolding entered first_stop before mem keep
    entered-Open [] = refl
    entered-Open (b ∷ bs) = elim (Bool-cases (stops verdict b)) [
      | inl stop ↦ rw (agrees.always b.0 stop, stop) (inl refl)
      | inr goes ↦ elim (Bool-cases (runs b.0)) [
        | inr not_run ↦ rw not_run (Open-skip b bs (entered runs bs) goes (entered-Open bs))
        | inl run ↦ elim (Bool-cases (is_dead_branch verdict b)) [
          | inl dead ↦ absurd (ground (arith, agrees.never b.0 dead))
          | inr live ↦ rw (run, goes, live) (inr (rw (eq_refl (judged_label verdict b)) refl))
        ]
      ]
    ]

    -- At a moment at which no dead row runs and every guaranteed row does, the branch that a run enters is
    -- the summary's guaranteed dispatch or one of its unresolved branches; where none is entered, the
    -- summary has no guaranteed dispatch.
    pub summarize_branches-Foretold :
        (entries : List AplEntry) (start_list : String)
        → Foretold
            (summarize_branches verdict entries start_list)
            (entered runs (branches_of (rows_of start_list entries)))
    summarize_branches-Foretold entries start_list =
        let branches = branches_of (rows_of start_list entries) in
        Foretold-Holds start_list branches (summarize_branches verdict entries start_list)
          (entered runs branches) (summarize_branches-Holds verdict entries start_list)
          (entered-Open branches)
