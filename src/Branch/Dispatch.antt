-- ===== src/Branch/Dispatch.antt =====
-- What the parts of a branch summary hold, and which rows can be the one that a run enters.
-- packages/simc-cli/src/simc_cli/branch.py, `summarize_branches`
use warcraft_cli.Apl.{AplEntry}
use warcraft_cli.Base.{
  String, ◌≡◌, refl, sym, subst, ◌∙◌, Bool, true, false, not, Option, none, some, List, [], ◌∷◌,
  ◌++◌, append-nil, append_assoc, map, keep, arith, Bool-cases, inl, inr, if◌then◌else◌,
}
use warcraft_cli.Branch.Decisions.{Verdict, rows_of}
use warcraft_cli.Branch.Summary.{
  BranchSummary, Branch, branches_of, row_label, reasoned_label, shadow, judge, scan, stops,
  no_summary, summarize_branches,
}
use warcraft_cli.Prune.Spans.{guaranteed_false}

module _ (verdict : Verdict) where
  abbrev pub is_dead_branch : Branch → Bool
  is_dead_branch branch = guaranteed_false (verdict branch.0).0

  abbrev pub judged_label : Branch → String
  judged_label branch = reasoned_label branch (verdict branch.0).1

  -- The branches before the first that is guaranteed, that one, and those after it.
  unfoldable pub before : List Branch → List Branch
  before [] = []
  before (branch ∷ branches) =
      let rest = before branches in if stops verdict branch then [] else branch ∷ rest

  unfoldable pub first_stop : List Branch → Option Branch
  first_stop [] = none
  first_stop (branch ∷ branches) =
      let rest = first_stop branches in if stops verdict branch then some branch else rest

  unfoldable pub later : List Branch → List Branch
  later [] = []
  later (branch ∷ branches) =
      let rest = later branches in if stops verdict branch then branches else rest

  -- What the summary holds, added to what it held.
  pub record Holds (s : BranchSummary) (branches : List Branch) (t : BranchSummary) : Type 0 where
    pub dispatch :
        t.guaranteed_dispatch
        ≡ elim (first_stop branches) [ none ↦ s.guaranteed_dispatch | some b ↦ some b.1 ]
    pub dead :
        t.dead_branches
        ≡ s.dead_branches ++ map judged_label (keep is_dead_branch (before branches))
    pub unresolved :
        t.unresolved_branches
        ≡ s.unresolved_branches
          ++ map judged_label (keep (λ b. not (is_dead_branch b)) (before branches))
    pub shadowed : t.shadowed_lines ≡ s.shadowed_lines ++ map row_label (later branches)

  -- The fields that shadowing leaves alone, and the one it adds to.
  record Shadows (s : BranchSummary) (branches : List Branch) (t : BranchSummary) : Type 0 where
    dispatch : t.guaranteed_dispatch ≡ s.guaranteed_dispatch
    dead : t.dead_branches ≡ s.dead_branches
    unresolved : t.unresolved_branches ≡ s.unresolved_branches
    shadowed : t.shadowed_lines ≡ s.shadowed_lines ++ map row_label branches

  scan-Shadows :
      (branches : List Branch) (s : BranchSummary)
      → Shadows s branches (scan verdict branches true s)
  unfolding scan shadow
  scan-Shadows [] s = record {
    dispatch = refl;
    dead = refl;
    unresolved = refl;
    shadowed = sym (append-nil _);
  }
  scan-Shadows (branch ∷ branches) s =
      let ih = scan-Shadows branches (shadow verdict branch s) in
      record {
        dispatch = ih.dispatch;
        dead = ih.dead;
        unresolved = ih.unresolved;
        shadowed = ih.shadowed ∙ rw append_assoc;
      }

  -- What judging a branch adds.
  record Adds (s : BranchSummary) (dispatch : Option String) (dead unresolved : List String)
      (t : BranchSummary) : Type 0 where
    has_dispatch : t.guaranteed_dispatch ≡ dispatch
    has_dead : t.dead_branches ≡ s.dead_branches ++ dead
    has_unresolved : t.unresolved_branches ≡ s.unresolved_branches ++ unresolved
    has_shadowed : t.shadowed_lines ≡ s.shadowed_lines

  module _ (branch : Branch) (s : BranchSummary) where
    abbrev judged : BranchSummary
    judged = judge verdict branch (verdict branch.0).0 (verdict branch.0).1 s

    judged-stop : stops verdict branch ≡ true → Adds s (some branch.1) [] [] judged
    unfolding judge
    judged-stop stop = record {
      has_dispatch = ground arith;
      has_dead = ground (arith, append-nil s.dead_branches);
      has_unresolved = ground (arith, append-nil s.unresolved_branches);
      has_shadowed = ground arith;
    }

    judged-dead :
        stops verdict branch ≡ false
        → is_dead_branch branch ≡ true
        → Adds s s.guaranteed_dispatch (judged_label branch ∷ []) [] judged
    unfolding judge
    judged-dead go dead = record {
      has_dispatch = ground arith;
      has_dead = ground arith;
      has_unresolved = ground (arith, append-nil s.unresolved_branches);
      has_shadowed = ground arith;
    }

    judged-live :
        stops verdict branch ≡ false
        → is_dead_branch branch ≡ false
        → Adds s s.guaranteed_dispatch [] (judged_label branch ∷ []) judged
    unfolding judge
    judged-live go live = record {
      has_dispatch = ground arith;
      has_dead = ground (arith, append-nil s.dead_branches);
      has_unresolved = ground arith;
      has_shadowed = ground arith;
    }

  module _ (branch : Branch) (branches : List Branch) (s j t : BranchSummary) where
    stop-Holds :
        stops verdict branch ≡ true
        → Adds s (some branch.1) [] [] j
        → Shadows j branches t
        → Holds s (branch ∷ branches) t
    unfolding before first_stop later keep
    stop-Holds stop a h = record {
      dispatch = h.dispatch ∙ (a.has_dispatch ∙ ground arith);
      dead = h.dead ∙ (a.has_dead ∙ ground arith);
      unresolved = h.unresolved ∙ (a.has_unresolved ∙ ground arith);
      shadowed = ground (arith, h.shadowed, a.has_shadowed);
    }

    dead-Holds :
        stops verdict branch ≡ false
        → is_dead_branch branch ≡ true
        → Adds s s.guaranteed_dispatch (judged_label branch ∷ []) [] j
        → Holds j branches t
        → Holds s (branch ∷ branches) t
    unfolding before first_stop later keep
    dead-Holds go dead a h = record {
      dispatch = ground arith;
      dead = ground (
        arith,
        append_assoc s.dead_branches (judged_label branch ∷ [])
            (map judged_label (keep is_dead_branch (before branches))),
      );
      unresolved = ground (arith, append-nil s.unresolved_branches);
      shadowed = ground arith;
    }

    live-Holds :
        stops verdict branch ≡ false
        → is_dead_branch branch ≡ false
        → Adds s s.guaranteed_dispatch [] (judged_label branch ∷ []) j
        → Holds j branches t
        → Holds s (branch ∷ branches) t
    unfolding before first_stop later keep
    live-Holds go live a h = record {
      dispatch = ground arith;
      dead = ground (arith, append-nil s.dead_branches);
      unresolved = ground (
        arith,
        append_assoc s.unresolved_branches (judged_label branch ∷ [])
            (map judged_label (keep (λ b. not (is_dead_branch b)) (before branches))),
      );
      shadowed = ground arith;
    }

  scan-Holds :
      (branches : List Branch) (s : BranchSummary)
      → Holds s branches (scan verdict branches false s)
  unfolding scan before first_stop later keep
  scan-Holds [] s = record {
    dispatch = refl;
    dead = sym (append-nil _);
    unresolved = sym (append-nil _);
    shadowed = sym (append-nil _);
  }
  scan-Holds (branch ∷ branches) s =
      let j = judged branch s in
      let goes : (stop : Bool) → Type 0 =
        λ stop. Holds s (branch ∷ branches) (scan verdict branches stop j) in
      elim (Bool-cases (stops verdict branch)) [
        | inl stop ↦ subst goes (sym stop) (
            stop-Holds branch branches s j _ stop (judged-stop branch s stop)
              (scan-Shadows branches j))
        | inr go ↦ subst goes (sym go) (elim (Bool-cases (is_dead_branch branch)) [
          | inl dead ↦
              dead-Holds branch branches s j _ go dead (judged-dead branch s go dead)
                (scan-Holds branches j)
          | inr live ↦
              live-Holds branch branches s j _ go live (judged-live branch s go live)
                (scan-Holds branches j)
        ])
      ]

  -- The summary of a list: the guaranteed dispatch is the target of the first branch whose row always
  -- runs; the branches before it are dead or unresolved, as their verdicts say, and those after it are
  -- shadowed, each list in the order of the rows and with nothing left out.
  pub summarize_branches-Holds :
      (entries : List AplEntry) (start_list : String)
      → Holds
          (no_summary start_list)
          (branches_of (rows_of start_list entries))
          (summarize_branches verdict entries start_list)
  unfolding summarize_branches
  summarize_branches-Holds entries start_list =
      scan-Holds (branches_of (rows_of start_list entries)) (no_summary start_list)
