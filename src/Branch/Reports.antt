-- ===== src/Branch/Reports.antt =====
-- What a comparison of two verdicts reports: packages/simc-cli/src/simc_cli/branch.py
use warcraft_cli.Apl.{AplEntry}
use warcraft_cli.Base.{
  ℕ, ◌<◌, ◌≡◌, ◌≢◌, ◌↔◌, ◌∙◌, refl, sym, ap, subst, String, true, false, not, ◌||◌, Option, none,
  some, List, [], ◌∷◌, ◌++◌, ◌==◌, map, take, mem, arith, eq_iff, eq_refl, value_at, Bool-cases,
  inl, inr, if◌then◌else◌,
}
use warcraft_cli.Branch.Changes.{BranchChanges, decision_changes-BranchChanges, RowChanges}
use warcraft_cli.Branch.Compare.{
  Decided, BranchComparison, same_texts, same_name, compare_branches, focus_changes, decided,
}
use warcraft_cli.Branch.FocusRows.{Cut, focus_changes-Cut}
use warcraft_cli.Branch.Decisions.{Verdict, rows_of, list_decision, summarize_list_decisions}
use warcraft_cli.Branch.Focus.{resolve_focus_list}
use warcraft_cli.Branch.Summary.{BranchDecision, summarize_branches}
use warcraft_cli.Envelope.Order.{Ascending, sorted-Ascending}
use warcraft_cli.Envelope.Sort.{sorted, mem-sorted}

same_name_iff : (o p : Option String) → (same_name o p ≡ true) ↔ (o ≡ p)
same_name_iff none none = (λ e. refl, λ e. refl)
same_name_iff none (some t) = (λ e. absurd (ground arith), λ e. absurd (ground arith))
same_name_iff (some s) none = (λ e. absurd (ground arith), λ e. absurd (ground arith))
same_name_iff (some s) (some t) =
    (λ e. ap some ((eq_iff s t).0 e), λ e. (eq_iff s t).1 (ground arith))

same_texts_iff : (ss ts : List String) → (same_texts ss ts ≡ true) ↔ (ss ≡ ts)
same_texts_iff [] [] = (λ e. refl, λ e. refl)
same_texts_iff [] (t ∷ ts) = (λ e. absurd (ground arith), λ e. absurd (ground arith))
same_texts_iff (s ∷ ss) [] = (λ e. absurd (ground arith), λ e. absurd (ground arith))
same_texts_iff (s ∷ ss) (t ∷ ts) = (
  λ e. ground (arith, eq_iff s t, same_texts_iff ss ts),
  λ e. ground (arith, eq_iff s t, same_texts_iff ss ts),
)

eq_iff_of : (s t : String) → ((s == t) ≡ true) ↔ (s ≡ t)
eq_iff_of s t = ((eq_iff s t).0, (eq_iff s t).1)

value_at-none : (t : String) (d : Decided) → mem t (map (λ b. b.0) d) ≡ false → value_at t d ≡ none
unfolding value_at mem
value_at-none t [] h = refl
value_at-none t ((k, b) ∷ d) h = ground (arith, value_at-none t d)

mem-append : (t : String) (ss ts : List String) → mem t (ss ++ ts) ≡ (mem t ss || mem t ts)
unfolding mem
mem-append t [] ts = refl
mem-append t (s ∷ ss) ts = ground (arith, mem-append t ss ts)

unmoved :
    (o p : Option String) (ss ts : List String)
    → ((not (same_name o p) || not (same_texts ss ts)) ≡ false) ↔ ((o ≡ p) × (ss ≡ ts))
unmoved o p ss ts = (
  λ e. ((same_name_iff o p).0 (ground arith), (same_texts_iff ss ts).0 (ground arith)),
  λ (a, b). ground (arith, (same_name_iff o p).1 a, (same_texts_iff ss ts).1 b),
)

module _ (left right : Verdict) (entries : List AplEntry) (start_list : String) (n : ℕ) where
  -- What the two sides decide of a branch that the start list calls.
  abbrev pub on_left : String → Option BranchDecision
  on_left t = value_at t (decided left entries start_list)

  abbrev pub on_right : String → Option BranchDecision
  on_right t = value_at t (decided right entries start_list)

  abbrev pub left_focus : String
  left_focus = (resolve_focus_list left entries 8 start_list).focus_list

  abbrev pub right_focus : String
  right_focus = (resolve_focus_list right entries 8 start_list).focus_list

  pub record Reports (c : BranchComparison) : Type 0 where
    pub dispatch : (c.dispatch_changed ≡ false) ↔ (
        ((summarize_branches left entries start_list).guaranteed_dispatch
          ≡ (summarize_branches right entries start_list).guaranteed_dispatch)
        × ((resolve_focus_list left entries 8 start_list).path
            ≡ (resolve_focus_list right entries 8 start_list).path))
    pub targets : List String
    pub ordered : Ascending targets
    pub known : (t : String) → mem t targets ≡ false → (on_left t ≡ none) × (on_right t ≡ none)
    pub decisions :
        BranchChanges
          (decided left entries start_list)
          (decided right entries start_list)
          targets
          c.decision_changes
    pub same_focus : (c.focus_list_same ≡ true) ↔ (left_focus ≡ right_focus)
    pub rows :
        left_focus ≡ right_focus
        → (lines : List String) × RowChanges
            (summarize_list_decisions left entries left_focus)
            (summarize_list_decisions right entries right_focus)
            lines
          × (c.focus_changes ≡ take n lines)
    pub no_rows : left_focus ≢ right_focus → c.focus_changes ≡ []

  focus_rows :
      0 < n
      → (name : String)
      → Cut n
          (summarize_list_decisions left entries name)
          (summarize_list_decisions right entries name)
          []
  unfolding summarize_list_decisions
  focus_rows h name =
      focus_changes-Cut (list_decision left name) (list_decision right name) n
        (rows_of name entries) [] (omega arith)

  -- The reported rows, for the two focus lists.
  abbrev reported : String → String → List String
  reported l r =
      if l == r
      then focus_changes n (summarize_list_decisions left entries l)
          (summarize_list_decisions right entries r) []
      else []

  abbrev RowsOf : String → String → Type 0
  RowsOf l r =
      (lines : List String) × RowChanges (summarize_list_decisions left entries l)
        (summarize_list_decisions right entries r) lines
      × (reported l r ≡ take n lines)

  same_rows : 0 < n → (l r : String) → l ≡ r → RowsOf l r
  same_rows h l r e =
      let (lines, changes, is) = focus_rows h l in
      subst (RowsOf l) e (lines, changes, rw (eq_refl l) is)

  other_rows : (l r : String) → l ≢ r → reported l r ≡ []
  other_rows l r h = elim (Bool-cases (l == r)) [
    | inl e ↦ absurd (h ((eq_iff l r).0 e))
    | inr e ↦ rw e refl
  ]

-- Under a limit that is not zero: the dispatch is unchanged exactly when both verdicts hand over to the
-- same list, on the same path. Each branch that either of them calls or enters is examined once, in the
-- order of the names, and exactly the ones that they do not decide alike, two dead ones being alike, are
-- reported, each by its line. The rows of a focus list that both have are compared pair by pair: the
-- reports are the first lines, up to the limit, of the rows that differ; where the focus lists differ
-- there are none.
pub compare_branches-Reports :
    (left right : Verdict) (entries : List AplEntry) (start_list : String) (n : ℕ)
    → 0 < n
    → Reports left right entries start_list n (compare_branches left right entries start_list n)
unfolding compare_branches
compare_branches-Reports left right entries start_list n h =
    let l = resolve_focus_list left entries 8 start_list in
    let r = resolve_focus_list right entries 8 start_list in
    let dl = decided left entries start_list in
    let dr = decided right entries start_list in
    let ts = sorted (map (λ d. d.0) dl ++ map (λ d. d.0) dr) in
    record {
      dispatch =
          unmoved (summarize_branches left entries start_list).guaranteed_dispatch
            (summarize_branches right entries start_list).guaranteed_dispatch l.path r.path;
      targets = ts;
      ordered = sorted-Ascending (map (λ d. d.0) dl ++ map (λ d. d.0) dr);
      known = λ t e.
          let out : (mem t (map (λ d. d.0) dl) || mem t (map (λ d. d.0) dr)) ≡ false =
            sym (mem-append t (map (λ d. d.0) dl) (map (λ d. d.0) dr))
            ∙ sym (mem-sorted t (map (λ d. d.0) dl ++ map (λ d. d.0) dr))
            ∙ e in
          (value_at-none t dl (ground arith), value_at-none t dr (ground arith));
      decisions = decision_changes-BranchChanges dl dr ts;
      same_focus = eq_iff_of l.focus_list r.focus_list;
      rows = same_rows left right entries start_list n h l.focus_list r.focus_list;
      no_rows = other_rows left right entries start_list n l.focus_list r.focus_list;
    }
