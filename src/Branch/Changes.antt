-- ===== src/Branch/Changes.antt =====
-- When a branch or a row of two verdicts is a change, and the line that reports it.
-- packages/simc-cli/src/simc_cli/branch.py, the tests in `compare_branches`
use warcraft_cli.Base.{
  String, ◌≡◌, ◌⊎◌, ◌∙◌, refl, sym, ap, Bool, true, false, not, ◌&&◌, ◌||◌, Option, none, some,
  List, [], ◌∷◌, ◌==◌, arith, cat, decimal, eq_iff, Bool-cases, inl, inr, value_at,
}
use warcraft_cli.Branch.Compare.{
  Decided, same_status, decision_change, decision_changes, row_change, same_status_refl,
}
use warcraft_cli.Branch.Decisions.{
  Status, guaranteed, dead, possible, shadowed, status_text, is_dead, ListDecision,
}
use warcraft_cli.Branch.Summary.{BranchDecision}

same_status-eq : (s t : Status) → same_status s t ≡ true → s ≡ t
same_status-eq guaranteed guaranteed e = refl
same_status-eq guaranteed dead e = absurd (ground arith)
same_status-eq guaranteed possible e = absurd (ground arith)
same_status-eq guaranteed shadowed e = absurd (ground arith)
same_status-eq dead guaranteed e = absurd (ground arith)
same_status-eq dead dead e = refl
same_status-eq dead possible e = absurd (ground arith)
same_status-eq dead shadowed e = absurd (ground arith)
same_status-eq possible guaranteed e = absurd (ground arith)
same_status-eq possible dead e = absurd (ground arith)
same_status-eq possible possible e = refl
same_status-eq possible shadowed e = absurd (ground arith)
same_status-eq shadowed guaranteed e = absurd (ground arith)
same_status-eq shadowed dead e = absurd (ground arith)
same_status-eq shadowed possible e = absurd (ground arith)
same_status-eq shadowed shadowed e = refl

same_status-of : (s t : Status) → s ≡ t → same_status s t ≡ true
same_status-of s t e = ap (same_status s) (sym e) ∙ same_status_refl s

is_dead-eq : (s : Status) → is_dead s ≡ true → s ≡ dead
is_dead-eq guaranteed e = absurd (ground arith)
is_dead-eq dead e = refl
is_dead-eq possible e = absurd (ground arith)
is_dead-eq shadowed e = absurd (ground arith)

-- A text put together of pieces.
abbrev pub pieces : List String → String
pieces [] = ""
pieces (s ∷ []) = s
pieces (s ∷ t ∷ ts) = cat s (pieces (t ∷ ts))

-- The two sides say the same of a branch: neither has it, or both find it dead, or both have it with one
-- status and one reason.
abbrev pub Alike : Option BranchDecision → Option BranchDecision → Type 0
Alike none none = Unit
Alike (some l) (some r) =
    ((l.status ≡ dead) × (r.status ≡ dead)) ⊎ ((l.status ≡ r.status) × (l.reason ≡ r.reason))
Alike _ _ = ⊥

-- The line for a branch that one side has, or that the sides decide differently.
abbrev pub branch_line : String → Option BranchDecision → Option BranchDecision → String
branch_line t none none = ""
branch_line t (some l) none = pieces (t ∷ ": only in left (" ∷ status_text l.status ∷ ")" ∷ [])
branch_line t none (some r) = pieces (t ∷ ": only in right (" ∷ status_text r.status ∷ ")" ∷ [])
branch_line t (some l) (some r) = pieces (
    t
    ∷ ": "
    ∷ status_text l.status
    ∷ " -> "
    ∷ status_text r.status
    ∷ " | left="
    ∷ l.reason
    ∷ " | right="
    ∷ r.reason
    ∷ [])

-- Of the targets, each that is not alike has its line, in their order.
pub data BranchChanges (left right : Decided) : List String → List String → Type 0 where
  done : BranchChanges left right [] []
  same :
      {t : String} {ts lines : List String}
      → Alike (value_at t left) (value_at t right)
      → BranchChanges left right ts lines
      → BranchChanges left right (t ∷ ts) lines
  changed :
      {t : String} {ts lines : List String}
      → ¬ Alike (value_at t left) (value_at t right)
      → BranchChanges left right ts lines
      → BranchChanges left right
          (t ∷ ts)
          (branch_line t (value_at t left) (value_at t right) ∷ lines)

abbrev is_change : BranchDecision → BranchDecision → Bool
is_change l r =
    not (is_dead l.status && is_dead r.status)
    && (not (same_status l.status r.status) || not (l.reason == r.reason))

unchanged-Alike : (l r : BranchDecision) → is_change l r ≡ false → Alike (some l) (some r)
unchanged-Alike l r e = elim (Bool-cases (is_dead l.status && is_dead r.status)) [
  | inl both ↦ inl (is_dead-eq l.status (ground arith), is_dead-eq r.status (ground arith))
  | inr other ↦
      inr (
        same_status-eq l.status r.status (ground arith),
        (eq_iff l.reason r.reason).0 (ground arith),
      )
]

changed-Alike : (l r : BranchDecision) → is_change l r ≡ true → ¬ Alike (some l) (some r)
changed-Alike l r e (inl (a, b)) = ground (arith, ap is_dead a, ap is_dead b)
changed-Alike l r e (inr (a, b)) =
    ground (arith, same_status-of l.status r.status a, (eq_iff l.reason r.reason).1 b)

abbrev Reported : String → Option BranchDecision → Option BranchDecision → Type 0
Reported t l r =
    (Alike l r × (decision_change t l r ≡ []))
    ⊎ ((¬ Alike l r) × (decision_change t l r ≡ branch_line t l r ∷ []))

decision_change-Reported : (t : String) (l r : Option BranchDecision) → Reported t l r
unfolding decision_change
decision_change-Reported t none none = inl (tt, refl)
decision_change-Reported t (some l) none = inr (λ h. h, refl)
decision_change-Reported t none (some r) = inr (λ h. h, refl)
decision_change-Reported t (some l) (some r) = elim (Bool-cases (is_change l r)) [
  | inl e ↦ inr (changed-Alike l r e, rw e refl)
  | inr e ↦ inl (unchanged-Alike l r e, rw e refl)
]

pub decision_changes-BranchChanges :
    (left right : Decided) (ts : List String)
    → BranchChanges left right ts (decision_changes left right ts)
unfolding decision_changes
decision_changes-BranchChanges left right [] = done
decision_changes-BranchChanges left right (t ∷ ts) =
    elim (decision_change-Reported t (value_at t left) (value_at t right)) [
      | inl (alike, e) ↦ rw e (same alike (decision_changes-BranchChanges left right ts))
      | inr (other, e) ↦ rw e (changed other (decision_changes-BranchChanges left right ts))
    ]

-- The two sides decide a row alike.
abbrev pub SameRow : ListDecision → ListDecision → Type 0
SameRow l r = (l.status ≡ r.status) × (l.reason ≡ r.reason)

abbrev pub row_line : ListDecision → ListDecision → String
row_line l r = pieces (
    "L"
    ∷ decimal l.line_no
    ∷ " "
    ∷ l.action_label
    ∷ ": "
    ∷ status_text l.status
    ∷ " -> "
    ∷ status_text r.status
    ∷ " | left="
    ∷ l.reason
    ∷ " | right="
    ∷ r.reason
    ∷ [])

-- Of the rows of the two sides, as many on each, those that are decided differently have their line.
pub data RowChanges : List ListDecision → List ListDecision → List String → Type 0 where
  done : RowChanges [] [] []
  same :
      {l r : ListDecision} {ls rs : List ListDecision} {lines : List String}
      → SameRow l r
      → RowChanges ls rs lines
      → RowChanges (l ∷ ls) (r ∷ rs) lines
  changed :
      {l r : ListDecision} {ls rs : List ListDecision} {lines : List String}
      → ¬ SameRow l r
      → RowChanges ls rs lines
      → RowChanges (l ∷ ls) (r ∷ rs) (row_line l r ∷ lines)

pub row_change-cases :
    (l r : ListDecision)
    → (SameRow l r × (row_change l r ≡ []))
      ⊎ ((¬ SameRow l r) × (row_change l r ≡ row_line l r ∷ []))
unfolding row_change
row_change-cases l r =
    elim (Bool-cases (not (same_status l.status r.status) || not (l.reason == r.reason))) [
      | inl e ↦ inr (
        λ (a, b).
            ground (arith, same_status-of l.status r.status a, (eq_iff l.reason r.reason).1 b),
        rw e refl,
      )
      | inr e ↦ inl (
        (
          same_status-eq l.status r.status (ground arith),
          (eq_iff l.reason r.reason).0 (ground arith),
        ),
        rw e refl,
      )
    ]
