-- ===== src/Prune/Rows.antt =====
-- What a row's verdict means for a run of the build.
-- packages/simc-cli/src/simc_cli/prune.py, `entry_verdict`
use warcraft_cli.Apl.{AplEntry}
use warcraft_cli.Base.{
  ℕ, String, ◌≡◌, ◌⊎◌, refl, subst, Bool, true, false, Option, none, some, ◌==◌, mem, arith,
  Bool-cases, inl, inr,
}
use warcraft_cli.Prune.Build.{PruneContext}
use warcraft_cli.Prune.Facts.{Describes}
use warcraft_cli.Prune.Floats.{Floats, FloatLaws}
use warcraft_cli.Prune.Parser.{evaluate}
use warcraft_cli.Prune.Sound.{values, evaluate_condition_outcome-Covers}
use warcraft_cli.Prune.Spans.{guaranteed_true, guaranteed_false}
use warcraft_cli.Prune.Values.{Moment, is_true}
use warcraft_cli.Prune.Verdict.{entry_verdict, condition_verdict, evaluate_condition_outcome}

module _ (n : Floats) (w : FloatLaws n) (is_decimal : ℕ → Bool) (c : PruneContext) where
  -- At every moment of a run of the build at which the condition is read in full, it has the truth value.
  abbrev pub Always : Bool → String → Type 0
  Always b condition =
      (rank : String → ℕ) (m : Moment n)
      → Describes n is_decimal c rank m
      → (x : n.Float) → evaluate (values n m) is_decimal condition ≡ some x
      → is_true n x ≡ b

  -- The row's action is a talent that the build did not take, or its condition is never true.
  abbrev pub NeverRuns : AplEntry → Type 0
  NeverRuns entry =
      (mem entry.action c.untaken_talents ≡ true)
      ⊎ ((condition : String) × (entry.condition ≡ some condition) × Always false condition)

  -- The row's action is there, and its condition, if it has one, is always true.
  abbrev pub Runs : AplEntry → Type 0
  Runs entry =
      (mem entry.action c.untaken_talents ≡ false)
      × ((condition : String)
          → entry.condition ≡ some condition
          → (condition == "") ≡ false
          → Always true condition)

  outcome_false :
      (condition : String)
      → guaranteed_false (evaluate_condition_outcome n is_decimal c condition) ≡ true
      → Always false condition
  outcome_false condition h rank m describes x e =
      ground (
        arith,
        (evaluate_condition_outcome-Covers n w is_decimal c rank m describes condition).0 x e,
      )

  outcome_true :
      (condition : String)
      → guaranteed_true (evaluate_condition_outcome n is_decimal c condition) ≡ true
      → Always true condition
  outcome_true condition h rank m describes x e =
      ground (
        arith,
        (evaluate_condition_outcome-Covers n w is_decimal c rank m describes condition).0 x e,
      )

  condition_verdict-false :
      (o : Option String)
      → guaranteed_false (condition_verdict n is_decimal c o).0 ≡ true
      → (condition : String) × (o ≡ some condition) × Always false condition
  condition_verdict-false none h = absurd (ground arith)
  condition_verdict-false (some condition) h = elim (Bool-cases (condition == "")) [
    | inl empty ↦ absurd (ground arith)
    | inr full ↦ (condition, refl, outcome_false condition (ground arith))
  ]

  condition_verdict-true :
      (condition : String)
      → (condition == "") ≡ false
      → guaranteed_true (condition_verdict n is_decimal c (some condition)).0 ≡ true
      → Always true condition
  condition_verdict-true condition full h = outcome_true condition (ground arith)

  -- A row that is dead for a build never runs in it, and one that is guaranteed is never held back by its
  -- condition: at no moment of a run, whatever the identifiers and operators left to runtime give.
  pub entry_verdict_lem :
      (entry : AplEntry)
      → (guaranteed_false (entry_verdict n is_decimal c entry).0 ≡ true → NeverRuns entry)
        × (guaranteed_true (entry_verdict n is_decimal c entry).0 ≡ true → Runs entry)
  unfolding entry_verdict
  entry_verdict_lem entry = elim (Bool-cases (mem entry.action c.untaken_talents)) [
    | inl untaken ↦ (λ h. inl untaken, λ h. absurd (ground arith))
    | inr taken ↦ (
      λ h. inr (condition_verdict-false entry.condition (ground arith)),
      λ h. (
        taken,
        λ condition e full. condition_verdict-true condition full (
            subst (λ o. guaranteed_true (condition_verdict n is_decimal c o).0 ≡ true) e
              (ground arith)),
      ),
    )
  ]
