-- ===== src/Prune/Sound.antt =====
-- A verdict holds whatever happens at runtime: the ranges hold the values of every moment of the build.
-- packages/simc-cli/src/simc_cli/prune.py
use warcraft_cli.Base.{
  ℕ, String, ◌≡◌, refl, subst, sym, Bool, true, Option, none, some, List, [], ◌∷◌, ◌==◌, split,
  eq_iff, arith, Bool-cases, inl, inr, if◌then◌else◌, ap, ◌∙◌,
}
use warcraft_cli.Prune.Build.{
  PruneContext, tree_of, talent_rank, talent_value, eval_parts, eval_atom, targets_span,
}
use warcraft_cli.Prune.Facts.{
  Describes, of_ℕ-Within, enabled-Within, disabled-Within, tree_value-Within, talent_rank-Within,
}
use warcraft_cli.Prune.Floats.{Floats, FloatLaws}
use warcraft_cli.Prune.Parser.{Domain, evaluate}
use warcraft_cli.Prune.Related.{Related, OptionRelated, evaluate-related}
use warcraft_cli.Prune.Spans.{any_value, Span, outcome}
use warcraft_cli.Prune.Values.{
  Moment, is_true, not_value, compare_value, logic_value, arithmetic_value, Within, Covers,
  outcome-Covers, not_span-Within, negated_span-Within, any_value-Within, logic_span-Within,
  compare_span-Within, arithmetic_span-Within,
}
use warcraft_cli.Prune.Verdict.{spans, proven, unproven, evaluate_condition_outcome}

-- The domain of a moment's values: what the condition computes to.
abbrev pub values : (n : Floats) → Moment n → Domain n.Float
values n m = record {
  number = n.of_text;
  atom = m.atom;
  negation = λ x. not_value n x;
  negated = n.negate;
  absolute = m.absolute;
  rounded = m.rounded;
  logic = λ x op y. logic_value n x op y;
  comparison = λ x op y. compare_value n m x op y;
  arithmetic = λ x op y. arithmetic_value n m x op y;
}

module _ (n : Floats) (w : FloatLaws n) (is_decimal : ℕ → Bool) (c : PruneContext)
    (rank : String → ℕ) (m : Moment n) (describes : Describes n is_decimal c rank m) where
  talent_value-Within :
      (a name suffix : String)
      → split b'.' a ≡ "talent" ∷ name ∷ suffix ∷ []
      → Within n (talent_value n is_decimal (talent_rank n is_decimal name c) suffix) (m.atom a)
  unfolding talent_value
  talent_value-Within a name suffix e =
      let r =
        talent_rank-Within n w is_decimal c name (rank name)
          (λ known. describes.ranks known name) in
      let at = λ (text : String) (same : (suffix == text) ≡ true).
        e ∙ ap (λ s. "talent" ∷ name ∷ s ∷ []) ((eq_iff suffix text).0 same) in
      elim (Bool-cases (suffix == "rank")) [
        | inl asks ↦ rw asks (rw (describes.talent_rank a name (at "rank" asks)) r)
        | inr other ↦ elim (Bool-cases (suffix == "enabled")) [
          | inl asks ↦
              rw (other, asks)
                (rw (describes.talent_enabled a name (at "enabled" asks))
                  (enabled-Within n w is_decimal c (talent_rank n is_decimal name c) (rank name) r))
          | inr another ↦ elim (Bool-cases (suffix == "disabled")) [
            | inl asks ↦
                rw (other, another, asks)
                  (rw (describes.talent_disabled a name (at "disabled" asks)) (
                    disabled-Within n w is_decimal c (talent_rank n is_decimal name c) (rank name)
                      r))
            | inr unread ↦ rw (other, another, unread) (any_value-Within n w (m.atom a))
          ]
        ]
      ]

  bare_talent-Within :
      (a name : String)
      → split b'.' a ≡ "talent" ∷ name ∷ []
      → Within n (talent_value n is_decimal (talent_rank n is_decimal name c) "enabled") (m.atom a)
  unfolding talent_value
  bare_talent-Within a name e = rw (describes.talent a name e) (
      enabled-Within n w is_decimal c (talent_rank n is_decimal name c) (rank name) (
        talent_rank-Within n w is_decimal c name (rank name) (λ known. describes.ranks known name)))

  enemies-Within :
      (a : String)
      → Within n
          (if a == "active_enemies" then targets_span n is_decimal c else any_value n)
          (m.atom a)
  enemies-Within a = elim (Bool-cases (a == "active_enemies")) [
    | inl here ↦ rw here (
        subst (λ x. Within n (targets_span n is_decimal c) (m.atom x))
          (sym ((eq_iff a "active_enemies").0 here))
          (rw describes.active_enemies (of_ℕ-Within n w is_decimal c c.targets)))
    | inr other ↦ rw other (any_value-Within n w (m.atom a))
  ]

  eval_parts-Within :
      (a : String) (parts : List String)
      → split b'.' a ≡ parts
      → Within n (eval_parts n is_decimal c a parts) (m.atom a)
  unfolding eval_parts
  eval_parts-Within a [] e = enemies-Within a
  eval_parts-Within a (head ∷ []) e = enemies-Within a
  eval_parts-Within a (head ∷ name ∷ []) e =
      let at = λ (text : String) (same : (head == text) ≡ true).
        e ∙ ap (λ s. s ∷ name ∷ []) ((eq_iff head text).0 same) in
      elim (Bool-cases (head == "talent")) [
        | inl talent ↦ rw talent (bare_talent-Within a name (at "talent" talent))
        | inr other ↦ elim (Bool-cases (head == "hero_tree")) [
          | inl tree ↦
              rw (other, tree)
                (tree_value-Within n w is_decimal c (tree_of c.hero_tree) name (m.atom a)
                  (λ t known. describes.hero_tree a name t (at "hero_tree" tree) known))
          | inr another ↦ elim (Bool-cases (head == "spell_targets")) [
            | inl targets ↦
                rw (other, another, targets)
                  (rw (describes.spell_targets a name (at "spell_targets" targets))
                    (of_ℕ-Within n w is_decimal c c.targets))
            | inr unread ↦ rw (other, another, unread) (any_value-Within n w (m.atom a))
          ]
        ]
      ]
  eval_parts-Within a (head ∷ name ∷ suffix ∷ []) e = elim (Bool-cases (head == "talent")) [
    | inl talent ↦ rw talent (
        talent_value-Within a name suffix
          (e ∙ ap (λ s. s ∷ name ∷ suffix ∷ []) ((eq_iff head "talent").0 talent)))
    | inr other ↦ rw other (any_value-Within n w (m.atom a))
  ]
  eval_parts-Within a (head ∷ name ∷ suffix ∷ more ∷ rest) e = enemies-Within a

  eval_atom-Within : (a : String) → Within n (eval_atom n is_decimal a c) (m.atom a)
  unfolding eval_atom
  eval_atom-Within a = eval_parts-Within a (split b'.' a) refl

  spans-Related : Related (Within n) (spans n is_decimal c) (values n m)
  spans-Related = record {
    number = λ t. (w.leq_refl (n.of_text t), w.leq_refl (n.of_text t));
    atom = eval_atom-Within;
    negation = λ s x h. not_span-Within n w s x h;
    negated = λ s x h. negated_span-Within n w s x h;
    absolute = λ s x h. any_value-Within n w (m.absolute x);
    rounded = λ t s x h. any_value-Within n w (m.rounded t x);
    logic = λ op a b x y h k. logic_span-Within n w a b op x y h k;
    comparison = λ op a b x y h k. compare_span-Within n w m a b op x y h k;
    arithmetic = λ op a b x y h k. arithmetic_span-Within n w a b x y h k m op;
  }

  proven-Covers :
      (o : Option (Span n)) (p : Option n.Float)
      → OptionRelated (Within n) o p
      → ((x : n.Float) → p ≡ some x → Covers n (proven n is_decimal c o) (is_true n x))
        × (p ≡ none → proven n is_decimal c o ≡ unproven)
  unfolding OptionRelated
  proven-Covers none none h = (λ x e. absurd (ground arith), λ e. refl)
  proven-Covers none (some x) h = absurd h
  proven-Covers (some s) none h = absurd h
  proven-Covers (some s) (some x) h = (
    λ y e.
        subst (λ o. elim o [ none ↦ Unit | some z ↦ Covers n (outcome n s) (is_true n z) ]) e
          (outcome-Covers n w s x h),
    λ e. absurd (ground arith),
  )

  -- The outcome of a condition allows the truth value that the condition has at every moment of a run
  -- of the build, whatever the identifiers and operators left to runtime give; a condition that cannot
  -- be read in full is unproven.
  pub evaluate_condition_outcome-Covers :
      (condition : String)
      → ((x : n.Float)
          → evaluate (values n m) is_decimal condition ≡ some x
          → Covers n (evaluate_condition_outcome n is_decimal c condition) (is_true n x))
        × (evaluate (values n m) is_decimal condition ≡ none
            → evaluate_condition_outcome n is_decimal c condition ≡ unproven)
  unfolding evaluate_condition_outcome
  evaluate_condition_outcome-Covers condition =
      proven-Covers (evaluate (spans n is_decimal c) is_decimal condition)
        (evaluate (values n m) is_decimal condition)
        (evaluate-related (Within n) (spans n is_decimal c) (values n m) spans-Related is_decimal
          condition)
