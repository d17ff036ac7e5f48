-- ===== src/Prune/Verdict.antt =====
-- Whether a row can run for a build, and why.
-- packages/simc-cli/src/simc_cli/prune.py
use warcraft_cli.Apl.{AplEntry}
use warcraft_cli.Base.{
  ℕ, String, Bool, true, false, not, ◌&&◌, ◌||◌, Option, none, some, List, [], ◌∷◌, ◌++◌, ◌==◌, map,
  split, strip, cat, decimal, mem, join, value_at, if◌then◌else◌,
}
use warcraft_cli.Prune.Build.{PruneContext, tree_of, talent_rank, eval_atom}
use warcraft_cli.Prune.Floats.{Floats}
use warcraft_cli.Prune.Parser.{Domain, evaluate}
use warcraft_cli.Prune.Spans.{
  TruthValue, unknown, ConditionOutcome, state_of, Span, point, outcome, any_value, below,
  compare_span, logic_span, arithmetic_span, negated_span, not_span,
}
use warcraft_cli.Prune.Tokens.{tokenize_condition}

abbrev pub unproven : ConditionOutcome
unproven = record { can_be_true = true; can_be_false = true }

abbrev pub truth_text : Bool → String
truth_text true = "true"
truth_text false = "false"

-- `PrunedEntry`
pub record PrunedEntry : Type 0 where
  pub entry : AplEntry
  pub state : TruthValue
  pub reason : String

-- `replace(context, talents_known=False, hero_tree=None, untaken_talents=set())`
abbrev pub without_talents : PruneContext → PruneContext
without_talents c = record c { talents_known = false; hero_tree = none; untaken_talents = [] }

-- The pieces of the values between their commas, each once.
unfoldable pub csv_pieces : List String → List String → List String
csv_pieces [] found = found
csv_pieces (piece ∷ pieces) found =
    let name = strip piece in
    csv_pieces pieces (if (name == "") || mem name found then found else found ++ name ∷ [])

unfoldable pub split_csv : List String → List String → List String
split_csv [] found = found
split_csv (value ∷ values) found = split_csv values (csv_pieces (split b',' value) found)

unfoldable pub split_csv_values : List String → List String
split_csv_values values = split_csv values []

module _ (n : Floats) (is_decimal : ℕ → Bool) (c : PruneContext) where
  -- The domain that the parser evaluates in.
  abbrev pub spans : Domain (Span n)
  spans = record {
    number = λ t. record { lo = n.of_text t; hi = n.of_text t };
    atom = λ t. eval_atom n is_decimal t c;
    negation = λ s. not_span n s;
    negated = λ s. negated_span n s;
    absolute = λ s. any_value n;
    rounded = λ t s. any_value n;
    logic = λ a op b. logic_span n a op b;
    comparison = λ a op b. compare_span n a op b;
    arithmetic = λ a op b. arithmetic_span n a op b;
  }

  abbrev pub proven : Option (Span n) → ConditionOutcome
  proven none = unproven
  proven (some s) = outcome n s

  unfoldable pub evaluate_condition_outcome : String → ConditionOutcome
  evaluate_condition_outcome condition = proven (evaluate spans is_decimal condition)

  abbrev pub source_text : String → String
  source_text name = elim (value_at name c.talent_sources) [
    | some source ↦ cat " [" (cat source "]")
    | none ↦ if mem name c.disabled_talents then " [manual]" else ""
  ]

  abbrev pub asks_rank : List String → Bool
  asks_rank (suffix ∷ []) = suffix == "rank"
  asks_rank _ = false

  unfoldable pub talent_text : String → List String → Option String
  talent_text name suffixes =
      let rank = talent_rank n is_decimal name c in
      if not (point n rank) && n.leq rank.lo (n.of_ℕ 0) && n.leq (n.of_ℕ 0) rank.lo
      then none
      else if asks_rank suffixes && point n rank
      then some
          (cat "talent." (cat name (cat ".rank=" (cat (n.int_text rank.lo) (source_text name)))))
      else some (
          cat "talent."
            (cat name (cat "=" (cat (truth_text (below n (n.of_ℕ 0) rank.lo)) (source_text name)))))

  abbrev pub tree_text : String → String → Option String → Option String
  tree_text atom name none = none
  tree_text atom name (some tree) = some (cat atom (cat "=" (truth_text (name == tree))))

  abbrev pub targets_text : String → String → Option String
  targets_text atom head =
      if (atom == "active_enemies") || (head == "spell_targets")
      then some (cat atom (cat "=" (decimal c.targets)))
      else none

  unfoldable pub atom_text : String → List String → Option String
  atom_text atom [] = none
  atom_text atom (head ∷ []) = targets_text atom head
  atom_text atom (head ∷ name ∷ []) =
      if head == "talent"
      then talent_text name []
      else if head == "hero_tree"
      then tree_text atom name (tree_of c.hero_tree)
      else targets_text atom head
  atom_text atom (head ∷ name ∷ suffix ∷ suffixes) =
      if head == "talent" then talent_text name (suffix ∷ suffixes) else targets_text atom head

  unfoldable pub known_atom_text : String → Option String
  known_atom_text atom = atom_text atom (split b'.' atom)

  abbrev pub add_text : Option String → List String → List String
  add_text none found = found
  add_text (some text) found = if (text == "") || mem text found then found else found ++ text ∷ []

  unfoldable pub known_atoms : List String → List String → List String
  known_atoms [] found = found
  known_atoms (token ∷ tokens) found = known_atoms tokens (add_text (known_atom_text token) found)

  unfoldable pub extract_known_atoms : String → List String
  extract_known_atoms condition = elim (tokenize_condition is_decimal condition) [
    | none ↦ []
    | some tokens ↦ known_atoms tokens []
  ]

  abbrev pub is_unknown : TruthValue → Bool
  is_unknown unknown = true
  is_unknown _ = false

  abbrev pub atoms_text : List String → String
  atoms_text [] = "resolved from known inputs"
  atoms_text (atom ∷ atoms) = join "; " (atom ∷ atoms)

  unfoldable pub explanation_for_condition : String → ConditionOutcome → String
  explanation_for_condition condition o =
      if is_unknown (state_of o)
      then "depends on runtime-only state"
      else atoms_text (extract_known_atoms condition)

  abbrev pub condition_verdict : Option String → ConditionOutcome × String
  condition_verdict none = (record { can_be_true = true; can_be_false = false }, "no condition")
  condition_verdict (some condition) =
      if condition == ""
      then (record { can_be_true = true; can_be_false = false }, "no condition")
      else (
        evaluate_condition_outcome condition,
        explanation_for_condition condition (evaluate_condition_outcome condition),
      )

  unfoldable pub entry_verdict : AplEntry → ConditionOutcome × String
  entry_verdict entry =
      if mem entry.action c.untaken_talents
      then (
        record { can_be_true = false; can_be_false = true },
        cat "talent." (cat entry.action "=false [action]"),
      )
      else condition_verdict entry.condition

  unfoldable pub prune_entries : List AplEntry → List PrunedEntry
  prune_entries entries =
      map
        (λ entry.
          let (o, reason) = entry_verdict entry in
          record { entry = entry; state = state_of o; reason = reason })
        entries
