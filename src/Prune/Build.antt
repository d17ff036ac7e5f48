-- ===== src/Prune/Build.antt =====
-- What is known of a build, and the values that its identifiers can have.
-- packages/simc-cli/src/simc_cli/prune.py
use warcraft_cli.Base.{
  ℕ, suc, String, code, Bool, true, false, not, ◌&&◌, Option, none, some, List, [], ◌∷◌, ◌++◌, ◌==◌,
  split, mem, join, value_at, if◌then◌else◌,
}
use warcraft_cli.Prune.Floats.{Floats}
use warcraft_cli.Prune.Spans.{
  Span, outcome, any_value, false_span, true_span, from_outcome, not_span,
}

pub record PruneContext : Type 0 where
  pub enabled_talents : List String
  pub disabled_talents : List String
  pub targets : ℕ
  pub talent_sources : List (String × String)
  pub talent_ranks : List (String × ℕ)
  pub hero_tree : Option String
  pub untaken_talents : List String
  pub talents_known : Bool

-- `context.hero_tree` where it is true: a tree that is known
abbrev pub tree_of : Option String → Option String
tree_of none = none
tree_of (some tree) = if tree == "" then none else some tree

unfoldable pub all_chars : (ℕ → Bool) → String → Bool
all_chars test String.[] = true
all_chars test (String.◌∷◌ c s) = test (code c) && all_chars test s

-- `^(.+)_\d+$` on the pieces between the underscores: the group, if the last piece is a number.
unfoldable pub indexed_pieces : (ℕ → Bool) → List String → List String → Option String
unfolding all_chars join
indexed_pieces is_decimal before [] = none
indexed_pieces is_decimal before (last ∷ []) =
    if not (last == "") && all_chars is_decimal last && not (join "_" before == "")
    then some (join "_" before)
    else none
indexed_pieces is_decimal before (piece ∷ next ∷ pieces) =
    indexed_pieces is_decimal (before ++ piece ∷ []) (next ∷ pieces)

unfoldable pub indexed_talent : (ℕ → Bool) → String → Option String
unfolding indexed_pieces split
indexed_talent is_decimal name = indexed_pieces is_decimal [] (split b'_' name)

abbrev pub is_mem : Option String → List String → Bool
is_mem none names = false
is_mem (some name) names = mem name names

module _ (n : Floats) (is_decimal : ℕ → Bool) where
  abbrev pub from_zero : Span n
  from_zero = record { lo = n.of_ℕ 0; hi = n.inf }

  -- The rank of a taken talent: `Span(rank, rank) if rank else Span(1, math.inf)`
  abbrev pub taken_rank : Option ℕ → Span n
  taken_rank (some (suc rank)) = record { lo = n.of_ℕ (suc rank); hi = n.of_ℕ (suc rank) }
  taken_rank _ = record { lo = n.of_ℕ 1; hi = n.inf }

  unfoldable pub talent_rank : String → PruneContext → Span n
  talent_rank name c =
      if not c.talents_known
      then from_zero
      else if mem name c.disabled_talents
      then false_span n
      else if mem name c.enabled_talents
      then taken_rank (value_at name c.talent_ranks)
      else if is_mem (indexed_talent is_decimal name) c.enabled_talents
      then from_zero
      else false_span n

  -- `eval_atom` for a talent's rank and the suffix
  unfoldable pub talent_value : Span n → String → Span n
  talent_value rank suffix =
      if suffix == "rank"
      then rank
      else if suffix == "enabled"
      then from_outcome n (outcome n rank)
      else if suffix == "disabled"
      then not_span n (from_outcome n (outcome n rank))
      else any_value n

  abbrev pub targets_span : PruneContext → Span n
  targets_span c = record { lo = n.of_ℕ c.targets; hi = n.of_ℕ c.targets }

  abbrev pub tree_value : Option String → String → Span n
  tree_value none name = any_value n
  tree_value (some tree) name = if name == tree then true_span n else false_span n

  unfoldable pub eval_parts : PruneContext → String → List String → Span n
  eval_parts c atom (head ∷ name ∷ []) =
      if head == "talent"
      then talent_value (talent_rank name c) "enabled"
      else if head == "hero_tree"
      then tree_value (tree_of c.hero_tree) name
      else if head == "spell_targets"
      then targets_span c
      else any_value n
  eval_parts c atom (head ∷ name ∷ suffix ∷ []) =
      if head == "talent" then talent_value (talent_rank name c) suffix else any_value n
  eval_parts c atom _ = if atom == "active_enemies" then targets_span c else any_value n

  unfoldable pub eval_atom : String → PruneContext → Span n
  eval_atom atom c = eval_parts c atom (split b'.' atom)
