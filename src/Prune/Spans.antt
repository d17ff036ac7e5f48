-- ===== src/Prune/Spans.antt =====
-- The ranges of values that an expression can take, and the operations on them.
-- packages/simc-cli/src/simc_cli/prune.py
use warcraft_cli.Base.{
  String, Bool, not, ◌&&◌, ◌||◌, Option, none, some, List, [], ◌∷◌, ◌==◌, any, if◌then◌else◌,
}
use warcraft_cli.Prune.Floats.{Floats, same}

pub data TruthValue : Type 0 where
  eligible dead unknown : TruthValue

pub record ConditionOutcome : Type 0 where
  pub can_be_true : Bool
  pub can_be_false : Bool

abbrev pub guaranteed_true : ConditionOutcome → Bool
guaranteed_true o = o.can_be_true && not o.can_be_false

abbrev pub guaranteed_false : ConditionOutcome → Bool
guaranteed_false o = not o.can_be_true && o.can_be_false

-- `ConditionOutcome.state`
abbrev pub state_of : ConditionOutcome → TruthValue
state_of o =
    if o.can_be_true && not o.can_be_false
    then eligible
    else if not o.can_be_true && o.can_be_false
    then dead
    else unknown

abbrev pub outcome_not : ConditionOutcome → ConditionOutcome
outcome_not o = record { can_be_true = o.can_be_false; can_be_false = o.can_be_true }

-- `op in {...}`
abbrev pub one_of : String → List String → Bool
one_of op ops = any (λ o. o == op) ops

module _ (n : Floats) where
  pub record Span : Type 0 where
    pub lo : n.Float
    pub hi : n.Float

  abbrev pub point : Span → Bool
  point s = same n s.lo s.hi

  unfoldable pub outcome : Span → ConditionOutcome
  outcome s = record {
    can_be_true = not (same n s.lo (n.of_ℕ 0) && same n (n.of_ℕ 0) s.hi);
    can_be_false = n.leq s.lo (n.of_ℕ 0) && n.leq (n.of_ℕ 0) s.hi;
  }

  abbrev pub any_value : Span
  any_value = record { lo = n.negate n.inf; hi = n.inf }

  abbrev pub false_span : Span
  false_span = record { lo = n.of_ℕ 0; hi = n.of_ℕ 0 }

  abbrev pub true_span : Span
  true_span = record { lo = n.of_ℕ 1; hi = n.of_ℕ 1 }

  abbrev pub either : Span
  either = record { lo = n.of_ℕ 0; hi = n.of_ℕ 1 }

  unfoldable pub from_outcome : ConditionOutcome → Span
  from_outcome o = record {
    lo = if o.can_be_false then n.of_ℕ 0 else n.of_ℕ 1;
    hi = if o.can_be_true then n.of_ℕ 1 else n.of_ℕ 0;
  }

  unfoldable pub not_span : Span → Span
  not_span s = from_outcome (outcome_not (outcome s))

  -- `a < b`
  abbrev pub below : n.Float → n.Float → Bool
  below a b = not (n.leq b a)

  -- `_compare`, a branch at a time
  unfoldable pub compare_equal : Span → Span → Span
  compare_equal left right =
      if point left && point right
      then (if same n left.lo right.lo then true_span else false_span)
      else if below left.hi right.lo || below right.hi left.lo
      then false_span
      else either

  unfoldable pub compare_above : Span → Span → Span
  compare_above left right =
      if below right.hi left.lo
      then true_span
      else if n.leq left.hi right.lo
      then false_span
      else either

  unfoldable pub compare_from : Span → Span → Span
  compare_from left right =
      if n.leq right.hi left.lo
      then true_span
      else if below left.hi right.lo
      then false_span
      else either

  unfoldable pub compare_span : Span → String → Span → Span
  compare_span left op right =
      if one_of op ("=" ∷ "==" ∷ "~=" ∷ [])
      then compare_equal left right
      else if one_of op ("!=" ∷ "~!=" ∷ [])
      then not_span (compare_equal left right)
      else if one_of op ("<" ∷ "~<" ∷ [])
      then compare_above right left
      else if one_of op ("<=" ∷ "~<=" ∷ [])
      then compare_from right left
      else if one_of op (">" ∷ "~>" ∷ [])
      then compare_above left right
      else if one_of op (">=" ∷ "~>=" ∷ [])
      then compare_from left right
      else either

  -- `_logic`, on the outcomes of the two sides
  abbrev pub logic_outcome : ConditionOutcome → String → ConditionOutcome → ConditionOutcome
  logic_outcome a op b =
      if one_of op ("&" ∷ "&&" ∷ [])
      then record {
        can_be_true = a.can_be_true && b.can_be_true;
        can_be_false = a.can_be_false || b.can_be_false;
      }
      else if one_of op ("|" ∷ "||" ∷ [])
      then record {
        can_be_true = a.can_be_true || b.can_be_true;
        can_be_false = a.can_be_false && b.can_be_false;
      }
      else record {
        can_be_true = (a.can_be_true && b.can_be_false) || (a.can_be_false && b.can_be_true);
        can_be_false = (a.can_be_true && b.can_be_true) || (a.can_be_false && b.can_be_false);
      }

  unfoldable pub logic_span : Span → String → Span → Span
  logic_span left op right = from_outcome (logic_outcome (outcome left) op (outcome right))

  -- `ARITHMETIC.get(op)`
  abbrev pub folded_operator : String → Option (n.Float → n.Float → n.Float)
  folded_operator op =
      if op == "+"
      then some n.plus
      else if op == "-"
      then some n.minus
      else if op == "*"
      then some n.times
      else if op == "<?"
      then some n.greater
      else if op == ">?"
      then some n.lesser
      else none

  abbrev pub folded_value : Option (n.Float → n.Float → n.Float) → n.Float → n.Float → Span
  folded_value none a b = any_value
  folded_value (some op) a b = record { lo = op a b; hi = op a b }

  unfoldable pub arithmetic_span : Span → String → Span → Span
  arithmetic_span left op right =
      if point left && point right && n.is_finite left.lo && n.is_finite right.lo
      then folded_value (folded_operator op) left.lo right.lo
      else any_value

  unfoldable pub negated_span : Span → Span
  negated_span s = record { lo = n.negate s.hi; hi = n.negate s.lo }
