-- ===== src/Prune/Values.antt =====
-- What a condition's operators compute at runtime, and that the ranges hold it.
-- packages/simc-cli/src/simc_cli/prune.py
use warcraft_cli.Base.{
  String, ◌≡◌, Bool, true, not, ◌&&◌, ◌||◌, Option, none, some, [], ◌∷◌, ◌==◌, arith, Bool-cases,
  if_cases, inl, inr, if◌then◌else◌,
}
use warcraft_cli.Prune.Floats.{Floats, FloatLaws, same, Respects}
use warcraft_cli.Prune.Spans.{
  ConditionOutcome, outcome_not, one_of, Span, point, outcome, any_value, either, from_outcome,
  below, compare_equal, compare_above, compare_from, compare_span, logic_outcome, logic_span,
  folded_operator, folded_value, arithmetic_span, negated_span, not_span,
}

-- A moment of a run: the identifiers' values, and the operators that are left to runtime.
pub record Moment (n : Floats) : Type 0 where
  pub atom : String → n.Float
  pub member : String → n.Float → n.Float → Bool
  pub divided : String → n.Float → n.Float → n.Float
  pub absolute : n.Float → n.Float
  pub rounded : String → n.Float → n.Float

abbrev pub logic_test : Bool → String → Bool → Bool
logic_test a op b =
    if one_of op ("&" ∷ "&&" ∷ [])
    then a && b
    else if one_of op ("|" ∷ "||" ∷ [])
    then a || b
    else (a && not b) || (not a && b)

module _ (n : Floats) where
  -- `x != 0`, the truth of a value
  abbrev pub is_true : n.Float → Bool
  is_true x = not (same n x (n.of_ℕ 0))

  abbrev pub of_bool : Bool → n.Float
  of_bool b = if b then n.of_ℕ 1 else n.of_ℕ 0

  abbrev pub not_value : n.Float → n.Float
  not_value x = of_bool (not (is_true x))

  abbrev pub compare_value : Moment n → n.Float → String → n.Float → n.Float
  compare_value m x op y =
      if one_of op ("=" ∷ "==" ∷ "~=" ∷ [])
      then of_bool (same n x y)
      else if one_of op ("!=" ∷ "~!=" ∷ [])
      then not_value (of_bool (same n x y))
      else if one_of op ("<" ∷ "~<" ∷ [])
      then of_bool (below n x y)
      else if one_of op ("<=" ∷ "~<=" ∷ [])
      then of_bool (n.leq x y)
      else if one_of op (">" ∷ "~>" ∷ [])
      then of_bool (below n y x)
      else if one_of op (">=" ∷ "~>=" ∷ [])
      then of_bool (n.leq y x)
      else of_bool (m.member op x y)

  abbrev pub logic_value : n.Float → String → n.Float → n.Float
  logic_value x op y = of_bool (logic_test (is_true x) op (is_true y))

  abbrev pub operated : Option (n.Float → n.Float → n.Float) → n.Float → n.Float → n.Float → n.Float
  operated none other x y = other
  operated (some op) other x y = op x y

  abbrev pub arithmetic_value : Moment n → n.Float → String → n.Float → n.Float
  arithmetic_value m x op y = operated (folded_operator n op) (m.divided op x y) x y

  -- The value lies in the range.
  abbrev pub Within : Span n → n.Float → Type 0
  Within s x = (n.leq s.lo x ≡ true) × (n.leq x s.hi ≡ true)

  -- The outcome allows the truth value.
  abbrev pub Covers : ConditionOutcome → Bool → Type 0
  Covers o b = (if b then o.can_be_true else o.can_be_false) ≡ true

module _ (n : Floats) (w : FloatLaws n) where
  zero-leq-one : n.leq (n.of_ℕ 0) (n.of_ℕ 1) ≡ true
  zero-leq-one = w.leq-of_ℕ 0 1 (omega arith)

  pub outcome-Covers :
      (s : Span n) (x : n.Float) → Within n s x → Covers n (outcome n s) (is_true n x)
  unfolding outcome
  outcome-Covers s x h = ground (
    arith,
    w.leq_trans x s.hi (n.of_ℕ 0),
    w.leq_trans (n.of_ℕ 0) s.lo x,
    w.leq_trans s.lo x (n.of_ℕ 0),
    w.leq_trans (n.of_ℕ 0) x s.hi,
  )

  pub from_outcome-Within :
      (o : ConditionOutcome) (b : Bool) → Covers n o b → Within n (from_outcome n o) (of_bool n b)
  unfolding from_outcome
  from_outcome-Within o b h =
      ground (arith, zero-leq-one, w.leq_refl (n.of_ℕ 0), w.leq_refl (n.of_ℕ 1))

  either-Within : (b : Bool) → Within n (either n) (of_bool n b)
  either-Within b = ground (arith, zero-leq-one, w.leq_refl (n.of_ℕ 0), w.leq_refl (n.of_ℕ 1))

  pub not_span-Within :
      (s : Span n) (x : n.Float) → Within n s x → Within n (not_span n s) (not_value n x)
  unfolding not_span
  not_span-Within s x h =
      from_outcome-Within (outcome_not (outcome n s)) (not (is_true n x))
        (ground (arith, outcome-Covers s x h))

  pub negated_span-Within :
      (s : Span n) (x : n.Float) → Within n s x → Within n (negated_span n s) (n.negate x)
  unfolding negated_span
  negated_span-Within s x h = (w.leq-negate x s.hi h.1, w.leq-negate s.lo x h.0)

  pub any_value-Within : (x : n.Float) → Within n (any_value n) x
  any_value-Within x = (w.leq-negate_inf x, w.leq-inf x)

  logic_outcome-Covers :
      (a b : ConditionOutcome) (op : String) (p q : Bool)
      → Covers n a p
      → Covers n b q
      → Covers n (logic_outcome n a op b) (logic_test p op q)
  logic_outcome-Covers a b op p q h k = ground arith

  pub logic_span-Within :
      (a b : Span n) (op : String) (x y : n.Float)
      → Within n a x
      → Within n b y
      → Within n (logic_span n a op b) (logic_value n x op y)
  unfolding logic_span
  logic_span-Within a b op x y h k =
      from_outcome-Within (logic_outcome n (outcome n a) op (outcome n b))
        (logic_test (is_true n x) op (is_true n y))
        (logic_outcome-Covers (outcome n a) (outcome n b) op (is_true n x) (is_true n y)
          (outcome-Covers a x h) (outcome-Covers b y k))

  abbrev IsFolded : Option (n.Float → n.Float → n.Float) → Type 0
  IsFolded none = Unit
  IsFolded (some op) = Respects n op

  folded_operator-IsFolded : (op : String) → IsFolded (folded_operator n op)
  folded_operator-IsFolded op = if_cases IsFolded (op == "+") (some n.plus) _ w.same-plus (
      if_cases IsFolded (op == "-") (some n.minus) _ w.same-minus (
        if_cases IsFolded (op == "*") (some n.times) _ w.same-times (
          if_cases IsFolded (op == "<?") (some n.greater) _ w.same-greater
            (if_cases IsFolded (op == ">?") (some n.lesser) none w.same-lesser tt))))

  module _ (a b : Span n) (x y : n.Float) (h : Within n a x) (k : Within n b y) where
    compare_equal-Within : Within n (compare_equal n a b) (of_bool n (same n x y))
    unfolding compare_equal
    compare_equal-Within = ground (
      arith,
      zero-leq-one,
      w.leq_refl (n.of_ℕ 0),
      w.leq_refl (n.of_ℕ 1),
      w.leq_trans x a.hi a.lo,
      w.leq_trans x a.lo b.lo,
      w.leq_trans x b.lo y,
      w.leq_trans y b.hi b.lo,
      w.leq_trans y b.lo a.lo,
      w.leq_trans y a.lo x,
      w.leq_trans a.lo x y,
      w.leq_trans a.lo y b.hi,
      w.leq_trans a.lo b.hi b.lo,
      w.leq_trans b.lo y x,
      w.leq_trans b.lo x a.hi,
      w.leq_trans b.lo a.hi a.lo,
    )

    compare_above-Within : Within n (compare_above n a b) (of_bool n (below n y x))
    unfolding compare_above
    compare_above-Within = ground (
      arith,
      zero-leq-one,
      w.leq_refl (n.of_ℕ 0),
      w.leq_refl (n.of_ℕ 1),
      w.leq_trans a.lo x y,
      w.leq_trans a.lo y b.hi,
      w.leq_trans x a.hi b.lo,
      w.leq_trans x b.lo y,
    )

    compare_from-Within : Within n (compare_from n a b) (of_bool n (n.leq y x))
    unfolding compare_from
    compare_from-Within = ground (
      arith,
      zero-leq-one,
      w.leq_refl (n.of_ℕ 0),
      w.leq_refl (n.of_ℕ 1),
      w.leq_trans y b.hi a.lo,
      w.leq_trans y a.lo x,
      w.leq_trans b.lo y x,
      w.leq_trans b.lo x a.hi,
    )

    folded_value-Within :
        (o : Option (n.Float → n.Float → n.Float)) (other : n.Float)
        → IsFolded o
        → (point n a && point n b && n.is_finite a.lo && n.is_finite b.lo) ≡ true
        → Within n (folded_value n o a.lo b.lo) (operated n o other x y)
    folded_value-Within none other r t = any_value-Within other
    folded_value-Within (some op) other r t =
        ground (arith, r a.lo b.lo x y, w.leq_trans x a.hi a.lo, w.leq_trans y b.hi b.lo)

    pub arithmetic_span-Within :
        (m : Moment n) (op : String)
        → Within n (arithmetic_span n a op b) (arithmetic_value n m x op y)
    unfolding arithmetic_span
    arithmetic_span-Within m op =
        elim (Bool-cases (point n a && point n b && n.is_finite a.lo && n.is_finite b.lo)) [
          | inl t ↦ rw t (
              folded_value-Within (folded_operator n op) (m.divided op x y)
                (folded_operator-IsFolded op) t)
          | inr f ↦ rw f (any_value-Within (arithmetic_value n m x op y))
        ]

  pub compare_span-Within :
      (m : Moment n) (a b : Span n) (op : String) (x y : n.Float)
      → Within n a x
      → Within n b y
      → Within n (compare_span n a op b) (compare_value n m x op y)
  unfolding compare_span
  compare_span-Within m a b op x y h k = ground (
    arith,
    compare_equal-Within a b x y h k,
    compare_above-Within a b x y h k,
    compare_above-Within b a y x k h,
    compare_from-Within a b x y h k,
    compare_from-Within b a y x k h,
    not_span-Within (compare_equal n a b) (of_bool n (same n x y))
        (compare_equal-Within a b x y h k),
    either-Within (m.member op x y),
  )
