-- ===== src/Prune/Floats.antt =====
-- Python's floats, but for NaN, as an interface: the operations that the evaluation uses, and what it
-- relies on.
-- packages/simc-cli/src/simc_cli/prune.py
use warcraft_cli.Base.{ℕ, ◌≤◌, String, ◌≡◌, Bool, true, false, ◌&&◌}

pub record Floats : Type 1 where
  pub Float : Type 0
  pub leq : Float → Float → Bool
  pub of_ℕ : ℕ → Float
  pub of_text : String → Float
  pub inf : Float
  pub negate : Float → Float
  pub plus : Float → Float → Float
  pub minus : Float → Float → Float
  pub times : Float → Float → Float
  pub greater : Float → Float → Float
  pub lesser : Float → Float → Float
  pub is_finite : Float → Bool
  pub int_text : Float → String

-- `a == b`, which holds of 0.0 and -0.0 too
abbrev pub same : (n : Floats) → n.Float → n.Float → Bool
same n a b = n.leq a b && n.leq b a

abbrev pub Respects : (n : Floats) → (n.Float → n.Float → n.Float) → Type 0
Respects n op =
    (a b c d : n.Float)
    → n.is_finite a ≡ true
    → n.is_finite b ≡ true
    → same n a c ≡ true
    → same n b d ≡ true
    → same n (op a b) (op c d) ≡ true

-- The order is total; negation turns it round; the operations give equal results for equal, finite
-- operands.
pub record FloatLaws (n : Floats) : Type 0 where
  pub leq_refl : (a : n.Float) → n.leq a a ≡ true
  pub leq_trans : (a b c : n.Float) → n.leq a b ≡ true → n.leq b c ≡ true → n.leq a c ≡ true
  pub leq_total : (a b : n.Float) → n.leq a b ≡ false → n.leq b a ≡ true
  pub leq-inf : (a : n.Float) → n.leq a n.inf ≡ true
  pub leq-negate_inf : (a : n.Float) → n.leq (n.negate n.inf) a ≡ true
  pub leq-negate : (a b : n.Float) → n.leq a b ≡ true → n.leq (n.negate b) (n.negate a) ≡ true
  pub leq-of_ℕ : (a b : ℕ) → a ≤ b → n.leq (n.of_ℕ a) (n.of_ℕ b) ≡ true
  pub one-leq-zero : n.leq (n.of_ℕ 1) (n.of_ℕ 0) ≡ false
  pub same-plus : Respects n n.plus
  pub same-minus : Respects n n.minus
  pub same-times : Respects n n.times
  pub same-greater : Respects n n.greater
  pub same-lesser : Respects n n.lesser
