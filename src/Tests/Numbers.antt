-- ===== src/Tests/Numbers.antt =====
-- The integers with both infinities, as an instance of what the conditions use of floats.
use warcraft_cli.Base.{
  ℕ, suc, zero, ◌+◌, ◌*◌, String, ◌≡◌, refl, Bool, true, false, ◌&&◌, arith, decimal, code, ◌-◌,
  if◌then◌else◌, leb,
}
use warcraft_cli.Prune.Floats.{Floats, FloatLaws, Respects}

pub data Number : Type 0 where
  least : Number
  whole : ℕ → Number
  below_zero : ℕ → Number
  most : Number

-- `below_zero n` is -(n + 1).
abbrev pub number_leq : Number → Number → Bool
number_leq least b = true
number_leq (below_zero a) least = false
number_leq (below_zero a) (below_zero b) = leb b a
number_leq (below_zero a) (whole b) = true
number_leq (below_zero a) most = true
number_leq (whole a) least = false
number_leq (whole a) (below_zero b) = false
number_leq (whole a) (whole b) = leb a b
number_leq (whole a) most = true
number_leq most most = true
number_leq most _ = false

abbrev pub number_negate : Number → Number
number_negate least = most
number_negate most = least
number_negate (whole zero) = whole 0
number_negate (whole (suc a)) = below_zero a
number_negate (below_zero a) = whole (suc a)

number_leq_refl : (a : Number) → number_leq a a ≡ true
number_leq_refl a = ground arith

number_leq_trans :
    (a b c : Number) → number_leq a b ≡ true → number_leq b c ≡ true → number_leq a c ≡ true
number_leq_trans a b c h k = ground arith

number_leq_total : (a b : Number) → number_leq a b ≡ false → number_leq b a ≡ true
number_leq_total a b h = ground arith

number_leq-negate :
    (a b : Number) → number_leq a b ≡ true → number_leq (number_negate b) (number_negate a) ≡ true
number_leq-negate a b h = ground arith

number_leq_antisym : (a b : Number) → (number_leq a b && number_leq b a) ≡ true → a ≡ b
number_leq_antisym a b h = ground arith

abbrev pub number_plus : Number → Number → Number
number_plus (whole a) (whole b) = whole (a + b)
number_plus (whole a) (below_zero b) =
    if leb (suc b) a then whole (a - suc b) else below_zero (b - a)
number_plus (below_zero a) (whole b) =
    if leb (suc a) b then whole (b - suc a) else below_zero (a - b)
number_plus (below_zero a) (below_zero b) = below_zero (suc (a + b))
number_plus least b = least
number_plus most b = most
number_plus a b = b

abbrev pub number_times : Number → Number → Number
number_times (whole a) (whole b) = whole (a * b)
number_times (below_zero a) (below_zero b) = whole (suc a * suc b)
number_times (whole a) (below_zero b) = number_negate (whole (a * suc b))
number_times (below_zero a) (whole b) = number_negate (whole (suc a * b))
number_times a b = a

abbrev pub is_whole : Number → Bool
is_whole (whole a) = true
is_whole (below_zero a) = true
is_whole _ = false

abbrev pub digits_value : ℕ → String → ℕ
digits_value n String.[] = n
digits_value n (String.◌∷◌ c s) = digits_value (10 * n + (code c - b'0')) s

abbrev pub numbers : Floats
numbers = record {
  Float = Number;
  leq = number_leq;
  of_ℕ = whole;
  of_text = λ t. whole (digits_value 0 t);
  inf = most;
  negate = number_negate;
  plus = number_plus;
  minus = λ a b. number_plus a (number_negate b);
  times = number_times;
  greater = λ a b. if number_leq a b then b else a;
  lesser = λ a b. if number_leq a b then a else b;
  is_finite = is_whole;
  int_text = λ a. elim a [ whole n ↦ decimal n | _ ↦ "" ];
}

number_op-Respects : (op : Number → Number → Number) → Respects numbers op
number_op-Respects op a b c d finite_a finite_b h k =
    rw (← number_leq_antisym a c h, ← number_leq_antisym b d k, number_leq_refl (op a b)) refl

pub numbers-FloatLaws : FloatLaws numbers
numbers-FloatLaws = record {
  leq_refl = number_leq_refl;
  leq_trans = number_leq_trans;
  leq_total = number_leq_total;
  leq-inf = λ a. ground arith;
  leq-negate_inf = λ a. refl;
  leq-negate = number_leq-negate;
  leq-of_ℕ = λ a b h. ground arith;
  one-leq-zero = refl;
  same-plus = number_op-Respects number_plus;
  same-minus = number_op-Respects (λ a b. number_plus a (number_negate b));
  same-times = number_op-Respects number_times;
  same-greater = number_op-Respects (λ a b. if number_leq a b then b else a);
  same-lesser = number_op-Respects (λ a b. if number_leq a b then a else b);
}
