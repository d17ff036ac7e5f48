-- ===== src/Tests/Prune.antt =====
-- Conditions of a small build, over the integers in place of floats.
use warcraft_cli.Base.{
  ℕ, ◌≢◌, String, ◌≡◌, refl, subst, Bool, true, false, not, ◌&&◌, none, some, List, [], ◌∷◌, ◌==◌,
  arith, text_length, starts_with, any, ltb, ap, ◌∙◌, value_at, if◌then◌else◌, leb, split, mem,
}
use warcraft_cli.Tests.Numbers.{Number, whole, numbers, numbers-FloatLaws}
use warcraft_cli.Prune.Enough.{parse_binary_lem}
use warcraft_cli.Prune.Parser.{
  out_of_fuel, parse_binary, parse_unary, climb, evaluate, parse_tokens, unary_symbol, precedence,
  closing,
}
use warcraft_cli.Prune.Rows.{NeverRuns, Runs, entry_verdict_lem}
use warcraft_cli.Prune.Sound.{values, evaluate_condition_outcome-Covers}
use warcraft_cli.Prune.Spans.{
  guaranteed_true, guaranteed_false, outcome, from_outcome, not_span, compare_equal, compare_above,
  compare_from, compare_span, logic_span, arithmetic_span,
}
use warcraft_cli.Prune.Tokens.{
  lowers_to, tokenize_condition, tokens_from, match_token, span_while, fraction, match_operator,
}
use warcraft_cli.Prune.Values.{is_true, Covers}
use warcraft_cli.Prune.Verdict.{spans, evaluate_condition_outcome, unproven, entry_verdict}
use warcraft_cli.Apl.{AplEntry}
use warcraft_cli.Prune.Build.{PruneContext, eval_atom, eval_parts, talent_rank, talent_value}
use warcraft_cli.Prune.Facts.{AgreesRank, Describes}
use warcraft_cli.Prune.Values.{Moment, of_bool}

abbrev context : PruneContext
context = record {
  enabled_talents = "x" ∷ [];
  disabled_talents = [];
  targets = 3;
  talent_sources = [];
  talent_ranks = ("x", 2) ∷ [];
  hero_tree = some "templar";
  untaken_talents = "z" ∷ [];
  talents_known = true;
}

abbrev rank : String → ℕ
rank name = if "x" == name then 2 else 0

abbrev no_decimal : ℕ → Bool
no_decimal c = leb b'0' c && leb c b'9'

abbrev parts_value : List String → Number
parts_value (head ∷ name ∷ []) =
    if head == "talent"
    then of_bool numbers (ltb 0 (rank name))
    else if head == "hero_tree"
    then of_bool numbers (name == "templar")
    else whole 3
parts_value (head ∷ name ∷ suffix ∷ []) =
    if suffix == "rank"
    then whole (rank name)
    else of_bool numbers
        (if suffix == "enabled" then ltb 0 (rank name) else not (ltb 0 (rank name)))
parts_value _ = whole 3

abbrev moment : Moment numbers
moment = record {
  atom = λ a. parts_value (split b'.' a);
  member = λ op x y. false;
  divided = λ op x y. x;
  absolute = λ x. x;
  rounded = λ t x. x;
}

rank-AgreesRank : (name : String) → AgreesRank no_decimal context name (rank name)
unfolding mem value_at
rank-AgreesRank name = record {
  disabled = λ h. absurd (ground arith);
  known_rank = λ k off on e. ground arith;
  taken = λ off on. ground arith;
  untaken = λ off out other. ground arith;
}

at_parts :
    (a : String) (ps : List String) (x : Number)
    → split b'.' a ≡ ps
    → parts_value ps ≡ x
    → parts_value (split b'.' a) ≡ x
at_parts a ps x e h = ap parts_value e ∙ h

moment-Describes : Describes numbers no_decimal context rank moment
unfolding split
moment-Describes = record {
  ranks = λ known name. rank-AgreesRank name;
  talent = λ a name e. at_parts a ("talent" ∷ name ∷ []) _ e refl;
  talent_rank = λ a name e. at_parts a ("talent" ∷ name ∷ "rank" ∷ []) _ e refl;
  talent_enabled = λ a name e. at_parts a ("talent" ∷ name ∷ "enabled" ∷ []) _ e refl;
  talent_disabled = λ a name e. at_parts a ("talent" ∷ name ∷ "disabled" ∷ []) _ e refl;
  hero_tree = λ a name tree e known. at_parts a ("hero_tree" ∷ name ∷ []) _ e (
      subst
        (λ o.
          of_bool numbers (name == "templar")
          ≡ of_bool numbers (elim o [ none ↦ false | some t ↦ name == t ]))
        known refl);
  active_enemies = refl;
  spell_targets = λ a name e. at_parts a ("spell_targets" ∷ name ∷ []) _ e refl;
}

abbrev condition : String
condition = "talent.x&(active_enemies>=3|buff.y.up)"

condition_tokens :
    tokenize_condition no_decimal condition
    ≡ some ("talent.x" ∷ "&" ∷ "(" ∷ "active_enemies" ∷ ">=" ∷ "3" ∷ "|" ∷ "buff.y.up" ∷ ")" ∷ [])
unfolding tokenize_condition tokens_from match_token span_while fraction match_operator text_length
    starts_with
condition_tokens = refl

condition_outcome :
    evaluate_condition_outcome numbers no_decimal context condition
    ≡ record { can_be_true = true; can_be_false = false }
unfolding tokenize_condition tokens_from match_token span_while fraction match_operator text_length
    starts_with any evaluate_condition_outcome evaluate parse_tokens parse_binary parse_unary climb
    unary_symbol precedence closing outcome from_outcome not_span compare_equal compare_above
    compare_from compare_span logic_span arithmetic_span eval_atom eval_parts talent_rank
    talent_value split mem value_at lowers_to
condition_outcome = refl

evaluate_condition_outcome-Covers_example :
    ((x : Number)
      → evaluate (values numbers moment) no_decimal condition ≡ some x
      → Covers numbers
          (evaluate_condition_outcome numbers no_decimal context condition)
          (is_true numbers x))
    × (evaluate (values numbers moment) no_decimal condition ≡ none
        → evaluate_condition_outcome numbers no_decimal context condition ≡ unproven)
evaluate_condition_outcome-Covers_example =
    evaluate_condition_outcome-Covers numbers numbers-FloatLaws no_decimal context rank moment
      moment-Describes condition

abbrev row : AplEntry
row = record {
  line_no = 2;
  list_name = "default";
  op = "+=";
  action = "strike";
  raw_args = "if=!talent.x";
  condition = some "!talent.x";
  raw = "actions+=/strike,if=!talent.x";
  target_list = none;
  kind = "action";
  talent_source_lines = none;
}

entry_verdict_lem_example :
    (guaranteed_false (entry_verdict numbers no_decimal context row).0 ≡ true
      → NeverRuns numbers numbers-FloatLaws no_decimal context row)
    × (guaranteed_true (entry_verdict numbers no_decimal context row).0 ≡ true
        → Runs numbers numbers-FloatLaws no_decimal context row)
entry_verdict_lem_example = entry_verdict_lem numbers numbers-FloatLaws no_decimal context row

parse_binary_lem_example :
    parse_binary
      (spans numbers no_decimal context)
      no_decimal
      20
      1
      ("talent.x" ∷ "&" ∷ "(" ∷ "active_enemies" ∷ ">=" ∷ "3" ∷ "|" ∷ "buff.y.up" ∷ ")" ∷ [])
    ≢ out_of_fuel
parse_binary_lem_example =
    parse_binary_lem (spans numbers no_decimal context) no_decimal 1
      ("talent.x" ∷ "&" ∷ "(" ∷ "active_enemies" ∷ ">=" ∷ "3" ∷ "|" ∷ "buff.y.up" ∷ ")" ∷ [])
