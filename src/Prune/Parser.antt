-- ===== src/Prune/Parser.antt =====
-- `ConditionParser`: a precedence-climbing parser that evaluates as it reads, over any domain of values.
-- packages/simc-cli/src/simc_cli/prune.py
use warcraft_cli.Base.{
  ℕ, zero, suc, ◌+◌, ◌*◌, String, Bool, false, not, ◌&&◌, ◌||◌, Option, none, some, List, [], ◌∷◌,
  ◌==◌, ◌==ℕ◌, leb, length, if◌then◌else◌,
}
use warcraft_cli.Prune.Spans.{one_of}
use warcraft_cli.Prune.Tokens.{starts_digit, starts_alpha, lowers_to, tokenize_condition}

-- What the parser does with the values that it reads.
pub record Domain (V : Type 0) : Type 0 where
  pub number : String → V
  pub atom : String → V
  pub negation : V → V
  pub negated : V → V
  pub absolute : V → V
  pub rounded : String → V → V
  pub logic : V → String → V → V
  pub comparison : V → String → V → V
  pub arithmetic : V → String → V → V

-- A value and the tokens left, or the ValueError.
pub data Parsed (V : Type 0) : Type 0 where
  parsed : V → List String → Parsed V
  value_error out_of_fuel : Parsed V

abbrev pub after : {V W : Type 0} → Parsed V → (V → List String → Parsed W) → Parsed W
after (parsed v rest) next = next v rest
after value_error next = value_error
after out_of_fuel next = out_of_fuel

-- `PRECEDENCE.get(op)`
unfoldable pub precedence : String → Option ℕ
precedence op =
    if one_of op ("|" ∷ "||" ∷ [])
    then some 1
    else if one_of op ("^" ∷ "^^" ∷ [])
    then some 2
    else if one_of op ("&" ∷ "&&" ∷ [])
    then some 3
    else if one_of op (
        "=" ∷ "==" ∷ "!=" ∷ "<" ∷ "<=" ∷ ">" ∷ ">=" ∷ "~" ∷ "!~" ∷ "~=" ∷ "~!=" ∷ "~<" ∷ "~<="
        ∷ "~>" ∷ "~>=" ∷ [])
    then some 4
    else if one_of op ("<?" ∷ ">?" ∷ [])
    then some 5
    else if one_of op ("+" ∷ "-" ∷ [])
    then some 6
    else if one_of op ("*" ∷ "%" ∷ "%%" ∷ [])
    then some 7
    else none

abbrev pub at_least : ℕ → Option ℕ → Option ℕ
at_least lowest none = none
at_least lowest (some level) = if leb lowest level then some level else none

-- `consume()` of the closing parenthesis
unfoldable pub closing : {V : Type 0} → V → List String → Parsed V
closing v [] = value_error
closing v (token ∷ tokens) = if token == ")" then parsed v tokens else value_error

abbrev pub opens : List String → Bool
opens [] = false
opens (token ∷ tokens) = token == "("

module _ {V : Type 0} (d : Domain V) (is_decimal : ℕ → Bool) where
  -- `parse_unary` after its first token, from what the two calls that it can make on the rest give.
  unfoldable pub unary_symbol : String → Parsed V → Parsed V → List String → Parsed V
  unary_symbol symbol unary binary tokens =
      if symbol == "!"
      then after unary (λ v rest. parsed (d.negation v) rest)
      else if symbol == "-"
      then after unary (λ v rest. parsed (d.negated v) rest)
      else if symbol == "+"
      then unary
      else if symbol == "@"
      then after unary (λ v rest. parsed (d.absolute v) rest)
      else if symbol == "("
      then after binary closing
      else if starts_digit is_decimal symbol
      then parsed (d.number symbol) tokens
      else if not (starts_alpha symbol)
      then value_error
      else if (lowers_to symbol "floor" || lowers_to symbol "ceil") && opens tokens
      then after unary (λ v rest. parsed (d.rounded symbol v) rest)
      else parsed (d.atom symbol) tokens

  abbrev pub combine : ℕ → V → String → V → V
  combine level left op right =
      if leb level 3
      then d.logic left op right
      else if level ==ℕ 4
      then d.comparison left op right
      else d.arithmetic left op right

  unfoldable mutual
    pub parse_unary : ℕ → List String → Parsed V
    parse_unary zero tokens = out_of_fuel
    parse_unary (suc fuel) [] = value_error
    parse_unary (suc fuel) (symbol ∷ tokens) =
        unary_symbol symbol (parse_unary fuel tokens) (parse_binary fuel 1 tokens) tokens

    pub parse_binary : ℕ → ℕ → List String → Parsed V
    parse_binary zero lowest tokens = out_of_fuel
    parse_binary (suc fuel) lowest tokens =
        after (parse_unary fuel tokens) (λ left rest. climb fuel lowest left rest)

    -- The loop of `parse_binary`.
    pub climb : ℕ → ℕ → V → List String → Parsed V
    climb zero lowest left tokens = out_of_fuel
    climb (suc fuel) lowest left [] = parsed left []
    climb (suc fuel) lowest left (op ∷ tokens) = elim (at_least lowest (precedence op)) [
      | none ↦ parsed left (op ∷ tokens)
      | some level ↦
          after (parse_binary fuel (suc level) tokens)
            (λ right rest. climb fuel lowest (combine level left op right) rest)
    ]

  -- The value of a condition that is read in full.
  abbrev pub whole : Parsed V → Option V
  whole (parsed v []) = some v
  whole _ = none

  unfoldable pub parse_tokens : Option (List String) → Option V
  parse_tokens none = none
  parse_tokens (some []) = none
  parse_tokens (some (token ∷ tokens)) =
      whole (parse_binary (2 * length (token ∷ tokens) + 2) 1 (token ∷ tokens))

  unfoldable pub evaluate : String → Option V
  evaluate condition = parse_tokens (tokenize_condition is_decimal condition)
