-- ===== src/Prune/Enough.antt =====
-- The parser's fuel is enough: it ends on every list of tokens.
-- packages/simc-cli/src/simc_cli/prune.py, `ConditionParser`
-- Each call uses up one unit; a call on as many tokens makes no other call on as many, but for the one
-- of `parse_binary` to `parse_unary`.
use warcraft_cli.Base.{
  ℕ, zero, suc, ◌+◌, ◌-◌, ◌*◌, ◌≤◌, String, ◌≢◌, subst, Bool, true, false, not, ◌&&◌, ◌||◌, List,
  [], ◌∷◌, ◌==◌, length, arith, Option-cases, inl, inr, if◌then◌else◌,
}
use warcraft_cli.Prune.Parser.{
  Domain, Parsed, parsed, value_error, out_of_fuel, after, precedence, at_least, closing, opens,
  unary_symbol, parse_unary, parse_binary, climb,
}
use warcraft_cli.Prune.Tokens.{starts_digit, starts_alpha, lowers_to}

-- The call ends, with at most so many tokens left.
abbrev pub Ends : {V : Type 0} → ℕ → Parsed V → Type 0
Ends k (parsed v rest) = length rest ≤ k
Ends k value_error = Unit
Ends k out_of_fuel = ⊥

module _ {V : Type 0} (d : Domain V) (is_decimal : ℕ → Bool) where
  Ends-after :
      (j k : ℕ) (p : Parsed V) (f : V → List String → Parsed V)
      → Ends j p
      → ((v : V) (rest : List String) → length rest ≤ j → Ends k (f v rest))
      → Ends k (after p f)
  Ends-after j k (parsed v rest) f h g = g v rest h
  Ends-after j k value_error f h g = tt
  Ends-after j k out_of_fuel f h g = h

  Ends-if : (k : ℕ) (b : Bool) (p q : Parsed V) → Ends k p → Ends k q → Ends k (if b then p else q)
  Ends-if k true p q h g = h
  Ends-if k false p q h g = g

  Ends-closing : (k : ℕ) (v : V) (rest : List String) → length rest ≤ k → Ends k (closing v rest)
  unfolding closing
  Ends-closing k v [] h = tt
  Ends-closing k v (token ∷ tokens) h = Ends-if k (token == ")") _ value_error (omega arith) tt

  Ends-unary_symbol :
      (k : ℕ) (symbol : String) (tokens : List String) (unary binary : Parsed V)
      → length tokens ≤ k
      → Ends k unary
      → Ends k binary
      → Ends k (unary_symbol d is_decimal symbol unary binary tokens)
  unfolding unary_symbol
  Ends-unary_symbol k symbol tokens unary binary h u b =
      Ends-if k (symbol == "!") _ _ (Ends-after k k unary _ u (λ v rest g. g)) (
        Ends-if k (symbol == "-") _ _ (Ends-after k k unary _ u (λ v rest g. g)) (
          Ends-if k (symbol == "+") unary _ u (
            Ends-if k (symbol == "@") _ _ (Ends-after k k unary _ u (λ v rest g. g)) (
              Ends-if k (symbol == "(") _ _ (Ends-after k k binary closing b (Ends-closing k)) (
                Ends-if k (starts_digit is_decimal symbol) (parsed (d.number symbol) tokens) _ h (
                  Ends-if k (not (starts_alpha symbol)) value_error _ tt (
                    Ends-if k
                      ((lowers_to symbol "floor" || lowers_to symbol "ceil") && opens tokens) _
                      (parsed (d.atom symbol) tokens) (Ends-after k k unary _ u (λ v rest g. g))
                      h)))))))

  mutual
    unfolding parse_unary parse_binary climb

    parse_unary-Ends :
        (fuel k : ℕ) (tokens : List String)
        → length tokens ≤ suc k
        → 2 * length tokens + 1 ≤ fuel
        → Ends k (parse_unary d is_decimal fuel tokens)
    parse_unary-Ends zero k tokens h g = absurd (omega arith)
    parse_unary-Ends (suc fuel) k [] h g = tt
    parse_unary-Ends (suc fuel) k (symbol ∷ tokens) h g =
        Ends-unary_symbol k symbol tokens (parse_unary d is_decimal fuel tokens)
          (parse_binary d is_decimal fuel 1 tokens) (omega arith)
          (parse_unary-Ends fuel k tokens (omega arith) (omega arith))
          (parse_binary-Ends fuel 1 k tokens (omega arith) (omega arith))

    parse_binary-Ends :
        (fuel lowest k : ℕ) (tokens : List String)
        → length tokens ≤ suc k
        → 2 * length tokens + 2 ≤ fuel
        → Ends k (parse_binary d is_decimal fuel lowest tokens)
    parse_binary-Ends zero lowest k tokens h g = absurd (omega arith)
    parse_binary-Ends (suc fuel) lowest k tokens h g =
        Ends-after (length tokens - 1) k (parse_unary d is_decimal fuel tokens) _
          (parse_unary-Ends fuel (length tokens - 1) tokens (omega arith) (omega arith))
          (λ left rest e. climb-Ends fuel lowest k left rest (omega arith) (omega arith))

    climb-Ends :
        (fuel lowest k : ℕ) (left : V) (tokens : List String)
        → length tokens ≤ k
        → 2 * length tokens + 1 ≤ fuel
        → Ends k (climb d is_decimal fuel lowest left tokens)
    climb-Ends zero lowest k left tokens h g = absurd (omega arith)
    climb-Ends (suc fuel) lowest k left [] h g = h
    climb-Ends (suc fuel) lowest k left (op ∷ tokens) h g =
        elim (Option-cases (at_least lowest (precedence op))) [
          | inl stops ↦ rw (stops, climb) h
          | inr (level, goes) ↦
              rw (goes, climb)
                (Ends-after (length tokens) k (parse_binary d is_decimal fuel (suc level) tokens) _
                  (parse_binary-Ends fuel (suc level) (length tokens) tokens (omega arith)
                    (omega arith))
                  (λ right rest e. climb-Ends fuel lowest k _ rest (omega arith) (omega arith)))
        ]

  -- With two units of fuel for each token and two more, the parser ends on every list of tokens, at
  -- every precedence: with a value or with the ValueError.
  pub parse_binary_lem :
      (lowest : ℕ) (tokens : List String)
      → parse_binary d is_decimal (2 * length tokens + 2) lowest tokens ≢ out_of_fuel
  parse_binary_lem lowest tokens e = subst (Ends (length tokens)) e (
      parse_binary-Ends (2 * length tokens + 2) lowest (length tokens) tokens (omega arith)
        (omega arith))
