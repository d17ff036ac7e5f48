-- ===== src/Prune/Related.antt =====
-- The parser over two domains: it reads the same tokens, and related operations give related values.
-- packages/simc-cli/src/simc_cli/prune.py, `ConditionParser`
use warcraft_cli.Base.{
  ℕ, zero, suc, ◌+◌, ◌*◌, ◌+◌, String, Bool, true, false, not, ◌&&◌, ◌||◌, Option, none, some, List,
  [], ◌∷◌, ◌==◌, ◌==ℕ◌, leb, length, Bool-cases, Option-cases, inl, inr, if◌then◌else◌,
}
use warcraft_cli.Prune.Parser.{
  Domain, Parsed, parsed, value_error, out_of_fuel, after, precedence, at_least, closing, opens,
  unary_symbol, combine, parse_unary, parse_binary, climb, whole, parse_tokens, evaluate,
}
use warcraft_cli.Prune.Tokens.{starts_digit, starts_alpha, lowers_to, tokenize_condition}

-- Each operation takes related values to related values.
pub record Related {V W : Type 0} (R : V → W → Type 0) (d : Domain V) (e : Domain W) : Type 0 where
  pub number : (t : String) → R (d.number t) (e.number t)
  pub atom : (t : String) → R (d.atom t) (e.atom t)
  pub negation : (v : V) (w : W) → R v w → R (d.negation v) (e.negation w)
  pub negated : (v : V) (w : W) → R v w → R (d.negated v) (e.negated w)
  pub absolute : (v : V) (w : W) → R v w → R (d.absolute v) (e.absolute w)
  pub rounded : (t : String) (v : V) (w : W) → R v w → R (d.rounded t v) (e.rounded t w)
  pub logic :
      (op : String) (v v' : V) (w w' : W) → R v w → R v' w' → R (d.logic v op v') (e.logic w op w')
  pub comparison :
      (op : String) (v v' : V) (w w' : W)
      → R v w
      → R v' w'
      → R (d.comparison v op v') (e.comparison w op w')
  pub arithmetic :
      (op : String) (v v' : V) (w w' : W)
      → R v w
      → R v' w'
      → R (d.arithmetic v op v') (e.arithmetic w op w')

-- The same ending, with related values and the same tokens left.
pub data Same {V W : Type 0} (R : V → W → Type 0) : Parsed V → Parsed W → Type 0 where
  both_parsed :
      {v : V} {w : W} {rest : List String} → R v w → Same R (parsed v rest) (parsed w rest)
  both_fail : Same R value_error value_error
  both_out : Same R out_of_fuel out_of_fuel

unfoldable pub OptionRelated : {V W : Type 0} → (V → W → Type 0) → Option V → Option W → Type 0
OptionRelated R none none = Unit
OptionRelated R (some v) (some w) = R v w
OptionRelated R _ _ = ⊥

module _ {V W : Type 0} (R : V → W → Type 0) where
  Same-after :
      {p : Parsed V} {q : Parsed W} (f : V → List String → Parsed V)
      (g : W → List String → Parsed W)
      → ((v : V) (w : W) (rest : List String) → R v w → Same R (f v rest) (g w rest))
      → Same R p q
      → Same R (after p f) (after q g)
  Same-after f g h (both_parsed r) = h _ _ _ r
  Same-after f g h both_fail = both_fail
  Same-after f g h both_out = both_out

  Same-if :
      (b : Bool) {p p' : Parsed V} {q q' : Parsed W}
      → Same R p q
      → Same R p' q'
      → Same R (if b then p else p') (if b then q else q')
  Same-if true h k = h
  Same-if false h k = k

  Same-closing :
      (v : V) (w : W) (rest : List String) → R v w → Same R (closing v rest) (closing w rest)
  unfolding closing
  Same-closing v w [] r = both_fail
  Same-closing v w (token ∷ tokens) r = Same-if (token == ")") (both_parsed r) both_fail

module _ {V W : Type 0} (R : V → W → Type 0) (d : Domain V) (e : Domain W) (related : Related R d e)
    (is_decimal : ℕ → Bool) where
  Same-unary_symbol :
      (symbol : String) (tokens : List String) {p p' : Parsed V} {q q' : Parsed W}
      → Same R p q
      → Same R p' q'
      → Same R
          (unary_symbol d is_decimal symbol p p' tokens)
          (unary_symbol e is_decimal symbol q q' tokens)
  unfolding unary_symbol
  Same-unary_symbol symbol tokens h k =
      Same-if R (symbol == "!")
        (Same-after R _ _ (λ v w rest r. both_parsed (related.negation v w r)) h)
        (Same-if R (symbol == "-")
          (Same-after R _ _ (λ v w rest r. both_parsed (related.negated v w r)) h)
          (Same-if R (symbol == "+") h (
            Same-if R (symbol == "@")
              (Same-after R _ _ (λ v w rest r. both_parsed (related.absolute v w r)) h)
              (Same-if R (symbol == "(") (Same-after R _ _ (Same-closing R) k) (
                Same-if R (starts_digit is_decimal symbol) (both_parsed (related.number symbol)) (
                  Same-if R (not (starts_alpha symbol)) both_fail (
                    Same-if R
                      ((lowers_to symbol "floor" || lowers_to symbol "ceil") && opens tokens)
                      (Same-after R _ _ (λ v w rest r. both_parsed (related.rounded symbol v w r))
                        h)
                      (both_parsed (related.atom symbol)))))))))

  combine-related :
      (level : ℕ) (op : String) (v v' : V) (w w' : W)
      → R v w
      → R v' w'
      → R (combine d is_decimal level v op v') (combine e is_decimal level w op w')
  combine-related level op v v' w w' h k = elim (Bool-cases (leb level 3)) [
    | inl logic ↦ rw logic (related.logic op v v' w w' h k)
    | inr other ↦ elim (Bool-cases (level ==ℕ 4)) [
      | inl compares ↦ rw (other, compares) (related.comparison op v v' w w' h k)
      | inr computes ↦ rw (other, computes) (related.arithmetic op v v' w w' h k)
    ]
  ]

  mutual
    unfolding parse_unary parse_binary climb

    Same-parse_unary :
        (fuel : ℕ) (tokens : List String)
        → Same R (parse_unary d is_decimal fuel tokens) (parse_unary e is_decimal fuel tokens)
    Same-parse_unary zero tokens = both_out
    Same-parse_unary (suc fuel) [] = both_fail
    Same-parse_unary (suc fuel) (symbol ∷ tokens) =
        Same-unary_symbol symbol tokens (Same-parse_unary fuel tokens)
          (Same-parse_binary fuel 1 tokens)

    Same-parse_binary :
        (fuel lowest : ℕ) (tokens : List String)
        → Same R
            (parse_binary d is_decimal fuel lowest tokens)
            (parse_binary e is_decimal fuel lowest tokens)
    Same-parse_binary zero lowest tokens = both_out
    Same-parse_binary (suc fuel) lowest tokens =
        Same-after R _ _ (λ v w rest r. Same-climb fuel lowest v w rest r)
          (Same-parse_unary fuel tokens)

    Same-climb :
        (fuel lowest : ℕ) (v : V) (w : W) (tokens : List String)
        → R v w
        → Same R (climb d is_decimal fuel lowest v tokens) (climb e is_decimal fuel lowest w tokens)
    Same-climb zero lowest v w tokens r = both_out
    Same-climb (suc fuel) lowest v w [] r = both_parsed r
    Same-climb (suc fuel) lowest v w (op ∷ tokens) r =
        elim (Option-cases (at_least lowest (precedence op))) [
          | inl stops ↦ rw (stops, climb) (both_parsed r)
          | inr (level, goes) ↦
              rw (goes, climb)
                (Same-after R _ _
                  (λ v' w' rest r'.
                    Same-climb fuel lowest _ _ rest (combine-related level op v v' w w' r r'))
                  (Same-parse_binary fuel (suc level) tokens))
        ]

  whole-related :
      {p : Parsed V} {q : Parsed W}
      → Same R p q
      → OptionRelated R (whole d is_decimal p) (whole e is_decimal q)
  unfolding OptionRelated
  whole-related (both_parsed {rest} r) = whole_rest rest r
    where
      whole_rest :
          {v : V} {w : W} (rest : List String)
          → R v w
          → OptionRelated R
              (whole d is_decimal (parsed v rest))
              (whole e is_decimal (parsed w rest))
      whole_rest [] r = r
      whole_rest (token ∷ tokens) r = tt
  whole-related both_fail = tt
  whole-related both_out = tt

  parse_tokens-related :
      (o : Option (List String))
      → OptionRelated R (parse_tokens d is_decimal o) (parse_tokens e is_decimal o)
  unfolding parse_tokens OptionRelated
  parse_tokens-related none = tt
  parse_tokens-related (some []) = tt
  parse_tokens-related (some (token ∷ tokens)) =
      whole-related (Same-parse_binary (2 * length (token ∷ tokens) + 2) 1 (token ∷ tokens))

  -- A condition is read in full in both domains or in neither, and its values are related.
  pub evaluate-related :
      (condition : String)
      → OptionRelated R (evaluate d is_decimal condition) (evaluate e is_decimal condition)
  unfolding evaluate
  evaluate-related condition = parse_tokens-related (tokenize_condition is_decimal condition)
