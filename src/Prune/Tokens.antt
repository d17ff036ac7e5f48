-- ===== src/Prune/Tokens.antt =====
-- The tokens of a condition.
-- packages/simc-cli/src/simc_cli/prune.py
-- `is_decimal` is Unicode's table of decimal digits, which `\d` matches.
use warcraft_cli.Base.{
  ℕ, zero, suc, ◌+◌, String, code, Bool, true, false, ◌&&◌, ◌||◌, Option, none, some, List, [], ◌∷◌,
  ◌==ℕ◌, leb, cat, text_length, starts_with, text_drop, strip_left, strip_right, if◌then◌else◌,
}

-- ASCII's letters, and the characters of an identifier after its first
abbrev pub is_letter : ℕ → Bool
is_letter c = (leb b'A' c && leb c b'Z') || (leb b'a' c && leb c b'z')

abbrev pub is_name_char : ℕ → Bool
is_name_char c = is_letter c || (leb b'0' c && leb c b'9') || (c ==ℕ b'_') || (c ==ℕ b'.')

-- The longest start of a text whose characters pass the test, and the rest.
unfoldable pub span_while : (ℕ → Bool) → String → String × String
span_while test String.[] = ("", "")
span_while test (String.◌∷◌ c s) =
    let (t, rest) = span_while test s in
    if test (code c) then (String.◌∷◌ c t, rest) else ("", String.◌∷◌ c s)

-- The operators in the order in which the expression tries them.
abbrev pub operators : List String
operators =
    "~!=" ∷ "~<=" ∷ "~>=" ∷ "~=" ∷ "~<" ∷ "~>" ∷ "!~" ∷ "<=" ∷ ">=" ∷ "<?" ∷ ">?" ∷ "!=" ∷ "%%"
    ∷ "&&" ∷ "||" ∷ "^^" ∷ "==" ∷ "(" ∷ ")" ∷ "+" ∷ "-" ∷ "*" ∷ "%" ∷ "@" ∷ "&" ∷ "|" ∷ "^" ∷ "~"
    ∷ "=" ∷ "!" ∷ "<" ∷ ">" ∷ []

unfoldable pub match_operator : List String → String → Option (String × String)
match_operator [] text = none
match_operator (op ∷ ops) text =
    let later = match_operator ops text in
    if starts_with text op then some (op, text_drop (text_length op) text) else later

-- `\d+(?:\.\d*)?`, from the digits and what follows them
unfoldable pub fraction : (ℕ → Bool) → String → String → String × String
unfolding span_while
fraction is_decimal whole String.[] = (whole, "")
fraction is_decimal whole (String.◌∷◌ c s) =
    let (digits, rest) = span_while is_decimal s in
    if code c ==ℕ b'.' then (cat whole (String.◌∷◌ c digits), rest) else (whole, String.◌∷◌ c s)

-- `TOKEN_RE.match`, past the white space
unfoldable pub match_token : (ℕ → Bool) → String → Option (String × String)
unfolding span_while fraction match_operator text_drop
match_token is_decimal String.[] = none
match_token is_decimal (String.◌∷◌ c s) =
    let (digits, after) = span_while is_decimal (String.◌∷◌ c s) in
    if is_decimal (code c)
    then some (fraction is_decimal digits after)
    else if is_letter (code c)
    then some (span_while is_name_char (String.◌∷◌ c s))
    else match_operator operators (String.◌∷◌ c s)

-- The loop of `tokenize_condition`, with fuel for its rounds.
unfoldable pub tokens_from : ℕ → (ℕ → Bool) → String → Option (List String)
unfolding match_token strip_left
tokens_from zero is_decimal text = none
tokens_from (suc fuel) is_decimal String.[] = some []
tokens_from (suc fuel) is_decimal (String.◌∷◌ c s) =
    elim (match_token is_decimal (strip_left (String.◌∷◌ c s))) [
      | none ↦ none
      | some (token, rest) ↦ elim (tokens_from fuel is_decimal rest) [
        | none ↦ none
        | some tokens ↦ some (token ∷ tokens)
      ]
    ]

unfoldable pub tokenize_condition : (ℕ → Bool) → String → Option (List String)
unfolding tokens_from strip_right
tokenize_condition is_decimal condition =
    let text = strip_right condition in tokens_from (suc (text_length text)) is_decimal text

-- `symbol[0].isdigit()` and `symbol[0].isalpha()`, of a token
abbrev pub starts_digit : (ℕ → Bool) → String → Bool
starts_digit is_decimal String.[] = false
starts_digit is_decimal (String.◌∷◌ c s) = is_decimal (code c)

abbrev pub starts_alpha : String → Bool
starts_alpha String.[] = false
starts_alpha (String.◌∷◌ c s) = is_letter (code c)

abbrev pub lower : ℕ → ℕ
lower c = if leb b'A' c && leb c b'Z' then c + 32 else c

-- `symbol.lower() == word`, for an identifier and a word in lower case
unfoldable pub lowers_to : String → String → Bool
lowers_to String.[] String.[] = true
lowers_to (String.◌∷◌ c s) (String.◌∷◌ d t) = (lower (code c) ==ℕ code d) && lowers_to s t
lowers_to _ _ = false
