-- ===== src/Apl/Talents.antt =====
-- The pieces that an action is put together of, and the lines of the talents that it names.
-- packages/simc-cli/src/simc_cli/apl.py
use warcraft_cli.Base.{
  ℕ, zero, suc, ◌+◌, String, Bool, not, ◌&&◌, ◌||◌, Option, none, some, List, [], ◌∷◌, ◌==◌, ◌==ℕ◌,
  leb, ltb, cat, text_length, starts_with, text_drop, if◌then◌else◌,
}
use warcraft_cli.Prune.Tokens.{is_letter, span_while}

-- `_ActionSource`
pub record ActionSource : Type 0 where
  pub text : String
  pub line_no : ℕ
  pub op : String
  pub raw : String

abbrev pub Sources : Type 0
Sources = List ActionSource

abbrev pub is_word_char : ℕ → Bool
is_word_char c = is_letter c || (leb b'0' c && leb c b'9') || (c ==ℕ b'_')

unfoldable pub body_of : Sources → String
unfolding cat
body_of [] = ""
body_of (source ∷ sources) = cat source.text (body_of sources)

-- `TALENT_RE.finditer(body)`: each name with the place of its match, past the characters to skip.
unfoldable pub find_talents : ℕ → ℕ → String → List (String × ℕ)
unfolding starts_with text_drop span_while text_length
find_talents skip pos String.[] = []
find_talents (suc skip) pos (String.◌∷◌ c s) = find_talents skip (suc pos) s
find_talents zero pos (String.◌∷◌ c s) =
    let name = (span_while is_word_char (text_drop 7 (String.◌∷◌ c s))).0 in
    let unread = find_talents 0 (suc pos) s in
    let rest = find_talents (6 + text_length name) (suc pos) s in
    if starts_with (String.◌∷◌ c s) "talent." && not (name == "")
    then (name, pos) ∷ rest
    else unread

-- The line of the first source that ends after the place.
unfoldable pub line_at : ℕ → ℕ → Sources → Option ℕ
unfolding text_length
line_at start offset [] = none
line_at start offset (source ∷ sources) =
    let rest = line_at start (offset + text_length source.text) sources in
    if ltb start (offset + text_length source.text) then some source.line_no else rest

abbrev pub add_reference : String → Option ℕ → List (String × ℕ) → List (String × ℕ)
add_reference name none references = references
add_reference name (some line_no) references = (name, line_no) ∷ references

unfoldable pub locate : Sources → List (String × ℕ) → List (String × ℕ)
unfolding line_at
locate sources [] = []
locate sources ((name, start) ∷ matches) =
    add_reference name (line_at start 0 sources) (locate sources matches)

-- `_talent_source_lines`
unfoldable pub talent_source_lines : String → Sources → List (String × ℕ)
unfolding locate find_talents
talent_source_lines body sources = locate sources (find_talents 0 0 body)
