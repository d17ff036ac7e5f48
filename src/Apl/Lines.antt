-- ===== src/Apl/Lines.antt =====
-- The lines of the talents that an action names.
-- packages/simc-cli/src/simc_cli/apl.py, `_talent_source_lines`
use warcraft_cli.Apl.Talents.{
  ActionSource, Sources, body_of, find_talents, line_at, locate, talent_source_lines, is_word_char,
}
use warcraft_cli.Base.{
  ℕ, zero, suc, ◌+◌, ◌<◌, ◌≤◌, String, ◌≡◌, refl, ap, not, ◌&&◌, some, List, [], ◌∷◌, ◌++◌, ◌==◌,
  All, ltb, text_length, text_length-cat, starts_with, text_drop, arith, Bool-cases, if_cases, inl,
  inr,
}
use warcraft_cli.Prune.Tokens.{span_while}

-- Each match lies in the text.
find_talents_within :
    (bound skip pos : ℕ) (s : String)
    → pos + text_length s ≤ bound
    → All (λ r. r.1 < bound) (find_talents skip pos s)
unfolding find_talents text_length
find_talents_within bound skip pos String.[] h = tt
find_talents_within bound (suc skip) pos (String.◌∷◌ c s) h =
    find_talents_within bound skip (suc pos) s (omega arith)
find_talents_within bound zero pos (String.◌∷◌ c s) h =
    if_cases (All (λ r. r.1 < bound))
      (starts_with (String.◌∷◌ c s) "talent."
        && not ((span_while is_word_char (text_drop 7 (String.◌∷◌ c s))).0 == ""))
      (((span_while is_word_char (text_drop 7 (String.◌∷◌ c s))).0, pos)
        ∷ find_talents (6 + text_length (span_while is_word_char (text_drop 7 (String.◌∷◌ c s))).0)
            (suc pos) s)
      (find_talents 0 (suc pos) s)
      (omega arith, find_talents_within bound _ (suc pos) s (omega arith))
      (find_talents_within bound 0 (suc pos) s (omega arith))

-- A place of the text, past the offset, lies in one of the sources that the text is put together of,
-- and the source has the line.
pub record LiesIn (offset : ℕ) (sources : Sources) (place line_no : ℕ) : Type 0 where
  pub before : Sources
  pub source : ActionSource
  pub after : Sources
  pub parts : sources ≡ before ++ source ∷ after
  pub from : offset + text_length (body_of before) ≤ place
  pub to : place < offset + (text_length (body_of before) + text_length source.text)
  pub line : source.line_no ≡ line_no

-- The references are the matches in their order, each with the line of the source it begins in.
pub data Located (sources : Sources) : List (String × ℕ) → List (String × ℕ) → Type 0 where
  done : Located sources [] []
  next :
      {name : String} {place line_no : ℕ} {matches references : List (String × ℕ)}
      → LiesIn 0 sources place line_no
      → Located sources matches references
      → Located sources ((name, place) ∷ matches) ((name, line_no) ∷ references)

line_at-LiesIn :
    (place offset : ℕ) (sources : Sources)
    → offset ≤ place
    → place < offset + text_length (body_of sources)
    → (k : ℕ) × (line_at place offset sources ≡ some k) × LiesIn offset sources place k
unfolding line_at body_of text_length
line_at-LiesIn place offset [] g h = absurd (omega arith)
line_at-LiesIn place offset (source ∷ sources) g h =
    elim (Bool-cases (ltb place (offset + text_length source.text))) [
      | inl here ↦ (
        source.line_no,
        rw here refl,
        record {
          before = [];
          source = source;
          after = sources;
          parts = refl;
          from = omega arith;
          to = ground arith;
          line = refl;
        },
      )
      | inr past ↦
          let (k, e, l) =
            line_at-LiesIn place (offset + text_length source.text) sources (ground arith)
              (ground (arith, text_length-cat source.text (body_of sources))) in
          (
            k,
            rw (past, e) refl,
            record {
              before = source ∷ l.before;
              source = l.source;
              after = l.after;
              parts = ap (λ s. source ∷ s) l.parts;
              from = omega (arith, l.from, text_length-cat source.text (body_of l.before));
              to = omega (arith, l.to, text_length-cat source.text (body_of l.before));
              line = l.line;
            },
          )
    ]

locate-Located :
    (sources : Sources) (matches : List (String × ℕ))
    → All (λ r. r.1 < text_length (body_of sources)) matches
    → Located sources matches (locate sources matches)
unfolding locate
locate-Located sources [] h = done
locate-Located sources ((name, place) ∷ matches) h =
    let (k, e, l) = line_at-LiesIn place 0 sources (omega arith) (omega (arith, h.0)) in
    rw e (next l (locate-Located sources matches h.1))

-- `talent_source_lines` has every talent that an action's text names, in the order of the text, each
-- with the line of the source in which its mention begins.
pub talent_source_lines-find_talents :
    (sources : Sources)
    → Located sources
        (find_talents 0 0 (body_of sources))
        (talent_source_lines (body_of sources) sources)
unfolding talent_source_lines
talent_source_lines-find_talents sources =
    locate-Located sources (find_talents 0 0 (body_of sources))
      (find_talents_within (text_length (body_of sources)) 0 0 (body_of sources) (omega arith))
