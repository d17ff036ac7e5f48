-- ===== src/Apl/Texts.antt =====
-- The effective text of each list of a file, and the actions that `parse_apl` reads from it.
-- packages/simc-cli/src/simc_cli/apl.py, `parse_apl`
use warcraft_cli.Apl.Effective.{
  bodies, Realizes, Realizes-assign_list_on, Realizes-assign_list_reset,
}
use warcraft_cli.Apl.Talents.{ActionSource, is_word_char}
use warcraft_cli.Apl.Parse.{
  Assignment, ActionList, Lists, list_at, assign_list, read_assignment, read_lines, strip_comment,
  match_op, match_named, match_assignment,
}
use warcraft_cli.Apl.Pieces.{filled}
use warcraft_cli.Prune.Tokens.{span_while}
use warcraft_cli.Base.{
  ℕ, suc, String, ◌≡◌, ◌⊎◌, refl, not, Option, none, some, List, [], ◌∷◌, ◌==◌, cat, split,
  ends_with, starts_with, text_drop, keep, value_at, set_at, value_at-set_at, Bool-cases, if_cases,
  inl, inr, if◌then◌else◌,
}

-- The lists' texts: `=` sets one, and `+=` adds to it.
abbrev pub Texts : Type 0
Texts = List (String × String)

abbrev pub text_at : Option String → String
text_at none = ""
text_at (some text) = text

abbrev pub assign_text : Option Assignment → Texts → Texts
assign_text none texts = texts
assign_text (some a) texts =
    set_at a.list_name
      (if a.op == "=" then a.value else cat (text_at (value_at a.list_name texts)) a.value) texts

unfoldable pub effective_texts : List String → Texts → Texts
unfolding strip_comment match_assignment value_at set_at cat
effective_texts [] texts = texts
effective_texts (raw_line ∷ raw_lines) texts =
    let line = strip_comment raw_line in
    effective_texts raw_lines
      (if line == "" then texts else assign_text (match_assignment line) texts)

abbrev IsOp : Option Assignment → Type 0
IsOp none = Unit
IsOp (some a) = (a.op ≡ "=") ⊎ (a.op ≡ "+=")

match_op-IsOp : (list_name rest : String) → IsOp (match_op list_name rest)
unfolding match_op
match_op-IsOp list_name rest =
    if_cases IsOp (starts_with rest "+=") _ _ (inr refl)
      (if_cases IsOp (starts_with rest "=") _ none (inl refl) tt)

match_named-IsOp : (p : String × String) → IsOp (match_named p)
match_named-IsOp (name, rest) = if_cases IsOp (name == "") none _ tt (match_op-IsOp name rest)

match_assignment-IsOp : (line : String) → IsOp (match_assignment line)
unfolding match_assignment
match_assignment-IsOp line = if_cases IsOp (not (starts_with line "actions")) none _ tt (
    if_cases IsOp (starts_with (text_drop 7 line) ".") _ _
      (match_named-IsOp (span_while is_word_char (text_drop 1 (text_drop 7 line))))
      (match_op-IsOp "default" (text_drop 7 line)))

-- Every list's actions are the pieces of its text.
abbrev pub Agree : Lists → Texts → Type 0
Agree lists texts =
    (name : String) → Realizes (list_at (value_at name lists)) (text_at (value_at name texts))

Realizes-assign_text :
    (source : String → ActionSource) (a : Assignment) (l : ActionList) (text : String)
    → ((b : String) → (source b).text ≡ b)
    → IsOp (some a)
    → Realizes l text
    → Realizes
        (assign_list source a.op a.value l)
        (if a.op == "=" then a.value else cat text a.value)
Realizes-assign_text source a l text h (inl e) r =
    rw e (Realizes-assign_list_reset source h a.value l)
Realizes-assign_text source a l text h (inr e) r =
    rw e (Realizes-assign_list_on source h a.value text l r)

Agree-read_assignment :
    (line_no : ℕ) (line : String) (o : Option Assignment) (lists : Lists) (texts : Texts)
    → IsOp o
    → Agree lists texts
    → Agree (read_assignment line_no line o lists) (assign_text o texts)
Agree-read_assignment line_no line none lists texts i h name = h name
Agree-read_assignment line_no line (some a) lists texts i h name =
    rw (value_at-set_at name a.list_name _ lists, value_at-set_at name a.list_name _ texts)
      (elim (Bool-cases (a.list_name == name)) [
        | inl same ↦ rw same (
            Realizes-assign_text
              (λ body. record { text = body; line_no = line_no; op = a.op; raw = line }) a
              (list_at (value_at a.list_name lists)) (text_at (value_at a.list_name texts))
              (λ b. refl) i (h a.list_name))
        | inr other ↦ rw other (h name)
      ])

Agree-read_lines :
    (line_no : ℕ) (lines : List String) (lists : Lists) (texts : Texts)
    → Agree lists texts
    → Agree (read_lines line_no lines lists) (effective_texts lines texts)
unfolding read_lines effective_texts
Agree-read_lines line_no [] lists texts h = h
Agree-read_lines line_no (raw ∷ raws) lists texts h = elim (Bool-cases (strip_comment raw == "")) [
  | inl empty ↦ rw empty (Agree-read_lines (suc line_no) raws lists texts h)
  | inr full ↦ rw full (
      Agree-read_lines (suc line_no) raws _ _ (
        Agree-read_assignment line_no (strip_comment raw) (match_assignment (strip_comment raw))
          lists texts (match_assignment-IsOp (strip_comment raw)) h))
]

-- The actions of a list are the texts between the slashes of its effective text, without the empty
-- ones and in their order: the text that the last `=` gives it and each `+=` after that adds to.
pub read_lines-effective_texts :
    (line_no : ℕ) (lines : List String) (name : String)
    → bodies (list_at (value_at name (read_lines line_no lines []))).actions
      ≡ filled (split b'/' (text_at (value_at name (effective_texts lines []))))
unfolding value_at split keep ends_with
read_lines-effective_texts line_no lines name =
    (Agree-read_lines line_no lines [] [] (λ n. record { pieces = refl; ends = refl }) name).pieces
