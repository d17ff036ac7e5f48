-- ===== src/Base/Texts.antt =====
-- Texts as the program walks them: `str` methods by recursion over the characters.
use Prim.Native.Nat.{ℕ, zero, suc, ◌+◌, ◌≤◌, ◌/◌, ◌%◌}
use Prim.Native.Char.{Char, code}
use Prim.Native.String.{String}
use mathlib.Core.Path.{◌≡◌, refl}
use mathlib.Core.Bool.{Bool, true, false, ◌&&◌, ◌||◌}
use mathlib.Core.List.{List, [], ◌∷◌}
use mathlib.Core.Option.{Option, none, some}
use native.Mathlib.Omega.{arith}
use text.Mathlib.Text.{◌==◌}
use warcraft_cli.Base.Tests.{◌==ℕ◌, ltb, leb, if◌then◌else◌}

-- `len(s)`, in characters
unfoldable pub text_length : String → ℕ
text_length String.[] = 0
text_length (String.◌∷◌ c s) = suc (text_length s)

-- `s + t`
unfoldable pub cat : String → String → String
cat String.[] t = t
cat (String.◌∷◌ c s) t = String.◌∷◌ c (cat s t)

-- `s[:n]`
unfoldable pub prefix : ℕ → String → String
prefix zero s = ""
prefix (suc n) String.[] = ""
prefix (suc n) (String.◌∷◌ c s) = String.◌∷◌ c (prefix n s)

-- `s[n:]`
unfoldable pub text_drop : ℕ → String → String
text_drop zero s = s
text_drop (suc n) String.[] = ""
text_drop (suc n) (String.◌∷◌ c s) = text_drop n s

-- `ch in s`, for one character
unfoldable pub has_char : ℕ → String → Bool
has_char k String.[] = false
has_char k (String.◌∷◌ c s) = (code c ==ℕ k) || has_char k s

-- `s.startswith(t)`
unfoldable pub starts_with : String → String → Bool
starts_with s String.[] = true
starts_with String.[] (String.◌∷◌ d t) = false
starts_with (String.◌∷◌ c s) (String.◌∷◌ d t) = (code c ==ℕ code d) && starts_with s t

-- `s.endswith(t)`
unfoldable pub ends_with : String → String → Bool
ends_with String.[] t = t == ""
ends_with (String.◌∷◌ c s) t = (String.◌∷◌ c s == t) || ends_with s t

-- Puts a character before the first piece of a split.
abbrev pub onto_first : Char → List String → List String
onto_first c [] = String.◌∷◌ c "" ∷ []
onto_first c (p ∷ ps) = String.◌∷◌ c p ∷ ps

-- `s.split(ch)`, for a separator of one character
unfoldable pub split : ℕ → String → List String
split k String.[] = "" ∷ []
split k (String.◌∷◌ c s) =
    let rest = split k s in if code c ==ℕ k then "" ∷ rest else onto_first c rest

pub text_length-cat : (s t : String) → text_length (cat s t) ≡ text_length s + text_length t
unfolding text_length cat
text_length-cat String.[] t = omega arith
text_length-cat (String.◌∷◌ c s) t = omega (arith, text_length-cat s t)

pub text_length-prefix : (n : ℕ) (s : String) → n ≤ text_length s → text_length (prefix n s) ≡ n
unfolding text_length prefix
text_length-prefix zero s h = refl
text_length-prefix (suc n) String.[] h = absurd (omega arith)
text_length-prefix (suc n) (String.◌∷◌ c s) h = omega (arith, text_length-prefix n s)

split_dots : split b'.' "a..bc" ≡ "a" ∷ "" ∷ "bc" ∷ []
unfolding split
split_dots = refl

-- The white space that `str.strip` and `str.split` know.
unfoldable pub is_space : ℕ → Bool
is_space c =
    (leb 9 c && leb c 13)
    || (leb 28 c && leb c 32)
    || (c ==ℕ 133)
    || (c ==ℕ 160)
    || (c ==ℕ 5760)
    || (leb 8192 c && leb c 8202)
    || (c ==ℕ 8232)
    || (c ==ℕ 8233)
    || (c ==ℕ 8239)
    || (c ==ℕ 8287)
    || (c ==ℕ 12288)

-- `s.lstrip()`, `s.rstrip()` and `s.strip()`
unfoldable pub strip_left : String → String
unfolding is_space
strip_left String.[] = ""
strip_left (String.◌∷◌ c s) =
    let rest = strip_left s in if is_space (code c) then rest else String.◌∷◌ c s

abbrev onto_stripped : Char → String → String
onto_stripped c String.[] = if is_space (code c) then "" else String.◌∷◌ c ""
onto_stripped c (String.◌∷◌ d s) = String.◌∷◌ c (String.◌∷◌ d s)

unfoldable pub strip_right : String → String
unfolding is_space
strip_right String.[] = ""
strip_right (String.◌∷◌ c s) = onto_stripped c (strip_right s)

unfoldable pub strip : String → String
unfolding strip_left strip_right
strip s = strip_right (strip_left s)

strip_both : strip "  a b " ≡ "a b"
unfolding strip
strip_both = refl

-- `str(n)` of a number
unfoldable pub digit : ℕ → String
digit n =
    if n ==ℕ 0
    then "0"
    else if n ==ℕ 1
    then "1"
    else if n ==ℕ 2
    then "2"
    else if n ==ℕ 3
    then "3"
    else if n ==ℕ 4
    then "4"
    else if n ==ℕ 5
    then "5"
    else if n ==ℕ 6
    then "6"
    else if n ==ℕ 7
    then "7"
    else if n ==ℕ 8
    then "8"
    else "9"

-- The fuel bounds the digits: `n` has at most `n + 1`.
decimal_digits : ℕ → ℕ → String
decimal_digits zero n = ""
decimal_digits (suc fuel) n =
    let rest = decimal_digits fuel (n / 10) in
    if ltb n 10 then digit n else cat rest (digit (n % 10))

unfoldable pub decimal : ℕ → String
unfolding digit decimal_digits cat
decimal n = decimal_digits (suc n) n

decimal_two : decimal 205 ≡ "205"
unfolding decimal
decimal_two = refl

-- `s in texts`
unfoldable pub mem : String → List String → Bool
mem s [] = false
mem s (t ∷ ts) = (t == s) || mem s ts

-- `sep.join(texts)`
unfoldable pub join : String → List String → String
unfolding cat
join sep [] = ""
join sep (t ∷ []) = t
join sep (t ∷ u ∷ ts) = cat t (cat sep (join sep (u ∷ ts)))

-- `d.get(k)`, for a dict with texts as keys
module _ {ℓ} {V : Type ℓ} where
  unfoldable pub value_at : String → List (String × V) → Option V
  value_at k [] = none
  value_at k ((j, v) ∷ d) = if j == k then some v else value_at k d

  -- `d[k] = v`
  unfoldable pub set_at : String → V → List (String × V) → List (String × V)
  set_at k v [] = (k, v) ∷ []
  set_at k v ((j, w) ∷ d) = if j == k then (k, v) ∷ d else (j, w) ∷ set_at k v d

-- `s.split(sep, 1)` where `sep` is in `s`: what stands before it and after it
unfoldable pub split_once : String → String → Option (String × String)
unfolding text_drop starts_with text_length
split_once sep String.[] = none
split_once sep (String.◌∷◌ c s) =
    let rest = split_once sep s in
    if starts_with (String.◌∷◌ c s) sep
    then some ("", text_drop (text_length sep) (String.◌∷◌ c s))
    else elim rest [ none ↦ none | some (t, u) ↦ some (String.◌∷◌ c t, u) ]

-- `s.replace("_", " ")`
unfoldable pub spaced : String → String
unfolding join split
spaced s = join " " (split b'_' s)
