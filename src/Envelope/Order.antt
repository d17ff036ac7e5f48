-- ===== src/Envelope/Order.antt =====
-- The order in which texts are sorted.
use text.Mathlib.TextEquality.{Char-path}
use text.Mathlib.TextLemmas.{cons-eq-cons}
use warcraft_cli.Base.{
  String, ◌≡◌, refl, true, false, List, [], ◌∷◌, arith, ◌==◌, eq_iff, All, Bool-cases, inl, inr,
}
use warcraft_cli.Envelope.Sort.{text_lt, place, sorted}

text_lt_trans : (r s t : String) → text_lt r s ≡ true → text_lt s t ≡ true → text_lt r t ≡ true
unfolding text_lt
text_lt_trans r s String.[] g h = absurd (ground arith)
text_lt_trans String.[] s (String.◌∷◌ d t) g h = refl
text_lt_trans (String.◌∷◌ b r) String.[] (String.◌∷◌ d t) g h = absurd (ground arith)
text_lt_trans (String.◌∷◌ b r) (String.◌∷◌ c s) (String.◌∷◌ d t) g h =
    ground (arith, text_lt_trans r s t)

text_lt_total : (s t : String) → text_lt s t ≡ false → text_lt t s ≡ false → s ≡ t
unfolding text_lt
text_lt_total String.[] String.[] g h = refl
text_lt_total String.[] (String.◌∷◌ d t) g h = absurd (ground arith)
text_lt_total (String.◌∷◌ c s) String.[] g h = absurd (ground arith)
text_lt_total (String.◌∷◌ c s) (String.◌∷◌ d t) g h =
    cons-eq-cons.1 (Char-path c d (ground arith), text_lt_total s t (ground arith) (ground arith))

-- Each text is below those after it, so that none is there twice.
abbrev pub Ascending : List String → Type 0
Ascending [] = Unit
Ascending (s ∷ ts) = All (λ t. text_lt s t ≡ true) ts × Ascending ts

All-above :
    (r s : String) (ts : List String)
    → text_lt r s ≡ true
    → All (λ t. text_lt s t ≡ true) ts
    → All (λ t. text_lt r t ≡ true) ts
All-above r s [] g h = tt
All-above r s (t ∷ ts) g h = (text_lt_trans r s t g h.0, All-above r s ts g h.1)

place_above :
    (r s : String) (ts : List String)
    → text_lt r s ≡ true
    → All (λ t. text_lt r t ≡ true) ts
    → All (λ t. text_lt r t ≡ true) (place s ts)
unfolding place
place_above r s [] g h = (g, tt)
place_above r s (t ∷ ts) g h = elim (Bool-cases (s == t)) [
  | inl e ↦ rw e h
  | inr e ↦ elim (Bool-cases (text_lt s t)) [
    | inl f ↦ rw (e, f) (g, h)
    | inr f ↦ rw (e, f) (h.0, place_above r s ts g h.1)
  ]
]

place-Ascending : (s : String) (ts : List String) → Ascending ts → Ascending (place s ts)
unfolding place
place-Ascending s [] h = (tt, tt)
place-Ascending s (t ∷ ts) h = elim (Bool-cases (s == t)) [
  | inl e ↦ rw e h
  | inr e ↦ elim (Bool-cases (text_lt s t)) [
    | inl f ↦ rw (e, f) ((f, All-above s t ts f h.0), h)
    | inr f ↦ elim (Bool-cases (text_lt t s)) [
      | inl g ↦ rw (e, f) (place_above t s ts g h.0, place-Ascending s ts h.1)
      | inr g ↦ absurd (ground (arith, (eq_iff s t).1 (text_lt_total s t f g)))
    ]
  ]
]

pub sorted-Ascending : (ss : List String) → Ascending (sorted ss)
unfolding sorted
sorted-Ascending [] = tt
sorted-Ascending (s ∷ ss) = place-Ascending s (sorted ss) (sorted-Ascending ss)
