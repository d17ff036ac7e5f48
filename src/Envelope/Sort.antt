-- ===== src/Envelope/Sort.antt =====
-- `sorted` on texts: by code points, equal texts once (the program sorts sets of keys).
use Prim.Native.Char.{code}
use warcraft_cli.Base.{
  String, ◌≡◌, ◌≢◌, refl, Bool, true, false, List, [], ◌∷◌, arith, ◌==◌, ◌==ℕ◌, ltb, mem, eq_iff,
  ap, ◌∙◌, ◌||◌, if◌then◌else◌,
}

-- `s < t`
unfoldable pub text_lt : String → String → Bool
text_lt s String.[] = false
text_lt String.[] (String.◌∷◌ d t) = true
text_lt (String.◌∷◌ c s) (String.◌∷◌ d t) =
    let rest = text_lt s t in if code c ==ℕ code d then rest else ltb (code c) (code d)

unfoldable pub place : String → List String → List String
place s [] = s ∷ []
place s (t ∷ ts) =
    let rest = place s ts in if s == t then t ∷ ts else if text_lt s t then s ∷ t ∷ ts else t ∷ rest

unfoldable pub sorted : List String → List String
unfolding place text_lt
sorted [] = []
sorted (s ∷ ss) = place s (sorted ss)

place-ne-nil : (s : String) (ts : List String) → place s ts ≢ []
unfolding place
place-ne-nil s [] e = ground arith
place-ne-nil s (t ∷ ts) e = ground arith

-- Nothing is left out: only the empty list sorts to the empty list.
pub sorted-eq-nil : (ss : List String) → sorted ss ≡ [] → ss ≡ []
unfolding sorted
sorted-eq-nil [] e = refl
sorted-eq-nil (s ∷ ss) e = absurd (place-ne-nil s (sorted ss) e)

-- Sorting keeps what is there.
mem-place : (k s : String) (ts : List String) → mem k (place s ts) ≡ ((s == k) || mem k ts)
unfolding place mem
mem-place k s [] = refl
mem-place k s (t ∷ ts) = ground (arith, mem-place k s ts, eq_iff s t)

pub mem-sorted : (k : String) (ss : List String) → mem k (sorted ss) ≡ mem k ss
unfolding sorted mem
mem-sorted k [] = refl
mem-sorted k (s ∷ ss) = mem-place k s (sorted ss) ∙ ap (λ b. (s == k) || b) (mem-sorted k ss)
