-- ===== src/Apl/Pieces.antt =====
-- Splitting a text that is put together of two: the last piece of the one runs on into the other's first.
use Prim.Native.String.compare
use Prim.Native.String.{then}
use Prim.Native.Nat.{Ordering, compare as compare_ℕ}
use text.Mathlib.Text.{is_eq}
use warcraft_cli.Base.{
  ℕ, String, Char, code, ◌≡◌, refl, sym, ap, subst, true, false, not, ◌&&◌, List, [], ◌∷◌, ◌++◌,
  ◌==◌, ◌==ℕ◌, eq_iff, cat, split, ends_with, onto_first, keep, arith, Bool-cases, inl, inr,
}

unfoldable pub joined : List String → List String → List String
unfolding cat
joined [] ys = ys
joined (x ∷ []) [] = x ∷ []
joined (x ∷ []) (y ∷ ys) = cat x y ∷ ys
joined (x ∷ z ∷ xs) ys = x ∷ joined (z ∷ xs) ys

pub split-cases : (k : ℕ) (s : String) → (x : String) × (xs : List String) × (split k s ≡ x ∷ xs)
unfolding split
split-cases k String.[] = ("", [], refl)
split-cases k (String.◌∷◌ c s) = elim (Bool-cases (code c ==ℕ k)) [
  | inl here ↦ ("", split k s, rw here refl)
  | inr other ↦ let (x, xs, e) = split-cases k s in (String.◌∷◌ c x, xs, rw (other, e) refl)
]

-- A separator starts a new piece, and any other character the first one.
onto_split :
    (c : Char) (x : String) (xs : List String) (y : String) (ys : List String)
    → joined (String.◌∷◌ c x ∷ xs) (y ∷ ys) ≡ onto_first c (joined (x ∷ xs) (y ∷ ys))
unfolding joined
onto_split c x [] y ys = refl
onto_split c x (z ∷ xs) y ys = refl

pub split-cat : (k : ℕ) (s t : String) → split k (cat s t) ≡ joined (split k s) (split k t)
unfolding split cat joined
split-cat k String.[] t = let (y, ys, e) = split-cases k t in rw e refl
split-cat k (String.◌∷◌ c s) t =
    let (x, xs, e) = split-cases k s in
    let (y, ys, f) = split-cases k t in
    elim (Bool-cases (code c ==ℕ k)) [
      | inl here ↦ rw (here, split-cat k s t, e) refl
      | inr other ↦ rw (other, split-cat k s t, e, f) (sym (onto_split c x xs y ys))
    ]

unfoldable pub last_piece : List String → String
last_piece [] = ""
last_piece (x ∷ []) = x
last_piece (x ∷ y ∷ xs) = last_piece (y ∷ xs)

abbrev pub filled : List String → List String
filled ps = keep (λ p. not (p == "")) ps

-- `actions[-1] += text`, on the texts
unfoldable pub continued : String → List String → List String
unfolding cat
continued p [] = p ∷ []
continued p (x ∷ []) = cat x p ∷ []
continued p (x ∷ y ∷ xs) = x ∷ continued p (y ∷ xs)

pub cat_assoc : (s t u : String) → cat (cat s t) u ≡ cat s (cat t u)
unfolding cat
cat_assoc String.[] t u = refl
cat_assoc (String.◌∷◌ c s) t u = ap (λ t. String.◌∷◌ c t) (cat_assoc s t u)

pub cat_end : (s : String) → cat s "" ≡ s
unfolding cat
cat_end String.[] = refl
cat_end (String.◌∷◌ c s) = ap (λ t. String.◌∷◌ c t) (cat_end s)

pub cons_full : (c : Char) (s : String) → (String.◌∷◌ c s == "") ≡ false
cons_full c s = rw (compare.cons-nil c s) refl

cat_full : (s t : String) → (s == "") ≡ false → (cat s t == "") ≡ false
unfolding cat
cat_full String.[] t h = absurd (ground arith)
cat_full (String.◌∷◌ c s) t h = cons_full c (cat s t)

pub filled_full :
    (xs : List String)
    → (last_piece xs == "") ≡ false
    → (p : String) × (ps : List String) × (filled xs ≡ p ∷ ps)
unfolding last_piece keep
filled_full [] h = absurd (ground arith)
filled_full (x ∷ []) h = (x, [], rw h refl)
filled_full (x ∷ z ∷ xs) h =
    let (p, ps, e) = filled_full (z ∷ xs) h in
    elim (Bool-cases (x == "")) [
      | inl b ↦ (p, ps, rw (b, e) refl)
      | inr b ↦ (x, p ∷ ps, rw (b, e) refl)
    ]

-- Where the last piece is empty, the next text starts anew.
pub filled-joined_open :
    (x : String) (xs : List String) (y : String) (ys : List String)
    → (last_piece (x ∷ xs) == "") ≡ true
    → filled (joined (x ∷ xs) (y ∷ ys)) ≡ filled (x ∷ xs) ++ filled (y ∷ ys)
unfolding joined last_piece keep cat
filled-joined_open x [] y ys h = rw ((eq_iff x "").0 h) refl
filled-joined_open x (z ∷ xs) y ys h = elim (Bool-cases (x == "")) [
  | inl b ↦ rw (b, filled-joined_open z xs y ys h) refl
  | inr b ↦ rw (b, filled-joined_open z xs y ys h) refl
]

-- Where it is not, the next text runs on.
pub filled-joined_closed :
    (x : String) (xs : List String) (y : String) (ys : List String)
    → (last_piece (x ∷ xs) == "") ≡ false
    → filled (joined (x ∷ xs) (y ∷ ys)) ≡ continued y (filled (x ∷ xs)) ++ filled ys
unfolding joined last_piece keep cat continued
filled-joined_closed x [] y ys h = rw (cat_full x y h, h) refl
filled-joined_closed x (z ∷ xs) y ys h =
    let (p, ps, e) = filled_full (z ∷ xs) h in
    elim (Bool-cases (x == "")) [
      | inl b ↦ rw (b, filled-joined_closed z xs y ys h) refl
      | inr b ↦ rw (b, filled-joined_closed z xs y ys h, e) refl
    ]

-- A piece that is the whole of a text that is not empty is not empty.
only_full :
    (c d : Char) (s : String) (x : String) (xs : List String)
    → split b'/' (String.◌∷◌ d s) ≡ x ∷ xs
    → (last_piece (x ∷ xs) == "") ≡ (last_piece (String.◌∷◌ c x ∷ xs) == "")
unfolding split last_piece
only_full c d s x [] e =
    let (y, ys, f) = split-cases b'/' s in
    elim (Bool-cases (code d ==ℕ b'/')) [
      | inl here ↦ absurd (ground (arith, f, rw here at e))
      | inr other ↦
          let g : String.◌∷◌ d y ∷ ys ≡ x ∷ [] = rw (other, f) at e in
          let h : String.◌∷◌ d y ≡ x = ground arith in
          subst (λ x. (x == "") ≡ (String.◌∷◌ c x == "")) h
            (rw (cons_full d y, cons_full c (String.◌∷◌ d y)) refl)
    ]
only_full c d s x (z ∷ xs) e = refl

then_gt : (o : Ordering) → is_eq ((then) o Ordering.gt) ≡ false
then_gt Ordering.lt = refl
then_gt Ordering.eq = refl
then_gt Ordering.gt = refl

then_eq : (o : Ordering) → is_eq ((then) o Ordering.eq) ≡ elim o [ Ordering.eq ↦ true | _ ↦ false ]
then_eq Ordering.lt = refl
then_eq Ordering.eq = refl
then_eq Ordering.gt = refl

slash_one : (c : Char) → (String.◌∷◌ c "" == "/") ≡ (code c ==ℕ b'/')
slash_one c = rw (compare.cons-cons c "/" "" "") (then_eq (compare_ℕ (code c) b'/'))

pub slash_start : (c d : Char) (s : String) → (String.◌∷◌ c (String.◌∷◌ d s) == "/") ≡ false
slash_start c d s =
    rw (compare.cons-cons c "/" (String.◌∷◌ d s) "", compare.cons-nil d s)
      (then_gt (compare_ℕ (code c) b'/'))

onto_last :
    (c : Char) (t x : String) (xs : List String)
    → split b'/' t ≡ x ∷ xs
    → (last_piece (x ∷ xs) == "") ≡ (last_piece (String.◌∷◌ c x ∷ xs) == "")
    → (last_piece (split b'/' t) == "") ≡ (last_piece (split b'/' (String.◌∷◌ c t)) == "")
unfolding split last_piece
onto_last c t x xs e h = elim (Bool-cases (code c ==ℕ b'/')) [
  | inl here ↦ rw (here, e) refl
  | inr other ↦ rw (other, e) h
]

-- A text ends with a slash where it is not empty and its last piece is.
pub ends_with-split :
    (s : String) → ends_with s "/" ≡ (not (s == "") && (last_piece (split b'/' s) == ""))
unfolding ends_with split last_piece
ends_with-split String.[] = refl
ends_with-split (String.◌∷◌ c String.[]) = elim (Bool-cases (code c ==ℕ b'/')) [
  | inl here ↦ rw (slash_one c, here, cons_full c "") refl
  | inr other ↦ rw (slash_one c, other, cons_full c "") refl
]
ends_with-split (String.◌∷◌ c (String.◌∷◌ d s)) =
    let (x, xs, e) = split-cases b'/' (String.◌∷◌ d s) in
    rw
      (
        slash_start c d s,
        ends_with-split (String.◌∷◌ d s),
        cons_full c (String.◌∷◌ d s),
        cons_full d s,
      )
      (onto_last c (String.◌∷◌ d s) x xs e (only_full c d s x xs e))

pub ends_with-cat :
    (t : String) (d : Char) (v : String)
    → ends_with (cat t (String.◌∷◌ d v)) "/" ≡ ends_with (String.◌∷◌ d v) "/"
unfolding ends_with cat
ends_with-cat String.[] d v = refl
ends_with-cat (String.◌∷◌ c String.[]) d v = rw (slash_start c d v) refl
ends_with-cat (String.◌∷◌ c (String.◌∷◌ e t)) d v =
    rw (slash_start c e (cat t (String.◌∷◌ d v)), ends_with-cat (String.◌∷◌ e t) d v) refl
