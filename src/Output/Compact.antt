-- ===== src/Output/Compact.antt =====
-- What `--compact` leaves alone, and that compacting twice is compacting once.
use warcraft_cli.Base.{
  ℕ, suc, ◌-◌, ◌≤◌, String, ◌≡◌, refl, sym, ap, ap₂, ◌∙◌, ◌↔◌, Bool, true, false, ◌||◌, List, [],
  ◌∷◌, ◌++◌, arith, Bool-cases, inl, inr, text_length, prefix, text_length-cat, text_length-prefix,
}
use warcraft_cli.Json.{
  Value, Items, Fields, null, bool, int, float, str, list, dict, nil, cons, end, field,
}
use warcraft_cli.Output.{
  is_verbatim_key, stays, shorten, compact_value, compact_items, compact_fields,
}

-- A shortened text has exactly the length asked for.
text_length-shorten :
    (m : ℕ) (s : String) → 3 ≤ m → m ≤ text_length s → text_length (shorten m s) ≡ m
unfolding shorten
text_length-shorten m s h k =
    text_length-cat (prefix (m - 3) s) "..."
    ∙ omega (arith, text_length-prefix (m - 3) s (omega arith), dots)
  where
    dots : text_length "..." ≡ 3
    dots = unfold text_length in refl

stays-shorten :
    (m : ℕ) (verbatim : Bool) (s : String)
    → 3 ≤ m
    → stays m verbatim s ≡ false
    → stays m verbatim (shorten m s) ≡ true
unfolding stays
stays-shorten m verbatim s h e = ground (arith, text_length-shorten m s)

module _ (m : ℕ) (three : 3 ≤ m) where
  mutual
    unfolding compact_value

    value_twice :
        (path path' : String) (verbatim : Bool) (v : Value)
        → compact_value m path' verbatim (compact_value m path verbatim v).0
          ≡ ((compact_value m path verbatim v).0, [])
    value_twice path path' verbatim (str s) = elim (Bool-cases (stays m verbatim s)) [
      | inl e ↦ rw (e, compact_value) (rw (e, compact_value))
      | inr e ↦ rw (e, compact_value) (rw (stays-shorten m verbatim s three e, compact_value))
    ]
    value_twice path path' verbatim (list xs) = rw (items_twice path path' verbatim 0 0 xs)
    value_twice path path' verbatim (dict d) = rw (fields_twice path path' verbatim d)
    value_twice path path' verbatim null = refl
    value_twice path path' verbatim (bool b) = refl
    value_twice path path' verbatim (int n) = refl
    value_twice path path' verbatim (float t) = refl

    items_twice :
        (path path' : String) (verbatim : Bool) (i j : ℕ) (xs : Items)
        → compact_items m path' verbatim j (compact_items m path verbatim i xs).0
          ≡ ((compact_items m path verbatim i xs).0, [])
    items_twice path path' verbatim i j nil = refl
    items_twice path path' verbatim i j (cons v xs) =
        rw (value_twice _ _ verbatim v, items_twice path path' verbatim (suc i) (suc j) xs)

    fields_twice :
        (path path' : String) (verbatim : Bool) (d : Fields)
        → compact_fields m path' verbatim (compact_fields m path verbatim d).0
          ≡ ((compact_fields m path verbatim d).0, [])
    fields_twice path path' verbatim end = refl
    fields_twice path path' verbatim (field k v d) =
        rw (value_twice _ _ (verbatim || is_verbatim_key k) v, fields_twice path path' verbatim d)

append-nil_left {ℓ} : {A : Type ℓ} (xs ys : List A) → xs ++ ys ≡ [] → xs ≡ []
append-nil_left [] ys h = refl
append-nil_left (x ∷ xs) ys h = absurd (ground arith)

append-nil_right {ℓ} : {A : Type ℓ} (xs ys : List A) → xs ++ ys ≡ [] → ys ≡ []
append-nil_right [] ys h = h
append-nil_right (x ∷ xs) ys h = absurd (ground arith)

module _ (m : ℕ) where
  mutual
    unfolding compact_value

    value_uncut :
        (path : String) (verbatim : Bool) (v : Value)
        → (compact_value m path verbatim v).1 ≡ []
        → (compact_value m path verbatim v).0 ≡ v
    value_uncut path verbatim (str s) h = elim (Bool-cases (stays m verbatim s)) [
      | inl e ↦ rw (e, compact_value)
      | inr e ↦ absurd (ground arith)
    ]
    value_uncut path verbatim (list xs) h = ap list (items_uncut path verbatim 0 xs h)
    value_uncut path verbatim (dict d) h = ap dict (fields_uncut path verbatim d h)
    value_uncut path verbatim null h = refl
    value_uncut path verbatim (bool b) h = refl
    value_uncut path verbatim (int n) h = refl
    value_uncut path verbatim (float t) h = refl

    items_uncut :
        (path : String) (verbatim : Bool) (i : ℕ) (xs : Items)
        → (compact_items m path verbatim i xs).1 ≡ []
        → (compact_items m path verbatim i xs).0 ≡ xs
    items_uncut path verbatim i nil h = refl
    items_uncut path verbatim i (cons v xs) h =
        ap₂ cons (value_uncut _ verbatim v (append-nil_left _ _ h))
          (items_uncut path verbatim (suc i) xs (append-nil_right _ _ h))

    fields_uncut :
        (path : String) (verbatim : Bool) (d : Fields)
        → (compact_fields m path verbatim d).1 ≡ []
        → (compact_fields m path verbatim d).0 ≡ d
    fields_uncut path verbatim end h = refl
    fields_uncut path verbatim (field k v d) h =
        ap₂ (field k) (value_uncut _ (verbatim || is_verbatim_key k) v (append-nil_left _ _ h))
          (fields_uncut path verbatim d (append-nil_right _ _ h))

-- Compacting a compacted value changes nothing more and records no further path, for any limit of at
-- least three characters.
pub compact_value_idem :
    (m : ℕ) (path path' : String) (verbatim : Bool) (v : Value)
    → 3 ≤ m
    → compact_value m path' verbatim (compact_value m path verbatim v).0
      ≡ ((compact_value m path verbatim v).0, [])
compact_value_idem m path path' verbatim v three = value_twice m three path path' verbatim v

-- No cut is silent, and no path is recorded for nothing: the list of cut paths is empty exactly when
-- the value is unchanged.
pub compact_value_exact :
    (m : ℕ) (path : String) (verbatim : Bool) (v : Value)
    → 3 ≤ m
    → ((compact_value m path verbatim v).1 ≡ []) ↔ ((compact_value m path verbatim v).0 ≡ v)
compact_value_exact m path verbatim v three = (
  value_uncut m path verbatim v,
  λ same.
      ap (λ w. (compact_value m path verbatim w).1) (sym same)
      ∙ ap (λ r. r.1) (value_twice m three path path verbatim v),
)
