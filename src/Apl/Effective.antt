-- ===== src/Apl/Effective.antt =====
-- What the assignments to a list come to: the pieces between the slashes of its effective text.
-- packages/simc-cli/src/simc_cli/apl.py, `parse_apl`
use warcraft_cli.Apl.Talents.{ActionSource, Sources, body_of}
use warcraft_cli.Apl.Parse.{ActionList, continue_last, add_actions, add_pieces, assign_list}
use warcraft_cli.Apl.Pieces.{
  split-cases, split-cat, joined, last_piece, filled, continued, filled-joined_open,
  filled-joined_closed, filled_full, ends_with-split, ends_with-cat, cat_end, cat_assoc, cons_full,
}
use warcraft_cli.Base.{
  String, ◌≡◌, refl, sym, ◌∙◌, true, false, not, ◌&&◌, List, [], ◌∷◌, ◌++◌, ◌==◌, eq_iff, cat,
  split, ends_with, keep, map, arith, Bool-cases, inl, inr, if◌then◌else◌, append_assoc, append-nil,
}

abbrev pub bodies : List Sources → List String
bodies actions = map body_of actions

-- The actions are the pieces of the text between its slashes, but for the empty ones.
pub record Realizes (l : ActionList) (text : String) : Type 0 where
  pub pieces : bodies l.actions ≡ filled (split b'/' text)
  pub ends : l.ends_open ≡ ends_with text "/"

body_of-append :
    (xs : Sources) (s : ActionSource) → body_of (xs ++ s ∷ []) ≡ cat (body_of xs) s.text
unfolding body_of cat
body_of-append [] s = cat_end s.text
body_of-append (x ∷ xs) s = rw (body_of-append xs s) (sym (cat_assoc x.text (body_of xs) s.text))

module _ (source : String → ActionSource) (h : (b : String) → (source b).text ≡ b) where
  body_of-source : (p : String) → body_of (source p ∷ []) ≡ p
  unfolding body_of
  body_of-source p = cat_end (source p).text ∙ h p

  bodies-continue_last :
      (p : String) (actions : List Sources)
      → bodies (continue_last (source p) actions) ≡ continued p (bodies actions)
  unfolding continue_last continued
  bodies-continue_last p [] = rw (body_of-source p) refl
  bodies-continue_last p (x ∷ []) = rw (body_of-append x (source p), h p) refl
  bodies-continue_last p (x ∷ y ∷ xs) = rw (bodies-continue_last p (y ∷ xs)) refl

  bodies-append :
      (xs : List Sources) (p : String) → bodies (xs ++ (source p ∷ []) ∷ []) ≡ bodies xs ++ p ∷ []
  bodies-append [] p = rw (body_of-source p) refl
  bodies-append (x ∷ xs) p = rw (bodies-append xs p) refl

  bodies-add_actions :
      (ps : List String) (actions : List Sources)
      → bodies (add_actions source ps actions) ≡ bodies actions ++ filled ps
  unfolding add_actions keep
  bodies-add_actions [] actions = sym (append-nil (bodies actions))
  bodies-add_actions (p ∷ ps) actions = elim (Bool-cases (p == "")) [
    | inl empty ↦ rw (empty, bodies-add_actions ps actions) refl
    | inr full ↦
        rw (full, bodies-add_actions ps (actions ++ (source p ∷ []) ∷ []), bodies-append actions p)
          (append_assoc (bodies actions) (p ∷ []) (filled ps))
  ]

  bodies-add_pieces_anew :
      (p : String) (ps : List String) (actions : List Sources)
      → bodies (add_pieces source false (p ∷ ps) actions) ≡ bodies actions ++ filled (p ∷ ps)
  unfolding add_pieces add_actions
  bodies-add_pieces_anew p ps actions = bodies-add_actions (p ∷ ps) actions

  bodies-add_pieces_on :
      (p : String) (ps : List String) (actions : List Sources)
      → bodies (add_pieces source true (p ∷ ps) actions)
        ≡ (if p == "" then bodies actions else continued p (bodies actions)) ++ filled ps
  unfolding add_pieces
  bodies-add_pieces_on p ps actions = elim (Bool-cases (p == "")) [
    | inl empty ↦ rw (empty, bodies-add_actions ps actions) refl
    | inr full ↦
        rw
          (
            full,
            bodies-add_actions ps (continue_last (source p) actions),
            bodies-continue_last p actions,
          )
          refl
  ]

  continued_nothing : (y : String) (ys : List String) → continued "" (y ∷ ys) ≡ y ∷ ys
  unfolding continued
  continued_nothing y [] = rw (cat_end y) refl
  continued_nothing y (z ∷ ys) = rw (continued_nothing z ys) refl

  runs_on :
      (x : String) (xs : List String) (p : String) (ps : List String)
      → (last_piece (x ∷ xs) == "") ≡ false
      → (if p == "" then filled (x ∷ xs) else continued p (filled (x ∷ xs))) ++ filled ps
        ≡ filled (joined (x ∷ xs) (p ∷ ps))
  runs_on x xs p ps full = elim (Bool-cases (p == "")) [
    | inr other ↦ rw other (sym (filled-joined_closed x xs p ps full))
    | inl empty ↦
        let (q, qs, e) = filled_full (x ∷ xs) full in
        rw
          (
            empty,
            filled-joined_closed x xs p ps full,
            (eq_iff p "").0 empty,
            e,
            continued_nothing q qs,
          )
          refl
  ]

  starts_list :
      (value : String) (actions : List Sources)
      → bodies actions ≡ []
      → bodies (add_pieces source true (split b'/' value) actions) ≡ filled (split b'/' value)
  unfolding continued keep
  starts_list value actions e =
      let (p, ps, f) = split-cases b'/' value in
      rw (f, bodies-add_pieces_on p ps actions, e)
        (elim (Bool-cases (p == "")) [ inl empty ↦ rw empty refl | inr full ↦ rw full refl ])

  -- A value that runs on from a text.
  pieces_on :
      (text value : String) (actions : List Sources)
      → bodies actions ≡ filled (split b'/' text)
      → ends_with text "/" ≡ false
      → bodies (add_pieces source true (split b'/' value) actions)
        ≡ filled (split b'/' (cat text value))
  unfolding cat split keep
  pieces_on text value actions e shut = elim (Bool-cases (text == "")) [
    | inl empty ↦
        let nothing : text ≡ "" = (eq_iff text "").0 empty in
        rw nothing (starts_list value actions (rw nothing at e))
    | inr full ↦
        let (p, ps, f) = split-cases b'/' value in
        let (x, xs, g) = split-cases b'/' text in
        let split_shut : (not (text == "") && (last_piece (x ∷ xs) == "")) ≡ false =
          rw g at (sym (ends_with-split text) ∙ shut) in
        rw (split-cat b'/' text value, f, bodies-add_pieces_on p ps actions, e, g)
          (runs_on x xs p ps (ground arith))
  ]

  pieces_anew :
      (text value : String) (actions : List Sources)
      → bodies actions ≡ filled (split b'/' text)
      → ends_with text "/" ≡ true
      → bodies (add_pieces source false (split b'/' value) actions)
        ≡ filled (split b'/' (cat text value))
  pieces_anew text value actions e ajar =
      let (p, ps, f) = split-cases b'/' value in
      let (x, xs, g) = split-cases b'/' text in
      let split_open : (not (text == "") && (last_piece (x ∷ xs) == "")) ≡ true =
        rw g at (sym (ends_with-split text) ∙ ajar) in
      rw (split-cat b'/' text value, f, bodies-add_pieces_anew p ps actions, e, g)
        (sym (filled-joined_open x xs p ps (ground arith)))

  ends_with_value :
      (text value : String)
      → (if value == "" then ends_with text "/" else ends_with value "/")
        ≡ ends_with (cat text value) "/"
  ends_with_value text String.[] = rw (cat_end text) refl
  ends_with_value text (String.◌∷◌ d v) = rw (cons_full d v, ends_with-cat text d v) refl

  pub Realizes-assign_list_on :
      (value text : String) (l : ActionList)
      → Realizes l text
      → Realizes (assign_list source "+=" value l) (cat text value)
  unfolding assign_list
  Realizes-assign_list_on value text l r = elim (Bool-cases l.ends_open) [
    | inl ajar ↦ record {
      pieces = rw ajar (pieces_anew text value l.actions r.pieces (sym r.ends ∙ ajar));
      ends = rw (r.ends) (ends_with_value text value);
    }
    | inr shut ↦ record {
      pieces = rw shut (pieces_on text value l.actions r.pieces (sym r.ends ∙ shut));
      ends = rw (r.ends) (ends_with_value text value);
    }
  ]

  pub Realizes-assign_list_reset :
      (value : String) (l : ActionList) → Realizes (assign_list source "=" value l) value
  unfolding assign_list cat
  Realizes-assign_list_reset value l = record {
    pieces = let (p, ps, f) = split-cases b'/' value in rw (f, bodies-add_pieces_anew p ps []) refl;
    ends = ends_with_value "" value;
  }
