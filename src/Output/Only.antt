-- ===== src/Output/Only.antt =====
-- What a projection holds, and that it holds nothing besides.
-- packages/warcraft-core/src/warcraft_core/output.py, `filter_payload_fields`
use warcraft_cli.Base.{
  String, ◌≡◌, ◌≢◌, ◌⊎◌, ◌∙◌, refl, sym, Bool, true, false, ◌&&◌, some, List, [], ◌∷◌, ◌++◌, arith,
  ◌==◌, eq_iff, Bool-cases, Option-cases, inl, inr, is_some, any, All, split,
}
use warcraft_cli.Json.{
  Value, null, bool, int, float, str, list, dict, Fields, end, lookup, insert, as_dict, texts,
}
use warcraft_cli.Output.{
  extract, extract_dict_path, assign, assign_dict_path, project, projected, with_missing,
  filter_payload_fields, fields_missing_key,
}
use warcraft_cli.Output.Paths.{insert_at, insert_other}
use warcraft_cli.Output.Project.{
  IsProper, Kept, missing_paths, assign_proper, found_step, missing_step, project-nil, filter_some,
  Kept-and_missing,
}

-- One of the paths leads to the other.
abbrev pub comparable : List String → List String → Bool
comparable [] ks = true
comparable (q ∷ qs) [] = true
comparable (q ∷ qs) (k ∷ ks) = (q == k) && comparable qs ks

extract-as_dict :
    (k j : String) (js : List String) (F : Fields)
    → extract (j ∷ js) (dict (as_dict (lookup k F))) ≡ extract (k ∷ j ∷ js) (dict F)
unfolding extract as_dict lookup
extract-as_dict k j js F = elim (Option-cases (lookup k F)) [
  | inl e ↦ rw (e, extract) refl
  | inr (dict d, e) ↦ rw (e, extract) refl
  | inr (null, e) ↦ rw (e, extract) refl
  | inr (bool b, e) ↦ rw (e, extract) refl
  | inr (int n, e) ↦ rw (e, extract) refl
  | inr (float t, e) ↦ rw (e, extract) refl
  | inr (str s, e) ↦ rw (e, extract) refl
  | inr (list xs, e) ↦ rw (e, extract) refl
]

-- A path that does not lead to the written one, nor from it, reads as before.
extract-assign_other :
    (q p : List String) (w : Value) (F : Fields)
    → comparable q p ≡ false
    → extract p (dict (assign q w F)) ≡ extract p (dict F)
unfolding assign
extract-assign_other [] p w F h = absurd (ground arith)
extract-assign_other (k ∷ ks) [] w F h = absurd (ground arith)
extract-assign_other (k ∷ []) (j ∷ js) w F h =
    insert_other k j js w F (λ p. ground (arith, eq_iff k j))
extract-assign_other (k ∷ k' ∷ ks) (j ∷ []) w F h =
    insert_other k j [] _ F (λ p. ground (arith, eq_iff k j))
extract-assign_other (k ∷ k' ∷ ks) (j ∷ j' ∷ js) w F h = elim (Bool-cases (k == j)) [
  | inl e ↦
      let k_is_j = (eq_iff k j).0 e in
      rw (← k_is_j) (
        insert_at k (j' ∷ js) _ F
        ∙ extract-assign_other (k' ∷ ks) (j' ∷ js) w (as_dict (lookup k F)) (ground arith)
        ∙ extract-as_dict k j' js F)
  | inr e ↦ insert_other k j (j' ∷ js) _ F (λ p. ground (arith, eq_iff k j))
]

module _ (P : Fields) where
  -- The payload has the requested path, and the keys lead to it or from it.
  abbrev pub is_asked : List String → String → Bool
  is_asked ks path = is_some (extract_dict_path P path) && comparable (split b'.' path) ks

  project_only :
      (qs : List String) (F : Fields) (M ks : List String) (v : Value)
      → All IsProper qs
      → extract ks (dict (project P qs (F, M)).0) ≡ some v
      → (any (is_asked ks) qs ≡ true) ⊎ (extract ks (dict F) ≡ some v)
  unfolding any
  project_only [] F M ks v hs h = inr (rw (project-nil P) at h)
  project_only (q ∷ qs) F M ks v hs h = elim (Option-cases (extract_dict_path P q)) [
    | inl e ↦
        elim (project_only qs F (M ++ q ∷ []) ks v hs.1 (rw (missing_step P q qs F M e) at h)) [
          | inl found ↦ inl (ground arith)
          | inr old ↦ inr old
        ]
    | inr (w, e) ↦
        elim (project_only qs (assign_dict_path F q w) M ks v hs.1
          (rw (found_step P q qs w F M e) at h)) [
            | inl found ↦ inl (ground arith)
            | inr new ↦ elim (Bool-cases (comparable (split b'.' q) ks)) [
              | inl c ↦ inl (rw (e, c) refl)
              | inr c ↦ inr (
                  sym (extract-assign_other (split b'.' q) ks w F c)
                  ∙ rw (assign_proper q w F hs.0) at new)
            ]
          ]
  ]

  -- Whatever stands in a dict at a path is asked for, or is the list of the missing paths.
  abbrev pub Only : Fields → List String → Type 0
  Only d paths =
      (k : String) (ks : List String) (v : Value)
      → extract (k ∷ ks) (dict d) ≡ some v
      → (any (is_asked (k ∷ ks)) paths ≡ true)
        ⊎ ((k ≡ fields_missing_key) × (missing_paths P paths ≢ []))

  extract-end : (k : String) (ks : List String) (v : Value) → extract (k ∷ ks) (dict end) ≢ some v
  unfolding extract lookup
  extract-end k ks v h = ground arith

  asked_only :
      (paths : List String) (k : String) (ks : List String) (v : Value)
      → All IsProper paths
      → extract (k ∷ ks) (dict (project P paths (end, [])).0) ≡ some v
      → any (is_asked (k ∷ ks)) paths ≡ true
  asked_only paths k ks v hs h = elim (project_only paths end [] (k ∷ ks) v hs h) [
    | inl found ↦ found
    | inr old ↦ absurd (extract-end k ks v old)
  ]

  with_missing-Only :
      (strict : Bool) (paths m : List String) (d : Fields)
      → All IsProper paths
      → missing_paths P paths ≡ m
      → with_missing strict ((project P paths (end, [])).0, m) ≡ projected d
      → Only d paths
  unfolding with_missing
  with_missing-Only strict paths [] d hs e h k ks v there =
      let same : (project P paths (end, [])).0 ≡ d = ground arith in
      inl (asked_only paths k ks v hs (rw (← same) at there))
  with_missing-Only true paths (p ∷ m) d hs e h k ks v there = absurd (ground arith)
  with_missing-Only false paths (p ∷ m) d hs e h k ks v there =
      let F = (project P paths (end, [])).0 in
      let same : insert fields_missing_key (list (texts (p ∷ m))) F ≡ d = ground arith in
      elim (Bool-cases (fields_missing_key == k)) [
        | inl here ↦ inr (sym ((eq_iff fields_missing_key k).0 here), λ none_left. ground arith)
        | inr other ↦ inl (
            asked_only paths k ks v hs (
              sym (
                insert_other fields_missing_key k ks _ F
                  (λ p. ground (arith, eq_iff fields_missing_key k)))
              ∙ rw (← same) at there))
      ]

  -- A projection onto proper paths, of which no key is empty and the first is not `fields_missing`, has
  -- the payload's value at every requested path that the payload has, however the paths overlap. It
  -- lists exactly the others as missing, if there are any. Whatever else can be read from it leads to a
  -- requested path that the payload has, or from one, or is that list.
  pub filter_payload_fields-Kept :
      (p : String) (ps : List String) (strict : Bool) (d : Fields)
      → All IsProper (p ∷ ps)
      → filter_payload_fields P (p ∷ ps) strict ≡ projected d
      → Kept P d (p ∷ ps)
        × (missing_paths P (p ∷ ps) ≢ []
            → lookup fields_missing_key d ≡ some (list (texts (missing_paths P (p ∷ ps)))))
        × Only d (p ∷ ps)
  filter_payload_fields-Kept p ps strict d hs e =
      let (kept, listed) = Kept-and_missing P p ps strict d hs e in
      (
        kept,
        listed,
        with_missing-Only strict (p ∷ ps) (missing_paths P (p ∷ ps)) d hs refl
            (sym (filter_some P p ps strict) ∙ e),
      )
