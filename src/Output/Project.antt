-- ===== src/Output/Project.antt =====
-- What `--fields` keeps and what it reports missing.
use warcraft_cli.Base.{
  String, ◌≡◌, ◌≢◌, refl, sym, ap, subst, ◌∙◌, none, some, List, [], ◌∷◌, ◌++◌, arith, ◌==◌, Bool,
  true, false, not, Option-cases, inl, inr, is_some, keep, append-nil, append_assoc, All, split,
}
use warcraft_cli.Json.{Value, Fields, list, end, lookup, insert, texts}
use warcraft_cli.Json.Laws.{lookup-insert_self}
use warcraft_cli.Output.{
  extract_dict_path, assign, assign_dict_path, project, projected, with_missing,
  filter_payload_fields, fields_missing_key,
}
use warcraft_cli.Output.Paths.{extract-assign, extract-assign_self, insert_other}

-- A path as users write it: no key on the way is empty, and the first is not `fields_missing`.
pub record IsProper (path : String) : Type 0 where
  pub first : String
  pub rest : List String
  pub keys : split b'.' path ≡ first ∷ rest
  pub free : fields_missing_key ≢ first
  pub none_empty : keep (λ k. not (k == "")) (split b'.' path) ≡ split b'.' path

-- The requested paths that the payload does not have.
abbrev pub missing_paths : Fields → List String → List String
missing_paths payload paths = keep (λ p. not (is_some (extract_dict_path payload p))) paths

pub assign_proper :
    (path : String) (w : Value) (F : Fields)
    → IsProper path
    → assign_dict_path F path w ≡ assign (split b'.' path) w F
unfolding assign_dict_path
assign_proper path w F h = rw h.none_empty

written :
    (path : String) (w : Value) (F : Fields)
    → IsProper path
    → extract_dict_path (assign_dict_path F path w) path ≡ some w
unfolding extract_dict_path
written path w F h =
    rw (assign_proper path w F h) (rw h.keys (extract-assign_self h.first h.rest w F))

module _ (P : Fields) where
  kept_by_write :
      (q p : String) (v w : Value) (F : Fields)
      → IsProper q
      → extract_dict_path P q ≡ some w
      → extract_dict_path P p ≡ some v
      → extract_dict_path F p ≡ some v
      → extract_dict_path (assign_dict_path F q w) p ≡ some v
  unfolding extract_dict_path
  kept_by_write q p v w F hq found_q found_p at_F =
      rw (assign_proper q w F hq)
        (extract-assign (split b'.' q) (split b'.' p) v w P F found_q found_p at_F)

  -- One step of the loop.
  pub found_step :
      (q : String) (qs : List String) (w : Value) (F : Fields) (M : List String)
      → extract_dict_path P q ≡ some w
      → project P (q ∷ qs) (F, M) ≡ project P qs (assign_dict_path F q w, M)
  unfolding project
  found_step q qs w F M h = rw h

  pub missing_step :
      (q : String) (qs : List String) (F : Fields) (M : List String)
      → extract_dict_path P q ≡ none
      → project P (q ∷ qs) (F, M) ≡ project P qs (F, M ++ q ∷ [])
  unfolding project
  missing_step q qs F M h = rw h

  pub project-nil : (s : Fields × List String) → project P [] s ≡ s
  unfolding project
  project-nil s = refl

  -- What agrees with the payload stays so to the end of the loop.
  project_keeps :
      (qs : List String) (p : String) (v : Value) (F : Fields) (M : List String)
      → All IsProper qs
      → extract_dict_path P p ≡ some v
      → extract_dict_path F p ≡ some v
      → extract_dict_path (project P qs (F, M)).0 p ≡ some v
  project_keeps [] p v F M hs found at_F = rw project-nil at_F
  project_keeps (q ∷ qs) p v F M hs found at_F = elim (Option-cases (extract_dict_path P q)) [
    | inl e ↦ rw (missing_step q qs F M e) (project_keeps qs p v F (M ++ q ∷ []) hs.1 found at_F)
    | inr (w, e) ↦ rw (found_step q qs w F M e) (
        project_keeps qs p v (assign_dict_path F q w) M hs.1 found
          (kept_by_write q p v w F hs.0 e found at_F))
  ]

  project_missing :
      (qs : List String) (F : Fields) (M : List String)
      → (project P qs (F, M)).1 ≡ M ++ missing_paths P qs
  unfolding keep
  project_missing [] F M = rw project-nil (sym (append-nil M))
  project_missing (q ∷ qs) F M = elim (Option-cases (extract_dict_path P q)) [
    | inl e ↦
        rw (missing_step q qs F M e, e)
          (project_missing qs F (M ++ q ∷ []) ∙ append_assoc M (q ∷ []) (missing_paths P qs))
    | inr (w, e) ↦ rw (found_step q qs w F M e, e) (project_missing qs (assign_dict_path F q w) M)
  ]

  -- A dict has every one of the payload's values at the given paths.
  abbrev pub Kept : Fields → List String → Type 0
  Kept F = All (λ p. (v : Value) → extract_dict_path P p ≡ some v → extract_dict_path F p ≡ some v)

  project-Kept :
      (qs : List String) (F : Fields) (M : List String)
      → All IsProper qs
      → Kept (project P qs (F, M)).0 qs
  project-Kept [] F M hs = tt
  project-Kept (q ∷ qs) F M hs = elim (Option-cases (extract_dict_path P q)) [
    | inl e ↦
        subst (λ s. Kept s.0 (q ∷ qs)) (sym (missing_step q qs F M e))
          ((λ v found. absurd (ground arith)), project-Kept qs F (M ++ q ∷ []) hs.1)
    | inr (w, e) ↦
        subst (λ s. Kept s.0 (q ∷ qs)) (sym (found_step q qs w F M e))
          (
            (λ v found.
                project_keeps qs q v (assign_dict_path F q w) M hs.1 found
                  (written q w F hs.0 ∙ sym e ∙ found)),
            project-Kept qs (assign_dict_path F q w) M hs.1,
          )
  ]

  -- The key that lists what is missing hides no requested path.
  Kept-beside :
      (qs : List String) (w : Value) (F : Fields)
      → All IsProper qs
      → Kept F qs
      → Kept (insert fields_missing_key w F) qs
  unfolding extract_dict_path
  Kept-beside [] w F hs h = tt
  Kept-beside (q ∷ qs) w F hs h = (
    (λ v found.
        rw hs.0.keys (insert_other fields_missing_key hs.0.first hs.0.rest w F hs.0.free)
        ∙ h.0 v found),
    Kept-beside qs w F hs.1 h.1,
  )

  pub filter_some :
      (p : String) (ps : List String) (strict : Bool)
      → filter_payload_fields P (p ∷ ps) strict
        ≡ with_missing strict ((project P (p ∷ ps) (end, [])).0, missing_paths P (p ∷ ps))
  unfolding filter_payload_fields
  filter_some p ps strict =
      ap (λ m. with_missing strict ((project P (p ∷ ps) (end, [])).0, m))
        (project_missing (p ∷ ps) end [])

  with_missing-Kept :
      (strict : Bool) (F d : Fields) (m qs : List String)
      → All IsProper qs
      → Kept F qs
      → with_missing strict (F, m) ≡ projected d
      → Kept d qs × (m ≢ [] → lookup fields_missing_key d ≡ some (list (texts m)))
  unfolding with_missing
  with_missing-Kept strict F d [] qs hs kept e =
      (subst (λ f. Kept f qs) (ground arith) kept, λ h. absurd (h refl))
  with_missing-Kept true F d (p ∷ m) qs hs kept e = absurd (ground arith)
  with_missing-Kept false F d (p ∷ m) qs hs kept e =
      let same : insert fields_missing_key (list (texts (p ∷ m))) F ≡ d = ground arith in
      (
        subst (λ f. Kept f qs) same (Kept-beside qs _ F hs kept),
        λ h. rw (← same) (lookup-insert_self fields_missing_key _ F),
      )

  pub Kept-and_missing :
      (p : String) (ps : List String) (strict : Bool) (d : Fields)
      → All IsProper (p ∷ ps)
      → filter_payload_fields P (p ∷ ps) strict ≡ projected d
      → Kept d (p ∷ ps)
        × (missing_paths P (p ∷ ps) ≢ []
            → lookup fields_missing_key d ≡ some (list (texts (missing_paths P (p ∷ ps)))))
  Kept-and_missing p ps strict d hs e =
      with_missing-Kept strict _ d (missing_paths P (p ∷ ps)) (p ∷ ps) hs
        (project-Kept (p ∷ ps) end [] hs) (sym (filter_some p ps strict) ∙ e)
