-- ===== src/Branch/Path.antt =====
-- The path to the list that holds the rotation.
-- packages/simc-cli/src/simc_cli/branch.py, `resolve_focus_list`
use warcraft_cli.Apl.{AplEntry}
use warcraft_cli.Base.{
  ℕ, zero, suc, ◌+◌, ◌≤◌, String, ◌≡◌, refl, subst, sym, ◌∙◌, false, ◌||◌, Option, none, some, List,
  [], ◌∷◌, ◌++◌, ◌==◌, length, length-append, mem, arith, eq_iff, Bool-cases, Option-cases, inl,
  inr,
}
use warcraft_cli.Branch.Decisions.{Verdict}
use warcraft_cli.Branch.Focus.{
  FocusResolution, unseen_list, next_list, focus, resolve_focus_list, single_call_target,
}
use warcraft_cli.Branch.Summary.{summarize_branches}

abbrev pub IsDistinct : List String → Type 0
IsDistinct [] = Unit
IsDistinct (x ∷ xs) = (mem x xs ≡ false) × IsDistinct xs

unfoldable pub last_of : List String → Option String
last_of [] = none
last_of (x ∷ []) = some x
last_of (x ∷ y ∷ ys) = last_of (y ∷ ys)

mem-snoc : (x t : String) (xs : List String) → mem x (xs ++ t ∷ []) ≡ (mem x xs || (t == x))
unfolding mem
mem-snoc x t [] = ground arith
mem-snoc x t (y ∷ ys) = ground (arith, mem-snoc x t ys)

IsDistinct-snoc :
    (xs : List String) (t : String) → IsDistinct xs → mem t xs ≡ false → IsDistinct (xs ++ t ∷ [])
unfolding mem
IsDistinct-snoc [] t d h = (refl, tt)
IsDistinct-snoc (x ∷ xs) t d h = (
  ground (arith, mem-snoc x t xs, d.0, eq_iff x t, eq_iff t x),
  IsDistinct-snoc xs t d.1 (ground arith),
)

last_of-snoc : (xs : List String) (t : String) → last_of (xs ++ t ∷ []) ≡ some t
unfolding last_of
last_of-snoc [] t = refl
last_of-snoc (x ∷ []) t = refl
last_of-snoc (x ∷ y ∷ ys) t = last_of-snoc (y ∷ ys) t

-- A path from the start to the focus list that visits no list twice.
pub record IsPath (start_list : String) (longest : ℕ) (r : FocusResolution) : Type 0 where
  pub start : r.start_list ≡ start_list
  pub rest : List String
  pub from_start : r.path ≡ start_list ∷ rest
  pub to_focus : last_of r.path ≡ some r.focus_list
  pub distinct : IsDistinct r.path
  pub short : length r.path ≤ longest

module _ (verdict : Verdict) (entries : List AplEntry) where
  abbrev NewName : List String → Option String → Type 0
  NewName seen none = Unit
  NewName seen (some target) = mem target seen ≡ false

  abbrev NewList : List String → Option (String × String) → Type 0
  NewList seen none = Unit
  NewList seen (some (target, why)) = mem target seen ≡ false

  unseen_list-NewName :
      (seen : List String) (o : Option String) → NewName seen (unseen_list verdict entries seen o)
  unseen_list-NewName seen none = tt
  unseen_list-NewName seen (some target) = elim (Bool-cases ((target == "") || mem target seen)) [
    | inl old ↦ rw old tt
    | inr new ↦ rw new (ground arith)
  ]

  next_list-NewList :
      (current : String) (seen : List String)
      → NewList seen (next_list verdict entries current seen)
  unfolding next_list
  next_list-NewList current seen =
      let dispatch = (summarize_branches verdict entries current).guaranteed_dispatch in
      let call = single_call_target verdict entries current in
      elim (Option-cases (unseen_list verdict entries seen dispatch)) [
        | inr (target, e) ↦
            rw (e, next_list) (subst (NewName seen) e (unseen_list-NewName seen dispatch))
        | inl e ↦ elim (Option-cases (unseen_list verdict entries seen call)) [
          | inr (target, e') ↦
              rw (e, e', next_list) (subst (NewName seen) e' (unseen_list-NewName seen call))
          | inl e' ↦ rw (e, e', next_list) tt
        ]
      ]

  focus-IsPath :
      (start : String) (rounds : ℕ) (current : String) (rest seen : List String) (reason : String)
      → ((x : String) → mem x seen ≡ mem x (start ∷ rest))
      → IsDistinct (start ∷ rest)
      → last_of (start ∷ rest) ≡ some current
      → IsPath start
          (rounds + length (start ∷ rest))
          (focus verdict entries start rounds current (start ∷ rest) seen reason)
  unfolding focus mem
  focus-IsPath start zero current rest seen reason same d l = record {
    start = refl;
    rest = rest;
    from_start = refl;
    to_focus = l;
    distinct = d;
    short = omega arith;
  }
  focus-IsPath start (suc rounds) current rest seen reason same d l =
      elim (Option-cases (next_list verdict entries current seen)) [
        | inl e ↦
            rw (e, focus)
              record {
                start = refl;
                rest = rest;
                from_start = refl;
                to_focus = l;
                distinct = d;
                short = omega arith;
              }
        | inr ((target, why), e) ↦
            let new : mem target seen ≡ false =
              subst (NewList seen) e (next_list-NewList current seen) in
            rw (e, focus)
              (subst
                (λ k. IsPath start k (
                  focus verdict entries start rounds target (start ∷ rest ++ target ∷ [])
                    (target ∷ seen) why))
                (omega (arith, length-append rest (target ∷ [])))
                (focus-IsPath start rounds target (rest ++ target ∷ []) (target ∷ seen) why
                  (λ x. ground (arith, same x, mem-snoc x target (start ∷ rest)))
                  (IsDistinct-snoc (start ∷ rest) target d (sym (same target) ∙ new))
                  (last_of-snoc (start ∷ rest) target)))
      ]

  -- The focus list ends a path of distinct lists from the start list, of at most `max_depth` steps.
  pub resolve_focus_list-IsPath :
      (max_depth : ℕ) (start_list : String)
      → IsPath start_list (suc max_depth) (resolve_focus_list verdict entries max_depth start_list)
  unfolding resolve_focus_list mem last_of
  resolve_focus_list-IsPath max_depth start_list =
      subst (λ k. IsPath start_list k (resolve_focus_list verdict entries max_depth start_list))
        (omega arith)
        (focus-IsPath start_list max_depth start_list [] (start_list ∷ []) "start_list" (λ x. refl)
          (refl, tt) refl)
