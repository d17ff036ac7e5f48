-- ===== src/Branch/FocusRows.antt =====
-- The loop over the rows of two focus lists that are the same, up to its limit.
-- packages/simc-cli/src/simc_cli/branch.py, in `compare_branches`
use warcraft_cli.Base.{
  ℕ, zero, suc, ◌≤◌, ◌<◌, ◌≡◌, ◌∙◌, refl, sym, ap, String, List, [], ◌∷◌, ◌++◌, leb, length, map,
  take, arith, append-nil, append_assoc, Bool-cases, inl, inr, if◌then◌else◌,
}
use warcraft_cli.Branch.Changes.{RowChanges, row_change-cases, row_line}
use warcraft_cli.Branch.Compare.{row_change, focus_changes}
use warcraft_cli.Branch.Decisions.{ListDecision}

take_none : (n : ℕ) → take {A = String} n [] ≡ []
take_none zero = refl
take_none (suc n) = refl

take_all : (n : ℕ) (xs : List String) → length xs ≤ n → take n xs ≡ xs
take_all n [] h = take_none n
take_all zero (x ∷ xs) h = absurd (omega arith)
take_all (suc n) (x ∷ xs) h = ap (λ ys. x ∷ ys) (take_all n xs (omega arith))

take_exact : (n : ℕ) (xs ys : List String) → length xs ≡ n → take n (xs ++ ys) ≡ xs
take_exact zero [] ys h = refl
take_exact zero (x ∷ xs) ys h = absurd (omega arith)
take_exact (suc n) [] ys h = absurd (omega arith)
take_exact (suc n) (x ∷ xs) ys h = ap (λ zs. x ∷ zs) (take_exact n xs ys (omega arith))

length-append_one : (xs : List String) (x : String) → length (xs ++ x ∷ []) ≡ suc (length xs)
length-append_one [] x = refl
length-append_one (y ∷ ys) x = ap suc (length-append_one ys x)

-- One turn of the loop, when nothing is found and when a line is.
focus_same :
    (n : ℕ) (l r : ListDecision) (ls rs : List ListDecision) (found : List String)
    → length found < n
    → row_change l r ≡ []
    → focus_changes n (l ∷ ls) (r ∷ rs) found ≡ focus_changes n ls rs found
unfolding focus_changes
focus_same n l r ls rs found h e = rw (e, append-nil found) (ground arith)

focus_found :
    (n : ℕ) (l r : ListDecision) (ls rs : List ListDecision) (found : List String) (line : String)
    → row_change l r ≡ line ∷ []
    → focus_changes n (l ∷ ls) (r ∷ rs) found ≡ (
        if leb n (length (found ++ line ∷ []))
        then found ++ line ∷ []
        else focus_changes n ls rs (found ++ line ∷ []))
unfolding focus_changes
focus_found n l r ls rs found line e = rw e refl

focus_end : (n : ℕ) (found : List String) → focus_changes n [] [] found ≡ found
unfolding focus_changes
focus_end n found = refl

-- The loop over the pairs of rows stops once it has the limit's number of lines.
abbrev pub Cut : ℕ → List ListDecision → List ListDecision → List String → Type 0
Cut n ls rs found =
    (lines : List String) × RowChanges ls rs lines
    × (focus_changes n ls rs found ≡ take n (found ++ lines))

module _ {A : Type 0} (f g : A → ListDecision) (n : ℕ) where
  row_changes : (rows : List A) → (lines : List String) × RowChanges (map f rows) (map g rows) lines
  row_changes [] = ([], RowChanges.done)
  row_changes (row ∷ rows) =
      let (lines, changes) = row_changes rows in
      elim (row_change-cases (f row) (g row)) [
        | inl (alike, e) ↦ (lines, RowChanges.same alike changes)
        | inr (other, e) ↦ (row_line (f row) (g row) ∷ lines, RowChanges.changed other changes)
      ]

  pub focus_changes-Cut :
      (rows : List A) (found : List String)
      → length found < n
      → Cut n (map f rows) (map g rows) found
  focus_changes-Cut [] found h = (
    [],
    RowChanges.done,
    focus_end n found ∙ rw (append-nil found) (sym (take_all n found (omega arith))),
  )
  focus_changes-Cut (row ∷ rows) found h = elim (row_change-cases (f row) (g row)) [
    | inl (alike, e) ↦
        let (lines, changes, is) = focus_changes-Cut rows found h in
        (
          lines,
          RowChanges.same alike changes,
          focus_same n (f row) (g row) (map f rows) (map g rows) found h e ∙ is,
        )
    | inr (other, e) ↦
        let line = row_line (f row) (g row) in
        let more = found ++ line ∷ [] in
        let turn = focus_found n (f row) (g row) (map f rows) (map g rows) found line e in
        elim (Bool-cases (leb n (length more))) [
          | inl full ↦
              let (lines, changes) = row_changes rows in
              (
                line ∷ lines,
                RowChanges.changed other changes,
                turn
                    ∙ rw full (
                        sym (take_exact n more lines (ground (arith, length-append_one found line)))
                        ∙ ap (take n) (append_assoc found (line ∷ []) lines)),
              )
          | inr room ↦
              let (lines, changes, is) = focus_changes-Cut rows more (ground arith) in
              (
                line ∷ lines,
                RowChanges.changed other changes,
                turn ∙ rw room (is ∙ ap (take n) (append_assoc found (line ∷ []) lines)),
              )
        ]
  ]
