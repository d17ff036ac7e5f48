-- ===== src/Branch/Traced.antt =====
-- The trace of a list ends.
-- packages/simc-cli/src/simc_cli/branch.py, `_trace_list`
use warcraft_cli.Apl.{AplEntry}
use warcraft_cli.Base.{
  ℕ, zero, suc, ◌+◌, ◌≤◌, ◌≡◌, refl, String, Bool, true, false, Option, none, some, List, [], ◌∷◌,
  ◌++◌, ltb, cat, mem, is_some, arith, Bool-cases, inl, inr,
}
use warcraft_cli.Branch.Decisions.{Verdict, target_of, rows_of}
use warcraft_cli.Prune.Spans.{ConditionOutcome}
use warcraft_cli.Branch.Trace.{
  Lines, line, bracketed, around, row_head, shadowed_row, entered_lines, row_lines, ends_list,
  joined_lines, trace_rows, trace_list, trace_apl,
}

module _ (verdict : Verdict) where
  around-some :
      (before : Lines) (o : Option Lines) (after : Lines)
      → is_some o ≡ true
      → is_some (around before o after) ≡ true
  around-some before none after h = h
  around-some before (some lines) after h = refl

  joined_lines-some :
      (o p : Option Lines)
      → is_some o ≡ true
      → is_some p ≡ true
      → is_some (joined_lines verdict o p) ≡ true
  joined_lines-some none p h g = h
  joined_lines-some (some lines) p h g = around-some lines p [] g

  module _ (recurse : String → ℕ → Option Lines) (depth : ℕ)
      (ends : (target : String) (deeper : ℕ)
        → depth + 2 ≤ deeper
        → is_some (recurse target deeper) ≡ true) where
    entered_lines-some :
        (kind : String) (o : ConditionOutcome) (target : Option String)
        → is_some (entered_lines verdict recurse depth kind o target) ≡ true
    unfolding entered_lines
    entered_lines-some kind o none = refl
    entered_lines-some kind o (some target) = ground (
      arith,
      ends target (depth + 2) (omega arith),
      around-some (line (depth + 2) (cat "possible path into " (bracketed target "")) ∷ [])
          (recurse target (depth + 3))
          (line (depth + 2) "fallthrough remains possible if condition is false" ∷ [])
          (ends target (depth + 3) (omega arith)),
    )

    row_lines-some : (entry : AplEntry) → is_some (row_lines verdict recurse depth entry) ≡ true
    unfolding row_lines
    row_lines-some entry =
        around-some (row_head verdict depth entry (verdict entry))
          (entered_lines verdict recurse depth entry.kind (verdict entry).0
            (target_of entry.target_list))
          [] (entered_lines-some entry.kind (verdict entry).0 (target_of entry.target_list))

    trace_rows-some :
        (rows : List AplEntry) (stop_here : Bool)
        → is_some (trace_rows verdict recurse depth rows stop_here) ≡ true
    unfolding trace_rows
    trace_rows-some [] stop_here = refl
    trace_rows-some (entry ∷ entries) true =
        around-some (shadowed_row verdict depth entry)
          (trace_rows verdict recurse depth entries true) [] (trace_rows-some entries true)
    trace_rows-some (entry ∷ entries) false =
        joined_lines-some (row_lines verdict recurse depth entry)
          (trace_rows verdict recurse depth entries (ends_list verdict entry))
          (row_lines-some entry) (trace_rows-some entries (ends_list verdict entry))

  trace_list-some :
      (entries : List AplEntry) (max_depth fuel : ℕ) (list_name : String) (depth : ℕ)
      (visited : List String)
      → max_depth + 2 ≤ fuel + depth
      → 1 ≤ fuel
      → is_some (trace_list verdict entries max_depth fuel list_name depth visited) ≡ true
  unfolding trace_list
  trace_list-some entries max_depth zero list_name depth visited h g = absurd (omega arith)
  trace_list-some entries max_depth (suc fuel) list_name depth visited h g =
      elim (Bool-cases (ltb max_depth depth)) [
        | inl deep ↦ rw (deep, trace_list) refl
        | inr shallow ↦ elim (Bool-cases (mem list_name visited)) [
          | inl again ↦ rw (shallow, again, trace_list) refl
          | inr first ↦
              rw (shallow, first, trace_list)
                (around-some (line depth (bracketed list_name "") ∷ []) _ [] (
                  trace_rows-some
                    (λ target deeper.
                      trace_list verdict entries max_depth fuel target deeper
                        (visited ++ list_name ∷ []))
                    depth
                    (λ target deeper k.
                      trace_list-some entries max_depth fuel target deeper
                        (visited ++ list_name ∷ []) (omega arith) (ground arith))
                    (rows_of list_name entries) false))
        ]
      ]

  -- A trace ends, also where lists call one another in a circle.
  pub trace_apl_lem :
      (entries : List AplEntry) (start_list : String) (max_depth : ℕ)
      → is_some (trace_apl verdict entries start_list max_depth) ≡ true
  unfolding trace_apl
  trace_apl_lem entries start_list max_depth =
      trace_list-some entries max_depth (max_depth + 2) start_list 0 [] (omega arith) (omega arith)
