-- ===== src/Apl/Counted.antt =====
-- Grouping and counting the rows of a file leave nothing out.
-- packages/simc-cli/src/simc_cli/apl.py, `group_entries` and `action_counts`
use warcraft_cli.Apl.{AplEntry}
use warcraft_cli.Apl.Graph.{
  Groups, rows_at, group_into, group_entries, Counts, count_at, count_key, count_into,
  action_counts,
}
use warcraft_cli.Base.{
  ℕ, ◌+◌, String, ◌≡◌, refl, sym, ap, Bool, false, not, ◌&&◌, none, some, List, [], ◌∷◌, ◌++◌, ◌==◌,
  eq_iff, append-nil, append_assoc, length, keep, value_at, set_at, value_at-set_at, arith,
  Bool-cases, Option-cases, inl, inr, if◌then◌else◌,
}

-- The rows that grouping gives for a list are those of the list, in their order.
rows_at-group_into :
    (name : String) (entries : List AplEntry) (groups : Groups)
    → rows_at (value_at name (group_into groups entries))
      ≡ rows_at (value_at name groups) ++ keep (λ e. e.list_name == name) entries
unfolding group_into keep
rows_at-group_into name [] groups = sym (append-nil (rows_at (value_at name groups)))
rows_at-group_into name (e ∷ es) groups =
    rw
      (
        rows_at-group_into name es
            (set_at e.list_name (rows_at (value_at e.list_name groups) ++ e ∷ []) groups),
        value_at-set_at name e.list_name (rows_at (value_at e.list_name groups) ++ e ∷ []) groups,
      )
      (elim (Bool-cases (e.list_name == name)) [
        | inl same ↦
            rw (same, ap (λ k. value_at k groups) ((eq_iff e.list_name name).0 same))
              (append_assoc (rows_at (value_at name groups)) (e ∷ []) _)
        | inr other ↦ rw other refl
      ])

-- The row has the name for its target.
abbrev pub is_targeted : String → AplEntry → Bool
is_targeted name e = elim e.target_list [
  | none ↦ false
  | some target ↦ not (target == "") && (target == name)
]

-- The row has no target, or an empty one, and the name for its action.
abbrev pub is_acted : String → AplEntry → Bool
is_acted name e = elim e.target_list [
  | none ↦ e.action == name
  | some target ↦ (target == "") && (e.action == name)
]

-- How many rows have the name for their target, and how many without one have it for their action.
abbrev pub named_by : String → List AplEntry → ℕ
named_by name entries =
    length (keep (is_targeted name) entries) + length (keep (is_acted name) entries)

named_by-cons :
    (name : String) (e : AplEntry) (es : List AplEntry)
    → named_by name (e ∷ es)
      ≡ (if count_key e e.target_list == name then 1 else 0) + named_by name es
unfolding keep
named_by-cons name e es = elim (Option-cases e.target_list) [
  | inl n ↦ rw n (ground arith)
  | inr (target, n) ↦ rw n (ground arith)
]

count_at-count_into :
    (key : String) (entries : List AplEntry) (counts : Counts)
    → count_at (value_at key (count_into counts entries))
      ≡ count_at (value_at key counts) + named_by key entries
unfolding count_into keep
count_at-count_into key [] counts = omega arith
count_at-count_into key (e ∷ es) counts =
    let own = count_key e e.target_list in
    let n = count_at (value_at own counts) + 1 in
    rw
      (
        count_at-count_into key es (set_at own n counts),
        value_at-set_at key own n counts,
        named_by-cons key e es,
      )
      (elim (Bool-cases (own == key)) [
        | inl same ↦ rw (same, ap (λ k. value_at k counts) ((eq_iff own key).0 same)) (omega arith)
        | inr other ↦ rw other (omega arith)
      ])

-- For each list, `group_entries` has the rows of that list, all of them and in their order. For each
-- name, `action_counts` has the number of the rows that have it for their target, plus the number of
-- the rows without a target, or with an empty one, that have it for their action.
pub group_entries-action_counts :
    (entries : List AplEntry) (name : String)
    → (rows_at (value_at name (group_entries entries)) ≡ keep (λ e. e.list_name == name) entries)
      × (count_at (value_at name (action_counts entries)) ≡ named_by name entries)
unfolding group_entries action_counts value_at
group_entries-action_counts entries name =
    (rows_at-group_into name entries [], omega (arith, count_at-count_into name entries []))
