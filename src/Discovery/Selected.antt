-- ===== src/Discovery/Selected.antt =====
-- Which rows have one of the types that were asked for.
-- packages/warcraft-cli/src/warcraft_cli/discovery_scope.py, the test of `filter_candidates`
use warcraft_cli.Base.{
  String, ◌≡◌, ◌⊎◌, subst, true, false, some, List, arith, mem, Bool-cases, Option-cases, inl, inr,
}
use warcraft_cli.Discovery.Scope.{entity_of, in_types, select_rows}
use warcraft_cli.Json.{
  Value, null, bool, int, float, str, list, dict, Items, nil, cons, Fields, lookup, as_dict, truthy,
}

-- A row's type: its `entity_type`, or where that is missing or falsy its `kind`.
abbrev pub HasType : Fields → String → Type 0
HasType row t =
    ((lookup "entity_type" row ≡ some (str t)) × (truthy (str t) ≡ true))
    ⊎ (((v : Value) → lookup "entity_type" row ≡ some v → truthy v ≡ false)
        × (lookup "kind" row ≡ some (str t)))

-- A type of the row is among those asked for.
abbrev pub IsWanted : List String → Fields → Type 0
IsWanted types row = (t : String) × (mem t types ≡ true) × HasType row t

-- The rows, and those of them that are wanted, in their order.
pub data Selected (types : List String) : Items → Items → Type 0 where
  done : Selected types nil nil
  take :
      {row : Value} {rows kept : Items}
      → IsWanted types (as_dict (some row))
      → Selected types rows kept
      → Selected types (cons row rows) (cons row kept)
  drop :
      {row : Value} {rows kept : Items}
      → ¬ IsWanted types (as_dict (some row))
      → Selected types rows kept
      → Selected types (cons row rows) kept

entity_of-HasType : (row : Fields) (t : String) → entity_of row ≡ some (str t) → HasType row t
unfolding entity_of
entity_of-HasType row t e = elim (Option-cases (lookup "entity_type" row)) [
  | inl n ↦ inr (λ v h. ground arith, ground arith)
  | inr (v, h) ↦ elim (Bool-cases (truthy v)) [
    | inl full ↦
        let same : v ≡ str t = ground arith in
        inl (ground arith, subst (λ w. truthy w ≡ true) same full)
    | inr empty ↦ inr (
      λ w g. let same : v ≡ w = ground arith in subst (λ x. truthy x ≡ false) same empty,
      ground arith,
    )
  ]
]

HasType-entity_of : (row : Fields) (t : String) → HasType row t → entity_of row ≡ some (str t)
unfolding entity_of
HasType-entity_of row t (inl (h, full)) = ground arith
HasType-entity_of row t (inr (falsy, h)) = elim (Option-cases (lookup "entity_type" row)) [
  | inl n ↦ ground arith
  | inr (v, g) ↦ ground (arith, falsy v g)
]

pub in_types-IsWanted :
    (types : List String) (row : Fields)
    → in_types types (entity_of row) ≡ true
    → IsWanted types row
unfolding in_types
in_types-IsWanted types row e = elim (Option-cases (entity_of row)) [
  | inl n ↦ absurd (ground arith)
  | inr (str t, h) ↦ (t, ground arith, entity_of-HasType row t h)
  | inr (null, h) ↦ absurd (ground arith)
  | inr (bool b, h) ↦ absurd (ground arith)
  | inr (int n, h) ↦ absurd (ground arith)
  | inr (float x, h) ↦ absurd (ground arith)
  | inr (list vs, h) ↦ absurd (ground arith)
  | inr (dict d, h) ↦ absurd (ground arith)
]

pub in_types-other :
    (types : List String) (row : Fields)
    → in_types types (entity_of row) ≡ false
    → ¬ IsWanted types row
unfolding in_types
in_types-other types row e = λ (t, m, h). ground (arith, HasType-entity_of row t h)

pub select_rows-Selected :
    (types : List String) (rows : Items) → Selected types rows (select_rows types rows)
unfolding select_rows
select_rows-Selected types nil = done
select_rows-Selected types (cons row rows) =
    elim (Bool-cases (in_types types (entity_of (as_dict (some row))))) [
      | inl e ↦
          rw e (
            take (in_types-IsWanted types (as_dict (some row)) e) (select_rows-Selected types rows))
      | inr e ↦
          rw e
            (drop (in_types-other types (as_dict (some row)) e) (select_rows-Selected types rows))
    ]
