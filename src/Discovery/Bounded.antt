-- ===== src/Discovery/Bounded.antt =====
-- The rows and the match of a filtered answer.
-- packages/warcraft-cli/src/warcraft_cli/discovery_scope.py
use warcraft_cli.Base.{
  ℕ, String, ◌≡◌, ◌⊎◌, ◌∙◌, refl, ap, Bool, true, false, not, some, List, ◌==◌, Bool-cases,
  Option-cases, inl, inr,
}
use warcraft_cli.Discovery.Scope.{
  entity_of, in_types, select_rows, count_of, item_count, unresolved, judge_match, rename_total,
  filter_data, entity_scope,
}
use warcraft_cli.Discovery.Selected.{
  IsWanted, Selected, in_types-IsWanted, in_types-other, select_rows-Selected,
}
use warcraft_cli.Json.{int, pos, null, bool, list, Items, Fields, lookup, insert, restrict, as_dict}
use warcraft_cli.Json.Laws.{lookup-insert, lookup-restrict}

lookup-rename_total :
    (k : String) (fields : Fields)
    → (k == "total_matches") ≡ false
    → ("unfiltered_total_matches" == k) ≡ false
    → lookup k (rename_total fields) ≡ lookup k fields
unfolding rename_total
lookup-rename_total k fields g h = elim (Option-cases (lookup "total_matches" fields)) [
  | inl e ↦ rw (e, rename_total) refl
  | inr (total, e) ↦
      rw
        (
          e,
          rename_total,
          lookup-insert "unfiltered_total_matches" k total
              (restrict (λ k. not (k == "total_matches")) fields),
          h,
          lookup-restrict (λ k. not (k == "total_matches")) k fields,
          g,
        )
        refl
]

-- A match of a wanted type stands as it was, with its verdict; any other one is dropped.
abbrev pub KeepsMatch : List String → Fields → Fields → Type 0
KeepsMatch types before after =
    (IsWanted types (as_dict (lookup "match" before))
      × (lookup "match" after ≡ lookup "match" before)
      × (lookup "resolved" after ≡ lookup "resolved" before)
      × (lookup "confidence" after ≡ lookup "confidence" before)
      × (lookup "next_command" after ≡ lookup "next_command" before))
    ⊎ ((¬ IsWanted types (as_dict (lookup "match" before)))
        × (lookup "match" after ≡ some null)
        × (lookup "resolved" after ≡ some (bool false))
        × (lookup "confidence" after ≡ some null)
        × (lookup "next_command" after ≡ some null))

pub record IsBounded (types : List String) (original : Items) (before after : Fields) : Type 0 where
  pub kept : Items
  pub selected : Selected types original kept
  pub rows : lookup "candidates" after ≡ some (list kept)
  pub count : lookup "count" after ≡ some (int (pos (item_count kept)))
  pub match : KeepsMatch types before after

module _ (types : List String) (fields : Fields) (original : Items) where
  -- The data with its rows and their count.
  abbrev base : Fields
  base =
      insert "count" (count_of (select_rows types original))
        (insert "candidates" (list (select_rows types original)) fields)

  lookup-filter_data :
      (limit : ℕ) (k : String)
      → (k == "total_matches") ≡ false
      → ("unfiltered_total_matches" == k) ≡ false
      → ("entity_scope" == k) ≡ false
      → lookup k (filter_data types "resolve" limit fields original)
        ≡ lookup k (judge_match types "resolve" base)
  unfolding filter_data
  lookup-filter_data limit k g h i =
      lookup-rename_total k
        (insert "entity_scope" (entity_scope types limit original)
          (judge_match types "resolve" base))
        g h
      ∙ lookup-insert "entity_scope" k (entity_scope types limit original)
          (judge_match types "resolve" base)
      ∙ rw i refl

  lookup-base :
      (k : String)
      → ("count" == k) ≡ false
      → ("candidates" == k) ≡ false
      → lookup k base ≡ lookup k fields
  lookup-base k g h =
      rw
        (
          lookup-insert "count" k (count_of (select_rows types original))
              (insert "candidates" (list (select_rows types original)) fields),
          g,
          lookup-insert "candidates" k (list (select_rows types original)) fields,
          h,
        )
        refl

  abbrev is_wanted : Bool
  is_wanted = in_types types (entity_of (as_dict (lookup "match" fields)))

  judge_match-kept : is_wanted ≡ true → judge_match types "resolve" base ≡ base
  unfolding judge_match
  judge_match-kept e = rw (lookup-base "match" refl refl, e) refl

  judge_match-dropped : is_wanted ≡ false → judge_match types "resolve" base ≡ unresolved base
  unfolding judge_match
  judge_match-dropped e = rw (lookup-base "match" refl refl, e) refl

  module _ (limit : ℕ) (k : String) (g : (k == "total_matches") ≡ false)
      (h : ("unfiltered_total_matches" == k) ≡ false) (i : ("entity_scope" == k) ≡ false) where
    lookup_kept :
        is_wanted ≡ true
        → lookup k (filter_data types "resolve" limit fields original) ≡ lookup k base
    lookup_kept e = lookup-filter_data limit k g h i ∙ ap (lookup k) (judge_match-kept e)

    lookup_dropped :
        is_wanted ≡ false
        → lookup k (filter_data types "resolve" limit fields original) ≡ lookup k (unresolved base)
    lookup_dropped e = lookup-filter_data limit k g h i ∙ ap (lookup k) (judge_match-dropped e)

    lookup_same :
        is_wanted ≡ true
        → ("count" == k) ≡ false
        → ("candidates" == k) ≡ false
        → lookup k (filter_data types "resolve" limit fields original) ≡ lookup k fields
    lookup_same e c d = lookup_kept e ∙ lookup-base k c d

-- The candidates of a filtered resolve answer are the rows whose type was asked for, all of them and in
-- their order, with their number as count. A match of such a type stays with its verdict; with any other
-- or no match the answer is not resolved and has no match, confidence or next command.
pub filter_data-IsBounded :
    (types : List String) (limit : ℕ) (fields : Fields) (original : Items)
    → IsBounded types original fields (filter_data types "resolve" limit fields original)
filter_data-IsBounded types limit fields original =
    elim (Bool-cases (is_wanted types fields original)) [
      | inl e ↦ record {
        rows =
            lookup_kept types fields original limit "candidates" refl refl refl e
            ∙ simp lookup-insert;
        count =
            lookup_kept types fields original limit "count" refl refl refl e ∙ simp lookup-insert;
        kept = select_rows types original;
        selected = select_rows-Selected types original;
        match = inl (
          in_types-IsWanted types (as_dict (lookup "match" fields)) e,
          lookup_same types fields original limit "match" refl refl refl e refl refl,
          lookup_same types fields original limit "resolved" refl refl refl e refl refl,
          lookup_same types fields original limit "confidence" refl refl refl e refl refl,
          lookup_same types fields original limit "next_command" refl refl refl e refl refl,
        );
      }
      | inr e ↦ record {
        rows =
            lookup_dropped types fields original limit "candidates" refl refl refl e
            ∙ simp lookup-insert;
        count =
            lookup_dropped types fields original limit "count" refl refl refl e
            ∙ simp lookup-insert;
        kept = select_rows types original;
        selected = select_rows-Selected types original;
        match = inr (
          in_types-other types (as_dict (lookup "match" fields)) e,
          lookup_dropped types fields original limit "match" refl refl refl e ∙ simp lookup-insert,
          lookup_dropped types fields original limit "resolved" refl refl refl e
              ∙ simp lookup-insert,
          lookup_dropped types fields original limit "confidence" refl refl refl e
              ∙ simp lookup-insert,
          lookup_dropped types fields original limit "next_command" refl refl refl e
              ∙ simp lookup-insert,
        );
      }
    ]
