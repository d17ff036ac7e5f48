-- ===== src/Discovery/Capped.antt =====
-- When a "high" is capped: a one-word query that does not name the best row.
-- packages/warcraft-core/src/warcraft_core/discovery.py, `_single_word_capped` in `resolve_data`
use warcraft_cli.Base.{
  String, ◌≡◌, ◌⊎◌, refl, subst, Bool, true, false, Option, none, some, arith, Option-cases, inl,
  inr, if◌then◌else◌,
}
use warcraft_cli.Discovery.{
  Confidence, high, medium, low, no_match, plain_word, title_match, single_word_named, capped_by,
  refused, single_word_capped,
}
use warcraft_cli.Discovery.Resolve.{cap_of, after_cap}
use warcraft_cli.Json.{Value, Fields, lookup}

-- No test of identity is given, or the one that is given does not know the row by the word.
abbrev pub Refuses : Option (String → Fields → Bool) → String → Fields → Type 0
Refuses none word row = Unit
Refuses (some identity) word row = identity word row ≡ false

module _ (is_word : String → Bool) (casefold squeeze : String → String) (str_of : Value → String)
    (query : Option String) where
  refused-Refuses :
      (identity : Option (String → Fields → Bool)) (word : String) (row : Fields)
      → refused is_word casefold squeeze str_of identity word row ≡ true
      → Refuses identity word row
  refused-Refuses none word row e = tt
  refused-Refuses (some identity) word row e = ground arith

  refused-accepts :
      (identity : Option (String → Fields → Bool)) (word : String) (row : Fields)
      → refused is_word casefold squeeze str_of identity word row ≡ false
      → ¬ Refuses identity word row
  refused-accepts none word row e = absurd (ground arith)
  refused-accepts (some identity) word row e = λ h. ground arith

  -- The query is one plain word, and the row's name, which it has, does not match the word.
  pub record IsUnnamed (identity : Option (String → Fields → Bool)) (row : Fields) : Type 0 where
    pub word : String
    pub name : Value
    pub one_word : plain_word is_word casefold squeeze str_of query ≡ some word
    pub has_name : lookup "name" row ≡ some name
    pub unmatched : title_match is_word casefold squeeze str_of word (str_of name) ≡ none
    pub refuses : Refuses identity word row

  -- There is a best row, and the query does not name it.
  abbrev pub IsCapped : Option Fields → Option (String → Fields → Bool) → Type 0
  IsCapped none identity = ⊥
  IsCapped (some row) identity = IsUnnamed identity row

  -- A "high" that is capped is stated as "medium", and any other confidence as it is.
  abbrev pub IsStated :
      Option Fields → Option (String → Fields → Bool) → Confidence → Confidence → Type 0
  IsStated top identity confidence stated =
      ((confidence ≡ high) × IsCapped top identity × (stated ≡ medium))
      ⊎ (((confidence ≡ high) → ¬ IsCapped top identity) × (stated ≡ confidence))

  abbrev Decides : Type 0 → Bool → Type 0
  Decides P true = P
  Decides P false = ¬ P

  -- The word and the row's name, matched and not.
  named-Decides :
      (identity : Option (String → Fields → Bool)) (row : Fields) (word : String) (name : Value)
      (b : Bool)
      → plain_word is_word casefold squeeze str_of query ≡ some word
      → lookup "name" row ≡ some name
      → (if single_word_named is_word casefold squeeze str_of word (str_of name)
          then false
          else refused is_word casefold squeeze str_of identity word row)
        ≡ b
      → Decides (IsUnnamed identity row) b
  unfolding single_word_named
  named-Decides identity row word name true w n e = record {
    word = word;
    name = name;
    one_word = w;
    has_name = n;
    unmatched = ground arith;
    refuses = refused-Refuses identity word row (ground arith);
  }
  named-Decides identity row word name false w n e = λ h.
      let same : h.word ≡ word = ground (arith, h.one_word) in
      let alike : h.name ≡ name = ground (arith, h.has_name) in
      refused-accepts identity word row (ground (arith, h.unmatched))
        (subst (λ v. Refuses identity v row) same h.refuses)

  capped_by-Decides :
      (identity : Option (String → Fields → Bool)) (row : Fields) (capped : Bool)
      → capped_by is_word casefold squeeze str_of identity row
          (plain_word is_word casefold squeeze str_of query)
        ≡ some capped
      → Decides (IsUnnamed identity row) capped
  capped_by-Decides identity row capped e =
      elim (Option-cases (plain_word is_word casefold squeeze str_of query)) [
        | inl w ↦
            let no : false ≡ capped = ground arith in
            subst (Decides (IsUnnamed identity row)) no (λ h. absurd (ground (arith, h.one_word)))
        | inr (word, w) ↦ elim (Option-cases (lookup "name" row)) [
          | inl n ↦ absurd (ground arith)
          | inr (name, n) ↦ named-Decides identity row word name capped w n (ground arith)
        ]
      ]

  single_word_capped-Decides :
      (top : Option Fields) (identity : Option (String → Fields → Bool)) (capped : Bool)
      → single_word_capped is_word casefold squeeze str_of query top identity ≡ some capped
      → Decides (IsCapped top identity) capped
  unfolding single_word_capped
  single_word_capped-Decides none identity true e = absurd (ground arith)
  single_word_capped-Decides none identity false e = λ h. h
  single_word_capped-Decides (some row) identity capped e = capped_by-Decides identity row capped e

  pub after_cap-IsStated :
      (top : Option Fields) (identity : Option (String → Fields → Bool)) (confidence : Confidence)
      (capped : Bool)
      → cap_of (single_word_capped is_word casefold squeeze str_of query top identity) confidence
        ≡ some capped
      → IsStated top identity confidence (after_cap confidence capped)
  after_cap-IsStated top identity high true e =
      inl (refl, single_word_capped-Decides top identity true e, refl)
  after_cap-IsStated top identity high false e =
      inr (λ h. single_word_capped-Decides top identity false e, refl)
  after_cap-IsStated top identity medium capped e = inr (λ h. absurd (ground arith), ground arith)
  after_cap-IsStated top identity low capped e = inr (λ h. absurd (ground arith), ground arith)
  after_cap-IsStated top identity no_match capped e = inr (λ h. absurd (ground arith), ground arith)
