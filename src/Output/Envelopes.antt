-- ===== src/Output/Envelopes.antt =====
-- A conforming envelope that is shaped without a projection still conforms.
use warcraft_cli.Base.{
  ℕ, ◌≤◌, String, ◌≡◌, refl, ap, subst, ◌∙◌, Bool, true, false, ◌||◌, none, some, List, [], ◌∷◌,
  ◌==◌, eq_iff, arith, Bool-cases, inl, inr, text_length, split, keep,
}
use warcraft_cli.Envelope.{is_envelope_key, schema_version}
use warcraft_cli.Envelope.Conforms.{Conforms, IsStr, IsDict, ErrorFits}
use warcraft_cli.Json.{Value, Fields, bool, str, dict, end, field, lookup, has, insert}
use warcraft_cli.Json.Laws.{lookup-insert}
use warcraft_cli.Output.{
  OutputOptions, compact_fields, compact_value, stays, shorten, sub_path, is_verbatim_key, assign,
  assign_dict_path, filter_payload_fields, projected,
}
use warcraft_cli.Output.Shape.{is_failure, compacted, with_cut, shape_payload}

-- Setting `provenance` to a dict keeps an envelope conforming.
pub Conforms-provenance : (d e : Fields) → Conforms d → Conforms (insert "provenance" (dict e) d)
unfolding is_envelope_key
Conforms-provenance d e c = record {
  ok = c.ok;
  has_ok = rw lookup-insert c.has_ok;
  provider = rw lookup-insert c.provider;
  command = rw lookup-insert c.command;
  kind = rw lookup-insert c.kind;
  version = rw lookup-insert c.version;
  query = rw lookup-insert c.query;
  provenance = (e, lookup-insert "provenance" "provenance" (dict e) d);
  body = rw lookup-insert c.body;
  only = λ k h.
      ground (arith, lookup-insert "provenance" k (dict e) d, c.only k, eq_iff "provenance" k);
  error = rw lookup-insert c.error;
}

with_cut-Conforms : (d : Fields) (cut : List String) → Conforms d → Conforms (with_cut d cut)
unfolding with_cut assign_dict_path assign split keep
with_cut-Conforms d [] c = c
with_cut-Conforms d (p ∷ ps) c = Conforms-provenance d _ c

str_value :
    (m : ℕ) (path : String) (verbatim : Bool) (s : String)
    → (t : String) × ((compact_value m path verbatim (str s)).0 ≡ str t)
unfolding compact_value
str_value m path verbatim s = elim (Bool-cases (stays m verbatim s)) [
  | inl e ↦ (s, rw (e, compact_value))
  | inr e ↦ (shorten m s, rw (e, compact_value))
]

version_stays :
    (m : ℕ) (path : String) (verbatim : Bool)
    → 1 ≤ m
    → (compact_value m path verbatim (str schema_version)).0 ≡ str schema_version
unfolding compact_value stays text_length
version_stays m path verbatim h = ground arith

no_error : {d : Fields} → Conforms d → lookup "ok" d ≡ some (bool true) → lookup "error" d ≡ none
no_error {d} c ok =
    let is_true : c.ok ≡ true = ground (arith, c.has_ok) in
    subst (λ b. ErrorFits b (lookup "error" d)) is_true c.error

module _ (m : ℕ) (one : 1 ≤ m) (d : Fields) where
  abbrev small : Fields
  small = (compact_fields m "" false d).0

  lookup-compact :
      (k : String) (path : String) (verbatim : Bool) (d : Fields)
      → lookup k (compact_fields m path verbatim d).0 ≡ elim (lookup k d) [
        | none ↦ none
        | some v ↦ some (compact_value m (sub_path path k) (verbatim || is_verbatim_key k) v).0
      ]
  unfolding compact_fields lookup
  lookup-compact k path verbatim end = refl
  lookup-compact k path verbatim (field j v d) = elim (Bool-cases (j == k)) [
    | inl e ↦ let same : j ≡ k = (eq_iff j k).0 e in rw (e, same)
    | inr e ↦ rw e (lookup-compact k path verbatim d)
  ]

  at_key :
      (k : String) (v : Value)
      → lookup k d ≡ some v
      → lookup k small ≡ some (compact_value m (sub_path "" k) (false || is_verbatim_key k) v).0
  at_key k v h = lookup-compact k "" false d ∙ rw h refl

  -- A text stays a text and a dict a dict.
  small-IsStr : (k : String) → IsStr (lookup k d) → IsStr (lookup k small)
  small-IsStr k (s, h) =
      let (t, e) = str_value m (sub_path "" k) (false || is_verbatim_key k) s in
      (t, at_key k (str s) h ∙ ap some e)

  small-IsDict : (k : String) → IsDict (lookup k d) → IsDict (lookup k small)
  unfolding compact_value
  small-IsDict k (e, h) = (_, at_key k (dict e) h)

  small_bool : (k : String) (b : Bool) → lookup k d ≡ some (bool b) → lookup k small ≡ some (bool b)
  unfolding compact_value
  small_bool k b h = at_key k (bool b) h

  small-none : (k : String) → lookup k d ≡ none → lookup k small ≡ none
  small-none k h = lookup-compact k "" false d ∙ rw h refl

  small-has : (k : String) → has k small ≡ true → has k d ≡ true
  small-has k h = ground (arith, lookup-compact k "" false d)

  compact-Conforms : Conforms d → lookup "ok" d ≡ some (bool true) → Conforms small
  compact-Conforms c ok = record {
    ok = true;
    has_ok = small_bool "ok" true ok;
    provider = small-IsStr "provider" c.provider;
    command = small-IsStr "command" c.command;
    kind = small-IsStr "kind" c.kind;
    version =
        at_key "schema_version" (str schema_version) c.version ∙ ap some (version_stays m _ _ one);
    query = let (v, h) = c.query in (_, at_key "query" v h);
    provenance = small-IsDict "provenance" c.provenance;
    body = small-IsDict "data" c.body;
    only = λ k h. c.only k (small-has k h);
    error = small-none "error" (no_error c ok);
  }

module _ (o : OutputOptions) (d : Fields) where
  unprojected :
      o.fields ≡ []
      → is_failure (lookup "ok" d) ≡ false
      → shape_payload d o ≡ projected (with_cut (compacted o d).0 (compacted o d).1)
  unfolding shape_payload filter_payload_fields
  unprojected none_asked h = rw (h, none_asked) refl

  untouched : is_failure (lookup "ok" d) ≡ true → shape_payload d o ≡ projected d
  unfolding shape_payload
  untouched h = rw h

  compacted-Conforms :
      Conforms d
      → lookup "ok" d ≡ some (bool true)
      → 1 ≤ o.compact_max_chars
      → Conforms (compacted o d).0
  unfolding compacted
  compacted-Conforms c ok one = elim (Bool-cases o.compact) [
    | inl asked ↦ rw asked (compact-Conforms o.compact_max_chars one d c ok)
    | inr plain ↦ rw plain c
  ]

  -- A conforming envelope is shaped to a conforming envelope, whatever is compacted, when no
  -- projection was asked for and the limit is at least one character.
  pub shape_payload-Conforms :
      Conforms d
      → o.fields ≡ []
      → 1 ≤ o.compact_max_chars
      → (e : Fields) × (shape_payload d o ≡ projected e) × Conforms e
  unfolding is_failure
  shape_payload-Conforms c none_asked one = elim (Bool-cases c.ok) [
    | inl succeeded ↦
        let ok = c.has_ok ∙ ap (λ b. some (bool b)) succeeded in
        (
          with_cut (compacted o d).0 (compacted o d).1,
          unprojected none_asked (rw ok refl),
          with_cut-Conforms _ (compacted o d).1 (compacted-Conforms c ok one),
        )
    | inr failed ↦ (d, untouched (rw (c.has_ok, failed) refl), c)
  ]
