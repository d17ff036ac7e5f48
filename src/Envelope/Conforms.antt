-- ===== src/Envelope/Conforms.antt =====
-- What `envelope_violations` asks of a payload, written independently of the checks.
-- packages/warcraft-core/src/warcraft_core/envelope.py
use warcraft_cli.Base.{
  String, ◌≡◌, refl, Bool, true, false, Option, none, some, List, [], ◌∷◌, ◌++◌, map, arith, eq_iff,
  eq_refl, is_some, Bool-cases, All, inl, inr, cat,
}
use warcraft_cli.Envelope.Sort.{sorted, sorted-eq-nil}
use warcraft_cli.Envelope.{
  schema_version, required_keys, is_envelope_key, present_must, must, is_schema_version,
  error_problems, envelope_type_violations, envelope_error_violations, missing_keys,
  unexpected_keys, envelope_violations,
}
use warcraft_cli.Json.{
  Value, Fields, bool, str, dict, end, field, lookup, has, keys, is_bool, is_str, is_dict,
}

abbrev pub IsStr : Option Value → Type 0
IsStr v = (s : String) × (v ≡ some (str s))

abbrev pub IsDict : Option Value → Type 0
IsDict v = (d : Fields) × (v ≡ some (dict d))

-- `error` is absent from a success; in a failure it is a dict with a text `code` and `message`, whose
-- `details`, if there, are a dict.
pub record IsErrorBody (e : Fields) : Type 0 where
  pub code : IsStr (lookup "code" e)
  pub message : IsStr (lookup "message" e)
  pub details : (v : Value) → lookup "details" e ≡ some v → IsDict (some v)

abbrev pub ErrorFits : Bool → Option Value → Type 0
ErrorFits true e = e ≡ none
ErrorFits false e = (d : Fields) × (e ≡ some (dict d)) × IsErrorBody d

-- The eight required keys at their types, no key beside them and `error`, and `error` exactly in a
-- failure. Nothing is asked of the value of `query`, of a failure's `data`, or of further keys in `error`.
pub record Conforms (payload : Fields) : Type 0 where
  pub ok : Bool
  pub has_ok : lookup "ok" payload ≡ some (bool ok)
  pub provider : IsStr (lookup "provider" payload)
  pub command : IsStr (lookup "command" payload)
  pub kind : IsStr (lookup "kind" payload)
  pub version : lookup "schema_version" payload ≡ some (str schema_version)
  pub query : (v : Value) × (lookup "query" payload ≡ some v)
  pub provenance : IsDict (lookup "provenance" payload)
  pub body : IsDict (lookup "data" payload)
  pub only : (k : String) → has k payload ≡ true → is_envelope_key k ≡ true
  pub error : ErrorFits ok (lookup "error" payload)

append-eq-nil {ℓ} : {A : Type ℓ} (xs ys : List A) → xs ++ ys ≡ [] → (xs ≡ []) × (ys ≡ [])
append-eq-nil [] ys h = (refl, h)
append-eq-nil (x ∷ xs) ys h = absurd (ground arith)

map-eq-nil {ℓ κ} : {A : Type ℓ} {B : Type κ} (f : A → B) (xs : List A) → map f xs ≡ [] → xs ≡ []
map-eq-nil f [] h = refl
map-eq-nil f (x ∷ xs) h = absurd (ground arith)

present-IsStr :
    (v : Option Value) (p : String) → present_must is_str v p ≡ [] → is_some v ≡ true → IsStr v
unfolding present_must
present-IsStr none p h e = absurd (ground arith)
present-IsStr (some (str s)) p h e = (s, refl)
present-IsStr (some v) p h e = absurd (ground arith)

present-IsDict :
    (v : Option Value) (p : String) → present_must is_dict v p ≡ [] → is_some v ≡ true → IsDict v
unfolding present_must
present-IsDict none p h e = absurd (ground arith)
present-IsDict (some (dict d)) p h e = (d, refl)
present-IsDict (some v) p h e = absurd (ground arith)

present_bool :
    (v : Option Value) (p : String)
    → present_must is_bool v p ≡ []
    → is_some v ≡ true
    → (b : Bool) × (v ≡ some (bool b))
unfolding present_must
present_bool none p h e = absurd (ground arith)
present_bool (some (bool b)) p h e = (b, refl)
present_bool (some v) p h e = absurd (ground arith)

present_version :
    (v : Option Value) (p : String)
    → present_must is_schema_version v p ≡ []
    → is_some v ≡ true
    → v ≡ some (str schema_version)
unfolding present_must is_schema_version
present_version none p h e = absurd (ground arith)
present_version (some (str s)) p h e = ground (arith, eq_iff s schema_version)
present_version (some v) p h e = absurd (ground arith)

must-IsStr : (v : Option Value) (p : String) → must is_str v p ≡ [] → IsStr v
unfolding must
must-IsStr none p h = absurd (ground arith)
must-IsStr (some (str s)) p h = (s, refl)
must-IsStr (some v) p h = absurd (ground arith)

details_dict :
    (o : Option Value) (p : String)
    → present_must is_dict o p ≡ []
    → (v : Value) → o ≡ some v
    → IsDict (some v)
unfolding present_must
details_dict none p h v e = absurd (ground arith)
details_dict (some (dict d)) p h v e = (d, ground arith)
details_dict (some w) p h v e = absurd (ground arith)

error_body_of :
    (e : Fields) → error_problems (some (bool false)) (some (dict e)) ≡ [] → IsErrorBody e
unfolding error_problems
error_body_of e h =
    let (c, rest) = append-eq-nil _ _ h in
    let (m, d) = append-eq-nil _ _ rest in
    record { code = must-IsStr _ _ c; message = must-IsStr _ _ m; details = details_dict _ _ d }

error_fits : (b : Bool) (e : Option Value) → error_problems (some (bool b)) e ≡ [] → ErrorFits b e
unfolding error_problems
error_fits true none h = refl
error_fits true (some e) h = absurd (ground arith)
error_fits false (some (dict d)) h = (d, refl, error_body_of d h)
error_fits false none h = absurd (ground arith)
error_fits false (some e) h = absurd (ground arith)

required : (ks : List String) (d : Fields) → missing_keys ks d ≡ [] → All (λ k. has k d ≡ true) ks
unfolding missing_keys
required [] d h = tt
required (k ∷ ks) d h = elim (Bool-cases (has k d)) [
  | inl e ↦ (e, required ks d (ground arith))
  | inr e ↦ absurd (ground arith)
]

has-field : (k j : String) (v : Value) (d : Fields) → has k d ≡ true → has k (field j v d) ≡ true
unfolding lookup
has-field k j v d h = ground arith

pub only_of :
    (d : Fields) → unexpected_keys d ≡ [] → (k : String) → has k d ≡ true → is_envelope_key k ≡ true
unfolding unexpected_keys keys lookup
only_of end h k e = absurd (ground arith)
only_of (field j v d) h k e = ground (arith, eq_iff j k, only_of d (ground arith) k)

unexpected_of :
    (d : Fields)
    → ((k : String) → has k d ≡ true → is_envelope_key k ≡ true)
    → unexpected_keys d ≡ []
unfolding unexpected_keys keys
unexpected_of end h = refl
unexpected_of (field j v d) h =
    let here : is_envelope_key j ≡ true = h j (unfold lookup in rw eq_refl) in
    rw here (unexpected_of d (λ k e. h k (has-field k j v d e)))

some_of {ℓ} : {A : Type ℓ} (o : Option A) → is_some o ≡ true → (a : A) × (o ≡ some a)
some_of none h = absurd (ground arith)
some_of (some a) h = (a, refl)

pub Conforms-of_violations : (d : Fields) → envelope_violations d ≡ [] → Conforms d
unfolding envelope_violations envelope_type_violations envelope_error_violations
Conforms-of_violations d h =
    let (missing, h₁) = append-eq-nil (missing_keys required_keys d) _ h in
    let (extra, h₂) =
      append-eq-nil (map (cat "unexpected key: ") (sorted (unexpected_keys d))) _ h₁ in
    let (types, errors) = append-eq-nil (envelope_type_violations d) _ h₂ in
    let (t_ok, r₁) = append-eq-nil _ _ types in
    let (t_provider, r₂) = append-eq-nil _ _ r₁ in
    let (t_command, r₃) = append-eq-nil _ _ r₂ in
    let (t_kind, r₄) = append-eq-nil _ _ r₃ in
    let (t_version, r₅) = append-eq-nil _ _ r₄ in
    let (t_provenance, t_data) = append-eq-nil _ _ r₅ in
    let (has_command, q₁) = required required_keys d missing in
    let (has_data, q₂) = q₁ in
    let (has_kind, q₃) = q₂ in
    let (has_ok, q₄) = q₃ in
    let (has_provenance, q₅) = q₄ in
    let (has_provider, q₆) = q₅ in
    let (b, ok_is) = present_bool _ _ t_ok has_ok in
    record {
      ok = b;
      has_ok = ok_is;
      provider = present-IsStr _ _ t_provider has_provider;
      command = present-IsStr _ _ t_command has_command;
      kind = present-IsStr _ _ t_kind has_kind;
      version = present_version _ _ t_version q₆.1.0;
      query = some_of (lookup "query" d) q₆.0;
      provenance = present-IsDict _ _ t_provenance has_provenance;
      body = present-IsDict _ _ t_data has_data;
      only = only_of d (sorted-eq-nil _ (map-eq-nil _ _ extra));
      error = error_fits b (lookup "error" d) (rw ok_is at errors);
    }

no_details :
    (o : Option Value) (p : String)
    → ((v : Value) → o ≡ some v → IsDict (some v))
    → present_must is_dict o p ≡ []
unfolding present_must
no_details none p h = refl
no_details (some v) p h = let (d, e) = h v refl in ground arith

no_error_problems :
    (b : Bool) (e : Option Value) → ErrorFits b e → error_problems (some (bool b)) e ≡ []
unfolding error_problems must
no_error_problems true e h = rw h
no_error_problems false e (d, is_dict_d, fits) =
    let (c, has_code) = fits.code in
    let (m, has_message) = fits.message in
    rw (is_dict_d, has_code, has_message) (no_details (lookup "details" d) _ fits.details)

pub violations_of : {d : Fields} → Conforms d → envelope_violations d ≡ []
unfolding envelope_violations envelope_type_violations envelope_error_violations present_must
    is_schema_version missing_keys sorted
violations_of {d} c =
    let (provider, e₁) = c.provider in
    let (command, e₂) = c.command in
    let (kind, e₃) = c.kind in
    let (query, e₄) = c.query in
    let (provenance, e₅) = c.provenance in
    let (body, e₆) = c.body in
    rw (c.has_ok, e₁, e₂, e₃, e₄, e₅, e₆, c.version, unexpected_of d c.only)
      (no_error_problems c.ok (lookup "error" d) c.error)
