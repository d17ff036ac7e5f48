-- ===== src/Envelope/Documented.antt =====
-- The check of an envelope beside the contract that its documentation gives.
-- packages/warcraft-core/src/warcraft_core/envelope.py and docs/foundation/ERROR_CONTRACT.md
use warcraft_cli.Base.{
  String, ◌≡◌, ◌∙◌, refl, sym, subst, ◌↔◌, Bool, true, false, ◌||◌, Option, none, some, [], ◌==◌,
  arith,
}
use warcraft_cli.Envelope.{schema_version, is_envelope_key, envelope_violations}
use warcraft_cli.Envelope.Conforms.{
  IsStr, IsDict, IsErrorBody, ErrorFits, Conforms, Conforms-of_violations, violations_of,
}
use warcraft_cli.Json.{Value, Fields, null, bool, str, dict, end, lookup, has}

abbrev pub is_error_key : String → Bool
is_error_key k = (k == "code") || (k == "message") || (k == "details")

-- A text, an object or null.
abbrev pub IsQuery : Value → Type 0
IsQuery null = Unit
IsQuery (str s) = Unit
IsQuery (dict d) = Unit
IsQuery _ = ⊥

-- A failure's `data` is empty.
abbrev pub BodyFits : Bool → Option Value → Type 0
BodyFits true body = IsDict body
BodyFits false body = body ≡ some (dict end)

-- No key beside `code`, `message` and `details`.
abbrev pub IsClosed : Fields → Type 0
IsClosed e = (k : String) → has k e ≡ true → is_error_key k ≡ true

abbrev pub ErrorObject : Bool → Option Value → Type 0
ErrorObject true e = e ≡ none
ErrorObject false e = (d : Fields) × (e ≡ some (dict d)) × IsErrorBody d × IsClosed d

-- An envelope as the document's table and its machine-readable schema describe one.
pub record IsDocumented (payload : Fields) : Type 0 where
  pub ok : Bool
  pub has_ok : lookup "ok" payload ≡ some (bool ok)
  pub provider : IsStr (lookup "provider" payload)
  pub command : IsStr (lookup "command" payload)
  pub kind : IsStr (lookup "kind" payload)
  pub version : lookup "schema_version" payload ≡ some (str schema_version)
  pub query : (v : Value) × (lookup "query" payload ≡ some v) × IsQuery v
  pub provenance : IsDict (lookup "provenance" payload)
  pub body : BodyFits ok (lookup "data" payload)
  pub only : (k : String) → has k payload ≡ true → is_envelope_key k ≡ true
  pub error : ErrorObject ok (lookup "error" payload)

-- What the document asks and the check does not.
pub record IsStrict (payload : Fields) : Type 0 where
  pub query : (v : Value) → lookup "query" payload ≡ some v → IsQuery v
  pub no_data : lookup "ok" payload ≡ some (bool false) → lookup "data" payload ≡ some (dict end)
  pub closed : (e : Fields) → lookup "error" payload ≡ some (dict e) → IsClosed e

body_dict : (ok : Bool) (body : Option Value) → BodyFits ok body → IsDict body
body_dict true body h = h
body_dict false body h = (end, h)

error_fits : (ok : Bool) (e : Option Value) → ErrorObject ok e → ErrorFits ok e
error_fits true e h = h
error_fits false e (d, is_d, fits, closed) = (d, is_d, fits)

no_data_of :
    (ok : Bool) (found body : Option Value)
    → found ≡ some (bool ok)
    → BodyFits ok body
    → found ≡ some (bool false)
    → body ≡ some (dict end)
no_data_of true found body is h e = absurd (ground arith)
no_data_of false found body is h e = h

IsClosed-of :
    (ok : Bool) (error : Option Value)
    → ErrorObject ok error
    → (e : Fields) → error ≡ some (dict e)
    → IsClosed e
IsClosed-of true error h e is_e = absurd (ground arith)
IsClosed-of false error (d, is_d, fits, closed) e is_e = λ k there.
    let same : d ≡ e = ground arith in closed k (subst (λ f. has k f ≡ true) (sym same) there)

body_fits :
    (ok : Bool) (body : Option Value)
    → IsDict body
    → (some (bool ok) ≡ some (bool false) → body ≡ some (dict end))
    → BodyFits ok body
body_fits true body h empty = h
body_fits false body h empty = empty refl

error_object :
    (ok : Bool) (error : Option Value)
    → ErrorFits ok error
    → ((e : Fields) → error ≡ some (dict e) → IsClosed e)
    → ErrorObject ok error
error_object true error h closed = h
error_object false error (d, is_d, fits) closed = (d, is_d, fits, closed d is_d)

module _ (d : Fields) where
  Conforms-of_document : IsDocumented d → Conforms d
  Conforms-of_document c = record {
    ok = c.ok;
    has_ok = c.has_ok;
    provider = c.provider;
    command = c.command;
    kind = c.kind;
    version = c.version;
    query = (c.query.0, c.query.1);
    provenance = c.provenance;
    body = body_dict c.ok (lookup "data" d) c.body;
    only = c.only;
    error = error_fits c.ok (lookup "error" d) c.error;
  }

  IsStrict-of_document : IsDocumented d → IsStrict d
  IsStrict-of_document c = record {
    query = λ v e.
        let (w, is_w, fits) = c.query in let same : w ≡ v = ground arith in subst IsQuery same fits;
    no_data = no_data_of c.ok (lookup "ok" d) (lookup "data" d) c.has_ok c.body;
    closed = IsClosed-of c.ok (lookup "error" d) c.error;
  }

  document_of : Conforms d → IsStrict d → IsDocumented d
  document_of c s = record {
    ok = c.ok;
    has_ok = c.has_ok;
    provider = c.provider;
    command = c.command;
    kind = c.kind;
    version = c.version;
    query = (c.query.0, c.query.1, s.query c.query.0 c.query.1);
    provenance = c.provenance;
    body = body_fits c.ok (lookup "data" d) c.body (λ e. s.no_data (c.has_ok ∙ e));
    only = c.only;
    error = error_object c.ok (lookup "error" d) c.error s.closed;
  }

  -- `envelope_violations` finds nothing exactly in the payloads that have the eight required keys at
  -- their types, no other key but `error`, and `error` exactly in a failure, as a dict with a text `code`
  -- and `message` and dict `details`, if any. The envelopes that the document describes are those of
  -- them whose `query` is a text, an object or null, whose `data` is empty in a failure, and whose
  -- `error` has no further key; the check asks none of these three.
  pub envelope_violations-Conforms :
      ((envelope_violations d ≡ []) ↔ Conforms d)
      × (IsDocumented d ↔ ((envelope_violations d ≡ []) × IsStrict d))
  envelope_violations-Conforms = (
    (Conforms-of_violations d, violations_of),
    (
      λ c. (violations_of (Conforms-of_document c), IsStrict-of_document c),
      λ (h, s). document_of (Conforms-of_violations d h) s,
    ),
  )
