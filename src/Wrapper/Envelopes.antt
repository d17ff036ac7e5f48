-- ===== src/Wrapper/Envelopes.antt =====
-- Whatever a command puts in its payload, the wrapper writes a conforming envelope and keeps the
-- payload's content.
use warcraft_cli.Base.{
  String, ◌≡◌, refl, sym, ap, Bool, true, false, Option, none, some, inl, inr, Bool-cases, arith,
  eq_iff, if◌then◌else◌,
}
use warcraft_cli.Envelope.{schema_version, is_envelope_key}
use warcraft_cli.Envelope.Conforms.{Conforms, IsStr, IsDict, IsErrorBody}
use warcraft_cli.Json.{
  Value, Fields, null, bool, str, dict, end, field, lookup, has, insert, merge, restrict, truthy,
  as_dict, IsUnique,
}
use warcraft_cli.Json.Laws.{lookup-insert, lookup-merge, lookup-restrict, IsUnique-restrict}
use warcraft_cli.Wrapper.{
  wrapper_ok, content, wrapper_base, wrapper_error, with_details, wrapper_envelope,
}

-- A payload's envelope keys are at their types where it sets them; the error of a failure has a text
-- code and message, and a success has none.
pub record IsPayload (p : Fields) : Type 0 where
  pub unique : IsUnique p
  pub ok : (v : Value) → lookup "ok" p ≡ some v → (b : Bool) × (v ≡ bool b)
  pub provider : (v : Value) → lookup "provider" p ≡ some v → IsStr (some v)
  pub command : (v : Value) → lookup "command" p ≡ some v → IsStr (some v)
  pub kind : (v : Value) → lookup "kind" p ≡ some v → IsStr (some v)
  pub version : (v : Value) → lookup "schema_version" p ≡ some v → v ≡ str schema_version
  pub provenance : (v : Value) → lookup "provenance" p ≡ some v → IsDict (some v)
  pub no_error : wrapper_ok p ≡ true → lookup "error" p ≡ none
  pub code : wrapper_ok p ≡ false → IsStr (lookup "code" (as_dict (lookup "error" p)))
  pub details :
      (v : Value) → lookup "details" (as_dict (lookup "error" p)) ≡ some v → IsDict (some v)
  pub message : wrapper_ok p ≡ false → IsStr (lookup "message" (as_dict (lookup "error" p)))

module _ (command : String) (p : Fields) (u : IsUnique p) where
  abbrev defaults : Fields
  defaults = field "ok" (bool (wrapper_ok p)) (
      field "provider" (str "warcraft") (
        field "command" (str command) (
          field "kind" (str command) (
            field "schema_version" (str schema_version)
              (field "query" null (field "provenance" (dict end) end))))))

  lookup-wrapper_base :
      (k : String)
      → lookup k (wrapper_base command p) ≡ (
          if is_envelope_key k
          then elim (lookup k p) [ none ↦ lookup k defaults | some v ↦ some v ]
          else lookup k defaults)
  unfolding wrapper_base
  lookup-wrapper_base k =
      rw
        (lookup-merge k defaults (restrict is_envelope_key p)
          (IsUnique-restrict is_envelope_key p u))
        (ground (arith, lookup-restrict is_envelope_key k p))

  pick :
      (P : Option Value → Type 0) (o d : Option Value)
      → P d
      → ((v : Value) → o ≡ some v → P (some v))
      → P (elim o [ none ↦ d | some v ↦ some v ])
  pick P none d pd pv = pd
  pick P (some v) d pd pv = pv v refl

  -- What holds of the default and of every value that the payload may set holds of the envelope.
  base_at :
      (k : String) (P : Option Value → Type 0)
      → is_envelope_key k ≡ true
      → P (lookup k defaults)
      → ((v : Value) → lookup k p ≡ some v → P (some v))
      → P (lookup k (wrapper_base command p))
  base_at k P e pd pv =
      rw (lookup-wrapper_base k, e) (pick P (lookup k p) (lookup k defaults) pd pv)

  base_only : (k : String) → has k (wrapper_base command p) ≡ true → is_envelope_key k ≡ true
  unfolding lookup is_envelope_key
  base_only k h = ground (arith, lookup-wrapper_base k)

-- Details are added without touching the code and the message.
body_of :
    (error details : Fields)
    → IsStr (lookup "code" error)
    → IsStr (lookup "message" error)
    → ((v : Value) → lookup "details" error ≡ some v → IsDict (some v))
    → IsErrorBody (with_details error details)
unfolding with_details
body_of error end c m d = record { code = c; message = m; details = d }
body_of error (field k v details) c m d = record {
  code = rw lookup-insert c;
  message = rw lookup-insert m;
  details = λ w e. (field k v details, rw lookup-insert at (sym e));
}

module _ (command : String) (p : Fields) (h : IsPayload p) where
  insert_only :
      (j : String) (v : Value) (d : Fields)
      → is_envelope_key j ≡ true
      → ((k : String) → has k d ≡ true → is_envelope_key k ≡ true)
      → (k : String) → has k (insert j v d) ≡ true
      → is_envelope_key k ≡ true
  insert_only j v d hj hd k e = ground (arith, lookup-insert j k v d, eq_iff j k, hd k)

  ok_true : wrapper_ok p ≡ true → lookup "ok" (wrapper_base command p) ≡ some (bool true)
  unfolding lookup is_envelope_key wrapper_ok truthy
  ok_true w =
      base_at command p h.unique "ok" (λ o. o ≡ some (bool true)) refl (rw w)
        (λ v e. ground (arith, h.ok v e, w))

  error_body : wrapper_ok p ≡ false → IsErrorBody (wrapper_error p)
  unfolding wrapper_error
  error_body w = body_of (as_dict (lookup "error" p)) _ (h.code w) (h.message w) h.details

  fails : wrapper_ok p ≡ false → Conforms (wrapper_envelope command p)
  unfolding wrapper_envelope lookup is_envelope_key
  fails w = rw w (record {
    ok = false;
    has_ok = simp lookup-insert;
    provider =
        simp lookup-insert
          (base_at command p h.unique "provider" IsStr refl ("warcraft", refl) h.provider);
    command =
        simp lookup-insert
          (base_at command p h.unique "command" IsStr refl (command, refl) h.command);
    kind = ("error", simp lookup-insert);
    version = simp lookup-insert (
        base_at command p h.unique "schema_version" (λ o. o ≡ some (str schema_version)) refl refl
          (λ v e. ap some (h.version v e)));
    query = simp lookup-insert (
        base_at command p h.unique "query" (λ o. (v : Value) × (o ≡ some v)) refl (null, refl)
          (λ v e. (v, refl)));
    provenance =
        simp lookup-insert
          (base_at command p h.unique "provenance" IsDict refl (end, refl) h.provenance);
    body = (end, simp lookup-insert);
    only = insert_only "error" _ _ refl (
        insert_only "data" _ _ refl
          (insert_only "kind" _ _ refl (insert_only "ok" _ _ refl (base_only command p h.unique))));
    error = (wrapper_error p, simp lookup-insert, error_body w);
  })

  succeeds : wrapper_ok p ≡ true → Conforms (wrapper_envelope command p)
  unfolding wrapper_envelope lookup is_envelope_key
  succeeds w = rw w (record {
    ok = true;
    has_ok = rw lookup-insert (ok_true w);
    provider =
        rw lookup-insert
          (base_at command p h.unique "provider" IsStr refl ("warcraft", refl) h.provider);
    command =
        rw lookup-insert
          (base_at command p h.unique "command" IsStr refl (command, refl) h.command);
    kind = rw lookup-insert (base_at command p h.unique "kind" IsStr refl (command, refl) h.kind);
    version = rw lookup-insert (
        base_at command p h.unique "schema_version" (λ o. o ≡ some (str schema_version)) refl refl
          (λ v e. ap some (h.version v e)));
    query = rw lookup-insert (
        base_at command p h.unique "query" (λ o. (v : Value) × (o ≡ some v)) refl (null, refl)
          (λ v e. (v, refl)));
    provenance =
        rw lookup-insert
          (base_at command p h.unique "provenance" IsDict refl (end, refl) h.provenance);
    body = (merge (content p) (as_dict (lookup "data" p)), lookup-insert "data" "data" _ _);
    only = insert_only "data" _ _ refl (base_only command p h.unique);
    error = rw lookup-insert (
        base_at command p h.unique "error" (λ o. o ≡ none) refl refl
          (λ v e. absurd (ground (arith, h.no_error w))));
  })

-- A payload whose envelope keys are at their types, with no error in a success and a text code and
-- message in a failure, becomes a conforming envelope.
pub wrapper_envelope-Conforms :
    (command : String) (p : Fields) → IsPayload p → Conforms (wrapper_envelope command p)
wrapper_envelope-Conforms command p h = elim (Bool-cases (wrapper_ok p)) [
  | inl w ↦ succeeds command p h w
  | inr w ↦ fails command p h w
]
