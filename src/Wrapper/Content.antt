-- ===== src/Wrapper/Content.antt =====
-- Where the wrapper's envelope carries the keys of a payload.
-- packages/warcraft-cli/src/warcraft_cli/provider_calls.py
use warcraft_cli.Base.{
  String, ◌≡◌, ◌∙◌, refl, sym, Bool, true, false, not, Option, none, some, arith, Option-cases, inl,
  inr, if◌then◌else◌,
}
use warcraft_cli.Envelope.{is_envelope_key}
use warcraft_cli.Json.{Value, Fields, dict, end, field, lookup, merge, as_dict, IsUnique}
use warcraft_cli.Json.Laws.{lookup-insert, lookup-insert_self, lookup-merge, lookup-restrict}
use warcraft_cli.Wrapper.{wrapper_ok, content, wrapper_error, with_details, wrapper_envelope}

-- Where an envelope of the given outcome carries a payload's content.
abbrev pub section : Bool → Fields → Fields
section true d = as_dict (lookup "data" d)
section false d = as_dict (lookup "details" (as_dict (lookup "error" d)))

-- Where an envelope carries a key of the payload: the payload's own section has the say, and a key
-- that it lacks is the payload's, when it is no envelope key.
abbrev pub carried : String → Fields → Fields → Option Value
carried k own p = elim (lookup k own) [
  | some w ↦ some w
  | none ↦ if is_envelope_key k then none else lookup k p
]

module _ (k : String) (p : Fields) where
  lookup-content :
      (own : Fields) → IsUnique own → lookup k (merge (content p) own) ≡ carried k own p
  lookup-content own u = rw (lookup-merge k (content p) own u) (elim (Option-cases (lookup k own)) [
    | inl e ↦ rw (e, carried) (lookup-restrict (λ j. not (is_envelope_key j)) k p ∙ ground arith)
    | inr (w, e) ↦ rw (e, carried) refl
  ])

  -- Details that hold nothing leave the payload's own, which then hold nothing either.
  carried-none : (own : Fields) → carried k own p ≡ none → lookup k own ≡ none
  carried-none own h = ground arith

  lookup-with_details :
      (error d : Fields)
      → lookup k d ≡ carried k (as_dict (lookup "details" error)) p
      → lookup k (as_dict (lookup "details" (with_details error d)))
        ≡ carried k (as_dict (lookup "details" error)) p
  unfolding with_details lookup as_dict
  lookup-with_details error end e = carried-none (as_dict (lookup "details" error)) (sym e) ∙ e
  lookup-with_details error (field j w d) e =
      rw (lookup-insert_self "details" (dict (field j w d)) error) e

module _ (command : String) (p : Fields) where
  data_at :
      wrapper_ok p ≡ true
      → lookup "data" (wrapper_envelope command p)
        ≡ some (dict (merge (content p) (as_dict (lookup "data" p))))
  unfolding wrapper_envelope
  data_at w = rw w (lookup-insert "data" "data" _ _)

  error_at :
      wrapper_ok p ≡ false
      → lookup "error" (wrapper_envelope command p) ≡ some (dict (wrapper_error p))
  unfolding wrapper_envelope
  error_at w = rw w (lookup-insert "error" "error" _ _)

  in_section :
      (k : String) (b : Bool)
      → wrapper_ok p ≡ b
      → IsUnique (section b p)
      → lookup k (section b (wrapper_envelope command p)) ≡ carried k (section b p) p
  unfolding as_dict wrapper_error
  in_section k true w u = rw (data_at w) (lookup-content k p (as_dict (lookup "data" p)) u)
  in_section k false w u =
      let error = as_dict (lookup "error" p) in
      let d = as_dict (lookup "details" error) in
      rw (error_at w) (lookup-with_details k p error (merge (content p) d) (lookup-content k p d u))

-- What the envelope's `data` (in a failure: its `error.details`) holds at each key: the value of the
-- payload's own section there, where that has the key; else the payload's value of a key that is no
-- envelope key; else nothing. The payload's own section has distinct keys.
pub wrapper_envelope-content :
    (command : String) (p : Fields) (k : String)
    → IsUnique (section (wrapper_ok p) p)
    → lookup k (section (wrapper_ok p) (wrapper_envelope command p))
      ≡ carried k (section (wrapper_ok p) p) p
wrapper_envelope-content command p k u = in_section command p k (wrapper_ok p) refl u
