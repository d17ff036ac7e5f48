-- ===== src/Envelope/Build.antt =====
-- The two builders of envelope.py meet the contract whatever they are given.
use warcraft_cli.Base.{String, refl, true, Option}
use warcraft_cli.Envelope.{success_envelope, or_empty, unexpected_keys, is_envelope_key}
use warcraft_cli.Envelope.Conforms.{Conforms, only_of}
use warcraft_cli.Json.{Value, Fields, lookup, keys}

pub success_envelope-Conforms :
    (provider command kind : String) (body : Fields) (query : Value) (provenance : Option Fields)
    → Conforms (success_envelope provider command kind body query provenance)
unfolding success_envelope lookup keys unexpected_keys is_envelope_key
success_envelope-Conforms provider command kind body query provenance = record {
  ok = true;
  has_ok = refl;
  provider = (provider, refl);
  command = (command, refl);
  kind = (kind, refl);
  version = refl;
  query = (query, refl);
  provenance = (or_empty provenance, refl);
  body = (body, refl);
  only = only_of (success_envelope provider command kind body query provenance) refl;
  error = refl;
}
