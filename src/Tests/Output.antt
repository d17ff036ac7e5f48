-- ===== src/Tests/Output.antt =====
-- The output flags at concrete payloads.
use warcraft_cli.Base.{
  String, ◌≡◌, ◌≢◌, ◌↔◌, refl, true, false, none, some, List, [], ◌∷◌, arith, eq_iff, split, keep,
  text_length, has_char, ends_with, cat, prefix, strip,
}
use warcraft_cli.Envelope.{success_envelope}
use warcraft_cli.Envelope.Build.{success_envelope-Conforms}
use warcraft_cli.Envelope.Conforms.{Conforms}
use warcraft_cli.Json.{
  Value, Fields, null, str, list, dict, end, field, lookup, texts, insert, as_dict,
}
use warcraft_cli.Output.{
  OutputOptions, compact_value, stays, is_verbatim_key, shorten, filter_payload_fields, projected,
  fields_missing_key, normalize_field_paths, extract_dict_path, assign_dict_path, project, extract,
  assign,
}
use warcraft_cli.Output.Compact.{compact_value_idem, compact_value_exact}
use warcraft_cli.Output.Envelopes.{shape_payload-Conforms}
use warcraft_cli.Output.Project.{IsProper, Kept, missing_paths}
use warcraft_cli.Output.Only.{Only, filter_payload_fields-Kept}
use warcraft_cli.Output.Shape.{shape_payload}

normalized : normalize_field_paths ("a, b.c" ∷ "a,,d" ∷ []) ≡ "a" ∷ "b.c" ∷ "d" ∷ []
unfolding normalize_field_paths split strip
normalized = refl

abbrev page : Fields
page = field "data" (dict (field "name" (str "Thunderfury") (field "id" (str "19019") end))) end

-- The second path lies within the first, and the third is missing.
abbrev asked : List String
asked = "data" ∷ "data.id" ∷ "data.url" ∷ []

data-IsProper : IsProper "data"
unfolding split keep
data-IsProper = record {
  first = "data";
  rest = [];
  keys = refl;
  free = λ e. ground (arith, eq_iff fields_missing_key "data");
  none_empty = refl;
}

id-IsProper : IsProper "data.id"
unfolding split keep
id-IsProper = record {
  first = "data";
  rest = "id" ∷ [];
  keys = refl;
  free = λ e. ground (arith, eq_iff fields_missing_key "data");
  none_empty = refl;
}

url-IsProper : IsProper "data.url"
unfolding split keep
url-IsProper = record {
  first = "data";
  rest = "url" ∷ [];
  keys = refl;
  free = λ e. ground (arith, eq_iff fields_missing_key "data");
  none_empty = refl;
}

abbrev shown : Fields
shown = insert fields_missing_key (list (texts ("data.url" ∷ []))) page

asked-shown : filter_payload_fields page asked false ≡ projected shown
unfolding texts filter_payload_fields project extract_dict_path assign_dict_path extract assign
    lookup insert split keep as_dict
asked-shown = refl

filter_payload_fields-Kept_example :
    Kept page shown asked
    × (missing_paths page asked ≢ []
        → lookup fields_missing_key shown ≡ some (list (texts (missing_paths page asked))))
    × Only page shown asked
filter_payload_fields-Kept_example =
    filter_payload_fields-Kept page "data" ("data.id" ∷ "data.url" ∷ []) false shown
      (data-IsProper, (id-IsProper, (url-IsProper, tt))) asked-shown

abbrev prose : Value
prose =
    dict (field "text" (str "a long text of words") (field "command" (str "simc a b c d e f") end))

prose_cut : compact_value 10 "" false prose ≡ (
  dict (field "text" (str "a long ...") (field "command" (str "simc a b c d e f") end)),
  "text" ∷ [],
)
unfolding compact_value stays is_verbatim_key shorten text_length has_char ends_with cat prefix
prose_cut = refl

compact_value_idem_example :
    compact_value 10 "x" false (compact_value 10 "" false prose).0
    ≡ ((compact_value 10 "" false prose).0, [])
compact_value_idem_example = compact_value_idem 10 "" "x" false prose (omega arith)

compact_value_exact_example :
    ((compact_value 10 "" false prose).1 ≡ []) ↔ ((compact_value 10 "" false prose).0 ≡ prose)
compact_value_exact_example = compact_value_exact 10 "" false prose (omega arith)

abbrev small : OutputOptions
small = record {
  pretty = false;
  compact = true;
  compact_max_chars = 40;
  fields = [];
  fields_strict = false;
  profile = none;
}

abbrev answer : Fields
answer = success_envelope "wowhead" "guide" "guide" page null none

shape_payload-Conforms_example :
    (e : Fields) × (shape_payload answer small ≡ projected e) × Conforms e
shape_payload-Conforms_example =
    shape_payload-Conforms small answer
      (success_envelope-Conforms "wowhead" "guide" "guide" page null none) refl (omega arith)
