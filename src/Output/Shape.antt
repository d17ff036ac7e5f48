-- ===== src/Output/Shape.antt =====
-- `shape_payload`: compaction, projection, and the record of what was cut; a shaped success is still
-- a conforming envelope when no projection was asked for.
-- packages/warcraft-core/src/warcraft_core/output.py
use warcraft_cli.Base.{
  String, Bool, true, false, ◌||◌, Option, some, List, [], ◌∷◌, ◌==◌, cat, starts_with, any, keep,
  if◌then◌else◌,
}
use warcraft_cli.Json.{Value, Fields, bool, list, lookup, texts}
use warcraft_cli.Output.{
  OutputOptions, compact_fields, assign_dict_path, filter_payload_fields, Projection, projected,
  projection_error,
}

-- `payload.get("ok") is False`
unfoldable pub is_failure : Option Value → Bool
is_failure (some (bool false)) = true
is_failure _ = false

abbrev pub compacted_paths_path : String
compacted_paths_path = "provenance.compacted_paths"

-- `if options.compact: rendered = compact_value(...)`
unfoldable pub compacted : OutputOptions → Fields → Fields × List String
compacted o payload =
    if o.compact then compact_fields o.compact_max_chars "" false payload else (payload, [])

-- `any(path == field or path.startswith(f"{field}.") for field in options.fields)`
unfoldable pub is_under : List String → String → Bool
unfolding any
is_under fields path = any (λ f. (path == f) || starts_with path (cat f ".")) fields

-- `if options.fields: ...`, which keeps of the cut paths those under a requested one
unfoldable pub kept_cut : List String → List String → List String
unfolding keep is_under
kept_cut [] cut = cut
kept_cut (f ∷ fs) cut = keep (is_under (f ∷ fs)) cut

-- `if cut: assign_dict_path(rendered, "provenance.compacted_paths", cut)`
unfoldable pub with_cut : Fields → List String → Fields
with_cut rendered [] = rendered
with_cut rendered (p ∷ ps) = assign_dict_path rendered compacted_paths_path (list (texts (p ∷ ps)))

unfoldable pub recorded : Projection → List String → Projection
unfolding with_cut
recorded (projected d) cut = projected (with_cut d cut)
recorded (projection_error m) cut = projection_error m

unfoldable pub shape_payload : Fields → OutputOptions → Projection
unfolding is_failure compacted kept_cut recorded
shape_payload payload o =
    let (rendered, cut) = compacted o payload in
    if is_failure (lookup "ok" payload)
    then projected payload
    else recorded (filter_payload_fields rendered o.fields o.fields_strict) (kept_cut o.fields cut)
