-- ===== src/Output.antt =====
-- The global output flags: field projection, compaction and the shaping of a success envelope.
-- packages/warcraft-core/src/warcraft_core/output.py
pub mod Paths
pub mod Project
pub mod Only
pub mod Compact
pub mod Shape
pub mod Envelopes
use warcraft_cli.Base.{
  ℕ, zero, suc, ◌+◌, ◌-◌, String, Bool, true, false, not, ◌&&◌, ◌||◌, Option, none, some, List, [],
  ◌∷◌, ◌++◌, max, leb, ◌==◌, if◌then◌else◌, text_length, cat, prefix, has_char, starts_with,
  ends_with, split, strip, decimal, any, all, keep, is_some,
}
use warcraft_cli.Json.{
  Value, Items, Fields, null, bool, int, float, str, list, dict, nil, cons, end, field, lookup,
  insert, as_dict, texts,
}

pub data OutputProfile : Type 0 where
  agent human : OutputProfile

pub record OutputOptions : Type 0 where
  pub pretty : Bool
  pub compact : Bool
  pub compact_max_chars : ℕ
  pub fields : List String
  pub fields_strict : Bool
  pub profile : Option OutputProfile

-- `path in seen`
unfoldable pub mem : String → List String → Bool
unfolding any
mem s seen = any (λ t. t == s) seen

-- One pass over the candidates of a value; `normalized` holds the paths seen so far too.
unfoldable pub add_paths : List String → List String → List String
unfolding mem
add_paths [] normalized = normalized
add_paths (candidate ∷ rest) normalized =
    let path = strip candidate in
    add_paths rest
      (if (path == "") || mem path normalized then normalized else normalized ++ path ∷ [])

unfoldable pub normalize_values : List String → List String → List String
unfolding add_paths
normalize_values [] normalized = normalized
normalize_values (raw ∷ rest) normalized =
    normalize_values rest (add_paths (split b',' raw) normalized)

unfoldable pub normalize_field_paths : List String → List String
unfolding normalize_values
normalize_field_paths values = normalize_values values []

-- `lower` is `str.lower`. `none` is the `ValueError` of an unknown profile.
unfoldable pub normalize_profile : (String → String) → Option String → Option (Option OutputProfile)
normalize_profile lower none = some none
normalize_profile lower (some profile) =
    let key = lower (strip profile) in
    if key == "agent" then some (some agent) else if key == "human" then some (some human) else none

-- `replace(options, pretty=...)` for a named profile
unfoldable pub profile_pretty : Option OutputProfile → Bool → Bool
profile_pretty none pretty = pretty
profile_pretty (some human) pretty = true
profile_pretty (some agent) pretty = false

unfoldable pub resolve_output_options :
    (String → String) → Option String → Bool → Bool → ℕ → List String → Bool → Option OutputOptions
unfolding normalize_profile profile_pretty
resolve_output_options lower profile pretty compact compact_max_chars fields fields_strict =
    elim (normalize_profile lower profile) [
      | none ↦ none
      | some p ↦ some (record {
        pretty = profile_pretty p pretty;
        compact = compact;
        compact_max_chars = max 40 compact_max_chars;
        fields = normalize_field_paths fields;
        fields_strict = fields_strict;
        profile = p;
      })
    ]

-- `str(key).endswith(_VERBATIM_KEY_SUFFIXES)`
unfoldable pub is_verbatim_key : String → Bool
is_verbatim_key key = ends_with key "command" || ends_with key "commands" || ends_with key "input"

-- A text that is never cut: verbatim, short enough, or without a space or a tab.
unfoldable pub stays : ℕ → Bool → String → Bool
stays max_chars verbatim s =
    verbatim || leb (text_length s) max_chars || not (has_char b' ' s || has_char 9 s)

-- `value[: max_chars - 3] + "..."`
unfoldable pub shorten : ℕ → String → String
shorten max_chars s = cat (prefix (max_chars - 3) s) "..."

abbrev pub sub_path : String → String → String
sub_path path key = if path == "" then key else cat path (cat "." key)

-- The compacted value and the paths cut in it, in order.
unfoldable mutual
  pub compact_value : ℕ → String → Bool → Value → Value × List String
  compact_value max_chars path verbatim (str s) =
      if stays max_chars verbatim s then (str s, []) else (str (shorten max_chars s), path ∷ [])
  compact_value max_chars path verbatim (list xs) =
      let (ys, cut) = compact_items max_chars path verbatim 0 xs in (list ys, cut)
  compact_value max_chars path verbatim (dict d) =
      let (e, cut) = compact_fields max_chars path verbatim d in (dict e, cut)
  compact_value max_chars path verbatim null = (null, [])
  compact_value max_chars path verbatim (bool b) = (bool b, [])
  compact_value max_chars path verbatim (int n) = (int n, [])
  compact_value max_chars path verbatim (float t) = (float t, [])

  pub compact_items : ℕ → String → Bool → ℕ → Items → Items × List String
  compact_items max_chars path verbatim index nil = (nil, [])
  compact_items max_chars path verbatim index (cons v xs) =
      let (w, cut) = compact_value max_chars (cat path (cat "." (decimal index))) verbatim v in
      let (ys, cuts) = compact_items max_chars path verbatim (suc index) xs in
      (cons w ys, cut ++ cuts)

  pub compact_fields : ℕ → String → Bool → Fields → Fields × List String
  compact_fields max_chars path verbatim end = (end, [])
  compact_fields max_chars path verbatim (field k v d) =
      let (w, cut) = compact_value max_chars (sub_path path k) (verbatim || is_verbatim_key k) v in
      let (e, cuts) = compact_fields max_chars path verbatim d in (field k w e, cut ++ cuts)

-- The walk of `extract_dict_path` along the keys of a path; `none` is `(False, None)`.
unfoldable pub extract : List String → Value → Option Value
extract [] v = some v
extract (k ∷ ks) (dict d) = elim (lookup k d) [ none ↦ none | some w ↦ extract ks w ]
extract (k ∷ ks) _ = none

unfoldable pub extract_dict_path : Fields → String → Option Value
extract_dict_path payload path = extract (split b'.' path) (dict payload)

-- The walk of `assign_dict_path`, which makes a dict of whatever else stands on the way.
unfoldable pub assign : List String → Value → Fields → Fields
assign [] v target = target
assign (k ∷ []) v target = insert k v target
assign (k ∷ k' ∷ ks) v target =
    insert k (dict (assign (k' ∷ ks) v (as_dict (lookup k target)))) target

unfoldable pub assign_dict_path : Fields → String → Value → Fields
assign_dict_path target path v = assign (keep (λ k. not (k == "")) (split b'.' path)) v target

-- The loop of `filter_payload_fields`: what was found is assigned, what was not is listed.
unfoldable pub project : Fields → List String → Fields × List String → Fields × List String
project payload [] state = state
project payload (path ∷ paths) (filtered, missing) =
    project payload paths (elim (extract_dict_path payload path) [
      | none ↦ (filtered, missing ++ path ∷ [])
      | some v ↦ (assign_dict_path filtered path v, missing)
    ])

-- `OutputProjectionError` carries the missing paths.
pub data Projection : Type 0 where
  projected : Fields → Projection
  projection_error : List String → Projection

abbrev pub fields_missing_key : String
fields_missing_key = "fields_missing"

unfoldable pub with_missing : Bool → Fields × List String → Projection
with_missing strict (filtered, []) = projected filtered
with_missing true (filtered, p ∷ ps) = projection_error (p ∷ ps)
with_missing false (filtered, p ∷ ps) =
    projected (insert fields_missing_key (list (texts (p ∷ ps))) filtered)

unfoldable pub filter_payload_fields : Fields → List String → Bool → Projection
unfolding with_missing
filter_payload_fields payload [] strict = projected payload
filter_payload_fields payload (p ∷ ps) strict =
    with_missing strict (project payload (p ∷ ps) (end, []))
