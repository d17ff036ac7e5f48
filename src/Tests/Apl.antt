-- ===== src/Tests/Apl.antt =====
-- The action lists of a small file.
use warcraft_cli.Apl.{AplEntry}
use warcraft_cli.Apl.Counted.{named_by, group_entries-action_counts}
use warcraft_cli.Apl.Lines.{Located, talent_source_lines-find_talents}
use warcraft_cli.Apl.Effective.{bodies}
use warcraft_cli.Apl.Graph.{
  rows_at, group_into, group_entries, count_at, action_counts, mermaid_graph, draw_groups,
  draw_rows, draw_edge, has_edge,
}
use warcraft_cli.Apl.Parse.{list_at, read_lines}
use warcraft_cli.Apl.Pieces.{filled}
use warcraft_cli.Apl.Talents.{Sources, body_of, find_talents, talent_source_lines}
use warcraft_cli.Apl.Texts.{text_at, effective_texts, read_lines-effective_texts}
use warcraft_cli.Base.{
  String, ◌≡◌, refl, none, some, List, [], ◌∷◌, ◌==◌, keep, split, value_at, cat, join, set_at,
}

abbrev lines : List String
lines =
    "actions=first/sec" ∷ "actions+=ond,if=talent.a&tal" ∷ "actions+=ent.b/third/"
    ∷ "actions.st=old" ∷ "actions+=fourth" ∷ "actions.st=new" ∷ []

read_lines-effective_texts_example :
    bodies (list_at (value_at "default" (read_lines 1 lines []))).actions
    ≡ filled (split b'/' (text_at (value_at "default" (effective_texts lines []))))
read_lines-effective_texts_example = read_lines-effective_texts 1 lines "default"

effective_default :
    filled (split b'/' (text_at (value_at "default" (effective_texts lines []))))
    ≡ "first" ∷ "second,if=talent.a&talent.b" ∷ "third" ∷ "fourth" ∷ []
unfolding keep split value_at effective_texts
effective_default = refl

abbrev sources : Sources
sources =
    record { text = "second,if=talent.a&tal"; line_no = 2; op = "+="; raw = "" }
    ∷ record { text = "ent.b"; line_no = 3; op = "+="; raw = "" }
    ∷ []

sources_talents : talent_source_lines (body_of sources) sources ≡ ("a", 2) ∷ ("b", 2) ∷ []
unfolding talent_source_lines body_of
sources_talents = refl

talent_source_lines-find_talents_example :
    Located sources
      (find_talents 0 0 (body_of sources))
      (talent_source_lines (body_of sources) sources)
talent_source_lines-find_talents_example = talent_source_lines-find_talents sources

abbrev entry : String → String → AplEntry
entry list_name target = record {
  line_no = 1;
  list_name = list_name;
  op = "+=";
  action = "call_action_list";
  raw_args = "";
  condition = none;
  raw = "";
  target_list = some target;
  kind = "call_action_list";
  talent_source_lines = none;
}

abbrev rows : List AplEntry
rows = entry "default" "st" ∷ entry "st" "cds" ∷ entry "default" "st" ∷ []

rows_graph :
    mermaid_graph rows
    ≡ "flowchart TD\n  default[default]\n  default -->|call| st\n  st[st]\n  st -->|call| cds"
unfolding mermaid_graph group_entries group_into draw_groups draw_rows draw_edge has_edge cat join
    value_at set_at
rows_graph = refl

group_entries-action_counts_example :
    (rows_at (value_at "st" (group_entries rows)) ≡ keep (λ e. e.list_name == "st") rows)
    × (count_at (value_at "st" (action_counts rows)) ≡ named_by "st" rows)
group_entries-action_counts_example = group_entries-action_counts rows "st"

st_named : named_by "st" rows ≡ 2
unfolding keep
st_named = refl
