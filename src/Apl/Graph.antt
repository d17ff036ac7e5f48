-- ===== src/Apl/Graph.antt =====
-- The lists of a file, the talents and targets that its rows name, and the graph of its lists.
-- packages/simc-cli/src/simc_cli/apl.py
use warcraft_cli.Apl.{AplEntry}
use warcraft_cli.Apl.Talents.{find_talents}
use warcraft_cli.Base.{
  ℕ, ◌+◌, String, Bool, true, false, ◌&&◌, Option, none, some, List, [], ◌∷◌, ◌++◌, ◌==◌, ◌==ℕ◌,
  ltb, map, keep, cat, join, value_at, set_at, if◌then◌else◌,
}
use warcraft_cli.Envelope.Sort.{sorted}

abbrev pub Groups : Type 0
Groups = List (String × List AplEntry)

abbrev pub rows_at : Option (List AplEntry) → List AplEntry
rows_at none = []
rows_at (some entries) = entries

unfoldable pub group_into : Groups → List AplEntry → Groups
unfolding value_at set_at
group_into groups [] = groups
group_into groups (e ∷ es) =
    group_into (set_at e.list_name (rows_at (value_at e.list_name groups) ++ e ∷ []) groups) es

-- `group_entries`
unfoldable pub group_entries : List AplEntry → Groups
unfolding group_into
group_entries entries = group_into [] entries

-- A set of lines, sorted.
unfoldable pub place_line : ℕ → List ℕ → List ℕ
place_line n [] = n ∷ []
place_line n (m ∷ ms) =
    let rest = place_line n ms in
    if n ==ℕ m then m ∷ ms else if ltb n m then n ∷ m ∷ ms else m ∷ rest

abbrev pub Refs : Type 0
Refs = List (String × List ℕ)

abbrev pub lines_of : Option (List ℕ) → List ℕ
lines_of none = []
lines_of (some lines) = lines

unfoldable pub add_refs : List (String × ℕ) → Refs → Refs
unfolding value_at set_at place_line
add_refs [] refs = refs
add_refs ((talent, line_no) ∷ sources) refs =
    add_refs sources (set_at talent (place_line line_no (lines_of (value_at talent refs))) refs)

unfoldable pub sources_of : AplEntry → Option (List (String × ℕ)) → List (String × ℕ)
unfolding find_talents
sources_of e none = map (λ found. (found.0, e.line_no)) (find_talents 0 0 e.raw_args)
sources_of e (some sources) = sources

unfoldable pub collect_refs : List AplEntry → Refs → Refs
unfolding add_refs sources_of
collect_refs [] refs = refs
collect_refs (e ∷ es) refs = collect_refs es (add_refs (sources_of e e.talent_source_lines) refs)

unfoldable pub talent_refs : List AplEntry → Refs
unfolding collect_refs sorted value_at
talent_refs entries =
    let refs = collect_refs entries [] in
    map (λ talent. (talent, lines_of (value_at talent refs))) (sorted (map (λ r. r.0) refs))

abbrev pub Counts : Type 0
Counts = List (String × ℕ)

abbrev pub count_at : Option ℕ → ℕ
count_at none = 0
count_at (some n) = n

-- `entry.target_list if entry.target_list else entry.action`
abbrev pub count_key : AplEntry → Option String → String
count_key e none = e.action
count_key e (some target) = if target == "" then e.action else target

unfoldable pub count_into : Counts → List AplEntry → Counts
unfolding value_at set_at
count_into counts [] = counts
count_into counts (e ∷ es) =
    let key = count_key e e.target_list in
    count_into (set_at key (count_at (value_at key counts) + 1) counts) es

-- `action_counts`
unfoldable pub action_counts : List AplEntry → Counts
unfolding count_into
action_counts entries = count_into [] entries

-- An edge of the graph: the list, its target and the kind of the row.
abbrev pub Edge : Type 0
Edge = String × String × String

unfoldable pub has_edge : Edge → List Edge → Bool
has_edge edge [] = false
has_edge (a, b, c) ((x, y, z) ∷ edges) =
    let rest = has_edge (a, b, c) edges in if a == x && b == y && c == z then true else rest

abbrev pub edge_line : String → String → String → String
edge_line list_name target kind =
    let label = if kind == "call_action_list" then "call" else "run" in
    cat "  " (cat list_name (cat " -->|" (cat label (cat "| " target))))

abbrev pub edge_target : Option String → Option String
edge_target none = none
edge_target (some target) = if target == "" then none else some target

-- A row's line, where its edge is new, and the edges after it.
unfoldable pub draw_edge : String → String → Option String → List Edge → List String × List Edge
unfolding has_edge cat
draw_edge list_name kind none seen = ([], seen)
draw_edge list_name kind (some target) seen =
    if has_edge (list_name, target, kind) seen
    then ([], seen)
    else (edge_line list_name target kind ∷ [], (list_name, target, kind) ∷ seen)

unfoldable pub draw_rows : String → List AplEntry → List Edge → List String × List Edge
unfolding draw_edge
draw_rows list_name [] seen = ([], seen)
draw_rows list_name (e ∷ es) seen =
    let (line, seen) = draw_edge list_name e.kind (edge_target e.target_list) seen in
    let (lines, seen) = draw_rows list_name es seen in (line ++ lines, seen)

unfoldable pub draw_groups : Groups → List Edge → List String
unfolding draw_rows cat
draw_groups [] seen = []
draw_groups ((list_name, entries) ∷ groups) seen =
    let (lines, seen) = draw_rows list_name entries seen in
    cat "  " (cat list_name (cat "[" (cat list_name "]"))) ∷ lines ++ draw_groups groups seen

unfoldable pub mermaid_graph : List AplEntry → String
unfolding draw_groups group_entries join
mermaid_graph entries = join "\n" ("flowchart TD" ∷ draw_groups (group_entries entries) [])

unfoldable pub trace_action_entries : List AplEntry → String → List AplEntry
unfolding keep
trace_action_entries entries action = keep (λ e. e.action == action) entries
