-- ===== src/Apl.antt =====
-- SimulationCraft action priority lists: their rows, and how a file's lines make them.
-- packages/simc-cli/src/simc_cli/apl.py
pub mod Talents
pub mod Parse
pub mod Pieces
pub mod Effective
pub mod Texts
pub mod Graph
pub mod Counted
pub mod Lines
use warcraft_cli.Base.{ℕ, String, Option, List}

-- A row.
pub record AplEntry : Type 0 where
  pub line_no : ℕ
  pub list_name : String
  pub op : String
  pub action : String
  pub raw_args : String
  pub condition : Option String
  pub raw : String
  pub target_list : Option String
  pub kind : String
  pub talent_source_lines : Option (List (String × ℕ))
