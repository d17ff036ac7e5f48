-- ===== src/Branch.antt =====
-- The branches that a SimulationCraft list takes for a build, and the list that holds its rotation.
-- packages/simc-cli/src/simc_cli/branch.py
pub mod Names
pub mod Decisions
pub mod Intents
pub mod Summary
pub mod Focus
pub mod Dispatch
pub mod Entered
pub mod Path
pub mod Trace
pub mod Traced
pub mod Compare
pub mod Changes
pub mod FocusRows
pub mod Reports
