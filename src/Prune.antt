-- ===== src/Prune.antt =====
-- The static evaluation of SimulationCraft conditions against a known build: what a condition can be at
-- runtime, read off the ranges of its parts.
-- packages/simc-cli/src/simc_cli/prune.py
pub mod Floats
pub mod Spans
pub mod Tokens
pub mod Parser
pub mod Related
pub mod Build
pub mod Verdict
pub mod Values
pub mod Facts
pub mod Sound
pub mod Enough
pub mod Rows
