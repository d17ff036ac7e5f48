-- ===== src/Tests.antt =====
-- Runs at concrete inputs, and each theorem applied where its hypotheses hold.
mod Envelope
mod Wrapper
mod Ledger
mod Output
mod Crawler
mod Http
mod Discovery
mod Cache
mod Crosswalk
mod Apl
mod Branch
mod Credentials
mod Numbers
mod Prune
