-- ===== src/Http.antt =====
-- Requests: the retry loop and the per-host rate limiter that every provider's client shares.
-- packages/warcraft-api/src/warcraft_api/http.py
-- Times are whole hundredths of a second, which hold the program's constants exactly.
pub mod Retry
pub mod Limiter
