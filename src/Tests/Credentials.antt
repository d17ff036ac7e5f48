-- ===== src/Tests/Credentials.antt =====
-- A token of one region, asked for by that region and by another.
use warcraft_cli.Base.{
  ℕ, ◌+◌, String, ◌≡◌, refl, Option, none, some, ◌||◌, leb, cat, has_char, strip, if◌then◌else◌,
}
use warcraft_cli.Credentials.{
  ClientTokenCache, written, load, save, is_blank, token_skew_seconds, credential_text,
}
use warcraft_cli.Credentials.Tokens.{IsSame, load-save}
use warcraft_cli.Json.{Value, int, pos, lookup}

abbrev region : String → ClientTokenCache
region name = record { scope = name; client_id = "id"; client_secret = "secret" }

abbrev plain : String → String
plain text = text

abbrev seconds : Value → Option ℕ
seconds (int (pos n)) = some n
seconds _ = none

eu_token :
    load plain seconds
      (region "eu")
      39
      (save plain seconds written (region "eu") "t" (int (pos 100)) none)
    ≡ some ("t", 100)
unfolding load save lookup credential_text cat strip
eu_token = refl

us_token :
    load plain seconds
      (region "us")
      39
      (save plain seconds written (region "eu") "t" (int (pos 100)) none)
    ≡ none
unfolding load save lookup credential_text cat strip
us_token = refl

load-save_example :
    (IsSame (region "eu") (region "us")
      → load plain seconds
          (region "us")
          39
          (save plain seconds written (region "eu") "t" (int (pos 100)) none)
        ≡ (if is_blank "t" || leb 100 (39 + token_skew_seconds) then none else some ("t", 100)))
    × ((loaded : String × ℕ)
        → load plain seconds
            (region "us")
            39
            (save plain seconds written (region "eu") "t" (int (pos 100)) none)
          ≡ some loaded
        → IsSame (region "eu") (region "us"))
unfolding has_char
load-save_example =
    load-save plain seconds (region "eu") (region "us") "t" (int (pos 100)) 100 39 none
      (λ same. same) refl refl refl
