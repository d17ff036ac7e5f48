-- ===== src/Crawler/Data.antt =====
-- The values the crawl passes around, and its state.
-- packages/warcraft-content/src/warcraft_content/site_crawler.py
use warcraft_cli.Base.{
  ℕ, String, Bool, false, ◌||◌, Option, List, [], ◌∷◌, ◌==ℕ◌, ◌==◌, if◌then◌else◌,
}
use warcraft_cli.Json.{Fields}

pub record FetchResult : Type 0 where
  pub status : ℕ
  pub text : String
  pub challenge : Bool
  pub cached : Bool
  pub error : Option String

pub record PageLink : Type 0 where
  pub url : String
  pub source : String

pub record PageRead : Type 0 where
  pub url : String
  pub row : Fields
  pub links : List PageLink

pub record CrawledPage : Type 0 where
  pub requested_url : String
  pub page : PageRead
  pub source : String

pub record CrawlError : Type 0 where
  pub url : String
  pub status : ℕ
  pub error : String

pub record Block : Type 0 where
  pub url : String
  pub status : ℕ
  pub challenge : Bool

pub data StopReason : Type 0 where
  blocked unavailable max_requests seed_failed : StopReason

pub record CrawlResult : Type 0 where
  pub pages : List CrawledPage
  pub aliases : List (String × String)
  pub not_found : List String
  pub errors : List CrawlError
  pub requests : ℕ
  pub cached : ℕ
  pub stop_reason : Option StopReason
  pub block : Option Block
  pub frontier : List String

-- A URL with the reason it is fetched.
abbrev pub Item : Type 0
Item = String × String

-- The result and the local variables of `crawl`.
pub record State : Type 0 where
  pub result : CrawlResult
  pub queue : List Item
  pub revisits : List String
  pub seen : List String
  pub visited : List String
  pub streak : List Item

-- `url in urls`
unfoldable pub mem : String → List String → Bool
mem u [] = false
mem u (v ∷ vs) = (v == u) || mem u vs

-- `list(dict.fromkeys(urls))`, the first of each, past those in `before`
unfoldable pub distinct : List String → List String → List String
distinct before [] = []
distinct before (u ∷ us) =
    let fresh = distinct (u ∷ before) us in
    let old = distinct before us in if mem u before then old else u ∷ fresh

abbrev pub is_blocked_status : ℕ → Bool
is_blocked_status s = (s ==ℕ 403) || (s ==ℕ 429)

abbrev pub is_gone_status : ℕ → Bool
is_gone_status s = (s ==ℕ 404) || (s ==ℕ 410)

abbrev pub unavailable_after : ℕ
unavailable_after = 3
