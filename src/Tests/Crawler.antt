-- ===== src/Tests/Crawler.antt =====
-- A crawl of a small site: a menu that links two pages, one of which is a rename of the other, and
-- both link back.
use warcraft_cli.Base.{
  subst, suc, Bool, ◌+◌, ◌≤◌, String, ◌≡◌, refl, false, true, Option, none, some, List, [], ◌∷◌,
  ◌==◌, length, if◌then◌else◌,
}
use warcraft_cli.Crawler.Budget.{crawl_requests}
use warcraft_cli.Crawler.Data.{
  FetchResult, PageLink, PageRead, CrawlResult, max_requests, mem, distinct,
}
use warcraft_cli.Crawler.Ends.{crawl_ends}
use warcraft_cli.Crawler.Measure.{OnSite}
use warcraft_cli.Crawler.Fetch.{
  next_url, put_back, stop, error_text, read_body, read_fetched, fetch_page, stop_reason, follow,
  keep_page,
}
use warcraft_cli.Crawler.Once.{crawl_fetches_once}
use warcraft_cli.Crawler.Tally.{requested, served}
use warcraft_cli.Crawler.Waiting.{count}
use warcraft_cli.Crawler.Walk.{after_fetch, visit, step, loop, fetches, start, first_of_seeds}
use warcraft_cli.Json.{end}

abbrev fetch : String → FetchResult
fetch url = record { status = 200; text = url; challenge = false; cached = false; error = none }

abbrev link : String → PageLink
link url = record { url = url; source = "page" }

abbrev site : List String
site = "menu" ∷ "old" ∷ "new" ∷ []

abbrev seeds : List String
seeds = "menu" ∷ []

abbrev revisit : List String
revisit = "old" ∷ []

abbrev links : List PageLink
links = link "menu" ∷ link "old" ∷ link "new" ∷ []

-- Every page links every page, and the old URL redirects to the new one.
abbrev read_page : String → String → Option PageRead
read_page url text =
    some (record { url = if url == "old" then "new" else url; row = end; links = links })

abbrev expand : PageLink → Bool
expand l = true

menu_fetches :
    fetches fetch read_page expand 9 (some "menu") 7 (start seeds revisit)
    ≡ "menu" ∷ "new" ∷ "old" ∷ []
unfolding fetches step visit after_fetch start mem distinct next_url put_back stop error_text
    read_body read_fetched fetch_page stop_reason follow keep_page
menu_fetches = refl

crawl_fetches_once_example :
    count "new" (fetches fetch read_page expand 9 (first_of_seeds seeds) 7 (start seeds revisit))
    ≤ 1
crawl_fetches_once_example = crawl_fetches_once fetch read_page expand 9 seeds revisit 7 "new"

links-OnSite : OnSite site links
unfolding mem
links-OnSite = (refl, (refl, (refl, tt)))

read_page-OnSite :
    (url text : String) (page : PageRead) → read_page url text ≡ some page → OnSite site page.links
read_page-OnSite url text page e =
    subst (λ o. elim o [ none ↦ Unit | some p ↦ OnSite site p.links ]) e links-OnSite

crawl_ends_example :
    (r : CrawlResult) × (loop fetch read_page expand 9
        (first_of_seeds seeds)
        (suc (length seeds + length revisit + length site))
        (start seeds revisit)
      ≡ some r)
crawl_ends_example = crawl_ends fetch read_page expand 9 seeds revisit site read_page-OnSite

-- The crawl of the menu with one request allowed.
abbrev first_request : CrawlResult
first_request = record {
  pages =
      record {
        requested_url = "menu";
        page = record { url = "menu"; row = end; links = links };
        source = "seed";
      }
      ∷ [];
  aliases = [];
  not_found = [];
  errors = [];
  requests = 1;
  cached = 0;
  stop_reason = some max_requests;
  block = none;
  frontier = "new" ∷ [];
}

menu_stops :
    loop fetch read_page expand 1 (first_of_seeds seeds) 7 (start seeds revisit)
    ≡ some first_request
unfolding loop step visit after_fetch start mem distinct next_url put_back stop error_text read_body
    read_fetched fetch_page stop_reason follow keep_page
menu_stops = refl

crawl_requests_example :
    (first_request.requests
      ≡ requested fetch (fetches fetch read_page expand 1 (some "menu") 7 (start seeds revisit)))
    × (first_request.cached
        ≡ served fetch (fetches fetch read_page expand 1 (some "menu") 7 (start seeds revisit)))
    × (first_request.requests ≤ 1)
crawl_requests_example =
    crawl_requests fetch read_page expand 1 seeds revisit 7 first_request menu_stops
