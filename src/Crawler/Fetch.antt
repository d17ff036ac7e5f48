-- ===== src/Crawler/Fetch.antt =====
-- What one fetch does to the result, when the run stops, and what a page's links add.
-- packages/warcraft-content/src/warcraft_content/site_crawler.py
use warcraft_cli.Base.{
  ℕ, ◌+◌, String, Bool, true, false, not, ◌&&◌, ◌||◌, Option, none, some, List, [], ◌∷◌, ◌++◌, map,
  leb, ◌==ℕ◌, ◌==◌, cat, decimal, keep, if◌then◌else◌,
}
use warcraft_cli.Crawler.Data.{
  FetchResult, PageLink, PageRead, StopReason, blocked, unavailable, seed_failed, CrawlResult, Item,
  State, mem, is_blocked_status, is_gone_status, unavailable_after,
}

-- `_next_url`: the next item, and what is left of the queue and of the revisits
unfoldable pub next_url :
    List Item → List String → List String → Option (Item × List Item × List String)
next_url (item ∷ queue) revisits visited = some (item, queue, revisits)
next_url [] [] visited = none
next_url [] (url ∷ revisits) visited =
    let rest = next_url [] revisits visited in
    if mem url visited then rest else some ((url, "revisit"), [], revisits)

-- `_stop`: the reason, and the queue with the discovered items that the run stopped on in front
unfoldable pub put_back : StopReason → List Item → List Item → List Item
unfolding keep
put_back seed_failed items queue = queue
put_back _ items queue = keep (λ i. not (i.1 == "revisit")) items ++ queue

unfoldable pub stop : CrawlResult → StopReason → List Item → List Item → CrawlResult
stop r reason items queue = record r {
  stop_reason = some reason;
  frontier = map (λ i. i.0) (put_back reason items queue);
}

-- `fetched.error or f"HTTP {fetched.status}"`
unfoldable pub error_text : Option String → ℕ → String
error_text none status = cat "HTTP " (decimal status)
error_text (some e) status = if e == "" then cat "HTTP " (decimal status) else e

abbrev pub add_error : CrawlResult → String → ℕ → String → CrawlResult
add_error r url status error = record r {
  errors = r.errors ++ record { url = url; status = status; error = error } ∷ [];
}

unfoldable pub read_body :
    String → ℕ → Option PageRead → CrawlResult → CrawlResult × Option PageRead
read_body url status none r = (add_error r url status "the body is not a page of the site", none)
read_body url status (some page) r = (r, some page)

-- `_read`: the page, or none after recording why
unfoldable pub read_fetched :
    (String → String → Option PageRead)
    → String
    → FetchResult
    → CrawlResult
    → CrawlResult × Option PageRead
read_fetched read_page url fetched r =
    if is_gone_status fetched.status
    then (record r { not_found = r.not_found ++ url ∷ [] }, none)
    else if not (fetched.status ==ℕ 200)
    then (add_error r url fetched.status (error_text fetched.error fetched.status), none)
    else read_body url fetched.status (read_page url fetched.text) r

abbrev pub counted : FetchResult → CrawlResult → CrawlResult
counted fetched r =
    if fetched.cached
    then record r { cached = r.cached + 1 }
    else record r { requests = r.requests + 1 }

-- `_fetch_page`: the request counted; a block reads no page
unfoldable pub fetch_page :
    (String → String → Option PageRead)
    → String
    → FetchResult
    → CrawlResult
    → CrawlResult × Option PageRead
fetch_page read_page url fetched r =
    if fetched.challenge || is_blocked_status fetched.status
    then (
      record (counted fetched r) {
        stop_reason = some blocked;
        block = some (record { url = url; status = fetched.status; challenge = fetched.challenge });
      },
      none,
    )
    else read_fetched read_page url fetched (counted fetched r)

-- The first seed could not be read, or reads with no links.
abbrev pub seed_problem : CrawlResult → String → Option PageRead → Option CrawlResult
seed_problem r url none = some r
seed_problem r url (some page) = elim page.links [
  | [] ↦ some (add_error r url 200 "the page listed no links")
  | ◌∷◌ l ls ↦ none
]

abbrev pub is_first : Option String → String → Bool
is_first none url = false
is_first (some seed) url = url == seed

abbrev pub is_blocked : Option StopReason → Bool
is_blocked (some blocked) = true
is_blocked _ = false

-- `_stop_reason`, with the error that it records
unfoldable pub stop_reason :
    String → Option PageRead → CrawlResult → Option String → ℕ → Option (StopReason × CrawlResult)
stop_reason url page r first_seed failures =
    let late = if leb unavailable_after failures then some (unavailable, r) else none in
    if is_blocked r.stop_reason
    then some (blocked, r)
    else if is_first first_seed url
    then elim (seed_problem r url page) [ some r' ↦ some (seed_failed, r') | none ↦ late ]
    else late

-- The loop over a page's links: each new one that is worth following is queued.
unfoldable pub follow :
    (PageLink → Bool) → List PageLink → List String → List Item → List String × List Item
unfolding mem
follow should_expand [] seen queue = (seen, queue)
follow should_expand (l ∷ ls) seen queue =
    let new = not (mem l.url seen) && should_expand l in
    follow should_expand ls (if new then l.url ∷ seen else seen)
      (if new then queue ++ (l.url, l.source) ∷ [] else queue)

-- A read page is kept, with its own URL where that differs, and its links are followed. A URL is
-- requested once, so that `aliases` gets a new key each time.
unfoldable pub keep_page : (PageLink → Bool) → Item → Option PageRead → State → State
keep_page should_expand item none s = s
keep_page should_expand (url, source) (some page) s =
    let renamed = not (page.url == url) in
    let r = s.result in
    let (seen, queue) =
      follow should_expand page.links (if renamed then page.url ∷ s.seen else s.seen) s.queue in
    record s {
      result = record r {
        pages = r.pages ++ record { requested_url = url; page = page; source = source } ∷ [];
        aliases = if renamed then r.aliases ++ (url, page.url) ∷ [] else r.aliases;
      };
      queue = queue;
      seen = seen;
      visited = if renamed then page.url ∷ s.visited else s.visited;
    }
