-- ===== src/Crawler/Walk.antt =====
-- The loop of `crawl`, one iteration at a time. The provider's callbacks `fetch`, `read_page` and
-- `should_expand` are arguments.
-- packages/warcraft-content/src/warcraft_content/site_crawler.py
use warcraft_cli.Base.{
  ℕ, zero, suc, String, Bool, ◌||◌, Option, none, some, List, [], ◌∷◌, ◌++◌, map, leb, ◌==ℕ◌,
  length, if◌then◌else◌,
}
use warcraft_cli.Crawler.Data.{
  FetchResult, PageLink, PageRead, StopReason, unavailable, max_requests, CrawlResult, Item, State,
  distinct,
}
use warcraft_cli.Crawler.Fetch.{next_url, stop, fetch_page, stop_reason, keep_page}

-- One iteration: the loop ends without a fetch, ends on the fetch of a URL, or goes on from one.
pub data Step : Type 0 where
  ended : CrawlResult → Step
  halted : String → CrawlResult → Step
  continued : String → State → Step

abbrev pub is_failing : ℕ → Bool
is_failing status = (status ==ℕ 0) || leb 500 status

-- The items that a stop puts back: the failure streak, or the one item.
abbrev pub stopped_on : StopReason → List Item → Item → List Item
stopped_on unavailable streak item = streak
stopped_on _ streak item = item ∷ []

-- The end of the loop, or what comes after one more iteration.
abbrev pub conclude : (State → Option CrawlResult) → Step → Option CrawlResult
conclude next (ended r) = some r
conclude next (halted url r) = some r
conclude next (continued url s) = next s

abbrev pub fetched_by : (State → List String) → Step → List String
fetched_by next (ended r) = []
fetched_by next (halted url r) = url ∷ []
fetched_by next (continued url s) = url ∷ next s

module _ (fetch : String → FetchResult) (read_page : String → String → Option PageRead)
    (should_expand : PageLink → Bool) (request_cap : ℕ) (first_seed : Option String) where
  -- After a fetch: stop for a reason, or keep the page and go on.
  unfoldable pub after_fetch : Item → List Item → State → CrawlResult × Option PageRead → Step
  after_fetch item streak s (r, page) =
      elim (stop_reason item.0 page r first_seed (length streak)) [
        | some (reason, r') ↦ halted item.0 (stop r' reason (stopped_on reason streak item) s.queue)
        | none ↦ continued item.0 (keep_page should_expand item page (record s { result = r }))
      ]

  unfoldable pub visit : Item → State → Step
  visit item s =
      let fetched = fetch item.0 in
      let streak = if is_failing fetched.status then s.streak ++ item ∷ [] else [] in
      after_fetch item streak (record s { visited = item.0 ∷ s.visited; streak = streak })
        (fetch_page read_page item.0 fetched s.result)

  unfoldable pub step : State → Step
  step s = elim (next_url s.queue s.revisits s.visited) [
    | none ↦ ended (record s.result { frontier = map (λ i. i.0) s.queue })
    | some (item, queue, revisits) ↦
        if leb request_cap s.result.requests
        then ended (stop s.result max_requests (item ∷ []) queue)
        else visit item (record s { queue = queue; revisits = revisits })
  ]

  -- `none` when the fuel runs out.
  unfoldable pub loop : ℕ → State → Option CrawlResult
  loop zero s = none
  loop (suc fuel) s = conclude (loop fuel) (step s)

  -- The URLs that the loop fetches, in order.
  unfoldable pub fetches : ℕ → State → List String
  fetches zero s = []
  fetches (suc fuel) s = fetched_by (fetches fuel) (step s)

abbrev pub empty_result : CrawlResult
empty_result = record {
  pages = [];
  aliases = [];
  not_found = [];
  errors = [];
  requests = 0;
  cached = 0;
  stop_reason = none;
  block = none;
  frontier = [];
}

-- What `crawl` sets up before its loop.
unfoldable pub start : List String → List String → State
unfolding distinct
start seeds revisit =
    let seed_urls = distinct [] seeds in
    let revisit_urls = distinct seed_urls revisit in
    record {
      result = empty_result;
      queue = map (λ u. (u, "seed")) seed_urls;
      revisits = revisit_urls;
      seen = seed_urls ++ revisit_urls;
      visited = [];
      streak = [];
    }

abbrev pub first_of_seeds : List String → Option String
first_of_seeds [] = none
first_of_seeds (u ∷ us) = some u
