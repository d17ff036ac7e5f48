-- ===== src/Crawler/Budget.antt =====
-- What a run counts, and the request cap.
-- packages/warcraft-content/src/warcraft_content/site_crawler.py
use warcraft_cli.Base.{
  ℕ, zero, suc, ◌+◌, ◌≤◌, ◌<◌, String, ◌≡◌, refl, Bool, Option, none, some, List, arith, leb,
  Bool-cases, Option-cases, inl, inr, length,
}
use warcraft_cli.Crawler.Data.{
  FetchResult, PageLink, PageRead, StopReason, CrawlResult, Item, State,
}
use warcraft_cli.Crawler.Fetch.{
  next_url, stop, fetch_page, read_fetched, read_body, stop_reason, keep_page,
}
use warcraft_cli.Crawler.Walk.{
  Step, ended, halted, continued, after_fetch, visit, conclude, step, loop, fetches, start,
  first_of_seeds,
}
use warcraft_cli.Crawler.Tally.{requested, served, loop-Tallies}

read_body_requests :
    (url : String) (status : ℕ) (p : Option PageRead) (r : CrawlResult)
    → (read_body url status p r).0.requests ≡ r.requests
unfolding read_body
read_body_requests url status none r = refl
read_body_requests url status (some p) r = refl

read_fetched_requests :
    (read_page : String → String → Option PageRead) (url : String) (f : FetchResult)
    (r : CrawlResult)
    → (read_fetched read_page url f r).0.requests ≡ r.requests
unfolding read_fetched
read_fetched_requests read_page url f r =
    ground (arith, read_body_requests url f.status (read_page url f.text) r)

fetch_page_requests :
    (read_page : String → String → Option PageRead) (url : String) (f : FetchResult)
    (r : CrawlResult)
    → (fetch_page read_page url f r).0.requests ≤ r.requests + 1
unfolding fetch_page
fetch_page_requests read_page url f r = ground (
  arith,
  read_fetched_requests read_page url f (record r { cached = r.cached + 1 }),
  read_fetched_requests read_page url f (record r { requests = r.requests + 1 }),
)

stop_reason_requests :
    (url : String) (p : Option PageRead) (r : CrawlResult) (seed : Option String) (n : ℕ)
    (reason : StopReason) (r' : CrawlResult)
    → stop_reason url p r seed n ≡ some (reason, r')
    → r'.requests ≡ r.requests
unfolding stop_reason
stop_reason_requests url none r seed n reason r' h = ground arith
stop_reason_requests url (some p) r seed n reason r' h = ground arith

keep_page_requests :
    (expand : PageLink → Bool) (item : Item) (p : Option PageRead) (s : State)
    → (keep_page expand item p s).result.requests ≡ s.result.requests
unfolding keep_page
keep_page_requests expand item none s = refl
keep_page_requests expand item (some p) s = refl

module _ (fetch : String → FetchResult) (read_page : String → String → Option PageRead)
    (expand : PageLink → Bool) (cap : ℕ) (seed : Option String) where
  -- No iteration passes the cap: the test stands before the fetch.
  StepWithin : Step → Type 0
  StepWithin (ended r) = r.requests ≤ cap
  StepWithin (halted url r) = r.requests ≤ cap
  StepWithin (continued url s) = s.result.requests ≤ cap

  after_fetch-within :
      (item : Item) (streak : List Item) (s : State) (r : CrawlResult) (p : Option PageRead)
      → r.requests ≤ cap
      → StepWithin (after_fetch fetch read_page expand cap seed item streak s (r, p))
  unfolding after_fetch stop StepWithin
  after_fetch-within item streak s r p h =
      elim (Option-cases (stop_reason item.0 p r seed (length streak))) [
        | inl e ↦
            rw (e, after_fetch)
              (omega (arith, keep_page_requests expand item p (record s { result = r })))
        | inr ((reason, r'), e) ↦
            rw (e, after_fetch)
              (omega (arith, stop_reason_requests item.0 p r seed (length streak) reason r' e))
      ]

  visit-within :
      (item : Item) (s : State)
      → s.result.requests < cap
      → StepWithin (visit fetch read_page expand cap seed item s)
  unfolding visit
  visit-within item s h =
      after_fetch-within item _ _ _ _
        (omega (arith, fetch_page_requests read_page item.0 (fetch item.0) s.result))

  step-within :
      (s : State) → s.result.requests ≤ cap → StepWithin (step fetch read_page expand cap seed s)
  unfolding step stop StepWithin
  step-within s h = elim (Option-cases (next_url s.queue s.revisits s.visited)) [
    | inl e ↦ rw (e, step) h
    | inr ((item, queue, revisits), e) ↦ elim (Bool-cases (leb cap s.result.requests)) [
      | inl full ↦ rw (e, step) (rw full h)
      | inr room ↦ rw (e, step) (rw room (visit-within item _ (ground arith)))
    ]
  ]

  conclude-within :
      (next : State → Option CrawlResult) (t : Step) (r : CrawlResult)
      → ((s : State) → s.result.requests ≤ cap → next s ≡ some r → r.requests ≤ cap)
      → StepWithin t
      → conclude next t ≡ some r
      → r.requests ≤ cap
  unfolding StepWithin
  conclude-within next (ended r') r rec h e = ground arith
  conclude-within next (halted url r') r rec h e = ground arith
  conclude-within next (continued url s) r rec h e = rec s h e

  loop-within :
      (fuel : ℕ) (s : State) (r : CrawlResult)
      → s.result.requests ≤ cap
      → loop fetch read_page expand cap seed fuel s ≡ some r
      → r.requests ≤ cap
  unfolding loop
  loop-within zero s r h e = absurd (ground arith)
  loop-within (suc fuel) s r h e =
      conclude-within _ (step fetch read_page expand cap seed s) r
        (λ s' h' e'. loop-within fuel s' r h' e') (step-within s h) e

-- However a run ends, its `requests` is the number of the URLs it fetched that the cache did not answer,
-- its `cached` the number of those that it did, and `requests` is at most the cap.
pub crawl_requests :
    (fetch : String → FetchResult) (read_page : String → String → Option PageRead)
    (expand : PageLink → Bool) (cap : ℕ) (seeds revisit : List String) (fuel : ℕ) (r : CrawlResult)
    → loop fetch read_page expand cap (first_of_seeds seeds) fuel (start seeds revisit) ≡ some r
    → (r.requests
        ≡ requested fetch
            (fetches fetch read_page expand cap (first_of_seeds seeds) fuel (start seeds revisit)))
      × (r.cached
          ≡ served fetch (
              fetches fetch read_page expand cap (first_of_seeds seeds) fuel (start seeds revisit)))
      × (r.requests ≤ cap)
unfolding start
crawl_requests fetch read_page expand cap seeds revisit fuel r e =
    let t =
      loop-Tallies fetch read_page expand cap (first_of_seeds seeds) fuel (start seeds revisit) r
        e in
    (
      omega (arith, t.requests),
      omega (arith, t.cached),
      loop-within fetch read_page expand cap (first_of_seeds seeds) fuel (start seeds revisit) r
          (omega arith) e,
    )
