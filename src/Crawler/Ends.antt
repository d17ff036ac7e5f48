-- ===== src/Crawler/Ends.antt =====
-- A crawl of a finite site ends: each iteration uses up a waiting URL or one that was not seen.
-- packages/warcraft-content/src/warcraft_content/site_crawler.py
use warcraft_cli.Base.{
  ℕ, zero, suc, ◌+◌, ◌≤◌, ◌<◌, String, ◌≡◌, refl, ap, Bool, Option, some, List, [], ◌∷◌, ◌++◌, map,
  arith, leb, Bool-cases, Option-cases, inl, inr, length,
}
use warcraft_cli.Crawler.Data.{distinct, FetchResult, PageLink, PageRead, CrawlResult, Item, State}
use warcraft_cli.Crawler.Fetch.{next_url, fetch_page, read_fetched, stop_reason}
use warcraft_cli.Crawler.Walk.{
  Step, ended, halted, continued, conclude, after_fetch, visit, step, loop, start, first_of_seeds,
}
use warcraft_cli.Crawler.Measure.{
  unseen, next_url_measure, keep_page_measure, keep_page_revisits, read_body-page, measure, OnSite,
}

module _ (fetch : String → FetchResult) (read_page : String → String → Option PageRead)
    (expand : PageLink → Bool) (cap : ℕ) (seed : Option String) (site : List String)
    (closed : (url text : String) (page : PageRead)
      → read_page url text ≡ some page
      → OnSite site page.links) where
  -- A page comes from the reader.
  read_fetched-page :
      (url : String) (f : FetchResult) (r : CrawlResult) (page : PageRead)
      → (read_fetched read_page url f r).1 ≡ some page
      → read_page url f.text ≡ some page
  unfolding read_fetched
  read_fetched-page url f r page h =
      ground (arith, read_body-page url f.status (read_page url f.text) r page)

  fetch_page-page :
      (url : String) (f : FetchResult) (r : CrawlResult) (page : PageRead)
      → (fetch_page read_page url f r).1 ≡ some page
      → read_page url f.text ≡ some page
  unfolding fetch_page
  fetch_page-page url f r page h = ground (
    arith,
    read_fetched-page url f (record r { cached = r.cached + 1 }) page,
    read_fetched-page url f (record r { requests = r.requests + 1 }) page,
  )

  smaller :
      (s : State) (item : Item) (queue : List Item) (revisits : List String)
      → next_url s.queue s.revisits s.visited ≡ some (item, queue, revisits)
      → measure site (record s { queue = queue; revisits = revisits }) < measure site s
  unfolding measure
  smaller s item queue revisits e =
      omega (arith, next_url_measure s.queue s.revisits s.visited item queue revisits e)

  Falls : ℕ → Step → Type 0
  Falls n (continued url s) = measure site s < n
  Falls n _ = Unit

  after_fetch-Falls :
      (n : ℕ) (item : Item) (streak : List Item) (s : State) (r : CrawlResult) (p : Option PageRead)
      → ((page : PageRead) → p ≡ some page → OnSite site page.links)
      → measure site s < n
      → Falls n (after_fetch fetch read_page expand cap seed item streak s (r, p))
  unfolding after_fetch Falls measure
  after_fetch-Falls n item streak s r p on h =
      elim (Option-cases (stop_reason item.0 p r seed (length streak))) [
        | inl e ↦
            let s' : State = record s { result = r } in
            rw (e, after_fetch)
              (omega (
                arith,
                keep_page_measure site expand item p s' on,
                ap (λ (l : List String). length l) (keep_page_revisits expand item p s'),
              ))
        | inr ((reason, r'), e) ↦ rw (e, after_fetch) tt
      ]

  visit-Falls :
      (n : ℕ) (item : Item) (s : State)
      → measure site s < n
      → Falls n (visit fetch read_page expand cap seed item s)
  unfolding visit measure
  visit-Falls n item s h =
      after_fetch-Falls n item _ _ _ _
        (λ page e.
          closed item.0 (fetch item.0).text page
            (fetch_page-page item.0 (fetch item.0) s.result page e))
        h

  step-Falls : (s : State) → Falls (measure site s) (step fetch read_page expand cap seed s)
  unfolding step Falls
  step-Falls s = elim (Option-cases (next_url s.queue s.revisits s.visited)) [
    | inl e ↦ rw (e, step) tt
    | inr ((item, queue, revisits), e) ↦ elim (Bool-cases (leb cap s.result.requests)) [
      | inl full ↦ rw (e, step) (rw full tt)
      | inr room ↦
          rw (e, step)
            (rw room (
              visit-Falls (measure site s) item (record s { queue = queue; revisits = revisits })
                (smaller s item queue revisits e)))
    ]
  ]

  conclude-ends :
      (next : State → Option CrawlResult) (n : ℕ) (t : Step)
      → ((s : State) → measure site s < n → (r : CrawlResult) × (next s ≡ some r))
      → Falls n t
      → (r : CrawlResult) × (conclude next t ≡ some r)
  unfolding Falls
  conclude-ends next n (ended r) rec h = (r, refl)
  conclude-ends next n (halted url r) rec h = (r, refl)
  conclude-ends next n (continued url s) rec h = rec s h

  loop-ends :
      (fuel : ℕ) (s : State)
      → measure site s < fuel
      → (r : CrawlResult) × (loop fetch read_page expand cap seed fuel s ≡ some r)
  unfolding loop
  loop-ends zero s h = elim h [ ]
  loop-ends (suc fuel) s h =
      conclude-ends _ (measure site s) (step fetch read_page expand cap seed s)
        (λ s' h'. loop-ends fuel s' (omega arith)) (step-Falls s)

unseen-le_length : (site seen : List String) → unseen site seen ≤ length site
unfolding unseen
unseen-le_length [] seen = omega arith
unseen-le_length (x ∷ xs) seen = ground (arith, unseen-le_length xs seen)

length-distinct-le : (before us : List String) → length (distinct before us) ≤ length us
unfolding distinct
length-distinct-le before [] = omega arith
length-distinct-le before (u ∷ us) =
    ground (arith, length-distinct-le before us, length-distinct-le (u ∷ before) us)

length-seeds :
    (xs : List String)
    → length (map (λ (x : String). (let i : Item = (x, "seed") in i)) xs) ≡ length xs
length-seeds [] = refl
length-seeds (x ∷ xs) = ap suc (length-seeds xs)

measure-start :
    (site seeds revisit : List String)
    → measure site (start seeds revisit) < suc (length seeds + length revisit + length site)
unfolding measure start
measure-start site seeds revisit =
    let first = distinct [] seeds in
    omega (
      arith,
      length-seeds first,
      length-distinct-le [] seeds,
      length-distinct-le first revisit,
      unseen-le_length site (first ++ distinct first revisit),
    )

-- A crawl ends with a result, whatever the site answers and however its pages link and redirect, when
-- every link that its reader reports is one of finitely many URLs: it takes at most one iteration for
-- each of those, each seed and each revisit, and one to stop.
pub crawl_ends :
    (fetch : String → FetchResult) (read_page : String → String → Option PageRead)
    (expand : PageLink → Bool) (cap : ℕ) (seeds revisit site : List String)
    → ((url text : String) (page : PageRead)
        → read_page url text ≡ some page
        → OnSite site page.links)
    → (r : CrawlResult) × (loop fetch read_page expand cap
          (first_of_seeds seeds)
          (suc (length seeds + length revisit + length site))
          (start seeds revisit)
        ≡ some r)
crawl_ends fetch read_page expand cap seeds revisit site closed =
    loop-ends fetch read_page expand cap (first_of_seeds seeds) site closed _ (start seeds revisit)
      (measure-start site seeds revisit)
