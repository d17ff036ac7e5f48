-- ===== src/Crawler/Tally.antt =====
-- What the counters of a run count: the URLs that it fetched.
-- packages/warcraft-content/src/warcraft_content/site_crawler.py
use warcraft_cli.Base.{
  ℕ, zero, suc, ◌+◌, String, ◌≡◌, ◌∙◌, refl, Bool, Option, none, some, List, [], ◌∷◌, arith, leb,
  Bool-cases, Option-cases, inl, inr, length, if◌then◌else◌,
}
use warcraft_cli.Crawler.Data.{
  FetchResult, PageLink, PageRead, StopReason, CrawlResult, Item, State,
}
use warcraft_cli.Crawler.Fetch.{
  next_url, stop, fetch_page, read_fetched, read_body, stop_reason, keep_page,
}
use warcraft_cli.Crawler.Walk.{
  Step, ended, halted, continued, fetched_by, after_fetch, visit, conclude, step, loop, fetches,
}

-- The two results have counted the same.
abbrev SameCount : CrawlResult → CrawlResult → Type 0
SameCount r s = (r.requests ≡ s.requests) × (r.cached ≡ s.cached)

-- How many of the URLs the site was asked for.
abbrev pub requested : (String → FetchResult) → List String → ℕ
requested fetch [] = 0
requested fetch (url ∷ urls) = (if (fetch url).cached then 0 else 1) + requested fetch urls

-- How many of the URLs the cache answered.
abbrev pub served : (String → FetchResult) → List String → ℕ
served fetch [] = 0
served fetch (url ∷ urls) = (if (fetch url).cached then 1 else 0) + served fetch urls

read_body-SameCount :
    (url : String) (status : ℕ) (p : Option PageRead) (r : CrawlResult)
    → SameCount (read_body url status p r).0 r
unfolding read_body
read_body-SameCount url status none r = (refl, refl)
read_body-SameCount url status (some p) r = (refl, refl)

read_fetched-SameCount :
    (read_page : String → String → Option PageRead) (url : String) (f : FetchResult)
    (r : CrawlResult)
    → SameCount (read_fetched read_page url f r).0 r
unfolding read_fetched
read_fetched-SameCount read_page url f r =
    let h = read_body-SameCount url f.status (read_page url f.text) r in
    (ground (arith, h.0), ground (arith, h.1))

stop_reason-SameCount :
    (url : String) (p : Option PageRead) (r : CrawlResult) (seed : Option String) (n : ℕ)
    (reason : StopReason) (r' : CrawlResult)
    → stop_reason url p r seed n ≡ some (reason, r')
    → SameCount r' r
unfolding stop_reason
stop_reason-SameCount url none r seed n reason r' h = (ground arith, ground arith)
stop_reason-SameCount url (some p) r seed n reason r' h = (ground arith, ground arith)

keep_page-SameCount :
    (expand : PageLink → Bool) (item : Item) (p : Option PageRead) (s : State)
    → SameCount (keep_page expand item p s).result s.result
unfolding keep_page
keep_page-SameCount expand item none s = (refl, refl)
keep_page-SameCount expand item (some p) s = (refl, refl)

module _ (fetch : String → FetchResult) where
  -- From the one result to the other, the counters grew by the fetches of the URLs.
  pub record Tallies (r : CrawlResult) (urls : List String) (r' : CrawlResult) : Type 0 where
    pub requests : r'.requests ≡ r.requests + requested fetch urls
    pub cached : r'.cached ≡ r.cached + served fetch urls

  -- The URLs that one iteration fetched, and the result after it.
  StepTallies : CrawlResult → Step → Type 0
  StepTallies r (ended r') = Tallies r [] r'
  StepTallies r (halted url r') = Tallies r (url ∷ []) r'
  StepTallies r (continued url s) = Tallies r (url ∷ []) s.result

  same-Tallies :
      (r r' r'' : CrawlResult) (urls : List String)
      → SameCount r'' r'
      → Tallies r urls r'
      → Tallies r urls r''
  same-Tallies r r' r'' urls h t = record { requests = h.0 ∙ t.requests; cached = h.1 ∙ t.cached }

  module _ (read_page : String → String → Option PageRead) where
    fetch_page-Tallies :
        (url : String) (r : CrawlResult)
        → Tallies r (url ∷ []) (fetch_page read_page url (fetch url) r).0
    unfolding fetch_page
    fetch_page-Tallies url r =
        let hit = record r { cached = r.cached + 1 } in
        let asked = record r { requests = r.requests + 1 } in
        let h = read_fetched-SameCount read_page url (fetch url) hit in
        let a = read_fetched-SameCount read_page url (fetch url) asked in
        record { requests = ground (arith, h.0, a.0); cached = ground (arith, h.1, a.1) }

    module _ (expand : PageLink → Bool) (cap : ℕ) (seed : Option String) where
      after_fetch-Tallies :
          (item : Item) (streak : List Item) (s : State) (r0 r : CrawlResult) (p : Option PageRead)
          → Tallies r0 (item.0 ∷ []) r
          → StepTallies r0 (after_fetch fetch read_page expand cap seed item streak s (r, p))
      unfolding after_fetch stop StepTallies
      after_fetch-Tallies item streak s r0 r p h =
          elim (Option-cases (stop_reason item.0 p r seed (length streak))) [
            | inl e ↦
                rw (e, after_fetch)
                  (same-Tallies r0 r _ _
                    (keep_page-SameCount expand item p (record s { result = r })) h)
            | inr ((reason, r'), e) ↦
                rw (e, after_fetch)
                  (same-Tallies r0 r _ _
                    (stop_reason-SameCount item.0 p r seed (length streak) reason r' e) h)
          ]

      step-Tallies : (s : State) → StepTallies s.result (step fetch read_page expand cap seed s)
      unfolding step stop visit StepTallies
      step-Tallies s = elim (Option-cases (next_url s.queue s.revisits s.visited)) [
        | inl e ↦ rw (e, step) (record { requests = omega arith; cached = omega arith })
        | inr ((item, queue, revisits), e) ↦ elim (Bool-cases (leb cap s.result.requests)) [
          | inl full ↦
              rw (e, step) (rw full (record { requests = omega arith; cached = omega arith }))
          | inr room ↦
              rw (e, step)
                (rw room
                  (after_fetch-Tallies item _ _ s.result _ _ (fetch_page-Tallies item.0 s.result)))
        ]
      ]

      conclude-Tallies :
          (next : State → Option CrawlResult) (after : State → List String) (r0 : CrawlResult)
          (t : Step) (r : CrawlResult)
          → ((s : State) → next s ≡ some r → Tallies s.result (after s) r)
          → StepTallies r0 t
          → conclude next t ≡ some r
          → Tallies r0 (fetched_by after t) r
      unfolding StepTallies
      conclude-Tallies next after r0 (ended r') r rec h e = record {
        requests = ground (arith, h.requests);
        cached = ground (arith, h.cached);
      }
      conclude-Tallies next after r0 (halted url r') r rec h e = record {
        requests = ground (arith, h.requests);
        cached = ground (arith, h.cached);
      }
      conclude-Tallies next after r0 (continued url s) r rec h e =
          let t = rec s e in
          record {
            requests = ground (arith, h.requests, t.requests);
            cached = ground (arith, h.cached, t.cached);
          }

      pub loop-Tallies :
          (fuel : ℕ) (s : State) (r : CrawlResult)
          → loop fetch read_page expand cap seed fuel s ≡ some r
          → Tallies s.result (fetches fetch read_page expand cap seed fuel s) r
      unfolding loop fetches
      loop-Tallies zero s r e = absurd (ground arith)
      loop-Tallies (suc fuel) s r e =
          conclude-Tallies (loop fetch read_page expand cap seed fuel)
            (fetches fetch read_page expand cap seed fuel) s.result
            (step fetch read_page expand cap seed s) r (λ s' e'. loop-Tallies fuel s' r e')
            (step-Tallies s) e
