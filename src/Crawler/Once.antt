-- ===== src/Crawler/Once.antt =====
-- No URL is fetched twice in a run, however the pages link and redirect.
use warcraft_cli.Base.{
  ℕ, zero, suc, ◌+◌, ◌≤◌, String, ◌≡◌, refl, Bool, false, ◌||◌, Option, List, [], ◌∷◌, ◌++◌, map,
  arith, leb, ◌==◌, eq_iff, Bool-cases, Option-cases, inl, inr, length,
}
use warcraft_cli.Crawler.Data.{
  FetchResult, PageLink, PageRead, CrawlResult, Item, State, mem, distinct,
}
use warcraft_cli.Crawler.Fetch.{next_url, stop_reason}
use warcraft_cli.Crawler.Walk.{
  Step, ended, halted, continued, fetched_by, after_fetch, visit, step, fetches, start,
  first_of_seeds,
}
use warcraft_cli.Crawler.Waiting.{
  count, count_items, weight, waiting, mem-cons, next_url-waiting, waiting-keep_page,
}

module _ (fetch : String → FetchResult) (read_page : String → String → Option PageRead)
    (expand : PageLink → Bool) (cap : ℕ) (seed : Option String) (u : String) where
  -- A fetch of the URL costs it a place in what waits, and only a URL that was not seen gains one.
  StepPays : State → Step → Type 0
  StepPays s (ended r) = Unit
  StepPays s (halted url r) = weight (url == u) ≤ waiting u s.queue s.revisits
  StepPays s (continued url s') =
      waiting u s'.queue s'.revisits + weight (url == u) + weight (mem u s.seen)
      ≤ waiting u s.queue s.revisits + weight (mem u s'.seen)

  after_fetch-pays :
      (item : Item) (streak : List Item) (s₀ s : State) (r : CrawlResult) (p : Option PageRead)
      → s.seen ≡ s₀.seen
      → waiting u s.queue s.revisits + weight (item.0 == u) ≤ waiting u s₀.queue s₀.revisits
      → StepPays s₀ (after_fetch fetch read_page expand cap seed item streak s (r, p))
  unfolding after_fetch StepPays
  after_fetch-pays item streak s₀ s r p same h =
      elim (Option-cases (stop_reason item.0 p r seed (length streak))) [
        | inl e ↦
            rw (e, after_fetch)
              (rw (← same)
                (omega (arith, waiting-keep_page expand item p (record s { result = r }) u)))
        | inr ((reason, r'), e) ↦ rw (e, after_fetch) (omega arith)
      ]

  visit-pays :
      (item : Item) (s₀ s : State)
      → s.seen ≡ s₀.seen
      → waiting u s.queue s.revisits + weight (item.0 == u) ≤ waiting u s₀.queue s₀.revisits
      → StepPays s₀ (visit fetch read_page expand cap seed item s)
  unfolding visit
  visit-pays item s₀ s same h = after_fetch-pays item _ s₀ _ _ _ same h

  step-pays : (s : State) → StepPays s (step fetch read_page expand cap seed s)
  unfolding step StepPays
  step-pays s = elim (Option-cases (next_url s.queue s.revisits s.visited)) [
    | inl e ↦ rw (e, step) tt
    | inr ((item, queue, revisits), e) ↦ elim (Bool-cases (leb cap s.result.requests)) [
      | inl full ↦ rw (e, step) (rw full tt)
      | inr room ↦
          rw (e, step)
            (rw room (
              visit-pays item s (record s { queue = queue; revisits = revisits }) refl
                (next_url-waiting s.queue s.revisits s.visited item queue revisits u e)))
    ]
  ]

  count-fetched_by :
      (next : State → List String) (s : State) (t : Step)
      → waiting u s.queue s.revisits ≤ weight (mem u s.seen)
      → ((s' : State)
          → waiting u s'.queue s'.revisits ≤ weight (mem u s'.seen)
          → count u (next s') + weight (mem u s'.seen) ≤ waiting u s'.queue s'.revisits + 1)
      → StepPays s t
      → count u (fetched_by next t) + weight (mem u s.seen) ≤ waiting u s.queue s.revisits + 1
  unfolding StepPays count
  count-fetched_by next s (ended r) inv rec h = ground arith
  count-fetched_by next s (halted url r) inv rec h = ground arith
  count-fetched_by next s (continued url s') inv rec h = omega (arith, rec s' (omega arith))

  count-fetches :
      (fuel : ℕ) (s : State)
      → waiting u s.queue s.revisits ≤ weight (mem u s.seen)
      → count u (fetches fetch read_page expand cap seed fuel s) + weight (mem u s.seen)
        ≤ waiting u s.queue s.revisits + 1
  unfolding fetches
  count-fetches zero s inv = unfold count in ground arith
  count-fetches (suc fuel) s inv =
      count-fetched_by _ s (step fetch read_page expand cap seed s) inv
        (λ s' h. count-fetches fuel s' h) (step-pays s)

count-distinct :
    (u : String) (before us : List String)
    → count u (distinct before us) + weight (mem u before) ≤ 1
unfolding distinct count
count-distinct u before [] = ground arith
count-distinct u before (v ∷ us) = elim (Bool-cases (mem v before)) [
  | inl old ↦ rw (old, distinct) (count-distinct u before us)
  | inr new ↦
      rw (new, distinct)
        (ground (arith, count-distinct u (v ∷ before) us, mem-cons u v before, eq_iff v u))
]

count-mem : (u : String) (xs : List String) → mem u xs ≡ false → count u xs ≡ 0
unfolding mem count
count-mem u [] h = refl
count-mem u (v ∷ vs) h = ground (arith, count-mem u vs)

mem-append : (u : String) (xs ys : List String) → mem u (xs ++ ys) ≡ (mem u xs || mem u ys)
unfolding mem
mem-append u [] ys = refl
mem-append u (x ∷ xs) ys = ground (arith, mem-append u xs ys)

count-seeds :
    (u : String) (xs : List String) → count_items u (map (λ x. (x, "seed")) xs) ≡ count u xs
unfolding count count_items
count-seeds u [] = refl
count-seeds u (x ∷ xs) = omega (arith, count-seeds u xs)

waiting-start :
    (u : String) (seeds revisit : List String)
    → waiting u (start seeds revisit).queue (start seeds revisit).revisits
      ≤ weight (mem u (start seeds revisit).seen)
unfolding start
waiting-start u seeds revisit =
    let first = distinct [] seeds in
    let later = distinct first revisit in
    ground (
      arith,
      count-seeds u first,
      count-distinct u [] seeds,
      count-distinct u first revisit,
      count-mem u first,
      count-mem u later,
      mem-append u first later,
    )

-- No URL is fetched twice in a run, whatever the seeds, the revisits, the answers and the links, and
-- however the pages redirect into one another.
pub crawl_fetches_once :
    (fetch : String → FetchResult) (read_page : String → String → Option PageRead)
    (expand : PageLink → Bool) (cap : ℕ) (seeds revisit : List String) (fuel : ℕ) (u : String)
    → count u (fetches fetch read_page expand cap (first_of_seeds seeds) fuel (start seeds revisit))
      ≤ 1
crawl_fetches_once fetch read_page expand cap seeds revisit fuel u =
    let s = start seeds revisit in
    omega (
      arith,
      count-fetches fetch read_page expand cap (first_of_seeds seeds) u fuel s
          (waiting-start u seeds revisit),
      waiting-start u seeds revisit,
    )
