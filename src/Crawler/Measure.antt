-- ===== src/Crawler/Measure.antt =====
-- What an iteration of the crawl uses up: a waiting URL, or one of the site's that was not seen.
-- packages/warcraft-content/src/warcraft_content/site_crawler.py
use warcraft_cli.Base.{
  ℕ, ◌+◌, ◌≤◌, String, ◌≡◌, refl, Bool, true, false, not, ◌&&◌, Option, none, some, List, [], ◌∷◌,
  ◌++◌, arith, ◌==◌, eq_iff, Bool-cases, inl, inr, length, length-append, All,
}
use warcraft_cli.Crawler.Data.{PageLink, PageRead, CrawlResult, Item, State, mem}
use warcraft_cli.Crawler.Fetch.{next_url, read_body, keep_page, follow}
use warcraft_cli.Crawler.Waiting.{weight, mem-cons, follow-new, follow-old, follow-nil}

-- How many of the site's URLs are not seen.
unfoldable pub unseen : List String → List String → ℕ
unseen [] seen = 0
unseen (x ∷ xs) seen = weight (not (mem x seen)) + unseen xs seen

pub unseen-le :
    (site : List String) (v : String) (seen : List String)
    → unseen site (v ∷ seen) ≤ unseen site seen
unfolding unseen
unseen-le [] v seen = omega arith
unseen-le (x ∷ xs) v seen = ground (arith, unseen-le xs v seen, mem-cons x v seen)

pub unseen-lt :
    (site : List String) (v : String) (seen : List String)
    → mem v site ≡ true
    → mem v seen ≡ false
    → unseen site (v ∷ seen) + 1 ≤ unseen site seen
unfolding unseen mem
unseen-lt [] v seen h k = absurd (ground arith)
unseen-lt (x ∷ xs) v seen h k = elim (Bool-cases (x == v)) [
  | inl e ↦
      let same : x ≡ v = (eq_iff x v).0 e in
      rw same (ground (arith, unseen-le xs v seen, mem-cons v v seen, eq_iff v v))
  | inr e ↦ ground (arith, unseen-lt xs v seen, eq_iff v x, eq_iff x v)
]

-- Every link that a page of the site lists is on the site.
abbrev pub OnSite : List String → List PageLink → Type 0
OnSite site = All (λ l. mem l.url site ≡ true)

pub follow_measure :
    (site : List String) (expand : PageLink → Bool) (ls : List PageLink) (seen : List String)
    (queue : List Item)
    → OnSite site ls
    → length (follow expand ls seen queue).1 + unseen site (follow expand ls seen queue).0
      ≤ length queue + unseen site seen
follow_measure site expand [] seen queue h = rw follow-nil (omega arith)
follow_measure site expand (l ∷ ls) seen queue h =
    elim (Bool-cases (not (mem l.url seen) && expand l)) [
      | inl new ↦ rw (follow-new expand l ls seen queue new) (
          omega (
            arith,
            follow_measure site expand ls (l.url ∷ seen) (queue ++ (l.url, l.source) ∷ []) h.1,
            length-append {0} queue ((l.url, l.source) ∷ []),
            unseen-lt site l.url seen h.0 (ground arith),
          ))
      | inr old ↦
          rw (follow-old expand l ls seen queue old) (follow_measure site expand ls seen queue h.1)
    ]

pub next_url_measure :
    (queue : List Item) (revisits visited : List String) (item : Item) (queue' : List Item)
    (revisits' : List String)
    → next_url queue revisits visited ≡ some (item, queue', revisits')
    → length queue' + length revisits' + 1 ≤ length queue + length revisits
unfolding next_url
next_url_measure (i ∷ queue) revisits visited item queue' revisits' h = ground arith
next_url_measure [] [] visited item queue' revisits' h = absurd (ground arith)
next_url_measure [] (r ∷ revisits) visited item queue' revisits' h =
    elim (Bool-cases (mem r visited)) [
      | inl old ↦ ground (arith, next_url_measure [] revisits visited item queue' revisits')
      | inr new ↦ ground arith
    ]

pub keep_page_measure :
    (site : List String) (expand : PageLink → Bool) (item : Item) (p : Option PageRead) (s : State)
    → ((page : PageRead) → p ≡ some page → OnSite site page.links)
    → length (keep_page expand item p s).queue + unseen site (keep_page expand item p s).seen
      ≤ length s.queue + unseen site s.seen
unfolding keep_page
keep_page_measure site expand (url, source) none s h = omega arith
keep_page_measure site expand (url, source) (some page) s h =
    elim (Bool-cases (not (page.url == url))) [
      | inl renamed ↦ rw renamed (
          omega (
            arith,
            follow_measure site expand page.links (page.url ∷ s.seen) s.queue (h page refl),
            unseen-le site page.url s.seen,
          ))
      | inr same ↦ rw same (follow_measure site expand page.links s.seen s.queue (h page refl))
    ]

pub keep_page_revisits :
    (expand : PageLink → Bool) (item : Item) (p : Option PageRead) (s : State)
    → (keep_page expand item p s).revisits ≡ s.revisits
unfolding keep_page
keep_page_revisits expand item none s = refl
keep_page_revisits expand item (some p) s = refl

pub read_body-page :
    (url : String) (status : ℕ) (p : Option PageRead) (r : CrawlResult) (page : PageRead)
    → (read_body url status p r).1 ≡ some page
    → p ≡ some page
unfolding read_body
read_body-page url status none r page h = h
read_body-page url status (some p) r page h = h

-- What an iteration uses up.
unfoldable pub measure : List String → State → ℕ
measure site s = length s.queue + length s.revisits + unseen site s.seen
