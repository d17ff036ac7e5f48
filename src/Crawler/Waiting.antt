-- ===== src/Crawler/Waiting.antt =====
-- How often a URL waits in the queue and the revisits, through each part of an iteration.
use warcraft_cli.Base.{
  ℕ, ◌+◌, ◌≤◌, String, ◌≡◌, refl, Bool, true, false, not, ◌&&◌, ◌||◌, Option, none, some, List, [],
  ◌∷◌, ◌++◌, arith, ◌==◌, eq_iff, Bool-cases, inl, inr, if◌then◌else◌,
}
use warcraft_cli.Crawler.Data.{PageLink, PageRead, Item, State, mem}
use warcraft_cli.Crawler.Fetch.{next_url, keep_page, follow}

-- How often a URL stands in a list, and in a queue.
unfoldable pub count : String → List String → ℕ
count u [] = 0
count u (v ∷ vs) = (if v == u then 1 else 0) + count u vs

unfoldable pub count_items : String → List Item → ℕ
count_items u [] = 0
count_items u (i ∷ is) = (if i.0 == u then 1 else 0) + count_items u is

count_items-append :
    (u : String) (xs ys : List Item)
    → count_items u (xs ++ ys) ≡ count_items u xs + count_items u ys
unfolding count_items
count_items-append u [] ys = omega arith
count_items-append u (x ∷ xs) ys = omega (arith, count_items-append u xs ys)

count_queued :
    (u url source : String) (queue : List Item)
    → count_items u (queue ++ (url, source) ∷ [])
      ≡ count_items u queue + (if url == u then 1 else 0)
unfolding count_items
count_queued u url source [] = omega arith
count_queued u url source (x ∷ xs) = omega (arith, count_queued u url source xs)

-- A new URL is none that was seen.
differs :
    (v u : String) (seen : List String) → mem v seen ≡ false → mem u seen ≡ true → (v == u) ≡ false
differs v u seen hv hu = elim (Bool-cases (v == u)) [
  | inl e ↦ absurd (let same : v ≡ u = (eq_iff v u).0 e in cc)
  | inr e ↦ e
]

-- 1 for a seen URL, and 0 for one that is not.
abbrev pub weight : Bool → ℕ
weight b = if b then 1 else 0

abbrev pub waiting : String → List Item → List String → ℕ
waiting u queue revisits = count_items u queue + count u revisits

module _ (expand : PageLink → Bool) (l : PageLink) (ls : List PageLink) (seen : List String)
    (queue : List Item) where
  pub follow-new :
      not (mem l.url seen) && expand l ≡ true
      → follow expand (l ∷ ls) seen queue
        ≡ follow expand ls (l.url ∷ seen) (queue ++ (l.url, l.source) ∷ [])
  unfolding follow
  follow-new h = rw (h, follow)

  pub follow-old :
      not (mem l.url seen) && expand l ≡ false
      → follow expand (l ∷ ls) seen queue ≡ follow expand ls seen queue
  unfolding follow
  follow-old h = rw (h, follow)

pub follow-nil :
    (expand : PageLink → Bool) (seen : List String) (queue : List Item)
    → follow expand [] seen queue ≡ (seen, queue)
unfolding follow
follow-nil expand seen queue = refl

pub mem-cons : (u v : String) (vs : List String) → mem u (v ∷ vs) ≡ ((v == u) || mem u vs)
unfolding mem
mem-cons u v vs = refl

-- Following links puts a URL into the queue at most once, and only if it was not seen before.
follow-weight :
    (expand : PageLink → Bool) (ls : List PageLink) (seen : List String) (queue : List Item)
    (u : String)
    → count_items u (follow expand ls seen queue).1 + weight (mem u seen)
      ≤ count_items u queue + weight (mem u (follow expand ls seen queue).0)
follow-weight expand [] seen queue u = rw follow-nil (omega arith)
follow-weight expand (l ∷ ls) seen queue u = elim (Bool-cases (not (mem l.url seen) && expand l)) [
  | inl new ↦ rw (follow-new expand l ls seen queue new) (
      ground (
        arith,
        follow-weight expand ls (l.url ∷ seen) (queue ++ (l.url, l.source) ∷ []) u,
        count_queued u l.url l.source queue,
        mem-cons u l.url seen,
        eq_iff l.url u,
      ))
  | inr old ↦ rw (follow-old expand l ls seen queue old) (follow-weight expand ls seen queue u)
]

-- Taking an item takes it off what waits.
pub next_url-waiting :
    (queue : List Item) (revisits visited : List String) (item : Item) (queue' : List Item)
    (revisits' : List String) (u : String)
    → next_url queue revisits visited ≡ some (item, queue', revisits')
    → waiting u queue' revisits' + weight (item.0 == u) ≤ waiting u queue revisits
unfolding next_url count count_items
next_url-waiting (i ∷ queue) revisits visited item queue' revisits' u h = ground arith
next_url-waiting [] [] visited item queue' revisits' u h = absurd (ground arith)
next_url-waiting [] (r ∷ revisits) visited item queue' revisits' u h =
    elim (Bool-cases (mem r visited)) [
      | inl old ↦ ground (arith, next_url-waiting [] revisits visited item queue' revisits' u)
      | inr new ↦ ground arith
    ]

-- A kept page leaves what waits to its links.
pub waiting-keep_page :
    (expand : PageLink → Bool) (item : Item) (p : Option PageRead) (s : State) (u : String)
    → waiting u (keep_page expand item p s).queue (keep_page expand item p s).revisits
        + weight (mem u s.seen)
      ≤ waiting u s.queue s.revisits + weight (mem u (keep_page expand item p s).seen)
unfolding keep_page
waiting-keep_page expand (url, source) none s u = omega arith
waiting-keep_page expand (url, source) (some page) s u = elim (Bool-cases (not (page.url == url))) [
  | inl renamed ↦ rw renamed (
      ground (
        arith,
        follow-weight expand page.links (page.url ∷ s.seen) s.queue u,
        mem-cons u page.url s.seen,
      ))
  | inr same ↦ rw same (ground (arith, follow-weight expand page.links s.seen s.queue u))
]
