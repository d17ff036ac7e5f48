-- ===== src/Http/Limiter.antt =====
-- `HostRateLimiter`: request starts of one host lie at least the interval apart.
-- packages/warcraft-api/src/warcraft_api/http.py
-- `wait` holds the lock while it reads the clock and books its start, so that the calls of all
-- threads are one sequence of bookings; each sleeps its delay after releasing the lock.
use warcraft_cli.Base.{
  ℕ, zero, suc, ◌+◌, ◌-◌, ◌≤◌, String, ◌≡◌, refl, subst, List, [], ◌∷◌, arith, max, ◌==◌, eq_iff,
  eq_refl, All, if◌then◌else◌,
}

-- `_next_allowed_at`
abbrev pub Booked : Type 0
Booked = List (String × ℕ)

-- `self._next_allowed_at.get(host, now)`
unfoldable pub next_allowed_at : String → ℕ → Booked → ℕ
next_allowed_at host now [] = now
next_allowed_at host now ((h, t) ∷ booked) =
    if h == host then t else next_allowed_at host now booked

-- `self._next_allowed_at[host] = t`
unfoldable pub book : String → ℕ → Booked → Booked
book host t [] = (host, t) ∷ []
book host t ((h, s) ∷ booked) = if h == host then (h, t) ∷ booked else (h, s) ∷ book host t booked

-- `urlsplit(url).netloc.lower() or url`, from the lowered netloc
abbrev pub host_key : String → String → String
host_key netloc url = if netloc == "" then url else netloc

-- What one `wait` does: the bookings, when the request may start, and how long it sleeps.
pub record Wait : Type 0 where
  pub booked : Booked
  pub start_at : ℕ
  pub delay : ℕ

unfoldable pub wait : ℕ → String → ℕ → Booked → Wait
unfolding next_allowed_at book
wait zero host now booked = record { booked = booked; start_at = now; delay = 0 }
wait (suc n) host now booked =
    let start_at = max now (next_allowed_at host now booked) in
    record {
      booked = book host (start_at + suc n) booked;
      start_at = start_at;
      delay = start_at - now;
    }

-- A sequence of calls, each with its host and the clock as it reads it, and the starts booked.
unfoldable pub starts : ℕ → List (String × ℕ) → Booked → List (String × ℕ)
starts interval [] booked = []
starts interval ((host, now) ∷ calls) booked =
    let w = wait interval host now booked in (host, w.start_at) ∷ starts interval calls w.booked

-- The host's next start lies at `t` or later, whatever the clock says.
Holds : String → ℕ → Booked → Type 0
Holds host t booked = (now : ℕ) → t ≤ next_allowed_at host now booked

next_allowed-book :
    (host other : String) (now t : ℕ) (booked : Booked)
    → next_allowed_at other now (book host t booked)
      ≡ (if host == other then t else next_allowed_at other now booked)
unfolding next_allowed_at book
next_allowed-book host other now t [] = refl
next_allowed-book host other now t ((h, s) ∷ booked) = ground (
  arith,
  eq_iff host other,
  eq_iff h host,
  eq_iff h other,
  next_allowed-book host other now t booked,
)

module _ (n : ℕ) (host : String) (now : ℕ) (booked : Booked) where
  -- A call waits for its host's turn, and holds the next one off for the interval.
  wait_start : (t : ℕ) → Holds host t booked → t ≤ (wait (suc n) host now booked).start_at
  unfolding wait Holds
  wait_start t h = omega (arith, h now)

  wait-Holds :
      Holds host
        ((wait (suc n) host now booked).start_at + suc n)
        (wait (suc n) host now booked).booked
  unfolding wait Holds
  wait-Holds later = rw (next_allowed-book host host later) (rw eq_refl (omega arith))

  -- A call for any host keeps what other hosts, and its own, are held to.
  wait_keeps :
      (other : String) (t : ℕ)
      → Holds other t booked
      → Holds other t (wait (suc n) host now booked).booked
  unfolding wait Holds
  wait_keeps other t h later = ground (
    arith,
    next_allowed-book host other later (max now (next_allowed_at host now booked) + suc n) booked,
    eq_iff host other,
    h later,
    h now,
  )

-- Among the later starts, those of the host lie at `t` or later.
abbrev pub NotBefore : String → ℕ → List (String × ℕ) → Type 0
NotBefore host t = All (λ s. host ≡ s.0 → t ≤ s.1)

abbrev pub Spaced : ℕ → List (String × ℕ) → Type 0
Spaced interval [] = Unit
Spaced interval (s ∷ rest) = NotBefore s.0 (s.1 + interval) rest × Spaced interval rest

starts-NotBefore :
    (n : ℕ) (calls : List (String × ℕ)) (booked : Booked) (host : String) (t : ℕ)
    → Holds host t booked
    → NotBefore host t (starts (suc n) calls booked)
unfolding starts
starts-NotBefore n [] booked host t h = tt
starts-NotBefore n ((other, now) ∷ calls) booked host t h = (
  (λ same. wait_start n other now booked t (subst (λ k. Holds k t booked) same h)),
  starts-NotBefore n calls (wait (suc n) other now booked).booked host t
      (wait_keeps n other now booked host t h),
)

starts-Spaced :
    (n : ℕ) (calls : List (String × ℕ)) (booked : Booked)
    → Spaced (suc n) (starts (suc n) calls booked)
unfolding starts
starts-Spaced n [] booked = tt
starts-Spaced n ((host, now) ∷ calls) booked =
    let w = wait (suc n) host now booked in
    (
      starts-NotBefore n calls w.booked host (w.start_at + suc n) (wait-Holds n host now booked),
      starts-Spaced n calls w.booked,
    )

-- Under any interval but 0, which disables waiting, any two starts booked for one host lie at least
-- the interval apart, in the order of the calls, whatever was called for other hosts in between.
pub starts_lem :
    (interval : ℕ) (calls : List (String × ℕ)) (booked : Booked)
    → 1 ≤ interval
    → Spaced interval (starts interval calls booked)
starts_lem zero calls booked h = absurd (omega arith)
starts_lem (suc n) calls booked h = starts-Spaced n calls booked

-- A request starts when it is called or later, exactly its delay later, and a host with no booking
-- waits not at all.
pub wait_lem :
    (interval : ℕ) (host : String) (now : ℕ) (booked : Booked)
    → ((wait interval host now booked).start_at ≡ now + (wait interval host now booked).delay)
      × (next_allowed_at host now booked ≡ now → (wait interval host now booked).delay ≡ 0)
unfolding wait
wait_lem zero host now booked = (omega arith, λ h. refl)
wait_lem (suc n) host now booked = (omega arith, λ h. omega arith)
