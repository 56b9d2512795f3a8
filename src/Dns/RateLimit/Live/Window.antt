-- ===== src/Dns/RateLimit/Live/Window.antt =====
-- What a window of the rate limiter of dns/server.go admits.
use Prim.Native.Nat.{min}
use mathlib.Core.Path.{ap₂}
use zeus_dns_cli.Base.{
  ℕ, ◌+◌, ◌-◌, ◌≤◌, ◌≡◌, refl, ◌∙◌, ap, Bool, true, ◌&&◌, none, some, List, [], ◌∷◌, inl, inr,
  Bool-cases, leb, if◌then◌else◌, arith, Text, text_eq, text_eq_iff, text_eq_refl, lookup,
  NodupKeys,
}
use zeus_dns_cli.Dns.RateLimit.{IpCounter, IpRateLimiter, collect, allow, run}
use zeus_dns_cli.Dns.RateLimit.Live.{
  live, bump, remains, answer, live-collect, collect_keeps, admit_lem, live-admit, IsTimed,
}

-- The requests of one source that were admitted, and all its requests.
pub admitted : Text → List (Text × ℕ) → List Bool → ℕ
admitted ip [] replies = 0
admitted ip (call ∷ calls) [] = 0
admitted ip ((j, now) ∷ calls) (reply ∷ replies) =
    (if text_eq j ip && reply then 1 else 0) + admitted ip calls replies

pub requests : Text → List (Text × ℕ) → ℕ
requests ip [] = 0
requests ip ((j, now) ∷ calls) = (if text_eq j ip then 1 else 0) + requests ip calls

-- All requests come by the time `last`.
abbrev pub Until : ℕ → List (Text × ℕ) → Type 0
Until last [] = Unit
Until last ((ip, now) ∷ calls) = (now ≤ last) × Until last calls

-- One request, seen by a source whose counter counts until the end of its window.
step_window :
    (rl : IpRateLimiter) (j ip : Text) (c : IpCounter) (now later : ℕ)
    → NodupKeys rl.ips
    → now ≤ later
    → later ≤ c.seen + rl.window
    → live rl ip now ≡ some c
    → live rl ip later ≡ some c
    → live (allow rl j now).0 ip later ≡ some (if text_eq j ip then record c { n = c.n + 1 } else c)
unfolding allow remains bump
step_window rl j ip c now later u h d here there =
    let (keys, limit, window) = collect_keeps rl now u in
    ground (
      arith,
      text_eq_iff j ip,
      live-admit (collect rl now) j ip now later h,
      live-collect rl ip now now u,
      live-collect rl ip now later u h,
      here,
      there,
      window,
    )

allow_lem :
    (rl : IpRateLimiter) (ip : Text) (now : ℕ)
    → NodupKeys rl.ips
    → NodupKeys (allow rl ip now).0.ips
      × ((allow rl ip now).0.limit ≡ rl.limit)
      × ((allow rl ip now).0.window ≡ rl.window)
      × ((allow rl ip now).1 ≡ answer (live rl ip now) rl.limit)
unfolding allow
allow_lem rl ip now u =
    let (keys, limit, window) = collect_keeps rl now u in
    let (keys', limit', window', reply) = admit_lem (collect rl now) ip now keys in
    (
      keys',
      limit' ∙ limit,
      window' ∙ window,
      reply ∙ ap₂ answer (live-collect rl ip now now u (omega arith)) limit,
    )

window_run :
    (ip : Text) (t lim w : ℕ) (calls : List (Text × ℕ)) (rl : IpRateLimiter) (c : IpCounter)
    → NodupKeys rl.ips
    → rl.limit ≡ lim
    → rl.window ≡ w
    → IsTimed t calls
    → Until (c.seen + w) calls
    → ((later : ℕ) → t ≤ later → later ≤ c.seen + w → live rl ip later ≡ some c)
    → admitted ip calls (run rl calls) ≡ min (lim - c.n) (requests ip calls)
unfolding run admitted requests answer
window_run ip t lim w [] rl c u el ew timed until counts = omega arith
window_run ip t lim w ((j, now) ∷ calls) rl c u el ew (h, timed) (d, until) counts =
    let (keys, limit, window, reply) = allow_lem rl j now u in
    let here = counts now h d in
    let counts' = λ (later : ℕ) (h' : now ≤ later) (d' : later ≤ c.seen + w).
      step_window rl j ip c now later u h' (omega arith) here (counts later (omega arith) d') in
    elim (Bool-cases (text_eq j ip)) [
      | inl same ↦
          let c' : IpCounter = record c { n = c.n + 1 } in
          let ih =
            window_run ip now lim w calls (allow rl j now).0 c' keys (limit ∙ el) (window ∙ ew)
              timed until (λ later h' d'. rw same at (counts' later h' d')) in
          let source : live rl j now ≡ some c = rw ((text_eq_iff j ip).0 same) here in
          let reply' : (allow rl j now).1 ≡ leb (c.n + 1) lim = reply ∙ ap₂ answer source el in
          rw (same, reply') (ground (arith, ih))
      | inr other ↦
          let ih =
            window_run ip now lim w calls (allow rl j now).0 c keys (limit ∙ el) (window ∙ ew) timed
              until (λ later h' d'. rw other at (counts' later h' d')) in
          rw other (omega (arith, ih))
    ]

-- While a counter with `n` requests counts, exactly `min (limit - n) k` of the next `k` requests of
-- its source within the window are admitted, whatever the other sources do and however the requests
-- are interleaved.
pub run_window :
    (rl : IpRateLimiter) (ip : Text) (c : IpCounter) (t : ℕ) (calls : List (Text × ℕ))
    → NodupKeys rl.ips
    → IsTimed t calls
    → Until (c.seen + rl.window) calls
    → lookup ip rl.ips ≡ some c
    → admitted ip calls (run rl calls) ≡ min (rl.limit - c.n) (requests ip calls)
unfolding live
run_window rl ip c t calls u w d known =
    window_run ip t rl.limit rl.window calls rl c u refl refl w d
      (λ later h d'. rw (known, live) (ground arith))

first_of_window :
    (rl : IpRateLimiter) (ip : Text) (now later : ℕ)
    → NodupKeys rl.ips
    → now ≤ later
    → later ≤ now + rl.window
    → live rl ip now ≡ none
    → live (allow rl ip now).0 ip later ≡ some (record { n = 1; seen = now })
unfolding allow remains bump
first_of_window rl ip now later u h d new =
    let (keys, limit, window) = collect_keeps rl now u in
    ground (
      arith,
      text_eq_refl ip,
      live-admit (collect rl now) ip ip now later h,
      live-collect rl ip now now u,
      new,
      window,
    )

-- The window is fixed, not sliding: a source with no live counter, be it new or one whose window
-- ended a moment ago, starts a window of its own and has `limit` requests admitted in it at once,
-- whatever was admitted just before.
pub run_new_window :
    (rl : IpRateLimiter) (ip : Text) (now : ℕ) (calls : List (Text × ℕ))
    → NodupKeys rl.ips
    → 1 ≤ rl.limit
    → live rl ip now ≡ none
    → IsTimed now calls
    → Until (now + rl.window) calls
    → admitted ip ((ip, now) ∷ calls) (run rl ((ip, now) ∷ calls))
      ≡ min rl.limit (requests ip ((ip, now) ∷ calls))
unfolding run admitted requests answer
run_new_window rl ip now calls u one new timed until =
    let (keys, limit, window, reply) = allow_lem rl ip now u in
    let rest =
      window_run ip now rl.limit rl.window calls (allow rl ip now).0 (record { n = 1; seen = now })
        keys limit window timed until (λ later h d. first_of_window rl ip now later u h d new) in
    let granted : (allow rl ip now).1 ≡ true = reply ∙ ap (λ c. answer c rl.limit) new in
    rw (text_eq_refl ip, granted) (omega (arith, rest))
