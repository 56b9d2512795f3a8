-- ===== src/Dns/RateLimit/Live.antt =====
-- The rate limiter of dns/server.go by the counters that still count: the collection of stale ones
-- cannot be seen from outside, and a window admits as many requests as the limit says.
pub mod Window
use Prim.Native.Nat.{min}
use mathlib.Core.Path.{ap₂}
use zeus_dns_cli.Base.{
  ℕ, ◌+◌, ◌-◌, ◌≤◌, ◌≡◌, refl, sym, ◌∙◌, ap, Bool, true, ◌&&◌, not, Option, none, some, List, [],
  ◌∷◌, inl, inr, Bool-cases, Option-cases, leb, if◌then◌else◌, arith, Text, text_eq, text_eq_iff,
  text_eq_refl, lookup, lookup-insert, lookup-retain, NodupKeys, insert-NodupKeys, retain-NodupKeys,
}
use zeus_dns_cli.Dns.RateLimit.{IpCounter, IpRateLimiter, is_stale, collect, admit, allow, run}

-- The counter of a source, if it is not stale at the time `now`.
unfoldable pub live : IpRateLimiter → Text → ℕ → Option IpCounter
live rl ip now = elim (lookup ip rl.ips) [
  | none ↦ none
  | some c ↦ if is_stale rl.window now c then none else some c
]

-- The counter after a request.
pub bump : Option IpCounter → ℕ → IpCounter
bump none now = record { n = 1; seen = now }
bump (some c) now = record c { n = c.n + 1 }

-- What is left of a counter later.
pub remains : ℕ → IpCounter → ℕ → Option IpCounter
remains window c later = if is_stale window later c then none else some c

-- The answer to a request of a source with this counter.
pub answer : Option IpCounter → ℕ → Bool
answer none limit = true
answer (some c) limit = leb (c.n + 1) limit

-- Collection changes nothing that counts at its time or later.
pub live-collect :
    (rl : IpRateLimiter) (ip : Text) (now later : ℕ)
    → NodupKeys rl.ips
    → now ≤ later
    → live (collect rl now) ip later ≡ live rl ip later
unfolding live collect
live-collect rl ip now later u h =
    ground (arith, lookup-retain (λ c. not (is_stale rl.window now c)) ip rl.ips u)

pub collect_keeps :
    (rl : IpRateLimiter) (now : ℕ)
    → NodupKeys rl.ips
    → NodupKeys (collect rl now).ips
      × ((collect rl now).limit ≡ rl.limit)
      × ((collect rl now).window ≡ rl.window)
unfolding collect
collect_keeps rl now u =
    ground (arith, retain-NodupKeys (λ c. not (is_stale rl.window now c)) rl.ips u)

pub admit_lem :
    (rl : IpRateLimiter) (ip : Text) (now : ℕ)
    → NodupKeys rl.ips
    → NodupKeys (admit rl ip now).0.ips
      × ((admit rl ip now).0.limit ≡ rl.limit)
      × ((admit rl ip now).0.window ≡ rl.window)
      × ((admit rl ip now).1 ≡ answer (live rl ip now) rl.limit)
unfolding admit live answer
admit_lem rl ip now u = elim (Option-cases (lookup ip rl.ips)) [
  | inl new ↦
      rw (new, admit, live, answer)
        (insert-NodupKeys ip (record { n = 1; seen = now }) rl.ips u, refl, refl, refl)
  | inr (c, known) ↦ elim (Bool-cases (is_stale rl.window now c)) [
    | inl stale ↦
        rw (known, stale, admit, live, answer)
          (insert-NodupKeys ip (record { n = 1; seen = now }) rl.ips u, refl, refl, refl)
    | inr fresh ↦
        rw (known, fresh, admit, live, answer)
          (insert-NodupKeys ip (record c { n = c.n + 1 }) rl.ips u, refl, refl, refl)
  ]
]

pub live-admit :
    (rl : IpRateLimiter) (ip j : Text) (now later : ℕ)
    → now ≤ later
    → live (admit rl ip now).0 j later ≡ (
        if text_eq ip j
        then remains rl.window (bump (live rl ip now) now) later
        else live rl j later)
unfolding admit live bump remains
live-admit rl ip j now later h = ground (
  arith,
  lookup-insert j ip (record { n = 1; seen = now }) rl.ips,
  lookup-insert j ip (bump (lookup ip rl.ips) now) rl.ips,
)

-- The limiter without its collection.
pub run_plain : IpRateLimiter → List (Text × ℕ) → List Bool
run_plain rl [] = []
run_plain rl ((ip, now) ∷ calls) = let (rl', reply) = admit rl ip now in reply ∷ run_plain rl' calls

-- The clock does not run back.
abbrev pub IsTimed : ℕ → List (Text × ℕ) → Type 0
IsTimed t [] = Unit
IsTimed t ((ip, now) ∷ calls) = (t ≤ now) × IsTimed now calls

-- Two limiters that cannot be told apart from the time `t` on.
record Agree (t : ℕ) (a b : IpRateLimiter) : Type 0 where
  same_limit : a.limit ≡ b.limit
  same_window : a.window ≡ b.window
  same_live : (ip : Text) (later : ℕ) → t ≤ later → live a ip later ≡ live b ip later
  left_keys : NodupKeys a.ips
  right_keys : NodupKeys b.ips

Agree-step :
    (t now : ℕ) (a b : IpRateLimiter) (ip : Text)
    → t ≤ now
    → Agree t a b
    → Agree now (allow a ip now).0 (admit b ip now).0 × ((allow a ip now).1 ≡ (admit b ip now).1)
unfolding allow
Agree-step t now a b ip h s =
    let (keys, limit, window) = collect_keeps a now s.left_keys in
    let (keysA, limitA, windowA, replyA) = admit_lem (collect a now) ip now keys in
    let (keysB, limitB, windowB, replyB) = admit_lem b ip now s.right_keys in
    let here = live-collect a ip now now s.left_keys (omega arith) ∙ s.same_live ip now h in
    (
      record {
        same_limit = limitA ∙ limit ∙ s.same_limit ∙ sym limitB;
        same_window = windowA ∙ window ∙ s.same_window ∙ sym windowB;
        same_live = λ j later h'.
            let there =
              live-collect a j now later s.left_keys h' ∙ s.same_live j later (omega arith) in
            live-admit (collect a now) ip j now later h'
            ∙ cc (here, there, window ∙ s.same_window)
            ∙ sym (live-admit b ip j now later h');
        left_keys = keysA;
        right_keys = keysB;
      },
      replyA ∙ ap₂ answer here (limit ∙ s.same_limit) ∙ sym replyB,
    )

Agree-run :
    (t : ℕ) (calls : List (Text × ℕ)) (a b : IpRateLimiter)
    → IsTimed t calls
    → Agree t a b
    → run a calls ≡ run_plain b calls
unfolding run run_plain
Agree-run t [] a b w s = refl
Agree-run t ((ip, now) ∷ calls) a b (h, w) s =
    let (s', same) = Agree-step t now a b ip h s in ap₂ ◌∷◌ same (Agree-run now calls _ _ w s')

-- Collecting the stale counters is invisible: on every sequence of requests whose times do not run
-- back, a limiter with distinct keys answers as it would with no collection at all.
pub run-run_plain :
    (rl : IpRateLimiter) (t : ℕ) (calls : List (Text × ℕ))
    → NodupKeys rl.ips
    → IsTimed t calls
    → run rl calls ≡ run_plain rl calls
run-run_plain rl t calls u w = Agree-run t calls rl rl w (record {
  same_limit = refl;
  same_window = refl;
  same_live = λ ip later h. refl;
  left_keys = u;
  right_keys = u;
})
