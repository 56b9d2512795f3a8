-- ===== src/Dns/RateLimit.antt =====
-- `ipRateLimiter` of dns/server.go. Times are the readings of a clock in nanoseconds.
pub mod Live
use zeus_dns_cli.Base.{
  ℕ, ◌+◌, ◌-◌, ◌*◌, Bool, true, false, ◌&&◌, not, none, some, List, [], ◌∷◌, length, ltb, leb,
  if◌then◌else◌, Text, Dict, lookup, insert, retain,
}
use zeus_dns_cli.Dns.Cache.{second}

pub record IpCounter : Type 0 where
  pub n : ℕ
  pub seen : ℕ

pub record IpRateLimiter : Type 0 where
  pub ips : Dict IpCounter
  pub limit : ℕ
  pub window : ℕ
  pub last_gc : ℕ

-- `newIPRateLimiter`
unfoldable pub new_limiter : ℕ → ℕ → ℕ → IpRateLimiter
new_limiter limit window now = record { ips = []; limit = limit; window = window; last_gc = now }

-- `now.Sub(seen) > window`. Where the clock stands still or runs back, neither this difference nor
-- Go's is greater than a window.
abbrev pub is_stale : ℕ → ℕ → IpCounter → Bool
is_stale window now c = ltb window (now - c.seen)

-- The first `if` of `Allow`: with more than 10000 counters, the stale ones go every 30 seconds.
unfoldable pub collect : IpRateLimiter → ℕ → IpRateLimiter
collect rl now =
    if ltb 10000 (length rl.ips) && ltb (30 * second) (now - rl.last_gc)
    then record rl { ips = retain (λ c. not (is_stale rl.window now c)) rl.ips; last_gc = now }
    else rl

-- The rest of `Allow`.
unfoldable pub admit : IpRateLimiter → Text → ℕ → IpRateLimiter × Bool
admit rl ip now = elim (lookup ip rl.ips) [
  | none ↦ (record rl { ips = insert ip (record { n = 1; seen = now }) rl.ips }, true)
  | some c ↦
      if is_stale rl.window now c
      then (record rl { ips = insert ip (record { n = 1; seen = now }) rl.ips }, true)
      else (record rl { ips = insert ip (record c { n = c.n + 1 }) rl.ips }, leb (c.n + 1) rl.limit)
]

-- `Allow`, at the time `now`
unfoldable pub allow : IpRateLimiter → Text → ℕ → IpRateLimiter × Bool
allow rl ip now = admit (collect rl now) ip now

-- A sequence of requests, each with its source and its time, and the answers.
unfoldable pub run : IpRateLimiter → List (Text × ℕ) → List Bool
run rl [] = []
run rl ((ip, now) ∷ calls) = let (rl', reply) = allow rl ip now in reply ∷ run rl' calls
