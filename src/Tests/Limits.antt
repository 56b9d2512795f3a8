-- ===== src/Tests/Limits.antt =====
-- The rate limiter at concrete requests.
use Prim.Native.Nat.{min}
use zeus_dns_cli.Base.{ℕ, ◌≡◌, refl, some, List, [], ◌∷◌, ◌-◌, arith, Text, codes, lookup, text_eq}
use zeus_dns_cli.Dns.RateLimit.{IpRateLimiter, run}
use zeus_dns_cli.Dns.RateLimit.Live.{run_plain, run-run_plain}
use zeus_dns_cli.Dns.RateLimit.Live.Window.{run_window, admitted, requests}

abbrev client : Text
client = codes "1.2.3.4"

abbrev limiter : IpRateLimiter
limiter = record {
  ips = (client, record { n = 1; seen = 5 }) ∷ [];
  limit = 2;
  window = 10;
  last_gc = 0;
}

abbrev idle : IpRateLimiter
idle = record { ips = []; limit = 2; window = 10; last_gc = 0 }

abbrev calls : List (Text × ℕ)
calls = (client, 6) ∷ (codes "9", 7) ∷ (client, 8) ∷ []

known : lookup client limiter.ips ≡ some (record { n = 1; seen = 5 })
unfolding lookup text_eq
known = refl

run-run_plain_example : run limiter calls ≡ run_plain limiter calls
run-run_plain_example = run-run_plain limiter 5 calls (unfold lookup in (refl, tt)) (omega arith)

run_window_example :
    admitted client calls (run limiter calls) ≡ min (limiter.limit - 1) (requests client calls)
run_window_example =
    run_window limiter client (record { n = 1; seen = 5 }) 5 calls (unfold lookup in (refl, tt))
      (omega arith) (omega arith) known
