-- ===== src/Dns/Setup.antt =====
-- `NewServer` of dns/server.go.
pub mod Upstreams
use zeus_dns_cli.Base.{
  ℕ, Bool, true, false, ◌||◌, Option, none, some, List, [], ◌∷◌, if◌then◌else◌, Text, codes,
  text_eq, Result, ok, err, ◌>>=◌, ◌>>◌, wrap_err, guard, not, length, ◌==◌,
}
use zeus_dns_cli.Base.Int.{ℤ}
use zeus_dns_cli.Net.{IpLib, Url}
use zeus_dns_cli.Dns.Message.{DnsLib}
use zeus_dns_cli.Dns.Cache.{second, new_cache}
use zeus_dns_cli.Dns.RateLimit.{new_limiter}
use zeus_dns_cli.Dns.Server.{Server}
use zeus_dns_cli.Dns.Upstream.{Upstream, UpstreamError, Client, parse_upstream, validate, exchanger}

pub data SetupError : Type 0 where
  bad_upstream : Text → UpstreamError → SetupError
  no_upstreams : SetupError

-- The fields of `Server` that `NewServer` sets.
pub record Setup (Rr : Type 0) : Type 0 where
  pub upstreams : List (Upstream × Client)
  pub server : Server Rr
  pub query_log : Bool

module _ (parse_url : Text → Option Url) (I : IpLib) where
  -- The body of the loop over `cfg.Upstreams`.
  unfoldable pub setup_one : Text → Text → Result SetupError (Upstream × Client)
  setup_one addr raw =
      wrap_err (bad_upstream raw)
        (do u ← parse_upstream parse_url raw; validate I u addr; c ← exchanger u; ok (u, c))

  unfoldable pub setup_all : Text → List Text → Result SetupError (List (Upstream × Client))
  setup_all addr [] = ok []
  setup_all addr (raw ∷ raws) = do
    one ← setup_one addr raw
    rest ← setup_all addr raws
    ok (one ∷ rest)

  -- `NewServer`, from the fields of the configuration that it reads, at the time `now`.
  unfoldable pub new_server :
      {Rr : Type 0} → List Text → Text → ℤ → Text → ℕ → Result SetupError (Setup Rr)
  new_server raws addr cache_size level now = do
    upstreams ← setup_all addr raws
    guard (not (length upstreams == 0)) no_upstreams
    ok (record {
      upstreams = upstreams;
      server = record { cache = new_cache cache_size; rate_l = some (new_limiter 100 second now) };
      query_log = text_eq level (codes "verbose") || text_eq level (codes "debug");
    })
