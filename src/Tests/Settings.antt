-- ===== src/Tests/Settings.antt =====
-- The configuration and the upstreams at concrete settings.
use zeus_dns_cli.Base.{
  ℕ, ◌≡◌, ◌↔◌, refl, ◌≢◌, ◌⊎◌, Bool, true, false, Option, none, some, [], ◌∷◌, ◌++◌, All, map,
  if◌then◌else◌, Text, codes, text_eq, trim_space, trim_left, trim_right, to_lower, has_prefix, ok,
}
use zeus_dns_cli.Base.Int.{pos}
use zeus_dns_cli.Net.{
  has_byte, join_host_port, cut_last, split_plain, check_brackets, split_host_port,
}
use zeus_dns_cli.Config.{default, default_dir, validate_log_path, validate, apply_env}
use zeus_dns_cli.Config.LogPath.{Within, validate_log_path-Within}
use zeus_dns_cli.Config.Accepts.{IsUsable, validate-IsUsable}
use zeus_dns_cli.Config.Layers.{IsOverlaid, apply_env-IsOverlaid}
use zeus_dns_cli.Config.Save.{SaveStep, rename_temp, Files, save_at}
use zeus_dns_cli.Config.Atomic.{Atomic, save_at-Atomic}
use zeus_dns_cli.Dns.Upstream.{
  Upstream, dot, parse_dot, parse_upstream, parse_trimmed, exchanger, dot_client, dot_address,
  bad_server, doh_client,
}
use zeus_dns_cli.Dns.Upstream
use zeus_dns_cli.Dns.Cache.{new_cache, second}
use zeus_dns_cli.Dns.Cache.Spec.{IsValid}
use zeus_dns_cli.Dns.RateLimit.{new_limiter}
use zeus_dns_cli.Dns.Setup.{Setup, new_server, setup_all, setup_one}
use zeus_dns_cli.Dns.Setup.Upstreams.{Usable, new_server-Usable}
use zeus_dns_cli.Samples.{sample_ip, sample_url}

abbrev resolve : Text → Option Text
resolve p = some (default_dir ++ (codes "\\" ++ p))

abbrev env : Text → Text
env name = if text_eq name (codes "ZEUSDNS_LOG_LEVEL") then codes "debug" else []

validate_log_path-Within_example : (validate_log_path resolve (codes "a.log") ≡ ok tt) ↔ (
    (codes "a.log" ≡ []) ⊎ ((a : Text) × (resolve (codes "a.log") ≡ some a) × Within default_dir a))
validate_log_path-Within_example = validate_log_path-Within resolve (codes "a.log")

validate-IsUsable_example :
    (validate resolve sample_ip default ≡ ok tt) ↔ IsUsable resolve sample_ip default
validate-IsUsable_example = validate-IsUsable resolve sample_ip default

apply_env-IsOverlaid_example : (apply_env env default ≡ ok default) ↔ IsOverlaid env default default
apply_env-IsOverlaid_example = apply_env-IsOverlaid env default default

abbrev host : Text
host = codes "a.org"

abbrev breaks : SaveStep → Bool
breaks rename_temp = true
breaks s = false

abbrev old_files : Files
old_files path = if text_eq path (codes "c.yaml") then some (codes "old") else none

save_at-Atomic_example :
    Atomic breaks
      (λ c. some (codes "new"))
      (codes "t")
      []
      (codes "c.yaml")
      (codes "c.yaml")
      (some (codes "new"))
      old_files
      (save_at breaks (λ c. some (codes "new")) (codes "t") [] (codes "c.yaml") default old_files)
unfolding text_eq
save_at-Atomic_example =
    save_at-Atomic breaks (λ c. some (codes "new")) (codes "t") [] (codes "c.yaml") (codes "c.yaml")
      default old_files refl

abbrev dot_upstream : Upstream
dot_upstream = record {
  raw = codes "tls://a.org";
  proto = dot;
  server = codes "a.org:853";
  host = host;
  url = [];
}

abbrev listener : Text
listener = codes "127.0.0.1:53"

abbrev made : Setup ℕ
made = record {
  upstreams = (dot_upstream, dot_client host (codes "853") host) ∷ [];
  server = record { cache = new_cache (pos 4); rate_l = some (new_limiter 100 second 7) };
  query_log = false;
}

new_server-Usable_example :
    (made.upstreams ≢ [])
    × (map (parse_upstream sample_url) (codes "tls://a.org" ∷ [])
        ≡ map (λ p. ok p.0) made.upstreams)
    × All (Usable sample_url sample_ip listener) made.upstreams
    × IsValid made.server.cache
new_server-Usable_example =
    new_server-Usable sample_url sample_ip listener (codes "tls://a.org" ∷ []) (pos 4)
      (codes "info") 7 {s = made}
      (unfold new_server setup_all setup_one parse_upstream parse_trimmed parse_dot dot_address
          Upstream.validate exchanger split_host_port split_plain check_brackets cut_last
          join_host_port has_byte has_prefix to_lower trim_space trim_left trim_right text_eq in
        refl)
