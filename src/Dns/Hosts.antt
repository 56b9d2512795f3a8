-- ===== src/Dns/Hosts.antt =====
-- The host names of upstreams: `hostnameCache` of dns/resolver_cache.go, the address that `dial` of
-- dns/dot.go and `DialContext` of dns/doh.go connect to, and the bootstrap resolver of
-- dns/upstream.go. The system's resolver is what a call of `LookupHost` returns.
pub mod Kept
use zeus_dns_cli.Base.{
  ℕ, ◌+◌, Bool, true, false, ◌&&◌, Option, none, some, List, [], ◌∷◌, ltb, if◌then◌else◌, Text,
  codes, Dict, lookup, insert, Result, ok, err, ◌>>=◌, ◌>>◌, guard, wrap_err,
}
use zeus_dns_cli.Net.{IpLib, split_host_port, join_host_port}

-- `DefaultHostnameTTL` in nanoseconds
abbrev pub default_hostname_ttl : ℕ
default_hostname_ttl = 300000000000

pub data HostError : Type 0 where
  resolve_failed no_addresses cancelled : HostError
  out_of_range : HostError  -- a panic: an index past the end of a slice

-- `cachedIPs`, and the map of `hostnameCache`
pub record CachedIps : Type 0 where
  pub ips : List Text
  pub exp : ℕ

abbrev pub HostnameCache : Type 0
HostnameCache = Dict CachedIps

-- `newHostnameCache`
abbrev pub new_hostname_cache : HostnameCache
new_hostname_cache = []

-- What happens to a call: the time at its check of the map; whether it leads its flight, with what
-- `LookupHost` then returns and the time behind it, or joins the flight of another, which returns
-- this; and whether its own context is cancelled at the end.
pub data Flight : Type 0 where
  leads : (found : Option (List Text)) → (behind : ℕ) → Flight
  joins : Result HostError Text → Flight

-- `ips[0]`
abbrev pub first_ip : List Text → Result HostError Text
first_ip [] = err out_of_range
first_ip (ip ∷ ips) = ok ip

-- The function that the leader of a flight runs.
unfoldable pub resolve :
    HostnameCache → Text → ℕ → Option (List Text) → ℕ → HostnameCache × Result HostError Text
resolve c host ttl none behind = (c, err resolve_failed)
resolve c host ttl (some []) behind = (c, err no_addresses)
resolve c host ttl (some (ip ∷ ips)) behind =
    (insert host (record { ips = ip ∷ ips; exp = behind + ttl }) c, ok ip)

-- The check of the caller's own context behind the flight.
abbrev pub unless_cancelled : Bool → Result HostError Text → Result HostError Text
unless_cancelled gone (err e) = err e
unless_cancelled gone (ok ip) = if gone then err cancelled else ok ip

-- `lookup` behind the fast path
unfoldable pub fly :
    HostnameCache → Text → ℕ → Flight → Bool → HostnameCache × Result HostError Text
fly c host ttl (joins r) gone = (c, unless_cancelled gone r)
fly c host ttl (leads found behind) gone =
    let (d, r) = resolve c host ttl found behind in (d, unless_cancelled gone r)

module _ (I : IpLib) where
  -- `lookup`
  unfoldable pub lookup_host :
      HostnameCache → Text → ℕ → ℕ → Flight → Bool → HostnameCache × Result HostError Text
  lookup_host c host ttl now flight gone = elim (I.parse_ip host) [
    | some ip ↦ (c, ok host)
    | none ↦ elim (lookup host c) [
      | none ↦ fly c host ttl flight gone
      | some e ↦ if ltb now e.exp then (c, first_ip e.ips) else fly c host ttl flight gone
    ]
  ]

  -- The address that `dial` of a DoT client connects to: `expired` is its check of the context.
  unfoldable pub dial_address :
      HostnameCache → Text → Text → Bool → ℕ → Flight → Bool → HostnameCache × Result HostError Text
  dial_address c host port expired now flight gone = elim (I.parse_ip host) [
    | some ip ↦ (c, ok (join_host_port host port))
    | none ↦
        if expired
        then (c, err cancelled)
        else let (d, r) = lookup_host c host default_hostname_ttl now flight gone in
          (d, r >>= λ ip. ok (join_host_port ip port))
  ]

  -- The address that `DialContext` of a DoH client with a bootstrap resolver connects to.
  unfoldable pub dial_context :
      HostnameCache → Text → ℕ → Flight → Bool → HostnameCache × Result HostError Text
  dial_context c addr now flight gone = elim (split_host_port addr) [
    | err e ↦ (c, ok addr)
    | ok (host, port) ↦ elim (I.parse_ip host) [
      | some ip ↦ (c, ok addr)
      | none ↦
          let (d, r) = lookup_host c host default_hostname_ttl now flight gone in
          (d, r >>= λ ip. ok (join_host_port ip port))
    ]
  ]

-- The loop of `Dial` of `NewBootstrapResolver`: `dials` is what dialing an address gives. The second
-- part is `lastErr`.
unfoldable pub dial_servers {ℓ κ} :
    {C : Type ℓ} {E : Type κ} → (Text → Result E C) → List Text → Option E → Result (Option E) C
dial_servers dials [] last = err last
dial_servers dials (ip ∷ ips) last = elim (dials (join_host_port ip (codes "53"))) [
  | ok c ↦ ok c
  | err e ↦ dial_servers dials ips (some e)
]

-- `NewBootstrapResolver`: none is the system's resolver.
unfoldable pub new_bootstrap_resolver {ℓ κ} :
    {C : Type ℓ} {E : Type κ}
    → (Text → Result E C)
    → List Text
    → Option (Unit {0} → Result (Option E) C)
new_bootstrap_resolver dials [] = none
new_bootstrap_resolver dials (ip ∷ ips) = some (λ _. dial_servers dials (ip ∷ ips) none)
