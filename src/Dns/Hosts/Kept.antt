-- ===== src/Dns/Hosts/Kept.antt =====
-- `hostnameCache` of dns/resolver_cache.go: what it keeps, and for how long.
use zeus_dns_cli.Base.{
  ℕ, ◌+◌, ◌≡◌, ◌≢◌, ◌⊎◌, refl, inl, inr, Bool, true, false, Option, none, some, List, [], ◌∷◌,
  arith, ltb, Text, text_eq, lookup, lookup-insert, Option-cases, Bool-cases, Result, ok, err,
}
use zeus_dns_cli.Net.{IpLib}
use zeus_dns_cli.Dns.Hosts.{
  HostError, out_of_range, CachedIps, HostnameCache, Flight, leads, joins, first_ip, resolve,
  unless_cancelled, fly, lookup_host,
}

-- Every entry has an address.
abbrev pub IsFilled : HostnameCache → Type 0
IsFilled c = (host : Text) (e : CachedIps) → lookup host c ≡ some e → e.ips ≢ []

-- A flight that another call led did not panic.
abbrev pub IsSafe : Flight → Type 0
IsSafe (leads found behind) = Unit {0}
IsSafe (joins r) = r ≢ err out_of_range

resolve-IsFilled :
    (c : HostnameCache) (host : Text) (ttl : ℕ) (found : Option (List Text)) (behind : ℕ)
    → IsFilled c
    → IsFilled (resolve c host ttl found behind).0
unfolding resolve
resolve-IsFilled c host ttl none behind v = v
resolve-IsFilled c host ttl (some []) behind v = v
resolve-IsFilled c host ttl (some (ip ∷ ips)) behind v = λ other e h.
    elim (Bool-cases (text_eq host other)) [
      | inl same ↦
          ground (arith, lookup-insert other host (record { ips = ip ∷ ips; exp = behind + ttl }) c)
      | inr apart ↦ v other e (
          ground
            (arith, lookup-insert other host (record { ips = ip ∷ ips; exp = behind + ttl }) c))
    ]

first_ip-safe : (ips : List Text) → ips ≢ [] → first_ip ips ≢ err out_of_range
first_ip-safe [] h = absurd (h refl)
first_ip-safe (ip ∷ ips) h = λ e. cc

resolve-safe :
    (c : HostnameCache) (host : Text) (ttl : ℕ) (found : Option (List Text)) (behind : ℕ)
    → (resolve c host ttl found behind).1 ≢ err out_of_range
unfolding resolve
resolve-safe c host ttl none behind = λ e. cc
resolve-safe c host ttl (some []) behind = λ e. cc
resolve-safe c host ttl (some (ip ∷ ips)) behind = λ e. cc

unless_cancelled-safe :
    (gone : Bool) (r : Result HostError Text)
    → r ≢ err out_of_range
    → unless_cancelled gone r ≢ err out_of_range
unless_cancelled-safe gone (err e) h = h
unless_cancelled-safe true (ok ip) h = λ e. cc
unless_cancelled-safe false (ok ip) h = h

abbrev Fine : HostnameCache × Result HostError Text → Type 0
Fine (c, r) = IsFilled c × (r ≢ err out_of_range)

fly-Fine :
    (c : HostnameCache) (host : Text) (ttl : ℕ) (flight : Flight) (gone : Bool)
    → IsFilled c
    → IsSafe flight
    → Fine (fly c host ttl flight gone)
unfolding fly
fly-Fine c host ttl (joins r) gone v h = (v, unless_cancelled-safe gone r h)
fly-Fine c host ttl (leads found behind) gone v h = (
  resolve-IsFilled c host ttl found behind v,
  unless_cancelled-safe gone _ (resolve-safe c host ttl found behind),
)

module _ (I : IpLib) where
  -- A lookup never panics: every entry of the map keeps at least one address, also where the
  -- resolver returns none, and so the first one can be read, whatever the flight brings that it
  -- leads or joins, if the joined one did not panic.
  pub lookup_host-Fine :
      (c : HostnameCache) (host : Text) (ttl now : ℕ) (flight : Flight) (gone : Bool)
      → IsFilled c
      → IsSafe flight
      → IsFilled (lookup_host I c host ttl now flight gone).0
        × ((lookup_host I c host ttl now flight gone).1 ≢ err out_of_range)
  unfolding lookup_host
  lookup_host-Fine c host ttl now flight gone v h = elim (Option-cases (I.parse_ip host)) [
    | inr (ip, e) ↦ rw (e, lookup_host) (v, λ q. cc)
    | inl e ↦ elim (Option-cases (lookup host c)) [
      | inl n ↦ rw (e, n, lookup_host) (fly-Fine c host ttl flight gone v h)
      | inr (entry, s) ↦ elim (Bool-cases (ltb now entry.exp)) [
        | inl fresh ↦ rw (e, s, fresh, lookup_host) (v, first_ip-safe entry.ips (v host entry s))
        | inr old ↦ rw (e, s, old, lookup_host) (fly-Fine c host ttl flight gone v h)
      ]
    ]
  ]

  -- The map has no fresh entry of the host.
  abbrev pub Misses : HostnameCache → Text → ℕ → Type 0
  Misses c host now =
      (lookup host c ≡ none)
      ⊎ ((e : CachedIps) × (lookup host c ≡ some e) × (ltb now e.exp ≡ false))
