-- ===== src/Dns/Ttl.antt =====
-- `minTTL` and `negativeTTL` of dns/cache.go.
pub mod Bounds
use zeus_dns_cli.Base.{
  ℕ, Bool, true, false, ◌||◌, Option, none, some, List, [], ◌∷◌, ◌++◌, ltb, if◌then◌else◌,
}
use zeus_dns_cli.Dns.Message.{Msg, DnsLib}

-- The clamp to 30 seconds and one hour that `negativeTTL` and `Put` write out.
unfoldable pub clamp_ttl : ℕ → ℕ
clamp_ttl ttl = let low = if ltb ttl 30 then 30 else ttl in if ltb 3600 low then 3600 else low

module _ (L : DnsLib) where
  -- The loop of `minTTL`, over the variables `first` and `min`.
  unfoldable pub min_ttl_loop : Bool → ℕ → List L.Rr → ℕ
  min_ttl_loop first least [] = least
  min_ttl_loop first least (rr ∷ rrs) = elim (first || ltb (L.ttl rr) least) [
    | true ↦ min_ttl_loop false (L.ttl rr) rrs
    | false ↦ min_ttl_loop first least rrs
  ]

  unfoldable pub min_ttl : Msg L.Rr → ℕ
  unfolding min_ttl_loop
  min_ttl r = min_ttl_loop true 0 ((r.answer ++ r.ns) ++ r.extra)

  -- The body of the loop of `negativeTTL` at a SOA record with header TTL `ttl`.
  unfoldable pub soa_ttl : ℕ → ℕ → ℕ
  unfolding clamp_ttl
  soa_ttl ttl minttl = clamp_ttl (if ltb minttl ttl then minttl else ttl)

  unfoldable pub negative_ttl_loop : List L.Rr → ℕ
  unfolding soa_ttl
  negative_ttl_loop [] = 0
  negative_ttl_loop (rr ∷ rrs) = elim (L.soa_minttl rr) [
    | none ↦ negative_ttl_loop rrs
    | some minttl ↦ soa_ttl (L.ttl rr) minttl
  ]

  unfoldable pub negative_ttl : Msg L.Rr → ℕ
  unfolding negative_ttl_loop
  negative_ttl r = negative_ttl_loop r.ns
