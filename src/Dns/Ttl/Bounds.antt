-- ===== src/Dns/Ttl/Bounds.antt =====
-- What the two TTL functions of dns/cache.go compute.
use zeus_dns_cli.Base.{
  ℕ, ◌≤◌, ◌≡◌, refl, sym, ◌≢◌, ◌⊎◌, inl, inr, true, false, none, List, [], ◌∷◌, ◌++◌, arith, All,
  Any, Option-cases, Bool-cases, ltb, if◌then◌else◌,
}
use zeus_dns_cli.Dns.Message.{Msg, DnsLib}
use zeus_dns_cli.Dns.Ttl.{clamp_ttl, min_ttl_loop, min_ttl, negative_ttl_loop, negative_ttl}

pub clamp_ttl_bounds : (t : ℕ) → (30 ≤ clamp_ttl t) × (clamp_ttl t ≤ 3600)
unfolding clamp_ttl
clamp_ttl_bounds t = ground arith

pub clamp_ttl_id : (t : ℕ) → 30 ≤ t → t ≤ 3600 → clamp_ttl t ≡ t
unfolding clamp_ttl
clamp_ttl_id t h k = ground arith

module _ (L : DnsLib) where
  -- The loop after its first record: the result is no greater than `least` and all that follow,
  -- and it is one of these.
  min_ttl_loop_least :
      (m least : ℕ) (rrs : List L.Rr)
      → m ≡ min_ttl_loop L false least rrs
      → (m ≤ least) × All (λ rr. m ≤ L.ttl rr) rrs
  unfolding min_ttl_loop
  min_ttl_loop_least m least [] e = (omega arith, tt)
  min_ttl_loop_least m least (rr ∷ rrs) e = elim (Bool-cases (ltb (L.ttl rr) least)) [
    | inl less ↦
        let (below, rest) = min_ttl_loop_least m (L.ttl rr) rrs (ground arith) in
        (ground arith, (below, rest))
    | inr more ↦
        let (below, rest) = min_ttl_loop_least m least rrs (ground arith) in
        (below, (ground arith, rest))
  ]

  min_ttl_loop_attained :
      (m least : ℕ) (rrs : List L.Rr)
      → m ≡ min_ttl_loop L false least rrs
      → (least ≡ m) ⊎ Any (λ rr. L.ttl rr ≡ m) rrs
  unfolding min_ttl_loop
  min_ttl_loop_attained m least [] e = inl (sym e)
  min_ttl_loop_attained m least (rr ∷ rrs) e = elim (Bool-cases (ltb (L.ttl rr) least)) [
    | inl less ↦ inr (min_ttl_loop_attained m (L.ttl rr) rrs (ground arith))
    | inr more ↦ elim (min_ttl_loop_attained m least rrs (ground arith)) [
      | inl here ↦ inl here
      | inr there ↦ inr (inr there)
    ]
  ]

  -- The TTL of a response with records is the least among all records of its three sections: no
  -- record has a smaller one, and some record has it.
  pub min_ttl_least :
      (r : Msg L.Rr)
      → (r.answer ++ r.ns) ++ r.extra ≢ []
      → All (λ rr. min_ttl L r ≤ L.ttl rr) ((r.answer ++ r.ns) ++ r.extra)
        × Any (λ rr. L.ttl rr ≡ min_ttl L r) ((r.answer ++ r.ns) ++ r.extra)
  unfolding min_ttl min_ttl_loop
  min_ttl_least r = go ((r.answer ++ r.ns) ++ r.extra)
    where
      go :
          (rrs : List L.Rr)
          → rrs ≢ []
          → All (λ rr. min_ttl_loop L true 0 rrs ≤ L.ttl rr) rrs
            × Any (λ rr. L.ttl rr ≡ min_ttl_loop L true 0 rrs) rrs
      go [] h = absurd (h refl)
      go (rr ∷ rrs) h =
          (min_ttl_loop_least _ (L.ttl rr) rrs refl, min_ttl_loop_attained _ (L.ttl rr) rrs refl)

  abbrev pub IsSoa : L.Rr → Type 0
  IsSoa rr = L.soa_minttl rr ≢ none

  -- The negative TTL lies between 30 seconds and an hour if the authority section has a SOA
  -- record, and it is 0 if there is none.
  negative_ttl_bounds :
      (r : Msg L.Rr)
      → (Any IsSoa r.ns × (30 ≤ negative_ttl L r) × (negative_ttl L r ≤ 3600))
        ⊎ (All (λ rr. ¬ IsSoa rr) r.ns × (negative_ttl L r ≡ 0))
  unfolding negative_ttl
  negative_ttl_bounds r = go r.ns
    where
      go :
          (rrs : List L.Rr)
          → (Any IsSoa rrs × (30 ≤ negative_ttl_loop L rrs) × (negative_ttl_loop L rrs ≤ 3600))
            ⊎ (All (λ rr. ¬ IsSoa rr) rrs × (negative_ttl_loop L rrs ≡ 0))
      go [] = inr (tt, refl)
      go (rr ∷ rrs) = elim (Option-cases (L.soa_minttl rr)) [
        | inl other ↦ elim (go rrs) [
          | inl (a, b, c) ↦
              inl (inr a, rw (other, negative_ttl_loop) b, rw (other, negative_ttl_loop) c)
          | inr (a, b) ↦ inr ((λ h. h other, a), rw (other, negative_ttl_loop) b)
        ]
        | inr (t, soa) ↦
            let bounds = clamp_ttl_bounds (if ltb t (L.ttl rr) then t else L.ttl rr) in
            inl (
              inl (λ h. cc),
              rw (soa, negative_ttl_loop) bounds.0,
              rw (soa, negative_ttl_loop) bounds.1,
            )
      ]
