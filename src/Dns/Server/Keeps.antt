-- ===== src/Dns/Server/Keeps.antt =====
-- What `ServeDNS` of dns/server.go keeps, and what a client asks again.
use zeus_dns_cli.Base.{
  ℕ, ◌+◌, ◌*◌, ◌≤◌, ◌<◌, ◌≡◌, refl, ◌∙◌, ap, List-cases, ◌≢◌, ◌⊎◌, inl, inr, true, false, Option,
  none, some, List, [], ◌∷◌, arith, ltb, le→ltb, Text, Result-cases, ok, Bool-cases, Option-cases,
}
use mathlib.Core.Path.{subst, sym}
use zeus_dns_cli.Base.Int.{to_ℕ}
use zeus_dns_cli.Dns.Message.{Question, Msg, DnsLib, IsReply, rcode_format_error, rcode_refused}
use zeus_dns_cli.Dns.Ttl.{clamp_ttl}
use zeus_dns_cli.Dns.Cache.{Cache, second, get, put, cache_key, is_cacheable, raw_ttl}
use zeus_dns_cli.Dns.Cache.Spec.{IsValid}
use zeus_dns_cli.Dns.Cache.Runs.{get-put-IsValid}
use zeus_dns_cli.Dns.Cache.Lifetime.{get-put}
use zeus_dns_cli.Dns.Race.{Answer, race_loop, resolve_race}
use zeus_dns_cli.Dns.Server.{
  Server, Flight, leads, joins, max_accepted_msg_size, over_limit, udp_size, apply_edns_truncation,
  fly, serve_dns,
}

over_limit-cache :
    {Rr : Type 0} (s : Server Rr) (remote : Option Text) (now : ℕ)
    → (over_limit s remote now).0.cache ≡ s.cache
unfolding over_limit
over_limit-cache s remote now = ground arith

module _ (L : DnsLib) where
  resolve_race-IsValid :
      {E : Type 0} (c : Cache L.Rr) (r : Msg L.Rr) (now : ℕ) (arrivals : List (ℕ × Answer E L.Rr))
      → IsValid c
      → IsValid (resolve_race L c r now arrivals).0
  unfolding resolve_race
  resolve_race-IsValid c r now arrivals v = elim (Result-cases (race_loop L none arrivals)) [
    | inl (m, won) ↦ rw (won, resolve_race) (get-put-IsValid L c r m now v).1
    | inr (e, lost) ↦ rw (lost, resolve_race) v
  ]

  fly-IsValid :
      {E : Type 0} (s : Server L.Rr) (r : Msg L.Rr) (now : ℕ) (flight : Flight E L.Rr)
      → IsValid s.cache
      → IsValid (fly L s r now flight).0.cache
  unfolding fly
  fly-IsValid s r now (joins result) v = v
  fly-IsValid s r now (leads arrivals) v = resolve_race-IsValid s.cache r now arrivals v

  -- Handling a query keeps the invariant of the cache, on every branch.
  serve_dns-IsValid :
      {E : Type 0} (s : Server L.Rr) (remote : Option Text) (now : ℕ) (flight : Flight E L.Rr)
      (r : Msg L.Rr)
      → IsValid s.cache
      → IsValid (serve_dns L s remote now flight r).0.cache
  unfolding serve_dns
  serve_dns-IsValid s remote now flight r v =
      elim (Bool-cases (ltb max_accepted_msg_size (L.msg_len r))) [
        | inl big ↦ rw (big, serve_dns) v
        | inr small ↦
            let v' = subst IsValid (sym (over_limit-cache s remote now)) v in
            elim (Bool-cases (over_limit s remote now).1) [
              | inl over ↦ rw (small, over, serve_dns) v'
              | inr under ↦ elim (List-cases r.question) [
                | inl bare ↦ rw (small, under, bare, serve_dns) v'
                | inr (qu, more, asks) ↦
                    let v'' = (get-put-IsValid L (over_limit s remote now).0.cache r r now v').0 in
                    elim (Option-cases (get L (over_limit s remote now).0.cache r now).1) [
                      | inl miss ↦
                          rw (small, under, asks, miss, serve_dns) (fly-IsValid _ _ now flight v'')
                      | inr (m, hit) ↦ rw (small, under, asks, hit, serve_dns) v''
                    ]
              ]
            ]
      ]

  -- A query that is too long, and one of a source over its limit, is turned away by one
  -- reply that says format error or refused, before the cache or an upstream is asked: the cache is
  -- as it was.
  serve_dns_turned_away :
      {E : Type 0} (lib : IsReply L) (s : Server L.Rr) (remote : Option Text) (now : ℕ)
      (flight : Flight E L.Rr) (r : Msg L.Rr)
      → (max_accepted_msg_size < L.msg_len r) ⊎ ((over_limit s remote now).1 ≡ true)
      → ((serve_dns L s remote now flight r).0.cache ≡ s.cache)
        × ((m : Msg L.Rr) × ((serve_dns L s remote now flight r).1 ≡ m ∷ [])
            × ((m.rcode ≡ rcode_format_error) ⊎ (m.rcode ≡ rcode_refused)))
  unfolding serve_dns
  serve_dns_turned_away lib s remote now flight r cause =
      elim (Bool-cases (ltb max_accepted_msg_size (L.msg_len r))) [
        | inl big ↦
            rw (big, serve_dns) (refl, (_, refl, inl (lib.set_rcode-rcode r rcode_format_error)))
        | inr small ↦ elim cause [
          | inl big ↦ absurd (ground arith)
          | inr over ↦
              rw (small, over, serve_dns)
                (
                  over_limit-cache s remote now,
                  (_, refl, inr (lib.set_rcode-rcode r rcode_refused)),
                )
        ]
      ]

  udp_size-ge : (query : Msg L.Rr) → 512 ≤ udp_size L query
  unfolding udp_size
  udp_size-ge query = ground arith

  fly-won :
      {E : Type 0} (s : Server L.Rr) (r m : Msg L.Rr) (t : ℕ) (arrivals : List (ℕ × Answer E L.Rr))
      → race_loop L none arrivals ≡ ok m
      → (fly L s r t (leads arrivals)).0.cache ≡ put L s.cache r m t
  unfolding fly resolve_race
  fly-won s r m t arrivals won = rw (won, resolve_race)

  asks_of_key :
      (r : Msg L.Rr) (k : Text)
      → cache_key L r ≡ some k
      → (qu : Question) × (more : List Question) × (r.question ≡ qu ∷ more)
  unfolding cache_key
  asks_of_key r k key = elim (List-cases r.question) [
    | inl bare ↦ absurd (ground arith)
    | inr asks ↦ asks
  ]

  -- A reply as it is written either fits the size that the client accepts, which is 512 bytes or
  -- more, and is complete, or it has its truncation bit set and its additional section left out.
  truncation_lem :
      (query resp : Msg L.Rr)
      → (512 ≤ udp_size L query)
        × (((apply_edns_truncation L query resp ≡ resp) × (L.msg_len resp ≤ udp_size L query))
            ⊎ (((apply_edns_truncation L query resp).truncated ≡ true)
                × ((apply_edns_truncation L query resp).extra ≡ [])
                × ((apply_edns_truncation L query resp).answer ≡ resp.answer)))
  unfolding apply_edns_truncation
  truncation_lem query resp = (
    udp_size-ge query,
    elim (Bool-cases (ltb (udp_size L query) (L.msg_len resp))) [
      | inl long ↦ inr (rw (long, apply_edns_truncation) (refl, refl, refl))
      | inr fits ↦ inl (rw (fits, apply_edns_truncation) (refl, ground arith))
    ],
  )

  -- A response that won a race is answered from the cache to whoever asks again: with a valid cache
  -- of at least one entry, after a miss that led a race won by a cacheable response with a TTL, a
  -- second query with the same key, within its size and rate limit, gets that response under its own
  -- id until the clamped TTL is over, whatever its flight would have brought.
  pub serve_dns_again :
      {E : Type 0} (s : Server L.Rr) (remote : Option Text) (t now : ℕ)
      (arrivals : List (ℕ × Answer E L.Rr)) (flight : Flight E L.Rr) (r r' m : Msg L.Rr) (k : Text)
      → IsValid s.cache
      → 0 < to_ℕ s.cache.size
      → race_loop L none arrivals ≡ ok m
      → is_cacheable m.rcode ≡ true
      → raw_ttl L m ≢ 0
      → cache_key L r ≡ some k
      → cache_key L r' ≡ some k
      → L.msg_len r' ≤ max_accepted_msg_size
      → (over_limit (fly L s r t (leads arrivals)).0 remote now).1 ≡ false
      → now ≤ t + clamp_ttl (raw_ttl L m) * second
      → (serve_dns L (fly L s r t (leads arrivals)).0 remote now flight r').1
        ≡ apply_edns_truncation L r' (record m { id = r'.id }) ∷ []
  unfolding serve_dns
  serve_dns_again s remote t now arrivals flight r r' m k v room won kept timed key key' short under
        d =
      let s' = (fly L s r t (leads arrivals)).0 in
      let same : (over_limit s' remote now).0.cache ≡ put L s.cache r m t =
        over_limit-cache s' remote now ∙ fly-won s r m t arrivals won in
      let hit : (get L (over_limit s' remote now).0.cache r' now).1
          ≡ some (record m { id = r'.id }) =
        ap (λ c. (get L c r' now).1) same
        ∙ get-put L s.cache r r' m k t now v room kept timed key key'
        ∙ rw (le→ltb _ _ d) in
      let (qu, more, asks) = asks_of_key r' k key' in
      let small : ltb max_accepted_msg_size (L.msg_len r') ≡ false = ground arith in
      simp (small, under, asks, hit, serve_dns)
