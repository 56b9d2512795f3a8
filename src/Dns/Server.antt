-- ===== src/Dns/Server.antt =====
-- `ServeDNS` and `applyEDNSTruncation` of dns/server.go.
pub mod Replies
pub mod Keeps
use zeus_dns_cli.Base.{
  is_empty, ℕ, Bool, true, false, ◌&&◌, not, Option, none, some, List, [], ◌∷◌, ltb, if◌then◌else◌,
  Text, Result, ok, err,
}
use zeus_dns_cli.Net.{split_host_port}
use zeus_dns_cli.Dns.Message.{Msg, DnsLib, rcode_format_error, rcode_refused, rcode_server_failure}
use zeus_dns_cli.Dns.Cache.{Cache, get}
use zeus_dns_cli.Dns.RateLimit.{IpRateLimiter, allow}
use zeus_dns_cli.Dns.Race.{Answer, RaceError, resolve_race}

-- The fields of `Server` that handling a query reads or writes.
pub record Server (Rr : Type 0) : Type 0 where
  pub cache : Cache Rr
  pub rate_l : Option IpRateLimiter

-- `s.sf.Do(key, ...)`: the call is the first with its key and runs the race, whose answers come in
-- this order, or it waits for one that runs already and shares its result.
pub data Flight (E Rr : Type 0) : Type 0 where
  leads : List (ℕ × Answer E Rr) → Flight E Rr
  joins : Result (RaceError E) (Msg Rr) → Flight E Rr

abbrev pub max_accepted_msg_size : ℕ
max_accepted_msg_size = 4096

-- The rate limit: `true` if the source is to be refused. An address that is not `host:port`, and a
-- writer or server without one, pass.
unfoldable pub over_limit : {Rr : Type 0} → Server Rr → Option Text → ℕ → Server Rr × Bool
over_limit s remote now = elim s.rate_l [
  | none ↦ (s, false)
  | some rl ↦ elim remote [
    | none ↦ (s, false)
    | some addr ↦ elim (split_host_port addr) [
      | err e ↦ (s, false)
      | ok (host, port) ↦
          if is_empty host
          then (s, false)
          else (let (rl', allowed) = allow rl host now in
              (record s { rate_l = some rl' }, not allowed))
    ]
  ]
]

module _ (L : DnsLib) where
  -- The size that the client accepts over UDP.
  unfoldable pub udp_size : Msg L.Rr → ℕ
  udp_size query = elim (L.is_edns0 query) [
    | none ↦ 512
    | some opt ↦ if ltb 512 (L.opt_udp_size opt) then L.opt_udp_size opt else 512
  ]

  -- `applyEDNSTruncation`
  unfoldable pub apply_edns_truncation : Msg L.Rr → Msg L.Rr → Msg L.Rr
  apply_edns_truncation query resp =
      if ltb (udp_size query) (L.msg_len resp)
      then record resp { truncated = true; extra = [] }
      else resp

  -- The end of `ServeDNS`, from the result of the flight on.
  unfoldable pub reply_of : {E : Type 0} → Msg L.Rr → Result (RaceError E) (Msg L.Rr) → Msg L.Rr
  reply_of r (err e) = L.set_rcode r rcode_server_failure
  reply_of r (ok resp) = apply_edns_truncation r (record resp { id = r.id })

  -- The cache miss: the flight.
  unfoldable pub fly :
      {E : Type 0} → Server L.Rr → Msg L.Rr → ℕ → Flight E L.Rr → Server L.Rr × List (Msg L.Rr)
  fly s r now (joins result) = (s, reply_of r result ∷ [])
  fly s r now (leads arrivals) =
      let (cache, result) = resolve_race L s.cache r now arrivals in
      (record s { cache = cache }, reply_of r result ∷ [])

  -- `ServeDNS`: the server afterwards, and the messages written. `remote` is the client's address,
  -- `now` the time.
  unfoldable pub serve_dns :
      {E : Type 0}
      → Server L.Rr
      → Option Text
      → ℕ
      → Flight E L.Rr
      → Msg L.Rr
      → Server L.Rr × List (Msg L.Rr)
  serve_dns s remote now flight r =
      if ltb max_accepted_msg_size (L.msg_len r)
      then (s, L.set_rcode r rcode_format_error ∷ [])
      else (let (s', refused) = over_limit s remote now in
          if refused then (s', L.set_rcode r rcode_refused ∷ []) else elim r.question [
            | [] ↦ (s', L.set_rcode r rcode_server_failure ∷ [])
            | _ ∷ _ ↦
                let (cache, cached) = get L s'.cache r now in
                let s'' : Server L.Rr = record s' { cache = cache } in
                elim cached [
                  | some m ↦ (s'', apply_edns_truncation r m ∷ [])
                  | none ↦ fly s'' (record r { recursion_desired = true }) now flight
                ]
          ])
