-- ===== src/Dns/Lifecycle.antt =====
-- The life of `Server` of dns/server.go: `Listen`, `Serve`, `PreWarm` and `Stop`, by what they do to
-- the sockets and the clients, in order.
pub mod Stops
use zeus_dns_cli.Base.{
  ℕ, zero, suc, ◌+◌, Bool, true, false, ◌&&◌, not, Option, none, some, List, [], ◌∷◌, ◌++◌,
  if◌then◌else◌, Text, Result, ok, err,
}
use zeus_dns_cli.Net.{IpLib}

-- The kinds of clients: a DoT client has a pool.
pub data Client : Type 0 where
  doh dot : Client

-- The fields of `Server` that these methods read: its clients; whether `Listen` has made the two
-- listeners; whether `Serve` has set `serveCancel`; and `stopOnce`.
pub record Server : Type 0 where
  pub exchangers : List Client
  pub udp : Bool
  pub tcp : Bool
  pub serving : Bool
  pub stop_once : Bool

pub data Effect : Type 0 where
  udp_bound udp_closed tcp_bound : Effect
  pool_closed : (i : ℕ) → Effect
  cancelled udp_shut tcp_shut : Effect

pub data ListenError : Type 0 where
  udp_bind tcp_bind : ListenError

-- `Listen`: whether the two binds succeed.
unfoldable pub listen : Bool → Bool → Server → Result ListenError (Unit {0}) × Server × List Effect
listen binds_udp binds_tcp s =
    if not binds_udp
    then (err udp_bind, s, [])
    else if not binds_tcp
    then (err tcp_bind, s, udp_bound ∷ udp_closed ∷ [])
    else (ok tt, record s { udp = true; tcp = true }, udp_bound ∷ tcp_bound ∷ [])

-- The loop over the clients in `Stop`, from the `i`-th on.
unfoldable pub close_pools : ℕ → List Client → List Effect
close_pools i [] = []
close_pools i (doh ∷ cs) = close_pools (i + 1) cs
close_pools i (dot ∷ cs) = pool_closed i ∷ close_pools (i + 1) cs

abbrev pub when : Bool → Effect → List Effect
when b e = if b then e ∷ [] else []

-- `Stop`
unfoldable pub stop : Server → Server × List Effect
stop s = if s.stop_once then (s, []) else (
  record s { stop_once = true },
  close_pools 0 s.exchangers
      ++ (when s.serving cancelled ++ (when s.udp udp_shut ++ when s.tcp tcp_shut)),
)

-- What the `select` of `Serve` takes: the end of the context, or what a listener returned.
pub data End (E : Type 0) : Type 0 where
  context_done : End E
  returned : Option E → End E

abbrev pub result_of : {E : Type 0} → End E → Result E (Unit {0})
result_of context_done = ok tt
result_of (returned none) = ok tt
result_of (returned (some e)) = err e

-- `Serve`, with its deferred cancel at the end
unfoldable pub serve : {E : Type 0} → End E → Server → Result E (Unit {0}) × Server × List Effect
serve end s =
    let (stopped, effects) = stop (record s { serving = true }) in
    (result_of end, stopped, effects ++ (cancelled ∷ []))

-- What `PreWarm` logs for a client: `warmed` is what `WarmPool` returns, `answer` what the exchange
-- of its query gives.
pub data Warmth (E : Type 0) : Type 0 where
  warm : Warmth E
  pool_failed query_failed : E → Warmth E
  nil_response : Warmth E

unfoldable pub pre_warm_one : {E R : Type 0} → Client → Option E → Result E (Option R) → Warmth E
pre_warm_one dot none answer = warm
pre_warm_one dot (some e) answer = pool_failed e
pre_warm_one doh warmed (err e) = query_failed e
pre_warm_one doh warmed (ok none) = nil_response
pre_warm_one doh warmed (ok (some r)) = warm

-- `checkExposed`: whether the warning is given.
unfoldable pub check_exposed : (I : IpLib) → Text → Bool
check_exposed I listener_ip = elim (I.parse_ip listener_ip) [
  | none ↦ false
  | some ip ↦ not (I.is_loopback ip)
]
