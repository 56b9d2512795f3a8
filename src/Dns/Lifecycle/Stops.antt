-- ===== src/Dns/Lifecycle/Stops.antt =====
-- `Listen`, `Serve` and `Stop` of dns/server.go: what is left open, and what is closed when.
use zeus_dns_cli.Base.{◌≡◌, refl, true, false, [], ◌∷◌, ◌++◌}
use zeus_dns_cli.Dns.Lifecycle.{
  Server, cancelled, udp_shut, tcp_shut, close_pools, stop, End, result_of, serve,
}

-- The server of a `Listen` that succeeded, before its `Stop`.
abbrev pub IsListening : Server → Type 0
IsListening s = (s.udp ≡ true) × (s.tcp ≡ true) × (s.stop_once ≡ false)

-- `Serve` of a server that listens ends the same way whether its context ends or a listener
-- returns: the pools of all DoT clients are closed, then the context of the queries is cancelled
-- and both listeners are shut down, each once. Any later `Stop` does nothing, and the error of a
-- listener is returned.
pub serve-Stops :
    {E : Type 0} (end : End E) (s : Server)
    → IsListening s
    → ((serve end s).0 ≡ result_of end)
      × ((serve end s).2
          ≡ close_pools 0 s.exchangers
            ++ (cancelled ∷ udp_shut ∷ tcp_shut ∷ [])
            ++ (cancelled ∷ []))
      × ((stop (serve end s).1).1 ≡ [])
unfolding serve stop
serve-Stops end s (u, t, o) = simp (u, t, o, serve, stop) (refl, refl, refl)
