-- ===== src/Dns/Race.antt =====
-- `resolveRace` of dns/server.go: the results of all upstreams, in the order in which they come
-- off the channel.
pub mod First
use zeus_dns_cli.Base.{
  ℕ, Bool, true, false, Option, none, some, List, [], ◌∷◌, ◌==◌, if◌then◌else◌, Result, ok, err,
}
use zeus_dns_cli.Dns.Message.{Msg, DnsLib, rcode_server_failure}
use zeus_dns_cli.Dns.Cache.{Cache, put}

-- What `ex.Exchange` returns: an error, no error and no message, or a message.
pub data Answer (E Rr : Type 0) : Type 0 where
  failed : E → Answer E Rr
  nothing : Answer E Rr
  reply : Msg Rr → Answer E Rr

pub data RaceError (E : Type 0) : Type 0 where
  upstream_error : E → RaceError E
  all_empty : RaceError E

-- `if firstErr == nil { firstErr = res.err }`
abbrev pub keep_first : {E : Type 0} → Option E → E → Option E
keep_first none e = some e
keep_first (some first_err) e = some first_err

module _ {E : Type 0} (L : DnsLib) where
  -- The loop over the channel, with `firstErr`.
  unfoldable pub race_loop : Option E → List (ℕ × Answer E L.Rr) → Result (RaceError E) (Msg L.Rr)
  race_loop none [] = err all_empty
  race_loop (some e) [] = err (upstream_error e)
  race_loop first_err ((i, failed e) ∷ rest) = race_loop (keep_first first_err e) rest
  race_loop first_err ((i, nothing) ∷ rest) = race_loop first_err rest
  race_loop first_err ((i, reply m) ∷ rest) = elim (m.rcode == rcode_server_failure) [
    | true ↦ race_loop first_err rest
    | false ↦ ok m
  ]

  -- The race for the request `r` that is decided at the time `now`; the winner is cached.
  unfoldable pub resolve_race :
      Cache L.Rr
      → Msg L.Rr
      → ℕ
      → List (ℕ × Answer E L.Rr)
      → Cache L.Rr × Result (RaceError E) (Msg L.Rr)
  unfolding race_loop
  resolve_race c r now arrivals = elim (race_loop none arrivals) [
    | ok m ↦ (put L c r m now, ok m)
    | err e ↦ (c, err e)
  ]
