-- ===== src/Dns/Upstream.antt =====
-- `Upstream` of dns/upstream.go: the reading and the checks of a resolver's address, and the list
-- of upstreams that `NewServer` of dns/server.go makes.
pub mod Server
use zeus_dns_cli.Base.{
  is_empty, ℕ, Bool, true, false, ◌||◌, not, Option, none, some, List, [], ◌∷◌, ◌==◌, if◌then◌else◌,
  Text, codes, text_eq, has_prefix, to_lower, trim_space, drop, Result, ok, err, ◌>>=◌, ◌>>◌, guard,
  wrap_err,
}
use zeus_dns_cli.Net.{AddrError, split_host_port, join_host_port, IpLib, Url}

pub data Protocol : Type 0 where
  doh dot : Protocol

pub record Upstream : Type 0 where
  pub raw : Text
  pub proto : Protocol
  pub server : Text
  pub host : Text
  pub url : Text

pub data UpstreamError : Type 0 where
  empty_resolver : UpstreamError
  unsupported : Text → UpstreamError
  bad_url not_https missing_host bad_dot_address : UpstreamError
  bad_server : AddrError → UpstreamError
  loopback link_local multicast unspecified self_referential : UpstreamError

-- The host and port of a DoT address, with the default port where it does not split.
unfoldable pub dot_address : Text → Text × Text
dot_address rest = elim (split_host_port rest) [
  | ok host_port ↦ host_port
  | err e ↦ (rest, codes "853")
]

-- `parseDoT`
unfoldable pub parse_dot : Text → Result UpstreamError Upstream
parse_dot raw =
    let rest = if has_prefix (to_lower raw) (codes "tls://") then drop 6 raw else drop 6 raw in
    let (host, port) = dot_address rest in
    if is_empty host
    then err bad_dot_address
    else ok (record {
      raw = raw;
      proto = dot;
      server = join_host_port host port;
      host = host;
      url = [];
    })

module _ (parse_url : Text → Option Url) where
  -- `parseDoH`
  unfoldable pub parse_doh : Text → Result UpstreamError Upstream
  parse_doh raw = elim (parse_url raw) [
    | none ↦ err bad_url
    | some u ↦
        if not (text_eq u.scheme (codes "https"))
        then err not_https
        else if is_empty u.hostname
        then err missing_host
        else ok (record {
          raw = raw;
          proto = doh;
          server = join_host_port u.hostname (if is_empty u.port then codes "443" else u.port);
          host = u.hostname;
          url = raw;
        })
  ]

  -- `ParseUpstream` of a text that is trimmed already.
  unfoldable pub parse_trimmed : Text → Result UpstreamError Upstream
  parse_trimmed raw =
      if is_empty raw
      then err empty_resolver
      else if has_prefix (to_lower raw) (codes "https://")
      then parse_doh raw
      else if has_prefix (to_lower raw) (codes "tls://")
          || has_prefix (to_lower raw) (codes "dot://")
      then parse_dot raw
      else err (unsupported raw)

  -- `ParseUpstream`
  unfoldable pub parse_upstream : Text → Result UpstreamError Upstream
  parse_upstream raw = parse_trimmed (trim_space raw)

module _ (I : IpLib) where
  -- The `switch` of `Validate`, at an address.
  unfoldable pub check_ip : I.Ip → Result UpstreamError (Unit {0})
  check_ip ip =
      if I.is_loopback ip
      then err loopback
      else if I.is_link_local_unicast ip || I.is_link_local_multicast ip
      then err link_local
      else if I.is_multicast ip
      then err multicast
      else if I.is_unspecified ip
      then err unspecified
      else ok tt

  -- `Validate`
  unfoldable pub validate : Upstream → Text → Result UpstreamError (Unit {0})
  validate u listener_addr = do
    (host, port) ← wrap_err bad_server (split_host_port u.server)
    elim (I.parse_ip host) [ none ↦ ok tt | some ip ↦ check_ip ip ]
    guard (not (text_eq u.server listener_addr)) self_referential

-- What `Exchanger` makes of an upstream: the URL of a DoH client, or the address of a DoT client.
pub data Client : Type 0 where
  doh_client : Text → Client
  dot_client : Text → Text → Text → Client

-- `Exchanger`, with `newDoTClient` for its host, port and TLS server name
unfoldable pub exchanger : Upstream → Result UpstreamError Client
exchanger u = elim u.proto [
  | doh ↦ ok (doh_client u.url)
  | dot ↦ elim (split_host_port u.server) [
    | err e ↦ err (bad_server e)
    | ok (host, port) ↦ ok (dot_client host port u.host)
  ]
]
