-- ===== src/Dns/Upstream/Server.antt =====
-- The addresses that `ParseUpstream` of dns/upstream.go makes.
use zeus_dns_cli.Base.{
  ◌≡◌, refl, sym, ap, ◌∙◌, ◌⊎◌, inl, inr, true, [], ◌∷◌, ◌++◌, arith, Bool-cases, Result-cases,
  Text, codes, has_prefix, to_lower, drop, ok, err,
}
use zeus_dns_cli.Net.{has_byte, missing_port, split_host_port, join_host_port, IpLib}
use zeus_dns_cli.Net.Address.{
  IsBare, IsPlainPort, split_host_port-join_host_port, split_host_port-bracketed,
  split_host_port-double, split_host_port-parts, has_byte-append,
}
use zeus_dns_cli.Dns.Upstream.{
  Upstream, dot, dot_address, parse_dot, validate, bad_server, exchanger, dot_client,
}

853-IsPlainPort : IsPlainPort (codes "853")
unfolding has_byte
853-IsPlainPort = (refl, refl, refl)

dot_address-parts :
    (rest : Text)
    → ((p : Text × Text) × (split_host_port rest ≡ ok p) × (dot_address rest ≡ p))
      ⊎ (dot_address rest ≡ (rest, codes "853"))
unfolding dot_address
dot_address-parts rest = elim (Result-cases (split_host_port rest)) [
  | inl (p, split) ↦ inl (p, split, rw (split, dot_address))
  | inr (e, failed) ↦ inr (rw (failed, dot_address))
]

parse_dot-parts :
    (raw : Text) {u : Upstream}
    → parse_dot raw ≡ ok u
    → (u.host ≡ (dot_address (drop 6 raw)).0)
      × (u.proto ≡ dot)
      × (u.server ≡ join_host_port (dot_address (drop 6 raw)).0 (dot_address (drop 6 raw)).1)
unfolding parse_dot
parse_dot-parts raw h = elim (Bool-cases (has_prefix (to_lower raw) (codes "tls://"))) [
  | inl tls ↦ ground arith
  | inr other ↦ ground arith
]

dot_address-port : (rest : Text) → IsPlainPort (dot_address rest).1
dot_address-port rest = elim (dot_address-parts rest) [
  | inl (p, split, same) ↦ rw same (split_host_port-parts rest p.0 p.1 split).1
  | inr same ↦ rw same 853-IsPlainPort
]

exchanger_dot :
    (u : Upstream) (host port : Text)
    → u.proto ≡ dot
    → split_host_port u.server ≡ ok (host, port)
    → exchanger u ≡ ok (dot_client host port u.host)
unfolding exchanger
exchanger_dot u host port p s = rw (p, s, exchanger)

-- A DoT resolver that is accepted has an address to dial that splits into its host and a port free
-- of brackets and colons, so that `Exchanger` finds them again, unless its host has a bracket.
pub parse_dot-server :
    (raw : Text) {u : Upstream}
    → parse_dot raw ≡ ok u
    → IsBare u.host
    → (port : Text) × IsPlainPort port
      × (split_host_port u.server ≡ ok (u.host, port))
      × (exchanger u ≡ ok (dot_client u.host port u.host))
parse_dot-server raw {u} h bare =
    let (host, proto, server) = parse_dot-parts raw h in
    let port = (dot_address (drop 6 raw)).1 in
    let plain = dot_address-port (drop 6 raw) in
    let split : split_host_port u.server ≡ ok (u.host, port) =
      ap split_host_port (server ∙ ap (λ x. join_host_port x port) (sym host))
      ∙ split_host_port-join_host_port u.host port bare plain in
    (port, plain, split, exchanger_dot u u.host port proto split)

double-refused :
    (host : Text)
    → IsBare host
    → has_byte b':' host ≡ true
    → split_host_port (join_host_port (b'[' ∷ (host ++ codes "]")) (codes "853")) ≡ err missing_port
unfolding join_host_port has_byte
double-refused host bare v6 =
    ground
      (arith, split_host_port-double host (codes "853") bare, has_byte-append b':' host (codes "]"))

-- An IPv6 resolver in brackets with no port, `tls://[...]`, is accepted by `ParseUpstream`, but
-- the address made of it has its brackets doubled: `Validate` and `Exchanger` refuse it.
parse_dot-bracketed :
    (I : IpLib) (host listener : Text)
    → IsBare host
    → has_byte b':' host ≡ true
    → (u : Upstream) × (parse_dot (codes "tls://[" ++ (host ++ codes "]")) ≡ ok u)
      × (validate I u listener ≡ err (bad_server missing_port))
      × (exchanger u ≡ err (bad_server missing_port))
unfolding parse_dot exchanger validate to_lower has_prefix dot_address
parse_dot-bracketed I host listener bare v6 =
    let bracketed = split_host_port-bracketed host bare in
    let refused = double-refused host bare v6 in
    (
      record {
        raw = codes "tls://[" ++ (host ++ codes "]");
        proto = dot;
        server = join_host_port (b'[' ∷ (host ++ codes "]")) (codes "853");
        host = b'[' ∷ (host ++ codes "]");
        url = [];
      },
      ground (arith, bracketed),
      rw (refused, validate),
      rw (refused, exchanger),
    )
