-- ===== src/Dns/Message.antt =====
-- DNS messages as the package dns reads and writes them, and what it takes from the package
-- github.com/miekg/dns as a parameter.
use zeus_dns_cli.Base.{ℕ, ◌≡◌, Bool, Option, List, Text}

pub record Question : Type 0 where
  pub name : Text
  pub qtype : ℕ
  pub qclass : ℕ

-- `dns.Msg`. The header bits that the program does not name are in `flags`. Messages are values
-- here, so that `Copy` is not written.
pub record Msg (Rr : Type 0) : Type 0 where
  pub id : ℕ
  pub rcode : ℕ
  pub recursion_desired : Bool
  pub truncated : Bool
  pub flags : ℕ
  pub question : List Question
  pub answer : List Rr
  pub ns : List Rr
  pub extra : List Rr

-- The response codes of RFC 1035 that the program names.
abbrev pub rcode_success : ℕ
rcode_success = 0

abbrev pub rcode_format_error : ℕ
rcode_format_error = 1

abbrev pub rcode_server_failure : ℕ
rcode_server_failure = 2

abbrev pub rcode_name_error : ℕ
rcode_name_error = 3

abbrev pub rcode_refused : ℕ
rcode_refused = 5

-- What the program calls of the DNS library.
pub record DnsLib : Type 1 where
  pub Rr : Type 0
  -- `rr.Header().Ttl`
  pub ttl : Rr → ℕ
  -- `rr.(*dns.SOA)`, and the field `Minttl` of the record
  pub soa_minttl : Rr → Option ℕ
  -- `dns.CanonicalName`
  pub canonical_name : Text → Text
  pub Opt : Type 0
  -- `q.IsEdns0()`, `opt.Do()` and `opt.UDPSize()`
  pub is_edns0 : Msg Rr → Option Opt
  pub opt_do : Opt → Bool
  pub opt_udp_size : Opt → ℕ
  -- `r.Len()`
  pub msg_len : Msg Rr → ℕ
  -- `m := new(dns.Msg); m.SetRcode(r, rcode)`
  pub set_rcode : Msg Rr → ℕ → Msg Rr

-- The documented behaviour of `SetRcode`, which makes a reply to the request.
pub record IsReply (L : DnsLib) : Type 0 where
  pub set_rcode-id : (r : Msg L.Rr) (c : ℕ) → (L.set_rcode r c).id ≡ r.id
  pub set_rcode-rcode : (r : Msg L.Rr) (c : ℕ) → (L.set_rcode r c).rcode ≡ c
