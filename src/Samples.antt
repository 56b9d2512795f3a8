-- ===== src/Samples.antt =====
-- Small concrete instances of the parameters of the models, for the tests.
use zeus_dns_cli.Base.{
  ok, ◌≡◌, ℕ, ◌+◌, ◌*◌, refl, Bool, true, false, Option, none, some, [], ◌∷◌, Text, codes, text_eq,
  to_lower, if◌then◌else◌, length,
}
use zeus_dns_cli.Net.{IpLib, Url}
use zeus_dns_cli.Dns.Message.{Question, Msg, DnsLib, IsReply}
use zeus_dns_cli.Tui.{InputLib}
use zeus_dns_cli.Tui.Check.{Checks}
use zeus_dns_cli.Dns.Upstream.{Client}

-- Records are their TTL with the minimum of a SOA record; no query has EDNS, and the flags count
-- as further bytes.
abbrev pub sample_dns : DnsLib
sample_dns = record {
  Rr = ℕ × Option ℕ;
  ttl = λ rr. rr.0;
  soa_minttl = λ rr. rr.1;
  canonical_name = λ name. to_lower name;
  Opt = ℕ;
  is_edns0 = λ m. none;
  opt_do = λ o. false;
  opt_udp_size = λ o. o;
  msg_len = λ m. 12 + 16 * length m.answer + m.flags;
  set_rcode = λ m c. record m { rcode = c };
}

pub sample_dns-IsReply : IsReply sample_dns
sample_dns-IsReply = record { set_rcode-id = λ r c. refl; set_rcode-rcode = λ r c. refl }

abbrev pub example_question : Question
example_question = record { name = codes "a.org."; qtype = 1; qclass = 1 }

abbrev pub query : ℕ → Msg sample_dns.Rr
query id = record {
  id = id;
  rcode = 0;
  recursion_desired = true;
  truncated = false;
  flags = 0;
  question = example_question ∷ [];
  answer = [];
  ns = [];
  extra = [];
}

-- A response with one record of TTL 300.
abbrev pub response : Msg sample_dns.Rr
response = record (query 9) { answer = (300, none) ∷ [] }

-- The same with an OPT record, whose TTL field is 0.
abbrev pub edns_response : Msg sample_dns.Rr
edns_response = record response { extra = (0, none) ∷ [] }

-- IP addresses are `1.2.3.4` and `127.0.0.1`.
abbrev pub sample_ip : IpLib
sample_ip = record {
  Ip = Bool;
  parse_ip = λ s.
      if text_eq s (codes "127.0.0.1")
      then some true
      else if text_eq s (codes "1.2.3.4")
      then some false
      else none;
  is_loopback = λ ip. ip;
  is_link_local_unicast = λ ip. false;
  is_link_local_multicast = λ ip. false;
  is_multicast = λ ip. false;
  is_unspecified = λ ip. false;
}

-- Every URL is `https://a.org`.
abbrev pub sample_url : Text → Option Url
sample_url s = some (record { scheme = codes "https"; hostname = codes "a.org"; port = [] })

-- A text field that holds one text.
abbrev pub sample_input : InputLib
sample_input = record {
  Input = Text;
  value = λ t. t;
  press = λ k t. t;
  reset = λ t. [];
  focus = λ t. t;
  blur = λ t. t;
}

-- A network in which every resolver answers.
abbrev pub sample_checks : Checks
sample_checks = record {
  Failure = ℕ;
  Record = sample_dns.Rr;
  parse_url = sample_url;
  show = λ e. codes "failed";
  Possible = λ answer. (client : Client) → answer client ≡ ok (some response);
}
