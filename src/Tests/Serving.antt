-- ===== src/Tests/Serving.antt =====
-- The server at concrete queries.
use zeus_dns_cli.Base.{
  ℕ, ◌≡◌, refl, ◌≢◌, none, some, List, [], ◌∷◌, arith, Text, codes, decimal, decimal_loop, to_lower,
}
use zeus_dns_cli.Base.Int.{pos}
use zeus_dns_cli.Dns.Message.{Msg}
use zeus_dns_cli.Dns.Cache.{new_cache, raw_ttl, cache_key, question_key, wants_dnssec}
use zeus_dns_cli.Dns.Ttl.{min_ttl, min_ttl_loop, clamp_ttl}
use zeus_dns_cli.Dns.Cache.Refine.{new_cache-IsValid}
use zeus_dns_cli.Dns.Race.{reply, Answer, race_loop}
use zeus_dns_cli.Dns.Server.{Server, leads, serve_dns, fly, apply_edns_truncation, over_limit}
use zeus_dns_cli.Dns.Server.Replies.{OneReply, serve_dns-OneReply}
use zeus_dns_cli.Dns.Server.Keeps.{serve_dns_again}
use zeus_dns_cli.Samples.{sample_dns, sample_dns-IsReply, query, response}

abbrev server : Server sample_dns.Rr
server = record { cache = new_cache (pos 2); rate_l = none }

abbrev arrivals : List (ℕ × Answer Text sample_dns.Rr)
arrivals = (0, reply response) ∷ []

abbrev huge : Msg sample_dns.Rr
huge = record (query 3) { flags = 5000 }

key_of_query : (id : ℕ) → cache_key sample_dns (query id) ≡ some (codes "1:1:a.org.")
unfolding cache_key question_key wants_dnssec decimal decimal_loop to_lower
key_of_query id = refl

response_has_ttl : raw_ttl sample_dns response ≢ 0
unfolding raw_ttl min_ttl min_ttl_loop
response_has_ttl h = omega arith

abbrev filled : Server sample_dns.Rr
filled = (fly sample_dns server (query 1) 0 (leads arrivals)).0

serve_dns-OneReply_example :
    OneReply sample_dns (query 1) (serve_dns sample_dns server none 0 (leads arrivals) (query 1)).1
serve_dns-OneReply_example =
    serve_dns-OneReply sample_dns sample_dns-IsReply server none 0 (leads arrivals) (query 1)

serve_dns_again_example :
    (serve_dns sample_dns {E = Text} filled none 5 (leads []) (query 2)).1
    ≡ apply_edns_truncation sample_dns (query 2) (record response { id = 2 }) ∷ []
unfolding clamp_ttl raw_ttl min_ttl
serve_dns_again_example =
    serve_dns_again sample_dns server none 0 5 arrivals (leads []) (query 1) (query 2) response
      (codes "1:1:a.org.") (new_cache-IsValid (pos 2)) (unfold new_cache in omega arith)
      (unfold race_loop in refl) refl response_has_ttl (key_of_query 1) (key_of_query 2)
      (omega arith) (unfold over_limit fly in refl) (omega arith)
