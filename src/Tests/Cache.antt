-- ===== src/Tests/Cache.antt =====
-- The cache, its TTLs and the race at concrete messages.
use zeus_dns_cli.Base.{
  ℕ, ◌≡◌, refl, ◌≢◌, none, some, List, [], ◌∷◌, ◌+◌, ◌*◌, ltb, if◌then◌else◌, arith, Text, codes,
  decimal, decimal_loop, to_lower,
}
use zeus_dns_cli.Base.Int.{pos}
use zeus_dns_cli.Dns.Cache.{
  new_cache, second, cache_key, question_key, wants_dnssec, put, get, raw_ttl, Cache,
}
use zeus_dns_cli.Dns.Ttl.{min_ttl, min_ttl_loop, clamp_ttl}
use zeus_dns_cli.Dns.Cache.Spec.{IsValid}
use zeus_dns_cli.Dns.Cache.Refine.{new_cache-IsValid}
use zeus_dns_cli.Dns.Cache.Runs.{
  Call, get_call, put_call, run, lru_run, run-new_cache, get-put-IsValid,
}
use zeus_dns_cli.Dns.Cache.Lifetime.{get-put}
use zeus_dns_cli.Samples.{sample_dns, query, response}

abbrev two_entries : Cache sample_dns.Rr
two_entries = new_cache (pos 2)

abbrev calls : List (Call sample_dns.Rr)
calls = put_call (query 1) response 0 ∷ get_call (query 2) 5 ∷ []

abbrev example_key : Text
example_key = codes "1:1:a.org."

key_of_query : (id : ℕ) → cache_key sample_dns (query id) ≡ some example_key
unfolding cache_key question_key wants_dnssec decimal decimal_loop to_lower
key_of_query id = refl

response_has_ttl : raw_ttl sample_dns response ≢ 0
unfolding raw_ttl min_ttl min_ttl_loop
response_has_ttl h = omega arith

run-new_cache_example : run sample_dns calls (new_cache (pos 2)) ≡ lru_run sample_dns 2 calls []
run-new_cache_example = run-new_cache sample_dns (pos 2) calls

get-put-IsValid_example :
    IsValid (get sample_dns two_entries (query 1) 5).0
    × IsValid (put sample_dns two_entries (query 1) response 5)
get-put-IsValid_example =
    get-put-IsValid sample_dns two_entries (query 1) response 5 (new_cache-IsValid (pos 2))

get-put_example :
    (get sample_dns (put sample_dns two_entries (query 1) response 0) (query 2) 5).1 ≡ (
      if ltb (0 + clamp_ttl (raw_ttl sample_dns response) * second) 5
      then none
      else some (record response { id = 2 }))
get-put_example =
    get-put sample_dns two_entries (query 1) (query 2) response example_key 0 5
      (new_cache-IsValid (pos 2)) (unfold new_cache in omega arith) refl response_has_ttl
      (key_of_query 1) (key_of_query 2)
