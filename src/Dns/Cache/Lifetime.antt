-- ===== src/Dns/Cache/Lifetime.antt =====
-- How long the cache of dns/cache.go answers for a response, and which responses it never keeps.
use zeus_dns_cli.Base.{
  ℕ, zero, suc, ◌+◌, ◌*◌, ◌≤◌, ◌<◌, ◌≡◌, refl, ◌∙◌, ◌≢◌, inl, inr, ap, true, false, none, some,
  List, [], ◌∷◌, ◌++◌, arith, ltb, ◌==◌, if◌then◌else◌, Text, text_eq_refl, lookup, length, All,
  Any, Any-append_right,
}
use mathlib.Core.Path.{subst}
use zeus_dns_cli.Base.Int.{to_ℕ}
use zeus_dns_cli.Dns.Message.{Msg, DnsLib}
use zeus_dns_cli.Dns.Ttl.{clamp_ttl, min_ttl}
use zeus_dns_cli.Dns.Ttl.Bounds.{min_ttl_least}
use zeus_dns_cli.Dns.Cache.{Cache, second, cache_key, is_cacheable, raw_ttl, get, put}
use zeus_dns_cli.Dns.Cache.Spec.{Lru, lru_get, lru_put, view, IsValid}
use zeus_dns_cli.Dns.Cache.Runs.{lru_get_call, lru_put_call, get_lem, put_lem}

-- The ideal cache right after a write.
lru_get-put :
    {Rr : Type 0} (n : ℕ) (l : Lru Rr) (k : Text) (r : Msg Rr) (expiry qid now : ℕ)
    → (lru_get (lru_put (suc n) l k r expiry) k qid now).1
      ≡ (if ltb expiry now then none else some (record r { id = qid }))
unfolding lru_get lru_put lookup
lru_get-put n l k r expiry qid now = ground (arith, text_eq_refl k)

lru_get_call-put :
    (L : DnsLib) (q q' r : Msg L.Rr) (k : Text) (size t now : ℕ) (l : Lru L.Rr)
    → 0 < size
    → is_cacheable r.rcode ≡ true
    → raw_ttl L r ≢ 0
    → cache_key L q ≡ some k
    → cache_key L q' ≡ some k
    → (lru_get_call L size (lru_put_call L size l q r t) q' now).1 ≡ (
        if ltb (t + clamp_ttl (raw_ttl L r) * second) now
        then none
        else some (record r { id = q'.id }))
unfolding lru_get_call lru_put_call
lru_get_call-put L q q' r k (suc n) t now l room kept timed key key' =
    rw (kept, key, key')
      (ground (arith, lru_get-put n l k r (t + clamp_ttl (raw_ttl L r) * second) q'.id now))
lru_get_call-put L q q' r k zero t now l room kept timed key key' = absurd (omega arith)

module _ (L : DnsLib) (c : Cache L.Rr) (q q' r : Msg L.Rr) (k : Text) where
  -- After a `Put` at time `t` of a cacheable response with a TTL, into a valid cache with room for
  -- at least one entry, a `Get` of any query with the same key returns that response under the
  -- query's own id up to the clamped TTL after `t`, and nothing later.
  pub get-put :
      (t now : ℕ)
      → IsValid c
      → 0 < to_ℕ c.size
      → is_cacheable r.rcode ≡ true
      → raw_ttl L r ≢ 0
      → cache_key L q ≡ some k
      → cache_key L q' ≡ some k
      → (get L (put L c q r t) q' now).1 ≡ (
          if ltb (t + clamp_ttl (raw_ttl L r) * second) now
          then none
          else some (record r { id = q'.id }))
  get-put t now v room kept timed key key' =
      let (valid, sized, same) = put_lem L c v q r t in
      let (_, _, read) = get_lem L (put L c q r t) valid q' now in
      ap (λ p. p.1) read
      ∙ ap (λ n. (lru_get_call L n (view (put L c q r t).ll) q' now).1) (ap to_ℕ sized)
      ∙ ap (λ l. (lru_get_call L (to_ℕ c.size) l q' now).1) same
      ∙ lru_get_call-put L q q' r k (to_ℕ c.size) t now (view c.ll) room kept timed key key'

Any-least :
    {A : Type 0} (f : A → ℕ) (m : ℕ) (xs : List A)
    → All (λ x. m ≤ f x) xs
    → Any (λ x. f x ≡ 0) xs
    → m ≡ 0
Any-least f m [] a h = elim h [ ]
Any-least f m (x ∷ xs) a (inl here) = omega arith
Any-least f m (x ∷ xs) a (inr there) = Any-least f m xs a.1 there

length-pos : {A : Type 0} (xs : List A) → xs ≢ [] → (length xs == 0) ≡ false
length-pos [] h = absurd (h refl)
length-pos (x ∷ xs) h = ground arith

-- A positive response with a zero TTL in a record of its additional section is never kept. The OPT
-- pseudo-record of EDNS0 is such a record: its TTL field holds flags, which are mostly 0.
pub put_zero_ttl :
    (L : DnsLib) (c : Cache L.Rr) (q r : Msg L.Rr) (t : ℕ)
    → r.rcode ≡ 0
    → r.answer ≢ []
    → Any (λ rr. L.ttl rr ≡ 0) r.extra
    → put L c q r t ≡ c
unfolding put raw_ttl
put_zero_ttl L c q r t ok positive opt =
    let somewhere = Any-append_right (λ rr. L.ttl rr ≡ 0) (r.answer ++ r.ns) r.extra opt in
    let least = min_ttl_least L r (λ e. subst (Any (λ rr. L.ttl rr ≡ 0)) e somewhere) in
    let zero_ttl : min_ttl L r ≡ 0 = Any-least L.ttl (min_ttl L r) _ least.0 somewhere in
    ground (arith, length-pos r.answer positive)
