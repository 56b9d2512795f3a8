-- ===== src/Dns/Cache/Runs.antt =====
-- `Get` and `Put` of dns/cache.go against the bounded LRU, over any sequence of calls, and what a
-- `Get` returns after a `Put`.
use zeus_dns_cli.Base.{
  ℕ, zero, suc, ◌+◌, ◌*◌, ◌≡◌, refl, sym, ◌∙◌, inl, inr, ap, not, ◌||◌, Option, none, some, List,
  [], ◌∷◌, Bool-cases, Option-cases, arith, ◌==◌, if◌then◌else◌, Text,
}
use mathlib.Core.Path.{ap₂}
use zeus_dns_cli.Base.Int.{ℤ, pos, negsuc, to_ℕ, leb_zero}
use zeus_dns_cli.Dns.Message.{Msg, DnsLib}
use zeus_dns_cli.Dns.Ttl.{clamp_ttl}
use zeus_dns_cli.Dns.Cache.{
  Cache, second, new_cache, get_key, evict, put_key, cache_key, is_cacheable, raw_ttl, get, put,
}
use zeus_dns_cli.Dns.Cache.Spec.{Lru, lru_get, lru_put, view, IsValid}
use zeus_dns_cli.Dns.Cache.Refine.{new_cache-IsValid, get_key-lru_get, get_key-IsValid, put_key_lem}

pub data Call (Rr : Type 0) : Type 0 where
  get_call : Msg Rr → ℕ → Call Rr
  put_call : Msg Rr → Msg Rr → ℕ → Call Rr

get_key-size :
    {Rr : Type 0} (c : Cache Rr) (k : Text) (qid now : ℕ) → (get_key c k qid now).0.size ≡ c.size
unfolding get_key
get_key-size c k qid now = ground arith

put_key-size :
    {Rr : Type 0} (c : Cache Rr) (k : Text) (r : Msg Rr) (expiry : ℕ)
    → (put_key c k r expiry).size ≡ c.size
unfolding put_key evict
put_key-size c k r expiry = ground arith

leb_zero_lem : (n : ℤ) → leb_zero n ≡ (to_ℕ n == 0)
leb_zero_lem (pos zero) = refl
leb_zero_lem (pos (suc n)) = ground arith
leb_zero_lem (negsuc n) = refl

module _ (L : DnsLib) where
  -- The calls on the cache, with the reply of each `Get`.
  unfoldable pub run : List (Call L.Rr) → Cache L.Rr → List (Option (Msg L.Rr))
  run [] c = []
  run (get_call q now ∷ calls) c = let (c', reply) = get L c q now in reply ∷ run calls c'
  run (put_call q r now ∷ calls) c = run calls (put L c q r now)

  unfoldable pub lru_get_call : ℕ → Lru L.Rr → Msg L.Rr → ℕ → Lru L.Rr × Option (Msg L.Rr)
  lru_get_call size l q now =
      if size == 0
      then (l, none)
      else elim (cache_key L q) [ none ↦ (l, none) | some k ↦ lru_get l k q.id now ]

  -- A response is kept if its code says so and it carries a TTL, for the clamped time.
  unfoldable pub lru_put_call : ℕ → Lru L.Rr → Msg L.Rr → Msg L.Rr → ℕ → Lru L.Rr
  lru_put_call size l q r now =
      if size == 0 || not (is_cacheable r.rcode) then l else elim (cache_key L q) [
        | none ↦ l
        | some k ↦
            if raw_ttl L r == 0
            then l
            else lru_put size l k r (now + clamp_ttl (raw_ttl L r) * second)
      ]

  -- The same calls on the ideal cache.
  unfoldable pub lru_run : ℕ → List (Call L.Rr) → Lru L.Rr → List (Option (Msg L.Rr))
  lru_run size [] l = []
  lru_run size (get_call q now ∷ calls) l =
      let (l', reply) = lru_get_call size l q now in reply ∷ lru_run size calls l'
  lru_run size (put_call q r now ∷ calls) l = lru_run size calls (lru_put_call size l q r now)

  module _ (c : Cache L.Rr) (v : IsValid c) where
    pub get_lem :
        (q : Msg L.Rr) (now : ℕ)
        → IsValid (get L c q now).0
          × ((get L c q now).0.size ≡ c.size)
          × ((view (get L c q now).0.ll, (get L c q now).1)
              ≡ lru_get_call (to_ℕ c.size) (view c.ll) q now)
    unfolding get lru_get_call
    get_lem q now = elim (Bool-cases (leb_zero c.size)) [
      | inl disabled ↦
          rw (disabled, sym (leb_zero_lem c.size) ∙ disabled, get, lru_get_call) (v, refl, refl)
      | inr enabled ↦ elim (Option-cases (cache_key L q)) [
        | inl bare ↦
            rw (enabled, sym (leb_zero_lem c.size) ∙ enabled, bare, get, lru_get_call)
              (v, refl, refl)
        | inr (k, keyed) ↦
            rw (enabled, sym (leb_zero_lem c.size) ∙ enabled, keyed, get, lru_get_call)
              (
                get_key-IsValid c k v q.id now,
                get_key-size c k q.id now,
                get_key-lru_get c k v q.id now,
              )
      ]
    ]

    same_guard :
        (r : Msg L.Rr)
        → (to_ℕ c.size == 0 || not (is_cacheable r.rcode))
          ≡ (leb_zero c.size || not (is_cacheable r.rcode))
    same_guard r = rw (leb_zero_lem c.size)

    pub put_lem :
        (q r : Msg L.Rr) (now : ℕ)
        → IsValid (put L c q r now)
          × ((put L c q r now).size ≡ c.size)
          × (view (put L c q r now).ll ≡ lru_put_call (to_ℕ c.size) (view c.ll) q r now)
    unfolding put lru_put_call
    put_lem q r now = elim (Bool-cases (leb_zero c.size || not (is_cacheable r.rcode))) [
      | inl refused ↦ rw (refused, same_guard r ∙ refused, put, lru_put_call) (v, refl, refl)
      | inr admitted ↦ elim (Option-cases (cache_key L q)) [
        | inl bare ↦ rw (admitted, same_guard r ∙ admitted, bare, put, lru_put_call) (v, refl, refl)
        | inr (k, keyed) ↦ elim (Bool-cases (raw_ttl L r == 0)) [
          | inl untimed ↦
              rw (admitted, same_guard r ∙ admitted, keyed, untimed, put, lru_put_call)
                (v, refl, refl)
          | inr timed ↦
              let (valid, same) = put_key_lem c k v r (now + clamp_ttl (raw_ttl L r) * second) in
              rw (admitted, same_guard r ∙ admitted, keyed, timed, put, lru_put_call)
                (valid, put_key-size c k r _, same)
        ]
      ]
    ]

  run-lru_run :
      (size : ℕ) (calls : List (Call L.Rr)) (c : Cache L.Rr)
      → IsValid c
      → to_ℕ c.size ≡ size
      → run calls c ≡ lru_run size calls (view c.ll)
  unfolding run lru_run
  run-lru_run size [] c v e = refl
  run-lru_run size (get_call q now ∷ calls) c v e =
      let (valid, sized, same) = get_lem c v q now in
      let same' = same ∙ ap (λ n. lru_get_call n (view c.ll) q now) e in
      let rest = run-lru_run size calls (get L c q now).0 valid (ap to_ℕ sized ∙ e) in
      ap₂ ◌∷◌ (ap (λ p. p.1) same') (rest ∙ ap (λ p. lru_run size calls p.0) same')
  run-lru_run size (put_call q r now ∷ calls) c v e =
      let (valid, sized, same) = put_lem c v q r now in
      run-lru_run size calls (put L c q r now) valid (ap to_ℕ sized ∙ e)
      ∙ ap (lru_run size calls) (same ∙ ap (λ n. lru_put_call n (view c.ll) q r now) e)

  -- From an empty cache of any size, every sequence of `Get` and `Put` calls returns the replies
  -- that the ideal least-recently-used cache returns: the map and the linked list together behave
  -- as one bounded list, most recently used first, that evicts at the far end and drops an expired
  -- entry when it is read.
  pub run-new_cache :
      (size : ℤ) (calls : List (Call L.Rr))
      → run calls (new_cache size) ≡ lru_run (to_ℕ size) calls []
  unfolding new_cache view
  run-new_cache (pos zero) calls =
      run-lru_run 0 calls (new_cache (pos 0)) (new_cache-IsValid (pos 0)) refl
  run-new_cache (pos (suc n)) calls =
      run-lru_run (suc n) calls (new_cache (pos (suc n))) (new_cache-IsValid (pos (suc n))) refl
  run-new_cache (negsuc n) calls =
      run-lru_run 0 calls (new_cache (negsuc n)) (new_cache-IsValid (negsuc n)) refl

  -- Whatever the two calls do, on every branch, the list stays within its size, addresses and keys
  -- stay distinct, and the map finds exactly the elements of the list.
  pub get-put-IsValid :
      (c : Cache L.Rr) (q r : Msg L.Rr) (now : ℕ)
      → IsValid c
      → IsValid (get L c q now).0 × IsValid (put L c q r now)
  get-put-IsValid c q r now v = ((get_lem c v q now).0, (put_lem c v q r now).0)
