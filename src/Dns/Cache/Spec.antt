-- ===== src/Dns/Cache/Spec.antt =====
-- What a bounded cache with least-recently-used eviction promises, on one list of entries with
-- distinct keys, and the view of the cache of dns/cache.go as such a list.
use zeus_dns_cli.Base.{
  ℕ, ◌≤◌, ◌<◌, ◌≡◌, Option, none, some, [], ◌∷◌, length, take, ltb, if◌then◌else◌, Text, text_eq,
  Dict, lookup, erase,
}
use zeus_dns_cli.Base.Int.{to_ℕ}
use zeus_dns_cli.Dns.Message.{Msg}
use zeus_dns_cli.Dns.Cache.{CacheEntry, Elements, Cache, element}

-- A message and the time at which it expires, by key; the first was used last.
abbrev pub Lru : Type 0 → Type 0
Lru Rr = Dict (Msg Rr × ℕ)

module _ {Rr : Type 0} where
  abbrev pub touch : Text → Msg Rr × ℕ → Lru Rr → Lru Rr
  touch k v l = (k, v) ∷ erase k l

  -- A read: an expired entry goes, a fresh one becomes the most recent.
  unfoldable pub lru_get : Lru Rr → Text → ℕ → ℕ → Lru Rr × Option (Msg Rr)
  lru_get l k qid now = elim (lookup k l) [
    | none ↦ (l, none)
    | some (msg, expiry) ↦
        if ltb expiry now
        then (erase k l, none)
        else (touch k (msg, expiry) l, some (record msg { id = qid }))
  ]

  -- A write, with room for `size` entries.
  unfoldable pub lru_put : ℕ → Lru Rr → Text → Msg Rr → ℕ → Lru Rr
  lru_put size l k r expiry = take size (touch k (r, expiry) l)

  abbrev pub entry : ℕ × CacheEntry Rr → Text × (Msg Rr × ℕ)
  entry (i, e) = (e.key, (e.msg, e.expiry))

  unfoldable pub view : Elements Rr → Lru Rr
  view [] = []
  view (x ∷ l) = entry x ∷ view l

  -- The address of the first element with a key.
  unfoldable pub find_key : Text → Elements Rr → Option ℕ
  find_key k [] = none
  find_key k ((i, e) ∷ l) = if text_eq e.key k then some i else find_key k l

  -- All addresses are below `n` and distinct, and all keys are distinct.
  abbrev pub IsLinked : ℕ → Elements Rr → Type 0
  IsLinked n [] = Unit
  IsLinked n ((i, e) ∷ l) =
      (i < n) × (element i l ≡ none) × (find_key e.key l ≡ none) × IsLinked n l

  -- The invariant of the cache: the list fits its size, and the map finds exactly its elements.
  pub record IsValid (c : Cache Rr) : Type 0 where
    pub bounded : length c.ll ≤ to_ℕ c.size
    pub linked : IsLinked c.next c.ll
    pub indexed : (k : Text) → lookup k c.m ≡ find_key k c.ll
