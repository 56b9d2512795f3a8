-- ===== src/Dns/Cache.antt =====
-- `Cache` of dns/cache.go: a map from keys to the elements of a doubly linked list of entries,
-- most recently used first.
use zeus_dns_cli.Base.{
  ℕ, zero, suc, ◌+◌, ◌*◌, ◌≡◌, Bool, true, false, ◌&&◌, ◌||◌, not, Option, none, some, List, [],
  ◌∷◌, ◌++◌, length, ltb, ◌==◌, if◌then◌else◌, Text, codes, decimal, Dict, lookup, insert, erase,
}
use zeus_dns_cli.Base.Int.{ℤ, pos, to_ℕ, leb_zero, ltb_pos, pos_ltb}
use zeus_dns_cli.Dns.Message.{Question, Msg, DnsLib, rcode_success, rcode_name_error}
use zeus_dns_cli.Dns.Ttl.{min_ttl, negative_ttl, clamp_ttl}
pub mod Spec
pub mod Linked
pub mod Refine
pub mod Runs
pub mod Lifetime

-- `time.Second`, in the nanoseconds of `time.Duration`.
abbrev pub second : ℕ
second = 1_000_000_000

pub record CacheEntry (Rr : Type 0) : Type 0 where
  pub key : Text
  pub msg : Msg Rr
  pub expiry : ℕ

-- `container/list`: the elements from the front, each with its address.
abbrev pub Elements : Type 0 → Type 0
Elements Rr = List (ℕ × CacheEntry Rr)

-- `next` is an address that no element has had yet.
pub record Cache (Rr : Type 0) : Type 0 where
  pub size : ℤ
  pub m : Dict ℕ
  pub ll : Elements Rr
  pub next : ℕ

-- `NewCache`
unfoldable pub new_cache : {Rr : Type 0} → ℤ → Cache Rr
new_cache size =
    if leb_zero size
    then record { size = pos 0; m = []; ll = []; next = 0 }
    else record { size = size; m = []; ll = []; next = 0 }

module _ {Rr : Type 0} where
  -- The entry at an address.
  unfoldable pub element : ℕ → Elements Rr → Option (CacheEntry Rr)
  element el [] = none
  element el ((i, e) ∷ l) = if i == el then some e else element el l

  -- `ll.Remove(el)`
  unfoldable pub remove : ℕ → Elements Rr → Elements Rr
  remove el [] = []
  remove el ((i, e) ∷ l) = if i == el then l else (i, e) ∷ remove el l

  -- `ll.MoveToFront(el)`, where the element holds `e`
  abbrev pub move_to_front : ℕ → CacheEntry Rr → Elements Rr → Elements Rr
  move_to_front el e l = (el, e) ∷ remove el l

  -- `ll.Back()`
  unfoldable pub back : Elements Rr → Option (ℕ × CacheEntry Rr)
  back [] = none
  back (x ∷ []) = some x
  back (x ∷ y ∷ l) = back (y ∷ l)

  -- `Get` from the lookup in the map on. An address that is not in the list would be a fault of
  -- the cache; its branch is there for totality.
  unfoldable pub get_key : Cache Rr → Text → ℕ → ℕ → Cache Rr × Option (Msg Rr)
  get_key c key qid now = elim (lookup key c.m) [
    | none ↦ (c, none)
    | some el ↦ elim (element el c.ll) [
      | none ↦ (c, none)
      | some e ↦
          if ltb e.expiry now
          then (record c { ll = remove el c.ll; m = erase key c.m }, none)
          else (record c { ll = move_to_front el e c.ll }, some (record (e.msg) { id = qid }))
    ]
  ]

  -- The end of `Put`: the least recently used entry goes if there are too many.
  unfoldable pub evict : Cache Rr → Cache Rr
  evict c = elim (ltb_pos c.size (length c.ll)) [
    | false ↦ c
    | true ↦ elim (back c.ll) [
      | none ↦ c
      | some (el, e) ↦ record c { ll = remove el c.ll; m = erase e.key c.m }
    ]
  ]

  -- `Put` from the lock on: a known key has its entry overwritten and moved to the front.
  unfoldable pub put_key : Cache Rr → Text → Msg Rr → ℕ → Cache Rr
  put_key c key r expiry =
      let e : CacheEntry Rr = record { key = key; msg = r; expiry = expiry } in
      elim (lookup key c.m) [
        | some el ↦ record c { ll = move_to_front el e c.ll }
        | none ↦ evict (record {
          size = c.size;
          m = insert key c.next c.m;
          ll = (c.next, e) ∷ c.ll;
          next = suc c.next;
        })
      ]

-- The responses that `Put` stores: `NOERROR` and `NXDOMAIN`.
abbrev pub is_cacheable : ℕ → Bool
is_cacheable rcode = rcode == rcode_success || rcode == rcode_name_error

module _ (L : DnsLib) where
  -- The key of the first question: `"%d:%d:%s"`, and `":do"` behind it for a DNSSEC query.
  unfoldable pub question_key : Question → Text
  question_key qu =
      decimal qu.qclass
      ++ (codes ":" ++ (decimal qu.qtype ++ (codes ":" ++ L.canonical_name qu.name)))

  unfoldable pub wants_dnssec : Msg L.Rr → Bool
  wants_dnssec q = elim (L.is_edns0 q) [ none ↦ false | some opt ↦ L.opt_do opt ]

  -- `cacheKey`
  unfoldable pub cache_key : Msg L.Rr → Option Text
  cache_key q = elim q.question [
    | [] ↦ none
    | qu ∷ _ ↦ some (if wants_dnssec q then question_key qu ++ codes ":do" else question_key qu)
  ]

  -- `Get`, at the time `now`
  unfoldable pub get : Cache L.Rr → Msg L.Rr → ℕ → Cache L.Rr × Option (Msg L.Rr)
  get c q now =
      if leb_zero c.size
      then (c, none)
      else elim (cache_key q) [ none ↦ (c, none) | some key ↦ get_key c key q.id now ]

  -- The choice of the TTL in `Put`, before the clamp.
  unfoldable pub raw_ttl : Msg L.Rr → ℕ
  raw_ttl r =
      if r.rcode == rcode_name_error || length r.answer == 0 then negative_ttl L r else min_ttl L r

  -- `Put` of a response that is there, at the time `now`
  unfoldable pub put : Cache L.Rr → Msg L.Rr → Msg L.Rr → ℕ → Cache L.Rr
  put c q r now = if leb_zero c.size || not (is_cacheable r.rcode) then c else elim (cache_key q) [
    | none ↦ c
    | some key ↦
        if raw_ttl r == 0 then c else put_key c key r (now + clamp_ttl (raw_ttl r) * second)
  ]
