-- ===== src/Dns/Cache/Refine.antt =====
-- The cache of dns/cache.go keeps its invariant and implements the bounded LRU of `Spec`.
use zeus_dns_cli.Base.{
  ℕ, zero, suc, ◌≤◌, ◌≡◌, refl, sym, inl, inr, ap, true, false, none, some, [], ◌∷◌, Bool-cases,
  Option-cases, length, take, take_of_length-le, arith, ltb, Text, text_eq_iff, text_eq_refl,
  lookup, insert, erase, lookup-insert, lookup-erase,
}
use zeus_dns_cli.Base.Int.{ℤ, pos, negsuc, to_ℕ, ltb_pos}
use zeus_dns_cli.Dns.Message.{Msg}
use zeus_dns_cli.Dns.Cache.{CacheEntry, Elements, Cache, new_cache, remove, get_key, evict, put_key}
use zeus_dns_cli.Dns.Cache.Spec.{lru_get, lru_put, view, find_key, IsLinked, IsValid}
use zeus_dns_cli.Dns.Cache.Linked.{
  lookup-view-none, erase-view_absent, element_of_find, find_key-remove, view-remove,
  remove-IsLinked, length-remove, element_of_le, IsLinked-mono, back_lem,
}

pub new_cache-IsValid : {Rr : Type 0} (size : ℤ) → IsValid {Rr = Rr} (new_cache size)
unfolding new_cache lookup find_key
new_cache-IsValid (pos zero) = record { bounded = omega arith; linked = tt; indexed = λ k. refl }
new_cache-IsValid (pos (suc n)) = record { bounded = omega arith; linked = tt; indexed = λ k. refl }
new_cache-IsValid (negsuc n) = record { bounded = omega arith; linked = tt; indexed = λ k. refl }

-- The element of a key leaves the list and the map, or comes to the front with a new entry.
module _ {Rr : Type 0} (c : Cache Rr) (k : Text) (i : ℕ) (v : IsValid c)
    (hit : find_key k c.ll ≡ some i) where
  drop-IsValid : IsValid (record c { ll = remove i c.ll; m = erase k c.m })
  drop-IsValid = record {
    bounded = omega (arith, length-remove k i c.next c.ll v.linked hit, v.bounded);
    linked = (remove-IsLinked k i c.next c.ll v.linked hit).0;
    indexed = λ j.
        ground (
          arith,
          lookup-erase j k c.m,
          v.indexed j,
          find_key-remove k j i c.next c.ll v.linked hit,
        );
  }

  front-IsValid :
      (e : CacheEntry Rr) → e.key ≡ k → IsValid (record c { ll = (i, e) ∷ remove i c.ll })
  unfolding find_key
  front-IsValid e key =
      let (linked, gone) = remove-IsLinked k i c.next c.ll v.linked hit in
      let (e', at, key', seen, below) = element_of_find k i c.next c.ll v.linked hit in
      record {
        bounded = omega (arith, length-remove k i c.next c.ll v.linked hit, v.bounded);
        linked = (
          below,
          gone,
          ground (arith, text_eq_refl k, find_key-remove k k i c.next c.ll v.linked hit),
          linked,
        );
        indexed = λ j.
            ground
              (arith, text_eq_iff k j, v.indexed j, find_key-remove k j i c.next c.ll v.linked hit);
      }

module _ {Rr : Type 0} (c : Cache Rr) (k : Text) (v : IsValid c) where
  pub get_key-lru_get :
      (qid now : ℕ)
      → (let (c', reply) = get_key c k qid now in (view c'.ll, reply))
        ≡ lru_get (view c.ll) k qid now
  unfolding get_key lru_get view
  get_key-lru_get qid now = elim (Option-cases (find_key k c.ll)) [
    | inl miss ↦ ground (arith, v.indexed k, lookup-view-none k c.ll miss)
    | inr (i, hit) ↦
        let (e, at, key, seen, below) = element_of_find k i c.next c.ll v.linked hit in
        ground (arith, v.indexed k, view-remove k i c.next c.ll v.linked hit)
  ]

  pub get_key-IsValid : (qid now : ℕ) → IsValid (get_key c k qid now).0
  unfolding get_key find_key
  get_key-IsValid qid now = elim (Option-cases (find_key k c.ll)) [
    | inl miss ↦ rw (v.indexed k, miss, get_key) v
    | inr (i, hit) ↦
        let (e, at, key, seen, below) = element_of_find k i c.next c.ll v.linked hit in
        elim (Bool-cases (ltb e.expiry now)) [
          | inl late ↦ rw (v.indexed k, hit, at, late, get_key) (drop-IsValid c k i v hit)
          | inr fresh ↦ rw (v.indexed k, hit, at, fresh, get_key) (front-IsValid c k i v hit e key)
        ]
  ]

at_capacity : (size : ℤ) (n : ℕ) → n ≤ to_ℕ size → ltb_pos size (suc n) ≡ true → n ≡ to_ℕ size
at_capacity (pos s) n h k = ground arith
at_capacity (negsuc s) n h k = omega arith

has_room : (size : ℤ) (n : ℕ) → ltb_pos size (suc n) ≡ false → suc n ≤ to_ℕ size
has_room (pos s) n k = ground arith
has_room (negsuc s) n k = cc

length-view : {Rr : Type 0} (l : Elements Rr) → length (view l) ≡ length l
unfolding view
length-view [] = refl
length-view (x ∷ l) = ap suc (length-view l)

-- A new key goes to the front, before the eviction.
abbrev pushed : {Rr : Type 0} → Cache Rr → CacheEntry Rr → Cache Rr
pushed c e = record {
  size = c.size;
  m = insert e.key c.next c.m;
  ll = (c.next, e) ∷ c.ll;
  next = suc c.next;
}

module _ {Rr : Type 0} (c : Cache Rr) (e : CacheEntry Rr) (v : IsValid c)
    (miss : find_key e.key c.ll ≡ none) where
  pushed-IsLinked : IsLinked (suc c.next) ((c.next, e) ∷ c.ll)
  pushed-IsLinked = (
    omega arith,
    element_of_le c.next c.next c.ll v.linked (omega arith),
    miss,
    IsLinked-mono c.next c.ll v.linked,
  )

  pushed-indexed : (j : Text) → lookup j (pushed c e).m ≡ find_key j (pushed c e).ll
  unfolding find_key
  pushed-indexed j =
      ground (arith, lookup-insert j e.key c.next c.m, v.indexed j, text_eq_iff e.key j)

  -- The eviction brings the list back to its size, and its view is a prefix.
  evict-pushed :
      IsValid (evict (pushed c e))
      × (view (evict (pushed c e)).ll ≡ take (to_ℕ c.size) ((e.key, (e.msg, e.expiry)) ∷ view c.ll))
  unfolding evict view
  evict-pushed = elim (Bool-cases (ltb_pos c.size (suc (length c.ll)))) [
    | inl full ↦
        let (i, e', last, found, cut) = back_lem (c.next, e) (suc c.next) c.ll pushed-IsLinked in
        let exact : length c.ll ≡ to_ℕ c.size = at_capacity c.size (length c.ll) v.bounded full in
        let dropped =
          drop-IsValid (record (pushed c e) { size = pos (suc (length c.ll)) }) e'.key i
            (record { bounded = omega arith; linked = pushed-IsLinked; indexed = pushed-indexed })
            found in
        rw (full, last, evict)
          (
            record {
              bounded = omega (
                arith,
                exact,
                length-remove e'.key i (suc c.next) (pushed c e).ll pushed-IsLinked found,
              );
              linked = dropped.linked;
              indexed = dropped.indexed;
            },
            rw (← exact) cut,
          )
    | inr room ↦
        let fits : suc (length c.ll) ≤ to_ℕ c.size = has_room c.size (length c.ll) room in
        rw (room, evict)
          (
            record { bounded = fits; linked = pushed-IsLinked; indexed = pushed-indexed },
            sym (take_of_length-le (to_ℕ c.size) _ (omega (arith, length-view c.ll, fits))),
          )
  ]

module _ {Rr : Type 0} (c : Cache Rr) (k : Text) (v : IsValid c) (r : Msg Rr) (expiry : ℕ) where
  abbrev stored : CacheEntry Rr
  stored = record { key = k; msg = r; expiry = expiry }

  pub put_key_lem :
      IsValid (put_key c k r expiry)
      × (view (put_key c k r expiry).ll ≡ lru_put (to_ℕ c.size) (view c.ll) k r expiry)
  unfolding put_key lru_put view
  put_key_lem = elim (Option-cases (find_key k c.ll)) [
    | inl miss ↦
        rw (v.indexed k, miss, put_key)
          (let (valid, cut) = evict-pushed c stored v miss in
            (valid, rw (erase-view_absent k c.ll miss) cut))
    | inr (i, hit) ↦
        rw (v.indexed k, hit, put_key)
          (
            front-IsValid c k i v hit stored refl,
            let cut = view-remove k i c.next c.ll v.linked hit in
                rw cut (
                  sym (
                    take_of_length-le (to_ℕ c.size) _ (
                      rw (← cut) (
                        omega (
                          arith,
                          v.bounded,
                          length-view (remove i c.ll),
                          length-remove k i c.next c.ll v.linked hit,
                        ))))),
          )
  ]
