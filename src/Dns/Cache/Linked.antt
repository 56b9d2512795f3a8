-- ===== src/Dns/Cache/Linked.antt =====
-- Lemmas on the linked list of the cache: what the removal of an element does to addresses, keys
-- and the view.
use zeus_dns_cli.Base.{
  ℕ, suc, ◌+◌, ◌≤◌, ◌<◌, ◌≡◌, refl, none, some, [], ◌∷◌, inl, inr, Bool-cases, length, take, arith,
  if◌then◌else◌, Text, text_eq, text_eq_iff, text_eq_refl, lookup, erase,
}
use zeus_dns_cli.Dns.Cache.{CacheEntry, Elements, element, remove, back}
use zeus_dns_cli.Dns.Cache.Spec.{view, find_key, IsLinked}

module _ {Rr : Type 0} where
  -- A key that the list lacks is not in the view.
  pub erase-view_absent :
      (k : Text) (l : Elements Rr) → find_key k l ≡ none → erase k (view l) ≡ view l
  unfolding find_key view erase
  erase-view_absent k [] h = refl
  erase-view_absent k ((i, e) ∷ l) h = ground (arith, erase-view_absent k l)

  pub lookup-view-none :
      (k : Text) (l : Elements Rr) → find_key k l ≡ none → lookup k (view l) ≡ none
  unfolding find_key view lookup
  lookup-view-none k [] h = refl
  lookup-view-none k ((i, e) ∷ l) h = ground (arith, lookup-view-none k l)

  -- The element that the map finds for a key, and what the view has there.
  pub element_of_find :
      (k : Text) (i n : ℕ) (l : Elements Rr)
      → IsLinked n l
      → find_key k l ≡ some i
      → (e : CacheEntry Rr) × (element i l ≡ some e)
        × (e.key ≡ k)
        × (lookup k (view l) ≡ some (e.msg, e.expiry))
        × (i < n)
  unfolding find_key view lookup element
  element_of_find k i n [] w h = cc
  element_of_find k i n ((j, e) ∷ l) w h = elim (Bool-cases (text_eq e.key k)) [
    | inl same ↦ (e, ground arith, (text_eq_iff e.key k).0 same, rw same, ground arith)
    | inr other ↦
        let h' : find_key k l ≡ some i = ground arith in
        let (e', found, key, seen, below) = element_of_find k i n l w.3 h' in
        (e', ground arith, key, rw other seen, below)
  ]

  -- Removing the element of a key drops that key, and keeps the others.
  pub find_key-remove :
      (k j : Text) (i n : ℕ) (l : Elements Rr)
      → IsLinked n l
      → find_key k l ≡ some i
      → find_key j (remove i l) ≡ (if text_eq k j then none else find_key j l)
  unfolding find_key remove element
  find_key-remove k j i n [] w h = cc
  find_key-remove k j i n ((i', e) ∷ l) w h = ground (
    arith,
    text_eq_iff k j,
    text_eq_iff e.key k,
    text_eq_iff e.key j,
    element_of_find k i n l,
    find_key-remove k j i n l,
  )

  pub view-remove :
      (k : Text) (i n : ℕ) (l : Elements Rr)
      → IsLinked n l
      → find_key k l ≡ some i
      → view (remove i l) ≡ erase k (view l)
  unfolding find_key remove view erase element
  view-remove k i n [] w h = cc
  view-remove k i n ((i', e) ∷ l) w h = ground (
    arith,
    text_eq_iff e.key k,
    element_of_find k i n l,
    erase-view_absent k l,
    view-remove k i n l,
  )

  element-remove : (j i : ℕ) (l : Elements Rr) → element j l ≡ none → element j (remove i l) ≡ none
  unfolding element remove
  element-remove j i [] h = refl
  element-remove j i ((a, e) ∷ l) h = ground (arith, element-remove j i l)

  -- A removal keeps the links, and its address is gone.
  pub remove-IsLinked :
      (k : Text) (i n : ℕ) (l : Elements Rr)
      → IsLinked n l
      → find_key k l ≡ some i
      → IsLinked n (remove i l) × (element i (remove i l) ≡ none)
  unfolding find_key remove element
  remove-IsLinked k i n [] w h = cc
  remove-IsLinked k i n ((j, e) ∷ l) w h = elim (Bool-cases (text_eq e.key k)) [
    | inl same ↦ let here : j ≡ i = ground arith in rw here (ground arith)
    | inr other ↦
        let h' : find_key k l ≡ some i = ground arith in
        let (kept, gone) = remove-IsLinked k i n l w.3 h' in
        ground (
          arith,
          element_of_find k i n l w.3 h',
          element-remove j i l,
          find_key-remove k e.key i n l w.3 h',
        )
  ]

  pub length-remove :
      (k : Text) (i n : ℕ) (l : Elements Rr)
      → IsLinked n l
      → find_key k l ≡ some i
      → length (remove i l) + 1 ≡ length l
  unfolding find_key remove element
  length-remove k i n [] w h = cc
  length-remove k i n ((j, e) ∷ l) w h =
      ground (arith, element_of_find k i n l, length-remove k i n l)

  -- Addresses that were never given out.
  pub element_of_le : (i n : ℕ) (l : Elements Rr) → IsLinked n l → n ≤ i → element i l ≡ none
  unfolding element
  element_of_le i n [] w h = refl
  element_of_le i n ((j, e) ∷ l) w h = ground (arith, element_of_le i n l)

  pub IsLinked-mono : (n : ℕ) (l : Elements Rr) → IsLinked n l → IsLinked (suc n) l
  IsLinked-mono n [] w = tt
  IsLinked-mono n ((j, e) ∷ l) w = (omega arith, w.1, w.2, IsLinked-mono n l w.3)

  -- The last element is the one that its key finds, and to remove it is to cut the view.
  pub back_lem :
      (x : ℕ × CacheEntry Rr) (n : ℕ) (l : Elements Rr)
      → IsLinked n (x ∷ l)
      → (i : ℕ) × (e : CacheEntry Rr) × (back (x ∷ l) ≡ some (i, e))
        × (find_key e.key (x ∷ l) ≡ some i)
        × (view (remove i (x ∷ l)) ≡ take (length l) (view (x ∷ l)))
  unfolding find_key remove element view back
  back_lem (j, e) n [] w = (j, e, refl, rw (text_eq_refl e.key), ground arith)
  back_lem (j, e) n (y ∷ l) w =
      let (i, e', last, found, cut) = back_lem y n l w.3 in
      let (e'', at, key, seen, below) = element_of_find e'.key i n (y ∷ l) w.3 found in
      (i, e', last, ground (arith, text_eq_iff e.key e'.key), ground arith)
