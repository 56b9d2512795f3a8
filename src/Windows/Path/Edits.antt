-- ===== src/Windows/Path/Edits.antt =====
-- The edits of PATH of windows/path.go: what an addition followed by a removal leaves, and what an
-- addition does to a PATH of one entry.
use zeus_dns_cli.Base.{
  suc, ◌≡◌, inl, inr, refl, sym, ap, Bool, true, false, not, List, [], ◌∷◌, ◌++◌, arith, is_empty,
  Text, codes, equal_fold, to_lower, join, split-join, Without, All, All-append, Bool-cases,
  text_eq_refl, text_eq_iff, length, length-append,
}
use zeus_dns_cli.Windows.Path.{
  where_object, parts, contains_entry, plus_entry, add_to_path, remove_from_path,
}
use mathlib.Core.List.{append_assoc}

-- An entry is a text that is not empty and has no separator.
abbrev pub IsEntry : Text → Type 0
IsEntry s = (is_empty s ≡ false) × Without b';' s

where_object-all :
    (keep : Text → Bool) (ps : List Text) → All (λ s. keep s ≡ true) ps → where_object keep ps ≡ ps
unfolding where_object
where_object-all keep [] h = refl
where_object-all keep (p ∷ ps) (h, hs) = rw (h, where_object-all keep ps hs)

filled : (ps : List Text) → All IsEntry ps → All (λ s. not (is_empty s) ≡ true) ps
filled [] h = tt
filled (p ∷ ps) ((h, _), hs) = (rw h, filled ps hs)

separate : (ps : List Text) → All IsEntry ps → All (Without b';') ps
separate [] h = tt
separate (p ∷ ps) ((_, h), hs) = (h, separate ps hs)

-- The entries of a PATH that is made of them.
parts-join :
    (p : Text) (ps : List Text) → All IsEntry (p ∷ ps) → parts (join (p ∷ ps) (codes ";")) ≡ p ∷ ps
unfolding parts
parts-join p ps h =
    rw (split-join b';' p ps (separate (p ∷ ps) h))
      (where_object-all (λ s. not (is_empty s)) (p ∷ ps) (filled (p ∷ ps) h))

-- The entry is not in the list, whatever the case of its letters.
abbrev pub Lacks : Text → List Text → Type 0
Lacks d ps = All (λ s. equal_fold s d ≡ false) ps

contains-Lacks : (d : Text) (ps : List Text) → Lacks d ps → contains_entry d ps ≡ false
unfolding contains_entry
contains-Lacks d [] h = refl
contains-Lacks d (p ∷ ps) (h, hs) = rw (h, contains_entry) (contains-Lacks d ps hs)

equal_fold_refl : (s : Text) → equal_fold s s ≡ true
unfolding equal_fold
equal_fold_refl s = text_eq_refl (to_lower s)

removed :
    (d : Text) (ps : List Text)
    → Lacks d ps
    → where_object (λ s. not (equal_fold s d)) (ps ++ (d ∷ [])) ≡ ps
unfolding where_object
removed d [] h = rw (equal_fold_refl d, where_object)
removed d (p ∷ ps) (h, hs) = rw (h, removed d ps hs)

length-to_lower : (s : Text) → length (to_lower s) ≡ length s
unfolding to_lower
length-to_lower [] = refl
length-to_lower (c ∷ s) = ap suc (length-to_lower s)

equal_fold-length : (s t : Text) → equal_fold s t ≡ true → length s ≡ length t
unfolding equal_fold
equal_fold-length s t h = omega (
  arith,
  length-to_lower s,
  length-to_lower t,
  ap length ((text_eq_iff (to_lower s) (to_lower t)).0 h),
)

join-snoc :
    (p : Text) (ps : List Text) (d : Text)
    → join ((p ∷ ps) ++ (d ∷ [])) (codes ";") ≡ join (p ∷ ps) (codes ";") ++ (b';' ∷ d)
unfolding join
join-snoc p [] d = refl
join-snoc p (q ∷ ps) d =
    rw (join-snoc q ps d) (sym (append_assoc p (b';' ∷ join (q ∷ ps) (codes ";")) (b';' ∷ d)))

longer :
    (p : Text) (ps : List Text) (d : Text)
    → equal_fold (join ((p ∷ ps) ++ (d ∷ [])) (codes ";")) (join (p ∷ ps) (codes ";")) ≡ false
longer p ps d =
    elim (Bool-cases
      (equal_fold (join ((p ∷ ps) ++ (d ∷ [])) (codes ";")) (join (p ∷ ps) (codes ";")))) [
        | inr e ↦ e
        | inl e ↦ absurd (
            omega (
              arith,
              equal_fold-length _ _ e,
              ap length (join-snoc p ps d),
              length-append (join (p ∷ ps) (codes ";")) (b';' ∷ d),
            ))
      ]

added :
    (d p q : Text) (ps : List Text)
    → All IsEntry (p ∷ q ∷ ps)
    → Lacks d (p ∷ q ∷ ps)
    → add_to_path d (join (p ∷ q ∷ ps) (codes ";")) ≡ join ((p ∷ q ∷ ps) ++ (d ∷ [])) (codes ";")
unfolding add_to_path plus_entry
added d p q ps h l = rw (parts-join p (q ∷ ps) h, contains-Lacks d (p ∷ q ∷ ps) l)

-- The removal of an entry undoes its addition to a PATH of two entries or more, none of them empty
-- (so with no separator at an end and no two in a row), that lacks it, whatever the case of its
-- letters: the addition appends it, and the removal gives the old PATH back. The entry itself is
-- not empty and has no separator.
pub remove-add :
    (d p q : Text) (ps : List Text)
    → All IsEntry (p ∷ q ∷ ps)
    → IsEntry d
    → Lacks d (p ∷ q ∷ ps)
    → (add_to_path d (join (p ∷ q ∷ ps) (codes ";")) ≡ join ((p ∷ q ∷ ps) ++ (d ∷ [])) (codes ";"))
      × (remove_from_path d (add_to_path d (join (p ∷ q ∷ ps) (codes ";")))
          ≡ join (p ∷ q ∷ ps) (codes ";"))
unfolding remove_from_path
remove-add d p q ps h e l =
    let all : All IsEntry ((p ∷ q ∷ ps) ++ (d ∷ [])) =
      All-append IsEntry (p ∷ q ∷ ps) (d ∷ []) h (e, tt) in
    (
      added d p q ps h l,
      rw (
        added d p q ps h l,
        parts-join p ((q ∷ ps) ++ (d ∷ [])) all,
        removed d (p ∷ q ∷ ps) l,
        longer p (q ∷ ps) d,
      ),
    )

-- Where PATH has one entry, the addition of another spoils it: the two are joined to one entry with
-- no separator.
pub add_to_path_single :
    (d p : Text) → IsEntry p → equal_fold p d ≡ false → add_to_path d p ≡ p ++ d
unfolding add_to_path plus_entry join contains_entry
add_to_path_single d p h l = rw (parts-join p [] (h, tt), l, contains_entry)
