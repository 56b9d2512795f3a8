-- ===== src/Base/Pieces.antt =====
-- Texts cut at a separator, and texts without white space: what `split`, `join` and `trim_space` of
-- Bytes make of them.
use Prim.Native.Nat.{ℕ}
use mathlib.Core.Path.{◌≡◌, refl, ap, ◌∙◌}
use mathlib.Core.Logic.{inl, inr}
use mathlib.Core.Bool.{true, false}
use mathlib.Core.List.{List, [], ◌∷◌, ◌++◌, reverse, append-nil, append_assoc, reverse-cons}
use native.Mathlib.Omega.{arith}
use zeus_dns_cli.Base.Tests.{◌==◌, if◌then◌else◌, Bool-cases}
use zeus_dns_cli.Base.Lists.{All}
use zeus_dns_cli.Base.Bytes.{
  Text, split, split_loop, join, has_prefix, is_space, trim_left, trim_right, trim_space,
}

-- The byte does not stand in the text.
abbrev pub Without : ℕ → Text → Type 0
Without sep s = All (λ c. (c == sep) ≡ false) s

shifted : (c : ℕ) (piece x : Text) → reverse (c ∷ piece) ++ x ≡ reverse piece ++ (c ∷ x)
shifted c piece x = rw (reverse-cons c piece) (append_assoc (reverse piece) (c ∷ []) x)

split_loop-piece :
    (sep : ℕ) (x piece s : Text)
    → Without sep x
    → split_loop piece (x ++ (sep ∷ s)) sep ≡ (reverse piece ++ x) ∷ split_loop [] s sep
unfolding split_loop
split_loop-piece sep [] piece s h =
    let same : (sep == sep) ≡ true = ground arith in
    rw (same, split_loop) (rw (append-nil (reverse piece)))
split_loop-piece sep (c ∷ x) piece s (h, hs) =
    rw (h, split_loop)
      (split_loop-piece sep x (c ∷ piece) s hs
        ∙ ap (λ l. l ∷ split_loop [] s sep) (shifted c piece x))

split_loop-last :
    (sep : ℕ) (x piece : Text) → Without sep x → split_loop piece x sep ≡ (reverse piece ++ x) ∷ []
unfolding split_loop
split_loop-last sep [] piece h = rw (append-nil (reverse piece))
split_loop-last sep (c ∷ x) piece (h, hs) =
    rw (h, split_loop) (split_loop-last sep x (c ∷ piece) hs ∙ ap (λ l. l ∷ []) (shifted c piece x))

-- The first piece of a text, and the only one.
pub split-first :
    (sep : ℕ) (x s : Text) → Without sep x → split (x ++ (sep ∷ s)) sep ≡ x ∷ split s sep
unfolding split
split-first sep x s h = split_loop-piece sep x [] s h

pub split-last : (sep : ℕ) (x : Text) → Without sep x → split x sep ≡ x ∷ []
unfolding split
split-last sep x h = split_loop-last sep x [] h

pub split-join :
    (sep : ℕ) (p : Text) (ps : List Text)
    → All (Without sep) (p ∷ ps)
    → split (join (p ∷ ps) (sep ∷ [])) sep ≡ p ∷ ps
unfolding join
split-join sep p [] (h, _) = split-last sep p h
split-join sep p (q ∷ ps) (h, hs) =
    split-first sep p (join (q ∷ ps) (sep ∷ [])) h ∙ ap (λ l. p ∷ l) (split-join sep q ps hs)

-- No byte of the text is white space.
abbrev pub IsDense : Text → Type 0
IsDense s = All (λ c. is_space c ≡ false) s

trim_right-dense : (s : Text) → IsDense s → trim_right s ≡ s
unfolding trim_right
trim_right-dense [] h = refl
trim_right-dense (c ∷ []) (h, _) = rw (h, trim_right)
trim_right-dense (c ∷ d ∷ s) (h, hs) = rw (trim_right-dense (d ∷ s) hs, trim_right)

pub trim_space-dense : (s : Text) → IsDense s → trim_space s ≡ s
unfolding trim_space trim_left
trim_space-dense [] h = unfold trim_right in refl
trim_space-dense (c ∷ s) (h, hs) = rw (h, trim_left) (trim_right-dense (c ∷ s) (h, hs))

-- A text up to a byte that is no white space stays where the end is trimmed.
pub trim_right-append :
    (p : Text) (c : ℕ) (s : Text)
    → is_space c ≡ false
    → trim_right (p ++ (c ∷ s)) ≡ p ++ (c ∷ trim_right s)
unfolding trim_right
trim_right-append [] c s h =
    elim (trim_right s)
      as (λ t. elim t [ [] ↦ if is_space c then [] else c ∷ [] | d ∷ u ↦ c ∷ d ∷ u ] ≡ c ∷ t) [
        | [] ↦ rw h
        | d ∷ u ↦ refl
      ]
trim_right-append (d ∷ []) c s h = rw (trim_right-append [] c s h, trim_right)
trim_right-append (d ∷ e ∷ p) c s h = rw (trim_right-append (e ∷ p) c s h, trim_right)

-- A prefix of a text without white space has none.
pub has_prefix-IsDense : (s p : Text) → has_prefix s p ≡ true → IsDense s → IsDense p
unfolding has_prefix
has_prefix-IsDense s [] e h = tt
has_prefix-IsDense [] (y ∷ p) e h = cc
has_prefix-IsDense (x ∷ s) (y ∷ p) e (h, hs) = elim (Bool-cases (x == y)) [
  | inr apart ↦ absurd (ground (arith, apart))
  | inl same ↦
      let e' : has_prefix s p ≡ true = ground (arith, same) in
      let eq : x ≡ y = ground (arith, same) in (rw eq at h, has_prefix-IsDense s p e' hs)
]

pub has_prefix-append : (p s : Text) → has_prefix (p ++ s) p ≡ true
unfolding has_prefix
has_prefix-append [] [] = refl
has_prefix-append [] (c ∷ s) = refl
has_prefix-append (x ∷ p) s = ground (arith, has_prefix-append p s)
