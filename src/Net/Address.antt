-- ===== src/Net/Address.antt =====
-- `SplitHostPort` undoes `JoinHostPort`.
use mathlib.Core.List.{append_assoc}
use zeus_dns_cli.Base.{
  ℕ, ◌≡◌, refl, false, ◌||◌, none, some, [], ◌∷◌, ◌++◌, ◌==◌, inl, inr, Bool-cases, Option-cases,
  arith, Text, ok, err,
}
use zeus_dns_cli.Net.{
  has_byte, cut_first, cut_last, check_brackets, split_bracketed, split_plain, split_host_port,
  join_host_port, missing_port,
}

pub has_byte-append : (c : ℕ) (s t : Text) → has_byte c (s ++ t) ≡ (has_byte c s || has_byte c t)
unfolding has_byte
has_byte-append c [] t = refl
has_byte-append c (x ∷ s) t = ground (arith, has_byte-append c s t)

cut_first-append :
    (c : ℕ) (s t : Text) → has_byte c s ≡ false → cut_first c (s ++ c ∷ t) ≡ some (s, t)
unfolding has_byte cut_first
cut_first-append c [] t h = ground arith
cut_first-append c (x ∷ s) t h = ground (arith, cut_first-append c s t)

cut_last-none : (c : ℕ) (s : Text) → has_byte c s ≡ false → cut_last c s ≡ none
unfolding has_byte cut_last
cut_last-none c [] h = refl
cut_last-none c (x ∷ s) h = ground (arith, cut_last-none c s)

cut_last-append :
    (c : ℕ) (s t : Text) → has_byte c t ≡ false → cut_last c (s ++ c ∷ t) ≡ some (s, t)
unfolding cut_last
cut_last-append c [] t h = ground (arith, cut_last-none c t h)
cut_last-append c (x ∷ s) t h = ground (arith, cut_last-append c s t h)

-- A text with none of the bytes that an address is split at.
abbrev pub IsPlainPort : Text → Type 0
IsPlainPort s = (has_byte b':' s ≡ false) × (has_byte b'[' s ≡ false) × (has_byte b']' s ≡ false)

abbrev pub IsBare : Text → Type 0
IsBare s = (has_byte b'[' s ≡ false) × (has_byte b']' s ≡ false)

split_plain-join :
    (host port : Text)
    → has_byte b':' host ≡ false
    → IsBare host
    → IsPlainPort port
    → split_host_port (host ++ b':' ∷ port) ≡ ok (host, port)
unfolding split_host_port split_plain check_brackets has_byte
split_plain-join [] port h b p = ground (arith, cut_last-append b':' [] port p.0)
split_plain-join (x ∷ host) port h b p = ground (
  arith,
  cut_last-append b':' (x ∷ host) port p.0,
  has_byte-append b':' host (b':' ∷ port),
  has_byte-append b'[' host (b':' ∷ port),
  has_byte-append b']' host (b':' ∷ port),
)

split_bracketed-join :
    (host port : Text)
    → IsBare host
    → IsPlainPort port
    → split_host_port (b'[' ∷ (host ++ b']' ∷ b':' ∷ port)) ≡ ok (host, port)
unfolding split_host_port split_bracketed check_brackets has_byte
split_bracketed-join host port b p = ground (
  arith,
  cut_first-append b']' host (b':' ∷ port) b.1,
  has_byte-append b':' host (b']' ∷ b':' ∷ port),
  has_byte-append b'[' host (b']' ∷ b':' ∷ port),
)

-- A bracketed text with no port is refused, and so is one with a second pair of brackets.
pub split_host_port-bracketed :
    (host : Text) → IsBare host → split_host_port (b'[' ∷ (host ++ b']' ∷ [])) ≡ err missing_port
unfolding split_host_port split_bracketed has_byte
split_host_port-bracketed host b =
    ground (arith, cut_first-append b']' host [] b.1, has_byte-append b':' host (b']' ∷ []))

pub split_host_port-double :
    (host port : Text)
    → IsBare host
    → split_host_port (b'[' ∷ ((b'[' ∷ (host ++ b']' ∷ [])) ++ b']' ∷ b':' ∷ port))
      ≡ err missing_port
unfolding split_host_port split_bracketed has_byte cut_first
split_host_port-double host port b = ground (
  arith,
  append_assoc host (b']' ∷ []) (b']' ∷ b':' ∷ port),
  cut_first-append b']' host (b']' ∷ b':' ∷ port) b.1,
  has_byte-append b':' host (b']' ∷ b']' ∷ b':' ∷ port),
)

-- An address that `JoinHostPort` makes of a host without brackets and a port without brackets and
-- colons splits into that host and port again, be the host an IPv6 address with colons or not.
pub split_host_port-join_host_port :
    (host port : Text)
    → IsBare host
    → IsPlainPort port
    → split_host_port (join_host_port host port) ≡ ok (host, port)
unfolding join_host_port
split_host_port-join_host_port host port b p = elim (Bool-cases (has_byte b':' host)) [
  | inl v6 ↦ rw (v6, join_host_port) (split_bracketed-join host port b p)
  | inr v4 ↦ rw (v4, join_host_port) (split_plain-join host port v4 b p)
]

cut_first-parts :
    (c : ℕ) (s : Text) {a b : Text}
    → cut_first c s ≡ some (a, b)
    → (s ≡ a ++ c ∷ b) × (has_byte c a ≡ false)
unfolding cut_first has_byte
cut_first-parts c [] h = cc
cut_first-parts c (x ∷ s) {a} {b} h = elim (Bool-cases (x == c)) [
  | inl here ↦ ground arith
  | inr on ↦ elim (Option-cases (cut_first c s)) [
    | inl missing ↦ absurd (ground arith)
    | inr (p, found) ↦
        let (whole, free) = cut_first-parts c s {a = p.0} {b = p.1} found in
        let front : a ≡ x ∷ p.0 = ground arith in
        let behind : b ≡ p.1 = ground arith in (cc, rw front (ground arith))
  ]
]

has_byte_of_cut : (c : ℕ) (s : Text) → cut_last c s ≡ none → has_byte c s ≡ false
unfolding cut_last has_byte
has_byte_of_cut c [] h = refl
has_byte_of_cut c (x ∷ s) h = ground (arith, has_byte_of_cut c s)

cut_last-parts :
    (c : ℕ) (s : Text) {a b : Text}
    → cut_last c s ≡ some (a, b)
    → (s ≡ a ++ c ∷ b) × (has_byte c b ≡ false)
unfolding cut_last has_byte
cut_last-parts c [] h = cc
cut_last-parts c (x ∷ s) {a} {b} h = elim (Option-cases (cut_last c s)) [
  | inl last ↦
      let free : has_byte c s ≡ false = has_byte_of_cut c s last in
      let same : x ≡ c = ground arith in
      let front : a ≡ [] = ground arith in let behind : b ≡ s = ground arith in (cc, cc)
  | inr (p, found) ↦
      let (whole, free) = cut_last-parts c s {a = p.0} {b = p.1} found in
      let front : a ≡ x ∷ p.0 = ground arith in let behind : b ≡ p.1 = ground arith in (cc, cc)
]

check_brackets-parts :
    (opens closes : Text) (p : Text × Text) {q : Text × Text}
    → check_brackets opens closes p ≡ ok q
    → (has_byte b'[' opens ≡ false) × (has_byte b']' closes ≡ false) × (p ≡ q)
unfolding check_brackets
check_brackets-parts opens closes p h = ground arith

split_plain-parts :
    (s host port : Text) → split_plain s ≡ ok (host, port) → IsBare host × IsPlainPort port
unfolding split_plain has_byte
split_plain-parts s host port h = elim (Option-cases (cut_last b':' s)) [
  | inl missing ↦ absurd (ground arith)
  | inr ((a, b), found) ↦ elim (Bool-cases (has_byte b':' a)) [
    | inl more ↦ absurd (ground arith)
    | inr one ↦
        let (whole, free) = cut_last-parts b':' s found in
        let h' : check_brackets s s (a, b) ≡ ok (host, port) = ground arith in
        let (opens, closes, same) = check_brackets-parts s s (a, b) h' in
        ground (arith, has_byte-append b'[' a (b':' ∷ b), has_byte-append b']' a (b':' ∷ b))
  ]
]

bracketed-parts :
    (t a b host port : Text)
    → cut_first b']' t ≡ some (a, b)
    → split_bracketed t ≡ ok (host, port)
    → IsBare host × IsPlainPort port
unfolding split_bracketed has_byte
bracketed-parts t a [] host port found h = absurd (ground arith)
bracketed-parts t a (d ∷ p) host port found h = elim (Bool-cases (d == b':')) [
  | inr other ↦ absurd (ground arith)
  | inl colon ↦ elim (Bool-cases (has_byte b':' p)) [
    | inl more ↦ absurd (ground arith)
    | inr one ↦
        let (whole, free) = cut_first-parts b']' t found in
        let h' : check_brackets t (d ∷ p) (a, p) ≡ ok (host, port) = ground arith in
        let (opens, closes, same) = check_brackets-parts t (d ∷ p) (a, p) h' in
        ground (arith, has_byte-append b'[' a (b']' ∷ d ∷ p))
  ]
]

split_bracketed-parts :
    (t host port : Text) → split_bracketed t ≡ ok (host, port) → IsBare host × IsPlainPort port
unfolding split_bracketed
split_bracketed-parts t host port h = elim (Option-cases (cut_first b']' t)) [
  | inl missing ↦ absurd (ground arith)
  | inr ((a, b), found) ↦ bracketed-parts t a b host port found h
]

-- Both parts of an address that `SplitHostPort` returns are free of brackets, and the port of
-- colons too.
pub split_host_port-parts :
    (s host port : Text) → split_host_port s ≡ ok (host, port) → IsBare host × IsPlainPort port
unfolding split_host_port
split_host_port-parts [] host port h = cc
split_host_port-parts (c ∷ t) host port h =
    ground (arith, split_plain-parts (c ∷ t) host port, split_bracketed-parts t host port)
