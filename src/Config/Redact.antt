-- ===== src/Config/Redact.antt =====
-- `RedactURL` of config/config.go: what of a resolver's address is displayed.
use mathlib.Core.List.{append_assoc}
use zeus_dns_cli.Base.{
  take-drop, ℕ, zero, suc, ap, ◌||◌, if◌then◌else◌, ◌+◌, ◌≡◌, inl, inr, refl, sym, true, false,
  List, [], ◌∷◌, ◌++◌, arith, Text, codes, text_eq, has_prefix, Any, Bool-cases, err, ◌==◌, ◌∙◌,
  length, take, drop, text_eq_iff, to_lower, trim_space, trim_left, trim_right, List-cases,
  length-append,
}
use zeus_dns_cli.Net.{has_byte}
use zeus_dns_cli.Config.{third_slash, redact_url, has_scheme, check_upstreams, bad_upstream}

third_slash_last :
    (i : ℕ) (host tail : Text)
    → has_byte b'/' host ≡ false
    → third_slash 2 i (host ++ (b'/' ∷ tail)) ≡ i + length host
unfolding third_slash has_byte
third_slash_last i [] tail h = omega arith
third_slash_last i (c ∷ host) tail h = ground (arith, third_slash_last (i + 1) host tail)

third_slash_none : (i : ℕ) (host : Text) → has_byte b'/' host ≡ false → third_slash 2 i host ≡ 0
unfolding third_slash has_byte
third_slash_none i [] h = refl
third_slash_none i (c ∷ host) h = ground (arith, third_slash_none (i + 1) host)

take-append : (a b : Text) (n k : ℕ) → k ≡ length a + n → take k (a ++ b) ≡ a ++ take n b
take-append [] b n k e = let same : k ≡ n = omega arith in rw same refl
take-append (c ∷ a) b n zero e = absurd (omega arith)
take-append (c ∷ a) b n (suc k) e = ap (◌∷◌ c) (take-append a b n k (omega arith))

-- `RedactURL` behind the scheme, the third slash at `m`.
redact_https :
    (s : Text) (m : ℕ)
    → third_slash 2 8 s ≡ m
    → redact_url (codes "https://" ++ s) ≡ (
        if m == 0 || m == length s + 7
        then codes "https://" ++ s
        else take (m + 1) (codes "https://" ++ s) ++ codes "***")
unfolding redact_url third_slash text_eq
redact_https s m e = ground (arith, e)

redact_slash :
    (host : Text)
    → has_byte b'/' host ≡ false
    → redact_url (codes "https://" ++ (host ++ codes "/")) ≡ codes "https://" ++ (host ++ codes "/")
redact_slash host h =
    let e = redact_https (host ++ codes "/") (8 + length host) (third_slash_last 8 host [] h) in
    ground (arith, e, length-append host (codes "/"))

redact_path :
    (host : Text) (c : ℕ) (path : Text)
    → has_byte b'/' host ≡ false
    → redact_url (codes "https://" ++ (host ++ (b'/' ∷ c ∷ path)))
      ≡ codes "https://" ++ (host ++ codes "/***")
redact_path host c path h =
    let e =
      redact_https (host ++ (b'/' ∷ c ∷ path)) (8 + length host)
        (third_slash_last 8 host (c ∷ path) h) in
    let t =
      take-append (codes "https://" ++ host) (b'/' ∷ c ∷ path) 1 (8 + length host + 1)
        (omega arith) in
    ground (
      arith,
      e,
      t,
      length-append host (b'/' ∷ c ∷ path),
      append_assoc host (codes "/") (codes "***"),
    )

-- The display of an address `https://host...`, the host without a slash: with no path or the path
-- `/` it is the address itself, and of any longer path only `***` is left.
redact_url_lem :
    (host : Text)
    → has_byte b'/' host ≡ false
    → (redact_url (codes "https://" ++ host) ≡ codes "https://" ++ host)
      × (redact_url (codes "https://" ++ (host ++ codes "/"))
          ≡ codes "https://" ++ (host ++ codes "/"))
      × ((c : ℕ) (path : Text)
          → redact_url (codes "https://" ++ (host ++ (b'/' ∷ c ∷ path)))
            ≡ codes "https://" ++ (host ++ codes "/***"))
redact_url_lem host h = (
  redact_https host 0 (third_slash_none 8 host h),
  redact_slash host h,
  λ c path. redact_path host c path h,
)

https-has_scheme : (s : Text) → has_scheme (codes "https://" ++ s) ≡ true
unfolding has_scheme trim_space trim_left trim_right to_lower has_prefix
https-has_scheme s = elim (List-cases (trim_right s)) [
  | inl e ↦ rw e refl
  | inr (c, r, e) ↦ rw e refl
]

redact_url-verbatim : (raw : Text) → has_scheme raw ≡ false → redact_url raw ≡ raw
unfolding redact_url
redact_url-verbatim raw h = elim (Bool-cases (text_eq (take 8 raw) (codes "https://"))) [
  | inl t ↦
      let parts : raw ≡ codes "https://" ++ drop 8 raw =
        sym (take-drop 8 raw)
        ∙ ap (λ p. p ++ drop 8 raw) ((text_eq_iff (take 8 raw) (codes "https://")).0 t) in
      let shown : has_scheme raw ≡ true = rw parts (https-has_scheme (drop 8 raw)) in cc
  | inr f ↦ ground (arith, f)
]

-- `Validate` refuses an upstream under its own text: what `RedactURL` would hide cannot stand there.
check_upstreams-verbatim :
    (raws : List Text) (shown : Text)
    → check_upstreams raws ≡ err (bad_upstream shown)
    → Any (λ raw. (raw ≡ shown) × (has_scheme raw ≡ false)) raws
unfolding check_upstreams
check_upstreams-verbatim [] shown h = ground arith
check_upstreams-verbatim (raw ∷ raws) shown h = elim (Bool-cases (has_scheme raw)) [
  | inl t ↦ inr (check_upstreams-verbatim raws shown (ground (arith, t)))
  | inr f ↦
      let e : redact_url raw ≡ shown = ground (arith, f) in
      inl (rw (redact_url-verbatim raw f) at e, f)
]
