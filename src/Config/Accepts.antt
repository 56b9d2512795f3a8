-- ===== src/Config/Accepts.antt =====
-- `Validate` of config/config.go: the configurations it accepts, and how its test of an upstream
-- agrees with `ParseUpstream` of dns/upstream.go.
use zeus_dns_cli.Base.Int.{ℤ, pos, negsuc}
use zeus_dns_cli.Base.{
  ◌≢◌, ◌≤◌, ℕ, some, ◌++◌, has_prefix-append, Option-cases, ◌≡◌, ◌↔◌, ◌⊎◌, inl, inr, refl, true,
  false, Option, List, [], ◌∷◌, arith, Text, codes, has_prefix, to_lower, trim_space, not, ◌||◌,
  All, Bool-cases, Result, ok, err, ◌==◌, length, >>=-eq-ok, guard-eq-ok,
}
use zeus_dns_cli.Net.{IpLib, Url}
use zeus_dns_cli.Config.LogPath.{Within, validate_log_path-Within}
use zeus_dns_cli.Config.{
  default_dir, Config, has_scheme, check_upstreams, validate, port_in_range, is_some,
}
use zeus_dns_cli.Dns.Upstream.{
  UpstreamError, empty_resolver, unsupported, parse_upstream, parse_trimmed, parse_doh, parse_dot,
}

check_upstreams-All :
    (raws : List Text) → check_upstreams raws ≡ ok tt → All (λ raw. has_scheme raw ≡ true) raws
unfolding check_upstreams
check_upstreams-All [] h = tt
check_upstreams-All (raw ∷ raws) h = elim (Bool-cases (has_scheme raw)) [
  | inl t ↦ (t, check_upstreams-All raws (ground (arith, t)))
  | inr f ↦ ground (arith, f)
]

All-check_upstreams :
    (raws : List Text) → All (λ raw. has_scheme raw ≡ true) raws → check_upstreams raws ≡ ok tt
unfolding check_upstreams
All-check_upstreams [] h = refl
All-check_upstreams (raw ∷ raws) (t, h) = rw t (All-check_upstreams raws h)

-- A text that begins with a prefix.
abbrev pub Begins : Text → Text → Type 0
Begins p s = (rest : Text) × (s ≡ p ++ rest)

has_prefix-Begins : (s p : Text) → has_prefix s p ≡ true → Begins p s
unfolding has_prefix
has_prefix-Begins s [] h = (s, refl)
has_prefix-Begins [] (c ∷ p) h = cc
has_prefix-Begins (x ∷ s) (c ∷ p) h =
    let same : x ≡ c = ground arith in
    let (rest, e) = has_prefix-Begins s p (ground arith) in (rest, rw (same, e) refl)

Begins-has_prefix : (s p : Text) → Begins p s → has_prefix s p ≡ true
Begins-has_prefix s p (rest, e) = rw e (has_prefix-append p rest)

-- The address of a DoH or a DoT resolver, whatever the case of its scheme and the space around it.
abbrev pub IsAddress : Text → Type 0
IsAddress raw =
    let s = to_lower (trim_space raw) in
    Begins (codes "https://") s ⊎ Begins (codes "tls://") s ⊎ Begins (codes "dot://") s

has_scheme-IsAddress : (raw : Text) → (has_scheme raw ≡ true) ↔ IsAddress raw
unfolding has_scheme
has_scheme-IsAddress raw =
    let s = to_lower (trim_space raw) in
    (
      λ h. elim (Bool-cases (has_prefix s (codes "https://"))) [
        | inl t ↦ inl (has_prefix-Begins s _ t)
        | inr f ↦ elim (Bool-cases (has_prefix s (codes "tls://"))) [
          | inl t ↦ inr (inl (has_prefix-Begins s _ t))
          | inr g ↦ inr (inr (has_prefix-Begins s (codes "dot://") (ground (arith, h, f, g))))
        ]
      ],
      λ h. elim h [
        | inl t ↦ let e = Begins-has_prefix s (codes "https://") t in ground (arith, e)
        | inr (inl t) ↦ let e = Begins-has_prefix s (codes "tls://") t in ground (arith, e)
        | inr (inr t) ↦ let e = Begins-has_prefix s (codes "dot://") t in ground (arith, e)
      ],
    )

All-IsAddress : (raws : List Text) → All (λ raw. has_scheme raw ≡ true) raws → All IsAddress raws
All-IsAddress [] h = tt
All-IsAddress (raw ∷ raws) (t, h) = ((has_scheme-IsAddress raw).0 t, All-IsAddress raws h)

IsAddress-All : (raws : List Text) → All IsAddress raws → All (λ raw. has_scheme raw ≡ true) raws
IsAddress-All [] h = tt
IsAddress-All (raw ∷ raws) (t, h) = ((has_scheme-IsAddress raw).1 t, IsAddress-All raws h)

-- A port of TCP and UDP.
abbrev pub IsPort : ℤ → Type 0
IsPort p = (n : ℕ) × (p ≡ pos n) × (1 ≤ n) × (n ≤ 65535)

port_in_range-IsPort : (p : ℤ) → (port_in_range p ≡ true) ↔ IsPort p
port_in_range-IsPort (pos n) =
    (λ h. (n, refl, ground arith, ground arith), λ (m, e, l, u). ground (arith, e))
port_in_range-IsPort (negsuc n) = (λ h. cc, λ (m, e, l, u). cc)

module _ (abs : Text → Option Text) (I : IpLib) where
  -- What an accepted configuration has.
  pub record IsUsable (c : Config) : Type 0 where
    pub given : c.upstreams ≢ []
    pub port : IsPort c.listener.port
    pub ip : (ip : I.Ip) × (I.parse_ip c.listener.ip ≡ some ip)
    pub addresses : All IsAddress c.upstreams
    pub log : (c.log.path ≡ []) ⊎ ((a : Text) × (abs c.log.path ≡ some a) × Within default_dir a)

  given-guard : (us : List Text) → us ≢ [] → not (length us == 0) ≡ true
  given-guard [] h = absurd (h refl)
  given-guard (u ∷ us) h = ground arith

  -- `Validate` accepts exactly the configurations with an upstream, a port from 1 to 65535, a
  -- listener address that is an IP address, upstreams that all begin, trimmed and in lower case,
  -- with `https://`, `tls://` or `dot://`, and a log path that is empty or resolves to the
  -- program's directory or a path beneath it.
  pub validate-IsUsable : (c : Config) → (validate abs I c ≡ ok tt) ↔ IsUsable c
  unfolding validate
  validate-IsUsable c = (
    λ h.
        let (_, given, h1) = >>=-eq-ok _ _ h in
        let (_, port, h2) = >>=-eq-ok _ _ h1 in
        let (_, ip, h3) = >>=-eq-ok _ _ h2 in
        let (_, schemes, log) = >>=-eq-ok _ _ h3 in
        let filled : not (length c.upstreams == 0) ≡ true = guard-eq-ok _ _ given in
        let read : is_some (I.parse_ip c.listener.ip) ≡ true = guard-eq-ok _ _ ip in
        record {
          given = λ z. ground (arith, filled, z);
          port = (port_in_range-IsPort c.listener.port).0 (guard-eq-ok _ _ port);
          ip = elim (Option-cases (I.parse_ip c.listener.ip)) [
            | inl e ↦ absurd (ground (arith, read, e))
            | inr found ↦ found
          ];
          addresses = All-IsAddress c.upstreams (check_upstreams-All c.upstreams schemes);
          log = (validate_log_path-Within abs c.log.path).0 log;
        },
    λ u.
        let (ip, read) = u.ip in
        simp
          (
            given-guard c.upstreams u.given,
            (port_in_range-IsPort c.listener.port).1 u.port,
            read,
            All-check_upstreams c.upstreams (IsAddress-All c.upstreams u.addresses),
          )
          ((validate_log_path-Within abs c.log.path).1 u.log),
  )

-- `ParseUpstream` knows no protocol for the text.
abbrev pub IsUnknown : {A : Type 0} → Result UpstreamError A → Type 0
IsUnknown r = (r ≡ err empty_resolver) ⊎ ((s : Text) × (r ≡ err (unsupported s)))

parse_dot-IsUnknown : (raw : Text) → IsUnknown (parse_dot raw) → ⊥
unfolding parse_dot
parse_dot-IsUnknown raw h = ground (arith, h)

module _ (parse_url : Text → Option Url) where
  parse_doh-IsUnknown : (raw : Text) → IsUnknown (parse_doh parse_url raw) → ⊥
  unfolding parse_doh
  parse_doh-IsUnknown raw h = ground (arith, h)

  trimmed-IsUnknown :
      (s : Text)
      → (has_prefix (to_lower s) (codes "https://")
            || has_prefix (to_lower s) (codes "tls://")
            || has_prefix (to_lower s) (codes "dot://")
          ≡ false)
        ↔ IsUnknown (parse_trimmed parse_url s)
  unfolding parse_trimmed
  trimmed-IsUnknown [] = (λ h. inl refl, λ h. unfold has_prefix to_lower in refl)
  trimmed-IsUnknown (c ∷ r) =
      let s : Text = c ∷ r in
      elim (Bool-cases (has_prefix (to_lower s) (codes "https://"))) [
        | inl t ↦ rw t (λ h. cc, λ h. absurd (parse_doh-IsUnknown s h))
        | inr f ↦
            elim (Bool-cases (
              has_prefix (to_lower s) (codes "tls://")
              || has_prefix (to_lower s) (codes "dot://"))) [
                | inl t ↦ rw (f, t) (λ h. cc, λ h. absurd (parse_dot-IsUnknown s h))
                | inr g ↦ rw (f, g) (λ h. inr (s, refl), λ h. refl)
              ]
      ]

  -- `Validate` of the configuration refuses an upstream for its scheme exactly when
  -- `ParseUpstream`, which the server calls later, would find it empty or unsupported.
  parse_upstream-IsUnknown :
      (raw : Text) → (has_scheme raw ≡ false) ↔ IsUnknown (parse_upstream parse_url raw)
  unfolding parse_upstream has_scheme
  parse_upstream-IsUnknown raw = trimmed-IsUnknown (trim_space raw)
