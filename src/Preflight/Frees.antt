-- ===== src/Preflight/Frees.antt =====
-- `Preflight` of cmd/util.go: when it finds the port free.
use mathlib.Core.Path.{subst}
use zeus_dns_cli.Base.{
  ℕ, zero, suc, ◌+◌, ◌≡◌, ◌↔◌, ◌⊎◌, inl, inr, true, false, Option, none, some, arith, codes,
  to_lower, contains, Option-cases, Bool-cases, Result-cases, ok, err, sym, ◌∙◌,
}
use zeus_dns_cli.Preflight.{
  BindError, is_addr_in_use, PreflightError, bind_error, udp_in_use, tcp_in_use, max_retries,
  probe_loop, preflight,
}

-- The error says that the port is held: WSAEADDRINUSE, or such words where it wraps no number.
abbrev pub IsHeld : BindError → Type 0
IsHeld e = elim e.errno [
  | some n ↦ n ≡ 10048
  | none ↦
      (contains (to_lower e.text) (codes "in use") ≡ true)
      ⊎ (contains (to_lower e.text) (codes "address already in use") ≡ true)
]

is_addr_in_use-IsHeld : (e : BindError) → (is_addr_in_use e ≡ true) ↔ IsHeld e
unfolding is_addr_in_use
is_addr_in_use-IsHeld e = ground arith

-- One of `left` attempts from `i` on binds the port, and all before it find it held.
abbrev pub FreeWithin : (ℕ → Option BindError) → ℕ → ℕ → Type 0
FreeWithin attempt zero i = ⊥
FreeWithin attempt (suc left) i =
    (attempt i ≡ none)
    ⊎ ((e : BindError) × (attempt i ≡ some e) × IsHeld e × FreeWithin attempt left (i + 1))

-- One attempt: behind a held port the loop goes on, if there is an attempt left.
probe_loop_held :
    (busy : PreflightError) (attempt : ℕ → Option BindError) (left i : ℕ) (e : BindError)
    → attempt i ≡ some e
    → is_addr_in_use e ≡ true
    → (probe_loop busy attempt (suc (suc left)) i ≡ probe_loop busy attempt (suc left) (i + 1))
      × (probe_loop busy attempt 1 i ≡ err busy)
unfolding probe_loop
probe_loop_held busy attempt left i e a h = (ground (arith, a, h), ground (arith, a, h))

probe_loop_failed :
    (busy : PreflightError) (attempt : ℕ → Option BindError) (left i : ℕ) (e : BindError)
    → attempt i ≡ some e
    → is_addr_in_use e ≡ false
    → probe_loop busy attempt (suc left) i ≡ err (bind_error e)
unfolding probe_loop
probe_loop_failed busy attempt left i e a h = ground (arith, a, h)

probe_loop_free :
    (busy : PreflightError) (attempt : ℕ → Option BindError) (left i : ℕ)
    → attempt i ≡ none
    → probe_loop busy attempt (suc left) i ≡ ok tt
unfolding probe_loop
probe_loop_free busy attempt left i a = ground (arith, a)

-- What is left to find behind a first attempt that fails.
FreeWithin-later :
    (attempt : ℕ → Option BindError) (left i : ℕ) (e : BindError)
    → attempt i ≡ some e
    → FreeWithin attempt (suc left) i
    → IsHeld e × FreeWithin attempt left (i + 1)
FreeWithin-later attempt left i e a (inl n) = cc
FreeWithin-later attempt left i e a (inr (e', a', held, rest)) =
    let same : e' ≡ e = cc in (subst IsHeld (same) held, rest)

probe_loop-FreeWithin :
    (busy : PreflightError) (attempt : ℕ → Option BindError) (left i : ℕ)
    → (probe_loop busy attempt (suc left) i ≡ ok tt) ↔ FreeWithin attempt (suc left) i
probe_loop-FreeWithin busy attempt zero i = elim (Option-cases (attempt i)) [
  | inl n ↦ (λ h. inl n, λ h. probe_loop_free busy attempt 0 i n)
  | inr (e, a) ↦ elim (Bool-cases (is_addr_in_use e)) [
    | inr f ↦ (
      λ h. let failed = probe_loop_failed busy attempt 0 i e a f in cc,
      λ h. let held = (is_addr_in_use-IsHeld e).1 (FreeWithin-later attempt 0 i e a h).0 in cc,
    )
    | inl t ↦ (
      λ h. let last = (probe_loop_held busy attempt 0 i e a t).1 in cc,
      λ h. absurd (FreeWithin-later attempt 0 i e a h).1,
    )
  ]
]
probe_loop-FreeWithin busy attempt (suc left) i =
    let (there, back) = probe_loop-FreeWithin busy attempt left (i + 1) in
    elim (Option-cases (attempt i)) [
      | inl n ↦ (λ h. inl n, λ h. probe_loop_free busy attempt (suc left) i n)
      | inr (e, a) ↦ elim (Bool-cases (is_addr_in_use e)) [
        | inr f ↦ (
          λ h. let failed = probe_loop_failed busy attempt (suc left) i e a f in cc,
          λ h.
              let held =
                (is_addr_in_use-IsHeld e).1 (FreeWithin-later attempt (suc left) i e a h).0 in
              cc,
        )
        | inl t ↦
            let on = (probe_loop_held busy attempt left i e a t).0 in
            (
              λ h. inr (e, a, (is_addr_in_use-IsHeld e).0 t, there (sym on ∙ h)),
              λ h. on ∙ back (FreeWithin-later attempt (suc left) i e a h).1,
            )
      ]
    ]

-- The check passes exactly when, for UDP and then for TCP, one of six attempts binds the port and
-- all before it fail with WSAEADDRINUSE, or with a text about a port in use where the error wraps no
-- number: any other error, also WSAEACCES for missing rights, ends it at once.
pub preflight-FreeWithin :
    (udp tcp : ℕ → Option BindError)
    → (preflight udp tcp ≡ ok tt) ↔ (FreeWithin udp max_retries 0 × FreeWithin tcp max_retries 0)
unfolding preflight
preflight-FreeWithin udp tcp =
    let (udp_there, udp_back) = probe_loop-FreeWithin udp_in_use udp 5 0 in
    let (tcp_there, tcp_back) = probe_loop-FreeWithin tcp_in_use tcp 5 0 in
    elim (Result-cases (probe_loop udp_in_use udp max_retries 0)) [
      | inl (u, e) ↦ simp (e, preflight) (λ h. (udp_there e, tcp_there h), λ h. tcp_back h.1)
      | inr (x, e) ↦ simp (e, preflight) (λ h. cc, λ h. let f = udp_back h.0 in cc)
    ]
