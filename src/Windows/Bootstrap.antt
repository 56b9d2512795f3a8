-- ===== src/Windows/Bootstrap.antt =====
-- `GetBootstrapDNS` of windows/dns.go: what the bootstrap servers are.
use zeus_dns_cli.Base.{
  ◌↔◌, some, Option-cases, ◌≡◌, ◌≢◌, ◌⊎◌, inl, inr, refl, true, false, ◌||◌, not, List, [], ◌∷◌,
  ◌++◌, if◌then◌else◌, arith, Text, text_eq, text_eq_iff, text_eq_refl, sym, ok_inj, All, Any,
  All-append, Bool-cases, List-cases, Result, ok, err,
}
use zeus_dns_cli.Net.{IpLib}
use zeus_dns_cli.Windows.{
  Iface, DnsError, is_usable, is_seen, take_servers, take_ifaces, get_bootstrap_dns,
  public_bootstrap,
}

module _ (I : IpLib) where
  -- No text stands twice.
  abbrev Distinct : List Text → Type 0
  Distinct [] = Unit
  Distinct (s ∷ ss) = (is_seen I s ss ≡ false) × Distinct ss

  abbrev pub Nodup : List Text → Type 0
  Nodup [] = Unit
  Nodup (s ∷ ss) = (¬ Any (λ x. x ≡ s) ss) × Nodup ss

  -- The address of a resolver that can be asked from here.
  abbrev pub Usable : Text → Type 0
  Usable s =
      (ip : I.Ip) × (I.parse_ip s ≡ some ip)
      × (I.is_loopback ip ≡ false)
      × (I.is_unspecified ip ≡ false)
      × (I.is_link_local_unicast ip ≡ false)
      × (I.is_multicast ip ≡ false)

  is_usable-Usable : (s : Text) → (is_usable I s ≡ true) ↔ Usable s
  unfolding is_usable
  is_usable-Usable s = elim (Option-cases (I.parse_ip s)) [
    | inl e ↦ (λ h. absurd (ground (arith, e)), λ (ip, e', a, b, c, d). cc)
    | inr (ip, e) ↦ (
      λ h. (ip, e, ground (arith, e), ground (arith, e), ground (arith, e), ground (arith, e)),
      λ (ip', e', a, b, c, d). ground (arith, e'),
    )
  ]

  -- The text is a member of the list.
  abbrev pub IsOneOf : Text → List Text → Type 0
  IsOneOf s ss = Any (λ x. x ≡ s) ss

  is_seen-IsOneOf : (s : Text) (ss : List Text) → (is_seen I s ss ≡ true) ↔ IsOneOf s ss
  unfolding is_seen
  is_seen-IsOneOf s [] = (λ h. cc, λ h. absurd h)
  is_seen-IsOneOf s (x ∷ ss) =
      let (there, back) = is_seen-IsOneOf s ss in
      (
        λ h. elim (Bool-cases (text_eq x s)) [
          | inl t ↦ inl ((text_eq_iff x s).0 t)
          | inr f ↦ inr (there (ground (arith, f)))
        ],
        λ h. elim h [
          | inl e ↦ rw (e, text_eq_refl s) refl
          | inr m ↦ let t = back m in ground (arith, t)
        ],
      )

  Distinct-Nodup : (ss : List Text) → Distinct ss → Nodup ss
  Distinct-Nodup [] d = tt
  Distinct-Nodup (s ∷ ss) (new, d) =
      (λ m. let t = (is_seen-IsOneOf s ss).1 m in cc, Distinct-Nodup ss d)

  is_seen-append :
      (s t : Text) (ss : List Text) → is_seen I s (ss ++ (t ∷ [])) ≡ (is_seen I s ss || text_eq t s)
  unfolding is_seen
  is_seen-append s t [] = ground arith
  is_seen-append s t (x ∷ ss) = ground (arith, is_seen-append s t ss)

  Distinct-append :
      (ss : List Text) (t : Text) → Distinct ss → is_seen I t ss ≡ false → Distinct (ss ++ (t ∷ []))
  unfolding is_seen
  Distinct-append [] t d h = (refl, tt)
  Distinct-append (s ∷ ss) t (new, d) h = ground (
    arith,
    is_seen-append s t ss,
    text_eq_iff s t,
    text_eq_iff t s,
    Distinct-append ss t d (ground arith),
  )

  abbrev Good : List Text → Type 0
  Good ips = All Usable ips × Distinct ips

  take_servers-Good : (ips ss : List Text) → Good ips → Good (take_servers I ips ss)
  unfolding take_servers
  take_servers-Good ips [] g = g
  take_servers-Good ips (s ∷ ss) g = elim (Bool-cases (is_usable I s)) [
    | inl u ↦ elim (Bool-cases (is_seen I s ips)) [
      | inl t ↦ rw (u, t) (take_servers-Good ips ss g)
      | inr f ↦
          rw (u, f)
            (take_servers-Good (ips ++ (s ∷ [])) ss (
              All-append Usable ips (s ∷ []) g.0 ((is_usable-Usable s).0 u, tt),
              Distinct-append ips s g.1 f,
            ))
    ]
    | inr n ↦ rw n (take_servers-Good ips ss g)
  ]

  take_ifaces-Good : (ips : List Text) (es : List Iface) → Good ips → Good (take_ifaces I ips es)
  unfolding take_ifaces
  take_ifaces-Good ips [] g = g
  take_ifaces-Good ips (e ∷ es) g =
      take_ifaces-Good (take_servers I ips e.servers) es (take_servers-Good ips e.servers g)

  -- Every usable server of the list is seen at the end, and what is seen stays seen.
  take_servers-seen :
      (t : Text) (ips ss : List Text)
      → is_seen I t ips ≡ true
      → is_seen I t (take_servers I ips ss) ≡ true
  unfolding take_servers
  take_servers-seen t ips [] h = h
  take_servers-seen t ips (s ∷ ss) h = elim (Bool-cases (not (is_usable I s) || is_seen I s ips)) [
    | inl u ↦ rw u (take_servers-seen t ips ss h)
    | inr u ↦
        rw u (take_servers-seen t (ips ++ (s ∷ [])) ss (ground (arith, is_seen-append t s ips)))
  ]

  take_ifaces-seen :
      (t : Text) (ips : List Text) (es : List Iface)
      → is_seen I t ips ≡ true
      → is_seen I t (take_ifaces I ips es) ≡ true
  unfolding take_ifaces
  take_ifaces-seen t ips [] h = h
  take_ifaces-seen t ips (e ∷ es) h =
      take_ifaces-seen t (take_servers I ips e.servers) es (take_servers-seen t ips e.servers h)

  take_servers-takes :
      (t : Text) (ips ss : List Text)
      → is_usable I t ≡ true
      → is_seen I t ss ≡ true
      → is_seen I t (take_servers I ips ss) ≡ true
  unfolding take_servers is_seen
  take_servers-takes t ips [] u h = cc
  take_servers-takes t ips (s ∷ ss) u h =
      let next : List Text =
        if not (is_usable I s) || is_seen I s ips then ips else ips ++ (s ∷ []) in
      elim (Bool-cases (text_eq s t)) [
        | inr f ↦ take_servers-takes t next ss u (ground (arith, f))
        | inl e ↦
            let same : s ≡ t = (text_eq_iff s t).0 e in
            let taken : is_seen I t next ≡ true =
              rw same (ground (arith, is_seen-append t t ips, text_eq_refl t)) in
            take_servers-seen t next ss taken
      ]

  -- The text is a server of one of the interfaces.
  abbrev pub IsServer : List Iface → Text → Type 0
  IsServer es t = Any (λ e. IsOneOf t e.servers) es

  take_ifaces-takes :
      (t : Text) (ips : List Text) (es : List Iface)
      → Usable t
      → IsServer es t
      → is_seen I t (take_ifaces I ips es) ≡ true
  unfolding take_ifaces
  take_ifaces-takes t ips [] u h = absurd h
  take_ifaces-takes t ips (e ∷ es) u (inl h) =
      take_ifaces-seen t (take_servers I ips e.servers) es (
        take_servers-takes t ips e.servers ((is_usable-Usable t).1 u)
          ((is_seen-IsOneOf t e.servers).1 h))
  take_ifaces-takes t ips (e ∷ es) u (inr h) =
      take_ifaces-takes t (take_servers I ips e.servers) es u h

  -- What is taken is a server of an interface.
  All-both : (P Q : Text → Type 0) (ss : List Text) → All P ss → All Q ss → All (λ s. P s × Q s) ss
  All-both P Q [] p q = tt
  All-both P Q (s ∷ ss) p q = ((p.0, q.0), All-both P Q ss p.1 q.1)

  take_servers-served :
      (P : Text → Type 0) (ips ss : List Text)
      → All P ips
      → ((t : Text) → IsOneOf t ss → P t)
      → All P (take_servers I ips ss)
  unfolding take_servers
  take_servers-served P ips [] h all = h
  take_servers-served P ips (s ∷ ss) h all =
      elim (Bool-cases (not (is_usable I s) || is_seen I s ips)) [
        | inl u ↦ rw u (take_servers-served P ips ss h (λ t m. all t (inr m)))
        | inr u ↦ rw u (
            take_servers-served P (ips ++ (s ∷ [])) ss
              (All-append P ips (s ∷ []) h (all s (inl refl), tt)) (λ t m. all t (inr m)))
      ]

  take_ifaces-served :
      (all : List Iface) (ips : List Text) (es : List Iface)
      → All (IsServer all) ips
      → ((t : Text) → IsServer es t → IsServer all t)
      → All (IsServer all) (take_ifaces I ips es)
  unfolding take_ifaces
  take_ifaces-served all ips [] h within = h
  take_ifaces-served all ips (e ∷ es) h within =
      take_ifaces-served all (take_servers I ips e.servers) es
        (take_servers-served (IsServer all) ips e.servers h (λ t m. within t (inl m)))
        (λ t m. within t (inr m))

  -- The servers come from the interfaces, or the public ones stand in.
  abbrev pub FromIfaces : List Iface → List Text → Type 0
  FromIfaces es ips =
      All (λ s. Usable s × IsServer es s) ips
      × Nodup ips
      × ((t : Text) → Usable t → IsServer es t → IsOneOf t ips)

  abbrev pub NoServer : Result DnsError (List Iface) → Type 0
  NoServer r = (es : List Iface) → r ≡ ok es → (t : Text) → Usable t → IsServer es t → ⊥

  -- The bootstrap servers are never none. Either they are taken from the interfaces: each is a
  -- server of an interface and an IP address that is not loopback, unspecified, link-local or
  -- multicast, no one stands twice, and every such server of every interface is among them; or they are the public ones,
  -- and then the query failed or no interface has such a server.
  pub get_bootstrap_dns_lem :
      (r : Result DnsError (List Iface))
      → (get_bootstrap_dns I r ≢ [])
        × (((es : List Iface) × (r ≡ ok es) × FromIfaces es (get_bootstrap_dns I r))
            ⊎ ((get_bootstrap_dns I r ≡ public_bootstrap I) × NoServer r))
  unfolding get_bootstrap_dns
  get_bootstrap_dns_lem (err e) = (λ h. cc, inr (refl, λ es h. cc))
  get_bootstrap_dns_lem (ok es) = elim (List-cases (take_ifaces I [] es)) [
    | inl e ↦ rw e (
      λ h. cc,
      inr (
        refl,
        λ es' h t u at_iface.
            let seen : is_seen I t [] ≡ true =
              rw e at (take_ifaces-takes t [] es u (rw (sym (ok_inj h)) at at_iface)) in
            unfold is_seen in cc,
      ),
    )
    | inr (s, ss, e) ↦
        let ips = take_ifaces I [] es in
        let (usable, distinct) = take_ifaces-Good [] es (tt, tt) in
        let from : FromIfaces es ips = (
          All-both Usable (IsServer es) ips usable (take_ifaces-served es [] es tt (λ t h. h)),
          Distinct-Nodup ips distinct,
          λ t u h. (is_seen-IsOneOf t ips).0 (take_ifaces-takes t [] es u h),
        ) in
        rw e (λ h. cc, inl (es, refl, rw e at from))
  ]
