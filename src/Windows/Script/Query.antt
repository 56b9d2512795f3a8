-- ===== src/Windows/Script/Query.antt =====
-- What the query of `getSystemDNSAndDhcp` in windows/dns.go prints, and what the program makes of it.
use zeus_dns_cli.Base.{
  ◌≡◌, ◌≢◌, refl, ◌⊎◌, inl, inr, Bool-cases, Option-cases, Option, none, some, List, [], ◌∷◌, All,
  Text, codes, text_eq, text_eq_iff, join, sym, ok, err, ok_inj, true,
}
use zeus_dns_cli.Windows.{
  Iface, Json, text, JsonLib, dhcp_string, bad_combined, last_dhcp, parse_dhcp_json,
  normalize_ps_json, annotate, get_system_dns,
}
use zeus_dns_cli.Windows.Quote.{Plain, Clean}
use zeus_dns_cli.Windows.Script.{Settings}
use zeus_dns_cli.Windows.Script.Lines.{Describes}

-- The rows of `Get-NetIPInterface` have one DHCP state for the interface, and have it.
abbrev pub Present : Text → List (Text × Json) → Type 0
Present alias [] = ⊥
Present alias ((a, d) ∷ rows) = (a ≡ alias) ⊎ Present alias rows

abbrev pub HasState : Text → Text → List (Text × Json) → Type 0
HasState alias state rows = Present alias rows × All (λ r. r.0 ≡ alias → r.1 ≡ text state) rows

-- A row of `Get-DnsClientServerAddress` tells the servers of its interface. Its DHCP state is
-- "Enabled" where servers came by DHCP, and "Disabled" where they were set by hand: no interface has
-- DHCP and servers that were set by hand.
abbrev pub Row : Settings → List (Text × Json) → Iface → Type 0
Row own rows e =
    Plain e.alias
    × ((own e.alias ≡ none) × ((e.servers ≡ []) ⊎ HasState e.alias (codes "Enabled") rows)
        ⊎ (own e.alias ≡ some (join e.servers (codes ",")))
          × (e.servers ≢ [])
          × Clean (join e.servers (codes ","))
          × HasState e.alias (codes "Disabled") rows)

-- What is printed: two lists, which JSON decodes as lists alone.
pub record Printed (J : JsonLib) (own : Settings) (dns : Text) (dhcp : Option Text) : Type 0 where
  pub printed : Text
  pub rows : List Iface
  pub states : List (Text × Json)
  pub no_object : J.decode_iface dns ≡ none
  pub row_list : J.decode_ifaces dns ≡ some rows
  pub there : dhcp ≡ some printed
  pub no_row : J.decode_dhcp_row printed ≡ none
  pub state_list : J.decode_dhcp_rows printed ≡ some states
  pub told : All (Row own states) rows

last_dhcp-either :
    (alias state : Text) (rows : List (Text × Json))
    → All (λ r. r.0 ≡ alias → r.1 ≡ text state) rows
    → (last_dhcp alias rows ≡ none) ⊎ (last_dhcp alias rows ≡ some state)
unfolding last_dhcp dhcp_string
last_dhcp-either alias state [] h = inl refl
last_dhcp-either alias state ((a, d) ∷ rows) h = elim (last_dhcp-either alias state rows h.1) [
  | inr e ↦ inr (rw (e) refl)
  | inl e ↦ elim (Bool-cases (text_eq a alias)) [
    | inl t ↦ inr (rw (e, t, h.0 ((text_eq_iff _ _).0 t)) refl)
    | inr t ↦ inl (rw (e, t) refl)
  ]
]

last_dhcp-HasState :
    (alias state : Text) (rows : List (Text × Json))
    → HasState alias state rows
    → last_dhcp alias rows ≡ some state
unfolding last_dhcp dhcp_string
last_dhcp-HasState alias state [] (p, h) = absurd p
last_dhcp-HasState alias state ((a, d) ∷ rows) (inr p, h) =
    rw (last_dhcp-HasState alias state rows (p, h.1)) refl
last_dhcp-HasState alias state ((a, d) ∷ rows) (inl p, h) =
    let same : text_eq a alias ≡ true = (text_eq_iff _ _).1 p in
    elim (last_dhcp-either alias state rows h.1) [
      | inr e ↦ rw (e) refl
      | inl e ↦ rw (e, same, h.0 p) refl
    ]

abbrev annotated : Option Text → Iface → Iface
annotated found e = elim found [ none ↦ e | some d ↦ record e { dhcp = d } ]

annotated-Describes :
    (own : Settings) (states : List (Text × Json)) (e : Iface)
    → Row own states e
    → Describes own (annotated (last_dhcp e.alias states) e)
annotated-Describes own states e (p, inl (auto, inl nothing)) =
    elim (Option-cases (last_dhcp e.alias states)) [
      | inl t ↦ rw t (p, inl (inr nothing, auto))
      | inr (d, t) ↦ rw t (p, inl (inr nothing, auto))
    ]
annotated-Describes own states e (p, inl (auto, inr enabled)) =
    rw (last_dhcp-HasState _ _ states enabled) (p, inl (inl refl, auto))
annotated-Describes own states e (p, inr (static, given, clean, disabled)) =
    rw (last_dhcp-HasState _ _ states disabled) (p, inr (λ h. cc, given, static, clean))

module _ (J : JsonLib) (own : Settings) where
  parse_dhcp_json-last_dhcp :
      (dns : Text) (dhcp : Option Text) (p : Printed J own dns dhcp) (alias : Text)
      → parse_dhcp_json J p.printed alias ≡ last_dhcp alias p.states
  unfolding parse_dhcp_json
  parse_dhcp_json-last_dhcp dns dhcp p alias = rw (p.no_row, p.state_list, parse_dhcp_json) refl

  annotate-Describes :
      (dns : Text) (dhcp : Option Text) (p : Printed J own dns dhcp) (rows : List Iface)
      → All (Row own p.states) rows
      → All (Describes own) (annotate J p.printed rows)
  unfolding annotate
  annotate-Describes dns dhcp p [] h = tt
  annotate-Describes dns dhcp p (e ∷ rows) h = (
    rw (parse_dhcp_json-last_dhcp dns dhcp p e.alias) (annotated-Describes own p.states e h.0),
    annotate-Describes dns dhcp p rows h.1,
  )

  -- The entries that the program makes of the printed text describe the settings.
  pub get_system_dns-Describes :
      (out : Option Text) (es : List Iface)
      → ((text : Text) (dns : Text) (dhcp : Option Text)
          → out ≡ some text
          → J.decode_combined text ≡ some (dns, dhcp)
          → Printed J own dns dhcp)
      → get_system_dns J out ≡ ok es
      → All (Describes own) es
  unfolding get_system_dns normalize_ps_json
  get_system_dns-Describes none es law h = cc
  get_system_dns-Describes (some t) es law h = elim (Option-cases (J.decode_combined t)) [
    | inl e ↦ let bad : err bad_combined ≡ ok es = (rw (e, get_system_dns) at h) in cc
    | inr ((dns, dhcp), e) ↦
        let p = law t dns dhcp refl e in
        let same : annotate J p.printed p.rows ≡ es =
          ok_inj
            (rw (e, p.no_object, p.row_list, p.there, get_system_dns, normalize_ps_json) at h) in
        rw (sym same) (annotate-Describes dns dhcp p p.rows p.told)
  ]
