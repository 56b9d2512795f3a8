-- ===== src/Windows/Script/Lines.antt =====
-- The lines that `SetSystemDNS` and `RestoreSystemDNS` of windows/dns.go write, as PowerShell reads
-- them.
use zeus_dns_cli.Base.{
  ◌≡◌, ◌≢◌, refl, ◌⊎◌, inl, inr, Bool-cases, true, false, ◌||◌, none, some, List, [], ◌∷◌, ◌++◌,
  All, Text, codes, text_eq, text_eq_iff, text_eq_refl, is_empty, join, ◌∙◌, sym, arith,
}
use mathlib.Core.List.{append_assoc}
use zeus_dns_cli.Windows.{
  Iface, quote_alias, try_line, servers_command, reset_command, set_lines, restore_line,
  restore_lines,
}
use zeus_dns_cli.Windows.Quote.{Plain, Clean, Clean-read_quoted, quote_alias-read_quoted}
use zeus_dns_cli.Windows.Script.{
  Settings, Command, reset, assign, alias_of, value_of, Quotes, Says, SaysAll, Names, Restores,
}

-- An entry of the backup tells what the settings have for its interface: they are automatic where
-- its DHCP state is "Enabled" or no server is listed, and else the servers that are listed.
abbrev pub Describes : Settings → Iface → Type 0
Describes own e =
    Plain e.alias
    × (((e.dhcp ≡ codes "Enabled") ⊎ (e.servers ≡ [])) × (own e.alias ≡ none)
        ⊎ (e.dhcp ≢ codes "Enabled")
          × (e.servers ≢ [])
          × (own e.alias ≡ some (join e.servers (codes ",")))
          × Clean (join e.servers (codes ",")))

-- The backup has an entry for the interface.
abbrev pub Listed : List Iface → Text → Type 0
Listed [] a = ⊥
Listed (e ∷ es) a = (e.alias ≡ a) ⊎ Listed es a

quote_alias-Quotes : (alias : Text) → Plain alias → Quotes (quote_alias alias) alias
quote_alias-Quotes alias p rest h = quote_alias-read_quoted alias rest p h

reset-Says :
    (alias : Text)
    → Plain alias
    → Says (reset alias) (try_line (reset_command (quote_alias alias)) (quote_alias alias))
unfolding try_line reset_command
reset-Says alias p = (
  quote_alias alias,
  codes " -ResetServerAddresses",
  quote_alias-Quotes alias p,
  refl,
  rw (append_assoc (quote_alias alias)) refl,
)

Clean-Quotes : (s : Text) → Clean s → Quotes (codes "'" ++ (s ++ codes "'")) s
Clean-Quotes s p rest h =
    (s ++ (b'\'' ∷ rest), rw (append_assoc s) refl, Clean-read_quoted s rest p h)

assign-Says :
    (alias servers : Text)
    → Plain alias
    → Clean servers
    → Says
        (assign alias servers)
        (try_line (servers_command (quote_alias alias) servers) (quote_alias alias))
unfolding try_line servers_command
assign-Says alias servers p clean = (
  quote_alias alias,
  codes " -ServerAddresses " ++ (codes "'" ++ (servers ++ codes "'")),
  quote_alias-Quotes alias p,
  (codes "'" ++ (servers ++ codes "'"), Clean-Quotes servers clean, refl),
  rw (append_assoc (quote_alias alias)) (rw (append_assoc servers) refl),
)

-- A command that the line says, which gives the interface of the entry what it has in `own`.
abbrev Gives : Settings → Iface → Text → Type 0
Gives own e line =
    (c : Command) × Says c line × (alias_of c ≡ e.alias) × (value_of c ≡ own (alias_of c))

restore_line-Gives : (own : Settings) (e : Iface) → Describes own e → Gives own e (restore_line e)
unfolding restore_line
restore_line-Gives own e (p, inl (h, auto)) =
    let automatic : text_eq e.dhcp (codes "Enabled") || is_empty e.servers ≡ true = elim h [
      | inl d ↦ rw (d, text_eq_refl (codes "Enabled")) refl
      | inr s ↦ elim (Bool-cases (text_eq e.dhcp (codes "Enabled"))) [
        | inl t ↦ rw t refl
        | inr f ↦ rw (f, s) refl
      ]
    ] in
    (reset e.alias, rw automatic (reset-Says e.alias p), refl, sym auto)
restore_line-Gives own e (p, inr (h, some_servers, static, clean)) =
    elim (Bool-cases (text_eq e.dhcp (codes "Enabled"))) [
      | inl t ↦ absurd (h ((text_eq_iff _ _).0 t))
      | inr f ↦
          let given : is_empty e.servers ≡ false = ground (arith, some_servers) in
          (
            assign e.alias (join e.servers (codes ",")),
            rw (f, given) (assign-Says e.alias _ p clean),
            refl,
            sym static,
          )
    ]

All-Listed :
    (e : Iface) (es : List Iface) (cs : List Command)
    → All (λ c. Listed es (alias_of c)) cs
    → All (λ c. Listed (e ∷ es) (alias_of c)) cs
All-Listed e es [] h = tt
All-Listed e es (c ∷ cs) h = (inr h.0, All-Listed e es cs h.1)

-- The script of `RestoreSystemDNS` gives every interface of the backup what it has in `own`.
pub restore_lines-SaysAll :
    (own : Settings) (es : List Iface)
    → All (Describes own) es
    → (cs : List Command) × SaysAll cs (restore_lines es)
      × All (Restores own) cs
      × All (λ c. Listed es (alias_of c)) cs
      × ((a : Text) → Listed es a → Names cs a)
unfolding restore_lines
restore_lines-SaysAll own [] h = ([], tt, tt, tt, λ a l. absurd l)
restore_lines-SaysAll own (e ∷ es) h =
    let (c, says, named, gives) = restore_line-Gives own e h.0 in
    let (cs, all_says, restore, listed, names) = restore_lines-SaysAll own es h.1 in
    (
      c ∷ cs,
      (says, all_says),
      (gives, restore),
      (inl (sym named), All-Listed e es cs listed),
      λ a l. elim l [ inl i ↦ inl (named ∙ i) | inr i ↦ inr (names a i) ],
    )

-- The script of `SetSystemDNS` changes interfaces of the backup alone.
pub set_lines-SaysAll :
    (addr : Text) (es : List Iface)
    → Clean addr
    → All (λ e. Plain e.alias) es
    → (cs : List Command) × SaysAll cs (set_lines addr es) × All (λ c. Listed es (alias_of c)) cs
unfolding set_lines
set_lines-SaysAll addr [] clean h = ([], tt, tt)
set_lines-SaysAll addr (e ∷ es) clean h =
    let (cs, says, listed) = set_lines-SaysAll addr es clean h.1 in
    let longer = All-Listed e es cs listed in
    elim (Bool-cases (is_empty e.servers)) [
      | inl t ↦ (cs, rw (t, set_lines) says, longer)
      | inr f ↦ (
        assign e.alias addr ∷ cs,
        rw (f, set_lines) (assign-Says e.alias addr h.0 clean, says),
        (inl refl, longer),
      )
    ]
