-- ===== src/Run/Backup.antt =====
-- The backup of `Run` in cmd/runner.go: what it is safe to have in prev_dns.json, and that the backup
-- is made so.
use zeus_dns_cli.Base.{
  ◌≡◌, refl, ◌⊎◌, inl, inr, Option, none, some, List, arith, Text, All, text_eq_refl, Bool-cases,
  Option-cases, Result-cases, ok, err,
}
use zeus_dns_cli.Windows.{Iface, JsonLib, DnsError, get_system_dns, parse_prev_dns, prev_file}
use zeus_dns_cli.Windows.Script.{Settings}
use zeus_dns_cli.Windows.Script.Lines.{Describes}
use zeus_dns_cli.Windows.Script.Query.{get_system_dns-Describes}
use zeus_dns_cli.Windows.System.{Os, Faults, World, save_entries, save_system_dns}
use zeus_dns_cli.Run.{Calls, RunFaults, back_up}
use zeus_dns_cli.Run.Keeps.{Own, Keeps, Decodes, Laws}

module _ (J : JsonLib) (O : Os) (own : Settings) where
  -- No backup can be read.
  abbrev pub Unloadable : Option Text → Type 0
  Unloadable none = Unit
  Unloadable (some b) = (e : DnsError) × (parse_prev_dns J b ≡ err e)

  -- The user's own settings are in force, or a backup keeps them.
  abbrev pub IsSafe : World J O → Type 0
  IsSafe w =
      ((b : Text) × (es : List Iface) × (w.prev ≡ some b)
        × (parse_prev_dns J b ≡ ok es)
        × Keeps J O own es w.settings)
      ⊎ (Own J O own w.settings × Unloadable w.prev)

  saved-parses :
      (es : List Iface) (b : Text)
      → J.decode_prev b ≡ some (prev_file J es)
      → parse_prev_dns J b ≡ ok es
  unfolding parse_prev_dns prev_file
  saved-parses es b e = ground (arith, e, text_eq_refl (J.sha256_hex (J.encode_ifaces es)))

  save_entries-IsSafe :
      (f : Faults) (es : List Iface) (w : World J O)
      → Own J O own w.settings
      → All (Describes own) es
      → Decodes J O own es
      → Unloadable w.prev
      → Unloadable (some f.partial)
      → IsSafe (save_entries J O f es w).1
  unfolding save_entries
  save_entries-IsSafe f es w own_now rec dec un torn = elim (Bool-cases f.no_dir) [
    | inl t ↦ simp (t, save_entries) (inr (own_now, un))
    | inr t ↦ elim (Option-cases (J.encode_prev (prev_file J es))) [
      | inl e ↦ simp (t, e, save_entries) (inr (own_now, un))
      | inr (b, e) ↦ elim (Bool-cases f.no_write) [
        | inl u ↦ simp (t, e, u, save_entries) (inr (own_now, torn))
        | inr u ↦
            simp (t, e, u, save_entries)
              (inl (b, es, refl, saved-parses es b (dec b e), (rec, λ a. inl (own_now a))))
      ]
    ]
  ]

  save_system_dns-IsSafe :
      Laws J O own
      → (f : Faults) (w : World J O) → w.prev ≡ none
      → Unloadable (some f.partial)
      → IsSafe w
      → IsSafe (save_system_dns J O f w).1
  unfolding save_system_dns
  save_system_dns-IsSafe laws f w absent torn (inl (b, es, e, parsed, rec)) = cc
  save_system_dns-IsSafe laws f w absent torn (inr (now, un)) =
      elim (Result-cases (get_system_dns J (O.query w.settings))) [
        | inl (es, e) ↦
            simp (e, save_system_dns)
              (save_entries-IsSafe f es w now
                (get_system_dns-Describes J own (O.query w.settings) es
                  (λ out dns dhcp. laws.printed w.settings out dns dhcp now) e)
                (laws.decoded w.settings es now e) un torn)
        | inr (x, e) ↦ simp (e, save_system_dns) (inr (now, un))
      ]

  pub back_up-IsSafe :
      Laws J O own
      → (c : Calls) (f : RunFaults) (w : World J O) → Unloadable (some f.saving.partial)
      → IsSafe w
      → IsSafe (back_up J O c f w)
  unfolding back_up
  back_up-IsSafe laws c f w torn safe = elim (Bool-cases c.set_dns) [
    | inr t ↦ simp (t, back_up) safe
    | inl t ↦ elim (Option-cases w.prev) [
      | inr (b, e) ↦ simp (t, e, back_up) (simp e at safe)
      | inl e ↦ simp (t, e, back_up) (save_system_dns-IsSafe laws f.saving w e torn safe)
    ]
  ]
