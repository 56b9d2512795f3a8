-- ===== src/Run/Safe.antt =====
-- `Run` of cmd/runner.go: the user's own DNS settings can be had back in every state.
use zeus_dns_cli.Base.{
  ◌∙◌, ◌≡◌, refl, ◌⊎◌, inl, inr, Bool, true, false, ◌&&◌, Option, none, some, List, Text, codes,
  All, Bool-cases, Result-cases, ok, err, length, ◌==◌,
}
use zeus_dns_cli.Windows.{
  Iface, JsonLib, DnsError, denied, parse_prev_dns, load_prev, whole_script, restore_lines,
  set_lines,
}
use zeus_dns_cli.Windows.Quote.{Clean}
use zeus_dns_cli.Windows.Script.{Settings}
use zeus_dns_cli.Windows.Script.Lines.{set_lines-SaysAll}
use zeus_dns_cli.Windows.System.{
  Os, Faults, World, set_system_dns, run_script, script_result, remove_prev, restore_entries,
  restore_system_dns,
}
use zeus_dns_cli.Run.{Calls, RunFaults, back_up, take_over, cleanup, run, last_of}
use zeus_dns_cli.Run.Keeps.{
  Own, Keeps, Laws, loopback-Clean, Describes-Plain, script-Keeps, restore_script-Own,
}
use zeus_dns_cli.Run.Backup.{Unloadable, IsSafe, back_up-IsSafe}

module _ (J : JsonLib) (O : Os) (own : Settings) where
  Unloadable-load_prev :
      (locked : Bool) (prev : Option Text)
      → Unloadable J O own prev
      → (x : DnsError) × (load_prev J locked prev ≡ err x)
  unfolding load_prev
  Unloadable-load_prev locked none un = (_, refl)
  Unloadable-load_prev true (some b) un = (_, refl)
  Unloadable-load_prev false (some b) (x, e) = (x, e)

  -- A backup that parses is loaded, or access to it is denied.
  load_prev-parsed :
      (locked : Bool) (b : Text) (es : List Iface)
      → parse_prev_dns J b ≡ ok es
      → (load_prev J locked (some b) ≡ ok es) ⊎ (load_prev J locked (some b) ≡ err denied)
  unfolding load_prev
  load_prev-parsed true b es e = inr refl
  load_prev-parsed false b es e = inl e

  set_system_dns-prev :
      (f : Faults) (addr : Text) (w : World J O) → (set_system_dns J O f addr w).1.prev ≡ w.prev
  unfolding set_system_dns run_script
  set_system_dns-prev f addr w = elim (Result-cases (load_prev J f.locked w.prev)) [
    | inr (x, e) ↦ simp (e, set_system_dns) refl
    | inl (es, e) ↦ elim (Bool-cases (length (set_lines addr es) == 0)) [
      | inl t ↦ simp (e, t, set_system_dns) refl
      | inr t ↦ simp (e, t, set_system_dns) refl
    ]
  ]

  set_system_dns-Keeps :
      (f : Faults) (addr : Text) (w : World J O) (b : Text) (es : List Iface)
      → Laws J O own
      → Clean addr
      → w.prev ≡ some b
      → parse_prev_dns J b ≡ ok es
      → Keeps J O own es w.settings
      → Keeps J O own es (set_system_dns J O f addr w).1.settings
  unfolding set_system_dns run_script
  set_system_dns-Keeps f addr w b es laws clean e parsed keeps =
      let (cs, says, listed) = set_lines-SaysAll addr es clean (Describes-Plain own es keeps.0) in
      elim (load_prev-parsed f.locked b es parsed) [
        | inr l ↦ simp (e, l, set_system_dns) keeps
        | inl l ↦ elim (Bool-cases (length (set_lines addr es) == 0)) [
          | inl t ↦ simp (e, l, t, set_system_dns) keeps
          | inr t ↦
              simp (e, l, t, set_system_dns)
                (script-Keeps J O own es cs (set_lines addr es) w.settings laws says listed keeps)
        ]
      ]

  set_system_dns-IsSafe :
      Laws J O own
      → (f : Faults) (addr : Text) (w : World J O) → Clean addr
      → IsSafe J O own w
      → IsSafe J O own (set_system_dns J O f addr w).1
  unfolding set_system_dns
  set_system_dns-IsSafe laws f addr w clean (inl (b, es, e, parsed, keeps)) = inl (
    b,
    es,
    set_system_dns-prev f addr w ∙ e,
    parsed,
    set_system_dns-Keeps f addr w b es laws clean e parsed keeps,
  )
  set_system_dns-IsSafe laws f addr w clean (inr (now, un)) =
      let (x, e) = Unloadable-load_prev f.locked w.prev un in
      simp (e, set_system_dns) (inr (now, un))

  restore_entries-IsSafe :
      Laws J O own
      → (f : Faults) (w : World J O) (b : Text) (es : List Iface) → w.prev ≡ some b
      → parse_prev_dns J b ≡ ok es
      → Keeps J O own es w.settings
      → IsSafe J O own (restore_entries J O f es w).1
        × ((restore_entries J O f es w).0 ≡ ok tt
            → Own J O own (restore_entries J O f es w).1.settings)
  unfolding restore_entries run_script remove_prev
  restore_entries-IsSafe laws f w b es e parsed keeps =
      let script = whole_script (restore_lines es) in
      let (kept, back) = restore_script-Own J O own es w.settings laws keeps in
      elim (Result-cases (script_result J O (O.powershell script w.settings).1)) [
        | inr (x, r) ↦ rw (r, remove_prev) (inl (b, es, e, parsed, kept), λ h. cc)
        | inl (u, r) ↦ elim (Bool-cases f.no_remove) [
          | inl t ↦ rw (r, t, remove_prev) (inl (b, es, e, parsed, kept), λ h. back r)
          | inr t ↦ rw (r, t, remove_prev) (inr (back r, tt), λ h. back r)
        ]
      ]

  restore_system_dns-IsSafe :
      Laws J O own
      → (f : Faults) (w : World J O) → IsSafe J O own w
      → IsSafe J O own (restore_system_dns J O f w).1
        × ((restore_system_dns J O f w).0 ≡ ok tt
            → Own J O own (restore_system_dns J O f w).1.settings)
  unfolding restore_system_dns
  restore_system_dns-IsSafe laws f w (inl (b, es, e, parsed, keeps)) =
      elim (load_prev-parsed f.locked b es parsed) [
        | inl l ↦
            simp (e, l, restore_system_dns) (restore_entries-IsSafe laws f w b es e parsed keeps)
        | inr l ↦ simp (e, l, restore_system_dns) (inl (b, es, refl, parsed, keeps), λ h. cc)
      ]
  restore_system_dns-IsSafe laws f w (inr (now, un)) =
      let (x, e) = Unloadable-load_prev f.locked w.prev un in
      simp (e, restore_system_dns) (inr (now, un), λ h. now)

  take_over-IsSafe :
      Laws J O own
      → (c : Calls) (f : RunFaults) (w : World J O) → IsSafe J O own w
      → IsSafe J O own (take_over J O c f w)
  unfolding take_over
  take_over-IsSafe laws c f w safe = elim (Bool-cases c.set_dns) [
    | inl t ↦
        simp (t, take_over)
          (set_system_dns-IsSafe laws f.setting (codes "127.0.0.1") w loopback-Clean safe)
    | inr t ↦ simp (t, take_over) safe
  ]

  cleanup-IsSafe :
      Laws J O own
      → (c : Calls) (f : RunFaults) (w : World J O) → IsSafe J O own w
      → IsSafe J O own (cleanup J O c f w)
  unfolding cleanup
  cleanup-IsSafe laws c f w safe = elim (Bool-cases c.set_dns) [
    | inl t ↦ simp (t, cleanup) (restore_system_dns-IsSafe laws f.restoring w safe).0
    | inr t ↦ simp (t, cleanup) safe
  ]

  -- At no point of a run, so also where the machine stops there, are the user's own DNS settings
  -- lost. In each state either they are in force, or prev_dns.json holds a backup that parses, whose
  -- entries tell them for their interfaces, and outside which every interface has its own settings
  -- still; provided that this was so before, and that a backup which a failing write cuts off does
  -- not parse. What is relied on: PowerShell tries the commands of a script in order and prints the
  -- errors, or fails somewhere (`Runs`); the query tells of the user's own settings the servers and
  -- the DHCP state of each interface, none of which has DHCP and servers set by hand, or a
  -- typographic quote in its alias (`Printed`); and JSON decodes a backup that it encoded.
  pub run-IsSafe :
      Laws J O own
      → (c : Calls) (f : RunFaults) (w : World J O) → Unloadable J O own (some f.saving.partial)
      → IsSafe J O own w
      → All (IsSafe J O own) (run J O c f w).1
  unfolding run
  run-IsSafe laws c f w torn safe =
      let saved = back_up-IsSafe J O own laws c f w torn safe in
      let taken = take_over-IsSafe laws c f _ saved in
      elim (Bool-cases c.ready) [
        | inr t ↦ simp (t, run) tt
        | inl t ↦ elim (Bool-cases (c.made && c.bound)) [
          | inl u ↦ simp (t, u, run) (saved, (taken, (cleanup-IsSafe laws c f _ taken, tt)))
          | inr u ↦ simp (t, u, run) (saved, (cleanup-IsSafe laws c f _ saved, tt))
        ]
      ]

  -- A run that sets the system DNS and gets as far as its first change ends, whichever way, with
  -- the user's own settings in force on every interface, unless the restoring, which it ends with,
  -- reported an error; provided that they are in force or kept by a backup before, and that a backup
  -- which a failing write cuts off does not parse. It relies on PowerShell's running of scripts
  -- (`Runs`), on the JSON round trip of a backup, and on what the query prints of the user's own
  -- settings (`Printed`): servers and DHCP state of each interface, none of which has DHCP and
  -- servers set by hand, or a typographic quote in its alias.
  pub run-Own :
      Laws J O own
      → (c : Calls) (f : RunFaults) (w : World J O) → Unloadable J O own (some f.saving.partial)
      → IsSafe J O own w
      → c.set_dns ≡ true
      → c.ready ≡ true
      → (v : World J O) × (last_of J O w (run J O c f w).1
          ≡ (restore_system_dns J O f.restoring v).1)
        × ((restore_system_dns J O f.restoring v).0 ≡ ok tt
            → Own J O own (last_of J O w (run J O c f w).1).settings)
  unfolding run cleanup last_of
  run-Own laws c f w torn safe sets ready =
      let saved = back_up-IsSafe J O own laws c f w torn safe in
      let taken = take_over-IsSafe laws c f _ saved in
      elim (Bool-cases (c.made && c.bound)) [
        | inl u ↦
            simp (ready, sets, u, run)
              (
                take_over J O c f (back_up J O c f w),
                refl,
                (restore_system_dns-IsSafe laws f.restoring _ taken).1,
              )
        | inr u ↦
            simp (ready, sets, u, run)
              (back_up J O c f w, refl, (restore_system_dns-IsSafe laws f.restoring _ saved).1)
      ]
