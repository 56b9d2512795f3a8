-- ===== src/Windows/System.antt =====
-- `SaveSystemDNS`, `SetSystemDNS` and `RestoreSystemDNS` of windows/dns.go as changes of the
-- computer: the DNS settings of its interfaces and the file prev_dns.json.
use zeus_dns_cli.Base.{
  Bool, Option, none, some, List, [], ◌∷◌, if◌then◌else◌, length, ◌==◌, Text, Result, ok, err,
}
use zeus_dns_cli.Windows.{
  Iface, JsonLib, DnsError, not_exist, mkdir_failed, encode_failed, write_failed, script_failed,
  reported, get_system_dns, load_prev, prev_file, set_lines, restore_lines, whole_script,
}
use zeus_dns_cli.Windows.Script.{Settings}

-- The operating system: what the query prints of the settings, and what a script does and prints;
-- nothing is printed where PowerShell itself fails.
pub record Os : Type 0 where
  pub query : Settings → Option Text
  pub powershell : Text → Settings → Settings × Option Text

-- What can go wrong besides: the directory, the write of the backup, which then leaves `partial`
-- in the file, an existing backup that cannot be read, and its removal.
pub record Faults : Type 0 where
  pub no_dir : Bool
  pub no_write : Bool
  pub partial : Text
  pub locked : Bool
  pub no_remove : Bool

module _ (J : JsonLib) (O : Os) where
  pub record World : Type 0 where
    pub settings : Settings
    pub prev : Option Text

  abbrev pub Outcome : Type 0
  Outcome = Result DnsError (Unit {0}) × World

  -- `SaveSystemDNS` behind the query
  unfoldable pub save_entries : Faults → List Iface → World → Outcome
  save_entries f entries w =
      if f.no_dir then (err mkdir_failed, w) else elim (J.encode_prev (prev_file J entries)) [
        | none ↦ (err encode_failed, w)
        | some b ↦
            if f.no_write
            then (err write_failed, record w { prev = some f.partial })
            else (ok tt, record w { prev = some b })
      ]

  -- `SaveSystemDNS`
  unfoldable pub save_system_dns : Faults → World → Outcome
  save_system_dns f w = elim (get_system_dns J (O.query w.settings)) [
    | err e ↦ (err e, w)
    | ok entries ↦ save_entries f entries w
  ]

  -- The outcome of a script from what it printed.
  unfoldable pub script_result : Option Text → Result DnsError (Unit {0})
  script_result none = err script_failed
  script_result (some out) = elim (J.decode_errors out) [
    | none ↦ ok tt
    | some [] ↦ ok tt
    | some (e ∷ es) ↦ err (reported (e ∷ es))
  ]

  unfoldable pub run_script : Text → World → Outcome
  run_script script w =
      let done = O.powershell script w.settings in
      (script_result done.1, record w { settings = done.0 })

  -- `SetSystemDNS`
  unfoldable pub set_system_dns : Faults → Text → World → Outcome
  set_system_dns f addr w = elim (load_prev J f.locked w.prev) [
    | err e ↦ (err e, w)
    | ok entries ↦
        let lines = set_lines addr entries in
        if length lines == 0 then (ok tt, w) else run_script (whole_script lines) w
  ]

  -- The removal of the backup behind a script that reported no error.
  unfoldable pub remove_prev : Faults → Outcome → Outcome
  remove_prev f (err e, w) = (err e, w)
  remove_prev f (ok u, w) = (ok tt, if f.no_remove then w else record w { prev = none })

  -- `RestoreSystemDNS` of the entries of the backup
  unfoldable pub restore_entries : Faults → List Iface → World → Outcome
  restore_entries f entries w = remove_prev f (run_script (whole_script (restore_lines entries)) w)

  -- `RestoreSystemDNS`
  unfoldable pub restore_system_dns : Faults → World → Outcome
  restore_system_dns f w = elim (load_prev J f.locked w.prev) [
    | err e ↦ (elim e [ not_exist ↦ ok tt | other_error ↦ err other_error ], w)
    | ok entries ↦ restore_entries f entries w
  ]
