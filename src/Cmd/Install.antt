-- ===== src/Cmd/Install.antt =====
-- `Install` and `Uninstall` of cmd/lifecycle.go with `installService` of cmd/install.go: what they do
-- to the services, to the installed binary, to PATH and to the DNS settings of the computer.
pub mod Ghost
pub mod Removed
use zeus_dns_cli.Base.{
  ℕ, Bool, true, false, ◌||◌, ◌&&◌, not, Option, none, some, List, if◌then◌else◌, Text, codes,
  text_eq, Result, ok, err, wrap_err,
}
use zeus_dns_cli.Service.{ServiceError}
use zeus_dns_cli.Service.Manager.{Manager, Access, status}
use zeus_dns_cli.Service.Manager
use zeus_dns_cli.Windows.{JsonLib}
use zeus_dns_cli.Windows.System.{Os, Faults, World, restore_system_dns}
use zeus_dns_cli.Windows.Path.{add_to_path, remove_from_path}
use zeus_dns_cli.Preflight.{PreflightError}
use zeus_dns_cli.Cmd.{
  exit_success, exit_misconfig, exit_service, install_dir, install_path, service_args,
}
use zeus_dns_cli.Cmd.Promote.{PromoteError, Copying, Running, promote_binary}

-- The services, the binary at `config.InstallPath()`, and the PATH of the machine.
pub record Computer : Type 0 where
  pub manager : Manager
  pub bin : Option Text
  pub path : Text

-- How the calls end: the rights, the configuration, the port, the placing of the binary; the
-- accesses to the service control manager, each at its place; the scripts for PATH; and the
-- removal of the binary.
pub record Calls : Type 0 where
  pub elevated : Bool
  pub exists : Bool
  pub loads : Bool
  pub validates : Bool
  pub port : Result PreflightError (Unit {0})
  pub clean : Text → Text
  pub exe : Option Running
  pub makes_dir : Bool
  pub copying : Copying
  pub asking : Access
  pub stopping : Access
  pub clearing : Access
  pub clearing_again : Access
  pub creating : Access
  pub starting : Access
  pub adds : Bool
  pub adds_again : Bool
  pub drops : Bool
  pub removes : Bool

pub data InstallError : Type 0 where
  not_loaded not_valid : InstallError
  port_taken : PreflightError → InstallError
  not_promoted : PromoteError → InstallError
  not_registered : ServiceError → InstallError

-- The scripts for PATH, where PowerShell runs them.
abbrev pub added_path : Bool → Text → Text
added_path runs p = if runs then add_to_path install_dir p else p

abbrev pub dropped_path : Bool → Text → Text
dropped_path runs p = if runs then remove_from_path install_dir p else p

-- `os.Remove(config.InstallPath())`
abbrev pub removed_bin : Bool → Option Text → Option Text
removed_bin removes bin = if removes then none else bin

-- `rollbackInstall`
unfoldable pub rollback_install : Calls → Computer → Computer
rollback_install c m = record m {
  bin = removed_bin c.removes m.bin;
  path = dropped_path c.drops m.path;
}

-- `installService` from the registration on
unfoldable pub register : Calls → Text → Computer → Result InstallError (Unit {0}) × Computer
register c config_path m =
    let cleared = (Manager.uninstall c.clearing_again m.manager).1 in
    let (result, manager) =
      Manager.install c.creating install_path (service_args config_path) cleared in
    elim result [
      | err e ↦ (err (not_registered e), rollback_install c (record m { manager = manager }))
      | ok u ↦ (ok tt, record m { manager = manager; path = added_path c.adds m.path })
    ]

-- `installService`
unfoldable pub install_service : Calls → Text → Computer → Result InstallError (Unit {0}) × Computer
install_service c config_path m =
    if not c.loads
    then (err not_loaded, m)
    else if not c.validates
    then (err not_valid, m)
    else elim c.port [
      | err e ↦ (err (port_taken e), m)
      | ok u ↦
          let (result, bin) = promote_binary c.clean c.exe c.makes_dir c.copying m.bin in
          elim result [
            | err e ↦ (err (not_promoted e), record m { bin = bin })
            | ok v ↦ register c config_path (record m { bin = bin })
          ]
    ]

-- The test of `Install` on what `Status` returns.
abbrev pub is_up : Result ServiceError Text → Bool
is_up (err e) = false
is_up (ok st) = text_eq st (codes "running") || text_eq st (codes "start-pending")

-- The end of `Install`, from `installService` on.
unfoldable pub start_installed : Calls → Computer → ℕ × Computer
start_installed c m =
    let placed = record m { path = added_path c.adds_again m.path } in
    let (result, manager) = Manager.start c.starting placed.manager in
    let started = record placed { manager = manager } in
    elim result [
      | err e ↦ (exit_service, rollback_install c started)
      | ok u ↦ (exit_success, started)
    ]

-- `Install`, behind its two checks: a service that runs is stopped, and what is registered is
-- cleared.
unfoldable pub clear_service : Calls → Computer → Computer
clear_service c m =
    let asked = is_up (status c.asking m.manager) in
    let stopped = if asked then (Manager.stop c.stopping m.manager).1 else m.manager in
    record m { manager = (Manager.uninstall c.clearing stopped).1 }

-- `Install`: its exit code, and the computer afterwards.
unfoldable pub install : Calls → Text → Computer → ℕ × Computer
install c config_path m =
    if not c.elevated
    then (exit_service, m)
    else if not c.exists
    then (exit_misconfig, m)
    else (let (result, m') = install_service c config_path (clear_service c m) in
        elim result [ err e ↦ (exit_service, m') | ok u ↦ start_installed c m' ])

-- How the calls of `Uninstall` end.
pub record UninstallCalls : Type 0 where
  pub elevated : Bool
  pub stopping : Access
  pub restoring : Faults
  pub deleting : Access
  pub removes : Bool
  pub drops : Bool

module _ (J : JsonLib) (O : Os) where
  -- `Uninstall`, with the DNS settings and their backup.
  unfoldable pub uninstall : UninstallCalls → Computer → World J O → ℕ × Computer × World J O
  uninstall c m w =
      if not c.elevated
      then (exit_service, m, w)
      else (let stopped = (Manager.stop c.stopping m.manager).1 in
          let restored = (restore_system_dns J O c.restoring w).1 in
          let (result, manager) = Manager.uninstall c.deleting stopped in
          elim result [
            | err e ↦ (exit_service, record m { manager = manager }, restored)
            | ok u ↦ (
              exit_success,
              record {
                manager = manager;
                bin = removed_bin c.removes m.bin;
                path = dropped_path c.drops m.path;
              },
              restored,
            )
          ])
