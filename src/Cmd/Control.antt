-- ===== src/Cmd/Control.antt =====
-- The other commands of cmd/lifecycle.go and cmd/runner.go: `Status`, `Start`, `Stop`, `Restart`,
-- `Update` and `RunForeground`, by their exit codes and what they do to the service.
use zeus_dns_cli.Base.{
  ℕ, zero, suc, ◌+◌, Bool, true, false, not, Option, none, some, List, [], ◌∷◌, is_empty, is_ok,
  if◌then◌else◌, Text, Result,
}
use zeus_dns_cli.Config.{Config, default_file}
use zeus_dns_cli.Service.{ServiceError}
use zeus_dns_cli.Service.Manager.{Access, Manager, Outcome, status}
use zeus_dns_cli.Service.Manager
use zeus_dns_cli.Cmd.{exit_success, exit_misconfig, exit_service, exit_failure}

-- The exit code of `Start`, `Stop` and `Restart`.
abbrev pub service_code : Outcome → ℕ × Manager
service_code (result, m) = (if is_ok result then exit_success else exit_service, m)

-- `Start`, `Stop`, `Restart`
unfoldable pub start : Access → Manager → ℕ × Manager
start a m = service_code (Manager.start a m)

unfoldable pub stop : Access → Manager → ℕ × Manager
stop a m = service_code (Manager.stop a m)

unfoldable pub restart : Access → Access → Manager → ℕ × Manager
restart a b m = service_code (Manager.restart_service a b m)

-- `Update`: what `updater.Update` returns.
unfoldable pub update : {E A : Type 0} → Bool → Result E A → ℕ
update elevated done =
    if not elevated then exit_service else if is_ok done then exit_success else exit_failure

-- `RunForeground`: whether `Run` returns without error.
unfoldable pub run_foreground : Bool → Bool → ℕ
run_foreground exists runs =
    if not exists then exit_misconfig else if runs then exit_success else exit_failure

-- `resolvedPath`
unfoldable pub resolved_path : Text → Text
resolved_path config_path = if is_empty config_path then default_file else config_path

-- What `Status` prints: the state of the service; then nothing where the configuration does not load,
-- its summary, or that there is none.
pub data Summary : Type 0 where
  service_line : Result ServiceError Text → Summary
  config_line : (path : Text) → Config → Summary
  upstream_line : (place : ℕ) → Text → (primary : Bool) → Summary
  no_config_line : (path : Text) → Summary

unfoldable pub upstream_lines : ℕ → List Text → List Summary
upstream_lines i [] = []
upstream_lines i (u ∷ us) =
    upstream_line (i + 1) u (elim i [ zero ↦ true | suc n ↦ false ]) ∷ upstream_lines (i + 1) us

-- `Status`, which always ends with success
unfoldable pub status_lines : Access → Manager → Bool → Option Config → Text → List Summary
status_lines a m exists loaded config_path =
    service_line (status a m)
    ∷ (if not exists then no_config_line (resolved_path config_path) ∷ [] else elim loaded [
      | none ↦ []
      | some c ↦ config_line (resolved_path config_path) c ∷ upstream_lines 0 c.upstreams
    ])
