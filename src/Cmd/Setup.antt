-- ===== src/Cmd/Setup.antt =====
-- `Wizard` of cmd/wizard.go with its form in tui/wizard.go, and `Configure` of cmd/configure.go: the
-- configuration that they write, and what they then do to the service.
pub mod Writes
use zeus_dns_cli.Base.{
  ℕ, Bool, true, false, not, Option, none, some, List, [], ◌∷◌, is_empty, is_ok, if◌then◌else◌,
  Text, codes, text_eq, trim_space, Result, ok, err, ◌>>=◌, wrap_err,
}
use zeus_dns_cli.Net.{IpLib, Url}
use zeus_dns_cli.Config.{Config, default, validate}
use zeus_dns_cli.Dns.Upstream.{Upstream, UpstreamError, parse_upstream}
use zeus_dns_cli.Service.Manager.{Access, Manager, status}
use zeus_dns_cli.Service.Manager
use zeus_dns_cli.Cmd.{exit_success, exit_misconfig, exit_service, exit_cancelled}
use zeus_dns_cli.Cmd.Install.{Computer, Calls, InstallError, install_service, added_path}

pub data FieldError : Type 0 where
  required no_answer : FieldError
  not_parsed : UpstreamError → FieldError

-- `validateResolver`: `responds` is what `Check` says of an upstream.
unfoldable pub validate_resolver :
    (Text → Option Url) → (Upstream → Bool) → Bool → Text → Result FieldError (Unit {0})
validate_resolver parse_url responds needed s =
    let trimmed = trim_space s in
    if is_empty trimmed
    then (if needed then err required else ok tt)
    else (wrap_err not_parsed (parse_upstream parse_url trimmed) >>= λ u.
        if responds u then ok tt else err no_answer)

-- `WizardResult`
pub record WizardResult : Type 0 where
  pub install : Bool
  pub primary : Text
  pub fallback : Text

-- What the user enters in `RunWizard`: nothing where a form is left; whether to install; and the
-- texts of the two fields, which their validators have passed.
pub record Entered : Type 0 where
  pub confirmed : Option Bool
  pub fields : Option (Text × Text)

unfoldable pub run_wizard : Entered → Option WizardResult
run_wizard e = elim e.confirmed [
  | none ↦ none
  | some false ↦ some (record { install = false; primary = []; fallback = [] })
  | some true ↦ elim e.fields [
    | none ↦ none
    | some (primary, fallback) ↦
        some
          (record { install = true; primary = trim_space primary; fallback = trim_space fallback })
  ]
]

-- The configuration that `Wizard` writes.
unfoldable pub wizard_config : WizardResult → Config
wizard_config res = record default {
  upstreams = res.primary ∷ (if is_empty res.fallback then [] else res.fallback ∷ []);
}

-- How a command ends: its exit code, the configuration that it has written, and the computer.
pub record Ending : Type 0 where
  pub code : ℕ
  pub written : Option Config
  pub computer : Computer

-- `Wizard` behind the saving of the configuration `w`
unfoldable pub install_step : Calls → Text → Config → Computer → Ending
install_step c config_path w m =
    let (result, m') = install_service c config_path m in
    elim result [
      | err e ↦ record { code = exit_service; written = some w; computer = m' }
      | ok u ↦
          let placed = record m' { path = added_path c.adds_again m'.path } in
          let (started, manager) = Manager.start c.starting placed.manager in
          record {
            code = if is_ok started then exit_success else exit_service;
            written = some w;
            computer = record placed { manager = manager };
          }
    ]

-- `Wizard`: `saves` is whether `cfg.Save` succeeds.
unfoldable pub wizard : Calls → Bool → Entered → Text → Computer → Ending
wizard c saves e config_path m = elim (run_wizard e) [
  | none ↦ record { code = exit_cancelled; written = none; computer = m }
  | some res ↦
      if not res.install
      then record { code = exit_success; written = none; computer = m }
      else if not saves
      then record { code = exit_misconfig; written = none; computer = m }
      else if not c.elevated
      then record { code = exit_success; written = some (wizard_config res); computer = m }
      else install_step c config_path (wizard_config res) m
]

-- What `Configure` meets: what `Load` gives; how the menu ends, with the list where it is saved; and
-- whether `Save` succeeds. The accesses are those of `Status`, and of the two halves of `Restart`.
pub record Session : Type 0 where
  pub loaded : Option Config
  pub menu : Option (Option (List Text))
  pub saves : Bool
  pub asking : Access
  pub stopping : Access
  pub starting : Access

-- The end of `Configure`: a service that runs is restarted.
unfoldable pub restart_running : Session → Manager → Manager
restart_running s m = elim (status s.asking m) [
  | err e ↦ m
  | ok st ↦
      if text_eq st (codes "running")
      then (Manager.restart_service s.stopping s.starting m).1
      else m
]

module _ (abs : Text → Option Text) (I : IpLib) where
  -- `Configure` of a list that the menu saved
  unfoldable pub configure_saved : Session → Config → Computer → Ending
  configure_saved s c m =
      if not (is_ok (validate abs I c))
      then record { code = exit_misconfig; written = none; computer = m }
      else if not s.saves
      then record { code = exit_misconfig; written = none; computer = m }
      else record {
        code = exit_success;
        written = some c;
        computer = record m { manager = restart_running s m.manager };
      }

  -- `Configure`
  unfoldable pub configure : Session → Computer → Ending
  configure s m = elim s.loaded [
    | none ↦ record { code = exit_misconfig; written = none; computer = m }
    | some c ↦ elim s.menu [
      | none ↦ record { code = exit_misconfig; written = none; computer = m }
      | some none ↦ record { code = exit_success; written = none; computer = m }
      | some (some upstreams) ↦ configure_saved s (record c { upstreams = upstreams }) m
    ]
  ]
