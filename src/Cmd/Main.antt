-- ===== src/Cmd/Main.antt =====
-- `run` of main.go: from the command line to the command and its exit code.
pub mod Words
use zeus_dns_cli.Base.{
  ℕ, Bool, true, false, ◌||◌, not, Option, none, some, List, [], ◌∷◌, is_empty, if◌then◌else◌, Text,
  codes, text_eq, Result, ok, err,
}
use zeus_dns_cli.Cmd.{exit_success, exit_misconfig, exit_bad_arg}
use zeus_dns_cli.Cmd.Flags.{Options, no_options, FlagError, parse}

-- The functions of the package cmd that `run` calls for its exit code.
pub data Command : Type 0 where
  wizard configure install uninstall start stop restart status run_foreground update : Command

-- What `run` asks: whether the service control manager launched the program, and whether its
-- `service.Run` then succeeds; whether there is a configuration; whether `service.Status` answers;
-- and whether the process is elevated. `call` is the exit code of a command.
pub record Env : Type 0 where
  pub is_service : Bool
  pub serves : Options → Bool
  pub exists : Text → Bool
  pub has_service : Bool
  pub elevated : Bool
  pub call : Command → Options → ℕ

-- The case of no command.
unfoldable pub run_bare : Env → Options → ℕ
run_bare e o =
    if not (e.exists o.config_path)
    then e.call wizard o
    else if e.has_service
    then e.call status o
    else if not e.elevated
    then exit_misconfig
    else e.call install o

-- The `switch`
unfoldable pub dispatch : Env → Options → Text → ℕ
dispatch e o name =
    if is_empty name
    then run_bare e o
    else if text_eq name (codes "wizard") || text_eq name (codes "setup")
    then e.call wizard o
    else if text_eq name (codes "configure")
    then e.call configure o
    else if text_eq name (codes "install")
    then e.call install o
    else if text_eq name (codes "uninstall")
    then e.call uninstall o
    else if text_eq name (codes "start")
    then e.call start o
    else if text_eq name (codes "stop")
    then e.call stop o
    else if text_eq name (codes "restart")
    then e.call restart o
    else if text_eq name (codes "status")
    then e.call status o
    else if text_eq name (codes "run")
    then e.call run_foreground o
    else if text_eq name (codes "update")
    then e.call update o
    else if text_eq name (codes "help")
        || text_eq name (codes "-h")
        || text_eq name (codes "--help")
    then exit_success
    else exit_bad_arg

-- `run` behind the flags
unfoldable pub run_parsed : Env → Options → Text → ℕ
run_parsed e o name =
    if o.show_version
    then exit_success
    else if e.is_service
    then (if e.serves o then exit_success else exit_misconfig)
    else dispatch e o name

-- The second parse, of what stands behind the command.
unfoldable pub run_command : Env → Options → Text → List Text → ℕ
run_command e o name [] = run_parsed e o name
run_command e o name (a ∷ args) = elim (parse o (a ∷ args)) [
  | err x ↦ exit_bad_arg
  | ok (o', rest) ↦ run_parsed e o' name
]

-- `run`
unfoldable pub run : Env → List Text → ℕ
run e args = elim (parse no_options args) [
  | err x ↦ exit_bad_arg
  | ok (o, []) ↦ run_parsed e o []
  | ok (o, name ∷ rest) ↦ run_command e o name rest
]
