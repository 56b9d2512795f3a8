-- ===== src/Cmd.antt =====
-- The commands of the program, of the packages main and cmd: the exit codes of internal/exitcode.go,
-- the placing of the binary, and what the commands do to the computer.
pub mod Promote
pub mod Install
pub mod Flags
pub mod Main
pub mod Setup
pub mod Control
use zeus_dns_cli.Base.{
  ℕ, List, [], ◌∷◌, ◌++◌, Bool, ◌||◌, is_empty, if◌then◌else◌, Text, codes, text_eq,
}
use zeus_dns_cli.Config.{default_file}

abbrev pub exit_success : ℕ
exit_success = 0

abbrev pub exit_misconfig : ℕ
exit_misconfig = 1

abbrev pub exit_service : ℕ
exit_service = 2

abbrev pub exit_bad_arg : ℕ
exit_bad_arg = 3

abbrev pub exit_failure : ℕ
exit_failure = 70

abbrev pub exit_cancelled : ℕ
exit_cancelled = 130

-- `config.InstallDir` and `config.InstallPath`
abbrev pub install_dir : Text
install_dir = codes "C:\\Program Files\\ZeusDNS"

abbrev pub install_path : Text
install_path = install_dir ++ codes "\\zeusdns.exe"

-- `serviceBinPath`: the arguments of the service.
unfoldable pub service_args : Text → List Text
service_args config_path =
    if is_empty config_path || text_eq config_path default_file
    then []
    else codes "-c" ∷ config_path ∷ []
