-- ===== src/Tests/Records.antt =====
-- The log and the access control at concrete states.
use zeus_dns_cli.Base.{
  ◌≡◌, refl, true, false, ◌&&◌, none, some, List, [], ◌∷◌, ◌++◌, if◌then◌else◌, take, Text, codes,
  text_eq, ok,
}
use zeus_dns_cli.Config.{default_dir, default_file}
use zeus_dns_cli.Logger.{
  Folder, Faults, Logger, Entry, debug, info, warn, both, new_logger, parse_level, rotate, log_all,
  log, write, locked_write, write_buffered, write_last, write_file, flush, flush_locked, close,
}
use zeus_dns_cli.Logger.Kept.{wanted, start_of, aside_of, session-Logged}
use zeus_dns_cli.Windows.Acl.{
  Dacls, Win, Documented, object_and_container, no_inheritance, prev_dns_file, protect_path,
  protect_files, protect_config_dir,
}
use zeus_dns_cli.Windows.Acl.Guards.{guarded, is_one_of, protect_config_dir-Guarded}

-- A disk with an old log that takes six bytes more, and three records at two levels.
abbrev nearly_full : Folder
nearly_full = record { current = some (codes "old\n"); backup = none; room = 6 }

abbrev no_faults : Faults
no_faults = record { no_stat = false; no_remove = false; no_rename = false; no_open = false }

abbrev records : List Entry
records = (info, codes "abc\n") ∷ (debug, codes "hidden\n") ∷ (warn, codes "defg\n") ∷ []

abbrev log_path : Text
log_path = codes "z.log"

abbrev logger : Logger
logger = record {
  sink = both;
  level = info;
  file = true;
  bufw = true;
  linked = true;
  journal = record { held = []; failed = false; shut = false; folder = nearly_full };
  console = [];
}

opened_logger : new_logger no_faults (codes " Verbose") log_path true nearly_full [] ≡ ok logger
unfolding new_logger rotate parse_level text_eq
opened_logger = refl

session-Logged_example :
    ((close (log_all records logger)).journal.folder.current
      ≡ some (
          start_of no_faults nearly_full
          ++ take 6 (wanted (parse_level (codes " Verbose")) records)))
    × ((close (log_all records logger)).journal.folder.backup ≡ aside_of no_faults nearly_full)
session-Logged_example =
    session-Logged no_faults (codes " Verbose") log_path true nearly_full [] records refl
      opened_logger

-- What is there in fact: the old log, and six bytes of the nine.
cut_off : (close (log_all records logger)).journal.folder.current ≡ some (codes "old\nabc\nde")
unfolding close flush_locked flush write_file log_all log write locked_write write_buffered
    write_last
cut_off = refl

-- A directory with a configuration and no backup, on a system where every call succeeds.
abbrev windows : Win
windows = record {
  makes_sid = λ sid. true;
  acl_from_entries = λ es. some es;
  applies = λ path. true;
  exists = λ path. text_eq path default_file;
  beneath = λ path p. false;
}

abbrev open_to_all : Dacls
open_to_all path = record { entries = []; inherited = []; protected = false }

windows-Documented : Documented windows
windows-Documented = record { builds = λ es acl h. cc; no_children = λ p. (refl, refl) }

protected_now : (protect_config_dir windows open_to_all).0 ≡ ok tt
unfolding protect_config_dir protect_files protect_path text_eq
protected_now = refl

protect_config_dir-Guarded_example : (protect_config_dir windows open_to_all).1 default_file ≡ (
    if text_eq default_dir default_file
    then guarded object_and_container
    else if is_one_of (default_file ∷ prev_dns_file ∷ []) default_file
        && windows.exists default_file
    then guarded no_inheritance
    else open_to_all default_file)
protect_config_dir-Guarded_example =
    protect_config_dir-Guarded windows windows-Documented open_to_all protected_now default_file
