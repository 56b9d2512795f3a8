-- ===== src/Tests/Commands.antt =====
-- The commands, the edits of PATH and the filters at concrete inputs.
use zeus_dns_cli.Base.{
  ◌≡◌, ◌⊎◌, refl, true, false, none, some, List, [], ◌∷◌, ◌++◌, join, Text, codes, text_eq,
  to_lower, equal_fold, arith, ok, err, if◌then◌else◌,
}
use zeus_dns_cli.Config.{default}
use zeus_dns_cli.Net.{cut_first}
use zeus_dns_cli.Samples.{sample_ip}
use zeus_dns_cli.Service.{stopped, running, start_pending}
use zeus_dns_cli.Service.Manager.{Access, Registered}
use zeus_dns_cli.Service.Manager
use zeus_dns_cli.Windows.Path.{add_to_path, remove_from_path}
use zeus_dns_cli.Windows.Path.Edits.{remove-add}
use zeus_dns_cli.Windows.Wfp.{EnableCalls, Protector, Rule, Packet, WfpError, enable, disable}
use zeus_dns_cli.Windows.Wfp.Permits.{permits, is_loopback_dns, enable-Permits}
use zeus_dns_cli.Cmd.{exit_service}
use zeus_dns_cli.Cmd.Promote.{copies, promote_binary, copy_file, same_path}
use zeus_dns_cli.Cmd.Install.{
  Computer, Calls, install, install_service, clear_service, register, start_installed,
}
use zeus_dns_cli.Cmd.Install.Ghost.{Names, registered, Placed, install-Installed, install_ghost}
use zeus_dns_cli.Cmd.Flags.{classify, parse, read_word}
use zeus_dns_cli.Cmd.Main.{Env, run}
use zeus_dns_cli.Cmd.Main.Words.{run_flags}
use zeus_dns_cli.Cmd.Setup.{Session, configure}
use zeus_dns_cli.Cmd.Setup.Writes.{Kept, configure-Kept}

abbrev obliging : Access
obliging = record {
  connects = true;
  creates = true;
  recovers = true;
  deletes = true;
  starts = true;
  queries = true;
  scm = record { query = λ i. ok stopped; control_stop = ok tt };
  left = running;
}

abbrev calls : Calls
calls = record {
  elevated = true;
  exists = true;
  loads = true;
  validates = true;
  port = ok tt;
  clean = λ p. p;
  exe = some (record { path = codes "C:\\Downloads\\zeusdns.exe"; content = codes "new" });
  makes_dir = true;
  copying = copies;
  asking = obliging;
  stopping = obliging;
  clearing = obliging;
  clearing_again = obliging;
  creating = obliging;
  starting = obliging;
  adds = true;
  adds_again = true;
  drops = true;
  removes = true;
}

abbrev computer : Computer
computer = record { manager = none; bin = none; path = codes "C:\\Windows;C:\\Tools" }

install-Installed_example :
    (args : List Text) × Names [] args
    × ((install calls [] computer).1.manager
        ≡ some (record {
          exe = codes "C:\\Program Files\\ZeusDNS\\zeusdns.exe";
          args = args;
          state = start_pending;
          recovers = true;
        }))
    × Placed calls none (install calls [] computer).1.bin
install-Installed_example = install-Installed calls [] computer (
    unfold install install_service clear_service register start_installed promote_binary copy_file
      same_path equal_fold to_lower text_eq Manager.install Manager.uninstall Manager.stop
      Manager.start Manager.delete_stopped Manager.status in
    refl)

abbrev unlucky : Calls
unlucky = record calls { starting = record obliging { starts = false } }

install_ghost_example :
    ((install unlucky [] computer).0 ≡ exit_service)
    × ((install unlucky [] computer).1.manager ≡ some (registered []))
    × ((install unlucky [] computer).1.bin ≡ none)
install_ghost_example =
    install_ghost unlucky [] computer refl refl
      (unfold install_service clear_service register promote_binary copy_file same_path equal_fold
          to_lower text_eq Manager.install Manager.uninstall Manager.stop Manager.delete_stopped
          Manager.status in
        refl)
      refl refl

abbrev dir : Text
dir = codes "C:\\Program Files\\ZeusDNS"

abbrev two : Text
two = join (codes "C:\\Windows" ∷ codes "C:\\Tools" ∷ []) (codes ";")

remove-add_example :
    (add_to_path dir two
      ≡ join ((codes "C:\\Windows" ∷ codes "C:\\Tools" ∷ []) ++ (dir ∷ [])) (codes ";"))
    × (remove_from_path dir (add_to_path dir two) ≡ two)
remove-add_example =
    remove-add dir (codes "C:\\Windows") (codes "C:\\Tools") [] (ground arith) (ground arith)
      (unfold equal_fold to_lower text_eq in (refl, (refl, tt)))

abbrev env : Env
env = record {
  is_service = false;
  serves = λ o. true;
  exists = λ p. true;
  has_service = true;
  elevated = true;
  call = λ c o. if o.verbose then 1 else 0;
}

run_flags_example :
    run env ((codes "-v" ∷ codes "-c" ∷ codes "my.yaml" ∷ []) ++ (codes "install" ∷ []))
    ≡ run env (codes "install" ∷ codes "-v" ∷ codes "-c" ∷ codes "my.yaml" ∷ [])
run_flags_example =
    run_flags env (codes "-v" ∷ codes "-c" ∷ codes "my.yaml" ∷ [])
      (record { verbose = true; config_path = codes "my.yaml"; show_version = false })
      (codes "install") (unfold classify in refl) (unfold parse read_word text_eq cut_first in refl)

abbrev session : Session
session = record {
  loaded = some default;
  menu = some (some (codes "tls://a.org" ∷ []));
  saves = true;
  asking = obliging;
  stopping = obliging;
  starting = obliging;
}

configure-Kept_example :
    Kept
      (λ p. some p)
      sample_ip
      session
      computer
      (configure (λ p. some p) sample_ip session computer)
configure-Kept_example = configure-Kept (λ p. some p) sample_ip session computer

abbrev enabling : EnableCalls
enabling = record {
  opens = true;
  sublayer_guid = true;
  sublayer = true;
  rule_guids = true;
  fails_at = some 3;
}

abbrev protector : Protector
protector = record { session = false; enabled = false }

enable-Permits_example :
    (((enable enabling protector []).0 ≡ ok tt)
      × ((rules : List Rule) × ((enable enabling protector []).2 ≡ rules ∷ [])
          × ((q : Packet) → permits rules q ≡ is_loopback_dns q.layer q))
      × ((disable (enable enabling protector []).1 (enable enabling protector []).2).1 ≡ []))
    ⊎ ((x : WfpError) × ((enable enabling protector []).0 ≡ err x)
        × ((enable enabling protector []).1 ≡ protector)
        × ((enable enabling protector []).2 ≡ []))
enable-Permits_example = enable-Permits enabling protector []
