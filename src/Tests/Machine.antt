-- ===== src/Tests/Machine.antt =====
-- The menu, the system DNS settings and the life of the server at concrete states.
use zeus_dns_cli.Base.{
  ◌≡◌, refl, ◌≢◌, ◌⊎◌, inl, inr, true, false, none, some, List, [], ◌∷◌, ◌++◌, arith, All,
  if◌then◌else◌, Text, codes, text_eq, join, sym, ◌∙◌, ok_inj, Result, ok,
}
use zeus_dns_cli.Tui.{key_a, handle_key, initial_model}
use zeus_dns_cli.Tui.Steps.{Loop, Reached, start, step, pressed}
use zeus_dns_cli.Tui.Sound.{IsSound, in_flight, Reached-IsSound}
use zeus_dns_cli.Windows.{
  Iface, Json, text, JsonLib, DnsError, dhcp_string, last_dhcp, parse_dhcp_json, annotate,
  quote_alias, get_bootstrap_dns, public_bootstrap, parse_prev_dns, get_system_dns,
  normalize_ps_json, prev_file,
}
use zeus_dns_cli.Windows.Quote.{read_quoted, quote_alias-read_quoted}
use zeus_dns_cli.Windows.Bootstrap.{FromIfaces, NoServer, get_bootstrap_dns_lem}
use zeus_dns_cli.Windows.Script.{Settings}
use zeus_dns_cli.Windows.Script.Query.{Row, Printed}
use zeus_dns_cli.Tests.Shell.{shell, shell-Runs}
use zeus_dns_cli.Windows.System.{Os, Faults, World, restore_system_dns}
use zeus_dns_cli.Run.{Calls, RunFaults, run, last_of}
use zeus_dns_cli.Run.Keeps.{Own, Laws, Decodes}
use zeus_dns_cli.Run.Backup.{Unloadable, IsSafe}
use zeus_dns_cli.Run.Safe.{run-IsSafe, run-Own}
use zeus_dns_cli.Samples.{sample_checks, sample_input, sample_ip}

abbrev current : List Text
current = codes "tls://a.org" ∷ []

abbrev opened : Loop sample_input
opened = (
  (handle_key sample_input key_a (initial_model sample_input [] current)).0,
  (handle_key sample_input key_a (initial_model sample_input [] current)).1 ∷ [],
)

opened-Reached : Reached sample_checks sample_input [] current opened
opened-Reached = step (start refl) (pressed key_a refl)

Reached-IsSound_example :
    IsSound sample_input 1 16 (omega arith) (omega arith) opened.0 (in_flight opened.1)
Reached-IsSound_example =
    Reached-IsSound sample_checks sample_input 1 16 (omega arith) (omega arith) [] current
      (omega arith) (omega arith) opened opened-Reached

quote_alias-read_quoted_example :
    (t : Text) × (quote_alias (codes "it's") ++ codes " -x" ≡ b'\'' ∷ t)
    × (read_quoted t ≡ some (codes "it's", codes " -x"))
quote_alias-read_quoted_example =
    quote_alias-read_quoted (codes "it's") (codes " -x") (refl, (refl, (refl, (refl, tt)))) refl

abbrev wifi : Iface
wifi = record {
  alias = codes "Wi-Fi";
  servers = codes "1.2.3.4" ∷ codes "127.0.0.1" ∷ [];
  dhcp = [];
}

get_bootstrap_dns_lem_example :
    (get_bootstrap_dns sample_ip (ok (wifi ∷ [])) ≢ [])
    × (((es : List Iface) × (◌≡◌ {A = Result DnsError (List Iface)} (ok (wifi ∷ [])) (ok es))
          × FromIfaces sample_ip es (get_bootstrap_dns sample_ip (ok (wifi ∷ []))))
        ⊎ ((get_bootstrap_dns sample_ip (ok (wifi ∷ [])) ≡ public_bootstrap sample_ip)
            × NoServer sample_ip (ok (wifi ∷ []))))
get_bootstrap_dns_lem_example = get_bootstrap_dns_lem sample_ip (ok (wifi ∷ []))

abbrev home : Iface
home = record { alias = codes "Wi-Fi"; servers = codes "1.2.3.4" ∷ []; dhcp = [] }

-- The entry with the DHCP state of its interface
abbrev saved_home : Iface
saved_home = record home { dhcp = codes "Disabled" }

abbrev states : List (Text × Json)
states = (codes "Wi-Fi", text (codes "Disabled")) ∷ []

-- A computer with one interface: a text that a backup holds is `b`, every other text is torn.
abbrev sample_json : JsonLib
sample_json = record {
  decode_iface = λ b. none;
  decode_ifaces = λ b. if text_eq b (codes "i") then some (home ∷ []) else none;
  decode_dhcp_row = λ b. none;
  decode_dhcp_rows = λ b. some states;
  decode_combined = λ b. some (codes "i", some (codes "d"));
  encode_ifaces = λ es. codes "i";
  decode_prev = λ b.
      if text_eq b (codes "b")
      then some (record { entries = saved_home ∷ []; checksum = codes "h" })
      else none;
  encode_prev = λ pf. some (codes "b");
  decode_errors = λ b. some [];
  sha256_hex = λ b. codes "h";
}

abbrev sample_os : Os
sample_os = record { query = λ s. some (codes "q"); powershell = shell }

-- The user's own settings
abbrev user : Settings
user a = if text_eq a (codes "Wi-Fi") then some (codes "1.2.3.4") else none

home-Row : Row user states home
unfolding text_eq join
home-Row = (
  (refl, (refl, (refl, (refl, (refl, tt))))),
  inr (
    refl,
    λ h. cc,
    (refl, (refl, (refl, (refl, (refl, (refl, (refl, tt))))))),
    (inl refl, (λ h. refl, tt)),
  ),
)

home-Printed : Printed sample_json user (codes "i") (some (codes "d"))
unfolding text_eq
home-Printed = record {
  printed = codes "d";
  rows = home ∷ [];
  states = states;
  no_object = refl;
  row_list = refl;
  there = refl;
  no_row = refl;
  state_list = refl;
  told = (home-Row, tt);
}

queried_home :
    (s : Settings) → get_system_dns sample_json (sample_os.query s) ≡ ok (saved_home ∷ [])
unfolding get_system_dns normalize_ps_json annotate parse_dhcp_json last_dhcp dhcp_string text_eq
queried_home s = refl

home-Decodes : Decodes sample_json sample_os user (saved_home ∷ [])
unfolding text_eq prev_file
home-Decodes b enc = let same : codes "b" ≡ b = cc in rw (sym same) refl

sample-Laws : Laws sample_json sample_os user
sample-Laws = record {
  printed = λ s out dns dhcp own q d.
      let same : codes "i" ≡ dns = cc in
      let there : some (codes "d") ≡ dhcp = cc in rw (sym same, sym there) home-Printed;
  runs = shell-Runs sample_json refl;
  decoded = λ s es own e. rw (sym (ok_inj (sym (queried_home s) ∙ e))) home-Decodes;
}

abbrev no_faults : Faults
no_faults = record {
  no_dir = false;
  no_write = false;
  partial = [];
  locked = false;
  no_remove = false;
}

abbrev faults : RunFaults
faults = record { saving = no_faults; setting = no_faults; restoring = no_faults }

abbrev all_well : Calls
all_well = record { set_dns = true; ready = true; made = true; bound = true; served = true }

abbrev before : World sample_json sample_os
before = record { settings = user; prev = none }

nothing_partial : Unloadable sample_json sample_os user (some [])
unfolding parse_prev_dns text_eq
nothing_partial = (_, refl)

run-IsSafe_example :
    All (IsSafe sample_json sample_os user) (run sample_json sample_os all_well faults before).1
run-IsSafe_example =
    run-IsSafe sample_json sample_os user sample-Laws all_well faults before nothing_partial
      (inr (λ a. refl, tt))

run-Own_example :
    (v : World sample_json sample_os) × (last_of sample_json sample_os before
        (run sample_json sample_os all_well faults before).1
      ≡ (restore_system_dns sample_json sample_os no_faults v).1)
    × ((restore_system_dns sample_json sample_os no_faults v).0 ≡ ok tt
        → Own sample_json sample_os user
            (last_of sample_json sample_os before
              (run sample_json sample_os all_well faults before).1).settings)
run-Own_example =
    run-Own sample_json sample_os user sample-Laws all_well faults before nothing_partial
      (inr (λ a. refl, tt)) refl refl
