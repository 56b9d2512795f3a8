-- ===== src/Cmd/Install/Ghost.antt =====
-- `Install` of cmd/lifecycle.go: what it leaves where it succeeds, and where the start fails.
use zeus_dns_cli.Base.{
  ◌≢◌, [], ◌∷◌, codes, text_eq, text_eq_iff, ◌≡◌, ◌⊎◌, inl, inr, refl, true, false, Option, none,
  some, List, Text, arith, Bool-cases, Option-cases, Result-cases, ok,
}
use zeus_dns_cli.Service.{stopped, start_pending}
use zeus_dns_cli.Service.Manager.{Manager, Registered, Access}
use zeus_dns_cli.Service.Manager
use zeus_dns_cli.Config.{default_file}
use zeus_dns_cli.Cmd.{exit_success, exit_service, install_path, service_args}
use zeus_dns_cli.Cmd.Promote.{
  Running, Copying, copies, unopened, cut, unclosed, copy_file, same_path, promote_binary,
}
use zeus_dns_cli.Cmd.Install.{
  Computer, Calls, rollback_install, register, install_service, start_installed, clear_service,
  install,
}

-- The service as `Install` registers it.
abbrev pub registered : Text → Registered
registered config_path = record {
  exe = install_path;
  args = service_args config_path;
  state = stopped;
  recovers = true;
}

create-Registers :
    (a : Access) (exe : Text) (args : List Text) (m : Manager)
    → (Manager.install a exe args m).0 ≡ ok tt
    → (Manager.install a exe args m).1
      ≡ some (record { exe = exe; args = args; state = stopped; recovers = true })
unfolding Manager.install
create-Registers a exe args none h = ground arith
create-Registers a exe args (some r) h = cc

-- The binary is the running one, or stays as it is where the running one is at its place already.
abbrev pub Placed : Calls → Option Text → Option Text → Type 0
Placed c before behind =
    (exe : Running) × (c.exe ≡ some exe)
    × ((behind ≡ some exe.content)
        ⊎ ((same_path c.clean exe.path install_path ≡ true) × (behind ≡ before)))

copy_file-copies :
    (k : Copying) (content : Text) (dst : Option Text)
    → (copy_file k content dst).0 ≡ true
    → (copy_file k content dst).1 ≡ some content
unfolding copy_file
copy_file-copies copies content dst h = refl
copy_file-copies unopened content dst h = cc
copy_file-copies (cut n) content dst h = cc
copy_file-copies unclosed content dst h = cc

promote_binary-Placed :
    (c : Calls) (bin : Option Text)
    → (promote_binary c.clean c.exe c.makes_dir c.copying bin).0 ≡ ok tt
    → Placed c bin (promote_binary c.clean c.exe c.makes_dir c.copying bin).1
unfolding promote_binary
promote_binary-Placed c bin h = elim (Option-cases c.exe) [
  | inl e ↦ ground (arith, e)
  | inr (exe, e) ↦ elim (Bool-cases (same_path c.clean exe.path install_path)) [
    | inl s ↦ rw (e, s, promote_binary) (exe, refl, inr (s, refl))
    | inr s ↦ elim (Bool-cases (copy_file c.copying exe.content bin).0) [
      | inl k ↦
          (exe, e, inl (ground (arith, e, s, k, copy_file-copies c.copying exe.content bin k)))
      | inr k ↦ ground (arith, e, s, k)
    ]
  ]
]

register-Registers :
    (c : Calls) (config_path : Text) (m : Computer)
    → (register c config_path m).0 ≡ ok tt
    → ((register c config_path m).1.manager ≡ some (registered config_path))
      × ((register c config_path m).1.bin ≡ m.bin)
unfolding register
register-Registers c config_path m h =
    let cleared = (Manager.uninstall c.clearing_again m.manager).1 in
    let created = Manager.install c.creating install_path (service_args config_path) cleared in
    elim (Result-cases created.0) [
      | inr (e, bad) ↦ ground (arith, bad)
      | inl (u, good) ↦
          ground (
            arith,
            good,
            create-Registers c.creating install_path (service_args config_path) cleared,
          )
    ]

-- What a successful `installService` leaves.
abbrev Prepared : Calls → Text → Option Text → Computer → Type 0
Prepared c config_path bin m = (m.manager ≡ some (registered config_path)) × Placed c bin m.bin

install_service-Prepared :
    (c : Calls) (config_path : Text) (m : Computer)
    → (install_service c config_path m).0 ≡ ok tt
    → Prepared c config_path m.bin (install_service c config_path m).1
unfolding install_service
install_service-Prepared c config_path m h = elim (Bool-cases c.loads) [
  | inr e ↦ ground (arith, e)
  | inl loads ↦ elim (Bool-cases c.validates) [
    | inr e ↦ ground (arith, loads, e)
    | inl valid ↦ elim (Result-cases c.port) [
      | inr (x, e) ↦ ground (arith, loads, valid, e)
      | inl (u, free) ↦
          let placing = promote_binary c.clean c.exe c.makes_dir c.copying m.bin in
          elim (Result-cases placing.0) [
            | inr (x, e) ↦ ground (arith, loads, valid, free, e)
            | inl (v, placed) ↦
                let made = register c config_path (record m { bin = placing.1 }) in
                let done : made.0 ≡ ok tt = ground (arith, loads, valid, free, placed) in
                let (managed, same) =
                  register-Registers c config_path (record m { bin = placing.1 }) done in
                rw (loads, valid, free, placed, install_service)
                  (managed, rw same (promote_binary-Placed c m.bin placed))
          ]
    ]
  ]
]

start_installed-Started :
    (c : Calls) (r : Registered) (m : Computer)
    → m.manager ≡ some r
    → (start_installed c m).0 ≡ exit_success
    → ((start_installed c m).1.manager ≡ some (record r { state = start_pending }))
      × ((start_installed c m).1.bin ≡ m.bin)
unfolding start_installed Manager.start
start_installed-Started c r m e h = ground (arith, e)

-- The arguments of the service: none for the configuration at its usual place, which is also the
-- one with no path, and `-c` with the path for any other.
abbrev pub Names : Text → List Text → Type 0
Names config_path args =
    (((config_path ≡ []) ⊎ (config_path ≡ codes "C:\\ProgramData\\ZeusDNS\\config.yaml"))
      × (args ≡ []))
    ⊎ ((config_path ≢ [])
        × (config_path ≢ codes "C:\\ProgramData\\ZeusDNS\\config.yaml")
        × (args ≡ codes "-c" ∷ config_path ∷ []))

service_args-Names : (config_path : Text) → Names config_path (service_args config_path)
unfolding service_args
service_args-Names [] = inl (inl refl, refl)
service_args-Names (x ∷ path) = elim (Bool-cases (text_eq (x ∷ path) default_file)) [
  | inl t ↦ rw t (inl (inr ((text_eq_iff (x ∷ path) default_file).0 t), refl))
  | inr f ↦ rw f (inr (λ z. cc, λ z. let t = (text_eq_iff (x ∷ path) default_file).1 z in cc, refl))
]

-- Behind `Install` with exit code 0 the start of the service is under way, registered with the path
-- of the installed binary under `C:\Program Files`, with no argument where the configuration is at its
-- usual place and with `-c` and its path elsewhere, and with its recovery actions; and the installed
-- binary is the one that ran, or is left alone where that was it.
pub install-Installed :
    (c : Calls) (config_path : Text) (m : Computer)
    → (install c config_path m).0 ≡ exit_success
    → (args : List Text) × Names config_path args
      × ((install c config_path m).1.manager
          ≡ some (record {
            exe = codes "C:\\Program Files\\ZeusDNS\\zeusdns.exe";
            args = args;
            state = start_pending;
            recovers = true;
          }))
      × Placed c m.bin (install c config_path m).1.bin
unfolding install clear_service
install-Installed c config_path m h = elim (Bool-cases c.elevated) [
  | inr e ↦ absurd (ground (arith, e))
  | inl admin ↦ elim (Bool-cases c.exists) [
    | inr e ↦ absurd (ground (arith, admin, e))
    | inl there ↦
        let cleared = clear_service c m in
        elim (Result-cases (install_service c config_path cleared).0) [
          | inr (x, e) ↦ absurd (ground (arith, admin, there, e))
          | inl (u, good) ↦
              let (managed, placed) = install_service-Prepared c config_path cleared good in
              let prepared = (install_service c config_path cleared).1 in
              let (started, same) =
                start_installed-Started c (registered config_path) prepared managed
                  (ground (arith, admin, there, good)) in
              simp (admin, there, good, install)
                (service_args config_path, service_args-Names config_path, started, rw same placed)
        ]
  ]
]

-- A failed start leaves a ghost: the binary is removed, and the service that was registered for it
-- is not.
pub install_ghost :
    (c : Calls) (config_path : Text) (m : Computer)
    → c.elevated ≡ true
    → c.exists ≡ true
    → (install_service c config_path (clear_service c m)).0 ≡ ok tt
    → c.starting.starts ≡ false
    → c.removes ≡ true
    → ((install c config_path m).0 ≡ exit_service)
      × ((install c config_path m).1.manager ≡ some (registered config_path))
      × ((install c config_path m).1.bin ≡ none)
unfolding install start_installed rollback_install Manager.start
install_ghost c config_path m e x h s r =
    let (managed, placed) = install_service-Prepared c config_path (clear_service c m) h in
    ground (arith, e, x, h, s, r, managed)
