-- ===== src/Cmd/Install/Removed.antt =====
-- `Uninstall` of cmd/lifecycle.go: what it removes, and what it leaves where it fails.
use zeus_dns_cli.Base.{◌≡◌, ◌⊎◌, inl, inr, refl, true, none, arith, Result-cases, ok, err}
use zeus_dns_cli.Service.Manager.{Manager, Registered, Access, Outcome, delete_stopped}
use zeus_dns_cli.Service.Manager
use zeus_dns_cli.Windows.{JsonLib}
use zeus_dns_cli.Windows.System.{Os, World, restore_system_dns}
use zeus_dns_cli.Cmd.{exit_success, exit_service}
use zeus_dns_cli.Cmd.Install.{Computer, UninstallCalls, removed_bin, dropped_path, uninstall}

delete_stopped-gone :
    (a : Access) (o : Outcome) → (delete_stopped a o).0 ≡ ok tt → (delete_stopped a o).1 ≡ none
unfolding delete_stopped
delete_stopped-gone a (err e, m) h = cc
delete_stopped-gone a (ok u, m) h = ground arith

uninstall-gone :
    (a : Access) (m : Manager)
    → (Manager.uninstall a m).0 ≡ ok tt
    → (Manager.uninstall a m).1 ≡ none
unfolding Manager.uninstall
uninstall-gone a m h = delete_stopped-gone a (Manager.stop a m) h

module _ (J : JsonLib) (O : Os) where
  -- `Uninstall` with administrator rights restores the DNS settings whatever its other calls do. With
  -- exit code 0 the service is not registered any more, and the binary and the entry of PATH are
  -- gone, each if its own removal succeeds. With another code, the binary and PATH are as they
  -- were: what was left by a failed installation stays if its service is missing.
  pub uninstall-Removed :
      (c : UninstallCalls) (m : Computer) (w : World J O)
      → c.elevated ≡ true
      → ((uninstall J O c m w).2 ≡ (restore_system_dns J O c.restoring w).1)
        × ((((uninstall J O c m w).0 ≡ exit_success)
              × ((uninstall J O c m w).1 ≡ record {
                manager = none;
                bin = removed_bin c.removes m.bin;
                path = dropped_path c.drops m.path;
              }))
            ⊎ (((uninstall J O c m w).0 ≡ exit_service)
                × ((uninstall J O c m w).1.bin ≡ m.bin)
                × ((uninstall J O c m w).1.path ≡ m.path)))
  unfolding uninstall
  uninstall-Removed c m w e =
      let done = Manager.uninstall c.deleting (Manager.stop c.stopping m.manager).1 in
      elim (Result-cases done.0) [
        | inr (x, bad) ↦ simp (e, bad, uninstall) (refl, inr (refl, refl, refl))
        | inl (u, good) ↦
            simp
              (
                e,
                good,
                uninstall-gone c.deleting (Manager.stop c.stopping m.manager).1 good,
                uninstall,
              )
              (refl, inl (refl, refl))
      ]
