-- ===== src/Cmd/Setup/Writes.antt =====
-- `Wizard` of cmd/wizard.go and `Configure` of cmd/configure.go: what they write.
use zeus_dns_cli.Base.{
  ◌≡◌, ◌⊎◌, inl, inr, refl, true, Option, none, some, List, is_ok, Text, Bool-cases, Option-cases,
}
use zeus_dns_cli.Net.{IpLib}
use zeus_dns_cli.Config.{Config, validate}
use zeus_dns_cli.Cmd.{exit_success}
use zeus_dns_cli.Cmd.Install.{Computer}
use zeus_dns_cli.Cmd.Setup.{Session, Ending, configure_saved, configure}

module _ (abs : Text → Option Text) (I : IpLib) where
  -- The two ways for `Configure` to end.
  abbrev pub Kept : Session → Computer → Ending → Type 0
  Kept s m e =
      ((c : Config) × (upstreams : List Text) × (s.loaded ≡ some c)
        × (s.menu ≡ some (some upstreams))
        × (is_ok (validate abs I (record c { upstreams = upstreams })) ≡ true)
        × (e.code ≡ exit_success)
        × (e.written ≡ some (record c { upstreams = upstreams })))
      ⊎ ((e.written ≡ none) × (e.computer ≡ m) × ((e.code ≡ exit_success) → s.menu ≡ some none))

  -- `Configure` writes a configuration only where the menu saved one, and then it is valid and is
  -- the loaded one with the new list of upstreams, and the exit code is 0. Otherwise it writes none and
  -- leaves the service alone, and the exit code is 0 only where the menu was left without saving.
  pub configure-Kept : (s : Session) (m : Computer) → Kept s m (configure abs I s m)
  unfolding configure configure_saved
  configure-Kept s m = elim (Option-cases s.loaded) [
    | inl e ↦ simp (e, configure) (inr (refl, refl, λ h. cc))
    | inr (c, e) ↦ elim (Option-cases s.menu) [
      | inl n ↦ simp (e, n, configure) (inr (refl, refl, λ h. cc))
      | inr (none, n) ↦ simp (e, n, configure) (inr (refl, refl, λ h. refl))
      | inr (some ups, n) ↦
          elim (Bool-cases (is_ok (validate abs I (record c { upstreams = ups })))) [
            | inr bad ↦ simp (e, n, bad, configure, configure_saved) (inr (refl, refl, λ h. cc))
            | inl good ↦ elim (Bool-cases s.saves) [
              | inr f ↦ simp (e, n, good, f, configure, configure_saved) (inr (refl, refl, λ h. cc))
              | inl t ↦
                  simp (e, n, good, t, configure, configure_saved)
                    (inl (c, ups, refl, refl, good, refl, refl))
            ]
          ]
    ]
  ]
