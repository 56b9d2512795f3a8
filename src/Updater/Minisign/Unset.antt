-- ===== src/Updater/Minisign/Unset.antt =====
-- The updater with the key that updater/minisign.go embeds, which is empty: nothing is installed.
use zeus_dns_cli.Base.{
  ◌≡◌, ◌≢◌, ◌∙◌, inl, inr, refl, Bool, false, is_ok, Text, text_eq, Bool-cases, Option-cases,
  Result-cases, ok,
}
use zeus_dns_cli.Updater.{UpdaterLib, Release, candidate, trim_v}
use zeus_dns_cli.Updater.Swap.{Machine, SwapFaults, updated, is_downgrade, install, update}
use zeus_dns_cli.Updater.Verified.{candidate-IsVerified}
use zeus_dns_cli.Updater.Minisign.{embedded_minisign_pubkey, minisig_verify}

unset-refuses :
    (ed25519 : Text → Text → Text → Bool) (content sig_file : Text)
    → is_ok (minisig_verify ed25519 embedded_minisign_pubkey content sig_file) ≡ false
unfolding minisig_verify
unset-refuses ed25519 content sig_file = refl

module _ (L : UpdaterLib) (ed25519 : Text → Text → Text → Bool) where
  -- The check of signatures of the library is `minisigVerify` with the embedded key.
  abbrev pub Embeds : Type 0
  Embeds =
      (zip sig : Text)
      → L.minisig_verify zip sig ≡ is_ok (minisig_verify ed25519 embedded_minisign_pubkey zip sig)

  no_candidate : Embeds → (arch exe : Text) (r : Release) → candidate L arch r ≢ ok exe
  no_candidate same arch exe r h =
      let v = candidate-IsVerified L arch r exe h in
      let signed = v.signed in
      let refused = same v.zip v.signature ∙ unset-refuses ed25519 v.zip v.signature in cc

  -- As the repository stands, with no embedded key, an update never changes anything: whatever
  -- release there is and whatever its signature, the binaries and the service stay as they were,
  -- and no new version is reported.
  pub update_unset :
      Embeds
      → (f : SwapFaults) (arch current : Text) (m : Machine)
      → ((update L f arch current m).1 ≡ m)
        × ((before behind : Text) → (update L f arch current m).0 ≢ ok (updated before behind))
  unfolding update install
  update_unset same f arch current m = elim (Option-cases L.latest) [
    | inl l ↦ simp (l, update) (refl, λ b h e. cc)
    | inr (r, l) ↦ elim (Bool-cases (text_eq (trim_v r.tag) current)) [
      | inl t ↦ simp (l, t, update) (refl, λ b h e. cc)
      | inr t ↦ elim (Bool-cases (is_downgrade L current (trim_v r.tag))) [
        | inl d ↦ simp (l, t, d, update) (refl, λ b h e. cc)
        | inr d ↦ elim (Result-cases (candidate L arch r)) [
          | inl (exe, good) ↦ absurd (no_candidate same arch exe r good)
          | inr (x, bad) ↦ simp (l, t, d, bad, update, install) (refl, λ b h e. cc)
        ]
      ]
    ]
  ]
