-- ===== src/Dns/Setup/Upstreams.antt =====
-- The list of upstreams that `NewServer` of dns/server.go makes.
use zeus_dns_cli.Base.{
  ℕ, ◌≡◌, refl, ◌≢◌, Option, List, [], ◌∷◌, map, All, Text, ok, sym, >>=-eq-ok, wrap_err-eq-ok,
  ok_inj, true, guard-eq-ok, not, length, ◌==◌,
}
use mathlib.Core.Path.{ap₂}
use zeus_dns_cli.Base.Int.{ℤ}
use zeus_dns_cli.Net.{IpLib, Url}
use zeus_dns_cli.Dns.Cache.Spec.{IsValid}
use zeus_dns_cli.Dns.Cache.Refine.{new_cache-IsValid}
use zeus_dns_cli.Dns.Upstream.{Upstream, Client, parse_upstream, validate, exchanger}
use zeus_dns_cli.Dns.Setup.{Setup, setup_one, setup_all, new_server}

not_empty {ℓ} : {A : Type ℓ} (xs : List A) → not (length xs == 0) ≡ true → xs ≢ []
not_empty [] h = λ e. cc
not_empty (x ∷ xs) h = λ e. cc

module _ (parse_url : Text → Option Url) (I : IpLib) (addr : Text) where
  abbrev pub Usable : Upstream × Client → Type 0
  Usable (u, c) = (validate I u addr ≡ ok tt) × (exchanger u ≡ ok c)

  setup_one-Usable :
      (raw : Text) (p : Upstream × Client)
      → setup_one parse_url I addr raw ≡ ok p
      → (parse_upstream parse_url raw ≡ ok p.0) × Usable p
  unfolding setup_one
  setup_one-Usable raw p h =
      let (u, parsed, h1) = >>=-eq-ok _ _ (wrap_err-eq-ok _ _ h) in
      let (_, valid, h2) = >>=-eq-ok _ _ h1 in
      let (c, client, h3) = >>=-eq-ok _ _ h2 in
      let same : p ≡ (u, c) = sym (ok_inj h3) in rw same (parsed, (valid, client))

  setup_all-Usable :
      (raws : List Text) (ps : List (Upstream × Client))
      → setup_all parse_url I addr raws ≡ ok ps
      → (map (parse_upstream parse_url) raws ≡ map (λ p. ok p.0) ps) × All Usable ps
  unfolding setup_all
  setup_all-Usable [] ps h = rw (sym (ok_inj h)) (refl, tt)
  setup_all-Usable (raw ∷ raws) ps h =
      let (p, one, h1) = >>=-eq-ok _ _ h in
      let (rest, more, h2) = >>=-eq-ok _ _ h1 in
      let (parsed, usable) = setup_one-Usable raw p one in
      let (parsed', usable') = setup_all-Usable raws rest more in
      rw (sym (ok_inj h2)) (ap₂ ◌∷◌ parsed parsed', (usable, usable'))

  -- A server that is made has at least one upstream, exactly those of the configuration in their
  -- order, each one parsed, checked against the listener's address and given a client; and its
  -- cache is valid.
  pub new_server-Usable :
      {Rr : Type 0} (raws : List Text) (size : ℤ) (level : Text) (now : ℕ) {s : Setup Rr}
      → new_server parse_url I raws addr size level now ≡ ok s
      → (s.upstreams ≢ [])
        × (map (parse_upstream parse_url) raws ≡ map (λ p. ok p.0) s.upstreams)
        × All Usable s.upstreams
        × IsValid s.server.cache
  unfolding new_server
  new_server-Usable raws size level now {s} h =
      let (ps, all, h1) = >>=-eq-ok _ _ h in
      let (_, some_given, h2) = >>=-eq-ok _ _ h1 in
      let made = sym (ok_inj h2) in
      let (parsed, usable) = setup_all-Usable raws ps all in
      let kept : ps ≢ [] = not_empty ps (guard-eq-ok _ _ some_given) in
      rw made (kept, parsed, usable, new_cache-IsValid size)
