-- ===== src/Run.antt =====
-- `Run` and `cleanup` of cmd/runner.go: the life of the server from its start to its end, as the
-- computer's states one after the other. The server itself stands for its outcomes.
pub mod Keeps
pub mod Backup
pub mod Safe
use zeus_dns_cli.Base.{
  ◌≡◌, Bool, true, false, ◌&&◌, Option, none, some, List, [], ◌∷◌, ◌++◌, if◌then◌else◌, Text, codes,
  Result, ok, err,
}
use zeus_dns_cli.Windows.{JsonLib}
use zeus_dns_cli.Windows.System.{
  Os, Faults, World, Outcome, save_system_dns, set_system_dns, restore_system_dns,
}

-- The settings of the configuration that `Run` reads itself, and how the calls of others end:
-- `Load`, `Validate` and `NewLogger` (`ready`), `NewServer`, `Listen` and `Serve`.
pub record Calls : Type 0 where
  pub set_dns : Bool
  pub ready : Bool
  pub made : Bool
  pub bound : Bool
  pub served : Bool

-- The faults of the three calls on the DNS settings.
pub record RunFaults : Type 0 where
  pub saving : Faults
  pub setting : Faults
  pub restoring : Faults

module _ (J : JsonLib) (O : Os) where
  -- The crash-resume guard with `SaveSystemDNS`: an existing backup is kept.
  unfoldable pub back_up : Calls → RunFaults → World J O → World J O
  back_up c f w =
      if c.set_dns
      then elim w.prev [ some b ↦ w | none ↦ (save_system_dns J O f.saving w).1 ]
      else w

  unfoldable pub take_over : Calls → RunFaults → World J O → World J O
  take_over c f w = if c.set_dns then (set_system_dns J O f.setting (codes "127.0.0.1") w).1 else w

  -- `cleanup`
  unfoldable pub cleanup : Calls → RunFaults → World J O → World J O
  cleanup c f w = if c.set_dns then (restore_system_dns J O f.restoring w).1 else w

  -- `Run` from the state `w`: whether it returns without error, and the states behind each of its
  -- changes, in their order.
  unfoldable pub run : Calls → RunFaults → World J O → Bool × List (World J O)
  run c f w =
      let saved = back_up c f w in
      let taken = take_over c f saved in
      if c.ready
      then (if c.made && c.bound
          then (c.served, saved ∷ taken ∷ cleanup c f taken ∷ [])
          else (false, saved ∷ cleanup c f saved ∷ []))
      else (false, [])

  -- The state at the end.
  unfoldable pub last_of : World J O → List (World J O) → World J O
  last_of w [] = w
  last_of w (v ∷ vs) = last_of v vs
